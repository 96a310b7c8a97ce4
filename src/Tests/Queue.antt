-- ===== src/Tests/Queue.antt =====
-- Runs of the calls of BufferQueueProducer.cpp on a slot that is owned.
use osdi_artifact.Prelude.{true, pos, List, [], ◌∷◌, some, ◌≡◌, refl, arith}
use osdi_artifact.Display.Queue.State.{Queue}
use osdi_artifact.Display.Queue.{
  request_buffer, detach_buffer, cancel_buffer, detach_next_buffer, in_range, cancel_slot,
  cancelled, detach_front,
}
use osdi_artifact.Display.Queue.Sets.{insert}
use osdi_artifact.Display.Queue.Counts.{View}
use osdi_artifact.Display.Queue.Consistent.{IsConsistent, Laws}
use osdi_artifact.Display.Queue.Calls.{Call, request, detach, detach_next, run, run-IsConsistent}
use osdi_artifact.Display.Queue.Refused.{IsRefused}
use osdi_artifact.Display.Queue.Ended.{cancel_buffer-run}
use osdi_artifact.Tests.Cores.{core, two_dequeued}

laws : Laws core
laws = record {
  is_free-is_dequeued = λ s h. ground arith;
  is_free-cancel = λ s v d h. ground arith;
  cancel-IsValid = λ s v. ground arith;
  set_shared-IsValid = λ b s h. ground arith;
  clear-IsValid = λ s. refl;
  is_shared-cancel = λ s. refl;
  is_shared-set_shared = λ b s. refl;
  is_free-set_shared = λ b s. refl;
  is_free-clear = λ s. refl;
  graphic_buffer-clear = λ s. refl;
  wait-IsConsistent = λ q c. c;
}

two_dequeued-IsConsistent : IsConsistent core two_dequeued
two_dequeued-IsConsistent = record {
  one_place = λ n. ground arith;
  owned-active = λ n h. ground arith;
  active-owned = λ n h. ground arith;
  all_valid = λ n. ground arith;
  free_slots-none = λ n h. ground arith;
}

abbrev calls : List Call
calls = request (pos 0) ∷ Call.cancel (pos 1) (some 7) ∷ detach (pos 0) ∷ detach_next true true ∷ []

-- Slot 1 is cancelled and then detached, slot 0 is requested and detached.
calls-free_slots : (run core calls two_dequeued).free_slots ≡ 0 ∷ 1 ∷ 2 ∷ []
unfolding request_buffer detach_next_buffer detach_buffer cancel_buffer in_range cancel_slot
    cancelled detach_front insert
calls-free_slots = refl

run-IsConsistent_example : IsConsistent core (run core calls two_dequeued)
run-IsConsistent_example = run-IsConsistent core laws calls two_dequeued two_dequeued-IsConsistent

abbrev after_cancel : Queue View
after_cancel = run core calls (cancel_buffer core (pos 1) (some 7) two_dequeued).queue

cancel_buffer-run_example :
    IsRefused core after_cancel (request_buffer core (pos 1) after_cancel)
    × IsRefused core after_cancel (detach_buffer core (pos 1) after_cancel)
    × IsRefused core after_cancel (cancel_buffer core (pos 1) (some 9) after_cancel)
unfolding cancel_buffer in_range
cancel_buffer-run_example =
    cancel_buffer-run core laws 1 (some 7) two_dequeued calls (some 9) (λ q. refl)
      two_dequeued-IsConsistent refl refl
