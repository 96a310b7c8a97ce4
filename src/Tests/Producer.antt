-- ===== src/Tests/Producer.antt =====
-- Runs of all the operations of BufferQueueProducer.cpp, and of its threads.
use osdi_artifact.Prelude.{
  take, length, ◌≤◌, subst, ◌≢◌, ◌+◌, ◌==◌, true, false, pos, List, [], ◌∷◌, none, some, ◌≡◌, refl,
  arith, if◌then◌else◌,
}
use osdi_artifact.Display.Queue.State.{Request, other_error, Queue}
use osdi_artifact.Display.Queue.{in_range}
use osdi_artifact.Display.Queue.Counts.{View, IsBalanced, Balancing}
use osdi_artifact.Display.Queue.Dequeue.{
  Course, made, error, Dequeued, exhausted, dequeue_buffer, await_allocation, take_slot, hand_over,
  taken, on_second,
}
use osdi_artifact.Display.Queue.Enqueue.{Input, queue_buffer}
use osdi_artifact.Display.Queue.Wait.{
  FreeSlotCaller, found, wait_for_free_slot, round, refused, count_where, find_slot,
  too_many_buffers, as_size_t, free_for, get_free_buffer, get_free_slot,
}
use osdi_artifact.Display.Queue.Counts.{IsLoose}
use osdi_artifact.Display.Queue.Sets.{count}
use osdi_artifact.Display.Queue.Kept.{IsFair}
use osdi_artifact.Display.Queue.Api.{Operation, run_all, IsBalancedIf, run_all-IsBalanced}
use osdi_artifact.Display.Queue.Taking.{
  HasRoom, wait_for_free_slot-HasRoom, failed_allocation-two_places,
}
use osdi_artifact.Display.Queue.Enough.{dequeue_buffer-enough}
use osdi_artifact.Tests.Cores.{core, dequeued_slot, two_dequeued, counts, no_crop}
use osdi_artifact.Display.Queue.Rising.{RisesOn, queue_buffer-Numbered}
use osdi_artifact.Display.Queue.Enqueue.{
  Queued, sends, Sent, is_scaling_mode, mark_shared, crop_fits, push, last_item, queue_slot,
  make_item, is_droppable,
}
use osdi_artifact.Display.Queue.Tickets.{
  Callbacks, Threads, IsInitial, Step, Reach, here, next, queues,
}
use osdi_artifact.Display.Queue.InOrder.{Reach-called, Reach-moves_on}
use osdi_artifact.Display.Queue.Owners.{stays}
use osdi_artifact.Display.Queue.Attach.{attach_buffer}
use osdi_artifact.Display.Queue.RoundTrip.{IsOpen, Restores, detach_buffer-attach_buffer}
use osdi_artifact.Display.Queue.Owners.DequeueMoves.{PlaysFair}
use osdi_artifact.Display.Queue.Owners.Refines.{AllAct, perform-AllAct}

adjusted-same :
    (q q' : Queue View) → some q ≡ some q' → IsBalanced core counts q → IsBalanced core counts q'
adjusted-same q q' e b = subst (IsBalanced core counts) (cc) b

balancing : Balancing core counts
balancing = record {
  wait-IsBalanced = λ q b. b;
  adjust-IsBalanced = λ d q q' e b. adjusted-same q q' e b;
  free_all-IsBalanced = λ q b. b;
}

two_dequeued-IsBalanced : IsBalanced core counts two_dequeued
two_dequeued-IsBalanced = record {
  one_place = λ n. ground arith;
  active-total = λ n. ground arith;
  items-queues = λ n. ground arith;
  not_shared = λ n. ground arith;
  no_shared_mode = refl;
  no_shared_slot = refl;
}

-- Nobody else calls, and the buffer 20 is allocated.
abbrev course : Course core
course = record { before = λ q. q; wakes = []; allocation = made 20; meanwhile = λ q. q }

course-IsFair : IsFair core counts balancing course
course-IsFair = record {
  before_keeps = λ q b. b;
  wakes_keep = tt;
  meanwhile_keeps = λ q b. b;
  buffer = 20;
  allocates = refl;
  stays = λ q h. h;
}

abbrev wish : Request
wish = record { width = 20; height = 20; format = 1; usage = 0 }

abbrev input : Input
input = record {
  timestamp = pos 1000;
  is_auto_timestamp = false;
  data_space = 0;
  crop = no_crop;
  scaling_mode = 0;
  transform = 8;
  sticky_transform = 0;
  fence = some 5;
  surface_damage = 3;
  hdr_metadata = 0;
}

-- A third slot is dequeued with a new buffer, the first is queued, the second cancelled.
abbrev operations : List (Operation core)
operations =
    Operation.dequeue 2 course wish
    ∷ Operation.request (pos 0)
    ∷ Operation.queue (pos 0) input
    ∷ Operation.cancel (pos 1) (some 7)
    ∷ Operation.max_dequeued (pos 2)
    ∷ []

run_all-IsBalanced_example :
    IsBalancedIf core counts balancing (run_all core operations two_dequeued)
run_all-IsBalanced_example =
    run_all-IsBalanced core counts balancing operations two_dequeued
      (course-IsFair, (tt, (tt, (tt, (tt, tt))))) two_dequeued-IsBalanced

dequeue_buffer-enough_example : dequeue_buffer core 2 course wish two_dequeued ≢ exhausted
unfolding await_allocation
dequeue_buffer-enough_example =
    dequeue_buffer-enough core 64 2 course wish two_dequeued tt (omega arith)

-- The slot 2 has left its list.
abbrev slot_taken : Queue View
slot_taken = record two_dequeued { free_slots = [] }

slot_taken-IsLoose : IsLoose core counts 2 slot_taken
slot_taken-IsLoose = record {
  balanced = record {
    one_place = λ n. ground arith;
    active-total = λ n. ground arith;
    items-queues = λ n. ground arith;
    not_shared = λ n. ground arith;
    no_shared_mode = refl;
    no_shared_slot = refl;
  };
  nowhere = refl;
}

finds_two : wait_for_free_slot core FreeSlotCaller.dequeue [] two_dequeued ≡ found 2 slot_taken []
unfolding wait_for_free_slot round refused count_where find_slot too_many_buffers as_size_t free_for
    get_free_buffer get_free_slot
finds_two = refl

wait_for_free_slot-HasRoom_example : HasRoom core counts 2 slot_taken
wait_for_free_slot-HasRoom_example =
    wait_for_free_slot-HasRoom core counts FreeSlotCaller.dequeue [] [] 2 two_dequeued slot_taken tt
      two_dequeued-IsBalanced finds_two

abbrev after_failure : Queue View
after_failure = (hand_over core 2 (error 12) (take_slot core 2 wish slot_taken).queue).1

failed_allocation-two_places_example :
    (on_second core (error 12) (λ p. p) (taken 2 (take_slot core 2 wish slot_taken))
      ≡ Dequeued.refuses (other_error 12) after_failure)
    × (count 2 after_failure.free_slots ≡ 1)
    × (count 2 after_failure.active_buffers ≡ 1)
failed_allocation-two_places_example =
    failed_allocation-two_places core counts 2 12 wish slot_taken slot_taken-IsLoose refl

abbrev requested : Queue View
requested = record two_dequeued {
  slots = λ n.
      if n == 0
      then (record (dequeued_slot 100) { request_buffer_called = true })
      else two_dequeued.slots n;
}

queue_buffer-Numbered_example : RisesOn core (queue_buffer core (pos 0) input requested)
queue_buffer-Numbered_example =
    queue_buffer-Numbered core (pos 0) input requested (omega arith) (omega arith)

abbrev first_callbacks : Callbacks
first_callbacks = record {
  current_callback_ticket = 0;
  last_queue_buffer_fence = 0;
  last_queued_crop = no_crop;
  last_queued_transform = 0;
}

abbrev start : Threads core
start = record {
  queue = requested;
  waiting = [];
  callbacks = first_callbacks;
  queued = [];
  called = [];
}

start-IsInitial : IsInitial core start
start-IsInitial = record {
  no_ticket = refl;
  no_callback = refl;
  none_waiting = refl;
  none_queued = refl;
  none_called = refl;
}

abbrev queue_of : Queued core → Queue View
queue_of (Queued.refuses status q) = q
queue_of (sends s q) = q
queue_of Queued.crashes = requested

abbrev first_sent : Sent core
first_sent = record {
  item = record {
    slot = 0;
    graphic_buffer = none;
    fence = 5;
    frame_number = 6;
    is_droppable = false;
    is_stale = false;
    acquire_called = false;
    crop = no_crop;
    transform = 0;
    transform_to_display_inverse = true;
    scaling_mode = 0;
    timestamp = pos 1000;
    is_auto_timestamp = false;
    data_space = 2;
    hdr_metadata = 0;
    surface_damage = 3;
    queued_buffer = true;
    auto_refresh = false;
    api = 2;
  };
  is_replacing = false;
  has_listener = true;
  ticket = 0;
  fence = 5;
  output = record {
    width = 10;
    height = 10;
    transform_hint = 0;
    num_pending_buffers = 1;
    next_frame_number = 7;
    buffer_replaced = false;
  };
}

abbrev queue_sent : Queue View
queue_sent = queue_of (queue_buffer core (pos 0) input requested)

-- What queueBuffer sends for the slot 0.
sends_first : queue_buffer core (pos 0) input requested ≡ sends first_sent queue_sent
unfolding queue_buffer is_scaling_mode in_range mark_shared crop_fits push last_item queue_slot
    make_item is_droppable
sends_first = refl

abbrev one_waits : Threads core
one_waits = record start { queue = queue_sent; waiting = first_sent ∷ []; queued = first_sent ∷ [] }

run_one : Reach core start one_waits
run_one = next here (queues (pos 0) input first_sent queue_sent sends_first refl)

Reach-called_example :
    (one_waits.called ≡ take one_waits.callbacks.current_callback_ticket one_waits.queued)
    × (one_waits.callbacks.current_callback_ticket ≤ length one_waits.queued)
Reach-called_example = Reach-called core start one_waits start-IsInitial run_one

Reach-moves_on_example :
    (v : Threads core) × Step core one_waits v
    × (v.callbacks.current_callback_ticket ≡ one_waits.callbacks.current_callback_ticket + 1)
    × (length v.called ≡ length one_waits.called + 1)
Reach-moves_on_example = Reach-moves_on core start one_waits start-IsInitial run_one (omega arith)

course-PlaysFair : PlaysFair core counts balancing course
course-PlaysFair = record {
  fair = course-IsFair;
  before_plays = λ q b. stays (λ k. refl);
  wakes_play = tt;
  meanwhile_plays = λ q b. stays (λ k. refl);
}

-- A third slot is dequeued with a new buffer, the first is queued, the second cancelled and the third
-- detached.
abbrev calls_of_slots : List (Operation core)
calls_of_slots =
    Operation.dequeue 2 course wish
    ∷ Operation.request (pos 2)
    ∷ Operation.queue (pos 0) input
    ∷ Operation.cancel (pos 1) (some 7)
    ∷ Operation.detach (pos 2)
    ∷ []

perform-AllAct_example : AllAct core counts balancing calls_of_slots two_dequeued
perform-AllAct_example =
    perform-AllAct core counts balancing calls_of_slots two_dequeued (λ q b. stays (λ k. refl))
      (course-PlaysFair, (tt, (tt, (tt, (tt, tt))))) two_dequeued-IsBalanced

two_dequeued-IsOpen : IsOpen core counts 2 [] 20 two_dequeued
unfolding refused count_where too_many_buffers as_size_t
two_dequeued-IsOpen = record {
  balanced = two_dequeued-IsBalanced;
  first = refl;
  ascending = tt;
  small = omega arith;
  open_queue = refl;
  connected = refl;
  passes = refl;
  few = refl;
  generation = refl;
  no_allocation = refl;
}

detach_buffer-attach_buffer_example :
    Restores core counts 2 two_dequeued (attach_buffer core true (some 20) [] two_dequeued)
detach_buffer-attach_buffer_example =
    detach_buffer-attach_buffer core counts 2 20 [] [] two_dequeued two_dequeued-IsOpen
