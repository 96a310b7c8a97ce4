-- ===== src/Mapper/Touch/Stream.antt =====
-- What a listener can rely on of the motions of TouchInputMapper in InputReader.cpp: it knows the
-- pointers that are down by the motions alone.
use osdi_artifact.Prelude.{
  ℕ, ◌==◌, Bool, true, false, some, List, [], ◌∷◌, ◌++◌, length, get_elem?, ◌≡◌, sym, ◌∙◌, arith,
  if◌then◌else◌,
}
use osdi_artifact.Pointer.Bits.Elem.{elem}
use osdi_artifact.Mapper.Touch.State.{
  Parts, Action, cancel, move, down, up, pointer_down, pointer_up, hover_enter, hover_move,
  hover_exit, button_press, button_release, Cooked, Motion, ids_of,
}

abbrev pub Ids : Type 0
Ids = ℕ → Bool

abbrev pub put : Ids → ℕ → Ids
put s n = λ k. if n == k then true else s k

abbrev pub lift : Ids → ℕ → Ids
lift s n = λ k. if n == k then false else s k

abbrev pub SameIds : Ids → Ids → Type 0
SameIds s e = (k : ℕ) → e k ≡ s k

-- Whether an action tells of pointers that touch.
abbrev pub is_touch : Action → Bool
is_touch cancel = true
is_touch move = true
is_touch down = true
is_touch up = true
is_touch pointer_down = true
is_touch pointer_up = true
is_touch hover_enter = false
is_touch hover_move = false
is_touch hover_exit = false
is_touch button_press = false
is_touch button_release = false

module _ (parts : Parts) where
  open parts use {id_of}

  -- The properties to which the ids of a set lead carry these ids.
  abbrev pub Agrees : Cooked parts → Ids → Type 0
  Agrees c s = (k : ℕ) → s k ≡ true → id_of (c.properties (c.id_to_index k)) ≡ k

  -- The motion has just the pointers of the set.
  abbrev pub Shows : Motion parts → Ids → Type 0
  Shows m s = (k : ℕ) → elem k (ids_of parts m.pointers) ≡ s k

  -- Its index leads to the pointer with the id.
  abbrev pub PointsTo : Motion parts → ℕ → Type 0
  PointsTo m n = get_elem? (ids_of parts m.pointers) m.index ≡ some n

  abbrev pub is_single : Motion parts → Bool
  is_single m = length m.pointers == 1

  -- From the pointers `s` that are down, one motion leads to the pointers `t`: a move has all of them; a
  -- pointer that goes up was down, and its motion has it still, as `up` if it is the last one; one
  -- that goes down was up, and its motion has it already, as `down` if it is the first. After a cancel
  -- none is down, and the other actions leave them as they are.
  pub data Goes (s : Ids) (m : Motion parts) (t : Ids) : Type 0 where
    moves : m.action ≡ move → Shows m s → SameIds s t → Goes s m t
    lifts :
        (n : ℕ)
        → s n ≡ true
        → m.action ≡ (if is_single m then up else pointer_up)
        → Shows m s
        → PointsTo m n
        → SameIds (lift s n) t
        → Goes s m t
    puts :
        (n : ℕ)
        → s n ≡ false
        → m.action ≡ (if is_single m then down else pointer_down)
        → Shows m t
        → PointsTo m n
        → SameIds (put s n) t
        → Goes s m t
    cancels : m.action ≡ cancel → ((k : ℕ) → t k ≡ false) → Goes s m t
    passes : is_touch m.action ≡ false → SameIds s t → Goes s m t

  abbrev pub Stream : Ids → List (Motion parts) → Ids → Type 0
  Stream s [] e = SameIds s e
  Stream s (m ∷ ms) e = (t : Ids) × Goes s m t × Stream t ms e

  Goes-from : {r s t : Ids} {m : Motion parts} → SameIds r s → Goes s m t → Goes r m t
  Goes-from h (moves a m g) = moves a (λ k. m k ∙ h k) (λ k. g k ∙ h k)
  Goes-from h (lifts n i a m p g) =
      lifts n (sym (h n) ∙ i) a (λ k. m k ∙ h k) p (λ k. ground (arith, g k, h k))
  Goes-from h (puts n i a m p g) = puts n (sym (h n) ∙ i) a m p (λ k. ground (arith, g k, h k))
  Goes-from h (cancels a g) = cancels a (λ k. g k)
  Goes-from h (passes a g) = passes a (λ k. g k ∙ h k)

  pub Stream-from :
      (ms : List (Motion parts)) (s t e : Ids) → SameIds s t → Stream t ms e → Stream s ms e
  Stream-from [] s t e h g = λ k. g k ∙ h k
  Stream-from (m ∷ ms) s t e h (u, g, r) = (u, Goes-from h g, r)

  pub Stream-append :
      (ms ns : List (Motion parts)) (s t e : Ids)
      → Stream s ms t
      → Stream t ns e
      → Stream s (ms ++ ns) e
  Stream-append [] ns s t e h r = Stream-from ns s t e h r
  Stream-append (m ∷ ms) ns s t e (u, g, h) r = (u, g, Stream-append ms ns u t e h r)

  pub Stream-to :
      (ms : List (Motion parts)) (s t e : Ids) → SameIds t e → Stream s ms t → Stream s ms e
  Stream-to [] s t e h g = λ k. h k ∙ g k
  Stream-to (m ∷ ms) s t e h (u, g, r) = (u, g, Stream-to ms u t e h r)
