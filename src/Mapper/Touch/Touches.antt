-- ===== src/Mapper/Touch/Touches.antt =====
-- dispatchTouches of TouchInputMapper in InputReader.cpp: the motions follow the pointers that touch.
use osdi_artifact.Prelude.{
  count, ℕ, suc, ◌≤◌, ◌<◌, ◌==◌, ℤ, Bool, true, false, not, ◌&&◌, ◌||◌, Option, none, some, List,
  [], ◌∷◌, ◌++◌, length, get_elem?, ◌≡◌, refl, ◌∙◌, ap, ap₂, sym, arith, if◌then◌else◌, if-keeps,
}
use osdi_artifact.Pointer.Bits.Elem.{elem}
use osdi_artifact.Mapper.Touch.State.{
  Parts, Action, move, pointer_down, pointer_up, Cooked, Touch, Motion, Cycle, ids_of,
}
use osdi_artifact.Mapper.Touch.Motion.{
  position, alone, collect, dispatch_motion, update_pointer, update_moved_pointers, dispatch_ups,
  dispatch_downs, down_time_of, dispatch_move, dispatch_changes, dispatch_touches,
}
use osdi_artifact.Mapper.Touch.Stream.{
  Ids, SameIds, Agrees, Shows, PointsTo, moves, lifts, puts, Stream, Stream-from, Stream-to,
  Stream-append,
}

get_elem?-position :
    (n : ℕ) (ids : List ℕ) → elem n ids ≡ true → get_elem? ids (position n ids) ≡ some n
unfolding position
get_elem?-position n [] h = absurd (ground arith)
get_elem?-position n (id ∷ ids) h = ground (arith, h, get_elem?-position n ids)

-- The one there is stands in the first place.
position-single : (n : ℕ) (ids : List ℕ) → elem n ids ≡ true → length ids ≡ 1 → position n ids ≡ 0
unfolding position
position-single n [] h l = refl
position-single n (id ∷ []) h l = ground (arith, h)
position-single n (id ∷ j ∷ ids) h l = absurd (omega (arith, l))

module _ (parts : Parts) where
  open parts use {bits, ops, Properties, Coords, id_of}

  ids_of-collect :
      (c : Cooked parts) (ids : List ℕ)
      → Agrees parts c (λ k. elem k ids)
      → ids_of parts (collect parts c ids) ≡ ids
  ids_of-collect c [] g = refl
  ids_of-collect c (id ∷ ids) g =
      ap₂ (λ i l. i ∷ l) (g id (ground arith))
        (ids_of-collect c ids (λ k h. g k (ground (arith, h))))

  ids_of-marked :
      (c : Cooked parts) (b : bits.Bits)
      → Agrees parts c (bits.has_bit b)
      → ids_of parts (collect parts c (bits.marked b)) ≡ bits.marked b
  ids_of-marked c b g =
      ids_of-collect c (bits.marked b) (λ k h. g k (sym (bits.elem-marked b k) ∙ h))

  length-collect : (c : Cooked parts) (ids : List ℕ) → length (collect parts c ids) ≡ length ids
  length-collect c [] = refl
  length-collect c (id ∷ ids) = ap suc (length-collect c ids)

  abbrev has : bits.Bits → Ids
  has b = bits.has_bit b

  dispatch_motion-Shows :
      (y : Cycle) (a : Action) (ab buttons timestamp : ℕ) (c : Cooked parts) (b : bits.Bits)
      (o : Option ℕ) (d : ℤ)
      → Agrees parts c (has b)
      → Shows parts (dispatch_motion parts y a ab buttons timestamp c b o d) (has b)
  unfolding dispatch_motion
  dispatch_motion-Shows y a ab buttons timestamp c b o d g k =
      ap (elem k) (ids_of-marked c b g) ∙ bits.elem-marked b k

  dispatch_motion-PointsTo :
      (y : Cycle) (a : Action) (ab buttons timestamp : ℕ) (c : Cooked parts) (b : bits.Bits) (n : ℕ)
      (d : ℤ)
      → Agrees parts c (has b)
      → has b n ≡ true
      → PointsTo parts (dispatch_motion parts y a ab buttons timestamp c b (some n) d) n
  unfolding dispatch_motion
  dispatch_motion-PointsTo y a ab buttons timestamp c b n d g h =
      ap (λ l. get_elem? l (position n (bits.marked b))) (ids_of-marked c b g)
      ∙ get_elem?-position n (bits.marked b) (bits.elem-marked b n ∙ h)

  -- The action is that of the one pointer where there is no other.
  dispatch_motion-action :
      (y : Cycle) (a : Action) (ab buttons timestamp : ℕ) (c : Cooked parts) (b : bits.Bits) (n : ℕ)
      (d : ℤ)
      → has b n ≡ true
      → let m = dispatch_motion parts y a ab buttons timestamp c b (some n) d in
        m.action ≡ (if length m.pointers == 1 then alone a else a)
  unfolding dispatch_motion
  dispatch_motion-action y a ab buttons timestamp c b n d h = ground (
    arith,
    length-collect c (bits.marked b),
    position-single n (bits.marked b) (bits.elem-marked b n ∙ h),
  )

  -- The ids of a list are members, each once.
  record AreIn (ids : List ℕ) (s : Ids) : Type 0 where
    members : (k : ℕ) → elem k ids ≡ true → s k ≡ true
    once : (k : ℕ) → count k ids ≤ 1

  count-elem : (n : ℕ) (ids : List ℕ) → count n ids ≡ 0 → elem n ids ≡ false
  count-elem n [] h = refl
  count-elem n (m ∷ ms) h = ground (arith, h, count-elem n ms)

  -- The first of a list in which each id is once is not in the rest.
  first-once : (n : ℕ) (ids : List ℕ) → count n (n ∷ ids) ≤ 1 → elem n ids ≡ false
  first-once n ids h = count-elem n ids (ground (arith, h))

  abbrev lifted : Ids → List ℕ → Ids
  lifted s ids = λ k. s k && not (elem k ids)

  dispatch_ups-Stream :
      (y : Cycle) (t : Touch parts) (ids : List ℕ) (d : bits.Bits)
      → AreIn ids (has d)
      → Agrees parts t.last (has d)
      → let (ms, e) = dispatch_ups parts y t ids d in
        Stream parts (has d) ms (has e) × SameIds (lifted (has d) ids) (has e)
  unfolding dispatch_ups
  dispatch_ups-Stream y t [] d i g = (λ k. refl, λ k. ground arith)
  dispatch_ups-Stream y t (id ∷ ids) d i g =
      let d' = ops.clear_bit d id in
      let apart = first-once id ids (i.once id) in
      let there = i.members id (ground arith) in
      let rest =
        dispatch_ups-Stream y t ids d'
          (record {
            members = λ k h. ground (arith, h, apart, i.members k, ops.has_bit-clear_bit d id k);
            once = λ k. ground (arith, i.once k);
          })
          (λ k h. g k (ground (arith, h, ops.has_bit-clear_bit d id k))) in
      (
        (
          has d',
          lifts id there (dispatch_motion-action y pointer_up 0 _ _ t.last d id t.down_time there)
              (λ k. dispatch_motion-Shows y pointer_up 0 _ _ t.last d (some id) t.down_time g k)
              (dispatch_motion-PointsTo y pointer_up 0 _ _ t.last d id t.down_time g there)
              (λ k. ops.has_bit-clear_bit d id k),
          rest.0,
        ),
        λ k. ground (arith, rest.1 k, ops.has_bit-clear_bit d id k),
      )

  -- The ids of a list are no members, and each is there once.
  record AreOut (ids : List ℕ) (s : Ids) : Type 0 where
    strangers : (k : ℕ) → elem k ids ≡ true → s k ≡ false
    small : (k : ℕ) → elem k ids ≡ true → k < 32
    once : (k : ℕ) → count k ids ≤ 1

  abbrev joined : Ids → List ℕ → Ids
  joined s ids = λ k. s k || elem k ids

  dispatch_downs-Stream :
      (y : Cycle) (t : Touch parts) (ids : List ℕ) (d : bits.Bits)
      → AreOut ids (has d)
      → Agrees parts t.current (joined (has d) ids)
      → Stream parts (has d) (dispatch_downs parts y t ids d).0 (joined (has d) ids)
  unfolding dispatch_downs
  dispatch_downs-Stream y t [] d i g = λ k. ground arith
  dispatch_downs-Stream y t (id ∷ ids) d i g =
      let d' = bits.mark_bit d id in
      let u = record t { down_time = down_time_of parts y t d' } in
      let apart = first-once id ids (i.once id) in
      let marks : (k : ℕ) → has d' k ≡ (if id == k then true else has d k) =
        λ k. bits.has_bit-mark_bit d id k (i.small id (ground arith)) in
      let there : has d' id ≡ true = ground (arith, marks id) in
      let rest =
        dispatch_downs-Stream y u ids d'
          (record {
            strangers = λ k h. ground (arith, h, apart, i.strangers k, marks k);
            small = λ k h. i.small k (ground (arith, h));
            once = λ k. ground (arith, i.once k);
          })
          (λ k h. g k (ground (arith, h, marks k))) in
      let now : Agrees parts t.current (has d') = λ k h. g k (ground (arith, h, marks k)) in
      (
        has d',
        puts id (i.strangers id (ground arith))
            (dispatch_motion-action y pointer_down 0 _ _ t.current d' id u.down_time there)
            (λ k.
              dispatch_motion-Shows y pointer_down 0 _ _ t.current d' (some id) u.down_time now k)
            (dispatch_motion-PointsTo y pointer_down 0 _ _ t.current d' id u.down_time now there)
            (λ k. marks k),
        Stream-to parts (dispatch_downs parts y u ids d').0 (has d') (joined (has d') ids)
            (joined (has d) (id ∷ ids)) (λ k. ground (arith, marks k)) rest,
      )

  -- The pointers that moved are copied under their own ids.
  update_pointer-Agrees :
      (c : Cooked parts) (s : Ids) (id : ℕ) (p : Cooked parts)
      → id_of (c.properties (c.id_to_index id)) ≡ id
      → s id ≡ true
      → Agrees parts p s
      → Agrees parts (update_pointer parts c id p).0 s
  unfolding update_pointer
  update_pointer-Agrees c s id p g h l k i = ground (
    arith,
    g,
    l k i,
    l id h,
    ap (λ j. id_of (p.properties j)) {x = p.id_to_index id} {y = p.id_to_index k},
  )

  update_moved_pointers-Agrees :
      (c : Cooked parts) (s : Ids) (ids : List ℕ) (p : Cooked parts)
      → Agrees parts c (λ k. elem k ids)
      → ((k : ℕ) → elem k ids ≡ true → s k ≡ true)
      → Agrees parts p s
      → Agrees parts (update_moved_pointers parts c ids p).0 s
  unfolding update_moved_pointers
  update_moved_pointers-Agrees c s [] p g h l = l
  update_moved_pointers-Agrees c s (id ∷ ids) p g h l =
      update_moved_pointers-Agrees c s ids (update_pointer parts c id p).0
        (λ k i. g k (ground (arith, i))) (λ k i. h k (ground (arith, i)))
        (update_pointer-Agrees c s id p (g id (ground arith)) (h id (ground arith)) l)

  dispatch_move-Stream :
      (y : Cycle) (t : Touch parts) (b : bits.Bits)
      → Agrees parts t.current (has b)
      → Stream parts (has b) (dispatch_move parts y t b ∷ []) (has b)
  unfolding dispatch_motion
  dispatch_move-Stream y t b g = (
    has b,
    moves refl
        (λ k.
          dispatch_motion-Shows y move 0 t.current.button_state t.current.device_timestamp t.current
            b none t.down_time g k)
        (λ k. refl),
    λ k. refl,
  )

  changes-Stream :
      (y : Cycle) (t : Touch parts) (moving : Bool) (before now : bits.Bits)
      → Agrees parts t.last (has before)
      → Agrees parts t.current (has now)
      → let (ups, d) = dispatch_ups parts y t (bits.marked (ops.without before now)) before in
        Stream parts
          (has before)
          (ups
            ++ (if moving then dispatch_move parts y t d ∷ [] else [])
            ++ (dispatch_downs parts y t (bits.marked (ops.without now before)) d).0)
          (has now)
  changes-Stream y t moving before now g h =
      let up_ids = bits.marked (ops.without before now) in
      let down_ids = bits.marked (ops.without now before) in
      let (ups, d) = dispatch_ups parts y t up_ids before in
      let down_bits =
        λ (k : ℕ). bits.elem-marked (ops.without now before) k ∙ ops.has_bit-without now before k in
      let up_bits =
        λ (k : ℕ). bits.elem-marked (ops.without before now) k ∙ ops.has_bit-without before now k in
      let raised =
        dispatch_ups-Stream y t up_ids before
          (record {
            members = λ k h. ground (arith, h, up_bits k);
            once = λ k. ops.count-marked (ops.without before now) k;
          })
          g in
      let stayed : (k : ℕ) → has d k ≡ (has before k && has now k) =
        λ k. ground (arith, raised.1 k, up_bits k) in
      let lowered =
        dispatch_downs-Stream y t down_ids d
          (record {
            strangers = λ k h. ground (arith, h, down_bits k, stayed k);
            small = λ k h. bits.has_bit-lt now k (ground (arith, h, down_bits k));
            once = λ k. ops.count-marked (ops.without now before) k;
          })
          (λ k i. h k (ground (arith, i, down_bits k, stayed k))) in
      let downs = (dispatch_downs parts y t down_ids d).0 in
      let last =
        Stream-to parts downs (has d) (joined (has d) down_ids) (has now)
          (λ k. ground (arith, down_bits k, stayed k)) lowered in
      let middle = if moving then dispatch_move parts y t d ∷ [] else [] in
      let still =
        if-keeps (λ ms. Stream parts (has d) ms (has d)) moving
          (λ e. dispatch_move-Stream y t d (λ k i. h k (ground (arith, i, stayed k))))
          (λ e k. refl) in
      Stream-append parts (ups ++ middle) downs (has before) (has d) (has now)
        (Stream-append parts ups middle (has before) (has d) (has d) raised.0 still) last

  -- Where the pointers that touch, in this cycle and in the last, stand where their ids lead: the
  -- motions of dispatchTouches lead the listener, who knows the pointers of the last cycle, by the protocol of moves, ups and downs, to the pointers that touch now.
  -- A pointer that goes up is among those of its motion still, one that goes down already, and the
  -- index of the motion leads to it; the first one that goes down and the last one that goes up have
  -- an action of their own.
  pub dispatch_touches-Stream :
      (y : Cycle) (t : Touch parts)
      → Agrees parts t.last (has t.last.touching_id_bits)
      → Agrees parts t.current (has t.current.touching_id_bits)
      → Stream parts
          (has t.last.touching_id_bits)
          (dispatch_touches parts y t).0
          (has t.current.touching_id_bits)
  unfolding dispatch_touches dispatch_changes
  dispatch_touches-Stream y t l c =
      let now = t.current.touching_id_bits in
      let before = t.last.touching_id_bits in
      let moved_bits =
        λ (k : ℕ). bits.elem-marked (ops.both before now) k ∙ ops.has_bit-both before now k in
      let P : List (Motion parts) × Touch parts → Type 0 =
        λ r. Stream parts (has before) r.0 (has now) in
      if-keeps P (ops.eq_bits now before)
        (λ e.
          let same = λ (k : ℕ). ops.has_bit-eq_bits now before k e in
          if-keeps P (ops.is_empty now) (λ g k. same k)
            (λ g.
              Stream-from parts (dispatch_move parts y t now ∷ []) (has before) (has now) (has now)
                (λ k. same k) (dispatch_move-Stream y t now c)))
        (λ e.
          changes-Stream y
            (record t {
              last =
                  (update_moved_pointers parts t.current (bits.marked (ops.both before now))
                    t.last).0;
            })
            _ before now
            (update_moved_pointers-Agrees t.current (has before) (bits.marked (ops.both before now))
              t.last (λ k h. c k (ground (arith, h, moved_bits k)))
              (λ k h. ground (arith, h, moved_bits k)) l)
            c)
