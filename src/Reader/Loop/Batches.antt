-- ===== src/Reader/Loop/Batches.antt =====
-- The batching of InputReader::processEventsLocked does not show: each device gets its events in
-- their order.
use osdi_artifact.Prelude.{
  ℕ, zero, suc, ◌≤◌, ℤ, eq_ℤ_iff, Bool, true, false, not, if◌then◌else◌, List, [], ◌∷◌, ◌++◌, none,
  some, ◌≡◌, refl, sym, ap, ◌∙◌, arith, length, Bool-cases, Option-cases, inl, inr,
}
use osdi_artifact.Input.Event.{EventKind, syn_report, syn_dropped, RawEvent, is_synthetic}
use osdi_artifact.Reader.Devices.{Device, is_ignored}
use osdi_artifact.Reader.Context.{Mappers}
use osdi_artifact.Reader.Device.{
  Reader, process_event, process_next, process_events_of, process_events_for_device,
}
use osdi_artifact.Reader.Device.Laws.{process_next-none, process_next-some}
use osdi_artifact.Reader.Loop.{take_batch, process_synthetic, process_batches, process_events}

-- Every event of a batch is of its device; the batch and the rest are the events.
abbrev pub AllOf : ℤ → List RawEvent → Type 0
AllOf id [] = Unit {0}
AllOf id (e ∷ es) = (is_synthetic e.kind ≡ false) × (e.device_id ≡ id) × AllOf id es

take_batch-AllOf : (id : ℤ) (es : List RawEvent) → AllOf id (take_batch id es).0
unfolding take_batch
take_batch-AllOf id [] = tt
take_batch-AllOf id (e ∷ es) = ground (arith, take_batch-AllOf id es, eq_ℤ_iff e.device_id id)

take_batch-append :
    (id : ℤ) (es : List RawEvent) → (take_batch id es).0 ++ (take_batch id es).1 ≡ es
unfolding take_batch
take_batch-append id [] = refl
take_batch-append id (e ∷ es) = ground (arith, take_batch-append id es)

length-take_batch : (id : ℤ) (es : List RawEvent) → length (take_batch id es).1 ≤ length es
unfolding take_batch
length-take_batch id [] = omega arith
length-take_batch id (e ∷ es) = ground (arith, length-take_batch id es)

module _ (ms : Mappers) where
  open ms use {State, Args, vector}

  -- Whether a device gets events.
  abbrev pub is_live : ℤ → List Device → Bool
  is_live id ds = elim (vector.find id ds) [ none ↦ false | some d ↦ not (is_ignored d) ]

  is_live-process_event :
      (id j : ℤ) (b : Bool) (k : EventKind) (d : Device) (e : RawEvent) (r : Reader State Args)
      → is_live id (process_event ms b k j d e r).devices ≡ is_live id r.devices
  unfolding process_event
  is_live-process_event id j true syn_report d e r = refl
  is_live-process_event id j true _ d e r = refl
  is_live-process_event id j false syn_dropped d e r = refl
  is_live-process_event id j false _ d e r = refl

  is_live-process_next :
      (id j : ℤ) (e : RawEvent) (r : Reader State Args)
      → is_live id (process_next ms j e r).devices ≡ is_live id r.devices
  is_live-process_next id j e r = elim (Option-cases (vector.find j r.devices)) [
    | inl h ↦ rw (process_next-none ms j e r h)
    | inr (d, h) ↦
        rw (process_next-some ms j e r d h) (is_live-process_event id j (r.dropping j) e.kind d e r)
  ]

  is_live-process_events_of :
      (id j : ℤ) (es : List RawEvent) (r : Reader State Args)
      → is_live id (process_events_of ms j es r).devices ≡ is_live id r.devices
  unfolding process_events_of
  is_live-process_events_of id j [] r = refl
  is_live-process_events_of id j (e ∷ es) r =
      is_live-process_events_of id j es (process_next ms j e r) ∙ is_live-process_next id j e r

  process_events_of-append :
      (id : ℤ) (xs ys : List RawEvent) (r : Reader State Args)
      → process_events_of ms id (xs ++ ys) r
        ≡ process_events_of ms id ys (process_events_of ms id xs r)
  unfolding process_events_of
  process_events_of-append id [] ys r = refl
  process_events_of-append id (x ∷ xs) ys r = process_events_of-append id xs ys _

  for_device-is_live :
      (id : ℤ) (es : List RawEvent) (r : Reader State Args)
      → process_events_for_device ms id es r
        ≡ (if is_live id r.devices then process_events_of ms id es r else r)
  unfolding process_events_for_device
  for_device-is_live id es r = ground arith

  for_device-append :
      (id : ℤ) (xs ys : List RawEvent) (r : Reader State Args)
      → process_events_for_device ms id (xs ++ ys) r
        ≡ process_events_for_device ms id ys (process_events_for_device ms id xs r)
  for_device-append id xs ys r = ground (
    arith,
    for_device-is_live id (xs ++ ys) r,
    for_device-is_live id xs r,
    for_device-is_live id ys (process_events_for_device ms id xs r),
    is_live-process_events_of id id xs r,
    process_events_of-append id xs ys r,
  )

  -- One event at a time.
  unfoldable pub process_one : RawEvent → Reader State Args → Reader State Args
  process_one e r = elim (is_synthetic e.kind) [
    | true ↦ process_synthetic ms e.kind e r
    | false ↦ process_events_for_device ms e.device_id (e ∷ []) r
  ]

  unfoldable pub one_by_one : List RawEvent → Reader State Args → Reader State Args
  one_by_one [] r = r
  one_by_one (e ∷ es) r = one_by_one es (process_one e r)

  for_device-nil : (id : ℤ) (r : Reader State Args) → process_events_for_device ms id [] r ≡ r
  unfolding process_events_for_device process_events_of
  for_device-nil id r = ground arith

  process_one-raw :
      (id : ℤ) (e : RawEvent) (r : Reader State Args)
      → is_synthetic e.kind ≡ false
      → e.device_id ≡ id
      → process_one e r ≡ process_events_for_device ms id (e ∷ []) r
  unfolding process_one
  process_one-raw id e r raw same =
      ground (arith, ap (λ t. process_events_for_device ms t (e ∷ []) r) same)

  process_one-synthetic :
      (e : RawEvent) (r : Reader State Args)
      → is_synthetic e.kind ≡ true
      → process_one e r ≡ process_synthetic ms e.kind e r
  unfolding process_one
  process_one-synthetic e r h = ground arith

  -- A batch is its events, one by one.
  one_by_one-batch :
      (id : ℤ) (es rest : List RawEvent) (r : Reader State Args)
      → AllOf id es
      → one_by_one (es ++ rest) r ≡ one_by_one rest (process_events_for_device ms id es r)
  unfolding one_by_one
  one_by_one-batch id [] rest r h = ap (one_by_one rest) (sym (for_device-nil id r))
  one_by_one-batch id (e ∷ es) rest r (raw, same, others) =
      ap (one_by_one (es ++ rest)) (process_one-raw id e r raw same)
      ∙ (one_by_one-batch id es rest (process_events_for_device ms id (e ∷ []) r) others
          ∙ ap (one_by_one rest) (sym (for_device-append id (e ∷ []) es r)))

  process_batches-synthetic :
      (n : ℕ) (e : RawEvent) (es : List RawEvent) (r : Reader State Args)
      → is_synthetic e.kind ≡ true
      → process_batches ms (suc n) (e ∷ es) r
        ≡ process_batches ms n es (process_synthetic ms e.kind e r)
  unfolding process_batches
  process_batches-synthetic n e es r h = ground arith

  process_batches-raw :
      (n : ℕ) (e : RawEvent) (es : List RawEvent) (r : Reader State Args)
      → is_synthetic e.kind ≡ false
      → process_batches ms (suc n) (e ∷ es) r
        ≡ process_batches ms n
            (take_batch e.device_id es).1
            (process_events_for_device ms e.device_id (e ∷ (take_batch e.device_id es).0) r)
  unfolding process_batches
  process_batches-raw n e es r h = ground arith

  process_batches-one_by_one :
      (n : ℕ) (es : List RawEvent) (r : Reader State Args)
      → length es ≤ n
      → process_batches ms n es r ≡ one_by_one es r
  unfolding process_batches one_by_one
  process_batches-one_by_one zero [] r h = refl
  process_batches-one_by_one zero (e ∷ es) r h = absurd (omega arith)
  process_batches-one_by_one (suc n) [] r h = refl
  process_batches-one_by_one (suc n) (e ∷ es) r h = elim (Bool-cases (is_synthetic e.kind)) [
    | inl syn ↦
        process_batches-synthetic n e es r syn
        ∙ (process_batches-one_by_one n es (process_synthetic ms e.kind e r) (omega arith)
            ∙ ap (one_by_one es) (sym (process_one-synthetic e r syn)))
    | inr raw ↦
        let id = e.device_id in
        let batch = (take_batch id es).0 in
        let rest = (take_batch id es).1 in
        process_batches-raw n e es r raw
        ∙ (process_batches-one_by_one n rest (process_events_for_device ms id (e ∷ batch) r)
              (omega (arith, length-take_batch id es))
            ∙ (sym (one_by_one-batch id (e ∷ batch) rest r (raw, refl, take_batch-AllOf id es))
                ∙ ap (λ t. one_by_one t (process_one e r)) (take_batch-append id es)))
  ]

  -- The events of a read, in batches, do to the reader what they do one by one.
  pub process_events-one_by_one :
      (es : List RawEvent) (r : Reader State Args) → process_events ms es r ≡ one_by_one es r
  unfolding process_events
  process_events-one_by_one es r = process_batches-one_by_one (length es) es r (omega arith)
