-- ===== src/Display/Buffer/Bounds.antt =====
-- The planes of a buffer lie one behind the other inside it.
use osdi_artifact.Prelude.{
  ℕ, zero, suc, ◌+◌, ◌*◌, ◌/◌, ◌^◌, ◌≤◌, ◌<◌, Option, none, some, ◌≡◌, arith,
}
use osdi_artifact.Display.Format.{
  Format, PlaneKind, one_plane, two_planes, three_planes, plane_kind, virtual_height, wrap32,
}
use osdi_artifact.Display.Buffer.{Bo, Layout, lay_out}

mul_sum : (p a b : ℕ) → p * (a + b) ≡ p * a + p * b
mul_sum p a b = grind arith

mul_triple : (p k : ℕ) → p * (k + k + k) ≡ p * k + p * k + p * k
mul_triple p k = grind arith

mul_half : (p c k : ℕ) → c + c ≤ p → c * k + c * k ≤ p * k
mul_half p c zero h = omega arith
mul_half p c (suc k) h = grind (arith, mul_half p c k h)

half_twice : (p : ℕ) → p / 2 + p / 2 ≤ p
half_twice p = omega arith

three_planes-Inside :
    (bo : Bo) (k : ℕ) (p : Layout)
    → bo.pitch * (k + k + k) < 2 ^ 32
    → let l = lay_out (some three_planes) bo (k + k) p in
      (l.offsets 0 + l.pitches 0 * (k + k) ≤ l.offsets 1)
      × (l.offsets 1 + l.pitches 1 * k ≤ l.offsets 2)
      × (l.offsets 2 + l.pitches 2 * k ≤ bo.pitch * (k + k + k))
unfolding lay_out
three_planes-Inside bo k p small =
    let x = bo.pitch * k in
    let y = bo.pitch / 2 * k in
    let half = mul_half bo.pitch (bo.pitch / 2) k (half_twice bo.pitch) in
    let e2 = mul_sum bo.pitch k k in
    let e3 = mul_triple bo.pitch k in
    let c2 = mul_sum (bo.pitch / 2) k k in rw (e2, c2, e3) (omega (arith, half, e3, small))

two_planes-Inside :
    (bo : Bo) (k r : ℕ) (p : Layout)
    → bo.pitch * (k + k + r) < 2 ^ 32
    → let l = lay_out (some two_planes) bo (k + k) p in
      (l.offsets 0 + l.pitches 0 * (k + k) ≤ l.offsets 1)
      × (l.offsets 1 + l.pitches 1 * r ≤ bo.pitch * (k + k + r))
unfolding lay_out
two_planes-Inside bo k r p small =
    let e = mul_sum bo.pitch (k + k) r in rw e (omega (arith, e, small))

-- The rows of a chroma plane when the height is 2 * k.
abbrev pub chroma_rows : Format → ℕ → ℕ
chroma_rows Format.nv16 k = k + k
chroma_rows Format.nv61 k = k + k
chroma_rows _ k = k

-- The planes lie one behind the other and end within `size`: `height` rows of the first plane,
-- `rows` of each other.
abbrev pub IsInside : Option PlaneKind → ℕ → ℕ → ℕ → Layout → Type 0
IsInside none height rows size l = Unit {0}
IsInside (some one_plane) height rows size l = l.offsets 0 + l.pitches 0 * height ≤ size
IsInside (some two_planes) height rows size l =
    (l.offsets 0 + l.pitches 0 * height ≤ l.offsets 1) × (l.offsets 1 + l.pitches 1 * rows ≤ size)
IsInside (some three_planes) height rows size l =
    (l.offsets 0 + l.pitches 0 * height ≤ l.offsets 1)
    × (l.offsets 1 + l.pitches 1 * rows ≤ l.offsets 2)
    × (l.offsets 2 + l.pitches 2 * rows ≤ size)

-- The buffer's height, without a wrap.
height_420 : (k : ℕ) → (k + k) * 3 < 2 ^ 32 → wrap32 ((k + k) * 3) / 2 ≡ k + k + k
height_420 k h = omega arith

height_422 : (k : ℕ) → (k + k) * 3 < 2 ^ 32 → wrap32 ((k + k) * 2) ≡ k + k + (k + k)
height_422 k h = omega arith

one_plane-Inside :
    (bo : Bo) (h : ℕ) (p : Layout)
    → let l = lay_out (some one_plane) bo h p in l.offsets 0 + l.pitches 0 * h ≤ bo.pitch * h
unfolding lay_out
one_plane-Inside bo h p = omega arith

two_at :
    (bo : Bo) (k r : ℕ) (p : Layout) {v : ℕ}
    → v ≡ k + k + r
    → bo.pitch * v < 2 ^ 32
    → IsInside (some two_planes) (k + k) r (bo.pitch * v) (lay_out (some two_planes) bo (k + k) p)
two_at bo k r p e small = rw e (two_planes-Inside bo k r p (rw (← e) small))

three_at :
    (bo : Bo) (k : ℕ) (p : Layout) {v : ℕ}
    → v ≡ k + k + k
    → bo.pitch * v < 2 ^ 32
    → IsInside
        (some three_planes)
        (k + k)
        k
        (bo.pitch * v)
        (lay_out (some three_planes) bo (k + k) p)
three_at bo k p e small = rw e (three_planes-Inside bo k p (rw (← e) small))

-- For an even height, and a buffer of `pitch` bytes for each row of the virtual height, whose size
-- and height do not wrap: the planes that bo_create lays out lie one behind the other, none
-- overlaps the next, and the last one ends within the buffer.
pub lay_out-IsInside :
    (f : Format) (bo : Bo) (k : ℕ) (p : Layout)
    → (k + k) * 3 < 2 ^ 32
    → bo.pitch * virtual_height f (k + k) < 2 ^ 32
    → IsInside
        (plane_kind f)
        (k + k)
        (chroma_rows f k)
        (bo.pitch * virtual_height f (k + k))
        (lay_out (plane_kind f) bo (k + k) p)
unfolding plane_kind virtual_height
lay_out-IsInside Format.nv12 bo k p low small = two_at bo k k p (height_420 k low) small
lay_out-IsInside Format.nv21 bo k p low small = two_at bo k k p (height_420 k low) small
lay_out-IsInside Format.nv16 bo k p low small = two_at bo k (k + k) p (height_422 k low) small
lay_out-IsInside Format.nv61 bo k p low small = two_at bo k (k + k) p (height_422 k low) small
lay_out-IsInside Format.yuv420 bo k p low small = three_at bo k p (height_420 k low) small
lay_out-IsInside Format.yvu420 bo k p low small = three_at bo k p (height_420 k low) small
lay_out-IsInside (Format.other_format n) bo k p low small = tt
lay_out-IsInside _ bo k p low small = one_plane-Inside bo (k + k) p
