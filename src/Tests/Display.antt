-- ===== src/Tests/Display.antt =====
-- Runs of bo_create on a device that gives its handles out in order.
use osdi_artifact.Prelude.{
  ℕ, ◌+◌, ◌*◌, ◌/◌, ◌≤◌, pos, true, List, [], ◌∷◌, some, ◌≡◌, refl, ap, arith, length,
}
use osdi_artifact.Display.Format.{Format, bits_per_pixel, plane_kind, virtual_height}
use osdi_artifact.Display.Buffer.{Bo, Driver, World, Layout, lay_out, bo_create, bo_destroy}
use osdi_artifact.Display.Buffer.Ownership.{
  Handles, Created, bo_create-Created, bo_destroy-bo_create, bo_create-mapped,
}
use osdi_artifact.Display.Buffer.Bounds.{lay_out-IsInside}

abbrev tail : List ℕ → List ℕ
tail [] = []
tail (x ∷ xs) = xs

-- The state is the list of the handles in use.
abbrev driver : Driver
driver = record {
  State = List ℕ;
  calloc = λ hs. true;
  create_dumb = λ fd w h bpp hs. (
    some (record { handle = length hs; pitch = w * bpp / 8; size = w * bpp / 8 * h }),
    length hs ∷ hs,
  );
  map_dumb = λ fd handle hs. (pos 0, 4096, hs);
  mmap = λ size fd offset hs. (some 65536, hs);
  destroy_dumb = λ fd handle hs. tail hs;
}

handles : Handles driver
handles = record {
  given = λ hs. hs;
  given-create_dumb_none = λ fd w h bpp st st' e. absurd (ground arith);
  given-create_dumb_some = λ fd w h bpp st st' r e. ground arith;
  given-map_dumb = λ fd handle st. refl;
  given-mmap = λ size fd offset st. refl;
  given-destroy_dumb = λ fd handle st hs e. ap tail e;
}

abbrev empty : Layout
empty = record { handles = λ i. 0; pitches = λ i. 0; offsets = λ i. 0 }

abbrev world : World (List ℕ)
world = record { device = 7 ∷ []; heap = 3; mapped = 2 }

abbrev bo : Bo
bo = record { fd = 5; handle = 1; size = 3840; pitch = 64; ptr = some 65536 }

bo_create-Created_example :
    Created driver handles Format.nv12 40 empty world
      (bo_create driver 5 Format.nv12 64 40 empty world)
bo_create-Created_example = bo_create-Created driver handles 5 Format.nv12 64 40 empty world

bo_create_run : (bo_create driver 5 Format.nv12 64 40 empty world).0 ≡ some bo
unfolding bits_per_pixel virtual_height
bo_create_run =
    ap (λ r. r.0)
      (bo_create-mapped driver 5 Format.nv12 64 40 8 empty world
        (record { handle = 1; pitch = 64; size = 3840 }) 4096 65536 (1 ∷ 7 ∷ []) (1 ∷ 7 ∷ [])
        (1 ∷ 7 ∷ []) refl refl refl refl refl)

bo_destroy-bo_create_example :
    let v = bo_destroy driver bo (bo_create driver 5 Format.nv12 64 40 empty world).2 in
    (v.device ≡ 7 ∷ []) × (v.heap ≡ 3) × (v.mapped ≡ 3)
unfolding handles
bo_destroy-bo_create_example =
    bo_destroy-bo_create driver handles 5 Format.nv12 64 40 empty world bo bo_create_run

lay_out-IsInside_example :
    let l = lay_out (plane_kind Format.yuv420) bo 40 empty in
    (l.offsets 0 + l.pitches 0 * 40 ≤ l.offsets 1)
    × (l.offsets 1 + l.pitches 1 * 20 ≤ l.offsets 2)
    × (l.offsets 2 + l.pitches 2 * 20 ≤ 3840)
unfolding plane_kind virtual_height
lay_out-IsInside_example = lay_out-IsInside Format.yuv420 bo 20 empty (omega arith) (omega arith)
