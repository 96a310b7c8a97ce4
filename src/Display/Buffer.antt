-- ===== src/Display/Buffer.antt =====
-- zizhan_buffer.cpp: dumb buffers of a DRM device. The device, the allocator and mmap are the record
-- `Driver`, operations on a state; the world beside it counts the buffer objects on the heap and the
-- mappings that are there.
pub mod Ownership
pub mod Bounds
use osdi_artifact.Prelude.{
  ℕ, zero, ◌+◌, ◌-◌, ◌*◌, ◌/◌, ◌==◌, ℤ, pos, negsuc, Bool, true, false, if◌then◌else◌, Option, none,
  some, update,
}
use osdi_artifact.Display.Format.{
  Format, PlaneKind, one_plane, two_planes, three_planes, bits_per_pixel, plane_kind,
  virtual_height, wrap32,
}

-- What DRM_IOCTL_MODE_CREATE_DUMB fills in.
pub record Dumb : Type 0 where
  pub handle : ℕ
  pub pitch : ℕ
  pub size : ℕ

-- The fields of `struct bo`; a null pointer is `none`.
pub record Bo : Type 0 where
  pub fd : ℕ
  pub handle : ℕ
  pub size : ℕ
  pub pitch : ℕ
  pub ptr : Option ℕ

-- The calls of the kernel. `calloc` tells whether there is memory; a failed ioctl gives `none`, or
-- its return value.
pub record Driver : Type 1 where
  pub State : Type 0
  pub calloc : State → Bool
  pub create_dumb : ℕ → ℕ → ℕ → ℕ → State → Option Dumb × State
  pub map_dumb : ℕ → ℕ → State → ℤ × ℕ × State
  pub mmap : ℕ → ℕ → ℕ → State → Option ℕ × State
  pub destroy_dumb : ℕ → ℕ → State → State

pub record World (State : Type 0) : Type 0 where
  pub device : State
  pub heap : ℕ
  pub mapped : ℕ

-- The arrays that bo_create writes.
pub record Layout : Type 0 where
  pub handles : ℕ → ℕ
  pub pitches : ℕ → ℕ
  pub offsets : ℕ → ℕ

abbrev write_plane : ℕ → ℕ → ℕ → ℕ → Layout → Layout
write_plane i handle pitch offset p = record {
  handles = update p.handles i handle;
  pitches = update p.pitches i pitch;
  offsets = update p.offsets i offset;
}

-- The last switch of bo_create. The arithmetic of unsigned int wraps. The pointers in `planes` are
-- used by nothing, and left out.
unfoldable pub lay_out : Option PlaneKind → Bo → ℕ → Layout → Layout
lay_out none bo height p = p
lay_out (some one_plane) bo height p = write_plane 0 bo.handle bo.pitch 0 p
lay_out (some two_planes) bo height p =
    write_plane 1 bo.handle bo.pitch (wrap32 (bo.pitch * height))
      (write_plane 0 bo.handle bo.pitch 0 p)
lay_out (some three_planes) bo height p =
    let chroma = bo.pitch / 2 in
    let second = wrap32 (bo.pitch * height) in
    write_plane 2 bo.handle chroma (wrap32 (second + wrap32 (chroma * height) / 2))
      (write_plane 1 bo.handle chroma second (write_plane 0 bo.handle bo.pitch 0 p))

module _ (d : Driver) where
  open d use {State}

  -- The ioctl of bo_create_dumb and what follows it; the object is freed where it fails.
  after_create : ℕ → Option Dumb × State → World State → Option Bo × World State
  after_create fd (none, st) w = (none, record w { device = st; heap = w.heap - 1 })
  after_create fd (some r, st) w = (
    some (record { fd = fd; handle = r.handle; size = r.size; pitch = r.pitch; ptr = none }),
    record w { device = st },
  )

  unfoldable pub bo_create_dumb : ℕ → ℕ → ℕ → ℕ → World State → Option Bo × World State
  unfolding after_create
  bo_create_dumb fd width height bpp w =
      if d.calloc w.device
      then after_create fd (d.create_dumb fd width height bpp w.device)
          (record w { heap = w.heap + 1 })
      else (none, w)

  -- -EINVAL.
  abbrev pub einval : ℤ
  einval = negsuc 21

  after_mmap : Bo → Option ℕ × State → World State → ℤ × Bo × World State
  after_mmap bo (none, st) w = (einval, bo, record w { device = st })
  after_mmap bo (some map, st) w =
      (pos 0, record bo { ptr = some map }, record w { device = st; mapped = w.mapped + 1 })

  after_map_dumb : Bo → ℤ × ℕ × State → World State → ℤ × Bo × World State
  unfolding after_mmap
  after_map_dumb bo (pos zero, offset, st) w =
      after_mmap bo (d.mmap bo.size bo.fd offset st) (record w { device = st })
  after_map_dumb bo (ret, offset, st) w = (ret, bo, record w { device = st })

  -- The result, and the object as the call leaves it.
  unfoldable pub bo_map : Bo → World State → ℤ × Bo × World State
  unfolding after_map_dumb
  bo_map bo w = after_map_dumb bo (d.map_dumb bo.fd bo.handle w.device) w

  -- The object is freed whether the ioctl fails or not; the mapping is left.
  unfoldable pub bo_destroy : Bo → World State → World State
  bo_destroy bo w = record w { device = d.destroy_dumb bo.fd bo.handle w.device; heap = w.heap - 1 }

  after_bo_map : Format → ℕ → Layout → ℤ × Bo × World State → Option Bo × Layout × World State
  unfolding bo_destroy lay_out
  after_bo_map f height p (pos zero, bo, w) = (some bo, lay_out (plane_kind f) bo height p, w)
  after_bo_map f height p (ret, bo, w) = (none, p, bo_destroy bo w)

  after_dumb : Format → ℕ → Layout → Option Bo × World State → Option Bo × Layout × World State
  unfolding after_bo_map
  after_dumb f height p (none, w) = (none, p, w)
  after_dumb f height p (some bo, w) = after_bo_map f height p (bo_map bo w)

  with_bpp : Option ℕ → ℕ → Format → ℕ → ℕ → Layout → World State → Option Bo × Layout × World State
  unfolding after_dumb
  with_bpp none fd f width height p w = (none, p, w)
  with_bpp (some bpp) fd f width height p w =
      after_dumb f height p (bo_create_dumb fd width (virtual_height f height) bpp w)

  unfoldable pub bo_create :
      ℕ → Format → ℕ → ℕ → Layout → World State → Option Bo × Layout × World State
  unfolding with_bpp
  bo_create fd f width height p w = with_bpp (bits_per_pixel f) fd f width height p w
