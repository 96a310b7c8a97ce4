-- ===== src/Display/Format.antt =====
-- The pixel formats of zizhan_buffer.cpp: bits for each pixel, and the height of the buffer that
-- holds all planes. Heights are unsigned int and wrap.
use osdi_artifact.Prelude.{ℕ, ◌*◌, ◌/◌, ◌%◌, ◌^◌, Bool, true, false, Option, none, some, ◌≡◌, arith}

-- DRM_FORMAT constants that bo_create names, and any other.
pub data Format : Type 0 where
  nv12 nv21 nv16 nv61 yuv420 yvu420 : Format
  argb4444 xrgb4444 abgr4444 xbgr4444 rgba4444 rgbx4444 bgra4444 bgrx4444 : Format
  argb1555 xrgb1555 abgr1555 xbgr1555 rgba5551 rgbx5551 bgra5551 bgrx5551 : Format
  rgb565 bgr565 uyvy vyuy yuyv yvyu : Format
  bgr888 rgb888 : Format
  argb8888 xrgb8888 abgr8888 xbgr8888 rgba8888 rgbx8888 bgra8888 bgrx8888 : Format
  argb2101010 xrgb2101010 abgr2101010 xbgr2101010 : Format
  rgba1010102 rgbx1010102 bgra1010102 bgrx1010102 : Format
  other_format : ℕ → Format

-- The first switch of bo_create; `none` is its default.
unfoldable pub bits_per_pixel : Format → Option ℕ
bits_per_pixel nv12 = some 8
bits_per_pixel nv21 = some 8
bits_per_pixel nv16 = some 8
bits_per_pixel nv61 = some 8
bits_per_pixel yuv420 = some 8
bits_per_pixel yvu420 = some 8
bits_per_pixel bgr888 = some 24
bits_per_pixel rgb888 = some 24
bits_per_pixel argb8888 = some 32
bits_per_pixel xrgb8888 = some 32
bits_per_pixel abgr8888 = some 32
bits_per_pixel xbgr8888 = some 32
bits_per_pixel rgba8888 = some 32
bits_per_pixel rgbx8888 = some 32
bits_per_pixel bgra8888 = some 32
bits_per_pixel bgrx8888 = some 32
bits_per_pixel argb2101010 = some 32
bits_per_pixel xrgb2101010 = some 32
bits_per_pixel abgr2101010 = some 32
bits_per_pixel xbgr2101010 = some 32
bits_per_pixel rgba1010102 = some 32
bits_per_pixel rgbx1010102 = some 32
bits_per_pixel bgra1010102 = some 32
bits_per_pixel bgrx1010102 = some 32
bits_per_pixel (other_format n) = none
bits_per_pixel _ = some 16

-- The planes of a format: one, a second with both chroma samples, or two more.
pub data PlaneKind : Type 0 where
  one_plane : PlaneKind
  two_planes : PlaneKind
  three_planes : PlaneKind

-- The cases of the switch that lays the planes out; `none` where no case matches.
unfoldable pub plane_kind : Format → Option PlaneKind
plane_kind nv12 = some two_planes
plane_kind nv21 = some two_planes
plane_kind nv16 = some two_planes
plane_kind nv61 = some two_planes
plane_kind yuv420 = some three_planes
plane_kind yvu420 = some three_planes
plane_kind (other_format n) = none
plane_kind _ = some one_plane

abbrev pub wrap32 : ℕ → ℕ
wrap32 n = n % 2 ^ 32

unfoldable pub virtual_height : Format → ℕ → ℕ
virtual_height nv12 h = wrap32 (h * 3) / 2
virtual_height nv21 h = wrap32 (h * 3) / 2
virtual_height yuv420 h = wrap32 (h * 3) / 2
virtual_height yvu420 h = wrap32 (h * 3) / 2
virtual_height nv16 h = wrap32 (h * 2)
virtual_height nv61 h = wrap32 (h * 2)
virtual_height _ h = h

abbrev pub is_some {ℓ} : {A : Type ℓ} → Option A → Bool
is_some none = false
is_some (some a) = true

-- The two switches of bo_create know the same formats: each format that gets a buffer gets its
-- planes.
plane_kind-bits_per_pixel : (f : Format) → is_some (plane_kind f) ≡ is_some (bits_per_pixel f)
unfolding plane_kind bits_per_pixel
plane_kind-bits_per_pixel f = ground arith
