-- ===== src/Display/Buffer/Ownership.antt =====
-- What bo_create takes from the device and the heap, and what bo_destroy gives back.
use osdi_artifact.Prelude.{
  ℕ, zero, suc, ◌+◌, ℤ, pos, negsuc, true, Option, none, some, List, ◌∷◌, ◌≡◌, refl, ◌∙◌, arith,
  Bool-cases, inl, inr,
}
use osdi_artifact.Display.Format.{Format, bits_per_pixel, virtual_height, plane_kind}
use osdi_artifact.Display.Buffer.{
  Dumb, Bo, Driver, World, Layout, after_create, bo_create_dumb, after_mmap, after_map_dumb, bo_map,
  bo_destroy, lay_out, after_bo_map, after_dumb, with_bpp, bo_create,
}

module _ (d : Driver) where
  open d use {State}

  -- The handles that the device has given out, and what its calls do to them.
  pub record Handles : Type 0 where
    pub given : State → List ℕ
    pub given-create_dumb_none :
        (fd w h bpp : ℕ) (st st' : State)
        → d.create_dumb fd w h bpp st ≡ (none, st')
        → given st' ≡ given st
    pub given-create_dumb_some :
        (fd w h bpp : ℕ) (st st' : State) (r : Dumb)
        → d.create_dumb fd w h bpp st ≡ (some r, st')
        → given st' ≡ r.handle ∷ given st
    pub given-map_dumb : (fd handle : ℕ) (st : State) → given (d.map_dumb fd handle st).2 ≡ given st
    pub given-mmap :
        (size fd offset : ℕ) (st : State) → given (d.mmap size fd offset st).1 ≡ given st
    pub given-destroy_dumb :
        (fd handle : ℕ) (st : State) (hs : List ℕ)
        → given st ≡ handle ∷ hs
        → given (d.destroy_dumb fd handle st) ≡ hs

module _ (d : Driver) (hs : Handles d) where
  open d use {State}

  -- What a result holds: nothing, or one handle and one object.
  abbrev pub Owns : World State → Option Bo → World State → Type 0
  Owns w none w' =
      (hs.given w'.device ≡ hs.given w.device) × (w'.heap ≡ w.heap) × (w'.mapped ≡ w.mapped)
  Owns w (some bo) w' =
      (hs.given w'.device ≡ bo.handle ∷ hs.given w.device)
      × (w'.heap ≡ w.heap + 1)
      × (w'.mapped ≡ w.mapped)

  after_create-Owns :
      (fd width height bpp : ℕ) (w : World State) (r : Option Dumb × State)
      → d.create_dumb fd width height bpp w.device ≡ r
      → let q = after_create d fd r (record w { heap = w.heap + 1 }) in Owns w q.0 q.1
  unfolding after_create
  after_create-Owns fd width height bpp w (none, st) h =
      (hs.given-create_dumb_none fd width height bpp w.device st h, omega arith, refl)
  after_create-Owns fd width height bpp w (some r, st) h =
      (hs.given-create_dumb_some fd width height bpp w.device st r h, refl, refl)

  bo_create_dumb-Owns :
      (fd width height bpp : ℕ) (w : World State)
      → let q = bo_create_dumb d fd width height bpp w in Owns w q.0 q.1
  unfolding bo_create_dumb
  bo_create_dumb-Owns fd width height bpp w = elim (Bool-cases (d.calloc w.device)) [
    | inl ok ↦ rw ok (after_create-Owns fd width height bpp w _ refl)
    | inr full ↦ rw full (refl, refl, refl)
  ]

  -- A mapping that succeeds is one more; one that fails leaves the world as it was. The handle stays.
  abbrev pub Maps : Bo → World State → ℤ × Bo × World State → Type 0
  Maps bo w (ret, bo', w') =
      (hs.given w'.device ≡ hs.given w.device)
      × (w'.heap ≡ w.heap)
      × (bo'.handle ≡ bo.handle)
      × (w'.mapped ≡ elim ret [ pos zero ↦ w.mapped + 1 | _ ↦ w.mapped ])

  after_mmap-Maps :
      (bo : Bo) (w : World State) (r : Option ℕ × State)
      → hs.given r.1 ≡ hs.given w.device
      → Maps bo w (after_mmap d bo r w)
  unfolding after_mmap
  after_mmap-Maps bo w (none, st) h = (h, refl, refl, refl)
  after_mmap-Maps bo w (some a, st) h = (h, refl, refl, refl)

  after_map_dumb-Maps :
      (bo : Bo) (w : World State) (r : ℤ × ℕ × State)
      → hs.given r.2 ≡ hs.given w.device
      → Maps bo w (after_map_dumb d bo r w)
  unfolding after_map_dumb
  after_map_dumb-Maps bo w (pos zero, offset, st) h =
      let (g, a, n, m) =
        after_mmap-Maps bo (record w { device = st }) (d.mmap bo.size bo.fd offset st)
          (hs.given-mmap bo.size bo.fd offset st) in
      (g ∙ h, a, n, m)
  after_map_dumb-Maps bo w (pos (suc k), offset, st) h = (h, refl, refl, refl)
  after_map_dumb-Maps bo w (negsuc k, offset, st) h = (h, refl, refl, refl)

  bo_map-Maps : (bo : Bo) (w : World State) → Maps bo w (bo_map d bo w)
  unfolding bo_map
  bo_map-Maps bo w =
      after_map_dumb-Maps bo w (d.map_dumb bo.fd bo.handle w.device)
        (hs.given-map_dumb bo.fd bo.handle w.device)

  -- The outcome of bo_create: nothing is taken and nothing written, or the buffer owns one handle,
  -- one object and one mapping, and the planes are laid out.
  abbrev pub Created : Format → ℕ → Layout → World State → Option Bo × Layout × World State → Type 0
  Created f height p w (none, p', w') =
      (p' ≡ p)
      × (hs.given w'.device ≡ hs.given w.device)
      × (w'.heap ≡ w.heap)
      × (w'.mapped ≡ w.mapped)
  Created f height p w (some bo, p', w') =
      (p' ≡ lay_out (plane_kind f) bo height p)
      × (hs.given w'.device ≡ bo.handle ∷ hs.given w.device)
      × (w'.heap ≡ w.heap + 1)
      × (w'.mapped ≡ w.mapped + 1)

  after_bo_map-Created :
      (f : Format) (height : ℕ) (p : Layout) (w v : World State) (bo : Bo)
      (r : ℤ × Bo × World State)
      → Owns w (some bo) v
      → Maps bo v r
      → Created f height p w (after_bo_map d f height p r)
  unfolding after_bo_map bo_destroy
  after_bo_map-Created f height p w v bo (pos zero, bo', w') (g, a, m) (g', a', n, m') =
      (refl, g' ∙ (g ∙ ground (arith, n)), a' ∙ a, m' ∙ ground (arith, m))
  after_bo_map-Created f height p w v bo (pos (suc k), bo', w') (g, a, m) (g', a', n, m') = (
    refl,
    hs.given-destroy_dumb bo'.fd bo'.handle w'.device _ (g' ∙ (g ∙ ground (arith, n))),
    omega (arith, a, a'),
    m' ∙ m,
  )
  after_bo_map-Created f height p w v bo (negsuc k, bo', w') (g, a, m) (g', a', n, m') = (
    refl,
    hs.given-destroy_dumb bo'.fd bo'.handle w'.device _ (g' ∙ (g ∙ ground (arith, n))),
    omega (arith, a, a'),
    m' ∙ m,
  )

  after_dumb-Created :
      (f : Format) (height : ℕ) (p : Layout) (w : World State) (r : Option Bo × World State)
      → Owns w r.0 r.1
      → Created f height p w (after_dumb d f height p r)
  unfolding after_dumb
  after_dumb-Created f height p w (none, v) (g, a, m) = (refl, g, a, m)
  after_dumb-Created f height p w (some bo, v) h =
      after_bo_map-Created f height p w v bo (bo_map d bo v) h (bo_map-Maps bo v)

  with_bpp-Created :
      (bpp : Option ℕ) (fd : ℕ) (f : Format) (width height : ℕ) (p : Layout) (w : World State)
      → Created f height p w (with_bpp d bpp fd f width height p w)
  unfolding with_bpp
  with_bpp-Created none fd f width height p w = (refl, refl, refl, refl)
  with_bpp-Created (some bpp) fd f width height p w =
      after_dumb-Created f height p w _
        (bo_create_dumb-Owns fd width (virtual_height f height) bpp w)

  -- bo_create on every path: where it returns null, the device holds the handles, the heap the
  -- objects and the process the mappings that they held before, and the arrays are not written;
  -- where it returns a buffer, there is one more of each, the handle is the buffer's, and the
  -- planes are laid out.
  pub bo_create-Created :
      (fd : ℕ) (f : Format) (width height : ℕ) (p : Layout) (w : World State)
      → Created f height p w (bo_create d fd f width height p w)
  unfolding bo_create
  bo_create-Created fd f width height p w =
      with_bpp-Created (bits_per_pixel f) fd f width height p w

  destroyed :
      (f : Format) (height : ℕ) (p : Layout) (w : World State)
      (r : Option Bo × Layout × World State) (bo : Bo)
      → r.0 ≡ some bo
      → Created f height p w r
      → let v = bo_destroy d bo r.2 in
        (hs.given v.device ≡ hs.given w.device) × (v.heap ≡ w.heap) × (v.mapped ≡ w.mapped + 1)
  unfolding bo_destroy
  destroyed f height p w (none, p', w') bo h c = cc
  destroyed f height p w (some b, p', w') bo h (_, g, a, m) = (
    hs.given-destroy_dumb bo.fd bo.handle w'.device _ (g ∙ ground (arith, h)),
    omega (arith, a),
    m,
  )

  -- A buffer that is created and destroyed gives the handle and the object back, and leaves its
  -- mapping behind.
  pub bo_destroy-bo_create :
      (fd : ℕ) (f : Format) (width height : ℕ) (p : Layout) (w : World State) (bo : Bo)
      → (bo_create d fd f width height p w).0 ≡ some bo
      → let v = bo_destroy d bo (bo_create d fd f width height p w).2 in
        (hs.given v.device ≡ hs.given w.device) × (v.heap ≡ w.heap) × (v.mapped ≡ w.mapped + 1)
  bo_destroy-bo_create fd f width height p w bo h =
      destroyed f height p w (bo_create d fd f width height p w) bo h
        (bo_create-Created fd f width height p w)

module _ (d : Driver) where
  open d use {State}

  -- Where the format is known, there is memory and each call of the kernel succeeds, bo_create
  -- returns the mapped buffer with the handle, the size and the pitch of the device.
  pub bo_create-mapped :
      (fd : ℕ) (f : Format) (width height bpp : ℕ) (p : Layout) (w : World State) (r : Dumb)
      (offset map : ℕ) (created asked mapped : State)
      → bits_per_pixel f ≡ some bpp
      → d.calloc w.device ≡ true
      → d.create_dumb fd width (virtual_height f height) bpp w.device ≡ (some r, created)
      → d.map_dumb fd r.handle created ≡ (pos 0, offset, asked)
      → d.mmap r.size fd offset asked ≡ (some map, mapped)
      → let bo : Bo = record {
        fd = fd;
        handle = r.handle;
        size = r.size;
        pitch = r.pitch;
        ptr = some map;
      } in
        bo_create d fd f width height p w ≡ (
          some bo,
          lay_out (plane_kind f) bo height p,
          record { device = mapped; heap = w.heap + 1; mapped = w.mapped + 1 },
        )
  unfolding bo_create with_bpp after_dumb bo_create_dumb after_create bo_map after_map_dumb
      after_mmap after_bo_map
  bo_create-mapped fd f width height bpp p w r offset map created asked mapped known room h1 h2 h3 =
      rw (known, room, h1, h2, h3) refl
