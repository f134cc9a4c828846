-- ===== src/Drm/Aperture/RoundTrip.antt =====
-- Freeing what was allocated, and the bounds of an address.
use prl_tools.Base.{
  ℕ, zero, suc, ◌+◌, ◌≤◌, ◌<◌, ◌≡◌, refl, ==_refl, List, [], ◌∷◌, arith, true, false, ◌==◌,
}
use prl_tools.Drm.Aperture.{
  ApertureEntry, aperture_base, base_after, insert_at, prl_drm_aperture_alloc,
  prl_drm_aperture_free,
}
use prl_tools.Drm.Aperture.Order.{Laid, Fits, end_of, start_of, aperture_limit}
use prl_tools.Drm.Aperture.Alloc.{prl_drm_aperture_alloc-IsPut}

start_of-lower : (b : ℕ) (ps : List ApertureEntry) (i : ℕ) → Laid b ps → b ≤ start_of b ps i
start_of-lower b [] zero laid = omega arith
start_of-lower b [] (suc i) laid = omega arith
start_of-lower b (p ∷ ps) zero laid = omega arith
start_of-lower b (p ∷ ps) (suc i) laid =
    omega (arith, laid.0, laid.3, start_of-lower (base_after p) ps i laid.4)

prl_drm_aperture_free-insert_at :
    (size b : ℕ) (ps : List ApertureEntry) (i : ℕ)
    → Laid b ps
    → let s = start_of b ps i in
      prl_drm_aperture_free s (insert_at i (record { base = s; size = size }) ps) ≡ ps
unfolding prl_drm_aperture_free insert_at
prl_drm_aperture_free-insert_at size b [] zero laid = rw (==_refl b) refl
prl_drm_aperture_free-insert_at size b [] (suc i) laid = rw (==_refl b) refl
prl_drm_aperture_free-insert_at size b (p ∷ ps) zero laid = rw (==_refl b) refl
prl_drm_aperture_free-insert_at size b (p ∷ ps) (suc i) laid =
    let other : (p.base == start_of (base_after p) ps i) ≡ false =
      ground (arith, laid.2, laid.3, start_of-lower (base_after p) ps i laid.4) in
    rw (other, prl_drm_aperture_free-insert_at size (base_after p) ps i laid.4) refl

-- Freeing what has been allocated gives the list back as it was: if memory was there, the size is not 0,
-- the entries lie in order and apart, and there was room after them.
pub prl_drm_aperture_alloc-prl_drm_aperture_free :
    (size : ℕ) (ps : List ApertureEntry)
    → 0 < size
    → Laid aperture_base ps
    → end_of aperture_base ps + size ≤ aperture_limit
    → let r = prl_drm_aperture_alloc true size ps in prl_drm_aperture_free r.0 r.1 ≡ ps
prl_drm_aperture_alloc-prl_drm_aperture_free size ps some_size laid room =
    let i = prl_drm_aperture_alloc-IsPut size ps some_size laid room in
    let back = prl_drm_aperture_free-insert_at size aperture_base ps i.place laid in
    rw (i.put, i.start) back

Fits-limit :
    (size b : ℕ) (ps : List ApertureEntry) (i : ℕ)
    → Laid b ps
    → Fits size b ps i
    → start_of b ps i + size ≤ aperture_limit
Fits-limit size b [] zero laid fits = fits
Fits-limit size b [] (suc i) laid fits = fits
Fits-limit size b (p ∷ ps) zero laid fits = omega (arith, fits, laid.3)
Fits-limit size b (p ∷ ps) (suc i) laid fits = Fits-limit size (base_after p) ps i laid.4 fits

pub prl_drm_aperture_alloc-bounds :
    (size : ℕ) (ps : List ApertureEntry)
    → 0 < size
    → Laid aperture_base ps
    → end_of aperture_base ps + size ≤ aperture_limit
    → let r = prl_drm_aperture_alloc true size ps in
      (aperture_base ≤ r.0) × (r.0 + size ≤ aperture_limit)
prl_drm_aperture_alloc-bounds size ps some_size laid room =
    let i = prl_drm_aperture_alloc-IsPut size ps some_size laid room in
    rw i.start (
      start_of-lower aperture_base ps i.place laid,
      Fits-limit size aperture_base ps i.place laid i.fits,
    )
