-- ===== src/Drm/Aperture/Tests.antt =====
-- The allocator on small lists.
use prl_tools.Base.{◌≡◌, refl, true, List, [], ◌∷◌, arith}
use prl_tools.Drm.Aperture.{
  ApertureEntry, aperture_base, best_fit, insert_at, end_place, prl_drm_aperture_alloc,
}
use prl_tools.Drm.Aperture.Order.{Laid}
use prl_tools.Drm.Aperture.Alloc.{Allocated, prl_drm_aperture_alloc-Allocated}
use prl_tools.Drm.Aperture.History.{alloc, free, aperture_calls, aperture_calls-Laid}

-- A gap of two pages, a gap of one, and the end.
abbrev three_entries : List ApertureEntry
three_entries =
    record { base = 2147491840; size = 100 }
    ∷ record { base = 2147500032; size = 4096 }
    ∷ record { base = 2147504128; size = 1 }
    ∷ []

one_page : (prl_drm_aperture_alloc true 4000 three_entries).0 ≡ 2147495936
unfolding prl_drm_aperture_alloc best_fit insert_at end_place
one_page = refl

two_pages : (prl_drm_aperture_alloc true 5000 three_entries).0 ≡ 2147483648
unfolding prl_drm_aperture_alloc best_fit insert_at end_place
two_pages = refl

three_pages : (prl_drm_aperture_alloc true 9000 three_entries).0 ≡ 2147508224
unfolding prl_drm_aperture_alloc best_fit insert_at end_place
three_pages = refl

abbrev three_entries-Laid : Laid aperture_base three_entries
three_entries-Laid = (
  omega arith,
  refl,
  omega arith,
  omega arith,
  (
    omega arith,
    refl,
    omega arith,
    omega arith,
    (omega arith, refl, omega arith, omega arith, omega arith),
  ),
)

prl_drm_aperture_alloc-Allocated_example :
    Allocated 5000 three_entries (prl_drm_aperture_alloc true 5000 three_entries)
prl_drm_aperture_alloc-Allocated_example =
    prl_drm_aperture_alloc-Allocated 5000 three_entries (omega arith) three_entries-Laid
      (omega arith)

aperture_calls-Laid_example :
    Laid aperture_base
      (aperture_calls (alloc true 100 ∷ alloc true 70000 ∷ free 2147483648 ∷ []) three_entries)
aperture_calls-Laid_example =
    aperture_calls-Laid (alloc true 100 ∷ alloc true 70000 ∷ free 2147483648 ∷ []) three_entries
      (omega arith, (omega arith, (tt, tt))) three_entries-Laid (omega arith)
