-- ===== src/Drm/Aperture/History.antt =====
-- Any sequence of allocations and releases in the aperture.
use prl_tools.Base.{ℕ, ◌+◌, ◌≤◌, ◌<◌, Bool, true, false, List, [], ◌∷◌, arith, All}
use prl_tools.Drm.Aperture.{
  ApertureEntry, aperture_base, prl_drm_aperture_alloc, prl_drm_aperture_free,
}
use prl_tools.Drm.Aperture.Order.{
  Laid, end_of, aperture_limit, prl_drm_aperture_free-Laid, prl_drm_aperture_free-end_of,
}
use prl_tools.Drm.Aperture.Alloc.{prl_drm_aperture_alloc-Laid}

pub data ApertureCall : Type 0 where
  alloc : Bool → ℕ → ApertureCall
  free : ℕ → ApertureCall

unfoldable pub aperture_call : ApertureCall → List ApertureEntry → List ApertureEntry
aperture_call (alloc room size) ps = (prl_drm_aperture_alloc room size ps).1
aperture_call (free base) ps = prl_drm_aperture_free base ps

unfoldable pub aperture_calls : List ApertureCall → List ApertureEntry → List ApertureEntry
aperture_calls [] ps = ps
aperture_calls (c ∷ cs) ps = aperture_calls cs (aperture_call c ps)

-- The memory of a call in whole pages, at most.
abbrev pub pages_of : ApertureCall → ℕ
pages_of (alloc room size) = size + 4095
pages_of (free base) = 0

abbrev pub all_pages : List ApertureCall → ℕ
all_pages [] = 0
all_pages (c ∷ cs) = pages_of c + all_pages cs

abbrev pub IsSized : ApertureCall → Type 0
IsSized (alloc room size) = 0 < size
IsSized (free base) = Unit

aperture_call-Laid :
    (c : ApertureCall) (ps : List ApertureEntry)
    → IsSized c
    → Laid aperture_base ps
    → end_of aperture_base ps + pages_of c ≤ aperture_limit
    → Laid aperture_base (aperture_call c ps)
      × (end_of aperture_base (aperture_call c ps) ≤ end_of aperture_base ps + pages_of c)
unfolding aperture_call prl_drm_aperture_alloc
aperture_call-Laid (alloc false size) ps sized laid room = (laid, omega arith)
aperture_call-Laid (alloc true size) ps sized laid room =
    prl_drm_aperture_alloc-Laid size ps sized laid (omega (arith, room))
aperture_call-Laid (free base) ps sized laid room = (
  prl_drm_aperture_free-Laid base aperture_base ps laid,
  omega (arith, prl_drm_aperture_free-end_of base aperture_base ps laid),
)

-- From entries that lie in the order of their addresses, page-aligned and apart, any calls lead to such
-- entries again, if no size is 0 and the sizes with a page each stay below the end of the address space.
pub aperture_calls-Laid :
    (cs : List ApertureCall) (ps : List ApertureEntry)
    → All IsSized cs
    → Laid aperture_base ps
    → end_of aperture_base ps + all_pages cs ≤ aperture_limit
    → Laid aperture_base (aperture_calls cs ps)
unfolding aperture_calls
aperture_calls-Laid [] ps sized laid room = laid
aperture_calls-Laid (c ∷ cs) ps sized laid room =
    let next = aperture_call-Laid c ps sized.0 laid (omega (arith, room)) in
    aperture_calls-Laid cs (aperture_call c ps) sized.1 next.0 (omega (arith, room, next.1))
