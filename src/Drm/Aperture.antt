-- ===== src/Drm/Aperture.antt =====
-- kmods-src/prl_vid/Video/Guest/Linux/kmod/prldrm.c: the address space of the aperture. The entries of
-- prl_drm_aperture_list are a list in its order, and a place in it is the number of entries before it.
-- An argument `room` says whether kmalloc succeeds. Each call holds the list's lock.
pub mod Order
pub mod BestFit
pub mod Alloc
pub mod RoundTrip
pub mod History
mod Tests
use prl_tools.Base.{
  ℕ, zero, suc, ◌+◌, ◌-◌, ◌*◌, ◌/◌, ◌%◌, ◌^◌, Bool, true, false, ◌&&◌, List, [], ◌∷◌, leb, ltb,
  ◌==◌, if◌then◌else◌,
}
use prl_tools.Base.Errno.{enomem}

abbrev pub page_size : ℕ
page_size = 4096

abbrev pub aperture_base : ℕ
aperture_base = 2147483648

-- `~0ull`
abbrev pub no_base : ℕ
no_base = 2 ^ 64 - 1

pub record ApertureEntry : Type 0 where
  pub base : ℕ
  pub size : ℕ

-- `roundup(a, PAGE_SIZE)` on an unsigned number of 64 bits.
abbrev pub roundup_page : ℕ → ℕ
roundup_page a = (a + 4095) % 2 ^ 64 / 4096 * 4096

-- `free`: from the end of the entries before to an entry.
abbrev pub free_before : ℕ → ApertureEntry → ℕ
free_before base p = (p.base + 2 ^ 64 - base) % 2 ^ 64

-- The `base` for the next round of the loop.
abbrev pub base_after : ApertureEntry → ℕ
base_after p = roundup_page ((p.base + p.size) % 2 ^ 64)

-- The variables of the loop over the list.
pub record Fit : Type 0 where
  pub base : ℕ
  pub best_base : ℕ
  pub best_free : ℕ
  pub best_head : ℕ

-- One round, at the entry in place `i`.
abbrev pub fit_step : ℕ → ℕ → ApertureEntry → Fit → Fit
fit_step size i p f =
    if leb size (free_before f.base p) && ltb (free_before f.base p) f.best_free
    then record {
      base = base_after p;
      best_base = f.base;
      best_free = free_before f.base p;
      best_head = i;
    }
    else record f { base = base_after p }

unfoldable pub best_fit : ℕ → ℕ → List ApertureEntry → Fit → Fit
best_fit size i [] f = f
best_fit size i (p ∷ ps) f = best_fit size (suc i) ps (fit_step size i p f)

-- `list_add` before the entry in a place.
unfoldable pub insert_at : ℕ → ApertureEntry → List ApertureEntry → List ApertureEntry
insert_at zero e ps = e ∷ ps
insert_at (suc i) e [] = e ∷ []
insert_at (suc i) e (p ∷ ps) = p ∷ insert_at i e ps

-- The `head` at the end of the loop is the list's own, and so is the first `best_head`: the place after
-- the last entry.
unfoldable pub end_place : List ApertureEntry → ℕ
end_place [] = 0
end_place (p ∷ ps) = suc (end_place ps)

unfoldable pub prl_drm_aperture_alloc : Bool → ℕ → List ApertureEntry → ℕ × List ApertureEntry
prl_drm_aperture_alloc false size ps = (2 ^ 64 - enomem, ps)
prl_drm_aperture_alloc true size ps =
    let f : Fit = best_fit size 0 ps (record {
      base = aperture_base;
      best_base = no_base;
      best_free = no_base;
      best_head = end_place ps;
    }) in
    if ltb f.best_base f.base
    then (f.best_base, insert_at f.best_head (record { base = f.best_base; size = size }) ps)
    else (f.base, insert_at (end_place ps) (record { base = f.base; size = size }) ps)

unfoldable pub prl_drm_aperture_free : ℕ → List ApertureEntry → List ApertureEntry
prl_drm_aperture_free base [] = []
prl_drm_aperture_free base (p ∷ ps) =
    if p.base == base then ps else p ∷ prl_drm_aperture_free base ps
