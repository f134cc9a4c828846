-- ===== src/Drm/Aperture/Alloc.antt =====
-- An allocation in the aperture: where it is, and that it keeps to itself.
use mathlib.Core.Path.{subst}
use prl_tools.Base.{
  ℕ, zero, suc, ◌+◌, ◌-◌, ◌≤◌, ◌<◌, ◌≡◌, refl, sym, ◌∙◌, List, [], ◌∷◌, arith, true, false, some,
  get_elem?, All, ltb, inl, inr, ◌⊎◌,
}
use prl_tools.Drm.Aperture.{
  ApertureEntry, Fit, aperture_base, no_base, base_after, best_fit, insert_at, end_place,
  prl_drm_aperture_alloc,
}
use prl_tools.Drm.Aperture.Order.{
  Laid, Fits, end_of, start_of, aperture_limit, insert_at-Laid, Fits-end, start_of-end,
  end_of-lower, insert_at-end_of, insert_at-end,
}
use prl_tools.Drm.Aperture.BestFit.{gaps, best_fit-gaps, best_fit-base}

-- A gap of a size or more is a place that the size fits.
record IsPlace (size b : ℕ) (ps : List ApertureEntry) (j s : ℕ) : Type 0 where
  pub inside : j < end_place ps
  pub start : s ≡ start_of b ps j
  pub fits : Fits size b ps j
  pub before_end : s + size ≤ end_of b ps

gap-IsPlace :
    (size b : ℕ) (ps : List ApertureEntry) (j s f : ℕ)
    → Laid b ps
    → get_elem? (gaps b ps) j ≡ some (s, f)
    → 0 < size
    → size ≤ f
    → IsPlace size b ps j s
unfolding end_place
gap-IsPlace size b [] j s f laid there some_size large = absurd (cc there)
gap-IsPlace size b (p ∷ ps) zero s f laid there some_size large =
    let sb : s ≡ b = cc there in
    let fb : f ≡ p.base - b = cc there in
    record {
      inside = omega arith;
      start = sb;
      fits = omega (arith, fb, laid.0);
      before_end = omega (arith, fb, sb, laid.0, laid.3, end_of-lower (base_after p) ps laid.4);
    }
gap-IsPlace size b (p ∷ ps) (suc j) s f laid there some_size large =
    let i = gap-IsPlace size (base_after p) ps j s f laid.4 there some_size large in
    record {
      inside = omega (arith, i.inside);
      start = i.start;
      fits = i.fits;
      before_end = i.before_end;
    }

-- No gap is as large as the search's first bound.
gaps-small :
    (size b : ℕ) (ps : List ApertureEntry)
    → Laid b ps
    → All (λ g. size ≤ g.1 → no_base ≤ g.1) (gaps b ps)
    → All (λ g. g.1 < size) (gaps b ps)
gaps-small size b [] laid all = tt
gaps-small size b (p ∷ ps) laid all =
    (ground (arith, laid.0, laid.3, all.0), gaps-small size (base_after p) ps laid.4 all.1)

-- What there is after an allocation: an entry in the smallest gap that holds it, or at the end if none
-- does.
pub Allocated : ℕ → List ApertureEntry → ℕ × List ApertureEntry → Type 0
Allocated size ps r =
    ((j : ℕ) × (f : ℕ) × (get_elem? (gaps aperture_base ps) j ≡ some (r.0, f))
      × (size ≤ f)
      × All (λ g. size ≤ g.1 → f ≤ g.1) (gaps aperture_base ps)
      × (r.1 ≡ insert_at j (record { base = r.0; size = size }) ps))
    ⊎ ((r.0 ≡ end_of aperture_base ps)
        × All (λ g. g.1 < size) (gaps aperture_base ps)
        × (r.1 ≡ insert_at (end_place ps) (record { base = r.0; size = size }) ps))

-- When memory is there, prl_drm_aperture_alloc takes the start of the smallest gap before an entry that
-- holds the size, or the end of the entries if none does, and puts the new entry there: if the size is
-- not 0, the entries lie in order and apart, and they end where addresses can be rounded up.
pub prl_drm_aperture_alloc-Allocated :
    (size : ℕ) (ps : List ApertureEntry)
    → 0 < size
    → Laid aperture_base ps
    → end_of aperture_base ps ≤ aperture_limit
    → Allocated size ps (prl_drm_aperture_alloc true size ps)
unfolding Allocated prl_drm_aperture_alloc
prl_drm_aperture_alloc-Allocated size ps some_size laid small =
    let f0 : Fit = record {
      base = aperture_base;
      best_base = no_base;
      best_free = no_base;
      best_head = end_place ps;
    } in
    let f : Fit = best_fit size 0 ps f0 in
    let at_end = best_fit-base size 0 ps f0 in
    elim (best_fit-gaps size 0 ps f0 laid) [
      | inl none_fits ↦
          let late : ltb f.best_base f.base ≡ false = ground (arith, none_fits.0, at_end, small) in
          rw late (inr (at_end, gaps-small size aperture_base ps laid none_fits.3, refl))
      | inr (j, found) ↦
          let i =
            gap-IsPlace size aperture_base ps j f.best_base f.best_free laid found.1 some_size
              found.2 in
          let early : ltb f.best_base f.base ≡ true = ground (arith, i.before_end, at_end) in
          let head : f.best_head ≡ j = omega (arith, found.0) in
          rw early (inl (j, f.best_free, found.1, found.2, found.4, rw head refl))
    ]

-- The entry stands in a place that it fits, and moves the end by no more than its pages.
pub record IsPut (size : ℕ) (ps : List ApertureEntry) (r : ℕ × List ApertureEntry) : Type 0 where
  pub place : ℕ
  pub start : r.0 ≡ start_of aperture_base ps place
  pub fits : Fits size aperture_base ps place
  pub put : r.1 ≡ insert_at place (record { base = r.0; size = size }) ps
  pub end_small : end_of aperture_base r.1 ≤ end_of aperture_base ps + (size + 4095)

pub prl_drm_aperture_alloc-IsPut :
    (size : ℕ) (ps : List ApertureEntry)
    → 0 < size
    → Laid aperture_base ps
    → end_of aperture_base ps + size ≤ aperture_limit
    → IsPut size ps (prl_drm_aperture_alloc true size ps)
unfolding Allocated
prl_drm_aperture_alloc-IsPut size ps some_size laid room =
    let r = prl_drm_aperture_alloc true size ps in
    let e : ApertureEntry = record { base = r.0; size = size } in
    elim (prl_drm_aperture_alloc-Allocated size ps some_size laid (omega (arith, room))) [
      | inl (j, f, there, large, least, put) ↦
          let i = gap-IsPlace size aperture_base ps j r.0 f laid there some_size large in
          record {
            place = j;
            start = i.start;
            fits = i.fits;
            put = put;
            end_small = rw put (omega (arith, insert_at-end_of e aperture_base ps j i.inside));
          }
      | inr (at_end, _, put) ↦ record {
        place = end_place ps;
        start = at_end ∙ sym (start_of-end aperture_base ps);
        fits = Fits-end size aperture_base ps room;
        put = put;
        end_small = rw put (omega (arith, insert_at-end e aperture_base ps, at_end));
      }
    ]

pub prl_drm_aperture_alloc-Laid :
    (size : ℕ) (ps : List ApertureEntry)
    → 0 < size
    → Laid aperture_base ps
    → end_of aperture_base ps + size ≤ aperture_limit
    → let r = prl_drm_aperture_alloc true size ps in
      Laid aperture_base r.1 × (end_of aperture_base r.1 ≤ end_of aperture_base ps + (size + 4095))
prl_drm_aperture_alloc-Laid size ps some_size laid room =
    let i = prl_drm_aperture_alloc-IsPut size ps some_size laid room in
    (
      subst (λ x. Laid aperture_base x) (sym i.put)
          (rw i.start
            (insert_at-Laid size aperture_base ps i.place some_size (omega arith) laid i.fits)),
      i.end_small,
    )
