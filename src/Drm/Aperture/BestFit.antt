-- ===== src/Drm/Aperture/BestFit.antt =====
-- The loop of prl_drm_aperture_alloc finds the smallest gap that is large enough.
use prl_tools.Base.{
  ℕ, suc, ◌+◌, ◌-◌, ◌≤◌, ◌<◌, ◌≡◌, refl, sym, List, [], ◌∷◌, arith, Bool-cases, ◌&&◌, some,
  get_elem?, All, leb, ltb, inl, inr, ◌⊎◌,
}
use mathlib.Core.Path.{subst}
use prl_tools.Drm.Aperture.{ApertureEntry, Fit, base_after, free_before, best_fit, fit_step}
use prl_tools.Drm.Aperture.Order.{Laid, end_of}

-- The gaps before the entries, each with its address and its size.
abbrev pub gaps : ℕ → List ApertureEntry → List (ℕ × ℕ)
gaps b [] = []
gaps b (p ∷ ps) = (b, p.base - b) ∷ gaps (base_after p) ps

-- What the loop has found, against what it had found before: nothing better, or the best of the gaps.
abbrev pub AsBefore : ℕ → List (ℕ × ℕ) → Fit → Fit → Type 0
AsBefore size gs f g =
    (g.best_base ≡ f.best_base)
    × (g.best_head ≡ f.best_head)
    × (g.best_free ≡ f.best_free)
    × All (λ s. size ≤ s.1 → f.best_free ≤ s.1) gs

abbrev pub Better : ℕ → ℕ → List (ℕ × ℕ) → Fit → Fit → ℕ → Type 0
Better size i gs f g j =
    (g.best_head ≡ i + j)
    × (get_elem? gs j ≡ some (g.best_base, g.best_free))
    × (size ≤ g.best_free)
    × (g.best_free < f.best_free)
    × All (λ s. size ≤ s.1 → g.best_free ≤ s.1) gs

-- The round at an entry, after a gap that is better or one that is not.
abbrev taken : ℕ → ApertureEntry → Fit → Fit
taken i p f = record {
  base = base_after p;
  best_base = f.base;
  best_free = free_before f.base p;
  best_head = i;
}

abbrev passed : ApertureEntry → Fit → Fit
passed p f = record f { base = base_after p }

fit_step-cases :
    (size i : ℕ) (p : ApertureEntry) (f : Fit)
    → ((fit_step size i p f ≡ taken i p f)
        × (size ≤ free_before f.base p)
        × (free_before f.base p < f.best_free))
      ⊎ ((fit_step size i p f ≡ passed p f)
          × (size ≤ free_before f.base p → f.best_free ≤ free_before f.base p))
fit_step-cases size i p f =
    elim (Bool-cases (leb size (free_before f.base p) && ltb (free_before f.base p) f.best_free)) [
      | inl better ↦ inl (rw better refl, ground (arith, better), ground (arith, better))
      | inr worse ↦ inr (rw worse refl, λ large. ground (arith, worse, large))
    ]

pub best_fit-base :
    (size i : ℕ) (ps : List ApertureEntry) (f : Fit)
    → (best_fit size i ps f).base ≡ end_of f.base ps
unfolding best_fit
best_fit-base size i [] f = refl
best_fit-base size i (p ∷ ps) f = elim (fit_step-cases size i p f) [
  | inl (better, _, _) ↦
      subst (λ m. (best_fit size (suc i) ps m).base ≡ end_of (base_after p) ps) (sym better)
        (best_fit-base size (suc i) ps (taken i p f))
  | inr (worse, _) ↦
      subst (λ m. (best_fit size (suc i) ps m).base ≡ end_of (base_after p) ps) (sym worse)
        (best_fit-base size (suc i) ps (passed p f))
]

All-weaken :
    (size m n : ℕ) (gs : List (ℕ × ℕ))
    → m ≤ n
    → All (λ s. size ≤ s.1 → n ≤ s.1) gs
    → All (λ s. size ≤ s.1 → m ≤ s.1) gs
All-weaken size m n [] below all = tt
All-weaken size m n (s ∷ ss) below all =
    (λ large. omega (arith, all.0 large), All-weaken size m n ss below all.1)

abbrev Found : ℕ → ℕ → List (ℕ × ℕ) → Fit → Fit → Type 0
Found size i gs f g = AsBefore size gs f g ⊎ ((j : ℕ) × Better size i gs f g j)

pub best_fit-gaps :
    (size i : ℕ) (ps : List ApertureEntry) (f : Fit)
    → Laid f.base ps
    → Found size i (gaps f.base ps) f (best_fit size i ps f)
unfolding best_fit
best_fit-gaps size i [] f laid = inl (refl, refl, refl, tt)
best_fit-gaps size i (p ∷ ps) f laid =
    let same : free_before f.base p ≡ p.base - f.base = omega (arith, laid.0, laid.3) in
    elim (fit_step-cases size i p f) [
      | inl (better, large, less) ↦
          subst (λ m. Found size i (gaps f.base (p ∷ ps)) f (best_fit size (suc i) ps m))
            (sym better)
            (elim (best_fit-gaps size (suc i) ps (taken i p f) laid.4) [
              | inl old ↦ inr (
                0,
                (
                  omega (arith, old.1),
                  rw (old.0, old.2, same) refl,
                  omega (arith, old.2, large),
                  omega (arith, old.2, less),
                  (
                    λ fits. omega (arith, old.2, same),
                    All-weaken size _ _ (gaps (base_after p) ps) (omega (arith, old.2)) old.3,
                  ),
                ),
              )
              | inr (j, new) ↦ inr (
                suc j,
                (
                  omega (arith, new.0),
                  new.1,
                  new.2,
                  omega (arith, new.3, less),
                  (λ fits. omega (arith, same, new.3), new.4),
                ),
              )
            ])
      | inr (worse, least) ↦
          subst (λ m. Found size i (gaps f.base (p ∷ ps)) f (best_fit size (suc i) ps m))
            (sym worse)
            (elim (best_fit-gaps size (suc i) ps (passed p f) laid.4) [
              | inl old ↦ inl (old.0, old.1, old.2, (λ fits. omega (arith, least, same), old.3))
              | inr (j, new) ↦ inr (
                suc j,
                (
                  omega (arith, new.0),
                  new.1,
                  new.2,
                  new.3,
                  (λ fits. omega (arith, least, same, new.3), new.4),
                ),
              )
            ])
    ]
