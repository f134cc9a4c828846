-- ===== src/Drm/Aperture/Order.antt =====
-- The entries stand in the order of their addresses, and apart.
use prl_tools.Base.{
  ℕ, zero, suc, ◌+◌, ◌-◌, ◌%◌, ◌^◌, ◌≤◌, ◌<◌, ◌≡◌, refl, List, [], ◌∷◌, arith, ◌==◌, Bool-cases,
  inl, inr,
}
use prl_tools.Drm.Aperture.{ApertureEntry, base_after, insert_at, end_place, prl_drm_aperture_free}

-- Addresses up to this one can be rounded up without an overflow.
abbrev pub aperture_limit : ℕ
aperture_limit = 2 ^ 64 - 4096

-- From an address on the entries follow each other, each in pages of its own.
abbrev pub Laid : ℕ → List ApertureEntry → Type 0
Laid b [] = b ≤ aperture_limit
Laid b (p ∷ ps) =
    (b ≤ p.base)
    × (p.base % 4096 ≡ 0)
    × (0 < p.size)
    × (p.base + p.size ≤ aperture_limit)
    × Laid (base_after p) ps

-- The first address after the entries.
abbrev pub end_of : ℕ → List ApertureEntry → ℕ
end_of b [] = b
end_of b (p ∷ ps) = end_of (base_after p) ps

-- Where the entries before a place end.
abbrev pub start_of : ℕ → List ApertureEntry → ℕ → ℕ
start_of b ps zero = b
start_of b [] (suc i) = b
start_of b (p ∷ ps) (suc i) = start_of (base_after p) ps i

-- There is room for a size in a place.
abbrev pub Fits : ℕ → ℕ → List ApertureEntry → ℕ → Type 0
Fits size b [] i = b + size ≤ aperture_limit
Fits size b (p ∷ ps) zero = b + size ≤ p.base
Fits size b (p ∷ ps) (suc i) = Fits size (base_after p) ps i

pub insert_at-Laid :
    (size b : ℕ) (ps : List ApertureEntry) (i : ℕ)
    → 0 < size
    → b % 4096 ≡ 0
    → Laid b ps
    → Fits size b ps i
    → Laid b (insert_at i (record { base = start_of b ps i; size = size }) ps)
unfolding insert_at
insert_at-Laid size b [] zero some_size aligned laid fits =
    (omega arith, aligned, some_size, fits, omega arith)
insert_at-Laid size b [] (suc i) some_size aligned laid fits =
    (omega arith, aligned, some_size, fits, omega arith)
insert_at-Laid size b (p ∷ ps) zero some_size aligned laid fits = (
  omega arith,
  aligned,
  some_size,
  omega (arith, laid.3),
  (omega (arith, laid.1, laid.3), laid.1, laid.2, laid.3, laid.4),
)
insert_at-Laid size b (p ∷ ps) (suc i) some_size aligned laid fits = (
  laid.0,
  laid.1,
  laid.2,
  laid.3,
  insert_at-Laid size (base_after p) ps i some_size (omega arith) laid.4 fits,
)

pub Laid-lower : (a b : ℕ) (ps : List ApertureEntry) → a ≤ b → Laid b ps → Laid a ps
Laid-lower a b [] below laid = omega arith
Laid-lower a b (p ∷ ps) below laid = (omega (arith, laid.0), laid.1, laid.2, laid.3, laid.4)

pub prl_drm_aperture_free-Laid :
    (base b : ℕ) (ps : List ApertureEntry) → Laid b ps → Laid b (prl_drm_aperture_free base ps)
unfolding prl_drm_aperture_free
prl_drm_aperture_free-Laid base b [] laid = laid
prl_drm_aperture_free-Laid base b (p ∷ ps) laid = elim (Bool-cases (p.base == base)) [
  | inl it ↦ rw it (Laid-lower b (base_after p) ps (omega (arith, laid.0, laid.3)) laid.4)
  | inr other ↦
      rw other
        (laid.0, laid.1, laid.2, laid.3, prl_drm_aperture_free-Laid base (base_after p) ps laid.4)
]

-- An entry of no size or more moves the end by no more than its pages.
pub insert_at-end_of :
    (e : ApertureEntry) (b : ℕ) (ps : List ApertureEntry) (i : ℕ)
    → i < end_place ps
    → end_of b (insert_at i e ps) ≡ end_of b ps
unfolding insert_at end_place
insert_at-end_of e b [] i inside = absurd (omega arith)
insert_at-end_of e b (p ∷ ps) zero inside = refl
insert_at-end_of e b (p ∷ ps) (suc i) inside = insert_at-end_of e (base_after p) ps i (omega arith)

pub insert_at-end :
    (e : ApertureEntry) (b : ℕ) (ps : List ApertureEntry)
    → end_of b (insert_at (end_place ps) e ps) ≡ base_after e
unfolding insert_at end_place
insert_at-end e b [] = refl
insert_at-end e b (p ∷ ps) = insert_at-end e (base_after p) ps

pub start_of-end : (b : ℕ) (ps : List ApertureEntry) → start_of b ps (end_place ps) ≡ end_of b ps
unfolding end_place
start_of-end b [] = refl
start_of-end b (p ∷ ps) = start_of-end (base_after p) ps

pub Fits-end :
    (size b : ℕ) (ps : List ApertureEntry)
    → end_of b ps + size ≤ aperture_limit
    → Fits size b ps (end_place ps)
unfolding end_place
Fits-end size b [] room = room
Fits-end size b (p ∷ ps) room = Fits-end size (base_after p) ps room

pub end_of-aligned : (b : ℕ) (ps : List ApertureEntry) → b % 4096 ≡ 0 → end_of b ps % 4096 ≡ 0
end_of-aligned b [] aligned = aligned
end_of-aligned b (p ∷ ps) aligned = end_of-aligned (base_after p) ps (omega arith)

pub end_of-lower : (b : ℕ) (ps : List ApertureEntry) → Laid b ps → b ≤ end_of b ps
end_of-lower b [] laid = omega arith
end_of-lower b (p ∷ ps) laid = omega (arith, laid.0, laid.3, end_of-lower (base_after p) ps laid.4)

pub end_of_mono : (a b : ℕ) (ps : List ApertureEntry) → a ≤ b → end_of a ps ≤ end_of b ps
end_of_mono a b [] below = below
end_of_mono a b (p ∷ ps) below = omega arith

pub prl_drm_aperture_free-end_of :
    (base b : ℕ) (ps : List ApertureEntry)
    → Laid b ps
    → end_of b (prl_drm_aperture_free base ps) ≤ end_of b ps
unfolding prl_drm_aperture_free
prl_drm_aperture_free-end_of base b [] laid = omega arith
prl_drm_aperture_free-end_of base b (p ∷ ps) laid = elim (Bool-cases (p.base == base)) [
  | inl it ↦ rw it (end_of_mono b (base_after p) ps (omega (arith, laid.0, laid.3)))
  | inr other ↦ rw other (prl_drm_aperture_free-end_of base (base_after p) ps laid.4)
]
