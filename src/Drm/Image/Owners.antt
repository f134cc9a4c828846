-- ===== src/Drm/Image/Owners.antt =====
-- The places for the owners of an image.
use prl_tools.Base.{
  ℕ, zero, suc, ◌+◌, ◌≤◌, ◌≡◌, refl, List, [], ◌∷◌, Option, none, some, length, arith, ◌==◌,
  if◌then◌else◌, Bool-cases, inl, inr, ◌⊎◌,
}
use prl_tools.Drm.Image.{prl_drm_image_find_owner, same_file, set_owner}

-- How many owners there are, and in how many places a file stands.
abbrev pub used : Option ℕ → ℕ
used none = 0
used (some a) = 1

abbrev pub used_places : List (Option ℕ) → ℕ
used_places [] = 0
used_places (o ∷ os) = used o + used_places os

abbrev pub places : ℕ → List (Option ℕ) → ℕ
places file [] = 0
places file (o ∷ os) = (if same_file o (some file) then 1 else 0) + places file os

pub length-set_owner :
    (i : ℕ) (o : Option ℕ) (os : List (Option ℕ)) → length (set_owner i o os) ≡ length os
unfolding set_owner
length-set_owner i o [] = refl
length-set_owner zero o (p ∷ os) = refl
length-set_owner (suc i) o (p ∷ os) = omega (arith, length-set_owner i o os)

pub find_owner-absent :
    (file : ℕ) (os : List (Option ℕ))
    → prl_drm_image_find_owner (some file) os ≡ length os
    → places file os ≡ 0
unfolding prl_drm_image_find_owner
find_owner-absent file [] h = refl
find_owner-absent file (none ∷ os) h = omega (arith, find_owner-absent file os (omega arith))
find_owner-absent file (some a ∷ os) h = elim (Bool-cases (a == file)) [
  | inl it ↦ absurd (ground (arith, it, h))
  | inr other ↦ ground (arith, other, h, find_owner-absent file os (ground (arith, other, h)))
]

-- An owner that leaves its place.
module _ (file : ℕ) where
  abbrev pub leave : List (Option ℕ) → List (Option ℕ)
  leave os = set_owner (prl_drm_image_find_owner (some file) os) none os

  pub leave-cases :
      (os : List (Option ℕ))
      → (prl_drm_image_find_owner (some file) os ≡ length os)
        ⊎ ((used_places os ≡ suc (used_places (leave os)))
            × ((g : ℕ) → places g os ≡ (if file == g then 1 else 0) + places g (leave os)))
  unfolding prl_drm_image_find_owner set_owner
  leave-cases [] = inl refl
  leave-cases (none ∷ os) = elim (leave-cases os) [
    | inl absent ↦ inl (omega (arith, absent))
    | inr (total, each) ↦ inr (omega (arith, total), λ g. omega (arith, each g))
  ]
  leave-cases (some a ∷ os) = elim (Bool-cases (a == file)) [
    | inl it ↦ rw it (inr (omega arith, λ g. ground (arith, it)))
    | inr other ↦ rw other (elim (leave-cases os) [
      | inl absent ↦ inl (omega (arith, absent))
      | inr (total, each) ↦ inr (omega (arith, total), λ g. omega (arith, each g))
    ])
  ]

  -- A file that takes the first free place.
  abbrev pub join : List (Option ℕ) → List (Option ℕ)
  join os = set_owner (prl_drm_image_find_owner none os) (some file) os

  pub join-cases :
      (os : List (Option ℕ))
      → (prl_drm_image_find_owner none os ≡ length os)
        ⊎ ((used_places (join os) ≡ suc (used_places os))
            × ((g : ℕ) → places g (join os) ≡ (if file == g then 1 else 0) + places g os))
  unfolding prl_drm_image_find_owner set_owner
  join-cases [] = inl refl
  join-cases (none ∷ os) = inr (omega arith, λ g. omega arith)
  join-cases (some a ∷ os) = elim (join-cases os) [
    | inl absent ↦ inl (omega (arith, absent))
    | inr (total, each) ↦ inr (omega (arith, total), λ g. omega (arith, each g))
  ]

pub used_places-length : (os : List (Option ℕ)) → used_places os ≤ length os
used_places-length [] = omega arith
used_places-length (none ∷ os) = omega (arith, used_places-length os)
used_places-length (some a ∷ os) = omega (arith, used_places-length os)
