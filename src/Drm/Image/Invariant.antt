-- ===== src/Drm/Image/Invariant.antt =====
-- The ioctls keep an image well-formed.
use mathlib.Core.Path.{subst}
use prl_tools.Base.{
  ℕ, ◌+◌, ◌-◌, ◌%◌, ◌^◌, ◌≤◌, ◌<◌, ◌≡◌, sym, ◌∙◌, false, Option, none, some, length, arith, ◌==◌,
  Bool-cases, inl, inr,
}
use prl_tools.Drm.Image.{Image, ImageDesc, prl_drm_image_find_owner, prl_drm_image_max_owner}
use prl_tools.Drm.Image.Owners.{
  used_places, places, length-set_owner, find_owner-absent, leave-cases, join-cases, leave, join,
  used_places-length,
}

-- A reference to a gem object goes with a handle.
abbrev pub IsBound : Option ℕ → ℕ → Type 0
IsBound none handle = handle ≡ 0
IsBound (some g) handle = 0 < handle

abbrev pub IsDrawable : ImageDesc → Type 0
IsDrawable d = (0 < d.width) × (0 < d.height)

pub record IsImage (img : Image) : Type 0 where
  pub slots : length img.owners ≡ 8
  pub counted : img.num_owners ≡ used_places img.owners
  pub owned : 0 < img.num_owners
  pub once : (file : ℕ) → places file img.owners ≤ 1
  pub named : 0 < img.desc.pbuffer
  pub drawable : IsDrawable img.desc
  pub bound : IsBound img.prl_go img.desc.handle

-- The description and the object of an image change together.
pub redescribed :
    (img : Image) (desc : ImageDesc) (go : Option ℕ)
    → IsImage img
    → IsDrawable desc
    → desc.pbuffer ≡ img.desc.pbuffer
    → IsBound go desc.handle
    → IsImage (record img { desc = desc; prl_go = go })
redescribed img desc go v drawable same bound = record {
  slots = v.slots;
  counted = v.counted;
  owned = v.owned;
  once = v.once;
  named = omega (arith, v.named);
  drawable = drawable;
  bound = bound;
}

-- An owner among others leaves, and a file that was none takes a free place.
pub left-IsImage :
    (file : ℕ) (img : Image)
    → IsImage img
    → (prl_drm_image_find_owner (some file) img.owners == prl_drm_image_max_owner) ≡ false
    → (img.num_owners == 1) ≡ false
    → IsImage (record img {
      owners = leave file img.owners;
      num_owners = (img.num_owners + 2 ^ 32 - 1) % 2 ^ 32;
    })
left-IsImage file img v mine several = elim (leave-cases file img.owners) [
  | inl absent ↦ absurd (ground (arith, absent, mine, v.slots))
  | inr (total, each) ↦
      let few = used_places-length img.owners in
      record {
        slots = length-set_owner _ none img.owners ∙ v.slots;
        counted = ground (arith, total, few, v.counted, v.slots);
        owned = ground (arith, few, v.counted, v.slots, v.owned, several);
        once = λ g. omega (arith, each g, v.once g);
        named = v.named;
        drawable = v.drawable;
        bound = v.bound;
      }
]

pub joined-IsImage :
    (file : ℕ) (img : Image)
    → IsImage img
    → prl_drm_image_find_owner (some file) img.owners ≡ 8
    → (prl_drm_image_find_owner none img.owners == prl_drm_image_max_owner) ≡ false
    → IsImage
        (record img { owners = join file img.owners; num_owners = (img.num_owners + 1) % 2 ^ 32 })
joined-IsImage file img v new room = elim (join-cases file img.owners) [
  | inl full ↦ absurd (ground (arith, full, room, v.slots))
  | inr (total, each) ↦
      let few = used_places-length img.owners in
      let absent = find_owner-absent file img.owners (new ∙ sym v.slots) in
      record {
        slots = length-set_owner _ (some file) img.owners ∙ v.slots;
        counted = ground (arith, total, few, v.counted, v.slots);
        owned = ground (arith, few, v.counted, v.slots);
        once = λ g. elim (Bool-cases (file == g)) [
          | inl it ↦
              let same : file ≡ g = ground (arith, it) in
              let none_yet : places g img.owners ≡ 0 =
                subst (λ x. places x img.owners ≡ 0) same absent in
              ground (arith, each g, none_yet)
          | inr other ↦ ground (arith, each g, v.once g, other)
        ];
        named = v.named;
        drawable = v.drawable;
        bound = v.bound;
      }
]
