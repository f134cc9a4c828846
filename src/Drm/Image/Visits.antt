-- ===== src/Drm/Image/Visits.antt =====
-- A round of the loop over the images keeps the image well-formed.
use mathlib.Core.Path.{subst}
use prl_tools.Base.{
  ℕ, ◌≡◌, refl, true, false, ◌&&◌, Option, none, some, arith, ◌==◌, Bool-cases, Option-cases, inl,
  inr,
}
use prl_tools.Drm.Image.{
  GemLog, Image, ImageDesc, ImageKernel, prl_drm_create_pbuffer, prl_drm_image_find_owner,
  prl_drm_image_max_owner,
}
use prl_tools.Drm.Image.Change.{
  Visit, change_exclusive, change_shared, export, rebind, recreate, same_format, same_size, visit,
}
use prl_tools.Drm.Image.Invariant.{
  IsBound, IsDrawable, IsImage, redescribed, left-IsImage, joined-IsImage,
}

abbrev pub VisitOk : Visit → Type 0
VisitOk w = IsImage w.img × IsDrawable w.desc

module _ (k : ImageKernel) (file : ℕ) (no_object : k.drm_gem_object_lookup file 0 ≡ none) where
  rebind-VisitOk :
      (desc : ImageDesc) (img : Image) (l : GemLog) (go : Option ℕ)
      → IsImage img
      → IsDrawable desc
      → desc.pbuffer ≡ img.desc.pbuffer
      → (desc.handle == img.desc.handle) ≡ false
      → IsBound go img.desc.handle
      → go ≡ img.prl_go
      → VisitOk (rebind k file desc img l go)
  unfolding rebind
  rebind-VisitOk desc img l none v drawable same other bound it =
      elim (Option-cases (k.drm_gem_object_lookup file desc.handle)) [
        | inl missing ↦ rw (missing, rebind) (v, drawable)
        | inr (g, there) ↦
            rw (there, rebind)
              (
                redescribed img desc (some g) v drawable same (ground (arith, other, bound)),
                drawable,
              )
      ]
  rebind-VisitOk desc img l (some g) v drawable same other bound it =
      elim (Bool-cases (desc.handle == 0)) [
        | inl none_more ↦
            rw (none_more, rebind)
              (redescribed img desc none v drawable same (ground (arith, none_more)), drawable)
        | inr more ↦
            rw (more, rebind)
              (
                redescribed img desc img.prl_go v drawable same
                    (subst (λ o. IsBound o desc.handle) it (ground (arith, more))),
                drawable,
              )
      ]

  recreate-VisitOk :
      (desc : ImageDesc) (img : Image) (l : GemLog)
      → IsImage img
      → IsDrawable desc
      → desc.pbuffer ≡ img.desc.pbuffer
      → desc.handle ≡ img.desc.handle
      → VisitOk (recreate k desc img l)
  unfolding recreate
  recreate-VisitOk desc img l v drawable same handle =
      elim (Bool-cases ((prl_drm_create_pbuffer k true desc.pformat l).0 == img.desc.pbuffer)) [
        | inl it ↦
            rw it (redescribed img desc img.prl_go v drawable same (rw handle v.bound), drawable)
        | inr other ↦ rw other (v, drawable)
      ]

  change_exclusive-VisitOk :
      (desc : ImageDesc) (img : Image) (l : GemLog)
      → IsImage img
      → IsDrawable desc
      → desc.pbuffer ≡ img.desc.pbuffer
      → VisitOk (change_exclusive k file desc img l)
  unfolding change_exclusive
  change_exclusive-VisitOk desc img l v drawable same =
      elim (Bool-cases (desc.handle == img.desc.handle)) [
        | inr other ↦
            rw other (rebind-VisitOk desc img l img.prl_go v drawable same other v.bound refl)
        | inl it ↦
            let handle : desc.handle ≡ img.desc.handle = ground (arith, it) in
            elim (Bool-cases (same_size desc img.desc)) [
              | inr resized ↦
                  rw (it, resized)
                    (
                      redescribed img (record desc { handle = 0 }) none v drawable same refl,
                      drawable,
                    )
              | inl sized ↦ elim (Bool-cases (same_format desc.pformat img.desc.pformat)) [
                | inr formatted ↦
                    rw (it, sized, formatted) (recreate-VisitOk desc img l v drawable same handle)
                | inl nothing ↦
                    rw (it, sized, nothing)
                      (
                        redescribed img desc img.prl_go v drawable same (rw handle v.bound),
                        drawable,
                      )
              ]
            ]
      ]

  change_shared-VisitOk :
      (desc : ImageDesc) (img : Image) (l : GemLog)
      → IsImage img
      → IsDrawable desc
      → (prl_drm_image_find_owner (some file) img.owners == prl_drm_image_max_owner) ≡ false
      → (img.num_owners == 1) ≡ false
      → VisitOk (change_shared (prl_drm_image_find_owner (some file) img.owners) desc img l)
  unfolding change_shared
  change_shared-VisitOk desc img l v drawable mine several =
      elim (Bool-cases (
        (desc.handle == img.desc.handle)
        && same_size desc img.desc
        && same_format desc.pformat img.desc.pformat)) [
          | inl equal ↦ rw equal (v, drawable)
          | inr different ↦ rw different (left-IsImage file img v mine several, drawable)
        ]

  export-VisitOk :
      (desc : ImageDesc) (img : Image) (l : GemLog)
      → IsImage img
      → IsDrawable desc
      → prl_drm_image_find_owner (some file) img.owners ≡ 8
      → VisitOk (export file desc img l)
  unfolding export
  export-VisitOk desc img l v drawable new =
      elim (Bool-cases (prl_drm_image_find_owner none img.owners == prl_drm_image_max_owner)) [
        | inl full ↦ rw full (v, drawable)
        | inr room ↦ rw room (joined-IsImage file img v new room, drawable)
      ]

  pub visit-VisitOk :
      (desc : ImageDesc) (img : Image) (l : GemLog)
      → IsImage img
      → IsDrawable desc
      → VisitOk (visit k file desc img l)
  unfolding visit
  visit-VisitOk desc img l v drawable = elim (Bool-cases (desc.pbuffer == img.desc.pbuffer)) [
    | inl it ↦
        elim (Bool-cases
          (prl_drm_image_find_owner (some file) img.owners == prl_drm_image_max_owner)) [
            | inl foreign ↦ rw (it, foreign) (v, drawable)
            | inr mine ↦ elim (Bool-cases (img.num_owners == 1)) [
              | inl alone ↦
                  rw (it, mine, alone)
                    (change_exclusive-VisitOk desc img l v drawable (ground (arith, it)))
              | inr several ↦
                  rw (it, mine, several) (change_shared-VisitOk desc img l v drawable mine several)
            ]
          ]
    | inr other ↦
        elim (Bool-cases
          ((desc.pbuffer == 0) && (desc.handle == img.desc.handle) && same_size desc img.desc)) [
            | inr differs ↦ rw (other, differs) (v, drawable)
            | inl equal ↦
                elim (Bool-cases
                  (prl_drm_image_find_owner (some file) img.owners == prl_drm_image_max_owner)) [
                    | inl new ↦
                        rw (other, equal, new)
                          (export-VisitOk desc img l v drawable (ground (arith, new)))
                    | inr mine ↦ rw (other, equal, mine) (v, drawable)
                  ]
          ]
  ]
