-- ===== src/Drm/Image/Creates.antt =====
-- prl_drm_image_create_ioctl keeps the images well-formed.
use prl_tools.Base.{
  ℕ, ◌≤◌, ◌≡◌, refl, false, ◌||◌, List, [], ◌∷◌, Option, none, some, arith, ◌==◌, Bool-cases,
  Option-cases, inl, inr, All, pos, ℤ, ◌==ℤ◌,
}
use prl_tools.Drm.Image.{
  GemLog, Image, ImageDesc, ImageKernel, first_owner, prl_drm_create_image, prl_drm_create_pbuffer,
}
use prl_tools.Drm.Image.Change.{visit}
use prl_tools.Drm.Image.Ioctl.{
  Search, add_image, finish_create, prl_drm_image_create_ioctl, search_images, visited_ret,
}
use prl_tools.Drm.Image.Owners.{places}
use prl_tools.Drm.Image.Invariant.{IsBound, IsDrawable, IsImage}
use prl_tools.Drm.Image.Visits.{visit-VisitOk}

first_owner-once : (file g : ℕ) → places g (first_owner file) ≤ 1
first_owner-once file g = ground arith

new-IsImage :
    (file pbuffer : ℕ) (desc : ImageDesc) (go : Option ℕ)
    → (pbuffer == 0) ≡ false
    → IsDrawable desc
    → IsBound go desc.handle
    → IsImage (record {
      desc = record desc { pbuffer = pbuffer };
      prl_go = go;
      num_owners = 1;
      owners = first_owner file;
    })
new-IsImage file pbuffer desc go some_buffer drawable bound = record {
  slots = refl;
  counted = refl;
  owned = omega arith;
  once = first_owner-once file;
  named = ground (arith, some_buffer);
  drawable = drawable;
  bound = bound;
}

abbrev pub IfSome : Option Image → Type 0
IfSome none = Unit
IfSome (some img) = IsImage img

prl_drm_create_image-IfSome :
    (k : ImageKernel) (file : ℕ) (desc : ImageDesc) (l : GemLog)
    → IsDrawable desc
    → IfSome (prl_drm_create_image k file desc l).0
unfolding prl_drm_create_image prl_drm_create_pbuffer
prl_drm_create_image-IfSome k file desc l drawable =
    let p = prl_drm_create_pbuffer k false desc.pformat l in
    elim (Bool-cases k.kzalloc) [
      | inr no_room ↦ rw no_room tt
      | inl room ↦ elim (Bool-cases (p.0 == 0)) [
        | inl no_buffer ↦ rw (room, no_buffer) tt
        | inr some_buffer ↦ elim (Bool-cases (desc.handle == 0)) [
          | inl unbound ↦
              rw (room, some_buffer, unbound)
                (new-IsImage file p.0 desc none some_buffer drawable (ground (arith, unbound)))
          | inr bound ↦ elim (Option-cases (k.drm_gem_object_lookup file desc.handle)) [
            | inl missing ↦ rw (room, some_buffer, bound, missing) tt
            | inr (g, there) ↦
                rw (room, some_buffer, bound, there)
                  (new-IsImage file p.0 desc (some g) some_buffer drawable (ground (arith, bound)))
          ]
        ]
      ]
    ]

add_image-IsImage :
    (s : Search) (l : GemLog) (made : Option Image)
    → All IsImage s.imgs
    → IfSome made
    → All IsImage (add_image s l made).imgs
unfolding add_image
add_image-IsImage s l none all v = all
add_image-IsImage s l (some img) all v = (v, all)

module _ (k : ImageKernel) (file : ℕ) (no_object : k.drm_gem_object_lookup file 0 ≡ none) where
  search_images-IsImage :
      (ret : ℤ) (desc : ImageDesc) (imgs : List Image) (l : GemLog)
      → All IsImage imgs
      → IsDrawable desc
      → let s = search_images k file ret desc imgs l in All IsImage s.imgs × IsDrawable s.desc
  unfolding search_images
  search_images-IsImage ret desc [] l all drawable = (tt, drawable)
  search_images-IsImage ret desc (img ∷ imgs) l all drawable =
      let v = visit k file desc img l in
      let ok = visit-VisitOk k file no_object desc img l all.0 drawable in
      let rest = search_images-IsImage (visited_ret v ret) v.desc imgs v.log all.1 ok.1 in
      elim (Bool-cases v.stop) [
        | inl stops ↦ rw stops ((ok.0, all.1), ok.1)
        | inr goes_on ↦ rw goes_on ((ok.0, rest.0), rest.1)
      ]

  finish_create-IsImage :
      (s : Search) (found : Option ImageDesc)
      → All IsImage s.imgs
      → IsDrawable s.desc
      → All IsImage (finish_create k file s found).imgs
  unfolding finish_create
  finish_create-IsImage s (some d) all drawable = all
  finish_create-IsImage s none all drawable =
      let c = prl_drm_create_image k file s.desc s.log in
      elim (Bool-cases (s.ret ==ℤ pos 0)) [
        | inr failed ↦ rw failed all
        | inl fine ↦ rw fine (
            add_image-IsImage s c.1 c.0 all
              (prl_drm_create_image-IfSome k file s.desc s.log drawable))
      ]

  pub prl_drm_image_create_ioctl-IsImage :
      (desc : ImageDesc) (imgs : List Image) (l : GemLog)
      → All IsImage imgs
      → All IsImage (prl_drm_image_create_ioctl k file desc imgs l).imgs
  unfolding prl_drm_image_create_ioctl
  prl_drm_image_create_ioctl-IsImage desc imgs l all =
      elim (Bool-cases ((desc.width == 0) || (desc.height == 0))) [
        | inl empty ↦ rw empty all
        | inr drawable ↦
            let s = search_images k file (pos 0) desc imgs l in
            let ok =
              search_images-IsImage (pos 0) desc imgs l all
                (ground (arith, drawable), ground (arith, drawable)) in
            rw drawable (finish_create-IsImage s s.found ok.0 ok.1)
      ]
