-- ===== src/Drm/Image/History.antt =====
-- Any sequence of ioctls on images, and of files that are closed.
use prl_tools.Base.{
  ℕ, ◌≡◌, false, List, [], ◌∷◌, Option, none, some, ◌==◌, Bool-cases, inl, inr, All,
}
use prl_tools.Drm.Image.{
  GemLog, Image, ImageDesc, ImageKernel, prl_drm_image_find_owner, prl_drm_image_max_owner,
}
use prl_tools.Drm.Image.Ioctl.{prl_drm_image_create_ioctl}
use prl_tools.Drm.Image.Release.{
  close_image, close_images, keep_image, prl_drm_image_release_ioctl, release_image, release_loop,
}
use prl_tools.Drm.Image.Invariant.{IsImage, left-IsImage}
use prl_tools.Drm.Image.Creates.{IfSome, prl_drm_image_create_ioctl-IsImage}

release_image-IfSome :
    (file : ℕ) (img : Image) (l : GemLog)
    → IsImage img
    → (prl_drm_image_find_owner (some file) img.owners == prl_drm_image_max_owner) ≡ false
    → IfSome (release_image (prl_drm_image_find_owner (some file) img.owners) img l).0
unfolding release_image
release_image-IfSome file img l v mine = elim (Bool-cases (img.num_owners == 1)) [
  | inl alone ↦ rw alone tt
  | inr several ↦ rw several (left-IsImage file img v mine several)
]

keep_image-IsImage :
    (o : Option Image) (imgs : List Image)
    → IfSome o
    → All IsImage imgs
    → All IsImage (keep_image o imgs)
keep_image-IsImage none imgs v all = all
keep_image-IsImage (some img) imgs v all = (v, all)

module _ (file : ℕ) where
  release_loop-IsImage :
      (pbuffer : ℕ) (imgs : List Image) (l : GemLog)
      → All IsImage imgs
      → All IsImage (release_loop file pbuffer imgs l).imgs
  unfolding release_loop
  release_loop-IsImage pbuffer [] l all = all
  release_loop-IsImage pbuffer (img ∷ imgs) l all =
      let idx = prl_drm_image_find_owner (some file) img.owners in
      elim (Bool-cases (img.desc.pbuffer == pbuffer)) [
        | inr other ↦ rw other (all.0, release_loop-IsImage pbuffer imgs l all.1)
        | inl it ↦ elim (Bool-cases (idx == prl_drm_image_max_owner)) [
          | inl foreign ↦ rw (it, foreign) all
          | inr mine ↦
              rw (it, mine)
                (keep_image-IsImage (release_image idx img l).0 imgs
                  (release_image-IfSome file img l all.0 mine) all.1)
        ]
      ]

  pub prl_drm_image_release_ioctl-IsImage :
      (pbuffer : ℕ) (imgs : List Image) (l : GemLog)
      → All IsImage imgs
      → All IsImage (prl_drm_image_release_ioctl file pbuffer imgs l).imgs
  unfolding prl_drm_image_release_ioctl
  prl_drm_image_release_ioctl-IsImage pbuffer imgs l all = elim (Bool-cases (pbuffer == 0)) [
    | inl nothing ↦ rw nothing all
    | inr named ↦ rw named (release_loop-IsImage pbuffer imgs l all)
  ]

  close_image-IfSome : (img : Image) (l : GemLog) → IsImage img → IfSome (close_image file img l).0
  unfolding close_image
  close_image-IfSome img l v =
      elim (Bool-cases
        (prl_drm_image_find_owner (some file) img.owners == prl_drm_image_max_owner)) [
          | inl foreign ↦ rw foreign v
          | inr mine ↦ rw mine (release_image-IfSome file img l v mine)
        ]

  pub close_images-IsImage :
      (imgs : List Image) (l : GemLog) → All IsImage imgs → All IsImage (close_images file imgs l).0
  unfolding close_images
  close_images-IsImage [] l all = tt
  close_images-IsImage (img ∷ imgs) l all =
      let r = close_image file img l in
      keep_image-IsImage r.0 (close_images file imgs r.1).0 (close_image-IfSome img l all.0)
        (close_images-IsImage imgs r.1 all.1)

pub data ImageCall : Type 0 where
  create : ImageKernel → ℕ → ImageDesc → ImageCall
  release : ℕ → ℕ → ImageCall
  close : ℕ → ImageCall

unfoldable pub image_call : ImageCall → List Image → GemLog → List Image × GemLog
image_call (create k file desc) imgs l =
    let c = prl_drm_image_create_ioctl k file desc imgs l in (c.imgs, c.log)
image_call (release file pbuffer) imgs l =
    let r = prl_drm_image_release_ioctl file pbuffer imgs l in (r.imgs, r.log)
image_call (close file) imgs l = close_images file imgs l

unfoldable pub image_calls : List ImageCall → List Image → GemLog → List Image × GemLog
image_calls [] imgs l = (imgs, l)
image_calls (c ∷ cs) imgs l = let r = image_call c imgs l in image_calls cs r.0 r.1

-- No object has the handle 0.
abbrev pub HasNoZero : ImageCall → Type 0
HasNoZero (create k file desc) = k.drm_gem_object_lookup file 0 ≡ none
HasNoZero (release file pbuffer) = Unit
HasNoZero (close file) = Unit

image_call-IsImage :
    (c : ImageCall) (imgs : List Image) (l : GemLog)
    → HasNoZero c
    → All IsImage imgs
    → All IsImage (image_call c imgs l).0
unfolding image_call
image_call-IsImage (create k file desc) imgs l no_object all =
    prl_drm_image_create_ioctl-IsImage k file no_object desc imgs l all
image_call-IsImage (release file pbuffer) imgs l no_object all =
    prl_drm_image_release_ioctl-IsImage file pbuffer imgs l all
image_call-IsImage (close file) imgs l no_object all = close_images-IsImage file imgs l all

-- From well-formed images any ioctls and closings lead to well-formed ones, if no object has the handle 0:
-- each image has eight places, num_owners is the number of places in use and not 0, no file is in two of
-- them, the buffer, the width and the height are not 0, and the image has an object exactly if its handle
-- is not 0.
pub image_calls-IsImage :
    (cs : List ImageCall) (imgs : List Image) (l : GemLog)
    → All HasNoZero cs
    → All IsImage imgs
    → All IsImage (image_calls cs imgs l).0
unfolding image_calls
image_calls-IsImage [] imgs l no_object all = all
image_calls-IsImage (c ∷ cs) imgs l no_object all =
    let r = image_call c imgs l in
    image_calls-IsImage cs r.0 r.1 no_object.1 (image_call-IsImage c imgs l no_object.0 all)
