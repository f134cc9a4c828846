-- ===== src/Drm/Image/Sharing.antt =====
-- Two processes that share an image.
use prl_tools.Base.{
  ℕ, ◌≡◌, refl, false, List, [], ◌∷◌, Option, none, some, arith, ◌==◌, ==_refl, pos, neg, ◌||◌,
}
use prl_tools.Base.Errno.{enoent}
use prl_tools.Drm.Image.{
  ImageDesc, Image, ImageKernel, GemLog, first_owner, prl_drm_image_find_owner, set_owner,
  destroyed,
}
use prl_tools.Drm.Image.Change.{export, visit}
use prl_tools.Drm.Image.Ioctl.{search_images, finish_create, prl_drm_image_create_ioctl}
use prl_tools.Drm.Image.Release.{release_image, release_loop, prl_drm_image_release_ioctl}

-- The image of a file alone.
abbrev pub sole_image : ℕ → ImageDesc → Option ℕ → Image
sole_image file desc go = record {
  desc = desc;
  prl_go = go;
  num_owners = 1;
  owners = first_owner file;
}

-- The image of two files, and after the first has left.
abbrev shared_image : ℕ → ℕ → ImageDesc → Option ℕ → Image
shared_image a b desc go = record {
  desc = desc;
  prl_go = go;
  num_owners = 2;
  owners = some a ∷ some b ∷ none ∷ none ∷ none ∷ none ∷ none ∷ none ∷ [];
}

abbrev left_image : ℕ → ImageDesc → Option ℕ → Image
left_image b desc go = record {
  desc = desc;
  prl_go = go;
  num_owners = 1;
  owners = none ∷ some b ∷ none ∷ none ∷ none ∷ none ∷ none ∷ none ∷ [];
}

module _ (a b : ℕ) (d : ImageDesc) (go : Option ℕ) (imgs : List Image) (l : GemLog)
    (apart : (a == b) ≡ false) (named : (d.pbuffer == 0) ≡ false) where
  second_create :
      (k : ImageKernel) (format : List ℕ)
      → ((d.width == 0) || (d.height == 0)) ≡ false
      → prl_drm_image_create_ioctl k b
          (record d { pbuffer = 0; pformat = format })
          (sole_image a d go ∷ imgs)
          l
        ≡ record { ret = pos 0; desc = d; imgs = shared_image a b d go ∷ imgs; log = l }
  unfolding prl_drm_image_create_ioctl search_images finish_create visit export
      prl_drm_image_find_owner set_owner
  second_create k format drawable =
      let unnamed : (0 == d.pbuffer) ≡ false = ground (arith, named) in
      rw
        (
          unnamed,
          drawable,
          apart,
          ==_refl d.handle,
          ==_refl d.width,
          ==_refl d.height,
          ==_refl d.offset,
        )
        refl

  first_release :
      prl_drm_image_release_ioctl a d.pbuffer (shared_image a b d go ∷ imgs) l
      ≡ record { ret = pos 0; imgs = left_image b d go ∷ imgs; log = l }
  unfolding prl_drm_image_release_ioctl release_loop release_image prl_drm_image_find_owner
      set_owner
  first_release = rw (named, ==_refl d.pbuffer, ==_refl a) refl

  again_release :
      prl_drm_image_release_ioctl a d.pbuffer (left_image b d go ∷ imgs) l
      ≡ record { ret = neg enoent; imgs = left_image b d go ∷ imgs; log = l }
  unfolding prl_drm_image_release_ioctl release_loop release_image prl_drm_image_find_owner
  again_release =
      let swapped : (b == a) ≡ false = ground (arith, apart) in
      rw (named, ==_refl d.pbuffer, swapped) refl

  second_release :
      prl_drm_image_release_ioctl b d.pbuffer (left_image b d go ∷ imgs) l
      ≡ record { ret = pos 0; imgs = imgs; log = destroyed (left_image b d go) l }
  unfolding prl_drm_image_release_ioctl release_loop release_image prl_drm_image_find_owner
  second_release = rw (named, ==_refl d.pbuffer, ==_refl b) refl

-- A second file that asks for an image with the handle, the size and the offset of a first file's
-- image, at the head of the list, gets that image without a request to the host. The first file can
-- release it once and no more; then the release by the second destroys it, and the list is without
-- it: if the files differ, the buffer is not 0, and neither are the width and the height.
pub image_create-image_release :
    (k : ImageKernel) (a b : ℕ) (d : ImageDesc) (format : List ℕ) (go : Option ℕ)
    (imgs : List Image) (l : GemLog)
    → (a == b) ≡ false
    → (d.pbuffer == 0) ≡ false
    → ((d.width == 0) || (d.height == 0)) ≡ false
    → let c =
        prl_drm_image_create_ioctl k b
          (record d { pbuffer = 0; pformat = format })
          (sole_image a d go ∷ imgs)
          l in
      let r = prl_drm_image_release_ioctl a d.pbuffer c.imgs c.log in
      let s = prl_drm_image_release_ioctl b d.pbuffer r.imgs r.log in
      (c.ret ≡ pos 0)
      × (c.desc ≡ d)
      × (c.log ≡ l)
      × (r.ret ≡ pos 0)
      × (r.log ≡ l)
      × ((prl_drm_image_release_ioctl a d.pbuffer r.imgs r.log).ret ≡ neg enoent)
      × (s.ret ≡ pos 0)
      × (s.imgs ≡ imgs)
      × (s.log ≡ destroyed (sole_image a d go) l)
image_create-image_release k a b d format go imgs l apart named drawable =
    rw
      (
        second_create a b d go imgs l apart named k format drawable,
        first_release a b d go imgs l apart named,
        again_release a b d go imgs l apart named,
        second_release a b d go imgs l apart named,
      )
      (refl, refl, refl, refl, refl, refl, refl, refl, refl)
