-- ===== src/Drm/Image/Ioctl.antt =====
-- prl_drm_image_create_ioctl in kmods-src/prl_vid/Video/Guest/Linux/kmod/prldrm.c: its loop and its end.
use prl_tools.Base.{
  ℕ, ◌||◌, List, [], ◌∷◌, Option, none, some, ◌==◌, if◌then◌else◌, ℤ, pos, neg, ◌==ℤ◌,
}
use prl_tools.Base.Errno.{enoent, einval}
use prl_tools.Drm.Image.{GemLog, Image, ImageDesc, ImageKernel, prl_drm_create_image}
use prl_tools.Drm.Image.Change.{Visit, visit}

-- The loop, with `ret`, `*desc` and prl_img.
pub record Search : Type 0 where
  pub ret : ℤ
  pub desc : ImageDesc
  pub found : Option ImageDesc
  pub imgs : List Image
  pub log : GemLog

abbrev pub visited_ret : Visit → ℤ → ℤ
visited_ret v ret = if v.fails then neg enoent else ret

unfoldable pub search_images : ImageKernel → ℕ → ℤ → ImageDesc → List Image → GemLog → Search
search_images k file ret desc [] l = record {
  ret = ret;
  desc = desc;
  found = none;
  imgs = [];
  log = l;
}
search_images k file ret desc (img ∷ imgs) l =
    let v = visit k file desc img l in
    let rest = search_images k file (visited_ret v ret) v.desc imgs v.log in
    if v.stop
    then record {
      ret = visited_ret v ret;
      desc = v.desc;
      found = v.found;
      imgs = v.img ∷ imgs;
      log = v.log;
    }
    else record rest { imgs = v.img ∷ rest.imgs }

-- What an ioctl returns, `*desc`, the images and the log.
pub record Created : Type 0 where
  pub ret : ℤ
  pub desc : ImageDesc
  pub imgs : List Image
  pub log : GemLog

-- The new image, if it could be made, at the head of the list.
unfoldable pub add_image : Search → GemLog → Option Image → Created
add_image s l none = record { ret = neg enoent; desc = s.desc; imgs = s.imgs; log = l }
add_image s l (some img) = record { ret = s.ret; desc = img.desc; imgs = img ∷ s.imgs; log = l }

-- After the loop: a new image is made if there was no error and prl_img, the last argument, is not set.
unfoldable pub finish_create : ImageKernel → ℕ → Search → Option ImageDesc → Created
finish_create k file s (some d) = record { ret = s.ret; desc = d; imgs = s.imgs; log = s.log }
finish_create k file s none =
    let c = prl_drm_create_image k file s.desc s.log in
    if s.ret ==ℤ pos 0
    then add_image s c.1 c.0
    else record { ret = s.ret; desc = s.desc; imgs = s.imgs; log = s.log }

unfoldable pub prl_drm_image_create_ioctl :
    ImageKernel → ℕ → ImageDesc → List Image → GemLog → Created
prl_drm_image_create_ioctl k file desc imgs l =
    if (desc.width == 0) || (desc.height == 0)
    then record { ret = neg einval; desc = desc; imgs = imgs; log = l }
    else let s = search_images k file (pos 0) desc imgs l in finish_create k file s s.found
