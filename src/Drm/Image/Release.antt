-- ===== src/Drm/Image/Release.antt =====
-- How an owner gives up an image, and a file that is closed all of its images, in
-- kmods-src/prl_vid/Video/Guest/Linux/kmod/prldrm.c.
use prl_tools.Base.{
  ℕ, ◌-◌, ◌+◌, ◌%◌, ◌^◌, List, [], ◌∷◌, Option, none, some, ◌==◌, if◌then◌else◌, ℤ, pos, neg,
}
use prl_tools.Base.Errno.{enoent, einval}
use prl_tools.Drm.Image.{
  GemLog, Image, destroyed, prl_drm_image_find_owner, prl_drm_image_max_owner, set_owner,
}

-- An owner gives up an image: it is destroyed with its last one.
unfoldable pub release_image : ℕ → Image → GemLog → Option Image × GemLog
release_image idx img l = if img.num_owners == 1 then (none, destroyed img l) else (
  some (record img {
    owners = set_owner idx none img.owners;
    num_owners = (img.num_owners + 2 ^ 32 - 1) % 2 ^ 32;
  }),
  l,
)

abbrev pub keep_image : Option Image → List Image → List Image
keep_image none imgs = imgs
keep_image (some img) imgs = img ∷ imgs

pub record Released : Type 0 where
  pub ret : ℤ
  pub imgs : List Image
  pub log : GemLog

-- The loop of the release, to the first image with this buffer.
unfoldable pub release_loop : ℕ → ℕ → List Image → GemLog → Released
release_loop file pbuffer [] l = record { ret = neg enoent; imgs = []; log = l }
release_loop file pbuffer (img ∷ imgs) l =
    let idx = prl_drm_image_find_owner (some file) img.owners in
    let r = release_image idx img l in
    let rest = release_loop file pbuffer imgs l in
    if img.desc.pbuffer == pbuffer
    then if idx == prl_drm_image_max_owner
      then record { ret = neg enoent; imgs = img ∷ imgs; log = l }
      else record { ret = pos 0; imgs = keep_image r.0 imgs; log = r.1 }
    else record rest { imgs = img ∷ rest.imgs }

unfoldable pub prl_drm_image_release_ioctl : ℕ → ℕ → List Image → GemLog → Released
prl_drm_image_release_ioctl file pbuffer imgs l =
    if pbuffer == 0
    then record { ret = neg einval; imgs = imgs; log = l }
    else release_loop file pbuffer imgs l

-- A round of the loop of prl_drm_postclose.
unfoldable pub close_image : ℕ → Image → GemLog → Option Image × GemLog
close_image file img l =
    let idx = prl_drm_image_find_owner (some file) img.owners in
    if idx == prl_drm_image_max_owner then (some img, l) else release_image idx img l

-- The images of a file that is closed; prl_vtg_release_common follows in prl_drm_postclose.
unfoldable pub close_images : ℕ → List Image → GemLog → List Image × GemLog
close_images file [] l = ([], l)
close_images file (img ∷ imgs) l =
    let r = close_image file img l in
    let rest = close_images file imgs r.1 in (keep_image r.0 rest.0, rest.1)
