-- ===== src/Drm/Image/Change.antt =====
-- prl_drm_image_create_ioctl in kmods-src/prl_vid/Video/Guest/Linux/kmod/prldrm.c: what its loop does at
-- an image.
use prl_tools.Base.{
  ℕ, ◌-◌, ◌+◌, ◌%◌, ◌^◌, Bool, true, false, not, ◌&&◌, List, [], ◌∷◌, Option, none, some, ◌==◌,
  if◌then◌else◌,
}
use prl_tools.Drm.Image.{
  GemLog, Image, ImageDesc, ImageKernel, get_object, prl_drm_create_pbuffer,
  prl_drm_image_find_owner, prl_drm_image_max_owner, put_object, set_owner,
}

-- memcmp of two formats.
unfoldable pub same_format : List ℕ → List ℕ → Bool
same_format [] [] = true
same_format [] (b ∷ bs) = false
same_format (a ∷ as_) [] = false
same_format (a ∷ as_) (b ∷ bs) = (a == b) && same_format as_ bs

abbrev pub same_size : ImageDesc → ImageDesc → Bool
same_size a b = (a.width == b.width) && (a.height == b.height) && (a.offset == b.offset)

-- A round of the loop over the images: whether the loop ends there, whether `ret` becomes -ENOENT, `*desc`,
-- the description of prl_img if it is set, and the image.
pub record Visit : Type 0 where
  pub stop : Bool
  pub fails : Bool
  pub desc : ImageDesc
  pub found : Option ImageDesc
  pub img : Image
  pub log : GemLog

-- The end of the branch of an exclusive owner.
abbrev pub changed : ImageDesc → Image → GemLog → Visit
changed desc img l = record {
  stop = true;
  fails = false;
  desc = desc;
  found = some desc;
  img = record img { desc = desc };
  log = l;
}

-- An error, with the image as it was.
abbrev pub refused : Bool → ImageDesc → Image → GemLog → Visit
refused stop desc img l = record {
  stop = stop;
  fails = true;
  desc = desc;
  found = none;
  img = img;
  log = l;
}

-- BIND and UNBIND: the handle is another one. The last argument is img->prl_go.
unfoldable pub rebind : ImageKernel → ℕ → ImageDesc → Image → GemLog → Option ℕ → Visit
rebind k file desc img l none = elim (k.drm_gem_object_lookup file desc.handle) [
  | none ↦ refused true desc img l
  | some g ↦ changed desc (record img { prl_go = some g }) (get_object (some g) l)
]
rebind k file desc img l (some g) =
    if desc.handle == 0
    then changed desc (record img { prl_go = none }) (put_object (some g) l)
    else changed desc img l

-- RESIZE: the image is unbound.
abbrev pub resize : ImageDesc → Image → GemLog → Visit
resize desc img l =
    changed (record desc { handle = 0 }) (record img { prl_go = none }) (put_object img.prl_go l)

-- FORMAT: the host makes the buffer again.
unfoldable pub recreate : ImageKernel → ImageDesc → Image → GemLog → Visit
recreate k desc img l =
    let p = prl_drm_create_pbuffer k true desc.pformat l in
    if p.0 == img.desc.pbuffer then changed desc img p.1 else refused true desc img p.1

unfoldable pub change_exclusive : ImageKernel → ℕ → ImageDesc → Image → GemLog → Visit
change_exclusive k file desc img l =
    if not (desc.handle == img.desc.handle)
    then rebind k file desc img l img.prl_go
    else if not (same_size desc img.desc)
    then resize desc img l
    else if not (same_format desc.pformat img.desc.pformat)
    then recreate k desc img l
    else changed desc img l

-- An owner among others: a change gives up the ownership, and a new image is to be made.
unfoldable pub change_shared : ℕ → ImageDesc → Image → GemLog → Visit
change_shared idx desc img l =
    if (desc.handle == img.desc.handle)
      && same_size desc img.desc
      && same_format desc.pformat img.desc.pformat
    then record {
      stop = true;
      fails = false;
      desc = desc;
      found = some img.desc;
      img = img;
      log = l;
    }
    else record {
      stop = true;
      fails = false;
      desc = desc;
      found = none;
      img = record img {
        owners = set_owner idx none img.owners;
        num_owners = (img.num_owners + 2 ^ 32 - 1) % 2 ^ 32;
      };
      log = put_object img.prl_go l;
    }

-- EXPORT: the file becomes an owner too.
unfoldable pub export : ℕ → ImageDesc → Image → GemLog → Visit
export file desc img l =
    let idx = prl_drm_image_find_owner none img.owners in
    if idx == prl_drm_image_max_owner then refused true desc img l else record {
      stop = true;
      fails = false;
      desc = desc;
      found = some img.desc;
      img = record img {
        owners = set_owner idx (some file) img.owners;
        num_owners = (img.num_owners + 1) % 2 ^ 32;
      };
      log = l;
    }

abbrev passed_by : Bool → ImageDesc → Image → GemLog → Visit
passed_by stop desc img l = record {
  stop = stop;
  fails = false;
  desc = desc;
  found = none;
  img = img;
  log = l;
}

unfoldable pub visit : ImageKernel → ℕ → ImageDesc → Image → GemLog → Visit
visit k file desc img l =
    let idx = prl_drm_image_find_owner (some file) img.owners in
    if desc.pbuffer == img.desc.pbuffer
    then if idx == prl_drm_image_max_owner
      then refused false desc img l
      else if img.num_owners == 1
      then change_exclusive k file desc img l
      else change_shared idx desc img l
    else if (desc.pbuffer == 0) && (desc.handle == img.desc.handle) && same_size desc img.desc
    then if idx == prl_drm_image_max_owner
      then export file desc img l
      else passed_by true desc img l
    else passed_by false desc img l
