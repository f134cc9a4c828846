-- ===== src/Drm/Image.antt =====
-- kmods-src/prl_vid/Video/Guest/Linux/kmod/prldrm.c: the images that processes create, bind to a buffer
-- and share. A `struct drm_file` and a gem object are numbers. The state has what the ioctls leave: the
-- references to gem objects that were taken and put, each as often as its object stands in the list, and
-- what was sent to the host. Each ioctl holds img_lock.
pub mod Change
pub mod Ioctl
pub mod Release
pub mod Owners
pub mod Invariant
pub mod Visits
pub mod Creates
pub mod History
pub mod References
pub mod Private
pub mod Sharing
mod Tests
use prl_tools.Base.{
  ℕ, zero, suc, ◌-◌, ◌+◌, ◌%◌, ◌^◌, Bool, true, false, not, ◌&&◌, ◌||◌, List, [], ◌∷◌, ◌++◌, Option,
  none, some, take, ◌==◌, if◌then◌else◌, ℤ, pos, neg, ◌==ℤ◌,
}
use prl_tools.Base.Errno.{enoent, einval}

abbrev pub prl_drm_image_max_owner : ℕ
prl_drm_image_max_owner = 8

pub record ImageDesc : Type 0 where
  pub handle : ℕ
  pub width : ℕ
  pub height : ℕ
  pub offset : ℕ
  pub pbuffer : ℕ
  pub pformat : List ℕ

pub record Image : Type 0 where
  pub desc : ImageDesc
  pub prl_go : Option ℕ
  pub num_owners : ℕ
  pub owners : List (Option ℕ)

pub data GlRequest : Type 0 where
  create_buffer : List ℕ → GlRequest
  recreate_buffer : List ℕ → GlRequest
  destroy_buffer : ℕ → GlRequest

-- What the ioctls do beside the list: references to gem objects, and requests, the latest first.
pub record GemLog : Type 0 where
  pub gets : List ℕ
  pub puts : List ℕ
  pub sent : List GlRequest

-- The kernel and the host during a call: `gl_create` is `none` if call_tg_sync fails and else the handle
-- that it brings.
pub record ImageKernel : Type 0 where
  pub kzalloc : Bool
  pub gl_create : GlRequest → Option ℕ
  pub drm_gem_object_lookup : ℕ → ℕ → Option ℕ

-- The memcpy takes the size of one format; the others are 0, which is left out here.
abbrev pub copied_format : List ℕ → List ℕ
copied_format format = take 1 format

abbrev pub gl_request : Bool → List ℕ → GlRequest
gl_request recreate format =
    if recreate
    then recreate_buffer (copied_format format)
    else create_buffer (copied_format format)

unfoldable pub prl_drm_create_pbuffer : ImageKernel → Bool → List ℕ → GemLog → ℕ × GemLog
prl_drm_create_pbuffer k recreate format l =
    let m : GemLog = record l { sent = gl_request recreate format ∷ l.sent } in
    elim (k.gl_create (gl_request recreate format)) [ none ↦ (0, m) | some handle ↦ (handle, m) ]

abbrev pub prl_drm_destroy_pbuffer : ℕ → GemLog → GemLog
prl_drm_destroy_pbuffer pbuffer l = record l { sent = destroy_buffer pbuffer ∷ l.sent }

abbrev pub get_object : Option ℕ → GemLog → GemLog
get_object none l = l
get_object (some g) l = record l { gets = g ∷ l.gets }

-- drm_gem_object_put_unlocked_X; a null pointer is nothing to put.
abbrev pub put_object : Option ℕ → GemLog → GemLog
put_object none l = l
put_object (some g) l = record l { puts = g ∷ l.puts }

abbrev pub same_file : Option ℕ → Option ℕ → Bool
same_file none none = true
same_file none (some b) = false
same_file (some a) none = false
same_file (some a) (some b) = a == b

-- The first place of the file, or the number of places.
unfoldable pub prl_drm_image_find_owner : Option ℕ → List (Option ℕ) → ℕ
prl_drm_image_find_owner file [] = 0
prl_drm_image_find_owner file (o ∷ os) =
    if same_file o file then 0 else suc (prl_drm_image_find_owner file os)

unfoldable pub set_owner : ℕ → Option ℕ → List (Option ℕ) → List (Option ℕ)
set_owner i file [] = []
set_owner zero file (o ∷ os) = file ∷ os
set_owner (suc i) file (o ∷ os) = o ∷ set_owner i file os

abbrev pub first_owner : ℕ → List (Option ℕ)
first_owner file = some file ∷ none ∷ none ∷ none ∷ none ∷ none ∷ none ∷ none ∷ []

unfoldable pub prl_drm_create_image : ImageKernel → ℕ → ImageDesc → GemLog → Option Image × GemLog
prl_drm_create_image k file desc l =
    let p = prl_drm_create_pbuffer k false desc.pformat l in
    let img : Option ℕ → Image = λ go. record {
      desc = record desc { pbuffer = p.0 };
      prl_go = go;
      num_owners = 1;
      owners = first_owner file;
    } in
    if not k.kzalloc
    then (none, l)
    else if p.0 == 0
    then (none, p.1)
    else if desc.handle == 0
    then (some (img none), p.1)
    else elim (k.drm_gem_object_lookup file desc.handle) [
      | none ↦ (none, prl_drm_destroy_pbuffer p.0 p.1)
      | some g ↦ (some (img (some g)), get_object (some g) p.1)
    ]

-- What prl_drm_destroy_image does beside list_del and kfree.
abbrev pub destroyed : Image → GemLog → GemLog
destroyed img l = prl_drm_destroy_pbuffer img.desc.pbuffer (put_object img.prl_go l)
