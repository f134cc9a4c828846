-- ===== src/Drm/Image/Tests.antt =====
-- The ioctls on images at concrete inputs.
use prl_tools.Base.{
  ℕ, ◌≡◌, refl, List, [], ◌∷◌, none, some, All, pos, neg, ◌==◌, if◌then◌else◌, true, count,
}
use prl_tools.Base.Errno.{enoent}
use prl_tools.Drm.Image.{
  ImageDesc, ImageKernel, GlRequest, prl_drm_create_image, prl_drm_create_pbuffer, destroyed,
}
use prl_tools.Drm.Image.Ioctl.{search_images, finish_create, add_image, prl_drm_image_create_ioctl}
use prl_tools.Drm.Image.Release.{close_images, prl_drm_image_release_ioctl}
use prl_tools.Drm.Image.Invariant.{IsImage}
use prl_tools.Drm.Image.History.{
  ImageCall, create, release, close, image_calls, image_calls-IsImage,
}
use prl_tools.Drm.Image.Private.{no_log, image_calls_put_back}
use prl_tools.Drm.Image.Sharing.{sole_image, image_create-image_release}

-- Every handle but 0 has the object of its number, and the host's next buffer is 7.
abbrev kernel : ImageKernel
kernel = record {
  kzalloc = true;
  gl_create = λ request. some 7;
  drm_gem_object_lookup = λ file handle. if handle == 0 then none else some handle;
}

abbrev asked : ImageDesc
asked = record { handle = 3; width = 640; height = 480; offset = 0; pbuffer = 0; pformat = 5 ∷ [] }

abbrev made : ImageDesc
made = record asked { pbuffer = 7 }

create_new : prl_drm_image_create_ioctl kernel 1 asked [] no_log ≡ record {
  ret = pos 0;
  desc = made;
  imgs = sole_image 1 made (some 3) ∷ [];
  log = record { gets = 3 ∷ []; puts = []; sent = GlRequest.create_buffer (5 ∷ []) ∷ [] };
}
unfolding prl_drm_image_create_ioctl search_images finish_create add_image prl_drm_create_image
    prl_drm_create_pbuffer
create_new = refl

abbrev calls : List ImageCall
calls =
    create kernel 1 asked
    ∷ create kernel 1 (record made { width = 320 })
    ∷ release 1 9
    ∷ create kernel 1 (record made { handle = 4; width = 320 })
    ∷ []

image_calls-IsImage_example : All IsImage (image_calls (close 2 ∷ calls) [] no_log).0
image_calls-IsImage_example =
    image_calls-IsImage (close 2 ∷ calls) [] no_log (tt, (refl, (refl, (tt, (refl, tt))))) tt

image_calls_put_back_example :
    let r = image_calls calls [] no_log in
    let c = close_images 1 r.0 r.1 in (c.0 ≡ []) × ((g : ℕ) → count g c.1.gets ≡ count g c.1.puts)
image_calls_put_back_example =
    image_calls_put_back kernel 1 calls (refl, (refl, (refl, (refl, tt))))

image_create-image_release_example :
    let c =
      prl_drm_image_create_ioctl kernel 2
        (record made { pbuffer = 0; pformat = [] })
        (sole_image 1 made (some 3) ∷ [])
        no_log in
    let r = prl_drm_image_release_ioctl 1 7 c.imgs c.log in
    let s = prl_drm_image_release_ioctl 2 7 r.imgs r.log in
    (c.ret ≡ pos 0)
    × (c.desc ≡ made)
    × (c.log ≡ no_log)
    × (r.ret ≡ pos 0)
    × (r.log ≡ no_log)
    × ((prl_drm_image_release_ioctl 1 7 r.imgs r.log).ret ≡ neg enoent)
    × (s.ret ≡ pos 0)
    × (s.imgs ≡ [])
    × (s.log ≡ destroyed (sole_image 1 made (some 3)) no_log)
image_create-image_release_example =
    image_create-image_release kernel 1 2 made [] (some 3) [] no_log refl refl refl
