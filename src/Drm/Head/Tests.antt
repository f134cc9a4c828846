-- ===== src/Drm/Head/Tests.antt =====
-- Heads at concrete inputs.
use prl_tools.Base.{◌≡◌, refl, Bool, true, false, List, [], ◌∷◌, none, some, pos, neg}
use prl_tools.Base.Errno.{eio}
use prl_tools.Drm.Gem.{GemObject}
use prl_tools.Drm.Head.{
  Head, DisplayMode, cleared_mode, plane_offset, dirty_offset, add_defaults, add_boot,
  prl_drm_display_set_mode, prl_drm_enable_heads, prl_kms_connector_fill_modes,
  prl_drm_add_mode_for_head_ioctl,
}
use prl_tools.Drm.Head.Shown.{HeadCall, mode, enable, shown, head_call, head_calls}

abbrev head : Head
head = record { index = 1; pref_width = 1024; pref_height = 700; mode_cur = cleared_mode }

abbrev calls : List HeadCall
calls =
    mode (pos 0) 640 480 32 2560 0 false
    ∷ enable (pos 0) true
    ∷ mode (neg eio) 800 600 32 3200 0 true
    ∷ []

-- A call that changes the bits per pixel alone returns 0 and is not sent.
depth_not_sent :
    let s = head_calls calls head [] in
    let r = prl_drm_display_set_mode (pos 0) 640 480 16 2560 0 false s.0 s.1 in
    (r.0 ≡ pos 0)
    × (shown 1 r.1.1 ≡ some (32, record { width = 640; height = 480; stride = 2560; offset = 0 }))
unfolding head_calls head_call prl_drm_display_set_mode prl_drm_enable_heads
depth_not_sent = (refl, refl)

-- A framebuffer in the third buffer of the video memory: the plane shows it, and prl_fb_dirty has the
-- host show the first one.
abbrev third : GemObject
third = record { size = 4096; global_index = 9; shared_index = 3; kptr = 0; aperture_addr = 0 }

shows_third : plane_offset 5242880 0 third ≡ 10485760
unfolding plane_offset
shows_third = refl

shows_first : dirty_offset 0 third ≡ 0
shows_first = refl

-- A preferred width of the largest width is not offered.
abbrev always : DisplayMode → Bool
always m = true

no_preferred : (prl_kms_connector_fill_modes always none 1024 768 head []).0 ≡ 3
unfolding prl_kms_connector_fill_modes add_defaults add_boot
no_preferred = refl

no_such_head : prl_drm_add_mode_for_head_ioctl 1 640 480 (head ∷ []) ≡ none
unfolding prl_drm_add_mode_for_head_ioctl
no_such_head = refl
