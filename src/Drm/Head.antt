-- ===== src/Drm/Head.antt =====
-- kmods-src/prl_vid/Video/Guest/Linux/kmod/prldrm.c: the heads of the display, the modes that they are
-- given and those that they offer. What was sent to the host is a list with the result of each call, the
-- latest first; a result is an argument of the function that sends.
pub mod Shown
pub mod Offers
mod Tests
use prl_tools.Base.{
  ℕ, zero, suc, ◌+◌, ◌*◌, ◌-◌, ◌%◌, ◌^◌, Bool, true, false, not, ◌&&◌, ◌||◌, List, [], ◌∷◌, ◌++◌,
  Option, none, some, get_elem?, ltb, leb, ◌==◌, if◌then◌else◌, ℤ, pos, ◌==ℤ◌,
}
use prl_tools.Drm.Gem.{GemObject}

-- The fields of VID_TG_MODE64 that mode_cur keeps up to date; the bits per pixel are not one of them.
pub record Mode : Type 0 where
  pub width : ℕ
  pub height : ℕ
  pub stride : ℕ
  pub offset : ℕ

pub record Head : Type 0 where
  pub index : ℕ
  pub pref_width : ℕ
  pub pref_height : ℕ
  pub mode_cur : Mode

pub data HeadRequest : Type 0 where
  set_mode : ℕ → ℕ → Mode → HeadRequest
  set_offset : ℕ → ℕ → HeadRequest
  enable_head : ℕ → HeadRequest
  disable_head : ℕ → HeadRequest

abbrev pub HeadLog : Type 0
HeadLog = List (HeadRequest × ℤ)

-- What is left of the memset.
abbrev pub cleared_mode : Mode
cleared_mode = record { width = 0; height = 0; stride = 0; offset = 0 }

unfoldable pub prl_drm_enable_heads : ℤ → Bool → Head → HeadLog → ℤ × (Head × HeadLog)
prl_drm_enable_heads ret true head l = (ret, (head, (enable_head head.index, ret) ∷ l))
prl_drm_enable_heads ret false head l =
    (ret, (record head { mode_cur = cleared_mode }, (disable_head head.index, ret) ∷ l))

-- The mode that the head has already.
abbrev pub same_mode : Mode → ℕ → ℕ → ℕ → ℕ → Bool
same_mode m width height stride offset =
    (m.width == width) && (m.height == height) && (m.stride == stride) && (m.offset == offset)

-- The width, the height and `bpp` have 16 bits, and the mode has 32 for the stride.
unfoldable pub prl_drm_display_set_mode :
    ℤ → ℕ → ℕ → ℕ → ℕ → ℕ → Bool → Head → HeadLog → ℤ × (Head × HeadLog)
prl_drm_display_set_mode ret width height bpp stride offset reset head l =
    let m : Mode = record {
      width = width;
      height = height;
      stride = stride % 2 ^ 32;
      offset = offset;
    } in
    if not reset && same_mode head.mode_cur width height stride offset
    then (pos 0, (head, l))
    else if ret ==ℤ pos 0
    then (ret, (record head { mode_cur = m }, (set_mode head.index bpp m, ret) ∷ l))
    else (ret, (head, (set_mode head.index bpp m, ret) ∷ l))

abbrev pub prl_drm_display_set_offset : ℤ → ℕ → ℕ → HeadLog → ℤ × HeadLog
prl_drm_display_set_offset ret head offset l =
    (ret, (set_offset (head % 2 ^ 16) (offset % 2 ^ 32), ret) ∷ l)

-- prl_drm_query_heads: the numbers are taken over if the call comes through.
abbrev pub prl_drm_query_heads : ℤ → ℕ × ℕ → ℕ × ℕ → ℤ × (ℕ × ℕ)
prl_drm_query_heads ret answer old = (ret, if ret ==ℤ pos 0 then answer else old)

-- Where an update of the primary plane finds a framebuffer, and where prl_fb_dirty does.
unfoldable pub plane_offset : ℕ → ℕ → GemObject → ℕ
plane_offset shared_buf_size offset go =
    if go.shared_index == 0
    then if go.aperture_addr == 0 then offset else (offset + go.aperture_addr) % 2 ^ 64
    else (offset + (go.shared_index - 1) * shared_buf_size) % 2 ^ 64

abbrev pub dirty_offset : ℕ → GemObject → ℕ
dirty_offset offset go = (offset + go.aperture_addr) % 2 ^ 64

-- The update of the primary plane of a head with a framebuffer, whose pitch is below 2^31. `svga` is the first bit of the VGA state.
abbrev pub prl_kms_atomic_update_primary_plane_helper :
    ℤ → ℕ → Bool → ℕ → ℕ → ℕ → ℕ → GemObject → Head → HeadLog → Head × HeadLog
prl_kms_atomic_update_primary_plane_helper ret shared_buf_size svga hdisplay vdisplay pitch offset
      go head l =
    (prl_drm_display_set_mode ret (hdisplay % 2 ^ 16) (vdisplay % 2 ^ 16) 32 pitch
      (plane_offset shared_buf_size offset go) (not svga) head l).1

pub record DisplayMode : Type 0 where
  pub hdisplay : ℕ
  pub vdisplay : ℕ
  pub preferred : Bool

-- A mode is added to the probed ones, if drm_mode_duplicate has memory for it. Its name and its timings
-- are left out.
abbrev pub prl_kms_connector_mode_add :
    (DisplayMode → Bool) → ℕ → ℕ → Bool → List DisplayMode → List DisplayMode
prl_kms_connector_mode_add room width height preferred probed =
    let m : DisplayMode = record { hdisplay = width; vdisplay = height; preferred = preferred } in
    if room m then probed ++ m ∷ [] else probed

-- The preferred modes that are not the current one are removed.
unfoldable pub remove_preferred : Mode → List DisplayMode → List DisplayMode
remove_preferred cur [] = []
remove_preferred cur (m ∷ ms) =
    let rest = remove_preferred cur ms in
    if m.preferred && (not (m.hdisplay == cur.width) || not (m.vdisplay == cur.height))
    then rest
    else m ∷ rest

abbrev pub default_modes : List (ℕ × ℕ)
default_modes = (640, 480) ∷ (800, 600) ∷ (1024, 768) ∷ []

-- The loop over the default modes, with the count.
abbrev pub add_default :
    (DisplayMode → Bool) → ℕ → ℕ → ℕ × ℕ → ℕ × List DisplayMode → ℕ × List DisplayMode
add_default room max_width max_height d r =
    if leb d.0 max_width && leb d.1 max_height
    then (r.0 + 1, prl_kms_connector_mode_add room d.0 d.1 false r.1)
    else r

unfoldable pub add_defaults :
    (DisplayMode → Bool) → ℕ → ℕ → List (ℕ × ℕ) → ℕ × List DisplayMode → ℕ × List DisplayMode
add_defaults room max_width max_height [] r = r
add_defaults room max_width max_height (d ∷ ds) r =
    add_defaults room max_width max_height ds (add_default room max_width max_height d r)

abbrev pub add_preferred :
    (DisplayMode → Bool) → ℕ → ℕ → Head → List DisplayMode → ℕ × List DisplayMode
add_preferred room max_width max_height head probed =
    if ltb 0 head.pref_width
      && ltb head.pref_width max_width
      && not (head.pref_height == 0)
      && leb head.pref_height max_height
    then (1, prl_kms_connector_mode_add room head.pref_width head.pref_height true probed)
    else (0, probed)

-- The mode of the boot, if it is one of VESA's with 32 bits a pixel.
unfoldable pub add_boot :
    (DisplayMode → Bool) → Option (ℕ × ℕ) → ℕ × List DisplayMode → ℕ × List DisplayMode
add_boot room none r = r
add_boot room (some b) r = (r.0 + 1, prl_kms_connector_mode_add room b.0 b.1 (r.0 == 0) r.1)

-- The count, the modes that are kept and the probed ones, before drm_connector_list_update.
unfoldable pub prl_kms_connector_fill_modes :
    (DisplayMode → Bool)
    → Option (ℕ × ℕ)
    → ℕ
    → ℕ
    → Head
    → List DisplayMode
    → ℕ × (List DisplayMode × List DisplayMode)
prl_kms_connector_fill_modes room boot max_width max_height head modes =
    let r =
      add_defaults room max_width max_height default_modes
        (add_boot room boot (add_preferred room max_width max_height head [])) in
    (r.0, (remove_preferred head.mode_cur modes, r.1))

-- The ioctl that sets the preferred mode. The index is not compared with the number of heads: `none` is
-- an access outside of them.
abbrev pub prefer : ℕ → ℕ → Head → Head
prefer width height head = record head { pref_width = width; pref_height = height }

unfoldable pub prl_drm_add_mode_for_head_ioctl : ℕ → ℕ → ℕ → List Head → Option (List Head)
prl_drm_add_mode_for_head_ioctl index width height [] = none
prl_drm_add_mode_for_head_ioctl zero width height (h ∷ hs) = some (prefer width height h ∷ hs)
prl_drm_add_mode_for_head_ioctl (suc i) width height (h ∷ hs) =
    elim (prl_drm_add_mode_for_head_ioctl i width height hs) [ none ↦ none | some t ↦ some (h ∷ t) ]
