-- ===== src/Drm/Head/Shown.antt =====
-- What the host shows on a head, against the mode that the driver keeps.
use prl_tools.Base.{
  ℕ, ◌≡◌, Bool, true, ◌&&◌, List, [], ◌∷◌, Option, none, some, ◌==◌, if◌then◌else◌, ◌⊎◌, ℤ, pos,
  ◌==ℤ◌,
}
use prl_tools.Drm.Head.{
  Mode, Head, HeadLog, set_mode, set_offset, enable_head, disable_head, cleared_mode,
  prl_drm_enable_heads, prl_drm_display_set_mode,
}

-- What the host shows on a head after what was sent: the bits per pixel and the mode of the last request
-- that it has accepted, with the offset that was set since.
abbrev pub moved : ℕ → Option (ℕ × Mode) → Option (ℕ × Mode)
moved offset none = none
moved offset (some (bpp, m)) = some (bpp, record m { offset = offset })

abbrev pub shown : ℕ → HeadLog → Option (ℕ × Mode)
shown i [] = none
shown i ((set_mode j bpp m, ret) ∷ l) =
    if (j == i) && (ret ==ℤ pos 0) then some (bpp, m) else shown i l
shown i ((set_offset j offset, ret) ∷ l) = if j == i then moved offset (shown i l) else shown i l
shown i ((enable_head j, ret) ∷ l) = shown i l
shown i ((disable_head j, ret) ∷ l) = if j == i then none else shown i l

-- The calls on a head: a mode, with the result of the host and the arguments, or enabling and disabling.
pub data HeadCall : Type 0 where
  mode : ℤ → ℕ → ℕ → ℕ → ℕ → ℕ → Bool → HeadCall
  enable : ℤ → Bool → HeadCall

unfoldable pub head_call : HeadCall → Head → HeadLog → ℤ × (Head × HeadLog)
head_call (mode ret width height bpp stride offset reset) h l =
    prl_drm_display_set_mode ret width height bpp stride offset reset h l
head_call (enable ret on) h l = prl_drm_enable_heads ret on h l

-- Whether all modes of the calls have the same number of bits per pixel.
unfoldable pub same_bpp : ℕ → List HeadCall → Bool
same_bpp bpp [] = true
same_bpp bpp (mode ret width height b stride offset reset ∷ cs) = (b == bpp) && same_bpp bpp cs
same_bpp bpp (enable ret on ∷ cs) = same_bpp bpp cs

unfoldable pub head_calls : List HeadCall → Head → HeadLog → Head × HeadLog
head_calls [] h l = (h, l)
head_calls (c ∷ cs) h l = let r = head_call c h l in head_calls cs r.1.0 r.1.1

-- The mode that is kept is shown, or is the cleared one.
abbrev Kept : ℕ → ℕ → Head × HeadLog → Type 0
Kept bpp i s =
    (s.0.index ≡ i) × ((s.0.mode_cur ≡ cleared_mode) ⊎ (shown i s.1 ≡ some (bpp, s.0.mode_cur)))
