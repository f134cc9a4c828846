-- ===== src/Drm/Gem/Sizes.antt =====
-- The size of a dumb buffer.
use prl_tools.Base.{ℕ, ◌*◌, ◌%◌, ◌^◌, ◌≤◌, ◌<◌, ◌↔◌, arith}
use prl_tools.Drm.Aperture.{roundup_page}
use prl_tools.Drm.Gem.{roundup_64, dumb_pitch, dumb_size}

roundup_page-covers_iff : (a : ℕ) → (a ≤ roundup_page (a % 2 ^ 32)) ↔ (a < 2 ^ 32)
roundup_page-covers_iff a = ((λ h. omega arith), (λ h. omega arith))

-- A dumb buffer has room for all its rows, of `pitch` bytes each and as many as the height rounded up to
-- 64, exactly if they are less than 2^32 bytes: beyond that the product wraps.
pub dumb_size-covers_iff :
    (width height bpp : ℕ)
    → (dumb_pitch width bpp * roundup_64 height ≤ dumb_size width height bpp)
      ↔ (dumb_pitch width bpp * roundup_64 height < 2 ^ 32)
dumb_size-covers_iff width height bpp =
    roundup_page-covers_iff (dumb_pitch width bpp * roundup_64 height)
