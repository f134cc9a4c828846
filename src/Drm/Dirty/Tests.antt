-- ===== src/Drm/Dirty/Tests.antt =====
-- Dirty areas at concrete inputs.
use prl_tools.Base.{ℕ, ◌≡◌, ◌≤◌, refl, true, false, [], ◌∷◌, some, arith, if◌then◌else◌, ◌==◌}
use prl_tools.Drm.Dirty.{Bounds, Clip, prl_fb_dirty, update_loop, merge_rects, merge_clips}
use prl_tools.Drm.Dirty.Union.{union, prl_fb_dirty-union}

-- Nothing to draw: from 32767 to -32768.
abbrev nothing : Bounds
nothing = record { left = 65535; top = 65535; right = 0; bottom = 0 }

abbrev first : Clip
first = record { x1 = 10; y1 = 20; x2 = 30; y2 = 40 }

abbrev second : Clip
second = record { x1 = 5; y1 = 25; x2 = 28; y2 = 60 }

abbrev both : Bounds
both = record { left = 32773; top = 32788; right = 32798; bottom = 32828 }

-- The host has reset the bounds between the looks at them in round 0.
abbrev reset_once : ℕ → Bounds
reset_once i = if i == 0 then both else nothing

abbrev always_nothing : ℕ → Bounds
always_nothing i = nothing

merged :
    (prl_fb_dirty 3 true false 0 reset_once always_nothing 640 480 (first ∷ second ∷ [])).bounds
    ≡ some both
unfolding prl_fb_dirty update_loop merge_rects merge_clips
merged = refl

whole :
    merge_rects 640 480 [] nothing
    ≡ record { left = 32768; top = 32768; right = 33408; bottom = 33248 }
unfolding merge_rects
whole = refl

prl_fb_dirty-union_example :
    (r : ℕ) × (r ≤ 1)
    × ((prl_fb_dirty 3 true false 0 always_nothing reset_once 640 480 (first ∷ second ∷ [])).bounds
        ≡ some (union (first ∷ second ∷ []) nothing))
prl_fb_dirty-union_example =
    prl_fb_dirty-union 3 true false 0 always_nothing reset_once 640 480 first (second ∷ []) 1 refl
      (
        record { left = omega arith; top = omega arith; right = omega arith; bottom = omega arith },
        (
          record {
            left = omega arith;
            top = omega arith;
            right = omega arith;
            bottom = omega arith;
          },
          tt,
        ),
      )
      (omega arith) refl
