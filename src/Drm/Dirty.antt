-- ===== src/Drm/Dirty.antt =====
-- prl_fb_dirty in kmods-src/prl_vid/Video/Guest/Linux/kmod/prldrm.c: the area of a head that the host is
-- to draw again, in memory that the host shares and resets. A `short` is its value and 32768, a number
-- below 65536.
pub mod Union
mod Tests
use prl_tools.Base.{
  ℕ, zero, suc, ◌+◌, ◌%◌, ◌^◌, Bool, true, false, not, ◌&&◌, ◌||◌, List, [], ◌∷◌, Option, none,
  some, ltb, ◌==◌, if◌then◌else◌, ℤ, pos,
}

-- VID_TG_UPDATE_BOUNDS
pub record Bounds : Type 0 where
  pub left : ℕ
  pub top : ℕ
  pub right : ℕ
  pub bottom : ℕ

-- drm_clip_rect, of numbers of 16 bits without sign
pub record Clip : Type 0 where
  pub x1 : ℕ
  pub y1 : ℕ
  pub x2 : ℕ
  pub y2 : ℕ

-- A number without sign that is stored in a `short`, and its value in a comparison.
abbrev pub as_short : ℕ → ℕ
as_short x = (x + 32768) % 65536

abbrev pub as_int : ℕ → ℕ
as_int x = x + 32768

abbrev pub lower : ℕ → ℕ → ℕ
lower a x = if ltb (as_int x) a then as_short x else a

abbrev pub raise : ℕ → ℕ → ℕ
raise a x = if ltb a (as_int x) then as_short x else a

abbrev pub merge_clip : Clip → Bounds → Bounds
merge_clip c b = record {
  left = lower b.left c.x1;
  top = lower b.top c.y1;
  right = raise b.right c.x2;
  bottom = raise b.bottom c.y2;
}

unfoldable pub merge_clips : List Clip → Bounds → Bounds
merge_clips [] b = b
merge_clips (c ∷ cs) b = merge_clips cs (merge_clip c b)

-- Without clips it is the whole framebuffer.
unfoldable pub merge_rects : ℕ → ℕ → List Clip → Bounds → Bounds
merge_rects width height [] b = record {
  left = as_short 0;
  top = as_short 0;
  right = as_short width;
  bottom = as_short height;
}
merge_rects width height (c ∷ cs) b = merge_clips (c ∷ cs) b

-- The comparison of the numbers of 64 bits that the bounds are.
abbrev pub same_bounds : Bounds → Bounds → Bool
same_bounds a b =
    (a.left == b.left) && (a.top == b.top) && (a.right == b.right) && (a.bottom == b.bottom)

-- The loop that updates the bounds. `read i` is what round `i` reads first, `there i` is what is there at
-- its atomic64_cmpxchg. The result is what the loop has stored, or found to be enough; on fuel.
unfoldable pub update_loop : ℕ → (ℕ → Bounds) → (ℕ → Bounds) → ℕ → ℕ → List Clip → ℕ → Option Bounds
update_loop zero read there width height clips i = none
update_loop (suc fuel) read there width height clips i =
    let cmp = read i in
    let exe = merge_rects width height clips cmp in
    let rest = update_loop fuel read there width height clips (suc i) in
    if same_bounds exe cmp then some cmp else if same_bounds (there i) cmp then some exe else rest

-- What the host gets from prl_fb_dirty: requests to share the state and to move the offset, which has 32
-- bits, and the bounds.
pub record Dirtied : Type 0 where
  pub ret : ℤ
  pub started : Bool
  pub pending : Bool
  pub offset : Option ℕ
  pub bounds : Option Bounds

-- `starts` says whether call_tg_async_start brings a request.
unfoldable pub prl_fb_dirty :
    ℕ → Bool → Bool → ℕ → (ℕ → Bounds) → (ℕ → Bounds) → ℕ → ℕ → List Clip → Dirtied
prl_fb_dirty fuel starts pending offset read there width height clips =
    if pending || starts
    then record {
      ret = pos 0;
      started = not pending;
      pending = true;
      offset = some (offset % 2 ^ 32);
      bounds = update_loop fuel read there width height clips 0;
    }
    else record { ret = pos 0; started = true; pending = false; offset = none; bounds = none }
