-- ===== src/Drm/Dirty/Union.antt =====
-- The merged bounds against the least rectangle around the old bounds and the clips.
use prl_tools.Base.{
  ℕ, zero, suc, ◌+◌, ◌%◌, ◌≤◌, ◌<◌, ◌≡◌, refl, sym, ap, ◌∙◌, ◌||◌, Bool, true, List, [], ◌∷◌, some,
  arith, ltb, ◌==◌, if◌then◌else◌, Bool-cases, inl, inr, All, map,
}
use prl_tools.Drm.Dirty.{
  Bounds, Clip, as_int, merge_clip, merge_clips, merge_rects, same_bounds, update_loop,
  prl_fb_dirty,
}

-- The coordinates of a clip do not pass 32767.
pub record IsShort (c : Clip) : Type 0 where
  pub left : c.x1 < 32768
  pub top : c.y1 < 32768
  pub right : c.x2 < 32768
  pub bottom : c.y2 < 32768

abbrev pub least : ℕ → List ℕ → ℕ
least a [] = a
least a (x ∷ xs) = least (if ltb x a then x else a) xs

abbrev pub greatest : ℕ → List ℕ → ℕ
greatest a [] = a
greatest a (x ∷ xs) = greatest (if ltb a x then x else a) xs

-- The least rectangle around bounds and clips.
abbrev pub union : List Clip → Bounds → Bounds
union cs b = record {
  left = least b.left (map (λ c. as_int c.x1) cs);
  top = least b.top (map (λ c. as_int c.y1) cs);
  right = greatest b.right (map (λ c. as_int c.x2) cs);
  bottom = greatest b.bottom (map (λ c. as_int c.y2) cs);
}

short_int : (x : ℕ) → x < 32768 → (x + 32768) % 65536 ≡ x + 32768
short_int x small = omega arith

pub merge_clips-union :
    (cs : List Clip) (b : Bounds) → All IsShort cs → merge_clips cs b ≡ union cs b
unfolding merge_clips
merge_clips-union [] b short = refl
merge_clips-union (c ∷ cs) b short =
    let s = short.0 in
    rw
      (
        merge_clips-union cs (merge_clip c b) short.1,
        short_int c.x1 s.left,
        short_int c.y1 s.top,
        short_int c.x2 s.right,
        short_int c.y2 s.bottom,
      )
      refl

same_bounds→≡ : (a b : Bounds) → same_bounds a b ≡ true → a ≡ b
same_bounds→≡ a b same =
    let l : a.left ≡ b.left = ground (arith, same) in
    let t : a.top ≡ b.top = ground (arith, same) in
    let r : a.right ≡ b.right = ground (arith, same) in
    let u : a.bottom ≡ b.bottom = ground (arith, same) in
    λ i. record { left = l i; top = t i; right = r i; bottom = u i }

-- A loop that has a round without interference ends by it, with the rectangles merged in some round.
update_loop-merged :
    (fuel : ℕ) (read there : ℕ → Bounds) (width height : ℕ) (cs : List Clip) (i j : ℕ)
    → i ≤ j
    → j < fuel + i
    → same_bounds (there j) (read j) ≡ true
    → (r : ℕ) × (r ≤ j)
      × (update_loop fuel read there width height cs i
          ≡ some (merge_rects width height cs (read r)))
unfolding update_loop
update_loop-merged zero read there width height cs i j before enough calm = absurd (omega arith)
update_loop-merged (suc fuel) read there width height cs i j before enough calm =
    let exe = merge_rects width height cs (read i) in
    elim (Bool-cases (same_bounds exe (read i))) [
      | inl unchanged ↦
          (i, before, rw unchanged (ap some (sym (same_bounds→≡ exe (read i) unchanged))))
      | inr changed ↦ elim (Bool-cases (same_bounds (there i) (read i))) [
        | inl stored ↦ (i, before, rw (changed, stored) refl)
        | inr disturbed ↦ elim (Bool-cases (i == j)) [
          | inl now ↦ let same : i ≡ j = ground (arith, now) in absurd (cc (same, calm, disturbed))
          | inr later ↦
              let rest =
                update_loop-merged fuel read there width height cs (suc i) j
                  (ground (arith, later, before)) (omega (arith, enough)) calm in
              (rest.0, rest.1, rw (changed, disturbed) rest.2)
        ]
      ]
    ]

-- When the state is shared, and the bounds are not touched between the two looks at them in some round
-- that the loop has fuel for, prl_fb_dirty leaves the least rectangle around the bounds that it has read
-- in this round or one before and the clips, if there is a clip and no coordinate passes 32767.
pub prl_fb_dirty-union :
    (fuel : ℕ) (starts pending : Bool) (offset : ℕ) (read there : ℕ → Bounds) (width height : ℕ)
    (c : Clip) (cs : List Clip) (j : ℕ)
    → (pending || starts) ≡ true
    → All IsShort (c ∷ cs)
    → j < fuel
    → same_bounds (there j) (read j) ≡ true
    → (r : ℕ) × (r ≤ j)
      × ((prl_fb_dirty fuel starts pending offset read there width height (c ∷ cs)).bounds
          ≡ some (union (c ∷ cs) (read r)))
unfolding prl_fb_dirty merge_rects
prl_fb_dirty-union fuel starts pending offset read there width height c cs j shared short enough
      calm =
    let m =
      update_loop-merged fuel read there width height (c ∷ cs) 0 j (omega arith) (omega arith)
        calm in
    (m.0, m.1, rw shared (m.2 ∙ ap some (merge_clips-union (c ∷ cs) (read m.0) short)))
