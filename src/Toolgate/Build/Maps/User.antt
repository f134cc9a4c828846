-- ===== src/Toolgate/Build/Maps/User.antt =====
-- `tg_req_map_user_pages`, where it succeeds.
use prl_tools.Base.{
  ap, ◌∙◌, ℕ, zero, suc, ◌+◌, ◌-◌, ◌≤◌, ◌<◌, ◌≡◌, refl, true, false, Option, none, some, List, [],
  ◌∷◌, ◌++◌, ◌==◌, if◌then◌else◌, count, count-append, arith, Bool-cases, inl, inr, length, ltb,
  reverse,
}
use mathlib.Core.Path.{subst}
use mathlib.Core.List.{reverse-cons}
use prl_tools.Toolgate.Wire.{TgBuffer}
use prl_tools.Toolgate.Build.{
  Build, Kernel, write, map_user_loop, map_user_end, tg_req_map_user_pages, release_pages,
}
use prl_tools.Toolgate.Build.Unmap.{in_words, pages_of}
use prl_tools.Toolgate.Build.Maps.{Adds}

pub length-snoc : (xs : List ℕ) (x : ℕ) → length (xs ++ x ∷ []) ≡ suc (length xs)
length-snoc [] x = refl
length-snoc (y ∷ ys) x = ap suc (length-snoc ys x)

length-reverse : (xs : List ℕ) → length (reverse xs) ≡ length xs
length-reverse [] = refl
length-reverse (x ∷ xs) =
    ap length (reverse-cons x xs) ∙ length-snoc (reverse xs) x ∙ ap suc (length-reverse xs)

pub in_words-last :
    (x i n : ℕ) (w : ℕ → ℕ)
    → in_words x w i (suc n) ≡ in_words x w i n + (if w (i + n) == x then 1 else 0)
in_words-last x i zero w = ground arith
in_words-last x i (suc n) w = ground (arith, in_words-last x (i + 1) n w)

-- What a result of the loop of `tg_req_map_user_pages` over `n` pages says if it succeeds.
abbrev UserDone : ℕ → ℕ → Build → Option (ℕ × ℕ) × Build → Type 0
UserDone n i b (failed, c) =
    failed ≡ none
    → ((x : ℕ) → count x c.mapped ≡ count x b.mapped + in_words x c.words i n)
      × (c.pinned ≡ b.pinned)
      × (c.up_list ≡ b.up_list)
      × (c.fault ≡ b.fault)
      × ((j : ℕ) → j < i → c.words j ≡ b.words j)
      × ((j : ℕ) → i + n ≤ j → c.words j ≡ b.words j)

map_user_loop-done :
    (k : Kernel) (ps : List ℕ) (i pfn mapped : ℕ) (b : Build)
    → 0 < i
    → pfn + 1 ≡ i + length ps
    → UserDone (length ps) i b (map_user_loop k ps pfn mapped b)
unfolding map_user_loop
map_user_loop-done k [] i pfn mapped b pos at =
    λ e. (λ x. omega arith, refl, refl, refl, λ j h. refl, λ j h. refl)
map_user_loop-done k (p ∷ ps) i pfn mapped b pos at =
    let addr = k.map_page b p in
    let c = write pfn addr (record b { mapped = addr ∷ b.mapped }) in
    let rest = map_user_loop k ps (pfn - 1) (mapped + 1) c in
    let n = length ps in
    elim (addr == 0) as (λ t. UserDone (suc n) i b (if t then (some (mapped, pfn), b) else rest)) [
      | true ↦ λ e. absurd (cc e)
      | false ↦ λ e.
          let (m, pins, l, f, below, above) =
            map_user_loop-done k ps i (pfn - 1) (mapped + 1) c pos (omega (arith, at)) e in
          let here : pfn ≡ i + n = omega (arith, at) in
          let word : rest.1.words (i + n) ≡ addr =
            above (i + n) (omega arith) ∙ ground (arith, here) in
          (
            λ x. ground (arith, m x, in_words-last x i n rest.1.words, word),
            pins,
            l,
            f,
            λ j h. below j h ∙ ground (arith, here),
            λ j h. above j (omega arith) ∙ ground (arith, here),
          )
    ]

user_end-Adds :
    (k : Kernel) (s : TgBuffer) (got : List ℕ) (n i next : ℕ) (b c : Build)
    (r : Option (ℕ × ℕ) × Build)
    → c ≡ record b { pinned = got ++ b.pinned }
    → UserDone n i c r
    → (map_user_end k s got (i + n) r).0 ≡ some next
    → let d = (map_user_end k s got (i + n) r).1 in
      (next ≡ i + n) × Adds i (λ x. in_words x d.words i n) b d
unfolding map_user_end
user_end-Adds k s got n i next b c (some f, d) got_b done e = absurd (cc e)
user_end-Adds k s got n i next b c (none, d) got_b done e =
    let (m, pins, l, f, below, above) = done refl in
    (
      cc e,
      record {
        mapped = λ x. m x ∙ ap (λ y. count x y.mapped + in_words x d.words i n) got_b;
        pinned = λ x. omega (
          arith,
          ap (count x) pins,
          ap (λ y. count x y.pinned) got_b,
          ap (λ y. pages_of y x) l,
          ap (λ y. pages_of y.up_list x) got_b,
          count-append x got b.pinned,
        );
        fault = f ∙ ap (λ y. y.fault) got_b;
        frame = λ j h. below j h ∙ ap (λ y. y.words j) got_b;
      },
    )

-- What a result says that leaves the page numbers at `i`, if it succeeds.
abbrev pub Added : ℕ → ℕ → ℕ → Build → Option ℕ × Build → Type 0
Added i n next b (done, c) =
    done ≡ some next → (next ≡ i + n) × Adds i (λ x. in_words x c.words i n) b c

-- `got` is no more than what was asked for.
pub tg_req_map_user_pages-Adds :
    (k : Kernel) (i : ℕ) (s : TgBuffer) (n next : ℕ) (b : Build)
    → 0 < i
    → length (k.user_pages s.va n) ≤ n
    → (tg_req_map_user_pages k i s n b).0 ≡ some next
    → let c = (tg_req_map_user_pages k i s n b).1 in
      (next ≡ i + n) × Adds i (λ x. in_words x c.words i n) b c
unfolding tg_req_map_user_pages
tg_req_map_user_pages-Adds k i s n next b pos few =
    let got = k.user_pages s.va n in
    let c = record b { pinned = got ++ b.pinned } in
    let r = map_user_loop k (reverse got) (i + n - 1) 0 c in
    let enough : length (reverse got) ≡ n → UserDone n i c r = λ same.
      subst (λ m. UserDone m i c r) same
        (map_user_loop-done k (reverse got) i (i + n - 1) 0 c pos (omega (arith, same))) in
    elim (k.kmalloc b)
      as (λ t. Added i n next b (
        if t
        then (if ltb (length got) n
            then (none, release_pages got c)
            else map_user_end k s got (i + n) r)
        else (none, b))) [
          | false ↦ λ e. absurd (cc e)
          | true ↦ elim (Bool-cases (ltb (length got) n)) [
            | inl short ↦ rw short (λ e. absurd (cc e))
            | inr full ↦ rw full (
                user_end-Adds k s got n i next b c r refl
                  (enough (ground (arith, length-reverse got, few, full))))
          ]
        ]
