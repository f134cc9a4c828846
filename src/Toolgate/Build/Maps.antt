-- ===== src/Toolgate/Build/Maps.antt =====
-- What is handed to the device: where a step succeeds, each new mapping stands in the memory of the
-- request, and each new reference to a page in its list.
pub mod User
pub mod Buffers
pub mod Undo
use prl_tools.Base.{
  ap, ◌∙◌, ℕ, zero, suc, ◌+◌, ◌-◌, ◌≤◌, ◌<◌, ◌≡◌, ◌≢◌, refl, Bool, true, false, Option, none, some,
  List, [], ◌∷◌, ◌++◌, ◌==◌, if◌then◌else◌, count, count-append, arith, Bool-cases, Option-cases,
  inl, inr, length, ltb,
}
use mathlib.Core.List.{append-nil, append_assoc}
use prl_tools.Toolgate.Wire.{TgBuffer, span_pages}
use prl_tools.Toolgate.Build.{
  Uple, Build, Kernel, write, page_cache_get, page_cache_release, undo_internal, map_internal_loop,
  map_internal_end, tg_req_map_internal, map_user_loop, map_user_end, tg_req_map_user_pages,
  map_kernel_loop, map_kernel_end, tg_req_map_kernel_pages, map_buffer, map_buffers,
}
use prl_tools.Toolgate.Build.Unmap.{in_words, in_buffers, pages_of}

pub in_words_frame :
    (x i n : ℕ) (v w : ℕ → ℕ)
    → ((j : ℕ) → i ≤ j → j < i + n → v j ≡ w j)
    → in_words x v i n ≡ in_words x w i n
in_words_frame x i zero v w same = refl
in_words_frame x i (suc n) v w same = ground (
  arith,
  same i (omega arith) (omega arith),
  in_words_frame x (i + 1) n v w (λ j l h. same j (omega arith) (omega arith)),
)

-- From `b` to `c` mappings were made and references taken, and the words before `i` kept.
pub record Maps (i : ℕ) (mappings references : ℕ → ℕ) (b c : Build) : Type 0 where
  pub mapped : (x : ℕ) → count x c.mapped ≡ count x b.mapped + mappings x
  pub pinned : (x : ℕ) → count x c.pinned ≡ count x b.pinned + references x
  pub fault : c.fault ≡ b.fault
  pub frame : (j : ℕ) → j < i → c.words j ≡ b.words j

-- From `b` to `c` mappings were made, each reference taken stands in the list of the request, and the
-- words before `i` were kept.
pub record Adds (i : ℕ) (mappings : ℕ → ℕ) (b c : Build) : Type 0 where
  pub mapped : (x : ℕ) → count x c.mapped ≡ count x b.mapped + mappings x
  pub pinned :
      (x : ℕ) → count x c.pinned + pages_of b.up_list x ≡ count x b.pinned + pages_of c.up_list x
  pub fault : c.fault ≡ b.fault
  pub frame : (j : ℕ) → j < i → c.words j ≡ b.words j

-- A mapping that stands in word `i`, before others that stand behind it.
pub Maps-first :
    (i n pfn : ℕ) (first rest : ℕ → ℕ) (b c d : Build)
    → c.mapped ≡ pfn ∷ b.mapped
    → ((x : ℕ) → count x c.pinned ≡ count x b.pinned + first x)
    → c.words i ≡ pfn
    → c.fault ≡ b.fault
    → ((j : ℕ) → j < i → c.words j ≡ b.words j)
    → Maps (i + 1) (λ x. in_words x d.words (i + 1) n) rest c d
    → Maps i (λ x. in_words x d.words i (suc n)) (λ x. first x + rest x) b d
Maps-first i n pfn first rest b c d mapped pinned word fault frame m = record {
  mapped = λ x. ground (arith, ap (count x) mapped, m.mapped x, m.frame i, word);
  pinned = λ x. omega (arith, pinned x, m.pinned x);
  fault = m.fault ∙ fault;
  frame = λ j h. m.frame j (omega arith) ∙ frame j h;
}

-- What a result of the loop of `tg_req_map_internal` says if it succeeds.
abbrev InternalDone : ℕ → ℕ → List ℕ → Build → Option (List ℕ) × Build → Type 0
InternalDone n i ps b (done, c) =
    (qs : List ℕ)
    → done ≡ some qs
    → (new : List ℕ) × (qs ≡ ps ++ new)
      × (c.up_list ≡ b.up_list)
      × Maps i (λ x. in_words x c.words i n) (λ x. count x new) b c

module _ (k : Kernel) where
  map_internal_loop-done :
      (n i : ℕ) (ps : List ℕ) (b : Build) → InternalDone n i ps b (map_internal_loop k n i ps b)
  unfolding map_internal_loop
  map_internal_loop-done zero i ps b = λ qs e. (
    [],
    cc (append-nil ps),
    refl,
    record {
      mapped = λ x. omega arith;
      pinned = λ x. omega arith;
      fault = refl;
      frame = λ j h. refl;
    },
  )
  map_internal_loop-done (suc n) i ps b =
      let page = k.request_page i in
      let p = page_cache_get page b in
      let pfn = k.map_page p page in
      let w = write i pfn p in
      let c = record w { mapped = pfn ∷ w.mapped } in
      let rest = map_internal_loop k n (i + 1) (ps ++ page ∷ []) c in
      elim (pfn == 0)
        as (λ t.
          InternalDone (suc n) i ps b
            (if t then (none, undo_internal 0 ps (page_cache_release page w)) else rest)) [
              | true ↦ λ qs e. absurd (cc e)
              | false ↦ λ qs e.
                  let (new, q, l, m) = map_internal_loop-done n (i + 1) (ps ++ page ∷ []) c qs e in
                  (
                    page ∷ new,
                    q ∙ append_assoc ps (page ∷ []) new,
                    l,
                    Maps-first i n pfn (λ x. if page == x then 1 else 0) (λ x. count x new) b c
                        rest.1 refl (λ x. omega arith) (ground arith) refl (λ j h. ground arith) m,
                  )
            ]

internal_end-Adds :
    (k : Kernel) (n m : ℕ) (b : Build) (r : Option (List ℕ) × Build)
    → InternalDone n 0 [] b r
    → (map_internal_end k n r).0 ≡ some m
    → let c = (map_internal_end k n r).1 in (m ≡ n) × Adds 0 (λ x. in_words x c.words 0 n) b c
unfolding map_internal_end
internal_end-Adds k n m b (none, c) done e = absurd (cc e)
internal_end-Adds k n m b (some ps, c) done e =
    let (new, q, l, a) = done ps refl in
    (
      cc e,
      record {
        mapped = a.mapped;
        pinned = λ x. rw (q, l) (omega (arith, a.pinned x));
        fault = a.fault;
        frame = a.frame;
      },
    )

pub tg_req_map_internal-Adds :
    (k : Kernel) (n m : ℕ) (b : Build)
    → (tg_req_map_internal k n b).0 ≡ some m
    → let c = (tg_req_map_internal k n b).1 in (m ≡ n) × Adds 0 (λ x. in_words x c.words 0 n) b c
unfolding tg_req_map_internal
tg_req_map_internal-Adds k n m b =
    elim (k.kmalloc b)
      as (λ t.
        let r = if t then map_internal_end k n (map_internal_loop k n 0 [] b) else (none, b) in
        r.0 ≡ some m → (m ≡ n) × Adds 0 (λ x. in_words x r.1.words 0 n) b r.1) [
          | true ↦
              internal_end-Adds k n m b (map_internal_loop k n 0 [] b)
                (map_internal_loop-done k n 0 [] b)
          | false ↦ λ e. absurd (cc e)
        ]
