-- ===== src/Toolgate/Request/Create.antt =====
-- A request that was created holds its pages and those of its buffers.
use prl_tools.Base.{
  ap, ◌∙◌, ℕ, ◌+◌, ◌/◌, ◌<◌, ◌≡◌, refl, Bool, true, false, Option, none, some, List, [], ◌∷◌,
  if◌then◌else◌, count, arith, length, take,
}
use mathlib.Core.Path.{subst, sym}
use prl_tools.Toolgate.Wire.{inline_size, span_pages, tg_status_pending}
use prl_tools.Toolgate.Size.{PagedSize, overflow, size, out_of_fuel, tg_req_paged_size}
use prl_tools.Toolgate.Build.{Build, Kernel, tg_req_map_internal, map_buffers}
use prl_tools.Toolgate.Build.Unmap.{in_words, in_buffers}
use prl_tools.Toolgate.Build.Maps.{Adds, in_words_frame, tg_req_map_internal-Adds}
use prl_tools.Toolgate.Build.Maps.Buffers.{GetsAtMost, map_buffers-done}
use prl_tools.Toolgate.Request.{
  TgReqDesc, copy_in, create_buffers, create_sized, tg_req_create, tg_req_unmap_pages,
}
use prl_tools.Toolgate.Request.Unmap.{Holds}

pub take-length : {A : Type 0} (xs : List A) → take (length xs) xs ≡ xs
take-length [] = refl
take-length (x ∷ xs) = ap (λ ys. x ∷ ys) (take-length xs)

-- What a result of the creation says if it succeeds.
abbrev Created : TgReqDesc → Build → Option ℕ × Build → Type 0
Created d b (done, c) =
    (dpages : ℕ)
    → done ≡ some dpages
    → Holds dpages (length d.sbuf) d (λ x. count x b.mapped) (λ x. count x b.pinned) c
      × (c.fault ≡ b.fault)

-- The inline bytes leave the pages before them as they are.
copy_in_before :
    (n i : ℕ) (idata : ℕ → ℕ) (b : Build) (j : ℕ)
    → j < i
    → (copy_in n i idata b).words j ≡ b.words j
unfolding copy_in
copy_in_before n i idata b j h = ground arith

create_buffers-Holds :
    (d : TgReqDesc) (dpages : ℕ) (a b c : Build)
    → Adds 0 (λ x. in_words x b.words 0 dpages) (record a { up_list = [] }) b
    → let i = dpages + inline_size d.src.inline_byte_count / 8 in
      Adds i
        (λ x. in_buffers x c.words i d.sbuf)
        (copy_in d.src.inline_byte_count dpages d.idata b)
        c
      → Holds dpages (length d.sbuf) d (λ x. count x a.mapped) (λ x. count x a.pinned) c
        × (c.fault ≡ a.fault)
unfolding copy_in
create_buffers-Holds d dpages a b c own bufs =
    let i = dpages + inline_size d.src.inline_byte_count / 8 in
    let all = λ (x : ℕ). ap (in_buffers x c.words i) (take-length d.sbuf) in
    let pages = λ (x : ℕ). in_words_frame x 0 dpages c.words b.words (λ j l h.
      bufs.frame j (omega arith)
      ∙ copy_in_before d.src.inline_byte_count dpages d.idata b j (omega arith)) in
    (
      record {
        mappings = λ x. omega (arith, bufs.mapped x, own.mapped x, pages x, all x);
        references = λ x. omega (arith, bufs.pinned x, own.pinned x);
      },
      bufs.fault ∙ own.fault,
    )

internal_pages :
    (k : Kernel) (n m : ℕ) (b : Build)
    → (tg_req_map_internal k n b).0 ≡ some m
    → let c = (tg_req_map_internal k n b).1 in Adds 0 (λ x. in_words x c.words 0 m) b c
internal_pages k n m b e =
    let c = (tg_req_map_internal k n b).1 in
    let (same, a) = tg_req_map_internal-Adds k n m b e in
    subst (λ l. Adds 0 (λ x. in_words x c.words 0 l) b c) (sym same) a

module _ (k : Kernel) (few : GetsAtMost k) where
  create_buffers-Created :
      (d : TgReqDesc) (a : Build) (r : Option ℕ × Build)
      → ((m : ℕ)
          → r.0 ≡ some m
          → Adds 0 (λ x. in_words x r.1.words 0 m) (record a { up_list = [] }) r.1)
      → Created d a (create_buffers k d r)
  unfolding create_buffers
  create_buffers-Created d a (none, b) own = λ dpages e. absurd (cc e)
  create_buffers-Created d a (some m, b) own =
      let inline = d.src.inline_byte_count in
      let i = m + inline_size inline / 8 in
      let r = map_buffers k d.kernel_bufs 0 i d.sbuf (copy_in inline m d.idata b) in
      let out : Option ℕ → Option ℕ × Build = λ failed. elim failed [
        | none ↦ (some m, r.1)
        | some nbuf ↦ (none, (tg_req_unmap_pages tg_status_pending m nbuf d r.1).1)
      ] in
      elim r.0 as (λ o. r.0 ≡ o → Created d a (out o)) [
        | some nbuf ↦ λ e dpages done. absurd (cc done)
        | none ↦ λ e dpages done.
            let same : m ≡ dpages = cc done in
            subst
              (λ n.
                Holds n (length d.sbuf) d (λ x. count x a.mapped) (λ x. count x a.pinned) r.1
                × (r.1.fault ≡ a.fault))
              same
              (create_buffers-Holds d m a b r.1 (own m refl)
                (map_buffers-done k d.kernel_bufs 0 i d.sbuf (copy_in inline m d.idata b) few e))
      ]
        refl

  tg_req_create-Created :
      (d : TgReqDesc) (room room_dst : Bool) (dst : ℕ) (b : Build)
      → Created d b (tg_req_create k d room room_dst dst b)
  unfolding tg_req_create create_sized
  tg_req_create-Created d room room_dst dst b =
      let sized = λ (p : PagedSize). create_sized k d room_dst dst p b in
      elim room
        as (λ t. Created d b (if t then sized (tg_req_paged_size d.src d.sbuf) else (none, b))) [
          | false ↦ λ dpages e. absurd (cc e)
          | true ↦ elim (tg_req_paged_size d.src d.sbuf) as (λ p. Created d b (sized p)) [
            | overflow ↦ λ dpages e. absurd (cc e)
            | out_of_fuel ↦ λ dpages e. absurd (cc e)
            | size dsize ↦
                let r =
                  create_buffers k d
                    (tg_req_map_internal k (span_pages dst dsize) (record b { up_list = [] })) in
                elim room_dst as (λ t. Created d b (if t then r else (none, b))) [
                  | false ↦ λ dpages e. absurd (cc e)
                  | true ↦
                      let n = span_pages dst dsize in
                      let c = record b { up_list = [] } in
                      create_buffers-Created d b (tg_req_map_internal k n c)
                        (λ m e. internal_pages k n m c e)
                ]
          ]
        ]

  -- If get_user_pages gets no more pages than it is asked for, a request that is created has for each
  -- of its own pages and each page of its buffers one new mapping, which stands in its memory; each
  -- new reference to a page stands in its list, and nothing was given up that was not held.
  pub tg_req_create-Holds :
      (d : TgReqDesc) (room room_dst : Bool) (dst : ℕ) (b : Build) (dpages : ℕ)
      → (tg_req_create k d room room_dst dst b).0 ≡ some dpages
      → let c = (tg_req_create k d room room_dst dst b).1 in
        Holds dpages (length d.sbuf) d (λ x. count x b.mapped) (λ x. count x b.pinned) c
        × (c.fault ≡ b.fault)
  tg_req_create-Holds d room room_dst dst b dpages e =
      tg_req_create-Created d room room_dst dst b dpages e
