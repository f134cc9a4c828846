-- ===== src/Toolgate/Request/Unmap.antt =====
-- The end of a request gives back all that it holds.
use prl_tools.Base.{
  ap, ◌∙◌, ℕ, ◌+◌, ◌≤◌, ◌≡◌, refl, Bool, List, [], ◌∷◌, ◌++◌, ◌==◌, if◌then◌else◌, count, arith,
  Bool-cases, inl, inr, take, ◌/◌,
}
use prl_tools.Toolgate.Wire.{TgBuffer, span_pages, inline_size}
use prl_tools.Toolgate.Build.{Uple, Build, release_pages, unmap_words}
use prl_tools.Toolgate.Build.Unmap.{
  Unmaps, Releases, in_words, in_buffers, pages_of, unmap_words-Unmaps, release_pages-Releases,
}
use prl_tools.Toolgate.Request.{
  TgReqDesc, tg_req_unmap_user_pages, unmap_buffers, tg_req_unmap_pages,
}

abbrev marked : Uple → Build → Build
marked u b = if u.writable == 0 then b else record b { dirty = u.pages ++ b.dirty }

marked_lem :
    (u : Uple) (b : Build)
    → let c = marked u b in
      (c.mapped ≡ b.mapped) × (c.fault ≡ b.fault) × (c.words ≡ b.words) × (c.pinned ≡ b.pinned)
marked_lem u b = ground arith

tg_req_unmap_user_pages-Releases :
    (us : List Uple) (b : Build)
    → ((x : ℕ) → pages_of us x ≤ count x b.pinned)
    → Releases (pages_of us) b (tg_req_unmap_user_pages us b)
unfolding tg_req_unmap_user_pages
tg_req_unmap_user_pages-Releases [] b owed = record {
  less = λ x. omega arith;
  fault = refl;
  words = refl;
  mapped = refl;
}
tg_req_unmap_user_pages-Releases (u ∷ us) b owed =
    let pages =
      release_pages-Releases u.pages (marked u b) (λ x. ground (arith, owed x, marked_lem u b)) in
    let r =
      tg_req_unmap_user_pages-Releases us (release_pages u.pages (marked u b))
        (λ x. ground (arith, owed x, pages.less x, marked_lem u b)) in
    let (m, f, w, p) = marked_lem u b in
    record {
      less = λ x. ground (arith, r.less x, pages.less x, marked_lem u b);
      fault = r.fault ∙ pages.fault ∙ f;
      words = r.words ∙ pages.words ∙ w;
      mapped = r.mapped ∙ pages.mapped ∙ m;
    }

unmap_buffers-Unmaps :
    (status i : ℕ) (ss : List TgBuffer) (b : Build)
    → ((x : ℕ) → in_buffers x b.words i ss ≤ count x b.mapped)
    → Unmaps (λ x. in_buffers x b.words i ss) b (unmap_buffers status i ss b).1
unfolding unmap_buffers
unmap_buffers-Unmaps status i [] b owed = record {
  less = λ x. omega arith;
  fault = refl;
  words = refl;
  pinned = refl;
  up_list = refl;
}
unmap_buffers-Unmaps status i (s ∷ ss) b owed = elim (Bool-cases (s.byte_count == 0)) [
  | inl empty ↦
      let r = unmap_buffers-Unmaps status (i + 2) ss b (λ x. ground (arith, owed x, empty)) in
      rw empty r
  | inr full ↦
      let npages = span_pages s.va s.byte_count in
      let u = unmap_words-Unmaps npages (i + 2) b (λ x. ground (arith, owed x, full)) in
      let c = unmap_words npages (i + 2) b in
      let r =
        unmap_buffers-Unmaps status (i + 2 + npages) ss c
          (λ x. rw u.words (ground (arith, owed x, full, u.less x))) in
      rw full (record {
        less = λ x.
            let e = ap (λ w. in_buffers x w (i + 2 + npages) ss) u.words in
            omega (arith, r.less x, u.less x, e);
        fault = r.fault ∙ u.fault;
        words = r.words ∙ u.words;
        pinned = r.pinned ∙ u.pinned;
        up_list = r.up_list ∙ u.up_list;
      })
]

-- What a request holds while its buffers before `nbuf` are mapped.
pub record Holds (dpages nbuf : ℕ) (d : TgReqDesc) (mapped pinned : ℕ → ℕ) (b : Build)
    : Type 0 where
  pub mappings :
      (x : ℕ)
      → count x b.mapped
        ≡ mapped x
          + in_words x b.words 0 dpages
          + in_buffers x b.words
              (dpages + inline_size d.src.inline_byte_count / 8)
              (take nbuf d.sbuf)
  pub references : (x : ℕ) → count x b.pinned ≡ pinned x + pages_of b.up_list x

-- What is left after that is taken back.
pub record Left (mapped pinned : ℕ → ℕ) (fault : Bool) (b : Build) : Type 0 where
  pub mappings : (x : ℕ) → count x b.mapped ≡ mapped x
  pub references : (x : ℕ) → count x b.pinned ≡ pinned x
  pub no_more_fault : b.fault ≡ fault

-- Unmapping a request whose first buffers are mapped gives back exactly the mappings that stand in its
-- memory and the references that stand in its list, and nothing that was not held.
pub tg_req_unmap_pages-Left :
    (status dpages nbuf : ℕ) (d : TgReqDesc) (mapped pinned : ℕ → ℕ) (b : Build)
    → Holds dpages nbuf d mapped pinned b
    → Left mapped pinned b.fault (tg_req_unmap_pages status dpages nbuf d b).1
unfolding tg_req_unmap_pages
tg_req_unmap_pages-Left status dpages nbuf d mapped pinned b h =
    let i = dpages + inline_size d.src.inline_byte_count / 8 in
    let ss = take nbuf d.sbuf in
    let u = unmap_words-Unmaps dpages 0 b (λ x. omega (arith, h.mappings x)) in
    let c = unmap_words dpages 0 b in
    let same = λ (x : ℕ). ap (λ w. in_buffers x w i ss) u.words in
    let v =
      unmap_buffers-Unmaps status i ss c (λ x. omega (arith, h.mappings x, u.less x, same x)) in
    let e = (unmap_buffers status i ss c).1 in
    let lists = v.up_list ∙ u.up_list in
    let pins = v.pinned ∙ u.pinned in
    let r =
      tg_req_unmap_user_pages-Releases e.up_list e
        (λ x. rw (lists, pins) (omega (arith, h.references x))) in
    record {
      mappings = λ x. rw r.mapped (omega (arith, h.mappings x, u.less x, v.less x, same x));
      references = λ x.
          let l = ap (λ us. pages_of us x) lists in
          let p = ap (count x) pins in omega (arith, r.less x, h.references x, l, p);
      no_more_fault = r.fault ∙ v.fault ∙ u.fault;
    }
