-- ===== src/Toolgate/Build/Maps/Undo.antt =====
-- `tg_req_map_internal`, where it fails.
use prl_tools.Base.{
  ap, ◌∙◌, ℕ, zero, suc, ◌+◌, ◌≡◌, refl, Bool, true, false, Option, none, some, List, [], ◌∷◌, ◌++◌,
  ◌==◌, if◌then◌else◌, count, count-append, arith, length,
}
use prl_tools.Toolgate.Build.{
  Build, Kernel, write, page_cache_get, page_cache_release, pci_unmap_page, undo_internal,
  map_internal_loop, map_internal_end, tg_req_map_internal,
}
use prl_tools.Toolgate.Build.Unmap.{in_words, page_cache_release-Releases, pci_unmap_page-Unmaps}
use prl_tools.Toolgate.Build.Maps.{in_words_frame}
use prl_tools.Toolgate.Build.Maps.User.{in_words-last, length-snoc}

-- The device has the mappings `m` and those of the words from `i` on for each page of `ps`; the
-- references are `p` and these pages.
record Ledger (i : ℕ) (ps : List ℕ) (m p : ℕ → ℕ) (fault : Bool) (b : Build) : Type 0 where
  mapped : (x : ℕ) → count x b.mapped ≡ m x + in_words x b.words i (length ps)
  pinned : (x : ℕ) → count x b.pinned ≡ p x + count x ps
  no_more_fault : b.fault ≡ fault

undo_internal-Ledger :
    (i : ℕ) (ps : List ℕ) (m p : ℕ → ℕ) (fault : Bool) (b : Build)
    → Ledger i ps m p fault b
    → Ledger i [] m p fault (undo_internal i ps b)
unfolding undo_internal
undo_internal-Ledger i [] m p fault b l = l
undo_internal-Ledger i (q ∷ ps) m p fault b l =
    let u = pci_unmap_page-Unmaps (b.words i) b (ground (arith, l.mapped (b.words i))) in
    let c = pci_unmap_page (b.words i) b in
    let r = page_cache_release-Releases q c (rw u.pinned (ground (arith, l.pinned q))) in
    let d = page_cache_release q c in
    let words = r.words ∙ u.words in
    let n = length ps in
    let rest : Ledger (i + 1) ps m p fault d = record {
      mapped = λ x. ground (
        arith,
        u.less x,
        l.mapped x,
        ap (count x) r.mapped,
        ap (λ w. in_words x w (i + 1) n) words,
      );
      pinned = λ x. ground (arith, r.less x, l.pinned x, ap (count x) u.pinned);
      no_more_fault = r.fault ∙ u.fault ∙ l.no_more_fault;
    } in
    let e = undo_internal-Ledger (i + 1) ps m p fault d rest in
    record { mapped = e.mapped; pinned = e.pinned; no_more_fault = e.no_more_fault }

-- A failed loop leaves no more than there was.
abbrev Undone : (ℕ → ℕ) → (ℕ → ℕ) → Bool → Option (List ℕ) × Build → Type 0
Undone m p fault (done, c) = done ≡ none → Ledger 0 [] m p fault c

module _ (k : Kernel) where
  map_internal_loop-Undone :
      (n i : ℕ) (ps : List ℕ) (m p : ℕ → ℕ) (fault : Bool) (b : Build)
      → length ps ≡ i
      → Ledger 0 ps m p fault b
      → Undone m p fault (map_internal_loop k n i ps b)
  unfolding map_internal_loop
  map_internal_loop-Undone zero i ps m p fault b at l = λ e. absurd (cc e)
  map_internal_loop-Undone (suc n) i ps m p fault b at l =
      let page = k.request_page i in
      let t = page_cache_get page b in
      let pfn = k.map_page t page in
      let w = write i pfn t in
      let c = record w { mapped = pfn ∷ w.mapped } in
      let old = λ (x : ℕ).
        in_words_frame x 0 (length ps) w.words b.words (λ j h less. ground (arith, less, at)) in
      let rest = map_internal_loop k n (i + 1) (ps ++ page ∷ []) c in
      let r = page_cache_release-Releases page w (ground arith) in
      let back : Ledger 0 ps m p fault (page_cache_release page w) = record {
        mapped = λ x. omega (
          arith,
          l.mapped x,
          old x,
          ap (count x) r.mapped,
          ap (λ v. in_words x v 0 (length ps)) r.words,
        );
        pinned = λ x. ground (arith, r.less x, l.pinned x);
        no_more_fault = r.fault ∙ l.no_more_fault;
      } in
      let more : Ledger 0 (ps ++ page ∷ []) m p fault c = record {
        mapped = λ x. ground (
          arith,
          l.mapped x,
          old x,
          length-snoc ps page,
          in_words-last x 0 (length ps) w.words,
          at,
        );
        pinned = λ x. ground (arith, l.pinned x, count-append x ps (page ∷ []));
        no_more_fault = l.no_more_fault;
      } in
      elim (pfn == 0)
        as (λ z.
          Undone m p fault
            (if z then (none, undo_internal 0 ps (page_cache_release page w)) else rest)) [
              | true ↦ λ e. undo_internal-Ledger 0 ps m p fault (page_cache_release page w) back
              | false ↦
                  map_internal_loop-Undone n (i + 1) (ps ++ page ∷ []) m p fault c
                    (omega (arith, length-snoc ps page, at)) more
            ]

  end-none :
      (n : ℕ) (r : Option (List ℕ) × Build)
      → (map_internal_end k n r).0 ≡ none
      → (r.0 ≡ none) × ((map_internal_end k n r).1 ≡ r.1)
  unfolding map_internal_end
  end-none n (none, c) e = (refl, refl)
  end-none n (some ps, c) e = absurd (cc e)

  -- When tg_req_map_internal fails, whether for want of memory or because a page of the request cannot
  -- be mapped for the device, each bus address is mapped and each page is referenced as often as
  -- before, and nothing was given up that was not held.
  pub tg_req_map_internal-undone :
      (n : ℕ) (b : Build)
      → (tg_req_map_internal k n b).0 ≡ none
      → let c = (tg_req_map_internal k n b).1 in
        ((x : ℕ) → count x c.mapped ≡ count x b.mapped)
        × ((x : ℕ) → count x c.pinned ≡ count x b.pinned)
        × (c.fault ≡ b.fault)
  unfolding tg_req_map_internal
  tg_req_map_internal-undone n b =
      let m = λ (x : ℕ). count x b.mapped in
      let p = λ (x : ℕ). count x b.pinned in
      let start : Ledger 0 [] m p b.fault b = record {
        mapped = λ x. omega arith;
        pinned = λ x. omega arith;
        no_more_fault = refl;
      } in
      let loop = map_internal_loop k n 0 [] b in
      elim (k.kmalloc b)
        as (λ t.
          let r = if t then map_internal_end k n loop else (none, b) in
          r.0 ≡ none
          → ((x : ℕ) → count x r.1.mapped ≡ m x)
            × ((x : ℕ) → count x r.1.pinned ≡ p x)
            × (r.1.fault ≡ b.fault)) [
              | false ↦ λ e. (λ x. refl, λ x. refl, refl)
              | true ↦ λ e.
                  let (failed, same) = end-none n loop e in
                  let l = map_internal_loop-Undone n 0 [] m p b.fault b refl start failed in
                  (
                    λ x. ap (λ c. count x c.mapped) same ∙ l.mapped x ∙ omega arith,
                    λ x. ap (λ c. count x c.pinned) same ∙ l.pinned x ∙ omega arith,
                    ap (λ c. c.fault) same ∙ l.no_more_fault,
                  )
            ]
