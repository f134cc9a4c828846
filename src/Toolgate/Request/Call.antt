-- ===== src/Toolgate/Request/Call.antt =====
-- A whole call of Toolgate, from the creation of its request to its end.
use prl_tools.Base.{
  ap, ◌∙◌, ℕ, ◌+◌, ◌-◌, ◌/◌, ◌≡◌, ◌≢◌, refl, Bool, true, false, Option, none, some, List, [], ◌∷◌,
  ◌==◌, if◌then◌else◌, count, count-delete_self, arith, Bool-cases, inl, inr, length, take, ltb,
  leb, ◌&&◌, ◌||◌, ℤ, pos,
}
use mathlib.Core.Path.{subst}
use prl_tools.Toolgate.Wire.{
  TgBuffer, inline_size, span_pages, tg_status_pending, tg_status_cancelled,
}
use prl_tools.Toolgate.Build.{Build, Kernel, page_cache_release, page_cache_get, pci_unmap_page}
use prl_tools.Toolgate.Build.Unmap.{
  in_words, in_buffers, pages_of, page_cache_release-Releases, page_cache_release-up_list,
  pci_unmap_page-Unmaps,
}
use prl_tools.Toolgate.Build.Maps.{in_words_frame}
use prl_tools.Toolgate.Build.Maps.Buffers.{GetsAtMost}
use prl_tools.Toolgate.Request.{
  TgReqDesc, Host, tg_req_create, tg_req_submit, submit_loop, release_request, sync_submitted,
  sync_created, call_tg_sync, tg_req_destroy, tg_req_unmap_pages,
}
use prl_tools.Toolgate.Request.Unmap.{Holds, Left, tg_req_unmap_pages-Left}
use prl_tools.Toolgate.Request.Create.{take-length, tg_req_create-Holds}

-- Whether word `j` is one of the page numbers of the buffers from word `i` on.
abbrev page_word : ℕ → List TgBuffer → ℕ → Bool
page_word i [] j = false
page_word i (s ∷ ss) j =
    let npages = span_pages s.va s.byte_count in
    if s.byte_count == 0
    then page_word (i + 2) ss j
    else (leb (i + 2) j && ltb j (i + 2 + npages)) || page_word (i + 2 + npages) ss j

-- The host does not write to the page numbers.
abbrev pub KeepsPages : Host → TgReqDesc → ℕ → Type 0
KeepsPages h d dpages =
    (w : ℕ → ℕ) (j : ℕ)
    → (ltb j dpages || page_word (dpages + inline_size d.src.inline_byte_count / 8) d.sbuf j) ≡ true
    → h.memory w j ≡ w j

in_buffers_keep :
    (x i : ℕ) (ss : List TgBuffer) (v w : ℕ → ℕ)
    → ((j : ℕ) → page_word i ss j ≡ true → v j ≡ w j)
    → in_buffers x v i ss ≡ in_buffers x w i ss
in_buffers_keep x i [] v w same = refl
in_buffers_keep x i (s ∷ ss) v w same =
    let n = span_pages s.va s.byte_count in
    elim (Bool-cases (s.byte_count == 0)) [
      | inl empty ↦
          rw empty (in_buffers_keep x (i + 2) ss v w (λ j h. same j (ground (arith, empty, h))))
      | inr full ↦
          let pages =
            in_words_frame x (i + 2) n v w (λ j l h. same j (ground (arith, full, l, h))) in
          let rest =
            in_buffers_keep x (i + 2 + n) ss v w (λ j h. same j (ground (arith, full, h))) in
          rw full (omega (arith, pages, rest))
    ]

-- What the host leaves of the memory of a request.
answered_Holds :
    (h : Host) (d : TgReqDesc) (dpages : ℕ) (m p : ℕ → ℕ) (b : Build)
    → KeepsPages h d dpages
    → Holds dpages (length d.sbuf) d m p b
    → Holds dpages (length d.sbuf) d m p (record b { words = h.memory b.words })
answered_Holds h d dpages m p b keeps holds =
    let i = dpages + inline_size d.src.inline_byte_count / 8 in
    let same =
      λ (j : ℕ) (own : (ltb j dpages || page_word i d.sbuf j) ≡ true). keeps b.words j own in
    let pages = λ (x : ℕ).
      in_words_frame x 0 dpages (h.memory b.words) b.words
        (λ j l less. same j (ground (arith, less))) in
    let bufs = λ (x : ℕ).
      in_buffers_keep x i d.sbuf (h.memory b.words) b.words
        (λ j own. same j (ground (arith, own))) in
    let all = λ (x : ℕ) (w : ℕ → ℕ). ap (in_buffers x w i) (take-length d.sbuf) in
    record {
      mappings = λ x.
          holds.mappings x
          ∙ omega (arith, pages x, bufs x, all x b.words, all x (h.memory b.words));
      references = holds.references;
    }

-- One more.
abbrev plus_one : ℕ → (ℕ → ℕ) → ℕ → ℕ
plus_one a f x = f x + (if x == a then 1 else 0)

-- The page of the request itself, taken while the request is with the host.
taken-Holds :
    (page phys dpages n : ℕ) (d : TgReqDesc) (m p : ℕ → ℕ) (b : Build)
    → Holds dpages n d m p b
    → Holds dpages n d
        (plus_one phys m)
        (plus_one page p)
        (page_cache_get page (record b { mapped = phys ∷ b.mapped }))
taken-Holds page phys dpages n d m p b h = record {
  mappings = λ x. ground (arith, h.mappings x);
  references = λ x. ground (arith, h.references x);
}

-- And given back.
release_request-Holds :
    (k : Kernel) (phys dpages n : ℕ) (d : TgReqDesc) (m p : ℕ → ℕ) (b : Build)
    → Holds dpages n d (plus_one phys m) (plus_one (k.request_page 0) p) b
    → let c = release_request k phys b in Holds dpages n d m p c × (c.fault ≡ b.fault)
unfolding release_request
release_request-Holds k phys dpages n d m p b h =
    let page = k.request_page 0 in
    let r = page_cache_release-Releases page b (ground (arith, h.references page)) in
    let c = page_cache_release page b in
    let lists = page_cache_release-up_list page b in
    let u = pci_unmap_page-Unmaps phys c (rw r.mapped (ground (arith, h.mappings phys))) in
    let i = dpages + inline_size d.src.inline_byte_count / 8 in
    let words = u.words ∙ r.words in
    (
      record {
        mappings = λ x. omega (
          arith,
          u.less x,
          h.mappings x,
          ap (count x) r.mapped,
          ap (λ w. in_words x w 0 dpages) words,
          ap (λ w. in_buffers x w i (take n d.sbuf)) words,
        );
        references = λ x. omega (
          arith,
          r.less x,
          h.references x,
          ap (count x) u.pinned,
          ap (λ us. pages_of us x) (u.up_list ∙ lists),
        );
      },
      u.fault ∙ r.fault,
    )

unmapped-Left :
    (status dpages n : ℕ) (d : TgReqDesc) (m p : ℕ → ℕ) (b : Build) (fault : Bool)
    → b.fault ≡ fault
    → Holds dpages n d m p b
    → Left m p fault (tg_req_unmap_pages status dpages n d b).1
unmapped-Left status dpages n d m p b fault same own =
    let l = tg_req_unmap_pages-Left status dpages n d m p b own in
    record {
      mappings = l.mappings;
      references = l.references;
      no_more_fault = l.no_more_fault ∙ same;
    }

-- The call returned 0 with the status of the host, and left no more than this.
Ended : Host → (ℕ → ℕ) → (ℕ → ℕ) → Bool → Option (ℤ × TgReqDesc × Build) → Type 0
Ended h m p fault out =
    (e : TgReqDesc) × (c : Build) × (out ≡ some (pos 0, e, c))
    × (e.src.status ≡ h.status)
    × Left m p fault c

module _ (k : Kernel) (h : Host) (d : TgReqDesc) (dpages : ℕ) (m p : ℕ → ℕ)
    (keeps : KeepsPages h d dpages) where
  submitted-Ended :
      (restart : Bool) (ret : ℕ) (b : Build)
      → Holds dpages (length d.sbuf) d m p b
      → k.map_page b (k.request_page 0) ≢ 0
      → submit_loop k restart h.answers ≡ some ret
      → Ended h m p b.fault
          (sync_submitted k h dpages d (tg_req_submit k restart h.answers h.locked b))
  unfolding Ended sync_submitted tg_req_submit tg_req_destroy
  submitted-Ended restart ret b holds live answered =
      let page = k.request_page 0 in
      let phys = k.map_page b page in
      let none_zero : (phys == 0) ≡ false = ground (arith, live) in
      let last = if ret == tg_status_pending then h.locked else ret in
      let c = page_cache_get page (record b { mapped = phys ∷ b.mapped }) in
      let taken = taken-Holds page phys dpages (length d.sbuf) d m p b holds in
      let (free, ff) = release_request-Holds k phys dpages (length d.sbuf) d m p c taken in
      rw (none_zero, answered)
        (elim (Bool-cases (last == tg_status_pending)) [
          | inl pending ↦
              let w = record c { words = h.memory c.words } in
              let (done, f) =
                release_request-Holds k phys dpages (length d.sbuf) d m p w
                  (answered_Holds h d dpages (plus_one phys m) (plus_one page p) c keeps taken) in
              rw (none_zero, pending)
                (
                  _,
                  _,
                  refl,
                  refl,
                  unmapped-Left h.status dpages (length d.sbuf) d m p (release_request k phys w)
                      b.fault f done,
                )
          | inr ready ↦
              let z = release_request k phys c in
              rw (none_zero, ready)
                (
                  _,
                  _,
                  refl,
                  refl,
                  unmapped-Left h.status dpages (length d.sbuf) d m p
                      (record z { words = h.memory z.words }) b.fault ff
                      (answered_Holds h d dpages m p z keeps free),
                )
        ])

created-Ended :
    (k : Kernel) (h : Host) (d : TgReqDesc) (dpages : ℕ) (m p : ℕ → ℕ) (fault : Bool)
    (r : Option ℕ × Build)
    → r.0 ≡ some dpages
    → Ended h m p fault
        (sync_submitted k h dpages d (tg_req_submit k d.restart h.answers h.locked r.1))
    → Ended h m p fault (sync_created k h d r)
unfolding sync_created
created-Ended k h d dpages m p fault (none, b) created ended = absurd (cc created)
created-Ended k h d dpages m p fault (some n, b) created ended =
    let same : dpages ≡ n = cc created in
    subst
      (λ l.
        Ended h m p fault (sync_submitted k h l d (tg_req_submit k d.restart h.answers h.locked b)))
      same ended

-- A call whose request is created, and whose first page is mapped for the device, returns 0 with the
-- status that the host gave it, and afterwards each bus address is mapped and each page is referenced
-- as often as before, with nothing given up that was not held: if get_user_pages gets no more pages
-- than it is asked for, the host leaves the page numbers as they are, and does not restart it
-- forever.
pub call_tg_sync-Left :
    (k : Kernel) (h : Host) (d : TgReqDesc) (dst dpages ret : ℕ) (b : Build)
    → GetsAtMost k
    → (tg_req_create k d true true dst b).0 ≡ some dpages
    → ((c : Build) → k.map_page c (k.request_page 0) ≢ 0)
    → KeepsPages h d dpages
    → submit_loop k d.restart h.answers ≡ some ret
    → (e : TgReqDesc) × (c : Build) × (call_tg_sync k h d true true dst b ≡ some (pos 0, e, c))
      × (e.src.status ≡ h.status)
      × Left (λ x. count x b.mapped) (λ x. count x b.pinned) b.fault c
unfolding call_tg_sync sync_created Ended
call_tg_sync-Left k h d dst dpages ret b few created live keeps answered =
    let m = λ (x : ℕ). count x b.mapped in
    let p = λ (x : ℕ). count x b.pinned in
    let r = tg_req_create k d true true dst b in
    let (holds, same) = tg_req_create-Holds k few d true true dst b dpages created in
    created-Ended k h d dpages m p b.fault r created (
      subst
        (λ f.
          Ended h m p f
            (sync_submitted k h dpages d (tg_req_submit k d.restart h.answers h.locked r.1)))
        same (submitted-Ended k h d dpages m p keeps d.restart ret r.1 holds (live r.1) answered))

-- When the first page of a request cannot be mapped for the device, tg_req_submit reports it as
-- cancelled, but gives up the mapping at address 0: if there is none, that is a fault, and if the
-- page is referenced, one reference that it has not taken is gone.
pub tg_req_submit-unmapped :
    (k : Kernel) (restart : Bool) (answers : List ℕ) (locked : ℕ) (b : Build)
    → k.map_page b (k.request_page 0) ≡ 0
    → count 0 b.mapped ≡ 0
    → (c : Build) × (tg_req_submit k restart answers locked b ≡ some (tg_status_cancelled, 0, c))
      × (c.fault ≡ true)
      × (count (k.request_page 0) c.pinned ≡ count (k.request_page 0) b.pinned - 1)
unfolding tg_req_submit release_request page_cache_release pci_unmap_page
tg_req_submit-unmapped k restart answers locked b failed free =
    let page = k.request_page 0 in
    (release_request k 0 b, rw failed refl, ground (arith, free), count-delete_self page b.pinned)
