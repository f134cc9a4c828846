-- ===== src/Vtg/Release.antt =====
-- The invariant through the release of a file.
use prl_tools.Base.{
  ◌∙◌, delete, ℕ, ◌<◌, ◌≡◌, refl, Option, none, some, List, [], ◌∷◌, arith, Option-cases, inl, inr,
}
use prl_tools.Vtg.{
  Entry, Vtg, vtg_hash_size, update, find_entry, bucket, drop_entry, release_entries, release_glctx,
  prl_vtg_release_common,
}
use prl_tools.Vtg.Refs.{vtg_buffer_put-frame}
use prl_tools.Vtg.Invariant.{Inv, put-Inv, delete_entry-Counted, destroy-Listed}
use prl_tools.Vtg.Requests.{contexts-Inv}

module _ (hash : ℕ → ℕ) (hash_small : (id : ℕ) → hash id < vtg_hash_size) where
  drop_entry-Inv :
      (fp id : ℕ) (rest : List ℕ) (s : Vtg)
      → s.hash_list fp ≡ id ∷ rest
      → s.adding fp ≡ []
      → s.dropping fp ≡ []
      → Inv hash s
      → let t = record s { hash_list = update s.hash_list fp rest } in
        Inv hash (drop_entry hash (find_entry id (bucket hash t id)) id t)
  unfolding drop_entry delete find_entry
  drop_entry-Inv fp id rest s list added dropped v =
      elim (Option-cases (find_entry id (bucket hash s id))) [
        | inl absent ↦ absurd (ground (arith, list, dropped, absent, (v.listed id).lists fp))
        | inr (p, found) ↦
            let mine : p.filp ≡ fp = ground (arith, list, dropped, found, (v.listed id).lists fp) in
            let left : rest ≡ delete id (s.hash_list fp) = rw list (ground arith) in
            rw found (
              put-Inv hash p.buffer _
                (λ b.
                  let c = delete_entry-Counted hash hash_small id s b p found (v.counted b) in
                  record { counts = c.counts; alive = c.alive })
                (λ j. rw left (
                  destroy-Listed hash fp id s j p found mine (rw added refl)
                    (rw list (ground arith)) (v.listed id) (v.listed j)))
                v.no_fault)
      ]

  drop_entry-frame :
      (v : Option Entry) (id : ℕ) (s : Vtg)
      → let t = drop_entry hash v id s in
        (t.hash_list ≡ s.hash_list) × (t.adding ≡ s.adding) × (t.dropping ≡ s.dropping)
  unfolding drop_entry
  drop_entry-frame none id s = (refl, refl, refl)
  drop_entry-frame (some p) id s =
      let (_, list, _, _, _, adding, dropping) = vtg_buffer_put-frame p.buffer _ in
      (list, adding, dropping)

  pub release_entries-frame :
      (fp : ℕ) (ids : List ℕ) (s : Vtg)
      → let t = release_entries hash fp ids s in (t.adding ≡ s.adding) × (t.dropping ≡ s.dropping)
  unfolding release_entries
  release_entries-frame fp [] s = (refl, refl)
  release_entries-frame fp (id ∷ ids) s =
      let t = record s { hash_list = update s.hash_list fp ids } in
      let found = find_entry id (bucket hash t id) in
      let (adds, drops) = release_entries-frame fp ids (drop_entry hash found id t) in
      let (_, adding, dropping) = drop_entry-frame found id t in (adds ∙ adding, drops ∙ dropping)

  pub release_entries-Inv :
      (fp : ℕ) (ids : List ℕ) (s : Vtg)
      → s.hash_list fp ≡ ids
      → s.adding fp ≡ []
      → s.dropping fp ≡ []
      → Inv hash s
      → Inv hash (release_entries hash fp ids s)
        × ((release_entries hash fp ids s).hash_list fp ≡ [])
  unfolding release_entries
  release_entries-Inv fp [] s list added dropped v = (v, list)
  release_entries-Inv fp (id ∷ ids) s list added dropped v =
      let t = record s { hash_list = update s.hash_list fp ids } in
      let (lists, adding, dropping) = drop_entry-frame (find_entry id (bucket hash s id)) id t in
      release_entries-Inv fp ids _ (rw lists (ground arith)) (rw adding added) (rw dropping dropped)
        (drop_entry-Inv fp id ids s list added dropped v)

  release_glctx-Inv :
      (fp : ℕ) (ids : List ℕ) (s : Vtg) → Inv hash s → Inv hash (release_glctx fp ids s)
  unfolding release_glctx
  release_glctx-Inv fp [] s v = v
  release_glctx-Inv fp (id ∷ ids) s v =
      release_glctx-Inv fp ids _ (contexts-Inv hash hash_small _ _ s v)

  pub prl_vtg_release_common-Inv :
      (fp : ℕ) (s : Vtg)
      → s.adding fp ≡ []
      → s.dropping fp ≡ []
      → Inv hash s
      → Inv hash (prl_vtg_release_common hash fp s)
  unfolding prl_vtg_release_common
  prl_vtg_release_common-Inv fp s added dropped v =
      release_glctx-Inv fp _ _ (release_entries-Inv fp (s.hash_list fp) s refl added dropped v).0
