-- ===== src/Vtg/Window.antt =====
-- A drawable that is destroyed between the two sections of its creation.
use prl_tools.Base.{
  ℕ, ◌≡◌, refl, true, Option, none, some, List, [], ◌∷◌, arith, count, delete, pos,
}
use prl_tools.Vtg.{
  Entry, Vtg, update, find_entry, delete_entry, bucket, put_buffer, vtg_buffer_put, create_insert,
  create_list, destroy_unlink, destroy_free, drop_entry, release_entries, release_glctx,
  prl_vtg_release_common,
}

put_faulty : (vb : Option ℕ) (s : Vtg) → s.fault ≡ true → (vtg_buffer_put vb s).fault ≡ true
unfolding vtg_buffer_put put_buffer
put_faulty none s h = h
put_faulty (some b) s h = ground (arith, h)

module _ (hash : ℕ → ℕ) where
  drop_faulty :
      (v : Option Entry) (id : ℕ) (s : Vtg) → s.fault ≡ true → (drop_entry hash v id s).fault ≡ true
  unfolding drop_entry
  drop_faulty none id s h = refl
  drop_faulty (some p) id s h = put_faulty p.buffer _ h

  dangling :
      (v : Option Entry) (id : ℕ) (s : Vtg) → v ≡ none → (drop_entry hash v id s).fault ≡ true
  unfolding drop_entry
  dangling none id s absent = refl
  dangling (some p) id s absent = absurd (cc absent)

  release_faulty :
      (fp : ℕ) (ids : List ℕ) (s : Vtg)
      → s.fault ≡ true
      → (release_entries hash fp ids s).fault ≡ true
  unfolding release_entries
  release_faulty fp [] s h = h
  release_faulty fp (id ∷ ids) s h =
      release_faulty fp ids _ (drop_faulty (find_entry id (bucket hash s id)) id _ h)

  release_dangling :
      (fp id : ℕ) (ids : List ℕ) (s : Vtg)
      → find_entry id (bucket hash s id) ≡ none
      → (release_entries hash fp (id ∷ ids) s).fault ≡ true
  unfolding release_entries drop_entry
  release_dangling fp id ids s absent =
      let t = record s { hash_list = update s.hash_list fp ids } in
      release_faulty fp ids _ (dangling (find_entry id (bucket hash t id)) id t absent)

glctx_faulty :
    (fp : ℕ) (ids : List ℕ) (s : Vtg) → s.fault ≡ true → (release_glctx fp ids s).fault ≡ true
unfolding release_glctx
glctx_faulty fp [] s h = h
glctx_faulty fp (id ∷ ids) s h = glctx_faulty fp ids _ h

release_common_dangling :
    (hash : ℕ → ℕ) (fp id : ℕ) (ids : List ℕ) (s : Vtg)
    → s.hash_list fp ≡ id ∷ ids
    → find_entry id (bucket hash s id) ≡ none
    → (prl_vtg_release_common hash fp s).fault ≡ true
unfolding prl_vtg_release_common
release_common_dangling hash fp id ids s list absent =
    glctx_faulty fp _ _ (rw list (release_dangling hash fp id ids s absent))

delete-absent : (id : ℕ) (ids : List ℕ) → count id ids ≡ 0 → delete id ids ≡ ids
unfolding delete
delete-absent id [] h = refl
delete-absent id (i ∷ ids) h = ground (arith, h, delete-absent id ids)

-- When a file creates a drawable of a free id that is not in its list, and destroys it after the section of the creation under
-- vtg_hash_lock and before the one under fp->lock, both succeed, the entry is in the list of the file
-- and not in the table, and the release of the file touches freed memory.
pub destroyed_in_creation :
    (hash : ℕ → ℕ) (fp id : ℕ) (s : Vtg)
    → find_entry id (bucket hash s id) ≡ none
    → count id (s.hash_list fp) ≡ 0
    → let (ret, t) = create_insert hash true fp id s in
      let (ret', old_vb, u) = destroy_unlink hash fp id t in
      let v = create_list fp id (destroy_free fp id old_vb u) in
      (ret ≡ pos 0)
      × (ret' ≡ pos 0)
      × (find_entry id (bucket hash v id) ≡ none)
      × (v.hash_list fp ≡ id ∷ s.hash_list fp)
      × ((prl_vtg_release_common hash fp v).fault ≡ true)
unfolding create_insert destroy_unlink destroy_free find_entry delete_entry vtg_buffer_put
destroyed_in_creation hash fp id s new unlisted =
    let same = delete-absent id (s.hash_list fp) unlisted in
    rw (new, create_insert)
      (
        refl,
        ground arith,
        ground (arith, new),
        ground (arith, same),
        release_common_dangling hash fp id (s.hash_list fp) _ (ground (arith, same))
            (ground (arith, new)),
      )
