-- ===== src/Vtg/Steps.antt =====
-- The histories of the module: the calls of all processes in any order, a request in two steps, around
-- its wait for the host.
use prl_tools.Base.{
  delete, ◌∙◌, ℕ, ◌+◌, ◌≤◌, ◌<◌, ◌≡◌, ◌≢◌, refl, Bool, true, false, Option, none, some, List, [],
  ◌∷◌, arith, count, ℤ, pos, neg,
}
use prl_tools.Base.Errno.{einval}
use prl_tools.Vtg.{
  delete_entry, vtg_buffer_put, Entry, Vtg, vtg_hash_size, find_entry, bucket, DrawBdesc, Command,
  Kind, create_insert, create_list, destroy_unlink, destroy_free, prl_vtg_create_drawable,
  prl_vtg_destroy_drawable, prl_vtg_clip_drawable, begin_request, end_request,
  prl_vtg_release_common, release_entries, release_glctx, drop_entry, update,
}
use prl_tools.Vtg.Refs.{points, vtg_buffer_put-frame}
use prl_tools.Vtg.Invariant.{Inv}
use prl_tools.Vtg.Drawables.{insert-Inv, list-Inv, unlink-Inv, free-Inv}
use prl_tools.Vtg.Requests.{reads_null, begin_request-Inv, end_request-Inv}
use prl_tools.Vtg.Release.{release_entries-frame, prl_vtg_release_common-Inv, release_entries-Inv}
use prl_tools.Vtg.Clip.{clip-Inv}

-- A creation and a destruction of a drawable are two steps each, and other calls come between them, also
-- those on the same file, but for two: a file destroys no drawable between the two sections of its
-- creation, and it is not released while one of its calls is between two sections. Memory that `kmalloc`
-- returns is not a buffer already, a request or a destruction that ends has its buffer since it began,
-- and the host accepts no request on a context without inline data.
pub data Step (hash : ℕ → ℕ) : Vtg → Vtg → Type 0 where
  inserts : {s : Vtg} (room : Bool) (fp id : ℕ) → Step hash s (create_insert hash room fp id s).1
  adds : {s : Vtg} (fp id : ℕ) → 0 < count id (s.adding fp) → Step hash s (create_list fp id s)
  unlinks :
      {s : Vtg} (fp id : ℕ)
      → count id (s.adding fp) ≡ 0
      → Step hash s (destroy_unlink hash fp id s).2
  frees :
      {s : Vtg} (fp id : ℕ) (old_vb : Option ℕ)
      → 0 < count id (s.dropping fp)
      → ((b : ℕ) → points old_vb b ≤ count b s.held)
      → Step hash s (destroy_free fp id old_vb s)
  clips :
      {s : Vtg} (mem : Option (ℕ × ℕ)) (room copied : Bool) (fp : ℕ) (hdr : DrawBdesc)
      → ((vb pbuf : ℕ) → mem ≡ some (vb, pbuf) → s.buffers vb ≡ none)
      → Step hash s (prl_vtg_clip_drawable hash mem room copied fp hdr s).2
  begins : {s : Vtg} (kind : Kind) (c : Command) → Step hash s (begin_request hash kind c s).2
  ends :
      {s : Vtg} (kind : Kind) (ret : ℤ) (room : Bool) (fp : ℕ) (handle vb : Option ℕ)
      → reads_null kind ret handle ≡ false
      → ((b : ℕ) → points vb b ≤ count b s.held)
      → Step hash s (end_request kind ret room fp handle vb s)
  releases :
      {s : Vtg} (fp : ℕ)
      → s.adding fp ≡ []
      → s.dropping fp ≡ []
      → Step hash s (prl_vtg_release_common hash fp s)

release_glctx_lem :
    (fp : ℕ) (ids : List ℕ) (s : Vtg)
    → s.glctx_list fp ≡ ids
    → let t = release_glctx fp ids s in
      (t.glctx_list fp ≡ [])
      × (t.hash_list ≡ s.hash_list)
      × (t.hashtable ≡ s.hashtable)
      × ((id : ℕ) → count id t.gl_destroys ≡ count id ids + count id s.gl_destroys)
unfolding release_glctx
release_glctx_lem fp [] s list = (list, refl, refl, λ id. omega arith)
release_glctx_lem fp (i ∷ ids) s list =
    let s' = record s {
      glctx_list = update s.glctx_list fp ids;
      gl_destroys = i ∷ s.gl_destroys;
    } in
    let (l, h, table, d) = release_glctx_lem fp ids s' (ground arith) in
    (l, h, table, λ id. ground (arith, d id))

drop_entry-contexts :
    (hash : ℕ → ℕ) (v : Option Entry) (id : ℕ) (s : Vtg)
    → let t = drop_entry hash v id s in
      (t.glctx_list ≡ s.glctx_list) × (t.gl_destroys ≡ s.gl_destroys)
unfolding drop_entry
drop_entry-contexts hash none id s = (refl, refl)
drop_entry-contexts hash (some p) id s =
    let (_, _, list, _, told, _, _) = vtg_buffer_put-frame p.buffer _ in (list, told)

release_entries-contexts :
    (hash : ℕ → ℕ) (fp : ℕ) (ids : List ℕ) (s : Vtg)
    → let t = release_entries hash fp ids s in
      (t.glctx_list ≡ s.glctx_list) × (t.gl_destroys ≡ s.gl_destroys)
unfolding release_entries
release_entries-contexts hash fp [] s = (refl, refl)
release_entries-contexts hash fp (id ∷ ids) s =
    let t = record s { hash_list = update s.hash_list fp ids } in
    let (l, d) =
      release_entries-contexts hash fp ids
        (drop_entry hash (find_entry id (bucket hash t id)) id t) in
    let (l', d') = drop_entry-contexts hash (find_entry id (bucket hash t id)) id t in
    (l ∙ l', d ∙ d')

pub data Reach (hash : ℕ → ℕ) (s : Vtg) : Vtg → Type 0 where
  here : Reach hash s s
  next : {t u : Vtg} → Reach hash s t → Step hash t u → Reach hash s u

module _ (hash : ℕ → ℕ) (hash_small : (id : ℕ) → hash id < vtg_hash_size) where
  step-Inv : {s t : Vtg} → Step hash s t → Inv hash s → Inv hash t
  step-Inv (inserts room fp id) v = insert-Inv hash hash_small room fp id _ v
  step-Inv (adds fp id under_way) v = list-Inv hash fp id _ under_way v
  step-Inv (unlinks fp id none_added) v = unlink-Inv hash hash_small fp id _ none_added v
  step-Inv (frees fp id old_vb under_way holds) v = free-Inv hash fp id old_vb _ under_way holds v
  step-Inv (clips mem room copied fp hdr fresh) v =
      clip-Inv hash hash_small mem room copied fp hdr _ fresh v
  step-Inv (begins kind c) v = begin_request-Inv hash hash_small kind c _ v
  step-Inv (ends kind ret room fp handle vb there holds) v =
      end_request-Inv hash hash_small kind ret room fp handle vb _ there holds v
  step-Inv (releases fp added dropped) v =
      prl_vtg_release_common-Inv hash hash_small fp _ added dropped v

  pub reach-Inv : {s t : Vtg} → Reach hash s t → Inv hash s → Inv hash t
  reach-Inv here v = v
  reach-Inv (next run step) v = step-Inv step (reach-Inv run v)

  -- Releasing a file in a state with the invariant, when none of its calls is between two sections,
  -- empties its two lists, leaves no entry of the file in the table, and tells the host to destroy each
  -- of its contexts as often as it is in the list.
  pub prl_vtg_release_common_lem :
      (fp : ℕ) (s : Vtg)
      → s.adding fp ≡ []
      → s.dropping fp ≡ []
      → Inv hash s
      → let t = prl_vtg_release_common hash fp s in
        (t.hash_list fp ≡ [])
        × (t.glctx_list fp ≡ [])
        × ((id : ℕ) (p : Entry) → find_entry id (bucket hash t id) ≡ some p → p.filp ≢ fp)
        × ((id : ℕ) → count id t.gl_destroys ≡ count id (s.glctx_list fp) + count id s.gl_destroys)
  unfolding prl_vtg_release_common
  prl_vtg_release_common_lem fp s added dropped v =
      let t = release_entries hash fp (s.hash_list fp) s in
      let (adds_left, drops_left) = release_entries-frame hash hash_small fp (s.hash_list fp) s in
      let adding : t.adding fp ≡ [] = rw adds_left added in
      let dropping : t.dropping fp ≡ [] = rw drops_left dropped in
      let (w, empty) =
        release_entries-Inv hash hash_small fp (s.hash_list fp) s refl added dropped v in
      let (contexts, told) = release_entries-contexts hash fp (s.hash_list fp) s in
      let (gone, lists, table, d) = release_glctx_lem fp (t.glctx_list fp) t refl in
      (
        rw lists empty,
        gone,
        λ id p found mine.
            ground (arith, rw table at found, (w.listed id).lists fp, empty, adding, dropping),
        λ id. ground (arith, d id, contexts, told),
      )

-- When the id is free and memory is there, creating a drawable succeeds; then a second creation of the
-- id and a destruction by another file are refused with -EINVAL and change nothing, and a destruction
-- by its file succeeds and gives back the table and the lists.
pub create_drawable-destroy_drawable :
    (hash : ℕ → ℕ) (fp id : ℕ) (s : Vtg)
    → find_entry id (bucket hash s id) ≡ none
    → let (ret, t) = prl_vtg_create_drawable hash true fp id s in
      let (ret', u) = prl_vtg_destroy_drawable hash fp id t in
      (ret ≡ pos 0)
      × ((fp' : ℕ) → prl_vtg_create_drawable hash true fp' id t ≡ (neg einval, t))
      × ((fp' : ℕ) → fp' ≢ fp → prl_vtg_destroy_drawable hash fp' id t ≡ (neg einval, t))
      × (ret' ≡ pos 0)
      × ((i : ℕ) → u.hashtable i ≡ s.hashtable i)
      × ((f : ℕ) → u.hash_list f ≡ s.hash_list f)
unfolding prl_vtg_create_drawable prl_vtg_destroy_drawable create_insert destroy_unlink destroy_free
    find_entry delete_entry delete vtg_buffer_put
create_drawable-destroy_drawable hash fp id s new =
    rw (new, create_insert)
      (
        refl,
        λ fp'. ground arith,
        λ fp' ne. ground arith,
        ground arith,
        λ i. ground arith,
        λ f. ground arith,
      )
