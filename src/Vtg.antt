-- ===== src/Vtg.antt =====
-- kmods-src/prl_vid/Video/Guest/Linux/kmod/prlvtg.c: the drawables that processes register, with the
-- clip buffers that their OpenGL commands carry, and the OpenGL contexts of a process. A `struct file`
-- and its private data are one number, a clip buffer is named by its address. A critical section under
-- `vtg_hash_lock` or `fp->lock` is one function, with what the caller does by itself before and after it;
-- creating and destroying a drawable have two sections, which other calls can come between.
pub mod Refs
pub mod Entries
pub mod Invariant
pub mod Drawables
pub mod Clip
pub mod Requests
pub mod Release
pub mod Steps
pub mod Window
mod Tests
use prl_tools.Base.{
  delete, ℕ, zero, suc, ◌+◌, ◌-◌, Bool, true, false, Option, none, some, List, [], ◌∷◌, ◌==◌, ltb,
  if◌then◌else◌, ℤ, pos, neg, ◌==ℤ◌,
}
use Prim.Native.Nat.{bit_or}
use prl_tools.Toolgate.Wire.{TgBuffer}
use prl_tools.Base.Errno.{enomem, einval, efault}

abbrev pub vtg_hash_size : ℕ
vtg_hash_size = 16

-- `struct vtg_buffer`; its contents stay with the host.
pub record Buffer : Type 0 where
  pub refcnt : ℕ
  pub id : ℕ
  pub pbuf : ℕ
  pub bsize : ℕ

-- `struct vtg_hash_entry`.
pub record Entry : Type 0 where
  pub id : ℕ
  pub used : ℕ
  pub filp : ℕ
  pub buffer : Option ℕ

-- The table, the lists of each file, the memory, the buffers that requests and destructions under way
-- hold, and whether freed memory was touched. For each file `adding` has the ids of creations that have
-- put an entry into the table and not yet into the list of the file, `dropping` those of destructions
-- that have taken it out of the table and not yet out of the list.
pub record Vtg : Type 0 where
  pub hashtable : ℕ → List Entry
  pub hash_list : ℕ → List ℕ
  pub adding : ℕ → List ℕ
  pub dropping : ℕ → List ℕ
  pub glctx_list : ℕ → List ℕ
  pub buffers : ℕ → Option Buffer
  pub held : List ℕ
  -- the contexts that `vtg_glctx_destroy` told the host to destroy, newest first
  pub gl_destroys : List ℕ
  pub fault : Bool

abbrev pub update {ℓ} : {A : Type ℓ} → (ℕ → A) → ℕ → A → ℕ → A
update f i a j = if j == i then a else f j

-- The walk along a bucket to the first entry with the id.
pub find_entry : ℕ → List Entry → Option Entry
find_entry id [] = none
find_entry id (e ∷ es) = if e.id == id then some e else find_entry id es

pub set_entry : Entry → List Entry → List Entry
set_entry e [] = []
set_entry e (x ∷ es) = if x.id == e.id then e ∷ es else x ∷ set_entry e es

-- `list_del(&p->hash_list)`
pub delete_entry : ℕ → List Entry → List Entry
delete_entry id [] = []
delete_entry id (e ∷ es) = if e.id == id then es else e ∷ delete_entry id es

abbrev set_buffer : Vtg → ℕ → Option Buffer → Vtg
set_buffer s b v = record s { buffers = update s.buffers b v }

-- `atomic_dec_and_test`, and the two `kfree`.
put_buffer : ℕ → Option Buffer → Vtg → Vtg
put_buffer b none s = record s { fault = true }
put_buffer b (some r) s =
    set_buffer s b (if r.refcnt == 1 then none else some (record r { refcnt = r.refcnt - 1 }))

pub vtg_buffer_put : Option ℕ → Vtg → Vtg
unfolding put_buffer
vtg_buffer_put none s = s
vtg_buffer_put (some b) s = put_buffer b (s.buffers b) s

get_buffer : ℕ → Option Buffer → Vtg → Vtg
get_buffer b none s = record s { fault = true }
get_buffer b (some r) s = set_buffer s b (some (record r { refcnt = r.refcnt + 1 }))

pub vtg_buffer_get : Option ℕ → Vtg → Vtg
unfolding get_buffer
vtg_buffer_get none s = s
vtg_buffer_get (some b) s = get_buffer b (s.buffers b) s

-- `struct draw_bdesc` as it comes from the caller.
pub record DrawBdesc : Type 0 where
  pub id : ℕ
  pub bsize : ℕ
  pub used : ℕ

-- The part of a request that `vtg_buffer_replace` reads and writes; `id` is the third word of its
-- inline data.
pub record Command : Type 0 where
  pub buffer_count : ℕ
  pub inline_byte_count : ℕ
  pub id : ℕ
  pub sbuf : List TgBuffer
  pub kernel_bufs : ℕ

-- A write to `sdesc->sbuf[i]`; out of range it would be one past the allocation.
pub set : List TgBuffer → ℕ → TgBuffer → List TgBuffer
set [] i b = []
set (x ∷ xs) zero b = b ∷ xs
set (x ∷ xs) (suc i) b = x ∷ set xs i b

replaced : Option Buffer → Command → Command
replaced none c = c
replaced (some r) c = record c {
  sbuf = set c.sbuf 3 (record { va = r.pbuf; byte_count = r.bsize; writable = 0 });
  kernel_bufs = bit_or c.kernel_bufs 8;
}

-- A buffer that a request or a destruction under way uses.
abbrev holding : Option ℕ → Vtg → Vtg
holding none s = s
holding (some b) s = record s { held = b ∷ s.held }

abbrev released : Option ℕ → Vtg → Vtg
released none s = s
released (some b) s = record s { held = delete b s.held }

-- `kmalloc` of the structure.
pub vtg_glctx_created : Bool → ℕ → ℕ → Vtg → Vtg
vtg_glctx_created false fp id s = s
vtg_glctx_created true fp id s = record s {
  glctx_list = update s.glctx_list fp (id ∷ s.glctx_list fp);
}

pub vtg_glctx_destroyed : ℕ → ℕ → Vtg → Vtg
vtg_glctx_destroyed fp id s = record s {
  glctx_list = update s.glctx_list fp (delete id (s.glctx_list fp));
}

-- The second loop of `prl_vtg_release_common`.
pub release_glctx : ℕ → List ℕ → Vtg → Vtg
release_glctx fp [] s = s
release_glctx fp (id ∷ ids) s =
    release_glctx fp ids
      (record s { glctx_list = update s.glctx_list fp ids; gl_destroys = id ∷ s.gl_destroys })

-- The requests that matter here.
pub data Kind : Type 0 where
  gl_command gl_create_context gl_destroy_context other : Kind

-- After `call_tg_sync` returned `ret`. `handle` is the context in the inline data, `none` if there are
-- none, and `sdesc.idata` is `NULL`.
with_handle : (ℕ → Vtg → Vtg) → Option ℕ → Vtg → Vtg
with_handle change none s = record s { fault = true }
with_handle change (some handle) s = change handle s

glctx_changes : Kind → ℤ → Bool → ℕ → Option ℕ → Vtg → Vtg
unfolding with_handle
glctx_changes gl_create_context ret room fp handle s =
    if ret ==ℤ pos 0 then with_handle (vtg_glctx_created room fp) handle s else s
glctx_changes gl_destroy_context ret room fp handle s =
    if ret ==ℤ pos 0 then with_handle (vtg_glctx_destroyed fp) handle s else s
glctx_changes _ ret room fp handle s = s

-- `prl_vtg_user_to_host_request` from there to `complete`.
pub end_request : Kind → ℤ → Bool → ℕ → Option ℕ → Option ℕ → Vtg → Vtg
unfolding glctx_changes
end_request kind ret room fp handle vb s =
    vtg_buffer_put vb (released vb (glctx_changes kind ret room fp handle s))

-- The section of `prl_vtg_create_drawable` under `fp->lock`.
abbrev pub create_list : ℕ → ℕ → Vtg → Vtg
create_list fp id s = record s {
  hash_list = update s.hash_list fp (id ∷ s.hash_list fp);
  adding = update s.adding fp (delete id (s.adding fp));
}

-- `prl_vtg_destroy_drawable` from its section under `fp->lock` on. An entry is known by its id: where a
-- list has an id twice, one of the two is taken out.
pub destroy_free : ℕ → ℕ → Option ℕ → Vtg → Vtg
destroy_free fp id old_vb s = vtg_buffer_put old_vb (
    released old_vb (record s {
      hash_list = update s.hash_list fp (delete id (s.hash_list fp));
      dropping = update s.dropping fp (delete id (s.dropping fp));
    }))

-- `hash_ptr` belongs to the kernel.
module _ (hash : ℕ → ℕ) where
  abbrev pub bucket : Vtg → ℕ → List Entry
  bucket s id = s.hashtable (hash id)

  abbrev set_bucket : Vtg → ℕ → List Entry → Vtg
  set_bucket s id es = record s { hashtable = update s.hashtable (hash id) es }

  -- The section of `prl_vtg_create_drawable` under `vtg_hash_lock`; `vhe` tells whether `kmalloc`
  -- succeeds.
  pub create_insert : Bool → ℕ → ℕ → Vtg → ℤ × Vtg
  create_insert false fp id s = (neg enomem, s)
  create_insert true fp id s = elim (find_entry id (bucket s id)) [
    | some p ↦ (neg einval, s)
    | none ↦
        let vhe : Entry = record { id = id; used = 0; filp = fp; buffer = none } in
        let t : Vtg = set_bucket s id (vhe ∷ bucket s id) in
        (pos 0, record t { adding = update t.adding fp (id ∷ t.adding fp) })
  ]

  pub prl_vtg_create_drawable : Bool → ℕ → ℕ → Vtg → ℤ × Vtg
  unfolding create_insert
  prl_vtg_create_drawable vhe fp id s =
      let (ret, t) = create_insert vhe fp id s in
      if ret ==ℤ pos 0 then (ret, create_list fp id t) else (ret, t)

  -- The section of `prl_vtg_destroy_drawable` under `vtg_hash_lock`, with `old_vb`.
  pub destroy_unlink : ℕ → ℕ → Vtg → ℤ × Option ℕ × Vtg
  destroy_unlink fp id s = elim (find_entry id (bucket s id)) [
    | none ↦ (neg einval, none, s)
    | some p ↦
        let t : Vtg = set_bucket s id (delete_entry id (bucket s id)) in
        let u : Vtg = record t { dropping = update t.dropping fp (id ∷ t.dropping fp) } in
        if p.filp == fp then (pos 0, p.buffer, holding p.buffer u) else (neg einval, none, s)
  ]

  pub prl_vtg_destroy_drawable : ℕ → ℕ → Vtg → ℤ × Vtg
  unfolding destroy_unlink
  prl_vtg_destroy_drawable fp id s =
      let (ret, old_vb, t) = destroy_unlink fp id s in
      if ret ==ℤ pos 0 then (ret, destroy_free fp id old_vb t) else (ret, t)

  -- `vb` is the address of the new buffer, `none` if `kmalloc` fails, `pbuf` that of its bytes, and
  -- `copied` tells whether they could be read from the caller.
  clip_entry : ℕ → ℕ → ℕ → DrawBdesc → Option Entry → Vtg → ℤ × DrawBdesc × Vtg
  clip_entry vb pbuf fp hdr none s = (neg einval, record hdr { used = 0 }, s)
  clip_entry vb pbuf fp hdr (some p) s =
      if p.filp == fp
      then (
        pos 0,
        record hdr { used = p.used },
        vtg_buffer_put p.buffer (
            set_buffer
              (set_bucket s hdr.id
                (set_entry (record p { buffer = some vb; used = 0 }) (bucket s hdr.id)))
              vb (some (record { refcnt = 1; id = hdr.id; pbuf = pbuf; bsize = hdr.bsize }))),
      )
      else (neg einval, record hdr { used = 0 }, s)

  pub prl_vtg_clip_drawable :
      Option (ℕ × ℕ) → Bool → Bool → ℕ → DrawBdesc → Vtg → ℤ × DrawBdesc × Vtg
  unfolding clip_entry
  prl_vtg_clip_drawable none room copied fp hdr s = (neg enomem, record hdr { used = 0 }, s)
  prl_vtg_clip_drawable (some (vb, pbuf)) room copied fp hdr s =
      if room
      then if copied
        then clip_entry vb pbuf fp hdr (find_entry hdr.id (bucket s hdr.id)) s
        else (neg efault, record hdr { used = 0 }, s)
      else (neg enomem, record hdr { used = 0 }, s)

  take_entry : Option Entry → Command → Vtg → Option ℕ × Command × Vtg
  take_entry none c s = (none, c, s)
  take_entry (some p) c s =
      let t = vtg_buffer_get p.buffer s in
      let u : Vtg =
        set_bucket t c.id (set_entry (record p { used = p.used + 1 }) (bucket t c.id)) in
      elim p.buffer [ none ↦ (none, c, u) | some b ↦ (some b, replaced (u.buffers b) c, u) ]

  pub vtg_buffer_replace : Command → Vtg → Option ℕ × Command × Vtg
  unfolding take_entry replaced set
  vtg_buffer_replace c s =
      if c.buffer_count == 4
      then if ltb c.inline_byte_count 12
        then (none, c, s)
        else take_entry (find_entry c.id (bucket s c.id)) c s
      else (none, c, s)

  -- `prl_vtg_user_to_host_request` up to `call_tg_sync`, after `prepare` has succeeded.
  pub begin_request : Kind → Command → Vtg → Option ℕ × Command × Vtg
  begin_request gl_command c s = let (vb, c', t) = vtg_buffer_replace c s in (vb, c', holding vb t)
  begin_request _ c s = (none, c, s)

  -- The first loop of `prl_vtg_release_common`, for the rest of `fp->hash_list`.
  drop_entry : Option Entry → ℕ → Vtg → Vtg
  drop_entry none id s = record s { fault = true }
  drop_entry (some p) id s =
      vtg_buffer_put p.buffer (set_bucket s id (delete_entry id (bucket s id)))

  pub release_entries : ℕ → List ℕ → Vtg → Vtg
  unfolding drop_entry
  release_entries fp [] s = s
  release_entries fp (id ∷ ids) s =
      let t : Vtg = record s { hash_list = update s.hash_list fp ids } in
      release_entries fp ids (drop_entry (find_entry id (bucket t id)) id t)

  pub prl_vtg_release_common : ℕ → Vtg → Vtg
  prl_vtg_release_common fp s =
      let t = release_entries fp (s.hash_list fp) s in release_glctx fp (t.glctx_list fp) t
