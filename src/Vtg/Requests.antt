-- ===== src/Vtg/Requests.antt =====
-- The invariant through the requests of a process.
use prl_tools.Base.{
  ℕ, ◌+◌, ◌≤◌, ◌<◌, ◌≡◌, refl, Bool, true, false, Option, none, some, List, ◌∷◌, ◌==◌, ltb,
  if◌then◌else◌, arith, count, Option-cases, Bool-cases, inl, inr, ℤ, pos, ◌==ℤ◌,
}
use prl_tools.Vtg.{
  Buffer, Entry, Vtg, vtg_hash_size, update, find_entry, set_entry, bucket, set_bucket,
  vtg_buffer_get, get_buffer, take_entry, vtg_buffer_replace, Command, begin_request, Kind, holding,
  glctx_changes, end_request, with_handle, vtg_glctx_created, vtg_glctx_destroyed, gl_command,
  gl_create_context, gl_destroy_context, other,
}
use prl_tools.Vtg.Refs.{points, total_refs, Counted, exists_of_find}
use prl_tools.Vtg.Entries.{find_entry-id}
use prl_tools.Vtg.Invariant.{Listed, Inv, put_held-Inv, set_entry-Listed, total_refs-set_entry}

-- The host has accepted a request on a context that has no inline data to read the context from.
abbrev pub reads_null : Kind → ℤ → Option ℕ → Bool
reads_null gl_create_context ret none = ret ==ℤ pos 0
reads_null gl_destroy_context ret none = ret ==ℤ pos 0
reads_null _ ret handle = false

module _ (hash : ℕ → ℕ) (hash_small : (id : ℕ) → hash id < vtg_hash_size) where
  -- One use more in the entry changes nothing else.
  used-Listed :
      (id : ℕ) (s : Vtg) (p : Entry) (j : ℕ)
      → find_entry id (bucket hash s id) ≡ some p
      → Listed hash s j
      → Listed hash
          (set_bucket hash s id (set_entry (record p { used = p.used + 1 }) (bucket hash s id)))
          j
  used-Listed id s p j found v =
      set_entry-Listed hash id s p (record p { used = p.used + 1 }) j found
        (find_entry-id id (bucket hash s id) p found) refl v

  used-total_refs :
      (id : ℕ) (s : Vtg) (p : Entry) (b : ℕ)
      → find_entry id (bucket hash s id) ≡ some p
      → total_refs b vtg_hash_size
          (set_bucket hash s id
            (set_entry (record p { used = p.used + 1 }) (bucket hash s id))).hashtable
        ≡ total_refs b vtg_hash_size s.hashtable
  used-total_refs id s p b found = omega (
    arith,
    total_refs-set_entry hash hash_small id s b p (record p { used = p.used + 1 }) found
        (find_entry-id id (bucket hash s id) p found),
  )

  get-Counted :
      (a : ℕ) (r : Buffer) (s : Vtg) (table : ℕ → List Entry) (b : ℕ)
      → s.buffers a ≡ some r
      → total_refs b vtg_hash_size table ≡ total_refs b vtg_hash_size s.hashtable
      → Counted s 0 b
      → Counted
          (record s {
            hashtable = table;
            held = a ∷ s.held;
            buffers = update s.buffers a (some (record r { refcnt = r.refcnt + 1 }));
          })
          0
          b
  get-Counted a r s table b there same v = elim (Bool-cases (b == a)) [
    | inl here ↦ record { counts = ground (arith, v.counts); alive = λ q e. ground (arith) }
    | inr apart ↦ record {
      counts = ground (arith, v.counts);
      alive = λ q e. v.alive q (ground arith);
    }
  ]

  take_of-Inv :
      (vb : Option ℕ) (i u f : ℕ) (c : Command) (s : Vtg)
      → let p : Entry = record { id = i; used = u; filp = f; buffer = vb } in
        find_entry c.id (bucket hash s c.id) ≡ some p
        → Inv hash s
        → let (vb', _, t) = take_entry hash (some p) c s in Inv hash (holding vb' t)
  unfolding take_entry vtg_buffer_get get_buffer
  take_of-Inv none i u f c s found v =
      let p : Entry = record { id = i; used = u; filp = f; buffer = none } in
      record {
        counted = λ b. record {
          counts = ground (arith, (v.counted b).counts, used-total_refs c.id s p b found);
          alive = (v.counted b).alive;
        };
        listed = λ j. used-Listed c.id s p j found (v.listed j);
        no_fault = v.no_fault;
      }
  take_of-Inv (some a) i u f c s found v =
      let p : Entry = record { id = i; used = u; filp = f; buffer = some a } in
      let (r, there) =
        exists_of_find s (hash c.id) c.id a 0 p (hash_small c.id) found refl (v.counted a) in
      rw (there, take_entry, get_buffer)
        (record {
          counted =
              λ b. get-Counted a r s _ b there (used-total_refs c.id s p b found) (v.counted b);
          listed = λ j.
              let l = used-Listed c.id s p j found (v.listed j) in
              record { unique = l.unique; lists = l.lists; added = l.added };
          no_fault = v.no_fault;
        })

  -- The request has its reference to the buffer, and the entry counts one use more.
  take_entry-Inv :
      (p : Entry) (c : Command) (s : Vtg)
      → find_entry c.id (bucket hash s c.id) ≡ some p
      → Inv hash s
      → let (vb, _, t) = take_entry hash (some p) c s in Inv hash (holding vb t)
  take_entry-Inv p c s found v = take_of-Inv p.buffer p.id p.used p.filp c s found v

  pub begin_request-Inv :
      (kind : Kind) (c : Command) (s : Vtg) → Inv hash s → Inv hash (begin_request hash kind c s).2
  unfolding begin_request vtg_buffer_replace take_entry
  begin_request-Inv gl_command c s v = elim (Bool-cases (c.buffer_count == 4)) [
    | inr few ↦ rw (few, vtg_buffer_replace) v
    | inl four ↦ elim (Bool-cases (ltb c.inline_byte_count 12)) [
      | inl short ↦ rw (four, short, vtg_buffer_replace) v
      | inr long ↦ elim (Option-cases (find_entry c.id (bucket hash s c.id))) [
        | inl absent ↦ rw (four, long, absent, vtg_buffer_replace) v
        | inr (p, found) ↦ rw (four, long, found, vtg_buffer_replace) (take_entry-Inv p c s found v)
      ]
    ]
  ]
  begin_request-Inv _ c s v = v

  pub contexts-Inv :
      (list : ℕ → List ℕ) (ids : List ℕ) (s : Vtg)
      → Inv hash s
      → Inv hash (record s { glctx_list = list; gl_destroys = ids })
  contexts-Inv list ids s v = record {
    counted = λ b. record { counts = (v.counted b).counts; alive = (v.counted b).alive };
    listed = λ j. record {
      unique = (v.listed j).unique;
      lists = (v.listed j).lists;
      added = (v.listed j).added;
    };
    no_fault = v.no_fault;
  }

  handle_changes-Inv :
      (kind : Kind) (ret : ℤ) (room : Bool) (fp handle : ℕ) (s : Vtg)
      → Inv hash s
      → Inv hash (glctx_changes kind ret room fp (some handle) s)
  unfolding glctx_changes with_handle vtg_glctx_created vtg_glctx_destroyed
  handle_changes-Inv gl_command ret room fp handle s v = v
  handle_changes-Inv other ret room fp handle s v = v
  handle_changes-Inv gl_destroy_context ret room fp handle s v =
      elim (ret ==ℤ pos 0) as (λ t. Inv hash (if t then vtg_glctx_destroyed fp handle s else s)) [
        | true ↦ contexts-Inv _ _ s v
        | false ↦ v
      ]
  handle_changes-Inv gl_create_context ret false fp handle s v =
      elim (ret ==ℤ pos 0) as (λ t. Inv hash (if t then s else s)) [ true ↦ v | false ↦ v ]
  handle_changes-Inv gl_create_context ret true fp handle s v =
      elim (ret ==ℤ pos 0)
        as (λ t. Inv hash (if t then vtg_glctx_created true fp handle s else s)) [
          | true ↦ contexts-Inv _ _ s v
          | false ↦ v
        ]

  glctx_changes-Inv :
      (kind : Kind) (ret : ℤ) (room : Bool) (fp : ℕ) (handle : Option ℕ) (s : Vtg)
      → reads_null kind ret handle ≡ false
      → Inv hash s
      → Inv hash (glctx_changes kind ret room fp handle s)
  unfolding glctx_changes
  glctx_changes-Inv kind ret room fp (some handle) s there v =
      handle_changes-Inv kind ret room fp handle s v
  glctx_changes-Inv gl_command ret room fp none s there v = v
  glctx_changes-Inv other ret room fp none s there v = v
  glctx_changes-Inv gl_create_context ret room fp none s there v = rw there v
  glctx_changes-Inv gl_destroy_context ret room fp none s there v = rw there v

  glctx_changes-held :
      (kind : Kind) (ret : ℤ) (room : Bool) (fp : ℕ) (handle : Option ℕ) (s : Vtg)
      → (glctx_changes kind ret room fp handle s).held ≡ s.held
  unfolding glctx_changes with_handle vtg_glctx_created vtg_glctx_destroyed
  glctx_changes-held gl_command ret room fp handle s = refl
  glctx_changes-held other ret room fp handle s = refl
  glctx_changes-held gl_destroy_context ret room fp handle s = ground arith
  glctx_changes-held gl_create_context ret room fp handle s = ground arith

  pub end_request-Inv :
      (kind : Kind) (ret : ℤ) (room : Bool) (fp : ℕ) (handle vb : Option ℕ) (s : Vtg)
      → reads_null kind ret handle ≡ false
      → ((b : ℕ) → points vb b ≤ count b s.held)
      → Inv hash s
      → Inv hash (end_request kind ret room fp handle vb s)
  unfolding end_request
  end_request-Inv kind ret room fp handle vb s there holds v =
      put_held-Inv hash vb (glctx_changes kind ret room fp handle s)
        (λ b. rw (glctx_changes-held kind ret room fp handle s) (holds b))
        (glctx_changes-Inv kind ret room fp handle s there v)
