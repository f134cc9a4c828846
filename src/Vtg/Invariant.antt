-- ===== src/Vtg/Invariant.antt =====
-- The invariant of the drawables, and what its parts do through a change of the table or of a count.
use prl_tools.Base.{
  refl, count-delete_ne, count-delete_self, delete, ◌∙◌, ℕ, ◌+◌, ◌≤◌, ◌<◌, ◌≡◌, false, Option, none,
  some, ◌==◌, if◌then◌else◌, arith, count, Bool-cases, inl, inr,
}
use prl_tools.Vtg.{
  Entry, Vtg, vtg_hash_size, update, find_entry, set_entry, delete_entry, bucket, set_bucket,
  vtg_buffer_put, holding, released,
}
use prl_tools.Vtg.Refs.{
  points, total_refs, total_refs-update, refs-delete_entry, refs-set_entry, Counted,
  vtg_buffer_put-Counted, vtg_buffer_put-fault, vtg_buffer_put-frame,
}
use prl_tools.Vtg.Entries.{
  ids, find_entry-delete_self, find_entry-delete_ne, ids-delete_entry, find_entry-set_self,
  find_entry-set_ne, ids-set_entry,
}

abbrev pub owns : Option Entry → ℕ → ℕ
owns none fp = 0
owns (some p) fp = if p.filp == fp then 1 else 0

module _ (hash : ℕ → ℕ) where
  -- An id has at most one entry. It is in the list of the file that the entry names and in no other,
  -- but for the creations and destructions of the file that are between their two sections; a creation
  -- there has its entry in the table.
  pub record Listed (s : Vtg) (id : ℕ) : Type 0 where
    pub unique : ids id (bucket hash s id) ≤ 1
    pub lists :
        (fp : ℕ)
        → count id (s.hash_list fp) + count id (s.adding fp)
          ≡ owns (find_entry id (bucket hash s id)) fp + count id (s.dropping fp)
    pub added : (fp : ℕ) → count id (s.adding fp) ≤ owns (find_entry id (bucket hash s id)) fp

  pub record Inv (s : Vtg) : Type 0 where
    pub counted : (b : ℕ) → Counted s 0 b
    pub listed : (id : ℕ) → Listed s id
    pub no_fault : s.fault ≡ false

  -- An entry leaves the table and the list of its file.
  pub destroy-Listed :
      (fp id : ℕ) (s : Vtg) (j : ℕ) (p : Entry)
      → find_entry id (bucket hash s id) ≡ some p
      → p.filp ≡ fp
      → count id (s.adding fp) ≡ 0
      → 0 < count id (s.hash_list fp)
      → Listed s id
      → Listed s j
      → Listed
          (set_bucket hash
            (record s { hash_list = update s.hash_list fp (delete id (s.hash_list fp)) })
            id
            (delete_entry id (bucket hash s id)))
          j
  destroy-Listed fp id s j p found mine none_added there own v = record {
    unique = ground (arith, v.unique, ids-delete_entry id j (bucket hash s id));
    lists = λ f. elim (Bool-cases (j == id)) [
      | inl same ↦ ground (
        arith,
        own.lists f,
        own.unique,
        there,
        find_entry-delete_self id (bucket hash s id),
        count-delete_self id (s.hash_list fp),
      )
      | inr apart ↦ ground (
        arith,
        v.lists f,
        find_entry-delete_ne id j (bucket hash s id),
        count-delete_ne id j (s.hash_list fp),
      )
    ];
    added = λ f. elim (Bool-cases (j == id)) [
      | inl same ↦
          ground (
            arith,
            own.added f,
            none_added,
            own.unique,
            find_entry-delete_self id (bucket hash s id),
          )
      | inr apart ↦ ground (arith, v.added f, find_entry-delete_ne id j (bucket hash s id))
    ];
  }

  pub set_entry-Listed :
      (id : ℕ) (s : Vtg) (p q : Entry) (j : ℕ)
      → find_entry id (bucket hash s id) ≡ some p
      → q.id ≡ id
      → q.filp ≡ p.filp
      → Listed s j
      → Listed (set_bucket hash s id (set_entry q (bucket hash s id))) j
  set_entry-Listed id s p q j found same filp v = record {
    unique = ground (arith, v.unique, ids-set_entry q j (bucket hash s id));
    lists = λ f. ground (
      arith,
      v.lists f,
      find_entry-set_self q (bucket hash s id) p,
      find_entry-set_ne q j (bucket hash s id),
    );
    added = λ f. ground (
      arith,
      v.added f,
      find_entry-set_self q (bucket hash s id) p,
      find_entry-set_ne q j (bucket hash s id),
    );
  }

  pub put-Inv :
      (vb : Option ℕ) (s : Vtg)
      → ((b : ℕ) → Counted s (points vb b) b)
      → ((j : ℕ) → Listed s j)
      → s.fault ≡ false
      → Inv (vtg_buffer_put vb s)
  put-Inv vb s c l f =
      let (table, list, _, _, _, adding, dropping) = vtg_buffer_put-frame vb s in
      record {
        counted = λ b. vtg_buffer_put-Counted vb s b (c b);
        listed = λ j. record {
          unique = rw table (l j).unique;
          lists = rw (table, list, adding, dropping) (l j).lists;
          added = rw (table, adding) (l j).added;
        };
        no_fault = vtg_buffer_put-fault vb s c ∙ f;
      }

  -- A reference that is taken out of the table is held.
  pub holding-Inv :
      (vb : Option ℕ) (s : Vtg)
      → ((b : ℕ) → Counted s (points vb b) b)
      → ((j : ℕ) → Listed s j)
      → s.fault ≡ false
      → Inv (holding vb s)
  holding-Inv none s c l f = record { counted = λ b. c b; listed = l; no_fault = f }
  holding-Inv (some a) s c l f = record {
    counted = λ b. record { counts = ground (arith, (c b).counts); alive = (c b).alive };
    listed = λ j. record { unique = (l j).unique; lists = (l j).lists; added = (l j).added };
    no_fault = f;
  }

  released-Counted :
      (vb : Option ℕ) (s : Vtg) (b : ℕ)
      → points vb b ≤ count b s.held
      → Counted s 0 b
      → Counted (released vb s) (points vb b) b
  released-Counted none s b h v = v
  released-Counted (some a) s b h v = record {
    counts = ground (arith, h, v.counts, count-delete_self a s.held, count-delete_ne a b s.held);
    alive = v.alive;
  }

  released-frame :
      (vb : Option ℕ) (s : Vtg) → ((j : ℕ) → Listed s j) → (j : ℕ) → Listed (released vb s) j
  released-frame none s l j = l j
  released-frame (some a) s l j = record {
    unique = (l j).unique;
    lists = (l j).lists;
    added = (l j).added;
  }

  released-fault : (vb : Option ℕ) (s : Vtg) → (released vb s).fault ≡ s.fault
  released-fault none s = refl
  released-fault (some a) s = refl

  -- A reference that is held is given up.
  pub put_held-Inv :
      (vb : Option ℕ) (s : Vtg)
      → ((b : ℕ) → points vb b ≤ count b s.held)
      → Inv s
      → Inv (vtg_buffer_put vb (released vb s))
  put_held-Inv vb s holds v =
      put-Inv vb _ (λ b. released-Counted vb s b (holds b) (v.counted b))
        (λ j. released-frame vb s v.listed j) (released-fault vb s ∙ v.no_fault)

  module _ (hash_small : (id : ℕ) → hash id < vtg_hash_size) where
    pub delete_entry-Counted :
        (id : ℕ) (s : Vtg) (b : ℕ) (p : Entry)
        → find_entry id (bucket hash s id) ≡ some p
        → Counted s 0 b
        → Counted (set_bucket hash s id (delete_entry id (bucket hash s id))) (points p.buffer b) b
    delete_entry-Counted id s b p found v = record {
      counts = ground (
        arith,
        v.counts,
        refs-delete_entry b id (bucket hash s id) p found,
        total_refs-update b vtg_hash_size (hash id) s.hashtable (delete_entry id (bucket hash s id))
            (hash_small id),
      );
      alive = v.alive;
    }

    pub total_refs-set_entry :
        (id : ℕ) (s : Vtg) (b : ℕ) (p q : Entry)
        → find_entry id (bucket hash s id) ≡ some p
        → q.id ≡ id
        → total_refs b vtg_hash_size
              (set_bucket hash s id (set_entry q (bucket hash s id))).hashtable
            + points p.buffer b
          ≡ total_refs b vtg_hash_size s.hashtable + points q.buffer b
    total_refs-set_entry id s b p q found same = ground (
      arith,
      refs-set_entry b q (bucket hash s id) p,
      total_refs-update b vtg_hash_size (hash id) s.hashtable (set_entry q (bucket hash s id))
          (hash_small id),
    )
