-- ===== src/Vtg/Drawables.antt =====
-- The invariant through the sections of creating and of destroying a drawable.
use prl_tools.Base.{
  count-delete_ne, count-delete_self, delete, ℕ, ◌≤◌, ◌<◌, ◌≡◌, Bool, true, false, Option, none,
  some, ◌∷◌, ◌==◌, arith, count, Option-cases, Bool-cases, inl, inr,
}
use prl_tools.Vtg.{
  Entry, Vtg, vtg_hash_size, update, find_entry, delete_entry, bucket, set_bucket, create_insert,
  create_list, destroy_unlink, destroy_free,
}
use prl_tools.Vtg.Refs.{points, total_refs-update, Counted}
use prl_tools.Vtg.Entries.{
  find_entry-none, find_entry-delete_self, find_entry-delete_ne, ids-delete_entry,
}
use prl_tools.Vtg.Invariant.{Listed, Inv, holding-Inv, put_held-Inv, delete_entry-Counted}

module _ (hash : ℕ → ℕ) where
  insert-Listed :
      (fp id : ℕ) (s : Vtg) (j : ℕ)
      → find_entry id (bucket hash s id) ≡ none
      → Listed hash s id
      → Listed hash s j
      → Listed hash (create_insert hash true fp id s).1 j
  unfolding create_insert find_entry
  insert-Listed fp id s j new own v =
      rw (new, create_insert)
        (record {
          unique = ground (arith, find_entry-none id (bucket hash s id), v.unique);
          lists = λ f. ground (arith, own.lists f, v.lists f);
          added = λ f. ground (arith, own.added f, v.added f);
        })

  pub list-Inv :
      (fp id : ℕ) (s : Vtg)
      → 0 < count id (s.adding fp)
      → Inv hash s
      → Inv hash (create_list fp id s)
  list-Inv fp id s under_way v = record {
    counted = λ b. record { counts = (v.counted b).counts; alive = (v.counted b).alive };
    listed = λ j. record {
      unique = (v.listed j).unique;
      lists = λ f. ground (
        arith,
        (v.listed j).lists f,
        under_way,
        count-delete_self id (s.adding fp),
        count-delete_ne id j (s.adding fp),
      );
      added = λ f. ground (
        arith,
        (v.listed j).added f,
        under_way,
        count-delete_self id (s.adding fp),
        count-delete_ne id j (s.adding fp),
      );
    };
    no_fault = v.no_fault;
  }

  -- An entry leaves the table, and the destruction is under way.
  unlink-Listed :
      (fp id : ℕ) (s : Vtg) (j : ℕ) (p : Entry)
      → find_entry id (bucket hash s id) ≡ some p
      → p.filp ≡ fp
      → count id (s.adding fp) ≡ 0
      → Listed hash s id
      → Listed hash s j
      → Listed hash
          (set_bucket hash
            (record s { dropping = update s.dropping fp (id ∷ s.dropping fp) })
            id
            (delete_entry id (bucket hash s id)))
          j
  unlink-Listed fp id s j p found mine none_added own v = record {
    unique = ground (arith, v.unique, ids-delete_entry id j (bucket hash s id));
    lists = λ f. elim (Bool-cases (j == id)) [
      | inl same ↦
          ground (arith, own.lists f, own.unique, find_entry-delete_self id (bucket hash s id))
      | inr apart ↦ ground (arith, v.lists f, find_entry-delete_ne id j (bucket hash s id))
    ];
    added = λ f. elim (Bool-cases (j == id)) [
      | inl same ↦
          ground (
            arith,
            own.added f,
            none_added,
            own.unique,
            find_entry-delete_self id (bucket hash s id),
          )
      | inr apart ↦ ground (arith, v.added f, find_entry-delete_ne id j (bucket hash s id))
    ];
  }

  drop-Inv :
      (fp id : ℕ) (s : Vtg)
      → 0 < count id (s.dropping fp)
      → Inv hash s
      → Inv hash (record s {
        hash_list = update s.hash_list fp (delete id (s.hash_list fp));
        dropping = update s.dropping fp (delete id (s.dropping fp));
      })
  drop-Inv fp id s under_way v = record {
    counted = λ b. record { counts = (v.counted b).counts; alive = (v.counted b).alive };
    listed = λ j. record {
      unique = (v.listed j).unique;
      lists = λ f. ground (
        arith,
        (v.listed j).lists f,
        (v.listed j).added f,
        under_way,
        count-delete_self id (s.dropping fp),
        count-delete_ne id j (s.dropping fp),
        count-delete_self id (s.hash_list fp),
        count-delete_ne id j (s.hash_list fp),
      );
      added = (v.listed j).added;
    };
    no_fault = v.no_fault;
  }

  pub free-Inv :
      (fp id : ℕ) (vb : Option ℕ) (s : Vtg)
      → 0 < count id (s.dropping fp)
      → ((b : ℕ) → points vb b ≤ count b s.held)
      → Inv hash s
      → Inv hash (destroy_free fp id vb s)
  unfolding destroy_free
  free-Inv fp id vb s under_way holds v =
      put_held-Inv hash vb _ holds (drop-Inv fp id s under_way v)

  module _ (hash_small : (id : ℕ) → hash id < vtg_hash_size) where
    insert-Counted :
        (fp id : ℕ) (s : Vtg) (b : ℕ)
        → find_entry id (bucket hash s id) ≡ none
        → Counted s 0 b
        → Counted (create_insert hash true fp id s).1 0 b
    unfolding create_insert
    insert-Counted fp id s b new v =
        let vhe : Entry = record { id = id; used = 0; filp = fp; buffer = none } in
        rw (new, create_insert)
          (record {
            counts = ground (
              arith,
              v.counts,
              total_refs-update b vtg_hash_size (hash id) s.hashtable (vhe ∷ bucket hash s id)
                  (hash_small id),
            );
            alive = v.alive;
          })

    pub insert-Inv :
        (room : Bool) (fp id : ℕ) (s : Vtg)
        → Inv hash s
        → Inv hash (create_insert hash room fp id s).1
    unfolding create_insert
    insert-Inv false fp id s v = v
    insert-Inv true fp id s v = elim (Option-cases (find_entry id (bucket hash s id))) [
      | inr (p, old) ↦ rw (old, create_insert) v
      | inl new ↦ record {
        counted = λ b. insert-Counted fp id s b new (v.counted b);
        listed = λ j. insert-Listed fp id s j new (v.listed id) (v.listed j);
        no_fault = rw (new, create_insert) v.no_fault;
      }
    ]

    pub unlink-Inv :
        (fp id : ℕ) (s : Vtg)
        → count id (s.adding fp) ≡ 0
        → Inv hash s
        → Inv hash (destroy_unlink hash fp id s).2
    unfolding destroy_unlink
    unlink-Inv fp id s none_added v = elim (Option-cases (find_entry id (bucket hash s id))) [
      | inl absent ↦ rw (absent, destroy_unlink) v
      | inr (p, found) ↦ elim (Bool-cases (p.filp == fp)) [
        | inr other ↦ rw (found, other, destroy_unlink) v
        | inl mine ↦
            rw (found, mine, destroy_unlink)
              (holding-Inv hash p.buffer _
                (λ b. record {
                  counts =
                      (delete_entry-Counted hash hash_small id s b p found (v.counted b)).counts;
                  alive = (v.counted b).alive;
                })
                (λ j.
                  unlink-Listed fp id s j p found (grind arith) none_added (v.listed id)
                    (v.listed j))
                v.no_fault)
      ]
    ]
