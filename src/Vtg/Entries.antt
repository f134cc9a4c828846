-- ===== src/Vtg/Entries.antt =====
-- The walks along a bucket.
use prl_tools.Base.{
  ℕ, ◌+◌, ◌≤◌, ◌≡◌, ◌≢◌, refl, none, some, List, [], ◌∷◌, ◌==◌, if◌then◌else◌, arith,
}
use prl_tools.Vtg.{Entry, find_entry, set_entry, delete_entry}

-- The entries of a bucket with the id.
abbrev pub ids : ℕ → List Entry → ℕ
ids id [] = 0
ids id (e ∷ es) = (if e.id == id then 1 else 0) + ids id es

pub find_entry-none : (id : ℕ) (es : List Entry) → find_entry id es ≡ none → ids id es ≡ 0
unfolding find_entry
find_entry-none id [] h = refl
find_entry-none id (e ∷ es) h = ground (arith, find_entry-none id es)

ids_zero : (id : ℕ) (es : List Entry) → ids id es ≡ 0 → find_entry id es ≡ none
unfolding find_entry
ids_zero id [] h = refl
ids_zero id (e ∷ es) h = ground (arith, ids_zero id es)

pub find_entry-id : (id : ℕ) (es : List Entry) (p : Entry) → find_entry id es ≡ some p → p.id ≡ id
unfolding find_entry
find_entry-id id [] p h = cc
find_entry-id id (e ∷ es) p h = ground (arith, find_entry-id id es p)

pub find_entry-delete_self :
    (id : ℕ) (es : List Entry) → ids id es ≤ 1 → find_entry id (delete_entry id es) ≡ none
unfolding find_entry delete_entry
find_entry-delete_self id [] h = refl
find_entry-delete_self id (e ∷ es) h = ground (arith, find_entry-delete_self id es, ids_zero id es)

pub find_entry-delete_ne :
    (id j : ℕ) (es : List Entry) → j ≢ id → find_entry j (delete_entry id es) ≡ find_entry j es
unfolding find_entry delete_entry
find_entry-delete_ne id j [] h = refl
find_entry-delete_ne id j (e ∷ es) h = ground (arith, find_entry-delete_ne id j es)

pub ids-delete_entry : (id j : ℕ) (es : List Entry) → ids j (delete_entry id es) ≤ ids j es
unfolding delete_entry
ids-delete_entry id j [] = omega arith
ids-delete_entry id j (e ∷ es) = ground (arith, ids-delete_entry id j es)

pub find_entry-set_self :
    (q : Entry) (es : List Entry) (p : Entry)
    → find_entry q.id es ≡ some p
    → find_entry q.id (set_entry q es) ≡ some q
unfolding find_entry set_entry
find_entry-set_self q [] p h = cc
find_entry-set_self q (e ∷ es) p h = ground (arith, find_entry-set_self q es p)

pub find_entry-set_ne :
    (q : Entry) (j : ℕ) (es : List Entry)
    → j ≢ q.id
    → find_entry j (set_entry q es) ≡ find_entry j es
unfolding find_entry set_entry
find_entry-set_ne q j [] h = refl
find_entry-set_ne q j (e ∷ es) h = ground (arith, find_entry-set_ne q j es)

pub ids-set_entry : (q : Entry) (j : ℕ) (es : List Entry) → ids j (set_entry q es) ≡ ids j es
unfolding set_entry
ids-set_entry q j [] = refl
ids-set_entry q j (e ∷ es) = ground (arith, ids-set_entry q j es)
