-- ===== src/Vtg/Refs.antt =====
-- The references to a clip buffer: those of the table and those of requests under way.
use prl_tools.Base.{
  ℕ, zero, suc, ◌+◌, ◌≤◌, ◌<◌, ◌≡◌, refl, Option, none, some, List, [], ◌∷◌, ◌==◌, if◌then◌else◌,
  arith, count, Option-cases, Bool-cases, inl, inr,
}
use native.Mathlib.Decide.{dec_lt}
use prl_tools.Vtg.{
  Buffer, Entry, Vtg, vtg_hash_size, update, find_entry, set_entry, delete_entry, put_buffer,
  vtg_buffer_put,
}

abbrev pub points : Option ℕ → ℕ → ℕ
points none b = 0
points (some a) b = if a == b then 1 else 0

-- The entries of a bucket that point to the buffer at `b`.
abbrev pub refs : ℕ → List Entry → ℕ
refs b [] = 0
refs b (e ∷ es) = points e.buffer b + refs b es

-- Those of the first `n` buckets.
unfoldable pub total_refs : ℕ → ℕ → (ℕ → List Entry) → ℕ
total_refs b zero table = 0
total_refs b (suc n) table = total_refs b n table + refs b (table n)

total_refs-update_of_le :
    (b n i : ℕ) (table : ℕ → List Entry) (es : List Entry)
    → n ≤ i
    → total_refs b n (update table i es) ≡ total_refs b n table
unfolding total_refs
total_refs-update_of_le b zero i table es h = refl
total_refs-update_of_le b (suc n) i table es h =
    ground (arith, total_refs-update_of_le b n i table es)

pub total_refs-update :
    (b n i : ℕ) (table : ℕ → List Entry) (es : List Entry)
    → i < n
    → total_refs b n (update table i es) + refs b (table i) ≡ total_refs b n table + refs b es
unfolding total_refs
total_refs-update b zero i table es h = absurd (omega arith)
total_refs-update b (suc n) i table es h = elim (dec_lt i n) [
  | yes below ↦ ground (arith, total_refs-update b n i table es below)
  | no last ↦ ground (arith, total_refs-update_of_le b n i table es)
]

pub refs-delete_entry :
    (b id : ℕ) (es : List Entry) (p : Entry)
    → find_entry id es ≡ some p
    → refs b es ≡ refs b (delete_entry id es) + points p.buffer b
unfolding find_entry delete_entry
refs-delete_entry b id [] p h = cc
refs-delete_entry b id (e ∷ es) p h = ground (arith, refs-delete_entry b id es p)

pub refs-set_entry :
    (b : ℕ) (q : Entry) (es : List Entry) (p : Entry)
    → find_entry q.id es ≡ some p
    → refs b (set_entry q es) + points p.buffer b ≡ refs b es + points q.buffer b
unfolding find_entry set_entry
refs-set_entry b q [] p h = cc
refs-set_entry b q (e ∷ es) p h = ground (arith, refs-set_entry b q es p)

abbrev pub refcnt_of : Option Buffer → ℕ
refcnt_of none = 0
refcnt_of (some r) = r.refcnt

-- The buffer at `b` exists as long as something refers to it; its count is that of the references in
-- the table, of the requests that hold it, and of `extra` that an operation is about to give up.
pub record Counted (s : Vtg) (extra b : ℕ) : Type 0 where
  pub counts :
      refcnt_of (s.buffers b) ≡ total_refs b vtg_hash_size s.hashtable + count b s.held + extra
  pub alive : (r : Buffer) → s.buffers b ≡ some r → 0 < r.refcnt

put_buffer-Counted :
    (a : ℕ) (v : Option Buffer) (s : Vtg) (b : ℕ)
    → s.buffers a ≡ v
    → Counted s (points (some a) b) b
    → Counted (put_buffer a v s) 0 b
unfolding put_buffer
put_buffer-Counted a none s b e h = record { counts = ground (arith, h.counts); alive = h.alive }
put_buffer-Counted a (some r) s b e h = elim (Bool-cases (b == a)) [
  | inl same ↦ record {
    counts = ground (arith, h.counts, h.alive r);
    alive = λ q f. ground (arith, h.counts, h.alive r);
  }
  | inr apart ↦ record {
    counts = ground (arith, h.counts);
    alive = λ q f. h.alive q (ground arith);
  }
]

-- A reference is given up.
pub vtg_buffer_put-Counted :
    (vb : Option ℕ) (s : Vtg) (b : ℕ)
    → Counted s (points vb b) b
    → Counted (vtg_buffer_put vb s) 0 b
unfolding vtg_buffer_put
vtg_buffer_put-Counted none s b h = record { counts = h.counts; alive = h.alive }
vtg_buffer_put-Counted (some a) s b h = put_buffer-Counted a (s.buffers a) s b refl h

-- It is there to be given up, so no freed memory is touched.
pub vtg_buffer_put-fault :
    (vb : Option ℕ) (s : Vtg)
    → ((b : ℕ) → Counted s (points vb b) b)
    → (vtg_buffer_put vb s).fault ≡ s.fault
unfolding vtg_buffer_put put_buffer
vtg_buffer_put-fault none s h = refl
vtg_buffer_put-fault (some a) s h = ground (arith, (h a).counts)

pub vtg_buffer_put-frame :
    (vb : Option ℕ) (s : Vtg)
    → let t = vtg_buffer_put vb s in
      (t.hashtable ≡ s.hashtable)
      × (t.hash_list ≡ s.hash_list)
      × (t.glctx_list ≡ s.glctx_list)
      × (t.held ≡ s.held)
      × (t.gl_destroys ≡ s.gl_destroys)
      × (t.adding ≡ s.adding)
      × (t.dropping ≡ s.dropping)
unfolding vtg_buffer_put put_buffer
vtg_buffer_put-frame none s = (refl, refl, refl, refl, refl, refl, refl)
vtg_buffer_put-frame (some a) s = ground arith

refs-find_entry :
    (b id : ℕ) (es : List Entry) (p : Entry)
    → find_entry id es ≡ some p
    → points p.buffer b ≤ refs b es
unfolding find_entry
refs-find_entry b id [] p h = cc
refs-find_entry b id (e ∷ es) p h = ground (arith, refs-find_entry b id es p)

refs-le-total_refs :
    (b n i : ℕ) (table : ℕ → List Entry) → i < n → refs b (table i) ≤ total_refs b n table
unfolding total_refs
refs-le-total_refs b zero i table h = absurd (omega arith)
refs-le-total_refs b (suc n) i table h = elim (dec_lt i n) [
  | yes below ↦ omega (arith, refs-le-total_refs b n i table below)
  | no last ↦ let same : i ≡ n = omega arith in rw same (omega arith)
]

-- A buffer that an entry of the table points to exists.
pub exists_of_find :
    (s : Vtg) (i id a e : ℕ) (p : Entry)
    → i < vtg_hash_size
    → find_entry id (s.hashtable i) ≡ some p
    → p.buffer ≡ some a
    → Counted s e a
    → (r : Buffer) × (s.buffers a ≡ some r)
exists_of_find s i id a e p small found points_to h = elim (Option-cases (s.buffers a)) [
  | inr there ↦ there
  | inl gone ↦ absurd (
      ground (
        arith,
        h.counts,
        refs-find_entry a id (s.hashtable i) p found,
        refs-le-total_refs a vtg_hash_size i s.hashtable small,
      ))
]
