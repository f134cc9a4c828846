-- ===== src/Eth/Ring/Bytes.antt =====
-- The bytes of a packet in memory: what is written is read, and what stands elsewhere is kept.
use prl_tools.Base.{
  ap, ◌∙◌, ℕ, zero, suc, ◌+◌, ◌%◌, ◌^◌, ◌≤◌, ◌<◌, ◌≡◌, refl, List, [], ◌∷◌, ◌==◌, if◌then◌else◌,
  length, arith, inl, inr, ◌⊎◌,
}
use prl_tools.Eth.Ring.{
  full_packet_size, io_net_size, write_bytes, read_bytes, write_word, read_word,
}

pub write_bytes-before :
    (a : ℕ) (xs : List ℕ) (mem : ℕ → ℕ) (j : ℕ) → j < a → write_bytes a xs mem j ≡ mem j
unfolding write_bytes
write_bytes-before a [] mem j h = refl
write_bytes-before a (x ∷ xs) mem j h =
    write_bytes-before (a + 1) xs (λ i. if i == a then x else mem i) j (omega (arith, h))
    ∙ ground (arith, h)

pub write_bytes-behind :
    (a : ℕ) (xs : List ℕ) (mem : ℕ → ℕ) (j : ℕ) → a + length xs ≤ j → write_bytes a xs mem j ≡ mem j
unfolding write_bytes
write_bytes-behind a [] mem j h = refl
write_bytes-behind a (x ∷ xs) mem j h =
    write_bytes-behind (a + 1) xs (λ i. if i == a then x else mem i) j (omega (arith, h))
    ∙ ground (arith, h)

-- What was written is read.
pub read_bytes-write_bytes :
    (a : ℕ) (xs : List ℕ) (mem : ℕ → ℕ) → read_bytes a (length xs) (write_bytes a xs mem) ≡ xs
unfolding write_bytes read_bytes
read_bytes-write_bytes a [] mem = refl
read_bytes-write_bytes a (x ∷ xs) mem =
    let first = write_bytes-before (a + 1) xs (λ i. if i == a then x else mem i) a (omega arith) in
    let rest = read_bytes-write_bytes (a + 1) xs (λ i. if i == a then x else mem i) in
    let here : write_bytes (a + 1) xs (λ i. if i == a then x else mem i) a ≡ x =
      first ∙ ground arith in
    cc (here, rest)

pub read_bytes-same :
    (a n : ℕ) (v w : ℕ → ℕ)
    → ((j : ℕ) → a ≤ j → j < a + n → v j ≡ w j)
    → read_bytes a n v ≡ read_bytes a n w
unfolding read_bytes
read_bytes-same a zero v w same = refl
read_bytes-same a (suc n) v w same =
    let rest = read_bytes-same (a + 1) n v w (λ j l h. same j (omega arith) (omega arith)) in
    cc (same a (omega arith) (omega arith), rest)

-- The packet at an address.
abbrev pub packet_at : ℕ → (ℕ → ℕ) → List ℕ
packet_at a mem = read_bytes (a + 2) (read_word a mem) mem

-- The regions of a packet and of a later one, within one turn of the ring.
pub apart :
    (pos tail mine rest new j : ℕ)
    → pos < 2 ^ 32
    → tail ≡ (pos + rest) % 2 ^ 32
    → mine ≤ rest
    → rest + new ≤ io_net_size
    → pos % io_net_size ≤ j
    → j < pos % io_net_size + mine
    → (j < tail % io_net_size) ⊎ (tail % io_net_size + new ≤ j)
apart pos tail mine rest new j small at fits rooms low high =
    ground (arith, small, at, fits, rooms, low, high)

-- The memory after a packet was written at `at`.
abbrev pub written : ℕ → List ℕ → (ℕ → ℕ) → ℕ → ℕ
written at p mem = write_bytes (at + 2) p (write_word at (length p) mem)

pub written-word :
    (at : ℕ) (p : List ℕ) (mem : ℕ → ℕ)
    → length p < 2 ^ 16
    → read_word at (written at p mem) ≡ length p
unfolding write_bytes
written-word at p mem small =
    let w = write_word at (length p) mem in
    let low = write_bytes-before (at + 2) p w at (omega arith) in
    let high = write_bytes-before (at + 2) p w (at + 1) (omega arith) in
    ground (arith, low, high, small)

pub written-packet :
    (at : ℕ) (p : List ℕ) (mem : ℕ → ℕ) → length p < 2 ^ 16 → packet_at at (written at p mem) ≡ p
written-packet at p mem small =
    ap (λ n. read_bytes (at + 2) n (written at p mem)) (written-word at p mem small)
    ∙ read_bytes-write_bytes (at + 2) p (write_word at (length p) mem)

pub written-outside :
    (at : ℕ) (p : List ℕ) (mem : ℕ → ℕ) (j : ℕ)
    → (j < at) ⊎ (at + full_packet_size (length p) ≤ j)
    → written at p mem j ≡ mem j
unfolding write_bytes
written-outside at p mem j (inl before) =
    write_bytes-before (at + 2) p (write_word at (length p) mem) j (omega (arith, before))
    ∙ ground (arith, before)
written-outside at p mem j (inr behind) =
    write_bytes-behind (at + 2) p (write_word at (length p) mem) j (omega (arith, behind))
    ∙ ground (arith, behind)
