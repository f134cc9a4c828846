-- ===== src/Eth/Ring/Send.antt =====
-- `io_write_data`: the ring to the host is a queue of packets with a bounded size.
use prl_tools.Base.{
  ap, ◌∙◌, ℕ, ◌+◌, ◌-◌, ◌%◌, ◌^◌, ◌≤◌, ◌<◌, ◌≡◌, refl, Bool, true, false, List, [], ◌∷◌, ◌++◌, ◌==◌,
  ltb, leb, if◌then◌else◌, length, arith, Bool-cases, inl, inr, ◌⊎◌,
}
use prl_tools.Eth.Ring.Bytes.{
  packet_at, written, read_bytes-same, apart, written-word, written-packet, written-outside,
}
use prl_tools.Eth.Ring.{
  io_net_size, tailroom, eth_frame_len, full_packet_size, Ring, read_bytes, read_word,
  io_write_data,
}

-- The packets between two positions.
unfoldable pub Queue : (ℕ → ℕ) → ℕ → List (List ℕ) → ℕ → Type 0
Queue mem pos [] tail = pos ≡ tail
Queue mem pos (p ∷ ps) tail =
    (read_word (pos % io_net_size) mem ≡ length p)
    × (packet_at (pos % io_net_size) mem ≡ p)
    × Queue mem ((pos + full_packet_size (length p)) % 2 ^ 32) ps tail

-- The room that packets take.
abbrev pub room : List (List ℕ) → ℕ
room [] = 0
room (p ∷ ps) = full_packet_size (length p) + room ps

-- Where the packets end.
Queue-tail :
    (mem : ℕ → ℕ) (pos : ℕ) (ps : List (List ℕ)) (tail : ℕ)
    → pos < 2 ^ 32
    → Queue mem pos ps tail
    → tail ≡ (pos + room ps) % 2 ^ 32
unfolding Queue
Queue-tail mem pos [] tail small q = omega (arith, small, q)
Queue-tail mem pos (p ∷ ps) tail small (n, d, q) =
    let next = (pos + full_packet_size (length p)) % 2 ^ 32 in
    omega (arith, Queue-tail mem next ps tail (omega arith) q)

-- What a new packet overwrites is not of those that are there.
Queue-frame :
    (v w : ℕ → ℕ) (pos : ℕ) (ps : List (List ℕ)) (tail new : ℕ)
    → pos < 2 ^ 32
    → room ps + new ≤ io_net_size
    → ((j : ℕ) → (j < tail % io_net_size) ⊎ (tail % io_net_size + new ≤ j) → w j ≡ v j)
    → Queue v pos ps tail
    → Queue w pos ps tail
unfolding Queue
Queue-frame v w pos [] tail new small rooms same q = q
Queue-frame v w pos (p ∷ ps) tail new small rooms same (n, d, q) =
    let a = pos % io_net_size in
    let full = full_packet_size (length p) in
    let next = (pos + full) % 2 ^ 32 in
    let end = Queue-tail v pos (p ∷ ps) tail small (n, d, q) in
    let kept = λ (j : ℕ) (low : a ≤ j) (high : j < a + full).
      same j (apart pos tail full (full + room ps) new j small end (omega arith) rooms low high) in
    let word : read_word a w ≡ read_word a v =
      omega (arith, kept a (omega arith) (omega arith), kept (a + 1) (omega arith) (omega arith)) in
    let size : read_word a w ≡ length p = word ∙ n in
    let bytes : read_bytes (a + 2) (read_word a v) w ≡ read_bytes (a + 2) (read_word a v) v =
      read_bytes-same (a + 2) (read_word a v) w v
        (λ j low high. kept j (omega (arith, low)) (omega (arith, high, n))) in
    (
      size,
      ap (λ k. read_bytes (a + 2) k w) word ∙ bytes ∙ d,
      Queue-frame v w next ps tail new (omega arith) (omega (arith, rooms)) same q,
    )

-- A packet behind the others.
Queue-snoc :
    (mem : ℕ → ℕ) (pos : ℕ) (ps : List (List ℕ)) (tail : ℕ) (p : List ℕ)
    → Queue mem pos ps tail
    → read_word (tail % io_net_size) mem ≡ length p
    → packet_at (tail % io_net_size) mem ≡ p
    → Queue mem pos (ps ++ p ∷ []) ((tail + full_packet_size (length p)) % 2 ^ 32)
unfolding Queue
Queue-snoc mem pos [] tail p q n d = rw q (n, d, refl)
Queue-snoc mem pos (o ∷ ps) tail p (n, d, q) m e =
    (n, d, Queue-snoc mem ((pos + full_packet_size (length o)) % 2 ^ 32) ps tail p q m e)

room-snoc :
    (ps : List (List ℕ)) (p : List ℕ) → room (ps ++ p ∷ []) ≡ room ps + full_packet_size (length p)
room-snoc [] p = omega arith
room-snoc (o ∷ ps) p = omega (arith, room-snoc ps p)

-- A ring with these packets.
pub record Represents (r : Ring) (ps : List (List ℕ)) : Type 0 where
  pub head : r.head < 2 ^ 32
  pub fits : room ps ≤ io_net_size
  pub queue : Queue r.bytes r.head ps r.tail

-- What a queue with this much room does.
pub send_spec : List (List ℕ) → List ℕ → Bool × List (List ℕ)
send_spec ps p =
    if leb (room ps + full_packet_size (length p)) io_net_size
    then (true, ps ++ p ∷ [])
    else (false, ps)

pub send_spec-refused :
    (ps : List (List ℕ)) (p : List ℕ) → (send_spec ps p).0 ≡ false → (send_spec ps p).1 ≡ ps
unfolding send_spec
send_spec-refused ps p full =
    elim (Bool-cases (leb (room ps + full_packet_size (length p)) io_net_size)) [
      | inl fits ↦ absurd (cc (rw fits at full))
      | inr over ↦ rw over refl
    ]

appended :
    (r : Ring) (ps : List (List ℕ)) (p : List ℕ)
    → Represents r ps
    → length p ≤ eth_frame_len
    → room ps + full_packet_size (length p) ≤ io_net_size
    → let at = r.tail % io_net_size in
      Queue
        (written at p r.bytes)
        r.head
        (ps ++ p ∷ [])
        ((r.tail + full_packet_size (length p)) % 2 ^ 32)
appended r ps p q short fits =
    let at = r.tail % io_net_size in
    let mem = written at p r.bytes in
    Queue-snoc mem r.head ps r.tail p
      (Queue-frame r.bytes mem r.head ps r.tail (full_packet_size (length p)) q.head fits
        (λ j out. written-outside at p r.bytes j out) q.queue)
      (written-word at p r.bytes (omega (arith, short)))
      (written-packet at p r.bytes (omega (arith, short)))

abbrev Agrees : Bool × Ring → Bool × List (List ℕ) → Type 0
Agrees (ok, r) (done, ps) = (ok ≡ done) × Represents r ps

-- io_write_data implements a queue of packets that is bounded by IO_NET_SIZE: a packet of an Ethernet
-- frame at most is appended, with its length and its bytes as the host reads them and with the packets
-- before it as they were, if its room and theirs are no more than that, and is refused otherwise.
pub io_write_data-send_spec :
    (r : Ring) (ps : List (List ℕ)) (p : List ℕ)
    → Represents r ps
    → length p ≤ eth_frame_len
    → let (ok, s) = io_write_data p r in
      let (done, qs) = send_spec ps p in (ok ≡ done) × Represents s qs
unfolding io_write_data send_spec
io_write_data-send_spec r ps p q short =
    let full = full_packet_size (length p) in
    let used = (r.tail + 2 ^ 32 - r.head) % 2 ^ 32 in
    let end = Queue-tail r.bytes r.head ps r.tail q.head q.queue in
    let same : used ≡ room ps = omega (arith, end, q.fits, q.head) in
    elim (Bool-cases (leb (room ps + full) io_net_size)) [
      | inr over ↦
          let busy : ltb ((io_net_size + 2 ^ 32 - used) % 2 ^ 32) full ≡ true =
            ground (arith, same, over, q.fits) in
          rw (over, busy) (refl, q)
      | inl fits ↦
          let free : ltb ((io_net_size + 2 ^ 32 - used) % 2 ^ 32) full ≡ false =
            ground (arith, same, fits, q.fits) in
          let more = appended r ps p q short (ground (arith, fits)) in
          let rooms : room (ps ++ p ∷ []) ≤ io_net_size = ground (arith, fits, room-snoc ps p) in
          let done : Represents
              (record r {
                bytes = written (r.tail % io_net_size) p r.bytes;
                tail = (r.tail + full) % 2 ^ 32;
              })
              (ps ++ p ∷ []) =
            record { head = q.head; fits = rooms; queue = more } in
          elim (Bool-cases (r.present == 0)) [
            | inl first ↦
                rw (fits, free, first) (refl, record { head = q.head; fits = rooms; queue = more })
            | inr next ↦ rw (fits, free, next) (refl, done)
          ]
    ]

-- Writing a frame changes no byte behind the ring and its room for the last packet.
pub io_write_data-bounds :
    (r : Ring) (p : List ℕ) (j : ℕ)
    → length p ≤ eth_frame_len
    → io_net_size + tailroom ≤ j
    → (io_write_data p r).1.bytes j ≡ r.bytes j
unfolding io_write_data
io_write_data-bounds r p j short behind =
    let kept =
      written-outside (r.tail % io_net_size) p r.bytes j (inr (omega (arith, short, behind))) in
    ground (arith, kept)
