-- ===== src/Eth/Driver/Receive.antt =====
-- The loop over the received packets ends where the packets of the card end, and accounts for each.
use prl_tools.Base.{
  ap, ◌∙◌, ℕ, zero, suc, ◌+◌, ◌-◌, ◌%◌, ◌^◌, ◌≤◌, ◌<◌, ◌≡◌, refl, Bool, true, false, some, ◌==◌,
  if◌then◌else◌, arith, Bool-cases, inl, inr,
}
use prl_tools.Eth.Ring.{Ring, io_net_size, read_word}
use prl_tools.Eth.Driver.{
  Received, data_len, rx_size, io_get_packet_size, next_offset, take_packet, rx_loop, Net, bit,
  cable_changed, rx_done, pvmnet_interrupt,
}

-- `n` packets that are not empty stand from one position of the ring to its tail, and take `room` bytes.
unfoldable pub Stands : Ring → ℕ → ℕ → ℕ → Type 0
Stands r pos zero room = (pos ≡ r.tail) × (room ≡ 0)
Stands r pos (suc n) room =
    let word = read_word (pos % io_net_size) r.bytes in
    (0 < data_len word)
    × (rx_size word ≤ room)
    × Stands r ((pos + rx_size word) % 2 ^ 32) n (room - rx_size word)

-- The packets that were accounted for.
abbrev pub accounted : Received → ℕ
accounted s = s.stats.rx_packets + s.stats.rx_length_errors + s.stats.rx_dropped

Stands-tail :
    (r : Ring) (n pos room : ℕ)
    → pos < 2 ^ 32
    → Stands r pos n room
    → r.tail ≡ (pos + room) % 2 ^ 32
unfolding Stands
Stands-tail r zero pos room small (at, empty) = omega (arith, small, at, empty)
Stands-tail r (suc n) pos room small (some_data, fits, rest) =
    let word = read_word (pos % io_net_size) r.bytes in
    omega (
      arith,
      Stands-tail r n ((pos + rx_size word) % 2 ^ 32) (room - rx_size word) (omega arith) rest,
      fits,
    )

take_packet-accounted :
    (alloc : Received → ℕ → Bool) (r : Ring) (offset size : ℕ) (s : Received)
    → accounted (take_packet alloc r offset size s) ≡ accounted s + 1
unfolding take_packet
take_packet-accounted alloc r offset size s = ground arith

-- A ring on which packets that are not empty stand from the head to the tail, in no more than its size,
-- is read to its end in one round more than there are packets, and each of them is counted once, as
-- received, as one of a wrong length or as dropped.
pub rx_loop-accounted :
    (alloc : Received → ℕ → Bool) (r : Ring) (n pos room : ℕ) (s : Received)
    → pos < 2 ^ 32
    → room ≤ io_net_size
    → Stands r pos n room
    → (t : Received) × (rx_loop alloc r (suc n) pos s ≡ some (r.tail, t))
      × (accounted t ≡ accounted s + n)
unfolding rx_loop Stands io_get_packet_size next_offset
rx_loop-accounted alloc r zero pos room s small ring (at, empty) =
    let none_left : io_get_packet_size r pos == 0 ≡ true = ground (arith, at) in
    (s, rw none_left (ap (λ p. some (p, s)) at), omega arith)
rx_loop-accounted alloc r (suc n) pos room s small ring (some_data, fits, rest) =
    let word = read_word (pos % io_net_size) r.bytes in
    let size = io_get_packet_size r pos in
    let next = next_offset r pos in
    let end = Stands-tail r (suc n) pos room small (some_data, fits, rest) in
    let moves : 16 ≤ rx_size word = ground arith in
    let more : size == 0 ≡ false = ground (arith, end, fits, some_data, small, ring, moves) in
    let (t, e, c) =
      rx_loop-accounted alloc r n next (room - rx_size word) (take_packet alloc r pos size s)
        (omega arith) (omega (arith, ring)) rest in
    (t, rw more e, omega (arith, c, take_packet-accounted alloc r pos size s))

-- The device after the status was looked at.
abbrev woken : ℕ → Net → Net
woken status n =
    let read = record n { interrupts = false } in
    let cabled = if bit 2 status then cable_changed status read else read in
    if bit 1 status then record cabled { stopped = false } else cabled

woken_lem :
    (status : ℕ) (n : Net) → ((woken status n).rx ≡ n.rx) × ((woken status n).received ≡ n.received)
unfolding cable_changed
woken_lem status n = elim (Bool-cases (bit 2 status)) [
  | inr off ↦ elim (Bool-cases (bit 1 status)) [
    | inr full ↦ rw (off, full) (refl, refl)
    | inl space ↦ rw (off, space) (refl, refl)
  ]
  | inl cable ↦ elim (Bool-cases (bit 8 status)) [
    | inr down ↦ elim (Bool-cases (bit 1 status)) [
      | inr full ↦ rw (cable, down, full) (refl, refl)
      | inl space ↦ rw (cable, down, space) (refl, refl)
    ]
    | inl up ↦ elim (Bool-cases (bit 1 status)) [
      | inr full ↦ rw (cable, up, full) (refl, refl)
      | inl space ↦ rw (cable, up, space) (refl, refl)
    ]
  ]
]

-- An interrupt for received packets, on a ring where packets that are not empty stand from the head
-- to the tail in no more than its size, and with one round more than it has packets, returns as
-- handled, with the head of the ring at its tail, the interrupts of the card on, and each packet
-- counted once.
pub pvmnet_interrupt-accounted :
    (alloc : Received → ℕ → Bool) (status n room : ℕ) (net : Net)
    → bit 0 status ≡ true
    → net.rx.head < 2 ^ 32
    → room ≤ io_net_size
    → Stands net.rx net.rx.head n room
    → (m : Net) × (pvmnet_interrupt alloc (suc n) status net ≡ some (true, m))
      × (m.rx.head ≡ net.rx.tail)
      × (m.interrupts ≡ true)
      × (accounted m.received ≡ accounted net.received + n)
unfolding pvmnet_interrupt rx_done
pvmnet_interrupt-accounted alloc status n room net on small ring stands =
    let (t, e, c) =
      rx_loop-accounted alloc net.rx n net.rx.head room net.received small ring stands in
    let w = woken status net in
    let (rx, received) = woken_lem status net in
    let same : rx_loop alloc w.rx (suc n) w.rx.head w.received ≡ some (net.rx.tail, t) =
      ap (λ r. rx_loop alloc r (suc n) r.head w.received) rx
      ∙ ap (rx_loop alloc net.rx (suc n) net.rx.head) received
      ∙ e in
    (
      record w { rx = record w.rx { head = net.rx.tail }; received = t; interrupts = true },
      rw (on, same) refl,
      refl,
      refl,
      c,
    )
