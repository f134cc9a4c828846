-- ===== src/Eth/Driver.antt =====
-- The driver pvmnet.c: its interrupt with the loop over received packets, transmission, opening and
-- closing. A packet is its bytes.
pub mod Receive
pub mod Transmit
mod Tests
use prl_tools.Base.{
  ℕ, zero, suc, ◌+◌, ◌-◌, ◌*◌, ◌/◌, ◌%◌, ◌^◌, Bool, true, false, Option, none, some, List, [], ◌∷◌,
  ◌++◌, ◌==◌, ltb, leb, ◌||◌, ◌&&◌, if◌then◌else◌, length, ℤ, pos, ◌==ℤ◌,
}
use prl_tools.Eth.Ring.{
  Ring, io_net_size, eth_frame_len, full_packet_size, read_bytes, read_word, io_write_data,
}

abbrev pub eth_hlen : ℕ
eth_hlen = 14

-- `struct net_device_stats`
pub record Stats : Type 0 where
  pub rx_packets : ℕ
  pub tx_packets : ℕ
  pub rx_bytes : ℕ
  pub tx_bytes : ℕ
  pub rx_errors : ℕ
  pub rx_dropped : ℕ
  pub rx_length_errors : ℕ

-- What the kernel got of the card so far, the last packet last.
pub record Received : Type 0 where
  pub stats : Stats
  pub packets : List (List ℕ)

-- NET_PACKET_LEN_MASK
abbrev pub data_len : ℕ → ℕ
data_len word = word % 2 ^ 14

-- NET_PACKET_RX_SIZE, with NET_PACKET_FLAG_FIXED_SIZE
abbrev pub rx_size : ℕ → ℕ
rx_size word = if word / 2 ^ 14 % 2 == 1 then 0x600 else full_packet_size (data_len word)

pub io_get_packet_size : Ring → ℕ → ℕ
io_get_packet_size r offset =
    if offset == r.tail then 0 else data_len (read_word (offset % io_net_size) r.bytes)

-- The move of `*offset` in `io_read_data` and `io_drop_packet`.
pub next_offset : Ring → ℕ → ℕ
next_offset r offset = (offset + rx_size (read_word (offset % io_net_size) r.bytes)) % 2 ^ 32

abbrev pub count_error : Received → Received
count_error s = record s {
  stats = record s.stats {
    rx_errors = s.stats.rx_errors + 1;
    rx_length_errors = s.stats.rx_length_errors + 1;
  };
}

abbrev pub count_drop : Received → Received
count_drop s = record s { stats = record s.stats { rx_dropped = s.stats.rx_dropped + 1 } }

-- `netif_rx` and what is counted after it.
abbrev pub deliver : ℕ → List ℕ → Received → Received
deliver size packet s = record {
  stats = record s.stats {
    rx_bytes = s.stats.rx_bytes + size;
    rx_packets = s.stats.rx_packets + 1;
  };
  packets = s.packets ++ packet ∷ [];
}

-- One round of the loop for a packet of this size; `alloc` says whether `dev_alloc_skb` succeeds.
pub take_packet : (Received → ℕ → Bool) → Ring → ℕ → ℕ → Received → Received
take_packet alloc r offset size s =
    if ltb size eth_hlen || ltb eth_frame_len size
    then count_error s
    else if alloc s size
    then deliver size (read_bytes (offset % io_net_size + 2) size r.bytes) s
    else count_drop s

pub rx_loop : (Received → ℕ → Bool) → Ring → ℕ → ℕ → Received → Option (ℕ × Received)
unfolding io_get_packet_size next_offset take_packet
rx_loop alloc r zero offset s = none
rx_loop alloc r (suc fuel) offset s =
    let size = io_get_packet_size r offset in
    let rest = rx_loop alloc r fuel (next_offset r offset) (take_packet alloc r offset size s) in
    if size == 0 then some (offset, s) else rest

-- The device: its two rings, what was received, the carrier, the queue of the kernel, the interrupts of
-- the card, its handler, and how often the card was told that the ring is full.
pub record Net : Type 0 where
  pub rx : Ring
  pub tx : Ring
  pub received : Received
  pub carrier : Bool
  pub stopped : Bool
  pub interrupts : Bool
  pub handler : Bool
  pub overflows : ℕ

abbrev pub bit : ℕ → ℕ → Bool
bit k word = word / 2 ^ k % 2 == 1

-- PRLETH_STATUS_CABLE with PRLETH_STATUS_CONNECTED
pub cable_changed : ℕ → Net → Net
cable_changed status n =
    if bit 8 status
    then record n { carrier = true; stopped = false }
    else record n { carrier = false; stopped = true }

-- After `io_move_rcv_offset`.
pub rx_done : Net → Option (ℕ × Received) → Option (Bool × Net)
rx_done n none = none
rx_done n (some (offset, s)) =
    some (true, record n { rx = record n.rx { head = offset }; received = s; interrupts = true })

-- `status` is what the card reports; reading a status that changed turns its interrupts off. The result
-- says whether the interrupt was the card's.
pub pvmnet_interrupt : (Received → ℕ → Bool) → ℕ → ℕ → Net → Option (Bool × Net)
unfolding cable_changed rx_done rx_loop
pvmnet_interrupt alloc fuel status n =
    let read = record n { interrupts = false } in
    let cabled = if bit 2 status then cable_changed status read else read in
    let woken = if bit 1 status then record cabled { stopped = false } else cabled in
    if bit 0 status || bit 1 status || bit 2 status
    then if bit 0 status
      then rx_done woken (rx_loop alloc woken.rx fuel woken.rx.head woken.received)
      else some (true, record woken { interrupts = true })
    else some (false, n)

-- NETDEV_TX_BUSY or not; the kernel keeps a packet when busy.
pub pvmnet_xmit : List ℕ → Net → Bool × Net
pvmnet_xmit packet n =
    let size = length packet in
    let (ok, ring) = io_write_data packet n.tx in
    let stats = n.received.stats in
    if ltb 0 size && leb size eth_frame_len
    then if ok
      then (
        false,
        record n {
          tx = ring;
          received = record n.received {
            stats = record stats {
              tx_bytes = stats.tx_bytes + size;
              tx_packets = stats.tx_packets + 1;
            };
          };
        },
      )
      else (true, record n { stopped = true; overflows = n.overflows + 1 })
    else (false, n)

-- `ret` is the result of `request_irq`.
pub pvmnet_open : ℕ → ℤ → Net → ℤ × Net
pvmnet_open status ret n =
    if ret ==ℤ pos 0
    then (
      pos 0,
      record n { handler = true; interrupts = true; stopped = false; carrier = bit 8 status },
    )
    else (ret, n)

pub pvmnet_close : Net → Net
pvmnet_close n = record n { interrupts = false; stopped = true; carrier = false; handler = false }
