-- ===== src/Eth/Ring.antt =====
-- The rings of pvmnet_hw.h and Interfaces/ApiNet.h. Positions are 32-bit numbers that run on and wrap; a
-- packet stands at its position modulo IO_NET_SIZE, with a room behind the ring for the last one.
pub mod Bytes
pub mod Send
mod Tests
use prl_tools.Base.{
  ℕ, ◌+◌, ◌-◌, ◌*◌, ◌/◌, ◌%◌, ◌^◌, Bool, true, false, List, [], ◌∷◌, ◌==◌, ltb, if◌then◌else◌,
  length, zero, suc,
}

-- IO_NET_SIZE, 256 * 1024
abbrev pub io_net_size : ℕ
io_net_size = 0x40000

-- What stands behind it in `aBuffer` and `aSendBuffer`.
abbrev pub tailroom : ℕ
tailroom = 1536

abbrev pub eth_frame_len : ℕ
eth_frame_len = 1514

-- FULL_PACKET_SIZE: with two bytes before the packet, in units of 16 bytes.
abbrev pub full_packet_size : ℕ → ℕ
full_packet_size size = (2 + size + 15) / 16 * 16

-- The part of NET_BUFFER for one direction, with the FLUSH commands to the card.
pub record Ring : Type 0 where
  pub head : ℕ
  pub tail : ℕ
  pub present : ℕ
  pub bytes : ℕ → ℕ
  pub flushes : ℕ

pub write_bytes : ℕ → List ℕ → (ℕ → ℕ) → ℕ → ℕ
write_bytes a [] mem = mem
write_bytes a (x ∷ xs) mem = write_bytes (a + 1) xs (λ j. if j == a then x else mem j)

pub read_bytes : ℕ → ℕ → (ℕ → ℕ) → List ℕ
read_bytes a zero mem = []
read_bytes a (suc n) mem = mem a ∷ read_bytes (a + 1) n mem

-- `writew`
abbrev pub write_word : ℕ → ℕ → (ℕ → ℕ) → ℕ → ℕ
write_word a x mem = write_bytes a (x % 256 ∷ x / 256 % 256 ∷ []) mem

-- `readw`
abbrev pub read_word : ℕ → (ℕ → ℕ) → ℕ
read_word a mem = mem a + 256 * mem (a + 1)

-- Whether the packet was written; it is not if there is no room.
pub io_write_data : List ℕ → Ring → Bool × Ring
io_write_data packet r =
    let size = length packet in
    let fullsize = full_packet_size size in
    let used = (r.tail + 2 ^ 32 - r.head) % 2 ^ 32 in
    let at = r.tail % io_net_size in
    let written = record r {
      bytes = write_bytes (at + 2) packet (write_word at size r.bytes);
      tail = (r.tail + fullsize) % 2 ^ 32;
    } in
    if ltb ((io_net_size + 2 ^ 32 - used) % 2 ^ 32) fullsize
    then (false, r)
    else if r.present == 0
    then (true, record written { present = 1; flushes = r.flushes + 1 })
    else (true, written)
