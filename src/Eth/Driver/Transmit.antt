-- ===== src/Eth/Driver/Transmit.antt =====
-- `pvmnet_xmit` on the queue that the ring to the host is.
use prl_tools.Base.{
  ap, sym, ◌∙◌, ℕ, ◌+◌, ◌≤◌, ◌<◌, ◌≡◌, refl, true, false, not, List, ltb, leb, ◌&&◌, if◌then◌else◌,
  length, arith, Bool-cases, inl, inr,
}
use mathlib.Core.Path.{subst}
use prl_tools.Eth.Ring.{eth_frame_len, io_write_data}
use prl_tools.Eth.Ring.Send.{Represents, send_spec, send_spec-refused, io_write_data-send_spec}
use prl_tools.Eth.Driver.{Net, pvmnet_xmit}

-- A frame is put behind the queue of the ring and counted; if the ring has no room it stays as it is,
-- the kernel keeps the packet, the queue of the kernel is stopped, and the card is told once.
pub pvmnet_xmit-send_spec :
    (n : Net) (ps : List (List ℕ)) (p : List ℕ)
    → Represents n.tx ps
    → 0 < length p
    → length p ≤ eth_frame_len
    → let (busy, m) = pvmnet_xmit p n in
      let (done, qs) = send_spec ps p in
      (busy ≡ not done)
      × Represents m.tx qs
      × (m.stopped ≡ (if busy then true else n.stopped))
      × (m.overflows ≡ n.overflows + (if busy then 1 else 0))
      × (m.received.stats.tx_packets ≡ n.received.stats.tx_packets + (if busy then 0 else 1))
unfolding pvmnet_xmit
pvmnet_xmit-send_spec n ps p q some_bytes short =
    let frame : ltb 0 (length p) && leb (length p) eth_frame_len ≡ true =
      ground (arith, some_bytes, short) in
    let (same, r) = io_write_data-send_spec n.tx ps p q short in
    elim (Bool-cases (io_write_data p n.tx).0) [
      | inl ok ↦ rw (frame, ok) (ap not (sym ok ∙ same), r, refl, omega arith, refl)
      | inr full ↦
          let refused : (send_spec ps p).0 ≡ false = sym same ∙ full in
          let kept : Represents n.tx (send_spec ps p).1 =
            subst (λ x. Represents n.tx x) (sym (send_spec-refused ps p refused)) q in
          rw (frame, full) (ap not (sym refused), kept, refl, refl, omega arith)
    ]
