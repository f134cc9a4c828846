-- ===== src/Eth/Driver/Tests.antt =====
-- Tests and witnesses for Eth/Driver.
use prl_tools.Base.{◌≡◌, ◌==◌, refl, true, if◌then◌else◌, some, [], arith}
use prl_tools.Eth.Ring.{Ring}
use prl_tools.Eth.Driver.{Net, pvmnet_interrupt}
use prl_tools.Eth.Driver.Receive.{Stands, accounted, pvmnet_interrupt-accounted}

-- Two packets of 20 bytes and of 3, which is too short.
abbrev ring : Ring
ring = record {
  head = 0xffffffe0;
  tail = 16;
  present = 0;
  bytes = λ j. if j == 0x3ffe0 then 20 else (if j == 0 then 3 else 0);
  flushes = 0;
}

abbrev empty : Ring
empty = record { head = 0; tail = 0; present = 1; bytes = λ j. 0; flushes = 0 }

abbrev net : Net
net = record {
  rx = ring;
  tx = empty;
  received = record {
    stats = record {
      rx_packets = 0;
      tx_packets = 0;
      rx_bytes = 0;
      tx_bytes = 0;
      rx_errors = 0;
      rx_dropped = 0;
      rx_length_errors = 0;
    };
    packets = [];
  };
  carrier = true;
  stopped = true;
  interrupts = true;
  handler = true;
  overflows = 0;
}

ring-Stands : Stands ring 0xffffffe0 2 48
unfolding Stands
ring-Stands = (omega arith, omega arith, (omega arith, omega arith, (refl, refl)))

pvmnet_interrupt-accounted_example :
    (m : Net) × (pvmnet_interrupt (λ s size. true) 3 3 net ≡ some (true, m))
    × (m.rx.head ≡ 16)
    × (m.interrupts ≡ true)
    × (accounted m.received ≡ 2)
pvmnet_interrupt-accounted_example =
    pvmnet_interrupt-accounted (λ s size. true) 3 2 48 net refl (omega arith) (omega arith)
      ring-Stands
