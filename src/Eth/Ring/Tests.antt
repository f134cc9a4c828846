-- ===== src/Eth/Ring/Tests.antt =====
-- Tests and witnesses for Eth/Ring.
use prl_tools.Base.{ℕ, ◌≡◌, refl, List, [], ◌∷◌, arith}
use prl_tools.Eth.Ring.{Ring, write_bytes, io_write_data}
use prl_tools.Eth.Ring.Send.{Queue, Represents, send_spec, io_write_data-send_spec}

-- Just before the positions wrap.
abbrev empty_ring : Ring
empty_ring = record {
  head = 0xfffffff0;
  tail = 0xfffffff0;
  present = 0;
  bytes = λ j. 0;
  flushes = 0;
}

empty_ring-Represents : Represents empty_ring []
unfolding Queue
empty_ring-Represents = record { head = omega arith; fits = omega arith; queue = refl }

abbrev frame : List ℕ
frame = 1 ∷ 2 ∷ 3 ∷ []

wraps :
    ((io_write_data frame empty_ring).1.tail ≡ 0)
    × ((io_write_data frame empty_ring).1.bytes 0x3fff4 ≡ 3)
unfolding io_write_data write_bytes
wraps = (refl, refl)

io_write_data-send_spec_example :
    let (ok, s) = io_write_data frame empty_ring in
    let (done, qs) = send_spec [] frame in (ok ≡ done) × Represents s qs
io_write_data-send_spec_example =
    io_write_data-send_spec empty_ring [] frame empty_ring-Represents (omega arith)
