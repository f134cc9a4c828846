-- ===== src/Toolgate/Size/Tests.antt =====
-- Runs of `tg_req_paged_size`, and its theorems at concrete requests.
use prl_tools.Base.{ℕ, zero, suc, ◌+◌, ◌*◌, ◌-◌, ◌<◌, ◌≡◌, refl, List, [], ◌∷◌, arith}
use prl_tools.Toolgate.Wire.{TgBuffer, TgRequest}
use prl_tools.Toolgate.Size.{tg_req_paged_size, size, buffers_size, pages_loop}
use prl_tools.Toolgate.Size.Fit.{
  request_bytes, IsLeastFit, tg_req_paged_size-IsLeastFit, tg_req_paged_size_wraps,
}

abbrev two_pages : TgRequest
two_pages = record { request = 0x8000; status = 0; inline_byte_count = 5; buffer_count = 2 }

abbrev buffers : List TgBuffer
buffers =
    record { va = 0x1ff8; byte_count = 16; writable = 1 }
    ∷ record { va = 0; byte_count = 0; writable = 0 }
    ∷ []

paged_size_runs : tg_req_paged_size two_pages buffers ≡ size 80
unfolding tg_req_paged_size buffers_size pages_loop
paged_size_runs = refl

tg_req_paged_size-IsLeastFit_example :
    (p : ℕ) × (tg_req_paged_size two_pages buffers
      ≡ size (request_bytes two_pages buffers + 8 * (p - 1)))
    × IsLeastFit (request_bytes two_pages buffers) p
tg_req_paged_size-IsLeastFit_example = tg_req_paged_size-IsLeastFit two_pages buffers (omega arith)

-- A buffer of 4 GB less a page: 2 ^ 20 - 1 page numbers.
abbrev huge : TgBuffer
huge = record { va = 0; byte_count = 0xffff_f000; writable = 0 }

abbrev repeat : ℕ → TgBuffer → List TgBuffer → List TgBuffer
repeat n b bs = elim n [ zero ↦ bs | suc (k → ih) ↦ b ∷ ih ]

abbrev wrapping : List TgBuffer
wrapping = repeat 512 huge []

tg_req_paged_size_wraps_example :
    (d : ℕ) × (tg_req_paged_size two_pages wrapping ≡ size d)
    × (d < request_bytes two_pages wrapping)
tg_req_paged_size_wraps_example =
    tg_req_paged_size_wraps two_pages wrapping (omega arith) (omega arith) (omega arith)
      (omega arith)
