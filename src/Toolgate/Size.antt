-- ===== src/Toolgate/Size.antt =====
-- prltg_call.c, `tg_req_paged_size`: the size of the request as the host reads it. `dsize` is an
-- `int`, kept here as its bit pattern below 2 ^ 32.
pub mod Fit
mod Tests
use prl_tools.Base.{
  ℕ, zero, suc, ◌+◌, ◌-◌, ◌*◌, ◌/◌, ◌%◌, ◌^◌, Option, none, some, List, [], ◌∷◌, ◌||◌, leb, ltb,
  ◌==◌, if◌then◌else◌,
}
use prl_tools.Toolgate.Wire.{
  TgBuffer, TgRequest, inline_size, span_pages, page_shift, page_size, sizeof_u64,
  sizeof_tg_paged_buffer, sizeof_tg_paged_request, tg_request_internal_limit,
}

-- An `int` after the addition of `k`.
abbrev pub add_int : ℕ → ℕ → ℕ
add_int d k = (d + k) % 2 ^ 32

-- The loop over the buffers.
unfoldable pub buffers_size : ℕ → List TgBuffer → ℕ
buffers_size dsize [] = dsize
buffers_size dsize (b ∷ bs) =
    let head = add_int dsize sizeof_tg_paged_buffer in
    buffers_size
      (if b.byte_count == 0 then head else add_int head (span_pages b.va b.byte_count * sizeof_u64))
      bs

-- `1 + ((dsize - 1) >> PAGE_SHIFT)` of an `int` from -4095 on; the loop meets no smaller one.
abbrev pub target_pages : ℕ → ℕ
target_pages dsize = (dsize + (page_size - 1)) % 2 ^ 32 / 2 ^ page_shift

-- `for (dpages = 1; ; )`: `delta` is `target - dpages`, which may be negative, so `delta` words are
-- added to `dsize` by adding those of `target` and taking off those of `dpages`.
unfoldable pub pages_loop : ℕ → ℕ → ℕ → Option ℕ
pages_loop zero dpages dsize = none
pages_loop (suc fuel) dpages dsize =
    let target = target_pages dsize in
    let rest =
      pages_loop fuel target
        ((dsize + target * sizeof_u64 + 2 ^ 35 - dpages * sizeof_u64) % 2 ^ 32) in
    if target == dpages then some dsize else rest

-- A size, or the -1 of the source.
pub data PagedSize : Type 0 where
  overflow : PagedSize
  size : ℕ → PagedSize
  out_of_fuel : PagedSize

abbrev pub of_option : Option ℕ → PagedSize
of_option none = out_of_fuel
of_option (some d) = size d

unfoldable pub tg_req_paged_size : TgRequest → List TgBuffer → PagedSize
tg_req_paged_size src sbuf =
    let dsize = buffers_size (sizeof_tg_paged_request + inline_size src.inline_byte_count) sbuf in
    if leb (2 ^ 31) dsize || ltb tg_request_internal_limit dsize
    then overflow
    else of_option (pages_loop (suc dsize) 1 dsize)
