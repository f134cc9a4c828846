-- ===== src/Toolgate/Wire.antt =====
-- The request structures of Tg.h, tgreq.h and prltg.h. Sizes are those of the 64-bit ABI, pages
-- have 4096 bytes.
use prl_tools.Base.{ℕ, ◌+◌, ◌-◌, ◌*◌, ◌/◌, ◌%◌, ◌^◌}

abbrev pub page_shift : ℕ
page_shift = 12

abbrev pub page_size : ℕ
page_size = 4096

abbrev pub sizeof_u64 : ℕ
sizeof_u64 = 8

abbrev pub sizeof_tg_request : ℕ
sizeof_tg_request = 16

abbrev pub sizeof_tg_buffer : ℕ
sizeof_tg_buffer = 16

abbrev pub sizeof_tg_paged_buffer : ℕ
sizeof_tg_paged_buffer = 16

-- With the first entry of `RequestPages`.
abbrev pub sizeof_tg_paged_request : ℕ
sizeof_tg_paged_request = 24

abbrev pub tg_status_success : ℕ
tg_status_success = 0

abbrev pub tg_status_pending : ℕ
tg_status_pending = 0xffff_ffff

abbrev pub tg_status_cancelled : ℕ
tg_status_cancelled = 0xf000_0000

abbrev pub tg_request_secured_max : ℕ
tg_request_secured_max = 0x7fff

abbrev pub tg_request_internal_limit : ℕ
tg_request_internal_limit = 16 * 1024 * 1024 * 8

-- `TG_BUFFER`: an address in the caller's space, its length and its access mode.
pub record TgBuffer : Type 0 where
  pub va : ℕ
  pub byte_count : ℕ
  pub writable : ℕ

-- `TG_REQUEST`.
pub record TgRequest : Type 0 where
  pub request : ℕ
  pub status : ℕ
  pub inline_byte_count : ℕ
  pub buffer_count : ℕ

-- `INLINE_SIZE`: the inline bytes, rounded up to whole 64-bit words.
abbrev pub inline_size : ℕ → ℕ
inline_size n = (n + sizeof_u64 - 1) / sizeof_u64 * sizeof_u64

-- `((va & ~PAGE_MASK) + count + ~PAGE_MASK) >> PAGE_SHIFT`, the pages that a buffer touches.
abbrev pub span_pages : ℕ → ℕ → ℕ
span_pages va count = (va % page_size + count + (page_size - 1)) / 2 ^ page_shift
