-- ===== src/Toolgate/Size/Fit.antt =====
-- What `tg_req_paged_size` returns, for requests within the limit and past the range of `int`.
use prl_tools.Base.{
  ℕ, zero, suc, ◌+◌, ◌-◌, ◌*◌, ◌/◌, ◌%◌, ◌^◌, ◌≤◌, ◌<◌, ◌≡◌, ◌≢◌, ◌↔◌, ap, ◌∙◌, Option, none, some,
  List, [], ◌∷◌, arith, ◌||◌, leb, ltb, ◌==◌, if◌then◌else◌, Bool-cases, inl, inr, ==_iff,
}
use native.Mathlib.Decide.{dec_lt}
use prl_tools.Toolgate.Wire.{
  TgBuffer, TgRequest, inline_size, span_pages, tg_request_internal_limit,
}
use prl_tools.Toolgate.Size.{
  buffers_size, target_pages, pages_loop, tg_req_paged_size, size, overflow, of_option,
}

-- The bytes of a buffer: its header and one page number for each page that it touches.
abbrev pub buffer_bytes : TgBuffer → ℕ
buffer_bytes b = if b.byte_count == 0 then 16 else 16 + span_pages b.va b.byte_count * 8

abbrev pub total_bytes : List TgBuffer → ℕ
total_bytes [] = 0
total_bytes (b ∷ bs) = buffer_bytes b + total_bytes bs

-- The request with one page number for itself, as a number without bounds.
abbrev pub request_bytes : TgRequest → List TgBuffer → ℕ
request_bytes src sbuf = 24 + inline_size src.inline_byte_count + total_bytes sbuf

-- `p` pages hold `n` bytes and the page numbers after the first, and no fewer pages do.
pub record IsLeastFit (n p : ℕ) : Type 0 where
  pub one_le : 1 ≤ p
  pub enough : n + 8 * (p - 1) ≤ 4096 * p
  pub least : (q : ℕ) → 1 ≤ q → n + 8 * (q - 1) ≤ 4096 * q → p ≤ q

buffers_size-total :
    (d : ℕ) (bs : List TgBuffer) → d < 2 ^ 32 → buffers_size d bs ≡ (d + total_bytes bs) % 2 ^ 32
unfolding buffers_size
buffers_size-total d [] h = omega arith
buffers_size-total d (b ∷ bs) h = elim (Bool-cases (b.byte_count == 0)) [
  | inl e ↦ rw e (omega (arith, buffers_size-total ((d + 16) % 2 ^ 32) bs (omega arith)))
  | inr e ↦ rw e (
      omega (
        arith,
        buffers_size-total (((d + 16) % 2 ^ 32 + span_pages b.va b.byte_count * 8) % 2 ^ 32) bs
            (omega arith),
      ))
]

-- The pages for `p` page numbers, while `dsize` is far from the range of `int`.
target_pages-small :
    (n p : ℕ)
    → n ≤ tg_request_internal_limit
    → 1 ≤ p
    → p ≤ 1 + n / 4088
    → target_pages (n + 8 * (p - 1)) ≡ (n + 8 * (p - 1) + 4095) / 4096
target_pages-small n p small one bound = omega arith

-- The new `dsize` has the words of the new `dpages`.
next_dsize :
    (n p t : ℕ)
    → n ≤ tg_request_internal_limit
    → 1 ≤ p
    → p ≤ 1 + n / 4088
    → 1 ≤ t
    → t ≤ 1 + n / 4088
    → (n + 8 * (p - 1) + t * 8 + 2 ^ 35 - p * 8) % 2 ^ 32 ≡ n + 8 * (t - 1)
next_dsize n p t small one bound one_t bound_t = omega arith

pages_loop-IsLeastFit :
    (fuel p n : ℕ)
    → 1 ≤ n
    → n ≤ tg_request_internal_limit
    → 1 ≤ p
    → ((q : ℕ) → 1 ≤ q → n + 8 * (q - 1) ≤ 4096 * q → p ≤ q)
    → n < 4088 * (fuel + p - 1)
    → (p' : ℕ) × (pages_loop fuel p (n + 8 * (p - 1)) ≡ some (n + 8 * (p' - 1))) × IsLeastFit n p'
unfolding pages_loop
pages_loop-IsLeastFit zero p n pos small one least enough =
    absurd (omega (arith, least (p - 1) (omega arith) (omega arith)))
pages_loop-IsLeastFit (suc fuel) p n pos small one least enough =
    let bound = least (1 + n / 4088) (omega arith) (omega arith) in
    let t : ℕ = target_pages (n + 8 * (p - 1)) in
    elim (Bool-cases (t == p)) [
      | inl e ↦
          let same : t ≡ p = (==_iff t p).0 e in
          (p, rw e, record { one_le = one; enough = omega arith; least = least })
      | inr e ↦
          let new : t ≢ p = λ (same : t ≡ p). cc (e, (==_iff t p).1 same) in
          let t_lem = target_pages-small n p small one bound in
          let one_t : 1 ≤ t = omega arith in
          let grows : p < t = elim (dec_lt p t) [
            | yes h ↦ h
            | no h ↦ absurd (omega (arith, least t one_t (omega arith)))
          ] in
          let least_t : (q : ℕ) → 1 ≤ q → n + 8 * (q - 1) ≤ 4096 * q → t ≤ q =
            λ q one_q fits. omega (arith, least q one_q fits) in
          let bound_t : t ≤ 1 + n / 4088 = least_t (1 + n / 4088) (omega arith) (omega arith) in
          rw (e, next_dsize n p t small one bound one_t bound_t)
            (pages_loop-IsLeastFit fuel t n pos small one_t least_t (omega arith))
    ]

pages_loop_start :
    (n : ℕ)
    → 24 ≤ n
    → n ≤ tg_request_internal_limit
    → (p : ℕ) × (pages_loop (suc n) 1 n ≡ some (n + 8 * (p - 1))) × IsLeastFit n p
pages_loop_start n pos small =
    let same : n + 8 * (1 - 1) ≡ n = omega arith in
    let start = pages_loop-IsLeastFit (suc n) 1 n in
    let (p, done, fits) =
      start (omega arith) small (omega arith) (λ q one_q _. one_q) (omega arith) in
    (p, rw same at done, fits)

-- Inside the limit the size is what the loop over `dpages` makes of it.
tg_req_paged_size-loop :
    (src : TgRequest) (sbuf : List TgBuffer) (n : ℕ)
    → buffers_size (24 + inline_size src.inline_byte_count) sbuf ≡ n
    → n ≤ tg_request_internal_limit
    → tg_req_paged_size src sbuf ≡ of_option (pages_loop (suc n) 1 n)
unfolding tg_req_paged_size
tg_req_paged_size-loop src sbuf n sum small = rw sum (ground arith)

dsize_wraps :
    (src : TgRequest) (sbuf : List TgBuffer)
    → src.inline_byte_count < 2 ^ 16
    → buffers_size (24 + inline_size src.inline_byte_count) sbuf ≡ request_bytes src sbuf % 2 ^ 32
dsize_wraps src sbuf short = buffers_size-total _ sbuf (omega arith)

-- A request of at most TG_REQUEST_INTERNAL_LIMIT bytes gets as its size its own bytes and one word
-- for each page after the first, for the fewest pages that hold both.
pub tg_req_paged_size-IsLeastFit :
    (src : TgRequest) (sbuf : List TgBuffer)
    → request_bytes src sbuf ≤ tg_request_internal_limit
    → (p : ℕ) × (tg_req_paged_size src sbuf ≡ size (request_bytes src sbuf + 8 * (p - 1)))
      × IsLeastFit (request_bytes src sbuf) p
unfolding tg_req_paged_size
tg_req_paged_size-IsLeastFit src sbuf small =
    let sum = buffers_size-total (24 + inline_size src.inline_byte_count) sbuf (omega arith) in
    let (p, done, fits) = pages_loop_start (request_bytes src sbuf) (omega arith) small in
    (p, tg_req_paged_size-loop src sbuf _ (omega arith) small ∙ ap of_option done, fits)

-- The sum is kept modulo 2 ^ 32: a request is refused exactly when what is left of its size passes
-- the limit.
pub tg_req_paged_size-overflow_iff :
    (src : TgRequest) (sbuf : List TgBuffer)
    → src.inline_byte_count < 2 ^ 16
    → (tg_req_paged_size src sbuf ≡ overflow)
      ↔ (tg_request_internal_limit < request_bytes src sbuf % 2 ^ 32)
unfolding tg_req_paged_size
tg_req_paged_size-overflow_iff src sbuf short = rw (dsize_wraps src sbuf short) (split _)
  where
    never : (o : Option ℕ) → of_option o ≡ overflow → ⊥
    never none e = cc
    never (some d) e = cc

    split :
        (n : ℕ)
        → ((if leb (2 ^ 31) n || ltb tg_request_internal_limit n
              then overflow
              else of_option (pages_loop (suc n) 1 n))
            ≡ overflow)
          ↔ (tg_request_internal_limit < n)
    split n = ground (arith, never (pages_loop (suc n) 1 n))

-- A request whose bytes pass 2^32 and wrap round to between 24 and the limit gets a size below its
-- bytes.
pub tg_req_paged_size_wraps :
    (src : TgRequest) (sbuf : List TgBuffer)
    → src.inline_byte_count < 2 ^ 16
    → 2 ^ 32 ≤ request_bytes src sbuf
    → 24 ≤ request_bytes src sbuf % 2 ^ 32
    → request_bytes src sbuf % 2 ^ 32 ≤ tg_request_internal_limit
    → (d : ℕ) × (tg_req_paged_size src sbuf ≡ size d) × (d < request_bytes src sbuf)
tg_req_paged_size_wraps src sbuf short big low high =
    let n : ℕ = request_bytes src sbuf % 2 ^ 32 in
    let (p, done, fits) = pages_loop_start n low high in
    let few = fits.least (1 + n / 4088) (omega arith) (omega arith) in
    (
      n + 8 * (p - 1),
      tg_req_paged_size-loop src sbuf n (dsize_wraps src sbuf short) high ∙ ap of_option done,
      omega arith,
    )
