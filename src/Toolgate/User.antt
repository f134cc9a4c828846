-- ===== src/Toolgate/User.antt =====
-- The requests of user processes, in prltg.c: `prl_tg_user_to_host_request_prepare`,
-- `prl_tg_user_to_host_request_complete` and `prl_tg_write`. An address is a number; the memory of the
-- process is known by what a copy from it gives.
pub mod Leaks
pub mod Secured
mod Tests
use prl_tools.Base.{
  ℕ, zero, suc, ◌+◌, ◌-◌, ◌*◌, Bool, true, false, Option, none, some, List, [], ◌∷◌, ◌==◌, leb,
  ◌&&◌, if◌then◌else◌, ℤ, pos, neg, ◌==ℤ◌,
}
use prl_tools.Base.Errno.{efault, einval, enomem}
use prl_tools.Toolgate.Wire.{
  TgBuffer, TgRequest, inline_size, tg_status_success, tg_status_cancelled, tg_request_secured_max,
}
use prl_tools.Toolgate.Request.{TgReqDesc}

-- What belongs to the kernel and to the process: `copy_from_user` of the pointer, of a header, of
-- inline bytes and of buffers, which fails with none; whether `copy_to_user` succeeds for an address
-- and a size; whether `vmalloc` succeeds for a size.
pub record Process : Type 0 where
  pub pointer : ℕ → Option ℕ
  pub header : ℕ → Option TgRequest
  pub bytes : ℕ → ℕ → Option (ℕ → ℕ)
  pub buffers : ℕ → ℕ → Option (List TgBuffer)
  pub writable : ℕ → ℕ → Bool
  pub vmalloc : ℕ → Bool

-- What is copied to the process.
pub data Copied : Type 0 where
  header : TgRequest → Copied
  inline : (ℕ → ℕ) → Copied
  byte_count : ℕ → Copied

-- The allocations that live, whether one was freed that did not, and the copies, the last first.
pub record Heap : Type 0 where
  pub live : ℕ
  pub fault : Bool
  pub copied : List (ℕ × Copied)

-- `TG_REQ_DESC` with whether its pointers are not NULL.
pub record Prepared : Type 0 where
  pub desc : TgReqDesc
  pub idata : Bool
  pub sbuf : Bool

abbrev pub vfree : Heap → Heap
vfree h = record h { live = h.live - 1; fault = if h.live == 0 then true else h.fault }

abbrev pub alloc : Heap → Heap
alloc h = record h { live = h.live + 1 }

-- At `err_vm:`, and the end of `prl_tg_user_to_host_request_complete`.
pub free_request : Prepared → Heap → Heap
free_request p h = let g = if p.sbuf then vfree h else h in if p.idata then vfree g else g

-- A copy that succeeds is noted.
pub copy_to_user : Process → ℕ → ℕ → Copied → Heap → Bool × Heap
copy_to_user u at size c h =
    if u.writable at size then (true, record h { copied = (at, c) ∷ h.copied }) else (false, h)

prepare_buffers : Process → ℕ → Prepared → Heap → ℤ × Prepared × Heap
unfolding free_request
prepare_buffers u at p h =
    let n = p.desc.src.buffer_count in
    let q = record p { sbuf = true } in
    if n == 0
    then (pos 0, p, h)
    else if u.vmalloc (n * 16)
    then elim (u.buffers at n) [
      | none ↦ (neg efault, q, free_request q (alloc h))
      | some bs ↦ (pos 0, record q { desc = record p.desc { sbuf = bs } }, alloc h)
    ]
    else (neg enomem, p, free_request p h)

prepare_inline : Process → ℕ → Prepared → Heap → ℤ × Prepared × Heap
unfolding free_request prepare_buffers
prepare_inline u at p h =
    let n = p.desc.src.inline_byte_count in
    let q = record p { idata = true } in
    let next = at + inline_size n in
    if n == 0
    then prepare_buffers u next p h
    else if u.vmalloc n
    then elim (u.bytes at n) [
      | none ↦ (neg efault, q, free_request q (alloc h))
      | some got ↦
          prepare_buffers u next (record q { desc = record p.desc { idata = got } }) (alloc h)
    ]
    else (neg enomem, p, free_request p h)

-- `memset(sdesc, 0, sizeof(TG_REQ_DESC))` and `src`.
abbrev pub empty_desc : TgRequest → Prepared
empty_desc src = record {
  desc = record { src = src; sbuf = []; idata = λ j. 0; kernel_bufs = 0; restart = false };
  idata = false;
  sbuf = false;
}

-- The result with the description, which is not there before the header is read.
pub prl_tg_user_to_host_request_prepare : Process → ℕ → Heap → ℤ × Option Prepared × Heap
unfolding prepare_inline
prl_tg_user_to_host_request_prepare u ureq h = elim (u.header ureq) [
  | none ↦ (neg efault, none, h)
  | some src ↦
      let (ret, p, g) = prepare_inline u (ureq + 16) (empty_desc src) h in
      if leb src.request tg_request_secured_max then (neg einval, none, h) else (ret, some p, g)
]

-- The loop over the buffers, from the address of the count of the first.
pub copy_counts : Process → Bool → ℕ → List TgBuffer → ℤ → Heap → ℤ × Heap
unfolding copy_to_user
copy_counts u cancelled at [] ret h = (ret, h)
copy_counts u cancelled at (s ∷ ss) ret h =
    let (done, g) = copy_to_user u at 4 (byte_count s.byte_count) h in
    let kept = copy_counts u cancelled (at + 16) ss ret h in
    let copied = copy_counts u cancelled (at + 16) ss (if done then ret else neg efault) g in
    if cancelled then kept else copied

-- What is copied back after a call that returned 0.
pub copy_back : Process → ℕ → TgReqDesc → Heap → ℤ × Heap
unfolding copy_to_user copy_counts
copy_back u at d h =
    let src = d.src in
    let (head, g) = copy_to_user u at 16 (header src) h in
    let ret = if head then pos 0 else neg efault in
    let (sent, i) = copy_to_user u (at + 16) src.inline_byte_count (inline d.idata) g in
    let has_inline =
      if src.inline_byte_count == 0 then false else src.status == tg_status_success in
    let counts = at + 16 + inline_size src.inline_byte_count + 8 in
    let cancelled = src.status == tg_status_cancelled in
    if has_inline
    then copy_counts u cancelled counts d.sbuf (if sent then ret else neg efault) i
    else copy_counts u cancelled counts d.sbuf ret g

pub prl_tg_user_to_host_request_complete : Process → ℕ → Prepared → ℤ → Heap → ℤ × Heap
unfolding copy_back free_request
prl_tg_user_to_host_request_complete u at p ret h =
    let (back, g) = copy_back u at p.desc h in
    if ret ==ℤ pos 0 then (back, free_request p g) else (ret, free_request p h)

module _ {S : Type 0} (u : Process) (sync : TgReqDesc → S → ℤ × TgReqDesc × S) where
  -- `sync` is `call_tg_sync`, with a state of the host.
  pub write_prepared : ℕ → S → ℤ × Option Prepared × Heap → ℤ × S × Heap
  write_prepared ureq s (ret, none, g) = (ret, s, g)
  write_prepared ureq s (ret, some p, g) =
      let (called, d, t) = sync p.desc s in
      let (last, e) =
        prl_tg_user_to_host_request_complete u ureq (record p { desc = d }) called g in
      if ret ==ℤ pos 0 then (last, t, e) else (ret, s, g)

  -- `pointer_size` says whether `nbytes` is the size of a pointer of the process.
  pub prl_tg_write : Bool → ℕ → S → Heap → ℤ × S × Heap
  unfolding write_prepared
  prl_tg_write pointer_size buf s h =
      if pointer_size
      then elim (u.pointer buf) [
        | none ↦ (neg efault, s, h)
        | some ureq ↦ write_prepared ureq s (prl_tg_user_to_host_request_prepare u ureq h)
      ]
      else (neg einval, s, h)
