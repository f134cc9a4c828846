-- ===== src/Toolgate/User/Leaks.antt =====
-- A request of a user process leaves no memory of the kernel behind.
use prl_tools.Base.{
  ◌∙◌, ℕ, ◌+◌, ◌*◌, ◌≡◌, refl, Bool, true, false, Option, none, some, List, [], ◌∷◌, ◌==◌, ◌==ℤ◌,
  leb, if◌then◌else◌, ℤ, pos, neg, arith, Bool-cases, Option-cases, inl, inr,
}
use prl_tools.Base.Errno.{efault, einval}
use prl_tools.Toolgate.Wire.{
  TgBuffer, TgRequest, inline_size, tg_status_success, tg_status_cancelled, tg_request_secured_max,
}
use prl_tools.Toolgate.Request.{TgReqDesc}
use prl_tools.Toolgate.User.{
  Process, Heap, Prepared, Copied, byte_count, header, inline, alloc, free_request, copy_to_user,
  prepare_buffers, prepare_inline, empty_desc, prl_tg_user_to_host_request_prepare, copy_counts,
  copy_back, prl_tg_user_to_host_request_complete, prl_tg_write, write_prepared,
}

-- The allocations of a description.
abbrev owned : Prepared → ℕ
owned p = (if p.sbuf then 1 else 0) + (if p.idata then 1 else 0)

-- `n` allocations more than in `h` are there.
record Owes (n : ℕ) (h g : Heap) : Type 0 where
  live : g.live ≡ h.live + n
  fault : g.fault ≡ h.fault

-- The same of a result with its state.
abbrev Result : {A : Type 0} → ℕ → Heap → A × Heap → Type 0
Result n h (ret, g) = Owes n h g

free_request-Owes : (p : Prepared) (h g : Heap) → Owes (owned p) h g → Owes 0 h (free_request p g)
unfolding free_request
free_request-Owes p h g o = record {
  live = ground (arith, o.live);
  fault = ground (arith, o.live, o.fault);
}

-- What a step of the preparation leaves: the allocations of its description, or none if it failed.
abbrev Prepares : Heap → ℤ × Prepared × Heap → Type 0
Prepares h (ret, p, g) = Owes (if ret ==ℤ pos 0 then owned p else 0) h g

prepare_buffers-Prepares :
    (u : Process) (at : ℕ) (p : Prepared) (h g : Heap)
    → p.sbuf ≡ false
    → Owes (owned p) h g
    → Prepares h (prepare_buffers u at p g)
unfolding prepare_buffers
prepare_buffers-Prepares u at p h g none_yet o =
    let n = p.desc.src.buffer_count in
    let q = record p { sbuf = true } in
    let more : Owes (owned q) h (alloc g) = record {
      live = ground (arith, o.live, none_yet);
      fault = o.fault;
    } in
    elim (Bool-cases (n == 0)) [
      | inl empty ↦ rw empty o
      | inr full ↦ elim (Bool-cases (u.vmalloc (n * 16))) [
        | inr fails ↦ rw (full, fails) (free_request-Owes p h g o)
        | inl room ↦ elim (Option-cases (u.buffers at n)) [
          | inl unread ↦ rw (full, room, unread) (free_request-Owes q h (alloc g) more)
          | inr (bs, read) ↦ rw (full, room, read) more
        ]
      ]
    ]

prepare_inline-Prepares :
    (u : Process) (at : ℕ) (src : TgRequest) (h : Heap)
    → Prepares h (prepare_inline u at (empty_desc src) h)
unfolding prepare_inline
prepare_inline-Prepares u at src h =
    let n = src.inline_byte_count in
    let p = empty_desc src in
    let q = record p { idata = true } in
    let next = at + inline_size n in
    let more : Owes 1 h (alloc h) = record { live = refl; fault = refl } in
    let start : Owes 0 h h = record { live = omega arith; fault = refl } in
    elim (Bool-cases (n == 0)) [
      | inl empty ↦ rw empty (prepare_buffers-Prepares u next p h h refl start)
      | inr full ↦ elim (Bool-cases (u.vmalloc n)) [
        | inr fails ↦ rw (full, fails) (free_request-Owes p h h start)
        | inl room ↦ elim (Option-cases (u.bytes at n)) [
          | inl unread ↦ rw (full, room, unread) (free_request-Owes q h (alloc h) more)
          | inr (got, read) ↦
              rw (full, room, read)
                (prepare_buffers-Prepares u next (record q { desc = record p.desc { idata = got } })
                  h (alloc h) refl more)
        ]
      ]
    ]

-- Copying back allocates nothing.
copy_to_user-Owes :
    (u : Process) (at size : ℕ) (c : Copied) (n : ℕ) (h g : Heap)
    → Owes n h g
    → Owes n h (copy_to_user u at size c g).1
unfolding copy_to_user
copy_to_user-Owes u at size c n h g o =
    elim (u.writable at size)
      as (λ t.
        Result n h (if t then (true, record g { copied = (at, c) ∷ g.copied }) else (false, g))) [
          | true ↦ record { live = o.live; fault = o.fault }
          | false ↦ o
        ]

copy_counts-Owes :
    (u : Process) (cancelled : Bool) (at : ℕ) (ss : List TgBuffer) (ret : ℤ) (n : ℕ) (h g : Heap)
    → Owes n h g
    → Owes n h (copy_counts u cancelled at ss ret g).1
unfolding copy_counts
copy_counts-Owes u cancelled at [] ret n h g o = o
copy_counts-Owes u true at (s ∷ ss) ret n h g o = copy_counts-Owes u true (at + 16) ss ret n h g o
copy_counts-Owes u false at (s ∷ ss) ret n h g o =
    let (done, c) = copy_to_user u at 4 (byte_count s.byte_count) g in
    copy_counts-Owes u false (at + 16) ss (if done then ret else neg efault) n h c
      (copy_to_user-Owes u at 4 (byte_count s.byte_count) n h g o)

copy_back-Owes :
    (u : Process) (at : ℕ) (d : TgReqDesc) (n : ℕ) (h g : Heap)
    → Owes n h g
    → Owes n h (copy_back u at d g).1
unfolding copy_back
copy_back-Owes u at d n h g o =
    let src = d.src in
    let (head, c) = copy_to_user u at 16 (header src) g in
    let ret = if head then pos 0 else neg efault in
    let (sent, e) = copy_to_user u (at + 16) src.inline_byte_count (inline d.idata) c in
    let has_inline =
      if src.inline_byte_count == 0 then false else src.status == tg_status_success in
    let counts = at + 16 + inline_size src.inline_byte_count + 8 in
    let cancelled = src.status == tg_status_cancelled in
    let first = copy_to_user-Owes u at 16 (header src) n h g o in
    let second = copy_to_user-Owes u (at + 16) src.inline_byte_count (inline d.idata) n h c first in
    elim has_inline
      as (λ t. Result n h (
        if t
        then copy_counts u cancelled counts d.sbuf (if sent then ret else neg efault) e
        else copy_counts u cancelled counts d.sbuf ret c)) [
          | true ↦
              copy_counts-Owes u cancelled counts d.sbuf (if sent then ret else neg efault) n h e
                second
          | false ↦ copy_counts-Owes u cancelled counts d.sbuf ret n h c first
        ]

complete-Owes :
    (u : Process) (at : ℕ) (p : Prepared) (ret : ℤ) (h g : Heap)
    → Owes (owned p) h g
    → Owes 0 h (prl_tg_user_to_host_request_complete u at p ret g).1
unfolding prl_tg_user_to_host_request_complete
complete-Owes u at p ret h g o =
    let (back, c) = copy_back u at p.desc g in
    elim (ret ==ℤ pos 0)
      as (λ t. Result 0 h (if t then (back, free_request p c) else (ret, free_request p g))) [
        | true ↦ free_request-Owes p h c (copy_back-Owes u at p.desc (owned p) h g o)
        | false ↦ free_request-Owes p h g o
      ]

-- The allocations of a description, if there is one.
abbrev PreparesOption : Heap → ℤ × Option Prepared × Heap → Type 0
PreparesOption h (ret, none, g) = Owes 0 h g
PreparesOption h (ret, some p, g) = Prepares h (ret, p, g)

prepare-Owes :
    (u : Process) (ureq : ℕ) (h : Heap)
    → PreparesOption h (prl_tg_user_to_host_request_prepare u ureq h)
unfolding prl_tg_user_to_host_request_prepare
prepare-Owes u ureq h =
    let start : Owes 0 h h = record { live = omega arith; fault = refl } in
    let out : Option TgRequest → ℤ × Option Prepared × Heap = λ o. elim o [
      | none ↦ (neg efault, none, h)
      | some src ↦
          let (ret, p, g) = prepare_inline u (ureq + 16) (empty_desc src) h in
          if leb src.request tg_request_secured_max then (neg einval, none, h) else (ret, some p, g)
    ] in
    elim (u.header ureq) as (λ o. PreparesOption h (out o)) [
      | none ↦ start
      | some src ↦
          let r = prepare_inline u (ureq + 16) (empty_desc src) h in
          elim (leb src.request tg_request_secured_max)
            as (λ t. PreparesOption h (if t then (neg einval, none, h) else (r.0, some r.1, r.2))) [
              | true ↦ start
              | false ↦ prepare_inline-Prepares u (ureq + 16) src h
            ]
    ]

abbrev Written : {S : Type 0} → Heap → ℤ × S × Heap → Type 0
Written h (ret, t, g) = Owes 0 h g

module _ {S : Type 0} (u : Process) (sync : TgReqDesc → S → ℤ × TgReqDesc × S) where
  write_prepared-Owes :
      (ureq : ℕ) (s : S) (h : Heap) (r : ℤ × Option Prepared × Heap)
      → PreparesOption h r
      → Written h (write_prepared u sync ureq s r)
  unfolding write_prepared
  write_prepared-Owes ureq s h (ret, none, g) o = o
  write_prepared-Owes ureq s h (ret, some p, g) o =
      let (called, d, t) = sync p.desc s in
      let (last, e) =
        prl_tg_user_to_host_request_complete u ureq (record p { desc = d }) called g in
      elim (ret ==ℤ pos 0)
          as (λ b.
            Owes (if b then owned p else 0) h g
            → Written h (if b then (last, t, e) else (ret, s, g))) [
              | true ↦ λ own. complete-Owes u ureq (record p { desc = d }) called h g own
              | false ↦ λ own. own
            ]
        o

  -- A write to the device, whatever the process sends and whatever the host makes of it, frees what it
  -- has allocated: as many allocations live as before, and none was freed twice.
  pub prl_tg_write-live :
      (pointer_size : Bool) (buf : ℕ) (s : S) (h : Heap)
      → let (ret, t, g) = prl_tg_write u sync pointer_size buf s h in
        (g.live ≡ h.live) × (g.fault ≡ h.fault)
  unfolding prl_tg_write
  prl_tg_write-live pointer_size buf s h =
      let start : Owes 0 h h = record { live = omega arith; fault = refl } in
      let out : Option ℕ → ℤ × S × Heap = λ o. elim o [
        | none ↦ (neg efault, s, h)
        | some ureq ↦ write_prepared u sync ureq s (prl_tg_user_to_host_request_prepare u ureq h)
      ] in
      let read : Written h (out (u.pointer buf)) =
        elim (u.pointer buf) as (λ o. Written h (out o)) [
          | none ↦ start
          | some ureq ↦
              write_prepared-Owes ureq s h (prl_tg_user_to_host_request_prepare u ureq h)
                (prepare-Owes u ureq h)
        ] in
      let owes : Written h (prl_tg_write u sync pointer_size buf s h) =
        elim pointer_size
          as (λ b. Written h (if b then out (u.pointer buf) else (neg einval, s, h))) [
            | true ↦ read
            | false ↦ start
          ] in
      (owes.live ∙ omega arith, owes.fault)
