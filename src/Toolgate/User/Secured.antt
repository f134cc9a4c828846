-- ===== src/Toolgate/User/Secured.antt =====
-- What a process can make the host see.
use prl_tools.Base.{
  ℕ, ◌+◌, ◌*◌, ◌<◌, ◌≡◌, refl, Bool, true, false, Option, none, some, ◌==◌, leb, if◌then◌else◌, ℤ,
  neg, arith, Bool-cases, Option-cases, inl, inr,
}
use prl_tools.Base.Errno.{efault, einval}
use mathlib.Core.Path.{subst}
use prl_tools.Toolgate.Wire.{TgRequest, inline_size, tg_request_secured_max}
use prl_tools.Toolgate.Request.{TgReqDesc}
use prl_tools.Toolgate.User.{
  Process, Heap, Prepared, alloc, prepare_buffers, prepare_inline, empty_desc,
  prl_tg_user_to_host_request_prepare, prl_tg_write, write_prepared,
}

-- A request that a process may send: none of those for drivers only, with no buffer of the kernel.
pub record IsUsers (d : TgReqDesc) : Type 0 where
  pub request : tg_request_secured_max < d.src.request
  pub user_bufs : d.kernel_bufs ≡ 0
  pub no_restart : d.restart ≡ false

abbrev IsUsersOption : ℤ × Option Prepared × Heap → Type 0
IsUsersOption (ret, p, h) = (q : Prepared) → p ≡ some q → IsUsers q.desc

-- The preparation keeps all of the description but its data.
abbrev KeepsHeader : TgReqDesc → ℤ × Prepared × Heap → Type 0
KeepsHeader d (ret, q, h) =
    (q.desc.src ≡ d.src) × (q.desc.kernel_bufs ≡ d.kernel_bufs) × (q.desc.restart ≡ d.restart)

prepare_buffers-KeepsHeader :
    (u : Process) (at : ℕ) (p : Prepared) (h : Heap) → KeepsHeader p.desc (prepare_buffers u at p h)
unfolding prepare_buffers
prepare_buffers-KeepsHeader u at p h =
    let n = p.desc.src.buffer_count in
    elim (Bool-cases (n == 0)) [
      | inl empty ↦ rw empty (refl, refl, refl)
      | inr full ↦ elim (Bool-cases (u.vmalloc (n * 16))) [
        | inr fails ↦ rw (full, fails) (refl, refl, refl)
        | inl room ↦ elim (Option-cases (u.buffers at n)) [
          | inl unread ↦ rw (full, room, unread) (refl, refl, refl)
          | inr (bs, read) ↦ rw (full, room, read) (refl, refl, refl)
        ]
      ]
    ]

prepare_inline-KeepsHeader :
    (u : Process) (at : ℕ) (p : Prepared) (h : Heap) → KeepsHeader p.desc (prepare_inline u at p h)
unfolding prepare_inline
prepare_inline-KeepsHeader u at p h =
    let n = p.desc.src.inline_byte_count in
    let q = record p { idata = true } in
    let next = at + inline_size n in
    elim (Bool-cases (n == 0)) [
      | inl empty ↦ rw empty (prepare_buffers-KeepsHeader u next p h)
      | inr full ↦ elim (Bool-cases (u.vmalloc n)) [
        | inr fails ↦ rw (full, fails) (refl, refl, refl)
        | inl room ↦ elim (Option-cases (u.bytes at n)) [
          | inl unread ↦ rw (full, room, unread) (refl, refl, refl)
          | inr (got, read) ↦
              rw (full, room, read)
                (prepare_buffers-KeepsHeader u next
                  (record q { desc = record p.desc { idata = got } }) (alloc h))
        ]
      ]
    ]

prepare-IsUsers :
    (u : Process) (ureq : ℕ) (h : Heap)
    → IsUsersOption (prl_tg_user_to_host_request_prepare u ureq h)
unfolding prl_tg_user_to_host_request_prepare
prepare-IsUsers u ureq h =
    let out : Option TgRequest → ℤ × Option Prepared × Heap = λ o. elim o [
      | none ↦ (neg efault, none, h)
      | some src ↦
          let (ret, p, g) = prepare_inline u (ureq + 16) (empty_desc src) h in
          if leb src.request tg_request_secured_max then (neg einval, none, h) else (ret, some p, g)
    ] in
    elim (u.header ureq) as (λ o. IsUsersOption (out o)) [
      | none ↦ λ q e. absurd (cc e)
      | some src ↦
          let p = empty_desc src in
          let r = prepare_inline u (ureq + 16) p h in
          let (same, bufs, restart) = prepare_inline-KeepsHeader u (ureq + 16) p h in
          elim (Bool-cases (leb src.request tg_request_secured_max)) [
            | inl secured ↦ rw secured (λ q e. absurd (cc e))
            | inr free ↦ rw free (λ q e.
                let it : r.1 ≡ q = cc e in
                subst (λ x. IsUsers x.desc) it
                  (record {
                    request = rw same (ground (arith, free));
                    user_bufs = bufs;
                    no_restart = restart;
                  }))
          ]
    ]

module _ {S : Type 0} (u : Process) (f g : TgReqDesc → S → ℤ × TgReqDesc × S) where
  write_prepared-same :
      ((d : TgReqDesc) (s : S) → IsUsers d → f d s ≡ g d s)
      → (ureq : ℕ) (s : S) (r : ℤ × Option Prepared × Heap) → IsUsersOption r
      → write_prepared u f ureq s r ≡ write_prepared u g ureq s r
  unfolding write_prepared
  write_prepared-same same ureq s (ret, none, h) users = refl
  write_prepared-same same ureq s (ret, some p, h) users = rw (same p.desc s (users p refl)) refl

  -- Two hosts that make the same of each request above TG_REQUEST_SECURED_MAX whose buffers are all of
  -- the user, and that is not to be restarted, make the same of whatever a process writes: no other
  -- request of a process reaches a host.
  pub prl_tg_write-IsUsers :
      ((d : TgReqDesc) (s : S) → IsUsers d → f d s ≡ g d s)
      → (pointer_size : Bool) (buf : ℕ) (s : S) (h : Heap)
      → prl_tg_write u f pointer_size buf s h ≡ prl_tg_write u g pointer_size buf s h
  unfolding prl_tg_write
  prl_tg_write-IsUsers same pointer_size buf s h = elim (Bool-cases pointer_size) [
    | inr odd ↦ rw odd refl
    | inl whole ↦ elim (Option-cases (u.pointer buf)) [
      | inl unread ↦ rw (whole, unread) refl
      | inr (ureq, read) ↦
          rw (whole, read)
            (write_prepared-same same ureq s (prl_tg_user_to_host_request_prepare u ureq h)
              (prepare-IsUsers u ureq h))
    ]
  ]
