-- ===== src/Toolgate/User/Tests.antt =====
-- Tests and witnesses for Toolgate/User.
use prl_tools.Base.{
  ap, ℕ, ◌+◌, ◌≡◌, refl, true, false, some, [], ◌∷◌, ltb, if◌then◌else◌, ℤ, pos, neg, arith,
}
use prl_tools.Toolgate.Wire.{tg_request_secured_max}
use prl_tools.Toolgate.Request.{TgReqDesc}
use prl_tools.Toolgate.User.{
  Process, Heap, prl_tg_write, write_prepared, prl_tg_user_to_host_request_prepare,
  prl_tg_user_to_host_request_complete, prepare_inline, prepare_buffers, copy_back, copy_counts,
  copy_to_user, free_request,
}
use prl_tools.Toolgate.User.Leaks.{prl_tg_write-live}
use prl_tools.Toolgate.User.Secured.{IsUsers, prl_tg_write-IsUsers}

-- A request number `code` at address 4096, with 8 inline bytes and a buffer.
abbrev process : ℕ → Process
process code = record {
  pointer = λ buf. some 4096;
  header =
      λ at. some (record { request = code; status = 0; inline_byte_count = 8; buffer_count = 1 });
  bytes = λ at n. some (λ j. 5);
  buffers = λ at n. some (record { va = 8192; byte_count = 100; writable = 1 } ∷ []);
  writable = λ at n. true;
  vmalloc = λ n. true;
}

abbrev fresh : Heap
fresh = record { live = 3; fault = false; copied = [] }

-- The host counts its requests.
abbrev host : TgReqDesc → ℕ → ℤ × TgReqDesc × ℕ
host d s = (pos 0, d, s + 1)

-- And this one only those above the limit.
abbrev strict_host : TgReqDesc → ℕ → ℤ × TgReqDesc × ℕ
strict_host d s = (pos 0, d, if ltb tg_request_secured_max d.src.request then s + 1 else s)

abbrev out : ℤ × ℕ × Heap
out = prl_tg_write (process 40000) host true 0 0 fresh

all_copied : (out.0 ≡ pos 0) × (out.1 ≡ 1) × (out.2.live ≡ 3)
unfolding prl_tg_write write_prepared prl_tg_user_to_host_request_prepare prepare_inline
    prepare_buffers prl_tg_user_to_host_request_complete copy_back copy_counts copy_to_user
    free_request
all_copied = (refl, refl, refl)

secured_refused : prl_tg_write (process 0x7fff) host true 0 0 fresh ≡ (neg 22, 0, fresh)
unfolding prl_tg_write write_prepared prl_tg_user_to_host_request_prepare
secured_refused = refl

prl_tg_write-live_example :
    let (ret, t, g) = prl_tg_write (process 40000) host true 0 0 fresh in
    (g.live ≡ 3) × (g.fault ≡ false)
prl_tg_write-live_example = prl_tg_write-live (process 40000) host true 0 0 fresh

same_hosts : (d : TgReqDesc) (s : ℕ) → IsUsers d → host d s ≡ strict_host d s
same_hosts d s users = ap (λ t. (pos 0, d, t)) (ground (arith, users.request))

prl_tg_write-IsUsers_example :
    prl_tg_write (process 40000) host true 0 0 fresh
    ≡ prl_tg_write (process 40000) strict_host true 0 0 fresh
prl_tg_write-IsUsers_example =
    prl_tg_write-IsUsers (process 40000) host strict_host same_hosts true 0 0 fresh
