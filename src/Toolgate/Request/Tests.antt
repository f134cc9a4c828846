-- ===== src/Toolgate/Request/Tests.antt =====
-- Tests and witnesses for Toolgate/Request and Toolgate/Build.
use prl_tools.Base.{
  ℕ, zero, suc, ◌+◌, ◌-◌, ◌/◌, ◌≤◌, ◌≡◌, ◌≢◌, refl, true, false, none, some, List, [], ◌∷◌, ◌==◌,
  if◌then◌else◌, count, delete, arith, length, pos,
}
use prl_tools.Toolgate.Wire.{TgBuffer}
use prl_tools.Toolgate.Size.{tg_req_paged_size, buffers_size, pages_loop}
use prl_tools.Toolgate.Build.{
  Build, Kernel, tg_req_map_internal, map_internal_loop, map_internal_end, map_buffers, map_buffer,
  tg_req_map_user_pages, map_user_loop, map_user_end, tg_req_map_kernel_pages, map_kernel_loop,
  map_kernel_end, release_pages, unmap_words, unmap_words_down, page_cache_release, pci_unmap_page,
}
use prl_tools.Toolgate.Build.Maps.Buffers.{GetsAtMost}
use prl_tools.Toolgate.Request.{
  TgReqDesc, Host, tg_req_create, create_sized, create_buffers, copy_in, call_tg_sync, submit_loop,
  tg_req_submit,
}
use prl_tools.Toolgate.Request.Unmap.{Left}
use prl_tools.Toolgate.Request.Call.{KeepsPages, call_tg_sync-Left, tg_req_submit-unmapped}

abbrev pages_from : ℕ → ℕ → List ℕ
pages_from zero p = []
pages_from (suc n) p = p ∷ pages_from n (p + 1)

length-pages_from : (n p : ℕ) → length (pages_from n p) ≤ n
length-pages_from zero p = omega arith
length-pages_from (suc n) p = omega (arith, length-pages_from n (p + 1))

-- The page `bad` has no mapping; user memory is at its own pages.
abbrev kernel : ℕ → Kernel
kernel bad = record {
  map_page = λ b p. if p == bad then 0 else p + 100;
  request_page = λ i. i + 50;
  user_pages = λ va n. pages_from n (va / 4096);
  kernel_page = λ buffer. some (buffer / 4096);
  kmalloc = λ b. true;
}

abbrev fresh : Build
fresh = record {
  mapped = 107 ∷ [];
  pinned = 7 ∷ [];
  fault = false;
  words = λ j. 0;
  up_list = [];
  dirty = [];
}

abbrev two_pages : TgBuffer
two_pages = record { va = 8192; byte_count = 5000; writable = 1 }

abbrev call : TgReqDesc
call = record {
  src = record { request = 8; status = 0; inline_byte_count = 8; buffer_count = 2 };
  sbuf = two_pages ∷ record { va = 16384; byte_count = 100; writable = 0 } ∷ [];
  idata = λ j. 5;
  kernel_bufs = 2;
  restart = false;
}

-- The host answers at once or later, and writes to the inline bytes.
abbrev host : Host
host = record {
  answers = 4294967295 ∷ [];
  locked = 4294967295;
  status = 0;
  memory = λ w j. if j == 1 then 9 else w j;
}

created : (tg_req_create (kernel 0) call true true 0 fresh).0 ≡ some 1
unfolding tg_req_create create_sized create_buffers tg_req_paged_size buffers_size pages_loop
    tg_req_map_internal map_internal_loop map_internal_end map_buffers map_buffer
    tg_req_map_user_pages map_user_loop map_user_end tg_req_map_kernel_pages map_kernel_loop
    map_kernel_end copy_in
created = refl

abbrev after_create : Build
after_create = (tg_req_create (kernel 0) call true true 0 fresh).1

internal_fails : (tg_req_map_internal (kernel 51) 3 fresh).0 ≡ none
unfolding tg_req_map_internal map_internal_loop map_internal_end
internal_fails = refl

gets_at_most : GetsAtMost (kernel 0)
gets_at_most va n = length-pages_from n (va / 4096)

live : (p : ℕ) → (c : Build) → (kernel 0).map_page c (p + 50) ≢ 0
live p c = ground arith

keeps : KeepsPages host call 1
keeps w j own = ground (arith, own)

answered : submit_loop (kernel 0) false host.answers ≡ some 4294967295
unfolding submit_loop
answered = refl

call_tg_sync-Left_example :
    (e : TgReqDesc) × (c : Build) × (call_tg_sync (kernel 0) host call true true 0 fresh
      ≡ some (pos 0, e, c))
    × (e.src.status ≡ 0)
    × Left (λ x. count x fresh.mapped) (λ x. count x fresh.pinned) false c
call_tg_sync-Left_example =
    call_tg_sync-Left (kernel 0) host call 0 1 4294967295 fresh gets_at_most created (live 0) keeps
      answered

-- With the second of two pages not mapped, the words that are taken for mappings are not those.
user_pages_fault : (tg_req_map_user_pages (kernel 2) 10 two_pages 2 fresh).1.fault ≡ true
unfolding tg_req_map_user_pages map_user_loop map_user_end unmap_words release_pages
    page_cache_release pci_unmap_page delete
user_pages_fault = refl

kernel_pages_fault : (tg_req_map_kernel_pages (kernel 3) 10 two_pages 2 fresh).1.fault ≡ true
unfolding tg_req_map_kernel_pages map_kernel_loop map_kernel_end unmap_words_down page_cache_release
    pci_unmap_page delete
kernel_pages_fault = refl

tg_req_submit-unmapped_example :
    (c : Build) × (tg_req_submit (kernel 50) false [] 0 fresh ≡ some (4026531840, 0, c))
    × (c.fault ≡ true)
    × (count 50 c.pinned ≡ count 50 fresh.pinned - 1)
tg_req_submit-unmapped_example = tg_req_submit-unmapped (kernel 50) false [] 0 fresh refl refl
