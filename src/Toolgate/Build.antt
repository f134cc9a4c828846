-- ===== src/Toolgate/Build.antt =====
-- The building of a request in prltg_call.c: its pages, its buffers and their pages are handed to the
-- device, and taken back when it ends. The memory of the request after its header, from `RequestPages`
-- on, is a function from the index of a 64-bit word. A page is a number, and so is the bus address of a
-- mapping, in pages.
pub mod Unmap
pub mod Maps
use prl_tools.Base.{
  ℕ, zero, suc, ◌+◌, ◌-◌, ◌*◌, ◌/◌, ◌%◌, ◌^◌, Bool, true, false, Option, none, some, List, [], ◌∷◌,
  ◌++◌, ◌==◌, ◌&&◌, ltb, if◌then◌else◌, count, delete, length, reverse,
}
use prl_tools.Toolgate.Wire.{TgBuffer, TgRequest, inline_size, span_pages, tg_status_success}

-- `struct up_list_entry`
pub record Uple : Type 0 where
  pub writable : ℕ
  pub pages : List ℕ

-- The mappings that the device has, the references to pages, whether one was given up that was not
-- there, the memory of the request, its list of pages, and the pages that were marked dirty.
pub record Build : Type 0 where
  pub mapped : List ℕ
  pub pinned : List ℕ
  pub fault : Bool
  pub words : ℕ → ℕ
  pub up_list : List Uple
  pub dirty : List ℕ

-- What belongs to the kernel: `pci_map_page`, which fails with 0; the page of a vmalloc'ed request, by
-- its index; the pages that `get_user_pages` gets for an address and a number; the page of a kernel
-- address, if it is valid; whether `kmalloc` succeeds.
pub record Kernel : Type 0 where
  pub map_page : Build → ℕ → ℕ
  pub request_page : ℕ → ℕ
  pub user_pages : ℕ → ℕ → List ℕ
  pub kernel_page : ℕ → Option ℕ
  pub kmalloc : Build → Bool

abbrev pub write : ℕ → ℕ → Build → Build
write i v b = record b { words = λ j. if j == i then v else b.words j }

abbrev pub page_cache_get : ℕ → Build → Build
page_cache_get p b = record b { pinned = p ∷ b.pinned }

unfoldable pub page_cache_release : ℕ → Build → Build
page_cache_release p b = record b {
  pinned = delete p b.pinned;
  fault = if count p b.pinned == 0 then true else b.fault;
}

unfoldable pub pci_unmap_page : ℕ → Build → Build
pci_unmap_page a b = record b {
  mapped = delete a b.mapped;
  fault = if count a b.mapped == 0 then true else b.fault;
}

-- `for (i = 0; i < uple->count; i++) page_cache_release(uple->p[i])`
unfoldable pub release_pages : List ℕ → Build → Build
release_pages [] b = b
release_pages (p ∷ ps) b = release_pages ps (page_cache_release p b)

-- `n` mappings, of the words from `i` on.
unfoldable pub unmap_words : ℕ → ℕ → Build → Build
unmap_words zero i b = b
unmap_words (suc n) i b = unmap_words n (i + 1) (pci_unmap_page (b.words i) b)

-- `n` of them, downwards.
unfoldable pub unmap_words_down : ℕ → ℕ → Build → Build
unmap_words_down zero i b = b
unmap_words_down (suc n) i b = unmap_words_down n (i - 1) (pci_unmap_page (b.words i) b)

-- At `err:` of `tg_req_map_internal`, for the pages from the one at `i` on.
unfoldable pub undo_internal : ℕ → List ℕ → Build → Build
undo_internal i [] b = b
undo_internal i (p ∷ ps) b =
    undo_internal (i + 1) ps (page_cache_release p (pci_unmap_page (b.words i) b))

abbrev pub prltg_buf_is_kernelspace : ℕ → ℕ → Bool
prltg_buf_is_kernelspace kernel_bufs num = ltb num 32 && (kernel_bufs / 2 ^ num % 2 == 1)

module _ (k : Kernel) where
  -- The loop of `tg_req_map_internal`: `n` pages are left, `ps` are those before.
  unfoldable pub map_internal_loop : ℕ → ℕ → List ℕ → Build → Option (List ℕ) × Build
  map_internal_loop zero i ps b = (some ps, b)
  map_internal_loop (suc n) i ps b =
      let page = k.request_page i in
      let pinned = page_cache_get page b in
      let pfn = k.map_page pinned page in
      let c = write i pfn pinned in
      let rest =
        map_internal_loop n (i + 1) (ps ++ page ∷ []) (record c { mapped = pfn ∷ c.mapped }) in
      if pfn == 0 then (none, undo_internal 0 ps (page_cache_release page c)) else rest

  unfoldable pub map_internal_end : ℕ → Option (List ℕ) × Build → Option ℕ × Build
  map_internal_end n (none, c) = (none, c)
  map_internal_end n (some ps, c) =
      (some n, record c { up_list = record { writable = 0; pages = ps } ∷ c.up_list })

  -- The number of pages, or the -ENOMEM of the source.
  unfoldable pub tg_req_map_internal : ℕ → Build → Option ℕ × Build
  unfolding map_internal_end
  tg_req_map_internal n b =
      if k.kmalloc b then map_internal_end n (map_internal_loop n 0 [] b) else (none, b)

  -- The loop of `tg_req_map_user_pages` over `uple->p`, from its end. At a failure the result is the
  -- number of pages that were mapped before and the place of `pfn`.
  unfoldable pub map_user_loop : List ℕ → ℕ → ℕ → Build → Option (ℕ × ℕ) × Build
  map_user_loop [] pfn mapped b = (none, b)
  map_user_loop (p ∷ ps) pfn mapped b =
      let addr = k.map_page b p in
      let c = write pfn addr (record b { mapped = addr ∷ b.mapped }) in
      let rest = map_user_loop ps (pfn - 1) (mapped + 1) c in
      if addr == 0 then (some (mapped, pfn), b) else rest

  unfoldable pub map_user_end : TgBuffer → List ℕ → ℕ → Option (ℕ × ℕ) × Build → Option ℕ × Build
  map_user_end sbuf got dbuf (none, c) = (
    some dbuf,
    record c { up_list = record { writable = sbuf.writable; pages = got } ∷ c.up_list },
  )
  map_user_end sbuf got dbuf (some (mapped, pfn), c) =
      (none, release_pages got (unmap_words mapped pfn c))

  -- The result is the place after the page numbers, or `ERR_PTR(-ENOMEM)`.
  unfoldable pub tg_req_map_user_pages : ℕ → TgBuffer → ℕ → Build → Option ℕ × Build
  unfolding map_user_end
  tg_req_map_user_pages dbuf sbuf npages b =
      let got = k.user_pages sbuf.va npages in
      let c = record b { pinned = got ++ b.pinned } in
      if k.kmalloc b
      then if ltb (length got) npages
        then (none, release_pages got c)
        else map_user_end sbuf got (dbuf + npages)
            (map_user_loop (reverse got) (dbuf + npages - 1) 0 c)
      else (none, b)

  -- The loop of `tg_req_map_kernel_pages`, with `n` pages left. At a failure the result is the value
  -- of `i`.
  unfoldable pub map_kernel_loop : ℕ → ℕ → ℕ → ℕ → Build → Option ℕ × Build
  map_kernel_loop zero i buffer pfn b = (none, b)
  map_kernel_loop (suc n) i buffer pfn b = elim (k.kernel_page buffer) [
    | none ↦ (some i, b)
    | some page ↦
        let addr = k.map_page b page in
        let c = write pfn addr (record b { mapped = addr ∷ b.mapped }) in
        if addr == 0 then (some i, b) else map_kernel_loop n (i + 1) (buffer + 4096) (pfn + 1) c
  ]

  unfoldable pub map_kernel_end : ℕ → ℕ → Option ℕ × Build → Option ℕ × Build
  map_kernel_end dbuf npages (none, c) = (some (dbuf + npages), c)
  map_kernel_end dbuf npages (some i, c) = (none, unmap_words_down i (dbuf + i) c)

  unfoldable pub tg_req_map_kernel_pages : ℕ → TgBuffer → ℕ → Build → Option ℕ × Build
  unfolding map_kernel_end
  tg_req_map_kernel_pages dbuf sbuf npages b =
      map_kernel_end dbuf npages (map_kernel_loop npages 0 sbuf.va dbuf b)

  -- The header of a buffer, and its pages; `kernel` is `prltg_buf_is_kernelspace`.
  unfoldable pub map_buffer : Bool → ℕ → TgBuffer → Build → Option ℕ × Build
  map_buffer kernel dbuf sbuf b =
      let npages = span_pages sbuf.va sbuf.byte_count in
      let c =
        write (dbuf + 1) (sbuf.byte_count + sbuf.writable % 2 * 2 ^ 32) (write dbuf sbuf.va b) in
      if sbuf.byte_count == 0
      then (some (dbuf + 2), write (dbuf + 1) 0 (write dbuf 0 b))
      else if kernel
      then tg_req_map_kernel_pages (dbuf + 2) sbuf npages c
      else tg_req_map_user_pages (dbuf + 2) sbuf npages c

  -- The loop over the buffers, from number `nbuf` on. At a failure the result is its number.
  unfoldable pub map_buffers : ℕ → ℕ → ℕ → List TgBuffer → Build → Option ℕ × Build
  map_buffers kernel_bufs nbuf dbuf [] b = (none, b)
  map_buffers kernel_bufs nbuf dbuf (s ∷ ss) b =
      let (next, c) = map_buffer (prltg_buf_is_kernelspace kernel_bufs nbuf) dbuf s b in
      elim next [
        | none ↦ (some nbuf, c)
        | some dbuf' ↦ map_buffers kernel_bufs (nbuf + 1) dbuf' ss c
      ]
