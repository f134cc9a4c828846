-- ===== src/Toolgate/Request.antt =====
-- A request from its creation to its end, in prltg_call.c: `tg_req_create`, `tg_req_submit`,
-- `tg_req_destroy` and the calls that put them together. What the queue does meanwhile is in Queue.
pub mod Unmap
pub mod Create
pub mod Call
mod Tests
use prl_tools.Base.{
  ℕ, zero, suc, ◌+◌, ◌-◌, ◌*◌, ◌/◌, ◌%◌, ◌^◌, Bool, true, false, Option, none, some, List, [], ◌∷◌,
  ◌==◌, ltb, leb, ◌&&◌, if◌then◌else◌, take, drop, length, ◌++◌, ℤ, pos, neg,
}
use prl_tools.Base.Errno.{enomem}
use prl_tools.Toolgate.Wire.{
  TgBuffer, TgRequest, inline_size, span_pages, tg_status_success, tg_status_pending,
  tg_status_cancelled,
}
use prl_tools.Toolgate.Size.{PagedSize, overflow, size, out_of_fuel, tg_req_paged_size}
use prl_tools.Toolgate.Build.{
  Uple, Build, Kernel, page_cache_get, page_cache_release, pci_unmap_page, release_pages,
  unmap_words, tg_req_map_internal, map_buffers,
}

-- `memcpy` of `n` bytes between words: the last word keeps the bytes past the end.
abbrev pub merge : ℕ → ℕ → ℕ → ℕ
merge n new old = if leb 8 n then new else new % 2 ^ (8 * n) + old / 2 ^ (8 * n) * 2 ^ (8 * n)

-- To the words from `i` on.
pub copy_in : ℕ → ℕ → (ℕ → ℕ) → Build → Build
copy_in n i idata b = record b {
  words = λ j.
      if leb i j && ltb (8 * (j - i)) n
      then merge (n - 8 * (j - i)) (idata (j - i)) (b.words j)
      else b.words j;
}

-- From there.
pub copy_out : ℕ → ℕ → (ℕ → ℕ) → Build → ℕ → ℕ
copy_out n i idata b j =
    if ltb (8 * j) n then merge (n - 8 * j) (b.words (i + j)) (idata j) else idata j

-- `TG_REQ_DESC` with its request: `idata` by words.
pub record TgReqDesc : Type 0 where
  pub src : TgRequest
  pub sbuf : List TgBuffer
  pub idata : ℕ → ℕ
  pub kernel_bufs : ℕ
  pub restart : Bool

-- `SetPageDirty` and `page_cache_release` for each entry of the list.
pub tg_req_unmap_user_pages : List Uple → Build → Build
tg_req_unmap_user_pages [] b = record b { up_list = [] }
tg_req_unmap_user_pages (u ∷ us) b =
    let c = if u.writable == 0 then b else record b { dirty = u.pages ++ b.dirty } in
    tg_req_unmap_user_pages us (release_pages u.pages c)

-- The loop of `tg_req_unmap_pages` over the buffers, with `dst->Status`.
pub unmap_buffers : ℕ → ℕ → List TgBuffer → Build → List TgBuffer × Build
unmap_buffers status dbuf [] b = ([], b)
unmap_buffers status dbuf (s ∷ ss) b =
    let npages = span_pages s.va s.byte_count in
    let count = if status == tg_status_success then b.words (dbuf + 1) % 2 ^ 32 else s.byte_count in
    let empty = unmap_buffers status (dbuf + 2) ss b in
    let full = unmap_buffers status (dbuf + 2 + npages) ss (unmap_words npages (dbuf + 2) b) in
    if s.byte_count == 0
    then (s ∷ empty.0, empty.1)
    else (record s { byte_count = count } ∷ full.0, full.1)

-- `dpages` is the count of `tg_req_unmap_internal`, computed again from the size.
pub tg_req_unmap_pages : ℕ → ℕ → ℕ → TgReqDesc → Build → TgReqDesc × Build
tg_req_unmap_pages status dpages nbuf d b =
    let c = unmap_words dpages 0 b in
    let inline = d.src.inline_byte_count in
    let (sbuf, e) = unmap_buffers status (dpages + inline_size inline / 8) (take nbuf d.sbuf) c in
    (
      record d {
        idata = if status == tg_status_success then copy_out inline dpages d.idata c else d.idata;
        sbuf = sbuf ++ drop nbuf d.sbuf;
      },
      tg_req_unmap_user_pages e.up_list e,
    )

-- What the host makes of the request: its memory, and its status when it ends.
pub record Host : Type 0 where
  pub answers : List ℕ
  pub locked : ℕ
  pub status : ℕ
  pub memory : (ℕ → ℕ) → ℕ → ℕ

pub tg_req_destroy : ℕ → ℕ → TgReqDesc → Build → TgReqDesc × Build
tg_req_destroy status dpages d b =
    let (e, c) = tg_req_unmap_pages status dpages (length d.sbuf) d b in
    (record e { src = record e.src { status = status } }, c)

module _ (k : Kernel) where
  -- After `tg_req_map_internal`.
  create_buffers : TgReqDesc → Option ℕ × Build → Option ℕ × Build
  create_buffers d (none, b) = (none, b)
  create_buffers d (some dpages, b) =
      let inline = d.src.inline_byte_count in
      let (failed, c) =
        map_buffers k d.kernel_bufs 0 (dpages + inline_size inline / 8) d.sbuf
          (copy_in inline dpages d.idata b) in
      elim failed [
        | none ↦ (some dpages, c)
        | some nbuf ↦ (none, (tg_req_unmap_pages tg_status_pending dpages nbuf d c).1)
      ]

  create_sized : TgReqDesc → Bool → ℕ → PagedSize → Build → Option ℕ × Build
  unfolding create_buffers
  create_sized d room_dst dst overflow b = (none, b)
  create_sized d room_dst dst out_of_fuel b = (none, b)
  create_sized d room_dst dst (size dsize) b =
      if room_dst
      then create_buffers d
          (tg_req_map_internal k (span_pages dst dsize) (record b { up_list = [] }))
      else (none, b)

  -- The number of pages of the request, or `NULL`. `room` and `room_dst` tell whether the two `vmalloc`
  -- succeed, `dst` is the address of the second.
  pub tg_req_create : TgReqDesc → Bool → Bool → ℕ → Build → Option ℕ × Build
  unfolding create_sized
  tg_req_create d room room_dst dst b =
      if room then create_sized d room_dst dst (tg_req_paged_size d.src d.sbuf) b else (none, b)

  -- The `do` loop, for the statuses that the host answers with, and the status under the lock.
  pub submit_loop : Bool → List ℕ → Option ℕ
  submit_loop restart [] = none
  submit_loop restart (ret ∷ more) =
      if (ret == tg_status_success) && restart then submit_loop restart more else some ret

  -- At `out:` of `tg_req_submit` and of `tg_req_complete`.
  release_request : ℕ → Build → Build
  release_request phys b = pci_unmap_page phys (page_cache_release (k.request_page 0) b)

  -- `answers` are the statuses after each `TG_PORT_SUBMIT`, `locked` is the one under the lock. The
  -- result is that of the source, and `req->phys`; none if the host never stops restarting.
  pub tg_req_submit : Bool → List ℕ → ℕ → Build → Option (ℕ × ℕ × Build)
  unfolding release_request
  tg_req_submit restart answers locked b =
      let page = k.request_page 0 in
      let phys = k.map_page b page in
      let c = page_cache_get page (record b { mapped = phys ∷ b.mapped }) in
      if phys == 0
      then some (tg_status_cancelled, phys, release_request phys b)
      else elim (submit_loop restart answers) [
        | none ↦ none
        | some ret ↦
            let last = if ret == tg_status_pending then locked else ret in
            some (last, phys, if last == tg_status_pending then c else release_request phys c)
      ]

  sync_submitted : Host → ℕ → TgReqDesc → Option (ℕ × ℕ × Build) → Option (ℤ × TgReqDesc × Build)
  sync_submitted h dpages d none = none
  sync_submitted h dpages d (some (ret, phys, b)) =
      let answered = if phys == 0 then b else record b { words = h.memory b.words } in
      let c = if ret == tg_status_pending then release_request phys answered else answered in
      let status = if phys == 0 then tg_status_pending else h.status in
      let (e, freed) = tg_req_destroy status dpages d c in some (pos 0, e, freed)

  sync_created : Host → TgReqDesc → Option ℕ × Build → Option (ℤ × TgReqDesc × Build)
  unfolding sync_submitted
  sync_created h d (none, b) = some (neg enomem, d, b)
  sync_created h d (some dpages, b) =
      sync_submitted h dpages d (tg_req_submit d.restart h.answers h.locked b)

  -- `call_tg_sync`; after `call_tg_async_start` and `call_tg_async_wait` the same has been done.
  pub call_tg_sync : Host → TgReqDesc → Bool → Bool → ℕ → Build → Option (ℤ × TgReqDesc × Build)
  unfolding sync_created
  call_tg_sync h d room room_dst dst b = sync_created h d (tg_req_create d room room_dst dst b)
