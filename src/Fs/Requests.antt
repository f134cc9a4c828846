-- ===== src/Fs/Requests.antt =====
-- kmods-src/prl_fs/SharedFolders/Guest/Linux/prl_fs/interface.c: the requests to the host. The host and
-- the queue of Toolgate that carries the requests are a function on a state of theirs.
pub mod Release
pub mod Unknown
use prl_tools.Base.{
  ℕ, zero, suc, ◌*◌, ◌%◌, ◌^◌, Bool, true, false, List, [], ◌∷◌, ◌==◌, if◌then◌else◌, ℤ, pos, neg,
  ◌==ℤ◌,
}
use prl_tools.Base.Errno.{enomem, erestartsys}
use prl_tools.Toolgate.Wire.{tg_status_cancelled, tg_status_success}
use prl_tools.Fs.Status.{result}
use prl_tools.Fs.Flags.{FileDesc, FileInfo, prlfs_file_desc_to_info, prlfs_file_info_to_desc}

-- What `Buffer` of a `TG_BUFFER` points to.
pub data Payload : Type 0 where
  at : ℕ → Payload
  desc : FileDesc → Payload
  word : ℕ → Payload

-- A `TG_BUFFER`; `kernel` is its bit of `kernel_bufs`.
pub record Buf : Type 0 where
  pub buffer : Payload
  pub byte_count : ℕ
  pub writable : ℕ
  pub kernel : Bool

-- The request that `sdesc` stands for; `idata` are the words of the inline data.
pub record Desc : Type 0 where
  pub request : ℕ
  pub inline_byte_count : ℕ
  pub buffer_count : ℕ
  pub idata : List ℕ
  pub sbuf : List Buf
  pub flags : ℕ

-- `fsinfo_t`.
pub record FsInfo : Type 0 where
  pub total_allocation_units : ℕ
  pub available_allocation_units : ℕ
  pub sectors_per_allocation_unit : ℕ
  pub bytes_per_sector : ℕ

-- What a call leaves behind: the status, `ByteCount` of the last buffer, the contents of a file
-- descriptor and of the inline data.
pub record Reply : Type 0 where
  pub status : ℕ
  pub byte_count : ℕ
  pub file_desc : FileDesc
  pub fsinfo : FsInfo

-- `struct buffer_descriptor`.
pub record BufferDescriptor : Type 0 where
  pub buf : ℕ
  pub len : ℕ
  pub write : ℕ
  pub user : ℕ
  pub flags : ℕ

abbrev pub pfd_len : ℕ
pfd_len = 24

abbrev pub prlfs_sff_host_inodes : ℕ
prlfs_sff_host_inodes = 1

abbrev pub sizeof_sf_parameters : ℕ
sizeof_sf_parameters = 48

-- `sizeof(&Req.i)`, the size of a pointer.
abbrev pub sizeof_pointer : ℕ
sizeof_pointer = 8

-- `init_tg_buffer`: a 32-bit `ByteCount`.
pub init_tg_buffer : Payload → ℕ → ℕ → ℕ → Buf
init_tg_buffer buffer size write user = record {
  buffer = buffer;
  byte_count = size % 2 ^ 32;
  writable = if write == 0 then 0 else 1;
  kernel = user == 0;
}

-- `init_tg_request` and `init_req_desc` with the buffers that follow.
pub init_request : ℕ → ℕ → ℕ → List ℕ → List Buf → Desc
init_request request isize bnum idata sbuf = record {
  request = request;
  inline_byte_count = isize % 2 ^ 16;
  buffer_count = bnum % 2 ^ 16;
  idata = idata;
  sbuf = sbuf;
  flags = 0;
}

-- The inline list that the requests share: the flags, and the padding before the first buffer.
pub with_inodes : Bool → ℕ → ℕ → List Buf → Desc
unfolding init_request
with_inodes false request bnum sbuf = init_request request 0 bnum [] sbuf
with_inodes true request bnum sbuf =
    init_request request sizeof_pointer bnum (prlfs_sff_host_inodes ∷ 0 ∷ []) sbuf

-- `ret == 0` and `Req.Req.Status == TG_STATUS_SUCCESS`.
pub succeeded : ℤ → ℕ → Bool
succeeded ret status = if ret ==ℤ pos 0 then status == tg_status_success else false

unfoldable pub cancelled : ℤ → ℕ → Bool
cancelled ret status = if ret ==ℤ pos 0 then status == tg_status_cancelled else false

module _ (H : Type 0) (call_tg_sync : Desc → H → ℤ × Reply × H) where
  -- The calls that look at the status alone.
  pub send : Desc → H → ℤ × H
  send sdesc h = let (ret, r, h') = call_tg_sync sdesc h in (result ret r.status, h')

  pub host_request_get_sf_list : ℕ → ℕ → H → ℤ × H
  host_request_get_sf_list list size =
      send (init_request 0x220 0 1 [] (init_tg_buffer (at list) size 1 0 ∷ []))

  pub host_request_sf_param : ℕ → ℕ → ℕ → H → ℤ × H
  host_request_sf_param list size psp = send (
      init_request 0x221 0 2 []
        (init_tg_buffer (at psp) sizeof_sf_parameters 1 0 ∷ init_tg_buffer (at list) size 1 0 ∷ []))

  pub host_request_attr : Bool → ℕ → ℕ → BufferDescriptor → H → ℤ × H
  host_request_attr host_inodes path psize bd = send (
      with_inodes host_inodes 0x222 2 (
        init_tg_buffer (at path) psize 0 0
        ∷ init_tg_buffer (at bd.buf) bd.len bd.write bd.user
        ∷ []))

  -- `room` tells whether `kmalloc` succeeds.
  pub host_request_open : Bool → Bool → FileInfo → ℕ → ℕ → H → ℤ × FileInfo × H
  host_request_open false host_inodes pfi p plen h = (neg enomem, pfi, h)
  host_request_open true host_inodes pfi p plen h =
      let (ret, r, h') =
        call_tg_sync
          (with_inodes host_inodes 0x223 2 (
            init_tg_buffer (at p) plen 0 0
            ∷ init_tg_buffer (desc (prlfs_file_info_to_desc pfi)) pfd_len 1 0
            ∷ []))
          h in
      (result ret r.status, prlfs_file_desc_to_info r.file_desc, h')

  -- The body under the label `retry`.
  unfoldable pub send_release : FileInfo → H → ℤ × Reply × H
  send_release pfi = call_tg_sync (
      init_request 0x224 0 1 []
        (init_tg_buffer (desc (prlfs_file_info_to_desc pfi)) pfd_len 0 0 ∷ []))

  -- From there, with the value of the counter `retry`.
  pub release_loop : ℕ → FileInfo → H → ℤ × H
  release_loop zero pfi h =
      let (ret, r, h') = send_release pfi h in
      (if cancelled ret r.status then neg erestartsys else result ret r.status, h')
  release_loop (suc retry) pfi h =
      let (ret, r, h') = send_release pfi h in
      let again = release_loop retry pfi h' in
      if cancelled ret r.status then again else (result ret r.status, h')

  pub host_request_release : Bool → FileInfo → H → ℤ × H
  host_request_release false pfi h = (neg enomem, h)
  host_request_release true pfi h = release_loop 1000 pfi h

  pub host_request_readdir : Bool → FileInfo → ℕ → ℕ → H → ℤ × FileInfo × ℕ × H
  host_request_readdir false pfi buf buflen h = (neg enomem, pfi, buflen, h)
  host_request_readdir true pfi buf buflen h =
      let (ret, r, h') =
        call_tg_sync
          (init_request 0x225 0 2 [] (
            init_tg_buffer (desc (prlfs_file_info_to_desc pfi)) pfd_len 1 0
            ∷ init_tg_buffer (at buf) buflen 1 0
            ∷ []))
          h in
      (
        result ret r.status,
        prlfs_file_desc_to_info r.file_desc,
        if succeeded ret r.status then r.byte_count else buflen,
        h',
      )

  pub host_request_rw : Bool → FileInfo → BufferDescriptor → H → ℤ × BufferDescriptor × H
  host_request_rw false pfi bd h = (neg enomem, bd, h)
  host_request_rw true pfi bd h =
      let sdesc = init_request 0x226 0 2 [] (
        init_tg_buffer (desc (prlfs_file_info_to_desc pfi)) pfd_len 0 0
        ∷ init_tg_buffer (at bd.buf) bd.len bd.write bd.user
        ∷ []) in
      let (ret, r, h') = call_tg_sync (record sdesc { flags = bd.flags }) h in
      (
        result ret r.status,
        (if succeeded ret r.status then record bd { len = r.byte_count } else bd),
        h',
      )

  pub host_request_remove : Bool → ℕ → ℕ → H → ℤ × H
  host_request_remove host_inodes buf buflen =
      send (with_inodes host_inodes 0x227 1 (init_tg_buffer (at buf) buflen 0 0 ∷ []))

  pub host_request_rename : Bool → ℕ → ℕ → ℕ → ℕ → H → ℤ × H
  host_request_rename host_inodes buf buflen nbuf nlen = send (
      with_inodes host_inodes 0x228 2
        (init_tg_buffer (at buf) buflen 0 0 ∷ init_tg_buffer (at nbuf) nlen 0 0 ∷ []))

  -- The results are the return value, `*bsize`, `*blocks` and `*bfree`.
  pub host_request_statfs : ℕ → H → ℤ × ℕ × ℕ × ℕ × H
  host_request_statfs sfid h =
      let (ret, r, h') =
        call_tg_sync (init_request 0x20e 24 0 (sfid ∷ 0 ∷ 0 ∷ 0 ∷ 0 ∷ 0 ∷ []) []) h in
      (
        result ret r.status,
        r.fsinfo.sectors_per_allocation_unit * r.fsinfo.bytes_per_sector % 2 ^ 32,
        r.fsinfo.total_allocation_units,
        r.fsinfo.available_allocation_units,
        h',
      )

  pub host_request_readlink : Bool → ℕ → ℕ → ℕ → ℕ → H → ℤ × H
  host_request_readlink host_inodes src_path src_len tgt_path tgt_len = send (
      with_inodes host_inodes 0x22c 2
        (init_tg_buffer (at src_path) src_len 0 0 ∷ init_tg_buffer (at tgt_path) tgt_len 1 0 ∷ []))

  pub host_request_symlink : Bool → ℕ → ℕ → ℕ → ℕ → ℕ → H → ℤ × H
  host_request_symlink host_inodes sfid src_path src_len tgt_path tgt_len = send (
      with_inodes host_inodes 0x22d 3 (
        init_tg_buffer (word sfid) 4 0 0
        ∷ init_tg_buffer (at src_path) src_len 0 0
        ∷ init_tg_buffer (at tgt_path) tgt_len 0 0
        ∷ []))
