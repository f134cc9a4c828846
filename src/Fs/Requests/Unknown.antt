-- ===== src/Fs/Requests/Unknown.antt =====
-- A status that the table does not know, in a request to read or write.
use prl_tools.Base.{◌≡◌, ◌≢◌, refl, true, false, ◌==◌, ℤ, pos, arith}
use prl_tools.Base.Errno.{einval}
use prl_tools.Fs.Status.{known, linux_err_tbl, result-unknown}
use prl_tools.Fs.Flags.{FileInfo}
use prl_tools.Fs.Requests.{Desc, Reply, BufferDescriptor, host_request_rw, succeeded}

module _ (H : Type 0) (call_tg_sync : Desc → H → ℤ × Reply × H) where
  pub host_request_rw-unknown :
      (pfi : FileInfo) (bd : BufferDescriptor) (h h' : H) (r : Reply)
      → ((sdesc : Desc) → call_tg_sync sdesc h ≡ (pos 0, r, h'))
      → r.status ≢ 0
      → known r.status linux_err_tbl ≡ false
      → host_request_rw H call_tg_sync true pfi bd h ≡ (pos einval, bd, h')
  unfolding host_request_rw succeeded
  host_request_rw-unknown pfi bd h h' r call failed unknown =
      let failed' : (r.status == 0) ≡ false = ground (arith, failed) in
      rw (call, failed', result-unknown r.status failed unknown) refl
