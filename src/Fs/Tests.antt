-- ===== src/Fs/Tests.antt =====
-- The theorems of the shared folders at concrete hosts, and runs.
use prl_tools.Base.{
  ℕ, zero, suc, ◌+◌, ◌≡◌, ◌<◌, refl, true, none, some, ◌==◌, if◌then◌else◌, ℤ, pos, is_neg, arith,
}
use prl_tools.Base.Errno.{einval}
use prl_tools.Fs.Status.{linux_err_tbl, result, result-unknown}
use prl_tools.Fs.Flags.{FileDesc, FileInfo}
use prl_tools.Fs.Requests.{Desc, Reply, host_request_release, send_release, cancelled}
use prl_tools.Fs.Requests.Release.{host_request_release-first, after, answer, is_cancelled}
use prl_tools.Fs.OpenFile.{Fd, pfd, OpenState, Env, prlfs_open}
use prl_tools.Fs.OpenFile.Opens.{prlfs_open-counter, counter}
use prl_tools.Fs.Dir.{Filled, prlfs_fill_dir}
use prl_tools.Fs.Dir.Bounds.{IsFilled, prlfs_fill_dir-IsFilled}
use prl_tools.Fs.Attr.{Iattr, attr_to_pattr}
use prl_tools.Fs.Attr.Masks.{attr_to_pattr-owner}

abbrev descriptor : FileDesc
descriptor = record { fd = 77; offset = 0; flags = 0; sfid = 3 }

abbrev reply : ℕ → ℕ → Reply
reply status bytes = record {
  status = status;
  byte_count = bytes;
  file_desc = descriptor;
  fsinfo = record {
    total_allocation_units = 0;
    available_allocation_units = 0;
    sectors_per_allocation_unit = 0;
    bytes_per_sector = 0;
  };
}

-- A host that cancels the first requests, as many as its state says, and then does what it is told,
-- seven bytes at a time.
abbrev host : Desc → ℕ → ℤ × Reply × ℕ
host sdesc zero = (pos 0, reply 0 7, 0)
host sdesc (suc n) = (pos 0, reply 0xf000_0000 0, n)

-- One that always cancels, and one that asks to try again.
abbrev cancelling : Desc → ℕ → ℤ × Reply × ℕ
cancelling sdesc n = (pos 0, reply 0xf000_0000 0, n + 1)

abbrev retrying : Desc → ℕ → ℤ × Reply × ℕ
retrying sdesc n = (pos 0, reply 0xf000_0025 0, n)

-- TG_STATUS_RETRY
result-unknown_example : result (pos 0) 0xf000_0025 ≡ pos einval
unfolding linux_err_tbl
result-unknown_example = result-unknown 0xf000_0025 (λ e. ground (arith, e)) refl

abbrev file : Fd
file = record { fd = 77; sfid = 3; f_counter = 1; f_flags = 2 }

abbrev opening : OpenState
opening = record { private = pfd file; d_time = 0 }

abbrev env : Env
env = record {
  host_inodes = true;
  room = true;
  room_at = λ f. true;
  path_err = none;
  path = 4096;
  path_len = 10;
  mapping_update = pos 0;
}

prlfs_open-counter_example :
    (ret : ℤ) × (t : OpenState) × (h' : ℕ) × (prlfs_open ℕ host env 2 opening 0 ≡ some (ret, t, h'))
    × (counter ℕ host t ≡ (if is_neg ret then 1 else 2))
prlfs_open-counter_example = prlfs_open-counter ℕ host env 2 file 0 0 refl (omega arith)

abbrev info : FileInfo
info = record { fd = 77; offset = 0; flags = 0; sfid = 3 }

two_cancelled : (i : ℕ) → i < 2 → is_cancelled ℕ host info (after ℕ host info i 2) ≡ true
unfolding send_release cancelled
two_cancelled zero l = refl
two_cancelled (suc zero) l = refl
two_cancelled (suc (suc i)) l = absurd (omega arith)

-- Two cancelled requests, then one that succeeds.
host_request_release-first_example :
    host_request_release ℕ host true info 2 ≡ (answer ℕ host info 0, 0)
unfolding send_release cancelled
host_request_release-first_example =
    host_request_release-first ℕ host info 2 2 (omega arith) two_cancelled refl

-- A record with the name "ab" of a directory, and the end.
abbrev directory : ℕ → ℕ
directory i =
    if i == 0 then 2 else if i == 1 then 2 else if i == 2 then 97 else if i == 3 then 98 else 0

prlfs_fill_dir-IsFilled_example :
    (r : Filled) × (prlfs_fill_dir (λ p. true) directory 16 5 ≡ some r) × IsFilled directory 16 5 r
prlfs_fill_dir-IsFilled_example = prlfs_fill_dir-IsFilled (λ p. true) directory 16 5

abbrev attr : ℕ → Iattr
attr valid = record {
  ia_valid = valid;
  ia_mode = 0x81a4;
  ia_uid = 1000;
  ia_gid = 1000;
  ia_size = 0;
  ia_atime = 1;
  ia_mtime = 2;
  ia_ctime = 3;
}

-- Mode and user.
attr_to_pattr-owner_example : (attr_to_pattr (attr 3)).valid ≡ 32
attr_to_pattr-owner_example = attr_to_pattr-owner (attr 3) (λ e. ground (arith, e))
