-- ===== src/Fs/OpenFile.antt =====
-- kmods-src/prl_fs/SharedFolders/Guest/Linux/prl_fs/file.c: opening and releasing a file. Each runs
-- under the inode's lock. `open_flags` is an `unsigned int`, and `f_counter` has 64 bits.
pub mod Opens
use prl_tools.Base.{
  ℕ, zero, suc, ◌+◌, ◌-◌, ◌*◌, ◌/◌, ◌%◌, ◌^◌, Bool, Option, none, some, ◌==◌, if◌then◌else◌, ℤ, pos,
  negsuc, neg, is_neg, ◌==ℤ◌,
}
use prl_tools.Base.Errno.{enomem, eperm, eacces}
use prl_tools.Fs.Flags.{FileInfo, o_rdwr}
use prl_tools.Fs.Requests.{Desc, Reply, host_request_open, host_request_release}

-- `struct prlfs_fd`.
pub record Fd : Type 0 where
  pub fd : ℕ
  pub sfid : ℕ
  pub f_counter : ℕ
  pub f_flags : ℕ

-- `inode->i_private`, an `ERR_PTR` or the structure.
pub data Private : Type 0 where
  err_ptr : ℤ → Private
  pfd : Fd → Private

-- `inode->i_private` and `dentry->d_time`.
pub record OpenState : Type 0 where
  pub private : Private
  pub d_time : ℕ

-- Bit `2 ^ k` of a word: reading it, and the word without it and with it.
abbrev pub bit : ℕ → ℕ → ℕ
bit k f = f / 2 ^ k % 2

abbrev pub clear : ℕ → ℕ → ℕ
clear k f = f - bit k f * 2 ^ k

abbrev pub with_bit : ℕ → ℕ → ℕ
with_bit k f = clear k f + 2 ^ k

-- `O_ACCMODE &`
abbrev pub accmode : ℕ → ℕ
accmode f = f % 4

unfoldable pub prlfs_check_open_flags : ℕ → Fd → ℕ
prlfs_check_open_flags f_flags d =
    if d.f_flags == o_rdwr then 0 else if accmode f_flags == d.f_flags then 0 else 1

-- `init_pfi` without an inode, and with one.
pub init_pfi : Option Fd → ℕ → ℕ → FileInfo
init_pfi none offset flags = record { fd = 0; sfid = 0; offset = offset; flags = flags }
init_pfi (some d) offset flags = record { fd = d.fd; sfid = d.sfid; offset = offset; flags = flags }

-- `(filp->f_flags | O_RDWR) & ~O_WRONLY`, and `~O_APPEND`.
pub first_flags : ℕ → ℕ
first_flags f_flags = clear 10 (clear 0 (with_bit 1 f_flags))

-- What the kernel supplies to an open: whether `kmalloc` finds room for the path and, for each attempt,
-- for the file descriptor; the path, or the error -(err + 1); the answer of `prlfs_mapping_update`.
pub record Env : Type 0 where
  pub host_inodes : Bool
  pub room : Bool
  pub room_at : ℕ → Bool
  pub path_err : Option ℕ
  pub path : ℕ
  pub path_len : ℕ
  pub mapping_update : ℤ

module _ (H : Type 0) (call_tg_sync : Desc → H → ℤ × Reply × H) where
  -- From the label `retry`: the result, what the host filled in, and the flags of the last attempt.
  pub open_retry : ℕ → Env → ℕ → H → Option (ℤ × FileInfo × ℕ × H)
  open_retry zero env open_flags h = none
  open_retry (suc fuel) env open_flags h =
      let (ret, pfi, h') =
        host_request_open H call_tg_sync (env.room_at open_flags) env.host_inodes
          (init_pfi none 0 open_flags) env.path env.path_len h in
      let read_only = open_retry fuel env (clear 1 open_flags) h' in
      let write_only = open_retry fuel env (with_bit 0 open_flags) h' in
      if is_neg ret
      then if ret ==ℤ neg eperm
        then if bit 1 open_flags == 1
          then read_only
          else if accmode open_flags == 0
          then write_only
          else some (ret, pfi, open_flags, h')
        else some (ret, pfi, open_flags, h')
      else some (ret, pfi, open_flags, h')

  -- The end of `prlfs_open`; running out of fuel is no result.
  finish_open : Env → Fd → OpenState → Option (ℤ × FileInfo × ℕ × H) → Option (ℤ × OpenState × H)
  finish_open env d s none = none
  finish_open env d s (some (ret, pfi, open_flags, h)) =
      if is_neg ret
      then some (ret, s, h)
      else some (
        env.mapping_update,
        record {
          private = pfd (record {
            fd = pfi.fd;
            sfid = pfi.sfid;
            f_counter = 1;
            f_flags = accmode open_flags;
          });
          d_time = 0;
        },
        h,
      )

  first_open : Env → ℕ → Fd → OpenState → H → Option (ℤ × OpenState × H)
  unfolding finish_open
  first_open env f_flags d s h = elim env.path_err [
    | some err ↦ some (negsuc err, s, h)
    | none ↦ finish_open env d s (open_retry 3 env (first_flags f_flags) h)
  ]

  open_pfd : Env → ℕ → Fd → OpenState → H → Option (ℤ × OpenState × H)
  unfolding first_open
  open_pfd env f_flags d s h =
      if d.f_counter == 0
      then if env.room then first_open env f_flags d s h else some (neg enomem, s, h)
      else if prlfs_check_open_flags f_flags d == 0
      then some (
        pos 0,
        record s { private = pfd (record d { f_counter = (d.f_counter + 1) % 2 ^ 64 }) },
        h,
      )
      else some (neg eacces, s, h)

  pub prlfs_open : Env → ℕ → OpenState → H → Option (ℤ × OpenState × H)
  unfolding open_pfd
  prlfs_open env f_flags s h = elim s.private [
    | err_ptr err ↦ some (err, s, h)
    | pfd d ↦ open_pfd env f_flags d s h
  ]

  -- `BUG_ON` is no result. `room` is for the file descriptor.
  release_pfd : Bool → Fd → OpenState → H → Option (ℤ × OpenState × H)
  release_pfd room d s h =
      let (ret, h') = host_request_release H call_tg_sync room (init_pfi (some d) 0 0) h in
      let t = record s { private = pfd (record d { f_counter = d.f_counter - 1 }) } in
      if d.f_counter == 0
      then none
      else if d.f_counter == 1
      then some (ret, t, h')
      else some (pos 0, t, h)

  pub prlfs_release : Bool → OpenState → H → Option (ℤ × OpenState × H)
  unfolding release_pfd
  prlfs_release room s h = elim s.private [ err_ptr err ↦ none | pfd d ↦ release_pfd room d s h ]
