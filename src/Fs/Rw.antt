-- ===== src/Fs/Rw.antt =====
-- Reading and writing, in kmods-src/prl_fs/SharedFolders/Guest/Linux/prl_fs/file.c and inode.c. A write
-- takes i_size before it takes the inode's lock; here nothing comes between. Offsets have 64 bits.
pub mod Writes
use prl_tools.Base.{
  ℕ, ◌+◌, ◌%◌, ◌^◌, Bool, true, false, Option, none, some, ◌==◌, ltb, if◌then◌else◌, ℤ, pos, is_neg,
}
use prl_tools.Fs.Requests.{Desc, Reply, BufferDescriptor, host_request_rw}
use prl_tools.Fs.OpenFile.{Fd, init_pfi}

-- `TG_REQ_COMMON`
abbrev pub tg_req_common : ℕ
tg_req_common = 0

-- `user_ds` tells whether the caller's addresses are those of user space, `get_fs()`.
pub init_buffer_descriptor : Bool → ℕ → ℕ → ℕ → ℕ → BufferDescriptor
init_buffer_descriptor user_ds buf len write user = record {
  buf = buf;
  len = len;
  write = if write == 0 then 0 else 1;
  user = if user == 0 then 0 else if user_ds then 1 else 0;
  flags = tg_req_common;
}

-- What a write sees and changes: `*off`, `inode->i_size`, `dentry->d_time`.
pub record Place : Type 0 where
  pub off : ℕ
  pub i_size : ℕ
  pub d_time : ℕ

module _ (H : Type 0) (call_tg_sync : Desc → H → ℤ × Reply × H) where
  -- After `host_request_rw`.
  rw_result : ℕ → ℤ × BufferDescriptor × H → ℤ × ℕ × H
  rw_result off (ret, bd, h) =
      if is_neg ret then (ret, off, h) else (pos bd.len, (off + bd.len) % 2 ^ 64, h)

  -- The return value and `*off`; `BUG` is no result.
  pub prlfs_rw : Bool → Bool → Fd → ℕ → ℕ → ℕ → ℕ → ℕ → ℕ → H → Option (ℤ × ℕ × H)
  unfolding rw_result
  prlfs_rw user_ds room d buf size off rw_op user flags h =
      let bd =
        init_buffer_descriptor user_ds buf size (if rw_op == 0 then 1 else 0)
          (if user == 0 then 0 else 1) in
      if ltb rw_op 2
      then if size == 0
        then some (pos 0, off, h)
        else some (
            rw_result off (
              host_request_rw H call_tg_sync room (init_pfi (some d) off rw_op)
                (record bd { flags = flags }) h))
      else none

  pub prlfs_read : Bool → Bool → Fd → ℕ → ℕ → ℕ → H → Option (ℤ × ℕ × H)
  prlfs_read user_ds room d buf size off h =
      prlfs_rw user_ds room d buf size off 0 1 tg_req_common h

  -- After `prlfs_rw`.
  write_result : Bool → ℕ → Place → Option (ℤ × ℕ × H) → Option (ℤ × Place × H)
  write_result append size p none = none
  write_result append size p (some (ret, real_off, h)) =
      if is_neg ret
      then some (ret, record p { d_time = 0 }, h)
      else some (
        ret,
        record {
          off = if append then (p.off + size) % 2 ^ 64 else real_off;
          i_size = if ltb p.i_size real_off then real_off else p.i_size;
          d_time = 0;
        },
        h,
      )

  -- `append` is `filp->f_flags & O_APPEND`.
  pub prlfs_write : Bool → Bool → Bool → Fd → ℕ → ℕ → Place → H → Option (ℤ × Place × H)
  unfolding write_result
  prlfs_write user_ds room append d buf size p h =
      write_result append size p
        (prlfs_rw user_ds room d buf size (if append then p.i_size else p.off) 1 1 tg_req_common h)
