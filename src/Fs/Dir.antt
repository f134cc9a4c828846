-- ===== src/Fs/Dir.antt =====
-- prlfs_fill_dir of kmods-src/prl_fs/SharedFolders/Guest/Linux/prl_fs/file.c: the directory records that
-- the host has written to a buffer, as calls of dir_emit. Lengths are below 2^31.
pub mod Bounds
use prl_tools.Base.{
  ℕ, zero, suc, ◌+◌, ◌*◌, ◌/◌, Bool, Option, none, some, List, [], ◌∷◌, ◌==◌, ltb, if◌then◌else◌, ℤ,
  pos, neg,
}
use prl_tools.Base.Errno.{einval}

-- `prlfs_dirent`: two bytes and the first of the name.
abbrev pub sizeof_dirent : ℕ
sizeof_dirent = 3

-- `PRLFS_DIR_REC_LEN`
abbrev pub rec_len : ℕ → ℕ
rec_len name_len = (name_len + sizeof_dirent + 7) / 8 * 8

-- `prlfs_filetype_table`, with the type that stands for all unknown ones.
pub file_type : ℕ → ℕ
file_type t = if t == 1 then 8 else if t == 2 then 4 else if t == 3 then 10 else 0

-- A call of `dir_emit`: where the name stands in the buffer, its length, its type.
pub record Emit : Type 0 where
  pub name : ℕ
  pub name_len : ℕ
  pub dtype : ℕ

-- The result, `*pos`, and the calls of `dir_emit`.
pub record Filled : Type 0 where
  pub ret : ℤ
  pub dir_pos : ℕ
  pub emits : List Emit

pub emitted : Emit → Option Filled → Option Filled
emitted e none = none
emitted e (some r) = some (record r { emits = e ∷ r.emits })

-- The loop, from an offset in the buffer. `room` tells whether `dir_emit` has room for the entry at a
-- position.
pub fill_loop : ℕ → (ℕ → Bool) → (ℕ → ℕ) → ℕ → ℕ → ℕ → Option Filled
unfolding emitted
fill_loop zero room buf buflen offset dir_pos = none
fill_loop (suc fuel) room buf buflen offset dir_pos =
    let name_len = buf offset in
    let stop = some (record { ret = pos 0; dir_pos = dir_pos; emits = [] }) in
    let invalid = some (record { ret = neg einval; dir_pos = dir_pos; emits = [] }) in
    let e : Emit = record {
      name = offset + 2;
      name_len = name_len;
      dtype = file_type (buf (offset + 1));
    } in
    let rest = fill_loop fuel room buf buflen (offset + rec_len name_len) (dir_pos + 1) in
    if ltb buflen (offset + sizeof_dirent)
    then stop
    else if name_len == 0
    then stop
    else if ltb buflen (rec_len name_len + offset)
    then invalid
    else if buf (offset + 2 + name_len) == 0
    then emitted e (if room dir_pos then rest else stop)
    else invalid

pub prlfs_fill_dir : (ℕ → Bool) → (ℕ → ℕ) → ℕ → ℕ → Option Filled
prlfs_fill_dir room buf buflen dir_pos = fill_loop (suc buflen) room buf buflen 0 dir_pos
