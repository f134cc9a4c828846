-- ===== src/Fs/Attr.antt =====
-- The attributes of the host and of the guest's inode, in
-- kmods-src/prl_fs/SharedFolders/Guest/Linux/prl_fs/inode.c. User and group ids map to themselves.
pub mod Masks
use prl_tools.Base.{ℕ, ◌+◌, ◌-◌, ◌*◌, ◌/◌, ◌%◌, ◌^◌, Bool, true, false, ◌==◌, ◌&&◌, if◌then◌else◌}
use prl_tools.Fs.OpenFile.{bit, clear, with_bit}

-- `struct prlfs_attr`. The bits of `valid`: 0 size, 1 atime, 2 mtime, 3 ctime, 4 mode, 5 uid, 6 gid,
-- 7 ino.
pub record Pattr : Type 0 where
  pub size : ℕ
  pub atime : ℕ
  pub mtime : ℕ
  pub ctime : ℕ
  pub mode : ℕ
  pub uid : ℕ
  pub gid : ℕ
  pub valid : ℕ
  pub ino : ℕ

-- `struct iattr`. The bits of `ia_valid`: 0 mode, 1 uid, 2 gid, 3 size, 4 atime, 5 mtime, 6 ctime.
pub record Iattr : Type 0 where
  pub ia_valid : ℕ
  pub ia_mode : ℕ
  pub ia_uid : ℕ
  pub ia_gid : ℕ
  pub ia_size : ℕ
  pub ia_atime : ℕ
  pub ia_mtime : ℕ
  pub ia_ctime : ℕ

-- The fields of `struct inode` that `prlfs_change_attributes` writes.
pub record InodeAttr : Type 0 where
  pub i_blocks : ℕ
  pub i_size : ℕ
  pub i_atime : ℕ
  pub i_mtime : ℕ
  pub i_ctime : ℕ
  pub i_mode : ℕ
  pub i_uid : ℕ
  pub i_gid : ℕ
  pub i_ino : ℕ

abbrev pub nobody : ℕ
nobody = 65534

abbrev has : ℕ → ℕ → Bool
has k f = bit k f == 1

-- `(i_mode & S_IFMT) | (mode & 07777)` of 16-bit modes.
abbrev pub merged_mode : ℕ → ℕ → ℕ
merged_mode i_mode mode = i_mode / 4096 % 16 * 4096 + mode % 4096

-- The owner for a valid id of the host.
abbrev owner : Bool → ℕ → ℕ → ℕ
owner plain id old = if id == 2 ^ 32 - 1 then nobody else if plain then id else old

-- `plain` and `host_inodes` are the mount options.
pub prlfs_change_attributes : Bool → Bool → InodeAttr → Pattr → InodeAttr
prlfs_change_attributes plain host_inodes inode attr = record {
  i_blocks = if has 0 attr.valid then (attr.size + 4096 - 1) / 4096 * 8 else inode.i_blocks;
  i_size = if has 0 attr.valid then attr.size else inode.i_size;
  i_atime = if has 1 attr.valid then attr.atime else inode.i_atime;
  i_mtime = if has 2 attr.valid then attr.mtime else inode.i_mtime;
  i_ctime = if has 3 attr.valid then attr.ctime else inode.i_ctime;
  i_mode = if has 4 attr.valid then merged_mode inode.i_mode attr.mode else inode.i_mode;
  i_uid = if has 5 attr.valid then owner plain attr.uid inode.i_uid else inode.i_uid;
  i_gid = if has 6 attr.valid then owner plain attr.gid inode.i_gid else inode.i_gid;
  i_ino = if host_inodes && has 7 attr.valid then attr.ino else inode.i_ino;
}

-- `memset`
abbrev pub no_attr : Pattr
no_attr = record {
  size = 0;
  atime = 0;
  mtime = 0;
  ctime = 0;
  mode = 0;
  uid = 0;
  gid = 0;
  valid = 0;
  ino = 0;
}

-- The blocks of `attr_to_pattr`, in their order.
set_size : Iattr → Pattr → Pattr
set_size attr p =
    if has 3 attr.ia_valid then record p { size = attr.ia_size; valid = with_bit 0 p.valid } else p

set_times : Iattr → Pattr → Pattr
set_times attr p =
    if has 4 attr.ia_valid && has 5 attr.ia_valid
    then record p {
      atime = attr.ia_atime;
      mtime = attr.ia_mtime;
      valid = with_bit 2 (with_bit 1 p.valid);
    }
    else p

set_ctime : Iattr → Pattr → Pattr
set_ctime attr p =
    if has 6 attr.ia_valid
    then record p { ctime = attr.ia_ctime; valid = with_bit 3 p.valid }
    else p

set_mode : Iattr → Pattr → Pattr
set_mode attr p =
    if has 0 attr.ia_valid
    then record p { mode = attr.ia_mode % 4096; valid = with_bit 4 p.valid }
    else p

set_uid : Iattr → Pattr → Pattr
set_uid attr p = if has 1 attr.ia_valid then record p { uid = attr.ia_uid; valid = 2 ^ 5 } else p

set_gid : Iattr → Pattr → Pattr
set_gid attr p = if has 2 attr.ia_valid then record p { gid = attr.ia_gid; valid = 2 ^ 6 } else p

-- It always returns 0.
pub attr_to_pattr : Iattr → Pattr
unfolding set_size set_times set_ctime set_mode set_uid set_gid
attr_to_pattr attr =
    set_gid attr
      (set_uid attr (set_mode attr (set_ctime attr (set_times attr (set_size attr no_attr)))))
