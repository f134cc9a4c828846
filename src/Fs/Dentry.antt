-- ===== src/Fs/Dentry.antt =====
-- The directory entries of the shared folders, in
-- kmods-src/prl_fs/SharedFolders/Guest/Linux/prl_fs/inode.c: creation, lookup, removal, revalidation with
-- its time to live, and attributes. The host is a set of functions on a state of its own.
pub mod Cache
mod Tests
use prl_tools.Base.{
  ℕ, ◌+◌, ◌-◌, ◌/◌, ◌%◌, ◌^◌, Bool, true, false, not, Option, none, some, ◌==◌, ltb, ◌&&◌,
  if◌then◌else◌, ℤ, pos, neg, is_neg, ◌==ℤ◌,
}
use prl_tools.Base.Errno.{enoent, eio, enomem, enospc, estale}
use prl_tools.Fs.Attr.{Pattr, Iattr, InodeAttr, prlfs_change_attributes, attr_to_pattr, no_attr}

-- What the host does with the path of the entry: open with a mode, remove, get and set attributes.
pub record Host (S : Type 0) : Type 0 where
  pub open_file : ℕ → S → ℤ × S
  pub remove : S → ℤ × S
  pub get_attr : S → ℤ × Pattr × S
  pub set_attr : Pattr → S → ℤ × S

-- What the kernel does: the result of the buffer and of `prlfs_get_path`, whether `kmalloc` succeeds, a
-- new inode of a mode, the mount options `plain`, `host_inodes`, `share` and `ttl`, and `jiffies`.
pub record Kernel : Type 0 where
  pub head : ℤ
  pub kmalloc : Bool
  pub new_inode : ℕ → Option InodeAttr
  pub plain : Bool
  pub host_inodes : Bool
  pub share : Bool
  pub ttl : ℕ
  pub jiffies : ℕ

-- `struct dentry` with its inode, whether that was made bad, and PRL_DFL_UNLINKED.
pub record Dentry : Type 0 where
  pub inode : Option InodeAttr
  pub bad : Bool
  pub d_time : ℕ
  pub unlinked : Bool

-- `S_IFREG` and `S_IFDIR`
abbrev pub s_ifreg : ℕ
s_ifreg = 0x8000

abbrev pub s_ifdir : ℕ
s_ifdir = 0x4000

module _ {S : Type 0} (host : Host S) (k : Kernel) where
  -- Between PRLFS_STD_INODE_HEAD and PRLFS_STD_INODE_TAIL.
  abbrev std_inode : (S → ℤ × S) → S → ℤ × S
  std_inode request s = if k.head ==ℤ pos 0 then request s else (k.head, s)

  pub prlfs_inode_open : ℕ → S → ℤ × S
  prlfs_inode_open mode s = std_inode (host.open_file mode) s

  pub prlfs_delete : S → ℤ × S
  prlfs_delete s = std_inode host.remove s

  pub do_prlfs_getattr : S → ℤ × Pattr × S
  do_prlfs_getattr s = if k.head ==ℤ pos 0 then host.get_attr s else (k.head, no_attr, s)

  pub prlfs_mknod : ℕ → Dentry → ℤ × Dentry
  prlfs_mknod mode d = elim (k.new_inode mode) [
    | none ↦ (neg enospc, record d { d_time = 0 })
    | some inode ↦ (pos 0, record d { d_time = 0; inode = some inode })
  ]

  -- `prlfs_create` and `prlfs_mkdir` for the mode with its type.
  pub create : ℕ → Dentry → S → ℤ × Dentry × S
  unfolding prlfs_inode_open prlfs_mknod
  create mode d s =
      let (ret, t) = prlfs_inode_open mode s in
      let (made, e) = prlfs_mknod mode d in if ret ==ℤ pos 0 then (made, e, t) else (ret, d, t)

  -- The entry with what the host says of it, or without an inode.
  pub looked_up : ℤ → Pattr → Dentry → Dentry
  looked_up ret attr d =
      let inode : Option InodeAttr = elim (k.new_inode attr.mode) [
        | none ↦ none
        | some i ↦ some (prlfs_change_attributes k.plain k.host_inodes i attr)
      ] in
      record d { d_time = k.jiffies; inode = if is_neg ret then none else inode }

  pub prlfs_lookup : Dentry → S → ℤ × Dentry × S
  unfolding do_prlfs_getattr looked_up
  prlfs_lookup d s =
      let (ret, attr, t) = do_prlfs_getattr s in
      if k.kmalloc
      then if is_neg ret && not (ret ==ℤ neg enoent)
        then (ret, d, t)
        else (if is_neg ret then pos 0 else ret, looked_up ret attr d, t)
      else (neg enomem, d, s)

  -- `prlfs_unlink` and `prlfs_rmdir`.
  pub prlfs_unlink : Dentry → S → ℤ × Dentry × S
  unfolding prlfs_delete
  prlfs_unlink d s =
      let (ret, t) = prlfs_delete s in
      (ret, if ret ==ℤ pos 0 then record d { unlinked = true } else d, t)

  -- `d_time != 0 && jiffies - d_time < ttl`
  pub is_fresh : Dentry → Bool
  is_fresh d = not (d.d_time == 0) && ltb ((k.jiffies + 2 ^ 64 - d.d_time) % 2 ^ 64) k.ttl

  -- What is done with the attributes that the host gave for an inode.
  pub revalidated : InodeAttr → Pattr → Dentry → ℤ × Dentry
  revalidated i attr d =
      let new = prlfs_change_attributes k.plain k.host_inodes i attr in
      if i.i_mode / 4096 % 16 == attr.mode / 4096 % 16
      then (pos 0, record d { d_time = k.jiffies; inode = some new })
      else (neg eio, record d { d_time = k.jiffies; bad = true })

  pub prlfs_i_revalidate : Dentry → S → ℤ × Dentry × S
  unfolding is_fresh do_prlfs_getattr revalidated
  prlfs_i_revalidate d s = elim d.inode [
    | none ↦ (neg enoent, d, s)
    | some i ↦
        let (ret, attr, t) = do_prlfs_getattr s in
        let (last, e) = revalidated i attr d in
        if is_fresh d
        then (pos 0, d, s)
        else if k.kmalloc
        then if is_neg ret then (ret, d, t) else (last, e, t)
        else (neg enomem, d, s)
  ]

  pub prlfs_d_revalidate : Dentry → S → Bool × Dentry × S
  unfolding prlfs_i_revalidate
  prlfs_d_revalidate d s = let (ret, e, t) = prlfs_i_revalidate d s in (ret ==ℤ pos 0, e, t)

  -- `__prlfs_getattr` up to `generic_fillattr`.
  pub getattr : Dentry → S → ℤ × Dentry × S
  unfolding prlfs_i_revalidate
  getattr d s = if d.unlinked then (neg estale, d, s) else prlfs_i_revalidate d s

  -- `prlfs_setattr`; `set` is `prlfs_inode_setattr`, with its result.
  pub prlfs_setattr :
      (Iattr → Option InodeAttr → ℤ × Option InodeAttr) → Iattr → Dentry → S → ℤ × Dentry × S
  prlfs_setattr set attr d s =
      let (ret, t) = host.set_attr (attr_to_pattr attr) s in
      let (local, inode) = set attr d.inode in
      if k.head ==ℤ pos 0
      then if k.kmalloc
        then if d.unlinked
          then (neg estale, d, s)
          else if ret ==ℤ pos 0
          then (local, record d { d_time = 0; inode = inode }, t)
          else (ret, record d { d_time = 0 }, t)
        else (neg enomem, d, s)
      else (k.head, d, s)
