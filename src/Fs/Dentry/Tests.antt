-- ===== src/Fs/Dentry/Tests.antt =====
-- Runs and a witness for Fs/Dentry.
use prl_tools.Base.{ℕ, ◌+◌, ◌≡◌, refl, true, false, none, some, pos, ◌==ℤ◌}
use prl_tools.Fs.Attr.{InodeAttr, no_attr}
use prl_tools.Fs.Dentry.{
  Host, Kernel, Dentry, s_ifreg, is_fresh, do_prlfs_getattr, revalidated, prlfs_i_revalidate,
  prlfs_lookup, looked_up, create, prlfs_mknod, prlfs_inode_open,
}

-- The host counts its requests; every path is a regular file.
abbrev host : Host ℕ
host = record {
  open_file = λ mode n. (pos 0, n + 1);
  remove = λ n. (pos 0, n + 1);
  get_attr = λ n. (pos 0, record no_attr { mode = 0x81a4; size = 7; valid = 17 }, n + 1);
  set_attr = λ attr n. (pos 0, n + 1);
}

abbrev inode : InodeAttr
inode = record {
  i_blocks = 0;
  i_size = 0;
  i_atime = 0;
  i_mtime = 0;
  i_ctime = 0;
  i_mode = 0x8000;
  i_uid = 0;
  i_gid = 0;
  i_ino = 0;
}

abbrev kernel : Kernel
kernel = record {
  head = pos 0;
  kmalloc = true;
  new_inode = λ mode. some (record inode { i_mode = mode });
  plain = false;
  host_inodes = false;
  share = false;
  ttl = 250;
  jiffies = 1000;
}

abbrev entry : Dentry
entry = record { inode = some inode; bad = false; d_time = 0; unlinked = false }

looks_up : (prlfs_lookup host kernel (record entry { inode = none }) 0).1.d_time ≡ 1000
unfolding prlfs_lookup looked_up do_prlfs_getattr
looks_up = refl

created : (create host kernel s_ifreg (record entry { inode = none }) 4).2 ≡ 5
unfolding create prlfs_inode_open prlfs_mknod
created = refl

stale : is_fresh host kernel entry ≡ false
unfolding is_fresh
stale = refl

works : (prlfs_i_revalidate host kernel entry 3).0 ==ℤ pos 0 ≡ true
unfolding prlfs_i_revalidate is_fresh do_prlfs_getattr revalidated
works = refl
