-- ===== src/Fs/Super.antt =====
-- The super block of a shared folder, in
-- kmods-src/prl_fs/SharedFolders/Guest/Linux/prl_fs/super.c: remounting, the queries of the folder's
-- features and id, and `prlfs_fill_super` with what it holds of the kernel.
mod Tests
use prl_tools.Base.{
  ℕ, ◌+◌, ◌-◌, ◌/◌, ◌%◌, ◌^◌, ◌≡◌, refl, Bool, true, false, not, Option, List, ◌==◌, ◌&&◌, ◌||◌,
  if◌then◌else◌, ℤ, pos, neg, is_neg, ◌==ℤ◌, arith,
}
use prl_tools.Base.Errno.{einval, enomem}
use prl_tools.Fs.Options.{SbInfo, prlfs_parse_mount_options}

-- MS_RDONLY is bit 0 of the flags, MS_SYNCHRONOUS bit 4 and MS_MANDLOCK bit 6. The result and `*flags`.
pub prlfs_remount : Bool → ℕ → ℤ × ℕ
prlfs_remount readonly flags =
    let sync = if flags / 2 ^ 4 % 2 == 1 then flags else flags + 2 ^ 4 in
    let refused = (flags % 2 == 0) && readonly || (flags / 2 ^ 6 % 2 == 1) in
    (if refused then neg einval else pos 0, sync)

-- What the kernel and the host answer: whether `kmalloc` of the information, the requests' memory, the
-- inode and the root succeed, the result of `host_request_sf_param` for the features with the flags, and
-- for the id with the index, and that of `prlfs_bdi_init_and_register`.
pub record Answers : Type 0 where
  pub kmalloc : Bool
  pub req_alloc : Bool
  pub features : ℤ
  pub feature_flags : ℕ
  pub id : ℤ
  pub index : ℤ
  pub bdi : ℤ
  pub iget : Bool
  pub make_root : Bool

-- What is held: the information, the device information, references to the root inode, the root; and
-- whether more references to the inode were given up than there were.
pub record Sb : Type 0 where
  pub info : Bool
  pub bdi : Bool
  pub inode_refs : ℕ
  pub root : Bool
  pub fault : Bool

-- With the request's memory freed again.
pub get_sf_id : Answers → ℤ
get_sf_id a = if a.req_alloc then if is_neg a.id then a.id else a.index else neg enomem

-- The result with the flags.
pub get_sf_features : Answers → ℤ × ℕ
get_sf_features a =
    let ret = if a.req_alloc then a.features else neg enomem in
    (ret, if is_neg ret then 0 else a.feature_flags)

-- `iput`
pub iput : Sb → Sb
iput sb = record sb {
  inode_refs = sb.inode_refs - 1;
  fault = if sb.inode_refs == 0 then true else sb.fault;
}

-- `d_make_root` takes the reference over, and gives it up when it fails.
pub d_make_root : Bool → Sb → Sb
unfolding iput
d_make_root done sb = if done then record sb { root = true } else iput sb

-- At `out_free:` and `out_bdi:`
abbrev out_free : Sb → Sb
out_free sb = record sb { info = false }

abbrev out_bdi : Sb → Sb
out_bdi sb = out_free (record sb { bdi = false })

-- From `prlfs_bdi_init_and_register` on.
pub fill_root : Answers → Sb → ℤ × Sb
unfolding d_make_root iput
fill_root a sb =
    let registered = record sb { bdi = true } in
    let got = record registered { inode_refs = registered.inode_refs + 1 } in
    let made = d_make_root a.make_root got in
    if a.bdi ==ℤ pos 0
    then if a.iget
      then if a.make_root then (pos 0, made) else (neg enomem, out_bdi (iput made))
      else (neg enomem, out_bdi registered)
    else (a.bdi, out_bdi sb)

-- Whether the inode numbers of the host are kept, as asked for and as the host has them.
pub host_inodes : Answers → SbInfo → ℕ
unfolding get_sf_features
host_inodes a sbi =
    let (ret, flags) = get_sf_features a in
    if sbi.host_inodes == 0
    then 0
    else if is_neg ret || not (flags % 2 == 1)
    then 0
    else sbi.host_inodes

-- `options`, `hz`, `uid` and `gid` are those of `prlfs_parse_mount_options`, `zero_info` is the memory
-- after `memset`. The result with the information.
pub prlfs_fill_super : Answers → ℕ → ℕ → ℕ → Option (List ℕ) → SbInfo → Sb → ℤ × SbInfo × Sb
unfolding fill_root host_inodes get_sf_id
prlfs_fill_super a hz uid gid options zero_info sb =
    let (parsed, sbi) = prlfs_parse_mount_options hz uid gid options zero_info in
    let full = record sbi { host_inodes = host_inodes a sbi } in
    let held = record sb { info = true } in
    let sfid = get_sf_id a in
    let (ret, filled) = fill_root a held in
    if a.kmalloc
    then if is_neg parsed
      then (parsed, sbi, out_free held)
      else if is_neg sfid
      then (sfid, full, out_free held)
      else (ret, full, filled)
    else (neg enomem, zero_info, sb)

-- When the root cannot be made, d_make_root has given up the inode, and prlfs_fill_super gives it up once
-- more.
pub fill_root-twice :
    (a : Answers) (sb : Sb)
    → a.bdi ==ℤ pos 0 ≡ true
    → a.iget ≡ true
    → a.make_root ≡ false
    → sb.inode_refs ≡ 0
    → (fill_root a sb).1.fault ≡ true
unfolding fill_root d_make_root iput
fill_root-twice a sb bdi iget fails free = rw (bdi, iget, fails) (ground (arith, free))
