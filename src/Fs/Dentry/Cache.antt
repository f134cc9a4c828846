-- ===== src/Fs/Dentry/Cache.antt =====
-- What the entries of the shared folders remember.
use prl_tools.Base.{
  ℕ, ◌+◌, ◌%◌, ◌/◌, ◌^◌, ◌<◌, ◌≡◌, refl, true, false, Option, some, ◌==◌, ℤ, pos, negsuc, neg,
  is_neg, ◌==ℤ◌, arith, Bool-cases, inl, inr,
}
use prl_tools.Base.Errno.{estale}
use prl_tools.Fs.Attr.{InodeAttr, Iattr, Pattr}
use prl_tools.Fs.Dentry.{
  Host, Kernel, Dentry, is_fresh, do_prlfs_getattr, revalidated, prlfs_i_revalidate, prlfs_unlink,
  getattr, prlfs_setattr,
}

negative : (x : ℤ) → is_neg x ≡ true → x ==ℤ pos 0 ≡ false
negative (pos n) h = absurd (cc h)
negative (negsuc n) h = refl

module _ {S : Type 0} (host : Host S) (k : Kernel) where
  -- What an answer of the host leaves, if the inode is of the kind that the host says.
  revalidated-time :
      (i : InodeAttr) (attr : Pattr) (d : Dentry)
      → (revalidated host k i attr d).0 ==ℤ pos 0 ≡ true
      → let e = (revalidated host k i attr d).1 in
        (e.d_time ≡ k.jiffies) × ((j : InodeAttr) × (e.inode ≡ some j))
  unfolding revalidated
  revalidated-time i attr d done =
      elim (Bool-cases (i.i_mode / 4096 % 16 == attr.mode / 4096 % 16)) [
        | inl same ↦ rw same (refl, (_, refl))
        | inr other ↦ absurd (cc (rw other at done))
      ]

  -- While its time to live lasts an entry is valid without the host.
  fresh_lem :
      (d : Dentry) (i : InodeAttr) (s : S)
      → d.inode ≡ some i
      → is_fresh host k d ≡ true
      → prlfs_i_revalidate host k d s ≡ (pos 0, d, s)
  unfolding prlfs_i_revalidate
  fresh_lem d i s inode fresh = rw (inode, fresh) refl

  -- An entry that was not fresh and is revalidated.
  revalidate-time :
      (d : Dentry) (i : InodeAttr) (s : S)
      → d.inode ≡ some i
      → is_fresh host k d ≡ false
      → (prlfs_i_revalidate host k d s).0 ==ℤ pos 0 ≡ true
      → let e = (prlfs_i_revalidate host k d s).1 in
        (e.d_time ≡ k.jiffies) × ((j : InodeAttr) × (e.inode ≡ some j))
  unfolding prlfs_i_revalidate
  revalidate-time d i s inode stale done =
      let (ret, attr, t) = do_prlfs_getattr host k s in
      elim (Bool-cases k.kmalloc) [
        | inr full ↦ absurd (cc (rw (inode, stale, full) at done))
        | inl room ↦ elim (Bool-cases (is_neg ret)) [
          | inl failed ↦ absurd (cc (negative ret failed, rw (inode, stale, room, failed) at done))
          | inr got ↦
              rw (inode, stale, room, got)
                (revalidated-time i attr (record d { inode = some i })
                  (rw (inode, stale, room, got) at done))
        ]
      ]

-- The same kernel later.
abbrev pub later : ℕ → Kernel → Kernel
later wait k = record k { jiffies = k.jiffies + wait }

module _ {S : Type 0} (host : Host S) (k : Kernel) where
  -- An entry that the host has just confirmed is valid again within its time to live, as long as jiffies
  -- is not 0 and does not wrap, and then the host is not asked and nothing changes.
  pub prlfs_i_revalidate-cached :
      (d : Dentry) (i : InodeAttr) (s t : S) (wait : ℕ)
      → d.inode ≡ some i
      → is_fresh host k d ≡ false
      → (prlfs_i_revalidate host k d s).0 ==ℤ pos 0 ≡ true
      → 0 < k.jiffies
      → k.jiffies + wait < 2 ^ 64
      → wait < k.ttl
      → let e = (prlfs_i_revalidate host k d s).1 in
        prlfs_i_revalidate host (later wait k) e t ≡ (pos 0, e, t)
  unfolding is_fresh
  prlfs_i_revalidate-cached d i s t wait inode stale done started no_wrap soon =
      let (at, (j, same)) = revalidate-time host k d i s inode stale done in
      fresh_lem host (later wait k) (prlfs_i_revalidate host k d s).1 j t same
        (ground (arith, at, started, no_wrap, soon))

  -- After its removal an entry has no attributes: they are neither read nor set, and the host is not
  -- asked.
  pub prlfs_unlink-stale :
      (set : Iattr → Option InodeAttr → ℤ × Option InodeAttr) (attr : Iattr) (d : Dentry) (s t : S)
      → (prlfs_unlink host k d s).0 ==ℤ pos 0 ≡ true
      → k.head ==ℤ pos 0 ≡ true
      → k.kmalloc ≡ true
      → let e = (prlfs_unlink host k d s).1 in
        (getattr host k e t ≡ (neg estale, e, t))
        × (prlfs_setattr host k set attr e t ≡ (neg estale, e, t))
  unfolding prlfs_unlink getattr prlfs_setattr
  prlfs_unlink-stale set attr d s t done head room = (rw done refl, rw (done, head, room) refl)
