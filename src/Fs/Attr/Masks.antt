-- ===== src/Fs/Attr/Masks.antt =====
-- The attributes that a conversion marks as valid.
use prl_tools.Base.{ℕ, ◌+◌, ◌*◌, ◌≡◌, ◌≢◌, ◌<◌, refl, ◌==◌, ◌&&◌, if◌then◌else◌, arith}
use prl_tools.Fs.OpenFile.{bit}
use prl_tools.Fs.Attr.{
  Pattr, Iattr, attr_to_pattr, set_size, set_times, set_ctime, set_mode, set_uid, set_gid, no_attr,
}

set_size-valid :
    (attr : Iattr) (p : Pattr) → p.valid ≡ 0 → (set_size attr p).valid ≡ bit 3 attr.ia_valid
unfolding set_size
set_size-valid attr p z = ground arith

abbrev pub both : ℕ → ℕ
both w = if bit 4 w == 1 && bit 5 w == 1 then 1 else 0

set_times-valid :
    (attr : Iattr) (p : Pattr)
    → p.valid < 2
    → (set_times attr p).valid ≡ p.valid + 6 * both attr.ia_valid
unfolding set_times
set_times-valid attr p small = ground arith

set_ctime-valid :
    (attr : Iattr) (p : Pattr)
    → p.valid < 8
    → (set_ctime attr p).valid ≡ p.valid + 8 * bit 6 attr.ia_valid
unfolding set_ctime
set_ctime-valid attr p small = ground arith

set_mode-valid :
    (attr : Iattr) (p : Pattr)
    → p.valid < 16
    → (set_mode attr p).valid ≡ p.valid + 16 * bit 0 attr.ia_valid
unfolding set_mode
set_mode-valid attr p small = ground arith

both-small : (w : ℕ) → both w < 2
both-small w = ground arith

-- Without a change of owner, an attribute is marked as valid for the host exactly when the caller sets
-- it, the times of access and of modification only together.
pub attr_to_pattr-valid :
    (attr : Iattr)
    → bit 1 attr.ia_valid ≡ 0
    → bit 2 attr.ia_valid ≡ 0
    → (attr_to_pattr attr).valid
      ≡ bit 3 attr.ia_valid
        + 6 * both attr.ia_valid
        + 8 * bit 6 attr.ia_valid
        + 16 * bit 0 attr.ia_valid
unfolding attr_to_pattr set_uid set_gid
attr_to_pattr-valid attr u g =
    let size = set_size attr no_attr in
    let times = set_times attr size in
    let ctime = set_ctime attr times in
    let s = set_size-valid attr no_attr refl in
    let t = set_times-valid attr size (omega (arith, s)) in
    let c = set_ctime-valid attr times (omega (arith, s, t, both-small attr.ia_valid)) in
    let m = set_mode-valid attr ctime (omega (arith, s, t, c, both-small attr.ia_valid)) in
    rw (u, g) (omega (arith, s, t, c, m))

-- With a change of group nothing else is marked as valid, and with one of the user nothing else but
-- the group: a size, a mode or a time that the caller sets besides is lost.
pub attr_to_pattr-owner :
    (attr : Iattr)
    → bit 1 attr.ia_valid + bit 2 attr.ia_valid ≢ 0
    → (attr_to_pattr attr).valid ≡ (if bit 2 attr.ia_valid == 1 then 64 else 32)
unfolding attr_to_pattr set_uid set_gid
attr_to_pattr-owner attr o = ground arith
