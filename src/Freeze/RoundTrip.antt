-- ===== src/Freeze/RoundTrip.antt =====
-- A freeze that succeeds and the thaw of the same super block.
use prl_tools.Base.{ℕ, ◌≡◌, refl, true, false, some, List, [], ◌∷◌, ◌++◌, arith, pos, neg}
use prl_tools.Base.Errno.{eexist, enoent}
use prl_tools.Freeze.{
  sizeof_frozen_sb, Kernel, State, super, member, remove, freeze_answer, freeze_sb, thaw_sb,
}

member-append_self : (sb : ℕ) (xs : List ℕ) → member sb (xs ++ sb ∷ []) ≡ true
unfolding member
member-append_self sb [] = ground arith
member-append_self sb (x ∷ xs) = ground (arith, member-append_self sb xs)

remove-append_self : (sb : ℕ) (xs : List ℕ) → member sb xs ≡ false → remove sb (xs ++ sb ∷ []) ≡ xs
unfolding member remove
remove-append_self sb [] h = ground arith
remove-append_self sb (x ∷ xs) h = ground (arith, remove-append_self sb xs)

-- A super block that is not in the list and that the kernel freezes is frozen by the first call and
-- refused with -EEXIST by a second; a thaw then succeeds and gives the list back as it was, and
-- another thaw is refused with -ENOENT.
pub freeze_sb-thaw_sb :
    (k : Kernel) (sb : ℕ) (s : State)
    → member sb s.frozen_sb ≡ false
    → k.kmalloc s.log sizeof_frozen_sb ≡ true
    → k.freeze_bdev s.log (k.s_bdev sb) ≡ super sb
    → let s1 = (freeze_sb k (some sb) s).1 in
      let s2 = (thaw_sb k (some sb) s1).1 in
      ((freeze_sb k (some sb) s).0 ≡ pos 0)
      × ((freeze_sb k (some sb) s1).0 ≡ neg eexist)
      × ((thaw_sb k (some sb) s1).0 ≡ pos 0)
      × (s2.frozen_sb ≡ s.frozen_sb)
      × ((thaw_sb k (some sb) s2).0 ≡ neg enoent)
unfolding freeze_sb thaw_sb freeze_answer
freeze_sb-thaw_sb k sb s new room answer =
    let there = member-append_self sb s.frozen_sb in
    let back = remove-append_self sb s.frozen_sb new in
    rw (new, room, answer, there) (rw (back, new) (refl, refl, refl, refl, refl))
