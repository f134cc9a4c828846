-- ===== src/Freeze/Balance.antt =====
-- The list `frozen_sb` against the calls of `freeze_bdev` and `thaw_bdev`.
use prl_tools.Base.{
  ℕ, zero, suc, ◌+◌, ◌≤◌, ◌<◌, ◌≡◌, refl, Bool, true, false, Option, none, some, List, [], ◌∷◌,
  ◌==◌, if◌then◌else◌, arith, count, count-append, Option-cases, Bool-cases, inl, inr, ℤ, pos, neg,
  length, leb, ◌==ℤ◌,
}
use prl_tools.Base.Errno.{enametoolong, enomem, efault}
use prl_tools.Freeze.{
  Kernel, State, Event, freezes, thaws, Frozen, super, null, error, Target, no_path, on_sb, member,
  remove, freeze_answer, freeze_sb, thaw_sb, on_target, process_path, thaw_each, thaw_all,
  thaw_timeout, schedule_thaw_work, cancel_timeout, arm_timeout, command, write_loop, written,
  freeze_write, next_line, path_max,
}

abbrev pub freezes_of : ℕ → List Event → ℕ
freezes_of sb [] = 0
freezes_of sb (freezes x ∷ es) = (if x == sb then 1 else 0) + freezes_of sb es
freezes_of sb (thaws b x ∷ es) = freezes_of sb es

abbrev pub thaws_of : ℕ → List Event → ℕ
thaws_of sb [] = 0
thaws_of sb (freezes x ∷ es) = thaws_of sb es
thaws_of sb (thaws b x ∷ es) = (if x == sb then 1 else 0) + thaws_of sb es

-- Each super block of the list was frozen once more than it was thawed, and stands there once; each
-- other was thawed as often as it was frozen.
pub record IsBalanced (s : State) (sb : ℕ) : Type 0 where
  pub balance : freezes_of sb s.log ≡ thaws_of sb s.log + count sb s.frozen_sb
  pub once : count sb s.frozen_sb ≤ 1

-- `freeze_bdev` returns the super block on the device: no two mounted super blocks share one.
abbrev pub FreezesOwn : Kernel → Type 0
FreezesOwn k =
    (log : List Event) (sb res : ℕ) → k.freeze_bdev log (k.s_bdev sb) ≡ super res → res ≡ sb

member-count : (sb : ℕ) (xs : List ℕ) → member sb xs ≡ false → count sb xs ≡ 0
unfolding member
member-count sb [] h = refl
member-count sb (x ∷ xs) h = ground (arith, member-count sb xs)

count-member : (sb : ℕ) (xs : List ℕ) → member sb xs ≡ true → 0 < count sb xs
unfolding member
count-member sb [] h = cc
count-member sb (x ∷ xs) h = ground (arith, count-member sb xs)

count-remove :
    (sb i : ℕ) (xs : List ℕ)
    → member sb xs ≡ true
    → count i (remove sb xs) + (if sb == i then 1 else 0) ≡ count i xs
unfolding member remove
count-remove sb i [] h = cc
count-remove sb i (x ∷ xs) h = ground (arith, count-remove sb i xs)

pub length-next_line :
    (buf rest : List ℕ) → (next_line buf).1 ≡ some rest → length rest < length buf
unfolding next_line
length-next_line [] rest e = cc
length-next_line (c ∷ cs) rest e = ground (arith, length-next_line cs rest)

module _ (k : Kernel) where
  freeze_answer-IsBalanced :
      (a : Frozen) (sb : ℕ) (s : State) (i : ℕ)
      → member sb s.frozen_sb ≡ false
      → ((res : ℕ) → a ≡ super res → res ≡ sb)
      → IsBalanced s i
      → IsBalanced (freeze_answer a s).1 i
  unfolding freeze_answer
  freeze_answer-IsBalanced null sb s i new own h = h
  freeze_answer-IsBalanced (error e) sb s i new own h = h
  freeze_answer-IsBalanced (super res) sb s i new own h =
      ground (
        arith,
        own res refl,
        member-count sb s.frozen_sb new,
        count-append i s.frozen_sb (res ∷ []),
      )

  freeze_sb-IsBalanced :
      (sb : Option ℕ) (s : State) (i : ℕ)
      → FreezesOwn k
      → IsBalanced s i
      → IsBalanced (freeze_sb k sb s).1 i
  unfolding freeze_sb
  freeze_sb-IsBalanced none s i own h = h
  freeze_sb-IsBalanced (some sb) s i own h = elim (Bool-cases (member sb s.frozen_sb)) [
    | inl old ↦ rw old h
    | inr new ↦ rw new (
        ground (
          arith,
          freeze_answer-IsBalanced (k.freeze_bdev s.log (k.s_bdev sb)) sb s i new (own s.log sb) h,
        ))
  ]

  thaw_sb-IsBalanced :
      (sb : Option ℕ) (s : State) (i : ℕ) → IsBalanced s i → IsBalanced (thaw_sb k sb s).1 i
  unfolding thaw_sb
  thaw_sb-IsBalanced none s i h = h
  thaw_sb-IsBalanced (some sb) s i h = ground (arith, count-remove sb i s.frozen_sb)

  pub thaw_each-of :
      (i : ℕ) (xs : List ℕ) (log : List Event)
      → (freezes_of i (thaw_each k xs log) ≡ freezes_of i log)
        × (thaws_of i (thaw_each k xs log) ≡ thaws_of i log + count i xs)
  unfolding thaw_each
  thaw_each-of i [] log = omega arith
  thaw_each-of i (x ∷ xs) log = omega (arith, thaw_each-of i xs (thaws (k.s_bdev x) x ∷ log))

  pub thaw_all-IsBalanced : (s : State) (i : ℕ) → IsBalanced s i → IsBalanced (thaw_all k s).1 i
  unfolding thaw_all
  thaw_all-IsBalanced s i h = ground (arith, thaw_each-of i s.frozen_sb s.log)

  pub thaw_timeout-IsBalanced :
      (s : State) (i : ℕ) → IsBalanced s i → IsBalanced (thaw_timeout k s) i
  unfolding thaw_timeout
  thaw_timeout-IsBalanced s i h = ground (arith, thaw_all-IsBalanced s i h)

  pub cancel_timeout-IsBalanced :
      (s : State) (i : ℕ) → IsBalanced s i → IsBalanced (cancel_timeout k s) i
  unfolding cancel_timeout
  cancel_timeout-IsBalanced s i h =
      ground (arith, thaw_timeout-IsBalanced (record s { thaw_timer = none }) i)

  arm_timeout-IsBalanced :
      (arg : List ℕ) (s : State) (i : ℕ) → IsBalanced s i → IsBalanced (arm_timeout k arg s).1 i
  unfolding arm_timeout schedule_thaw_work
  arm_timeout-IsBalanced arg s i h = ground arith

  on_target-IsBalanced :
      (t : Target) (freeze : Bool) (s : State) (i : ℕ)
      → FreezesOwn k
      → IsBalanced s i
      → IsBalanced (on_target k t freeze s).1 i
  unfolding on_target
  on_target-IsBalanced (no_path e) freeze s i own h = h
  on_target-IsBalanced (on_sb sb) true s i own h = freeze_sb-IsBalanced sb s i own h
  on_target-IsBalanced (on_sb sb) false s i own h = thaw_sb-IsBalanced sb s i h

  process_path-IsBalanced :
      (path : List ℕ) (freeze : Bool) (s : State) (i : ℕ)
      → FreezesOwn k
      → IsBalanced s i
      → IsBalanced (process_path k path freeze s).1 i
  unfolding process_path
  process_path-IsBalanced path freeze s i own h =
      on_target-IsBalanced (k.lookup s.log path) freeze s i own h

  command-IsBalanced :
      (line : List ℕ) (s : State) (i : ℕ)
      → FreezesOwn k
      → IsBalanced s i
      → IsBalanced (command k line s).1 i
  unfolding command
  command-IsBalanced [] s i own h = h
  command-IsBalanced (c ∷ arg) s i own h = ground (
    arith,
    process_path-IsBalanced (c ∷ arg) true s i own h,
    process_path-IsBalanced arg true s i own h,
    process_path-IsBalanced arg false s i own h,
    cancel_timeout-IsBalanced (thaw_all k s).1 i (thaw_all-IsBalanced s i h),
    arm_timeout-IsBalanced arg s i h,
  )

  write_loop-IsBalanced :
      (fuel : ℕ) (buf : List ℕ) (s : State) (i : ℕ)
      → length buf < fuel
      → FreezesOwn k
      → IsBalanced s i
      → (out : ℤ × State) × (write_loop k fuel buf s ≡ some out) × IsBalanced out.1 i
  unfolding write_loop
  write_loop-IsBalanced zero buf s i enough own h = absurd (omega arith)
  write_loop-IsBalanced (suc fuel) buf s i enough own h =
      let done = command-IsBalanced (next_line buf).0 s i own h in
      elim (Option-cases (next_line buf).1) [
        | inl last ↦ (command k (next_line buf).0 s, rw (last, write_loop), done)
        | inr (rest, more) ↦
            let short = length-next_line buf rest more in
            let (out, ran, h') =
              write_loop-IsBalanced fuel rest (command k (next_line buf).0 s).1 i (omega arith) own
                done in
            elim (Bool-cases ((command k (next_line buf).0 s).0 ==ℤ pos 0)) [
              | inl ok ↦ (out, rw (more, ok, write_loop) ran, h')
              | inr failed ↦ (command k (next_line buf).0 s, rw (more, failed, write_loop), done)
            ]
      ]

  -- A write runs to its end, and keeps every super block balanced, whichever command fails.
  pub freeze_write-IsBalanced :
      (userbuf : List ℕ) (s : State) (i : ℕ)
      → FreezesOwn k
      → IsBalanced s i
      → (out : ℤ × State) × (freeze_write k userbuf s ≡ some out) × IsBalanced out.1 i
  unfolding freeze_write written
  freeze_write-IsBalanced userbuf s i own h = elim (Bool-cases (leb path_max (length userbuf))) [
    | inl long ↦ ((neg enametoolong, s), rw long refl, h)
    | inr fits ↦ elim (Bool-cases (k.kmalloc s.log (length userbuf + 1))) [
      | inr full ↦ ((neg enomem, s), rw (fits, full) refl, h)
      | inl got ↦ elim (Option-cases (k.copy_from_user s.log userbuf)) [
        | inl bad ↦ ((neg efault, s), rw (fits, got, bad) refl, h)
        | inr (buf, copied) ↦
            let (out, ran, h') =
              write_loop-IsBalanced (suc (length buf)) buf s i (omega arith) own h in
            (written (length userbuf) out, rw (fits, got, copied, ran) refl, h')
      ]
    ]
  ]
