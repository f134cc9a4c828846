-- ===== src/Freeze.antt =====
-- kmods-src/prl_fs_freeze/Snapshot/Guest/Linux/prl_freeze/prl_fs_freeze.c: the file
-- /proc/driver/prl_freeze, through which file systems are frozen and thawed. A super block is named by
-- a number, a string is the list of its bytes. `frozen_mutex` makes the functions below atomic.
pub mod Balance
pub mod Lines
pub mod RoundTrip
pub mod History
mod Tests
use prl_tools.Base.{
  ℕ, zero, suc, ◌+◌, Bool, true, false, Option, none, some, List, [], ◌∷◌, ◌++◌, ◌==◌, leb,
  if◌then◌else◌, length, ℤ, pos, neg, ◌==ℤ◌,
}
use prl_tools.Base.Errno.{
  einval, eexist, enomem, enodev, enoent, enosys, ebusy, enametoolong, efault,
}

-- What `kern_path` and `igrab` make of a path: an error, or the `i_sb` of its inode.
pub data Target : Type 0 where
  no_path : ℕ → Target
  on_sb : Option ℕ → Target

-- What `freeze_bdev` returns: a super block, `NULL` or an error.
pub data Frozen : Type 0 where
  super : ℕ → Frozen
  null : Frozen
  error : ℕ → Frozen

pub data Event : Type 0 where
  freezes : ℕ → Event
  thaws : ℕ → ℕ → Event

-- The kernel functions that the module calls; they may depend on what happened before.
pub record Kernel : Type 0 where
  pub lookup : List Event → List ℕ → Target
  pub s_bdev : ℕ → ℕ
  pub freeze_bdev : List Event → ℕ → Frozen
  pub kmalloc : List Event → ℕ → Bool
  pub copy_from_user : List Event → List ℕ → Option (List ℕ)
  -- the value of `simple_strtoul(arg, &p, 10)`, and what `p` points at
  pub simple_strtoul : List ℕ → ℕ × List ℕ

-- The list `frozen_sb`, the timer with its timeout, whether `thaw_work` is scheduled, and the calls of
-- `freeze_bdev` that succeeded and of `thaw_bdev`, newest first.
pub record State : Type 0 where
  pub frozen_sb : List ℕ
  pub thaw_timer : Option ℕ
  pub thaw_work : Bool
  pub log : List Event

abbrev pub path_max : ℕ
path_max = 4096

abbrev pub sizeof_frozen_sb : ℕ
sizeof_frozen_sb = 24

pub member : ℕ → List ℕ → Bool
member sb [] = false
member sb (x ∷ xs) = if x == sb then true else member sb xs

pub remove : ℕ → List ℕ → List ℕ
remove sb [] = []
remove sb (x ∷ xs) = if x == sb then xs else x ∷ remove sb xs

freeze_answer : Frozen → State → ℤ × State
freeze_answer null s = (neg enodev, s)
freeze_answer (error e) s = (neg e, s)
freeze_answer (super res) s =
    (pos 0, record s { frozen_sb = s.frozen_sb ++ res ∷ []; log = freezes res ∷ s.log })

-- The timer runs out.
pub thaw_timer_fn : State → State
thaw_timer_fn s = record s { thaw_timer = none; thaw_work = true }

pub schedule_thaw_work : ℕ → State → Bool × State
schedule_thaw_work timeout s = elim s.thaw_timer [
  | some t ↦ (false, s)
  | none ↦ (true, record s { thaw_timer = some timeout })
]

pub written : ℕ → ℤ × State → ℤ × State
written count (ret, s) = (if ret ==ℤ pos 0 then pos count else ret, s)

module _ (k : Kernel) where
  pub freeze_sb : Option ℕ → State → ℤ × State
  unfolding freeze_answer
  freeze_sb none s = (neg einval, s)
  freeze_sb (some sb) s =
      if member sb s.frozen_sb
      then (neg eexist, s)
      else if k.kmalloc s.log sizeof_frozen_sb
      then freeze_answer (k.freeze_bdev s.log (k.s_bdev sb)) s
      else (neg enomem, s)

  pub thaw_sb : Option ℕ → State → ℤ × State
  thaw_sb none s = (neg enoent, s)
  thaw_sb (some sb) s =
      if member sb s.frozen_sb
      then (
        pos 0,
        record s { frozen_sb = remove sb s.frozen_sb; log = thaws (k.s_bdev sb) sb ∷ s.log },
      )
      else (neg enoent, s)

  on_target : Target → Bool → State → ℤ × State
  on_target (no_path e) freeze s = (neg e, s)
  on_target (on_sb sb) freeze s = if freeze then freeze_sb sb s else thaw_sb sb s

  pub process_path : List ℕ → Bool → State → ℤ × State
  unfolding on_target
  process_path path freeze s = on_target (k.lookup s.log path) freeze s

  pub thaw_each : List ℕ → List Event → List Event
  thaw_each [] log = log
  thaw_each (sb ∷ sbs) log = thaw_each sbs (thaws (k.s_bdev sb) sb ∷ log)

  pub thaw_all : State → ℤ × State
  unfolding thaw_each
  thaw_all s = (pos 0, record s { frozen_sb = []; log = thaw_each s.frozen_sb s.log })

  -- The work runs.
  pub thaw_timeout : State → State
  thaw_timeout s = record (thaw_all s).1 { thaw_work = false }

  -- `flush_scheduled_work` waits for the work if it is scheduled.
  pub cancel_timeout : State → State
  cancel_timeout s =
      let stopped : State = record s { thaw_timer = none } in
      if s.thaw_work then thaw_timeout stopped else stopped

  -- At the end of the string `p` points at its NUL.
  pub arm_timeout : List ℕ → State → ℤ × State
  arm_timeout arg s = elim (k.simple_strtoul arg).1 [
    | c ∷ cs ↦ (neg einval, s)
    | [] ↦
        let (done, s') = schedule_thaw_work (k.simple_strtoul arg).0 s in
        (if done then pos 0 else neg ebusy, s')
  ]

  -- The `switch` on the first byte of a line.
  pub command : List ℕ → State → ℤ × State
  command [] s = (pos 0, s)
  command (c ∷ arg) s =
      if c == b'/'
      then process_path (c ∷ arg) true s
      else if c == b'+'
      then process_path arg true s
      else if c == b'-'
      then process_path arg false s
      else if c == b'*'
      then (neg enosys, s)
      else if c == b'#'
      then (let (ret, s') = thaw_all s in (ret, cancel_timeout s'))
      else if c == b't'
      then arm_timeout arg s
      else (neg einval, s)

-- `strchr(ptr, '\n')` in a buffer that ends with a NUL: the line, and what follows the newline.
abbrev pub newline : ℕ
newline = 10

pub next_line : List ℕ → List ℕ × Option (List ℕ)
next_line [] = ([], none)
next_line (c ∷ cs) =
    let (line, rest) = next_line cs in
    if c == 0 then ([], none) else if c == newline then ([], some cs) else (c ∷ line, rest)

module _ (k : Kernel) where
  -- The `do … while` loop; `none` means that the fuel ran out.
  pub write_loop : ℕ → List ℕ → State → Option (ℤ × State)
  write_loop zero buf s = none
  write_loop (suc fuel) buf s =
      let (ret, s') = command k (next_line buf).0 s in
      elim (next_line buf).1 [
        | none ↦ some (ret, s')
        | some rest ↦
            let more = write_loop fuel rest s' in if ret ==ℤ pos 0 then more else some (ret, s')
      ]

  pub freeze_write : List ℕ → State → Option (ℤ × State)
  freeze_write userbuf s =
      if leb path_max (length userbuf)
      then some (neg enametoolong, s)
      else if k.kmalloc s.log (length userbuf + 1)
      then (elim (k.copy_from_user s.log userbuf) [
        | none ↦ some (neg efault, s)
        | some buf ↦ elim (write_loop (suc (length buf)) buf s) [
          | none ↦ none
          | some out ↦ some (written (length userbuf) out)
        ]
      ])
      else some (neg enomem, s)

  pub cleanup_module : State → State
  cleanup_module s = cancel_timeout k (thaw_all k s).1
