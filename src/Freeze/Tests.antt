-- ===== src/Freeze/Tests.antt =====
-- Runs of the freeze module, and its theorems at a small kernel.
use prl_tools.Base.{
  ℕ, ◌≡◌, refl, true, false, none, some, List, [], ◌∷◌, arith, ◌==◌, if◌then◌else◌, length, pos,
  neg,
}
use prl_tools.Base.Errno.{eexist, enoent}
use prl_tools.Freeze.{
  Kernel, State, Event, super, on_sb, no_path, freeze_sb, thaw_sb, freeze_write, written,
  write_loop, command, process_path, next_line, cleanup_module, member,
}
use prl_tools.Freeze.Balance.{IsBalanced, FreezesOwn, freezes_of, thaws_of}
use prl_tools.Freeze.Lines.{lines, commands, write_loop-commands}
use prl_tools.Freeze.RoundTrip.{freeze_sb-thaw_sb}
use prl_tools.Freeze.History.{
  writes, timer_fires, work_runs, run, run-IsBalanced, cleanup_module_thaws,
}

-- A path of `n` bytes is on super block `n`, on the device of that number.
abbrev kernel : Kernel
kernel = record {
  lookup = λ _ path. if length path == 7 then no_path enoent else on_sb (some (length path));
  s_bdev = λ sb. sb;
  freeze_bdev = λ _ bdev. super bdev;
  kmalloc = λ _ _. true;
  copy_from_user = λ _ buf. some buf;
  simple_strtoul = λ arg. (15, []);
}

kernel-FreezesOwn : FreezesOwn kernel
kernel-FreezesOwn = λ log sb res e. ground arith

abbrev unused : State
unused = record { frozen_sb = []; thaw_timer = none; thaw_work = false; log = [] }

unused-IsBalanced : (i : ℕ) → IsBalanced unused i
unused-IsBalanced i = record { balance = refl; once = omega arith }

-- "/mnt\n/\n"
abbrev two_freezes : List ℕ
two_freezes = b'/' ∷ b'm' ∷ b'n' ∷ b't' ∷ 10 ∷ b'/' ∷ 10 ∷ []

abbrev both_frozen : State
both_frozen = record unused { frozen_sb = 4 ∷ 1 ∷ []; log = Event.freezes 1 ∷ Event.freezes 4 ∷ [] }

freeze_write_runs : freeze_write kernel two_freezes unused ≡ some (pos 7, both_frozen)
unfolding freeze_write write_loop next_line command process_path freeze_sb member written
freeze_write_runs = refl

run-IsBalanced_example :
    (s : State) × (run kernel (writes two_freezes ∷ timer_fires ∷ work_runs ∷ []) unused ≡ some s)
    × IsBalanced s 4
run-IsBalanced_example =
    run-IsBalanced kernel (writes two_freezes ∷ timer_fires ∷ work_runs ∷ []) unused 4
      kernel-FreezesOwn (unused-IsBalanced 4)

both_frozen-IsBalanced : IsBalanced both_frozen 4
both_frozen-IsBalanced = record { balance = omega arith; once = omega arith }

cleanup_module_thaws_example :
    (freezes_of 4 (cleanup_module kernel both_frozen).log
      ≡ thaws_of 4 (cleanup_module kernel both_frozen).log)
    × ((cleanup_module kernel both_frozen).frozen_sb ≡ [])
    × ((cleanup_module kernel both_frozen).thaw_timer ≡ none)
    × ((cleanup_module kernel both_frozen).thaw_work ≡ false)
cleanup_module_thaws_example = cleanup_module_thaws kernel both_frozen 4 both_frozen-IsBalanced

write_loop-commands_example :
    write_loop kernel 8 two_freezes unused ≡ some (commands kernel (lines two_freezes) unused)
write_loop-commands_example = write_loop-commands kernel 8 two_freezes unused (omega arith)

freeze_sb-thaw_sb_example :
    let s1 = (freeze_sb kernel (some 3) both_frozen).1 in
    let s2 = (thaw_sb kernel (some 3) s1).1 in
    ((freeze_sb kernel (some 3) both_frozen).0 ≡ pos 0)
    × ((freeze_sb kernel (some 3) s1).0 ≡ neg eexist)
    × ((thaw_sb kernel (some 3) s1).0 ≡ pos 0)
    × (s2.frozen_sb ≡ both_frozen.frozen_sb)
    × ((thaw_sb kernel (some 3) s2).0 ≡ neg enoent)
unfolding member
freeze_sb-thaw_sb_example = freeze_sb-thaw_sb kernel 3 both_frozen refl refl refl
