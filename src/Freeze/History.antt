-- ===== src/Freeze/History.antt =====
-- Any history of the module: writes, the timer and its work, the unloading.
use prl_tools.Base.{ℕ, ◌≡◌, refl, false, Option, none, some, List, [], ◌∷◌, arith}
use prl_tools.Freeze.{
  Kernel, State, thaw_all, thaw_timer_fn, thaw_timeout, cancel_timeout, freeze_write,
  cleanup_module,
}
use prl_tools.Freeze.Balance.{
  freezes_of, thaws_of, IsBalanced, FreezesOwn, thaw_each-of, thaw_all-IsBalanced,
  thaw_timeout-IsBalanced, cancel_timeout-IsBalanced, freeze_write-IsBalanced,
}

-- What happens to the module: a write, the timer, the work, the unloading.
pub data Op : Type 0 where
  writes : List ℕ → Op
  timer_fires work_runs unloads : Op

module _ (k : Kernel) where
  pub step : Op → State → Option State
  step (writes userbuf) s = elim (freeze_write k userbuf s) [ none ↦ none | some out ↦ some out.1 ]
  step timer_fires s = some (thaw_timer_fn s)
  step work_runs s = some (thaw_timeout k s)
  step unloads s = some (cleanup_module k s)

  pub run : List Op → State → Option State
  run [] s = some s
  run (op ∷ ops) s = elim (step op s) [ none ↦ none | some s' ↦ run ops s' ]

  step-IsBalanced :
      (op : Op) (s : State) (i : ℕ)
      → FreezesOwn k
      → IsBalanced s i
      → (s' : State) × (step op s ≡ some s') × IsBalanced s' i
  unfolding step thaw_timer_fn cleanup_module
  step-IsBalanced (writes userbuf) s i own h =
      let (out, ran, h') = freeze_write-IsBalanced k userbuf s i own h in
      (out.1, rw (ran, step), h')
  step-IsBalanced timer_fires s i own h =
      (thaw_timer_fn s, refl, record { balance = h.balance; once = h.once })
  step-IsBalanced work_runs s i own h = (thaw_timeout k s, refl, thaw_timeout-IsBalanced k s i h)
  step-IsBalanced unloads s i own h = (
    cleanup_module k s,
    refl,
    cancel_timeout-IsBalanced k (thaw_all k s).1 i (thaw_all-IsBalanced k s i h),
  )

  -- If freeze_bdev returns the super block on its device, any history of writes, timer, work and
  -- unloading runs to its end and keeps a balanced super block balanced: it was frozen once more than
  -- thawed and stands in frozen_sb once, or it was thawed as often as frozen and is not there.
  pub run-IsBalanced :
      (ops : List Op) (s : State) (i : ℕ)
      → FreezesOwn k
      → IsBalanced s i
      → (s' : State) × (run ops s ≡ some s') × IsBalanced s' i
  unfolding run
  run-IsBalanced [] s i own h = (s, refl, h)
  run-IsBalanced (op ∷ ops) s i own h =
      let (s', ran, h') = step-IsBalanced op s i own h in
      let (s'', rest, h'') = run-IsBalanced ops s' i own h' in (s'', rw (ran, run) rest, h'')

  -- Unloading the module thaws a balanced super block as often as it was frozen, empties the list,
  -- and leaves no timer and no scheduled work.
  pub cleanup_module_thaws :
      (s : State) (i : ℕ)
      → IsBalanced s i
      → let s' = cleanup_module k s in
        (freezes_of i s'.log ≡ thaws_of i s'.log)
        × (s'.frozen_sb ≡ [])
        × (s'.thaw_timer ≡ none)
        × (s'.thaw_work ≡ false)
  unfolding cleanup_module cancel_timeout thaw_timeout thaw_all
  cleanup_module_thaws s i h = ground (arith, thaw_each-of k i s.frozen_sb s.log)
