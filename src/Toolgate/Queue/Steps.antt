-- ===== src/Toolgate/Queue/Steps.antt =====
-- The interleavings of the callers, the bottom half, the suspend path and the host.
use prl_tools.Base.{ℕ, ◌<◌, ◌≡◌, ◌≢◌, [], ◌∷◌, List, true}
use prl_tools.Toolgate.Wire.{tg_status_pending}
use prl_tools.Toolgate.Queue.{
  Device, submitting, pending, cancelling, removing, waiting, cancelled, is_pending, with_request,
  at_pc, tg_do_work, tg_req_cancel_all, complete_one, settle_one, enqueue, try_cancel,
  check_cancelled, leave_queue, wake,
}

-- The lists of a pass are local variables, so a pass starts when the one before has ended: a work
-- item does not run beside itself, and there is one suspend at a time.
pub data Step : Device → Device → Type 0 where
  host :
      {d : Device} (i s : ℕ)
      → is_pending (d.requests i) ≡ true
      → s ≢ tg_status_pending
      → Step d (with_request d i (record (d.requests i) { status = s }))
  enqueues : {d : Device} (i : ℕ) → (d.requests i).pc ≡ submitting → Step d (enqueue d i)
  works : {d : Device} → d.completed ≡ [] → Step d (tg_do_work d)
  completes_one :
      {d : Device} (i : ℕ) (is : List ℕ) → d.completed ≡ i ∷ is → Step d (complete_one d i is)
  suspends : {d : Device} → d.suspended ≡ [] → Step d (tg_req_cancel_all d)
  settles : {d : Device} (i : ℕ) (is : List ℕ) → d.suspended ≡ i ∷ is → Step d (settle_one d i is)
  interrupts : {d : Device} (i : ℕ) → (d.requests i).pc ≡ pending → Step d (at_pc d i cancelling)
  tries : {d : Device} (i : ℕ) → (d.requests i).pc ≡ cancelling → Step d (try_cancel d i)
  checks : {d : Device} (i : ℕ) → (d.requests i).pc ≡ cancelled → Step d (check_cancelled d i)
  leaves : {d : Device} (i : ℕ) → (d.requests i).pc ≡ removing → Step d (leave_queue d i)
  wakes_early :
      {d : Device} (i : ℕ)
      → (d.requests i).pc ≡ pending
      → 0 < (d.requests i).completion
      → Step d (wake d i)
  wakes :
      {d : Device} (i : ℕ)
      → (d.requests i).pc ≡ waiting
      → 0 < (d.requests i).completion
      → Step d (wake d i)

pub data Reach (s : Device) : Device → Type 0 where
  here : Reach s s
  next : {t u : Device} → Reach s t → Step t u → Reach s u

-- Requests that are about to enter the queue, and empty lists.
pub record IsInit (d : Device) : Type 0 where
  pub entering : (i : ℕ) → ((d.requests i).pc ≡ submitting) × ((d.requests i).completion ≡ 0)
  pub no_queue : d.pr_list ≡ []
  pub none_completed : d.completed ≡ []
  pub none_suspended : d.suspended ≡ []
