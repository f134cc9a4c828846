-- ===== src/Toolgate/Queue/Safety.antt =====
-- What holds of every request in every reachable state.
use prl_tools.Base.{ℕ, count, count-append, ◌+◌, ◌≤◌, ◌≡◌, ◌≢◌, true, false, [], ◌∷◌, arith}
use prl_tools.Toolgate.Wire.{tg_status_pending, tg_status_success}
use prl_tools.Toolgate.Queue.{
  Device, removing, finished, pass, work_entry, tg_do_work, complete_one, settle_one, enqueue,
  try_cancel, check_cancelled, leave_queue, wake, restarts, update,
}
use prl_tools.Toolgate.Queue.Steps.{
  Step, host, enqueues, works, completes_one, suspends, settles, interrupts, tries, checks, leaves,
  wakes_early, wakes, Reach, here, next, IsInit,
}
use prl_tools.Base.{count-delete_self, count-delete_ne}
use prl_tools.Toolgate.Queue.Passes.{Inv, tg_do_work-Inv, tg_req_cancel_all-Inv}

-- Every step keeps the invariant.
pub Step-Inv : {d e : Device} → Step d e → Inv d → Inv e
unfolding update complete_one settle_one enqueue try_cancel check_cancelled leave_queue wake
Step-Inv (host {d} i s p ne) inv = λ j. ground (arith, inv j)
Step-Inv (enqueues {d} i p) inv = λ j. ground (arith, inv j, count-append j d.pr_list (i ∷ []))
Step-Inv (works {d} e) inv = tg_do_work-Inv d e inv
Step-Inv (completes_one {d} i is e) inv = λ j. ground (arith, inv j, inv i)
Step-Inv (suspends {d} e) inv = tg_req_cancel_all-Inv d e inv
Step-Inv (settles {d} i is e) inv = λ j. ground (arith, inv j)
Step-Inv (interrupts {d} i p) inv = λ j. ground (arith, inv j)
Step-Inv (tries {d} i p) inv = λ j. ground (arith, inv j)
Step-Inv (checks {d} i p) inv = λ j. ground (arith, inv j)
Step-Inv (leaves {d} i p) inv =
    λ j. ground (arith, inv j, count-delete_self i d.pr_list, count-delete_ne i j d.pr_list)
Step-Inv (wakes_early {d} i p some_left) inv = λ j. ground (arith, inv j)
Step-Inv (wakes {d} i p some_left) inv = λ j. ground (arith, inv j)

IsInit-Inv : {d : Device} → IsInit d → Inv d
IsInit-Inv {d} v = λ j. ground (arith, v.entering j, v.no_queue, v.none_completed, v.none_suspended)

pub Reach-Inv : {d e : Device} → IsInit d → Reach d e → Inv e
Reach-Inv v here = IsInit-Inv v
Reach-Inv v (next r st) = Step-Inv st (Reach-Inv v r)

-- In every reachable state a request has at most one of: an entry in the queue, an entry in a list of
-- requests to complete, a completion that was signalled; and a request that its caller has freed is
-- in no list.
pub one_place_lem :
    {d e : Device} (i : ℕ)
    → IsInit d
    → Reach d e
    → let on = count i e.pr_list + count i e.completed + count i e.suspended in
      (on + (e.requests i).completion ≤ 1) × ((e.requests i).pc ≡ finished → on ≡ 0)
one_place_lem i v r = ground (arith, Reach-Inv v r i)

-- A request without TG_REQ_RESTART_ON_SUCCESS that its caller has freed in a reachable state has been
-- answered by the host.
pub finished-answered :
    {d e : Device} (i : ℕ)
    → IsInit d
    → Reach d e
    → restarts (e.requests i) ≡ false
    → (e.requests i).pc ≡ finished
    → (e.requests i).status ≢ tg_status_pending
finished-answered i v r plain done = ground (arith, Reach-Inv v r i)

-- In every reachable state a processed request is not in the queue, and an unprocessed one is in no
-- list of requests to complete and has no completion.
pub leave_queue-owner :
    {d e : Device} (i : ℕ)
    → IsInit d
    → Reach d e
    → ((e.requests i).processed ≡ true → count i e.pr_list ≡ 0)
      × ((e.requests i).processed ≡ false
          → (count i e.completed + count i e.suspended ≡ 0) × ((e.requests i).completion ≡ 0))
leave_queue-owner i v r = ground (arith, Reach-Inv v r i)

-- From every state where a cancelled request that restarts on success stands alone in the queue,
-- unprocessed and answered with success, and its caller is about to take the lock, a state is
-- reachable where the request is freed and the host holds it.
pub restart_race :
    (d : Device) (i : ℕ)
    → d.completed ≡ []
    → d.pr_list ≡ i ∷ []
    → (d.requests i).pc ≡ removing
    → (d.requests i).processed ≡ false
    → (d.requests i).status ≡ tg_status_success
    → restarts (d.requests i) ≡ true
    → (e : Device) × Reach d e
      × ((e.requests i).pc ≡ finished)
      × ((e.requests i).status ≡ tg_status_pending)
unfolding tg_do_work leave_queue pass work_entry update
restart_race d i idle alone at_lock unprocessed success flag = (
  leave_queue (tg_do_work d) i,
  next (next here (works idle)) (leaves i (rw alone (ground arith))),
  rw alone (ground arith),
  rw alone (ground arith),
)
