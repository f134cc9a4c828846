-- ===== src/Toolgate/Queue/Tests.antt =====
-- Runs of the queue, and its theorems at concrete devices.
use prl_tools.Base.{ℕ, count, ◌+◌, ◌≤◌, ◌≡◌, ◌≢◌, refl, true, false, [], arith, if◌then◌else◌, ◌==◌}
use prl_tools.Toolgate.Wire.{tg_status_pending, tg_status_success}
use prl_tools.Toolgate.Queue.{
  Device, Request, submitting, finished, update, enqueue, try_cancel, check_cancelled, tg_do_work,
  work_entry, pass, complete_one, wake, at_pc, cancelling, with_request,
}
use prl_tools.Toolgate.Queue.Steps.{
  host, enqueues, works, completes_one, interrupts, tries, checks, wakes_early, Reach, here, next,
  IsInit,
}
use prl_tools.Toolgate.Queue.Safety.{
  one_place_lem, finished-answered, leave_queue-owner, restart_race,
}

-- Requests that the host has not answered; odd ones restart on success.
abbrev entering : ℕ → Request
entering i = record {
  status = tg_status_pending;
  flags = if i == 1 then 2 else 0;
  processed = false;
  completion = 0;
  pc = submitting;
}

abbrev idle : Device
idle = record {
  requests = entering;
  pr_list = [];
  completed = [];
  suspended = [];
  msi = true;
  port = [];
}

idle-IsInit : IsInit idle
idle-IsInit = record {
  entering = λ i. (refl, refl);
  no_queue = refl;
  none_completed = refl;
  none_suspended = refl;
}

-- Request `i` in the queue, then answered with success.
abbrev answered : ℕ → Device
answered i =
    with_request (enqueue idle i) i
      (record ((enqueue idle i).requests i) { status = tg_status_success })

answered-Reach : Reach idle (answered 0)
unfolding enqueue update
answered-Reach = next (next here (enqueues 0 refl)) (host 0 tg_status_success refl (omega arith))

-- The bottom half takes it, completes it, and its caller wakes.
abbrev woken : Device
woken = wake (complete_one (tg_do_work (answered 0)) 0 []) 0

woken-Reach : Reach idle woken
unfolding enqueue update tg_do_work pass work_entry complete_one
woken-Reach =
    next (next (next answered-Reach (works refl)) (completes_one 0 [] refl))
      (wakes_early 0 refl (omega arith))

one_place_lem_example :
    (count 0 woken.pr_list
        + count 0 woken.completed
        + count 0 woken.suspended
        + (woken.requests 0).completion
      ≤ 1)
    × ((woken.requests 0).pc ≡ finished
        → count 0 woken.pr_list + count 0 woken.completed + count 0 woken.suspended ≡ 0)
one_place_lem_example = one_place_lem 0 idle-IsInit woken-Reach

finished-answered_example : (woken.requests 0).status ≢ tg_status_pending
unfolding enqueue update tg_do_work pass work_entry complete_one wake
finished-answered_example = finished-answered 0 idle-IsInit woken-Reach refl refl

leave_queue-owner_example :
    ((woken.requests 0).processed ≡ true → count 0 woken.pr_list ≡ 0)
    × ((woken.requests 0).processed ≡ false
        → (count 0 woken.completed + count 0 woken.suspended ≡ 0)
          × ((woken.requests 0).completion ≡ 0))
leave_queue-owner_example = leave_queue-owner 0 idle-IsInit woken-Reach

-- Request 1 restarts. Its caller cancels it, and the host answers with success all the same.
abbrev tried : Device
tried = try_cancel (at_pc (enqueue idle 1) 1 cancelling) 1

abbrev racing : Device
racing =
    check_cancelled
      (with_request tried 1 (record (tried.requests 1) { status = tg_status_success })) 1

racing-Reach : Reach idle racing
unfolding enqueue update try_cancel
racing-Reach =
    next
      (next (next (next (next here (enqueues 1 refl)) (interrupts 1 refl)) (tries 1 refl))
        (host 1 tg_status_success refl (omega arith)))
      (checks 1 refl)

restart_race_example :
    (e : Device) × Reach racing e
    × ((e.requests 1).pc ≡ finished)
    × ((e.requests 1).status ≡ tg_status_pending)
unfolding enqueue update try_cancel check_cancelled
restart_race_example = restart_race racing 1 refl refl refl refl refl refl
