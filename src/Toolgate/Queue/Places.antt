-- ===== src/Toolgate/Queue/Places.antt =====
-- The invariant of one request: it has at most one place.
use prl_tools.Base.{ℕ, ◌+◌, ◌≤◌, ◌<◌, ◌≡◌, ◌≢◌, Bool, true, false}
use prl_tools.Toolgate.Wire.{tg_status_pending}
use prl_tools.Toolgate.Queue.{Request, Pc, submitting, removing, finished, restarts}

-- The caller is inside `tg_req_complete`, or about to call it.
abbrev pub is_live : Pc → Bool
is_live submitting = false
is_live finished = false
is_live _ = true

-- No one but the host changes the status of a request in these states.
abbrev pub is_leaving : Pc → Bool
is_leaving removing = true
is_leaving finished = true
is_leaving _ = false

-- `on`, `co` and `su` count the request in the queue, in `completed` and in `suspended`.
pub record Placed (r : Request) (on co su : ℕ) : Type 0 where
  pub one_place : on + co + su + r.completion ≤ 1
  pub queued : 0 < on → (r.processed ≡ false) × (is_live r.pc ≡ true)
  pub taken : 0 < co + su + r.completion → (r.processed ≡ true) × (is_live r.pc ≡ true)
  pub answered : 0 < co + r.completion → r.status ≢ tg_status_pending
  pub left : is_leaving r.pc ≡ true → restarts r ≡ false → r.status ≢ tg_status_pending
