-- ===== src/Toolgate/Queue.antt =====
-- The queue of submitted requests: the locked sections of `tg_req_submit` and `tg_req_complete`
-- (prltg_call.c), the bottom half `tg_do_work` and `tg_req_cancel_all` (prltg.c). A request is named
-- by a number; `tg_out` with its physical address is an entry of `port`, newest first.
pub mod Steps
pub mod Places
pub mod Passes
pub mod Safety
mod Tests
use prl_tools.Base.{
  delete, ℕ, ◌+◌, ◌-◌, ◌/◌, ◌%◌, Bool, true, false, ◌&&◌, ◌==◌, if◌then◌else◌, List, [], ◌∷◌, ◌++◌,
}
use prl_tools.Toolgate.Wire.{tg_status_pending, tg_status_success}

-- Where the caller of a request stands in `tg_req_submit` and `tg_req_complete`.
pub data Pc : Type 0 where
  -- after `TG_PORT_SUBMIT`, before the lock
  submitting : Pc
  -- in the queue, perhaps in the first wait
  pending : Pc
  -- interrupted, or called with `force_cancel`
  cancelling : Pc
  -- after `TG_PORT_CANCEL`
  cancelled : Pc
  -- about to take the lock and leave the queue
  removing : Pc
  -- at `out_wait`
  waiting : Pc
  -- past `out`: the pages are released, the request is freed
  finished : Pc

-- `struct TG_PENDING_REQUEST` with the `Status` of its `dst` and the `flags` of its `sdesc`;
-- `waiting` is the count of its completion.
pub record Request : Type 0 where
  pub status : ℕ
  pub flags : ℕ
  pub processed : Bool
  pub completion : ℕ
  pub pc : Pc

pub data PortOp : Type 0 where
  submit cancel : ℕ → PortOp
  unmask : PortOp

-- `struct tg_dev`, with the local lists of the running bottom half (`completed`) and of the
-- running `tg_req_cancel_all` (`suspended`).
pub record Device : Type 0 where
  pub requests : ℕ → Request
  pub pr_list : List ℕ
  pub completed : List ℕ
  pub suspended : List ℕ
  pub msi : Bool
  pub port : List PortOp

pub update : (ℕ → Request) → ℕ → Request → ℕ → Request
update f i r j = if j == i then r else f j

abbrev pub is_pending : Request → Bool
is_pending r = r.status == tg_status_pending

-- `sdesc->flags & TG_REQ_RESTART_ON_SUCCESS`
abbrev pub restarts : Request → Bool
restarts r = r.flags / 2 % 2 == 1

abbrev pub completes : Request → Request
completes r = record r { completion = r.completion + 1 }

-- What a pass over the queue makes of it.
pub record Pass : Type 0 where
  pub requests : ℕ → Request
  pub kept : List ℕ
  pub moved : List ℕ
  pub port : List PortOp

-- `list_move` puts an entry at the head.
abbrev pub move : ℕ → Request → Pass → Pass
move i r p = record p {
  requests = update p.requests i (record r { processed = true });
  moved = i ∷ p.moved;
}

abbrev pub keep : ℕ → Pass → Pass
keep i p = record p { kept = p.kept ++ i ∷ [] }

abbrev pub restart : ℕ → Request → Pass → Pass
restart i r p = record p {
  requests = update p.requests i (record r { status = tg_status_pending });
  kept = p.kept ++ i ∷ [];
  port = submit i ∷ p.port;
}

-- The body of the loop of `tg_do_work`.
pub work_entry : ℕ → Pass → Pass
work_entry i p =
    let r = p.requests i in
    if is_pending r
    then keep i p
    else if (r.status == tg_status_success) && restarts r
    then restart i r p
    else move i r p

-- The body of the first loop of `tg_req_cancel_all`.
pub cancel_entry : ℕ → Pass → Pass
cancel_entry i p = let r = p.requests i in if is_pending r then move i r p else keep i p

pub pass : (ℕ → Pass → Pass) → List ℕ → Pass → Pass
pass body [] p = p
pass body (i ∷ is) p = pass body is (body i p)

abbrev pub start : Device → Pass
start d = record { requests = d.requests; kept = []; moved = []; port = d.port }

-- The locked pass of `tg_do_work`, and the interrupt mask.
pub tg_do_work : Device → Device
tg_do_work d =
    let p = pass work_entry d.pr_list (start d) in
    record d {
      requests = p.requests;
      pr_list = p.kept;
      completed = p.moved;
      port = if d.msi then p.port else unmask ∷ p.port;
    }

cancel_ops : List ℕ → List PortOp → List PortOp
cancel_ops [] ops = ops
cancel_ops (i ∷ is) ops = cancel_ops is (cancel i ∷ ops)

-- The locked pass of `tg_req_cancel_all`, and the loop that tells the host.
pub tg_req_cancel_all : Device → Device
unfolding cancel_ops
tg_req_cancel_all d =
    let p = pass cancel_entry d.pr_list (start d) in
    record d {
      requests = p.requests;
      pr_list = p.kept;
      suspended = p.moved;
      port = cancel_ops p.moved p.port;
    }

abbrev pub with_request : Device → ℕ → Request → Device
with_request d i r = record d { requests = update d.requests i r }

-- One round of the last loop of `tg_do_work`.
pub complete_one : Device → ℕ → List ℕ → Device
complete_one d i is = record d {
  requests = update d.requests i (completes (d.requests i));
  completed = is;
}

-- One round of the last loop of `tg_req_cancel_all`, after the wait: a request that the host still
-- holds is leaked.
pub settle_one : Device → ℕ → List ℕ → Device
settle_one d i is =
    let r = d.requests i in
    record d {
      requests = if is_pending r then d.requests else update d.requests i (completes r);
      suspended = is;
    }

-- The end of `tg_req_submit`: into the queue, unless the host has answered meanwhile.
pub enqueue : Device → ℕ → Device
enqueue d i =
    let r = d.requests i in
    if is_pending r
    then record d {
      requests = update d.requests i (record r { processed = false; completion = 0; pc = pending });
      pr_list = d.pr_list ++ i ∷ [];
    }
    else with_request d i (record r { processed = false; completion = 0; pc = finished })

abbrev pub at_pc : Device → ℕ → Pc → Device
at_pc d i pc = with_request d i (record (d.requests i) { pc = pc })

-- `tg_req_complete` after the first wait: the first test of `dst->Status`, and `TG_PORT_CANCEL`.
pub try_cancel : Device → ℕ → Device
try_cancel d i =
    if is_pending (d.requests i)
    then record (at_pc d i cancelled) { port = cancel i ∷ d.port }
    else at_pc d i waiting

-- The second test.
pub check_cancelled : Device → ℕ → Device
check_cancelled d i = at_pc d i (if is_pending (d.requests i) then waiting else removing)

-- The locked section of `tg_req_complete`.
pub leave_queue : Device → ℕ → Device
leave_queue d i =
    if (d.requests i).processed
    then at_pc d i waiting
    else record (at_pc d i finished) { pr_list = delete i d.pr_list }

-- A wait that returns takes one completion.
pub wake : Device → ℕ → Device
wake d i =
    let r = d.requests i in
    with_request d i (record r { completion = r.completion - 1; pc = finished })
