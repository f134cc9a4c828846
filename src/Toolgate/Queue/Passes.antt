-- ===== src/Toolgate/Queue/Passes.antt =====
-- A pass over the queue keeps every request in one place.
use prl_tools.Base.{ℕ, count, count-append, ◌+◌, ◌≡◌, List, [], ◌∷◌, arith}
use native.Mathlib.Nat.{zero-add}
use prl_tools.Toolgate.Queue.{
  Device, start, tg_do_work, tg_req_cancel_all, Pass, update, work_entry, cancel_entry, pass,
}
use prl_tools.Toolgate.Queue.Places.{Placed}

-- Request `i` in the middle of `tg_do_work`: `rest` is still to be visited.
abbrev WorkPlaced : ℕ → List ℕ → Pass → ℕ → Type 0
WorkPlaced i rest p su = Placed (p.requests i) (count i rest + count i p.kept) (count i p.moved) su

work_entry-Placed :
    (i j su : ℕ) (rest : List ℕ) (p : Pass)
    → WorkPlaced i (j ∷ rest) p su
    → WorkPlaced i rest (work_entry j p) su
unfolding work_entry update
work_entry-Placed i j su rest p h = ground (arith, count-append i p.kept (j ∷ []))

cancel_entry-Placed :
    (i j co : ℕ) (rest : List ℕ) (p : Pass)
    → Placed (p.requests i) (count i (j ∷ rest) + count i p.kept) co (count i p.moved)
    → Placed
        ((cancel_entry j p).requests i)
        (count i rest + count i (cancel_entry j p).kept)
        co
        (count i (cancel_entry j p).moved)
unfolding cancel_entry update
cancel_entry-Placed i j co rest p h = ground (arith, count-append i p.kept (j ∷ []))

work-Placed :
    (i su : ℕ) (rest : List ℕ) (p : Pass)
    → WorkPlaced i rest p su
    → WorkPlaced i [] (pass work_entry rest p) su
unfolding pass
work-Placed i su [] p h = h
work-Placed i su (j ∷ rest) p h =
    work-Placed i su rest (work_entry j p) (work_entry-Placed i j su rest p h)

cancel-Placed :
    (i co : ℕ) (rest : List ℕ) (p : Pass)
    → Placed (p.requests i) (count i rest + count i p.kept) co (count i p.moved)
    → let q = pass cancel_entry rest p in
      Placed (q.requests i) (count i q.kept) co (count i q.moved)
unfolding pass
cancel-Placed i co [] p h = rw zero-add at h
cancel-Placed i co (j ∷ rest) p h =
    cancel-Placed i co rest (cancel_entry j p) (cancel_entry-Placed i j co rest p h)

-- The invariant of a device.
abbrev pub Inv : Device → Type 0
Inv d =
    (i : ℕ) → Placed (d.requests i) (count i d.pr_list) (count i d.completed) (count i d.suspended)

pub tg_do_work-Inv : (d : Device) → d.completed ≡ [] → Inv d → Inv (tg_do_work d)
unfolding tg_do_work
tg_do_work-Inv d e inv i =
    let h : WorkPlaced i d.pr_list (start d) (count i d.suspended) = ground (arith, inv i) in
    rw zero-add at (work-Placed i (count i d.suspended) d.pr_list (start d) h)

pub tg_req_cancel_all-Inv : (d : Device) → d.suspended ≡ [] → Inv d → Inv (tg_req_cancel_all d)
unfolding tg_req_cancel_all
tg_req_cancel_all-Inv d e inv i =
    let h : Placed (d.requests i) (count i d.pr_list + 0) (count i d.completed) 0 =
      ground (arith, inv i) in
    cancel-Placed i (count i d.completed) d.pr_list (start d) h
