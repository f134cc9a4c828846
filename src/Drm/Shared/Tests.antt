-- ===== src/Drm/Shared/Tests.antt =====
-- The shared state in a short history.
use prl_tools.Base.{◌≡◌, refl, true, List, [], ◌∷◌, none, some}
use prl_tools.Drm.Shared.{start_if_idle, stop_if_pending, forget_user}
use prl_tools.Drm.Shared.Pairs.{
  SharedCall, vm_fault, vm_close, master_set, shared_call, shared_calls, idle, IsPaired,
  shared_calls-IsPaired,
}

-- Two files map the state; one that leaves stops it for both.
abbrev history : List SharedCall
history = vm_fault true 1 ∷ vm_fault true 2 ∷ vm_close 1 ∷ []

stopped_for_both :
    shared_calls history idle
    ≡ record { pending = none; next = 1; started = 0 ∷ []; cancelled = 0 ∷ []; users = 2 ∷ [] }
unfolding shared_calls shared_call start_if_idle stop_if_pending forget_user
stopped_for_both = refl

shared_calls-IsPaired_example : IsPaired (shared_calls (master_set true 2 ∷ history) idle)
shared_calls-IsPaired_example = shared_calls-IsPaired (master_set true 2 ∷ history)

-- Two faults at the same time that have both read that nothing is pending: the first request is neither
-- pending any more nor cancelled.
both_start :
    let s = start_if_idle true (start_if_idle true idle none) none in
    (s.started ≡ 1 ∷ 0 ∷ []) × (s.cancelled ≡ []) × (s.pending ≡ some 1)
unfolding start_if_idle
both_start = (refl, refl, refl)
