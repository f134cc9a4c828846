-- ===== src/Drm/Shared/Pairs.antt =====
-- Each request that shares the state is cancelled once, or pending.
use prl_tools.Base.{
  ℕ, ◌+◌, ◌≤◌, ◌≡◌, refl, sym, Bool, true, false, List, [], ◌∷◌, Option, none, some, arith, ◌==◌,
  count, if◌then◌else◌, Bool-cases, inl, inr,
}
use prl_tools.Drm.Shared.{
  SharedState, start_if_idle, stop_if_pending, is_user, prl_drm_ss_vm_open, prl_drm_ss_vm_fault,
  prl_drm_ss_vm_close, prl_drm_master_set, prl_drm_master_drop, cursor_move,
}

pub data SharedCall : Type 0 where
  vm_open : Bool → ℕ → SharedCall
  vm_fault : Bool → ℕ → SharedCall
  vm_close : ℕ → SharedCall
  master_set : Bool → ℕ → SharedCall
  master_drop : Bool → SharedCall
  move_cursor : Bool → SharedCall

unfoldable pub shared_call : SharedCall → SharedState → SharedState
shared_call (vm_open answers file) s = prl_drm_ss_vm_open answers file s
shared_call (vm_fault answers file) s = prl_drm_ss_vm_fault answers file s
shared_call (vm_close file) s = prl_drm_ss_vm_close file s
shared_call (master_set answers file) s = prl_drm_master_set answers file s
shared_call (master_drop fbdev) s = prl_drm_master_drop fbdev s
shared_call (move_cursor answers) s = cursor_move answers s

unfoldable pub shared_calls : List SharedCall → SharedState → SharedState
shared_calls [] s = s
shared_calls (c ∷ cs) s = shared_calls cs (shared_call c s)

abbrev pub waits : ℕ → Option ℕ → ℕ
waits r none = 0
waits r (some p) = if p == r then 1 else 0

-- A request was started once at most, and is pending unless it was cancelled as often.
pub record IsPaired (s : SharedState) : Type 0 where
  pub balanced : (r : ℕ) → count r s.started ≡ count r s.cancelled + waits r s.pending
  pub once : (r : ℕ) → count r s.started ≤ 1
  pub numbered : (r : ℕ) → s.next ≤ r → count r s.started ≡ 0

-- The files that use the state do not matter.
with_users : (s : SharedState) (us : List ℕ) → IsPaired s → IsPaired (record s { users = us })
with_users s us v = record { balanced = v.balanced; once = v.once; numbered = v.numbered }

start-IsPaired :
    (answers : Bool) (s : SharedState) (p : Option ℕ)
    → p ≡ s.pending
    → IsPaired s
    → IsPaired (start_if_idle answers s p)
unfolding start_if_idle
start-IsPaired answers s (some r) here v = v
start-IsPaired false s none here v = record {
  balanced = λ r. rw (v.balanced r, sym here) refl;
  once = v.once;
  numbered = λ r above. v.numbered r (omega (arith, above));
}
start-IsPaired true s none here v = record {
  balanced = λ r.
      let idle : waits r s.pending ≡ 0 = rw (sym here) refl in omega (arith, v.balanced r, idle);
  once = λ r. ground (arith, v.once r, v.numbered r);
  numbered = λ r above. ground (arith, above, v.numbered r);
}

stop-IsPaired :
    (s : SharedState) (p : Option ℕ) → p ≡ s.pending → IsPaired s → IsPaired (stop_if_pending s p)
unfolding stop_if_pending
stop-IsPaired s none here v = v
stop-IsPaired s (some q) here v = record {
  balanced = λ r.
      let pending : waits r s.pending ≡ waits r (some q) = rw (sym here) refl in
      omega (arith, v.balanced r, pending);
  once = v.once;
  numbered = v.numbered;
}

shared_call-IsPaired : (c : SharedCall) (s : SharedState) → IsPaired s → IsPaired (shared_call c s)
unfolding shared_call
shared_call-IsPaired (vm_open answers file) s v =
    with_users _ _ (start-IsPaired answers s s.pending refl v)
shared_call-IsPaired (vm_fault answers file) s v =
    with_users _ _ (start-IsPaired answers s s.pending refl v)
shared_call-IsPaired (vm_close file) s v = with_users _ _ (stop-IsPaired s s.pending refl v)
shared_call-IsPaired (master_set answers file) s v = elim (Bool-cases (is_user file s.users)) [
  | inl uses ↦ rw uses (start-IsPaired answers s s.pending refl v)
  | inr not_used ↦ rw not_used v
]
shared_call-IsPaired (master_drop true) s v = v
shared_call-IsPaired (master_drop false) s v = stop-IsPaired s s.pending refl v
shared_call-IsPaired (move_cursor answers) s v = start-IsPaired answers s s.pending refl v

abbrev pub idle : SharedState
idle = record { pending = none; next = 0; started = []; cancelled = []; users = [] }

-- However files map the state, leave it and become or cease to be the master, if these calls run one
-- after another, never two at the same time, and whatever the host answers, each request to share the
-- state is started once at most, and is cancelled as often as it was started unless it is the pending
-- one, which has not been cancelled.
pub shared_calls-IsPaired : (cs : List SharedCall) → IsPaired (shared_calls cs idle)
unfolding shared_calls
shared_calls-IsPaired cs =
    from_state cs idle
      (record { balanced = λ r. refl; once = λ r. omega arith; numbered = λ r above. refl })
  where
    from_state :
        (cs : List SharedCall) (s : SharedState) → IsPaired s → IsPaired (shared_calls cs s)
    from_state [] s v = v
    from_state (c ∷ cs) s v = from_state cs (shared_call c s) (shared_call-IsPaired c s v)
