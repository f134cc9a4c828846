-- ===== src/Drm/Shared.antt =====
-- kmods-src/prl_vid/Video/Guest/Linux/kmod/prldrm.c: the state that is shared with the host, by a request
-- that stays with the host until it is cancelled. Requests are numbered in the order in which
-- call_tg_async_start is called; an argument says whether it brings one.
-- The source holds no lock between its test of `pending` and the start or the stop that follows; each
-- call is one function here, so what is modelled are calls that run one after another.
pub mod Pairs
mod Tests
use prl_tools.Base.{
  ℕ, ◌+◌, Bool, true, false, List, [], ◌∷◌, Option, none, some, ◌==◌, if◌then◌else◌, delete,
}

-- `users` are the files with use_shared_state.
pub record SharedState : Type 0 where
  pub pending : Option ℕ
  pub next : ℕ
  pub started : List ℕ
  pub cancelled : List ℕ
  pub users : List ℕ

abbrev pub prl_drm_share_state_start : Bool → SharedState → SharedState
prl_drm_share_state_start answers s =
    if answers
    then record s { pending = some s.next; next = s.next + 1; started = s.next ∷ s.started }
    else record s { pending = none; next = s.next + 1 }

-- Nothing is started while a request is pending. The last argument is `pending` as the test has read it.
unfoldable pub start_if_idle : Bool → SharedState → Option ℕ → SharedState
start_if_idle answers s (some r) = s
start_if_idle answers s none = prl_drm_share_state_start answers s

-- prl_drm_share_state_stop, under the test of `pending`, which is the last argument as it was read.
unfoldable pub stop_if_pending : SharedState → Option ℕ → SharedState
stop_if_pending s none = s
stop_if_pending s (some r) = record s { pending = none; cancelled = r ∷ s.cancelled }

abbrev pub is_user : ℕ → List ℕ → Bool
is_user file [] = false
is_user file (u ∷ us) = if u == file then true else is_user file us

unfoldable pub forget_user : ℕ → List ℕ → List ℕ
forget_user file [] = []
forget_user file (u ∷ us) = let rest = forget_user file us in if u == file then rest else u ∷ rest

-- A page fault in the mapping of a file, and a copy of the mapping.
abbrev pub prl_drm_ss_vm_open : Bool → ℕ → SharedState → SharedState
prl_drm_ss_vm_open answers file s =
    let t = start_if_idle answers s s.pending in record t { users = file ∷ t.users }

abbrev pub prl_drm_ss_vm_fault : Bool → ℕ → SharedState → SharedState
prl_drm_ss_vm_fault answers file s =
    let t = start_if_idle answers s s.pending in record t { users = file ∷ t.users }

-- The end of a mapping.
abbrev pub prl_drm_ss_vm_close : ℕ → SharedState → SharedState
prl_drm_ss_vm_close file s =
    let t = stop_if_pending s s.pending in record t { users = forget_user file t.users }

abbrev pub prl_drm_master_set : Bool → ℕ → SharedState → SharedState
prl_drm_master_set answers file s =
    if is_user file s.users then start_if_idle answers s s.pending else s

-- With a framebuffer device of its own the driver keeps the state.
abbrev pub prl_drm_master_drop : Bool → SharedState → SharedState
prl_drm_master_drop fbdev s = if fbdev then s else stop_if_pending s s.pending

-- What moves the cursor or marks an area starts the state too.
abbrev pub cursor_move : Bool → SharedState → SharedState
cursor_move answers s = start_if_idle answers s s.pending
