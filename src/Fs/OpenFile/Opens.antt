-- ===== src/Fs/OpenFile/Opens.antt =====
-- Opening and releasing: the attempts end, and the counter counts.
use prl_tools.Base.{
  ℕ, zero, suc, ◌+◌, ◌%◌, ◌^◌, ◌≡◌, ◌≢◌, ◌<◌, ◌≤◌, refl, Bool, true, false, none, some, ◌==◌,
  if◌then◌else◌, ℤ, pos, negsuc, neg, is_neg, arith, Option-cases, Bool-cases, inl, inr,
}
use prl_tools.Base.Errno.{enomem, eacces}
use prl_tools.Fs.Flags.{FileInfo}
use prl_tools.Fs.Requests.{Desc, Reply, host_request_open}
use prl_tools.Fs.OpenFile.{
  Fd, pfd, err_ptr, OpenState, Env, bit, clear, with_bit, accmode, init_pfi, open_retry,
  finish_open, first_open, open_pfd, prlfs_open, release_pfd, prlfs_release, first_flags,
  prlfs_check_open_flags,
}

-- The attempts that are left: the access mode only ever goes from read and write to read, and from
-- read to write.
attempts : ℕ → ℕ
attempts f = if bit 1 f == 1 then 3 else if accmode f == 0 then 2 else 1

module _ (H : Type 0) (call_tg_sync : Desc → H → ℤ × Reply × H) where
  open_retry-returns :
      (fuel : ℕ) (env : Env) (f : ℕ) (h : H)
      → attempts f ≤ fuel
      → open_retry H call_tg_sync fuel env f h ≢ none
  unfolding open_retry attempts
  open_retry-returns zero env f h le = absurd (ground arith)
  open_retry-returns (suc fuel) env f h le =
      let (ret, pfi, h') =
        host_request_open H call_tg_sync (env.room_at f) env.host_inodes (init_pfi none 0 f)
          env.path env.path_len h in
      ground (
        arith,
        open_retry-returns fuel env (clear 1 f) h',
        open_retry-returns fuel env (with_bit 0 f) h',
      )

  abbrev pub counter : OpenState → ℕ
  counter s = elim s.private [ err_ptr e ↦ 0 | pfd d ↦ d.f_counter ]

  first_open-counter :
      (env : Env) (f : ℕ) (d : Fd) (d_time : ℕ) (h : H)
      → env.mapping_update ≡ pos 0
      → d.f_counter ≡ 0
      → let s : OpenState = record { private = pfd d; d_time = d_time } in
        (ret : ℤ) × (t : OpenState) × (h' : H) × (first_open H call_tg_sync env f d s h
          ≡ some (ret, t, h'))
        × (counter t ≡ (if is_neg ret then d.f_counter else d.f_counter + 1))
  unfolding first_open finish_open attempts
  first_open-counter env f d d_time h mapped closed =
      let s : OpenState = record { private = pfd d; d_time = d_time } in
      elim (Option-cases env.path_err) [
        | inr (err, path) ↦ rw (path, first_open) (negsuc err, s, h, refl, refl)
        | inl path ↦ elim (Option-cases (open_retry H call_tg_sync 3 env (first_flags f) h)) [
          | inl lost ↦ absurd (open_retry-returns 3 env (first_flags f) h (ground arith) lost)
          | inr ((ret, pfi, g, h'), opened) ↦ elim (Bool-cases (is_neg ret)) [
            | inl failed ↦ rw (path, opened, failed, first_open) (ret, s, h', refl, rw failed refl)
            | inr ok ↦
                let t : OpenState = record {
                  private =
                      pfd (record {
                        fd = pfi.fd;
                        sfid = pfi.sfid;
                        f_counter = 1;
                        f_flags = accmode g;
                      });
                  d_time = 0;
                } in
                rw (path, opened, ok, first_open)
                  (env.mapping_update, t, h', refl, rw mapped (ground (arith, closed)))
          ]
        ]
      ]

  -- When the inode has its structure, prlfs_mapping_update succeeds and the counter does not overflow,
  -- an open with its three attempts returns a result, and it counts one open more exactly when it does
  -- not fail.
  pub prlfs_open-counter :
      (env : Env) (f : ℕ) (d : Fd) (d_time : ℕ) (h : H)
      → env.mapping_update ≡ pos 0
      → (d.f_counter + 1 < 2 ^ 64)
      → let s : OpenState = record { private = pfd d; d_time = d_time } in
        (ret : ℤ) × (t : OpenState) × (h' : H) × (prlfs_open H call_tg_sync env f s h
          ≡ some (ret, t, h'))
        × (counter t ≡ (if is_neg ret then d.f_counter else d.f_counter + 1))
  unfolding prlfs_open open_pfd first_open finish_open attempts open_retry
  prlfs_open-counter env f d d_time h mapped small =
      let s : OpenState = record { private = pfd d; d_time = d_time } in
      elim (Bool-cases (d.f_counter == 0)) [
        | inl closed ↦ elim (Bool-cases env.room) [
          | inl room ↦
              rw (closed, room, open_pfd)
                (first_open-counter env f d d_time h mapped (ground (arith, closed)))
          | inr full ↦ rw (closed, full, open_pfd) (neg enomem, s, h, refl, refl)
        ]
        | inr used ↦ elim (Bool-cases (prlfs_check_open_flags f d == 0)) [
          | inl allowed ↦
              rw (used, allowed, open_pfd)
                (
                  pos 0,
                  record {
                    private = pfd (record d { f_counter = (d.f_counter + 1) % 2 ^ 64 });
                    d_time = d_time;
                  },
                  h,
                  refl,
                  omega arith,
                )
          | inr refused ↦ rw (used, refused, open_pfd) (neg eacces, s, h, refl, refl)
        ]
      ]

  -- While a file is open and the flags of another open allow it, the other open and a release give the
  -- state back as it was, and the host hears of neither.
  pub prlfs_open-prlfs_release :
      (env : Env) (room : Bool) (f : ℕ) (d : Fd) (d_time : ℕ) (h : H)
      → d.f_counter ≢ 0
      → d.f_counter + 1 < 2 ^ 64
      → prlfs_check_open_flags f d ≡ 0
      → let s : OpenState = record { private = pfd d; d_time = d_time } in
        (t : OpenState) × (prlfs_open H call_tg_sync env f s h ≡ some (pos 0, t, h))
        × (prlfs_release H call_tg_sync room t h ≡ some (pos 0, s, h))
  unfolding prlfs_open open_pfd prlfs_release release_pfd
  prlfs_open-prlfs_release env room f d d_time h used small allowed = (
    record { private = pfd (record d { f_counter = d.f_counter + 1 }); d_time = d_time },
    ground (arith, allowed),
    ground arith,
  )

  -- When the host opens the file but prlfs_mapping_update fails, the open fails and is counted all the
  -- same.
  pub prlfs_open-mapping_fails :
      (env : Env) (f : ℕ) (d : Fd) (d_time : ℕ) (h h' : H) (ret : ℤ) (pfi : FileInfo) (g : ℕ)
      → d.f_counter ≡ 0
      → env.room ≡ true
      → env.path_err ≡ none
      → is_neg env.mapping_update ≡ true
      → open_retry H call_tg_sync 3 env (first_flags f) h ≡ some (ret, pfi, g, h')
      → is_neg ret ≡ false
      → let s : OpenState = record { private = pfd d; d_time = d_time } in
        (t : OpenState) × (prlfs_open H call_tg_sync env f s h ≡ some (env.mapping_update, t, h'))
        × (counter t ≡ 1)
  unfolding prlfs_open open_pfd first_open finish_open
  prlfs_open-mapping_fails env f d d_time h h' ret pfi g closed room path fails opened ok = (
    record {
      private = pfd (record { fd = pfi.fd; sfid = pfi.sfid; f_counter = 1; f_flags = accmode g });
      d_time = 0;
    },
    rw (closed, room, path, opened, ok, first_open) refl,
    refl,
  )
