-- ===== src/Fs/Requests/Release.antt =====
-- host_request_release: it asks again while the host answers that the request was cancelled.
use prl_tools.Base.{ℕ, zero, suc, ◌≤◌, ◌<◌, ◌≡◌, refl, Bool, true, false, ℤ, neg, arith}
use prl_tools.Base.Errno.{erestartsys}
use prl_tools.Fs.Status.{result}
use prl_tools.Fs.Flags.{FileInfo}
use prl_tools.Fs.Requests.{Desc, Reply, cancelled, send_release, release_loop, host_request_release}

module _ (H : Type 0) (call_tg_sync : Desc → H → ℤ × Reply × H) (pfi : FileInfo) where
  -- The host after `n` requests.
  abbrev pub after : ℕ → H → H
  after zero h = h
  after (suc n) h = after n (send_release H call_tg_sync pfi h).2

  -- Whether the request to the host in this state is cancelled, and what the call returns if not.
  abbrev pub is_cancelled : H → Bool
  is_cancelled h = let (ret, r, _) = send_release H call_tg_sync pfi h in cancelled ret r.status

  abbrev pub answer : H → ℤ
  answer h = let (ret, r, _) = send_release H call_tg_sync pfi h in result ret r.status

  release_loop-first :
      (retry k : ℕ) (h : H)
      → k ≤ retry
      → ((i : ℕ) → i < k → is_cancelled (after i h) ≡ true)
      → is_cancelled (after k h) ≡ false
      → release_loop H call_tg_sync retry pfi h ≡ (answer (after k h), after (suc k) h)
  unfolding release_loop
  release_loop-first zero zero h le c done = rw done refl
  release_loop-first (suc retry) zero h le c done = rw done refl
  release_loop-first zero (suc k) h le c done = absurd (omega arith)
  release_loop-first (suc retry) (suc k) h le c done =
      rw (c 0 (omega arith))
        (release_loop-first retry k _ (omega arith) (λ i l. c (suc i) (omega arith)) done)

  release_loop-all :
      (retry : ℕ) (h : H)
      → ((i : ℕ) → i ≤ retry → is_cancelled (after i h) ≡ true)
      → release_loop H call_tg_sync retry pfi h ≡ (neg erestartsys, after (suc retry) h)
  unfolding release_loop
  release_loop-all zero h c = rw (c 0 (omega arith)) refl
  release_loop-all (suc retry) h c =
      rw (c 0 (omega arith)) (release_loop-all retry _ (λ i l. c (suc i) (omega arith)))

  -- If kmalloc succeeds, host_request_release returns what the first of 1001 requests that is not
  -- cancelled returns, and sends no other after it.
  pub host_request_release-first :
      (k : ℕ) (h : H)
      → k ≤ 1000
      → ((i : ℕ) → i < k → is_cancelled (after i h) ≡ true)
      → is_cancelled (after k h) ≡ false
      → host_request_release H call_tg_sync true pfi h ≡ (answer (after k h), after (suc k) h)
  unfolding host_request_release
  host_request_release-first = release_loop-first 1000

  -- If kmalloc succeeds and all 1001 are cancelled, it gives up with -ERESTARTSYS.
  pub host_request_release-all :
      (h : H)
      → ((i : ℕ) → i ≤ 1000 → is_cancelled (after i h) ≡ true)
      → host_request_release H call_tg_sync true pfi h ≡ (neg erestartsys, after 1001 h)
  unfolding host_request_release
  host_request_release-all = release_loop-all 1000
