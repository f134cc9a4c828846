-- ===== src/Fs/Rw/Writes.antt =====
-- What a write returns and where it leaves the file.
use prl_tools.Base.{
  ap, ◌∙◌, ℕ, ◌+◌, ◌%◌, ◌^◌, ◌≤◌, ◌≡◌, ◌≢◌, refl, Bool, true, false, some, ◌==◌, ltb, if◌then◌else◌,
  ℤ, pos, is_neg, arith, Bool-cases, inl, inr,
}
use prl_tools.Fs.Status.{known, linux_err_tbl}
use prl_tools.Fs.Requests.{Desc, Reply, BufferDescriptor, host_request_rw}
use prl_tools.Fs.Requests.Unknown.{host_request_rw-unknown}
use prl_tools.Fs.OpenFile.{Fd, init_pfi}
use prl_tools.Fs.Rw.{
  Place, init_buffer_descriptor, rw_result, prlfs_rw, write_result, prlfs_write, tg_req_common,
}

module _ (H : Type 0) (call_tg_sync : Desc → H → ℤ × Reply × H) where
  abbrev pub start : Bool → Place → ℕ
  start append p = if append then p.i_size else p.off

  abbrev pub request : Bool → Fd → ℕ → ℕ → Bool → Place → Bool → H → ℤ × BufferDescriptor × H
  request user_ds d buf size append p room h =
      host_request_rw H call_tg_sync room (init_pfi (some d) (start append p) 1)
        (record (init_buffer_descriptor user_ds buf size 0 1) { flags = tg_req_common }) h

  -- The outcome of a write for what the request to the host returns.
  abbrev pub outcome : Bool → ℕ → Place → ℤ × BufferDescriptor × H → ℤ × Place × H
  outcome append size p (ret, bd, h) =
      let end = (start append p + bd.len) % 2 ^ 64 in
      if is_neg ret then (ret, record p { d_time = 0 }, h) else (
        pos bd.len,
        record {
          off = if append then (p.off + size) % 2 ^ 64 else end;
          i_size = if ltb p.i_size end then end else p.i_size;
          d_time = 0;
        },
        h,
      )

  write_result-rw_result :
      (append : Bool) (size : ℕ) (p : Place) (x : ℤ × BufferDescriptor × H)
      → write_result H call_tg_sync append size p
          (some (rw_result H call_tg_sync (start append p) x))
        ≡ some (outcome append size p x)
  unfolding rw_result write_result
  write_result-rw_result append size p (ret, bd, h) = elim (Bool-cases (is_neg ret)) [
    | inl failed ↦ rw failed (rw failed refl)
    | inr ok ↦ rw ok refl
  ]

  -- A write of at least one byte has the outcome that its request to the host leads to.
  prlfs_write_lem :
      (user_ds room append : Bool) (d : Fd) (buf size : ℕ) (p : Place) (h : H)
      → size ≢ 0
      → prlfs_write H call_tg_sync user_ds room append d buf size p h
        ≡ some (outcome append size p (request user_ds d buf size append p room h))
  unfolding prlfs_write prlfs_rw
  prlfs_write_lem user_ds room append d buf size p h some_bytes =
      let more : (size == 0) ≡ false = ground (arith, some_bytes) in
      rw more (write_result-rw_result append size p (request user_ds d buf size append p room h))

  -- When the host answers with a status that is neither success nor in the table of errors, whatever
  -- it has written, the write claims all the bytes that were asked for.
  pub prlfs_write-unknown :
      (user_ds append : Bool) (d : Fd) (buf size : ℕ) (p : Place) (h h' : H) (r : Reply)
      → size ≢ 0
      → ((sdesc : Desc) → call_tg_sync sdesc h ≡ (pos 0, r, h'))
      → r.status ≢ 0
      → known r.status linux_err_tbl ≡ false
      → (t : Place) × (prlfs_write H call_tg_sync user_ds true append d buf size p h
          ≡ some (pos size, t, h'))
        × ((start append p + size) % 2 ^ 64 ≤ t.i_size)
  unfolding init_buffer_descriptor
  prlfs_write-unknown user_ds append d buf size p h h' r some_bytes call failed unknown =
      let bd = record (init_buffer_descriptor user_ds buf size 0 1) { flags = tg_req_common } in
      let e =
        host_request_rw-unknown H call_tg_sync (init_pfi (some d) (start append p) 1) bd h h' r call
          failed unknown in
      let w = prlfs_write_lem user_ds true append d buf size p h some_bytes in
      (_, w ∙ ap (λ x. some (outcome append size p x)) e, ground arith)
