-- ===== src/Fs/Status.antt =====
-- kmods-src/prl_fs/SharedFolders/Guest/Linux/prl_fs/interface.c: the errors that a status of the host
-- stands for. The statuses are those of kmods-src/prl_tg/Toolgate/Interfaces/Tg.h.
use prl_tools.Base.{
  ℕ, zero, suc, negsuc, ltb, List, [], ◌∷◌, ◌==◌, if◌then◌else◌, ℤ, pos, neg, negate, is_neg, Bool,
  true, false, ◌≡◌, ◌≢◌, refl, arith,
}
use prl_tools.Base.Errno.{
  eacces, eagain, eintr, einval, eisdir, eloop, emfile, enodev, enoent, enomem, enospc, enotdir,
  enotempty, enotsupp, eperm, erestartsys, estale, exdev,
}

unfoldable pub linux_err_tbl : List (ℕ × ℕ)
linux_err_tbl =
    (0, 0)
    ∷ (0xffff_ffff, eagain)
    ∷ (0xf000_0000, erestartsys)
    ∷ (0xf000_0001, einval)
    ∷ (0xf000_0002, einval)
    ∷ (0xf000_0003, einval)
    ∷ (0xf000_0004, enomem)
    ∷ (0xf000_0005, enomem)
    ∷ (0xf000_0006, eacces)
    ∷ (0xf000_0007, eperm)
    ∷ (0xf000_0008, enoent)
    ∷ (0xf000_0009, einval)
    ∷ (0xf000_000a, eperm)
    ∷ (0xf000_000b, enotempty)
    ∷ (0xf000_000c, enospc)
    ∷ (0xf000_000d, enotsupp)
    ∷ (0xf000_000e, einval)
    ∷ (0xf000_000f, enoent)
    ∷ (0xf000_0010, eisdir)
    ∷ (0xf000_0011, enomem)
    ∷ (0xf000_0012, einval)
    ∷ (0xf000_0013, enoent)
    ∷ (0xf000_0014, enoent)
    ∷ (0xf000_0015, enotdir)
    ∷ (0xf000_0016, enotsupp)
    ∷ (0xf000_0017, estale)
    ∷ (0xf000_0018, einval)
    ∷ (0xf000_0019, enoent)
    ∷ (0xf000_001a, enoent)
    ∷ (0xf000_001b, emfile)
    ∷ (0xf000_001c, enomem)
    ∷ (0xf000_001d, enomem)
    ∷ (0xf000_001e, einval)
    ∷ (0xf000_001f, enodev)
    ∷ (0xf000_0020, enodev)
    ∷ (0xf000_0021, eintr)
    ∷ (0xf000_0022, estale)
    ∷ (0xf000_0023, exdev)
    ∷ (0xf000_0028, eloop)
    ∷ []

-- The loop of `TG_ERR`, and its answer for a status that is not in the table.
pub find_error : ℕ → List (ℕ × ℕ) → ℤ
find_error status [] = neg einval
find_error status ((tg, error) ∷ rows) = if status == tg then pos error else find_error status rows

pub tg_err : ℕ → ℤ
tg_err status = find_error status linux_err_tbl

-- What the callers of `call_tg_sync` make of its result and of the status.
pub result : ℤ → ℕ → ℤ
unfolding tg_err
result (pos zero) status = if status == 0 then pos 0 else negate (tg_err status)
result (pos (suc n)) status = pos (suc n)
result (negsuc n) status = negsuc n

-- The statuses of the table.
abbrev pub known : ℕ → List (ℕ × ℕ) → Bool
known status [] = false
known status ((tg, error) ∷ rows) = if status == tg then true else known status rows

abbrev positive : ℕ × ℕ → Bool
positive (tg, error) = if tg == 0 then true else ltb 0 error

abbrev all_positive : List (ℕ × ℕ) → Bool
all_positive [] = true
all_positive (row ∷ rows) = if positive row then all_positive rows else false

linux_err_tbl-all_positive : all_positive linux_err_tbl ≡ true
unfolding linux_err_tbl
linux_err_tbl-all_positive = refl

find_error-is_neg :
    (status : ℕ) (rows : List (ℕ × ℕ))
    → status ≢ 0
    → all_positive rows ≡ true
    → is_neg (negate (find_error status rows)) ≡ known status rows
unfolding find_error
find_error-is_neg status [] h p = refl
find_error-is_neg status ((tg, suc error) ∷ rows) h p =
    ground (arith, find_error-is_neg status rows h)
find_error-is_neg status ((tg, zero) ∷ rows) h p = ground (arith, find_error-is_neg status rows h)

find_error-nonzero :
    (status : ℕ) (rows : List (ℕ × ℕ))
    → status ≢ 0
    → all_positive rows ≡ true
    → find_error status rows ≢ pos 0
unfolding find_error
find_error-nonzero status [] h p = λ e. ground (arith, e)
find_error-nonzero status ((tg, error) ∷ rows) h p =
    λ e. ground (arith, find_error-nonzero status rows h, e)

-- A call that came through with a status other than success never returns 0, and it returns a
-- negative number exactly when the status is in the table.
pub result-is_neg :
    (status : ℕ)
    → status ≢ 0
    → (result (pos 0) status ≢ pos 0)
      × (is_neg (result (pos 0) status) ≡ known status linux_err_tbl)
unfolding result tg_err
result-is_neg status h =
    let n = find_error-is_neg status linux_err_tbl h linux_err_tbl-all_positive in
    let z = find_error-nonzero status linux_err_tbl h linux_err_tbl-all_positive in
    (λ e. ground (arith, z, e, h), ground (arith, n, h))

find_error-unknown :
    (status : ℕ) (rows : List (ℕ × ℕ))
    → known status rows ≡ false
    → find_error status rows ≡ neg einval
unfolding find_error
find_error-unknown status [] k = refl
find_error-unknown status ((tg, error) ∷ rows) k = ground (arith, find_error-unknown status rows)

-- For a status that is neither success nor in the table a call that came through returns EINVAL, a
-- positive number.
pub result-unknown :
    (status : ℕ)
    → status ≢ 0
    → known status linux_err_tbl ≡ false
    → result (pos 0) status ≡ pos einval
unfolding result tg_err
result-unknown status h k = ground (arith, find_error-unknown status linux_err_tbl k, h)
