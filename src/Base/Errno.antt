-- ===== src/Base/Errno.antt =====
-- The errno values that the drivers return.
use Prim.Native.Nat.{ℕ}

abbrev pub eperm : ℕ
eperm = 1

abbrev pub enoent : ℕ
enoent = 2

abbrev pub eintr : ℕ
eintr = 4

abbrev pub eio : ℕ
eio = 5

abbrev pub echild : ℕ
echild = 10

abbrev pub eagain : ℕ
eagain = 11

abbrev pub enomem : ℕ
enomem = 12

abbrev pub eacces : ℕ
eacces = 13

abbrev pub efault : ℕ
efault = 14

abbrev pub ebusy : ℕ
ebusy = 16

abbrev pub eexist : ℕ
eexist = 17

abbrev pub exdev : ℕ
exdev = 18

abbrev pub enodev : ℕ
enodev = 19

abbrev pub enotdir : ℕ
enotdir = 20

abbrev pub eisdir : ℕ
eisdir = 21

abbrev pub einval : ℕ
einval = 22

abbrev pub emfile : ℕ
emfile = 24

abbrev pub enotty : ℕ
enotty = 25

abbrev pub enospc : ℕ
enospc = 28

abbrev pub enametoolong : ℕ
enametoolong = 36

abbrev pub enosys : ℕ
enosys = 38

abbrev pub enotempty : ℕ
enotempty = 39

abbrev pub eloop : ℕ
eloop = 40

abbrev pub estale : ℕ
estale = 116

abbrev pub erestartsys : ℕ
erestartsys = 512

abbrev pub enotsupp : ℕ
enotsupp = 524
