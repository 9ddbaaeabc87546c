-- ===== src/Errno.antt =====
-- The error numbers of bootloader/stage2/include/errno.h.
use dalek.Base.{ℕ}

abbrev pub eio : ℕ
eio = 1

abbrev pub enoent : ℕ
enoent = 2

abbrev pub einval : ℕ
einval = 3

abbrev pub eperm : ℕ
eperm = 4

abbrev pub ebusy : ℕ
ebusy = 5

abbrev pub ebadf : ℕ
ebadf = 6

abbrev pub efault : ℕ
efault = 7

abbrev pub etime : ℕ
etime = 8

abbrev pub eagain : ℕ
eagain = 9

abbrev pub enosys : ℕ
enosys = 40
