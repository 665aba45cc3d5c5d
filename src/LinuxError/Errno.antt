-- ===== src/LinuxError/Errno.antt =====
-- The numbers of errno.h that the code compares with, on Linux.
use libusbp.Base.{ℕ}

abbrev pub enoent : ℕ
enoent = 2

abbrev pub eagain : ℕ
eagain = 11

abbrev pub enomem : ℕ
enomem = 12

abbrev pub eacces : ℕ
eacces = 13

abbrev pub enodev : ℕ
enodev = 19

abbrev pub einval : ℕ
einval = 22

abbrev pub epipe : ℕ
epipe = 32

abbrev pub etime : ℕ
etime = 62

abbrev pub eproto : ℕ
eproto = 71

abbrev pub eoverflow : ℕ
eoverflow = 75

abbrev pub eilseq : ℕ
eilseq = 84

abbrev pub eshutdown : ℕ
eshutdown = 108

abbrev pub etimedout : ℕ
etimedout = 110
