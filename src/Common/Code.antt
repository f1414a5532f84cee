-- ===== src/Common/Code.antt =====
-- src/include/error.h: the return codes, with the values that errno.h gives them on Linux. A C int
-- that a function returns is kept as its 32-bit pattern; the code only tests it against 0.
use Prim.Native.Nat.{ℕ}

abbrev pub Code : Type 0
Code = ℕ

abbrev pub vaccel_ok : Code
vaccel_ok = 0

abbrev pub vaccel_eperm : Code
vaccel_eperm = 1

abbrev pub vaccel_enoent : Code
vaccel_enoent = 2

abbrev pub vaccel_eio : Code
vaccel_eio = 5

abbrev pub vaccel_enoexec : Code
vaccel_enoexec = 8

abbrev pub vaccel_enomem : Code
vaccel_enomem = 12

abbrev pub vaccel_ebusy : Code
vaccel_ebusy = 16

abbrev pub vaccel_eexists : Code
vaccel_eexists = 17

abbrev pub vaccel_einval : Code
vaccel_einval = 22

abbrev pub vaccel_enametoolong : Code
vaccel_enametoolong = 36

abbrev pub vaccel_ebackend : Code
vaccel_ebackend = 71

abbrev pub vaccel_elibbad : Code
vaccel_elibbad = 80

abbrev pub vaccel_eusers : Code
vaccel_eusers = 87

abbrev pub vaccel_enotsup : Code
vaccel_enotsup = 95

abbrev pub vaccel_esess : Code
vaccel_esess = 104
