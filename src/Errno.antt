-- ===== src/Errno.antt =====
-- The error numbers that the functions of src/jmd.c and src/jraid5.c return, by their absolute value.
use jraid.Common.{ℕ}

abbrev pub eio : ℕ
eio = 5

abbrev pub enomem : ℕ
enomem = 12

abbrev pub ebusy : ℕ
ebusy = 16

abbrev pub eexist : ℕ
eexist = 17

abbrev pub einval : ℕ
einval = 22
