-- ===== src/Libs/Errors.antt =====
-- The error codes of lab8/libs/error.h, which the kernel returns with the sign changed.
use nku_os_2025_lab.Prelude.{ℕ}

abbrev pub e_inval : ℕ
e_inval = 3

abbrev pub e_no_mem : ℕ
e_no_mem = 4

abbrev pub e_busy : ℕ
e_busy = 15

abbrev pub e_max_open : ℕ
e_max_open = 22
