-- ===== src/Tests/Files.antt =====
-- A table with descriptors 0 and 3 open, 0 readable and 3 writable, and a layer of inodes that
-- counts openings.
use nku_os_2025_lab.Prelude.{
  ℕ, ◌+◌, ◌-◌, ◌^◌, ◌<◌, ◌≡◌, ◌≢◌, refl, false, some, inl, inr, ◌⊎◌, ◌==◌, if◌then◌else◌, arith,
}
use mathlib.Core.Option
use nku_os_2025_lab.Prelude.Int.{ℤ, ◌+ℤ◌}
use nku_os_2025_lab.Libs.Errors.{e_inval}
use nku_os_2025_lab.Fs.File.{
  File, Files, Vfs, unused, opened, nentry, no_fd, testfd, fd2file, to_off_t,
}
use nku_os_2025_lab.Fs.File.Calls.{file_read, file_close, file_dup}
use nku_os_2025_lab.Fs.File.Table.{IsTable}
use nku_os_2025_lab.Fs.File.Transfer.{Performed, file_read-Performed}
use nku_os_2025_lab.Fs.File.Close.{Closed, file_close-Closed, closing, closing-Keeps}
use nku_os_2025_lab.Fs.File.Dup.{Duplicated, file_dup-Duplicated}
use nku_os_2025_lab.Fs.Process.{dup_files, files_closeall}
use nku_os_2025_lab.Fs.Process.Inherit.{Forked, dup_files-Forked}
use nku_os_2025_lab.Fs.Process.CloseAll.{Swept, files_closeall-Swept}

abbrev vfs : Vfs ℕ
vfs = record {
  vfs_open = λ path open_flags w. (0, 7, w + 1);
  vfs_close = λ node w. w - 1;
  vop_fstat = λ node w. (0, 10, w);
  vop_read = λ node iob w. (0, record iob { io_resid = iob.io_resid - 2 }, w);
  vop_write = λ node iob w. (0, record iob { io_resid = 0 }, w);
  vop_getdirentry = λ node iob w. (0, iob, w);
  vop_tryseek = λ node place w. (0, w);
  vop_fsync = λ node w. (0, w);
  vop_ref_inc = λ node w. w + 1;
  vop_open_inc = λ node w. w + 1;
}

abbrev entry : ℕ → File
entry i = record {
  status = if i == 0 then opened else if i == 3 then opened else unused;
  readable = i == 0;
  writable = i == 3;
  fd = i;
  position = ℤ.pos 4;
  node = 5;
  open_count = if i == 0 then 1 else if i == 3 then 1 else 0;
}

abbrev table : Files ℕ
table = record { files_count = 1; fd_array = entry; world = 2 }

abbrev idle : ℕ → ℕ
idle i = 0

table-IsTable : IsTable table idle
table-IsTable i h = ground arith

-- Another thread closes the descriptor that is read.
file_read-Performed_example :
    Performed vfs
      (closing vfs (ℤ.pos 0))
      vfs.vop_read
      0
      100
      8
      table
      idle
      (file_read vfs (closing vfs (ℤ.pos 0)) (ℤ.pos 0) 100 8 table)
    × (file_read vfs (closing vfs (ℤ.pos 0)) (ℤ.pos 72) 100 8 table ≡ some ((e_inval, 0), table))
file_read-Performed_example =
    file_read-Performed vfs (closing vfs (ℤ.pos 0)) 0 100 8 table idle table-IsTable (omega arith)
      (omega arith) refl (closing-Keeps vfs (ℤ.pos 0) 0) 72 (omega arith) refl

not_readable :
    (i : ℕ)
    → ℤ.pos 3 ≡ ℤ.pos i
    → i < nentry
    → ((table.fd_array i).status ≢ opened) ⊎ ((table.fd_array i).readable ≡ false)
not_readable i e h = inr (ground arith)

file_close-Closed_example :
    Closed vfs table idle 3 (Option.map (λ r. r.1) (file_close vfs (ℤ.pos 3) table))
    × (Option.map (λ r. r.0) (file_close vfs (ℤ.pos 3) table) ≡ some 0)
    × (file_close vfs (ℤ.pos 72) table ≡ some (e_inval, table))
file_close-Closed_example =
    file_close-Closed vfs table idle 3 table-IsTable (omega arith) refl 72 (omega arith)
      (omega arith)

used_before : (j : ℕ) → j < 1 → (table.fd_array j).status ≢ unused
used_before j h e = ground arith

file_dup-Duplicated_example : Duplicated vfs table idle 3 1 (file_dup vfs (ℤ.pos 3) no_fd table)
file_dup-Duplicated_example =
    file_dup-Duplicated vfs table idle 3 table-IsTable (omega arith) (omega arith) refl no_fd 1
      (inl (refl, (omega arith, omega arith, refl, λ j h k. used_before j k)))

-- The table of a new process.
abbrev child : Files ℕ
child = record { files_count = 0; fd_array = λ i. record (entry 1) { fd = i }; world = 2 }

child_unused :
    (j : ℕ) → j < nentry → ((child.fd_array j).fd ≡ j) × ((child.fd_array j).open_count ≡ 0)
child_unused j h = (refl, refl)

entry_node : (j : ℕ) → j < nentry → (entry j).status ≡ opened → (entry j).node ≢ 0
entry_node j h o = omega arith

dup_files-Forked_example : Forked vfs 8 entry child (dup_files vfs 1 8 entry child)
dup_files-Forked_example =
    dup_files-Forked vfs 1 8 entry child refl (omega arith) child_unused entry_node

files_closeall-Swept_example : Swept vfs idle 70 2 table (files_closeall vfs table)
files_closeall-Swept_example = files_closeall-Swept vfs idle table table-IsTable (omega arith)

-- The table has 72 entries, and a descriptor behind them is refused.
nentry-eq : nentry ≡ 72
nentry-eq = refl

read_behind : file_read vfs (λ t. t) (ℤ.pos 72) 100 8 table ≡ some ((e_inval, 0), table)
unfolding file_read fd2file testfd
read_behind = refl

last_entry : testfd (ℤ.pos 71) ≡ some 71
unfolding testfd
last_entry = refl

-- An `off_t` wraps around behind 2 ^ 63 - 1.
wraps : to_off_t (ℤ.pos (2 ^ 63 - 1) +ℤ ℤ.pos 2) ≡ ℤ.negsuc (2 ^ 63 - 2)
unfolding to_off_t
wraps = refl

small_sum : to_off_t (ℤ.negsuc 4 +ℤ ℤ.pos 2) ≡ ℤ.negsuc 2
unfolding to_off_t
small_sum = refl
