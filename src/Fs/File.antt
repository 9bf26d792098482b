-- ===== src/Fs/File.antt =====
-- lab8/kern/fs/file.c, file.h and iobuf.h: a process's table of open files. `none` is a failed
-- `assert`. A function that returns `int` has a number as its code: 0, or e for -e.
pub mod Calls
pub mod Table
pub mod Transfer
pub mod Close
pub mod Alloc
pub mod Dup
pub mod Open
use nku_os_2025_lab.Prelude.{
  ℕ, zero, suc, ◌+◌, ◌-◌, ◌/◌, ◌%◌, ◌^◌, Bool, true, false, not, ◌&&◌, ◌||◌, Option, none, some,
  ltb, ◌==◌, if◌then◌else◌, ◌>>=◌, ◌>>◌, assert, update,
}
use nku_os_2025_lab.Prelude.Int.{ℤ, pos_part, neg_part}
use nku_os_2025_lab.Vmm.{page_size}
use nku_os_2025_lab.Libs.Errors.{e_inval, e_busy, e_max_open}

-- `FD_NONE`, `FD_INIT`, `FD_OPENED`, `FD_CLOSED`.
pub data Status : Type 0 where
  unused init opened closed : Status

-- An `off_t` is an integer of 64 bits, which every write wraps around, and an inode pointer a
-- number, with 0 for NULL.
pub record File : Type 0 where
  pub status : Status
  pub readable : Bool
  pub writable : Bool
  pub fd : ℕ
  pub position : ℤ
  pub node : ℕ
  pub open_count : ℕ

pub record Iobuf : Type 0 where
  pub io_base : ℕ
  pub io_offset : ℤ
  pub io_len : ℕ
  pub io_resid : ℕ

-- `sizeof(struct file)` on rv64, field by field with its padding; a `bool` is a `long long`.
abbrev sizeof_file : ℕ
sizeof_file = 8 + 8 + 8 + 8 + 8 + 8 + 8

-- `sizeof(struct files_struct)`: two pointers, a padded `int`, and the 24 bytes of a semaphore.
abbrev sizeof_files_struct : ℕ
sizeof_files_struct = 8 + 8 + 8 + 24

-- FILES_STRUCT_NENTRY, which is 72.
abbrev pub nentry : ℕ
nentry = (page_size - sizeof_files_struct) / sizeof_file

-- The integer as an `off_t`: its remainder by 2 ^ 64, read in two's complement.
unfoldable pub to_off_t : ℤ → ℤ
to_off_t z =
    let word = (pos_part z % 2 ^ 64 + 2 ^ 64 - neg_part z % 2 ^ 64) % 2 ^ 64 in
    if ltb word (2 ^ 63) then ℤ.pos word else ℤ.negsuc (2 ^ 64 - 1 - word)

-- NO_FD is -0x9527.
abbrev pub no_fd : ℤ
no_fd = ℤ.negsuc 0x9526

-- `W` is the state of the inodes.
pub record Files (W : Type 0) : Type 0 where
  pub files_count : ℕ
  pub fd_array : ℕ → File
  pub world : W

-- What the table asks of the inode layer. A result code of 0 is success.
pub record Vfs (W : Type 0) : Type 0 where
  pub vfs_open : ℕ → ℕ → W → ℕ × ℕ × W
  pub vfs_close : ℕ → W → W
  pub vop_fstat : ℕ → W → ℕ × ℕ × W
  pub vop_read : ℕ → Iobuf → W → ℕ × Iobuf × W
  pub vop_write : ℕ → Iobuf → W → ℕ × Iobuf × W
  pub vop_getdirentry : ℕ → Iobuf → W → ℕ × Iobuf × W
  pub vop_tryseek : ℕ → ℤ → W → ℕ × W
  pub vop_fsync : ℕ → W → ℕ × W
  pub vop_ref_inc : ℕ → W → W
  pub vop_open_inc : ℕ → W → W

abbrev pub is_none : Status → Bool
is_none unused = true
is_none _ = false

abbrev pub is_init : Status → Bool
is_init init = true
is_init _ = false

abbrev pub is_opened : Status → Bool
is_opened opened = true
is_opened _ = false

abbrev pub is_closed : Status → Bool
is_closed closed = true
is_closed _ = false

-- `testfd(fd)`, with the index where it holds.
unfoldable pub testfd : ℤ → Option ℕ
testfd (ℤ.pos n) = if ltb n nentry then some n else none
testfd (ℤ.negsuc n) = none

unfoldable pub is_no_fd : ℤ → Bool
is_no_fd (ℤ.pos n) = false
is_no_fd (ℤ.negsuc n) = n == 0x9526

unfoldable pub iobuf_init : ℕ → ℕ → ℤ → Iobuf
iobuf_init base len offset = record {
  io_base = base;
  io_offset = offset;
  io_len = len;
  io_resid = len;
}

unfoldable pub iobuf_used : Iobuf → ℕ
iobuf_used iob = (iob.io_len + 2 ^ 64 - iob.io_resid) % 2 ^ 64

-- The loop of `fd_array_init` over the entries that are left.
unfoldable pub init_entries : ℕ → ℕ → (ℕ → File) → (ℕ → File)
init_entries zero fd a = a
init_entries (suc left) fd a =
    init_entries left (fd + 1)
      (update a fd (record (a fd) { open_count = 0; status = unused; fd = fd }))

unfoldable pub fd_array_init : (ℕ → File) → (ℕ → File)
unfolding init_entries
fd_array_init a = init_entries nentry 0 a

-- The search of `fd_array_alloc` over the entries that are left.
unfoldable pub find_none : ℕ → ℕ → (ℕ → File) → Option ℕ
find_none zero fd a = none
find_none (suc left) fd a =
    let rest = find_none left (fd + 1) a in if is_none (a fd).status then some fd else rest

module _ {W : Type 0} where
  -- A write to one entry of the table.
  unfoldable pub put : ℕ → File → Files W → Files W
  put i f s = record s { fd_array = update s.fd_array i f }

  unfoldable pub get_fd_array : Files W → Option (ℕ → File)
  get_fd_array s = do assert (ltb 0 s.files_count); some s.fd_array

  -- The code behind `found:`.
  unfoldable pub take_entry : ℕ → Files W → Option ((ℕ × ℕ) × Files W)
  unfolding put
  take_entry i s = do
    assert ((s.fd_array i).open_count == 0)
    some ((0, i), put i (record (s.fd_array i) { status = init; node = 0 }) s)

  -- The result is the code and the index of the entry.
  unfoldable pub fd_array_alloc : ℤ → Files W → Option ((ℕ × ℕ) × Files W)
  unfolding get_fd_array take_entry is_no_fd testfd
  fd_array_alloc fd s = do
    a ← get_fd_array s
    if is_no_fd fd
        then elim (find_none nentry 0 a) [
          | none ↦ some ((e_max_open, 0), s)
          | some i ↦ take_entry i s
        ]
        else elim (testfd fd) [
          | none ↦ some ((e_inval, 0), s)
          | some i ↦ if is_none (a i).status then take_entry i s else some ((e_busy, 0), s)
        ]

  unfoldable pub fd_array_acquire : ℕ → Files W → Option (Files W)
  unfolding put
  fd_array_acquire i s = do
    let f = s.fd_array i
    assert (is_opened f.status)
    some (put i (record f { open_count = f.open_count + 1 }) s)

  unfoldable pub fd_array_open : ℕ → Files W → Option (Files W)
  unfolding put
  fd_array_open i s = do
    let f = s.fd_array i
    assert (is_init f.status && not (f.node == 0))
    some (put i (record f { status = opened; open_count = f.open_count + 1 }) s)

  -- The result is the code and the index of the entry.
  unfoldable pub fd2file : ℤ → Files W → Option (ℕ × ℕ)
  unfolding get_fd_array testfd
  fd2file fd s = elim (testfd fd) [
    | none ↦ some (e_inval, 0)
    | some i ↦ do
      a ← get_fd_array s
      some (if is_opened (a i).status && (a i).fd == i then (0, i) else (e_inval, 0))
  ]

  unfoldable pub file_testfd : ℤ → Bool → Bool → Files W → Option Bool
  unfolding fd2file
  file_testfd fd readable writable s = do
    (ret, i) ← fd2file fd s
    let f = s.fd_array i
    some (
        if not (ret == 0)
        then false
        else if readable && not f.readable
        then false
        else if writable && not f.writable
        then false
        else true)

module _ {W : Type 0} (v : Vfs W) where
  unfoldable pub fd_array_free : ℕ → Files W → Option (Files W)
  unfolding put
  fd_array_free i s = do
    let f = s.fd_array i
    assert (is_init f.status || is_closed f.status)
    assert (f.open_count == 0)
    let w = if is_closed f.status then v.vfs_close f.node s.world else s.world
    some (put i (record f { status = unused }) (record s { world = w }))

  unfoldable pub fd_array_release : ℕ → Files W → Option (Files W)
  unfolding put fd_array_free
  fd_array_release i s = do
    let f = s.fd_array i
    assert (is_opened f.status || is_closed f.status)
    assert (ltb 0 f.open_count)
    let t = put i (record f { open_count = f.open_count - 1 }) s
    if f.open_count - 1 == 0 then fd_array_free i t else some t

  unfoldable pub fd_array_close : ℕ → Files W → Option (Files W)
  unfolding put fd_array_free
  fd_array_close i s = do
    let f = s.fd_array i
    assert (is_opened f.status)
    assert (ltb 0 f.open_count)
    let t = put i (record f { status = closed; open_count = f.open_count - 1 }) s
    if f.open_count - 1 == 0 then fd_array_free i t else some t

  unfoldable pub fd_array_dup : ℕ → ℕ → Files W → Option (Files W)
  unfolding put fd_array_open
  fd_array_dup to from s = do
    let f = s.fd_array from
    let t = s.fd_array to
    assert (is_init t.status && is_opened f.status)
    let w = v.vop_open_inc f.node (v.vop_ref_inc f.node s.world)
    let g = record t {
      position = f.position;
      readable = f.readable;
      writable = f.writable;
      node = f.node;
    }
    fd_array_open to (put to g (record s { world = w }))
