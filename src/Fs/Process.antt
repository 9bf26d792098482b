-- ===== src/Fs/Process.antt =====
-- lab8/kern/fs/fs.c: the table of open files over the life of a process. `none` is a failed
-- `assert`; the memory of the table and its semaphore are left out.
pub mod Inherit
pub mod CloseAll
use nku_os_2025_lab.Prelude.{
  ℕ, zero, suc, ◌+◌, ◌-◌, Bool, not, ◌&&◌, Option, none, some, ltb, ◌==◌, if◌then◌else◌, ◌>>=◌,
  ◌>>◌, assert, update,
}
use nku_os_2025_lab.Fs.File.{
  File, Files, Vfs, init, nentry, is_none, is_init, is_opened, put, fd_array_init, fd_array_open,
  fd_array_close,
}

-- The table that `files_create` makes of memory with `a` in it.
unfoldable pub files_create : {W : Type 0} → (ℕ → File) → W → Files W
files_create a w = record { files_count = 0; fd_array = fd_array_init a; world = w }

module _ {W : Type 0} (v : Vfs W) where
  -- `if (file->status == FD_OPENED) fd_array_close(file);`
  unfoldable pub close_opened : ℕ → Files W → Option (Files W)
  close_opened i s = if is_opened (s.fd_array i).status then fd_array_close v i s else some s

  -- The loop of `files_closeall` over the entries that are left.
  unfoldable pub close_loop : ℕ → ℕ → Files W → Option (Files W)
  unfolding close_opened
  close_loop zero i s = some s
  close_loop (suc left) i s = do t ← close_opened i s; close_loop left (i + 1) t

  unfoldable pub files_closeall : Files W → Option (Files W)
  unfolding close_loop
  files_closeall s = do assert (ltb 0 s.files_count); close_loop (nentry - 2) 2 s

  -- The loop of `files_destroy` over the entries that are left.
  unfoldable pub destroy_loop : ℕ → ℕ → Files W → Option (Files W)
  unfolding close_opened
  destroy_loop zero i s = some s
  destroy_loop (suc left) i s = do
    t ← close_opened i s
    assert (is_none (t.fd_array i).status)
    destroy_loop left (i + 1) t

  -- `pwd` is the inode of the working directory; `vop_ref_dec` gives up a reference to it.
  unfoldable pub files_destroy : (ℕ → W → W) → ℕ → Files W → Option (Files W)
  unfolding destroy_loop
  files_destroy vop_ref_dec pwd s = do
    assert (s.files_count == 0)
    let w = if pwd == 0 then s.world else vop_ref_dec pwd s.world
    destroy_loop nentry 0 (record s { world = w })

  -- `fd_array_dup` to the entry `i`, from an entry of another table.
  unfoldable pub dup_into : ℕ → File → Files W → Option (Files W)
  unfolding put fd_array_open
  dup_into i f s = do
    let t = s.fd_array i
    assert (is_init t.status && is_opened f.status)
    let w = v.vop_open_inc f.node (v.vop_ref_inc f.node s.world)
    let g = record t {
      position = f.position;
      readable = f.readable;
      writable = f.writable;
      node = f.node;
    }
    fd_array_open i (put i g (record s { world = w }))

  -- The loop of `dup_files` over the entries that are left.
  unfoldable pub dup_loop : ℕ → ℕ → (ℕ → File) → Files W → Option (Files W)
  unfolding dup_into put
  dup_loop zero i from s = some s
  dup_loop (suc left) i from s = do
    t ←
        if is_opened (from i).status
        then dup_into i (from i) (put i (record (s.fd_array i) { status = init }) s)
        else some s
    dup_loop left (i + 1) from t

  -- The table `from` has the count `from_count` and the working directory `pwd`, which the result
  -- has beside the new table.
  unfoldable pub dup_files : ℕ → ℕ → (ℕ → File) → Files W → Option (ℕ × Files W)
  unfolding dup_loop
  dup_files from_count pwd from s = do
    assert (s.files_count == 0 && ltb 0 from_count)
    let w = if pwd == 0 then s.world else v.vop_ref_inc pwd s.world
    t ← dup_loop nentry 0 from (record s { world = w })
    some (pwd, t)
