-- ===== src/Fs/File/Calls.antt =====
-- lab8/kern/fs/file.c: the calls on open files. While a call waits in the inode layer, other
-- threads that share the table may run: `others` is what they do to it.
use nku_os_2025_lab.Prelude.{ℕ, ◌%◌, ◌/◌, Bool, not, Option, some, ◌==◌, if◌then◌else◌, ◌>>=◌}
use nku_os_2025_lab.Prelude.Int.{ℤ, ◌+ℤ◌}
use nku_os_2025_lab.Fs.File.{
  to_off_t, Files, Vfs, Iobuf, no_fd, is_opened, iobuf_init, iobuf_used, put, fd_array_alloc,
  fd_array_free, fd_array_acquire, fd_array_release, fd_array_open, fd_array_close, fd_array_dup,
  fd2file,
}
use nku_os_2025_lab.Libs.Errors.{e_inval}

-- `open_flags & O_ACCMODE` of a number of flags: 0 is O_RDONLY, 1 O_WRONLY and 2 O_RDWR.
abbrev pub accmode : ℕ → ℕ
accmode open_flags = open_flags % 4

-- `open_flags & O_APPEND`
abbrev pub has_append : ℕ → Bool
has_append open_flags = open_flags / 32 % 2 == 1

-- LSEEK_SET, LSEEK_CUR, LSEEK_END.
pub data Whence : Type 0 where
  set cur end : Whence
  other : ℕ → Whence

-- `if (file->status == FD_OPENED) file->pos += copied;`
unfoldable pub advance : {W : Type 0} → ℕ → ℕ → Files W → Files W
unfolding put
advance i copied s =
    let f = s.fd_array i in
    if is_opened f.status
    then put i (record f { position = to_off_t (f.position +ℤ ℤ.pos copied) }) s
    else s

module _ {W : Type 0} (v : Vfs W) where
  unfoldable pub file_close : ℤ → Files W → Option (ℕ × Files W)
  file_close fd s = do
    (ret, i) ← fd2file fd s
    if ret == 0 then (fd_array_close v i s >>= λ t. some (0, t)) else some (ret, s)

  -- The code, or the descriptor.
  unfoldable pub file_dup : ℤ → ℤ → Files W → Option ((ℕ × ℕ) × Files W)
  file_dup fd1 fd2 s = do
    (ret, i) ← fd2file fd1 s
    if not (ret == 0) then some ((ret, 0), s) else (do
      ((ret', j), t) ← fd_array_alloc fd2 s
      if not (ret' == 0)
          then some ((ret', 0), t)
          else (fd_array_dup v j i t >>= λ u. some ((0, (u.fd_array j).fd), u)))

  -- The position that a new file gets: 0, or its size with O_APPEND.
  unfoldable pub open_position : ℕ → ℕ → W → ℕ × ℕ × W
  open_position open_flags node w = if has_append open_flags then v.vop_fstat node w else (0, 0, w)

  -- `file->pos = 0`, and the fields that `file_open` sets before it opens the entry.
  unfoldable pub prepare_entry : ℕ → ℕ → ℕ → ℕ → Files W → Files W
  unfolding put
  prepare_entry i open_flags node size s =
      put i
        (record (s.fd_array i) {
          position = to_off_t (ℤ.pos size);
          node = node;
          readable = not (accmode open_flags == 1);
          writable = not (accmode open_flags == 0);
        })
        s

  -- `file_open` after `vfs_open` has found the inode: the code, or the descriptor.
  unfoldable pub open_entry : ℕ → ℕ → ℕ → Files W → Option ((ℕ × ℕ) × Files W)
  unfolding put open_position fd_array_free fd_array_open prepare_entry
  open_entry i open_flags node s = do
    let (ret, size, w) = open_position open_flags node s.world
    let t = put i (record (s.fd_array i) { position = ℤ.pos 0 }) (record s { world = w })
    let ready = prepare_entry i open_flags node size t
    if ret == 0
        then (fd_array_open i ready >>= λ u. some ((0, (u.fd_array i).fd), u))
        else (fd_array_free v i (record t { world = v.vfs_close node w }) >>= λ u.
            some ((ret, 0), u))

module _ {W : Type 0} (v : Vfs W) (others : Files W → Files W) where
  -- The inode layer opens the file while others run.
  unfoldable pub open_node : ℕ → ℕ → ℕ → Files W → Option ((ℕ × ℕ) × Files W)
  unfolding open_entry
  open_node i path open_flags s = do
    let (ret, node, w) = v.vfs_open path open_flags s.world
    let t = others (record s { world = w })
    if ret == 0
        then open_entry v i open_flags node t
        else (fd_array_free v i t >>= λ u. some ((ret, 0), u))

  unfoldable pub file_open : ℕ → ℕ → Files W → Option ((ℕ × ℕ) × Files W)
  unfolding open_node
  file_open path open_flags s = if accmode open_flags == 3 then some ((e_inval, 0), s) else (do
    ((ret, i), t) ← fd_array_alloc no_fd s
    if ret == 0 then open_node i path open_flags t else some ((ret, 0), t))

  -- A transfer by `op`, which is `vop_read` or `vop_write`: the code, and what was copied.
  unfoldable pub transfer_held :
      (ℕ → Iobuf → W → ℕ × Iobuf × W) → ℕ → ℕ → ℕ → Files W → Option ((ℕ × ℕ) × Files W)
  unfolding iobuf_init
  transfer_held op i base len t =
      let f = t.fd_array i in
      let (ret, iob, w) = op f.node (iobuf_init base len f.position) t.world in
      let copied = iobuf_used iob in
      fd_array_release v i (advance i copied (others (record t { world = w }))) >>= λ u.
      some ((ret, copied), u)

  unfoldable pub transfer :
      (ℕ → Iobuf → W → ℕ × Iobuf × W) → ℕ → ℕ → ℕ → Files W → Option ((ℕ × ℕ) × Files W)
  unfolding transfer_held
  transfer op i base len s = do t ← fd_array_acquire i s; transfer_held op i base len t

  unfoldable pub file_read : ℤ → ℕ → ℕ → Files W → Option ((ℕ × ℕ) × Files W)
  unfolding transfer
  file_read fd base len s = do
    (ret, i) ← fd2file fd s
    if not (ret == 0)
        then some ((ret, 0), s)
        else if not (s.fd_array i).readable
        then some ((e_inval, 0), s)
        else transfer v.vop_read i base len s

  unfoldable pub file_write : ℤ → ℕ → ℕ → Files W → Option ((ℕ × ℕ) × Files W)
  unfolding transfer
  file_write fd base len s = do
    (ret, i) ← fd2file fd s
    if not (ret == 0)
        then some ((ret, 0), s)
        else if not (s.fd_array i).writable
        then some ((e_inval, 0), s)
        else transfer v.vop_write i base len s

  -- The code, and the position to seek to.
  unfoldable pub seek_target : ℕ → ℤ → Whence → Files W → ℕ × ℤ × W
  seek_target i place set s = (0, place, s.world)
  seek_target i place cur s = (0, to_off_t (place +ℤ (s.fd_array i).position), s.world)
  seek_target i place end s =
      let (ret, size, w) = v.vop_fstat (s.fd_array i).node s.world in
      (ret, if ret == 0 then to_off_t (place +ℤ ℤ.pos size) else place, w)
  seek_target i place (other n) s = (e_inval, place, s.world)

  unfoldable pub seek_entry : ℕ → ℤ → Files W → ℕ × Files W
  unfolding put
  seek_entry i place s =
      let (ret, w) = v.vop_tryseek (s.fd_array i).node place s.world in
      let t = record s { world = w } in
      (ret, if ret == 0 then put i (record (t.fd_array i) { position = place }) t else t)

  unfoldable pub file_seek : ℤ → ℤ → Whence → Files W → Option (ℕ × Files W)
  unfolding seek_target seek_entry
  file_seek fd place whence s = do
    (ret, i) ← fd2file fd s
    if not (ret == 0) then some (ret, s) else (do
      t ← fd_array_acquire i s
      let (ret', place', w) = seek_target i place whence t
      let u = others (record t { world = w })
      let (ret'', z) = if ret' == 0 then seek_entry i place' u else (ret', u)
      x ← fd_array_release v i z
      some (ret'', x))

  -- The code, the size of the file, and the new state.
  unfoldable pub file_fstat : ℤ → Files W → Option ((ℕ × ℕ) × Files W)
  file_fstat fd s = do
    (ret, i) ← fd2file fd s
    if not (ret == 0) then some ((ret, 0), s) else (do
      t ← fd_array_acquire i s
      let (ret', size, w) = v.vop_fstat (t.fd_array i).node t.world
      u ← fd_array_release v i (others (record t { world = w }))
      some ((ret', size), u))

  unfoldable pub file_fsync : ℤ → Files W → Option (ℕ × Files W)
  file_fsync fd s = do
    (ret, i) ← fd2file fd s
    if not (ret == 0) then some (ret, s) else (do
      t ← fd_array_acquire i s
      let (ret', w) = v.vop_fsync (t.fd_array i).node t.world
      u ← fd_array_release v i (others (record t { world = w }))
      some (ret', u))

  -- `name` and `offset` are fields of the entry that the caller gives; the result has the code and
  -- the new offset.
  unfoldable pub file_getdirentry : ℤ → ℕ → ℤ → Files W → Option ((ℕ × ℤ) × Files W)
  unfolding iobuf_init iobuf_used
  file_getdirentry fd name offset s = do
    (ret, i) ← fd2file fd s
    if not (ret == 0) then some ((ret, offset), s) else (do
      t ← fd_array_acquire i s
      let (ret', iob, w) =
          v.vop_getdirentry (t.fd_array i).node (iobuf_init name 256 offset) t.world
      u ← fd_array_release v i (others (record t { world = w }))
      some ((ret', if ret' == 0 then to_off_t (offset +ℤ ℤ.pos (iobuf_used iob)) else offset), u))
