-- ===== src/Fs/File/Open.antt =====
-- Opening a file, while other threads use the table.
use nku_os_2025_lab.Prelude.{ℕ, ◌<◌, ◌≡◌, ◌≢◌, Option, none, some, not, ◌==◌, ne→==}
use nku_os_2025_lab.Prelude.Int.{ℤ}
use nku_os_2025_lab.Fs.File.{to_off_t, File, Files, Vfs, init, opened, put}
use nku_os_2025_lab.Fs.File.Calls.{prepare_entry, file_open, open_position, accmode}
use nku_os_2025_lab.Fs.File.Table.{IsTable}
use nku_os_2025_lab.Fs.File.Alloc.{IsFirst, taken, alloc_full}
use nku_os_2025_lab.Libs.Errors.{e_max_open}

-- Other threads leave an entry alone that a call has taken and not opened yet.
pub record Spared {W : Type 0} (j : ℕ) (s t : Files W) : Type 0 where
  pub same : t.fd_array j ≡ s.fd_array j
  pub held : ℕ → ℕ
  pub valid : IsTable t held

abbrev pub Spares : {W : Type 0} → ℕ → (Files W → Files W) → Type 0
Spares {W} j others =
    (s : Files W) (held : ℕ → ℕ)
    → (s.fd_array j).status ≡ init
    → IsTable s held
    → Spared j s (others s)

-- The entry of a file that was opened with `open_flags` as `node`, at the position `place`.
abbrev pub opened_file : ℕ → ℕ → ℕ → ℕ → File
opened_file j open_flags node place = record {
  status = opened;
  readable = not (accmode open_flags == 1);
  writable = not (accmode open_flags == 0);
  fd = j;
  position = to_off_t (ℤ.pos place);
  node = node;
  open_count = 1;
}

module _ {W : Type 0} (v : Vfs W) where
  -- The table before `open_entry` opens the entry.
  abbrev ready_table : ℕ → ℕ → ℕ → Files W → Files W
  ready_table j open_flags node s =
      let (ret, size, w) = open_position v open_flags node s.world in
      prepare_entry v j open_flags node size
        (put j (record (s.fd_array j) { position = ℤ.pos 0 }) (record s { world = w }))

-- What opening a file as the descriptor `j` leaves, from the table `s` when `vfs_open` has
-- returned.
pub record Opened {W : Type 0} (v : Vfs W) (s : Files W) (held : ℕ → ℕ) (j open_flags node : ℕ)
    (run : Option ((ℕ × ℕ) × Files W)) : Type 0 where
  pub table : Files W
  pub result : run ≡ some ((0, j), table)
  pub valid : IsTable table held
  pub entry :
      table.fd_array j ≡ opened_file j open_flags node (open_position v open_flags node s.world).1
  pub rest : (k : ℕ) → k ≢ j → table.fd_array k ≡ s.fd_array k
  pub world : table.world ≡ (open_position v open_flags node s.world).2

-- The table when `vfs_open` has returned and others have run.
abbrev pub found_table : {W : Type 0} → Vfs W → (Files W → Files W) → ℕ → ℕ → Files W → ℕ → Files W
found_table v others path open_flags s j =
    others
      (record (put j (taken (s.fd_array j)) s) { world = (v.vfs_open path open_flags s.world).2 })

module _ {W : Type 0} (v : Vfs W) (others : Files W → Files W) (path open_flags : ℕ) (s : Files W)
    (held : ℕ → ℕ) (t : IsTable s held) (c : 0 < s.files_count) where
  -- Where no descriptor is unused, opening fails with E_MAX_OPEN before the inode layer is asked,
  -- and nothing changes.
  pub file_open_full :
      accmode open_flags ≢ 3
      → IsFirst s.fd_array 0 72 none
      → file_open v others path open_flags s ≡ some ((e_max_open, 0), s)
  unfolding file_open
  file_open_full a p = rw (ne→== (accmode open_flags) 3 a) (rw (alloc_full s c p))
