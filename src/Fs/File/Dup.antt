-- ===== src/Fs/File/Dup.antt =====
-- Duplicating a descriptor.
use nku_os_2025_lab.Prelude.{
  ℕ, ◌+◌, ◌<◌, ◌≡◌, ◌≢◌, refl, sym, ◌∙◌, ap, Option, some, ne→==, arith, update_self, update_ne,
}
use nku_os_2025_lab.Prelude.Int.{ℤ}
use nku_os_2025_lab.Fs.File.{File, Files, Vfs, init, opened, put, fd_array_dup}
use nku_os_2025_lab.Fs.File.Calls.{file_dup}
use nku_os_2025_lab.Fs.File.Table.{IsTable, IsEntry, same-IsTable}
use nku_os_2025_lab.Fs.File.Transfer.{fd2file_opened}
use nku_os_2025_lab.Fs.File.Alloc.{Picks, Picks-unused, taken, alloc_picked}

-- An open entry with what `f` has.
abbrev pub same_file : ℕ → File → File
same_file j f = record {
  status = opened;
  readable = f.readable;
  writable = f.writable;
  fd = j;
  position = f.position;
  node = f.node;
  open_count = 1;
}

node_of_opened : (i k : ℕ) (f : File) → IsEntry k i f → f.status ≡ opened → f.node ≢ 0
node_of_opened i k f e o = ground arith

-- What duplicating the descriptor `i` as `j` leaves.
pub record Duplicated {W : Type 0} (v : Vfs W) (s : Files W) (held : ℕ → ℕ) (i j : ℕ)
    (run : Option ((ℕ × ℕ) × Files W)) : Type 0 where
  pub table : Files W
  pub result : run ≡ some ((0, j), table)
  pub valid : IsTable table held
  pub entry : table.fd_array j ≡ same_file j (s.fd_array i)
  pub rest : (k : ℕ) → k ≢ j → table.fd_array k ≡ s.fd_array k
  pub world :
      table.world ≡ v.vop_open_inc (s.fd_array i).node (v.vop_ref_inc (s.fd_array i).node s.world)

module _ {W : Type 0} (v : Vfs W) (s : Files W) (i j : ℕ) where
  -- The table that `fd_array_dup` leaves.
  abbrev dup_table : Files W
  dup_table =
      let f = s.fd_array i in
      let w = v.vop_open_inc f.node (v.vop_ref_inc f.node s.world) in
      let g : File = record (s.fd_array j) {
        position = f.position;
        readable = f.readable;
        writable = f.writable;
        node = f.node;
      } in
      put j (record g { status = opened; open_count = g.open_count + 1 })
        (put j g (record s { world = w }))

  fd_array_dup_lem :
      (s.fd_array j).status ≡ init
      → (s.fd_array i).status ≡ opened
      → (s.fd_array i).node ≢ 0
      → fd_array_dup v j i s ≡ some dup_table
  unfolding fd_array_dup
  fd_array_dup_lem p o n = ground arith

  dup_entry :
      (s.fd_array j).fd ≡ j
      → (s.fd_array j).open_count ≡ 0
      → dup_table.fd_array j ≡ same_file j (s.fd_array i)
  unfolding put
  dup_entry e z = ground arith

  dup_rest : (k : ℕ) → k ≢ j → dup_table.fd_array k ≡ s.fd_array k
  unfolding put
  dup_rest k n = rw (ne→== k j n)

  dup_world :
      dup_table.world
      ≡ v.vop_open_inc (s.fd_array i).node (v.vop_ref_inc (s.fd_array i).node s.world)
  unfolding put
  dup_world = refl

module _ {W : Type 0} (v : Vfs W) (s : Files W) (held : ℕ → ℕ) (i : ℕ) (t : IsTable s held)
    (h : i < 72) (c : 0 < s.files_count) (o : (s.fd_array i).status ≡ opened) where
  -- Duplicating an open descriptor below 72 gives the first unused descriptor, or the one that is
  -- asked for where it is unused: the new one is open once, on the same inode at the same position,
  -- the inode gets one more reference and one more opening, and no other entry changes.
  pub file_dup-Duplicated :
      (fd : ℤ) (j : ℕ) → Picks s fd j → Duplicated v s held i j (file_dup v (ℤ.pos i) fd s)
  unfolding file_dup put
  file_dup-Duplicated fd j p =
      let q = Picks-unused s fd j p in
      let e = t j q.0 in
      let m = put j (taken (s.fd_array j)) s in
      let mj : (m.fd_array j ≡ taken (s.fd_array j)) =
        update_self s.fd_array j (taken (s.fd_array j)) in
      let ij : (i ≢ j) = λ x. cc (ap (λ n. (s.fd_array n).status) x, q.1) in
      let mi : (m.fd_array i ≡ s.fd_array i) = update_ne s.fd_array j (taken (s.fd_array j)) i ij in
      let u = dup_table v m i j in
      let entry : (u.fd_array j ≡ same_file j (s.fd_array i)) =
        dup_entry v m i j (ap (λ (f : File). f.fd) mj ∙ e.0)
          (ap (λ (f : File). f.open_count) mj ∙ (ground arith))
        ∙ ap (same_file j) mi in
      let rest : ((k : ℕ) → k ≢ j → u.fd_array k ≡ s.fd_array k) =
        λ k n. dup_rest v m i j k n ∙ update_ne s.fd_array j (taken (s.fd_array j)) k n in
      let node : ((m.fd_array i).node ≢ 0) = λ z.
        node_of_opened i (held i) (s.fd_array i) (t i h) o
          (sym (ap (λ (f : File). f.node) mi) ∙ z) in
      record {
        table = u;
        result = rw (fd2file_opened s held i t h c o) (
            rw (alloc_picked s held fd j t c p) (
              rw
                (fd_array_dup_lem v m i j (ap (λ (f : File). f.status) mj)
                  (ap (λ (f : File). f.status) mi ∙ o) node)
                (ap (λ n. some ((0, n), u)) (ap (λ (f : File). f.fd) entry))));
        valid =
            same-IsTable s u held j t rest
              (rw entry (refl, (ground arith, node_of_opened i (held i) (s.fd_array i) (t i h) o)));
        entry = entry;
        rest = rest;
        world = dup_world v m i j ∙ (rw mi);
      }
