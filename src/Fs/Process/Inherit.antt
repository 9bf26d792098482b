-- ===== src/Fs/Process/Inherit.antt =====
-- A process that `dup_files` copies a table to has the same open files.
use nku_os_2025_lab.Prelude.{
  ℕ, zero, suc, ◌+◌, ◌<◌, ◌≤◌, ◌≡◌, ◌≢◌, refl, ◌∙◌, ap, true, Bool-cases, inl, inr, Option, some,
  ne→==, eq→==, ltb, ◌==◌, if◌then◌else◌, arith,
}
use native.Mathlib.Decide.{ℕ_discrete}
use nku_os_2025_lab.Fs.File.{File, Files, Vfs, init, opened, nentry, is_opened, put, fd_array_open}
use nku_os_2025_lab.Fs.File.Dup.{same_file}
use nku_os_2025_lab.Fs.Process.{dup_into, dup_loop, dup_files}

-- The entry that a process gets for the descriptor `i`.
abbrev pub inherited : ℕ → File → File → File
inherited i f g = if is_opened f.status then same_file i f else g

module _ {W : Type 0} (v : Vfs W) where
  -- The references that are taken to the inodes of the entries that are left.
  pub take_references : ℕ → ℕ → (ℕ → File) → W → W
  take_references zero i from w = w
  take_references (suc left) i from w = take_references left (i + 1) from (
      if is_opened (from i).status
      then v.vop_open_inc (from i).node (v.vop_ref_inc (from i).node w)
      else w)

  -- What one round of the loop leaves.
  record Copied (i : ℕ) (from : ℕ → File) (s : Files W) (run : Option (Files W)) : Type 0 where
    table : Files W
    result : run ≡ some table
    entry : table.fd_array i ≡ inherited i (from i) (s.fd_array i)
    rest : (j : ℕ) → j ≢ i → table.fd_array j ≡ s.fd_array j
    files_count : table.files_count ≡ s.files_count
    world : table.world ≡ take_references 1 i from s.world

  -- The table that copying one open entry leaves.
  abbrev copied_table : ℕ → File → Files W → Files W
  copied_table i f s =
      let w = v.vop_open_inc f.node (v.vop_ref_inc f.node s.world) in
      let a = put i (record (s.fd_array i) { status = init }) s in
      let g : File = record (a.fd_array i) {
        position = f.position;
        readable = f.readable;
        writable = f.writable;
        node = f.node;
      } in
      let b = put i g (record a { world = w }) in
      put i (record (b.fd_array i) { status = opened; open_count = (b.fd_array i).open_count + 1 })
        b

  dup_into_lem :
      (i : ℕ) (f : File) (s : Files W)
      → f.status ≡ opened
      → f.node ≢ 0
      → dup_into v i f (put i (record (s.fd_array i) { status = init }) s)
        ≡ some (copied_table i f s)
  unfolding dup_into put fd_array_open
  dup_into_lem i f s o n = ground arith

  copied_entry :
      (i : ℕ) (f : File) (s : Files W)
      → (s.fd_array i).fd ≡ i
      → (s.fd_array i).open_count ≡ 0
      → (copied_table i f s).fd_array i ≡ same_file i f
  unfolding put
  copied_entry i f s e z = ground arith

  copied_rest :
      (i : ℕ) (f : File) (s : Files W) (j : ℕ)
      → j ≢ i
      → (copied_table i f s).fd_array j ≡ s.fd_array j
  unfolding put
  copied_rest i f s j n = rw (ne→== j i n)

  copied_world :
      (i : ℕ) (f : File) (s : Files W)
      → (copied_table i f s).world ≡ v.vop_open_inc f.node (v.vop_ref_inc f.node s.world)
  unfolding put
  copied_world i f s = refl

  copied_count : (i : ℕ) (f : File) (s : Files W) → (copied_table i f s).files_count ≡ s.files_count
  unfolding put
  copied_count i f s = refl

  is_opened-opened : (f : File) → is_opened f.status ≡ true → f.status ≡ opened
  is_opened-opened f e = ground arith

  round-Copied :
      (i : ℕ) (from : ℕ → File) (s : Files W)
      → (s.fd_array i).fd ≡ i
      → (s.fd_array i).open_count ≡ 0
      → ((from i).status ≡ opened → (from i).node ≢ 0)
      → Copied i from s (
          if is_opened (from i).status
          then dup_into v i (from i) (put i (record (s.fd_array i) { status = init }) s)
          else some s)
  unfolding take_references
  round-Copied i from s e z n = elim (Bool-cases (is_opened (from i).status)) [
    | inl o ↦
        let q = is_opened-opened (from i) o in
        record {
          table = copied_table i (from i) s;
          result = rw o (dup_into_lem i (from i) s q (n q));
          entry = rw o (copied_entry i (from i) s e z);
          rest = copied_rest i (from i) s;
          files_count = copied_count i (from i) s;
          world = rw o (copied_world i (from i) s);
        }
    | inr o ↦ record {
      table = s;
      result = rw o;
      entry = rw o;
      rest = λ j k. refl;
      files_count = refl;
      world = rw o;
    }
  ]

  -- What the rounds from entry `i` on leave.
  pub record Inherits (left i : ℕ) (from : ℕ → File) (s : Files W) (run : Option (Files W))
      : Type 0 where
    pub table : Files W
    pub result : run ≡ some table
    pub entries :
        (j : ℕ) → i ≤ j → j < i + left → table.fd_array j ≡ inherited j (from j) (s.fd_array j)
    pub rest : (j : ℕ) → j < i → table.fd_array j ≡ s.fd_array j
    pub files_count : table.files_count ≡ s.files_count
    pub world : table.world ≡ take_references left i from s.world

  dup_loop-Inherits :
      (left i : ℕ) (from : ℕ → File) (s : Files W)
      → ((j : ℕ) → i ≤ j → j < i + left → ((s.fd_array j).fd ≡ j) × ((s.fd_array j).open_count ≡ 0))
      → ((j : ℕ) → i ≤ j → j < i + left → (from j).status ≡ opened → (from j).node ≢ 0)
      → Inherits left i from s (dup_loop v left i from s)
  unfolding dup_loop take_references
  dup_loop-Inherits zero i from s h n = record {
    table = s;
    result = refl;
    entries = λ j a b. absurd (omega arith);
    rest = λ j k. refl;
    files_count = refl;
    world = refl;
  }
  dup_loop-Inherits (suc left) i from s h n =
      let c =
        round-Copied i from s (h i (omega arith) (omega arith)).0
          (h i (omega arith) (omega arith)).1 (n i (omega arith) (omega arith)) in
      let r =
        dup_loop-Inherits left (i + 1) from c.table
          (λ j a b. rw (c.rest j (omega arith)) (h j (omega arith) (omega arith)))
          (λ j a b. n j (omega arith) (omega arith)) in
      record {
        table = r.table;
        result = rw c.result r.result;
        entries = λ j a b. elim (ℕ_discrete j i) [
          | yes e ↦ rw e (r.rest i (omega arith) ∙ c.entry)
          | no k ↦
              r.entries j (omega arith) (omega arith)
              ∙ ap (λ g. inherited j (from j) g) (c.rest j k)
        ];
        rest = λ j k. r.rest j (omega arith) ∙ c.rest j (omega arith);
        files_count = r.files_count ∙ c.files_count;
        world = r.world ∙ ap (take_references left (i + 1) from) c.world;
      }

  -- What `dup_files` leaves in the table `s` of the new process.
  pub record Forked (pwd : ℕ) (from : ℕ → File) (s : Files W) (run : Option (ℕ × Files W))
      : Type 0 where
    pub table : Files W
    pub result : run ≡ some (pwd, table)
    pub entries : (j : ℕ) → j < 72 → table.fd_array j ≡ inherited j (from j) (s.fd_array j)
    pub files_count : table.files_count ≡ 0
    pub world :
        table.world
        ≡ take_references 72 0 from (if pwd == 0 then s.world else v.vop_ref_inc pwd s.world)

  -- `dup_files` to a table of numbered entries without references passes its assertions, where the
  -- other table is in use and its open entries have inodes. The 72 entries of the new table have
  -- exactly the open files of the other, each at the same descriptor, with the same inode, position
  -- and permissions and one reference; its other entries are as they were. Each inode gets a
  -- reference and an opening for each open entry, and the working directory one reference.
  pub dup_files-Forked :
      (from_count pwd : ℕ) (from : ℕ → File) (s : Files W)
      → s.files_count ≡ 0
      → 0 < from_count
      → ((j : ℕ) → j < 72 → ((s.fd_array j).fd ≡ j) × ((s.fd_array j).open_count ≡ 0))
      → ((j : ℕ) → j < 72 → (from j).status ≡ opened → (from j).node ≢ 0)
      → Forked pwd from s (dup_files v from_count pwd from s)
  unfolding dup_files
  dup_files-Forked from_count pwd from s c d h n =
      let w = if pwd == 0 then s.world else v.vop_ref_inc pwd s.world in
      let r =
        dup_loop-Inherits nentry 0 from (record s { world = w }) (λ j a b. h j (omega arith))
          (λ j a b. n j (omega arith)) in
      let b : (ltb 0 from_count ≡ true) = ground arith in
      record {
        table = r.table;
        result = rw (eq→== s.files_count 0 c) (rw b (rw r.result refl));
        entries = λ j k. r.entries j (omega arith) (omega arith);
        files_count = r.files_count ∙ c;
        world = r.world;
      }
