-- ===== src/Fs/File/Transfer.antt =====
-- Reading and writing an open file, also where other threads close it meanwhile.
use nku_os_2025_lab.Prelude.{
  ℕ, suc, ◌<◌, ◌≤◌, ◌≡◌, ◌≢◌, refl, ◌∙◌, ap, subst, true, false, ◌⊎◌, inl, inr, Option, some, arith,
  update, update_self,
}
use native.Mathlib.Decide.{ℕ_discrete}
use nku_os_2025_lab.Prelude.Int.{ℤ, ◌+ℤ◌}
use nku_os_2025_lab.Fs.File.{
  to_off_t, File, Files, Vfs, Iobuf, unused, opened, closed, nentry, put, fd2file, iobuf_init,
  iobuf_used,
}
use nku_os_2025_lab.Fs.File.Calls.{advance, transfer_held, transfer, file_read, file_write}
use nku_os_2025_lab.Fs.File.Table.{
  IsTable, IsEntry, held_cases, same-IsTable, put-IsTable, acquire-IsEntry, release_lem,
}
use nku_os_2025_lab.Libs.Errors.{e_inval}

-- Other threads keep the table well formed, and the reference that a call has on entry `i`.
pub record StillHeld {W : Type 0} (i : ℕ) (t : Files W) : Type 0 where
  pub held : ℕ → ℕ
  pub left : ℕ
  pub mine : held i ≡ suc left
  pub valid : IsTable t held

abbrev pub Keeps : {W : Type 0} → ℕ → (Files W → Files W) → Type 0
Keeps {W} i others =
    (s : Files W) (held : ℕ → ℕ) (k : ℕ) → held i ≡ suc k → IsTable s held → StillHeld i (others s)

-- `fd2file` refuses a descriptor behind the table.
pub fd2file_behind :
    {W : Type 0} (s : Files W) (n : ℕ) → 72 ≤ n → fd2file (ℤ.pos n) s ≡ some (e_inval, 0)
unfolding fd2file
fd2file_behind s n h = ground arith

-- `fd2file` finds an open descriptor.
pub fd2file_opened :
    {W : Type 0} (s : Files W) (held : ℕ → ℕ) (i : ℕ)
    → IsTable s held
    → i < nentry
    → 0 < s.files_count
    → (s.fd_array i).status ≡ opened
    → fd2file (ℤ.pos i) s ≡ some (0, i)
unfolding fd2file
fd2file_opened s held i t h c o = let e = (t i h).0 in ground arith

-- What `op` does on the entry `i` of a table.
abbrev pub moved :
    {W : Type 0} → (ℕ → Iobuf → W → ℕ × Iobuf × W) → ℕ → ℕ → ℕ → Files W → ℕ × Iobuf × W
moved op i base len s = op (s.fd_array i).node (iobuf_init base len (s.fd_array i).position) s.world

abbrev pub copied : {W : Type 0} → (ℕ → Iobuf → W → ℕ × Iobuf × W) → ℕ → ℕ → ℕ → Files W → ℕ
copied op i base len s = iobuf_used (moved op i base len s).1

-- The table when the transfer is done and others have run.
abbrev pub between :
    {W : Type 0}
    → (Files W → Files W)
    → (ℕ → Iobuf → W → ℕ × Iobuf × W)
    → ℕ
    → ℕ
    → ℕ
    → Files W
    → Files W
between others op i base len s = others (record s { world = (moved op i base len s).2 })

-- The entry's position moves by what was copied, as an `off_t`, while its descriptor is open.
record Advanced {W : Type 0} (i n : ℕ) (s : Files W) (held : ℕ → ℕ) : Type 0 where
  valid : IsTable (advance i n s) held
  status : ((advance i n s).fd_array i).status ≡ (s.fd_array i).status
  node : ((advance i n s).fd_array i).node ≡ (s.fd_array i).node
  world : (advance i n s).world ≡ s.world
  moves :
      (s.fd_array i).status ≡ opened
      → ((advance i n s).fd_array i).position ≡ to_off_t ((s.fd_array i).position +ℤ ℤ.pos n)

advance_rest :
    {W : Type 0} (i n : ℕ) (s : Files W) (j : ℕ) → j ≢ i → (advance i n s).fd_array j ≡ s.fd_array j
unfolding advance
advance_rest i n s j h = ground arith

advance-Advanced :
    {W : Type 0} (i n : ℕ) (s : Files W) (held : ℕ → ℕ)
    → i < nentry
    → IsTable s held
    → Advanced i n s held
unfolding advance
advance-Advanced i n s held h t = record {
  valid =
      same-IsTable s (advance i n s) held i t (advance_rest i n s) (let e = t i h in ground arith);
  status = ground arith;
  node = ground arith;
  world = ground arith;
  moves = λ o. ground arith;
}

-- What a transfer leaves: the code and the number of bytes, and the table behind it.
pub record Transferred {W : Type 0} (v : Vfs W) (mid : Files W) (i ret n : ℕ)
    (run : Option ((ℕ × ℕ) × Files W)) : Type 0 where
  pub table : Files W
  pub result : run ≡ some ((ret, n), table)
  pub held : ℕ → ℕ
  pub left : ℕ
  pub before : IsTable mid held
  pub mine : held i ≡ suc left
  pub after : IsTable table (update held i left)
  pub outcome :
      (((mid.fd_array i).status ≡ opened)
        × ((table.fd_array i).status ≡ opened)
        × ((table.fd_array i).position ≡ to_off_t ((mid.fd_array i).position +ℤ ℤ.pos n)))
      ⊎ (((mid.fd_array i).status ≡ closed)
          × (left ≡ 0)
          × ((table.fd_array i).status ≡ unused)
          × (table.world ≡ v.vfs_close (mid.fd_array i).node mid.world))
      ⊎ (((mid.fd_array i).status ≡ closed) × (left ≢ 0))

module _ {W : Type 0} (v : Vfs W) (others : Files W → Files W) (op : ℕ → Iobuf → W → ℕ × Iobuf × W)
    (i base len : ℕ) where
  held-Transferred :
      (s : Files W) (held : ℕ → ℕ) (k : ℕ)
      → i < nentry
      → IsTable s held
      → held i ≡ suc k
      → Keeps i others
      → Transferred v
          (between others op i base len s)
          i
          (moved op i base len s).0
          (copied op i base len s)
          (transfer_held v others op i base len s)
  unfolding transfer_held
  held-Transferred s held k h t e keeps =
      let mid = between others op i base len s in
      let n = copied op i base len s in
      let m = keeps (record s { world = (moved op i base len s).2 }) held k e t in
      let a = advance-Advanced i n mid m.held h m.valid in
      let r =
        release_lem v (advance i n mid) m.held i a.valid m.left
          (subst (λ x. IsEntry x i ((advance i n mid).fd_array i)) m.mine (a.valid i h)) in
      record {
        table = r.table;
        result = rw r.result;
        held = m.held;
        left = m.left;
        before = m.valid;
        mine = m.mine;
        after = r.valid;
        outcome =
            elim (held_cases i m.left (mid.fd_array i)
              (subst (λ x. IsEntry x i (mid.fd_array i)) m.mine (m.valid i h))) [
                | inl o ↦ inl (o, (r.still (a.status ∙ o)).0, r.position ∙ a.moves o)
                | inr q ↦ elim (ℕ_discrete m.left 0) [
                  | yes z ↦ let f = r.freed (a.status ∙ q) z in inr (inl (q, z, f.0, cc))
                  | no n ↦ inr (inr (q, n))
                ]
              ];
      }

-- A call on the open descriptor `i`: the entry is held while `op` runs on its inode and at its
-- position, and is given back.
pub record Performed {W : Type 0} (v : Vfs W) (others : Files W → Files W)
    (op : ℕ → Iobuf → W → ℕ × Iobuf × W) (i base len : ℕ) (s : Files W) (held : ℕ → ℕ)
    (run : Option ((ℕ × ℕ) × Files W)) : Type 0 where
  pub during : Files W
  pub holds : IsTable during (update held i (suc (held i)))
  pub same_node : (during.fd_array i).node ≡ (s.fd_array i).node
  pub same_position : (during.fd_array i).position ≡ (s.fd_array i).position
  pub same_world : during.world ≡ s.world
  pub transferred :
      Transferred v
        (between others op i base len during)
        i
        (moved op i base len during).0
        (copied op i base len during)
        run

module _ {W : Type 0} (v : Vfs W) (others : Files W → Files W) (i base len : ℕ) (s : Files W)
    (held : ℕ → ℕ) (t : IsTable s held) (h : i < 72) (c : 0 < s.files_count)
    (o : (s.fd_array i).status ≡ opened) (keeps : Keeps i others) where
  transfer-Performed :
      (op : ℕ → Iobuf → W → ℕ × Iobuf × W)
      → Performed v others op i base len s held (transfer v others op i base len s)
  unfolding transfer put
  transfer-Performed op =
      let (f, e, entry, st, p, n) = acquire-IsEntry s i (held i) (t i h) o in
      let self : ((put i f s).fd_array i ≡ f) = update_self s.fd_array i f in
      record {
        during = put i f s;
        holds = put-IsTable s held i (suc (held i)) f t entry;
        same_node = ap (λ (g : File). g.node) self ∙ n;
        same_position = ap (λ (g : File). g.position) self ∙ p;
        same_world = refl;
        transferred = rw e (
            held-Transferred v others op i base len (put i f s) (update held i (suc (held i)))
              (held i) h (put-IsTable s held i (suc (held i)) f t entry)
              (update_self held i (suc (held i))) keeps);
      }

  -- Reading a readable open descriptor below 72 never fails an assertion, also where other threads
  -- close it meanwhile: it returns what the inode returns, moves the position by what was copied
  -- (wrapping around at 64 bits) while the descriptor is open, frees the entry and closes the inode
  -- if it held the last reference to a closed descriptor, and keeps the count of references. A
  -- descriptor from 72 on is refused with E_INVAL, and nothing changes.
  pub file_read-Performed :
      (behind : ℕ)
      → 72 ≤ behind
      → (s.fd_array i).readable ≡ true
      → Performed v others v.vop_read i base len s held (file_read v others (ℤ.pos i) base len s)
        × (file_read v others (ℤ.pos behind) base len s ≡ some ((e_inval, 0), s))
  unfolding file_read
  file_read-Performed behind b r =
      rw (fd2file_opened s held i t h c o, fd2file_behind s behind b)
        (rw r (transfer-Performed v.vop_read, refl))

  -- The same for writing.
  pub file_write-Performed :
      (s.fd_array i).writable ≡ true
      → Performed v others v.vop_write i base len s held (file_write v others (ℤ.pos i) base len s)
  unfolding file_write
  file_write-Performed r =
      rw (fd2file_opened s held i t h c o) (rw r (transfer-Performed v.vop_write))

-- A descriptor that is out of range, not open, or not readable is refused, and nothing changes.
pub file_read_refused :
    {W : Type 0} (v : Vfs W) (others : Files W → Files W) (fd : ℤ) (base len : ℕ) (s : Files W)
    → 0 < s.files_count
    → ((i : ℕ)
        → fd ≡ ℤ.pos i
        → i < nentry
        → ((s.fd_array i).status ≢ opened) ⊎ ((s.fd_array i).readable ≡ false))
    → file_read v others fd base len s ≡ some ((e_inval, 0), s)
unfolding file_read fd2file
file_read_refused v others (ℤ.pos n) base len s c bad = let b = bad n refl in ground (arith)
file_read_refused v others (ℤ.negsuc n) base len s c bad = refl
