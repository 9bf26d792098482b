-- ===== src/Fs/File/Table.antt =====
-- The table of open files counts its references: the invariant, and the steps that keep it.
use nku_os_2025_lab.Prelude.{
  ℕ, zero, suc, ◌+◌, ◌-◌, ◌<◌, ◌≡◌, ◌≢◌, refl, sym, ◌∙◌, ap, subst, ◌⊎◌, inl, inr, Option, some,
  arith, update, update_self, update_ne,
}
use native.Mathlib.Decide.{ℕ_discrete}
use nku_os_2025_lab.Fs.File.{
  File, Files, Vfs, Status, unused, init, opened, closed, nentry, put, fd_array_acquire,
  fd_array_release,
}

-- `held` calls are in progress on an entry; an open descriptor is one more reference.
abbrev pub Counts : Status → ℕ → ℕ → ℕ → Type 0
Counts unused held count node = (held ≡ 0) × (count ≡ 0)
Counts init held count node = (held ≡ 0) × (count ≡ 0)
Counts opened held count node = (count ≡ suc held) × (node ≢ 0)
Counts closed held count node = count ≡ held

abbrev pub IsEntry : ℕ → ℕ → File → Type 0
IsEntry held i f = (f.fd ≡ i) × Counts f.status held f.open_count f.node

-- The table is well formed, with `held i` calls in progress on entry `i`.
abbrev pub IsTable : {W : Type 0} → Files W → (ℕ → ℕ) → Type 0
IsTable s held = (i : ℕ) → i < nentry → IsEntry (held i) i (s.fd_array i)

pub held_cases :
    (i k : ℕ) (f : File) → IsEntry (suc k) i f → (f.status ≡ opened) ⊎ (f.status ≡ closed)
held_cases i k f e = ground arith

module _ {W : Type 0} where
  -- A step that changes one entry.
  pub entry-IsTable :
      (s t : Files W) (held : ℕ → ℕ) (i k : ℕ)
      → IsTable s held
      → ((j : ℕ) → j ≢ i → t.fd_array j ≡ s.fd_array j)
      → IsEntry k i (t.fd_array i)
      → IsTable t (update held i k)
  entry-IsTable s t held i k v rest e j h = elim (ℕ_discrete j i) [
    | yes q ↦
        subst (λ n. IsEntry (update held i k n) n (t.fd_array n)) (sym q)
          (rw (update_self held i k) e)
    | no n ↦ rw (update_ne held i k j n, rest j n) (v j h)
  ]

  pub same-IsTable :
      (s t : Files W) (held : ℕ → ℕ) (i : ℕ)
      → IsTable s held
      → ((j : ℕ) → j ≢ i → t.fd_array j ≡ s.fd_array j)
      → IsEntry (held i) i (t.fd_array i)
      → IsTable t held
  same-IsTable s t held i v rest e j h = elim (ℕ_discrete j i) [
    | yes q ↦ subst (λ n. IsEntry (held n) n (t.fd_array n)) (sym q) e
    | no n ↦ rw (rest j n) (v j h)
  ]

  pub put-IsTable :
      (s : Files W) (held : ℕ → ℕ) (i k : ℕ) (f : File)
      → IsTable s held
      → IsEntry k i f
      → IsTable (put i f s) (update held i k)
  unfolding put
  put-IsTable s held i k f t e =
      entry-IsTable s (put i f s) held i k t (λ j n. update_ne s.fd_array i f j n)
        (rw (update_self s.fd_array i f) e)

  pub acquire-IsEntry :
      (s : Files W) (i k : ℕ)
      → IsEntry k i (s.fd_array i)
      → (s.fd_array i).status ≡ opened
      → (f : File) × (fd_array_acquire i s ≡ some (put i f s))
        × IsEntry (suc k) i f
        × (f.status ≡ opened)
        × (f.position ≡ (s.fd_array i).position)
        × (f.node ≡ (s.fd_array i).node)
  unfolding fd_array_acquire
  acquire-IsEntry s i k e o = (
    record (s.fd_array i) { open_count = (s.fd_array i).open_count + 1 },
    ground arith,
    ground arith,
    ground arith,
    ground arith,
    ground arith,
  )

-- One call on entry `i` ends: `k` calls are left on it. The entry stays as it is while the
-- descriptor is open or other calls are in progress, and is freed with its inode otherwise.
pub record Released {W : Type 0} (v : Vfs W) (s : Files W) (held : ℕ → ℕ) (i k : ℕ)
    (run : Option (Files W)) : Type 0 where
  pub table : Files W
  pub result : run ≡ some table
  pub valid : IsTable table (update held i k)
  pub files_count : table.files_count ≡ s.files_count
  pub rest : (j : ℕ) → j ≢ i → table.fd_array j ≡ s.fd_array j
  pub position : (table.fd_array i).position ≡ (s.fd_array i).position
  pub still :
      (s.fd_array i).status ≡ opened
      → ((table.fd_array i).status ≡ opened) × (table.world ≡ s.world)
  pub freed :
      (s.fd_array i).status ≡ closed
      → k ≡ 0
      → ((table.fd_array i).status ≡ unused)
        × (table.world ≡ v.vfs_close (s.fd_array i).node s.world)

module _ {W : Type 0} (v : Vfs W) (s : Files W) (held : ℕ → ℕ) (i : ℕ) (t : IsTable s held) where
  -- A reference goes and others are left.
  release_more :
      (k : ℕ)
      → IsEntry (suc k) i (s.fd_array i)
      → ((s.fd_array i).status ≡ closed → k ≢ 0)
      → Released v s held i k (fd_array_release v i s)
  unfolding fd_array_release
  release_more k e more =
      let f : File = record (s.fd_array i) { open_count = (s.fd_array i).open_count - 1 } in
      record {
        table = put i f s;
        result = ground arith;
        valid = put-IsTable s held i k f t (ground arith);
        files_count = refl;
        rest = λ j n. update_ne s.fd_array i f j n;
        position = ap (λ (g : File). g.position) (update_self s.fd_array i f);
        still = λ o. (ap (λ (g : File). g.status) (update_self s.fd_array i f) ∙ o, refl);
        freed = λ c z. absurd (more c z);
      }

  -- The last reference goes: the entry is freed.
  release_last :
      IsEntry 1 i (s.fd_array i)
      → (s.fd_array i).status ≡ closed
      → Released v s held i 0 (fd_array_release v i s)
  unfolding fd_array_release
  release_last e c =
      let f : File = record (s.fd_array i) { open_count = (s.fd_array i).open_count - 1 } in
      let g : File = record f { status = unused } in
      let w = v.vfs_close (s.fd_array i).node s.world in
      let u = put i g (record (put i f s) { world = w }) in
      let rest : ((j : ℕ) → j ≢ i → u.fd_array j ≡ s.fd_array j) =
        λ j n. update_ne (update s.fd_array i f) i g j n ∙ update_ne s.fd_array i f j n in
      let self : (u.fd_array i ≡ g) = update_self (update s.fd_array i f) i g in
      record {
        table = u;
        result = ground arith;
        valid = entry-IsTable s u held i 0 t rest (rw self (ground arith));
        files_count = refl;
        rest = rest;
        position = ap (λ (x : File). x.position) self;
        still = λ o. cc;
        freed = λ c z. (ap (λ (x : File). x.status) self, refl);
      }

  pub release_lem :
      (k : ℕ) → IsEntry (suc k) i (s.fd_array i) → Released v s held i k (fd_array_release v i s)
  release_lem zero e = elim (held_cases i 0 (s.fd_array i) e) [
    | inl o ↦ release_more 0 e (λ c. cc)
    | inr c ↦ release_last e c
  ]
  release_lem (suc k) e = release_more (suc k) e (λ c. omega arith)
