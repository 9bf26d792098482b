-- ===== src/Fs/File/Close.antt =====
-- Closing a descriptor: the entry goes once no call is in progress on it.
use nku_os_2025_lab.Prelude.{
  ℕ, ◌-◌, ◌<◌, ◌≤◌, ◌≡◌, ◌≢◌, refl, ◌∙◌, ap, inl, inr, Option, none, some, false, arith, update,
  update_self, update_ne, ◌⊎◌,
}
use mathlib.Core.Option
use native.Mathlib.Decide.{ℕ_discrete, dec_lt}
use nku_os_2025_lab.Prelude.Int.{ℤ}
use nku_os_2025_lab.Fs.File.{
  File, Files, Vfs, unused, opened, closed, is_opened, nentry, put, fd_array_close, fd2file,
}
use nku_os_2025_lab.Fs.File.Calls.{file_close}
use nku_os_2025_lab.Fs.File.Table.{IsTable, same-IsTable}
use nku_os_2025_lab.Fs.File.Transfer.{Keeps, fd2file_opened, fd2file_behind}
use nku_os_2025_lab.Libs.Errors.{e_inval}

-- What closing the open descriptor `i` leaves.
pub record Closed {W : Type 0} (v : Vfs W) (s : Files W) (held : ℕ → ℕ) (i : ℕ)
    (run : Option (Files W)) : Type 0 where
  pub table : Files W
  pub result : run ≡ some table
  pub valid : IsTable table held
  pub files_count : table.files_count ≡ s.files_count
  pub rest : (j : ℕ) → j ≢ i → table.fd_array j ≡ s.fd_array j
  pub outcome :
      ((held i ≢ 0) × ((table.fd_array i).status ≡ closed) × (table.world ≡ s.world))
      ⊎ ((held i ≡ 0)
          × ((table.fd_array i).status ≡ unused)
          × (table.world ≡ v.vfs_close (s.fd_array i).node s.world))

module _ {W : Type 0} (v : Vfs W) (s : Files W) (held : ℕ → ℕ) (i : ℕ) (t : IsTable s held)
    (h : i < 72) (o : (s.fd_array i).status ≡ opened) where
  close_used : held i ≢ 0 → Closed v s held i (fd_array_close v i s)
  unfolding fd_array_close
  close_used n =
      let f : File = record (s.fd_array i) {
        status = closed;
        open_count = (s.fd_array i).open_count - 1;
      } in
      let e = t i h in
      let self : ((put i f s).fd_array i ≡ f) = update_self s.fd_array i f in
      record {
        table = put i f s;
        result = ground arith;
        valid =
            same-IsTable s (put i f s) held i t (λ j n. update_ne s.fd_array i f j n)
              (rw self (ground arith));
        files_count = refl;
        rest = λ j n. update_ne s.fd_array i f j n;
        outcome = inl (n, ap (λ (x : File). x.status) self, refl);
      }

  close_last : held i ≡ 0 → Closed v s held i (fd_array_close v i s)
  unfolding fd_array_close
  close_last z =
      let f : File = record (s.fd_array i) {
        status = closed;
        open_count = (s.fd_array i).open_count - 1;
      } in
      let g : File = record f { status = unused } in
      let e = t i h in
      let u = put i g (record (put i f s) { world = v.vfs_close (s.fd_array i).node s.world }) in
      let self : (u.fd_array i ≡ g) = update_self (update s.fd_array i f) i g in
      let rest : ((j : ℕ) → j ≢ i → u.fd_array j ≡ s.fd_array j) =
        λ j n. update_ne (update s.fd_array i f) i g j n ∙ update_ne s.fd_array i f j n in
      record {
        table = u;
        result = ground arith;
        valid = same-IsTable s u held i t rest (rw self (ground arith));
        files_count = refl;
        rest = rest;
        outcome = inr (z, ap (λ (x : File). x.status) self, refl);
      }

  pub fd_array_close-Closed : Closed v s held i (fd_array_close v i s)
  fd_array_close-Closed = elim (ℕ_discrete (held i) 0) [
    | yes z ↦ close_last z
    | no n ↦ close_used n
  ]

  -- Closing an open descriptor below 72 passes the assertions and returns 0. While calls are in
  -- progress on the entry it is only marked closed; otherwise it is freed and its inode is closed.
  -- The other entries and the counts of calls stay as they are. Closing a descriptor from 72 on
  -- returns E_INVAL, and nothing changes.
  pub file_close-Closed :
      (behind : ℕ)
      → 72 ≤ behind
      → 0 < s.files_count
      → Closed v s held i (Option.map (λ r. r.1) (file_close v (ℤ.pos i) s))
        × (Option.map (λ r. r.0) (file_close v (ℤ.pos i) s) ≡ some 0)
        × (file_close v (ℤ.pos behind) s ≡ some (e_inval, s))
  unfolding file_close
  file_close-Closed behind b c =
      let r = fd_array_close-Closed in
      rw (fd2file_opened s held i t h c o, fd2file_behind s behind b)
        (rw r.result (
          record {
            table = r.table;
            result = refl;
            valid = r.valid;
            files_count = r.files_count;
            rest = r.rest;
            outcome = r.outcome;
          },
          refl,
          refl,
        ))

pub opened_cases : (f : File) → (f.status ≡ opened) ⊎ (is_opened f.status ≡ false)
opened_cases f = ground arith

fd2file_cases :
    {W : Type 0} (s : Files W) (fd : ℤ)
    → ((i : ℕ) × (fd ≡ ℤ.pos i)
        × (i < nentry)
        × (0 < s.files_count)
        × ((s.fd_array i).status ≡ opened))
      ⊎ (fd2file fd s ≡ some (e_inval, 0))
      ⊎ (fd2file fd s ≡ none)
unfolding fd2file
fd2file_cases s (ℤ.pos n) = elim (dec_lt n nentry) [
  | no b ↦ inr (inl (ground arith))
  | yes b ↦ elim (dec_lt 0 s.files_count) [
    | no d ↦ inr (inr (ground arith))
    | yes d ↦ elim (opened_cases (s.fd_array n)) [
      | inl o ↦ inl (n, refl, b, d, o)
      | inr o ↦ inr (inl (ground arith))
    ]
  ]
]
fd2file_cases s (ℤ.negsuc n) = inr (inl refl)

-- What another thread that closes `fd` does to the table.
pub closing : {W : Type 0} → Vfs W → ℤ → Files W → Files W
closing v fd s = elim (file_close v fd s) [ none ↦ s | some (ret, t) ↦ t ]

closing-IsTable :
    {W : Type 0} (v : Vfs W) (fd : ℤ) (s : Files W) (held : ℕ → ℕ)
    → IsTable s held
    → IsTable (closing v fd s) held
unfolding closing file_close
closing-IsTable v fd s held t = elim (fd2file_cases s fd) [
  | inl (i, e, h, c, o) ↦
      let r = fd_array_close-Closed v s held i t h o in
      let q : (closing v (ℤ.pos i) s ≡ r.table) =
        rw (fd2file_opened s held i t h c o, closing) (rw r.result) in
      rw e (rw q r.valid)
  | inr (inl e) ↦ let q : (closing v fd s ≡ s) = rw (e, closing) in rw q t
  | inr (inr e) ↦ let q : (closing v fd s ≡ s) = rw (e, closing) in rw q t
]

-- Another thread that closes a descriptor, this one too, leaves a call its reference.
pub closing-Keeps : {W : Type 0} (v : Vfs W) (fd : ℤ) (i : ℕ) → Keeps i (closing v fd)
closing-Keeps v fd i s held k e t = record {
  held = held;
  left = k;
  mine = e;
  valid = closing-IsTable v fd s held t;
}
