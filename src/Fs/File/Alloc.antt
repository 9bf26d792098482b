-- ===== src/Fs/File/Alloc.antt =====
-- The entry that a new descriptor gets: the first unused one, or the one that is asked for.
use nku_os_2025_lab.Prelude.{
  ℕ, zero, suc, ◌+◌, ◌<◌, ◌≤◌, ◌≡◌, ◌≢◌, refl, ap, subst, inl, inr, Option, none, some, lt→ltb,
  arith, ◌⊎◌, false,
}
use native.Mathlib.Decide.{ℕ_discrete, dec_lt}
use nku_os_2025_lab.Prelude.Int.{ℤ}
use nku_os_2025_lab.Fs.File.{
  File, Files, Status, unused, init, opened, closed, nentry, put, find_none, fd_array_alloc,
  take_entry, no_fd, is_none,
}
use nku_os_2025_lab.Fs.File.Table.{IsTable}
use nku_os_2025_lab.Libs.Errors.{e_max_open}

-- The first unused entry from `lo` to below `hi`, or that there is none.
abbrev pub IsFirst : (ℕ → File) → ℕ → ℕ → Option ℕ → Type 0
IsFirst a lo hi none = (j : ℕ) → lo ≤ j → j < hi → (a j).status ≢ unused
IsFirst a lo hi (some i) =
    (lo ≤ i)
    × (i < hi)
    × ((a i).status ≡ unused)
    × ((j : ℕ) → lo ≤ j → j < i → (a j).status ≢ unused)

step_none :
    (a : ℕ → File) (lo hi : ℕ) (o : Option ℕ)
    → (a lo).status ≢ unused
    → IsFirst a (lo + 1) hi o
    → IsFirst a lo hi o
step_none a lo hi none n f =
    λ j h k. elim (ℕ_discrete j lo) [ yes e ↦ rw e n | no d ↦ f j (omega arith) k ]
step_none a lo hi (some i) n f = (
  omega arith,
  f.1,
  f.2,
  λ j h k. elim (ℕ_discrete j lo) [ yes e ↦ rw e n | no d ↦ f.3 j (omega arith) k ],
)

status_cases : (x : Status) → (x ≡ unused) ⊎ ((is_none x ≡ false) × (x ≢ unused))
status_cases unused = inl refl
status_cases init = inr (refl, λ e. cc)
status_cases opened = inr (refl, λ e. cc)
status_cases closed = inr (refl, λ e. cc)

unused_cases : (f : File) → (f.status ≡ unused) ⊎ ((is_none f.status ≡ false) × (f.status ≢ unused))
unused_cases f = status_cases f.status

find_none-IsFirst : (left lo : ℕ) (a : ℕ → File) → IsFirst a lo (lo + left) (find_none left lo a)
unfolding find_none
find_none-IsFirst zero lo a = λ j h k. absurd (omega arith)
find_none-IsFirst (suc left) lo a = elim (unused_cases (a lo)) [
  | inl e ↦ rw e (omega arith, omega arith, e, λ j h k. absurd (omega arith))
  | inr e ↦ rw e.0 (
      subst (λ n. IsFirst a lo n (find_none left (lo + 1) a)) (omega arith)
        (step_none a lo (lo + 1 + left) (find_none left (lo + 1) a) e.1
          (find_none-IsFirst left (lo + 1) a)))
]

IsFirst-unique :
    (a : ℕ → File) (lo hi j : ℕ) (o : Option ℕ)
    → IsFirst a lo hi o
    → IsFirst a lo hi (some j)
    → o ≡ some j
IsFirst-unique a lo hi j none f g = absurd (f j g.0 g.1 g.2)
IsFirst-unique a lo hi j (some i) f g = elim (dec_lt i j) [
  | yes l ↦ absurd (g.3 i f.0 l f.2)
  | no n ↦ elim (dec_lt j i) [
    | yes l ↦ absurd (f.3 j g.0 l g.2)
    | no m ↦ let e : (i ≡ j) = omega arith in ap some e
  ]
]

IsFirst-none :
    (a : ℕ → File) (lo hi : ℕ) (o : Option ℕ) → IsFirst a lo hi o → IsFirst a lo hi none → o ≡ none
IsFirst-none a lo hi none f g = refl
IsFirst-none a lo hi (some i) f g = absurd (g i f.0 f.1 f.2)

-- The entry `j` that a request for the descriptor `fd` gets: the first one that is unused for
-- NO_FD, and otherwise the one that is asked for.
abbrev pub Picks : {W : Type 0} → Files W → ℤ → ℕ → Type 0
Picks s fd j =
    ((fd ≡ no_fd) × IsFirst s.fd_array 0 72 (some j))
    ⊎ ((fd ≡ ℤ.pos j) × (j < 72) × ((s.fd_array j).status ≡ unused))

-- The entry when it has been taken.
abbrev pub taken : File → File
taken f = record f { status = init; node = 0 }

module _ {W : Type 0} where
  pub Picks-unused :
      (s : Files W) (fd : ℤ) (j : ℕ)
      → Picks s fd j
      → (j < nentry) × ((s.fd_array j).status ≡ unused)
  Picks-unused s fd j (inl p) = (p.1.1, p.1.2)
  Picks-unused s fd j (inr p) = (p.1, p.2)

  take_entry_lem :
      (s : Files W) (held : ℕ → ℕ) (j : ℕ)
      → IsTable s held
      → j < nentry
      → (s.fd_array j).status ≡ unused
      → take_entry j s ≡ some ((0, j), put j (taken (s.fd_array j)) s)
  unfolding take_entry
  take_entry_lem s held j t h u = let e = t j h in ground arith

  pub alloc_picked :
      (s : Files W) (held : ℕ → ℕ) (fd : ℤ) (j : ℕ)
      → IsTable s held
      → 0 < s.files_count
      → Picks s fd j
      → fd_array_alloc fd s ≡ some ((0, j), put j (taken (s.fd_array j)) s)
  unfolding fd_array_alloc
  alloc_picked s held fd j t c (inl p) = rw p.0 (
      rw (lt→ltb 0 s.files_count c) (
        rw
          (IsFirst-unique s.fd_array 0 nentry j (find_none nentry 0 s.fd_array)
            (find_none-IsFirst nentry 0 s.fd_array) p.1)
          (take_entry_lem s held j t p.1.1 p.1.2)))
  alloc_picked s held fd j t c (inr p) = rw p.0 (
      rw (lt→ltb 0 s.files_count c)
        (rw (lt→ltb j nentry p.1) (rw p.2 (take_entry_lem s held j t p.1 p.2))))

  pub alloc_full :
      (s : Files W)
      → 0 < s.files_count
      → IsFirst s.fd_array 0 nentry none
      → fd_array_alloc no_fd s ≡ some ((e_max_open, 0), s)
  unfolding fd_array_alloc
  alloc_full s c p = rw (lt→ltb 0 s.files_count c) (
      rw (
        IsFirst-none s.fd_array 0 nentry (find_none nentry 0 s.fd_array)
          (find_none-IsFirst nentry 0 s.fd_array) p))
