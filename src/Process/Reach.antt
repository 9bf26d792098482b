-- ===== src/Process/Reach.antt =====
-- Some pid is free, and stepping from any pid leads to a free one.
use nku_os_2025_lab.Prelude.{
  ℕ, zero, suc, ◌+◌, ◌-◌, ◌≤◌, ◌<◌, ◌≡◌, ◌≢◌, sym, subst, ◌∙◌, ◌⊎◌, inl, inr, List, [], ◌∷◌, arith,
  NotIn, length, leb, if◌then◌else◌, ◌==◌, eq→==, ne→==,
}
use native.Mathlib.Decide.{ℕ_discrete, dec_le}
use nku_os_2025_lab.Process.{max_pid}

-- The next pid to try.
abbrev pub bump : ℕ → ℕ
bump last = if leb max_pid (last + 1) then 1 else last + 1

-- `k` steps from `last` at most lead to a pid that is not in use.
abbrev pub Reach : ℕ → ℕ → List ℕ → Type 0
Reach zero last pids = NotIn last pids
Reach (suc k) last pids = NotIn last pids ⊎ Reach k (bump last) pids

-- The list without `n`.
abbrev without : ℕ → List ℕ → List ℕ
without n [] = []
without n (x ∷ xs) = let rest = without n xs in if x == n then rest else x ∷ rest

without-length : (n : ℕ) (xs : List ℕ) → length (without n xs) ≤ length xs
without-length n [] = omega arith
without-length n (x ∷ xs) =
    let i = without-length n xs in
    elim (ℕ_discrete x n) [
      | yes e ↦ rw (eq→== x n e) (omega arith)
      | no e ↦ rw (ne→== x n e) (omega arith)
    ]

without-NotIn : (n w : ℕ) (xs : List ℕ) → n ≢ w → NotIn w (without n xs) → NotIn w xs
without-NotIn n w [] e h = tt
without-NotIn n w (x ∷ xs) e h = elim (ℕ_discrete x n) [
  | yes q ↦ (λ r. e (sym q ∙ r), without-NotIn n w xs e (rw (eq→== x n q) at h))
  | no q ↦
      let k : NotIn w (x ∷ without n xs) = rw (ne→== x n q) at h in
      (k.0, without-NotIn n w xs e k.1)
]

-- Either `n` is not there, or the list is shorter without it.
without-shorter : (n : ℕ) (xs : List ℕ) → NotIn n xs ⊎ (length (without n xs) < length xs)
without-shorter n [] = inl tt
without-shorter n (x ∷ xs) = elim (ℕ_discrete x n) [
  | yes e ↦ inr (let i = without-length n xs in rw (eq→== x n e) (omega arith))
  | no q ↦ elim (without-shorter n xs) [
    | inl k ↦ inl (q, k)
    | inr k ↦ inr (rw (ne→== x n q) (omega arith))
  ]
]

-- Fewer than `n` numbers leave one from 1 to `n` out.
pub left_out : (n : ℕ) (xs : List ℕ) → length xs < n → (w : ℕ) × (1 ≤ w) × (w ≤ n) × NotIn w xs
left_out zero xs h = absurd (omega arith)
left_out (suc n) xs h = elim (without-shorter (suc n) xs) [
  | inl k ↦ (suc n, omega arith, omega arith, k)
  | inr k ↦
      let r = left_out n (without (suc n) xs) (omega arith) in
      let l = r.1 in
      let u = r.2 in (r.0, l, omega arith, without-NotIn (suc n) r.0 xs (λ e. omega arith) r.3)
]

-- Up to a free pid.
climb : (k last : ℕ) (xs : List ℕ) → last + k < max_pid → NotIn (last + k) xs → Reach k last xs
climb zero last xs h n = subst (λ w. NotIn w xs) (omega arith) n
climb (suc k) last xs h n =
    let e : (bump last ≡ last + 1) = ground arith in
    inr (rw e (climb k (last + 1) xs (omega arith) (subst (λ w. NotIn w xs) (omega arith) n)))

-- Up to the last pid and from 1 on again.
around :
    (k w last : ℕ) (xs : List ℕ)
    → last + k + 1 ≡ max_pid
    → 1 + w < max_pid
    → NotIn (1 + w) xs
    → Reach (suc (k + w)) last xs
around zero w last xs h f n =
    let e : (bump last ≡ 1) = ground arith in
    let z : (0 + w ≡ w) = omega arith in inr (rw (e, z) (climb w 1 xs f n))
around (suc k) w last xs h f n =
    let e : (bump last ≡ last + 1) = ground arith in
    let z : (suc k + w ≡ suc (k + w)) = omega arith in
    inr (rw (e, z) (around k w (last + 1) xs (omega arith) f n))

-- The steps to a free pid, which are fewer than there are pids.
pub reaches :
    (last : ℕ) (xs : List ℕ)
    → 1 ≤ last
    → last < max_pid
    → length xs + 1 < max_pid
    → (k : ℕ) × (k < max_pid) × Reach k last xs
reaches last xs l u few =
    let r = left_out (max_pid - 1) xs (omega arith) in
    let w = r.0 in
    let r₁ = r.1 in
    let r₂ = r.2 in
    elim (dec_le last w) [
      | yes h ↦ (
        w - last,
        omega arith,
        climb (w - last) last xs (omega arith) (subst (λ y. NotIn y xs) (omega arith) r.3),
      )
      | no h ↦ (
        suc (max_pid - 1 - last + (w - 1)),
        omega arith,
        around (max_pid - 1 - last) (w - 1) last xs (omega arith) (omega arith)
            (subst (λ y. NotIn y xs) (omega arith) r.3),
      )
    ]
