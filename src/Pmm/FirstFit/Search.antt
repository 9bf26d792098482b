-- ===== src/Pmm/FirstFit/Search.antt =====
-- The search of `default_alloc_pages` finds the first block that is large enough.
use nku_os_2025_lab.Prelude.{
  ℕ, zero, suc, ◌≤◌, ◌<◌, ◌≡◌, ap, inl, inr, List, [], ◌∷◌, ◌++◌, Option, none, some, arith, All,
  NotIn, length, leb, if◌then◌else◌, eq→==, ne→==, Bool-cases,
}
use nku_os_2025_lab.Libs.LinkedList.{Links}
use nku_os_2025_lab.Libs.LinkedList.Ring.{IsChain}
use nku_os_2025_lab.Pmm.Page.{Page}
use nku_os_2025_lab.Pmm.FirstFit.{find_loop}

-- The first of the pages `xs` whose block holds `n` pages.
abbrev pub find_fit : ℕ → (ℕ → Page) → List ℕ → Option ℕ
find_fit n m [] = none
find_fit n m (x ∷ xs) = if leb n (m x).property then some x else find_fit n m xs

-- Fuel above the length of the list is enough.
pub find_loop-eq-find_fit :
    (fuel head n : ℕ) (m : ℕ → Page) (l : Links) (le : ℕ) (xs : List ℕ)
    → length xs < fuel
    → IsChain l le xs head
    → NotIn head xs
    → find_loop fuel head n m l le ≡ some (find_fit n m xs)
unfolding find_loop
find_loop-eq-find_fit zero head n m l le xs h c d = absurd (omega arith)
find_loop-eq-find_fit (suc fuel) head n m l le [] h c d = rw (eq→== (l.next le) head c)
find_loop-eq-find_fit (suc fuel) head n m l le (x ∷ xs) h c d =
    rw (c.0, ne→== x head d.0)
      (elim (Bool-cases (leb n (m x).property)) [
        | inl e ↦ rw e
        | inr e ↦ rw e (find_loop-eq-find_fit fuel head n m l x xs (omega arith) c.1 d.1)
      ])

-- The place of the block that was found.
pub record Found (n : ℕ) (m : ℕ → Page) (xs : List ℕ) (x : ℕ) : Type 0 where
  pub before : List ℕ
  pub behind : List ℕ
  pub place : xs ≡ before ++ x ∷ behind
  pub fits : n ≤ (m x).property
  pub first : All (λ y. (m y).property < n) before

pub find_fit-Found :
    (n : ℕ) (m : ℕ → Page) (xs : List ℕ) {x : ℕ} → find_fit n m xs ≡ some x → Found n m xs x
find_fit-Found n m [] h = absurd (ground arith)
find_fit-Found n m (y ∷ ys) {x} h = elim (Bool-cases (leb n (m y).property)) [
  | inl e ↦
      let q : y ≡ x = ground arith in
      record {
        before = [];
        behind = ys;
        place = ap (λ w. w ∷ ys) q;
        fits = rw (← q) (ground arith);
        first = tt;
      }
  | inr e ↦
      let f : Found n m ys x = find_fit-Found n m ys (rw e at h) in
      record {
        before = y ∷ f.before;
        behind = f.behind;
        place = ap (λ w. y ∷ w) f.place;
        fits = f.fits;
        first = (ground arith, f.first);
      }
]

pub find_fit-none :
    (n : ℕ) (m : ℕ → Page) (xs : List ℕ) → find_fit n m xs ≡ none → All (λ y. (m y).property < n) xs
find_fit-none n m [] h = tt
find_fit-none n m (y ∷ ys) h = elim (Bool-cases (leb n (m y).property)) [
  | inl e ↦ absurd (ground arith)
  | inr e ↦ (ground arith, find_fit-none n m ys (rw e at h))
]
