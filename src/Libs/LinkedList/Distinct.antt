-- ===== src/Libs/LinkedList/Distinct.antt =====
-- Sequences of distinct addresses.
use nku_os_2025_lab.Prelude.{
  ℕ, sym, ◌≢◌, List, [], ◌∷◌, ◌++◌, NotIn, Distinct, last, All-append, All-append_left,
  All-append_right, last-ne,
}

pub Distinct-append_left : (xs ys : List ℕ) → Distinct (xs ++ ys) → Distinct xs
Distinct-append_left [] ys d = tt
Distinct-append_left (x ∷ xs) ys d =
    (All-append_left (λ z. z ≢ x) xs ys d.0, Distinct-append_left xs ys d.1)

pub Distinct-append_right : (xs ys : List ℕ) → Distinct (xs ++ ys) → Distinct ys
Distinct-append_right [] ys d = d
Distinct-append_right (x ∷ xs) ys d = Distinct-append_right xs ys d.1

pub NotIn-before : (xs : List ℕ) (y : ℕ) (ys : List ℕ) → Distinct (xs ++ y ∷ ys) → NotIn y xs
NotIn-before [] y ys d = tt
NotIn-before (x ∷ xs) y ys d =
    (λ e. (All-append_right (λ z. z ≢ x) xs (y ∷ ys) d.0).0 (sym e), NotIn-before xs y ys d.1)

pub NotIn-after : (xs : List ℕ) (y : ℕ) (ys : List ℕ) → Distinct (xs ++ y ∷ ys) → NotIn y ys
NotIn-after xs y ys d = (Distinct-append_right xs (y ∷ ys) d).0

pub last-NotIn : (a : ℕ) (xs ys : List ℕ) → Distinct (a ∷ xs ++ ys) → NotIn (last a xs) ys
last-NotIn a [] ys d = d.0
last-NotIn a (x ∷ xs) ys d = last-NotIn x xs ys d.1

pub last-ne_head : (a x : ℕ) (xs : List ℕ) → Distinct (a ∷ x ∷ xs) → a ≢ last x xs
last-ne_head a x xs d e = last-ne a x xs d.0.0 d.0.1 (sym e)

pub Distinct-insert :
    (e : ℕ) (xs ys : List ℕ)
    → Distinct (xs ++ ys)
    → NotIn e xs
    → NotIn e ys
    → Distinct (xs ++ e ∷ ys)
Distinct-insert e [] ys d h k = (k, d)
Distinct-insert e (x ∷ xs) ys d h k = (
  All-append (λ z. z ≢ x) xs (e ∷ ys) (All-append_left (λ z. z ≢ x) xs ys d.0)
      (λ q. h.0 (sym q), All-append_right (λ z. z ≢ x) xs ys d.0),
  Distinct-insert e xs ys d.1 h.1 k,
)

pub Distinct-remove :
    (xs : List ℕ) (y : ℕ) (ys : List ℕ) → Distinct (xs ++ y ∷ ys) → Distinct (xs ++ ys)
Distinct-remove [] y ys d = d.1
Distinct-remove (x ∷ xs) y ys d = (
  All-append (λ z. z ≢ x) xs ys (All-append_left (λ z. z ≢ x) xs (y ∷ ys) d.0)
      (All-append_right (λ z. z ≢ x) xs (y ∷ ys) d.0).1,
  Distinct-remove xs y ys d.1,
)
