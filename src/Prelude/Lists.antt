-- ===== src/Prelude/Lists.antt =====
-- Lists measured by native numbers, and the predicate `All`.
use Prim.Native.Nat.{ℕ, suc, ◌+◌}
use mathlib.Core.Path.{◌≡◌, refl, sym, subst}
use mathlib.Core.Logic.{◌≢◌, ◌⊎◌, inl, inr}
use mathlib.Core.List.{List, [], ◌∷◌, ◌++◌}
use native.Mathlib.Omega.{arith}

module _ {ℓ} {A : Type ℓ} where
  abbrev pub length : List A → ℕ
  length [] = 0
  length (x ∷ xs) = suc (length xs)

  pub length-append : (xs ys : List A) → length (xs ++ ys) ≡ length xs + length ys
  length-append [] ys = omega arith
  length-append (x ∷ xs) ys = omega (arith, length-append xs ys)

  abbrev pub All {κ} : (A → Type κ) → List A → Type κ
  All P [] = Unit
  All P (x ∷ xs) = P x × All P xs

  pub All-append {κ} : (P : A → Type κ) (xs ys : List A) → All P xs → All P ys → All P (xs ++ ys)
  All-append P [] ys hx hy = hy
  All-append P (x ∷ xs) ys hx hy = (hx.0, All-append P xs ys hx.1 hy)

  pub All-append_left {κ} : (P : A → Type κ) (xs ys : List A) → All P (xs ++ ys) → All P xs
  All-append_left P [] ys h = tt
  All-append_left P (x ∷ xs) ys h = (h.0, All-append_left P xs ys h.1)

  pub All-append_right {κ} : (P : A → Type κ) (xs ys : List A) → All P (xs ++ ys) → All P ys
  All-append_right P [] ys h = h
  All-append_right P (x ∷ xs) ys h = All-append_right P xs ys h.1

  pub All-map {κ η} :
      (P : A → Type κ) (Q : A → Type η) (xs : List A) → ((x : A) → P x → Q x) → All P xs → All Q xs
  All-map P Q [] f h = tt
  All-map P Q (x ∷ xs) f h = (f x h.0, All-map P Q xs f h.1)

  pub All-both {κ η θ} :
      {P : A → Type κ} {Q : A → Type η} {R : A → Type θ} (xs : List A)
      → All P xs
      → All Q xs
      → ((x : A) → P x → Q x → R x)
      → All R xs
  All-both [] h k f = tt
  All-both (x ∷ xs) h k f = (f x h.0 k.0, All-both xs h.1 k.1 f)

  -- The last item of `a ∷ xs`.
  abbrev pub last : A → List A → A
  last a [] = a
  last a (x ∷ xs) = last x xs

  pub last-append : (a : A) (xs : List A) (y : A) → last a (xs ++ y ∷ []) ≡ y
  last-append a [] y = refl
  last-append a (x ∷ xs) y = last-append x xs y

-- `e` is not among `xs`.
abbrev pub NotIn : ℕ → List ℕ → Type 0
NotIn e xs = All (λ x. x ≢ e) xs

pub last-ne : (e a : ℕ) (xs : List ℕ) → a ≢ e → NotIn e xs → last a xs ≢ e
last-ne e a [] h k = h
last-ne e a (x ∷ xs) h k = last-ne e x xs k.0 k.1

abbrev pub Distinct : List ℕ → Type 0
Distinct [] = Unit {0}
Distinct (x ∷ xs) = NotIn x xs × Distinct xs

-- `x` is one of `xs`.
abbrev pub Among : ℕ → List ℕ → Type 0
Among x [] = ⊥
Among x (y ∷ ys) = (x ≡ y) ⊎ Among x ys

pub Among-All {κ} : (P : ℕ → Type κ) (x : ℕ) (xs : List ℕ) → Among x xs → All P xs → P x
Among-All P x [] i h = absurd i
Among-All P x (y ∷ ys) i h = elim i [ inl e ↦ subst P (sym e) h.0 | inr j ↦ Among-All P x ys j h.1 ]
