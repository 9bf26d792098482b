-- ===== src/Vmm/Check/Access.antt =====
-- What an area permits, what the code tests of it, and how many areas are left.
use nku_os_2025_lab.Prelude.{
  Among, ℕ, ◌+◌, ◌%◌, ◌≤◌, ◌<◌, ◌≡◌, refl, ap, ◌⊎◌, inl, inr, Bool, true, false, not, ◌&&◌, List,
  [], ◌∷◌, arith, All, length, ltb, if◌then◌else◌, ltb→lt, ltb→le,
}
use nku_os_2025_lab.Vmm.{Mm, page_size, word_mod, user_top, has_read, has_write, has_stack, allows}
use nku_os_2025_lab.Vmm.Areas.{Covers}

-- The area `x` lets the user access the address `a`: it holds the address, permits the kind of
-- access, and, for a write to a stack, the address is not in the lowest page.
abbrev pub Permits : Mm → Bool → ℕ → ℕ → Type 0
Permits mm write a x =
    Covers mm a x
    × ((if write then has_write (mm.vm_flags x) else has_read (mm.vm_flags x)) ≡ true)
    × (((write && has_stack (mm.vm_flags x)) ≡ false) ⊎ (mm.vm_start x + page_size ≤ a))

pub All-of : (P : ℕ → Type 0) (xs : List ℕ) → ((x : ℕ) → Among x xs → P x) → All P xs
All-of P [] f = tt
All-of P (x ∷ xs) f = (f x (inl refl), All-of P xs (λ y i. f y (inr i)))

-- The tests of the code, with the bits of the flags for themselves.
pass_bits :
    (write flag stack below : Bool)
    → (flag && not (write && (stack && below))) ≡ true
    → (flag ≡ true) × (((write && stack) ≡ false) ⊎ (below ≡ false))
pass_bits write false stack below h = absurd (cc)
pass_bits false true stack below h = (refl, inl refl)
pass_bits true true false below h = (refl, inl refl)
pass_bits true true true false h = (refl, inr refl)
pass_bits true true true true h = absurd (cc)

refuse_bits :
    (write flag stack below : Bool)
    → (flag && not (write && (stack && below))) ≡ false
    → (flag ≡ false) ⊎ (((write && stack) ≡ true) × (below ≡ true))
refuse_bits write false stack below h = inl refl
refuse_bits false true stack below h = absurd (cc)
refuse_bits true true false below h = absurd (cc)
refuse_bits true true true false h = absurd (cc)
refuse_bits true true true true h = inr (refl, refl)

module _ (mm : Mm) (write : Bool) (x s : ℕ) where
  -- An area that the code accepts at `s` permits every address of it from `s` on.
  pub allows→Permits :
      (a : ℕ)
      → allows write x s mm ≡ true
      → Covers mm s x
      → s < user_top
      → s ≤ a
      → a < mm.vm_end x
      → Permits mm write a x
  unfolding allows
  allows→Permits a h c t l u =
      let k = pass_bits write _ (has_stack (mm.vm_flags x)) _ h in
      (
        (omega (arith, c.0, l), u),
        k.0,
        elim k.1 [
          | inl e ↦ inl e
          | inr e ↦
              let b = ltb→le s ((mm.vm_start x + page_size) % word_mod) e in
              let c₀ = c.0 in inr (omega arith)
        ],
      )

  pub refuses→not_Permits : allows write x s mm ≡ false → ¬ Permits mm write s x
  unfolding allows
  refuses→not_Permits h p = elim (refuse_bits write _ (has_stack (mm.vm_flags x)) _ h) [
    | inl e ↦ absurd (let q = p.1 in cc)
    | inr e ↦ elim p.2 [
      | inl q ↦ absurd (let r = e.0 in cc)
      | inr q ↦
          absurd (let b = ltb→lt s ((mm.vm_start x + page_size) % word_mod) e.1 in omega arith)
    ]
  ]

-- The number of areas that end behind `s`, which bounds the rounds of the loop.
abbrev pub beyond : (ℕ → ℕ) → ℕ → List ℕ → ℕ
beyond e s [] = 0
beyond e s (x ∷ xs) = (if ltb s (e x) then 1 else 0) + beyond e s xs

beyond-le : (e : ℕ → ℕ) (s t : ℕ) (xs : List ℕ) → s ≤ t → beyond e t xs ≤ beyond e s xs
beyond-le e s t [] h = omega arith
beyond-le e s t (x ∷ xs) h = let i = beyond-le e s t xs h in ground arith

pub beyond-length : (e : ℕ → ℕ) (s : ℕ) (xs : List ℕ) → beyond e s xs ≤ length xs
beyond-length e s [] = omega arith
beyond-length e s (x ∷ xs) = let i = beyond-length e s xs in ground arith

pub beyond-lt :
    (e : ℕ → ℕ) (s x : ℕ) (xs : List ℕ) → Among x xs → s < e x → beyond e (e x) xs < beyond e s xs
beyond-lt e s x [] i h = absurd i
beyond-lt e s x (y ∷ ys) i h = elim i [
  | inl q ↦ let r = ap e q in let k = beyond-le e s (e x) ys (omega (arith, h)) in ground arith
  | inr j ↦ let k = beyond-lt e s x ys j h in ground arith
]
