-- ===== src/Vmm/Areas.antt =====
-- The well-formed address spaces of vmm.c: their areas, in order of the addresses.
use nku_os_2025_lab.Prelude.{
  ℕ, ◌%◌, ◌^◌, ◌≤◌, ◌<◌, ◌≡◌, ◌≢◌, sym, ap, ◌∙◌, ◌⊎◌, inl, inr, List, [], ◌∷◌, ◌++◌, arith, All,
  All-map, Among, Among-All, last, length,
}
use nku_os_2025_lab.Libs.LinkedList.Ring.{IsRing}
use nku_os_2025_lab.Vmm.{Mm}

pub All-last : (P : ℕ → Type 0) (x : ℕ) (xs : List ℕ) → P x → All P xs → P (last x xs)
All-last P x [] h k = h
All-last P x (y ∷ ys) h k = All-last P y ys k.0 k.1

-- The areas are not empty, lie at `lo` or above, and each lies behind the one before it.
abbrev pub Ordered : (ℕ → ℕ) → (ℕ → ℕ) → ℕ → List ℕ → Type 0
Ordered s e lo [] = Unit {0}
Ordered s e lo (x ∷ xs) = (lo ≤ s x) × (s x < e x) × Ordered s e (e x) xs

-- The end of the last area, or `lo`.
abbrev pub end_of : (ℕ → ℕ) → ℕ → List ℕ → ℕ
end_of e lo [] = lo
end_of e lo (x ∷ xs) = end_of e (e x) xs

-- The address space of the areas `xs`, which `map_count` counts; the cache holds one of them or
-- NULL.
pub record IsMm (mm : Mm) (xs : List ℕ) : Type 0 where
  pub ring : IsRing mm.links mm.mmap_list xs
  pub ordered : Ordered mm.vm_start mm.vm_end 0 xs
  pub count : mm.map_count ≡ length xs % 2 ^ 32
  pub present : All (λ x. x ≢ 0) xs
  pub cache : (mm.mmap_cache ≡ 0) ⊎ Among mm.mmap_cache xs

-- `addr` lies in the area.
abbrev pub Covers : Mm → ℕ → ℕ → Type 0
Covers mm addr x = (mm.vm_start x ≤ addr) × (addr < mm.vm_end x)

abbrev pub with_cache : ℕ → Mm → Mm
with_cache vma mm = record mm { mmap_cache = vma }

pub with_cache-IsMm :
    (vma : ℕ) (mm : Mm) (xs : List ℕ) → IsMm mm xs → Among vma xs → IsMm (with_cache vma mm) xs
with_cache-IsMm vma mm xs v i = record {
  ring = v.ring;
  ordered = v.ordered;
  count = v.count;
  present = v.present;
  cache = inr i;
}

module _ (s e : ℕ → ℕ) where
  pub Ordered-above : (lo : ℕ) (xs : List ℕ) → Ordered s e lo xs → All (λ x. lo ≤ s x) xs
  Ordered-above lo [] o = tt
  Ordered-above lo (x ∷ xs) o = (
    o.0,
    All-map _ _ xs (λ y (h : e x ≤ s y). omega (arith, h, o.0, o.1)) (Ordered-above (e x) xs o.2),
  )

  end_of-above : (lo : ℕ) (xs : List ℕ) → Ordered s e lo xs → lo ≤ end_of e lo xs
  end_of-above lo [] o = omega arith
  end_of-above lo (x ∷ xs) o = omega (arith, o.0, o.1, end_of-above (e x) xs o.2)

  pub Ordered-below :
      (lo : ℕ) (xs : List ℕ) → Ordered s e lo xs → All (λ x. e x ≤ end_of e lo xs) xs
  Ordered-below lo [] o = tt
  Ordered-below lo (x ∷ xs) o = (end_of-above (e x) xs o.2, Ordered-below (e x) xs o.2)

  pub Ordered-left : (lo : ℕ) (xs ys : List ℕ) → Ordered s e lo (xs ++ ys) → Ordered s e lo xs
  Ordered-left lo [] ys o = tt
  Ordered-left lo (x ∷ xs) ys o = (o.0, o.1, Ordered-left (e x) xs ys o.2)

  pub Ordered-right :
      (lo : ℕ) (xs ys : List ℕ) → Ordered s e lo (xs ++ ys) → Ordered s e (end_of e lo xs) ys
  Ordered-right lo [] ys o = o
  Ordered-right lo (x ∷ xs) ys o = Ordered-right (e x) xs ys o.2

  pub Ordered-join :
      (lo : ℕ) (xs ys : List ℕ)
      → Ordered s e lo xs
      → Ordered s e (end_of e lo xs) ys
      → Ordered s e lo (xs ++ ys)
  Ordered-join lo [] ys o p = p
  Ordered-join lo (x ∷ xs) ys o p = (o.0, o.1, Ordered-join (e x) xs ys o.2 p)

  -- An address lies in one area at most.
  pub covers_one :
      (lo a x y : ℕ) (xs : List ℕ)
      → Ordered s e lo xs
      → Among x xs
      → Among y xs
      → s x ≤ a
      → a < e x
      → s y ≤ a
      → a < e y
      → x ≡ y
  covers_one lo a x y [] o i j h k m n = absurd i
  covers_one lo a x y (z ∷ zs) o i j h k m n = elim i [
    | inl p ↦ elim j [
      | inl q ↦ p ∙ sym q
      | inr t ↦
          let b = Among-All (λ w. e z ≤ s w) y zs t (Ordered-above (e z) zs o.2) in
          let q = ap e p in absurd (omega (arith, b, k, m, q))
    ]
    | inr t ↦ elim j [
      | inl q ↦
          let b = Among-All (λ w. e z ≤ s w) x zs t (Ordered-above (e z) zs o.2) in
          let r = ap e q in absurd (omega (arith, b, h, n, r))
      | inr u ↦ covers_one (e z) a x y zs o.2 t u h k m n
    ]
  ]
