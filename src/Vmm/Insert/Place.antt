-- ===== src/Vmm/Insert/Place.antt =====
-- The place of a new area, and the tests for an overlap with its neighbours.
use nku_os_2025_lab.Prelude.{
  ℕ, zero, suc, ◌≤◌, ◌<◌, ◌≡◌, refl, ap, subst, ◌⊎◌, inl, inr, List, [], ◌∷◌, ◌++◌, append-nil,
  Option, none, some, arith, All, NotIn, last, last-ne, length, Bool-cases, eq→==, ne→==, ◌==◌, ltb,
  if◌then◌else◌, ltb→lt, ltb→le,
}
use nku_os_2025_lab.Libs.LinkedList.{Links}
use nku_os_2025_lab.Libs.LinkedList.Ring.{IsRing, IsChain, IsSeg-split_left, next-last}
use nku_os_2025_lab.Vmm.{Mm, check_vma_overlap, insert_place}
use nku_os_2025_lab.Vmm.Areas.{All-last, Ordered, end_of}

-- The areas have no address in common.
abbrev pub Apart : Mm → ℕ → ℕ → Type 0
Apart mm vma x = (mm.vm_end x ≤ mm.vm_start vma) ⊎ (mm.vm_end vma ≤ mm.vm_start x)

-- The entry behind the areas that were passed.
abbrev pub first : ℕ → List ℕ → ℕ
first head [] = head
first head (x ∷ xs) = x

-- The first of them starts behind `s`.
abbrev pub StartsBehind : (ℕ → ℕ) → ℕ → List ℕ → Type 0
StartsBehind start s [] = Unit {0}
StartsBehind start s (x ∷ xs) = s < start x

-- Where the loop stops.
pub record Placed (start : ℕ → ℕ) (s le : ℕ) (xs : List ℕ) (run : Option ℕ) : Type 0 where
  pub before : List ℕ
  pub behind : List ℕ
  pub split : xs ≡ before ++ behind
  pub result : run ≡ some (last le before)
  pub early : All (λ x. start x ≤ s) before
  pub late : StartsBehind start s behind

pub insert_place-Placed :
    (fuel le s : ℕ) (mm : Mm) (xs : List ℕ)
    → IsChain mm.links le xs mm.mmap_list
    → NotIn mm.mmap_list xs
    → length xs < fuel
    → Placed mm.vm_start s le xs (insert_place fuel le s mm)
unfolding insert_place
insert_place-Placed zero le s mm xs c n h = absurd (omega arith)
insert_place-Placed (suc fuel) le s mm [] c n h = record {
  before = [];
  behind = [];
  split = refl;
  result = rw c (rw (eq→== mm.mmap_list mm.mmap_list refl) refl);
  early = tt;
  late = tt;
}
insert_place-Placed (suc fuel) le s mm (x ∷ xs) c n h = rw c.0 (
    rw (ne→== x mm.mmap_list n.0) (elim (Bool-cases (ltb s (mm.vm_start x))) [
      | inl e ↦ rw e (record {
        before = [];
        behind = x ∷ xs;
        split = refl;
        result = refl;
        early = tt;
        late = ltb→lt s (mm.vm_start x) e;
      })
      | inr e ↦
          let p = insert_place-Placed fuel x s mm xs c.1 n.1 (omega arith) in
          rw e (record {
            before = x ∷ p.before;
            behind = p.behind;
            split = ap (λ w. x ∷ w) p.split;
            result = p.result;
            early = (ltb→le s (mm.vm_start x) e, p.early);
            late = p.late;
          })
    ]))

-- `check_vma_overlap` passes exactly when neither area is empty and the first ends before the
-- second.
overlap_passes :
    (a b : ℕ) (mm : Mm)
    → mm.vm_start a < mm.vm_end a
    → mm.vm_end a ≤ mm.vm_start b
    → mm.vm_start b < mm.vm_end b
    → check_vma_overlap a b mm ≡ some tt
unfolding check_vma_overlap
overlap_passes a b mm h k l = ground arith

overlap_fails : (a b : ℕ) (mm : Mm) → mm.vm_start b < mm.vm_end a → check_vma_overlap a b mm ≡ none
unfolding check_vma_overlap
overlap_fails a b mm h = elim (Bool-cases (ltb (mm.vm_start a) (mm.vm_end a))) [
  | inl e ↦ ground arith
  | inr e ↦ ground arith
]

end_of-last : (e : ℕ → ℕ) (lo x : ℕ) (xs : List ℕ) → end_of e lo (x ∷ xs) ≡ e (last x xs)
end_of-last e lo x [] = refl
end_of-last e lo x (y ∷ ys) = end_of-last e lo y ys

Ordered-filled : (s e : ℕ → ℕ) (lo : ℕ) (xs : List ℕ) → Ordered s e lo xs → All (λ x. s x < e x) xs
Ordered-filled s e lo [] o = tt
Ordered-filled s e lo (x ∷ xs) o = (o.1, Ordered-filled s e (e x) xs o.2)

pub next-gap :
    (l : Links) (head : ℕ) (before behind : List ℕ)
    → IsRing l head (before ++ behind)
    → l.next (last head before) ≡ first head behind
next-gap l head before [] r =
    next-last l head before head (subst (λ w. IsRing l head w) (append-nil before) r).seg
next-gap l head before (x ∷ xs) r =
    next-last l head before x (IsSeg-split_left l head before x xs head r.seg)

-- The two tests of `insert_behind`: each passes or an area overlaps.
module _ (mm : Mm) (vma : ℕ) (filled : mm.vm_start vma < mm.vm_end vma) where
  pub left_test :
      (before : List ℕ)
      → NotIn mm.mmap_list before
      → Ordered mm.vm_start mm.vm_end 0 before
      → All (λ x. mm.vm_start x ≤ mm.vm_start vma) before
      → let prev = last mm.mmap_list before in
        let test = if prev == mm.mmap_list then some tt else check_vma_overlap prev vma mm in
        ((test ≡ some tt) × (end_of mm.vm_end 0 before ≤ mm.vm_start vma))
        ⊎ ((test ≡ none) × ¬ All (Apart mm vma) before)
  left_test [] n o e = rw (eq→== mm.mmap_list mm.mmap_list refl) (inl (refl, omega arith))
  left_test (b ∷ bs) n o e =
      let p = last b bs in
      let at_end = end_of-last mm.vm_end 0 b bs in
      let full = Ordered-filled mm.vm_start mm.vm_end 0 (b ∷ bs) o in
      let full_p = All-last (λ x. mm.vm_start x < mm.vm_end x) b bs full.0 full.1 in
      let early_p = All-last (λ x. mm.vm_start x ≤ mm.vm_start vma) b bs e.0 e.1 in
      rw (ne→== p mm.mmap_list (last-ne mm.mmap_list b bs n.0 n.1))
        (elim (Bool-cases (ltb (mm.vm_start vma) (mm.vm_end p))) [
          | inl k ↦
              let l = ltb→lt (mm.vm_start vma) (mm.vm_end p) k in
              inr (
                overlap_fails p vma mm l,
                λ all. elim (All-last (Apart mm vma) b bs all.0 all.1) [
                  | inl q ↦ omega arith
                  | inr q ↦ omega arith
                ],
              )
          | inr k ↦
              let l = ltb→le (mm.vm_start vma) (mm.vm_end p) k in
              inl (overlap_passes p vma mm full_p l filled, omega (arith, l, at_end))
        ])

  pub right_test :
      (lo : ℕ) (behind : List ℕ)
      → NotIn mm.mmap_list behind
      → Ordered mm.vm_start mm.vm_end lo behind
      → StartsBehind mm.vm_start (mm.vm_start vma) behind
      → let next = first mm.mmap_list behind in
        let test = if next == mm.mmap_list then some tt else check_vma_overlap vma next mm in
        ((test ≡ some tt) × Ordered mm.vm_start mm.vm_end (mm.vm_end vma) behind)
        ⊎ ((test ≡ none) × ¬ All (Apart mm vma) behind)
  right_test lo [] n o e = rw (eq→== mm.mmap_list mm.mmap_list refl) (inl (refl, tt))
  right_test lo (y ∷ ys) n o e =
      rw (ne→== y mm.mmap_list n.0) (elim (Bool-cases (ltb (mm.vm_start y) (mm.vm_end vma))) [
        | inl k ↦
            let l = ltb→lt (mm.vm_start y) (mm.vm_end vma) k in
            let o₁ = o.1 in
            inr (
              overlap_fails vma y mm l,
              λ all. elim all.0 [ inl q ↦ omega arith | inr q ↦ omega arith ],
            )
        | inr k ↦
            let l = ltb→le (mm.vm_start y) (mm.vm_end vma) k in
            inl (overlap_passes vma y mm filled l o.1, (l, o.1, o.2))
      ])
