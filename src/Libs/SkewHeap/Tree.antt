-- ===== src/Libs/SkewHeap/Tree.antt =====
-- Skew heaps as trees: the merge, its items and its order.
use nku_os_2025_lab.Prelude.{
  ℕ, suc, ◌+◌, ◌≡◌, sym, inl, inr, Bool, true, false, List, [], ◌∷◌, ◌++◌, subst, append-nil,
  append_assoc, Bool-cases,
}
use mathlib.Core.List.{Perm, perm_middle, perm_append_comm}
use mathlib.Core.List.Perm

pub data Tree : Type 0 where
  leaf : Tree
  node : Tree → ℕ → Tree → Tree

abbrev pub nodes : Tree → List ℕ
nodes leaf = []
nodes (node l x r) = x ∷ nodes l ++ nodes r

abbrev pub depth_bound : Tree → ℕ
depth_bound leaf = 0
depth_bound (node l x r) = suc (depth_bound l + depth_bound r)

abbrev pub AllNodes {ℓ} : (ℕ → Type ℓ) → Tree → Type ℓ
AllNodes P leaf = Unit
AllNodes P (node l x r) = P x × AllNodes P l × AllNodes P r

pub AllNodes-map {ℓ κ} :
    {P : ℕ → Type ℓ} {Q : ℕ → Type κ} (t : Tree)
    → ((x : ℕ) → P x → Q x)
    → AllNodes P t
    → AllNodes Q t
AllNodes-map leaf f h = tt
AllNodes-map (node l x r) f h = (f x h.0, AllNodes-map l f h.1, AllNodes-map r f h.2)

module _ (less : ℕ → ℕ → Bool) where
  unfoldable pub merge : Tree → Tree → Tree
  merge leaf u = u
  merge (node l x r) leaf = node l x r
  merge (node l x r) (node k y s) = elim (less x y) [
    | true ↦ node (merge r (node k y s)) x l
    | false ↦ node (merge (node l x r) s) y k
  ]

  pub merge_left :
      (l : Tree) (x : ℕ) (r m : Tree) (y : ℕ) (s : Tree)
      → less x y ≡ true
      → merge (node l x r) (node m y s) ≡ node (merge r (node m y s)) x l
  unfolding merge
  merge_left l x r m y s e = rw (e, merge)

  pub merge_right :
      (l : Tree) (x : ℕ) (r m : Tree) (y : ℕ) (s : Tree)
      → less x y ≡ false
      → merge (node l x r) (node m y s) ≡ node (merge (node l x r) s) y m
  unfolding merge
  merge_right l x r m y s e = rw (e, merge)

  pub AllNodes-merge {ℓ} :
      (P : ℕ → Type ℓ) (t u : Tree) → AllNodes P t → AllNodes P u → AllNodes P (merge t u)
  unfolding merge
  AllNodes-merge P leaf u h k = k
  AllNodes-merge P (node l x r) leaf h k = h
  AllNodes-merge P (node l x r) (node m y s) h k = elim (Bool-cases (less x y)) [
    | inl e ↦
        subst (AllNodes P) (sym (merge_left l x r m y s e))
          (h.0, AllNodes-merge P r (node m y s) h.2 k, h.1)
    | inr e ↦
        subst (AllNodes P) (sym (merge_right l x r m y s e))
          (k.0, AllNodes-merge P (node l x r) s h k.2, k.1)
  ]

  -- Merging neither loses nor adds an item.
  pub nodes-merge : (t u : Tree) → Perm (nodes (merge t u)) (nodes t ++ nodes u)
  unfolding merge
  nodes-merge leaf u = Perm.refl (nodes u)
  nodes-merge (node l x r) leaf =
      subst (Perm (nodes (node l x r))) (sym (append-nil (nodes (node l x r))))
        (Perm.refl (nodes (node l x r)))
  nodes-merge (node l x r) (node m y s) = elim (Bool-cases (less x y)) [
    | inl e ↦
        subst (λ w. Perm (nodes w) (nodes (node l x r) ++ nodes (node m y s)))
          (sym (merge_left l x r m y s e))
          (Perm.cons x (
            Perm.trans (Perm.append (nodes-merge r (node m y s)) (Perm.refl (nodes l))) (
              Perm.trans (perm_append_comm (nodes r ++ nodes (node m y s)) (nodes l)) (
                subst (Perm (nodes l ++ (nodes r ++ nodes (node m y s))))
                  (sym (append_assoc (nodes l) (nodes r) (nodes (node m y s)))) (Perm.refl _)))))
    | inr e ↦
        subst (λ w. Perm (nodes w) (nodes (node l x r) ++ nodes (node m y s)))
          (sym (merge_right l x r m y s e))
          (Perm.trans
            (Perm.cons y (
              Perm.trans (Perm.append (nodes-merge (node l x r) s) (Perm.refl (nodes m))) (
                subst (λ w. Perm w (nodes (node l x r) ++ (nodes m ++ nodes s)))
                  (sym (append_assoc (nodes (node l x r)) (nodes s) (nodes m)))
                  (Perm.append (Perm.refl (nodes (node l x r)))
                    (perm_append_comm (nodes s) (nodes m))))))
            (Perm.symm (perm_middle (nodes (node l x r)) (nodes m ++ nodes s))))
  ]

  -- Heap order: no item comes before the one above it.
  abbrev pub IsHeap : Tree → Type 0
  IsHeap leaf = Unit {0}
  IsHeap (node l x r) =
      AllNodes (λ y. less y x ≡ false) l × AllNodes (λ y. less y x ≡ false) r × IsHeap l × IsHeap r

  -- Merging two heaps gives a heap, where `less` orders their items.
  module _ {ℓ} (In : ℕ → Type ℓ)
      (trans : (x y z : ℕ)
        → In x
        → In y
        → In z
        → less y x ≡ false
        → less z y ≡ false
        → less z x ≡ false)
      (asym : (x y : ℕ) → In x → In y → less x y ≡ true → less y x ≡ false) where
    above :
        (x y : ℕ) (t : Tree)
        → In x
        → In y
        → less y x ≡ false
        → AllNodes In t
        → AllNodes (λ z. less z y ≡ false) t
        → AllNodes (λ z. less z x ≡ false) t
    above x y leaf i j e h k = tt
    above x y (node l z r) i j e h k =
        (trans x y z i j h.0 e k.0, above x y l i j e h.1 k.1, above x y r i j e h.2 k.2)

    -- Where `less` is an order on the items of two heaps (its negation is transitive, and it is
    -- asymmetric), merging them gives a heap.
    pub merge-IsHeap :
        (t u : Tree) → AllNodes In t → AllNodes In u → IsHeap t → IsHeap u → IsHeap (merge t u)
    unfolding merge
    merge-IsHeap leaf u i j h k = k
    merge-IsHeap (node l x r) leaf i j h k = h
    merge-IsHeap (node l x r) (node m y s) i j h k = elim (Bool-cases (less x y)) [
      | inl e ↦
          let back = asym x y i.0 j.0 e in
          subst IsHeap (sym (merge_left l x r m y s e)) (
            AllNodes-merge (λ z. less z x ≡ false) r (node m y s) h.1
                (back, above x y m i.0 j.0 back j.1 k.0, above x y s i.0 j.0 back j.2 k.1),
            h.0,
            merge-IsHeap r (node m y s) i.2 j h.3 k,
            h.2,
          )
      | inr e ↦ subst IsHeap (sym (merge_right l x r m y s e)) (
        AllNodes-merge (λ z. less z y ≡ false) (node l x r) s
            (e, above y x l j.0 i.0 e i.1 h.0, above y x r j.0 i.0 e i.2 h.1) k.1,
        k.0,
        merge-IsHeap (node l x r) s i j.2 h k.3,
        k.2,
      )
    ]
