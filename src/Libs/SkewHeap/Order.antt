-- ===== src/Libs/SkewHeap/Order.antt =====
-- `skew_heap_merge` on heaps: the order, on the store of nodes.
use nku_os_2025_lab.Prelude.{
  ℕ, ◌+◌, ◌<◌, ◌≡◌, refl, ◌⊎◌, inl, inr, Bool, true, false, ◌++◌, some, NotIn, Distinct,
}
use mathlib.Core.List.{Perm}
use nku_os_2025_lab.Libs.SkewHeap.{Nodes, skew_heap_merge}
use nku_os_2025_lab.Libs.SkewHeap.Tree.{
  Tree, leaf, node, nodes, AllNodes, AllNodes-map, IsHeap, merge, nodes-merge, merge-IsHeap,
}
use nku_os_2025_lab.Libs.SkewHeap.Step.{root, IsTree, Same}
use nku_os_2025_lab.Libs.SkewHeap.Merge.{size, skew_heap_merge-Merges}

-- What merging two heaps of a store leaves: one heap of the nodes of both, with a least one on top.
pub record HeapMerged (less : ℕ → ℕ → Bool) (fuel : ℕ) (h : Nodes) (t u : Tree) : Type 0 where
  pub store : Nodes
  pub tree : Tree
  pub result : skew_heap_merge less fuel (root t) (root u) h ≡ some (root tree, store)
  pub linked : IsTree store tree
  pub heap : IsHeap less tree
  pub perm : Perm (nodes tree) (nodes t ++ nodes u)
  pub least : AllNodes (λ z. (z ≡ root tree) ⊎ (less z (root tree) ≡ false)) tree
  pub frame : (z : ℕ) → NotIn z (nodes t ++ nodes u) → Same store h z

root_first :
    (less : ℕ → ℕ → Bool) (t : Tree)
    → IsHeap less t
    → AllNodes (λ z. (z ≡ root t) ⊎ (less z (root t) ≡ false)) t
root_first less leaf h = tt
root_first less (node l x r) h =
    (inl refl, AllNodes-map l (λ z k. inr k) h.0, AllNodes-map r (λ z k. inr k) h.1)

module _ {ℓ} (less : ℕ → ℕ → Bool) (In : ℕ → Type ℓ)
    (trans : (x y z : ℕ)
      → In x
      → In y
      → In z
      → less y x ≡ false
      → less z y ≡ false
      → less z x ≡ false)
    (asym : (x y : ℕ) → In x → In y → less x y ≡ true → less y x ≡ false) where
  -- Where the comparison orders the nodes of two heaps of a store that have no node in common (its
  -- negation is transitive, and it is asymmetric), `skew_heap_merge` on their roots, with more fuel
  -- than they have nodes, leaves in the store one heap with the nodes of both and returns its root,
  -- which no node comes before. A node that is in neither stays as it is.
  pub skew_heap_merge-HeapMerged :
      (fuel : ℕ) (h : Nodes) (t u : Tree)
      → IsTree h t
      → IsTree h u
      → Distinct (nodes t ++ nodes u)
      → AllNodes In t
      → AllNodes In u
      → IsHeap less t
      → IsHeap less u
      → size t + size u < fuel
      → HeapMerged less fuel h t u
  skew_heap_merge-HeapMerged fuel h t u i j d a b p q f =
      let m = skew_heap_merge-Merges less fuel h t u i j d f in
      let heap = merge-IsHeap less In trans asym t u a b p q in
      record {
        store = m.store;
        tree = merge less t u;
        result = m.result;
        linked = m.linked;
        heap = heap;
        perm = nodes-merge less t u;
        least = root_first less (merge less t u) heap;
        frame = m.frame;
      }
