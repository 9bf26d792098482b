-- ===== src/Tests/Heaps.antt =====
-- Skew heaps over the nodes 1 and 2, ordered by address.
use nku_os_2025_lab.Prelude.{ℕ, ◌≡◌, refl, true, false, arith, ◌==◌, if◌then◌else◌, ltb}
use nku_os_2025_lab.Libs.SkewHeap.{Nodes}
use nku_os_2025_lab.Libs.SkewHeap.Tree.{Tree, leaf, node}
use nku_os_2025_lab.Libs.SkewHeap.Order.{HeapMerged, skew_heap_merge-HeapMerged}
use nku_os_2025_lab.Libs.SkewHeap.Merge.{
  Merges, IsPool, Removes, skew_heap_merge-Merges, skew_heap_remove-Removes,
}

abbrev bare : Nodes
bare = record { parent = λ x. 0; left = λ x. 0; right = λ x. 0 }

abbrev single : ℕ → Tree
single x = node leaf x leaf

-- 1 with 2 on its left.
abbrev pair : Nodes
pair = record {
  parent = λ x. if x == 2 then 1 else 0;
  left = λ x. if x == 1 then 2 else 0;
  right = λ x. 0;
}

pair-IsPool : IsPool pair (node (single 2) 1 leaf)
pair-IsPool = record {
  tree = ((λ e. cc), refl, refl, refl, tt, ((λ e. cc), refl, refl, tt, tt, tt, tt), tt);
  top = refl;
  distinct = omega arith;
}

skew_heap_merge-Merges_example : Merges ltb 3 bare (single 1) (single 2)
skew_heap_merge-Merges_example =
    skew_heap_merge-Merges ltb 3 bare (single 1) (single 2) ((λ e. cc), refl, refl, tt, tt, tt, tt)
      ((λ e. cc), refl, refl, tt, tt, tt, tt) (omega arith) (omega arith)

skew_heap_remove-Removes_example : Removes ltb 4 pair (single 2) 1 leaf
skew_heap_remove-Removes_example =
    skew_heap_remove-Removes ltb 4 pair (single 2) 1 leaf pair-IsPool (omega arith)

ltb-not_trans :
    (x y z : ℕ)
    → Unit {0}
    → Unit {0}
    → Unit {0}
    → ltb y x ≡ false
    → ltb z y ≡ false
    → ltb z x ≡ false
ltb-not_trans x y z i j k h g = ground arith

ltb-asym : (x y : ℕ) → Unit {0} → Unit {0} → ltb x y ≡ true → ltb y x ≡ false
ltb-asym x y i j h = ground arith

skew_heap_merge-HeapMerged_example : HeapMerged ltb 3 bare (single 2) (single 1)
skew_heap_merge-HeapMerged_example =
    skew_heap_merge-HeapMerged ltb (λ x. Unit {0}) ltb-not_trans ltb-asym 3 bare (single 2)
      (single 1) ((λ e. cc), refl, refl, tt, tt, tt, tt) ((λ e. cc), refl, refl, tt, tt, tt, tt)
      (omega arith) (tt, tt, tt) (tt, tt, tt) (tt, tt, tt, tt) (tt, tt, tt, tt) (omega arith)
