-- ===== src/Libs/SkewHeap.antt =====
-- lab8/libs/skew_heap.h: the skew heap of intrusive nodes, on a store of nodes. An address is a
-- number and NULL is 0. `comp(a, b) == -1` is the argument `less`.
pub mod Tree
pub mod Step
pub mod Merge
pub mod Order
use nku_os_2025_lab.Prelude.{
  ℕ, zero, suc, Bool, true, false, Option, none, some, ◌==◌, if◌then◌else◌, update, ◌>>=◌,
}

-- `struct skew_heap_entry`, for all nodes at once.
pub record Nodes : Type 0 where
  pub parent : ℕ → ℕ
  pub left : ℕ → ℕ
  pub right : ℕ → ℕ

unfoldable pub skew_heap_init : ℕ → Nodes → Nodes
skew_heap_init a h = record {
  parent = update h.parent a 0;
  left = update h.left a 0;
  right = update h.right a 0;
}

-- `if (l) l->parent = a`
unfoldable pub set_parent : ℕ → ℕ → Nodes → Nodes
set_parent l a h = if l == 0 then h else record h { parent = update h.parent l a }

-- `a->left = l; a->right = r; if (l) l->parent = a`
unfoldable pub set_children : ℕ → ℕ → ℕ → Nodes → Nodes
unfolding set_parent
set_children a l r h =
    set_parent l a (record h { left = update h.left a l; right = update h.right a r })

-- The fuel bounds the depth of the recursion; `none` is its end.
module _ (less : ℕ → ℕ → Bool) where
  unfoldable pub skew_heap_merge : ℕ → ℕ → ℕ → Nodes → Option (ℕ × Nodes)
  skew_heap_merge zero a b h = none
  skew_heap_merge (suc fuel) a b h =
      let onto_a = skew_heap_merge fuel (h.right a) b h >>= λ (l, m).
      some (a, set_children a l (h.left a) m) in
      let onto_b = skew_heap_merge fuel a (h.right b) h >>= λ (l, m).
      some (b, set_children b l (h.left b) m) in
      if a == 0
      then some (b, h)
      else if b == 0
      then some (a, h)
      else if less a b
      then onto_a
      else onto_b

  unfoldable pub skew_heap_insert : ℕ → ℕ → ℕ → Nodes → Option (ℕ × Nodes)
  skew_heap_insert fuel a b h = skew_heap_merge fuel a b (skew_heap_init b h)

  -- `p->left = rep` or `p->right = rep`
  unfoldable pub replace_child : ℕ → ℕ → ℕ → Nodes → Nodes
  replace_child p b rep h =
      if h.left p == b
      then record h { left = update h.left p rep }
      else record h { right = update h.right p rep }

  unfoldable pub skew_heap_remove : ℕ → ℕ → ℕ → Nodes → Option (ℕ × Nodes)
  unfolding replace_child
  skew_heap_remove fuel a b h = do
    let p = h.parent b
    (rep, m) ← skew_heap_merge fuel (h.left b) (h.right b) h
    let w = set_parent rep p m
    some (if p == 0 then (rep, w) else (a, replace_child p b rep w))
