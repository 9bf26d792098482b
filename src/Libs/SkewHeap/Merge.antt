-- ===== src/Libs/SkewHeap/Merge.antt =====
-- `skew_heap_merge`, `_insert` and `_remove` on the store do what the merge of trees does.
use nku_os_2025_lab.Prelude.{
  ℕ, zero, suc, ◌+◌, ◌<◌, ◌≡◌, ◌≢◌, refl, sym, ap, subst, ◌∙◌, inl, inr, Bool, true, false, List,
  [], ◌∷◌, ◌++◌, some, arith, All, All-map, NotIn, Distinct, Perm, perm_append_comm, perm_middle,
  Distinct-perm, NotIn-perm, append_assoc, ne→==, Bool-cases, update, update_self, update_ne,
}
use mathlib.Core.List.Perm
use nku_os_2025_lab.Libs.LinkedList.Distinct.{Distinct-append_right}
use nku_os_2025_lab.Libs.SkewHeap.{
  Nodes, skew_heap_init, set_parent, set_children, skew_heap_merge, skew_heap_insert,
  skew_heap_remove,
}
use nku_os_2025_lab.Libs.SkewHeap.Tree.{
  Tree, leaf, node, nodes, merge, nodes-merge, merge_left, merge_right,
}
use nku_os_2025_lab.Libs.SkewHeap.Step.{
  root, HasParent, IsTree, Same, IsTree-agree, step-IsTree, step_parent, step_frame,
  HasParent-agree, All-inner,
}

abbrev pub size : Tree → ℕ
size leaf = 0
size (node l x r) = suc (size l + size r)

-- What merging the trees `t` and `u` of a store leaves.
pub record MergesTo (less : ℕ → ℕ → Bool) (fuel : ℕ) (h : Nodes) (t u v : Tree) : Type 0 where
  pub store : Nodes
  pub result : skew_heap_merge less fuel (root t) (root u) h ≡ some (root v, store)
  pub linked : IsTree store v
  pub frame : (z : ℕ) → NotIn z (nodes t ++ nodes u) → Same store h z
  pub root_parent : store.parent (root v) ≡ h.parent (root v)

abbrev pub Merges : (ℕ → ℕ → Bool) → ℕ → Nodes → Tree → Tree → Type 0
Merges less fuel h t u = MergesTo less fuel h t u (merge less t u)

regroup :
    (ts : List ℕ) (y : ℕ) (ks ss : List ℕ) → Perm (ts ++ (y ∷ (ks ++ ss))) (y ∷ (ks ++ (ts ++ ss)))
regroup ts y ks ss = Perm.trans (perm_middle ts (ks ++ ss)) (
    Perm.cons y (
      subst (λ w. Perm w (ks ++ (ts ++ ss))) (append_assoc ts ks ss)
        (subst (Perm ((ts ++ ks) ++ ss)) (append_assoc ks ts ss)
          (Perm.append (perm_append_comm ts ks) (Perm.refl ss)))))

module _ (less : ℕ → ℕ → Bool) where
  -- One call of `skew_heap_merge` at two nodes.
  merge_call_left :
      (fuel x y : ℕ) (h m : Nodes) (a : ℕ)
      → x ≢ 0
      → y ≢ 0
      → less x y ≡ true
      → skew_heap_merge less fuel (h.right x) y h ≡ some (a, m)
      → skew_heap_merge less (suc fuel) x y h ≡ some (x, set_children x a (h.left x) m)
  unfolding skew_heap_merge
  merge_call_left fuel x y h m a n k e r = rw (ne→== x 0 n) (rw (ne→== y 0 k) (rw e (rw r)))

  merge_call_right :
      (fuel x y : ℕ) (h m : Nodes) (a : ℕ)
      → x ≢ 0
      → y ≢ 0
      → less x y ≡ false
      → skew_heap_merge less fuel x (h.right y) h ≡ some (a, m)
      → skew_heap_merge less (suc fuel) x y h ≡ some (y, set_children y a (h.left y) m)
  unfolding skew_heap_merge
  merge_call_right fuel x y h m a n k e r = rw (ne→== x 0 n) (rw (ne→== y 0 k) (rw e (rw r)))

  -- Merging two disjoint trees of the store, with more fuel than they have nodes, returns their
  -- merge, links it, and writes to no other node.
  pub skew_heap_merge-Merges :
      (fuel : ℕ) (h : Nodes) (t u : Tree)
      → IsTree h t
      → IsTree h u
      → Distinct (nodes t ++ nodes u)
      → size t + size u < fuel
      → Merges less fuel h t u
  unfolding skew_heap_merge merge
  skew_heap_merge-Merges zero h t u i j d f = absurd (omega arith)
  skew_heap_merge-Merges (suc fuel) h leaf u i j d f = record {
    store = h;
    result = refl;
    linked = j;
    frame = λ z n. (refl, refl, refl);
    root_parent = refl;
  }
  skew_heap_merge-Merges (suc fuel) h (node l x r) leaf i j d f = record {
    store = h;
    result = rw (ne→== x 0 i.0);
    linked = i;
    frame = λ z n. (refl, refl, refl);
    root_parent = refl;
  }
  skew_heap_merge-Merges (suc fuel) h (node l x r) (node k y s) i j d f =
      elim (Bool-cases (less x y)) [
        | inl e ↦
            let q = nodes r ++ nodes (node k y s) in
            let shape : (nodes (node l x r) ++ nodes (node k y s)) ≡ x ∷ nodes l ++ q =
              ap (λ w. x ∷ w) (append_assoc (nodes l) (nodes r) (nodes (node k y s))) in
            let dq : Distinct (x ∷ nodes l ++ q) = subst Distinct shape d in
            let rec : Merges less fuel h r (node k y s) =
              skew_heap_merge-Merges fuel h r (node k y s) i.6 j
                (Distinct-append_right (nodes l) q dq.1) (omega arith) in
            let p = nodes-merge less r (node k y s) in
            subst (MergesTo less (suc fuel) h (node l x r) (node k y s))
              (sym (merge_left less l x r k y s e))
              (record {
                store = set_children x (root (merge less r (node k y s))) (root l) rec.store;
                result =
                    merge_call_left fuel x y h rec.store (root (merge less r (node k y s))) i.0 j.0
                      e (ap (λ w. skew_heap_merge less fuel w y h) i.2 ∙ rec.result)
                    ∙ ap
                        (λ w.
                          some (x, set_children x (root (merge less r (node k y s))) w rec.store))
                        i.1;
                linked =
                    step-IsTree h rec.store x l (merge less r (node k y s)) q dq p rec.frame
                      rec.linked i.0 i.5 i.3;
                frame = λ z n.
                    step_frame h rec.store x l (merge less r (node k y s)) q dq p rec.frame
                      rec.linked i.0 i.5 i.3 z (subst (NotIn z) shape n);
                root_parent =
                    step_parent h rec.store x l (merge less r (node k y s)) q dq p rec.frame
                      rec.linked i.0 i.5 i.3;
              })
        | inr e ↦
            let q = nodes (node l x r) ++ nodes s in
            let shape : Perm (nodes (node l x r) ++ nodes (node k y s)) (y ∷ nodes k ++ q) =
              regroup (nodes (node l x r)) y (nodes k) (nodes s) in
            let dq : Distinct (y ∷ nodes k ++ q) = Distinct-perm shape d in
            let rec : Merges less fuel h (node l x r) s =
              skew_heap_merge-Merges fuel h (node l x r) s i j.6
                (Distinct-append_right (nodes k) q dq.1) (omega arith) in
            let p = nodes-merge less (node l x r) s in
            subst (MergesTo less (suc fuel) h (node l x r) (node k y s))
              (sym (merge_right less l x r k y s e))
              (record {
                store = set_children y (root (merge less (node l x r) s)) (root k) rec.store;
                result =
                    merge_call_right fuel x y h rec.store (root (merge less (node l x r) s)) i.0 j.0
                      e (ap (λ w. skew_heap_merge less fuel x w h) j.2 ∙ rec.result)
                    ∙ ap
                        (λ w.
                          some (y, set_children y (root (merge less (node l x r) s)) w rec.store))
                        j.1;
                linked =
                    step-IsTree h rec.store y k (merge less (node l x r) s) q dq p rec.frame
                      rec.linked j.0 j.5 j.3;
                frame = λ z n.
                    step_frame h rec.store y k (merge less (node l x r) s) q dq p rec.frame
                      rec.linked j.0 j.5 j.3 z (NotIn-perm z shape n);
                root_parent =
                    step_parent h rec.store y k (merge less (node l x r) s) q dq p rec.frame
                      rec.linked j.0 j.5 j.3;
              })
      ]

All-refl : (f : ℕ → ℕ) (xs : List ℕ) → All (λ x. f x ≡ f x) xs
All-refl f [] = tt
All-refl f (x ∷ xs) = (refl, All-refl f xs)

-- A run pool: a tree of the store whose root has no parent.
pub record IsPool (h : Nodes) (t : Tree) : Type 0 where
  pub tree : IsTree h t
  pub top : HasParent h 0 t
  pub distinct : Distinct (nodes t)

module _ (less : ℕ → ℕ → Bool) where
  HasParent-merge :
      (h : Nodes) (p : ℕ) (t u : Tree)
      → HasParent h p t
      → HasParent h p u
      → HasParent h p (merge less t u)
  unfolding merge
  HasParent-merge h p leaf u a b = b
  HasParent-merge h p (node l x r) leaf a b = a
  HasParent-merge h p (node l x r) (node k y s) a b = elim (Bool-cases (less x y)) [
    | inl e ↦ subst (HasParent h p) (sym (merge_left less l x r k y s e)) a
    | inr e ↦ subst (HasParent h p) (sym (merge_right less l x r k y s e)) b
  ]

  HasParent-moved :
      (h m : Nodes) (p : ℕ) (v : Tree)
      → m.parent (root v) ≡ h.parent (root v)
      → HasParent h p v
      → HasParent m p v
  HasParent-moved h m p leaf e a = tt
  HasParent-moved h m p (node l x r) e a = e ∙ a

  -- What an insertion leaves.
  pub record Inserts (fuel : ℕ) (h : Nodes) (t : Tree) (b : ℕ) : Type 0 where
    pub store : Nodes
    pub result :
        skew_heap_insert less fuel (root t) b h
        ≡ some (root (merge less t (node leaf b leaf)), store)
    pub pool : IsPool store (merge less t (node leaf b leaf))

  init_ne : (b : ℕ) (h : Nodes) (z : ℕ) → z ≢ b → Same (skew_heap_init b h) h z
  unfolding skew_heap_init
  init_ne b h z n =
      (update_ne h.left b 0 z n, update_ne h.right b 0 z n, update_ne h.parent b 0 z n)

  init_self :
      (b : ℕ) (h : Nodes)
      → b ≢ 0
      → IsTree (skew_heap_init b h) (node leaf b leaf) × ((skew_heap_init b h).parent b ≡ 0)
  unfolding skew_heap_init
  init_self b h n = (
    (n, update_self h.left b 0, update_self h.right b 0, tt, tt, tt, tt),
    update_self h.parent b 0,
  )

  -- Inserting a new node into a pool, with more fuel than it then has nodes, merges the node with
  -- the tree and leaves a pool.
  pub skew_heap_insert-Inserts :
      (fuel : ℕ) (h : Nodes) (t : Tree) (b : ℕ)
      → IsPool h t
      → NotIn b (nodes t)
      → b ≢ 0
      → size t + 1 < fuel
      → Inserts fuel h t b
  unfolding skew_heap_insert
  skew_heap_insert-Inserts fuel h t b v fresh n f =
      let same : All (Same (skew_heap_init b h) h) (nodes t) =
        All-map _ _ (nodes t) (λ z (k : z ≢ b). init_ne b h z k) fresh in
      let kept : IsTree (skew_heap_init b h) t =
        IsTree-agree h (skew_heap_init b h) t
          (All-map _ _ (nodes t) (λ z (s : Same (skew_heap_init b h) h z). s.0) same)
          (All-map _ _ (nodes t) (λ z (s : Same (skew_heap_init b h) h z). s.1) same)
          (All-inner _ t
            (All-map _ _ (nodes t) (λ z (s : Same (skew_heap_init b h) h z). s.2) same))
          v.tree in
      let top : HasParent (skew_heap_init b h) 0 t =
        HasParent-agree h (skew_heap_init b h) 0 t
          (All-map _ _ (nodes t) (λ z (s : Same (skew_heap_init b h) h z). s.2) same) v.top in
      let single = init_self b h n in
      let d : Distinct (nodes t ++ b ∷ []) =
        Distinct-perm (perm_append_comm (b ∷ []) (nodes t)) (fresh, v.distinct) in
      let m : Merges less fuel (skew_heap_init b h) t (node leaf b leaf) =
        skew_heap_merge-Merges less fuel (skew_heap_init b h) t (node leaf b leaf) kept single.0 d
          (omega arith) in
      record {
        store = m.store;
        result = m.result;
        pool = record {
          tree = m.linked;
          top =
              HasParent-moved (skew_heap_init b h) m.store 0 (merge less t (node leaf b leaf))
                m.root_parent
                (HasParent-merge (skew_heap_init b h) 0 t (node leaf b leaf) top single.1);
          distinct = Distinct-perm (Perm.symm (nodes-merge less t (node leaf b leaf))) d;
        };
      }

  pub record Removes (fuel : ℕ) (h : Nodes) (l : Tree) (x : ℕ) (r : Tree) : Type 0 where
    pub store : Nodes
    pub result : skew_heap_remove less fuel x x h ≡ some (root (merge less l r), store)
    pub pool : IsPool store (merge less l r)

  parent_of_root :
      (p : ℕ) (h : Nodes) (t : Tree) → IsTree h t → HasParent (set_parent (root t) p h) p t
  unfolding set_parent
  parent_of_root p h leaf i = tt
  parent_of_root p h (node l x r) i = ground (arith, i.0)

  set_parent_nonzero :
      (x p : ℕ) (h : Nodes) → x ≢ 0 → set_parent x p h ≡ record h { parent = update h.parent x p }
  unfolding set_parent
  set_parent_nonzero x p h n = rw (ne→== x 0 n)

  set_parent-tree :
      (p : ℕ) (h : Nodes) (t : Tree)
      → Distinct (nodes t)
      → IsTree h t
      → IsTree (set_parent (root t) p h) t
  set_parent-tree p h leaf d i = tt
  set_parent-tree p h (node l x r) d i =
      subst (λ w. IsTree w (node l x r)) (sym (set_parent_nonzero x p h i.0))
        (IsTree-agree h (record h { parent = update h.parent x p }) (node l x r)
          (All-refl h.left (nodes (node l x r))) (All-refl h.right (nodes (node l x r)))
          (All-map _ _ (nodes l ++ nodes r) (λ z (n : z ≢ x). update_ne h.parent x p z n) d.0) i)

  -- Removing the root of a pool, with more fuel than the two subtrees have nodes, leaves the merge
  -- of the subtrees, as a pool.
  pub skew_heap_remove-Removes :
      (fuel : ℕ) (h : Nodes) (l : Tree) (x : ℕ) (r : Tree)
      → IsPool h (node l x r)
      → size l + size r < fuel
      → Removes fuel h l x r
  unfolding skew_heap_remove
  skew_heap_remove-Removes fuel h l x r v f =
      let i = v.tree in
      let m : Merges less fuel h l r =
        skew_heap_merge-Merges less fuel h l r i.5 i.6 v.distinct.1 f in
      let d : Distinct (nodes (merge less l r)) =
        Distinct-perm (Perm.symm (nodes-merge less l r)) v.distinct.1 in
      record {
        store = set_parent (root (merge less l r)) 0 m.store;
        result = rw i.1 (rw i.2 (rw m.result (rw v.top)));
        pool = record {
          tree = set_parent-tree 0 m.store (merge less l r) d m.linked;
          top = parent_of_root 0 m.store (merge less l r) m.linked;
          distinct = d;
        };
      }
