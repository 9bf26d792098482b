-- ===== src/Libs/SkewHeap/Step.antt =====
-- Trees of nodes in the store, and one step of the merge on them.
use nku_os_2025_lab.Prelude.{
  ℕ, ◌≡◌, ◌≢◌, refl, sym, ◌∙◌, List, [], ◌∷◌, ◌++◌, arith, All, All-map, All-append_left,
  All-append_right, NotIn, Distinct, Perm, perm_append_comm, Distinct-perm, NotIn-perm, All-both,
}
use mathlib.Core.List.Perm
use nku_os_2025_lab.Libs.LinkedList.Distinct.{Distinct-append_left}
use nku_os_2025_lab.Libs.SkewHeap.{Nodes, set_children}
use nku_os_2025_lab.Libs.SkewHeap.Tree.{Tree, leaf, node, nodes}

-- The root of a tree as an address, NULL for none.
abbrev pub root : Tree → ℕ
root leaf = 0
root (node l x r) = x

-- The nodes below the root.
abbrev pub inner : Tree → List ℕ
inner leaf = []
inner (node l x r) = nodes l ++ nodes r

-- `p` is the parent of the root of the tree, if it has one.
abbrev pub HasParent : Nodes → ℕ → Tree → Type 0
HasParent h p leaf = Unit {0}
HasParent h p (node l x r) = h.parent x ≡ p

-- The nodes of the store reachable from the root of `t` are linked as `t`. The root's own `parent`
-- is left open.
abbrev pub IsTree : Nodes → Tree → Type 0
IsTree h leaf = Unit {0}
IsTree h (node l x r) =
    (x ≢ 0)
    × (h.left x ≡ root l)
    × (h.right x ≡ root r)
    × HasParent h x l
    × HasParent h x r
    × IsTree h l
    × IsTree h r

pub HasParent-agree :
    (h m : Nodes) (p : ℕ) (t : Tree)
    → All (λ x. m.parent x ≡ h.parent x) (nodes t)
    → HasParent h p t
    → HasParent m p t
HasParent-agree h m p leaf a b = tt
HasParent-agree h m p (node l x r) a b = a.0 ∙ b

pub All-inner {ℓ} : (P : ℕ → Type ℓ) (t : Tree) → All P (nodes t) → All P (inner t)
All-inner P leaf h = tt
All-inner P (node l x r) h = h.1

-- A tree reads the children of all its nodes and the parents of those below the root.
pub IsTree-agree :
    (h m : Nodes) (t : Tree)
    → All (λ x. m.left x ≡ h.left x) (nodes t)
    → All (λ x. m.right x ≡ h.right x) (nodes t)
    → All (λ x. m.parent x ≡ h.parent x) (inner t)
    → IsTree h t
    → IsTree m t
IsTree-agree h m leaf a b c d = tt
IsTree-agree h m (node l x r) a b c (e0, e1, e2, e3, e4, e5, e6) =
    let cl = All-append_left (λ x. m.parent x ≡ h.parent x) (nodes l) (nodes r) c in
    let cr = All-append_right (λ x. m.parent x ≡ h.parent x) (nodes l) (nodes r) c in
    (
      e0,
      a.0 ∙ e1,
      b.0 ∙ e2,
      HasParent-agree h m x l cl e3,
      HasParent-agree h m x r cr e4,
      IsTree-agree h m l (All-append_left _ (nodes l) (nodes r) a.1)
          (All-append_left _ (nodes l) (nodes r) b.1) (All-inner _ l cl) e5,
      IsTree-agree h m r (All-append_right _ (nodes l) (nodes r) a.1)
          (All-append_right _ (nodes l) (nodes r) b.1) (All-inner _ r cr) e6,
    )

-- One store agrees with another at an address.
abbrev pub Same : Nodes → Nodes → ℕ → Type 0
Same m h z = (m.left z ≡ h.left z) × (m.right z ≡ h.right z) × (m.parent z ≡ h.parent z)

pub Same-trans : (w m h : Nodes) (z : ℕ) → Same w m z → Same m h z → Same w h z
Same-trans w m h z a b = (a.0 ∙ b.0, a.1 ∙ b.1, a.2 ∙ b.2)

left-set_children : (x l r : ℕ) (h : Nodes) → (set_children x l r h).left x ≡ l
unfolding set_children
left-set_children x l r h = ground arith

right-set_children : (x l r : ℕ) (h : Nodes) → (set_children x l r h).right x ≡ r
unfolding set_children
right-set_children x l r h = ground arith

children-set_children_ne :
    (x l r : ℕ) (h : Nodes) (z : ℕ)
    → z ≢ x
    → ((set_children x l r h).left z ≡ h.left z) × ((set_children x l r h).right z ≡ h.right z)
unfolding set_children
children-set_children_ne x l r h z n = (ground arith, ground arith)

parent-set_children : (x l r : ℕ) (h : Nodes) → l ≢ 0 → (set_children x l r h).parent l ≡ x
unfolding set_children
parent-set_children x l r h n = ground arith

parent-set_children_ne :
    (x l r : ℕ) (h : Nodes) (z : ℕ) → (l ≢ 0 → z ≢ l) → (set_children x l r h).parent z ≡ h.parent z
unfolding set_children
parent-set_children_ne x l r h z n = ground arith

pub root_ne : (t : Tree) (z : ℕ) → NotIn z (nodes t) → root t ≢ 0 → z ≢ root t
root_ne leaf z h n e = n refl
root_ne (node l x r) z h n e = h.0 (sym e)

pub root-NotIn-inner : (t : Tree) → Distinct (nodes t) → NotIn (root t) (inner t)
root-NotIn-inner leaf d = tt
root-NotIn-inner (node l x r) d = d.0

HasParent-set_children :
    (x r : ℕ) (h : Nodes) (t : Tree) → IsTree h t → HasParent (set_children x (root t) r h) x t
HasParent-set_children x r h leaf i = tt
HasParent-set_children x r h (node k y s) i = parent-set_children x y r h i.0

pub Distinct-Apart : (xs ys : List ℕ) → Distinct (xs ++ ys) → All (λ z. NotIn z ys) xs
Distinct-Apart [] ys d = tt
Distinct-Apart (x ∷ xs) ys d = (All-append_right _ xs ys d.0, Distinct-Apart xs ys d.1)

-- One step of the merge: the node `x` keeps its left subtree as the right one, and gets the merged
-- rest as the left one.
module _ (h m : Nodes) (x : ℕ) (l mg : Tree) (q : List ℕ) (d : Distinct (x ∷ nodes l ++ q))
    (p : Perm (nodes mg) q) (same : (z : ℕ) → NotIn z q → Same m h z) (merged : IsTree m mg)
    (nonzero : x ≢ 0) (kept : IsTree h l) (parent : HasParent h x l) where
  after : Nodes
  after = set_children x (root mg) (root l) m

  after-Distinct : Distinct (x ∷ nodes mg ++ nodes l)
  after-Distinct =
      Distinct-perm
        (Perm.cons x (
          Perm.trans (perm_append_comm (nodes l) q)
            (Perm.append (Perm.symm p) (Perm.refl (nodes l)))))
        d

  x_not_mg : NotIn x (nodes mg)
  x_not_mg = All-append_left _ (nodes mg) (nodes l) after-Distinct.0

  x_not_q : NotIn x q
  x_not_q = All-append_right _ (nodes l) q d.0

  mg-Distinct : Distinct (nodes mg)
  mg-Distinct = Distinct-append_left (nodes mg) (nodes l) after-Distinct.1

  linked_mg : IsTree after mg
  unfolding after
  linked_mg =
      IsTree-agree m (set_children x (root mg) (root l) m) mg
        (All-map _ _ (nodes mg)
          (λ z (n : z ≢ x). (children-set_children_ne x (root mg) (root l) m z n).0) x_not_mg)
        (All-map _ _ (nodes mg)
          (λ z (n : z ≢ x). (children-set_children_ne x (root mg) (root l) m z n).1) x_not_mg)
        (All-map _ _ (inner mg)
          (λ z (n : z ≢ root mg). parent-set_children_ne x (root mg) (root l) m z (λ _. n))
          (root-NotIn-inner mg mg-Distinct))
        merged

  apart : All (λ z. NotIn z q) (nodes l)
  apart = Distinct-Apart (nodes l) q d.1

  x_not_l : NotIn x (nodes l)
  x_not_l = All-append_left _ (nodes l) q d.0

  -- Other nodes, seen from the store before the recursive call.
  elsewhere : (z : ℕ) → z ≢ x → NotIn z q → Same after h z
  unfolding after
  elsewhere z n k =
      let c = children-set_children_ne x (root mg) (root l) m z n in
      let s = same z k in
      (
        c.0 ∙ s.0,
        c.1 ∙ s.1,
        parent-set_children_ne x (root mg) (root l) m z
              (root_ne mg z (NotIn-perm z (Perm.symm p) k))
            ∙ s.2,
      )

  kept-Same : All (Same after h) (nodes l)
  kept-Same = All-both (nodes l) x_not_l apart elsewhere

  linked_l : IsTree after l
  linked_l =
      IsTree-agree h after l (All-map _ _ (nodes l) (λ z (s : Same after h z). s.0) kept-Same)
        (All-map _ _ (nodes l) (λ z (s : Same after h z). s.1) kept-Same)
        (All-inner _ l (All-map _ _ (nodes l) (λ z (s : Same after h z). s.2) kept-Same)) kept

  pub step-IsTree : IsTree (set_children x (root mg) (root l) m) (node mg x l)
  unfolding after
  step-IsTree = (
    nonzero,
    left-set_children x (root mg) (root l) m,
    right-set_children x (root mg) (root l) m,
    HasParent-set_children x (root l) m mg merged,
    HasParent-agree h (set_children x (root mg) (root l) m) x l
        (All-map _ _ (nodes l) (λ z (s : Same after h z). s.2) kept-Same) parent,
    linked_mg,
    linked_l,
  )

  pub step_parent : (set_children x (root mg) (root l) m).parent x ≡ h.parent x
  step_parent =
      parent-set_children_ne x (root mg) (root l) m x (root_ne mg x x_not_mg) ∙ (same x x_not_q).2

  pub step_frame :
      (z : ℕ) → NotIn z (x ∷ nodes l ++ q) → Same (set_children x (root mg) (root l) m) h z
  unfolding after
  step_frame z n = elsewhere z (λ e. n.0 (sym e)) (All-append_right _ (nodes l) q n.1)
