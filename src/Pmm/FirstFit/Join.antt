-- ===== src/Pmm/FirstFit/Join.antt =====
-- Joining a free block with the one just behind it, and the two merges of `default_free_pages`.
use nku_os_2025_lab.Prelude.{
  ℕ, ◌+◌, ◌≤◌, ◌<◌, ◌≡◌, ◌≢◌, refl, sym, ap, subst, ap₂, ◌∙◌, ◌⊎◌, inl, inr, Bool, true, false,
  List, [], ◌∷◌, ◌++◌, arith, All, All-map, ◌==◌, if◌then◌else◌, eq→==, ne→==, ==→eq, append_assoc,
  Bool-cases, All-append_right,
}
use nku_os_2025_lab.Libs.LinkedList.Ring.{IsRing, IsSeg-split_right}
use nku_os_2025_lab.Libs.LinkedList.Remove.{IsRing-list_del}
use nku_os_2025_lab.Pmm.Page.{FreeArea, uint_mod, clear_page_property, put_property}
use nku_os_2025_lab.Pmm.FreeList.{
  Block, IsArea, IsBlocks, IsBlocks-agree, IsBlocks-append, IsBlocks-split_left,
  IsBlocks-split_right, view, view-agree, view-append, total, total-append, heads-above,
  heads-below, IsBlocks-le,
}
use nku_os_2025_lab.Pmm.FirstFit.{join_blocks, merge_prev, merge_next}

-- Two sequences of blocks put together: where the last block of one ends at the first of the
-- other, these two become one.
abbrev pub glue : List Block → List Block → List Block
glue [] cs = cs
glue ((x, k) ∷ []) [] = (x, k) ∷ []
glue ((x, k) ∷ []) ((y, n) ∷ cs) = if x + k == y then (x, k + n) ∷ cs else (x, k) ∷ (y, n) ∷ cs
glue (b ∷ c ∷ bs) cs = b ∷ glue (c ∷ bs) cs

pub glue-last :
    (bs : List Block) (x k : ℕ) (cs : List Block)
    → glue (bs ++ (x, k) ∷ []) cs ≡ bs ++ glue ((x, k) ∷ []) cs
glue-last [] x k cs = refl
glue-last (b ∷ []) x k cs = refl
glue-last (b ∷ c ∷ bs) x k cs = ap (λ r. b ∷ r) (glue-last (c ∷ bs) x k cs)

join_page_other :
    (p q : ℕ) (a : FreeArea) (y : ℕ) → y ≢ p → y ≢ q → (join_blocks p q a).page y ≡ a.page y
unfolding join_blocks clear_page_property put_property
join_page_other p q a y h k = ground arith

join_page_self :
    (p q : ℕ) (a : FreeArea)
    → p ≢ q
    → (a.page p).property + (a.page q).property < uint_mod
    → (((join_blocks p q a).page p).property ≡ (a.page p).property + (a.page q).property)
      × (((join_blocks p q a).page p).is_head ≡ (a.page p).is_head)
unfolding join_blocks clear_page_property put_property
join_page_self p q a h k = (ground arith, ground arith)

-- What joining leaves.
pub record Joins (a : FreeArea) (ys : List ℕ) (p q : ℕ) (zs : List ℕ) : Type 0 where
  pub valid : IsArea (join_blocks p q a) (ys ++ p ∷ zs)
  pub size : ((join_blocks p q a).page p).property ≡ (a.page p).property + (a.page q).property
  pub before : view (join_blocks p q a).page ys ≡ view a.page ys
  pub behind : view (join_blocks p q a).page zs ≡ view a.page zs

module _ (a : FreeArea) (ys : List ℕ) (p q : ℕ) (zs : List ℕ) (v : IsArea a (ys ++ p ∷ q ∷ zs))
    (touch : p + (a.page p).property ≡ q) where
  left : IsBlocks a.page 0 ys p
  left = IsBlocks-split_left a.page 0 ys p (q ∷ zs) a.npage v.blocks

  right : IsBlocks a.page p (p ∷ q ∷ zs) a.npage
  right = IsBlocks-split_right a.page 0 ys p (q ∷ zs) a.npage v.blocks

  ends : q + (a.page q).property ≤ a.npage
  ends = IsBlocks-le a.page (q + (a.page q).property) zs a.npage right.3.3

  self :
      (((join_blocks p q a).page p).property ≡ (a.page p).property + (a.page q).property)
      × (((join_blocks p q a).page p).is_head ≡ (a.page p).is_head)
  self =
      let s = v.small in
      let r = right.1 in join_page_self p q a (λ e. omega arith) (omega (arith, ends))

  agree_left : All (λ y. (join_blocks p q a).page y ≡ a.page y) ys
  agree_left =
      let r = right.1 in
      All-map _ _ ys
        (λ y (h : y < p). join_page_other p q a y (λ e. omega arith) (λ e. omega arith))
        (heads-below a.page 0 ys p left)

  agree_right : All (λ y. (join_blocks p q a).page y ≡ a.page y) zs
  agree_right =
      let r = right.1 in
      let s = right.3.1 in
      All-map _ _ zs
        (λ y (h : q + (a.page q).property ≤ y).
          join_page_other p q a y (λ e. omega arith) (λ e. omega arith))
        (heads-above a.page (q + (a.page q).property) zs a.npage right.3.3)

  view_left : view (join_blocks p q a).page ys ≡ view a.page ys
  view_left = view-agree a.page (join_blocks p q a).page ys agree_left

  view_right : view (join_blocks p q a).page zs ≡ view a.page zs
  view_right = view-agree a.page (join_blocks p q a).page zs agree_right

  ring : IsRing (join_blocks p q a).links a.npage (ys ++ p ∷ zs)
  unfolding join_blocks
  ring = subst (IsRing _ a.npage) (append_assoc ys (p ∷ []) zs) (
      IsRing-list_del (ys ++ p ∷ []) q zs
        (subst (IsRing a.links a.npage) (sym (append_assoc ys (p ∷ []) (q ∷ zs))) v.ring))

  blocks : IsBlocks (join_blocks p q a).page 0 (ys ++ p ∷ zs) a.npage
  blocks =
      IsBlocks-append (join_blocks p q a).page 0 p ys (p ∷ zs) a.npage
        (IsBlocks-agree a.page (join_blocks p q a).page 0 ys p agree_left left)
        (
          omega arith,
          let r = right.1 in omega (arith, self.0),
          self.1 ∙ right.2,
          subst (λ w. IsBlocks (join_blocks p q a).page w zs a.npage)
              (let s : q + (a.page q).property ≡ p + ((join_blocks p q a).page p).property =
                  omega (arith, self.0) in
                s)
              (IsBlocks-agree a.page (join_blocks p q a).page (q + (a.page q).property) zs a.npage
                agree_right right.3.3),
        )

  counted : a.nr_free ≡ total (view (join_blocks p q a).page (ys ++ p ∷ zs))
  counted =
      let c = v.count in
      omega (
        arith,
        self.0,
        ap total (view-append a.page ys (p ∷ q ∷ zs)),
        total-append (view a.page ys) (view a.page (p ∷ q ∷ zs)),
        ap total (view-append (join_blocks p q a).page ys (p ∷ zs)),
        total-append (view (join_blocks p q a).page ys) (view (join_blocks p q a).page (p ∷ zs)),
        ap total view_left,
        ap total view_right,
      )

  pub join_blocks-Joins : Joins a ys p q zs
  unfolding join_blocks
  join_blocks-Joins = record {
    valid = record { ring = ring; blocks = blocks; count = counted; small = v.small };
    size = self.0;
    before = view_left;
    behind = view_right;
  }

-- The block `x` merged with the one behind it, if it touches.
pub record MergesNext (a : FreeArea) (ys : List ℕ) (x : ℕ) (zs : List ℕ) : Type 0 where
  pub heads : List ℕ
  pub valid : IsArea (merge_next x a) heads
  pub blocks :
      view (merge_next x a).page heads
      ≡ view a.page ys ++ glue ((x, (a.page x).property) ∷ []) (view a.page zs)

pub merge_next-MergesNext :
    (a : FreeArea) (ys : List ℕ) (x : ℕ) (zs : List ℕ)
    → IsArea a (ys ++ x ∷ zs)
    → MergesNext a ys x zs
unfolding merge_next
merge_next-MergesNext a ys x [] v =
    let s = IsSeg-split_right a.links a.npage ys x [] a.npage v.ring.seg in
    record {
      heads = ys ++ x ∷ [];
      valid = rw (eq→== (a.links.next x) a.npage s.0, merge_next) v;
      blocks = rw (eq→== (a.links.next x) a.npage s.0) (view-append a.page ys (x ∷ []));
    }
merge_next-MergesNext a ys x (q ∷ zs) v =
    let s = IsSeg-split_right a.links a.npage ys x (q ∷ zs) a.npage v.ring.seg in
    let apart : q ≢ a.npage =
      (All-append_right (λ z. z ≢ a.npage) ys (x ∷ q ∷ zs) v.ring.distinct.0).1.0 in
    let step : (b : Bool)
        → ((x + (a.page x).property == q) ≡ b)
        → merge_next x a ≡ (if b then join_blocks x q a else a) =
      λ b e. rw s.0 (rw (ne→== q a.npage apart) (rw e)) in
    elim (Bool-cases (x + (a.page x).property == q)) [
      | inl e ↦
          let j : Joins a ys x q zs =
            join_blocks-Joins a ys x q zs v (==→eq (x + (a.page x).property) q e) in
          let is = step true e in
          record {
            heads = ys ++ x ∷ zs;
            valid = subst (λ w. IsArea w (ys ++ x ∷ zs)) (sym is) j.valid;
            blocks =
                ap (λ w. view w.page (ys ++ x ∷ zs)) is
                ∙ view-append (join_blocks x q a).page ys (x ∷ zs)
                ∙ ap₂ ◌++◌ j.before (rw e (ap₂ (λ k r. (x, k) ∷ r) j.size j.behind));
          }
      | inr e ↦
          let is = step false e in
          record {
            heads = ys ++ x ∷ q ∷ zs;
            valid = subst (λ w. IsArea w (ys ++ x ∷ q ∷ zs)) (sym is) v;
            blocks =
                ap (λ w. view w.page (ys ++ x ∷ q ∷ zs)) is
                ∙ view-append a.page ys (x ∷ q ∷ zs)
                ∙ ap (◌++◌ (view a.page ys)) (rw e);
          }
    ]

-- The block `x` merged with the one before it, if it touches.
pub record MergesPrev (a : FreeArea) (ys : List ℕ) (x : ℕ) (zs : List ℕ) : Type 0 where
  pub head : ℕ
  pub area : FreeArea
  pub heads : List ℕ
  pub result : merge_prev x a ≡ (head, area)
  pub valid : IsArea area (heads ++ head ∷ zs)
  pub blocks :
      view area.page heads ++ (head, (area.page head).property) ∷ []
      ≡ glue (view a.page ys) ((x, (a.page x).property) ∷ [])
  pub behind : view area.page zs ≡ view a.page zs

merge_prev_first : (a : FreeArea) (x : ℕ) (zs : List ℕ) → IsArea a (x ∷ zs) → MergesPrev a [] x zs
unfolding merge_prev
merge_prev_first a x zs v = record {
  head = x;
  area = a;
  heads = [];
  result = rw (eq→== (a.links.prev x) a.npage v.ring.seg.1);
  valid = v;
  blocks = refl;
  behind = refl;
}

merge_prev_last :
    (a : FreeArea) (us : List ℕ) (p x : ℕ) (zs : List ℕ)
    → IsArea a (us ++ p ∷ x ∷ zs)
    → MergesPrev a (us ++ p ∷ []) x zs
unfolding merge_prev
merge_prev_last a us p x zs v =
    let s = IsSeg-split_right a.links a.npage us p (x ∷ zs) a.npage v.ring.seg in
    let apart : p ≢ a.npage =
      (All-append_right (λ z. z ≢ a.npage) us (p ∷ x ∷ zs) v.ring.distinct.0).0 in
    let glued : (ns : List Block)
        → glue (view a.page (us ++ p ∷ [])) ns
          ≡ view a.page us ++ glue ((p, (a.page p).property) ∷ []) ns =
      λ ns.
        ap (λ w. glue w ns) (view-append a.page us (p ∷ []))
        ∙ glue-last (view a.page us) p (a.page p).property ns in
    elim (Bool-cases (p + (a.page p).property == x)) [
      | inl e ↦
          let j : Joins a us p x zs =
            join_blocks-Joins a us p x zs v (==→eq (p + (a.page p).property) x e) in
          record {
            head = p;
            area = join_blocks p x a;
            heads = us;
            result = rw s.1 (rw (ne→== p a.npage apart) (rw e));
            valid = j.valid;
            blocks =
                ap₂ (λ w k. w ++ (p, k) ∷ []) j.before j.size
                ∙ sym (glued ((x, (a.page x).property) ∷ []) ∙ ap (◌++◌ (view a.page us)) (rw e));
            behind = j.behind;
          }
      | inr e ↦ record {
        head = x;
        area = a;
        heads = us ++ p ∷ [];
        result = rw s.1 (rw (ne→== p a.npage apart) (rw e));
        valid = subst (IsArea a) (sym (append_assoc us (p ∷ []) (x ∷ zs))) v;
        blocks =
            ap (λ w. w ++ (x, (a.page x).property) ∷ []) (view-append a.page us (p ∷ []))
            ∙ append_assoc (view a.page us) ((p, (a.page p).property) ∷ [])
                ((x, (a.page x).property) ∷ [])
            ∙ sym (glued ((x, (a.page x).property) ∷ []) ∙ ap (◌++◌ (view a.page us)) (rw e));
        behind = refl;
      }
    ]

-- A list is empty or has a last item.
snoc_cases : (xs : List ℕ) → (xs ≡ []) ⊎ ((us : List ℕ) × (p : ℕ) × (xs ≡ us ++ p ∷ []))
snoc_cases [] = inl refl
snoc_cases (x ∷ xs) = elim (snoc_cases xs) [
  | inl e ↦ inr ([], x, ap (λ w. x ∷ w) e)
  | inr (us, p, e) ↦ inr (x ∷ us, p, ap (λ w. x ∷ w) e)
]

pub merge_prev-MergesPrev :
    (a : FreeArea) (ys : List ℕ) (x : ℕ) (zs : List ℕ)
    → IsArea a (ys ++ x ∷ zs)
    → MergesPrev a ys x zs
merge_prev-MergesPrev a ys x zs v = elim (snoc_cases ys) [
  | inl e ↦
      subst (λ w. MergesPrev a w x zs) (sym e)
        (merge_prev_first a x zs (subst (λ w. IsArea a (w ++ x ∷ zs)) e v))
  | inr (us, p, e) ↦
      subst (λ w. MergesPrev a w x zs) (sym e)
        (merge_prev_last a us p x zs (
          subst (IsArea a) (append_assoc us (p ∷ []) (x ∷ zs))
            (subst (λ w. IsArea a (w ++ x ∷ zs)) e v)))
]
