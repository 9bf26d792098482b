-- ===== src/Pmm/FirstFit/Take.antt =====
-- Taking `n` pages from the front of a free block keeps the allocator's invariant.
use nku_os_2025_lab.Prelude.{
  ℕ, ◌+◌, ◌-◌, ◌≤◌, ◌<◌, ◌≡◌, ◌≢◌, sym, ap, subst, ap₂, ◌∙◌, true, false, List, ◌∷◌, ◌++◌, arith,
  All, All-map, All-append, NotIn, last, lt→ltb, le→ltb,
}
use nku_os_2025_lab.Libs.LinkedList.{list_del, list_add}
use nku_os_2025_lab.Libs.LinkedList.Ring.{IsRing, IsSeg-split_left, prev-last}
use nku_os_2025_lab.Libs.LinkedList.Insert.{IsRing-list_add-last}
use nku_os_2025_lab.Libs.LinkedList.Remove.{IsRing-list_del}
use nku_os_2025_lab.Pmm.Page.{FreeArea, set_page_property, clear_page_property, put_property}
use nku_os_2025_lab.Pmm.FreeList.{
  IsBlocks, IsArea, view, total, total-append, view-append, view-agree, IsBlocks-agree,
  IsBlocks-split_left, IsBlocks-split_right, IsBlocks-append, heads-above, heads-below, IsBlocks-le,
  IsBlocks-weaken,
}
use nku_os_2025_lab.Pmm.FirstFit.{take_block}

-- The pages other than the two heads are as before.
take_block-page_other :
    (x n : ℕ) (a : FreeArea) (y : ℕ)
    → y ≢ x
    → (n < (a.page x).property → y ≢ x + n)
    → (take_block x n a).page y ≡ a.page y
unfolding take_block set_page_property clear_page_property put_property
take_block-page_other x n a y h k = ground arith

take_block-rest :
    (x n : ℕ) (a : FreeArea)
    → 0 < n
    → n < (a.page x).property
    → (((take_block x n a).page (x + n)).property ≡ (a.page x).property - n)
      × (((take_block x n a).page (x + n)).is_head ≡ true)
unfolding take_block set_page_property clear_page_property put_property
take_block-rest x n a h k = (ground arith, ground arith)

pub take_block-is_head : (x n : ℕ) (a : FreeArea) → ((take_block x n a).page x).is_head ≡ false
unfolding take_block set_page_property clear_page_property put_property
take_block-is_head x n a = ground arith

take_block-links_split :
    (x n : ℕ) (a : FreeArea)
    → n < (a.page x).property
    → (take_block x n a).links ≡ list_add (a.links.prev x) (x + n) (list_del x a.links)
unfolding take_block
take_block-links_split x n a h = rw (lt→ltb n (a.page x).property h)

take_block-links_whole :
    (x n : ℕ) (a : FreeArea)
    → (a.page x).property ≡ n
    → (take_block x n a).links ≡ list_del x a.links
unfolding take_block
take_block-links_whole x n a h = rw (le→ltb n (a.page x).property (omega arith))

module _ (a : FreeArea) (ys : List ℕ) (x : ℕ) (zs : List ℕ) (n : ℕ) (v : IsArea a (ys ++ x ∷ zs))
    (pos : 0 < n) where
  left : IsBlocks a.page 0 ys x
  left = IsBlocks-split_left a.page 0 ys x zs a.npage v.blocks

  right : IsBlocks a.page x (x ∷ zs) a.npage
  right = IsBlocks-split_right a.page 0 ys x zs a.npage v.blocks

  below : All (λ y. y < x) ys
  below = heads-below a.page 0 ys x left

  above : All (λ y. x + (a.page x).property ≤ y) zs
  above = heads-above a.page (x + (a.page x).property) zs a.npage right.3

  same_left : All (λ y. (take_block x n a).page y ≡ a.page y) ys
  same_left =
      All-map _ _ ys
        (λ y (h : y < x). take_block-page_other x n a y (λ e. omega arith) (λ k e. omega arith))
        below

  same_right : All (λ y. (take_block x n a).page y ≡ a.page y) zs
  same_right =
      let p = right.1 in
      All-map _ _ zs
        (λ y (h : x + (a.page x).property ≤ y).
          take_block-page_other x n a y (λ e. omega arith) (λ k e. omega arith))
        above

  gone : IsRing (list_del x a.links) a.npage (ys ++ zs)
  gone = IsRing-list_del ys x zs v.ring

  prev_x : a.links.prev x ≡ last a.npage ys
  prev_x =
      prev-last a.links a.npage ys x (IsSeg-split_left a.links a.npage ys x zs a.npage v.ring.seg)

  blocks_left : IsBlocks (take_block x n a).page 0 ys x
  blocks_left = IsBlocks-agree a.page (take_block x n a).page 0 ys x same_left left

  blocks_right : IsBlocks (take_block x n a).page (x + (a.page x).property) zs a.npage
  blocks_right =
      IsBlocks-agree a.page (take_block x n a).page (x + (a.page x).property) zs a.npage same_right
        right.3

  pub view_whole : view (take_block x n a).page (ys ++ zs) ≡ view a.page ys ++ view a.page zs
  view_whole =
      view-append (take_block x n a).page ys zs
      ∙ ap₂ ◌++◌ (view-agree a.page (take_block x n a).page ys same_left)
          (view-agree a.page (take_block x n a).page zs same_right)

  before :
      total (view a.page (ys ++ x ∷ zs))
      ≡ total (view a.page ys) + ((a.page x).property + total (view a.page zs))
  before =
      ap total (view-append a.page ys (x ∷ zs))
      ∙ total-append (view a.page ys) (view a.page (x ∷ zs))

  fresh : n < (a.page x).property → NotIn (x + n) (a.npage ∷ ys ++ zs)
  fresh h =
      let b = IsBlocks-le a.page (x + (a.page x).property) zs a.npage right.3 in
      (
        (λ e. omega arith),
        All-append _ ys zs (All-map _ _ ys (λ y (k : y < x) e. omega arith) below)
            (All-map _ _ zs (λ y (k : x + (a.page x).property ≤ y) e. omega arith) above),
      )

  pub view_split :
      n < (a.page x).property
      → view (take_block x n a).page (ys ++ (x + n) ∷ zs)
        ≡ view a.page ys ++ (x + n, (a.page x).property - n) ∷ view a.page zs
  view_split h =
      view-append (take_block x n a).page ys ((x + n) ∷ zs)
      ∙ ap₂ ◌++◌ (view-agree a.page (take_block x n a).page ys same_left) (
          ap₂ (λ k r. (x + n, k) ∷ r) (take_block-rest x n a pos h).0
            (view-agree a.page (take_block x n a).page zs same_right))

  -- The rest of a block that is larger stays free.
  pub take_block-IsArea_split :
      n < (a.page x).property → IsArea (take_block x n a) (ys ++ (x + n) ∷ zs)
  unfolding take_block
  take_block-IsArea_split h = record {
    ring =
        subst (λ w. IsRing w a.npage (ys ++ (x + n) ∷ zs)) (sym (take_block-links_split x n a h))
          (IsRing-list_add-last ys zs (a.links.prev x) (x + n) prev_x gone (fresh h));
    blocks =
        let r = take_block-rest x n a pos h in
        IsBlocks-append (take_block x n a).page 0 x ys ((x + n) ∷ zs) a.npage blocks_left (
          omega arith,
          omega arith,
          r.1,
          subst (λ w. IsBlocks (take_block x n a).page w zs a.npage) (omega arith) blocks_right,
        );
    count =
        let c = ap total (view_split h) in
        let d = total-append (view a.page ys) ((x + n, (a.page x).property - n) ∷ view a.page zs) in
        let e = v.count in let f = before in omega arith;
    small = v.small;
  }

  -- A block of just the size leaves the list.
  pub take_block-IsArea_whole : (a.page x).property ≡ n → IsArea (take_block x n a) (ys ++ zs)
  unfolding take_block
  take_block-IsArea_whole h = record {
    ring = subst (λ w. IsRing w a.npage (ys ++ zs)) (sym (take_block-links_whole x n a h)) gone;
    blocks =
        IsBlocks-append (take_block x n a).page 0 (x + (a.page x).property) ys zs a.npage
          (IsBlocks-weaken (take_block x n a).page 0 ys x (x + (a.page x).property) (omega arith)
            blocks_left)
          blocks_right;
    count =
        let c = ap total view_whole in
        let d = total-append (view a.page ys) (view a.page zs) in
        let e = v.count in let f = before in omega arith;
    small = v.small;
  }
