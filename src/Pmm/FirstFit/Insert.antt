-- ===== src/Pmm/FirstFit/Insert.antt =====
-- The insertion loop of `default_init_memmap` and `default_free_pages`: before a later block it
-- keeps the list well linked. `Tail` has the other case.
use nku_os_2025_lab.Prelude.{
  ℕ, zero, suc, ◌+◌, ◌%◌, ◌≤◌, ◌<◌, ◌≡◌, ◌≢◌, refl, sym, ap, subst, ◌∙◌, ◌⊎◌, inl, inr, true, List,
  [], ◌∷◌, ◌++◌, some, arith, All, All-map, All-append, NotIn, length, lt→ltb, le→ltb, eq→==, ne→==,
}
use nku_os_2025_lab.Libs.LinkedList.{Links, list_add, list_add_before, list_empty}
use nku_os_2025_lab.Libs.LinkedList.Ring.{IsRing, IsChain, IsSeg-IsChain}
use nku_os_2025_lab.Libs.LinkedList.Insert.{IsRing-list_add_before, IsRing-list_add_head}
use nku_os_2025_lab.Pmm.Page.{Page, FreeArea, uint_mod, set_page_property, put_property}
use nku_os_2025_lab.Pmm.FreeList.{
  IsArea, IsBlocks, IsBlocks-agree, IsBlocks-append, view, view-agree, view-append, total,
  total-append, length-IsBlocks, heads-above, heads-below, IsBlocks-le, total-IsBlocks,
}
use nku_os_2025_lab.Pmm.FirstFit.{insert_loop, insert_block, add_block}

-- The successor on a chain is not the header while an entry is still to come.
next-ne :
    (l : Links) (head u : ℕ) (us : List ℕ) (z : ℕ) (zs : List ℕ)
    → IsChain l u (us ++ z ∷ zs) head
    → NotIn head (us ++ z ∷ zs)
    → l.next u ≢ head
next-ne l head u [] z zs c d e = d.0 (sym c.0 ∙ e)
next-ne l head u (v ∷ us) z zs c d e = d.0 (sym c.0 ∙ e)

insert_loop_middle :
    (fuel head base le : ℕ) (l : Links) (us : List ℕ) (z : ℕ) (zs : List ℕ)
    → length us < fuel
    → IsChain l le (us ++ z ∷ zs) head
    → NotIn head (us ++ z ∷ zs)
    → All (λ u. u ≤ base) us
    → base < z
    → insert_loop fuel head base le l ≡ some (list_add_before z base l)
unfolding insert_loop
insert_loop_middle zero head base le l us z zs f c d h k = absurd (omega arith)
insert_loop_middle (suc fuel) head base le l [] z zs f c d h k =
    rw c.0 (rw (ne→== z head d.0) (rw (lt→ltb base z k)))
insert_loop_middle (suc fuel) head base le l (u ∷ us) z zs f c d h k = rw c.0 (
    rw (ne→== u head d.0) (
      rw (le→ltb base u h.0) (
        rw (ne→== (l.next u) head (next-ne l head u us z zs c.1 d.1))
          (insert_loop_middle fuel head base u l us z zs (omega arith) c.1 d.1 h.1 k))))

-- In an empty list, or before a block with a higher address, `base` is linked in at its place.
pub insert_block-IsRing :
    (l : Links) (head base : ℕ) (ys zs : List ℕ)
    → IsRing l head (ys ++ zs)
    → NotIn base (head ∷ ys ++ zs)
    → All (λ y. y ≤ base) ys
    → All (λ z. base < z) zs
    → length ys < head + 2
    → (ys ≡ []) ⊎ (zs ≢ [])
    → (m : Links) × (insert_block head base l ≡ some m) × IsRing m head (ys ++ base ∷ zs)
unfolding insert_block list_empty
insert_block-IsRing l head base [] [] r fresh h k f s = (
  list_add head base l,
  rw (eq→== (l.next head) head r.seg.0),
  IsRing-list_add_head [] base r fresh,
)
insert_block-IsRing l head base [] (z ∷ zs) r fresh h k f s = (
  list_add_before z base l,
  rw (ne→== (l.next head) head (λ e. r.distinct.0.0 (sym r.seg.0 ∙ e))) (
      insert_loop_middle (head + 2) head base head l [] z zs f
        (IsSeg-IsChain l head (z ∷ zs) head r.seg) r.distinct.0 tt k.0),
  IsRing-list_add_before [] z zs base r fresh,
)
insert_block-IsRing l head base (y ∷ ys) [] r fresh h k f (inl e) = absurd (cc)
insert_block-IsRing l head base (y ∷ ys) [] r fresh h k f (inr e) = absurd (e refl)
insert_block-IsRing l head base (y ∷ ys) (z ∷ zs) r fresh h k f s = (
  list_add_before z base l,
  rw (ne→== (l.next head) head (λ e. r.distinct.0.0 (sym r.seg.0 ∙ e))) (
      insert_loop_middle (head + 2) head base head l (y ∷ ys) z zs f
        (IsSeg-IsChain l head (y ∷ ys ++ z ∷ zs) head r.seg) r.distinct.0 h k.0),
  IsRing-list_add_before (y ∷ ys) z zs base r fresh,
)

-- What `add_block` leaves: the new block stands among the others.
pub record Adds (a : FreeArea) (ys : List ℕ) (base n : ℕ) (zs : List ℕ) : Type 0 where
  pub area : FreeArea
  pub result : add_block base n a ≡ some area
  pub valid : IsArea area (ys ++ base ∷ zs)
  pub same_npage : area.npage ≡ a.npage
  pub size : (area.page base).property ≡ n
  pub before : view area.page ys ≡ view a.page ys
  pub behind : view area.page zs ≡ view a.page zs

unfoldable pub head_page : ℕ → ℕ → (ℕ → Page) → ℕ → Page
unfolding set_page_property put_property
head_page base n m = set_page_property base (put_property base (n % uint_mod) m)

pub head_page_other : (base n : ℕ) (m : ℕ → Page) (y : ℕ) → y ≢ base → head_page base n m y ≡ m y
unfolding head_page
head_page_other base n m y h = ground arith

pub head_page_self :
    (base n : ℕ) (m : ℕ → Page)
    → n < uint_mod
    → ((head_page base n m base).property ≡ n) × ((head_page base n m base).is_head ≡ true)
unfolding head_page
head_page_self base n m h = (ground arith, ground arith)

module _ (a : FreeArea) (ys : List ℕ) (base n : ℕ) (zs : List ℕ) (v : IsArea a (ys ++ zs))
    (pos : 0 < n) (before : IsBlocks a.page 0 ys base)
    (behind : IsBlocks a.page (base + n) zs a.npage) where
  fits : base + n ≤ a.npage
  fits = IsBlocks-le a.page (base + n) zs a.npage behind

  below : All (λ y. y < base) ys
  below = heads-below a.page 0 ys base before

  above : All (λ z. base + n ≤ z) zs
  above = heads-above a.page (base + n) zs a.npage behind

  agree_left : All (λ y. head_page base n a.page y ≡ a.page y) ys
  agree_left =
      All-map _ _ ys (λ y (h : y < base). head_page_other base n a.page y (λ e. omega arith)) below

  agree_right : All (λ y. head_page base n a.page y ≡ a.page y) zs
  agree_right =
      All-map _ _ zs (λ y (h : base + n ≤ y). head_page_other base n a.page y (λ e. omega arith))
        above

  self :
      ((head_page base n a.page base).property ≡ n)
      × ((head_page base n a.page base).is_head ≡ true)
  self = let s = v.small in head_page_self base n a.page (omega (arith, fits))

  fresh : NotIn base (a.npage ∷ ys ++ zs)
  fresh = (
    (λ e. omega (arith, fits)),
    All-append _ ys zs (All-map _ _ ys (λ y (h : y < base) e. omega arith) below)
        (All-map _ _ zs (λ y (h : base + n ≤ y) e. omega arith) above),
  )

  short : length ys < a.npage + 2
  short = omega (arith, length-IsBlocks a.page 0 ys base before, fits)

  view_left : view (head_page base n a.page) ys ≡ view a.page ys
  view_left = view-agree a.page (head_page base n a.page) ys agree_left

  view_right : view (head_page base n a.page) zs ≡ view a.page zs
  view_right = view-agree a.page (head_page base n a.page) zs agree_right

  counted : (a.nr_free + n) % uint_mod ≡ total (view (head_page base n a.page) (ys ++ base ∷ zs))
  counted =
      let s = v.small in
      let c = v.count in
      omega (
        arith,
        self.0,
        fits,
        total-IsBlocks a.page 0 ys base before,
        total-IsBlocks a.page (base + n) zs a.npage behind,
        ap total (view-append a.page ys zs),
        total-append (view a.page ys) (view a.page zs),
        ap total (view-append (head_page base n a.page) ys (base ∷ zs)),
        total-append (view (head_page base n a.page) ys)
            (view (head_page base n a.page) (base ∷ zs)),
        ap total view_left,
        ap total view_right,
      )

  blocks : IsBlocks (head_page base n a.page) 0 (ys ++ base ∷ zs) a.npage
  blocks =
      IsBlocks-append (head_page base n a.page) 0 base ys (base ∷ zs) a.npage
        (IsBlocks-agree a.page (head_page base n a.page) 0 ys base agree_left before)
        (
          omega arith,
          omega (arith, self.0),
          self.1,
          subst (λ w. IsBlocks (head_page base n a.page) (base + w) zs a.npage) (sym self.0)
              (IsBlocks-agree a.page (head_page base n a.page) (base + n) zs a.npage agree_right
                behind),
        )

  -- Adding a block of unused pages keeps the invariant, in an empty list or before another block.
  pub add_block-Adds : (ys ≡ []) ⊎ (zs ≢ []) → Adds a ys base n zs
  unfolding add_block head_page
  add_block-Adds s =
      let i =
        insert_block-IsRing a.links a.npage base ys zs v.ring fresh
          (All-map _ _ ys (λ y (h : y < base). omega arith) below)
          (All-map _ _ zs (λ y (h : base + n ≤ y). omega arith) above) short s in
      record {
        area = record a {
          page = head_page base n a.page;
          links = i.0;
          nr_free = (a.nr_free + n) % uint_mod;
        };
        result = rw i.1;
        valid = record { ring = i.2; blocks = blocks; count = counted; small = v.small };
        same_npage = refl;
        size = self.0;
        before = view_left;
        behind = view_right;
      }
