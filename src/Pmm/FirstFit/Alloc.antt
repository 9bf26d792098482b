-- ===== src/Pmm/FirstFit/Alloc.antt =====
-- `default_alloc_pages` against first fit on the sequence of free blocks.
use nku_os_2025_lab.Prelude.{
  ℕ, ◌+◌, ◌-◌, ◌≤◌, ◌<◌, ◌≡◌, refl, sym, ap, subst, inl, inr, List, [], ◌∷◌, ◌++◌, Option, none,
  some, arith, All, ltb, leb, if◌then◌else◌, lt→ltb, le→ltb, Bool-cases, Option-cases,
}
use nku_os_2025_lab.Libs.LinkedList.Ring.{IsSeg-IsChain}
use nku_os_2025_lab.Pmm.Page.{Page, FreeArea}
use nku_os_2025_lab.Pmm.FreeList.{
  Block, IsArea, view, view-append, total, total-append, length-IsBlocks,
}
use nku_os_2025_lab.Pmm.FirstFit.{alloc_pages, find_loop, take_block}
use nku_os_2025_lab.Pmm.FirstFit.Search.{
  find_fit, find_loop-eq-find_fit, Found, find_fit-Found, find_fit-none,
}
use nku_os_2025_lab.Pmm.FirstFit.Take.{
  take_block-IsArea_split, take_block-IsArea_whole, view_split, view_whole,
}

-- First fit: the first block of at least `n` pages loses its first `n`, or goes.
abbrev pub cut : ℕ → Block → List Block → List Block
cut n (x, k) bs = if ltb n k then (x + n, k - n) ∷ bs else bs

abbrev pub first_fit : ℕ → List Block → Option ℕ × List Block
first_fit n [] = (none, [])
first_fit n ((x, k) ∷ bs) =
    if leb n k then (some x, cut n (x, k) bs) else ((first_fit n bs).0, (x, k) ∷ (first_fit n bs).1)

first_fit-none :
    (n : ℕ) (m : ℕ → Page) (xs : List ℕ)
    → All (λ y. (m y).property < n) xs
    → first_fit n (view m xs) ≡ (none, view m xs)
first_fit-none n m [] h = refl
first_fit-none n m (x ∷ xs) h = ground (arith, first_fit-none n m xs h.1)

first_fit-some :
    (n : ℕ) (m : ℕ → Page) (ys : List ℕ) (x : ℕ) (zs : List ℕ)
    → All (λ y. (m y).property < n) ys
    → n ≤ (m x).property
    → first_fit n (view m (ys ++ x ∷ zs))
      ≡ (some x, view m ys ++ cut n (x, (m x).property) (view m zs))
first_fit-some n m [] x zs h k = ground arith
first_fit-some n m (y ∷ ys) x zs h k = ground (arith, first_fit-some n m ys x zs h.1 k)

-- A run of `alloc_pages` that agrees with first fit.
pub record Allocates (a : FreeArea) (xs : List ℕ) (n : ℕ) : Type 0 where
  pub area : FreeArea
  pub heads : List ℕ
  pub result : alloc_pages a n ≡ some ((first_fit n (view a.page xs)).0, area)
  pub valid : IsArea area heads
  pub left : view area.page heads ≡ (first_fit n (view a.page xs)).1

search_pages-eq :
    (a : FreeArea) (xs : List ℕ) (n : ℕ)
    → IsArea a xs
    → find_loop (a.npage + 1) a.npage n a.page a.links a.npage ≡ some (find_fit n a.page xs)
search_pages-eq a xs n v =
    find_loop-eq-find_fit (a.npage + 1) a.npage n a.page a.links a.npage xs
      (omega (arith, length-IsBlocks a.page 0 xs a.npage v.blocks))
      (IsSeg-IsChain a.links a.npage xs a.npage v.ring.seg) v.ring.distinct.0

alloc_pages_missing :
    (a : FreeArea) (xs : List ℕ) (n : ℕ)
    → IsArea a xs
    → 0 < n
    → find_fit n a.page xs ≡ none
    → alloc_pages a n ≡ some (none, a)
unfolding alloc_pages
alloc_pages_missing a xs n v pos e = elim (Bool-cases (ltb a.nr_free n)) [
  | inl few ↦ rw (lt→ltb 0 n pos) (rw few)
  | inr enough ↦ rw (lt→ltb 0 n pos) (rw enough (rw (search_pages-eq a xs n v) (rw e)))
]

alloc_pages_found :
    (a : FreeArea) (xs : List ℕ) (n x : ℕ)
    → IsArea a xs
    → 0 < n
    → n ≤ a.nr_free
    → find_fit n a.page xs ≡ some x
    → alloc_pages a n ≡ some (some x, take_block x n a)
unfolding alloc_pages
alloc_pages_found a xs n x v pos enough e =
    rw (lt→ltb 0 n pos) (rw (le→ltb a.nr_free n enough) (rw (search_pages-eq a xs n v) (rw e)))

alloc_pages-Allocates_at :
    (a : FreeArea) (ys : List ℕ) (x : ℕ) (zs : List ℕ) (n : ℕ)
    → IsArea a (ys ++ x ∷ zs)
    → 0 < n
    → find_fit n a.page (ys ++ x ∷ zs) ≡ some x
    → n ≤ (a.page x).property
    → All (λ y. (a.page y).property < n) ys
    → Allocates a (ys ++ x ∷ zs) n
alloc_pages-Allocates_at a ys x zs n v pos e fits first =
    let spec = first_fit-some n a.page ys x zs first fits in
    let room : n ≤ a.nr_free = omega (
      arith,
      v.count,
      ap total (view-append a.page ys (x ∷ zs)),
      total-append (view a.page ys) (view a.page (x ∷ zs)),
    ) in
    let run = alloc_pages_found a (ys ++ x ∷ zs) n x v pos room e in
    elim (Bool-cases (ltb n (a.page x).property)) [
      | inl more ↦
          let h : n < (a.page x).property = ground arith in
          record {
            area = take_block x n a;
            heads = ys ++ (x + n) ∷ zs;
            result = rw spec run;
            valid = take_block-IsArea_split a ys x zs n v pos h;
            left = rw spec (rw more (view_split a ys x zs n v pos h));
          }
      | inr exact ↦
          let h : (a.page x).property ≡ n = ground arith in
          record {
            area = take_block x n a;
            heads = ys ++ zs;
            result = rw spec run;
            valid = take_block-IsArea_whole a ys x zs n v pos h;
            left = rw spec (rw exact (view_whole a ys x zs n v pos));
          }
    ]

-- On a valid allocator, a request for `n > 0` pages returns what first fit on the sequence of free
-- blocks returns (the first block that is large enough, or NULL where there is none), leaves the
-- blocks that first fit leaves, and keeps the invariant.
pub alloc_pages-Allocates :
    (a : FreeArea) (xs : List ℕ) (n : ℕ) → IsArea a xs → 0 < n → Allocates a xs n
alloc_pages-Allocates a xs n v pos = elim (Option-cases (find_fit n a.page xs)) [
  | inl e ↦
      let spec = first_fit-none n a.page xs (find_fit-none n a.page xs e) in
      record {
        area = a;
        heads = xs;
        result = rw spec (alloc_pages_missing a xs n v pos e);
        valid = v;
        left = rw spec;
      }
  | inr (x, e) ↦
      let f : Found n a.page xs x = find_fit-Found n a.page xs e in
      subst (λ w. Allocates a w n) (sym f.place)
        (alloc_pages-Allocates_at a f.before x f.behind n (subst (IsArea a) f.place v) pos
          (subst (λ w. find_fit n a.page w ≡ some x) f.place e) f.fits f.first)
]
