-- ===== src/Pmm/FreeList.antt =====
-- A free list seen from outside: the free blocks in address order, each a start and a size.
use nku_os_2025_lab.Prelude.{
  ℕ, ◌+◌, ◌≤◌, ◌<◌, ◌≡◌, refl, ap, true, List, [], ◌∷◌, ◌++◌, arith, All, All-map, length,
}
use nku_os_2025_lab.Libs.LinkedList.Ring.{IsRing}
use nku_os_2025_lab.Pmm.Page.{Page, FreeArea, uint_mod}

-- A block: the number of its first page and the number of its pages.
abbrev pub Block : Type 0
Block = ℕ × ℕ

-- The pages `xs` head free blocks that lie apart, in address order, between `lo` and `hi`.
abbrev pub IsBlocks : (ℕ → Page) → ℕ → List ℕ → ℕ → Type 0
IsBlocks m lo [] hi = lo ≤ hi
IsBlocks m lo (x ∷ xs) hi =
    (lo ≤ x) × (0 < (m x).property) × ((m x).is_head ≡ true) × IsBlocks m (x + (m x).property) xs hi

abbrev pub view : (ℕ → Page) → List ℕ → List Block
view m [] = []
view m (x ∷ xs) = (x, (m x).property) ∷ view m xs

abbrev pub total : List Block → ℕ
total [] = 0
total ((x, n) ∷ bs) = n + total bs

-- The representation invariant of an allocator: the ring holds the heads of free blocks in address
-- order, the blocks do not overlap, and `nr_free` counts their pages.
pub record IsArea (a : FreeArea) (xs : List ℕ) : Type 0 where
  pub ring : IsRing a.links a.npage xs
  pub blocks : IsBlocks a.page 0 xs a.npage
  pub count : a.nr_free ≡ total (view a.page xs)
  pub small : a.npage < uint_mod

pub IsBlocks-le : (m : ℕ → Page) (lo : ℕ) (xs : List ℕ) (hi : ℕ) → IsBlocks m lo xs hi → lo ≤ hi
IsBlocks-le m lo [] hi b = b
IsBlocks-le m lo (x ∷ xs) hi b = omega (arith, IsBlocks-le m (x + (m x).property) xs hi b.3)

-- Blocks that lie apart fit into the pages between the bounds.
pub total-IsBlocks :
    (m : ℕ → Page) (lo : ℕ) (xs : List ℕ) (hi : ℕ)
    → IsBlocks m lo xs hi
    → lo + total (view m xs) ≤ hi
total-IsBlocks m lo [] hi b = omega arith
total-IsBlocks m lo (x ∷ xs) hi b = omega (arith, total-IsBlocks m (x + (m x).property) xs hi b.3)

pub length-IsBlocks :
    (m : ℕ → Page) (lo : ℕ) (xs : List ℕ) (hi : ℕ) → IsBlocks m lo xs hi → lo + length xs ≤ hi
length-IsBlocks m lo [] hi b = omega arith
length-IsBlocks m lo (x ∷ xs) hi b = omega (arith, length-IsBlocks m (x + (m x).property) xs hi b.3)

-- The heads lie at `lo` or above, and below `hi`.
pub heads-above :
    (m : ℕ → Page) (lo : ℕ) (xs : List ℕ) (hi : ℕ) → IsBlocks m lo xs hi → All (λ x. lo ≤ x) xs
heads-above m lo [] hi b = tt
heads-above m lo (x ∷ xs) hi b = (
  b.0,
  All-map _ _ xs (λ y (h : x + (m x).property ≤ y). omega arith)
      (heads-above m (x + (m x).property) xs hi b.3),
)

pub heads-below :
    (m : ℕ → Page) (lo : ℕ) (xs : List ℕ) (hi : ℕ) → IsBlocks m lo xs hi → All (λ x. x < hi) xs
heads-below m lo [] hi b = tt
heads-below m lo (x ∷ xs) hi b = (
  omega (arith, IsBlocks-le m (x + (m x).property) xs hi b.3),
  heads-below m (x + (m x).property) xs hi b.3,
)

-- Writes to other pages keep the blocks.
pub IsBlocks-agree :
    (m w : ℕ → Page) (lo : ℕ) (xs : List ℕ) (hi : ℕ)
    → All (λ x. w x ≡ m x) xs
    → IsBlocks m lo xs hi
    → IsBlocks w lo xs hi
IsBlocks-agree m w lo [] hi h b = b
IsBlocks-agree m w lo (x ∷ xs) hi h b =
    rw h.0 (b.0, b.1, b.2, IsBlocks-agree m w (x + (m x).property) xs hi h.1 b.3)

pub view-agree : (m w : ℕ → Page) (xs : List ℕ) → All (λ x. w x ≡ m x) xs → view w xs ≡ view m xs
view-agree m w [] h = refl
view-agree m w (x ∷ xs) h = rw h.0 (rw (view-agree m w xs h.1))

pub IsBlocks-split_left :
    (m : ℕ → Page) (lo : ℕ) (xs : List ℕ) (y : ℕ) (ys : List ℕ) (hi : ℕ)
    → IsBlocks m lo (xs ++ y ∷ ys) hi
    → IsBlocks m lo xs y
IsBlocks-split_left m lo [] y ys hi b = b.0
IsBlocks-split_left m lo (x ∷ xs) y ys hi b =
    (b.0, b.1, b.2, IsBlocks-split_left m (x + (m x).property) xs y ys hi b.3)

pub IsBlocks-split_right :
    (m : ℕ → Page) (lo : ℕ) (xs : List ℕ) (y : ℕ) (ys : List ℕ) (hi : ℕ)
    → IsBlocks m lo (xs ++ y ∷ ys) hi
    → IsBlocks m y (y ∷ ys) hi
IsBlocks-split_right m lo [] y ys hi b = (omega arith, b.1, b.2, b.3)
IsBlocks-split_right m lo (x ∷ xs) y ys hi b =
    IsBlocks-split_right m (x + (m x).property) xs y ys hi b.3

pub IsBlocks-append :
    (m : ℕ → Page) (lo mid : ℕ) (xs ys : List ℕ) (hi : ℕ)
    → IsBlocks m lo xs mid
    → IsBlocks m mid ys hi
    → IsBlocks m lo (xs ++ ys) hi
IsBlocks-append m lo mid [] [] hi b c = omega arith
IsBlocks-append m lo mid [] (y ∷ ys) hi b c = (omega arith, c.1, c.2, c.3)
IsBlocks-append m lo mid (x ∷ xs) ys hi b c =
    (b.0, b.1, b.2, IsBlocks-append m (x + (m x).property) mid xs ys hi b.3 c)

pub view-append : (m : ℕ → Page) (xs ys : List ℕ) → view m (xs ++ ys) ≡ view m xs ++ view m ys
view-append m [] ys = refl
view-append m (x ∷ xs) ys = ap (λ r. (x, (m x).property) ∷ r) (view-append m xs ys)

pub total-append : (bs cs : List Block) → total (bs ++ cs) ≡ total bs + total cs
total-append [] cs = omega arith
total-append ((x, n) ∷ bs) cs = omega (arith, total-append bs cs)

pub IsBlocks-weaken :
    (m : ℕ → Page) (lo : ℕ) (xs : List ℕ) (hi top : ℕ)
    → hi ≤ top
    → IsBlocks m lo xs hi
    → IsBlocks m lo xs top
IsBlocks-weaken m lo [] hi top h b = omega arith
IsBlocks-weaken m lo (x ∷ xs) hi top h b =
    (b.0, b.1, b.2, IsBlocks-weaken m (x + (m x).property) xs hi top h b.3)
