-- ===== src/Pmm/FirstFit/Twice.antt =====
-- What the broken backward link of a block freed behind the last one leads to: it is not joined
-- with the block before, and `default_alloc_pages` can return it twice.
use nku_os_2025_lab.Prelude.{
  ℕ, zero, suc, ◌+◌, ◌-◌, ◌%◌, ◌≤◌, ◌<◌, ◌≡◌, ◌≢◌, refl, sym, ap, subst, ap₂, ◌∙◌, false, List, [],
  ◌∷◌, ◌++◌, some, arith, All, All-map, All-both, NotIn, length, leb, lt→ltb, le→ltb, eq→==, ne→==,
  append_assoc, length-append, All-append_left, All-append_right,
}
use nku_os_2025_lab.Libs.LinkedList.{Links, list_add, list_del}
use nku_os_2025_lab.Libs.LinkedList.Ring.{
  IsChain, IsChain-agree, IsChain-split_left, IsChain-split_right,
}
use nku_os_2025_lab.Pmm.Page.{
  Page, FreeArea, uint_mod, set_page_property, clear_page_property, put_property,
}
use nku_os_2025_lab.Pmm.FreeList.{
  IsArea, IsBlocks, view, view-agree, view-append, length-IsBlocks, heads-below, total-IsBlocks,
}
use nku_os_2025_lab.Pmm.FirstFit.{
  find_loop, take_block, alloc_pages, add_block, merge_prev, merge_next, free_pages,
}
use nku_os_2025_lab.Pmm.FirstFit.Insert.{head_page, head_page_other, head_page_self}
use nku_os_2025_lab.Pmm.FirstFit.Free.{IsUsed, Resets, reset_pages-Resets}
use nku_os_2025_lab.Pmm.FirstFit.Tail.{TailInserted, insert_block-TailInserted}

-- What freeing behind the last block leaves: the list in full, not joined, with `prev` of the
-- freed block pointing to itself.
pub record FreesTail (a : FreeArea) (us : List ℕ) (y base n : ℕ) : Type 0 where
  pub area : FreeArea
  pub result : free_pages a base n ≡ some area
  pub npage : area.npage ≡ a.npage
  pub chain : IsChain area.links a.npage (us ++ y ∷ base ∷ []) a.npage
  pub self_linked : area.links.prev base ≡ base
  pub blocks : view area.page (us ++ y ∷ base ∷ []) ≡ view a.page (us ++ y ∷ []) ++ (base, n) ∷ []
  pub count : area.nr_free ≡ a.nr_free + n
  pub same : All (λ x. (area.page x).property ≡ (a.page x).property) (us ++ y ∷ [])
  pub size : (area.page base).property ≡ n

module _ (a : FreeArea) (us : List ℕ) (y base n : ℕ) (v : IsArea a (us ++ y ∷ [])) (pos : 0 < n)
    (used : IsUsed a.page base n) (before : IsBlocks a.page 0 (us ++ y ∷ []) base)
    (fits : base + n ≤ a.npage) where
  cleared : Resets n base a.page
  cleared = reset_pages-Resets n base a.page used

  below : All (λ x. x < base) (us ++ y ∷ [])
  below = heads-below a.page 0 (us ++ y ∷ []) base before

  y_below : y < base
  y_below = (All-append_right (λ x. x < base) us (y ∷ []) below).0

  tail : TailInserted a.links a.npage base us y
  tail =
      insert_block-TailInserted a.links a.npage base us y v.ring
        (All-append_left (λ x. x < base) us (y ∷ []) below) y_below (omega arith)
        (omega (
          arith,
          length-IsBlocks a.page 0 (us ++ y ∷ []) a.npage v.blocks,
          length-append us (y ∷ []),
        ))

  room : n < uint_mod
  room = let s = v.small in omega arith

  agree : All (λ x. head_page base n cleared.pages x ≡ a.page x) (us ++ y ∷ [])
  agree =
      All-map _ _ (us ++ y ∷ [])
        (λ x (h : x < base).
          head_page_other base n cleared.pages x (λ e. omega arith) ∙ cleared.below x h)
        below

  freed : FreeArea
  freed = record a {
    page = head_page base n cleared.pages;
    links = tail.links;
    nr_free = (a.nr_free + n) % uint_mod;
  }

  at_base : (freed.page base).property ≡ n
  unfolding freed
  at_base = (head_page_self base n cleared.pages room).0

  next_base : tail.links.next base ≡ a.npage
  next_base = (IsChain-split_right tail.links a.npage us y (base ∷ []) a.npage tail.chain).1

  added : add_block base n (record a { page = cleared.pages }) ≡ some freed
  unfolding add_block freed head_page
  added = rw tail.result

  unmerged_prev : merge_prev base freed ≡ (base, freed)
  unfolding merge_prev freed
  unmerged_prev = rw tail.self_linked (
      rw (ne→== base a.npage (λ e. omega arith))
        (rw (ne→== (base + (freed.page base).property) base (λ e. omega (arith, at_base)))))

  unmerged_next : merge_next base freed ≡ freed
  unfolding merge_next freed
  unmerged_next = rw next_base (rw (eq→== a.npage a.npage refl))

  counted : (a.nr_free + n) % uint_mod ≡ a.nr_free + n
  counted =
      let s = v.small in
      let c = v.count in omega (arith, total-IsBlocks a.page 0 (us ++ y ∷ []) base before)

  -- On a valid allocator, freeing `n > 0` pages in use that lie behind the last of a non-empty
  -- list of free blocks adds the block at the end of the list and joins it with nothing, not even
  -- with a last block that ends where it begins; the backward link of its head points to itself.
  pub free_pages-FreesTail : FreesTail a us y base n
  unfolding free_pages freed
  free_pages-FreesTail = record {
    area = freed;
    result =
        rw (lt→ltb 0 n pos)
          (rw cleared.result (rw added (rw unmerged_prev (ap (λ w. some w) unmerged_next))));
    npage = refl;
    chain = tail.chain;
    self_linked = tail.self_linked;
    blocks =
        ap (view freed.page) (sym (append_assoc us (y ∷ []) (base ∷ [])))
        ∙ view-append freed.page (us ++ y ∷ []) (base ∷ [])
        ∙ ap₂ (λ w k. w ++ (base, k) ∷ []) (view-agree a.page freed.page (us ++ y ∷ []) agree)
            at_base;
    count = counted;
    same =
        All-map (λ x. freed.page x ≡ a.page x) _ (us ++ y ∷ []) (λ x e. ap (λ p. p.property) e)
          agree;
    size = at_base;
  }

-- A search stops at a block that is large enough, behind blocks that are not.
find_loop_hit :
    (fuel head k : ℕ) (m : ℕ → Page) (l : Links) (le : ℕ) (xs : List ℕ) (x : ℕ)
    → length xs < fuel
    → IsChain l le xs x
    → NotIn head xs
    → All (λ z. (m z).property < k) xs
    → x ≢ head
    → k ≤ (m x).property
    → find_loop fuel head k m l le ≡ some (some x)
unfolding find_loop
find_loop_hit zero head k m l le xs x f c d h n s = absurd (omega arith)
find_loop_hit (suc fuel) head k m l le [] x f c d h n s = rw c (rw (ne→== x head n) (ground arith))
find_loop_hit (suc fuel) head k m l le (z ∷ xs) x f c d h n s =
    let small : leb k (m z).property ≡ false = let q = h.0 in ground arith in
    rw c.0 (
      rw (ne→== z head d.0)
        (rw small (find_loop_hit fuel head k m l z xs x (omega arith) c.1 d.1 h.1 n s)))

nr_free-take_block : (b : FreeArea) (x k : ℕ) → (take_block x k b).nr_free ≡ b.nr_free - k
unfolding take_block
nr_free-take_block b x k = refl

-- What a search needs of an allocator to return `x`.
record Hits (b : FreeArea) (xs : List ℕ) (x k : ℕ) : Type 0 where
  chain : IsChain b.links b.npage xs x
  apart : NotIn b.npage xs
  short : length xs ≤ b.npage
  small : All (λ z. (b.page z).property < k) xs
  inside : x ≢ b.npage
  large : k ≤ (b.page x).property

alloc_pages_hit :
    (b : FreeArea) (xs : List ℕ) (x k : ℕ)
    → Hits b xs x k
    → 0 < k
    → k ≤ b.nr_free
    → alloc_pages b k ≡ some (some x, take_block x k b)
unfolding alloc_pages
alloc_pages_hit b xs x k h pos enough = rw (lt→ltb 0 k pos) (
    rw (le→ltb b.nr_free k enough) (
      rw (
        find_loop_hit (b.npage + 1) b.npage k b.page b.links b.npage xs x
          (let s = h.short in omega arith) h.chain h.apart h.small h.inside h.large)))

-- Taking a block whose `prev` is itself, at the end of the list, leaves it in the list.
next-take_block :
    (b : FreeArea) (x k z : ℕ)
    → b.links.prev x ≡ x
    → b.links.next x ≡ b.npage
    → z ≢ x
    → (k < (b.page x).property → z ≢ x + k)
    → (take_block x k b).links.next z ≡ b.links.next z
unfolding take_block list_add list_del
next-take_block b x k z e f h g = rw e (ground arith)

property-take_block :
    (b : FreeArea) (x k z : ℕ)
    → (k < (b.page x).property → z ≢ x + k)
    → ((take_block x k b).page z).property ≡ (b.page z).property
unfolding take_block set_page_property clear_page_property put_property
property-take_block b x k z h = ground arith

take_block-Hits :
    (b : FreeArea) (xs : List ℕ) (x k : ℕ)
    → Hits b xs x k
    → 0 < k
    → b.links.prev x ≡ x
    → b.links.next x ≡ b.npage
    → All (λ z. z < x) xs
    → x + (b.page x).property ≤ b.npage
    → Hits (take_block x k b) xs x k
unfolding take_block
take_block-Hits b xs x k h pos e f below fits =
    let size = property-take_block b x k x (λ q r. omega arith) in
    let large = h.large in
    record {
      chain =
          IsChain-agree b.links (take_block x k b).links b.npage xs x
            (
              next-take_block b x k b.npage e f (λ q. h.inside (sym q)) (λ q r. omega arith),
              All-map _ _ xs
                  (λ z (g : z < x).
                    next-take_block b x k z e f (λ q. omega arith) (λ q r. omega arith))
                  below,
            )
            h.chain;
      apart = h.apart;
      short = h.short;
      small = All-both xs h.small below (λ z (g : (b.page z).property < k) (r : z < x).
          omega (arith, property-take_block b x k z (λ q t. omega arith)));
      inside = h.inside;
      large = omega (arith, size);
    }

-- The kernel gives the same pages out twice. On a valid allocator whose last free block lies
-- before `base`, and whose free blocks all have less than `k` pages, freeing `n >= k > 0` used
-- pages at `base` and then asking twice for `k` pages returns `base` both times, as long as the
-- pages free before and `n` together are at least `2 k`.
pub alloc_pages_twice :
    (a : FreeArea) (us : List ℕ) (y base n k : ℕ)
    → IsArea a (us ++ y ∷ [])
    → IsUsed a.page base n
    → IsBlocks a.page 0 (us ++ y ∷ []) base
    → base + n ≤ a.npage
    → 0 < k
    → k ≤ n
    → All (λ x. (a.page x).property < k) (us ++ y ∷ [])
    → k + k ≤ a.nr_free + n
    → (b : FreeArea) × (c : FreeArea) × (d : FreeArea) × (free_pages a base n ≡ some b)
      × (alloc_pages b k ≡ some (some base, c))
      × (alloc_pages c k ≡ some (some base, d))
alloc_pages_twice a us y base n k v used before fits pos le small enough =
    let f : FreesTail a us y base n =
      free_pages-FreesTail a us y base n v (omega arith) used before fits in
    let below : All (λ x. x < base) (us ++ y ∷ []) =
      heads-below a.page 0 (us ++ y ∷ []) base before in
    let path : IsChain f.area.links a.npage ((us ++ y ∷ []) ++ base ∷ []) a.npage =
      subst (λ w. IsChain f.area.links a.npage w a.npage)
        (sym (append_assoc us (y ∷ []) (base ∷ []))) f.chain in
    let first : Hits f.area (us ++ y ∷ []) base k = record {
      chain =
          subst (λ w. IsChain f.area.links w (us ++ y ∷ []) base) (sym f.npage)
            (IsChain-split_left f.area.links a.npage (us ++ y ∷ []) base [] a.npage path);
      apart = subst (λ w. NotIn w (us ++ y ∷ [])) (sym f.npage) v.ring.distinct.0;
      short = omega (arith, f.npage, length-IsBlocks a.page 0 (us ++ y ∷ []) a.npage v.blocks);
      small =
          All-both (us ++ y ∷ []) f.same small
            (λ x (e : (f.area.page x).property ≡ (a.page x).property) (g : (a.page x).property < k).
              omega arith);
      inside = λ e. omega (arith, f.npage);
      large = omega (arith, f.size);
    } in
    let second : Hits (take_block base k f.area) (us ++ y ∷ []) base k =
      take_block-Hits f.area (us ++ y ∷ []) base k first pos f.self_linked
        (IsChain-split_right f.area.links a.npage (us ++ y ∷ []) base [] a.npage path ∙ sym f.npage)
        below (omega (arith, f.npage, f.size)) in
    (
      f.area,
      take_block base k f.area,
      take_block base k (take_block base k f.area),
      f.result,
      alloc_pages_hit f.area (us ++ y ∷ []) base k first pos (omega (arith, f.count)),
      alloc_pages_hit (take_block base k f.area) (us ++ y ∷ []) base k second pos
          (omega (arith, f.count, nr_free-take_block f.area base k)),
    )
