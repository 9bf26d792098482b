-- ===== src/Pmm/FirstFit/Free.antt =====
-- `default_free_pages`: the freed pages join the free blocks around them.
use nku_os_2025_lab.Prelude.{
  ℕ, zero, suc, ◌+◌, ◌≤◌, ◌<◌, ◌≡◌, ◌≢◌, refl, sym, ap, ap₂, ◌∙◌, ◌⊎◌, Bool, true, false, not, ◌&&◌,
  List, [], ◌∷◌, ◌++◌, Option, some, arith, All, All-map, All-append, lt→ltb, ◌>>◌, assert,
}
use nku_os_2025_lab.Pmm.Page.{Page, FreeArea, set_page_ref, clear_flags}
use nku_os_2025_lab.Pmm.FreeList.{
  IsArea, IsBlocks, IsBlocks-agree, view, view-agree, total, heads-above, heads-below,
}
use nku_os_2025_lab.Pmm.FirstFit.{reset_pages, merge_next, free_pages}
use nku_os_2025_lab.Pmm.FirstFit.Insert.{Adds, add_block-Adds}
use nku_os_2025_lab.Pmm.FirstFit.Join.{
  glue, glue-last, MergesPrev, merge_prev-MergesPrev, MergesNext, merge_next-MergesNext,
}

-- The pages from `p` on, `n` of them, are neither reserved nor heads of free blocks.
abbrev pub IsUsed : (ℕ → Page) → ℕ → ℕ → Type 0
IsUsed m p n = (y : ℕ) → p ≤ y → y < p + n → ((m y).reserved ≡ false) × ((m y).is_head ≡ false)

-- `reset_pages` passes its assertions and leaves the other pages alone.
pub record Resets (n p : ℕ) (m : ℕ → Page) : Type 0 where
  pub pages : ℕ → Page
  pub result : reset_pages n p m ≡ some pages
  pub below : (y : ℕ) → y < p → pages y ≡ m y
  pub above : (y : ℕ) → p + n ≤ y → pages y ≡ m y

reset_page : ℕ → (ℕ → Page) → ℕ → Page
unfolding set_page_ref clear_flags
reset_page p m = set_page_ref p 0 (clear_flags p m)

reset_page_ne : (p : ℕ) (m : ℕ → Page) (y : ℕ) → y ≢ p → reset_page p m y ≡ m y
unfolding reset_page
reset_page_ne p m y h = ground arith

-- The assertion of one round passes.
assert_neither {ℓ} :
    {A : Type ℓ} (b c : Bool) (k : Option A)
    → b ≡ false
    → c ≡ false
    → (assert (not b && not c) >> k) ≡ k
assert_neither false false k e f = refl
assert_neither false true k e f = absurd (cc)
assert_neither true c k e f = absurd (cc)

pub reset_pages-Resets : (n p : ℕ) (m : ℕ → Page) → IsUsed m p n → Resets n p m
unfolding reset_pages reset_page
reset_pages-Resets zero p m u = record {
  pages = m;
  result = refl;
  below = λ y h. refl;
  above = λ y h. refl;
}
reset_pages-Resets (suc n) p m u =
    let now = u p (omega arith) (omega arith) in
    let r : Resets n (p + 1) (reset_page p m) =
      reset_pages-Resets n (p + 1) (reset_page p m)
        (λ y h k. rw (reset_page_ne p m y (λ e. omega arith)) (u y (omega arith) (omega arith))) in
    record {
      pages = r.pages;
      result = assert_neither (m p).reserved (m p).is_head _ now.0 now.1 ∙ r.result;
      below = λ y h. r.below y (omega arith) ∙ reset_page_ne p m y (λ e. omega arith);
      above = λ y h. r.above y (omega arith) ∙ reset_page_ne p m y (λ e. omega arith);
    }

-- What a successful `free_pages` leaves.
pub record Frees (a : FreeArea) (ys : List ℕ) (base n : ℕ) (zs : List ℕ) : Type 0 where
  pub area : FreeArea
  pub heads : List ℕ
  pub result : free_pages a base n ≡ some area
  pub valid : IsArea area heads
  pub blocks : view area.page heads ≡ glue (glue (view a.page ys) ((base, n) ∷ [])) (view a.page zs)

module _ (a : FreeArea) (ys : List ℕ) (base n : ℕ) (zs : List ℕ) (v : IsArea a (ys ++ zs))
    (pos : 0 < n) (used : IsUsed a.page base n) (before : IsBlocks a.page 0 ys base)
    (behind : IsBlocks a.page (base + n) zs a.npage) (place : (ys ≡ []) ⊎ (zs ≢ [])) where
  cleared : Resets n base a.page
  cleared = reset_pages-Resets n base a.page used

  same_left : All (λ y. cleared.pages y ≡ a.page y) ys
  same_left = All-map _ _ ys cleared.below (heads-below a.page 0 ys base before)

  same_right : All (λ y. cleared.pages y ≡ a.page y) zs
  same_right = All-map _ _ zs cleared.above (heads-above a.page (base + n) zs a.npage behind)

  same : All (λ y. cleared.pages y ≡ a.page y) (ys ++ zs)
  same = All-append _ ys zs same_left same_right

  valid_cleared : IsArea (record a { page = cleared.pages }) (ys ++ zs)
  valid_cleared = record {
    ring = v.ring;
    blocks = IsBlocks-agree a.page cleared.pages 0 (ys ++ zs) a.npage same v.blocks;
    count = v.count ∙ sym (ap total (view-agree a.page cleared.pages (ys ++ zs) same));
    small = v.small;
  }

  added : Adds (record a { page = cleared.pages }) ys base n zs
  added =
      add_block-Adds (record a { page = cleared.pages }) ys base n zs valid_cleared pos
        (IsBlocks-agree a.page cleared.pages 0 ys base same_left before)
        (IsBlocks-agree a.page cleared.pages (base + n) zs a.npage same_right behind) place

  prev : MergesPrev added.area ys base zs
  prev = merge_prev-MergesPrev added.area ys base zs added.valid

  next : MergesNext prev.area prev.heads prev.head zs
  next = merge_next-MergesNext prev.area prev.heads prev.head zs prev.valid

  -- On a valid allocator, freeing `n > 0` pages in use that lie in a gap between the free blocks,
  -- where the list is empty or some block lies behind them, passes the assertions, keeps the
  -- invariant, and adds the block, joined with the block before if it touches it and with the
  -- block behind if it touches that. No other block changes.
  pub free_pages-Frees : Frees a ys base n zs
  unfolding free_pages
  free_pages-Frees = record {
    area = merge_next prev.head prev.area;
    heads = next.heads;
    result = rw (lt→ltb 0 n pos) (rw cleared.result (rw added.result (rw prev.result)));
    valid = next.valid;
    blocks =
        next.blocks
        ∙ sym (
            glue-last (view prev.area.page prev.heads) prev.head (prev.area.page prev.head).property
              (view prev.area.page zs))
        ∙ ap₂ glue
            (prev.blocks
              ∙ ap₂ (λ w k. glue w ((base, k) ∷ []))
                  (added.before ∙ view-agree a.page cleared.pages ys same_left) added.size)
            (prev.behind ∙ added.behind ∙ view-agree a.page cleared.pages zs same_right);
  }
