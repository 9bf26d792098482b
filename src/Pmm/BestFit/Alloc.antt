-- ===== src/Pmm/BestFit/Alloc.antt =====
-- `best_fit_alloc_pages` takes from a smallest block that is large enough.
use nku_os_2025_lab.Prelude.{
  ℕ, zero, suc, ◌+◌, ◌%◌, ◌≤◌, ◌<◌, ◌≡◌, refl, ap, subst, ◌∙◌, ◌⊎◌, inl, inr, List, [], ◌∷◌, ◌++◌,
  Option, none, some, arith, All, All-map, All-both, NotIn, length, ltb, leb, ◌&&◌, if◌then◌else◌,
  lt→ltb, ltb→lt, ltb→le, eq→==, ne→==, Bool-cases, ◌>>=◌,
}
use nku_os_2025_lab.Libs.LinkedList.{Links}
use nku_os_2025_lab.Libs.LinkedList.Ring.{IsChain, IsSeg-IsChain}
use nku_os_2025_lab.Pmm.Page.{Page, FreeArea, uint_mod}
use nku_os_2025_lab.Pmm.FreeList.{IsArea, view, total, length-IsBlocks}
use nku_os_2025_lab.Pmm.FirstFit.{take_block}
use nku_os_2025_lab.Pmm.FirstFit.Take.{
  take_block-IsArea_split, take_block-IsArea_whole, view_split, view_whole,
}
use nku_os_2025_lab.Pmm.FirstFit.Alloc.{cut}
use nku_os_2025_lab.Pmm.BestFit.{best_loop, best_search, best_fit_alloc_pages}

-- The search on the sequence of the blocks.
abbrev best : ℕ → (ℕ → Page) → List ℕ → Option ℕ → ℕ → Option ℕ
best n m [] page size = page
best n m (x ∷ xs) page size =
    let better = leb n (m x).property && ltb (m x).property size in
    best n m xs (if better then some x else page) (if better then (m x).property else size)

best_loop-eq-best :
    (fuel head n : ℕ) (m : ℕ → Page) (l : Links) (le : ℕ) (page : Option ℕ) (size : ℕ) (xs : List ℕ)
    → length xs < fuel
    → IsChain l le xs head
    → NotIn head xs
    → best_loop fuel head n m l le page size ≡ some (best n m xs page size)
unfolding best_loop
best_loop-eq-best zero head n m l le page size xs h c d = absurd (omega arith)
best_loop-eq-best (suc fuel) head n m l le page size [] h c d = rw (eq→== (l.next le) head c)
best_loop-eq-best (suc fuel) head n m l le page size (x ∷ xs) h c d =
    rw (c.0, ne→== x head d.0) (best_loop-eq-best fuel head n m l x _ _ xs (omega arith) c.1 d.1)

-- The block `x` is chosen: of those that are large enough, smaller than those before it and no
-- larger than those behind it.
pub record Chosen (n : ℕ) (m : ℕ → Page) (xs : List ℕ) (x : ℕ) : Type 0 where
  pub before : List ℕ
  pub behind : List ℕ
  pub place : xs ≡ before ++ x ∷ behind
  pub fits : n ≤ (m x).property
  pub smaller : All (λ y. ((m y).property < n) ⊎ ((m x).property < (m y).property)) before
  pub least : All (λ y. ((m y).property < n) ⊎ ((m x).property ≤ (m y).property)) behind

-- Either no block is better than the one so far, or a better one is chosen.
abbrev Searched : ℕ → (ℕ → Page) → List ℕ → Option ℕ → ℕ → Option ℕ → Type 0
Searched n m xs page size run =
    ((run ≡ page) × All (λ y. ((m y).property < n) ⊎ (size ≤ (m y).property)) xs)
    ⊎ ((x : ℕ) × (run ≡ some x) × ((m x).property < size) × Chosen n m xs x)

best-Searched :
    (n : ℕ) (m : ℕ → Page) (xs : List ℕ) (page : Option ℕ) (size : ℕ)
    → Searched n m xs page size (best n m xs page size)
best-Searched n m [] page size = inl (refl, tt)
best-Searched n m (x ∷ xs) page size =
    elim (Bool-cases (leb n (m x).property && ltb (m x).property size)) [
      | inl e ↦ rw e (elim (best-Searched n m xs (some x) (m x).property) [
        | inl k ↦ inr (
          x,
          k.0,
          ground arith,
          record {
            before = [];
            behind = xs;
            place = refl;
            fits = ground arith;
            smaller = tt;
            least = k.1;
          },
        )
        | inr (z, r, s, c) ↦ inr (
          z,
          r,
          ground arith,
          record {
            before = x ∷ c.before;
            behind = c.behind;
            place = ap (λ w. x ∷ w) c.place;
            fits = c.fits;
            smaller = (inr s, c.smaller);
            least = c.least;
          },
        )
      ])
      | inr e ↦
          let not_better : ((m x).property < n) ⊎ (size ≤ (m x).property) = ground arith in
          rw e (elim (best-Searched n m xs page size) [
            | inl k ↦ inl (k.0, (not_better, k.1))
            | inr (z, r, s, c) ↦ inr (
              z,
              r,
              s,
              record {
                before = x ∷ c.before;
                behind = c.behind;
                place = ap (λ w. x ∷ w) c.place;
                fits = c.fits;
                smaller =
                    (elim not_better [ inl l ↦ inl l | inr l ↦ inr (omega arith) ], c.smaller);
                least = c.least;
              },
            )
          ])
    ]

each-le_total : (m : ℕ → Page) (xs : List ℕ) → All (λ y. (m y).property ≤ total (view m xs)) xs
each-le_total m [] = tt
each-le_total m (x ∷ xs) =
    (omega arith, All-map _ _ xs (λ y h. omega (arith, h)) (each-le_total m xs))

-- The pages that were taken from the block that was chosen, and what is left.
pub record Taken (a : FreeArea) (xs : List ℕ) (n : ℕ) (run : Option (Option ℕ × FreeArea))
    : Type 0 where
  pub block : ℕ
  pub chosen : Chosen n a.page xs block
  pub area : FreeArea
  pub heads : List ℕ
  pub result : run ≡ some (some block, area)
  pub valid : IsArea area heads
  pub left :
      view area.page heads
      ≡ view a.page chosen.before
        ++ cut n (block, (a.page block).property) (view a.page chosen.behind)

module _ (a : FreeArea) (n : ℕ) (pos : 0 < n) where
  taken :
      (xs : List ℕ) (x : ℕ) (c : Chosen n a.page xs x) (run : Option (Option ℕ × FreeArea))
      → IsArea a xs
      → run ≡ some (some x, take_block x n a)
      → Taken a xs n run
  taken xs x c run v r =
      let w = subst (IsArea a) c.place v in
      let fits = c.fits in
      elim (Bool-cases (ltb n (a.page x).property)) [
        | inl more ↦
            let h : n < (a.page x).property = ltb→lt n (a.page x).property more in
            record {
              block = x;
              chosen = c;
              area = take_block x n a;
              heads = c.before ++ (x + n) ∷ c.behind;
              result = r;
              valid = take_block-IsArea_split a c.before x c.behind n w pos h;
              left = rw more (view_split a c.before x c.behind n w pos h);
            }
        | inr exact ↦
            let l = ltb→le n (a.page x).property exact in
            let h : (a.page x).property ≡ n = omega arith in
            record {
              block = x;
              chosen = c;
              area = take_block x n a;
              heads = c.before ++ c.behind;
              result = r;
              valid = take_block-IsArea_whole a c.before x c.behind n w pos h;
              left = rw exact (view_whole a c.before x c.behind n w pos);
            }
      ]

  best_search-eq :
      (xs : List ℕ) (found : Option ℕ)
      → IsArea a xs
      → a.nr_free + 1 < uint_mod
      → best n a.page xs none (a.nr_free + 1) ≡ found
      → best_search a n
        ≡ some (elim found [ none ↦ (none, a) | some page ↦ (some page, take_block page n a) ])
  unfolding best_search
  best_search-eq xs found v small e =
      let size : ((a.nr_free + 1) % uint_mod ≡ a.nr_free + 1) = omega arith in
      let run =
        best_loop-eq-best (a.npage + 1) a.npage n a.page a.links a.npage none (a.nr_free + 1) xs
          (omega (arith, length-IsBlocks a.page 0 xs a.npage v.blocks))
          (IsSeg-IsChain a.links a.npage xs a.npage v.ring.seg) v.ring.distinct.0 in
      let after : (Option (Option ℕ) → Option (Option ℕ × FreeArea)) = λ o. o >>= λ w.
      some (elim w [ none ↦ (none, a) | some page ↦ (some page, take_block page n a) ]) in
      ap (λ k. after (best_loop (a.npage + 1) a.npage n a.page a.links a.npage none k)) size
      ∙ ap after (run ∙ ap some e)

  -- On a valid allocator with fewer than 2 ^ 32 - 1 free pages, best fit answers a request for `n >
  -- 0` pages with NULL exactly where no block is large enough; otherwise it takes the first `n`
  -- pages of a block that is large enough, and no smaller block is. Of the blocks of that size it
  -- is the first. The invariant is kept, the rest of the block stays free, and no other block
  -- changes.
  pub best_fit_alloc_pages-Taken :
      (xs : List ℕ)
      → IsArea a xs
      → a.nr_free + 1 < uint_mod
      → ((best_fit_alloc_pages a n ≡ some (none, a)) × All (λ y. (a.page y).property < n) xs)
        ⊎ Taken a xs n (best_fit_alloc_pages a n)
  unfolding best_fit_alloc_pages
  best_fit_alloc_pages-Taken xs v small =
      let count = v.count in
      elim (Bool-cases (ltb a.nr_free n)) [
        | inl few ↦
            let f = ltb→lt a.nr_free n few in
            inl (
              rw (lt→ltb 0 n pos) (rw few refl),
              All-map _ _ xs (λ y h. omega (arith, h, f, count)) (each-le_total a.page xs),
            )
        | inr enough ↦ elim (best-Searched n a.page xs none (a.nr_free + 1)) [
          | inl k ↦ inl (
            rw (lt→ltb 0 n pos) (rw enough (best_search-eq xs none v small k.0)),
            All-both xs k.1 (each-le_total a.page xs)
                (λ y o h. elim o [ inl l ↦ l | inr l ↦ absurd (omega (arith, h, l, count)) ]),
          )
          | inr (x, r, s, c) ↦ inr (
              taken xs x c _ v
                (rw (lt→ltb 0 n pos) (rw enough (best_search-eq xs (some x) v small r))))
        ]
      ]
