-- ===== src/Pmm/BestFit.antt =====
-- lab2/kern/mm/best_fit_pmm.c: the allocation of the best-fit allocator, on the state of first fit.
-- What it does with the block that it finds is as in first fit.
pub mod Alloc
use nku_os_2025_lab.Prelude.{
  ℕ, zero, suc, ◌+◌, ◌%◌, Bool, ◌&&◌, Option, none, some, ltb, leb, ◌==◌, if◌then◌else◌, ◌>>=◌,
  ◌>>◌, assert,
}
use nku_os_2025_lab.Libs.LinkedList.{Links}
use nku_os_2025_lab.Pmm.Page.{Page, FreeArea, uint_mod}
use nku_os_2025_lab.Pmm.FirstFit.{take_block}

-- The search, with the block found so far and its size.
unfoldable pub best_loop : ℕ → ℕ → ℕ → (ℕ → Page) → Links → ℕ → Option ℕ → ℕ → Option (Option ℕ)
best_loop zero head n m l le page min_size = none
best_loop (suc fuel) head n m l le page min_size =
    let p = l.next le in
    let size = (m p).property in
    let better = leb n size && ltb size min_size in
    let rest =
      best_loop fuel head n m l p (if better then some p else page)
        (if better then size else min_size) in
    if p == head then some page else rest

-- `nr_free + 1` is an `unsigned int`.
unfoldable pub best_search : FreeArea → ℕ → Option (Option ℕ × FreeArea)
unfolding best_loop
best_search a n = do
  found ← best_loop (a.npage + 1) a.npage n a.page a.links a.npage none ((a.nr_free + 1) % uint_mod)
  some (elim found [ none ↦ (none, a) | some page ↦ (some page, take_block page n a) ])

unfoldable pub best_fit_alloc_pages : FreeArea → ℕ → Option (Option ℕ × FreeArea)
unfolding best_search
best_fit_alloc_pages a n = do
  assert (ltb 0 n)
  if ltb a.nr_free n then some (none, a) else best_search a n
