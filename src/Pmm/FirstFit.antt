-- ===== src/Pmm/FirstFit.antt =====
-- lab8/kern/mm/default_pmm.c: the first-fit allocator. `none` is a failed `assert`; in the loops
-- over the free list it is also the end of the fuel, which is more than the list's length.
pub mod Search
pub mod Take
pub mod Alloc
pub mod Insert
pub mod Join
pub mod Free
pub mod Tail
pub mod Twice
use nku_os_2025_lab.Prelude.{
  ℕ, zero, suc, ◌+◌, ◌-◌, ◌%◌, Bool, true, false, not, ◌&&◌, Option, none, some, ltb, leb, ◌==◌,
  if◌then◌else◌, ◌>>=◌, ◌>>◌, assert,
}
use nku_os_2025_lab.Libs.LinkedList.{
  Links, list_init, list_add, list_add_before, list_del, list_empty,
}
use nku_os_2025_lab.Pmm.Page.{
  Page, FreeArea, uint_mod, set_page_property, clear_page_property, put_property, set_page_ref,
  clear_flags,
}

unfoldable pub init : FreeArea → FreeArea
init a = record a { links = list_init a.npage a.links; nr_free = 0 }

-- `for (; p != base + n; p ++)` of `default_init_memmap`, over the pages that are left.
unfoldable pub init_pages : ℕ → ℕ → (ℕ → Page) → Option (ℕ → Page)
init_pages zero p m = some m
init_pages (suc left) p m = do
  assert (m p).reserved
  init_pages left (p + 1) (set_page_ref p 0 (put_property p 0 (clear_flags p m)))

-- The loop of `default_free_pages`.
unfoldable pub reset_pages : ℕ → ℕ → (ℕ → Page) → Option (ℕ → Page)
reset_pages zero p m = some m
reset_pages (suc left) p m = do
  assert (not (m p).reserved && not (m p).is_head)
  reset_pages left (p + 1) (set_page_ref p 0 (clear_flags p m))

-- The `while` loop that finds the place of `base`; `le` is the entry last visited.
unfoldable pub insert_loop : ℕ → ℕ → ℕ → ℕ → Links → Option Links
insert_loop zero head base le l = none
insert_loop (suc fuel) head base le l =
    let page = l.next le in
    let rest =
      insert_loop fuel head base page (if l.next page == head then list_add page base l else l) in
    if page == head
    then some l
    else if ltb base page
    then some (list_add_before page base l)
    else rest

unfoldable pub insert_block : ℕ → ℕ → Links → Option Links
insert_block head base l =
    if list_empty head l
    then some (list_add head base l)
    else insert_loop (head + 2) head base head l

-- `base->property = n; SetPageProperty(base); nr_free += n;` and the insertion, which
-- `default_init_memmap` and `default_free_pages` share.
unfoldable pub add_block : ℕ → ℕ → FreeArea → Option FreeArea
add_block base n a = do
  l ← insert_block a.npage base a.links
  some (record a {
    page = set_page_property base (put_property base (n % uint_mod) a.page);
    nr_free = (a.nr_free + n) % uint_mod;
    links = l;
  })

unfoldable pub init_memmap : FreeArea → ℕ → ℕ → Option FreeArea
init_memmap a base n = do
  assert (ltb 0 n)
  m ← init_pages n base a.page
  add_block base n (record a { page = m })

-- The search of `default_alloc_pages`: the first block of at least `n` pages.
unfoldable pub find_loop : ℕ → ℕ → ℕ → (ℕ → Page) → Links → ℕ → Option (Option ℕ)
find_loop zero head n m l le = none
find_loop (suc fuel) head n m l le =
    let p = l.next le in
    let rest = find_loop fuel head n m l p in
    if p == head then some none else if leb n (m p).property then some (some p) else rest

-- What `default_alloc_pages` does with the block that it found.
unfoldable pub take_block : ℕ → ℕ → FreeArea → FreeArea
take_block page n a =
    let prev = a.links.prev page in
    let l = list_del page a.links in
    let split = ltb n (a.page page).property in
    let m =
      if split
      then set_page_property (page + n)
          (put_property (page + n) ((a.page page).property - n) a.page)
      else a.page in
    record a {
      page = clear_page_property page m;
      links = if split then list_add prev (page + n) l else l;
      nr_free = a.nr_free - n;
    }

unfoldable pub search_pages : FreeArea → ℕ → Option (Option ℕ × FreeArea)
search_pages a n = do
  found ← find_loop (a.npage + 1) a.npage n a.page a.links a.npage
  some (elim found [ none ↦ (none, a) | some page ↦ (some page, take_block page n a) ])

unfoldable pub alloc_pages : FreeArea → ℕ → Option (Option ℕ × FreeArea)
unfolding search_pages
alloc_pages a n = do assert (ltb 0 n); if ltb a.nr_free n then some (none, a) else search_pages a n

-- `p->property += q->property; ClearPageProperty(q); list_del(&(q->page_link));`
unfoldable pub join_blocks : ℕ → ℕ → FreeArea → FreeArea
join_blocks p q a = record a {
  page =
      clear_page_property q
        (put_property p (((a.page p).property + (a.page q).property) % uint_mod) a.page);
  links = list_del q a.links;
}

-- Merging with the block before; the block's head may move.
unfoldable pub merge_prev : ℕ → FreeArea → ℕ × FreeArea
merge_prev base a =
    let p = a.links.prev base in
    if p == a.npage
    then (base, a)
    else if p + (a.page p).property == base
    then (p, join_blocks p base a)
    else (base, a)

-- Merging with the block behind.
unfoldable pub merge_next : ℕ → FreeArea → FreeArea
merge_next base a =
    let p = a.links.next base in
    if p == a.npage
    then a
    else if base + (a.page base).property == p
    then join_blocks base p a
    else a

unfoldable pub free_pages : FreeArea → ℕ → ℕ → Option FreeArea
free_pages a base n = do
  assert (ltb 0 n)
  m ← reset_pages n base a.page
  b ← add_block base n (record a { page = m })
  let (base', c) = merge_prev base b
  some (merge_next base' c)

unfoldable pub nr_free_pages : FreeArea → ℕ
nr_free_pages a = a.nr_free
