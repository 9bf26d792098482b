-- ===== src/Pmm/Page.antt =====
-- lab8/kern/mm/memlayout.h: `struct Page` and `free_area_t`. A `struct Page *` is an index into
-- the array of pages.
use nku_os_2025_lab.Prelude.{ℕ, Bool, true, false, ◌^◌, update}
use nku_os_2025_lab.Libs.LinkedList.{Links}

-- `flags` is its two bits, PG_reserved and PG_property.
pub record Page : Type 0 where
  pub reserved : Bool
  pub is_head : Bool
  pub property : ℕ
  pub ref : ℕ

-- All pages, the list entries in them and the free list. The entry of page `p` has the address
-- `p`, and the list's header has the address `npage`, behind the last page.
pub record FreeArea : Type 0 where
  pub npage : ℕ
  pub page : ℕ → Page
  pub links : Links
  pub nr_free : ℕ

-- An `unsigned int` has 32 bits.
abbrev pub uint_mod : ℕ
uint_mod = 2 ^ 32

unfoldable pub set_page_property : ℕ → (ℕ → Page) → ℕ → Page
set_page_property p m = update m p (record (m p) { is_head = true })

unfoldable pub clear_page_property : ℕ → (ℕ → Page) → ℕ → Page
clear_page_property p m = update m p (record (m p) { is_head = false })

-- `p->property = n`
unfoldable pub put_property : ℕ → ℕ → (ℕ → Page) → ℕ → Page
put_property p n m = update m p (record (m p) { property = n })

unfoldable pub set_page_ref : ℕ → ℕ → (ℕ → Page) → ℕ → Page
set_page_ref p n m = update m p (record (m p) { ref = n })

-- `p->flags = 0`
unfoldable pub clear_flags : ℕ → (ℕ → Page) → ℕ → Page
clear_flags p m = update m p (record (m p) { reserved = false; is_head = false })
