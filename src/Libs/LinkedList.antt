-- ===== src/Libs/LinkedList.antt =====
-- lab8/libs/list.h: the intrusive doubly linked list, on a heap of entries. An address is a
-- number, and a write to `elm->next` or `elm->prev` updates one of two maps of addresses.
pub mod Ring
pub mod Distinct
pub mod Insert
pub mod Remove
use nku_os_2025_lab.Prelude.{ℕ, Bool, update, ◌==◌}

-- `struct list_entry`, for all entries at once.
pub record Links : Type 0 where
  pub next : ℕ → ℕ
  pub prev : ℕ → ℕ

unfoldable pub list_init : ℕ → Links → Links
list_init elm l = record { next = update l.next elm elm; prev = update l.prev elm elm }

-- `prev->next = next->prev = elm; elm->next = next; elm->prev = prev`, in this order.
unfoldable pub list_add_between : ℕ → ℕ → ℕ → Links → Links
list_add_between elm p n l = record {
  next = update (update l.next p elm) elm n;
  prev = update (update l.prev n elm) elm p;
}

unfoldable pub list_add_after : ℕ → ℕ → Links → Links
unfolding list_add_between
list_add_after listelm elm l = list_add_between elm listelm (l.next listelm) l

unfoldable pub list_add : ℕ → ℕ → Links → Links
unfolding list_add_after
list_add listelm elm l = list_add_after listelm elm l

unfoldable pub list_add_before : ℕ → ℕ → Links → Links
unfolding list_add_between
list_add_before listelm elm l = list_add_between elm (l.prev listelm) listelm l

unfoldable pub list_del_between : ℕ → ℕ → Links → Links
list_del_between p n l = record { next = update l.next p n; prev = update l.prev n p }

unfoldable pub list_del : ℕ → Links → Links
unfolding list_del_between
list_del listelm l = list_del_between (l.prev listelm) (l.next listelm) l

unfoldable pub list_del_init : ℕ → Links → Links
unfolding list_del list_init
list_del_init listelm l = list_init listelm (list_del listelm l)

unfoldable pub list_empty : ℕ → Links → Bool
list_empty list l = l.next list == list
