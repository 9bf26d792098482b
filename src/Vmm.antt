-- ===== src/Vmm.antt =====
-- lab8/kern/mm/vmm.c and vmm.h: the areas of an address space. A `struct vma_struct *` is a number,
-- which is also the address of its `list_link`, and a `struct mm_struct *` is the address of its
-- `mmap_list`. An inner 0 is NULL; `none` is a failed `assert`, or the end of the fuel of a loop.
pub mod Areas
pub mod Find
pub mod Insert
pub mod Check
pub mod Map
pub mod Lifetime
use nku_os_2025_lab.Prelude.{
  ℕ, zero, suc, ◌+◌, ◌-◌, ◌*◌, ◌/◌, ◌%◌, ◌^◌, Bool, true, false, not, ◌&&◌, ◌||◌, Option, none,
  some, ltb, leb, ◌==◌, if◌then◌else◌, ◌>>=◌, ◌>>◌, assert, update,
}
use nku_os_2025_lab.Libs.LinkedList.{Links, list_init, list_add_after, list_del}
use nku_os_2025_lab.Libs.Errors.{e_inval, e_no_mem}

-- The areas of one address space, and all of `struct vma_struct`.
pub record Mm : Type 0 where
  pub mmap_list : ℕ
  pub links : Links
  pub mmap_cache : ℕ
  pub map_count : ℕ
  pub vm_mm : ℕ → ℕ
  pub vm_start : ℕ → ℕ
  pub vm_end : ℕ → ℕ
  pub vm_flags : ℕ → ℕ

abbrev pub page_size : ℕ
page_size = 4096

abbrev pub word_mod : ℕ
word_mod = 2 ^ 64

abbrev pub user_base : ℕ
user_base = 0x00200000

abbrev pub user_top : ℕ
user_top = 0x80000000

-- `USER_ACCESS`
unfoldable pub user_access : ℕ → ℕ → Bool
user_access start end = leb user_base start && (ltb start end && leb end user_top)

-- Of the fields that `mm_create` sets, those of the areas, on memory for a `struct mm_struct`.
unfoldable pub mm_create : Mm → Mm
mm_create mm = record mm { links = list_init mm.mmap_list mm.links; mmap_cache = 0; map_count = 0 }

-- `vma_create`, where `kmalloc` has returned `vma`, which may be NULL.
unfoldable pub vma_create : ℕ → ℕ → ℕ → ℕ → Mm → Mm
vma_create vma start end flags mm = if vma == 0 then mm else record mm {
  vm_start = update mm.vm_start vma start;
  vm_end = update mm.vm_end vma end;
  vm_flags = update mm.vm_flags vma flags;
}

-- `vma->vm_start <= addr && addr < vma->vm_end`
abbrev pub contains : Mm → ℕ → ℕ → Bool
contains mm vma addr = leb (mm.vm_start vma) addr && ltb addr (mm.vm_end vma)

-- The loop of `find_vma` behind the entry `le`.
unfoldable pub find_vma_loop : ℕ → ℕ → ℕ → Mm → Option ℕ
find_vma_loop zero le addr mm = none
find_vma_loop (suc fuel) le addr mm =
    let next = mm.links.next le in
    let rest = find_vma_loop fuel next addr mm in
    if next == mm.mmap_list then some 0 else if contains mm next addr then some next else rest

-- The area, or NULL.
unfoldable pub find_vma : ℕ → ℕ → Mm → Option (ℕ × Mm)
unfolding find_vma_loop
find_vma fuel addr mm =
    let cached = mm.mmap_cache in
    let search = find_vma_loop fuel mm.mmap_list addr mm >>= λ vma.
    some (vma, if vma == 0 then mm else record mm { mmap_cache = vma }) in
    if not (cached == 0) && contains mm cached addr then some (cached, mm) else search

unfoldable pub check_vma_overlap : ℕ → ℕ → Mm → Option (Unit {0})
check_vma_overlap prev next mm = do
  assert (ltb (mm.vm_start prev) (mm.vm_end prev))
  assert (leb (mm.vm_end prev) (mm.vm_start next))
  assert (ltb (mm.vm_start next) (mm.vm_end next))

-- The loop of `insert_vma_struct`: the entry that the area goes behind.
unfoldable pub insert_place : ℕ → ℕ → ℕ → Mm → Option ℕ
insert_place zero le start mm = none
insert_place (suc fuel) le start mm =
    let next = mm.links.next le in
    let rest = insert_place fuel next start mm in
    if next == mm.mmap_list then some le else if ltb start (mm.vm_start next) then some le else rest

-- `insert_vma_struct` once it knows the entry that the area goes behind.
unfoldable pub insert_behind : ℕ → ℕ → Mm → Option Mm
unfolding check_vma_overlap
insert_behind prev vma mm = do
  let next = mm.links.next prev
  if prev == mm.mmap_list then some tt else check_vma_overlap prev vma mm
  if next == mm.mmap_list then some tt else check_vma_overlap vma next mm
  some (record mm {
    vm_mm = update mm.vm_mm vma mm.mmap_list;
    links = list_add_after prev vma mm.links;
    map_count = (mm.map_count + 1) % 2 ^ 32;
  })

unfoldable pub insert_vma_struct : ℕ → ℕ → Mm → Option Mm
unfolding insert_place insert_behind
insert_vma_struct fuel vma mm = do
  assert (ltb (mm.vm_start vma) (mm.vm_end vma))
  prev ← insert_place fuel mm.mmap_list (mm.vm_start vma) mm
  insert_behind prev vma mm

-- `ROUNDDOWN(a, PGSIZE)` and `ROUNDUP(a, PGSIZE)`
abbrev pub round_down : ℕ → ℕ
round_down a = a - a % page_size

abbrev pub round_up : ℕ → ℕ
round_up a = round_down ((a + page_size - 1) % word_mod)

-- The code and the area; `kmalloc` returns `fresh` when `vma_create` asks.
unfoldable pub mm_map : ℕ → ℕ → ℕ → ℕ → ℕ → Mm → Option ((ℕ × ℕ) × Mm)
unfolding find_vma vma_create insert_vma_struct
mm_map fuel fresh addr len flags mm =
    let start = round_down addr in
    let end = round_up ((addr + len) % word_mod) in
    if not (user_access start end) then some ((e_inval, 0), mm) else (do
      (vma, m) ← find_vma fuel start mm
      if not (vma == 0) && ltb (m.vm_start vma) end
          then some ((e_inval, 0), m)
          else if fresh == 0
          then some ((e_no_mem, 0), m)
          else (insert_vma_struct fuel fresh (vma_create fresh start end flags m) >>= λ n.
              some ((0, fresh), n)))

-- The loop of `mm_destroy`; the memory that is given back is left out.
unfoldable pub unlist_loop : ℕ → Mm → Option Mm
unlist_loop zero mm = none
unlist_loop (suc fuel) mm =
    let le = mm.links.next mm.mmap_list in
    let rest = unlist_loop fuel (record mm { links = list_del le mm.links }) in
    if le == mm.mmap_list then some mm else rest

-- `flags & VM_READ`, `flags & VM_WRITE` and `flags & VM_STACK`.
abbrev pub has_read : ℕ → Bool
has_read flags = flags % 2 == 1

abbrev pub has_write : ℕ → Bool
has_write flags = flags / 2 % 2 == 1

abbrev pub has_stack : ℕ → Bool
has_stack flags = flags / 8 % 2 == 1

-- Whether the area lets a check at `start` go on.
unfoldable pub allows : Bool → ℕ → ℕ → Mm → Bool
allows write vma start mm =
    let flags = mm.vm_flags vma in
    (if write then has_write flags else has_read flags)
    && not (write && (has_stack flags && ltb start ((mm.vm_start vma + page_size) % word_mod)))

-- The loop of `user_mem_check`; `fuel` is also that of `find_vma`.
unfoldable pub check_loop : ℕ → ℕ → Bool → ℕ → ℕ → Mm → Option (Bool × Mm)
unfolding allows
check_loop zero fuel write start end mm = none
check_loop (suc rounds) fuel write start end mm =
    let go =
      (find_vma fuel start mm >>= λ (vma, m).
      if vma == 0 || ltb start (m.vm_start vma)
      then some (false, m)
      else if allows write vma start m
      then check_loop rounds fuel write (m.vm_end vma) end m
      else some (false, m)) in
    if ltb start end then go else some (true, mm)

-- `user_mem_check` with an address space.
unfoldable pub user_mem_check : ℕ → ℕ → ℕ → Bool → Mm → Option (Bool × Mm)
unfolding check_loop
user_mem_check fuel addr len write mm =
    let end = (addr + len) % word_mod in
    if user_access addr end then check_loop fuel fuel write addr end mm else some (false, mm)
