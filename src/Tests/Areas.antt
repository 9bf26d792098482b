-- ===== src/Tests/Areas.antt =====
-- An address space with two areas: 10 may be read and written, 20 is a stack. The header of its
-- list is at address 1, and 30 is the area that `kmalloc` gives.
use nku_os_2025_lab.Prelude.{
  ◌+◌, ◌%◌, ◌≡◌, ◌⊎◌, refl, inl, inr, NotIn, All, [], ◌∷◌, arith, ◌==◌, if◌then◌else◌, true, false,
  none, some,
}
use nku_os_2025_lab.Vmm.{
  Mm, user_access, find_vma, insert_vma_struct, user_mem_check, mm_map, round_down, round_up,
  word_mod,
}
use nku_os_2025_lab.Vmm.Areas.{IsMm}
use nku_os_2025_lab.Vmm.Find.{Found, find_vma-Found}
use nku_os_2025_lab.Vmm.Insert.Place.{Apart}
use nku_os_2025_lab.Vmm.Insert.{Inserted, insert_vma_struct-Inserted}
use nku_os_2025_lab.Vmm.Check.{Checked, user_mem_check-Checked}
use nku_os_2025_lab.Vmm.Map.Outcome.{Mapped}
use nku_os_2025_lab.Vmm.Map.{mm_map-Mapped}

abbrev space : Mm
space = record {
  mmap_list = 1;
  links = record {
    next = λ x. if x == 1 then 10 else if x == 10 then 20 else if x == 20 then 1 else x;
    prev = λ x. if x == 1 then 20 else if x == 20 then 10 else if x == 10 then 1 else x;
  };
  mmap_cache = 10;
  map_count = 2;
  vm_mm = λ x. 1;
  vm_start = λ x. if x == 10 then 0x200000 else if x == 20 then 0x300000 else 0x280000;
  vm_end = λ x. if x == 10 then 0x202000 else if x == 20 then 0x304000 else 0x281000;
  vm_flags = λ x. if x == 10 then 3 else 11;
}

space-IsMm : IsMm space (10 ∷ 20 ∷ [])
space-IsMm = record {
  ring = record { seg = (refl, refl, (refl, refl, (refl, refl))); distinct = omega arith };
  ordered = omega arith;
  count = refl;
  present = omega arith;
  cache = inr (inl refl);
}

new : NotIn 30 (1 ∷ 10 ∷ 20 ∷ [])
new = omega arith

find_vma-Found_example : Found space 0x300008 (10 ∷ 20 ∷ []) (find_vma 3 0x300008 space)
find_vma-Found_example = find_vma-Found 3 0x300008 space (10 ∷ 20 ∷ []) space-IsMm (omega arith)

insert_vma_struct-Inserted_example :
    ((All (Apart space 30) (10 ∷ 20 ∷ []))
      × Inserted space 30 (10 ∷ 20 ∷ []) (insert_vma_struct 3 30 space))
    ⊎ ((¬ All (Apart space 30) (10 ∷ 20 ∷ [])) × (insert_vma_struct 3 30 space ≡ none))
insert_vma_struct-Inserted_example =
    insert_vma_struct-Inserted 3 30 space (10 ∷ 20 ∷ []) space-IsMm new (omega arith) (omega arith)
      (omega arith)

user_mem_check-Checked_example :
    Checked space 0x201000 0x800 true (10 ∷ 20 ∷ []) (user_mem_check 3 0x201000 0x800 true space)
user_mem_check-Checked_example =
    user_mem_check-Checked 3 0x201000 0x800 true space (10 ∷ 20 ∷ []) space-IsMm (omega arith)
      (omega arith) (omega arith)

mm_map-Mapped_example :
    Mapped space
      (10 ∷ 20 ∷ [])
      30
      (round_down 0x2fff00)
      (round_up ((0x2fff00 + 0x200) % word_mod))
      3
      (mm_map 3 30 0x2fff00 0x200 3 space)
mm_map-Mapped_example =
    mm_map-Mapped 3 30 0x2fff00 0x200 3 space (10 ∷ 20 ∷ []) space-IsMm (omega arith) new

-- A range that starts in a gap and reaches into the area 20 fails an assertion.
map_into_area : mm_map 3 30 0x2fff00 0x200 3 space ≡ none
unfolding mm_map user_access
map_into_area = refl

-- A write to the lowest page of the stack is refused, and one above it is not.
stack_guard :
    user_mem_check 3 0x300010 8 true space ≡ some (false, record space { mmap_cache = 20 })
unfolding user_mem_check user_access find_vma
stack_guard = refl

above_guard : user_mem_check 3 0x301010 8 true space ≡ some (true, record space { mmap_cache = 20 })
unfolding user_mem_check user_access find_vma
above_guard = refl
