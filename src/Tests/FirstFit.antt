-- ===== src/Tests/FirstFit.antt =====
-- The allocators at eight pages, of which page 0 is free and the others are in use.
use nku_os_2025_lab.Prelude.{
  ℕ, ◌<◌, ◌⊎◌, All, none, ◌≡◌, refl, true, false, [], ◌∷◌, some, arith, ◌==◌, if◌then◌else◌, inl,
}
use nku_os_2025_lab.Pmm.Page.{Page, FreeArea}
use nku_os_2025_lab.Pmm.FreeList.{IsArea}
use nku_os_2025_lab.Pmm.BestFit.{best_fit_alloc_pages}
use nku_os_2025_lab.Pmm.BestFit.Alloc.{Taken, best_fit_alloc_pages-Taken}
use nku_os_2025_lab.Pmm.FirstFit.{alloc_pages, free_pages}
use nku_os_2025_lab.Pmm.FirstFit.Alloc.{Allocates, alloc_pages-Allocates}
use nku_os_2025_lab.Pmm.FirstFit.Free.{IsUsed, Frees, free_pages-Frees}
use nku_os_2025_lab.Pmm.FirstFit.Twice.{FreesTail, free_pages-FreesTail, alloc_pages_twice}

abbrev used_page : Page
used_page = record { reserved = false; is_head = false; property = 0; ref = 0 }

abbrev head_at : ℕ → Page
head_at n = record { reserved = false; is_head = true; property = n; ref = 0 }

-- Pages 0 and 1 are free, and the others are in use.
abbrev low : FreeArea
low = record {
  npage = 8;
  page = λ p. if p == 0 then head_at 2 else used_page;
  links = record { next = λ x. if x == 8 then 0 else 8; prev = λ x. if x == 8 then 0 else 8 };
  nr_free = 2;
}

-- Pages 5 to 7 are free.
abbrev high : FreeArea
high = record {
  npage = 8;
  page = λ p. if p == 5 then head_at 3 else used_page;
  links = record { next = λ x. if x == 8 then 5 else 8; prev = λ x. if x == 8 then 5 else 8 };
  nr_free = 3;
}

low-IsArea : IsArea low (0 ∷ [])
low-IsArea = record {
  ring = record { seg = (refl, refl, (refl, refl)); distinct = omega arith };
  blocks = (omega arith, omega arith, refl, omega arith);
  count = refl;
  small = omega arith;
}

high-IsArea : IsArea high (5 ∷ [])
high-IsArea = record {
  ring = record { seg = (refl, refl, (refl, refl)); distinct = omega arith };
  blocks = (omega arith, omega arith, refl, omega arith);
  count = refl;
  small = omega arith;
}

low-IsUsed : IsUsed low.page 2 4
low-IsUsed y h k = ground arith

high-IsUsed : IsUsed high.page 3 2
high-IsUsed y h k = ground arith

alloc_pages-Allocates_example : Allocates low (0 ∷ []) 1
alloc_pages-Allocates_example = alloc_pages-Allocates low (0 ∷ []) 1 low-IsArea (omega arith)

free_pages-Frees_example : Frees high [] 3 2 (5 ∷ [])
free_pages-Frees_example =
    free_pages-Frees high [] 3 2 (5 ∷ []) high-IsArea (omega arith) high-IsUsed (omega arith)
      (omega arith, omega arith, refl, omega arith) (inl refl)

-- The freed pages 2 to 5 touch the block of pages 0 and 1, and are not joined with it.
free_pages-FreesTail_example : FreesTail low [] 0 2 4
free_pages-FreesTail_example =
    free_pages-FreesTail low [] 0 2 4 low-IsArea (omega arith) low-IsUsed
      (omega arith, omega arith, refl, omega arith) (omega arith)

alloc_pages_twice_example :
    (b : FreeArea) × (c : FreeArea) × (d : FreeArea) × (free_pages low 2 4 ≡ some b)
    × (alloc_pages b 3 ≡ some (some 2, c))
    × (alloc_pages c 3 ≡ some (some 2, d))
alloc_pages_twice_example =
    alloc_pages_twice low [] 0 2 4 3 low-IsArea low-IsUsed
      (omega arith, omega arith, refl, omega arith) (omega arith) (omega arith) (omega arith)
      (omega arith) (omega arith)

best_fit_alloc_pages-Taken_example :
    ((best_fit_alloc_pages high 2 ≡ some (none, high))
      × All (λ y. (high.page y).property < 2) (5 ∷ []))
    ⊎ Taken high (5 ∷ []) 2 (best_fit_alloc_pages high 2)
best_fit_alloc_pages-Taken_example =
    best_fit_alloc_pages-Taken high 2 (omega arith) (5 ∷ []) high-IsArea (omega arith)
