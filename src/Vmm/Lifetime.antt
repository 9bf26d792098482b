-- ===== src/Vmm/Lifetime.antt =====
-- `mm_create` and `mm_destroy`: an address space starts and ends without areas.
use nku_os_2025_lab.Prelude.{
  ℕ, zero, suc, ◌<◌, ◌≡◌, refl, inl, List, [], ◌∷◌, Option, some, arith, length, eq→==, ne→==,
}
use nku_os_2025_lab.Libs.LinkedList.{Links, list_del}
use nku_os_2025_lab.Libs.LinkedList.Ring.{IsRing}
use nku_os_2025_lab.Libs.LinkedList.Remove.{IsRing-list_init, IsRing-list_del}
use nku_os_2025_lab.Vmm.{Mm, mm_create, unlist_loop}
use nku_os_2025_lab.Vmm.Areas.{IsMm}

-- A new address space has no areas.
mm_create-IsMm : (mm : Mm) → IsMm (mm_create mm) []
unfolding mm_create
mm_create-IsMm mm = record {
  ring = IsRing-list_init mm.links mm.mmap_list;
  ordered = tt;
  count = refl;
  present = tt;
  cache = inl refl;
}

record Emptied (mm : Mm) (run : Option Mm) : Type 0 where
  links : Links
  result : run ≡ some (record mm { links = links })
  ring : IsRing links mm.mmap_list []

-- On more fuel than areas, `mm_destroy` takes every area off the list.
unlist_loop-Emptied :
    (fuel : ℕ) (mm : Mm) (links : Links) (xs : List ℕ)
    → IsRing links mm.mmap_list xs
    → length xs < fuel
    → Emptied mm (unlist_loop fuel (record mm { links = links }))
unfolding unlist_loop
unlist_loop-Emptied zero mm links xs r h = absurd (omega arith)
unlist_loop-Emptied (suc fuel) mm links [] r h = record {
  links = links;
  result = rw (eq→== (links.next mm.mmap_list) mm.mmap_list r.seg.0) refl;
  ring = r;
}
unlist_loop-Emptied (suc fuel) mm links (x ∷ xs) r h = rw r.seg.0 (
    rw (ne→== x mm.mmap_list r.distinct.0.0)
      (unlist_loop-Emptied fuel mm (list_del x links) xs (IsRing-list_del [] x xs r) (omega arith)))
