-- ===== src/Vmm/Insert.antt =====
-- `insert_vma_struct`: a new area goes in by its address, where it overlaps no other.
pub mod Place
use nku_os_2025_lab.Prelude.{
  Among, ℕ, zero, suc, ◌+◌, ◌%◌, ◌^◌, ◌≤◌, ◌<◌, ◌≡◌, ◌≢◌, refl, sym, ap, subst, ◌∙◌, ◌⊎◌, inl, inr,
  List, [], ◌∷◌, ◌++◌, append-nil, Option, none, some, arith, All, All-map, All-append,
  All-append_left, All-append_right, NotIn, last, last-ne, length, length-append, Bool-cases, eq→==,
  ne→==, ◌==◌, ltb, if◌then◌else◌, ◌>>=◌, ◌>>◌, assert, ltb→lt, ltb→le, lt→ltb, update, update_self,
}
use nku_os_2025_lab.Libs.LinkedList.{Links, list_add}
use nku_os_2025_lab.Libs.LinkedList.Ring.{
  IsRing, IsChain, IsSeg-IsChain, IsSeg-split_left, next-last,
}
use nku_os_2025_lab.Libs.LinkedList.Insert.{IsRing-list_add-last}
use nku_os_2025_lab.Vmm.{Mm, check_vma_overlap, insert_place, insert_behind, insert_vma_struct}
use nku_os_2025_lab.Vmm.Areas.{
  All-last, Ordered, end_of, IsMm, Ordered-above, Ordered-below, Ordered-left, Ordered-right,
  Ordered-join,
}
use nku_os_2025_lab.Vmm.Insert.Place.{
  Apart, first, StartsBehind, Placed, insert_place-Placed, next-gap, left_test, right_test,
}

-- What inserting the area leaves: it stands between the areas before and behind it.
pub record Inserted (mm : Mm) (vma : ℕ) (xs : List ℕ) (run : Option Mm) : Type 0 where
  pub left : Mm
  pub before : List ℕ
  pub behind : List ℕ
  pub split : xs ≡ before ++ behind
  pub result : run ≡ some left
  pub valid : IsMm left (before ++ vma ∷ behind)
  pub starts : left.vm_start ≡ mm.vm_start
  pub ends : left.vm_end ≡ mm.vm_end
  pub flags : left.vm_flags ≡ mm.vm_flags
  pub owner : left.vm_mm vma ≡ mm.mmap_list

Among-wider : (x y : ℕ) (xs ys : List ℕ) → Among x (xs ++ ys) → Among x (xs ++ y ∷ ys)
Among-wider x y [] ys i = inr i
Among-wider x y (z ∷ xs) ys i = elim i [ inl e ↦ inl e | inr j ↦ inr (Among-wider x y xs ys j) ]

module _ (mm : Mm) (vma : ℕ) (xs before behind : List ℕ) (v : IsMm mm xs)
    (split : xs ≡ before ++ behind) (fresh : NotIn vma (mm.mmap_list ∷ xs)) (present : vma ≢ 0)
    (filled : mm.vm_start vma < mm.vm_end vma)
    (early : All (λ x. mm.vm_start x ≤ mm.vm_start vma) before)
    (late : StartsBehind mm.vm_start (mm.vm_start vma) behind) where
  cut : IsMm mm (before ++ behind)
  cut = subst (IsMm mm) split v

  fresh_cut : NotIn vma (mm.mmap_list ∷ before ++ behind)
  fresh_cut = subst (λ w. NotIn vma (mm.mmap_list ∷ w)) split fresh

  at_gap : mm.links.next (last mm.mmap_list before) ≡ first mm.mmap_list behind
  at_gap = next-gap mm.links mm.mmap_list before behind cut.ring

  grown :
      end_of mm.vm_end 0 before ≤ mm.vm_start vma
      → Ordered mm.vm_start mm.vm_end (mm.vm_end vma) behind
      → (links : Links) → IsRing links mm.mmap_list (before ++ vma ∷ behind)
      → IsMm
          (record mm {
            vm_mm = update mm.vm_mm vma mm.mmap_list;
            links = links;
            map_count = (mm.map_count + 1) % 2 ^ 32;
          })
          (before ++ vma ∷ behind)
  grown a b links r = record {
    ring = r;
    ordered =
        Ordered-join mm.vm_start mm.vm_end 0 before (vma ∷ behind)
          (Ordered-left mm.vm_start mm.vm_end 0 before behind cut.ordered) (a, filled, b);
    count =
        let c = cut.count in
        let l = length-append before behind in
        let m = length-append before (vma ∷ behind) in omega arith;
    present =
        All-append (λ x. x ≢ 0) before (vma ∷ behind) (All-append_left _ before behind cut.present)
          (present, All-append_right _ before behind cut.present);
    cache = elim cut.cache [
      | inl z ↦ inl z
      | inr i ↦ inr (Among-wider mm.mmap_cache vma before behind i)
    ];
  }

  behind-Inserted :
      ((All (Apart mm vma) xs)
        × Inserted mm vma xs (insert_behind (last mm.mmap_list before) vma mm))
      ⊎ ((¬ All (Apart mm vma) xs) × (insert_behind (last mm.mmap_list before) vma mm ≡ none))
  unfolding insert_behind list_add
  behind-Inserted =
      let nb = All-append_left _ before behind cut.ring.distinct.0 in
      let nh = All-append_right _ before behind cut.ring.distinct.0 in
      let ol = Ordered-left mm.vm_start mm.vm_end 0 before behind cut.ordered in
      let or = Ordered-right mm.vm_start mm.vm_end 0 before behind cut.ordered in
      elim (left_test mm vma filled before nb ol early) [
        | inr a ↦ inr (
          λ all. a.1 (All-append_left _ before behind (subst (All (Apart mm vma)) split all)),
          rw a.0 refl,
        )
        | inl a ↦ elim (right_test mm vma filled _ behind nh or late) [
          | inr b ↦ inr (
            λ all. b.1 (All-append_right _ before behind (subst (All (Apart mm vma)) split all)),
            rw a.0 (rw at_gap (rw b.0 refl)),
          )
          | inl b ↦ inl (
            subst (All (Apart mm vma)) (sym split) (
                All-append _ before behind
                  (All-map _ _ before
                    (λ x (k : mm.vm_end x ≤ end_of mm.vm_end 0 before). inl (omega (arith, k, a.1)))
                    (Ordered-below mm.vm_start mm.vm_end 0 before ol))
                  (All-map _ _ behind (λ x (k : mm.vm_end vma ≤ mm.vm_start x). inr k)
                    (Ordered-above mm.vm_start mm.vm_end (mm.vm_end vma) behind b.1))),
            record {
              left = record mm {
                vm_mm = update mm.vm_mm vma mm.mmap_list;
                links = list_add (last mm.mmap_list before) vma mm.links;
                map_count = (mm.map_count + 1) % 2 ^ 32;
              };
              before = before;
              behind = behind;
              split = split;
              result = rw a.0 (rw at_gap (rw b.0 refl));
              valid = grown a.1 b.1 (list_add (last mm.mmap_list before) vma mm.links) (
                  IsRing-list_add-last before behind (last mm.mmap_list before) vma refl cut.ring
                    fresh_cut);
              starts = refl;
              ends = refl;
              flags = refl;
              owner = update_self mm.vm_mm vma mm.mmap_list;
            },
          )
        ]
      ]

placed :
    (fuel vma p : ℕ) (mm : Mm)
    → mm.vm_start vma < mm.vm_end vma
    → insert_place fuel mm.mmap_list (mm.vm_start vma) mm ≡ some p
    → insert_vma_struct fuel vma mm ≡ insert_behind p vma mm
unfolding insert_vma_struct
placed fuel vma p mm f e =
    let at_start = lt→ltb (mm.vm_start vma) (mm.vm_end vma) f in
    ap
      (λ b.
        assert b
        >> (insert_place fuel mm.mmap_list (mm.vm_start vma) mm >>= λ w. insert_behind w vma mm))
      at_start
    ∙ ap (λ o. o >>= λ w. insert_behind w vma mm) e

-- Inserting an area that is not empty and in no list, in an address space of fewer areas than the
-- fuel: where it has no address in common with the areas there, it goes between those before it and
-- those behind it, and the address space is well-formed with one area more; otherwise an assertion
-- fails.
pub insert_vma_struct-Inserted :
    (fuel vma : ℕ) (mm : Mm) (xs : List ℕ)
    → IsMm mm xs
    → NotIn vma (mm.mmap_list ∷ xs)
    → vma ≢ 0
    → mm.vm_start vma < mm.vm_end vma
    → length xs < fuel
    → ((All (Apart mm vma) xs) × Inserted mm vma xs (insert_vma_struct fuel vma mm))
      ⊎ ((¬ All (Apart mm vma) xs) × (insert_vma_struct fuel vma mm ≡ none))
insert_vma_struct-Inserted fuel vma mm xs v n z f h =
    let p =
      insert_place-Placed fuel mm.mmap_list (mm.vm_start vma) mm xs
        (IsSeg-IsChain mm.links mm.mmap_list xs mm.mmap_list v.ring.seg) v.ring.distinct.0 h in
    rw (placed fuel vma (last mm.mmap_list p.before) mm f p.result)
      ((behind-Inserted mm vma xs p.before p.behind v p.split n z f p.early p.late))
