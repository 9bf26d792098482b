-- ===== src/Vmm/Map.antt =====
-- `mm_map`: a new area of whole pages, or the reason why there is none.
pub mod Outcome
use nku_os_2025_lab.Prelude.{
  Among, ℕ, ◌+◌, ◌%◌, ◌≤◌, ◌<◌, ◌≡◌, ◌≢◌, refl, sym, ap, subst, ◌∙◌, ◌⊎◌, inl, inr, true, false,
  not, ◌&&◌, List, [], ◌∷◌, ◌++◌, Option, none, some, arith, All, All-map, All-both, NotIn, length,
  Bool-cases, eq→==, ne→==, ◌==◌, ltb, if◌then◌else◌, ◌>>=◌, lt→ltb, update, update_self, update_ne,
}
use native.Mathlib.Decide.{ℕ_discrete}
use nku_os_2025_lab.Vmm.{
  Mm, user_base, user_top, user_access, vma_create, find_vma, insert_vma_struct, round_down,
  round_up, word_mod, mm_map,
}
use nku_os_2025_lab.Vmm.Areas.{Ordered, IsMm, Covers, with_cache}
use nku_os_2025_lab.Vmm.Find.{find_vma-Found}
use nku_os_2025_lab.Vmm.Insert.Place.{Apart}
use nku_os_2025_lab.Vmm.Insert.{Inserted, insert_vma_struct-Inserted}
use nku_os_2025_lab.Libs.Errors.{e_inval, e_no_mem}
use nku_os_2025_lab.Vmm.Map.Outcome.{
  UserRange, user_access→UserRange, outside, Clear, Added, Mapped, not_user, start_taken, no_memory,
  mapped, panics,
}

Ordered-agree :
    (s e t f : ℕ → ℕ) (lo : ℕ) (xs : List ℕ)
    → All (λ x. (t x ≡ s x) × (f x ≡ e x)) xs
    → Ordered s e lo xs
    → Ordered t f lo xs
Ordered-agree s e t f lo [] h o = tt
Ordered-agree s e t f lo (x ∷ xs) h o =
    let a = h.0.0 in
    let b = h.0.1 in
    let r = Ordered-agree s e t f (e x) xs h.1 o.2 in
    (omega (arith, a, o.0), omega (arith, a, b, o.1), subst (λ k. Ordered t f k xs) (sym b) r)

-- The fields that `vma_create` sets.
abbrev with_area : ℕ → ℕ → ℕ → ℕ → Mm → Mm
with_area fresh start end flags mm = record mm {
  vm_start = update mm.vm_start fresh start;
  vm_end = update mm.vm_end fresh end;
  vm_flags = update mm.vm_flags fresh flags;
}

created :
    (fresh start end flags : ℕ) (mm : Mm)
    → fresh ≢ 0
    → vma_create fresh start end flags mm ≡ with_area fresh start end flags mm
unfolding vma_create
created fresh start end flags mm n = rw (ne→== fresh 0 n) refl

-- `mm_map` behind `find_vma`.
abbrev map_rest : ℕ → ℕ → ℕ → ℕ → ℕ → ℕ × Mm → Option ((ℕ × ℕ) × Mm)
map_rest fuel fresh start end flags (vma, m) =
    if not (vma == 0) && ltb (m.vm_start vma) end
    then some ((e_inval, 0), m)
    else if fresh == 0
    then some ((e_no_mem, 0), m)
    else (insert_vma_struct fuel fresh (vma_create fresh start end flags m) >>= λ n.
        some ((0, fresh), n))

mm_map-rest :
    (fuel fresh addr len flags : ℕ) (mm : Mm) (found : ℕ × Mm)
    → user_access (round_down addr) (round_up ((addr + len) % word_mod)) ≡ true
    → find_vma fuel (round_down addr) mm ≡ some found
    → mm_map fuel fresh addr len flags mm
      ≡ map_rest fuel fresh (round_down addr) (round_up ((addr + len) % word_mod)) flags found
unfolding mm_map
mm_map-rest fuel fresh addr len flags mm found u f =
    let rest = map_rest fuel fresh (round_down addr) (round_up ((addr + len) % word_mod)) flags in
    ap
      (λ b.
        if not b then some ((e_inval, 0), mm) else (find_vma fuel (round_down addr) mm >>= rest))
      u
    ∙ ap (λ o. o >>= rest) f

mm_map-refused :
    (fuel fresh addr len flags : ℕ) (mm : Mm)
    → user_access (round_down addr) (round_up ((addr + len) % word_mod)) ≡ false
    → mm_map fuel fresh addr len flags mm ≡ some ((e_inval, 0), mm)
unfolding mm_map
mm_map-refused fuel fresh addr len flags mm u =
    let rest = map_rest fuel fresh (round_down addr) (round_up ((addr + len) % word_mod)) flags in
    ap
      (λ b.
        if not b then some ((e_inval, 0), mm) else (find_vma fuel (round_down addr) mm >>= rest))
      u

module _ (fuel fresh start end flags cached : ℕ) (mm : Mm) (xs : List ℕ)
    (v : IsMm (with_cache cached mm) xs) (room : length xs < fuel)
    (new : NotIn fresh (mm.mmap_list ∷ xs)) (user : UserRange start end) where
  -- The area that is made does not change the areas there.
  kept :
      All
        (λ x.
          (update mm.vm_start fresh start x ≡ mm.vm_start x)
          × (update mm.vm_end fresh end x ≡ mm.vm_end x)
          × (update mm.vm_flags fresh flags x ≡ mm.vm_flags x))
        xs
  kept =
      All-map (λ x. x ≢ fresh) _ xs
        (λ x n. (
          update_ne mm.vm_start fresh start x n,
          update_ne mm.vm_end fresh end x n,
          update_ne mm.vm_flags fresh flags x n,
        ))
        new.1

  with_area-IsMm : IsMm (with_area fresh start end flags (with_cache cached mm)) xs
  with_area-IsMm = record {
    ring = v.ring;
    ordered =
        Ordered-agree mm.vm_start mm.vm_end (update mm.vm_start fresh start)
          (update mm.vm_end fresh end) 0 xs (All-map _ _ xs (λ x h. (h.0, h.1)) kept) v.ordered;
    count = v.count;
    present = v.present;
    cache = v.cache;
  }

  Apart→Clear :
      All (Apart (with_area fresh start end flags (with_cache cached mm)) fresh) xs
      → All (Clear mm start end) xs
  Apart→Clear h = All-both xs h kept (λ x a k. elim a [
    | inl l ↦ inl (omega (arith, l, k.1, update_self mm.vm_start fresh start))
    | inr l ↦ inr (omega (arith, l, k.0, update_self mm.vm_end fresh end))
  ])

  Clear→Apart :
      All (Clear mm start end) xs
      → All (Apart (with_area fresh start end flags (with_cache cached mm)) fresh) xs
  Clear→Apart h = All-both xs h kept (λ x a k. elim a [
    | inl l ↦ inl (omega (arith, l, k.1, update_self mm.vm_start fresh start))
    | inr l ↦ inr (omega (arith, l, k.0, update_self mm.vm_end fresh end))
  ])

  inserted :
      (run : Option Mm)
      → All (λ x. ¬ Covers mm start x) xs
      → fresh ≢ 0
      → ((All (Apart (with_area fresh start end flags (with_cache cached mm)) fresh) xs)
          × Inserted (with_area fresh start end flags (with_cache cached mm)) fresh xs run)
        ⊎ ((¬ All (Apart (with_area fresh start end flags (with_cache cached mm)) fresh) xs)
            × (run ≡ none))
      → Mapped mm xs fresh start end flags (run >>= λ n. some ((0, fresh), n))
  inserted run free n (inl h) =
      mapped h.1.left user (Apart→Clear h.0) n (rw h.1.result refl) (record {
        before = h.1.before;
        behind = h.1.behind;
        split = h.1.split;
        valid = h.1.valid;
        start_is = ap (λ g. g fresh) h.1.starts ∙ update_self mm.vm_start fresh start;
        end_is = ap (λ g. g fresh) h.1.ends ∙ update_self mm.vm_end fresh end;
        flags_are = ap (λ g. g fresh) h.1.flags ∙ update_self mm.vm_flags fresh flags;
        others =
            All-map _ _ xs
              (λ x k. (
                ap (λ g. g x) h.1.starts ∙ k.0,
                ap (λ g. g x) h.1.ends ∙ k.1,
                ap (λ g. g x) h.1.flags ∙ k.2,
              ))
              kept;
      })
  inserted run free n (inr h) = panics user free (λ c. h.0 (Clear→Apart c)) n (rw h.1 refl)

  filled_area : update mm.vm_start fresh start fresh < update mm.vm_end fresh end fresh
  filled_area =
      omega (arith, update_self mm.vm_start fresh start, update_self mm.vm_end fresh end, user.1)

  go_on :
      (vma : ℕ)
      → ((vma ≡ 0) × All (λ x. ¬ Covers mm start x) xs)
        ⊎ ((vma ≢ 0) × Among vma xs × Covers mm start vma)
      → Mapped mm xs fresh start end flags
          (map_rest fuel fresh start end flags (vma, with_cache cached mm))
  go_on vma (inr k) =
      let below = k.2.0 in
      let filled = user.1 in
      rw (ne→== vma 0 k.0) (
        rw (lt→ltb (mm.vm_start vma) end (omega arith))
          (start_taken vma cached user k.1 k.2 refl v))
  go_on vma (inl k) = rw (eq→== vma 0 k.0) (elim (ℕ_discrete fresh 0) [
    | yes z ↦ rw (eq→== fresh 0 z) (no_memory cached user k.1 z refl v)
    | no n ↦ rw (ne→== fresh 0 n) (
        rw (created fresh start end flags (with_cache cached mm) n) (
          inserted
            (insert_vma_struct fuel fresh (with_area fresh start end flags (with_cache cached mm)))
            k.1 n
            (insert_vma_struct-Inserted fuel fresh
              (with_area fresh start end flags (with_cache cached mm)) xs with_area-IsMm new n
              filled_area room)))
  ])

-- In an address space of fewer areas than the fuel, where `kmalloc` gives NULL or an area that is
-- in no list, `mm_map` on the pages from `addr` to `addr + len` has one of five outcomes. It
-- returns -E_INVAL where the pages are none or not the user's, and where an area holds the first
-- address; -E_NO_MEM without memory; and 0 where no area has an address of them: then the area is
-- in its place with these bounds and flags and the others are as before. Where no area holds the
-- first address but one holds a later one, an assertion fails.
pub mm_map-Mapped :
    (fuel fresh addr len flags : ℕ) (mm : Mm) (xs : List ℕ)
    → IsMm mm xs
    → length xs < fuel
    → NotIn fresh (mm.mmap_list ∷ xs)
    → Mapped mm xs fresh
        (round_down addr)
        (round_up ((addr + len) % word_mod))
        flags
        (mm_map fuel fresh addr len flags mm)
mm_map-Mapped fuel fresh addr len flags mm xs v room new =
    let start = round_down addr in
    let end = round_up ((addr + len) % word_mod) in
    elim (Bool-cases (user_access start end)) [
      | inr e ↦ not_user (outside start end e) (mm_map-refused fuel fresh addr len flags mm e)
      | inl e ↦
          let f = find_vma-Found fuel start mm xs v room in
          rw (mm_map-rest fuel fresh addr len flags mm (f.vma, with_cache f.cached mm) e f.result) (
            go_on fuel fresh start end flags f.cached mm xs f.valid room new
              (user_access→UserRange start end e) f.vma f.verdict)
    ]
