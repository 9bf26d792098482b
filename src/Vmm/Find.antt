-- ===== src/Vmm/Find.antt =====
-- `find_vma`: the area that holds an address, by the cache or by the list.
use nku_os_2025_lab.Prelude.{
  Among, ℕ, zero, suc, ◌<◌, ◌≡◌, ◌≢◌, refl, ◌⊎◌, inl, inr, true, false, List, [], ◌∷◌, Option, some,
  arith, All, NotIn, length, Bool-cases, eq→==, ne→==, ◌==◌, if◌then◌else◌, ◌>>=◌,
}
use native.Mathlib.Decide.{ℕ_discrete}
use nku_os_2025_lab.Libs.LinkedList.Ring.{IsChain, IsSeg-IsChain}
use nku_os_2025_lab.Vmm.{Mm, contains, find_vma_loop, find_vma}
use nku_os_2025_lab.Vmm.Areas.{IsMm, Covers, with_cache, with_cache-IsMm}

pub contains→Covers : (mm : Mm) (x a : ℕ) → contains mm x a ≡ true → Covers mm a x
contains→Covers mm x a h = (ground arith, ground arith)

misses→not_Covers : (mm : Mm) (x a : ℕ) → contains mm x a ≡ false → ¬ Covers mm a x
misses→not_Covers mm x a h = λ c. let l = c.0 in let r = c.1 in ground arith

-- NULL where no area holds the address, and the area that does otherwise.
abbrev pub Verdict : Mm → ℕ → List ℕ → ℕ → Type 0
Verdict mm addr xs vma =
    ((vma ≡ 0) × All (λ x. ¬ Covers mm addr x) xs) ⊎ ((vma ≢ 0) × Among vma xs × Covers mm addr vma)

record Searched (mm : Mm) (addr : ℕ) (xs : List ℕ) (run : Option ℕ) : Type 0 where
  vma : ℕ
  result : run ≡ some vma
  verdict : Verdict mm addr xs vma

-- An area that does not hold the address is passed over.
pass :
    (mm : Mm) (addr x : ℕ) (xs : List ℕ) (run : Option ℕ)
    → ¬ Covers mm addr x
    → Searched mm addr xs run
    → Searched mm addr (x ∷ xs) run
pass mm addr x xs run n r = record {
  vma = r.vma;
  result = r.result;
  verdict = elim r.verdict [ inl k ↦ inl (k.0, (n, k.1)) | inr k ↦ inr (k.0, inr k.1, k.2) ];
}

find_vma_loop-Searched :
    (fuel le addr : ℕ) (mm : Mm) (xs : List ℕ)
    → IsChain mm.links le xs mm.mmap_list
    → NotIn mm.mmap_list xs
    → All (λ x. x ≢ 0) xs
    → length xs < fuel
    → Searched mm addr xs (find_vma_loop fuel le addr mm)
unfolding find_vma_loop
find_vma_loop-Searched zero le addr mm xs c n z h = absurd (omega arith)
find_vma_loop-Searched (suc fuel) le addr mm [] c n z h = record {
  vma = 0;
  result = rw c (rw (eq→== mm.mmap_list mm.mmap_list refl) refl);
  verdict = inl (refl, tt);
}
find_vma_loop-Searched (suc fuel) le addr mm (x ∷ xs) c n z h = rw c.0 (
    rw (ne→== x mm.mmap_list n.0) (elim (Bool-cases (contains mm x addr)) [
      | inl e ↦ rw e (record {
        vma = x;
        result = refl;
        verdict = inr (z.0, inl refl, contains→Covers mm x addr e);
      })
      | inr e ↦ rw e (
          pass mm addr x xs _ (misses→not_Covers mm x addr e)
            (find_vma_loop-Searched fuel x addr mm xs c.1 n.1 z.1 (omega arith)))
    ]))

-- What `find_vma` gives: its answer, and the address space with nothing but the cache changed.
pub record Found (mm : Mm) (addr : ℕ) (xs : List ℕ) (run : Option (ℕ × Mm)) : Type 0 where
  pub vma : ℕ
  pub cached : ℕ
  pub result : run ≡ some (vma, with_cache cached mm)
  pub valid : IsMm (with_cache cached mm) xs
  pub verdict : Verdict mm addr xs vma

store :
    (mm : Mm) (addr : ℕ) (xs : List ℕ) (run : Option ℕ)
    → IsMm mm xs
    → Searched mm addr xs run
    → Found mm addr xs (run >>= λ vma. some (vma, if vma == 0 then mm else with_cache vma mm))
store mm addr xs run v r = elim r.verdict [
  | inl k ↦ record {
    vma = r.vma;
    cached = mm.mmap_cache;
    result = rw r.result (rw (eq→== r.vma 0 k.0) refl);
    valid = v;
    verdict = r.verdict;
  }
  | inr k ↦ record {
    vma = r.vma;
    cached = r.vma;
    result = rw r.result (rw (ne→== r.vma 0 k.0) refl);
    valid = with_cache-IsMm r.vma mm xs v k.1;
    verdict = r.verdict;
  }
]

search :
    (fuel addr : ℕ) (mm : Mm) (xs : List ℕ)
    → IsMm mm xs
    → length xs < fuel
    → Found mm addr xs (
        find_vma_loop fuel mm.mmap_list addr mm >>= λ vma.
        some (vma, if vma == 0 then mm else with_cache vma mm))
search fuel addr mm xs v h = store mm addr xs _ v (
    find_vma_loop-Searched fuel mm.mmap_list addr mm xs
      (IsSeg-IsChain mm.links mm.mmap_list xs mm.mmap_list v.ring.seg) v.ring.distinct.0 v.present
      h)

-- In an address space of fewer areas than the fuel, `find_vma` gives the area that holds the
-- address, or NULL where none does, whatever the cache holds; the cache then holds an area or NULL,
-- and nothing else changes.
pub find_vma-Found :
    (fuel addr : ℕ) (mm : Mm) (xs : List ℕ)
    → IsMm mm xs
    → length xs < fuel
    → Found mm addr xs (find_vma fuel addr mm)
unfolding find_vma
find_vma-Found fuel addr mm xs v h = elim (ℕ_discrete mm.mmap_cache 0) [
  | yes e ↦ rw (eq→== mm.mmap_cache 0 e) (search fuel addr mm xs v h)
  | no n ↦ elim (Bool-cases (contains mm mm.mmap_cache addr)) [
    | inl c ↦ rw (ne→== mm.mmap_cache 0 n) (
        rw c (record {
          vma = mm.mmap_cache;
          cached = mm.mmap_cache;
          result = refl;
          valid = v;
          verdict = elim v.cache [
            | inl z ↦ absurd (n z)
            | inr i ↦ inr (n, i, contains→Covers mm mm.mmap_cache addr c)
          ];
        }))
    | inr c ↦ rw (ne→== mm.mmap_cache 0 n) (rw c (search fuel addr mm xs v h))
  ]
]
