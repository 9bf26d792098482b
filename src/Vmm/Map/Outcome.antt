-- ===== src/Vmm/Map/Outcome.antt =====
-- The outcomes of `mm_map`.
use nku_os_2025_lab.Prelude.{
  Among, ℕ, ◌≤◌, ◌<◌, ◌≡◌, ◌≢◌, ◌⊎◌, true, false, List, ◌∷◌, ◌++◌, Option, none, some, arith, All,
}
use nku_os_2025_lab.Vmm.{Mm, user_base, user_top, user_access}
use nku_os_2025_lab.Vmm.Areas.{IsMm, Covers, with_cache}
use nku_os_2025_lab.Libs.Errors.{e_inval, e_no_mem}

-- The range is not empty and lies in the user's part of the address space.
abbrev pub UserRange : ℕ → ℕ → Type 0
UserRange start end = (user_base ≤ start) × (start < end) × (end ≤ user_top)

pub user_access→UserRange : (start end : ℕ) → user_access start end ≡ true → UserRange start end
unfolding user_access
user_access→UserRange start end h = (ground arith, ground arith, ground arith)

pub outside : (start end : ℕ) → user_access start end ≡ false → ¬ UserRange start end
unfolding user_access
outside start end h = λ u. let a = u.0 in let b = u.1 in let c = u.2 in ground arith

-- The area has no address from `start` up to `end`.
abbrev pub Clear : Mm → ℕ → ℕ → ℕ → Type 0
Clear mm start end x = (mm.vm_end x ≤ start) ⊎ (end ≤ mm.vm_start x)

-- The address space with the area `fresh` from `start` up to `end`.
pub record Added (mm : Mm) (xs : List ℕ) (fresh start end flags : ℕ) (left : Mm) : Type 0 where
  pub before : List ℕ
  pub behind : List ℕ
  pub split : xs ≡ before ++ behind
  pub valid : IsMm left (before ++ fresh ∷ behind)
  pub start_is : left.vm_start fresh ≡ start
  pub end_is : left.vm_end fresh ≡ end
  pub flags_are : left.vm_flags fresh ≡ flags
  pub others :
      All
        (λ x.
          (left.vm_start x ≡ mm.vm_start x)
          × (left.vm_end x ≡ mm.vm_end x)
          × (left.vm_flags x ≡ mm.vm_flags x))
        xs

-- The outcomes of mapping the pages from `start` up to `end`.
pub data Mapped (mm : Mm) (xs : List ℕ) (fresh start end flags : ℕ) (run : Option ((ℕ × ℕ) × Mm))
    : Type 0 where
  not_user :
      ¬ UserRange start end → run ≡ some ((e_inval, 0), mm) → Mapped mm xs fresh start end flags run
  start_taken :
      (x cached : ℕ)
      → UserRange start end
      → Among x xs
      → Covers mm start x
      → run ≡ some ((e_inval, 0), with_cache cached mm)
      → IsMm (with_cache cached mm) xs
      → Mapped mm xs fresh start end flags run
  no_memory :
      (cached : ℕ)
      → UserRange start end
      → All (λ x. ¬ Covers mm start x) xs
      → fresh ≡ 0
      → run ≡ some ((e_no_mem, 0), with_cache cached mm)
      → IsMm (with_cache cached mm) xs
      → Mapped mm xs fresh start end flags run
  mapped :
      (left : Mm)
      → UserRange start end
      → All (Clear mm start end) xs
      → fresh ≢ 0
      → run ≡ some ((0, fresh), left)
      → Added mm xs fresh start end flags left
      → Mapped mm xs fresh start end flags run
  panics :
      UserRange start end
      → All (λ x. ¬ Covers mm start x) xs
      → ¬ All (Clear mm start end) xs
      → fresh ≢ 0
      → run ≡ none
      → Mapped mm xs fresh start end flags run
