-- ===== src/Vmm/Check.antt =====
-- `user_mem_check`: whether a user's memory range may be read or written.
pub mod Access
use nku_os_2025_lab.Prelude.{
  Among, Among-All, ℕ, zero, suc, ◌+◌, ◌%◌, ◌≤◌, ◌<◌, ◌≡◌, refl, ap, subst, ◌⊎◌, inl, inr, Bool,
  true, false, not, ◌&&◌, List, [], ◌∷◌, Option, some, arith, All, length, Bool-cases, eq→==, ne→==,
  ltb, if◌then◌else◌, ltb→lt, ltb→le, le→ltb,
}
use nku_os_2025_lab.Vmm.{
  Mm, page_size, word_mod, user_base, user_top, user_access, has_read, has_write, has_stack, allows,
  check_loop, user_mem_check,
}
use nku_os_2025_lab.Vmm.Areas.{IsMm, Covers, with_cache, covers_one}
use nku_os_2025_lab.Vmm.Find.{find_vma-Found}
use nku_os_2025_lab.Vmm.Check.Access.{
  Permits, All-of, allows→Permits, refuses→not_Permits, beyond, beyond-length, beyond-lt,
}

-- The answer on the addresses from `start` up to `end`: every one is permitted, or one is not.
abbrev Answer : Mm → Bool → ℕ → ℕ → List ℕ → Bool → Type 0
Answer mm write start end xs answer =
    ((answer ≡ true)
      × ((a : ℕ) → start ≤ a → a < end → (x : ℕ) × Among x xs × Permits mm write a x))
    ⊎ ((answer ≡ false)
        × ((a : ℕ) × (start ≤ a) × (a < end) × All (λ x. ¬ Permits mm write a x) xs))

record Ran (mm : Mm) (write : Bool) (start end : ℕ) (xs : List ℕ) (run : Option (Bool × Mm))
    : Type 0 where
  answer : Bool
  cached : ℕ
  result : run ≡ some (answer, with_cache cached mm)
  valid : IsMm (with_cache cached mm) xs
  verdict : Answer mm write start end xs answer

-- One area permits the addresses up to its end; the rest is for the next round.
next_area :
    (mm : Mm) (write : Bool) (start end x : ℕ) (xs : List ℕ) (run : Option (Bool × Mm))
    → Among x xs
    → allows write x start mm ≡ true
    → Covers mm start x
    → start < user_top
    → Ran mm write (mm.vm_end x) end xs run
    → Ran mm write start end xs run
next_area mm write start end x xs run i h c t r = record {
  answer = r.answer;
  cached = r.cached;
  result = r.result;
  valid = r.valid;
  verdict = elim r.verdict [
    | inl k ↦ inl (
      k.0,
      λ a l u. elim (Bool-cases (ltb a (mm.vm_end x))) [
        | inl b ↦ (x, i, allows→Permits mm write x start a h c t l (ltb→lt a (mm.vm_end x) b))
        | inr b ↦ k.1 a (ltb→le a (mm.vm_end x) b) u
      ],
    )
    | inr k ↦ inr (k.0, (k.1.0, omega (arith, c.1, k.1.1), k.1.2, k.1.3))
  ];
}

check_loop-Ran :
    (rounds fuel : ℕ) (write : Bool) (start end cached : ℕ) (mm : Mm) (xs : List ℕ)
    → IsMm (with_cache cached mm) xs
    → length xs < fuel
    → beyond mm.vm_end start xs < rounds
    → end ≤ user_top
    → Ran mm write start end xs (check_loop rounds fuel write start end (with_cache cached mm))
unfolding check_loop allows
check_loop-Ran zero fuel write start end cached mm xs v h k t = absurd (omega arith)
check_loop-Ran (suc rounds) fuel write start end cached mm xs v h k t =
    elim (Bool-cases (ltb start end)) [
      | inr e ↦ rw e (record {
        answer = true;
        cached = cached;
        result = refl;
        valid = v;
        verdict = let b = ltb→le start end e in inl (refl, λ a l u. absurd (omega arith));
      })
      | inl e ↦
          let f = find_vma-Found fuel start (with_cache cached mm) xs v h in
          let below = ltb→lt start end e in
          rw e (
            rw f.result (elim f.verdict [
              | inl d ↦ rw (eq→== f.vma 0 d.0) (record {
                answer = false;
                cached = f.cached;
                result = refl;
                valid = f.valid;
                verdict = inr (
                  refl,
                  (
                    start,
                    omega arith,
                    below,
                    All-of _ xs (λ x i p. Among-All (λ y. ¬ Covers mm start y) x xs i d.1 p.0),
                  ),
                );
              })
              | inr d ↦ rw (ne→== f.vma 0 d.0) (
                  rw (le→ltb start (mm.vm_start f.vma) d.2.0)
                    (elim (Bool-cases (allows write f.vma start mm)) [
                      | inl q ↦ rw q (
                          next_area mm write start end f.vma xs _ d.1 q d.2 (omega arith) (
                            check_loop-Ran rounds fuel write (mm.vm_end f.vma) end f.cached mm xs
                              f.valid h
                              (let b = beyond-lt mm.vm_end start f.vma xs d.1 d.2.1 in omega arith)
                              t))
                      | inr q ↦ rw q (record {
                        answer = false;
                        cached = f.cached;
                        result = refl;
                        valid = f.valid;
                        verdict = inr (
                          refl,
                          (
                            start,
                            omega arith,
                            below,
                            All-of _ xs (λ x i p. refuses→not_Permits mm write f.vma start q (
                                subst (λ y. Permits mm write start y)
                                  (covers_one mm.vm_start mm.vm_end 0 start x f.vma xs v.ordered i
                                    d.1 p.0.0 p.0.1 d.2.0 d.2.1)
                                  p)),
                          ),
                        );
                      })
                    ]))
            ]))
    ]

-- The range of `len` bytes at `addr` is not empty and lies in the user's part of the address space.
abbrev pub InUser : ℕ → ℕ → Type 0
InUser addr len = (user_base ≤ addr) × (0 < len) × (addr + len ≤ user_top)

module _ (addr len : ℕ) (fits : addr < word_mod) (short : len < word_mod) where
  user_access→InUser : user_access addr ((addr + len) % word_mod) ≡ true → InUser addr len
  unfolding user_access
  user_access→InUser h = (ground arith, ground arith, ground arith)

  outside : user_access addr ((addr + len) % word_mod) ≡ false → ¬ InUser addr len
  unfolding user_access
  outside h = λ p. let a = p.0 in let b = p.1 in let c = p.2 in ground arith

-- The outcome of `user_mem_check`.
pub record Checked (mm : Mm) (addr len : ℕ) (write : Bool) (xs : List ℕ) (run : Option (Bool × Mm))
    : Type 0 where
  pub answer : Bool
  pub cached : ℕ
  pub result : run ≡ some (answer, with_cache cached mm)
  pub valid : IsMm (with_cache cached mm) xs
  pub verdict :
      ((answer ≡ true)
        × InUser addr len
        × ((a : ℕ) → addr ≤ a → a < addr + len → (x : ℕ) × Among x xs × Permits mm write a x))
      ⊎ ((answer ≡ false)
          × ((¬ InUser addr len)
              ⊎ ((a : ℕ) × (addr ≤ a) × (a < addr + len) × All (λ x. ¬ Permits mm write a x) xs)))

-- For an address and a length of 64 bits, in an address space of fewer areas than the fuel,
-- `user_mem_check` finishes. It answers true when the range is not empty, lies in the user's part
-- of the address space, and an area permits the access at each of its addresses; it answers false
-- when the range is empty or not the user's, also where addr + len wraps around, or when no area
-- permits the access at some address of it. Nothing but the cache changes.
pub user_mem_check-Checked :
    (fuel addr len : ℕ) (write : Bool) (mm : Mm) (xs : List ℕ)
    → IsMm mm xs
    → length xs < fuel
    → addr < word_mod
    → len < word_mod
    → Checked mm addr len write xs (user_mem_check fuel addr len write mm)
unfolding user_mem_check
user_mem_check-Checked fuel addr len write mm xs v h fits short =
    elim (Bool-cases (user_access addr ((addr + len) % word_mod))) [
      | inr e ↦ rw e (record {
        answer = false;
        cached = mm.mmap_cache;
        result = refl;
        valid = v;
        verdict = inr (refl, inl (outside addr len fits short e));
      })
      | inl e ↦
          let u = user_access→InUser addr len fits short e in
          let u₁ = u.1 in
          let u₂ = u.2 in
          let w : ((addr + len) % word_mod ≡ addr + len) = omega arith in
          let b = beyond-length mm.vm_end addr xs in
          rw e (
            rw w (
              let r =
                check_loop-Ran fuel fuel write addr (addr + len) mm.mmap_cache mm xs v h
                  (omega arith) u₂ in
              record {
                answer = r.answer;
                cached = r.cached;
                result = r.result;
                valid = r.valid;
                verdict = elim r.verdict [ inl k ↦ inl (k.0, u, k.1) | inr k ↦ inr (k.0, inr k.1) ];
              }))
    ]
