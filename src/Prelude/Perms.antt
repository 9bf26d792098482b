-- ===== src/Prelude/Perms.antt =====
-- Distinct items and absence, under permutation.
use Prim.Native.Nat.{ℕ, suc}
use mathlib.Core.Path.{◌≡◌, refl, sym, ap, ◌∙◌}
use mathlib.Core.Logic.Or
use mathlib.Core.List.{
  List, [], ◌∷◌, Mem, Nodup, Perm, mem-cons, not-mem-nil, Nodup-cons, Nodup-nil,
}
use mathlib.Core.List.Perm
use nku_os_2025_lab.Prelude.Lists.{NotIn, Distinct, length}
use mathlib.Core.Nat
use mathlib.Core.List

not-mem-NotIn : (e : ℕ) (xs : List ℕ) → NotIn e xs → ¬ Mem e xs
not-mem-NotIn e [] h m = not-mem-nil m
not-mem-NotIn e (x ∷ xs) h m =
    Or.elim (λ a b. absurd a) (mem-cons.0 m) (λ q. h.0 (sym q)) (λ q. not-mem-NotIn e xs h.1 q)

NotIn-not-mem : (e : ℕ) (xs : List ℕ) → ¬ Mem e xs → NotIn e xs
NotIn-not-mem e [] h = tt
NotIn-not-mem e (x ∷ xs) h =
    (λ q. h (mem-cons.1 (Or.inl (sym q))), NotIn-not-mem e xs (λ m. h (mem-cons.1 (Or.inr m))))

Distinct-Nodup : (xs : List ℕ) → Distinct xs → Nodup xs
Distinct-Nodup [] d = Nodup-nil
Distinct-Nodup (x ∷ xs) d = Nodup-cons.1 (not-mem-NotIn x xs d.0, Distinct-Nodup xs d.1)

Nodup-Distinct : (xs : List ℕ) → Nodup xs → Distinct xs
Nodup-Distinct [] d = tt
Nodup-Distinct (x ∷ xs) d =
    (NotIn-not-mem x xs (Nodup-cons.0 d).0, Nodup-Distinct xs (Nodup-cons.0 d).1)

pub Distinct-perm : {xs ys : List ℕ} → Perm xs ys → Distinct xs → Distinct ys
Distinct-perm {xs} {ys} p d = Nodup-Distinct ys (Perm.nodup p (Distinct-Nodup xs d))

pub NotIn-perm : (e : ℕ) {xs ys : List ℕ} → Perm xs ys → NotIn e xs → NotIn e ys
NotIn-perm e {xs} {ys} p h = NotIn-not-mem e ys (λ m. not-mem-NotIn e xs h ((Perm.mem_iff p).1 m))

to_native : Nat.ℕ → ℕ
to_native Nat.zero = 0
to_native (Nat.suc n) = suc (to_native n)

length-to_native : (xs : List ℕ) → length xs ≡ to_native (List.length xs)
unfolding to_native
length-to_native [] = refl
length-to_native (x ∷ xs) = ap suc (length-to_native xs)

pub length-perm : {xs ys : List ℕ} → Perm xs ys → length xs ≡ length ys
length-perm {xs} {ys} p =
    length-to_native xs ∙ ap to_native (Perm.length-eq p) ∙ sym (length-to_native ys)
