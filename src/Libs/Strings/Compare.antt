-- ===== src/Libs/Strings/Compare.antt =====
-- Comparing strings: the sign of the result is that of the order of the dictionary.
use nku_os_2025_lab.Prelude.{
  ℕ, zero, suc, ◌+◌, ◌-◌, ◌<◌, ◌≡◌, ◌≢◌, refl, subst, ap, arith, eq→==, ne→==, List, [], ◌∷◌,
  length, some,
}
use native.Mathlib.Decide.{ℕ_discrete, dec_lt}
use nku_os_2025_lab.Prelude.Int.{ℤ, sub_ℕ}
use nku_os_2025_lab.Libs.Strings.{Memory, strcmp}
use nku_os_2025_lab.Libs.Strings.Text.{IsString}

-- The order of the dictionary, bytes being compared as numbers.
pub data Before : List ℕ → List ℕ → Type 0 where
  shorter : {c : ℕ} {cs : List ℕ} → Before [] (c ∷ cs)
  less : {c d : ℕ} {cs ds : List ℕ} → c < d → Before (c ∷ cs) (d ∷ ds)
  later : {c : ℕ} {cs ds : List ℕ} → Before cs ds → Before (c ∷ cs) (c ∷ ds)

-- What the result says of the two strings.
pub data Verdict (cs ds : List ℕ) : ℤ → Type 0 where
  equal : cs ≡ ds → Verdict cs ds (ℤ.pos 0)
  before : {n : ℕ} → Before cs ds → Verdict cs ds (ℤ.negsuc n)
  after : {n : ℕ} → Before ds cs → Verdict cs ds (ℤ.pos (suc n))

later_Verdict : (c : ℕ) (cs ds : List ℕ) (r : ℤ) → Verdict cs ds r → Verdict (c ∷ cs) (c ∷ ds) r
later_Verdict c cs ds r (equal e) = equal (ap (λ x. c ∷ x) e)
later_Verdict c cs ds r (before b) = before (later b)
later_Verdict c cs ds r (after b) = after (later b)

below : (a b : ℕ) → a < b → sub_ℕ a b ≡ ℤ.negsuc (b - a - 1)
below a b h = ground arith

above : (a b : ℕ) → b < a → sub_ℕ a b ≡ ℤ.pos (suc (a - b - 1))
above a b h = ground arith

-- Two strings that differ at the first byte.
differ : (c d : ℕ) (cs ds : List ℕ) → c ≢ d → Verdict (c ∷ cs) (d ∷ ds) (sub_ℕ c d)
differ c d cs ds n = elim (dec_lt c d) [
  | yes l ↦ rw (below c d l) (before (less l))
  | no k ↦ let l : (d < c) = omega arith in rw (above c d l) (after (less l))
]

-- `strcmp` of two strings is 0, negative or positive as the first is equal to the second, comes
-- before it or comes after it in the order of the dictionary; more fuel than the first is long is
-- enough.
pub strcmp-Verdict :
    (fuel s1 s2 : ℕ) (m : Memory) (cs ds : List ℕ)
    → IsString m s1 cs
    → IsString m s2 ds
    → length cs < fuel
    → (r : ℤ) × (strcmp fuel s1 s2 m ≡ some r) × Verdict cs ds r
unfolding strcmp
strcmp-Verdict zero s1 s2 m cs ds g h l = elim l [ ]
strcmp-Verdict (suc fuel) s1 s2 m [] [] g h l = (ℤ.pos 0, rw (g, h), equal refl)
strcmp-Verdict (suc fuel) s1 s2 m [] (d ∷ ds) g h l =
    (ℤ.negsuc (d - 0 - 1), rw (g, h.0) (ap some (below 0 d (omega (arith, h.1)))), before shorter)
strcmp-Verdict (suc fuel) s1 s2 m (c ∷ cs) [] g h l = (
  ℤ.pos (suc (c - 0 - 1)),
  rw (g.0, h) (rw (ne→== c 0 g.1) (ap some (above c 0 (omega (arith, g.1))))),
  after shorter,
)
strcmp-Verdict (suc fuel) s1 s2 m (c ∷ cs) (d ∷ ds) g h l = elim (ℕ_discrete c d) [
  | yes e ↦
      let (r, p, v) = strcmp-Verdict fuel (s1 + 1) (s2 + 1) m cs ds g.2 h.2 (omega arith) in
      (
        r,
        rw (g.0, h.0) (rw (ne→== c 0 g.1, eq→== c d e) p),
        subst (λ x. Verdict (c ∷ cs) (x ∷ ds) r) e (later_Verdict c cs ds r v),
      )
  | no n ↦ (sub_ℕ c d, rw (g.0, h.0) (rw (ne→== c 0 g.1, ne→== c d n)), differ c d cs ds n)
]
