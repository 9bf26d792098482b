-- ===== src/Fs/Bitmap/Search.antt =====
-- The search of `bitmap_alloc` stops at the first bit that is set.
use nku_os_2025_lab.Prelude.{
  ℕ, zero, suc, ◌+◌, ◌*◌, ◌/◌, ◌%◌, ◌<◌, ◌≤◌, ◌≡◌, ◌⊎◌, inl, inr, refl, arith, Bool, true, false,
  Bool-cases, some, update,
}
use native.Mathlib.Decide.{ℕ_discrete}
use nku_os_2025_lab.Fs.Bitmap.{Bitmap, Word, word_bits, toggle, any_bit, find_bit, alloc_loop}
use nku_os_2025_lab.Libs.Errors.{e_no_mem}

-- Whether block `i` is free.
abbrev pub free : Bitmap → ℕ → Bool
free b i = b.map (i / word_bits) (i % word_bits)

-- The words are as many as the bits need, and no bit behind the last one is free.
pub record IsBitmap (b : Bitmap) : Type 0 where
  pub words : b.nwords ≡ (b.nbits + 31) / word_bits
  pub beyond : (i : ℕ) → b.nbits ≤ i → i < b.nwords * word_bits → free b i ≡ false

-- The first bit of a word that is set.
pub record FirstBit (w : Word) (lo hi o : ℕ) : Type 0 where
  above : lo ≤ o
  below : o < hi
  here : w o ≡ true
  before : (k : ℕ) → lo ≤ k → k < o → w k ≡ false

pub find_bit_cases :
    (left lo : ℕ) (w : Word)
    → ((any_bit left lo w ≡ false) × ((k : ℕ) → lo ≤ k → k < lo + left → w k ≡ false))
      ⊎ ((any_bit left lo w ≡ true)
          × ((o : ℕ) × (find_bit left lo w ≡ some o) × FirstBit w lo (lo + left) o))
unfolding any_bit find_bit
find_bit_cases zero lo w = inl (refl, λ k h l. absurd (omega arith))
find_bit_cases (suc left) lo w = elim (Bool-cases (w lo)) [
  | inl e ↦ inr (
    rw e,
    (
      lo,
      rw e,
      record {
        above = omega arith;
        below = omega arith;
        here = e;
        before = λ k h l. absurd (omega arith);
      },
    ),
  )
  | inr e ↦ elim (find_bit_cases left (lo + 1) w) [
    | inl n ↦ inl (
      rw e n.0,
      λ k h l. elim (ℕ_discrete k lo) [ yes q ↦ rw q e | no d ↦ n.1 k (omega arith) (omega arith) ],
    )
    | inr (a, (o, f, r)) ↦ inr (
      rw e a,
      (
        o,
        rw e f,
        record {
          above = omega (arith, r.above);
          below = omega (arith, r.below);
          here = r.here;
          before = λ k h l. elim (ℕ_discrete k lo) [
            | yes q ↦ rw q e
            | no d ↦ r.before k (omega arith) l
          ];
        },
      ),
    )
  ]
]

abbrev pub Empty : Word → Type 0
Empty w = (k : ℕ) → k < word_bits → w k ≡ false

abbrev pub taken : Bitmap → ℕ → ℕ → Bitmap
taken b wd o = record b { map = update b.map wd (toggle (b.map wd) o) }

-- Where the loop stops: at bit `o` of word `wd`.
pub record Found (b : Bitmap) (ix left wd o : ℕ) : Type 0 where
  pub from : ix ≤ wd
  pub to : wd < ix + left
  pub inside : o < word_bits
  pub here : b.map wd o ≡ true
  pub words : (x : ℕ) → ix ≤ x → x < wd → Empty (b.map x)
  pub bits : (k : ℕ) → k < o → b.map wd k ≡ false

pub alloc_loop_cases :
    (left ix : ℕ) (b : Bitmap)
    → ((alloc_loop left ix b ≡ some ((e_no_mem, 0), b))
        × ((x : ℕ) → ix ≤ x → x < ix + left → Empty (b.map x)))
      ⊎ ((wd : ℕ) × (o : ℕ) × (alloc_loop left ix b ≡ some ((0, wd * word_bits + o), taken b wd o))
          × Found b ix left wd o)
unfolding alloc_loop
alloc_loop_cases zero ix b = inl (refl, λ x h l. absurd (omega arith))
alloc_loop_cases (suc left) ix b = elim (find_bit_cases word_bits 0 (b.map ix)) [
  | inr (a, (o, f, r)) ↦ inr (
    ix,
    o,
    rw a (rw f),
    record {
      from = omega arith;
      to = omega arith;
      inside = r.below;
      here = r.here;
      words = λ x h l. absurd (omega arith);
      bits = λ k l. r.before k (omega arith) l;
    },
  )
  | inl n ↦ elim (alloc_loop_cases left (ix + 1) b) [
    | inl m ↦ inl (
      rw n.0 m.0,
      λ x h l k j. elim (ℕ_discrete x ix) [
        | yes q ↦ rw q (n.1 k (omega arith) j)
        | no d ↦ m.1 x (omega arith) (omega arith) k j
      ],
    )
    | inr (wd, o, e, r) ↦ inr (
      wd,
      o,
      rw n.0 e,
      record {
        from = omega (arith, r.from);
        to = omega (arith, r.to);
        inside = r.inside;
        here = r.here;
        words = λ x h l k j. elim (ℕ_discrete x ix) [
          | yes q ↦ rw q (n.1 k (omega arith) j)
          | no d ↦ r.words x (omega arith) l k j
        ];
        bits = r.bits;
      },
    )
  ]
]
