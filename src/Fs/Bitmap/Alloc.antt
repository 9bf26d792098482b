-- ===== src/Fs/Bitmap/Alloc.antt =====
-- `bitmap_alloc` takes the first free block of the bitmap.
use nku_os_2025_lab.Prelude.{
  ℕ, ◌+◌, ◌*◌, ◌/◌, ◌%◌, ◌<◌, ◌≡◌, ◌≢◌, ◌⊎◌, inl, inr, ◌∙◌, refl, sym, ap, arith, Bool, true, false,
  Option, some, update, update_self, update_ne,
}
use mathlib.Core.Bool.{true≢false}
use native.Mathlib.Decide.{ℕ_discrete, dec_lt}
use nku_os_2025_lab.Fs.Bitmap.{Bitmap, Word, word_bits, bitmap_alloc}
use nku_os_2025_lab.Fs.Bitmap.Search.{free, IsBitmap, Found, taken, alloc_loop_cases}
use nku_os_2025_lab.Libs.Errors.{e_no_mem}

-- What taking block `i` leaves.
pub record Allocated (b : Bitmap) (i : ℕ) (run : Option ((ℕ × ℕ) × Bitmap)) : Type 0 where
  pub bitmap : Bitmap
  pub result : run ≡ some ((0, i), bitmap)
  pub valid : IsBitmap bitmap
  pub nbits : bitmap.nbits ≡ b.nbits
  pub inside : i < b.nbits
  pub here : free b i ≡ true
  pub before : (k : ℕ) → k < i → free b k ≡ false
  pub now : free bitmap i ≡ false
  pub rest : (k : ℕ) → k ≢ i → free bitmap k ≡ free b k

-- A write to the bit of block `i`.
abbrev pub written : Bitmap → ℕ → Bool → Bitmap
written b i v = record b {
  map = update b.map (i / word_bits) (update (b.map (i / word_bits)) (i % word_bits) v);
}

pub free-written_self : (b : Bitmap) (i : ℕ) (v : Bool) → free (written b i v) i ≡ v
free-written_self b i v =
    rw (update_self b.map (i / word_bits) (update (b.map (i / word_bits)) (i % word_bits) v))
      (update_self (b.map (i / word_bits)) (i % word_bits) v)

pub free-written_ne :
    (b : Bitmap) (i : ℕ) (v : Bool) (k : ℕ) → k ≢ i → free (written b i v) k ≡ free b k
free-written_ne b i v k n =
    let w = update (b.map (i / word_bits)) (i % word_bits) v in
    elim (ℕ_discrete (k / word_bits) (i / word_bits)) [
      | yes q ↦ rw q (
          rw (update_self b.map (i / word_bits) w) (
            update_ne (b.map (i / word_bits)) (i % word_bits) v (k % word_bits) (omega arith)
            ∙ ap (λ n. b.map n (k % word_bits)) (sym q)))
      | no d ↦
          ap (λ (f : Word). f (k % word_bits)) (update_ne b.map (i / word_bits) w (k / word_bits) d)
    ]

taken-eq-written :
    (b : Bitmap) (wd o : ℕ)
    → o < word_bits
    → b.map wd o ≡ true
    → taken b wd o ≡ written b (wd * word_bits + o) false
taken-eq-written b wd o h e =
    let d : ((wd * word_bits + o) / word_bits ≡ wd) = omega arith in
    let r : ((wd * word_bits + o) % word_bits ≡ o) = omega arith in rw (e, d, r)

-- A block that is marked free is one of the bitmap's.
free-inside :
    (b : Bitmap) (i : ℕ) → IsBitmap b → i < b.nwords * word_bits → free b i ≡ true → i < b.nbits
free-inside b i v h e = elim (dec_lt i b.nbits) [
  | yes l ↦ l
  | no n ↦ absurd (true≢false (sym e ∙ v.beyond i (omega arith) h))
]

pub written-IsBitmap :
    (b : Bitmap) (i : ℕ) (v : Bool) → i < b.nbits → IsBitmap b → IsBitmap (written b i v)
written-IsBitmap b i v h w = record {
  words = w.words;
  beyond = λ k l m. free-written_ne b i v k (omega arith) ∙ w.beyond k l m;
}

Found-Allocated :
    (b : Bitmap) (wd o : ℕ)
    → IsBitmap b
    → Found b 0 b.nwords wd o
    → Allocated b (wd * word_bits + o) (some ((0, wd * word_bits + o), taken b wd o))
Found-Allocated b wd o v f =
    let i = wd * word_bits + o in
    let d : (wd ≡ i / word_bits) = omega (arith, f.inside) in
    let r : (o ≡ i % word_bits) = omega (arith, f.inside) in
    let here : (free b i ≡ true) =
      ap (λ n. b.map n (i % word_bits)) (sym d) ∙ ap (b.map wd) (sym r) ∙ f.here in
    let inside = free-inside b i v (omega (arith, f.inside, f.to)) here in
    record {
      bitmap = written b i false;
      result = ap (λ x. some ((0, i), x)) (taken-eq-written b wd o f.inside f.here);
      valid = written-IsBitmap b i false inside v;
      nbits = refl;
      inside = inside;
      here = here;
      before = λ k h. elim (ℕ_discrete (k / word_bits) wd) [
        | yes q ↦
            ap (λ n. b.map n (k % word_bits)) q ∙ f.bits (k % word_bits) (omega (arith, f.inside))
        | no n ↦
            f.words (k / word_bits) (omega arith) (omega (arith, f.inside)) (k % word_bits)
              (omega arith)
      ];
      now = free-written_self b i false;
      rest = free-written_ne b i false;
    }

-- `bitmap_alloc` takes the first free block and marks it used, or returns E_NO_MEM where no block
-- is free; no assertion fails, and no other block changes.
pub bitmap_alloc-Allocated :
    (b : Bitmap)
    → IsBitmap b
    → ((i : ℕ) × Allocated b i (bitmap_alloc b))
      ⊎ ((bitmap_alloc b ≡ some ((e_no_mem, 0), b)) × ((k : ℕ) → k < b.nbits → free b k ≡ false))
unfolding bitmap_alloc
bitmap_alloc-Allocated b v = elim (alloc_loop_cases b.nwords 0 b) [
  | inl m ↦ inr (
    m.0,
    λ k h. m.1 (k / word_bits) (omega arith) (omega (arith, v.words)) (k % word_bits) (omega arith),
  )
  | inr (wd, o, e, f) ↦ inl (wd * word_bits + o, rw e (Found-Allocated b wd o v f))
]
