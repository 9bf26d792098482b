-- ===== src/Fs/Bitmap/Free.antt =====
-- `bitmap_free` gives a block back.
use nku_os_2025_lab.Prelude.{
  ℕ, ◌<◌, ◌≤◌, ◌≡◌, ◌≢◌, ◌⊎◌, inl, inr, arith, true, false, Bool-cases, Option, none, some, lt→ltb,
  le→ltb,
}
use native.Mathlib.Decide.{dec_lt}
use nku_os_2025_lab.Fs.Bitmap.{Bitmap, bitmap_free}
use nku_os_2025_lab.Fs.Bitmap.Search.{free, IsBitmap}
use nku_os_2025_lab.Fs.Bitmap.Alloc.{written, written-IsBitmap, free-written_self, free-written_ne}

-- Giving back the block `i` in use marks it free and changes no other block.
pub record Freed (b : Bitmap) (i : ℕ) (run : Option Bitmap) : Type 0 where
  pub bitmap : Bitmap
  pub result : run ≡ some bitmap
  pub valid : IsBitmap bitmap
  pub inside : i < b.nbits
  pub used : free b i ≡ false
  pub now : free bitmap i ≡ true
  pub rest : (k : ℕ) → k ≢ i → free bitmap k ≡ free b k

-- `bitmap_free` of a block in use marks it free, changes no other block and keeps the invariant; in
-- every other case the block is free already or the bitmap does not have it, and an assertion
-- fails.
pub bitmap_free-Freed :
    (b : Bitmap) (i : ℕ)
    → IsBitmap b
    → Freed b i (bitmap_free b i) ⊎ (((b.nbits ≤ i) ⊎ (free b i ≡ true)) × (bitmap_free b i ≡ none))
unfolding bitmap_free
bitmap_free-Freed b i v = elim (dec_lt i b.nbits) [
  | no h ↦ inr (inl (omega arith), rw (le→ltb i b.nbits (omega arith)))
  | yes h ↦ elim (Bool-cases (free b i)) [
    | inl t ↦ inr (inr t, rw (lt→ltb i b.nbits h) (rw t))
    | inr e ↦ inl (record {
      bitmap = written b i true;
      result = rw (lt→ltb i b.nbits h) (rw e);
      valid = written-IsBitmap b i true h v;
      inside = h;
      used = e;
      now = free-written_self b i true;
      rest = free-written_ne b i true;
    })
  ]
]
