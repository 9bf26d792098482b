-- ===== src/Fs/Bitmap/Create.antt =====
-- A new bitmap: every block is free.
use nku_os_2025_lab.Prelude.{
  ℕ, zero, suc, ◌+◌, ◌-◌, ◌*◌, ◌/◌, ◌%◌, ◌<◌, ◌≤◌, ◌≡◌, ◌≢◌, ◌⊎◌, ◌∙◌, refl, sym, ap, arith, true,
  not, Option, some, update, update_self, update_ne, lt→ltb, eq→==, ne→==,
}
use native.Mathlib.Decide.{ℕ_discrete}
use nku_os_2025_lab.Fs.Bitmap.{Bitmap, Word, word_bits, toggle, clear_over, fill, bitmap_create}
use nku_os_2025_lab.Fs.Bitmap.Search.{free, IsBitmap}

-- The loop over the leftover bits toggles the bits from `lo` on, each once.
clear_over_lem :
    (left lo : ℕ) (w : Word) (k : ℕ)
    → ((k < lo) ⊎ (lo + left ≤ k) → clear_over left lo w k ≡ w k)
      × (lo ≤ k → k < lo + left → clear_over left lo w k ≡ not (w k))
unfolding clear_over
clear_over_lem zero lo w k = (λ o. refl, λ a b. absurd (omega arith))
clear_over_lem (suc left) lo w k =
    let r = clear_over_lem left (lo + 1) (toggle w lo) k in
    (
      λ o. r.0 (omega arith) ∙ update_ne w lo (not (w lo)) k (omega arith),
      λ a b. elim (ℕ_discrete k lo) [
        | yes q ↦
            r.0 (omega arith)
            ∙ ap (toggle w lo) q
            ∙ update_self w lo (not (w lo))
            ∙ ap (λ n. not (w n)) (sym q)
        | no n ↦ r.1 (omega arith) (omega arith) ∙ ap not (update_ne w lo (not (w lo)) k n)
      ],
    )

-- What a new bitmap of `nbits` blocks is.
pub record Created (nbits : ℕ) (run : Option Bitmap) : Type 0 where
  pub bitmap : Bitmap
  pub result : run ≡ some bitmap
  pub valid : IsBitmap bitmap
  pub size : bitmap.nbits ≡ nbits
  pub all_free : (k : ℕ) → k < nbits → free bitmap k ≡ true

abbrev full : ℕ → Bitmap
full nbits = record { nbits = nbits; nwords = (nbits + 31) / word_bits; map = λ ix offset. true }

fill_even : (nbits : ℕ) → nbits ≡ (nbits + 31) / word_bits * word_bits → Created nbits (fill nbits)
unfolding fill
fill_even nbits e = record {
  bitmap = full nbits;
  result = rw (eq→== nbits ((nbits + 31) / word_bits * word_bits) e);
  valid = record { words = refl; beyond = λ i h l. absurd (omega arith) };
  size = refl;
  all_free = λ k h. refl;
}

fill_odd :
    (nbits : ℕ)
    → nbits ≢ 0
    → nbits ≢ (nbits + 31) / word_bits * word_bits
    → Created nbits (fill nbits)
unfolding fill
fill_odd nbits z n =
    let ix = (nbits + 31) / word_bits - 1 in
    let over = nbits - ix * word_bits in
    let ones : Word = λ offset. true in
    let last = clear_over (word_bits - over) over ones in
    let m = update (full nbits).map ix last in
    let b : Bitmap = record (full nbits) { map = m } in
    record {
      bitmap = b;
      result = rw (ne→== nbits ((nbits + 31) / word_bits * word_bits) n) (
          rw (eq→== (nbits / word_bits) ix (omega arith))
            (rw (lt→ltb 0 over (omega arith), lt→ltb over word_bits (omega arith))));
      valid = record {
        words = refl;
        beyond = λ i h l.
            let q : (i / word_bits ≡ ix) = omega arith in
            ap (λ x. m x (i % word_bits)) q
            ∙ ap (λ (f : Word). f (i % word_bits)) (update_self (full nbits).map ix last)
            ∙ (clear_over_lem (word_bits - over) over ones (i % word_bits)).1 (omega arith)
                (omega arith);
      };
      size = refl;
      all_free = λ k h. elim (ℕ_discrete (k / word_bits) ix) [
        | yes q ↦
            ap (λ x. m x (k % word_bits)) q
            ∙ ap (λ (f : Word). f (k % word_bits)) (update_self (full nbits).map ix last)
            ∙ (clear_over_lem (word_bits - over) over ones (k % word_bits)).0 (omega arith)
        | no d ↦
            ap (λ (f : Word). f (k % word_bits))
              (update_ne (full nbits).map ix last (k / word_bits) d)
      ];
    }

finish :
    (nbits : ℕ)
    → nbits ≢ 0
    → Created nbits (fill nbits)
    → (b : Bitmap) × (bitmap_create true true nbits ≡ some (some b)) × Created nbits (some b)
unfolding bitmap_create
finish nbits z c = (
  c.bitmap,
  rw (ne→== nbits 0 z) (rw c.result),
  record {
    bitmap = c.bitmap;
    result = refl;
    valid = c.valid;
    size = c.size;
    all_free = c.all_free;
  },
)

-- With memory for both its parts, a bitmap of `nbits > 0` blocks is created with every one of its
-- blocks free and no bit behind them, whether or not they fill the last word; no assertion fails.
pub bitmap_create-Created :
    (nbits : ℕ)
    → nbits ≢ 0
    → (b : Bitmap) × (bitmap_create true true nbits ≡ some (some b)) × Created nbits (some b)
bitmap_create-Created nbits z = elim (ℕ_discrete nbits ((nbits + 31) / word_bits * word_bits)) [
  | yes e ↦ finish nbits z (fill_even nbits e)
  | no n ↦ finish nbits z (fill_odd nbits z n)
]
