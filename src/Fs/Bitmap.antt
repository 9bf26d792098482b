-- ===== src/Fs/Bitmap.antt =====
-- lab8/kern/fs/sfs/bitmap.c: the bitmap of free blocks. A 32-bit word is the function from the
-- offset of a bit to the bit; a bit that is 1 marks a free block. `none` is a failed `assert`.
pub mod Search
pub mod Alloc
pub mod Free
pub mod Create
use nku_os_2025_lab.Prelude.{
  ℕ, zero, suc, ◌+◌, ◌-◌, ◌*◌, ◌/◌, ◌%◌, ◌^◌, Bool, true, false, not, ◌||◌, Option, none, some, ltb,
  ◌==◌, if◌then◌else◌, ◌>>=◌, ◌>>◌, assert, update,
}
use nku_os_2025_lab.Libs.Errors.{e_no_mem}

abbrev pub Word : Type 0
Word = ℕ → Bool

abbrev pub word_bits : ℕ
word_bits = 32

pub record Bitmap : Type 0 where
  pub nbits : ℕ
  pub nwords : ℕ
  pub map : ℕ → Word

-- `word ^= (1 << offset)`
abbrev pub toggle : Word → ℕ → Word
toggle w offset = update w offset (not (w offset))

-- `word != 0`, over the bits that are left.
unfoldable pub any_bit : ℕ → ℕ → Word → Bool
any_bit zero offset w = false
any_bit (suc left) offset w = w offset || any_bit left (offset + 1) w

-- The loop of `bitmap_create` that takes the leftover bits away, over the bits that are left.
unfoldable pub clear_over : ℕ → ℕ → Word → Word
clear_over zero overbits w = w
clear_over (suc left) overbits w = clear_over left (overbits + 1) (toggle w overbits)

-- The bitmap that `bitmap_create` fills in, once it has its memory.
unfoldable pub fill : ℕ → Option Bitmap
unfolding clear_over
fill nbits =
    let nwords = (nbits + 31) / word_bits in
    let full : Bitmap = record { nbits = nbits; nwords = nwords; map = λ ix offset. true } in
    let ix = nwords - 1 in
    let overbits = nbits - ix * word_bits in
    if nbits == nwords * word_bits then some full else (do
      assert (nbits / word_bits == ix)
      assert (ltb 0 overbits)
      assert (ltb overbits word_bits)
      some (record full {
        map = update full.map ix (clear_over (word_bits - overbits) overbits (full.map ix));
      }))

-- `bitmap_create`: whether `kmalloc` has room for the record and for the map is given; the result
-- is NULL, `none` inside, where it has not.
unfoldable pub bitmap_create : Bool → Bool → ℕ → Option (Option Bitmap)
unfolding fill
bitmap_create has_record has_map nbits = do
  assert (not (nbits == 0))
  if not has_record
      then some none
      else if not has_map
      then some none
      else (fill nbits >>= λ b. some (some b))

-- The loop over the offsets of a word, over the bits that are left.
unfoldable pub find_bit : ℕ → ℕ → Word → Option ℕ
find_bit zero offset w = none
find_bit (suc left) offset w =
    let rest = find_bit left (offset + 1) w in if w offset then some offset else rest

-- The loop of `bitmap_alloc` over the words that are left: the code, the index and the bitmap.
unfoldable pub alloc_loop : ℕ → ℕ → Bitmap → Option ((ℕ × ℕ) × Bitmap)
alloc_loop zero ix b = some ((e_no_mem, 0), b)
alloc_loop (suc left) ix b =
    let rest = alloc_loop left (ix + 1) b in
    if any_bit word_bits 0 (b.map ix)
    then (find_bit word_bits 0 (b.map ix) >>= λ offset. some (
      (0, ix * word_bits + offset),
      record b { map = update b.map ix (toggle (b.map ix) offset) },
    ))
    else rest

unfoldable pub bitmap_alloc : Bitmap → Option ((ℕ × ℕ) × Bitmap)
bitmap_alloc b = alloc_loop b.nwords 0 b

-- `bitmap_translate`: the number of the word, and the offset that the mask has.
unfoldable pub bitmap_translate : Bitmap → ℕ → Option (ℕ × ℕ)
bitmap_translate b index = do
  assert (ltb index b.nbits)
  some (index / word_bits, index % word_bits)

unfoldable pub bitmap_test : Bitmap → ℕ → Option Bool
unfolding bitmap_translate
bitmap_test b index = do (ix, offset) ← bitmap_translate b index; some (b.map ix offset)

unfoldable pub bitmap_free : Bitmap → ℕ → Option Bitmap
unfolding bitmap_translate
bitmap_free b index = do
  (ix, offset) ← bitmap_translate b index
  assert (not (b.map ix offset))
  some (record b { map = update b.map ix (update (b.map ix) offset true) })

-- `bitmap_getdata`: the map and its length in bytes.
unfoldable pub bitmap_getdata : Bitmap → (ℕ → Word) × ℕ
bitmap_getdata b = (b.map, 4 * b.nwords)
