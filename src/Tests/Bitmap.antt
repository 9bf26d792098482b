-- ===== src/Tests/Bitmap.antt =====
-- A bitmap of 40 blocks of which the first is used.
use nku_os_2025_lab.Prelude.{ℕ, ◌<◌, ◌≡◌, refl, false, some, ◌⊎◌, ◌==◌, if◌then◌else◌, ltb, arith}
use nku_os_2025_lab.Fs.Bitmap.{Bitmap, bitmap_alloc}
use nku_os_2025_lab.Fs.Bitmap.Search.{IsBitmap, free}
use nku_os_2025_lab.Fs.Bitmap.Alloc.{Allocated, bitmap_alloc-Allocated}
use nku_os_2025_lab.Libs.Errors.{e_no_mem}

abbrev forty : Bitmap
forty = record {
  nbits = 40;
  nwords = 2;
  map = λ ix offset. if ix == 0 then ltb 0 offset else ltb offset 8;
}

forty-IsBitmap : IsBitmap forty
forty-IsBitmap = record { words = refl; beyond = λ i h l. ground arith }

bitmap_alloc-Allocated_example :
    ((i : ℕ) × Allocated forty i (bitmap_alloc forty))
    ⊎ ((bitmap_alloc forty ≡ some ((e_no_mem, 0), forty))
        × ((k : ℕ) → k < forty.nbits → free forty k ≡ false))
bitmap_alloc-Allocated_example = bitmap_alloc-Allocated forty forty-IsBitmap
