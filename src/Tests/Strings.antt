-- ===== src/Tests/Strings.antt =====
-- The strings "ab" at 10 and "c" at 20.
use nku_os_2025_lab.Prelude.{◌≡◌, refl, some, [], ◌∷◌, ◌==◌, if◌then◌else◌, arith}
use nku_os_2025_lab.Prelude.Int.{ℤ}
use nku_os_2025_lab.Libs.Strings.{
  Memory, memmove, memcmp, strcpy, strcat, strchr, strfind, strcmp, strtol,
}
use nku_os_2025_lab.Libs.Strings.Blocks.{Copied, memmove-Copied}
use nku_os_2025_lab.Libs.Strings.Text.{IsString}
use nku_os_2025_lab.Libs.Strings.Compare.{Verdict, strcmp-Verdict}

abbrev memory : Memory
memory x = if x == 10 then 97 else if x == 11 then 98 else if x == 20 then 99 else 0

ab : IsString memory 10 (97 ∷ 98 ∷ [])
ab = omega arith

c : IsString memory 20 (99 ∷ [])
c = omega arith

memmove-Copied_example : Copied 11 10 2 memory (memmove 11 10 2 memory)
memmove-Copied_example = memmove-Copied 11 10 2 memory

strcmp-Verdict_example :
    (r : ℤ) × (strcmp 5 10 20 memory ≡ some r) × Verdict (97 ∷ 98 ∷ []) (99 ∷ []) r
strcmp-Verdict_example = strcmp-Verdict 5 10 20 memory (97 ∷ 98 ∷ []) (99 ∷ []) ab c (omega arith)

-- " -0x1f" read in base 0.
abbrev number : Memory
number x =
    if x == 0
    then b' '
    else if x == 1
    then b'-'
    else if x == 2
    then b'0'
    else if x == 3
    then b'x'
    else if x == 4
    then b'1'
    else if x == 5
    then b'f'
    else 0

strtol_run : strtol 9 0 0 number ≡ some (ℤ.negsuc 30, 6)
unfolding strtol nku_os_2025_lab.Libs.Strings.digit
strtol_run = refl
