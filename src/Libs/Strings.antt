-- ===== src/Libs/Strings.antt =====
-- lab8/libs/string.c: strings and blocks of bytes in memory. An address and a byte are numbers
-- (`char` is unsigned on RISC-V). A function that runs to the end of a string takes fuel, and
-- `none` is the end of the fuel: more fuel than the string is long is enough.
pub mod Blocks
pub mod Text
pub mod Compare
use nku_os_2025_lab.Prelude.{
  ℕ, zero, suc, ◌+◌, ◌-◌, ◌*◌, ◌%◌, ◌^◌, Bool, true, false, not, ◌&&◌, ◌||◌, Option, none, some,
  ltb, leb, ◌==◌, if◌then◌else◌, ◌>>=◌, update,
}
use nku_os_2025_lab.Prelude.Int.{ℤ, sub_ℕ}

abbrev pub Memory : Type 0
Memory = ℕ → ℕ

-- The loop of `strlen`.
unfoldable pub strlen_loop : ℕ → ℕ → ℕ → Memory → Option ℕ
strlen_loop zero s cnt m = none
strlen_loop (suc fuel) s cnt m =
    let rest = strlen_loop fuel (s + 1) (cnt + 1) m in if m s == 0 then some cnt else rest

unfoldable pub strlen : ℕ → ℕ → Memory → Option ℕ
strlen fuel s m = strlen_loop fuel s 0 m

-- `strnlen`, over the characters that may still be read.
unfoldable pub strnlen : ℕ → ℕ → Memory → ℕ
strnlen s zero m = 0
strnlen s (suc len) m = let rest = suc (strnlen (s + 1) len m) in if m s == 0 then 0 else rest

unfoldable pub strcpy : ℕ → ℕ → ℕ → Memory → Option Memory
strcpy zero dst src m = none
strcpy (suc fuel) dst src m =
    let w = update m dst (m src) in
    let rest = strcpy fuel (dst + 1) (src + 1) w in if m src == 0 then some w else rest

unfoldable pub strncpy : ℕ → ℕ → ℕ → Memory → Memory
strncpy dst src zero m = m
strncpy dst src (suc len) m =
    strncpy (dst + 1) (if m src == 0 then src else src + 1) len (update m dst (m src))

unfoldable pub strcat : ℕ → ℕ → ℕ → Memory → Option Memory
strcat fuel dst src m = do n ← strlen fuel dst m; strcpy fuel (dst + n) src m

-- The difference of two bytes is an `int`.
unfoldable pub strcmp : ℕ → ℕ → ℕ → Memory → Option ℤ
strcmp zero s1 s2 m = none
strcmp (suc fuel) s1 s2 m =
    let rest = strcmp fuel (s1 + 1) (s2 + 1) m in
    if not (m s1 == 0) && m s1 == m s2 then rest else some (sub_ℕ (m s1) (m s2))

unfoldable pub strncmp : ℕ → ℕ → ℕ → Memory → ℤ
strncmp s1 s2 zero m = ℤ.pos 0
strncmp s1 s2 (suc n) m =
    let rest = strncmp (s1 + 1) (s2 + 1) n m in
    if not (m s1 == 0) && m s1 == m s2 then rest else sub_ℕ (m s1) (m s2)

-- NULL is `none` inside.
unfoldable pub strchr : ℕ → ℕ → ℕ → Memory → Option (Option ℕ)
strchr zero s c m = none
strchr (suc fuel) s c m =
    let rest = strchr fuel (s + 1) c m in
    if m s == 0 then some none else if m s == c then some (some s) else rest

unfoldable pub strfind : ℕ → ℕ → ℕ → Memory → Option ℕ
strfind zero s c m = none
strfind (suc fuel) s c m =
    let rest = strfind fuel (s + 1) c m in
    if m s == 0 then some s else if m s == c then some s else rest

unfoldable pub memset : ℕ → ℕ → ℕ → Memory → Memory
memset s c zero m = m
memset s c (suc n) m = memset (s + 1) c n (update m s c)

unfoldable pub memcpy : ℕ → ℕ → ℕ → Memory → Memory
memcpy d s zero m = m
memcpy d s (suc n) m = memcpy (d + 1) (s + 1) n (update m d (m s))

-- The loop of `memmove` that runs down; `d` and `s` point behind the blocks.
unfoldable pub move_down : ℕ → ℕ → ℕ → Memory → Memory
move_down d s zero m = m
move_down d s (suc n) m = move_down (d - 1) (s - 1) n (update m (d - 1) (m (s - 1)))

unfoldable pub move_up : ℕ → ℕ → ℕ → Memory → Memory
move_up d s zero m = m
move_up d s (suc n) m = move_up (d + 1) (s + 1) n (update m d (m s))

unfoldable pub memmove : ℕ → ℕ → ℕ → Memory → Memory
memmove dst src n m =
    if ltb src dst && ltb dst (src + n)
    then move_down (dst + n) (src + n) n m
    else move_up dst src n m

unfoldable pub memcmp : ℕ → ℕ → ℕ → Memory → ℤ
memcmp s1 s2 zero m = ℤ.pos 0
memcmp s1 s2 (suc n) m =
    let rest = memcmp (s1 + 1) (s2 + 1) n m in if m s1 == m s2 then rest else sub_ℕ (m s1) (m s2)

-- The value of a digit or letter, if `c` is one.
unfoldable pub digit : ℕ → Option ℕ
digit c =
    if leb b'0' c && leb c b'9'
    then some (c - b'0')
    else if leb b'a' c && leb c b'z'
    then some (c - b'a' + 10)
    else if leb b'A' c && leb c b'Z'
    then some (c - b'A' + 10)
    else none

-- `while (*s == ' ' || *s == '\t') s ++;`
unfoldable pub skip_blanks : ℕ → ℕ → Memory → Option ℕ
skip_blanks zero s m = none
skip_blanks (suc fuel) s m =
    let rest = skip_blanks fuel (s + 1) m in if m s == b' ' || m s == 9 then rest else some s

-- The loop over the digits: the end and the value, in 64 bits.
unfoldable pub digits_loop : ℕ → ℕ → ℕ → ℕ → Memory → Option (ℕ × ℕ)
digits_loop zero s base val m = none
digits_loop (suc fuel) s base val m = elim (digit (m s)) [
  | none ↦ some (s, val)
  | some dig ↦
      let rest = digits_loop fuel (s + 1) base ((val * base + dig) % 2 ^ 64) m in
      if leb base dig then some (s, val) else rest
]

-- The sign, and where the number goes on.
unfoldable pub sign_of : ℕ → Memory → Bool × ℕ
sign_of s m =
    if m s == b'+' then (false, s + 1) else if m s == b'-' then (true, s + 1) else (false, s)

-- The base, and where the digits begin.
unfoldable pub base_of : ℕ → ℕ → Memory → ℕ × ℕ
base_of base s m =
    if (base == 0 || base == 16) && (m s == b'0' && m (s + 1) == b'x')
    then (16, s + 2)
    else if base == 0 && m s == b'0'
    then (8, s + 1)
    else if base == 0
    then (10, s)
    else (base, s)

-- A `long` from its 64 bits.
unfoldable pub to_long : ℕ → ℤ
to_long w = if ltb w (2 ^ 63) then ℤ.pos w else ℤ.negsuc (2 ^ 64 - w - 1)

-- The value and the end.
unfoldable pub strtol : ℕ → ℕ → ℕ → Memory → Option (ℤ × ℕ)
unfolding digits_loop skip_blanks sign_of base_of to_long
strtol fuel s base m = do
  start ← skip_blanks fuel s m
  let (neg, t) = sign_of start m
  let (base', u) = base_of base t m
  (end, val) ← digits_loop fuel u base' 0 m
  some (to_long (if neg then (2 ^ 64 - val) % 2 ^ 64 else val), end)
