-- ===== src/Libs/Hash.antt =====
-- lab8/libs/hash.c and rand.c.
use nku_os_2025_lab.Prelude.{ℕ, ◌+◌, ◌-◌, ◌*◌, ◌/◌, ◌%◌, ◌^◌}

abbrev golden_ratio_prime_32 : ℕ
golden_ratio_prime_32 = 0x9e370001

-- `hash32`: the product is kept in 32 bits.
unfoldable pub hash32 : ℕ → ℕ → ℕ
hash32 val bits = val * golden_ratio_prime_32 % 2 ^ 32 / 2 ^ (32 - bits)

-- RAND_MAX is 2147483647.
abbrev rand_max : ℕ
rand_max = 2147483647

-- `rand` on the state `next`: the number and the new state. `& ((1LL << 48) - 1)` is the remainder
-- by 2 ^ 48.
unfoldable pub rand : ℕ → ℕ × ℕ
rand next =
    let state = (next * 0x5DEECE66D + 0xB) % 2 ^ 64 % 2 ^ 48 in
    (state / 2 ^ 12 % (rand_max + 1), state)

unfoldable pub srand : ℕ → ℕ
srand seed = seed
