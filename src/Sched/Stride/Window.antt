-- ===== src/Sched/Stride/Window.antt =====
-- Strides that lie within `big_stride` of a base are ordered by the comparison, though they wrap.
use nku_os_2025_lab.Prelude.{ℕ, ◌+◌, ◌-◌, ◌%◌, ◌≤◌, ◌<◌, ◌≡◌, true, false, arith}
use native.Mathlib.Decide.{dec_lt, dec_le}
use nku_os_2025_lab.Sched.Proc.{Proc, uint_mod}
use nku_os_2025_lab.Sched.Stride.{big_stride, stride_less}

-- How far the stride `s` is ahead of `base`.
abbrev pub ahead : ℕ → ℕ → ℕ
ahead base s = (s + uint_mod - base) % uint_mod

abbrev pub Within : ℕ → ℕ → Type 0
Within base s = (s < uint_mod) × (ahead base s ≤ big_stride)

pub Within-dec : (base s : ℕ) → Dec (Within base s)
Within-dec base s = elim (dec_lt s uint_mod) [
  | no n ↦ no (λ w. n w.0)
  | yes a ↦ elim (dec_le (ahead base s) big_stride) [ no n ↦ no (λ w. n w.1) | yes b ↦ yes (a, b) ]
]

module _ (proc : ℕ → Proc) (base : ℕ) (small : base < uint_mod) (a b : ℕ)
    (va : Within base (proc a).stride) (vb : Within base (proc b).stride) where
  pub less→ahead :
      stride_less proc a b ≡ true → ahead base (proc a).stride < ahead base (proc b).stride
  unfolding stride_less
  less→ahead h = ground arith

  pub not_less→ahead :
      stride_less proc a b ≡ false → ahead base (proc b).stride ≤ ahead base (proc a).stride
  unfolding stride_less
  not_less→ahead h = ground arith

  pub ahead→not_less :
      ahead base (proc b).stride ≤ ahead base (proc a).stride → stride_less proc a b ≡ false
  unfolding stride_less
  ahead→not_less h = ground arith

-- The window moves up to any stride in it that is least.
pub Within-moved :
    (base m s : ℕ)
    → base < uint_mod
    → Within base m
    → Within base s
    → ahead base m ≤ ahead base s
    → Within m s
Within-moved base m s small vm vs h = omega arith

-- A stride that was advanced lies within the window that begins at the old one.
pub Within-advanced : (m d : ℕ) → m < uint_mod → d ≤ big_stride → Within m ((m + d) % uint_mod)
Within-advanced m d h k = omega arith
