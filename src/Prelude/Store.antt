-- ===== src/Prelude/Store.antt =====
-- Memory as a function of the address, and a write to one cell.
use Prim.Native.Nat.{ℕ}
use mathlib.Core.Path.{◌≡◌, refl}
use mathlib.Core.Logic.{◌≢◌}
use nku_os_2025_lab.Prelude.Tests.{◌==◌, if◌then◌else◌, eq→==, ne→==}

module _ {ℓ} {A : Type ℓ} where
  abbrev pub update : (ℕ → A) → ℕ → A → ℕ → A
  update f a v x = if x == a then v else f x

  pub update_self : (f : ℕ → A) (a : ℕ) (v : A) → update f a v a ≡ v
  update_self f a v = rw (eq→== a a refl)

  pub update_ne : (f : ℕ → A) (a : ℕ) (v : A) (x : ℕ) → x ≢ a → update f a v x ≡ f x
  update_ne f a v x h = rw (ne→== x a h)
