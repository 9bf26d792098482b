-- ===== src/Sched/Timer/Delete.antt =====
-- Deleting a timer: no other timer moves.
use nku_os_2025_lab.Prelude.{
  ℕ, ◌+◌, ◌%◌, ◌<◌, ◌≡◌, ◌≢◌, sym, ap, ap₂, ◌∙◌, List, [], ◌∷◌, ◌++◌, All, All-append_right,
  Distinct, arith, Bool-cases, inl, inr, eq→==, ne→==, ◌==◌, update, update_self,
}
use native.Mathlib.Decide.{ℕ_discrete}
use nku_os_2025_lab.Libs.LinkedList.{Links, list_empty}
use nku_os_2025_lab.Libs.LinkedList.Ring.{IsRing, IsSeg-split_right}
use nku_os_2025_lab.Libs.LinkedList.Distinct.{NotIn-after, Distinct-remove, NotIn-before}
use nku_os_2025_lab.Libs.LinkedList.Remove.{IsRing-list_del_init}
use nku_os_2025_lab.Sched.Proc.{uint_mod}
use nku_os_2025_lab.Sched.Timer.{Timers, hand_on, del_timer}
use nku_os_2025_lab.Sched.Timer.Due.{due, until, due-append, due-agree, until-agree, update-agree}

module _ (s : Timers) (t : ℕ) where
  hand_on_zero : s.expires t ≡ 0 → hand_on t s ≡ s.expires
  unfolding hand_on
  hand_on_zero z = rw (eq→== (s.expires t) 0 z)

  hand_on_last : s.links.next t ≡ s.header → hand_on t s ≡ s.expires
  unfolding hand_on
  hand_on_last e = elim (Bool-cases (s.expires t == 0)) [
    | inl b ↦ rw b
    | inr b ↦ rw b (rw (eq→== (s.links.next t) s.header e))
  ]

  hand_on_next :
      (y : ℕ)
      → s.expires t ≢ 0
      → s.links.next t ≡ y
      → y ≢ s.header
      → hand_on t s ≡ update s.expires y ((s.expires y + s.expires t) % uint_mod)
  unfolding hand_on
  hand_on_next y z e n = rw (ne→== (s.expires t) 0 z) (rw e (rw (ne→== y s.header n)))

-- The sums behind `t` when it has handed on its ticks to `y`.
times_next :
    (f : ℕ → ℕ) (t y : ℕ) (ys zs : List ℕ)
    → Distinct (ys ++ y ∷ zs)
    → f y + f t < uint_mod
    → due (update f y ((f y + f t) % uint_mod)) 0 (ys ++ y ∷ zs)
      ≡ due f 0 ys ++ due f (until f 0 ys + f t) (y ∷ zs)
times_next f t y ys zs d fits =
    let v = (f y + f t) % uint_mod in
    let g = update f y v in
    let a = update-agree f y v ys (NotIn-before ys y zs d) in
    let b = update-agree f y v zs (NotIn-after ys y zs d) in
    let gy : (g y ≡ f y + f t) = update_self f y v ∙ omega arith in
    let u = until-agree f g 0 ys a in
    let e : (until g 0 ys + g y ≡ until f 0 ys + f t + f y) = omega (arith, gy, u) in
    due-append g 0 ys (y ∷ zs)
    ∙ ap₂ (λ (p q : List (ℕ × ℕ)). p ++ q) (due-agree f g 0 ys a)
        (ap (λ (k : ℕ). (y, k) ∷ due g k zs) e
          ∙ ap (λ r. (y, until f 0 ys + f t + f y) ∷ r)
              (due-agree f g (until f 0 ys + f t + f y) zs b))

times_left :
    (s : Timers) (t : ℕ) (ys zs : List ℕ)
    → IsRing s.links s.header (ys ++ t ∷ zs)
    → All (λ y. s.expires y + s.expires t < uint_mod) zs
    → due (hand_on t s) 0 (ys ++ zs)
      ≡ due s.expires 0 ys ++ due s.expires (until s.expires 0 ys + s.expires t) zs
times_left s t ys [] r fits =
    let e = (IsSeg-split_right s.links s.header ys t [] s.header r.seg).0 in
    ap (λ g. due g 0 (ys ++ [])) (hand_on_last s t e) ∙ due-append s.expires 0 ys []
times_left s t ys (y ∷ zs) r fits =
    let seg = IsSeg-split_right s.links s.header ys t (y ∷ zs) s.header r.seg in
    let ne = (All-append_right (λ z. z ≢ s.header) ys (t ∷ y ∷ zs) r.distinct.0).1.0 in
    elim (ℕ_discrete (s.expires t) 0) [
      | yes z ↦
          let e : (until s.expires 0 ys ≡ until s.expires 0 ys + s.expires t) = omega arith in
          ap (λ g. due g 0 (ys ++ y ∷ zs)) (hand_on_zero s t z)
          ∙ due-append s.expires 0 ys (y ∷ zs)
          ∙ ap (λ k. due s.expires 0 ys ++ due s.expires k (y ∷ zs)) e
      | no n ↦
          ap (λ g. due g 0 (ys ++ y ∷ zs)) (hand_on_next s t y n seg.0 ne)
          ∙ times_next s.expires t y ys zs (Distinct-remove ys t (y ∷ zs) r.distinct.1) fits.0
    ]

next-ne :
    (l : Links) (header : ℕ) (ys : List ℕ) (t : ℕ) (zs : List ℕ)
    → IsRing l header (ys ++ t ∷ zs)
    → l.next t ≢ t
next-ne l header ys t [] r e =
    let seg = IsSeg-split_right l header ys t [] header r.seg in
    (All-append_right (λ z. z ≢ header) ys (t ∷ []) r.distinct.0).0 (sym e ∙ seg.0)
next-ne l header ys t (y ∷ zs) r e =
    let seg = IsSeg-split_right l header ys t (y ∷ zs) header r.seg in
    (NotIn-after ys t (y ∷ zs) r.distinct.1).0 (sym seg.0 ∙ e)

-- Deleting a timer that stands in the list, wherever it stands, takes it from the list and leaves
-- every other timer due when it was, where no sum of its `expires` and that of a timer behind it
-- overflows. Deleting it again does nothing.
pub del_timer-deletes :
    (s : Timers) (t : ℕ) (ys zs : List ℕ)
    → IsRing s.links s.header (ys ++ t ∷ zs)
    → All (λ y. s.expires y + s.expires t < uint_mod) zs
    → IsRing (del_timer t s).links s.header (ys ++ zs)
      × (due s.expires 0 (ys ++ t ∷ zs)
          ≡ due s.expires 0 ys
            ++ (t, until s.expires 0 ys + s.expires t)
              ∷ due s.expires (until s.expires 0 ys + s.expires t) zs)
      × (due (del_timer t s).expires 0 (ys ++ zs)
          ≡ due s.expires 0 ys ++ due s.expires (until s.expires 0 ys + s.expires t) zs)
      × (del_timer t (del_timer t s) ≡ del_timer t s)
unfolding del_timer list_empty
del_timer-deletes s t ys zs r fits =
    let n = ne→== (s.links.next t) t (next-ne s.links s.header ys t zs r) in
    let d = IsRing-list_del_init ys t zs r in
    rw n (d.0, due-append s.expires 0 ys (t ∷ zs), times_left s t ys zs r fits, rw d.1)
