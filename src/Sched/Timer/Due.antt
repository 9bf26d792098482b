-- ===== src/Sched/Timer/Due.antt =====
-- When the timers of a list are due: the sums of what they have, from the front.
use nku_os_2025_lab.Prelude.{
  ℕ, ◌+◌, ◌≤◌, ◌≡◌, refl, ap, List, [], ◌∷◌, ◌++◌, All, NotIn, arith, update, update_ne,
}

-- Each timer with the tick at which it is due, `now` being the present.
abbrev pub due : (ℕ → ℕ) → ℕ → List ℕ → List (ℕ × ℕ)
due f now [] = []
due f now (x ∷ xs) = (x, now + f x) ∷ due f (now + f x) xs

-- When the last timer of a list is due.
abbrev pub until : (ℕ → ℕ) → ℕ → List ℕ → ℕ
until f now [] = now
until f now (x ∷ xs) = until f (now + f x) xs

pub due-append :
    (f : ℕ → ℕ) (now : ℕ) (xs ys : List ℕ)
    → due f now (xs ++ ys) ≡ due f now xs ++ due f (until f now xs) ys
due-append f now [] ys = refl
due-append f now (x ∷ xs) ys = ap (λ r. (x, now + f x) ∷ r) (due-append f (now + f x) xs ys)

-- Only what the timers of the list have counts.
pub due-agree :
    (f g : ℕ → ℕ) (now : ℕ) (xs : List ℕ) → All (λ x. g x ≡ f x) xs → due g now xs ≡ due f now xs
due-agree f g now [] h = refl
due-agree f g now (x ∷ xs) h =
    rw h.0 (ap (λ r. (x, now + f x) ∷ r) (due-agree f g (now + f x) xs h.1))

pub until-agree :
    (f g : ℕ → ℕ) (now : ℕ) (xs : List ℕ)
    → All (λ x. g x ≡ f x) xs
    → until g now xs ≡ until f now xs
until-agree f g now [] h = refl
until-agree f g now (x ∷ xs) h = rw h.0 (until-agree f g (now + f x) xs h.1)

pub due_from : (f : ℕ → ℕ) (now : ℕ) (xs : List ℕ) → All (λ (e : ℕ × ℕ). now ≤ e.1) (due f now xs)
due_from f now [] = tt
due_from f now (x ∷ xs) = (
  omega arith,
  weaken (now + f x) now (due f (now + f x) xs) (omega arith) (due_from f (now + f x) xs),
)
  where
    weaken :
        (a b : ℕ) (l : List (ℕ × ℕ))
        → b ≤ a
        → All (λ (e : ℕ × ℕ). a ≤ e.1) l
        → All (λ (e : ℕ × ℕ). b ≤ e.1) l
    weaken a b [] h k = tt
    weaken a b (e ∷ l) h k = (omega (arith, h, k.0), weaken a b l h k.1)

pub update-agree :
    (f : ℕ → ℕ) (p v : ℕ) (xs : List ℕ) → NotIn p xs → All (λ x. update f p v x ≡ f x) xs
update-agree f p v [] h = tt
update-agree f p v (x ∷ xs) h = (update_ne f p v x h.0, update-agree f p v xs h.1)
