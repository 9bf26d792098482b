-- ===== src/Sched/Timer/Add.antt =====
-- Adding a timer: it is due when it asks to be, and no other timer moves.
use nku_os_2025_lab.Prelude.{
  ℕ, zero, suc, ◌+◌, ◌-◌, ◌≤◌, ◌<◌, ◌≡◌, ◌≢◌, sym, refl, ap, ap₂, ◌∙◌, subst, List, [], ◌∷◌, ◌++◌,
  All, All-map, All-append_left, All-append_right, NotIn, Distinct, arith, length, Option, some,
  Bool-cases, inl, inr, ltb, lt→ltb, ltb→lt, ltb→le, eq→==, ne→==, update, update_self, update_ne,
  append-nil,
}
use nku_os_2025_lab.Libs.LinkedList.{Links, list_add_before, list_empty}
use nku_os_2025_lab.Libs.LinkedList.Ring.{IsRing, IsSeg}
use nku_os_2025_lab.Libs.LinkedList.Insert.{IsRing-list_add_before, IsRing-list_add_tail}
use nku_os_2025_lab.Sched.Timer.{Timers, add_loop, add_timer}
use nku_os_2025_lab.Sched.Timer.Due.{due, until, due-agree, until-agree, due_from, update-agree}

-- The entries `xs` follow from `cur` on, to the header.
abbrev Walk : Links → ℕ → ℕ → List ℕ → Type 0
Walk l header cur [] = cur ≡ header
Walk l header cur (x ∷ xs) = (cur ≡ x) × (x ≢ header) × Walk l header (l.next x) xs

abbrev first : ℕ → List ℕ → ℕ
first header [] = header
first header (x ∷ xs) = x

-- Where `add_loop` stops, and what it leaves.
record Placed (f : ℕ → ℕ) (t header now : ℕ) (xs : List ℕ) (run : Option (ℕ × (ℕ → ℕ)))
    : Type 0 where
  left : ℕ → ℕ
  before : List ℕ
  behind : List ℕ
  split : xs ≡ before ++ behind
  result : run ≡ some (first header behind, left)
  times :
      due left now (before ++ t ∷ behind)
      ≡ due f now before ++ (t, now + f t) ∷ due f (until f now before) behind
  early : All (λ (e : ℕ × ℕ). e.1 ≤ now + f t) (due f now before)
  late : All (λ (e : ℕ × ℕ). now + f t < e.1) (due f (until f now before) behind)
  frame : (z : ℕ) → z ≢ t → NotIn z xs → left z ≡ f z

-- The loop stops before `x`.
stop :
    (t header now x : ℕ) (xs : List ℕ) (f : ℕ → ℕ)
    → NotIn t (x ∷ xs)
    → Distinct (x ∷ xs)
    → f t < f x
    → Placed f t header now (x ∷ xs) (some (x, update f x (f x - f t)))
stop t header now x xs f n d h =
    let g = update f x (f x - f t) in
    let gt : (g t ≡ f t) = update_ne f x (f x - f t) t (λ e. n.0 (sym e)) in
    let gx : (g x ≡ f x - f t) = update_self f x (f x - f t) in
    let e : (now + g t + g x ≡ now + f x) = omega (arith, gt, gx, h) in
    record {
      left = g;
      before = [];
      behind = x ∷ xs;
      split = refl;
      result = refl;
      times =
          ap₂ (λ (a : ℕ) (b : List (ℕ × ℕ)). (t, a) ∷ b) (ap (λ k. now + k) gt)
            (ap (λ (k : ℕ). (x, k) ∷ due g k xs) e
              ∙ ap (λ r. (x, now + f x) ∷ r)
                  (due-agree f g (now + f x) xs (update-agree f x (f x - f t) xs d.0)));
      early = tt;
      late = (
        omega (arith, h),
        All-map (λ (a : ℕ × ℕ). now + f x ≤ a.1) (λ (a : ℕ × ℕ). now + f t < a.1)
            (due f (now + f x) xs) (λ a k. omega (arith, h, k)) (due_from f (now + f x) xs),
      );
      frame = λ z a b. update_ne f x (f x - f t) z (λ q. b.0 (sym q));
    }

-- The loop goes on behind `x`.
go :
    (t header now x : ℕ) (xs : List ℕ) (f : ℕ → ℕ) (run : Option (ℕ × (ℕ → ℕ)))
    → NotIn t (x ∷ xs)
    → Distinct (x ∷ xs)
    → f x ≤ f t
    → Placed (update f t (f t - f x)) t header (now + f x) xs run
    → Placed f t header now (x ∷ xs) run
go t header now x xs f run n d h p =
    let g = update f t (f t - f x) in
    let gt : (g t ≡ f t - f x) = update_self f t (f t - f x) in
    let lx : (p.left x ≡ f x) = p.frame x n.0 d.0 ∙ update_ne f t (f t - f x) x n.0 in
    let m : NotIn t (p.before ++ p.behind) = subst (NotIn t) p.split n.1 in
    let ab = update-agree f t (f t - f x) p.before (All-append_left _ p.before p.behind m) in
    let bb = update-agree f t (f t - f x) p.behind (All-append_right _ p.before p.behind m) in
    let e : (now + f x + g t ≡ now + f t) = omega (arith, gt, h) in
    let da = due-agree f g (now + f x) p.before ab in
    let u = until-agree f g (now + f x) p.before ab in
    let db : (due g (until g (now + f x) p.before) p.behind
        ≡ due f (until f (now + f x) p.before) p.behind) =
      ap (λ k. due g k p.behind) u ∙ due-agree f g (until f (now + f x) p.before) p.behind bb in
    record {
      left = p.left;
      before = x ∷ p.before;
      behind = p.behind;
      split = ap (λ r. x ∷ r) p.split;
      result = p.result;
      times =
          ap (λ (k : ℕ). (x, now + k) ∷ due p.left (now + k) (p.before ++ t ∷ p.behind)) lx
          ∙ ap (λ r. (x, now + f x) ∷ r)
              (p.times
                ∙ ap₂ (λ (a b : List (ℕ × ℕ)). a ++ b) da
                    (ap₂ (λ (a : ℕ) (b : List (ℕ × ℕ)). (t, a) ∷ b) e db));
      early = (
        omega (arith, h),
        subst (All (λ (a : ℕ × ℕ). a.1 ≤ now + f t)) da (
            All-map (λ (a : ℕ × ℕ). a.1 ≤ now + f x + g t) (λ (a : ℕ × ℕ). a.1 ≤ now + f t)
              (due g (now + f x) p.before) (λ a k. omega (arith, e, k)) p.early),
      );
      late = subst (All (λ (a : ℕ × ℕ). now + f t < a.1)) db (
          All-map (λ (a : ℕ × ℕ). now + f x + g t < a.1) (λ (a : ℕ × ℕ). now + f t < a.1)
            (due g (until g (now + f x) p.before) p.behind) (λ a k. omega (arith, e, k)) p.late);
      frame = λ z a b. p.frame z a b.1 ∙ update_ne f t (f t - f x) z a;
    }

add_loop-Placed :
    (fuel t header : ℕ) (l : Links) (cur now : ℕ) (xs : List ℕ) (f : ℕ → ℕ)
    → Walk l header cur xs
    → NotIn t xs
    → Distinct xs
    → length xs < fuel
    → Placed f t header now xs (add_loop fuel t header l cur f)
unfolding add_loop
add_loop-Placed zero t header l cur now xs f w n d h = elim h [ ]
add_loop-Placed (suc fuel) t header l cur now [] f w n d h = record {
  left = f;
  before = [];
  behind = [];
  split = refl;
  result = rw (eq→== cur header w) (ap (λ x. some (x, f)) w);
  times = refl;
  early = tt;
  late = tt;
  frame = λ z a b. refl;
}
add_loop-Placed (suc fuel) t header l cur now (x ∷ xs) f w n d h =
    elim (Bool-cases (ltb (f t) (f x))) [
      | inl e ↦
          rw w.0
            (rw (ne→== x header w.1) (rw e (stop t header now x xs f n d (ltb→lt (f t) (f x) e))))
      | inr e ↦ rw w.0 (
          rw (ne→== x header w.1) (
            rw e (
              go t header now x xs f _ n d (ltb→le (f t) (f x) e) (
                add_loop-Placed fuel t header l (l.next x) (now + f x) xs (update f t (f t - f x))
                  w.2 n.1 d.1 (omega arith)))))
    ]

Walk-of_ring :
    (l : Links) (header a : ℕ) (xs : List ℕ)
    → IsSeg l a xs header
    → NotIn header xs
    → Walk l header (l.next a) xs
Walk-of_ring l header a [] s n = s.0
Walk-of_ring l header a (x ∷ xs) s n = (s.0, n.0, Walk-of_ring l header x xs s.2 n.1)

-- What adding the timer `t` leaves.
pub record Added (s : Timers) (t : ℕ) (xs : List ℕ) (run : Option Timers) : Type 0 where
  pub timers : Timers
  pub before : List ℕ
  pub behind : List ℕ
  pub split : xs ≡ before ++ behind
  pub result : run ≡ some timers
  pub ring : IsRing timers.links s.header (before ++ t ∷ behind)
  pub times :
      due timers.expires 0 (before ++ t ∷ behind)
      ≡ due s.expires 0 before ++ (t, s.expires t) ∷ due s.expires (until s.expires 0 before) behind
  pub early : All (λ (e : ℕ × ℕ). e.1 ≤ s.expires t) (due s.expires 0 before)
  pub late :
      All (λ (e : ℕ × ℕ). s.expires t < e.1) (due s.expires (until s.expires 0 before) behind)

IsRing-added :
    (l : Links) (header t : ℕ) (before behind : List ℕ)
    → IsRing l header (before ++ behind)
    → NotIn t (header ∷ before ++ behind)
    → IsRing (list_add_before (first header behind) t l) header (before ++ t ∷ behind)
IsRing-added l header t before [] r n =
    IsRing-list_add_tail before t (subst (IsRing l header) (append-nil before) r)
      (subst (λ w. NotIn t (header ∷ w)) (append-nil before) n)
IsRing-added l header t before (x ∷ behind) r n = IsRing-list_add_before before x behind t r n

-- Adding a timer of a process, for at least one tick, that is in no list passes the assertions. The
-- timer goes behind all that are due at its tick or sooner and before the others; it is due when it
-- asks to be, and every other timer is due when it was. More rounds than there are timers are
-- enough.
pub add_timer-Added :
    (fuel t : ℕ) (s : Timers) (xs : List ℕ)
    → IsRing s.links s.header xs
    → NotIn t (s.header ∷ xs)
    → s.links.next t ≡ t
    → 0 < s.expires t
    → s.proc t ≢ 0
    → length xs < fuel
    → Added s t xs (add_timer fuel t s)
unfolding add_timer list_empty
add_timer-Added fuel t s xs r n detached pos has fuel_left =
    let w = Walk-of_ring s.links s.header s.header xs r.seg r.distinct.0 in
    let p =
      add_loop-Placed fuel t s.header s.links (s.links.next s.header) 0 xs s.expires w n.1
        r.distinct.1 fuel_left in
    let z : (0 + s.expires t ≡ s.expires t) = omega arith in
    record {
      timers = record s {
        expires = p.left;
        links = list_add_before (first s.header p.behind) t s.links;
      };
      before = p.before;
      behind = p.behind;
      split = p.split;
      result =
          rw (lt→ltb 0 (s.expires t) pos)
            (rw (ne→== (s.proc t) 0 has) (rw (eq→== (s.links.next t) t detached) (rw p.result)));
      ring =
          IsRing-added s.links s.header t p.before p.behind
            (subst (IsRing s.links s.header) p.split r)
            (subst (λ y. NotIn t (s.header ∷ y)) p.split n);
      times =
          p.times
          ∙ ap
              (λ (k : ℕ).
                due s.expires 0 p.before
                ++ (t, k) ∷ due s.expires (until s.expires 0 p.before) p.behind)
              z;
      early = subst (λ k. All (λ (e : ℕ × ℕ). e.1 ≤ k) (due s.expires 0 p.before)) z p.early;
      late =
          subst
            (λ k.
              All (λ (e : ℕ × ℕ). k < e.1) (due s.expires (until s.expires 0 p.before) p.behind))
            z p.late;
    }
