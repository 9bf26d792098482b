-- ===== src/Process/Scan.antt =====
-- The loop of `get_pid`: the pid that it ends with is free, and it ends.
pub mod Step
use nku_os_2025_lab.Prelude.{
  ℕ, zero, suc, ◌+◌, ◌≤◌, ◌<◌, ◌≡◌, ◌≢◌, refl, sym, ap, subst, ◌∙◌, ◌⊎◌, inl, inr, List, [], ◌∷◌,
  ◌++◌, append_assoc, append-nil, arith, All, All-map, All-append, All-append_right, NotIn, length,
  map, Option, some, le→leb, lt→leb, ◌==◌, if◌then◌else◌, eq→==, ne→==, lt→ltb, le→ltb,
}
use native.Mathlib.Decide.{ℕ_discrete, dec_le, dec_lt}
use nku_os_2025_lab.Libs.LinkedList.Ring.{IsChain}
use nku_os_2025_lab.Process.{Processes, max_pid, scan_step, scan}
use nku_os_2025_lab.Process.Reach.{bump, Reach}
use nku_os_2025_lab.Process.Scan.Step.{
  Outside, step_repeat, step_next, step_narrow, step_on, scan-suc, scan-end, in_use, in_use-Reach,
}

-- How far the loop is from its end: `k` pids to step over, each of which may start it anew.
abbrev pub budget : ℕ → ℕ → ℕ
budget zero n = 0
budget (suc k) n = budget k n + (n + 1)

-- What the loop ends with: a pid in bounds, and no process has it or one between it and `safe`.
pub record Scanned (s : Processes) (xs : List ℕ) (run : Option (ℕ × ℕ)) : Type 0 where
  pub last : ℕ
  pub safe : ℕ
  pub result : run ≡ some (last, safe)
  pub above : 1 ≤ last
  pub below : last < safe
  pub bounded : safe ≤ max_pid
  pub free : All (λ x. Outside last safe (s.pid x)) xs

module _ (s : Processes) (xs : List ℕ) (ring : IsChain s.links s.proc_list xs s.proc_list)
    (apart : NotIn s.proc_list xs) where
  -- The loop at the entry `le`: it has seen the processes `before`, and `rest` are left.
  abbrev At : ℕ → ℕ → ℕ → ℕ → List ℕ → List ℕ → Type 0
  At k le last safe before rest =
      IsChain s.links le rest s.proc_list
      × (xs ≡ before ++ rest)
      × All (λ x. Outside last safe (s.pid x)) before
      × (1 ≤ last)
      × (last < safe)
      × (safe ≤ max_pid)
      × Reach k last (map s.pid xs)

  -- Where the round at `p` leads to.
  record Led (p last safe m : ℕ) : Type 0 where
    k' : ℕ
    le' : ℕ
    last' : ℕ
    safe' : ℕ
    before' : List ℕ
    rest' : List ℕ
    step : scan_step s p last safe ≡ (le', last', safe')
    at : At k' le' last' safe' before' rest'
    less : budget k' (length xs) + length rest' < m

  narrower :
      (last safe last' safe' : ℕ) (before : List ℕ)
      → last ≤ last'
      → safe' ≤ safe
      → All (λ x. Outside last safe (s.pid x)) before
      → All (λ x. Outside last' safe' (s.pid x)) before
  narrower last safe last' safe' before h k a =
      All-map _ _ before
        (λ x (o : Outside last safe (s.pid x)). elim o [
          | inl l ↦ inl (omega (arith, l, h))
          | inr l ↦ inr (omega (arith, l, k))
        ])
        a

  past :
      (k p last safe last' safe' m : ℕ) (before rest : List ℕ)
      → scan_step s p last safe ≡ (p, last', safe')
      → IsChain s.links p rest s.proc_list
      → xs ≡ before ++ p ∷ rest
      → All (λ x. Outside last' safe' (s.pid x)) before
      → Outside last' safe' (s.pid p)
      → 1 ≤ last'
      → last' < safe'
      → safe' ≤ max_pid
      → Reach k last' (map s.pid xs)
      → budget k (length xs) + length rest < m
      → Led p last safe m
  past k p last safe last' safe' m before rest e c split seen now a b d r less = record {
    k' = k;
    le' = p;
    last' = last';
    safe' = safe';
    before' = before ++ p ∷ [];
    rest' = rest;
    step = e;
    at = (
      c,
      split ∙ sym (append_assoc before (p ∷ []) rest),
      All-append (λ x. Outside last' safe' (s.pid x)) before (p ∷ []) seen (now, tt),
      a,
      b,
      d,
      r,
    );
    less = less;
  }

  -- The process has the pid that is tried.
  round_taken :
      (k le p last safe m : ℕ) (before rest : List ℕ)
      → At k le last safe before (p ∷ rest)
      → s.pid p ≡ last
      → budget k (length xs) + length rest < m
      → Led p last safe m
  round_taken k le p last safe m before rest (c, split, seen, a, b, d, r) e less =
      let used : (¬ NotIn last (map s.pid xs)) =
        subst (λ w. ¬ NotIn last (map s.pid w)) (sym split)
          (subst (λ w. ¬ NotIn w (map s.pid (before ++ p ∷ rest))) e
            (in_use s.pid before p rest)) in
      let j = in_use-Reach k last (map s.pid xs) used r in
      let less' : (budget j.0 (length xs) + (length xs + 1) + length rest < m) =
        subst (λ w. budget w (length xs) + length rest < m) j.1 less in
      elim (dec_le safe (last + 1)) [
        | yes h ↦ record {
          k' = j.0;
          le' = s.proc_list;
          last' = bump last;
          safe' = max_pid;
          before' = [];
          rest' = xs;
          step = step_repeat s p last safe e h;
          at = (ring, refl, tt, ground arith, ground arith, omega arith, j.2);
          less = omega arith;
        }
        | no h ↦
            let up : (bump last ≡ last + 1) = ground arith in
            past j.0 p last safe (last + 1) safe m before rest
              (step_next s p last safe e (omega arith)) c.1 split
              (narrower last safe (last + 1) safe before (omega arith) (omega arith) seen)
              (inl (omega arith)) (omega arith) (omega arith) d
              (subst (λ w. Reach j.0 w (map s.pid xs)) up j.2) (omega arith)
      ]

  round_free :
      (k le p last safe m : ℕ) (before rest : List ℕ)
      → At k le last safe before (p ∷ rest)
      → s.pid p ≢ last
      → budget k (length xs) + length rest < m
      → Led p last safe m
  round_free k le p last safe m before rest (c, split, seen, a, b, d, r) n less =
      let on : (Outside last safe (s.pid p) → Led p last safe m) = λ o.
        past k p last safe last safe m before rest (step_on s p last safe o b) c.1 split seen o a b
          d r less in
      elim (dec_lt last (s.pid p)) [
        | no h ↦ on (inl (omega arith))
        | yes h ↦ elim (dec_lt (s.pid p) safe) [
          | no g ↦ on (inr (omega arith))
          | yes g ↦
              past k p last safe last (s.pid p) m before rest (step_narrow s p last safe h g) c.1
                split (narrower last safe last (s.pid p) before (omega arith) (omega arith) seen)
                (inr (omega arith)) a h (omega arith) r less
        ]
      ]

  scan-At :
      (fuel k le last safe : ℕ) (before rest : List ℕ)
      → At k le last safe before rest
      → budget k (length xs) + length rest < fuel
      → Scanned s xs (scan fuel s le last safe)
  scan-At zero k le last safe before rest at h = absurd (omega arith)
  scan-At (suc fuel) k le last safe before [] (c, split, seen, a, b, d, r) h =
      rw (scan-end fuel s le last safe c) (record {
        last = last;
        safe = safe;
        result = refl;
        above = a;
        below = b;
        bounded = d;
        free =
            subst (λ w. All (λ x. Outside last safe (s.pid x)) w) (sym (split ∙ append-nil before))
              seen;
      })
  scan-At (suc fuel) k le last safe before (p ∷ rest) at h =
      let present : (p ≢ s.proc_list) =
        (All-append_right (λ x. x ≢ s.proc_list) before (p ∷ rest)
          (subst (NotIn s.proc_list) at.1 apart)).0 in
      let led : Led p last safe fuel = elim (ℕ_discrete (s.pid p) last) [
        | yes e ↦ round_taken k le p last safe fuel before rest at e (omega arith)
        | no e ↦ round_free k le p last safe fuel before rest at e (omega arith)
      ] in
      rw (scan-suc fuel s le p last safe led.le' led.last' led.safe' at.0.0 present led.step)
        (scan-At fuel led.k' led.le' led.last' led.safe' led.before' led.rest' led.at led.less)

  -- The loop from the start of the list.
  pub scan-Scanned :
      (fuel k last : ℕ)
      → 1 ≤ last
      → last < max_pid
      → Reach k last (map s.pid xs)
      → budget k (length xs) + length xs < fuel
      → Scanned s xs (scan fuel s s.proc_list last max_pid)
  scan-Scanned fuel k last a b r h =
      scan-At fuel k s.proc_list last max_pid [] xs (ring, refl, tt, a, b, omega arith, r) h
