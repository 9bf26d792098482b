-- ===== src/Process/Pid.antt =====
-- `get_pid` gives a pid that no process has.
use nku_os_2025_lab.Prelude.{
  ℕ, zero, suc, ◌+◌, ◌*◌, ◌≤◌, ◌<◌, ◌≡◌, ◌≢◌, refl, sym, ap, subst, ◌∙◌, ◌⊎◌, inl, inr, List, [],
  ◌∷◌, arith, All, All-map, length, map, Option, some, le→leb, lt→leb, ◌>>=◌,
}
use native.Mathlib.Nat.{suc-mul, mul-le-mul_right}
use native.Mathlib.Decide.{dec_le}
use nku_os_2025_lab.Libs.LinkedList.Ring.{IsRing, IsSeg-IsChain}
use nku_os_2025_lab.Process.{Processes, max_pid, scan, get_pid}
use nku_os_2025_lab.Process.Reach.{reaches}
use nku_os_2025_lab.Process.Scan.Step.{Outside}
use nku_os_2025_lab.Process.Scan.{budget, Scanned, scan-Scanned}

-- The processes `xs` are listed, fewer than there are pids, and none of them has a pid between
-- `last_pid` and `next_safe`.
pub record IsPids (s : Processes) (xs : List ℕ) : Type 0 where
  pub ring : IsRing s.links s.proc_list xs
  pub gap : All (λ x. (s.pid x ≤ s.last_pid) ⊎ (s.next_safe ≤ s.pid x)) xs
  pub started : 1 ≤ s.last_pid
  pub bounded : s.next_safe ≤ max_pid
  pub few : length xs + 1 < max_pid

-- The pid that `get_pid` gives, and the variables that it leaves.
pub record Fresh (s : Processes) (xs : List ℕ) (run : Option (ℕ × Processes)) : Type 0 where
  pub pid : ℕ
  pub safe : ℕ
  pub result : run ≡ some (pid, record s { last_pid = pid; next_safe = safe })
  pub above : 1 ≤ pid
  pub below : pid < max_pid
  pub new : All (λ x. s.pid x ≢ pid) xs
  pub valid : IsPids (record s { last_pid = pid; next_safe = safe }) xs

budget-mul : (k n : ℕ) → budget k n ≡ k * (n + 1)
budget-mul zero n = omega arith
budget-mul (suc k) n = ap (λ w. w + (n + 1)) (budget-mul k n) ∙ sym (suc-mul k (n + 1))

-- The fuel for a round of the list per pid is enough.
enough : (fuel k n : ℕ) → k < max_pid → max_pid * (n + 1) ≤ fuel → budget k n + n < fuel
enough fuel k n h f =
    let e = budget-mul k n in
    let m : (k * (n + 1) + (n + 1) ≤ max_pid * (n + 1)) =
      subst (λ w. w ≤ max_pid * (n + 1)) (suc-mul k (n + 1)) (mul-le-mul_right (n + 1) h) in
    omega (arith, e, m, f)

length-map : (f : ℕ → ℕ) (xs : List ℕ) → length (map f xs) ≡ length xs
length-map f [] = refl
length-map f (x ∷ xs) = ap suc (length-map f xs)

-- The outcome, by the pid and `next_safe` that the search ends with.
module _ (s : Processes) (xs : List ℕ) (v : IsPids s xs) where
  found :
      (run : Option (ℕ × ℕ))
      → Scanned s xs run
      → Fresh s xs
          (run >>= λ (pid, safe). some (pid, record s { last_pid = pid; next_safe = safe }))
  found run r =
      let above = r.above in
      let below = r.below in
      let bounded = r.bounded in
      record {
        pid = r.last;
        safe = r.safe;
        result = rw r.result refl;
        above = above;
        below = omega arith;
        new =
            All-map _ _ xs
              (λ x (o : Outside r.last r.safe (s.pid x)) e. elim o [
                | inl h ↦ omega arith
                | inr h ↦ omega arith
              ])
              r.free;
        valid = record {
          ring = v.ring;
          gap =
              All-map _ _ xs
                (λ x (o : Outside r.last r.safe (s.pid x)). elim o [
                  | inl h ↦ inl (omega arith)
                  | inr h ↦ inr h
                ])
                r.free;
          started = above;
          bounded = bounded;
          few = v.few;
        };
      }

  scanned :
      (fuel last : ℕ)
      → 1 ≤ last
      → last < max_pid
      → max_pid * (length xs + 1) ≤ fuel
      → Scanned s xs (scan fuel s s.proc_list last max_pid)
  scanned fuel last a b f =
      let few : length (map s.pid xs) + 1 < max_pid =
        subst (λ n. n + 1 < max_pid) (sym (length-map s.pid xs)) v.few in
      let k = reaches last (map s.pid xs) a b few in
      scan-Scanned s xs (IsSeg-IsChain s.links s.proc_list xs s.proc_list v.ring.seg)
        v.ring.distinct.0 fuel k.0 last a b k.2 (enough fuel k.0 (length xs) k.1 f)

-- In a list of fewer than MAX_PID - 1 processes, with fuel for a walk of the list for every pid,
-- `get_pid` finishes. It gives a pid from 1 to MAX_PID - 1 that no process of the list has, and no
-- process has a pid between the new `last_pid` and the new `next_safe`, so the next call finds the
-- variables as this one did.
pub get_pid-Fresh :
    (fuel : ℕ) (s : Processes) (xs : List ℕ)
    → IsPids s xs
    → max_pid * (length xs + 1) ≤ fuel
    → Fresh s xs (get_pid fuel s)
unfolding get_pid
get_pid-Fresh fuel s xs v f =
    let started = v.started in
    let bounded = v.bounded in
    elim (dec_le max_pid (s.last_pid + 1)) [
      | yes h ↦
          rw (le→leb max_pid (s.last_pid + 1) h)
            (found s xs v _ (scanned s xs v fuel 1 (omega arith) (omega arith) f))
      | no h ↦
          rw (lt→leb max_pid (s.last_pid + 1) (omega arith))
            (elim (dec_le s.next_safe (s.last_pid + 1)) [
              | yes g ↦ rw (le→leb s.next_safe (s.last_pid + 1) g) (
                  found s xs v _
                    (scanned s xs v fuel (s.last_pid + 1) (omega arith) (omega arith) f))
              | no g ↦ rw (lt→leb s.next_safe (s.last_pid + 1) (omega arith)) (
                  found s xs v (some (s.last_pid + 1, s.next_safe)) (record {
                    last = s.last_pid + 1;
                    safe = s.next_safe;
                    result = refl;
                    above = omega arith;
                    below = omega arith;
                    bounded = bounded;
                    free =
                        All-map _ _ xs
                          (λ x (o : (s.pid x ≤ s.last_pid) ⊎ (s.next_safe ≤ s.pid x)). elim o [
                            | inl k ↦ inl (omega arith)
                            | inr k ↦ inr k
                          ])
                          v.gap;
                  }))
            ])
    ]
