-- ===== src/Process/Scan/Step.antt =====
-- The ways of one round of the loop of `get_pid`.
use nku_os_2025_lab.Prelude.{
  ℕ, zero, suc, ◌+◌, ◌≤◌, ◌<◌, ◌≡◌, ◌≢◌, refl, ap, ◌∙◌, ◌⊎◌, inl, inr, List, [], ◌∷◌, ◌++◌, arith,
  NotIn, map, some, le→leb, lt→leb, ◌==◌, if◌then◌else◌, eq→==, ne→==, lt→ltb, le→ltb,
}
use nku_os_2025_lab.Process.{Processes, max_pid, scan_step, scan}
use nku_os_2025_lab.Process.Reach.{bump, Reach}

-- `p` is neither `last` nor between `last` and `safe`.
abbrev pub Outside : ℕ → ℕ → ℕ → Type 0
Outside last safe p = (p < last) ⊎ (safe ≤ p)

-- The four ways of a round.
module _ (s : Processes) (p last safe : ℕ) where
  pub step_repeat :
      s.pid p ≡ last → safe ≤ last + 1 → scan_step s p last safe ≡ (s.proc_list, bump last, max_pid)
  unfolding scan_step
  step_repeat e h = rw (eq→== (s.pid p) last e) (rw (le→leb safe (last + 1) h) refl)

  pub step_next : s.pid p ≡ last → last + 1 < safe → scan_step s p last safe ≡ (p, last + 1, safe)
  unfolding scan_step
  step_next e h = rw (eq→== (s.pid p) last e) (rw (lt→leb safe (last + 1) h) refl)

  pub step_narrow : last < s.pid p → s.pid p < safe → scan_step s p last safe ≡ (p, last, s.pid p)
  unfolding scan_step
  step_narrow h k =
      rw (ne→== (s.pid p) last (λ e. omega arith))
        (rw (lt→ltb last (s.pid p) h, lt→ltb (s.pid p) safe k) refl)

  pub step_on :
      Outside last safe (s.pid p) → last < safe → scan_step s p last safe ≡ (p, last, safe)
  unfolding scan_step
  step_on (inl h) l =
      rw (ne→== (s.pid p) last (λ e. omega arith)) (rw (le→ltb last (s.pid p) (omega arith)) refl)
  step_on (inr h) l =
      rw (ne→== (s.pid p) last (λ e. omega arith))
        (rw (lt→ltb last (s.pid p) (omega arith), le→ltb (s.pid p) safe h) refl)

-- The next round, after the process `p` of the list.
pub scan-suc :
    (fuel : ℕ) (s : Processes) (le p last safe le' last' safe' : ℕ)
    → s.links.next le ≡ p
    → p ≢ s.proc_list
    → scan_step s p last safe ≡ (le', last', safe')
    → scan (suc fuel) s le last safe ≡ scan fuel s le' last' safe'
unfolding scan
scan-suc fuel s le p last safe le' last' safe' c n e =
    ap
      (λ q.
        if q == s.proc_list
        then some (last, safe)
        else scan fuel s (scan_step s q last safe).0 (scan_step s q last safe).1
            (scan_step s q last safe).2)
      c
    ∙ ap
        (λ b.
          if b
          then some (last, safe)
          else scan fuel s (scan_step s p last safe).0 (scan_step s p last safe).1
              (scan_step s p last safe).2)
        (ne→== p s.proc_list n)
    ∙ ap (λ (t : ℕ × ℕ × ℕ). scan fuel s t.0 t.1 t.2) e

pub scan-end :
    (fuel : ℕ) (s : Processes) (le last safe : ℕ)
    → s.links.next le ≡ s.proc_list
    → scan (suc fuel) s le last safe ≡ some (last, safe)
unfolding scan
scan-end fuel s le last safe c = rw (eq→== (s.links.next le) s.proc_list c) refl

pub in_use :
    (f : ℕ → ℕ) (before : List ℕ) (p : ℕ) (rest : List ℕ)
    → ¬ NotIn (f p) (map f (before ++ p ∷ rest))
in_use f [] p rest h = h.0 refl
in_use f (x ∷ before) p rest h = in_use f before p rest h.1

-- A pid that is in use is not the last step.
pub in_use-Reach :
    (k last : ℕ) (pids : List ℕ)
    → ¬ NotIn last pids
    → Reach k last pids
    → (j : ℕ) × (k ≡ suc j) × Reach j (bump last) pids
in_use-Reach zero last pids n r = absurd (n r)
in_use-Reach (suc k) last pids n r = elim r [ inl h ↦ absurd (n h) | inr h ↦ (k, refl, h) ]
