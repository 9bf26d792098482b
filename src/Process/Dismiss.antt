-- ===== src/Process/Dismiss.antt =====
-- `unhash_proc` and `remove_links`: a process that has ended leaves the list, the table and the
-- family.
use nku_os_2025_lab.Prelude.{
  ℕ, ◌+◌, ◌-◌, ◌<◌, ◌≡◌, ◌≢◌, refl, sym, ap, subst, ◌∙◌, ◌⊎◌, inl, inr, List, ◌∷◌, ◌++◌, arith, All,
  All-both, Among, Among-All, length, length-append, update, update_self, update_ne, eq→==, ne→==,
  ◌==◌, if◌then◌else◌,
}
use native.Mathlib.Decide.{ℕ_discrete}
use nku_os_2025_lab.Libs.LinkedList.Remove.{IsRing-list_del}
use nku_os_2025_lab.Process.{
  Processes, max_pid, pid_hashfn, unhash_proc, remove_links, dismiss_process,
}
use nku_os_2025_lab.Process.Buckets.{other_bucket}
use nku_os_2025_lab.Process.Unhash.{
  All-remove, Among-remove, Among-split, Among-at, Distinct-map_remove, others_ne, narrower,
  at_bucket, IsTable-list_del, mine,
}
use nku_os_2025_lab.Process.Agree.{IsProcesses}

-- What is left of the processes `ys ++ proc ∷ zs` when `proc` is dismissed: they agree without it,
-- no other process changes its pid, and the siblings of `proc`, or its parent, are linked past it.
pub record Dismissed (s : Processes) (ys : List ℕ) (proc : ℕ) (zs : List ℕ) (left : Processes)
    : Type 0 where
  pub buckets : ℕ → List ℕ
  pub valid : IsProcesses left (ys ++ zs) buckets
  pub pids : left.pid ≡ s.pid
  pub older : (s.optr proc ≡ 0) ⊎ (left.yptr (s.optr proc) ≡ s.yptr proc)
  pub younger :
      ((s.yptr proc ≡ 0) × (left.cptr (s.parent proc) ≡ s.optr proc))
      ⊎ ((s.yptr proc ≢ 0) × (left.optr (s.yptr proc) ≡ s.optr proc) × (left.cptr ≡ s.cptr))
  pub count : left.nr_process ≡ s.nr_process - 1

module _ (s : Processes) (ys : List ℕ) (proc : ℕ) (zs : List ℕ) (buckets : ℕ → List ℕ)
    (v : IsProcesses s (ys ++ proc ∷ zs) buckets) (self : s.optr proc ≢ proc) where
  abbrev home : ℕ
  home = pid_hashfn (s.pid proc)

  others : All (λ y. y ≢ proc) (ys ++ zs)
  others = others_ne s.links s.proc_list ys proc zs v.pids.ring

  place : (us : List ℕ) × (ws : List ℕ) × (buckets home ≡ us ++ proc ∷ ws)
  place = Among-split proc (buckets home) (
      Among-All (λ x. Among x (buckets (pid_hashfn (s.pid x)))) proc (ys ++ proc ∷ zs)
        (Among-at proc ys zs) v.tabled)

  abbrev buckets' : ℕ → List ℕ
  buckets' = narrower s.hash_list s.hash_links s.pid buckets v.table proc place.0 place.1 place.2

  -- The process is in no bucket now.
  untabled : (b : ℕ) → All (λ x. x ≢ proc) (buckets' b)
  untabled b = elim (ℕ_discrete b home) [
    | yes e ↦
        subst (λ w. All (λ x. x ≢ proc) (buckets' w)) (sym e)
          (subst (All (λ x. x ≢ proc)) (sym (update_self buckets home (place.0 ++ place.1))) (
            others_ne s.hash_links (s.hash_list + home) place.0 proc place.1
              (mine s.hash_list s.hash_links s.pid buckets v.table proc place.0 place.1 place.2)))
    | no n ↦
        subst (All (λ x. x ≢ proc)) (sym (update_ne buckets home (place.0 ++ place.1) b n))
          (other_bucket s.pid b home proc (buckets b) n refl (v.table.hashed b))
  ]

  listed : (b : ℕ) → All (λ x. Among x (ys ++ zs)) (buckets' b)
  listed b =
      All-both (buckets' b) (untabled b)
        (at_bucket s.hash_list s.hash_links s.pid buckets v.table proc place.0 place.1 place.2
          (λ c x. Among x (ys ++ proc ∷ zs)) v.listed b)
        (λ x n i. Among-remove x proc ys zs n i)

  tabled : All (λ x. Among x (buckets' (pid_hashfn (s.pid x)))) (ys ++ zs)
  tabled =
      All-both (ys ++ zs) others
        (All-remove (λ x. Among x (buckets (pid_hashfn (s.pid x)))) ys proc zs v.tabled)
        (λ x n i. elim (ℕ_discrete (pid_hashfn (s.pid x)) home) [
          | yes e ↦
              subst (λ w. Among x (buckets' w)) (sym e)
                (subst (Among x) (sym (update_self buckets home (place.0 ++ place.1))) (
                  Among-remove x proc place.0 place.1 n
                    (subst (Among x) (ap buckets e ∙ place.2) i)))
          | no m ↦
              subst (Among x)
                (sym (update_ne buckets home (place.0 ++ place.1) (pid_hashfn (s.pid x)) m)) i
        ])

  shorter : length (ys ++ zs) + 1 < max_pid
  shorter =
      let a = length-append ys zs in
      let b = length-append ys (proc ∷ zs) in let few = v.pids.few in omega arith

  valid : IsProcesses (dismiss_process proc s) (ys ++ zs) buckets'
  unfolding dismiss_process unhash_proc remove_links
  valid = record {
    pids = record {
      ring = IsRing-list_del ys proc zs v.pids.ring;
      gap = All-remove _ ys proc zs v.pids.gap;
      started = v.pids.started;
      bounded = v.pids.bounded;
      few = shorter;
    };
    table =
        IsTable-list_del s.hash_list s.hash_links s.pid buckets v.table proc place.0 place.1
          place.2;
    unique = Distinct-map_remove s.pid ys proc zs v.unique;
    ranged = All-remove _ ys proc zs v.ranged;
    listed = listed;
    tabled = tabled;
  }

  -- `proc->yptr` is read after a write that does not change it.
  same_younger :
      (if s.optr proc == 0 then s.yptr else update s.yptr (s.optr proc) (s.yptr proc)) proc
      ≡ s.yptr proc
  same_younger = elim (ℕ_discrete (s.optr proc) 0) [
    | yes e ↦ rw (eq→== (s.optr proc) 0 e) refl
    | no n ↦
        rw (ne→== (s.optr proc) 0 n)
          (update_ne s.yptr (s.optr proc) (s.yptr proc) proc (λ q. self (sym q)))
  ]

  -- Where the list and the table agree, dismissing a listed process that is not
  -- its own older sibling takes it out of both, and they agree
  -- on the others, whose pids stay. Its older sibling, if there is one, gets its younger one as the
  -- next; its younger sibling, or the parent where there is none, gets its older one.
  pub dismiss_process-Dismissed : Dismissed s ys proc zs (dismiss_process proc s)
  unfolding dismiss_process unhash_proc remove_links
  dismiss_process-Dismissed = record {
    buckets = buckets';
    valid = valid;
    pids = refl;
    older = elim (ℕ_discrete (s.optr proc) 0) [
      | yes e ↦ inl e
      | no n ↦ inr (rw (ne→== (s.optr proc) 0 n) (update_self s.yptr (s.optr proc) (s.yptr proc)))
    ];
    younger = elim (ℕ_discrete (s.yptr proc) 0) [
      | yes e ↦ inl (
        e,
        rw same_younger
            (rw (eq→== (s.yptr proc) 0 e) (update_self s.cptr (s.parent proc) (s.optr proc))),
      )
      | no n ↦ inr (
        n,
        rw same_younger
            (rw (ne→== (s.yptr proc) 0 n) (update_self s.optr (s.yptr proc) (s.optr proc))),
        rw same_younger (rw (ne→== (s.yptr proc) 0 n) refl),
      )
    ];
    count = refl;
  }
