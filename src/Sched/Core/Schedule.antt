-- ===== src/Sched/Core/Schedule.antt =====
-- `schedule` loses no process and runs none twice, whatever the class.
use nku_os_2025_lab.Prelude.{
  ℕ, ◌<◌, ◌≡◌, ◌≢◌, refl, sym, ap, subst, ◌∙◌, ◌⊎◌, inl, inr, true, List, [], ◌∷◌, some, NotIn,
  Distinct, length, Perm, Distinct-perm, NotIn-perm, ◌==◌, if◌then◌else◌, ne→==, ==→eq, Bool-cases,
}
use mathlib.Core.List.Perm
use native.Mathlib.Decide.{ℕ_discrete}
use nku_os_2025_lab.Sched.Proc.{runnable, RunQueue, max_process}
use nku_os_2025_lab.Sched.Class.{KeepsStates, Picked, SchedClass}
use nku_os_2025_lab.Sched.Core.{
  System, is_runnable, count_run, proc_run, put_back, take_next, schedule,
}
use nku_os_2025_lab.Sched.Core.PutBack.{
  is_runnable-runnable, competing, count_run-states, count_run-header, IsSystem, Returned,
  put_back-Returned, competing_asleep, competing_idle, competing_ready,
}

-- The queue after the runs of the chosen process are counted: twice when it was not running.
abbrev counted : ℕ → ℕ → RunQueue → RunQueue
counted next current r =
    if next == current then count_run next r else count_run next (count_run next r)

counted-states : (next current : ℕ) (r : RunQueue) → KeepsStates r (counted next current r)
counted-states next current r z = elim (Bool-cases (next == current)) [
  | inl e ↦ rw e (count_run-states next r z)
  | inr e ↦ rw e (count_run-states next (count_run next r) z ∙ count_run-states next r z)
]

counted-header : (next current : ℕ) (r : RunQueue) → (counted next current r).run_list ≡ r.run_list
counted-header next current r = elim (Bool-cases (next == current)) [
  | inl e ↦ rw e (count_run-header next r)
  | inr e ↦ rw e (count_run-header next (count_run next r) ∙ count_run-header next r)
]

module _ (c : SchedClass) where
  counted-holds :
      (next current : ℕ) (r : RunQueue) (xs : List ℕ)
      → c.holds r xs
      → c.holds (counted next current r) xs
  unfolding count_run
  counted-holds next current r xs h = elim (Bool-cases (next == current)) [
    | inl e ↦ rw e (c.holds-put_core r xs next _ _ _ _ h)
    | inr e ↦ rw e (c.holds-put_core _ xs next _ _ _ _ (c.holds-put_core r xs next _ _ _ _ h))
  ]

  -- What choosing the next process leaves.
  record Taken (idle : ℕ) (q : RunQueue) (xs : List ℕ) : Type 0 where
    next : ℕ
    queue : RunQueue
    items : List ℕ
    result : take_next c.ops idle q ≡ some (next, queue)
    valid : c.holds queue items
    outcome : ((xs ≡ []) × (items ≡ []) × (next ≡ idle)) ⊎ Perm (next ∷ items) xs
    states : KeepsStates q queue
    header : queue.run_list ≡ q.run_list

  take_next-Taken : (idle : ℕ) (q : RunQueue) (xs : List ℕ) → c.holds q xs → Taken idle q xs
  unfolding take_next
  take_next-Taken idle q [] h = record {
    next = idle;
    queue = q;
    items = [];
    result = rw (c.pick_next_none q h);
    valid = h;
    outcome = inl (refl, refl, refl);
    states = λ z. refl;
    header = refl;
  }
  take_next-Taken idle q (x ∷ xs) h =
      let k : Picked c.holds q (x ∷ xs) c.pick_next c.dequeue = c.pick_next-Picked q x xs h in
      let nonzero : k.next ≢ 0 =
        λ e. (NotIn-perm 0 (Perm.symm k.perm) (c.holds-apart q (x ∷ xs) h).1).0 e in
      record {
        next = k.next;
        queue = k.queue;
        items = k.items;
        result = rw k.pick_result (rw (ne→== k.next 0 nonzero) (rw k.dequeue_result));
        valid = k.valid;
        outcome = inr k.perm;
        states = k.states;
        header = k.header;
      }

  -- What `schedule` leaves.
  pub record Schedules (s : System) (xs : List ℕ) : Type 0 where
    pub system : System
    pub items : List ℕ
    pub result : schedule c.ops s ≡ some system
    pub valid : IsSystem c system items
    pub outcome :
        ((competing s xs ≡ []) × (items ≡ []) × (system.current ≡ s.idleproc))
        ⊎ Perm (system.current ∷ items) (competing s xs)
    pub states : KeepsStates s.rq system.rq

  competing-NotIn :
      (s : System) (xs : List ℕ) (z : ℕ)
      → (is_runnable (s.rq.proc s.current).state ≡ true → s.current ≢ s.idleproc → s.current ≢ z)
      → NotIn z xs
      → NotIn z (competing s xs)
  competing-NotIn s xs z f h = elim (Bool-cases (is_runnable (s.rq.proc s.current).state)) [
    | inr r ↦ subst (NotIn z) (sym (competing_asleep c s xs r)) h
    | inl r ↦ elim (ℕ_discrete s.current s.idleproc) [
      | yes i ↦ subst (NotIn z) (sym (competing_idle c s xs r i)) h
      | no i ↦ subst (NotIn z) (sym (competing_ready c s xs r i)) (f r i, h)
    ]
  ]

  competing-Distinct : (s : System) (xs : List ℕ) → IsSystem c s xs → Distinct (competing s xs)
  competing-Distinct s xs v =
      let d : Distinct xs = (c.holds-apart s.rq xs v.queued).0 in
      elim (Bool-cases (is_runnable (s.rq.proc s.current).state)) [
        | inr r ↦ subst Distinct (sym (competing_asleep c s xs r)) d
        | inl r ↦ elim (ℕ_discrete s.current s.idleproc) [
          | yes i ↦ subst Distinct (sym (competing_idle c s xs r i)) d
          | no i ↦ subst Distinct (sym (competing_ready c s xs r i)) (v.running, d)
        ]
      ]

  schedule_run :
      (s : System) (q r : RunQueue) (next : ℕ)
      → put_back c.ops s ≡ some q
      → take_next c.ops s.idleproc q ≡ some (next, r)
      → schedule c.ops s ≡ some (record s { rq = counted next s.current r; current = next })
  unfolding schedule proc_run
  schedule_run s q r next a b = rw a (
      rw b (elim (Bool-cases (next == s.current)) [
        | inl e ↦ rw e (
            ap (λ w. some (record s { rq = count_run next r; current = w }))
              (sym (==→eq next s.current e)))
        | inr e ↦ rw e
      ]))

  -- Nothing is queued after the choice that was not queued before it.
  items-NotIn :
      (idle : ℕ) (q : RunQueue) (xs : List ℕ) (t : Taken idle q xs) (z : ℕ)
      → NotIn z xs
      → NotIn z t.items
  items-NotIn idle q xs t z h = elim t.outcome [
    | inl o ↦ subst (NotIn z) (sym o.1) tt
    | inr p ↦ (NotIn-perm z (Perm.symm p) h).1
  ]

  -- The chosen process is not queued any more.
  next-NotIn :
      (idle : ℕ) (q : RunQueue) (xs : List ℕ) (t : Taken idle q xs)
      → Distinct xs
      → NotIn t.next t.items
  next-NotIn idle q xs t d = elim t.outcome [
    | inl o ↦ subst (NotIn t.next) (sym o.1) tt
    | inr p ↦ (Distinct-perm (Perm.symm p) d).0
  ]

  -- The chosen process differs from what neither the queue nor the idle process is.
  next-ne :
      (idle : ℕ) (q : RunQueue) (xs : List ℕ) (t : Taken idle q xs) (z : ℕ)
      → NotIn z xs
      → idle ≢ z
      → t.next ≢ z
  next-ne idle q xs t z h k = elim t.outcome [
    | inl o ↦ λ e. k (sym o.2 ∙ e)
    | inr p ↦ (NotIn-perm z (Perm.symm p) h).0
  ]

  outcome-competing :
      (s : System) (xs : List ℕ) (b : Returned c s xs) (t : Taken s.idleproc b.queue b.items)
      → ((competing s xs ≡ []) × (t.items ≡ []) × (t.next ≡ s.idleproc))
        ⊎ Perm (t.next ∷ t.items) (competing s xs)
  outcome-competing s xs b t = elim t.outcome [
    | inl o ↦ inl (sym (Perm.nil-eq (subst (λ w. Perm w (competing s xs)) o.0 b.perm)), o.1, o.2)
    | inr p ↦ inr (Perm.trans p b.perm)
  ]

  -- After the switch the system is valid again.
  started-IsSystem :
      (s : System) (xs : List ℕ)
      → IsSystem c s xs
      → (b : Returned c s xs) (t : Taken s.idleproc b.queue b.items)
      → IsSystem c (record s { rq = counted t.next s.current t.queue; current = t.next }) t.items
  started-IsSystem s xs v b t =
      let back : (z : ℕ) → NotIn z (competing s xs) → NotIn z b.items =
        λ z h. NotIn-perm z (Perm.symm b.perm) h in
      let apart = c.holds-apart b.queue b.items b.valid in
      let header = counted-header t.next s.current t.queue ∙ t.header ∙ b.header in
      record {
        queued = counted-holds t.next s.current t.queue t.items t.valid;
        ready = λ z n.
            let asleep : (s.rq.proc z).state ≢ runnable =
              λ e. n (counted-states t.next s.current t.queue z ∙ t.states z ∙ b.states z ∙ e) in
            items-NotIn s.idleproc b.queue b.items t z (
              back z (
                competing-NotIn s xs z
                  (λ r k e.
                    asleep
                      (subst (λ w. (s.rq.proc w).state ≡ runnable) e (is_runnable-runnable _ r)))
                  (v.ready z asleep)));
        running = next-NotIn s.idleproc b.queue b.items t apart.0;
        idle =
            items-NotIn s.idleproc b.queue b.items t s.idleproc
              (back s.idleproc (competing-NotIn s xs s.idleproc (λ r k. k) v.idle));
        current_proc = (
          next-ne s.idleproc b.queue b.items t 0 apart.1 v.idle_proc.0,
          λ e.
              next-ne s.idleproc b.queue b.items t s.rq.run_list
                (subst (λ h. NotIn h b.items) b.header apart.2) v.idle_proc.1 (e ∙ header),
        );
        idle_proc = (v.idle_proc.0, λ e. v.idle_proc.1 (e ∙ header));
      }

  started :
      (s : System) (xs : List ℕ)
      → IsSystem c s xs
      → (b : Returned c s xs) → Taken s.idleproc b.queue b.items
      → Schedules s xs
  started s xs v b t = record {
    system = record s { rq = counted t.next s.current t.queue; current = t.next };
    items = t.items;
    result = schedule_run s b.queue t.queue t.next b.result t.result;
    valid = started-IsSystem s xs v b t;
    outcome = outcome-competing s xs b t;
    states = λ z. counted-states t.next s.current t.queue z ∙ t.states z ∙ b.states z;
  }

  -- Under any scheduling class, `schedule` on a valid system with fewer than MAX_PROCESS queued
  -- processes passes the assertions and leaves a valid system. The process that now runs and the
  -- queued ones together are exactly the processes that competed before: those queued, and the
  -- current one if it can run and is not the idle process. If none competed, the idle process
  -- runs. No process changes its state.
  pub schedule-Schedules :
      (s : System) (xs : List ℕ) → IsSystem c s xs → length xs < max_process → Schedules s xs
  schedule-Schedules s xs v few =
      let b = put_back-Returned c s xs v few in
      started s xs v b (take_next-Taken s.idleproc b.queue b.items b.valid)
