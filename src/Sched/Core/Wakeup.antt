-- ===== src/Sched/Core/Wakeup.antt =====
-- `wakeup_proc` adds the process to those that compete for the processor, whatever the class.
use nku_os_2025_lab.Prelude.{
  ℕ, ◌<◌, ◌≡◌, ◌≢◌, refl, sym, ap, subst, ◌∙◌, inl, inr, true, false, List, ◌∷◌, some, arith, NotIn,
  Perm, NotIn-perm, length, if◌then◌else◌, eq→==, ne→==, Bool-cases,
}
use mathlib.Core.List.Perm
use native.Mathlib.Decide.{ℕ_discrete}
use nku_os_2025_lab.Sched.Proc.{runnable, RunQueue, put_core, max_process}
use nku_os_2025_lab.Sched.Class.{Enqueued, SchedClass}
use nku_os_2025_lab.Sched.Core.{
  System, is_runnable, is_zombie, make_runnable, sched_class_enqueue, requeue, wakeup_proc,
}
use nku_os_2025_lab.Sched.Core.PutBack.{
  is_runnable-runnable, competing, IsSystem, competing_asleep, competing_ready,
}

made_runnable : (p : ℕ) (q : RunQueue) → ((make_runnable p q).proc p).state ≡ runnable
unfolding make_runnable put_core
made_runnable p q = ground arith

made_runnable_ne :
    (p : ℕ) (q : RunQueue) (z : ℕ) → z ≢ p → ((make_runnable p q).proc z).state ≡ (q.proc z).state
unfolding make_runnable put_core
made_runnable_ne p q z n = ground arith

make_runnable-header : (p : ℕ) (q : RunQueue) → (make_runnable p q).run_list ≡ q.run_list
unfolding make_runnable put_core
make_runnable-header p q = refl

module _ (c : SchedClass) where
  -- What waking `p` leaves.
  pub record Wakes (s : System) (xs : List ℕ) (p : ℕ) : Type 0 where
    pub system : System
    pub items : List ℕ
    pub result : wakeup_proc c.ops p s ≡ some system
    pub valid : IsSystem c system items
    pub can_run : (system.rq.proc p).state ≡ runnable
    pub perm :
        Perm
          (competing system items)
          (if is_runnable (s.rq.proc p).state then competing s xs else p ∷ competing s xs)
    pub others : (z : ℕ) → z ≢ p → (system.rq.proc z).state ≡ (s.rq.proc z).state
    pub same :
        (system.current ≡ s.current)
        × (system.idleproc ≡ s.idleproc)
        × (system.rq.run_list ≡ s.rq.run_list)

  made-holds : (q : RunQueue) (xs : List ℕ) (p : ℕ) → c.holds q xs → c.holds (make_runnable p q) xs
  unfolding make_runnable
  made-holds q xs p h = c.holds-put_core q xs p _ _ _ _ h

  asleep-NotIn :
      (s : System) (xs : List ℕ) (p : ℕ)
      → IsSystem c s xs
      → is_runnable (s.rq.proc p).state ≡ false
      → NotIn p xs
  asleep-NotIn s xs p v r = v.ready p (λ e. absurd (cc (e, r)))

  awake-Wakes :
      (s : System) (xs : List ℕ) (p : ℕ)
      → IsSystem c s xs
      → is_zombie (s.rq.proc p).state ≡ false
      → is_runnable (s.rq.proc p).state ≡ true
      → Wakes s xs p
  unfolding wakeup_proc
  awake-Wakes s xs p v d r = record {
    system = s;
    items = xs;
    result = rw d (rw r);
    valid = v;
    can_run = is_runnable-runnable _ r;
    perm = rw r (Perm.refl (competing s xs));
    others = λ z k. refl;
    same = (refl, refl, refl);
  }

  -- Writing the woken process, and adding it to the queue or not, keeps the system valid.
  woken-IsSystem :
      (s : System) (xs : List ℕ) (p : ℕ) (q : RunQueue) (items : List ℕ)
      → IsSystem c s xs
      → p ≢ s.idleproc
      → c.holds q items
      → ((z : ℕ) → z ≢ p → (q.proc z).state ≡ (s.rq.proc z).state)
      → (q.proc p).state ≡ runnable
      → q.run_list ≡ s.rq.run_list
      → ((z : ℕ) → NotIn z xs → p ≢ z → NotIn z items)
      → NotIn s.current items
      → IsSystem c (record s { rq = q }) items
  woken-IsSystem s xs p q items v n h others can header within cur = record {
    queued = h;
    ready = λ z k.
        let other : p ≢ z = λ e. k (subst (λ w. (q.proc w).state ≡ runnable) e can) in
        within z (v.ready z (λ e. k (others z (λ f. other (sym f)) ∙ e))) other;
    running = cur;
    idle = within s.idleproc v.idle n;
    current_proc = (v.current_proc.0, λ e. v.current_proc.1 (e ∙ header));
    idle_proc = (v.idle_proc.0, λ e. v.idle_proc.1 (e ∙ header));
  }

  -- A process added to the queue is added to those that compete.
  competing-add :
      (s : System) (xs : List ℕ) (p : ℕ) (q : RunQueue) (items : List ℕ)
      → (q.proc s.current).state ≡ (s.rq.proc s.current).state
      → Perm items (p ∷ xs)
      → Perm (competing (record s { rq = q }) items) (p ∷ competing s xs)
  competing-add s xs p q items same h =
      elim (Bool-cases (is_runnable (s.rq.proc s.current).state)) [
        | inr r ↦ rw same (rw r h)
        | inl r ↦ elim (ℕ_discrete s.current s.idleproc) [
          | yes i ↦ rw same (rw r (rw (eq→== s.current s.idleproc i) h))
          | no i ↦ rw same (
              rw r (
                rw (ne→== s.current s.idleproc i)
                  (Perm.trans (Perm.cons s.current h) (Perm.swap p s.current xs))))
        ]
      ]

  -- Once runnable, the current process competes by itself.
  current-perm :
      (s : System) (xs : List ℕ) (p : ℕ)
      → is_runnable (s.rq.proc p).state ≡ false
      → p ≢ s.idleproc
      → p ≡ s.current
      → Perm
          (competing (record s { rq = make_runnable p s.rq }) xs)
          (if is_runnable (s.rq.proc p).state then competing s xs else p ∷ competing s xs)
  current-perm s xs p r n e =
      let t = record s { rq = make_runnable p s.rq } in
      let can : is_runnable (t.rq.proc t.current).state ≡ true =
        subst (λ w. is_runnable ((make_runnable p s.rq).proc w).state ≡ true) e
          (ap is_runnable (made_runnable p s.rq)) in
      let before : competing s xs ≡ xs =
        competing_asleep c s xs (subst (λ w. is_runnable (s.rq.proc w).state ≡ false) e r) in
      let after : competing t xs ≡ s.current ∷ xs = competing_ready c t xs can (λ f. n (e ∙ f)) in
      rw r (
        subst (λ w. Perm w (p ∷ competing s xs)) (sym after)
          (subst (λ w. Perm (s.current ∷ xs) (p ∷ w)) (sym before)
            (subst (λ w. Perm (w ∷ xs) (p ∷ xs)) e (Perm.refl (p ∷ xs)))))

  current-Wakes :
      (s : System) (xs : List ℕ) (p : ℕ)
      → IsSystem c s xs
      → is_zombie (s.rq.proc p).state ≡ false
      → is_runnable (s.rq.proc p).state ≡ false
      → p ≢ s.idleproc
      → p ≡ s.current
      → Wakes s xs p
  unfolding wakeup_proc requeue
  current-Wakes s xs p v d r n e = record {
    system = record s { rq = make_runnable p s.rq };
    items = xs;
    result = rw d (rw r (rw (eq→== p s.current e)));
    valid =
        woken-IsSystem s xs p (make_runnable p s.rq) xs v n (made-holds s.rq xs p v.queued)
          (made_runnable_ne p s.rq) (made_runnable p s.rq) (make_runnable-header p s.rq)
          (λ z h k. h) v.running;
    can_run = made_runnable p s.rq;
    perm = current-perm s xs p r n e;
    others = made_runnable_ne p s.rq;
    same = (refl, refl, make_runnable-header p s.rq);
  }

  other-Wakes :
      (s : System) (xs : List ℕ) (p : ℕ)
      → IsSystem c s xs
      → is_zombie (s.rq.proc p).state ≡ false
      → is_runnable (s.rq.proc p).state ≡ false
      → p ≢ s.idleproc
      → p ≢ s.current
      → Enqueued c.holds (make_runnable p s.rq) xs p (c.enqueue (make_runnable p s.rq) p)
      → Wakes s xs p
  unfolding wakeup_proc requeue sched_class_enqueue
  other-Wakes s xs p v d r n k e = record {
    system = record s { rq = e.queue };
    items = e.items;
    result = rw d (rw r (rw (ne→== p s.current k) (rw (ne→== p s.idleproc n) (rw e.result))));
    valid =
        woken-IsSystem s xs p e.queue e.items v n e.valid
          (λ z f. e.states z ∙ made_runnable_ne p s.rq z f) (e.states p ∙ made_runnable p s.rq)
          (e.header ∙ make_runnable-header p s.rq) (λ z h f. NotIn-perm z (Perm.symm e.perm) (f, h))
          (NotIn-perm s.current (Perm.symm e.perm) (k, v.running));
    can_run = e.states p ∙ made_runnable p s.rq;
    perm = rw r (
        competing-add s xs p e.queue e.items
          (e.states s.current ∙ made_runnable_ne p s.rq s.current (λ f. k (sym f))) e.perm);
    others = λ z f. e.states z ∙ made_runnable_ne p s.rq z f;
    same = (refl, refl, e.header ∙ make_runnable-header p s.rq);
  }

  -- Under any scheduling class, waking a process that is neither a zombie nor the idle process, on
  -- a valid system with fewer than MAX_PROCESS queued processes, passes the assertions and leaves
  -- a valid system in which the process can run. If it could run before, the processes that
  -- compete for the processor are as before; otherwise the process is added to them, also where it
  -- is the current one. The current process stays the same, and no other process changes its
  -- state.
  pub wakeup_proc-Wakes :
      (s : System) (xs : List ℕ) (p : ℕ)
      → IsSystem c s xs
      → is_zombie (s.rq.proc p).state ≡ false
      → p ≢ s.idleproc
      → p ≢ 0
      → p ≢ s.rq.run_list
      → length xs < max_process
      → Wakes s xs p
  wakeup_proc-Wakes s xs p v d n nonzero h few =
      elim (Bool-cases (is_runnable (s.rq.proc p).state)) [
        | inl r ↦ awake-Wakes s xs p v d r
        | inr r ↦ elim (ℕ_discrete p s.current) [
          | yes e ↦ current-Wakes s xs p v d r n e
          | no k ↦ other-Wakes s xs p v d r n k (
              c.enqueue-Enqueued (make_runnable p s.rq) xs p (made-holds s.rq xs p v.queued)
                (asleep-NotIn s xs p v r) nonzero (λ e. h (e ∙ make_runnable-header p s.rq)) few)
        ]
      ]
