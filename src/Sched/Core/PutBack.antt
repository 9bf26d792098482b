-- ===== src/Sched/Core/PutBack.antt =====
-- `schedule` first puts the current process back, whatever the class.
use nku_os_2025_lab.Prelude.{
  ℕ, ◌<◌, ◌≡◌, ◌≢◌, refl, sym, subst, ◌∙◌, inl, inr, true, false, List, ◌∷◌, some, arith, NotIn,
  length, Perm, ◌==◌, if◌then◌else◌, eq→==, ne→==, Bool-cases,
}
use mathlib.Core.List.Perm
use native.Mathlib.Decide.{ℕ_discrete}
use nku_os_2025_lab.Sched.Proc.{
  ProcState, uninit, sleeping, runnable, zombie, RunQueue, put_core, max_process,
}
use nku_os_2025_lab.Sched.Class.{KeepsStates, Enqueued, SchedClass}
use nku_os_2025_lab.Sched.Core.{
  System, is_runnable, clear_resched, count_run, sched_class_enqueue, put_back,
}

pub is_runnable-runnable : (s : ProcState) → is_runnable s ≡ true → s ≡ runnable
is_runnable-runnable runnable e = refl
is_runnable-runnable uninit e = absurd (cc)
is_runnable-runnable sleeping e = absurd (cc)
is_runnable-runnable zombie e = absurd (cc)

-- The processes that compete for the processor: those queued, and the current one if it can run
-- and is not the idle process.
abbrev pub competing : System → List ℕ → List ℕ
competing s xs =
    if is_runnable (s.rq.proc s.current).state
    then (if s.current == s.idleproc then xs else s.current ∷ xs)
    else xs

pub clear_resched-states : (p : ℕ) (q : RunQueue) → KeepsStates q (clear_resched p q)
unfolding clear_resched put_core
clear_resched-states p q z = ground arith

pub count_run-states : (p : ℕ) (q : RunQueue) → KeepsStates q (count_run p q)
unfolding count_run put_core
count_run-states p q z = ground arith

clear_resched-header : (p : ℕ) (q : RunQueue) → (clear_resched p q).run_list ≡ q.run_list
unfolding clear_resched put_core
clear_resched-header p q = refl

pub count_run-header : (p : ℕ) (q : RunQueue) → (count_run p q).run_list ≡ q.run_list
unfolding count_run put_core
count_run-header p q = refl

module _ (c : SchedClass) where
  -- The processes `xs` are queued; they can run, and are neither current nor idle.
  pub record IsSystem (s : System) (xs : List ℕ) : Type 0 where
    pub queued : c.holds s.rq xs
    pub ready : (z : ℕ) → (s.rq.proc z).state ≢ runnable → NotIn z xs
    pub running : NotIn s.current xs
    pub idle : NotIn s.idleproc xs
    pub current_proc : (s.current ≢ 0) × (s.current ≢ s.rq.run_list)
    pub idle_proc : (s.idleproc ≢ 0) × (s.idleproc ≢ s.rq.run_list)

  -- What putting the current process back leaves.
  pub record Returned (s : System) (xs : List ℕ) : Type 0 where
    pub queue : RunQueue
    pub items : List ℕ
    pub result : put_back c.ops s ≡ some queue
    pub valid : c.holds queue items
    pub perm : Perm items (competing s xs)
    pub states : KeepsStates s.rq queue
    pub header : queue.run_list ≡ s.rq.run_list

  cleared : (s : System) (xs : List ℕ) → c.holds s.rq xs → c.holds (clear_resched s.current s.rq) xs
  unfolding clear_resched
  cleared s xs h = c.holds-put_core s.rq xs s.current _ _ _ _ h

  put_back_asleep :
      (s : System)
      → is_runnable (s.rq.proc s.current).state ≡ false
      → put_back c.ops s ≡ some (clear_resched s.current s.rq)
  unfolding put_back
  put_back_asleep s r = rw (clear_resched-states s.current s.rq s.current) (rw r)

  put_back_idle :
      (s : System)
      → is_runnable (s.rq.proc s.current).state ≡ true
      → s.current ≡ s.idleproc
      → put_back c.ops s ≡ some (clear_resched s.current s.rq)
  unfolding put_back sched_class_enqueue
  put_back_idle s r i =
      rw (clear_resched-states s.current s.rq s.current) (rw r (rw (eq→== s.current s.idleproc i)))

  put_back_ready :
      (s : System)
      → is_runnable (s.rq.proc s.current).state ≡ true
      → s.current ≢ s.idleproc
      → put_back c.ops s ≡ c.enqueue (clear_resched s.current s.rq) s.current
  unfolding put_back sched_class_enqueue
  put_back_ready s r i =
      rw (clear_resched-states s.current s.rq s.current) (rw r (rw (ne→== s.current s.idleproc i)))

  pub competing_asleep :
      (s : System) (xs : List ℕ)
      → is_runnable (s.rq.proc s.current).state ≡ false
      → competing s xs ≡ xs
  competing_asleep s xs r = rw r

  pub competing_idle :
      (s : System) (xs : List ℕ)
      → is_runnable (s.rq.proc s.current).state ≡ true
      → s.current ≡ s.idleproc
      → competing s xs ≡ xs
  competing_idle s xs r i = rw r (rw (eq→== s.current s.idleproc i))

  pub competing_ready :
      (s : System) (xs : List ℕ)
      → is_runnable (s.rq.proc s.current).state ≡ true
      → s.current ≢ s.idleproc
      → competing s xs ≡ s.current ∷ xs
  competing_ready s xs r i = rw r (rw (ne→== s.current s.idleproc i))

  left_alone :
      (s : System) (xs : List ℕ)
      → IsSystem s xs
      → put_back c.ops s ≡ some (clear_resched s.current s.rq)
      → competing s xs ≡ xs
      → Returned s xs
  left_alone s xs v run same = record {
    queue = clear_resched s.current s.rq;
    items = xs;
    result = run;
    valid = cleared s xs v.queued;
    perm = subst (Perm xs) (sym same) (Perm.refl xs);
    states = clear_resched-states s.current s.rq;
    header = clear_resched-header s.current s.rq;
  }

  pub put_back-Returned :
      (s : System) (xs : List ℕ) → IsSystem s xs → length xs < max_process → Returned s xs
  put_back-Returned s xs v few = elim (Bool-cases (is_runnable (s.rq.proc s.current).state)) [
    | inr r ↦ left_alone s xs v (put_back_asleep s r) (competing_asleep s xs r)
    | inl r ↦ elim (ℕ_discrete s.current s.idleproc) [
      | yes i ↦ left_alone s xs v (put_back_idle s r i) (competing_idle s xs r i)
      | no i ↦
          let q = clear_resched s.current s.rq in
          let e : Enqueued c.holds q xs s.current (c.enqueue q s.current) =
            c.enqueue-Enqueued q xs s.current (cleared s xs v.queued) v.running v.current_proc.0
              (λ k. v.current_proc.1 (k ∙ clear_resched-header s.current s.rq)) few in
          record {
            queue = e.queue;
            items = e.items;
            result = put_back_ready s r i ∙ e.result;
            valid = e.valid;
            perm = subst (Perm e.items) (sym (competing_ready s xs r i)) e.perm;
            states = λ z. e.states z ∙ clear_resched-states s.current s.rq z;
            header = e.header ∙ clear_resched-header s.current s.rq;
          }
    ]
  ]
