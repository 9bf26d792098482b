-- ===== src/Sched/Class.antt =====
-- `struct sched_class` of lab8/kern/schedule/sched.h: what the core scheduler asks of a policy,
-- and what it relies on.
use nku_os_2025_lab.Prelude.{
  ℕ, ◌<◌, ◌≡◌, ◌≢◌, List, [], ◌∷◌, Option, some, NotIn, Distinct, Bool, Perm, length,
}
use nku_os_2025_lab.Sched.Proc.{ProcState, RunQueue, put_core, max_process}

-- What a change of the queue leaves as it was: the states of the processes.
abbrev pub KeepsStates : RunQueue → RunQueue → Type 0
KeepsStates q r = (z : ℕ) → ((r.proc z).state ≡ (q.proc z).state)

-- An insertion: the queue now also has `p`.
pub record Enqueued (holds : RunQueue → List ℕ → Type 0) (q : RunQueue) (xs : List ℕ) (p : ℕ)
    (run : Option RunQueue) : Type 0 where
  pub queue : RunQueue
  pub items : List ℕ
  pub result : run ≡ some queue
  pub valid : holds queue items
  pub perm : Perm items (p ∷ xs)
  pub states : KeepsStates q queue
  pub header : queue.run_list ≡ q.run_list

-- A choice and the removal of what was chosen.
pub record Picked (holds : RunQueue → List ℕ → Type 0) (q : RunQueue) (xs : List ℕ)
    (pick : RunQueue → ℕ × RunQueue) (dequeue : RunQueue → ℕ → Option RunQueue) : Type 0 where
  pub next : ℕ
  pub chosen : RunQueue
  pub queue : RunQueue
  pub items : List ℕ
  pub pick_result : pick q ≡ (next, chosen)
  pub dequeue_result : dequeue chosen next ≡ some queue
  pub valid : holds queue items
  pub perm : Perm (next ∷ items) xs
  pub states : KeepsStates q queue
  pub header : queue.run_list ≡ q.run_list

-- The operations of a class. `pick_next` returns NULL, which is 0, or a process, and may write to
-- it.
pub record Ops : Type 0 where
  pub enqueue : RunQueue → ℕ → Option RunQueue
  pub dequeue : RunQueue → ℕ → Option RunQueue
  pub pick_next : RunQueue → ℕ × RunQueue
  pub proc_tick : RunQueue → ℕ → RunQueue

-- `holds q xs` is the class's invariant: the processes `xs` are queued in `q`.
pub record SchedClass : Type 1 where
  pub ops : Ops
  pub open ops use *
  pub holds : RunQueue → List ℕ → Type 0
  pub holds-apart :
      (q : RunQueue) (xs : List ℕ) → holds q xs → Distinct xs × NotIn 0 xs × NotIn q.run_list xs
  pub holds-put_core :
      (q : RunQueue) (xs : List ℕ) (p : ℕ) (st : ProcState) (n : ℕ) (b : Bool) (w : ℕ)
      → holds q xs
      → holds (put_core p st n b w q) xs
  pub enqueue-Enqueued :
      (q : RunQueue) (xs : List ℕ) (p : ℕ)
      → holds q xs
      → NotIn p xs
      → p ≢ 0
      → p ≢ q.run_list
      → length xs < max_process
      → Enqueued holds q xs p (enqueue q p)
  pub pick_next_none : (q : RunQueue) → holds q [] → pick_next q ≡ (0, q)
  pub pick_next-Picked :
      (q : RunQueue) (x : ℕ) (xs : List ℕ)
      → holds q (x ∷ xs)
      → Picked holds q (x ∷ xs) pick_next dequeue
  pub proc_tick-holds : (q : RunQueue) (xs : List ℕ) (p : ℕ) → holds q xs → holds (proc_tick q p) xs
