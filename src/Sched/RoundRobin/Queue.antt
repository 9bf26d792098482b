-- ===== src/Sched/RoundRobin/Queue.antt =====
-- The round-robin class keeps its queue, in order.
use nku_os_2025_lab.Prelude.{
  ℕ, ◌-◌, ◌≤◌, ◌<◌, ◌≡◌, ◌≢◌, refl, sym, ap, subst, ◌∙◌, Bool, true, false, List, [], ◌∷◌, ◌++◌,
  some, arith, All, All-map, All-both, All-append, All-append_left, All-append_right, ◌↔◌, NotIn,
  Distinct, length, perm_append_comm, update_ne, eq→==, ne→==,
}
use mathlib.Core.List.Perm
use nku_os_2025_lab.Libs.LinkedList.Ring.{IsSeg-split_right}
use nku_os_2025_lab.Libs.LinkedList.Distinct.{NotIn-after}
use nku_os_2025_lab.Libs.LinkedList.{list_empty}
use nku_os_2025_lab.Sched.Proc.{Proc, ProcState, put_core, RunQueue, max_process}
use nku_os_2025_lab.Sched.RunList.{IsRunList, append, remove, append-IsRunList, remove-IsRunList}
use nku_os_2025_lab.Sched.Class.{KeepsStates, Enqueued, Picked, Ops, SchedClass}
use nku_os_2025_lab.Sched.RoundRobin.{admit, enqueue, dequeue, pick_next, proc_tick}

-- The class's invariant: the list holds the processes, and each knows its queue.
pub record IsQueue (q : RunQueue) (xs : List ℕ) : Type 0 where
  pub list : IsRunList q xs
  pub marked : All (λ x. (q.proc x).on_rq ≡ true) xs

admit-proc_ne : (p : ℕ) (q : RunQueue) (z : ℕ) → z ≢ p → (admit p q).proc z ≡ q.proc z
unfolding admit
admit-proc_ne p q z n = update_ne q.proc p _ z n

admit-on_rq : (p : ℕ) (q : RunQueue) → ((admit p q).proc p).on_rq ≡ true
unfolding admit
admit-on_rq p q = ground arith

admit-states : (p : ℕ) (q : RunQueue) → KeepsStates q (admit p q)
unfolding admit
admit-states p q z = ground arith

tick-states : (q : RunQueue) (p : ℕ) → KeepsStates q (proc_tick q p)
unfolding proc_tick
tick-states q p z = ground arith

tick-on_rq : (q : RunQueue) (p z : ℕ) → ((proc_tick q p).proc z).on_rq ≡ (q.proc z).on_rq
unfolding proc_tick
tick-on_rq q p z = ground arith

tick-IsRunList :
    (q : RunQueue) (xs : List ℕ) (p : ℕ) → IsRunList q xs → IsRunList (proc_tick q p) xs
unfolding proc_tick
tick-IsRunList q xs p v = record {
  ring = v.ring;
  count = v.count;
  few = v.few;
  detached = v.detached;
  nonzero = v.nonzero;
}

-- `RR_enqueue` puts a process that is in no list at the end of the queue.
pub record Appended (q : RunQueue) (xs : List ℕ) (p : ℕ) : Type 0 where
  pub queue : RunQueue
  pub result : enqueue q p ≡ some queue
  pub valid : IsQueue queue (xs ++ p ∷ [])
  pub states : KeepsStates q queue
  pub header : queue.run_list ≡ q.run_list
  pub slice :
      (0 < q.max_time_slice)
      → (0 < (queue.proc p).time_slice) × ((queue.proc p).time_slice ≤ q.max_time_slice)

enqueue-slice :
    (q : RunQueue) (p : ℕ)
    → 0 < q.max_time_slice
    → (0 < ((admit p (append p q)).proc p).time_slice)
      × (((admit p (append p q)).proc p).time_slice ≤ q.max_time_slice)
unfolding admit append
enqueue-slice q p h = ground arith

append-proc : (p : ℕ) (q : RunQueue) → (append p q).proc ≡ q.proc
unfolding append
append-proc p q = refl

remove-proc : (p : ℕ) (q : RunQueue) → (remove p q).proc ≡ q.proc
unfolding remove
remove-proc p q = refl

admit-IsRunList : (p : ℕ) (q : RunQueue) (xs : List ℕ) → IsRunList q xs → IsRunList (admit p q) xs
unfolding admit
admit-IsRunList p q xs v = record {
  ring = v.ring;
  count = v.count;
  few = v.few;
  detached = v.detached;
  nonzero = v.nonzero;
}

admit-header : (p : ℕ) (q : RunQueue) → (admit p (append p q)).run_list ≡ q.run_list
unfolding admit append
admit-header p q = refl

-- Under round robin, inserting a process that is not queued into a queue of fewer than MAX_PROCESS
-- passes the assertion, puts the process at the end, keeps the invariant and all states, and where
-- `max_time_slice` is positive gives the process a slice between 1 and `max_time_slice`.
pub enqueue-Appended :
    (q : RunQueue) (xs : List ℕ) (p : ℕ)
    → IsQueue q xs
    → NotIn p xs
    → p ≢ 0
    → p ≢ q.run_list
    → length xs < max_process
    → Appended q xs p
unfolding enqueue list_empty
enqueue-Appended q xs p v new nonzero h few = record {
  queue = admit p (append p q);
  result = rw (eq→== (q.links.next p) p (v.list.detached p ((λ e. h (sym e)), new)));
  valid = record {
    list =
        admit-IsRunList p (append p q) (xs ++ p ∷ [])
          (append-IsRunList q xs p v.list new nonzero h few);
    marked =
        All-append _ xs (p ∷ [])
          (All-both xs new v.marked (λ x (n : x ≢ p) (e : (q.proc x).on_rq ≡ true).
            ap (λ (w : Proc). w.on_rq) (admit-proc_ne p (append p q) x n)
            ∙ ap (λ (f : ℕ → Proc). (f x).on_rq) (append-proc p q)
            ∙ e))
          (admit-on_rq p (append p q), tt);
  };
  states =
      λ z. admit-states p (append p q) z ∙ ap (λ (f : ℕ → Proc). (f z).state) (append-proc p q);
  header = admit-header p q;
  slice = enqueue-slice q p;
}

-- `RR_dequeue` removes a queued process, wherever it stands.
pub record Removed (q : RunQueue) (ys : List ℕ) (p : ℕ) (zs : List ℕ) : Type 0 where
  pub queue : RunQueue
  pub result : dequeue q p ≡ some queue
  pub valid : IsQueue queue (ys ++ zs)
  pub states : KeepsStates q queue
  pub header : queue.run_list ≡ q.run_list

next-ne :
    (q : RunQueue) (ys : List ℕ) (p : ℕ) (zs : List ℕ)
    → IsRunList q (ys ++ p ∷ zs)
    → q.links.next p ≢ p
next-ne q ys p [] v e =
    let s = IsSeg-split_right q.links q.run_list ys p [] q.run_list v.ring.seg in
    (All-append_right (λ z. z ≢ q.run_list) ys (p ∷ []) v.ring.distinct.0).0 (sym e ∙ s.0)
next-ne q ys p (z ∷ zs) v e =
    let s = IsSeg-split_right q.links q.run_list ys p (z ∷ zs) q.run_list v.ring.seg in
    (NotIn-after ys p (z ∷ zs) v.ring.distinct.1).0 (sym s.0 ∙ e)

remove-header : (p : ℕ) (q : RunQueue) → (remove p q).run_list ≡ q.run_list
unfolding remove
remove-header p q = refl

-- Under round robin, removing a queued process, wherever it stands, passes the assertion, leaves
-- the others in their order, and keeps the invariant and all states.
pub dequeue-Removed :
    (q : RunQueue) (ys : List ℕ) (p : ℕ) (zs : List ℕ)
    → IsQueue q (ys ++ p ∷ zs)
    → Removed q ys p zs
unfolding dequeue list_empty
dequeue-Removed q ys p zs v = record {
  queue = remove p q;
  result =
      rw (ne→== (q.links.next p) p (next-ne q ys p zs v.list))
        (rw (All-append_right (λ x. (q.proc x).on_rq ≡ true) ys (p ∷ zs) v.marked).0);
  valid = record {
    list = remove-IsRunList q ys p zs v.list;
    marked =
        subst (λ f. All (λ x. (f x).on_rq ≡ true) (ys ++ zs)) (sym (remove-proc p q))
          (All-append _ ys zs (All-append_left _ ys (p ∷ zs) v.marked)
            (All-append_right _ ys (p ∷ zs) v.marked).1);
  };
  states = λ z. ap (λ (f : ℕ → Proc). (f z).state) (remove-proc p q);
  header = remove-header p q;
}

-- `RR_pick_next` returns the process at the front, or NULL.
pub pick_next-front :
    (q : RunQueue) (x : ℕ) (xs : List ℕ) → IsQueue q (x ∷ xs) → pick_next q ≡ (x, q)
unfolding pick_next
pick_next-front q x xs v = rw v.list.ring.seg.0 (rw (ne→== x q.run_list v.list.ring.distinct.0.0))

pub pick_next_none : (q : RunQueue) → IsQueue q [] → pick_next q ≡ (0, q)
unfolding pick_next
pick_next_none q v = rw (eq→== (q.links.next q.run_list) q.run_list v.list.ring.seg.0)

-- Under round robin, a tick lowers the slice of the process by one, but not below 0, and where no
-- switch was asked for before, one is asked for exactly if at most one unit was left.
pub proc_tick-slice :
    (q : RunQueue) (p : ℕ)
    → (((proc_tick q p).proc p).time_slice ≡ (q.proc p).time_slice - 1)
      × ((q.proc p).need_resched ≡ false
          → (((proc_tick q p).proc p).need_resched ≡ true) ↔ ((q.proc p).time_slice ≤ 1))
unfolding proc_tick
proc_tick-slice q p = (ground arith, λ e. ground arith)

pub tick-IsQueue : (q : RunQueue) (xs : List ℕ) (p : ℕ) → IsQueue q xs → IsQueue (proc_tick q p) xs
tick-IsQueue q xs p v = record {
  list = tick-IsRunList q xs p v.list;
  marked = All-map _ _ xs (λ x (e : (q.proc x).on_rq ≡ true). tick-on_rq q p x ∙ e) v.marked;
}

abbrev pub ops : Ops
ops = record { enqueue = enqueue; dequeue = dequeue; pick_next = pick_next; proc_tick = proc_tick }

pub class-Enqueued :
    (q : RunQueue) (xs : List ℕ) (p : ℕ)
    → IsQueue q xs
    → NotIn p xs
    → p ≢ 0
    → p ≢ q.run_list
    → length xs < max_process
    → Enqueued IsQueue q xs p (enqueue q p)
class-Enqueued q xs p v new nonzero h few =
    let a = enqueue-Appended q xs p v new nonzero h few in
    record {
      queue = a.queue;
      items = xs ++ p ∷ [];
      result = a.result;
      valid = a.valid;
      perm = perm_append_comm xs (p ∷ []);
      states = a.states;
      header = a.header;
    }

pub class-Picked :
    (q : RunQueue) (x : ℕ) (xs : List ℕ)
    → IsQueue q (x ∷ xs)
    → Picked IsQueue q (x ∷ xs) pick_next dequeue
class-Picked q x xs v =
    let r = dequeue-Removed q [] x xs v in
    record {
      next = x;
      chosen = q;
      queue = r.queue;
      items = xs;
      pick_result = pick_next-front q x xs v;
      dequeue_result = r.result;
      valid = r.valid;
      perm = Perm.refl (x ∷ xs);
      states = r.states;
      header = r.header;
    }

pub holds-apart :
    (q : RunQueue) (xs : List ℕ) → IsQueue q xs → Distinct xs × NotIn 0 xs × NotIn q.run_list xs
holds-apart q xs v = (v.list.ring.distinct.1, v.list.nonzero, v.list.ring.distinct.0)

put_core-on_rq :
    (q : RunQueue) (p : ℕ) (st : ProcState) (n : ℕ) (b : Bool) (w z : ℕ)
    → ((put_core p st n b w q).proc z).on_rq ≡ (q.proc z).on_rq
unfolding put_core
put_core-on_rq q p st n b w z = ground arith

pub put_core-IsQueue :
    (q : RunQueue) (xs : List ℕ) (p : ℕ) (st : ProcState) (n : ℕ) (b : Bool) (w : ℕ)
    → IsQueue q xs
    → IsQueue (put_core p st n b w q) xs
unfolding put_core
put_core-IsQueue q xs p st n b w v = record {
  list = record {
    ring = v.list.ring;
    count = v.list.count;
    few = v.list.few;
    detached = v.list.detached;
    nonzero = v.list.nonzero;
  };
  marked =
      All-map _ _ xs (λ x (e : (q.proc x).on_rq ≡ true). put_core-on_rq q p st n b w x ∙ e)
        v.marked;
}

-- Round robin is a scheduling class.
abbrev pub round_robin : SchedClass
round_robin = record {
  ops = ops;
  holds = IsQueue;
  holds-apart = holds-apart;
  holds-put_core = put_core-IsQueue;
  enqueue-Enqueued = class-Enqueued;
  pick_next_none = pick_next_none;
  pick_next-Picked = class-Picked;
  proc_tick-holds = tick-IsQueue;
}
