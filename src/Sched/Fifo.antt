-- ===== src/Sched/Fifo.antt =====
-- lab6/kern/schedule/fifo_sched.c: first come, first served.
use nku_os_2025_lab.Prelude.{ℕ, ◌<◌, ◌≡◌, ◌≢◌, refl, List, [], ◌∷◌, Option, arith, NotIn, length}
use nku_os_2025_lab.Libs.LinkedList.{list_init}
use nku_os_2025_lab.Sched.Proc.{RunQueue, put_proc, max_process}
use nku_os_2025_lab.Sched.Class.{Enqueued, Picked, Ops, SchedClass}
use nku_os_2025_lab.Sched.Flagged.{
  enqueue_with, dequeue, pick_next, IsFlagged, Appended, Removed, put_proc-IsFlagged,
}
use nku_os_2025_lab.Sched.Flagged.Queue.{
  enqueue_with-Appended, dequeue-Removed, pick_next-front, pick_next_none, class-Enqueued,
  class-Picked, holds-apart, put_core-IsFlagged,
}

unfoldable pub fifo_init : RunQueue → RunQueue
fifo_init q = record q { links = list_init q.run_list q.links; proc_num = 0; run_pool = 0 }

unfoldable pub fifo_enqueue : RunQueue → ℕ → Option RunQueue
fifo_enqueue q p = enqueue_with q.max_time_slice q p

unfoldable pub fifo_dequeue : RunQueue → ℕ → Option RunQueue
fifo_dequeue q p = dequeue q p

unfoldable pub fifo_pick_next : RunQueue → ℕ × RunQueue
fifo_pick_next q = pick_next q

unfoldable pub fifo_proc_tick : RunQueue → ℕ → RunQueue
fifo_proc_tick q p = put_proc p (record (q.proc p) { time_slice = q.max_time_slice }) q

abbrev pub fifo_ops : Ops
fifo_ops = record {
  enqueue = fifo_enqueue;
  dequeue = fifo_dequeue;
  pick_next = fifo_pick_next;
  proc_tick = fifo_proc_tick;
}

pub tick-IsFlagged :
    (q : RunQueue) (xs : List ℕ) (p : ℕ) → IsFlagged q xs → IsFlagged (fifo_proc_tick q p) xs
unfolding fifo_proc_tick
tick-IsFlagged q xs p v =
    put_proc-IsFlagged q xs p (record (q.proc p) { time_slice = q.max_time_slice }) refl v

pub fifo_enqueue-Enqueued :
    (q : RunQueue) (xs : List ℕ) (p : ℕ)
    → IsFlagged q xs
    → NotIn p xs
    → p ≢ 0
    → p ≢ q.run_list
    → length xs < max_process
    → Enqueued IsFlagged q xs p (fifo_enqueue q p)
unfolding fifo_enqueue
fifo_enqueue-Enqueued q xs p v n z h few =
    class-Enqueued q.max_time_slice q xs p (enqueue_with q.max_time_slice q p)
      (enqueue_with-Appended q.max_time_slice q xs p v n z h few)

pub fifo_pick_next_none : (q : RunQueue) → IsFlagged q [] → fifo_pick_next q ≡ (0, q)
unfolding fifo_pick_next
fifo_pick_next_none q v = pick_next_none q v

pub fifo_pick_next-Picked :
    (q : RunQueue) (x : ℕ) (xs : List ℕ)
    → IsFlagged q (x ∷ xs)
    → Picked IsFlagged q (x ∷ xs) fifo_pick_next fifo_dequeue
unfolding fifo_pick_next fifo_dequeue
fifo_pick_next-Picked q x xs v = class-Picked q x xs v

-- First come, first served is a scheduling class.
abbrev pub fifo : SchedClass
fifo = record {
  ops = fifo_ops;
  holds = IsFlagged;
  holds-apart = holds-apart;
  holds-put_core = put_core-IsFlagged;
  enqueue-Enqueued = fifo_enqueue-Enqueued;
  pick_next_none = fifo_pick_next_none;
  pick_next-Picked = fifo_pick_next-Picked;
  proc_tick-holds = tick-IsFlagged;
}

-- Under first come, first served, the process that is chosen is the one that has waited longest: a
-- new process goes behind all that are queued, the choice is the first of the queue, and removing
-- it leaves the others in their order. No assertion fails.
pub fifo_order :
    (q : RunQueue) (x : ℕ) (xs : List ℕ) (p : ℕ)
    → IsFlagged q (x ∷ xs)
    → NotIn p (x ∷ xs)
    → p ≢ 0
    → p ≢ q.run_list
    → length (x ∷ xs) < max_process
    → Appended q (x ∷ xs) p q.max_time_slice (fifo_enqueue q p)
      × (fifo_pick_next q ≡ (x, q))
      × Removed q [] x xs (fifo_dequeue q x)
unfolding fifo_enqueue fifo_pick_next fifo_dequeue
fifo_order q x xs p v n z h few = (
  enqueue_with-Appended q.max_time_slice q (x ∷ xs) p v n z h few,
  pick_next-front q x xs v,
  dequeue-Removed q [] x xs v,
)

-- Under first come, first served, a tick never asks for a switch: every process keeps its flag
-- `need_resched`, and the queue stays as it is.
pub fifo_never_preempts :
    (q : RunQueue) (xs : List ℕ) (p : ℕ)
    → IsFlagged q xs
    → ((z : ℕ) → ((fifo_proc_tick q p).proc z).need_resched ≡ (q.proc z).need_resched)
      × IsFlagged (fifo_proc_tick q p) xs
unfolding fifo_proc_tick put_proc
fifo_never_preempts q xs p v = (λ z. ground arith, tick-IsFlagged q xs p v)
