-- ===== src/Sched/PrioRoundRobin.antt =====
-- lab6/kern/schedule/prio_rr_sched.c: round robin with slices by priority.
use nku_os_2025_lab.Prelude.{
  ℕ, ◌<◌, ◌≤◌, ◌*◌, ◌-◌, ◌^◌, ◌⊎◌, inl, inr, min, leb, ltb, true, ◌≡◌, ◌≢◌, refl, List, [], ◌∷◌,
  Option, arith, NotIn, length, ◌==◌, if◌then◌else◌,
}
use native.Mathlib.Decide.{ℕ_discrete, dec_lt}
use nku_os_2025_lab.Libs.LinkedList.{list_init}
use nku_os_2025_lab.Sched.Proc.{RunQueue, put_proc, max_process}
use nku_os_2025_lab.Sched.Class.{Enqueued, Picked, Ops, SchedClass}
use nku_os_2025_lab.Sched.Flagged.{
  enqueue_with, dequeue, pick_next, IsFlagged, Appended, put_proc-IsFlagged,
}
use nku_os_2025_lab.Sched.Flagged.Queue.{
  enqueue_with-Appended, pick_next_none, class-Enqueued, class-Picked, holds-apart,
  put_core-IsFlagged,
}

abbrev max_priority_slice : ℕ
max_priority_slice = 8

-- The weight of a priority: a `uint32_t` from 2 ^ 31 on is negative as an `int`.
unfoldable pub weight : ℕ → ℕ
weight priority =
    let w = if leb (2 ^ 31) priority then 1 else if priority == 0 then 1 else priority in
    if ltb max_priority_slice w then max_priority_slice else w

unfoldable pub calc_time_slice : RunQueue → ℕ → ℕ
unfolding weight
calc_time_slice q p = q.max_time_slice * weight (q.proc p).priority

unfoldable pub prio_rr_init : RunQueue → RunQueue
prio_rr_init q = record q { links = list_init q.run_list q.links; proc_num = 0; run_pool = 0 }

unfoldable pub prio_rr_enqueue : RunQueue → ℕ → Option RunQueue
prio_rr_enqueue q p = enqueue_with (calc_time_slice q p) q p

unfoldable pub prio_rr_dequeue : RunQueue → ℕ → Option RunQueue
prio_rr_dequeue q p = dequeue q p

unfoldable pub prio_rr_pick_next : RunQueue → ℕ × RunQueue
prio_rr_pick_next q = pick_next q

-- `calc_time_slice` reads nothing that the function writes.
unfoldable pub prio_rr_proc_tick : RunQueue → ℕ → RunQueue
prio_rr_proc_tick q p =
    let v = q.proc p in
    let t = if ltb 0 v.time_slice then v.time_slice - 1 else v.time_slice in
    put_proc p
      (record v {
        time_slice = if t == 0 then calc_time_slice q p else t;
        need_resched = if t == 0 then true else v.need_resched;
      })
      q

abbrev pub prio_rr_ops : Ops
prio_rr_ops = record {
  enqueue = prio_rr_enqueue;
  dequeue = prio_rr_dequeue;
  pick_next = prio_rr_pick_next;
  proc_tick = prio_rr_proc_tick;
}

pub tick-IsFlagged :
    (q : RunQueue) (xs : List ℕ) (p : ℕ) → IsFlagged q xs → IsFlagged (prio_rr_proc_tick q p) xs
unfolding prio_rr_proc_tick
tick-IsFlagged q xs p v =
    let w = q.proc p in
    let t = if ltb 0 w.time_slice then w.time_slice - 1 else w.time_slice in
    put_proc-IsFlagged q xs p
      (record w {
        time_slice = if t == 0 then calc_time_slice q p else t;
        need_resched = if t == 0 then true else w.need_resched;
      })
      refl v

pub prio_rr_enqueue-Enqueued :
    (q : RunQueue) (xs : List ℕ) (p : ℕ)
    → IsFlagged q xs
    → NotIn p xs
    → p ≢ 0
    → p ≢ q.run_list
    → length xs < max_process
    → Enqueued IsFlagged q xs p (prio_rr_enqueue q p)
unfolding prio_rr_enqueue
prio_rr_enqueue-Enqueued q xs p v n z h few =
    class-Enqueued (calc_time_slice q p) q xs p (enqueue_with (calc_time_slice q p) q p)
      (enqueue_with-Appended (calc_time_slice q p) q xs p v n z h few)

pub prio_rr_pick_next_none : (q : RunQueue) → IsFlagged q [] → prio_rr_pick_next q ≡ (0, q)
unfolding prio_rr_pick_next
prio_rr_pick_next_none q v = pick_next_none q v

pub prio_rr_pick_next-Picked :
    (q : RunQueue) (x : ℕ) (xs : List ℕ)
    → IsFlagged q (x ∷ xs)
    → Picked IsFlagged q (x ∷ xs) prio_rr_pick_next prio_rr_dequeue
unfolding prio_rr_pick_next prio_rr_dequeue
prio_rr_pick_next-Picked q x xs v = class-Picked q x xs v

-- Round robin by priority is a scheduling class.
abbrev pub prio_rr : SchedClass
prio_rr = record {
  ops = prio_rr_ops;
  holds = IsFlagged;
  holds-apart = holds-apart;
  holds-put_core = put_core-IsFlagged;
  enqueue-Enqueued = prio_rr_enqueue-Enqueued;
  pick_next_none = prio_rr_pick_next_none;
  pick_next-Picked = prio_rr_pick_next-Picked;
  proc_tick-holds = tick-IsFlagged;
}

weight_cases :
    (n : ℕ)
    → (((n ≡ 0) ⊎ (2 ^ 31 ≤ n)) × (weight n ≡ 1))
      ⊎ ((0 < n) × (n < 2 ^ 31) × (weight n ≡ min n max_priority_slice))
unfolding weight
weight_cases n = elim (ℕ_discrete n 0) [
  | yes e ↦ inl (inl e, ground arith)
  | no k ↦ elim (dec_lt n (2 ^ 31)) [
    | yes h ↦ inr (omega arith, h, ground arith)
    | no h ↦ inl (inr (omega arith), ground arith)
  ]
]

-- Under round robin by priority, a process that is not queued goes to the end of the queue with a
-- slice of `max_time_slice` times its priority, the priority being taken as 1 if it is 0 or from
-- 2 ^ 31 on, and as 8 if it is above 8. No assertion fails.
pub prio_rr_enqueue-Appended :
    (q : RunQueue) (xs : List ℕ) (p : ℕ)
    → IsFlagged q xs
    → NotIn p xs
    → p ≢ 0
    → p ≢ q.run_list
    → length xs < max_process
    → (w : ℕ) × Appended q xs p (q.max_time_slice * w) (prio_rr_enqueue q p)
      × (((((q.proc p).priority ≡ 0) ⊎ (2 ^ 31 ≤ (q.proc p).priority)) × (w ≡ 1))
          ⊎ ((0 < (q.proc p).priority)
              × ((q.proc p).priority < 2 ^ 31)
              × (w ≡ min (q.proc p).priority max_priority_slice)))
unfolding prio_rr_enqueue calc_time_slice
prio_rr_enqueue-Appended q xs p v n z h few = (
  weight (q.proc p).priority,
  enqueue_with-Appended (calc_time_slice q p) q xs p v n z h few,
  weight_cases (q.proc p).priority,
)

-- Under round robin by priority, a tick takes one unit of the slice of the process; where at most
-- one was left it asks for a switch and gives the process a new slice, and otherwise it leaves the
-- flag as it is. The queue stays as it is.
pub prio_rr_tick :
    (q : RunQueue) (xs : List ℕ) (p : ℕ)
    → IsFlagged q xs
    → ((((q.proc p).time_slice ≤ 1)
          × (((prio_rr_proc_tick q p).proc p).need_resched ≡ true)
          × (((prio_rr_proc_tick q p).proc p).time_slice ≡ calc_time_slice q p))
        ⊎ ((1 < (q.proc p).time_slice)
            × (((prio_rr_proc_tick q p).proc p).need_resched ≡ (q.proc p).need_resched)
            × (((prio_rr_proc_tick q p).proc p).time_slice ≡ (q.proc p).time_slice - 1)))
      × IsFlagged (prio_rr_proc_tick q p) xs
unfolding prio_rr_proc_tick put_proc
prio_rr_tick q xs p v = (
  elim (dec_lt 1 (q.proc p).time_slice) [
    | yes h ↦ inr (h, ground arith, ground arith)
    | no h ↦ inl (omega arith, ground arith, ground arith)
  ],
  tick-IsFlagged q xs p v,
)
