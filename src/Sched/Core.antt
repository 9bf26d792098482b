-- ===== src/Sched/Core.antt =====
-- lab8/kern/schedule/sched.c: `schedule` and `wakeup_proc`, over any scheduling class. `none` is a
-- failed `assert`.
pub mod PutBack
pub mod Schedule
pub mod Wakeup
use nku_os_2025_lab.Prelude.{
  ℕ, ◌+◌, ◌%◌, Bool, true, false, not, Option, none, some, ◌==◌, if◌then◌else◌, ◌>>=◌, ◌>>◌, assert,
}
use nku_os_2025_lab.Sched.Proc.{
  Proc, ProcState, uninit, sleeping, runnable, zombie, RunQueue, uint_mod, put_core,
}
use nku_os_2025_lab.Sched.Class.{Ops}

pub record System : Type 0 where
  pub rq : RunQueue
  pub current : ℕ
  pub idleproc : ℕ

abbrev pub is_runnable : ProcState → Bool
is_runnable runnable = true
is_runnable _ = false

abbrev pub is_zombie : ProcState → Bool
is_zombie zombie = true
is_zombie _ = false

-- `proc->need_resched = 0`
unfoldable pub clear_resched : ℕ → RunQueue → RunQueue
clear_resched p q = let v = q.proc p in put_core p v.state v.runs false v.wait_state q

-- `proc->runs++`, on an `int` of 32 bits
unfoldable pub count_run : ℕ → RunQueue → RunQueue
count_run p q =
    let v = q.proc p in put_core p v.state ((v.runs + 1) % uint_mod) v.need_resched v.wait_state q

-- `proc->need_resched = 1`
unfoldable pub set_resched : ℕ → RunQueue → RunQueue
set_resched p q = let v = q.proc p in put_core p v.state v.runs true v.wait_state q

-- `proc->state = PROC_RUNNABLE; proc->wait_state = 0`
unfoldable pub make_runnable : ℕ → RunQueue → RunQueue
make_runnable p q = let v = q.proc p in put_core p runnable v.runs v.need_resched 0 q

-- `proc_run` of lab8/kern/process/proc.c, which counts the run again; the switch of stacks and page
-- tables is left out.
unfoldable pub proc_run : ℕ → System → System
unfolding count_run
proc_run p s = if p == s.current then s else record s { current = p; rq = count_run p s.rq }

module _ (ops : Ops) where
  unfoldable pub sched_class_enqueue : ℕ → ℕ → RunQueue → Option RunQueue
  sched_class_enqueue idle p q = if p == idle then some q else ops.enqueue q p

  unfoldable pub sched_class_proc_tick : ℕ → ℕ → RunQueue → RunQueue
  sched_class_proc_tick idle p q = if p == idle then set_resched p q else ops.proc_tick q p

  -- The part of `schedule` that puts the current process back.
  unfoldable pub put_back : System → Option RunQueue
  unfolding sched_class_enqueue clear_resched
  put_back s =
      if is_runnable ((clear_resched s.current s.rq).proc s.current).state
      then sched_class_enqueue s.idleproc s.current (clear_resched s.current s.rq)
      else some (clear_resched s.current s.rq)

  -- `if ((next = pick_next()) != NULL) dequeue(next); if (next == NULL) next = idleproc;`
  unfoldable pub take_next : ℕ → RunQueue → Option (ℕ × RunQueue)
  take_next idle q =
      let (next, r) = ops.pick_next q in
      if next == 0 then some (idle, r) else (do w ← ops.dequeue r next; some (next, w))

  unfoldable pub schedule : System → Option System
  unfolding put_back take_next count_run proc_run
  schedule s = do
    q ← put_back s
    (next, r) ← take_next s.idleproc q
    some (proc_run next (record s { rq = count_run next r }))

  -- `if (proc != current) sched_class_enqueue(proc)` after the process is made runnable.
  unfoldable pub requeue : ℕ → System → Option System
  unfolding sched_class_enqueue
  requeue p s =
      if p == s.current
      then some s
      else (sched_class_enqueue s.idleproc p s.rq >>= λ q. some (record s { rq = q }))

  unfoldable pub wakeup_proc : ℕ → System → Option System
  unfolding requeue make_runnable
  wakeup_proc p s = do
    assert (not (is_zombie (s.rq.proc p).state))
    if is_runnable (s.rq.proc p).state
        then some s
        else requeue p (record s { rq = make_runnable p s.rq })
