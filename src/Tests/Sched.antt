-- ===== src/Tests/Sched.antt =====
-- The scheduler with process 1 running, process 3 queued, process 4 waiting for a semaphore and
-- process 2 idle; the header of the run queue is at address 100.
use nku_os_2025_lab.Prelude.{ℕ, ◌≢◌, NotIn, refl, false, true, [], ◌∷◌, arith, ◌==◌, if◌then◌else◌}
use nku_os_2025_lab.Sched.Proc.{Proc, RunQueue, sleeping, runnable}
use nku_os_2025_lab.Sched.RoundRobin.Queue.{
  IsQueue, Appended, Removed, enqueue-Appended, dequeue-Removed, round_robin,
}
use nku_os_2025_lab.Sched.Core.{System}
use nku_os_2025_lab.Sched.Core.PutBack.{IsSystem}
use nku_os_2025_lab.Sched.Core.Schedule.{Schedules, schedule-Schedules}
use nku_os_2025_lab.Sched.Core.Wakeup.{Wakes, wakeup_proc-Wakes}

abbrev proc_at : ℕ → Proc
proc_at p = record {
  state = if p == 4 then sleeping else runnable;
  pid = p;
  runs = 0;
  need_resched = false;
  wait_state = if p == 4 then 256 else 0;
  on_rq = true;
  time_slice = 2;
  stride = 0;
  priority = 1;
  expected_runtime = 0;
}

abbrev queue : RunQueue
queue = record {
  run_list = 100;
  links = record {
    next = λ x. if x == 100 then 3 else if x == 3 then 100 else x;
    prev = λ x. if x == 100 then 3 else if x == 3 then 100 else x;
  };
  proc_num = 1;
  max_time_slice = 5;
  run_pool = 0;
  pool = record { left = λ x. 0; right = λ x. 0; parent = λ x. 0 };
  proc = proc_at;
}

abbrev pub system : System
system = record { rq = queue; current = 1; idleproc = 2 }

queue-IsQueue : IsQueue queue (3 ∷ [])
queue-IsQueue = record {
  list = record {
    ring = record { seg = (refl, refl, (refl, refl)); distinct = omega arith };
    count = refl;
    few = omega arith;
    detached = λ z h. ground arith;
    nonzero = omega arith;
  };
  marked = (refl, tt);
}

only_ready : (z : ℕ) → (queue.proc z).state ≢ runnable → NotIn z (3 ∷ [])
only_ready z h = ground arith

pub system-IsSystem : IsSystem round_robin system (3 ∷ [])
system-IsSystem = record {
  queued = queue-IsQueue;
  ready = only_ready;
  running = omega arith;
  idle = omega arith;
  current_proc = omega arith;
  idle_proc = omega arith;
}

enqueue-Appended_example : Appended queue (3 ∷ []) 1
enqueue-Appended_example =
    enqueue-Appended queue (3 ∷ []) 1 queue-IsQueue (omega arith) (omega arith) (omega arith)
      (omega arith)

dequeue-Removed_example : Removed queue [] 3 []
dequeue-Removed_example = dequeue-Removed queue [] 3 [] queue-IsQueue

schedule-Schedules_example : Schedules round_robin system (3 ∷ [])
schedule-Schedules_example =
    schedule-Schedules round_robin system (3 ∷ []) system-IsSystem (omega arith)

wakeup_proc-Wakes_example : Wakes round_robin system (3 ∷ []) 4
wakeup_proc-Wakes_example =
    wakeup_proc-Wakes round_robin system (3 ∷ []) 4 system-IsSystem refl (omega arith) (omega arith)
      (omega arith) (omega arith)
