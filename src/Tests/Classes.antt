-- ===== src/Tests/Classes.antt =====
-- The classes of lab6 with process 3 queued and process 1 not; the header is at address 100.
use nku_os_2025_lab.Prelude.{ℕ, ◌≡◌, refl, false, [], ◌∷◌, arith, ◌==◌, if◌then◌else◌}
use nku_os_2025_lab.Sched.Proc.{Proc, RunQueue, runnable}
use nku_os_2025_lab.Sched.Flagged.{IsFlagged, Appended, Removed}
use nku_os_2025_lab.Sched.Fifo.{fifo_enqueue, fifo_dequeue, fifo_pick_next, fifo_order}

abbrev proc_at : ℕ → Proc
proc_at p = record {
  state = runnable;
  pid = p;
  runs = 0;
  need_resched = false;
  wait_state = 0;
  on_rq = p == 3;
  time_slice = 1;
  stride = 0;
  priority = 9;
  expected_runtime = 0;
}

abbrev queue : RunQueue
queue = record {
  run_list = 100;
  links = record {
    next = λ x. if x == 100 then 3 else if x == 3 then 100 else x;
    prev = λ x. if x == 100 then 3 else if x == 3 then 100 else x;
  };
  proc_num = 1;
  max_time_slice = 5;
  run_pool = 0;
  pool = record { left = λ x. 0; right = λ x. 0; parent = λ x. 0 };
  proc = proc_at;
}

queue-IsFlagged : IsFlagged queue (3 ∷ [])
queue-IsFlagged = record {
  list = record {
    ring = record { seg = (refl, refl, (refl, refl)); distinct = omega arith };
    count = refl;
    few = omega arith;
    detached = λ z h. ground arith;
    nonzero = omega arith;
  };
  marked = (refl, tt);
  unmarked = λ z n. ground arith;
}

fifo_order_example :
    Appended queue (3 ∷ []) 1 5 (fifo_enqueue queue 1)
    × (fifo_pick_next queue ≡ (3, queue))
    × Removed queue [] 3 [] (fifo_dequeue queue 3)
fifo_order_example =
    fifo_order queue 3 [] 1 queue-IsFlagged (omega arith) (omega arith) (omega arith) (omega arith)
