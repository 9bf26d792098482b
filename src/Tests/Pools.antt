-- ===== src/Tests/Pools.antt =====
-- Processes 3 and 5 queued, with the pool that has 3 at its root; 5 is ahead of 3 past the wrap of
-- the strides, and 4 is not queued. The header of the run queue is at address 100.
use nku_os_2025_lab.Prelude.{ℕ, ◌-◌, ◌^◌, refl, [], ◌∷◌, arith, ◌==◌, if◌then◌else◌, true, false}
use mathlib.Core.List.Perm
use nku_os_2025_lab.Libs.SkewHeap.Tree.{Tree, leaf, node}
use nku_os_2025_lab.Sched.Proc.{Proc, RunQueue, runnable}
use nku_os_2025_lab.Sched.Flagged.{IsFlagged}
use nku_os_2025_lab.Sched.Pooled.{PooledAs}
use nku_os_2025_lab.Sched.Stride.{stride_less, stride_enqueue}
use nku_os_2025_lab.Sched.Stride.Order.{
  StridePool, StrideQueued, StridePicked, stride_enqueue-StrideQueued, stride-StridePicked,
}
use nku_os_2025_lab.Sched.Sjf.{sjf_less, sjf_enqueue, fix_runtime}
use nku_os_2025_lab.Sched.Sjf.Order.{
  JobPool, JobPicked, JobQueued, sjf-JobPicked, sjf_enqueue-JobQueued,
}

abbrev proc_at : ℕ → Proc
proc_at p = record {
  state = runnable;
  pid = p;
  runs = 0;
  need_resched = false;
  wait_state = 0;
  on_rq = if p == 3 then true else p == 5;
  time_slice = 2;
  stride = if p == 3 then 2 ^ 32 - 10 else 20;
  priority = p;
  expected_runtime = p;
}

abbrev tree : Tree
tree = node (node leaf 5 leaf) 3 leaf

abbrev queue : RunQueue
queue = record {
  run_list = 100;
  links = record {
    next = λ x. if x == 100 then 3 else if x == 3 then 5 else if x == 5 then 100 else x;
    prev = λ x. if x == 100 then 5 else if x == 5 then 3 else if x == 3 then 100 else x;
  };
  proc_num = 2;
  max_time_slice = 5;
  run_pool = 3;
  pool = record {
    left = λ x. if x == 3 then 5 else 0;
    right = λ x. 0;
    parent = λ x. if x == 5 then 3 else 0;
  };
  proc = proc_at;
}

queue-IsFlagged : IsFlagged queue (3 ∷ 5 ∷ [])
queue-IsFlagged = record {
  list = record {
    ring = record { seg = (refl, refl, (refl, refl, (refl, refl))); distinct = omega arith };
    count = refl;
    few = omega arith;
    detached = λ z h. ground arith;
    nonzero = omega arith;
  };
  marked = (refl, (refl, tt));
  unmarked = λ z h. ground arith;
}

queue-PooledAs : PooledAs queue tree (3 ∷ 5 ∷ [])
queue-PooledAs = record {
  flagged = queue-IsFlagged;
  pool = record {
    tree = (omega arith, refl, refl, refl, tt, (omega arith, refl, refl, tt, tt, tt, tt), tt);
    top = refl;
    distinct = omega arith;
  };
  top = refl;
  perm = Perm.refl (3 ∷ 5 ∷ []);
}

strides : StridePool queue (2 ^ 32 - 10) tree (3 ∷ 5 ∷ [])
unfolding stride_less
strides = record {
  pooled = queue-PooledAs;
  ordered = ((refl, tt, tt), tt, (tt, tt, tt, tt), tt);
  window = omega arith;
  small = omega arith;
}

jobs : JobPool queue tree (3 ∷ 5 ∷ [])
unfolding sjf_less
jobs = record {
  pooled = queue-PooledAs;
  ordered = ((refl, tt, tt), tt, (tt, tt, tt, tt), tt);
  times = omega arith;
}

stride_enqueue-StrideQueued_example :
    StrideQueued queue (2 ^ 32 - 10) (3 ∷ 5 ∷ 4 ∷ []) (stride_enqueue queue 4)
stride_enqueue-StrideQueued_example =
    stride_enqueue-StrideQueued queue (2 ^ 32 - 10) tree (3 ∷ 5 ∷ []) 4 strides (omega arith)
      (omega arith) (omega arith) (omega arith) (omega arith)

stride-StridePicked_example : StridePicked queue (2 ^ 32 - 10) (3 ∷ 5 ∷ [])
stride-StridePicked_example = stride-StridePicked queue (2 ^ 32 - 10) tree 3 (5 ∷ []) strides

sjf_enqueue-JobQueued_example : JobQueued queue (3 ∷ 5 ∷ []) 4 (sjf_enqueue queue 4)
unfolding fix_runtime
sjf_enqueue-JobQueued_example =
    sjf_enqueue-JobQueued queue tree (3 ∷ 5 ∷ []) 4 jobs (omega arith) (omega arith) (omega arith)
      (omega arith) (omega arith)

sjf-JobPicked_example : JobPicked queue (3 ∷ 5 ∷ [])
sjf-JobPicked_example = sjf-JobPicked queue tree 3 (5 ∷ []) jobs
