-- ===== src/Sched/Proc.antt =====
-- lab8/kern/process/proc.h and lab8/kern/schedule/sched.h: the fields of a process and of the run
-- queue that the scheduler works on. A `struct proc_struct *` is a number and NULL is 0.
use nku_os_2025_lab.Prelude.{ℕ, Bool, ◌^◌, update}
use nku_os_2025_lab.Libs.LinkedList.{Links}
use nku_os_2025_lab.Libs.SkewHeap.{Nodes}

pub data ProcState : Type 0 where
  uninit sleeping runnable zombie : ProcState

-- `on_rq` is whether `proc->rq` is the run queue. The slices are at least 0 where they are set.
pub record Proc : Type 0 where
  pub state : ProcState
  pub pid : ℕ
  pub runs : ℕ
  pub need_resched : Bool
  pub wait_state : ℕ
  pub on_rq : Bool
  pub time_slice : ℕ
  pub stride : ℕ
  pub priority : ℕ
  pub expected_runtime : ℕ

-- The run queue with all processes. The `run_link` and the `lab6_run_pool` of a process have the
-- process's number as their address; `run_list` is the address of the list's header.
pub record RunQueue : Type 0 where
  pub run_list : ℕ
  pub links : Links
  pub proc_num : ℕ
  pub max_time_slice : ℕ
  pub run_pool : ℕ
  pub pool : Nodes
  pub proc : ℕ → Proc

abbrev pub uint_mod : ℕ
uint_mod = 2 ^ 32

-- lab8/kern/process/proc.h: do_fork refuses to make more processes.
abbrev pub max_process : ℕ
max_process = 4096

-- A write to the fields of one process.
unfoldable pub put_proc : ℕ → Proc → RunQueue → RunQueue
put_proc p v q = record q { proc = update q.proc p v }

-- Writes to the fields that the core scheduler owns.
unfoldable pub put_core : ℕ → ProcState → ℕ → Bool → ℕ → RunQueue → RunQueue
unfolding put_proc
put_core p st n b w q =
    put_proc p (record (q.proc p) { state = st; runs = n; need_resched = b; wait_state = w }) q
