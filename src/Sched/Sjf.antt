-- ===== src/Sched/Sjf.antt =====
-- lab6/kern/schedule/sjf_sched.c: shortest job first, without preemption.
pub mod Order
use nku_os_2025_lab.Prelude.{
  ℕ, ◌+◌, ◌-◌, ◌%◌, ◌^◌, ◌<◌, ◌≡◌, ◌≢◌, refl, ap, ◌∙◌, Bool, true, false, not, ◌&&◌, List, ◌∷◌, [],
  Option, arith, NotIn, length, ltb, leb, ◌==◌, if◌then◌else◌, ◌>>=◌, ◌>>◌, assert, eq→==,
}
use nku_os_2025_lab.Libs.LinkedList.{list_init}
use nku_os_2025_lab.Libs.SkewHeap.Tree.{Tree, node}
use nku_os_2025_lab.Sched.Proc.{Proc, RunQueue, uint_mod, put_proc, max_process}
use nku_os_2025_lab.Sched.Class.{Enqueued, Picked, Ops, SchedClass}
use nku_os_2025_lab.Sched.Pooled.{insert_pooled, dequeue_pooled, PooledAs, IsPooled}
use nku_os_2025_lab.Sched.Pooled.Queue.{
  Inserted, insert_pooled-Inserted, Inserted-Enqueued, dequeue_pooled-RootRemoved, pooled-apart,
  put_proc-PooledAs, put_core-IsPooled, pooled_root, pooled_empty,
}

-- `proc_sjf_comp(a, b) == -1`: the difference is an `int32_t`.
unfoldable pub sjf_less : (ℕ → Proc) → ℕ → ℕ → Bool
sjf_less proc a b =
    let diff = ((proc a).expected_runtime + uint_mod - (proc b).expected_runtime) % uint_mod in
    if ltb 0 diff && ltb diff (2 ^ 31)
    then false
    else if leb (2 ^ 31) diff
    then true
    else ltb (proc a).pid (proc b).pid

unfoldable pub sjf_init : RunQueue → RunQueue
sjf_init q = record q { links = list_init q.run_list q.links; proc_num = 0; run_pool = 0 }

-- `if (proc->lab6_expected_runtime == 0) proc->lab6_expected_runtime = rq->max_time_slice`
unfoldable pub fix_runtime : ℕ → RunQueue → RunQueue
unfolding put_proc
fix_runtime p q =
    let v = q.proc p in
    put_proc p
      (record v {
        expected_runtime = if v.expected_runtime == 0 then q.max_time_slice else v.expected_runtime;
      })
      q

unfoldable pub sjf_enqueue : RunQueue → ℕ → Option RunQueue
sjf_enqueue q p = do
  assert (not (q.proc p).on_rq)
  let r = fix_runtime p q
  insert_pooled sjf_less (r.proc p).expected_runtime r p

unfoldable pub sjf_dequeue : RunQueue → ℕ → Option RunQueue
sjf_dequeue q p = dequeue_pooled sjf_less q p

unfoldable pub sjf_pick_next : RunQueue → ℕ × RunQueue
sjf_pick_next q = (q.run_pool, q)

unfoldable pub sjf_proc_tick : RunQueue → ℕ → RunQueue
unfolding put_proc
sjf_proc_tick q p = put_proc p (record (q.proc p) { time_slice = (q.proc p).expected_runtime }) q

abbrev pub sjf_ops : Ops
sjf_ops = record {
  enqueue = sjf_enqueue;
  dequeue = sjf_dequeue;
  pick_next = sjf_pick_next;
  proc_tick = sjf_proc_tick;
}

pub fix_runtime-PooledAs :
    (q : RunQueue) (t : Tree) (xs : List ℕ) (p : ℕ)
    → PooledAs q t xs
    → PooledAs (fix_runtime p q) t xs
unfolding fix_runtime
fix_runtime-PooledAs q t xs p v = put_proc-PooledAs q t xs p _ refl v

fix_runtime-header : (q : RunQueue) (p : ℕ) → (fix_runtime p q).run_list ≡ q.run_list
unfolding fix_runtime put_proc
fix_runtime-header q p = refl

fix_runtime-states : (q : RunQueue) (p z : ℕ) → ((fix_runtime p q).proc z).state ≡ (q.proc z).state
unfolding fix_runtime put_proc
fix_runtime-states q p z = ground arith

sjf_enqueue_run :
    (q : RunQueue) (p : ℕ)
    → (q.proc p).on_rq ≡ false
    → sjf_enqueue q p
      ≡ insert_pooled sjf_less ((fix_runtime p q).proc p).expected_runtime (fix_runtime p q) p
unfolding sjf_enqueue
sjf_enqueue_run q p e = rw e refl

pub sjf-Inserted :
    (q : RunQueue) (t : Tree) (xs : List ℕ) (p : ℕ)
    → PooledAs q t xs
    → NotIn p xs
    → p ≢ 0
    → p ≢ q.run_list
    → length xs < max_process
    → Inserted sjf_less
        ((fix_runtime p q).proc p).expected_runtime
        (fix_runtime p q)
        t
        xs
        p
        (sjf_enqueue q p)
sjf-Inserted q t xs p v n z h few = rw (sjf_enqueue_run q p (v.flagged.unmarked p n)) (
    insert_pooled-Inserted sjf_less _ (fix_runtime p q) t xs p (fix_runtime-PooledAs q t xs p v) n z
      (λ e. h (e ∙ fix_runtime-header q p)) few)

pub sjf_enqueue-Enqueued :
    (q : RunQueue) (xs : List ℕ) (p : ℕ)
    → IsPooled q xs
    → NotIn p xs
    → p ≢ 0
    → p ≢ q.run_list
    → length xs < max_process
    → Enqueued IsPooled q xs p (sjf_enqueue q p)
sjf_enqueue-Enqueued q xs p (t, v) n z h few =
    let i =
      Inserted-Enqueued sjf_less _ (fix_runtime p q) t xs p (sjf_enqueue q p)
        (sjf-Inserted q t xs p v n z h few) in
    record {
      queue = i.queue;
      items = i.items;
      result = i.result;
      valid = i.valid;
      perm = i.perm;
      states = λ z. i.states z ∙ fix_runtime-states q p z;
      header = i.header ∙ fix_runtime-header q p;
    }

pub sjf_pick_next_none : (q : RunQueue) → IsPooled q [] → sjf_pick_next q ≡ (0, q)
unfolding sjf_pick_next
sjf_pick_next_none q (t, v) = rw (pooled_empty q t v) refl

pub sjf_pick_next_root : (q : RunQueue) (y : ℕ) → q.run_pool ≡ y → sjf_pick_next q ≡ (y, q)
unfolding sjf_pick_next
sjf_pick_next_root q y e = ap (λ x. (x, q)) e

pub sjf_pick_next-Picked :
    (q : RunQueue) (x : ℕ) (xs : List ℕ)
    → IsPooled q (x ∷ xs)
    → Picked IsPooled q (x ∷ xs) sjf_pick_next sjf_dequeue
unfolding sjf_dequeue
sjf_pick_next-Picked q x xs (t, v) =
    let k = pooled_root q t x xs v in
    let d = dequeue_pooled-RootRemoved sjf_less q (x ∷ xs) k.left k.item k.right k.pooled in
    record {
      next = k.item;
      chosen = q;
      queue = d.queue;
      items = d.items;
      pick_result = sjf_pick_next_root q k.item k.at_root;
      dequeue_result = d.result;
      valid = (_, d.valid);
      perm = d.perm;
      states = d.states;
      header = d.header;
    }

pub sjf_tick-IsPooled :
    (q : RunQueue) (xs : List ℕ) (p : ℕ) → IsPooled q xs → IsPooled (sjf_proc_tick q p) xs
unfolding sjf_proc_tick
sjf_tick-IsPooled q xs p (t, v) = (t, put_proc-PooledAs q t xs p _ refl v)

-- Shortest job first is a scheduling class.
abbrev pub sjf : SchedClass
sjf = record {
  ops = sjf_ops;
  holds = IsPooled;
  holds-apart = pooled-apart;
  holds-put_core = put_core-IsPooled;
  enqueue-Enqueued = sjf_enqueue-Enqueued;
  pick_next_none = sjf_pick_next_none;
  pick_next-Picked = sjf_pick_next-Picked;
  proc_tick-holds = sjf_tick-IsPooled;
}
