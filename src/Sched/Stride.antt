-- ===== src/Sched/Stride.antt =====
-- lab6/kern/schedule/default_sched_stride.c: the stride class. A stride is an `uint32_t` that
-- wraps.
pub mod Window
pub mod Order
use nku_os_2025_lab.Prelude.{
  ℕ, ◌+◌, ◌-◌, ◌/◌, ◌%◌, ◌^◌, ◌<◌, ◌≡◌, ◌≢◌, refl, sym, ap, subst, ◌∙◌, Bool, true, false, not,
  List, [], ◌∷◌, Option, arith, NotIn, length, ltb, leb, ◌==◌, if◌then◌else◌, ◌>>=◌, ◌>>◌, assert,
  eq→==, ne→==, update_ne, update_self,
}
use mathlib.Core.List.Perm
use nku_os_2025_lab.Libs.LinkedList.{list_init}
use nku_os_2025_lab.Libs.SkewHeap.Tree.{Tree, node}
use nku_os_2025_lab.Sched.Proc.{Proc, RunQueue, uint_mod, put_proc, max_process}
use nku_os_2025_lab.Sched.Class.{Enqueued, Picked, Ops, SchedClass}
use nku_os_2025_lab.Sched.Pooled.{insert_pooled, dequeue_pooled, PooledAs, IsPooled}
use nku_os_2025_lab.Sched.Pooled.Queue.{
  Inserted, insert_pooled-Inserted, Inserted-Enqueued, dequeue_pooled-RootRemoved, pooled-apart,
  put_proc-PooledAs, put_core-IsPooled, pooled_root, pooled_empty,
}

abbrev pub big_stride : ℕ
big_stride = 0x7fffffff

-- `proc_stride_comp_f(a, b) == -1`: the difference, read as an `int32_t`, is negative.
unfoldable pub stride_less : (ℕ → Proc) → ℕ → ℕ → Bool
stride_less proc a b = leb (2 ^ 31) (((proc a).stride + uint_mod - (proc b).stride) % uint_mod)

unfoldable pub stride_init : RunQueue → RunQueue
stride_init q = record q { links = list_init q.run_list q.links; run_pool = 0; proc_num = 0 }

-- `if (proc->lab6_priority == 0) proc->lab6_priority = 1`
unfoldable pub fix_priority : ℕ → RunQueue → RunQueue
unfolding put_proc
fix_priority p q =
    let v = q.proc p in
    put_proc p (record v { priority = if v.priority == 0 then 1 else v.priority }) q

unfoldable pub stride_enqueue : RunQueue → ℕ → Option RunQueue
stride_enqueue q p = do
  assert (not (q.proc p).on_rq)
  insert_pooled stride_less q.max_time_slice (fix_priority p q) p

unfoldable pub stride_dequeue : RunQueue → ℕ → Option RunQueue
stride_dequeue q p = dequeue_pooled stride_less q p

-- `proc->lab6_stride += BIG_STRIDE / priority`, after the priority was fixed.
unfoldable pub advance_stride : ℕ → RunQueue → RunQueue
unfolding put_proc
advance_stride p q =
    let r = fix_priority p q in
    let v = r.proc p in
    put_proc p (record v { stride = (v.stride + big_stride / v.priority) % uint_mod }) r

unfoldable pub stride_pick_next : RunQueue → ℕ × RunQueue
unfolding advance_stride
stride_pick_next q = if q.run_pool == 0 then (0, q) else (q.run_pool, advance_stride q.run_pool q)

unfoldable pub stride_proc_tick : RunQueue → ℕ → RunQueue
unfolding put_proc
stride_proc_tick q p =
    let v = q.proc p in
    let t = if ltb 0 v.time_slice then v.time_slice - 1 else v.time_slice in
    put_proc p (record v { time_slice = t; need_resched = if t == 0 then true else v.need_resched })
      q

abbrev pub stride_ops : Ops
stride_ops = record {
  enqueue = stride_enqueue;
  dequeue = stride_dequeue;
  pick_next = stride_pick_next;
  proc_tick = stride_proc_tick;
}

pub fix_priority-PooledAs :
    (q : RunQueue) (t : Tree) (xs : List ℕ) (p : ℕ)
    → PooledAs q t xs
    → PooledAs (fix_priority p q) t xs
unfolding fix_priority
fix_priority-PooledAs q t xs p v = put_proc-PooledAs q t xs p _ refl v

pub fix_priority-header : (q : RunQueue) (p : ℕ) → (fix_priority p q).run_list ≡ q.run_list
unfolding fix_priority put_proc
fix_priority-header q p = refl

pub fix_priority-states :
    (q : RunQueue) (p z : ℕ) → ((fix_priority p q).proc z).state ≡ (q.proc z).state
unfolding fix_priority put_proc
fix_priority-states q p z = ground arith

pub fix_priority-stride :
    (q : RunQueue) (p z : ℕ) → ((fix_priority p q).proc z).stride ≡ (q.proc z).stride
unfolding fix_priority put_proc
fix_priority-stride q p z = ground arith

pub advance_stride-PooledAs :
    (q : RunQueue) (t : Tree) (xs : List ℕ) (p : ℕ)
    → PooledAs q t xs
    → PooledAs (advance_stride p q) t xs
unfolding advance_stride
advance_stride-PooledAs q t xs p v =
    put_proc-PooledAs (fix_priority p q) t xs p _ refl (fix_priority-PooledAs q t xs p v)

pub advance_stride-states :
    (q : RunQueue) (p z : ℕ) → ((advance_stride p q).proc z).state ≡ (q.proc z).state
unfolding advance_stride put_proc
advance_stride-states q p z = ground (arith, fix_priority-states q p z)

pub advance_stride-header : (q : RunQueue) (p : ℕ) → (advance_stride p q).run_list ≡ q.run_list
unfolding advance_stride fix_priority put_proc
advance_stride-header q p = refl

pub stride_enqueue_run :
    (q : RunQueue) (p : ℕ)
    → (q.proc p).on_rq ≡ false
    → stride_enqueue q p ≡ insert_pooled stride_less q.max_time_slice (fix_priority p q) p
unfolding stride_enqueue
stride_enqueue_run q p e = rw e refl

pub stride-Inserted :
    (q : RunQueue) (t : Tree) (xs : List ℕ) (p : ℕ)
    → PooledAs q t xs
    → NotIn p xs
    → p ≢ 0
    → p ≢ q.run_list
    → length xs < max_process
    → Inserted stride_less q.max_time_slice (fix_priority p q) t xs p (stride_enqueue q p)
stride-Inserted q t xs p v n z h few = rw (stride_enqueue_run q p (v.flagged.unmarked p n)) (
    insert_pooled-Inserted stride_less q.max_time_slice (fix_priority p q) t xs p
      (fix_priority-PooledAs q t xs p v) n z (λ e. h (e ∙ fix_priority-header q p)) few)

pub stride_enqueue-Enqueued :
    (q : RunQueue) (xs : List ℕ) (p : ℕ)
    → IsPooled q xs
    → NotIn p xs
    → p ≢ 0
    → p ≢ q.run_list
    → length xs < max_process
    → Enqueued IsPooled q xs p (stride_enqueue q p)
stride_enqueue-Enqueued q xs p (t, v) n z h few =
    let i =
      Inserted-Enqueued stride_less q.max_time_slice (fix_priority p q) t xs p (stride_enqueue q p)
        (stride-Inserted q t xs p v n z h few) in
    record {
      queue = i.queue;
      items = i.items;
      result = i.result;
      valid = i.valid;
      perm = i.perm;
      states = λ z. i.states z ∙ fix_priority-states q p z;
      header = i.header ∙ fix_priority-header q p;
    }

pub stride_pick_next_none : (q : RunQueue) → IsPooled q [] → stride_pick_next q ≡ (0, q)
unfolding stride_pick_next
stride_pick_next_none q (t, v) = rw (eq→== q.run_pool 0 (pooled_empty q t v))

pub stride_pick_next_root :
    (q : RunQueue) (y : ℕ) → q.run_pool ≡ y → y ≢ 0 → stride_pick_next q ≡ (y, advance_stride y q)
unfolding stride_pick_next
stride_pick_next_root q y e n = rw e (rw (ne→== y 0 n) refl)

pub stride_pick_next-Picked :
    (q : RunQueue) (x : ℕ) (xs : List ℕ)
    → IsPooled q (x ∷ xs)
    → Picked IsPooled q (x ∷ xs) stride_pick_next stride_dequeue
unfolding stride_dequeue
stride_pick_next-Picked q x xs (t, v) =
    let k = pooled_root q t x xs v in
    let y = k.item in
    let d =
      dequeue_pooled-RootRemoved stride_less (advance_stride y q) (x ∷ xs) k.left y k.right
        (advance_stride-PooledAs q (node k.left y k.right) (x ∷ xs) y k.pooled) in
    record {
      next = y;
      chosen = advance_stride y q;
      queue = d.queue;
      items = d.items;
      pick_result = stride_pick_next_root q y k.at_root k.nonzero;
      dequeue_result = d.result;
      valid = (_, d.valid);
      perm = d.perm;
      states = λ z. d.states z ∙ advance_stride-states q y z;
      header = d.header ∙ advance_stride-header q y;
    }

pub stride_tick-IsPooled :
    (q : RunQueue) (xs : List ℕ) (p : ℕ) → IsPooled q xs → IsPooled (stride_proc_tick q p) xs
unfolding stride_proc_tick
stride_tick-IsPooled q xs p (t, v) = (t, put_proc-PooledAs q t xs p _ refl v)

-- The stride scheduler is a scheduling class.
abbrev pub stride : SchedClass
stride = record {
  ops = stride_ops;
  holds = IsPooled;
  holds-apart = pooled-apart;
  holds-put_core = put_core-IsPooled;
  enqueue-Enqueued = stride_enqueue-Enqueued;
  pick_next_none = stride_pick_next_none;
  pick_next-Picked = stride_pick_next-Picked;
  proc_tick-holds = stride_tick-IsPooled;
}
