-- ===== src/Sched/RoundRobin.antt =====
-- lab8/kern/schedule/default_sched.c: the round-robin class.
pub mod Queue
use nku_os_2025_lab.Prelude.{
  ℕ, ◌-◌, ◌%◌, ◌≤◌, ◌<◌, ◌≡◌, ◌≢◌, refl, sym, ap, subst, ◌∙◌, Bool, true, false, not, ◌&&◌, ◌||◌,
  List, [], ◌∷◌, ◌++◌, Option, none, some, arith, All, All-map, All-both, All-append,
  All-append_left, All-append_right, ◌↔◌, NotIn, length, Perm, perm_append_comm, ltb, ◌==◌,
  if◌then◌else◌, update, update_ne, ◌>>=◌, ◌>>◌, assert, eq→==, ne→==,
}
use mathlib.Core.List.Perm
use nku_os_2025_lab.Libs.LinkedList.Ring.{IsSeg-split_right}
use nku_os_2025_lab.Libs.LinkedList.Distinct.{NotIn-after}
use nku_os_2025_lab.Libs.LinkedList.{list_init, list_empty}
use nku_os_2025_lab.Sched.Proc.{Proc, RunQueue, put_proc, max_process}
use nku_os_2025_lab.Sched.RunList.{IsRunList, append, remove, append-IsRunList, remove-IsRunList}
use nku_os_2025_lab.Sched.Class.{KeepsStates, Enqueued, Picked, Ops, SchedClass}

-- `RR_init`
unfoldable pub init : RunQueue → RunQueue
init q = record q { links = list_init q.run_list q.links; proc_num = 0 }

-- `if (proc->time_slice == 0 || proc->time_slice > rq->max_time_slice) …; proc->rq = rq`
unfoldable pub admit : ℕ → RunQueue → RunQueue
unfolding put_proc
admit p q =
    let v = q.proc p in
    put_proc p
      (record v {
        time_slice =
            if v.time_slice == 0 || ltb q.max_time_slice v.time_slice
            then q.max_time_slice
            else v.time_slice;
        on_rq = true;
      })
      q

-- `RR_enqueue`
unfoldable pub enqueue : RunQueue → ℕ → Option RunQueue
enqueue q p = do assert (list_empty p q.links); some (admit p (append p q))

-- `RR_dequeue`
unfoldable pub dequeue : RunQueue → ℕ → Option RunQueue
dequeue q p = do assert (not (list_empty p q.links) && (q.proc p).on_rq); some (remove p q)

-- `RR_pick_next`
unfoldable pub pick_next : RunQueue → ℕ × RunQueue
pick_next q = let le = q.links.next q.run_list in (if le == q.run_list then 0 else le, q)

-- `RR_proc_tick`
unfoldable pub proc_tick : RunQueue → ℕ → RunQueue
unfolding put_proc
proc_tick q p =
    let v = q.proc p in
    let t = if ltb 0 v.time_slice then v.time_slice - 1 else v.time_slice in
    put_proc p (record v { time_slice = t; need_resched = if t == 0 then true else v.need_resched })
      q
