-- ===== src/Sync/Wait.antt =====
-- lab8/kern/sync/wait.c and wait.h: queues of waits. A `wait_t *` is a number, which is also the
-- address of its `wait_link`, and a `wait_queue_t *` is the address of its `wait_head`. The outer
-- `none` is a failed `assert`, or the end of the fuel of a loop; an inner one is NULL.
pub mod First
pub mod WakeAll
use nku_os_2025_lab.Prelude.{
  ℕ, zero, suc, ◌^◌, Bool, true, false, not, ◌&&◌, Option, none, some, ◌==◌, if◌then◌else◌, ◌>>=◌,
  ◌>>◌, assert, update,
}
use nku_os_2025_lab.Libs.LinkedList.{Links, list_init, list_add_before, list_del_init, list_empty}
use nku_os_2025_lab.Sched.Proc.{sleeping, put_core}
use nku_os_2025_lab.Sched.Class.{Ops}
use nku_os_2025_lab.Sched.Core.{System, wakeup_proc}

-- All waits, with the processes.
pub record Waits : Type 0 where
  pub links : Links
  pub proc : ℕ → ℕ
  pub wakeup_flags : ℕ → ℕ
  pub wait_queue : ℕ → ℕ
  pub system : System

-- `WT_INTERRUPTED`
abbrev pub wt_interrupted : ℕ
wt_interrupted = 2 ^ 31

unfoldable pub wait_init : ℕ → ℕ → Waits → Waits
wait_init wait proc s = record s {
  proc = update s.proc wait proc;
  wakeup_flags = update s.wakeup_flags wait wt_interrupted;
  links = list_init wait s.links;
}

unfoldable pub wait_queue_init : ℕ → Waits → Waits
wait_queue_init queue s = record s { links = list_init queue s.links }

unfoldable pub wait_queue_add : ℕ → ℕ → Waits → Option Waits
wait_queue_add queue wait s = do
  assert (list_empty wait s.links && not (s.proc wait == 0))
  some (record s {
    wait_queue = update s.wait_queue wait queue;
    links = list_add_before queue wait s.links;
  })

unfoldable pub wait_queue_del : ℕ → ℕ → Waits → Option Waits
wait_queue_del queue wait s = do
  assert (not (list_empty wait s.links) && s.wait_queue wait == queue)
  some (record s { links = list_del_init wait s.links })

-- `le2wait(le)` where `le` is not the head of the queue, and NULL where it is.
abbrev pub entry_or_null : ℕ → ℕ → Option ℕ
entry_or_null queue le = if le == queue then none else some le

unfoldable pub wait_queue_next : ℕ → ℕ → Waits → Option (Option ℕ)
wait_queue_next queue wait s = do
  assert (not (list_empty wait s.links) && s.wait_queue wait == queue)
  some (entry_or_null queue (s.links.next wait))

unfoldable pub wait_queue_prev : ℕ → ℕ → Waits → Option (Option ℕ)
wait_queue_prev queue wait s = do
  assert (not (list_empty wait s.links) && s.wait_queue wait == queue)
  some (entry_or_null queue (s.links.prev wait))

unfoldable pub wait_queue_first : ℕ → Waits → Option ℕ
wait_queue_first queue s = entry_or_null queue (s.links.next queue)

unfoldable pub wait_queue_last : ℕ → Waits → Option ℕ
wait_queue_last queue s = entry_or_null queue (s.links.prev queue)

unfoldable pub wait_queue_empty : ℕ → Waits → Bool
wait_queue_empty queue s = list_empty queue s.links

unfoldable pub wait_in_queue : ℕ → Waits → Bool
wait_in_queue wait s = not (list_empty wait s.links)

-- `wait->wakeup_flags = wakeup_flags`
abbrev pub set_flags : ℕ → ℕ → Waits → Waits
set_flags wait flags s = record s { wakeup_flags = update s.wakeup_flags wait flags }

-- `current->state = PROC_SLEEPING; current->wait_state = wait_state`
unfoldable pub put_to_sleep : ℕ → System → System
put_to_sleep wait_state y =
    let v = y.rq.proc y.current in
    record y { rq = put_core y.current sleeping v.runs v.need_resched wait_state y.rq }

unfoldable pub wait_current_set : ℕ → ℕ → ℕ → Waits → Option Waits
unfolding wait_queue_add wait_init put_to_sleep
wait_current_set queue wait wait_state s = do
  assert (not (s.system.current == 0))
  let t = wait_init wait s.system.current s
  wait_queue_add queue wait (record t { system = put_to_sleep wait_state t.system })

unfoldable pub wait_current_del : ℕ → ℕ → Waits → Option Waits
unfolding wait_queue_del wait_in_queue
wait_current_del queue wait s = if wait_in_queue wait s then wait_queue_del queue wait s else some s

module _ (ops : Ops) where
  unfoldable pub wakeup_wait : ℕ → ℕ → ℕ → Bool → Waits → Option Waits
  unfolding wait_queue_del
  wakeup_wait queue wait flags del s = do
    t ← if del then wait_queue_del queue wait s else some s
    y ← wakeup_proc ops (t.proc wait) t.system
    some (record (set_flags wait flags t) { system = y })

  unfoldable pub wakeup_first : ℕ → ℕ → Bool → Waits → Option Waits
  unfolding wakeup_wait wait_queue_first
  wakeup_first queue flags del s = elim (wait_queue_first queue s) [
    | none ↦ some s
    | some wait ↦ wakeup_wait queue wait flags del s
  ]

  -- The loop of `wakeup_queue` with `del`.
  unfoldable pub wakeup_all : ℕ → ℕ → ℕ → ℕ → Waits → Option Waits
  unfolding wakeup_wait wait_queue_first
  wakeup_all zero queue wait flags s = none
  wakeup_all (suc fuel) queue wait flags s = do
    t ← wakeup_wait queue wait flags true s
    elim (wait_queue_first queue t) [
      | none ↦ some t
      | some wait' ↦ wakeup_all fuel queue wait' flags t
    ]

  -- The loop of `wakeup_queue` without `del`.
  unfoldable pub wakeup_each : ℕ → ℕ → ℕ → ℕ → Waits → Option Waits
  unfolding wakeup_wait wait_queue_next
  wakeup_each zero queue wait flags s = none
  wakeup_each (suc fuel) queue wait flags s = do
    t ← wakeup_wait queue wait flags false s
    following ← wait_queue_next queue wait t
    elim following [ none ↦ some t | some wait' ↦ wakeup_each fuel queue wait' flags t ]

  unfoldable pub wakeup_queue : ℕ → ℕ → ℕ → Bool → Waits → Option Waits
  unfolding wakeup_all wakeup_each wait_queue_first
  wakeup_queue fuel queue flags del s = elim (wait_queue_first queue s) [
    | none ↦ some s
    | some wait ↦
        if del then wakeup_all fuel queue wait flags s else wakeup_each fuel queue wait flags s
  ]
