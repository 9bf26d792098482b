-- ===== src/Sched/Timer.antt =====
-- The timers of lab8/kern/schedule/sched.c and sched.h: a list in which each timer has the ticks
-- that it expires after the one before. A `timer_t *` is a number, which is also the address of its
-- `timer_link`. `none` is a failed `assert`, or the end of the fuel of a loop over the list.
pub mod Due
pub mod Add
pub mod Delete
use nku_os_2025_lab.Prelude.{
  ℕ, zero, suc, ◌+◌, ◌-◌, ◌%◌, ◌/◌, ◌^◌, Bool, true, false, not, ◌&&◌, ◌||◌, Option, none, some,
  ltb, ◌==◌, if◌then◌else◌, ◌>>=◌, ◌>>◌, assert, update,
}
use nku_os_2025_lab.Libs.LinkedList.{Links, list_init, list_add_before, list_del_init, list_empty}
use nku_os_2025_lab.Sched.Proc.{uint_mod}
use nku_os_2025_lab.Sched.Class.{Ops}
use nku_os_2025_lab.Sched.Core.{System, wakeup_proc, sched_class_proc_tick}

-- All timers, with the list `timer_list` at the address `header`.
pub record Timers : Type 0 where
  pub header : ℕ
  pub links : Links
  pub expires : ℕ → ℕ
  pub proc : ℕ → ℕ

unfoldable pub timer_init : ℕ → ℕ → ℕ → Timers → Timers
timer_init timer proc expires s = record s {
  expires = update s.expires timer (expires % uint_mod);
  proc = update s.proc timer proc;
  links = list_init timer s.links;
}

-- The loop of `add_timer`: where it stops, and what it leaves in `expires`.
unfoldable pub add_loop : ℕ → ℕ → ℕ → Links → ℕ → (ℕ → ℕ) → Option (ℕ × (ℕ → ℕ))
add_loop zero timer header l le f = none
add_loop (suc fuel) timer header l le f =
    let rest = add_loop fuel timer header l (l.next le) (update f timer (f timer - f le)) in
    if le == header
    then some (le, f)
    else if ltb (f timer) (f le)
    then some (le, update f le (f le - f timer))
    else rest

unfoldable pub add_timer : ℕ → ℕ → Timers → Option Timers
unfolding add_loop
add_timer fuel timer s = do
  assert (ltb 0 (s.expires timer) && not (s.proc timer == 0))
  assert (list_empty timer s.links)
  (le, f) ← add_loop fuel timer s.header s.links (s.links.next s.header) s.expires
  some (record s { expires = f; links = list_add_before le timer s.links })

-- `next->expires += timer->expires` of `del_timer`, where there is a next timer.
unfoldable pub hand_on : ℕ → Timers → (ℕ → ℕ)
hand_on timer s =
    let le = s.links.next timer in
    if s.expires timer == 0
    then s.expires
    else if le == s.header
    then s.expires
    else update s.expires le ((s.expires le + s.expires timer) % uint_mod)

unfoldable pub del_timer : ℕ → Timers → Timers
unfolding hand_on
del_timer timer s =
    if list_empty timer s.links
    then s
    else record s { expires = hand_on timer s; links = list_del_init timer s.links }

-- `wait_state & WT_INTERRUPTED`, which is bit 31.
abbrev is_interrupted : ℕ → Bool
is_interrupted wait_state = wait_state / 2 ^ 31 % 2 == 1

module _ (ops : Ops) where
  -- The loop of `run_timer_list` from a timer that may have expired; the warning is left out.
  unfoldable pub expire_loop : ℕ → ℕ → Timers → System → Option (Timers × System)
  expire_loop zero timer s y = none
  expire_loop (suc fuel) timer s y =
      let le = s.links.next timer in
      let p = s.proc timer in
      let w = (y.rq.proc p).wait_state in
      let go = (do
        assert (w == 0 || is_interrupted w)
        z ← wakeup_proc ops p y
        let t = del_timer timer s
        if le == s.header then some (t, z) else expire_loop fuel le t z) in
      if s.expires timer == 0 then go else some (s, y)

  -- The part of `run_timer_list` on the list.
  unfoldable pub expire_timers : ℕ → Timers → System → Option (Timers × System)
  unfolding expire_loop
  expire_timers fuel s y =
      let timer = s.links.next s.header in
      if timer == s.header then some (s, y) else (do
        assert (not (s.expires timer == 0))
        expire_loop fuel timer (record s { expires = update s.expires timer (s.expires timer - 1) })
            y)

  unfoldable pub run_timer_list : ℕ → Timers → System → Option (Timers × System)
  unfolding expire_timers
  run_timer_list fuel s y = do
    (t, z) ← expire_timers fuel s y
    some (
      t,
      if z.current == 0
          then z
          else record z { rq = sched_class_proc_tick ops z.idleproc z.current z.rq },
    )
