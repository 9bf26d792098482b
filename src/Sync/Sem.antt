-- ===== src/Sync/Sem.antt =====
-- lab8/kern/sync/sem.c and sem.h: semaphores. A `semaphore_t *` is the address of its wait queue.
-- An `int` is kept as its bits, below 2 ^ 32. `none` is a failed `assert`.
pub mod Up
pub mod Down
use nku_os_2025_lab.Prelude.{
  ℕ, ◌+◌, ◌-◌, ◌%◌, ◌^◌, Bool, true, false, ◌&&◌, Option, none, some, ltb, ◌==◌, if◌then◌else◌,
  ◌>>=◌, ◌>>◌, assert, update,
}
use nku_os_2025_lab.Sched.Proc.{uint_mod}
use nku_os_2025_lab.Sched.Class.{Ops}
use nku_os_2025_lab.Sched.Core.{schedule}
use nku_os_2025_lab.Sync.Wait.{
  Waits, wait_queue_init, wait_queue_first, wait_current_set, wait_current_del, wakeup_wait,
}

-- All semaphores, with the waits and the processes.
pub record Semaphores : Type 0 where
  pub value : ℕ → ℕ
  pub waits : Waits

-- `WT_KSEM`
abbrev pub wt_ksem : ℕ
wt_ksem = 2 ^ 8

-- `value > 0` of an `int`.
abbrev pub is_positive : ℕ → Bool
is_positive v = ltb 0 v && ltb v (2 ^ 31)

unfoldable pub sem_init : ℕ → ℕ → Semaphores → Semaphores
sem_init sem value s = record {
  value = update s.value sem (value % uint_mod);
  waits = wait_queue_init sem s.waits;
}

unfoldable pub try_down : ℕ → Semaphores → Bool × Semaphores
try_down sem s =
    if is_positive (s.value sem)
    then (true, record s { value = update s.value sem (s.value sem - 1) })
    else (false, s)

-- `__down` from where it runs again.
unfoldable pub down_leave : ℕ → ℕ → ℕ → Semaphores → Option (ℕ × Semaphores)
unfolding wait_current_del
down_leave sem wait wait_state s = do
  t ← wait_current_del sem wait s.waits
  let flags = t.wakeup_flags wait
  some (if flags == wait_state then 0 else flags, record s { waits = t })

module _ (ops : Ops) where
  -- `__up`
  unfoldable pub up_state : ℕ → ℕ → Semaphores → Option Semaphores
  unfolding wait_queue_first wakeup_wait
  up_state sem wait_state s = elim (wait_queue_first sem s.waits) [
    | none ↦ some (record s { value = update s.value sem ((s.value sem + 1) % uint_mod) })
    | some wait ↦ do
      assert ((s.waits.system.rq.proc (s.waits.proc wait)).wait_state == wait_state)
      t ← wakeup_wait ops sem wait wait_state true s.waits
      some (record s { waits = t })
  ]

  unfoldable pub up : ℕ → Semaphores → Option Semaphores
  unfolding up_state
  up sem s = up_state sem wt_ksem s

  -- `__down` where the value is not positive, until another process runs.
  unfoldable pub down_block : ℕ → ℕ → ℕ → Semaphores → Option Semaphores
  unfolding wait_current_set
  down_block sem wait wait_state s = do
    t ← wait_current_set sem wait wait_state s.waits
    y ← schedule ops t.system
    some (record s { waits = record t { system = y } })

  -- `__down`; `wait` is its local variable, and `others` is what happens until the process runs
  -- again.
  unfoldable pub down_state :
      (Semaphores → Semaphores) → ℕ → ℕ → ℕ → Semaphores → Option (ℕ × Semaphores)
  unfolding down_block down_leave
  down_state others sem wait wait_state s =
      if is_positive (s.value sem)
      then some (0, record s { value = update s.value sem (s.value sem - 1) })
      else (down_block sem wait wait_state s >>= λ t. down_leave sem wait wait_state (others t))

  unfoldable pub down : (Semaphores → Semaphores) → ℕ → ℕ → Semaphores → Option Semaphores
  unfolding down_state
  down others sem wait s = do
    (flags, t) ← down_state others sem wait wt_ksem s
    assert (flags == 0)
    some t
