-- ===== src/Sync/Sem/Up.antt =====
-- `up` hands the semaphore to the process that has waited longest, and counts where none waits.
use nku_os_2025_lab.Prelude.{
  ℕ, ◌+◌, ◌%◌, ◌<◌, ◌≡◌, ◌≢◌, refl, ◌∙◌, ap, fun_ext, ◌-◌, ◌^◌, arith, ◌⊎◌, inl, inr, true, false,
  List, [], ◌∷◌, All, Option, some, length, eq→==, update, update_self, update_ne,
}
use native.Mathlib.Decide.{ℕ_discrete}
use nku_os_2025_lab.Libs.LinkedList.{list_del_init, list_empty}
use nku_os_2025_lab.Libs.LinkedList.Ring.{IsRing}
use nku_os_2025_lab.Libs.LinkedList.Remove.{IsRing-list_del_init}
use nku_os_2025_lab.Sched.Proc.{uint_mod, max_process}
use nku_os_2025_lab.Sched.Class.{SchedClass}
use nku_os_2025_lab.Sched.Core.{is_zombie}
use nku_os_2025_lab.Sched.Core.PutBack.{IsSystem}
use nku_os_2025_lab.Sched.Core.Wakeup.{Wakes, wakeup_proc-Wakes}
use nku_os_2025_lab.Sync.Wait.{wait_queue_del, wakeup_wait}
use nku_os_2025_lab.Sync.Wait.First.{wait_queue_first_nil, wait_queue_first_cons, first_linked}
use nku_os_2025_lab.Sync.Sem.{Semaphores, wt_ksem, is_positive, up_state, up, try_down}

-- The waits `ws` are in the queue of `sem`, in this order, and there are none while its value is
-- positive.
pub record IsSemaphore (s : Semaphores) (sem : ℕ) (ws : List ℕ) : Type 0 where
  pub ring : IsRing s.waits.links sem ws
  pub owned : All (λ w. s.waits.wait_queue w ≡ sem) ws
  pub free : (ws ≡ []) ⊎ (is_positive (s.value sem) ≡ false)

-- What `up` leaves where the wait `w` is first in the queue and `ws` are behind it.
pub record Served (c : SchedClass) (s : Semaphores) (sem w : ℕ) (ws xs : List ℕ)
    (run : Option Semaphores) : Type 0 where
  pub sems : Semaphores
  pub result : run ≡ some sems
  pub valid : IsSemaphore sems sem ws
  pub value : sems.value ≡ s.value
  pub unlinked : list_empty w sems.waits.links ≡ true
  pub flags : sems.waits.wakeup_flags w ≡ wt_ksem
  pub woken : Wakes c s.waits.system xs (s.waits.proc w)
  pub system : sems.waits.system ≡ woken.system

module _ (c : SchedClass) (s : Semaphores) (sem : ℕ) where
  up_serves :
      (w : ℕ) (ws xs : List ℕ)
      → IsSemaphore s sem (w ∷ ws)
      → (s.waits.system.rq.proc (s.waits.proc w)).wait_state ≡ wt_ksem
      → Wakes c s.waits.system xs (s.waits.proc w)
      → Served c s sem w ws xs (up c.ops sem s)
  unfolding up up_state wakeup_wait wait_queue_del
  up_serves w ws xs v e k =
      let r = IsRing-list_del_init [] w ws v.ring in
      let t = record s.waits {
        links = list_del_init w s.waits.links;
        wakeup_flags = update s.waits.wakeup_flags w wt_ksem;
        system = k.system;
      } in
      record {
        sems = record s { waits = t };
        result =
            rw (wait_queue_first_cons s.waits sem w ws v.ring, up, up_state)
              (rw (eq→== _ _ e) (
                rw (first_linked s.waits sem w ws v.ring)
                  (rw (eq→== _ _ v.owned.0) (rw k.result))));
        valid = record {
          ring = r.0;
          owned = v.owned.1;
          free = elim v.free [ inl n ↦ absurd (cc) | inr n ↦ inr n ];
        };
        value = refl;
        unlinked = r.1;
        flags = update_self s.waits.wakeup_flags w wt_ksem;
        woken = k;
        system = refl;
      }

-- Where processes wait on a well-formed semaphore, `up` takes the wait that came first off the
-- queue, sets its flags to WT_KSEM and wakes its process; the value stays as it is and the other
-- waits stay queued in their order. Under any scheduling class this passes all assertions on a
-- valid system with fewer than MAX_PROCESS queued processes, where that process has the wait state
-- WT_KSEM and is neither a zombie nor the idle process.
pub up-Served :
    (c : SchedClass) (s : Semaphores) (sem w : ℕ) (ws xs : List ℕ)
    → IsSemaphore s sem (w ∷ ws)
    → IsSystem c s.waits.system xs
    → (s.waits.system.rq.proc (s.waits.proc w)).wait_state ≡ wt_ksem
    → is_zombie (s.waits.system.rq.proc (s.waits.proc w)).state ≡ false
    → s.waits.proc w ≢ s.waits.system.idleproc
    → s.waits.proc w ≢ 0
    → s.waits.proc w ≢ s.waits.system.rq.run_list
    → length xs < max_process
    → Served c s sem w ws xs (up c.ops sem s)
up-Served c s sem w ws xs v y e z i n h few =
    up_serves c s sem w ws xs v e
      (wakeup_proc-Wakes c s.waits.system xs (s.waits.proc w) y z i n h few)

-- The value of a semaphore that `up` and then `try_down` have changed.
update_back : (f : ℕ → ℕ) (a v : ℕ) → update (update f a v) a (f a) ≡ f
update_back f a v = fun_ext (λ x. elim (ℕ_discrete x a) [
  | yes e ↦ rw e (update_self (update f a v) a (f a))
  | no n ↦ update_ne (update f a v) a (f a) x n ∙ update_ne f a v x n
])

-- On a semaphore that no process waits for and whose value is at least 0 and below the largest
-- `int`, `up` succeeds and changes the value alone, to one more, so that no process has to wait,
-- and `try_down` then takes the semaphore and gives back the state from before.
pub up-try_down :
    (c : SchedClass) (s : Semaphores) (sem : ℕ)
    → IsSemaphore s sem []
    → s.value sem + 1 < 2 ^ 31
    → (t : Semaphores) × (up c.ops sem s ≡ some t)
      × (t.value sem ≡ s.value sem + 1)
      × IsSemaphore t sem []
      × (try_down sem t ≡ (true, s))
unfolding up up_state try_down
up-try_down c s sem v small =
    let t = record s { value = update s.value sem ((s.value sem + 1) % uint_mod) } in
    let self : (t.value sem ≡ s.value sem + 1) =
      update_self s.value sem ((s.value sem + 1) % uint_mod) ∙ omega arith in
    let positive : is_positive (s.value sem + 1) ≡ true = ground arith in
    let minus : (s.value sem + 1 - 1 ≡ s.value sem) = omega arith in
    (
      t,
      rw (wait_queue_first_nil s.waits sem v.ring, up, up_state),
      self,
      record { ring = v.ring; owned = v.owned; free = inl refl },
      rw self (
          rw positive (
            rw minus (
              ap (λ f. (true, record s { value = f }))
                (update_back s.value sem ((s.value sem + 1) % uint_mod))))),
    )
