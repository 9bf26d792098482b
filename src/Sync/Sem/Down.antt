-- ===== src/Sync/Sem/Down.antt =====
-- `down` where the value is not positive: the process queues up, sleeps, and returns when it has
-- been served.
use nku_os_2025_lab.Prelude.{
  ℕ, ◌<◌, ◌≡◌, ◌≢◌, refl, sym, ◌∙◌, subst, ◌⊎◌, inr, true, false, List, [], ◌∷◌, ◌++◌, All, NotIn,
  All-append, Perm, Option, some, length, eq→==, ne→==, update, update_self, update_ne, arith,
}
use native.Mathlib.Decide.{ℕ_discrete}
use nku_os_2025_lab.Libs.LinkedList.{Links, list_init, list_add_before, list_empty}
use nku_os_2025_lab.Libs.LinkedList.Ring.{IsRing}
use nku_os_2025_lab.Libs.LinkedList.Insert.{IsRing-list_add_tail}
use nku_os_2025_lab.Libs.LinkedList.Remove.{IsSeg-list_init}
use nku_os_2025_lab.Sched.Proc.{ProcState, sleeping, put_core, max_process}
use nku_os_2025_lab.Sched.Class.{SchedClass}
use nku_os_2025_lab.Sched.Core.{System, is_runnable}
use nku_os_2025_lab.Sched.Core.PutBack.{IsSystem, competing_asleep}
use nku_os_2025_lab.Sched.Core.Schedule.{schedule-Schedules}
use nku_os_2025_lab.Sync.Wait.{
  Waits, wt_interrupted, wait_init, wait_queue_add, wait_in_queue, put_to_sleep, wait_current_set,
  wait_current_del,
}
use nku_os_2025_lab.Sync.Sem.{
  Semaphores, wt_ksem, is_positive, down_block, down_leave, down_state, down,
}
use nku_os_2025_lab.Sync.Sem.Up.{IsSemaphore}

-- The wait `w` is not in a queue, and was woken by `up`.
pub record Granted (w : ℕ) (s : Semaphores) : Type 0 where
  pub unlinked : list_empty w s.waits.links ≡ true
  pub flags : s.waits.wakeup_flags w ≡ wt_ksem

-- What `down` leaves until the process runs again: its wait `w` is the last in the queue, and
-- another process runs.
pub record Blocked (c : SchedClass) (s : Semaphores) (sem w : ℕ) (ws xs : List ℕ)
    (run : Option Semaphores) : Type 0 where
  pub sems : Semaphores
  pub result : run ≡ some sems
  pub valid : IsSemaphore sems sem (ws ++ w ∷ [])
  pub value : sems.value ≡ s.value
  pub waiting : sems.waits.proc w ≡ s.waits.system.current
  pub asleep : (sems.waits.system.rq.proc s.waits.system.current).state ≡ sleeping
  pub items : List ℕ
  pub system : IsSystem c sems.waits.system items
  pub outcome :
      ((xs ≡ []) × (items ≡ []) × (sems.waits.system.current ≡ s.waits.system.idleproc))
      ⊎ Perm (sems.waits.system.current ∷ items) xs

slept : (flags : ℕ) (y : System) → ((put_to_sleep flags y).rq.proc y.current).state ≡ sleeping
unfolding put_to_sleep put_core
slept flags y = ground arith

slept_ne :
    (flags : ℕ) (y : System) (z : ℕ)
    → z ≢ y.current
    → ((put_to_sleep flags y).rq.proc z).state ≡ (y.rq.proc z).state
unfolding put_to_sleep put_core
slept_ne flags y z n = ground arith

asleep-is_runnable : (st : ProcState) → st ≡ sleeping → is_runnable st ≡ false
asleep-is_runnable st e = rw e refl

slept-IsSystem :
    (c : SchedClass) (flags : ℕ) (y : System) (xs : List ℕ)
    → IsSystem c y xs
    → IsSystem c (put_to_sleep flags y) xs
unfolding put_to_sleep put_core
slept-IsSystem c flags y xs v = record {
  queued = c.holds-put_core y.rq xs y.current _ _ _ _ v.queued;
  ready = λ z n. elim (ℕ_discrete z y.current) [
    | yes e ↦ subst (λ w. NotIn w xs) (sym e) v.running
    | no k ↦ v.ready z (λ e. n (slept_ne flags y z k ∙ e))
  ];
  running = v.running;
  idle = v.idle;
  current_proc = v.current_proc;
  idle_proc = v.idle_proc;
}

-- A queue stays one where one of its waits is written to be in it.
owned_more :
    (f : ℕ → ℕ) (w sem : ℕ) (ws : List ℕ)
    → NotIn w ws
    → All (λ x. f x ≡ sem) ws
    → All (λ x. update f w sem x ≡ sem) ws
owned_more f w sem [] n h = tt
owned_more f w sem (x ∷ ws) n h = (update_ne f w sem x n.0 ∙ h.0, owned_more f w sem ws n.1 h.1)

-- The queue with the wait of the current process at its end.
queued_last :
    (l : Links) (sem w : ℕ) (ws : List ℕ)
    → IsRing l sem ws
    → NotIn w (sem ∷ ws)
    → IsRing (list_add_before sem w (list_init w l)) sem (ws ++ w ∷ [])
queued_last l sem w ws r n =
    IsRing-list_add_tail ws w
      (record { seg = IsSeg-list_init l w sem ws sem n (λ e. n.0 e) r.seg; distinct = r.distinct })
      n

module _ (c : SchedClass) (s : Semaphores) (sem w : ℕ) (ws xs : List ℕ) (v : IsSemaphore s sem ws)
    (y : IsSystem c s.waits.system xs) (taken : is_positive (s.value sem) ≡ false)
    (fresh : NotIn w (sem ∷ ws)) (few : length xs < max_process) where
  -- The state in which `down` calls `schedule`.
  blocked_waits : Waits
  blocked_waits = record {
    links = list_add_before sem w (list_init w s.waits.links);
    proc = update s.waits.proc w s.waits.system.current;
    wakeup_flags = update s.waits.wakeup_flags w wt_interrupted;
    wait_queue = update s.waits.wait_queue w sem;
    system = put_to_sleep wt_ksem s.waits.system;
  }

  blocked_waits_lem : wait_current_set sem w wt_ksem s.waits ≡ some blocked_waits
  unfolding wait_current_set wait_queue_add wait_init list_init list_empty blocked_waits
  blocked_waits_lem = rw (ne→== s.waits.system.current 0 y.current_proc.0) (
      rw (eq→== _ _ (update_self s.waits.links.next w w)) (
        rw (update_self s.waits.proc w s.waits.system.current)
          (rw (ne→== s.waits.system.current 0 y.current_proc.0) refl)))

  down_block-Blocked : Blocked c s sem w ws xs (down_block c.ops sem w wt_ksem s)
  unfolding down_block blocked_waits
  down_block-Blocked =
      let sl = slept-IsSystem c wt_ksem s.waits.system xs y in
      let k = schedule-Schedules c (put_to_sleep wt_ksem s.waits.system) xs sl few in
      let t = record s { waits = record blocked_waits { system = k.system } } in
      record {
        sems = t;
        result = rw blocked_waits_lem (rw k.result refl);
        valid = record {
          ring = queued_last s.waits.links sem w ws v.ring fresh;
          owned =
              All-append (λ x. t.waits.wait_queue x ≡ sem) ws (w ∷ [])
                (owned_more s.waits.wait_queue w sem ws fresh.1 v.owned)
                (update_self s.waits.wait_queue w sem, tt);
          free = inr taken;
        };
        value = refl;
        waiting = update_self s.waits.proc w s.waits.system.current;
        asleep = k.states s.waits.system.current ∙ slept wt_ksem s.waits.system;
        items = k.items;
        system = k.valid;
        outcome =
            subst
              (λ zs.
                ((zs ≡ []) × (k.items ≡ []) × (k.system.current ≡ s.waits.system.idleproc))
                ⊎ Perm (k.system.current ∷ k.items) zs)
              (competing_asleep c (put_to_sleep wt_ksem s.waits.system) xs
                (asleep-is_runnable _ (slept wt_ksem s.waits.system)))
              k.outcome;
      }

  -- Where the value of a well-formed semaphore is not positive, `down` on a valid system with fewer
  -- than MAX_PROCESS queued processes, with a wait that is not in the queue, puts this wait of the
  -- current process at the end of the queue, with the value as it is; the process sleeps, and one
  -- of the queued processes runs, or the idle one if there is none. Where an `up` has taken the
  -- wait off the queue before the process runs again, `down` passes its assertion and returns with
  -- no further change.
  pub down-Granted :
      (others : Semaphores → Semaphores)
      → ((t : Semaphores) → down_block c.ops sem w wt_ksem s ≡ some t → Granted w (others t))
      → (b : Blocked c s sem w ws xs (down_block c.ops sem w wt_ksem s)) × (down c.ops others sem w
            s
          ≡ some (others b.sems))
  unfolding down down_state down_leave wait_current_del wait_in_queue
  down-Granted others h =
      let b = down_block-Blocked in
      let g = h b.sems b.result in (b, rw taken (rw b.result (rw g.unlinked (rw g.flags refl))))
