-- ===== src/Sync/Wait/WakeAll.antt =====
-- `wakeup_queue` with `del` empties the queue and wakes every process in it.
use nku_os_2025_lab.Prelude.{
  ℕ, zero, suc, ◌+◌, ◌<◌, ◌≤◌, ◌≡◌, ◌≢◌, refl, sym, ◌∙◌, true, false, inl, inr, List, [], ◌∷◌, All,
  NotIn, Option, some, length, length-perm, arith, update, update_self, update_ne, eq→==,
  Bool-cases, ◌==◌, ◌>>=◌,
}
use native.Mathlib.Decide.{ℕ_discrete}
use nku_os_2025_lab.Libs.LinkedList.{list_del_init}
use nku_os_2025_lab.Libs.LinkedList.Ring.{IsRing}
use nku_os_2025_lab.Libs.LinkedList.Remove.{IsRing-list_del_init}
use nku_os_2025_lab.Sched.Proc.{runnable, max_process}
use nku_os_2025_lab.Sched.Class.{SchedClass}
use nku_os_2025_lab.Sched.Core.{System, is_zombie, is_runnable}
use nku_os_2025_lab.Sched.Core.PutBack.{IsSystem, competing}
use nku_os_2025_lab.Sched.Core.Wakeup.{Wakes, wakeup_proc-Wakes}
use nku_os_2025_lab.Sync.Wait.{Waits, wait_queue_del, wakeup_wait, wakeup_all, wakeup_queue}
use nku_os_2025_lab.Sync.Wait.First.{wait_queue_first_nil, wait_queue_first_cons, first_linked}

-- A process that `wakeup_proc` may be called on.
abbrev pub CanWake : System → ℕ → Type 0
CanWake y p =
    (is_zombie (y.rq.proc p).state ≡ false) × (p ≢ y.idleproc) × (p ≢ 0) × (p ≢ y.rq.run_list)

competing-length : (y : System) (xs : List ℕ) → length xs ≤ length (competing y xs)
competing-length y xs = elim (Bool-cases (is_runnable (y.rq.proc y.current).state)) [
  | inr r ↦ rw r (omega arith)
  | inl r ↦ rw r (elim (Bool-cases (y.current == y.idleproc)) [
    | inl e ↦ rw e (omega arith)
    | inr e ↦ rw e (omega arith)
  ])
]

module _ (c : SchedClass) (queue flags : ℕ) where
  -- What waking the processes of the waits `ws` leaves.
  pub record AllWoken (s : Waits) (ws : List ℕ) (run : Option Waits) : Type 0 where
    pub waits : Waits
    pub result : run ≡ some waits
    pub ring : IsRing waits.links queue []
    pub marked : All (λ w. waits.wakeup_flags w ≡ flags) ws
    pub unmarked : (x : ℕ) → NotIn x ws → waits.wakeup_flags x ≡ s.wakeup_flags x
    pub can_run : All (λ w. (waits.system.rq.proc (s.proc w)).state ≡ runnable) ws
    pub stays :
        (p : ℕ) → (s.system.rq.proc p).state ≡ runnable → (waits.system.rq.proc p).state ≡ runnable
    pub items : List ℕ
    pub system : IsSystem c waits.system items

  -- The state after the first wait was served.
  abbrev served : Waits → ℕ → System → Waits
  served s w y = record s {
    links = list_del_init w s.links;
    wakeup_flags = update s.wakeup_flags w flags;
    system = y;
  }

  served_lem :
      (s : Waits) (w : ℕ) (ws xs : List ℕ)
      → IsRing s.links queue (w ∷ ws)
      → s.wait_queue w ≡ queue
      → (k : Wakes c s.system xs (s.proc w))
      → wakeup_wait c.ops queue w flags true s ≡ some (served s w k.system)
  unfolding wakeup_wait wait_queue_del
  served_lem s w ws xs r o k =
      rw (first_linked s queue w ws r) (rw (eq→== _ _ o) (rw k.result refl))

  -- Waking a process leaves the others such that they can be woken.
  CanWake-woken :
      (y : System) (xs : List ℕ) (p : ℕ) (k : Wakes c y xs p) (z : ℕ)
      → CanWake y z
      → CanWake k.system z
  CanWake-woken y xs p k z h = (
    elim (ℕ_discrete z p) [ yes e ↦ rw e (rw k.can_run refl) | no n ↦ rw (k.others z n) h.0 ],
    λ e. h.1 (e ∙ k.same.1),
    h.2,
    λ e. h.3 (e ∙ k.same.2),
  )

  runnable-woken :
      (y : System) (xs : List ℕ) (p : ℕ) (k : Wakes c y xs p) (z : ℕ)
      → (y.rq.proc z).state ≡ runnable
      → (k.system.rq.proc z).state ≡ runnable
  runnable-woken y xs p k z h = elim (ℕ_discrete z p) [
    | yes e ↦ rw e k.can_run
    | no n ↦ k.others z n ∙ h
  ]

  All-CanWake-woken :
      (y : System) (xs : List ℕ) (p : ℕ) (k : Wakes c y xs p) (f : ℕ → ℕ) (ws : List ℕ)
      → All (λ w. CanWake y (f w)) ws
      → All (λ w. CanWake k.system (f w)) ws
  All-CanWake-woken y xs p k f [] h = tt
  All-CanWake-woken y xs p k f (w ∷ ws) h =
      (CanWake-woken y xs p k (f w) h.0, All-CanWake-woken y xs p k f ws h.1)

  -- One more process at most competes after one was woken.
  competing-woken :
      (y : System) (xs : List ℕ) (p : ℕ) (k : Wakes c y xs p)
      → length (competing k.system k.items) ≤ length (competing y xs) + 1
  competing-woken y xs p k = elim (Bool-cases (is_runnable (y.rq.proc p).state)) [
    | inl r ↦ let e = length-perm k.perm in omega (arith, (rw r at e))
    | inr r ↦ let e = length-perm k.perm in omega (arith, (rw r at e))
  ]

  wake_first :
      (s : Waits) (w : ℕ) (ws xs : List ℕ)
      → IsSystem c s.system xs
      → CanWake s.system (s.proc w)
      → length (competing s.system xs) + length (w ∷ ws) ≤ max_process
      → Wakes c s.system xs (s.proc w)
  wake_first s w ws xs v h few =
      wakeup_proc-Wakes c s.system xs (s.proc w) v h.0 h.1 h.2 h.3
        (omega (arith, competing-length s.system xs, few))

  wakeup_all-AllWoken :
      (fuel : ℕ) (s : Waits) (w : ℕ) (ws xs : List ℕ)
      → length ws < fuel
      → IsRing s.links queue (w ∷ ws)
      → All (λ x. s.wait_queue x ≡ queue) (w ∷ ws)
      → All (λ x. CanWake s.system (s.proc x)) (w ∷ ws)
      → IsSystem c s.system xs
      → length (competing s.system xs) + length (w ∷ ws) ≤ max_process
      → AllWoken s (w ∷ ws) (wakeup_all c.ops fuel queue w flags s)
  unfolding wakeup_all
  wakeup_all-AllWoken zero s w ws xs enough r o h v few = absurd (omega arith)
  wakeup_all-AllWoken (suc fuel) s w [] xs enough r o h v few =
      let k = wake_first s w [] xs v h.0 few in
      let t = served s w k.system in
      let d = (IsRing-list_del_init [] w [] r).0 in
      record {
        waits = t;
        result =
            rw (served_lem s w [] xs r o.0 k) (rw (wait_queue_first_nil t queue d, ◌>>=◌) refl);
        ring = d;
        marked = (update_self s.wakeup_flags w flags, tt);
        unmarked = λ x n. update_ne s.wakeup_flags w flags x (λ e. n.0 (sym e));
        can_run = (k.can_run, tt);
        stays = runnable-woken s.system xs (s.proc w) k;
        items = k.items;
        system = k.valid;
      }
  wakeup_all-AllWoken (suc fuel) s w (x ∷ ws) xs enough r o h v few =
      let k = wake_first s w (x ∷ ws) xs v h.0 few in
      let t = served s w k.system in
      let d = (IsRing-list_del_init [] w (x ∷ ws) r).0 in
      let a =
        wakeup_all-AllWoken fuel t x ws k.items (omega arith) d o.1
          (All-CanWake-woken s.system xs (s.proc w) k s.proc (x ∷ ws) h.1) k.valid
          (omega (arith, competing-woken s.system xs (s.proc w) k, few)) in
      record {
        waits = a.waits;
        result =
            rw (served_lem s w (x ∷ ws) xs r o.0 k)
              (rw (wait_queue_first_cons t queue x ws d, ◌>>=◌) a.result);
        ring = a.ring;
        marked = (a.unmarked w r.distinct.1.0 ∙ update_self s.wakeup_flags w flags, a.marked);
        unmarked = λ y n. a.unmarked y n.1 ∙ update_ne s.wakeup_flags w flags y (λ e. n.0 (sym e));
        can_run = (a.stays (s.proc w) k.can_run, a.can_run);
        stays = λ p e. a.stays p (runnable-woken s.system xs (s.proc w) k p e);
        items = a.items;
        system = a.system;
      }

  -- Under any scheduling class, `wakeup_queue` with `del` on a well-formed queue of processes that
  -- are neither zombies nor idle, in a valid system in which those that compete and those that wait
  -- are at most MAX_PROCESS, passes all assertions and ends, with more rounds than there are
  -- waits. It leaves a valid system and an empty queue; every process that waited can run, every
  -- wait has the flags, and no other wait changes its flags.
  pub wakeup_queue-AllWoken :
      (fuel : ℕ) (s : Waits) (ws xs : List ℕ)
      → length ws < fuel
      → IsRing s.links queue ws
      → All (λ x. s.wait_queue x ≡ queue) ws
      → All (λ x. CanWake s.system (s.proc x)) ws
      → IsSystem c s.system xs
      → length (competing s.system xs) + length ws ≤ max_process
      → AllWoken s ws (wakeup_queue c.ops fuel queue flags true s)
  unfolding wakeup_queue
  wakeup_queue-AllWoken fuel s [] xs enough r o h v few = record {
    waits = s;
    result = rw (wait_queue_first_nil s queue r, wakeup_queue) refl;
    ring = r;
    marked = tt;
    unmarked = λ x n. refl;
    can_run = tt;
    stays = λ p e. e;
    items = xs;
    system = v;
  }
  wakeup_queue-AllWoken fuel s (w ∷ ws) xs enough r o h v few =
      rw (wait_queue_first_cons s queue w ws r, wakeup_queue)
        (wakeup_all-AllWoken fuel s w ws xs (omega arith) r o h v few)
