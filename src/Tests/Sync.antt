-- ===== src/Tests/Sync.antt =====
-- A semaphore at address 60 with value 0, and process 4 waiting for it with the wait 50; one at 61
-- with value 1.
use nku_os_2025_lab.Prelude.{
  ◌+◌, ◌^◌, ◌≡◌, refl, inl, inr, true, [], ◌∷◌, some, arith, ◌==◌, if◌then◌else◌, update,
  update_self, eq→==,
}
use nku_os_2025_lab.Libs.LinkedList.{list_del_init, list_init, list_empty}
use nku_os_2025_lab.Sched.RoundRobin.Queue.{round_robin}
use nku_os_2025_lab.Sync.Wait.{Waits, wakeup_queue}
use nku_os_2025_lab.Sync.Wait.WakeAll.{AllWoken, wakeup_queue-AllWoken}
use nku_os_2025_lab.Sync.Sem.{Semaphores, wt_ksem, up, try_down, down, down_block}
use nku_os_2025_lab.Sync.Sem.Up.{IsSemaphore, Served, up-Served, up-try_down}
use nku_os_2025_lab.Sync.Sem.Down.{Granted, Blocked, down-Granted}
use nku_os_2025_lab.Tests.Sched.{system, system-IsSystem}

abbrev waits : Waits
waits = record {
  links = record {
    next = λ x. if x == 60 then 50 else if x == 50 then 60 else x;
    prev = λ x. if x == 60 then 50 else if x == 50 then 60 else x;
  };
  proc = λ x. 4;
  wakeup_flags = λ x. 2 ^ 31;
  wait_queue = λ x. 60;
  system = system;
}

abbrev sems : Semaphores
sems = record { value = λ x. if x == 61 then 1 else 0; waits = waits }

sems-IsSemaphore : IsSemaphore sems 60 (50 ∷ [])
sems-IsSemaphore = record {
  ring = record { seg = (refl, refl, (refl, refl)); distinct = omega arith };
  owned = (refl, tt);
  free = inr refl;
}

free-IsSemaphore : IsSemaphore sems 61 []
free-IsSemaphore = record {
  ring = record { seg = (refl, refl); distinct = omega arith };
  owned = tt;
  free = inl refl;
}

up-Served_example : Served round_robin sems 60 50 [] (3 ∷ []) (up round_robin.ops 60 sems)
up-Served_example =
    up-Served round_robin sems 60 50 [] (3 ∷ []) sems-IsSemaphore system-IsSystem refl refl
      (omega arith) (omega arith) (omega arith) (omega arith)

up-try_down_example :
    (t : Semaphores) × (up round_robin.ops 61 sems ≡ some t)
    × (t.value 61 ≡ sems.value 61 + 1)
    × IsSemaphore t 61 []
    × (try_down 61 t ≡ (true, sems))
up-try_down_example = up-try_down round_robin sems 61 free-IsSemaphore (omega arith)

-- Other processes take the wait 51 off the queue, as `up` does.
serve : Semaphores → Semaphores
serve t = record t {
  waits = record t.waits {
    links = list_del_init 51 t.waits.links;
    wakeup_flags = update t.waits.wakeup_flags 51 wt_ksem;
  };
}

serve-Granted : (t : Semaphores) → Granted 51 (serve t)
unfolding serve list_empty list_del_init list_init
serve-Granted t = record {
  unlinked = eq→== 51 51 refl;
  flags = update_self t.waits.wakeup_flags 51 wt_ksem;
}

down-Granted_example :
    (b : Blocked round_robin sems 60 51
      (50 ∷ [])
      (3 ∷ [])
      (down_block round_robin.ops 60 51 wt_ksem sems))
    × (down round_robin.ops serve 60 51 sems ≡ some (serve b.sems))
down-Granted_example =
    down-Granted round_robin sems 60 51 (50 ∷ []) (3 ∷ []) sems-IsSemaphore system-IsSystem refl
      (omega arith) (omega arith) serve (λ t e. serve-Granted t)

wakeup_queue-AllWoken_example :
    AllWoken round_robin 60 256 waits (50 ∷ []) (wakeup_queue round_robin.ops 2 60 256 true waits)
wakeup_queue-AllWoken_example =
    wakeup_queue-AllWoken round_robin 60 256 2 waits (50 ∷ []) (3 ∷ []) (omega arith)
      sems-IsSemaphore.ring (refl, tt) ((refl, omega arith, omega arith, omega arith), tt)
      system-IsSystem (omega arith)
