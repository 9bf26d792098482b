-- ===== src/Tests/Timers.antt =====
-- Timers 1 and 2, due in 2 and 5 ticks; the header is at address 9.
use nku_os_2025_lab.Prelude.{◌+◌, ◌≡◌, refl, [], ◌∷◌, arith, ◌==◌, if◌then◌else◌}
use nku_os_2025_lab.Libs.LinkedList.Ring.{IsRing}
use nku_os_2025_lab.Sched.Timer.{Timers, add_timer, del_timer}
use nku_os_2025_lab.Sched.Timer.Due.{due}
use nku_os_2025_lab.Sched.Timer.Add.{Added, add_timer-Added}
use nku_os_2025_lab.Sched.Timer.Delete.{del_timer-deletes}

abbrev timers : Timers
timers = record {
  header = 9;
  links = record {
    next = λ x. if x == 9 then 1 else if x == 1 then 2 else if x == 2 then 9 else x;
    prev = λ x. if x == 9 then 2 else if x == 2 then 1 else if x == 1 then 9 else x;
  };
  expires = λ x. if x == 1 then 2 else if x == 2 then 3 else 4;
  proc = λ x. x + 1;
}

timers-IsRing : IsRing timers.links timers.header (1 ∷ 2 ∷ [])
timers-IsRing = record { seg = (refl, refl, (refl, refl, (refl, refl))); distinct = omega arith }

add_timer-Added_example : Added timers 4 (1 ∷ 2 ∷ []) (add_timer 5 4 timers)
add_timer-Added_example =
    add_timer-Added 5 4 timers (1 ∷ 2 ∷ []) timers-IsRing (omega arith) refl (omega arith)
      (omega arith) (omega arith)

del_timer-deletes_example :
    IsRing (del_timer 1 timers).links timers.header (2 ∷ [])
    × (due timers.expires 0 (1 ∷ 2 ∷ []) ≡ (1, 2) ∷ (2, 5) ∷ [])
    × (due (del_timer 1 timers).expires 0 (2 ∷ []) ≡ (2, 5) ∷ [])
    × (del_timer 1 (del_timer 1 timers) ≡ del_timer 1 timers)
del_timer-deletes_example = del_timer-deletes timers 1 [] (2 ∷ []) timers-IsRing (omega arith, tt)
