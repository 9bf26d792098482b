-- ===== src/Sync/Wait/First.antt =====
-- The first wait of a queue.
use nku_os_2025_lab.Prelude.{ℕ, ◌≡◌, sym, some, false, List, [], ◌∷◌, eq→==, ne→==, Option}
use nku_os_2025_lab.Libs.LinkedList.{list_empty}
use nku_os_2025_lab.Libs.LinkedList.Ring.{IsRing}
use nku_os_2025_lab.Sync.Wait.{Waits, wait_queue_first}

pub wait_queue_first_nil :
    (s : Waits) (sem : ℕ) → IsRing s.links sem [] → wait_queue_first sem s ≡ Option.none
unfolding wait_queue_first
wait_queue_first_nil s sem r = rw (eq→== (s.links.next sem) sem r.seg.0)

pub wait_queue_first_cons :
    (s : Waits) (sem w : ℕ) (ws : List ℕ)
    → IsRing s.links sem (w ∷ ws)
    → wait_queue_first sem s ≡ some w
unfolding wait_queue_first
wait_queue_first_cons s sem w ws r = rw r.seg.0 (rw (ne→== w sem r.distinct.0.0))

-- The first wait of a queue is linked.
pub first_linked :
    (s : Waits) (sem w : ℕ) (ws : List ℕ)
    → IsRing s.links sem (w ∷ ws)
    → list_empty w s.links ≡ false
unfolding list_empty
first_linked s sem w [] r = rw r.seg.2.0 (ne→== sem w (λ e. r.distinct.0.0 (sym e)))
first_linked s sem w (x ∷ ws) r = rw r.seg.2.0 (ne→== x w r.distinct.1.0.0)
