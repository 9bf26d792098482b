-- ===== src/Sched/Pooled.antt =====
-- What the stride and the shortest-job-first classes of lab6 share: a queue that is a list and a
-- skew heap of the same processes. A pool node has the number of its process as address; `less` is
-- `comp(a, b) == -1`, which reads the processes.
pub mod Queue
pub mod Order
use nku_os_2025_lab.Prelude.{ℕ, ◌+◌, Bool, List, Option, some, Perm, ltb, ◌>>=◌, ◌>>◌, assert, ◌≡◌}
use nku_os_2025_lab.Libs.SkewHeap.{skew_heap_insert, skew_heap_remove}
use nku_os_2025_lab.Libs.SkewHeap.Tree.{Tree, nodes}
use nku_os_2025_lab.Libs.SkewHeap.Step.{root}
use nku_os_2025_lab.Libs.SkewHeap.Merge.{IsPool}
use nku_os_2025_lab.Sched.Proc.{Proc, RunQueue, max_process}
use nku_os_2025_lab.Sched.RunList.{append, remove}
use nku_os_2025_lab.Sched.Flagged.{admit, drop, IsFlagged}

-- More than a pool of MAX_PROCESS nodes and a new one need.
abbrev pub pool_fuel : ℕ
pool_fuel = max_process + 2

-- `rq->lab6_run_pool = skew_heap_insert(rq->lab6_run_pool, &(proc->lab6_run_pool), comp)`
unfoldable pub pool_insert : ((ℕ → Proc) → ℕ → ℕ → Bool) → ℕ → RunQueue → Option RunQueue
pool_insert less p q = do
  (r, h) ← skew_heap_insert (less q.proc) pool_fuel q.run_pool p q.pool
  some (record q { run_pool = r; pool = h })

-- `rq->lab6_run_pool = skew_heap_remove(rq->lab6_run_pool, &(proc->lab6_run_pool), comp)`
unfoldable pub pool_remove : ((ℕ → Proc) → ℕ → ℕ → Bool) → ℕ → RunQueue → Option RunQueue
pool_remove less p q = do
  (r, h) ← skew_heap_remove (less q.proc) pool_fuel q.run_pool p q.pool
  some (record q { run_pool = r; pool = h })

-- Insertion after the assertion, with a slice.
unfoldable pub insert_pooled : ((ℕ → Proc) → ℕ → ℕ → Bool) → ℕ → RunQueue → ℕ → Option RunQueue
unfolding pool_insert
insert_pooled less slice q p = do t ← pool_insert less p (admit p slice q); some (append p t)

unfoldable pub dequeue_pooled : ((ℕ → Proc) → ℕ → ℕ → Bool) → RunQueue → ℕ → Option RunQueue
unfolding pool_remove
dequeue_pooled less q p = do
  assert (q.proc p).on_rq
  t ← pool_remove less p q
  assert (ltb 0 t.proc_num)
  some (remove p (drop p t))

-- The list and the pool hold the processes `xs`, the pool as the tree `t`.
pub record PooledAs (q : RunQueue) (t : Tree) (xs : List ℕ) : Type 0 where
  pub flagged : IsFlagged q xs
  pub pool : IsPool q.pool t
  pub top : root t ≡ q.run_pool
  pub perm : Perm (nodes t) xs

abbrev pub IsPooled : RunQueue → List ℕ → Type 0
IsPooled q xs = (t : Tree) × PooledAs q t xs
