-- ===== src/Sched/Flagged.antt =====
-- What the first-come and the priority classes of lab6 share: a queue on `run_list` whose processes
-- know that they are queued (`proc->rq`), which insertion and removal assert.
pub mod Queue
use nku_os_2025_lab.Prelude.{
  ℕ, ◌-◌, ◌≤◌, ◌<◌, ◌≡◌, ◌≢◌, refl, sym, ap, subst, ◌∙◌, Bool, true, false, not, List, [], ◌∷◌,
  ◌++◌, Option, none, some, arith, All, All-map, All-both, All-append, All-append_left,
  All-append_right, NotIn, Distinct, length, length-append, Perm, perm_append_comm, update_ne,
  update_self, eq→==, ne→==, lt→ltb, ltb, ◌==◌, if◌then◌else◌, ◌>>=◌, ◌>>◌, assert,
}
use mathlib.Core.List.Perm
use native.Mathlib.Decide.{ℕ_discrete}
use nku_os_2025_lab.Libs.LinkedList.Distinct.{NotIn-after}
use nku_os_2025_lab.Sched.Proc.{Proc, ProcState, put_core, put_proc, RunQueue, max_process}
use nku_os_2025_lab.Sched.RunList.{IsRunList, append, remove, append-IsRunList, remove-IsRunList}
use nku_os_2025_lab.Sched.Class.{KeepsStates, Enqueued, Picked, Ops, SchedClass}

-- `proc->time_slice = slice; proc->rq = rq`
unfoldable pub admit : ℕ → ℕ → RunQueue → RunQueue
unfolding put_proc
admit p slice q = put_proc p (record (q.proc p) { time_slice = slice; on_rq = true }) q

-- `proc->rq = NULL`
unfoldable pub drop : ℕ → RunQueue → RunQueue
unfolding put_proc
drop p q = put_proc p (record (q.proc p) { on_rq = false }) q

-- Insertion with a slice.
unfoldable pub enqueue_with : ℕ → RunQueue → ℕ → Option RunQueue
enqueue_with slice q p = do assert (not (q.proc p).on_rq); some (append p (admit p slice q))

unfoldable pub dequeue : RunQueue → ℕ → Option RunQueue
dequeue q p = do assert (q.proc p).on_rq; assert (ltb 0 q.proc_num); some (remove p (drop p q))

unfoldable pub pick_next : RunQueue → ℕ × RunQueue
pick_next q = let le = q.links.next q.run_list in (if le == q.run_list then 0 else le, q)

-- The invariant: exactly the processes of the list know that they are queued.
pub record IsFlagged (q : RunQueue) (xs : List ℕ) : Type 0 where
  pub list : IsRunList q xs
  pub marked : All (λ x. (q.proc x).on_rq ≡ true) xs
  pub unmarked : (z : ℕ) → NotIn z xs → (q.proc z).on_rq ≡ false

-- A write to a process leaves the list as it is.
pub put_proc-IsRunList :
    (q : RunQueue) (xs : List ℕ) (p : ℕ) (v : Proc) → IsRunList q xs → IsRunList (put_proc p v q) xs
unfolding put_proc
put_proc-IsRunList q xs p v r = record {
  ring = r.ring;
  count = r.count;
  few = r.few;
  detached = r.detached;
  nonzero = r.nonzero;
}

-- A write that leaves the flag as it is.
pub put_proc-IsFlagged :
    (q : RunQueue) (xs : List ℕ) (p : ℕ) (v : Proc)
    → v.on_rq ≡ (q.proc p).on_rq
    → IsFlagged q xs
    → IsFlagged (put_proc p v q) xs
unfolding put_proc
put_proc-IsFlagged q xs p v e f =
    let same : ((z : ℕ) → ((put_proc p v q).proc z).on_rq ≡ (q.proc z).on_rq) = λ z.
      elim (ℕ_discrete z p) [
        | yes h ↦ rw h (ap (λ (w : Proc). w.on_rq) (update_self q.proc p v) ∙ e)
        | no n ↦ ap (λ (w : Proc). w.on_rq) (update_ne q.proc p v z n)
      ] in
    record {
      list = put_proc-IsRunList q xs p v f.list;
      marked = All-map _ _ xs (λ x (h : (q.proc x).on_rq ≡ true). same x ∙ h) f.marked;
      unmarked = λ z n. same z ∙ f.unmarked z n;
    }

-- Insertion: the process stands at the end, and has the slice.
pub record Appended (q : RunQueue) (xs : List ℕ) (p slice : ℕ) (run : Option RunQueue)
    : Type 0 where
  pub queue : RunQueue
  pub result : run ≡ some queue
  pub valid : IsFlagged queue (xs ++ p ∷ [])
  pub states : KeepsStates q queue
  pub header : queue.run_list ≡ q.run_list
  pub slice_given : (queue.proc p).time_slice ≡ slice

-- Removal: the others stay in their order.
pub record Removed (q : RunQueue) (ys : List ℕ) (p : ℕ) (zs : List ℕ) (run : Option RunQueue)
    : Type 0 where
  pub queue : RunQueue
  pub result : run ≡ some queue
  pub valid : IsFlagged queue (ys ++ zs)
  pub states : KeepsStates q queue
  pub header : queue.run_list ≡ q.run_list
  pub rest : (z : ℕ) → z ≢ p → queue.proc z ≡ q.proc z

pub append-proc : (p : ℕ) (q : RunQueue) → (append p q).proc ≡ q.proc
unfolding append
append-proc p q = refl

pub append-header : (p : ℕ) (q : RunQueue) → (append p q).run_list ≡ q.run_list
unfolding append
append-header p q = refl

pub remove-proc : (p : ℕ) (q : RunQueue) → (remove p q).proc ≡ q.proc
unfolding remove
remove-proc p q = refl

pub remove-header : (p : ℕ) (q : RunQueue) → (remove p q).run_list ≡ q.run_list
unfolding remove
remove-header p q = refl

pub admit-proc_ne : (p t : ℕ) (q : RunQueue) (z : ℕ) → z ≢ p → (admit p t q).proc z ≡ q.proc z
unfolding admit
admit-proc_ne p t q z n = update_ne q.proc p _ z n

pub admit-proc_self :
    (p t : ℕ) (q : RunQueue)
    → (admit p t q).proc p ≡ record (q.proc p) { time_slice = t; on_rq = true }
unfolding admit
admit-proc_self p t q = update_self q.proc p _

pub admit-state : (p t : ℕ) (q : RunQueue) (z : ℕ) → ((admit p t q).proc z).state ≡ (q.proc z).state
unfolding admit
admit-state p t q z = ground arith

pub admit-IsRunList :
    (p t : ℕ) (q : RunQueue) (xs : List ℕ) → IsRunList q xs → IsRunList (admit p t q) xs
unfolding admit
admit-IsRunList p t q xs r =
    put_proc-IsRunList q xs p (record (q.proc p) { time_slice = t; on_rq = true }) r

pub admit-header : (p t : ℕ) (q : RunQueue) → (admit p t q).run_list ≡ q.run_list
unfolding admit
admit-header p t q = refl

pub drop-proc_ne : (p : ℕ) (q : RunQueue) (z : ℕ) → z ≢ p → (drop p q).proc z ≡ q.proc z
unfolding drop
drop-proc_ne p q z n = update_ne q.proc p _ z n

pub drop-on_rq : (p : ℕ) (q : RunQueue) → ((drop p q).proc p).on_rq ≡ false
unfolding drop
drop-on_rq p q =
    ap (λ (w : Proc). w.on_rq) (update_self q.proc p (record (q.proc p) { on_rq = false }))

pub drop-state : (p : ℕ) (q : RunQueue) (z : ℕ) → ((drop p q).proc z).state ≡ (q.proc z).state
unfolding drop
drop-state p q z = ground arith

pub drop-IsRunList : (p : ℕ) (q : RunQueue) (xs : List ℕ) → IsRunList q xs → IsRunList (drop p q) xs
unfolding drop
drop-IsRunList p q xs r = put_proc-IsRunList q xs p (record (q.proc p) { on_rq = false }) r

pub drop-header : (p : ℕ) (q : RunQueue) → (drop p q).run_list ≡ q.run_list
unfolding drop
drop-header p q = refl
