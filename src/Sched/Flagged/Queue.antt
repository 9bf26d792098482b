-- ===== src/Sched/Flagged/Queue.antt =====
-- Insertion, removal and choice keep the queue in order, and make a scheduling class.
use nku_os_2025_lab.Prelude.{
  ℕ, ◌<◌, ◌≡◌, ◌≢◌, refl, sym, ap, ◌∙◌, Bool, true, List, [], ◌∷◌, ◌++◌, Option, arith, All,
  All-both, All-append, All-append_left, All-append_right, NotIn, Distinct, length, length-append,
  perm_append_comm, eq→==, ne→==, lt→ltb,
}
use mathlib.Core.List.Perm
use native.Mathlib.Decide.{ℕ_discrete}
use nku_os_2025_lab.Libs.LinkedList.Distinct.{NotIn-after, NotIn-before}
use nku_os_2025_lab.Sched.Proc.{Proc, ProcState, put_core, RunQueue, max_process}
use nku_os_2025_lab.Sched.RunList.{append, remove, append-IsRunList, remove-IsRunList}
use nku_os_2025_lab.Sched.Class.{Enqueued, Picked}
use nku_os_2025_lab.Sched.Flagged.{
  admit, drop, enqueue_with, dequeue, pick_next, IsFlagged, put_proc-IsFlagged, Appended, Removed,
  append-proc, append-header, remove-proc, remove-header, admit-proc_ne, admit-proc_self,
  admit-state, admit-IsRunList, admit-header, drop-proc_ne, drop-on_rq, drop-state, drop-IsRunList,
  drop-header,
}

-- A process that is not in `xs ++ p ∷ []`.
apart : (xs : List ℕ) (p z : ℕ) → NotIn z (xs ++ p ∷ []) → NotIn z xs × (z ≢ p)
apart xs p z n = (
  All-append_left (λ x. x ≢ z) xs (p ∷ []) n,
  λ e. (All-append_right (λ x. x ≢ z) xs (p ∷ []) n).0 (sym e),
)

pub enqueue_with-Appended :
    (slice : ℕ) (q : RunQueue) (xs : List ℕ) (p : ℕ)
    → IsFlagged q xs
    → NotIn p xs
    → p ≢ 0
    → p ≢ q.run_list
    → length xs < max_process
    → Appended q xs p slice (enqueue_with slice q p)
unfolding enqueue_with
enqueue_with-Appended slice q xs p v new nonzero h few =
    let a = admit p slice q in
    let proc : ((append p a).proc ≡ a.proc) = append-proc p a in
    record {
      queue = append p a;
      result = rw (v.unmarked p new);
      valid = record {
        list =
            append-IsRunList a xs p (admit-IsRunList p slice q xs v.list) new nonzero
              (λ e. h (e ∙ admit-header p slice q)) few;
        marked =
            All-append _ xs (p ∷ [])
              (All-both xs new v.marked (λ x (n : x ≢ p) (e : (q.proc x).on_rq ≡ true).
                ap (λ (f : ℕ → Proc). (f x).on_rq) proc
                ∙ ap (λ (w : Proc). w.on_rq) (admit-proc_ne p slice q x n)
                ∙ e))
              (
                ap (λ (f : ℕ → Proc). (f p).on_rq) proc
                    ∙ ap (λ (w : Proc). w.on_rq) (admit-proc_self p slice q),
                tt,
              );
        unmarked = λ z n.
            let m = apart xs p z n in
            ap (λ (f : ℕ → Proc). (f z).on_rq) proc
            ∙ ap (λ (w : Proc). w.on_rq) (admit-proc_ne p slice q z m.1)
            ∙ v.unmarked z m.0;
      };
      states = λ z. ap (λ (f : ℕ → Proc). (f z).state) proc ∙ admit-state p slice q z;
      header = append-header p a ∙ admit-header p slice q;
      slice_given =
          ap (λ (f : ℕ → Proc). (f p).time_slice) proc
          ∙ ap (λ (w : Proc). w.time_slice) (admit-proc_self p slice q);
    }

pub dequeue-Removed :
    (q : RunQueue) (ys : List ℕ) (p : ℕ) (zs : List ℕ)
    → IsFlagged q (ys ++ p ∷ zs)
    → Removed q ys p zs (dequeue q p)
unfolding dequeue
dequeue-Removed q ys p zs v =
    let d = drop p q in
    let proc : ((remove p d).proc ≡ d.proc) = remove-proc p d in
    let apart_p : NotIn p (ys ++ zs) =
      All-append _ ys zs (NotIn-before ys p zs v.list.ring.distinct.1)
        (NotIn-after ys p zs v.list.ring.distinct.1) in
    let marks : All (λ x. (q.proc x).on_rq ≡ true) (ys ++ zs) =
      All-append _ ys zs (All-append_left _ ys (p ∷ zs) v.marked)
        (All-append_right _ ys (p ∷ zs) v.marked).1 in
    let rest : ((z : ℕ) → z ≢ p → (remove p d).proc z ≡ q.proc z) =
      λ z n. ap (λ (f : ℕ → Proc). f z) proc ∙ drop-proc_ne p q z n in
    record {
      queue = remove p d;
      result =
          rw (All-append_right (λ x. (q.proc x).on_rq ≡ true) ys (p ∷ zs) v.marked).0
            (rw (lt→ltb 0 q.proc_num (omega (arith, v.list.count, length-append ys (p ∷ zs)))));
      valid = record {
        list = remove-IsRunList d ys p zs (drop-IsRunList p q (ys ++ p ∷ zs) v.list);
        marked = All-both (ys ++ zs) apart_p marks (λ x (n : x ≢ p) (e : (q.proc x).on_rq ≡ true).
            ap (λ (w : Proc). w.on_rq) (rest x n) ∙ e);
        unmarked = λ z n. elim (ℕ_discrete z p) [
          | yes e ↦
              ap (λ x. ((remove p d).proc x).on_rq) e
              ∙ ap (λ (f : ℕ → Proc). (f p).on_rq) proc
              ∙ drop-on_rq p q
          | no k ↦
              ap (λ (w : Proc). w.on_rq) (rest z k)
              ∙ v.unmarked z (
                  All-append _ ys (p ∷ zs) (All-append_left _ ys zs n)
                    ((λ e. k (sym e)), All-append_right _ ys zs n))
        ];
      };
      states = λ z. ap (λ (f : ℕ → Proc). (f z).state) proc ∙ drop-state p q z;
      header = remove-header p d ∙ drop-header p q;
      rest = rest;
    }

pub pick_next-front :
    (q : RunQueue) (x : ℕ) (xs : List ℕ) → IsFlagged q (x ∷ xs) → pick_next q ≡ (x, q)
unfolding pick_next
pick_next-front q x xs v = rw v.list.ring.seg.0 (rw (ne→== x q.run_list v.list.ring.distinct.0.0))

pub pick_next_none : (q : RunQueue) → IsFlagged q [] → pick_next q ≡ (0, q)
unfolding pick_next
pick_next_none q v = rw (eq→== (q.links.next q.run_list) q.run_list v.list.ring.seg.0)

pub class-Enqueued :
    (slice : ℕ) (q : RunQueue) (xs : List ℕ) (p : ℕ) (run : Option RunQueue)
    → Appended q xs p slice run
    → Enqueued IsFlagged q xs p run
class-Enqueued slice q xs p run a = record {
  queue = a.queue;
  items = xs ++ p ∷ [];
  result = a.result;
  valid = a.valid;
  perm = perm_append_comm xs (p ∷ []);
  states = a.states;
  header = a.header;
}

pub class-Picked :
    (q : RunQueue) (x : ℕ) (xs : List ℕ)
    → IsFlagged q (x ∷ xs)
    → Picked IsFlagged q (x ∷ xs) pick_next dequeue
class-Picked q x xs v =
    let r = dequeue-Removed q [] x xs v in
    record {
      next = x;
      chosen = q;
      queue = r.queue;
      items = xs;
      pick_result = pick_next-front q x xs v;
      dequeue_result = r.result;
      valid = r.valid;
      perm = Perm.refl (x ∷ xs);
      states = r.states;
      header = r.header;
    }

pub holds-apart :
    (q : RunQueue) (xs : List ℕ) → IsFlagged q xs → Distinct xs × NotIn 0 xs × NotIn q.run_list xs
holds-apart q xs v = (v.list.ring.distinct.1, v.list.nonzero, v.list.ring.distinct.0)

pub put_core-IsFlagged :
    (q : RunQueue) (xs : List ℕ) (p : ℕ) (st : ProcState) (n : ℕ) (b : Bool) (w : ℕ)
    → IsFlagged q xs
    → IsFlagged (put_core p st n b w q) xs
unfolding put_core
put_core-IsFlagged q xs p st n b w v =
    put_proc-IsFlagged q xs p
      (record (q.proc p) { state = st; runs = n; need_resched = b; wait_state = w }) refl v
