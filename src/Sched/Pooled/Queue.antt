-- ===== src/Sched/Pooled/Queue.antt =====
-- Insertion and the removal of the root keep the list and the pool.
use nku_os_2025_lab.Prelude.{
  ℕ, ◌+◌, ◌<◌, ◌≡◌, ◌≢◌, refl, sym, ap, subst, ◌∙◌, Bool, true, List, [], ◌∷◌, ◌++◌, Option, some,
  arith, NotIn, Distinct, length, length-append, length-perm, Perm, perm_middle, perm_append_comm,
  NotIn-perm, lt→ltb, All-append_right,
}
use mathlib.Core.List.Perm
use native.Mathlib.Decide.{ℕ_discrete}
use nku_os_2025_lab.Libs.SkewHeap.{Nodes}
use nku_os_2025_lab.Libs.SkewHeap.Tree.{Tree, leaf, node, nodes, merge, nodes-merge}
use nku_os_2025_lab.Libs.SkewHeap.Step.{root}
use nku_os_2025_lab.Libs.SkewHeap.Merge.{size, skew_heap_insert-Inserts, skew_heap_remove-Removes}
use nku_os_2025_lab.Sched.Proc.{Proc, ProcState, RunQueue, max_process, put_proc, put_core}
use nku_os_2025_lab.Sched.RunList.{append, remove}
use nku_os_2025_lab.Sched.Class.{KeepsStates, Enqueued}
use nku_os_2025_lab.Sched.Flagged.{
  admit, drop, enqueue_with, dequeue, IsFlagged, put_proc-IsFlagged, admit-state, drop-state,
}
use nku_os_2025_lab.Sched.Flagged.Queue.{enqueue_with-Appended, dequeue-Removed, holds-apart}
use nku_os_2025_lab.Sched.Pooled.{
  insert_pooled, dequeue_pooled, PooledAs, IsPooled, pool_insert, pool_remove,
}

size-length : (t : Tree) → size t ≡ length (nodes t)
size-length leaf = refl
size-length (node l x r) =
    omega (arith, size-length l, size-length r, length-append (nodes l) (nodes r))

pub size-pooled : (q : RunQueue) (t : Tree) (xs : List ℕ) → PooledAs q t xs → size t ≡ length xs
size-pooled q t xs v = size-length t ∙ length-perm v.perm

-- Where an item stands in a list.
split_at :
    (x : ℕ) (xs : List ℕ) → (NotIn x xs → ⊥) → (ys : List ℕ) × (zs : List ℕ) × (xs ≡ ys ++ x ∷ zs)
split_at x [] h = absurd (h tt)
split_at x (y ∷ xs) h = elim (ℕ_discrete y x) [
  | yes e ↦ ([], xs, rw e refl)
  | no n ↦ let (ys, zs, e) = split_at x xs (λ k. h (n, k)) in (y ∷ ys, zs, rw e refl)
]

-- The pool is no part of the list.
with_pool-IsFlagged :
    (q : RunQueue) (xs : List ℕ) (r : ℕ) (h : Nodes)
    → IsFlagged q xs
    → IsFlagged (record q { run_pool = r; pool = h }) xs
with_pool-IsFlagged q xs r h f = record {
  list = record {
    ring = f.list.ring;
    count = f.list.count;
    few = f.list.few;
    detached = f.list.detached;
    nonzero = f.list.nonzero;
  };
  marked = f.marked;
  unmarked = f.unmarked;
}

appended-IsFlagged :
    (slice : ℕ) (q : RunQueue) (xs : List ℕ) (p : ℕ)
    → IsFlagged q xs
    → NotIn p xs
    → p ≢ 0
    → p ≢ q.run_list
    → length xs < max_process
    → IsFlagged (append p (admit p slice q)) (xs ++ p ∷ [])
unfolding enqueue_with
appended-IsFlagged slice q xs p f n z h few =
    let a = enqueue_with-Appended slice q xs p f n z h few in
    let e : enqueue_with slice q p ≡ some (append p (admit p slice q)) = rw (f.unmarked p n) refl in
    subst (λ t. IsFlagged t (xs ++ p ∷ [])) (cc (e, a.result)) a.valid

removed-IsFlagged :
    (q : RunQueue) (ys : List ℕ) (p : ℕ) (zs : List ℕ)
    → IsFlagged q (ys ++ p ∷ zs)
    → IsFlagged (remove p (drop p q)) (ys ++ zs)
unfolding dequeue
removed-IsFlagged q ys p zs f =
    let a = dequeue-Removed q ys p zs f in
    let e : dequeue q p ≡ some (remove p (drop p q)) =
      rw (All-append_right (λ x. (q.proc x).on_rq ≡ true) ys (p ∷ zs) f.marked).0
        (rw (lt→ltb 0 q.proc_num (omega (arith, f.list.count, length-append ys (p ∷ zs)))) refl) in
    subst (λ t. IsFlagged t (ys ++ zs)) (cc (e, a.result)) a.valid

module _ (less : (ℕ → Proc) → ℕ → ℕ → Bool) where
  -- What an insertion leaves.
  pub record Inserted (slice : ℕ) (q : RunQueue) (t : Tree) (xs : List ℕ) (p : ℕ)
      (run : Option RunQueue) : Type 0 where
    pub queue : RunQueue
    pub result : run ≡ some queue
    pub valid :
        PooledAs queue (merge (less (admit p slice q).proc) t (node leaf p leaf)) (xs ++ p ∷ [])
    pub proc : queue.proc ≡ (admit p slice q).proc
    pub header : queue.run_list ≡ q.run_list

  pub insert_pooled-Inserted :
      (slice : ℕ) (q : RunQueue) (t : Tree) (xs : List ℕ) (p : ℕ)
      → PooledAs q t xs
      → NotIn p xs
      → p ≢ 0
      → p ≢ q.run_list
      → length xs < max_process
      → Inserted slice q t xs p (insert_pooled less slice q p)
  unfolding insert_pooled pool_insert append admit put_proc
  insert_pooled-Inserted slice q t xs p v n z h few =
      let a = admit p slice q in
      let fresh : NotIn p (nodes t) = NotIn-perm p (Perm.symm v.perm) n in
      let i =
        skew_heap_insert-Inserts (less a.proc) (max_process + 2) q.pool t p v.pool fresh z
          (omega (arith, size-pooled q t xs v)) in
      let new = merge (less a.proc) t (node leaf p leaf) in
      record {
        queue = append p (record a { run_pool = root new; pool = i.store });
        result = rw (← v.top) (rw i.result refl);
        valid = record {
          flagged =
              with_pool-IsFlagged (append p a) (xs ++ p ∷ []) (root new) i.store
                (appended-IsFlagged slice q xs p v.flagged n z h few);
          pool = i.pool;
          top = refl;
          perm =
              Perm.trans (nodes-merge (less a.proc) t (node leaf p leaf))
                (Perm.append v.perm (Perm.refl (p ∷ [])));
        };
        proc = refl;
        header = refl;
      }

  -- What the removal of the root `x` of the pool leaves.
  pub record RootRemoved (q : RunQueue) (xs : List ℕ) (l : Tree) (x : ℕ) (r : Tree)
      (run : Option RunQueue) : Type 0 where
    pub queue : RunQueue
    pub items : List ℕ
    pub result : run ≡ some queue
    pub valid : PooledAs queue (merge (less q.proc) l r) items
    pub perm : Perm (x ∷ items) xs
    pub proc : queue.proc ≡ (drop x q).proc
    pub states : KeepsStates q queue
    pub header : queue.run_list ≡ q.run_list

  pub dequeue_pooled-RootRemoved :
      (q : RunQueue) (xs : List ℕ) (l : Tree) (x : ℕ) (r : Tree)
      → PooledAs q (node l x r) xs
      → RootRemoved q xs l x r (dequeue_pooled less q x)
  unfolding dequeue_pooled pool_remove remove drop put_proc
  dequeue_pooled-RootRemoved q xs l x r v =
      let pm : Perm (x ∷ nodes l ++ nodes r) xs = v.perm in
      let (ys, zs, at) = split_at x xs (λ k. (NotIn-perm x (Perm.symm pm) k).0 refl) in
      let f : IsFlagged q (ys ++ x ∷ zs) = subst (IsFlagged q) at v.flagged in
      let pn : Perm (x ∷ nodes l ++ nodes r) (x ∷ ys ++ zs) =
        Perm.trans (subst (Perm (x ∷ nodes l ++ nodes r)) at pm) (perm_middle ys zs) in
      let few : size l + size r < max_process + 2 =
        omega (arith, size-pooled q (node l x r) xs v, v.flagged.list.few) in
      let k = skew_heap_remove-Removes (less q.proc) (max_process + 2) q.pool l x r v.pool few in
      let new = merge (less q.proc) l r in
      record {
        queue = remove x (drop x (record q { run_pool = root new; pool = k.store }));
        items = ys ++ zs;
        result = rw (All-append_right (λ z. (q.proc z).on_rq ≡ true) ys (x ∷ zs) f.marked).0 (
            rw (sym v.top) (
              rw k.result (
                rw (lt→ltb 0 q.proc_num (omega (arith, f.list.count, length-append ys (x ∷ zs))))
                  refl)));
        valid = record {
          flagged =
              with_pool-IsFlagged (remove x (drop x q)) (ys ++ zs) (root new) k.store
                (removed-IsFlagged q ys x zs f);
          pool = k.pool;
          top = refl;
          perm = Perm.trans (nodes-merge (less q.proc) l r) (Perm.cons_inv pn);
        };
        perm = subst (Perm (x ∷ ys ++ zs)) (sym at) (Perm.symm (perm_middle ys zs));
        proc = refl;
        states = λ z. drop-state x q z;
        header = refl;
      }

  -- As what the interface of the classes asks for.
  pub Inserted-Enqueued :
      (slice : ℕ) (q : RunQueue) (t : Tree) (xs : List ℕ) (p : ℕ) (run : Option RunQueue)
      → Inserted slice q t xs p run
      → Enqueued IsPooled q xs p run
  Inserted-Enqueued slice q t xs p run i = record {
    queue = i.queue;
    items = xs ++ p ∷ [];
    result = i.result;
    valid = (merge (less (admit p slice q).proc) t (node leaf p leaf), i.valid);
    perm = perm_append_comm xs (p ∷ []);
    states = λ z. ap (λ (f : ℕ → Proc). (f z).state) i.proc ∙ admit-state p slice q z;
    header = i.header;
  }

pub pooled-apart :
    (q : RunQueue) (xs : List ℕ) → IsPooled q xs → Distinct xs × NotIn 0 xs × NotIn q.run_list xs
pooled-apart q xs (t, v) = holds-apart q xs v.flagged

-- A write to a process that leaves its flag leaves the queue.
pub put_proc-PooledAs :
    (q : RunQueue) (t : Tree) (xs : List ℕ) (p : ℕ) (w : Proc)
    → w.on_rq ≡ (q.proc p).on_rq
    → PooledAs q t xs
    → PooledAs (put_proc p w q) t xs
unfolding put_proc
put_proc-PooledAs q t xs p w e v = record {
  flagged = put_proc-IsFlagged q xs p w e v.flagged;
  pool = v.pool;
  top = v.top;
  perm = v.perm;
}

pub put_core-IsPooled :
    (q : RunQueue) (xs : List ℕ) (p : ℕ) (st : ProcState) (n : ℕ) (b : Bool) (w : ℕ)
    → IsPooled q xs
    → IsPooled (put_core p st n b w q) xs
unfolding put_core
put_core-IsPooled q xs p st n b w (t, v) = (
  t,
  put_proc-PooledAs q t xs p
      (record (q.proc p) { state = st; runs = n; need_resched = b; wait_state = w }) refl v,
)

-- The pool of a queue with a process in it has a root.
pub record HasRoot (q : RunQueue) (t : Tree) (xs : List ℕ) : Type 0 where
  pub left : Tree
  pub item : ℕ
  pub right : Tree
  pub shape : t ≡ node left item right
  pub pooled : PooledAs q (node left item right) xs
  pub at_root : q.run_pool ≡ item
  pub nonzero : item ≢ 0

pub pooled_root :
    (q : RunQueue) (t : Tree) (x : ℕ) (xs : List ℕ) → PooledAs q t (x ∷ xs) → HasRoot q t (x ∷ xs)
pooled_root q leaf x xs v = absurd (omega (arith, size-pooled q leaf (x ∷ xs) v))
pooled_root q (node l y r) x xs v = record {
  left = l;
  item = y;
  right = r;
  shape = refl;
  pooled = v;
  at_root = sym v.top;
  nonzero = v.pool.tree.0;
}

pub pooled_empty : (q : RunQueue) (t : Tree) → PooledAs q t [] → q.run_pool ≡ 0
pooled_empty q leaf v = sym v.top
pooled_empty q (node l y r) v = absurd (omega (arith, size-pooled q (node l y r) [] v))
