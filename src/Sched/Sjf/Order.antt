-- ===== src/Sched/Sjf/Order.antt =====
-- Shortest job first chooses the process with the least expected run time.
use nku_os_2025_lab.Prelude.{
  update_self, ◌==◌, if◌then◌else◌, ℕ, ◌^◌, ◌≤◌, ◌<◌, ◌≡◌, ◌≢◌, refl, sym, ap, subst, fun_ext, ◌∙◌,
  ◌⊎◌, inl, inr, true, false, List, [], ◌∷◌, ◌++◌, Option, some, arith, All, All-map, All-both,
  All-append, All-append_left, All-append_right, NotIn, length, Perm, NotIn-perm, ne→==,
}
use mathlib.Core.List.Perm
use native.Mathlib.Decide.{dec_lt, ℕ_discrete, dec_le}
use nku_os_2025_lab.Libs.SkewHeap.Tree.{Tree, leaf, node, nodes, merge, IsHeap, merge-IsHeap}
use nku_os_2025_lab.Sched.Proc.{Proc, RunQueue, max_process, put_proc}
use nku_os_2025_lab.Sched.Flagged.{admit, drop, admit-proc_ne, admit-proc_self}
use nku_os_2025_lab.Sched.Pooled.{PooledAs}
use nku_os_2025_lab.Sched.Pooled.Queue.{pooled_root, dequeue_pooled-RootRemoved}
use nku_os_2025_lab.Sched.Pooled.Order.{All-AllNodes, All-perm, root_least, IsHeap-agree}
use nku_os_2025_lab.Sched.Sjf.{
  sjf_less, sjf_enqueue, sjf_dequeue, sjf_pick_next, fix_runtime, sjf-Inserted, sjf_pick_next_root,
}

-- `a` is no longer than `b`; of equal jobs the older one, with the smaller pid, comes first.
abbrev pub NoLonger : Proc → Proc → Type 0
NoLonger a b =
    (a.expected_runtime < b.expected_runtime)
    ⊎ ((a.expected_runtime ≡ b.expected_runtime) × (a.pid ≤ b.pid))

NoLonger-dec : (a b : Proc) → Dec (NoLonger a b)
NoLonger-dec a b = elim (dec_lt a.expected_runtime b.expected_runtime) [
  | yes h ↦ yes (inl h)
  | no h ↦ elim (ℕ_discrete a.expected_runtime b.expected_runtime) [
    | no n ↦ no (λ k. elim k [ inl x ↦ h x | inr x ↦ n x.0 ])
    | yes e ↦ elim (dec_le a.pid b.pid) [
      | yes l ↦ yes (inr (e, l))
      | no n ↦ no (λ k. elim k [ inl x ↦ h x | inr x ↦ n x.1 ])
    ]
  ]
]

-- An expected run time that is not negative as an `int32_t`.
abbrev pub IsRuntime : ℕ → Type 0
IsRuntime n = n < 2 ^ 31

-- The processes `xs` are queued, and the pool is a heap by run time.
pub record JobPool (q : RunQueue) (t : Tree) (xs : List ℕ) : Type 0 where
  pub pooled : PooledAs q t xs
  pub ordered : IsHeap (sjf_less q.proc) t
  pub times : All (λ z. IsRuntime (q.proc z).expected_runtime) xs

module _ (proc : ℕ → Proc) (a b : ℕ) (va : IsRuntime (proc a).expected_runtime)
    (vb : IsRuntime (proc b).expected_runtime) where
  not_less→NoLonger : sjf_less proc a b ≡ false → NoLonger (proc b) (proc a)
  unfolding sjf_less
  not_less→NoLonger h = ground arith

  NoLonger→not_less : NoLonger (proc b) (proc a) → sjf_less proc a b ≡ false
  unfolding sjf_less
  NoLonger→not_less h = ground arith

  less→NoLonger : sjf_less proc a b ≡ true → NoLonger (proc a) (proc b)
  unfolding sjf_less
  less→NoLonger h = ground arith

NoLonger-trans : (a b c : Proc) → NoLonger a b → NoLonger b c → NoLonger a c
NoLonger-trans a b c h k = ground arith

abbrev In : (ℕ → Proc) → ℕ → Type 0
In proc z = IsRuntime (proc z).expected_runtime

merged :
    (proc : ℕ → Proc) (t u : Tree)
    → All (In proc) (nodes t)
    → All (In proc) (nodes u)
    → IsHeap (sjf_less proc) t
    → IsHeap (sjf_less proc) u
    → IsHeap (sjf_less proc) (merge (sjf_less proc) t u)
merged proc t u i j h k =
    merge-IsHeap (sjf_less proc) (In proc)
      (λ x y z a b c e f. NoLonger→not_less proc z x c a (
        NoLonger-trans (proc x) (proc y) (proc z) (not_less→NoLonger proc y x b a e)
          (not_less→NoLonger proc z y c b f)))
      (λ x y a b e. NoLonger→not_less proc y x b a (less→NoLonger proc x y a b e)) t u
      (All-AllNodes (In proc) t i) (All-AllNodes (In proc) u j) h k

-- The choice of a job, and its removal from the queue.
pub record JobPicked (q : RunQueue) (xs : List ℕ) : Type 0 where
  pub next : ℕ
  pub queue : RunQueue
  pub items : List ℕ
  pub tree : Tree
  pub pick : sjf_pick_next q ≡ (next, q)
  pub removal : sjf_dequeue q next ≡ some queue
  pub perm : Perm (next ∷ items) xs
  pub least : All (λ y. NoLonger (q.proc next) (q.proc y)) xs
  pub valid : JobPool queue tree items

sjf_less-agree :
    (f g : ℕ → Proc)
    → ((z : ℕ) → (g z).expected_runtime ≡ (f z).expected_runtime)
    → ((z : ℕ) → (g z).pid ≡ (f z).pid)
    → sjf_less g ≡ sjf_less f
unfolding sjf_less
sjf_less-agree f g e i = fun_ext (λ a. fun_ext (λ b. rw (e a, e b, i a, i b) refl))

sjf_less-at : (f g : ℕ → Proc) (a b : ℕ) → g a ≡ f a → g b ≡ f b → sjf_less g a b ≡ sjf_less f a b
unfolding sjf_less
sjf_less-at f g a b e i = rw (e, i) refl

drop-runtime :
    (p : ℕ) (q : RunQueue) (z : ℕ)
    → ((drop p q).proc z).expected_runtime ≡ (q.proc z).expected_runtime
unfolding drop put_proc
drop-runtime p q z = ground arith

drop-pid : (p : ℕ) (q : RunQueue) (z : ℕ) → ((drop p q).proc z).pid ≡ (q.proc z).pid
unfolding drop put_proc
drop-pid p q z = ground arith

picked :
    (q : RunQueue) (l : Tree) (y : ℕ) (r : Tree) (xs : List ℕ)
    → JobPool q (node l y r) xs
    → q.run_pool ≡ y
    → JobPicked q xs
unfolding sjf_dequeue
picked q l y r xs v at_root =
    let ins : All (In q.proc) (y ∷ nodes l ++ nodes r) =
      All-perm (In q.proc) (λ z. dec_lt _ _) (Perm.symm v.pooled.perm) v.times in
    let d = dequeue_pooled-RootRemoved sjf_less q xs l y r v.pooled in
    let time : ((z : ℕ) → (d.queue.proc z).expected_runtime ≡ (q.proc z).expected_runtime) =
      λ z. ap (λ (g : ℕ → Proc). (g z).expected_runtime) d.proc ∙ drop-runtime y q z in
    let pid : ((z : ℕ) → (d.queue.proc z).pid ≡ (q.proc z).pid) =
      λ z. ap (λ (g : ℕ → Proc). (g z).pid) d.proc ∙ drop-pid y q z in
    record {
      next = y;
      queue = d.queue;
      items = d.items;
      tree = merge (sjf_less q.proc) l r;
      pick = sjf_pick_next_root q y at_root;
      removal = d.result;
      perm = d.perm;
      least =
          All-perm (λ z. NoLonger (q.proc y) (q.proc z)) (λ z. NoLonger-dec (q.proc y) (q.proc z))
            v.pooled.perm
            (
              inr (refl, omega arith),
              All-both (nodes l ++ nodes r) ins.1 (root_least (sjf_less q.proc) l y r v.ordered)
                  (λ z (w : In q.proc z) (e : sjf_less q.proc z y ≡ false).
                    not_less→NoLonger q.proc z y w ins.0 e),
            );
      valid = record {
        pooled = d.valid;
        ordered =
            subst (λ g. IsHeap g (merge (sjf_less q.proc) l r))
              (sym (sjf_less-agree q.proc d.queue.proc time pid))
              (merged q.proc l r (All-append_left _ (nodes l) (nodes r) ins.1)
                (All-append_right _ (nodes l) (nodes r) ins.1) v.ordered.2 v.ordered.3);
        times =
            All-map _ _ d.items (λ z (w : In q.proc z). subst IsRuntime (sym (time z)) w)
              (All-perm (In q.proc) (λ z. dec_lt _ _) (Perm.symm d.perm) v.times).1;
      };
    }

-- Under shortest job first, where the pool is a heap and the expected run times are not negative,
-- the process that is chosen and removed expects to run no longer than any other, and of those that
-- expect the same it has the smallest pid. No assertion fails, and the pool stays a heap of the
-- others.
pub sjf-JobPicked :
    (q : RunQueue) (t : Tree) (x : ℕ) (xs : List ℕ) → JobPool q t (x ∷ xs) → JobPicked q (x ∷ xs)
sjf-JobPicked q t x xs v =
    let k = pooled_root q t x xs v.pooled in
    picked q k.left k.item k.right (x ∷ xs) (subst (λ w. JobPool q w (x ∷ xs)) k.shape v) k.at_root

-- Insertion of a job.
pub record JobQueued (q : RunQueue) (xs : List ℕ) (p : ℕ) (run : Option RunQueue) : Type 0 where
  pub queue : RunQueue
  pub result : run ≡ some queue
  pub tree : Tree
  pub valid : JobPool queue tree (xs ++ p ∷ [])
  pub slice : (queue.proc p).time_slice ≡ (queue.proc p).expected_runtime
  pub runtime :
      (queue.proc p).expected_runtime
      ≡ (if (q.proc p).expected_runtime == 0 then q.max_time_slice else (q.proc p).expected_runtime)
  pub rest : (z : ℕ) → z ≢ p → queue.proc z ≡ q.proc z

admit-runtime :
    (p slice : ℕ) (q : RunQueue) (z : ℕ)
    → ((admit p slice q).proc z).expected_runtime ≡ (q.proc z).expected_runtime
unfolding admit put_proc
admit-runtime p slice q z = ground arith

fix_runtime-runtime :
    (q : RunQueue) (p : ℕ)
    → ((fix_runtime p q).proc p).expected_runtime
      ≡ (if (q.proc p).expected_runtime == 0 then q.max_time_slice else (q.proc p).expected_runtime)
unfolding fix_runtime put_proc
fix_runtime-runtime q p = ap (λ (v : Proc). v.expected_runtime) (update_self q.proc p _)

fix_runtime-proc_ne : (q : RunQueue) (p z : ℕ) → z ≢ p → (fix_runtime p q).proc z ≡ q.proc z
unfolding fix_runtime put_proc
fix_runtime-proc_ne q p z n = rw (ne→== z p n)

-- Under shortest job first, inserting a process that is not queued into a queue of fewer than
-- MAX_PROCESS passes the assertion and keeps the list and the heap order; an
-- expected run time of 0 becomes the largest time slice, the process gets its expected run time as
-- its slice, where that is not negative, and no other process changes.
pub sjf_enqueue-JobQueued :
    (q : RunQueue) (t : Tree) (xs : List ℕ) (p : ℕ)
    → JobPool q t xs
    → NotIn p xs
    → p ≢ 0
    → p ≢ q.run_list
    → length xs < max_process
    → IsRuntime ((fix_runtime p q).proc p).expected_runtime
    → JobQueued q xs p (sjf_enqueue q p)
sjf_enqueue-JobQueued q t xs p v n z h few w =
    let i = sjf-Inserted q t xs p v.pooled n z h few in
    let b = fix_runtime p q in
    let a = admit p (b.proc p).expected_runtime b in
    let rest : ((x : ℕ) → x ≢ p → a.proc x ≡ q.proc x) =
      λ x k. admit-proc_ne p (b.proc p).expected_runtime b x k ∙ fix_runtime-proc_ne q p x k in
    let mine : (IsRuntime (a.proc p).expected_runtime) =
      subst IsRuntime (sym (admit-runtime p (b.proc p).expected_runtime b p)) w in
    let fresh : NotIn p (nodes t) = NotIn-perm p (Perm.symm v.pooled.perm) n in
    let times : All (In a.proc) xs = All-both xs n v.times (λ x (k : x ≢ p) (e : In q.proc x).
      subst (λ (u : Proc). IsRuntime u.expected_runtime) (sym (rest x k)) e) in
    let heap : IsHeap (sjf_less a.proc) t =
      IsHeap-agree p (sjf_less q.proc) (sjf_less a.proc)
        (λ x y k m. sjf_less-at q.proc a.proc x y (rest x k) (rest y m)) t fresh v.ordered in
    let both =
      merged a.proc t (node leaf p leaf)
        (All-perm (In a.proc) (λ x. dec_lt _ _) (Perm.symm v.pooled.perm) times) (mine, tt) heap
        (tt, tt, tt, tt) in
    record {
      queue = i.queue;
      result = i.result;
      tree = merge (sjf_less a.proc) t (node leaf p leaf);
      valid = record {
        pooled = i.valid;
        ordered =
            subst (λ f. IsHeap (sjf_less f) (merge (sjf_less a.proc) t (node leaf p leaf)))
              (sym i.proc) both;
        times =
            subst (λ f. All (In f) (xs ++ p ∷ [])) (sym i.proc)
              (All-append (In a.proc) xs (p ∷ []) times (mine, tt));
      };
      slice =
          ap (λ (f : ℕ → Proc). (f p).time_slice) i.proc
          ∙ ap (λ (u : Proc). u.time_slice) (admit-proc_self p (b.proc p).expected_runtime b)
          ∙ sym (admit-runtime p (b.proc p).expected_runtime b p)
          ∙ sym (ap (λ (f : ℕ → Proc). (f p).expected_runtime) i.proc);
      runtime =
          ap (λ (f : ℕ → Proc). (f p).expected_runtime) i.proc
          ∙ admit-runtime p (b.proc p).expected_runtime b p
          ∙ fix_runtime-runtime q p;
      rest = λ x k. ap (λ (f : ℕ → Proc). f x) i.proc ∙ rest x k;
    }
