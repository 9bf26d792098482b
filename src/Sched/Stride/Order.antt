-- ===== src/Sched/Stride/Order.antt =====
-- Under the stride class the process with the smallest stride runs, and all strides stay within one
-- window of `big_stride`.
use nku_os_2025_lab.Prelude.{
  ◌==◌, if◌then◌else◌, ℕ, ◌+◌, ◌-◌, ◌/◌, ◌%◌, ◌^◌, ◌≤◌, ◌<◌, ◌≡◌, ◌≢◌, sym, ap, ap₂, subst, fun_ext,
  ◌∙◌, false, List, [], ◌∷◌, ◌++◌, Option, some, arith, update_self, All, All-map, All-both,
  All-append, All-append_left, All-append_right, NotIn, length, Perm, Distinct-perm, leb,
}
use mathlib.Core.List.Perm
use native.Mathlib.Decide.{dec_le}
use native.Mathlib.Nat.{div-le_self, le_trans, le_of_lt}
use nku_os_2025_lab.Libs.SkewHeap.Tree.{
  Tree, leaf, node, nodes, AllNodes, merge, IsHeap, merge-IsHeap,
}
use nku_os_2025_lab.Sched.Proc.{Proc, RunQueue, uint_mod, max_process, put_proc}
use nku_os_2025_lab.Sched.Flagged.{admit, drop}
use nku_os_2025_lab.Sched.Pooled.{PooledAs}
use nku_os_2025_lab.Sched.Pooled.Queue.{pooled_root, dequeue_pooled-RootRemoved}
use nku_os_2025_lab.Sched.Pooled.Order.{All-AllNodes, All-perm, root_least, IsHeap-agree, AgreeBut}
use nku_os_2025_lab.Sched.Stride.{
  big_stride, stride_less, stride_enqueue, stride_dequeue, stride_pick_next, fix_priority,
  advance_stride, fix_priority-stride, stride-Inserted, advance_stride-PooledAs,
  stride_pick_next_root,
}
use nku_os_2025_lab.Sched.Stride.Window.{
  ahead, Within, Within-dec, less→ahead, not_less→ahead, ahead→not_less, Within-moved,
  Within-advanced,
}

-- The processes `xs` are queued, the pool is a heap by stride, and the strides lie within
-- `big_stride` of `base`.
pub record StridePool (q : RunQueue) (base : ℕ) (t : Tree) (xs : List ℕ) : Type 0 where
  pub pooled : PooledAs q t xs
  pub ordered : IsHeap (stride_less q.proc) t
  pub window : All (λ z. Within base (q.proc z).stride) xs
  pub small : base < uint_mod

-- The comparison reads strides alone.
stride_less-agree :
    (f g : ℕ → Proc) → ((z : ℕ) → (g z).stride ≡ (f z).stride) → stride_less g ≡ stride_less f
unfolding stride_less
stride_less-agree f g e =
    fun_ext
      (λ a. fun_ext (λ b. ap₂ (λ x y. leb (2 ^ 31) ((x + uint_mod - y) % uint_mod)) (e a) (e b)))

abbrev In : (ℕ → Proc) → ℕ → ℕ → Type 0
In proc base z = Within base (proc z).stride

In-dec : (proc : ℕ → Proc) (base z : ℕ) → Dec (In proc base z)
In-dec proc base z = Within-dec base (proc z).stride

module _ (proc : ℕ → Proc) (base : ℕ) (small : base < uint_mod) where
  merged :
      (t u : Tree)
      → AllNodes (In proc base) t
      → AllNodes (In proc base) u
      → IsHeap (stride_less proc) t
      → IsHeap (stride_less proc) u
      → IsHeap (stride_less proc) (merge (stride_less proc) t u)
  merged t u i j h k =
      merge-IsHeap (stride_less proc) (In proc base)
        (λ x y z a b c e f. ahead→not_less proc base small z x c a (
          le_trans (not_less→ahead proc base small y x b a e)
            (not_less→ahead proc base small z y c b f)))
        (λ x y a b e.
          ahead→not_less proc base small y x b a (le_of_lt (less→ahead proc base small x y a b e)))
        t u i j h k

-- Insertion, with the window.
pub record StrideQueued (q : RunQueue) (base : ℕ) (xs : List ℕ) (run : Option RunQueue)
    : Type 0 where
  pub queue : RunQueue
  pub result : run ≡ some queue
  pub tree : Tree
  pub valid : StridePool queue base tree xs
  pub strides : (z : ℕ) → (queue.proc z).stride ≡ (q.proc z).stride

admit-stride :
    (p slice : ℕ) (q : RunQueue) (z : ℕ) → ((admit p slice q).proc z).stride ≡ (q.proc z).stride
unfolding admit put_proc
admit-stride p slice q z = ground arith

-- Under the stride class, inserting a process that is not queued, whose stride lies within
-- `big_stride` of the base of the others, into a queue of fewer than MAX_PROCESS passes the
-- assertion and keeps the list, the heap order and the window; no stride changes.
pub stride_enqueue-StrideQueued :
    (q : RunQueue) (base : ℕ) (t : Tree) (xs : List ℕ) (p : ℕ)
    → StridePool q base t xs
    → NotIn p xs
    → p ≢ 0
    → p ≢ q.run_list
    → length xs < max_process
    → Within base (q.proc p).stride
    → StrideQueued q base (xs ++ p ∷ []) (stride_enqueue q p)
stride_enqueue-StrideQueued q base t xs p v n z h few w =
    let i = stride-Inserted q t xs p v.pooled n z h few in
    let a = admit p q.max_time_slice (fix_priority p q) in
    let sa : ((z : ℕ) → (a.proc z).stride ≡ (q.proc z).stride) =
      λ z. admit-stride p q.max_time_slice (fix_priority p q) z ∙ fix_priority-stride q p z in
    let strides : ((z : ℕ) → (i.queue.proc z).stride ≡ (q.proc z).stride) =
      λ z. ap (λ (f : ℕ → Proc). (f z).stride) i.proc ∙ sa z in
    let ins : AllNodes (In q.proc base) t =
      All-AllNodes (In q.proc base) t
        (All-perm (In q.proc base) (In-dec q.proc base) (Perm.symm v.pooled.perm) v.window) in
    let both =
      merged q.proc base v.small t (node leaf p leaf) ins (w, tt, tt) v.ordered (tt, tt, tt, tt) in
    record {
      queue = i.queue;
      result = i.result;
      tree = merge (stride_less a.proc) t (node leaf p leaf);
      valid = record {
        pooled = i.valid;
        ordered =
            subst (λ f. IsHeap f (merge (stride_less a.proc) t (node leaf p leaf)))
              (sym (stride_less-agree q.proc i.queue.proc strides))
              (subst (λ f. IsHeap (stride_less q.proc) (merge f t (node leaf p leaf)))
                (sym (stride_less-agree q.proc a.proc sa)) both);
        window =
            All-append _ xs (p ∷ [])
              (All-map _ _ xs
                (λ z (k : Within base (q.proc z).stride). subst (Within base) (sym (strides z)) k)
                v.window)
              (subst (Within base) (sym (strides p)) w, tt);
        small = v.small;
      };
      strides = strides;
    }

-- The choice of a process, and its removal from the queue.
pub record StridePicked (q : RunQueue) (base : ℕ) (xs : List ℕ) : Type 0 where
  pub next : ℕ
  pub chosen : RunQueue
  pub queue : RunQueue
  pub items : List ℕ
  pub tree : Tree
  pub pick : stride_pick_next q ≡ (next, chosen)
  pub removal : stride_dequeue chosen next ≡ some queue
  pub perm : Perm (next ∷ items) xs
  pub least : All (λ y. ahead base (q.proc next).stride ≤ ahead base (q.proc y).stride) xs
  pub valid : StridePool queue (q.proc next).stride tree items
  pub advanced :
      (queue.proc next).stride
      ≡ ((q.proc next).stride
          + big_stride / (if (q.proc next).priority == 0 then 1 else (q.proc next).priority))
        % uint_mod
  pub again : Within (q.proc next).stride (queue.proc next).stride

advance_stride-stride_ne :
    (q : RunQueue) (p z : ℕ) → z ≢ p → ((advance_stride p q).proc z).stride ≡ (q.proc z).stride
unfolding advance_stride put_proc
advance_stride-stride_ne q p z n = ground (arith, fix_priority-stride q p z)

fix_priority-priority :
    (q : RunQueue) (p : ℕ)
    → ((fix_priority p q).proc p).priority
      ≡ (if (q.proc p).priority == 0 then 1 else (q.proc p).priority)
unfolding fix_priority put_proc
fix_priority-priority q p = ap (λ (v : Proc). v.priority) (update_self q.proc p _)

advance_stride-stride_self :
    (q : RunQueue) (p : ℕ)
    → ((advance_stride p q).proc p).stride
      ≡ ((q.proc p).stride
          + big_stride / (if (q.proc p).priority == 0 then 1 else (q.proc p).priority))
        % uint_mod
unfolding advance_stride put_proc
advance_stride-stride_self q p =
    ap (λ (v : Proc). v.stride) (update_self (fix_priority p q).proc p _)
    ∙ ap₂ (λ n k. (n + big_stride / k) % uint_mod) (fix_priority-stride q p p)
        (fix_priority-priority q p)

drop-stride : (p : ℕ) (q : RunQueue) (z : ℕ) → ((drop p q).proc z).stride ≡ (q.proc z).stride
unfolding drop put_proc
drop-stride p q z = ground arith

module _ (q : RunQueue) (base : ℕ) (l : Tree) (y : ℕ) (r : Tree) (xs : List ℕ)
    (v : StridePool q base (node l y r) xs) where
  in_tree : All (In q.proc base) (y ∷ nodes l ++ nodes r)
  in_tree = All-perm (In q.proc base) (In-dec q.proc base) (Perm.symm v.pooled.perm) v.window

  -- No process is behind the root.
  least_tree :
      All
        (λ z. ahead base (q.proc y).stride ≤ ahead base (q.proc z).stride)
        (y ∷ nodes l ++ nodes r)
  least_tree = (
    omega arith,
    All-both (nodes l ++ nodes r) in_tree.1 (root_least (stride_less q.proc) l y r v.ordered)
        (λ z (w : In q.proc base z) (e : stride_less q.proc z y ≡ false).
          not_less→ahead q.proc base v.small z y w in_tree.0 e),
  )

  least_xs : All (λ z. ahead base (q.proc y).stride ≤ ahead base (q.proc z).stride) xs
  least_xs =
      All-perm (λ z. ahead base (q.proc y).stride ≤ ahead base (q.proc z).stride) (λ z. dec_le _ _)
        v.pooled.perm least_tree

  -- The others lie in the window that begins at the root's stride.
  moved : All (In q.proc (q.proc y).stride) xs
  moved =
      All-both xs v.window least_xs
        (λ z (w : In q.proc base z)
            (k : ahead base (q.proc y).stride ≤ ahead base (q.proc z).stride).
          Within-moved base (q.proc y).stride (q.proc z).stride v.small in_tree.0 w k)

  -- The subtrees are heaps for the comparison after the root was advanced, and all of the state
  -- after it.
  subtrees :
      (f : ℕ → Proc)
      → ((z : ℕ) → z ≢ y → (f z).stride ≡ (q.proc z).stride)
      → IsHeap (stride_less f) (merge (stride_less f) l r)
  unfolding stride_less
  subtrees f e =
      let apart = v.pooled.pool.distinct.0 in
      let agree : AgreeBut y (stride_less q.proc) (stride_less f) =
        λ a b n m. ap₂ (λ x z. leb (2 ^ 31) ((x + uint_mod - z) % uint_mod)) (e a n) (e b m) in
      let ins : All (In f (q.proc y).stride) (nodes l ++ nodes r) =
        All-both (nodes l ++ nodes r) apart
          (All-perm (In q.proc (q.proc y).stride) (In-dec q.proc (q.proc y).stride)
            (Perm.symm v.pooled.perm) moved).1
          (λ z (n : z ≢ y) (w : In q.proc (q.proc y).stride z).
            subst (Within (q.proc y).stride) (sym (e z n)) w) in
      merged f (q.proc y).stride in_tree.0.0 l r
        (All-AllNodes _ l (All-append_left _ (nodes l) (nodes r) ins))
        (All-AllNodes _ r (All-append_right _ (nodes l) (nodes r) ins))
        (IsHeap-agree y (stride_less q.proc) (stride_less f) agree l
          (All-append_left _ (nodes l) (nodes r) apart) v.ordered.2)
        (IsHeap-agree y (stride_less q.proc) (stride_less f) agree r
          (All-append_right _ (nodes l) (nodes r) apart) v.ordered.3)

  picked : q.run_pool ≡ y → StridePicked q base xs
  unfolding stride_dequeue
  picked at_root =
      let f = (advance_stride y q).proc in
      let d =
        dequeue_pooled-RootRemoved stride_less (advance_stride y q) xs l y r
          (advance_stride-PooledAs q (node l y r) xs y v.pooled) in
      let same : ((z : ℕ) → (d.queue.proc z).stride ≡ (f z).stride) =
        λ z. ap (λ (g : ℕ → Proc). (g z).stride) d.proc ∙ drop-stride y (advance_stride y q) z in
      let new : (d.queue.proc y).stride
          ≡ ((q.proc y).stride
              + big_stride / (if (q.proc y).priority == 0 then 1 else (q.proc y).priority))
            % uint_mod =
        same y ∙ advance_stride-stride_self q y in
      record {
        next = y;
        chosen = advance_stride y q;
        queue = d.queue;
        items = d.items;
        tree = merge (stride_less f) l r;
        pick = stride_pick_next_root q y at_root v.pooled.pool.tree.0;
        removal = d.result;
        perm = d.perm;
        least = least_xs;
        valid = record {
          pooled = d.valid;
          ordered =
              subst (λ g. IsHeap g (merge (stride_less f) l r))
                (sym (stride_less-agree f d.queue.proc same))
                (subtrees f (advance_stride-stride_ne q y));
          window =
              let all =
                All-perm (In q.proc (q.proc y).stride) (In-dec q.proc (q.proc y).stride)
                  (Perm.symm d.perm) moved in
              let gone =
                (Distinct-perm (Perm.trans v.pooled.perm (Perm.symm d.perm))
                  v.pooled.pool.distinct).0 in
              All-both d.items gone all.1 (λ z (n : z ≢ y) (w : In q.proc (q.proc y).stride z).
                subst (Within (q.proc y).stride) (sym (same z ∙ advance_stride-stride_ne q y z n))
                  w);
          small = in_tree.0.0;
        };
        advanced = new;
        again =
            subst (Within (q.proc y).stride) (sym new)
              (Within-advanced (q.proc y).stride _ in_tree.0.0 (div-le_self big_stride _));
      }

-- Under the stride class, where the pool is a heap and all strides of the queued processes lie
-- within `big_stride` of a base, though they wrap at 2 ^ 32, the process that is chosen and removed
-- has the smallest stride: none is less far ahead of the base. Its stride then grows by
-- `big_stride` divided by its priority, where a priority of 0 counts as 1, and the strides of the
-- others, and its own new one, lie within `big_stride` of its old stride. No assertion fails, and
-- the pool stays a heap of the others.
pub stride-StridePicked :
    (q : RunQueue) (base : ℕ) (t : Tree) (x : ℕ) (xs : List ℕ)
    → StridePool q base t (x ∷ xs)
    → StridePicked q base (x ∷ xs)
stride-StridePicked q base t x xs v =
    let k = pooled_root q t x xs v.pooled in
    picked q base k.left k.item k.right (x ∷ xs)
      (subst (λ w. StridePool q base w (x ∷ xs)) k.shape v) k.at_root
