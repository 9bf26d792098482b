-- ===== src/Sched/RunList.antt =====
-- What the scheduling classes over `run_list` share: a queue of processes on list.h.
use nku_os_2025_lab.Prelude.{
  ℕ, ◌+◌, ◌-◌, ◌%◌, ◌≤◌, ◌<◌, ◌≡◌, ◌≢◌, sym, subst, ◌∙◌, List, [], ◌∷◌, ◌++◌, arith, All-append,
  All-append_left, All-append_right, last-ne, NotIn, length, length-append, update, update_ne,
  update_self,
}
use native.Mathlib.Decide.{ℕ_discrete}
use nku_os_2025_lab.Libs.LinkedList.{Links, list_add_before, list_del_init}
use nku_os_2025_lab.Libs.LinkedList.Ring.{IsRing, prev-last, IsSeg-split_left}
use nku_os_2025_lab.Libs.LinkedList.Insert.{IsRing-list_add_tail}
use nku_os_2025_lab.Libs.LinkedList.Remove.{IsRing-list_del_init}
use nku_os_2025_lab.Sched.Proc.{RunQueue, uint_mod, max_process}

-- The list holds the processes `xs` in this order, `proc_num` counts them, and the entries of other
-- processes are in no list.
pub record IsRunList (q : RunQueue) (xs : List ℕ) : Type 0 where
  pub ring : IsRing q.links q.run_list xs
  pub count : q.proc_num ≡ length xs
  pub few : length xs ≤ max_process
  pub detached : (z : ℕ) → NotIn z (q.run_list ∷ xs) → q.links.next z ≡ z
  pub nonzero : NotIn 0 xs

-- `list_add_before(&(rq->run_list), &(proc->run_link)); rq->proc_num ++`
unfoldable pub append : ℕ → RunQueue → RunQueue
append p q = record q {
  links = list_add_before q.run_list p q.links;
  proc_num = (q.proc_num + 1) % uint_mod;
}

-- `list_del_init(&(proc->run_link)); rq->proc_num --`
unfoldable pub remove : ℕ → RunQueue → RunQueue
remove p q = record q {
  links = list_del_init p q.links;
  proc_num = (q.proc_num + uint_mod - 1) % uint_mod;
}

next-list_add_before_ne :
    (l : Links) (h p z : ℕ) → z ≢ p → z ≢ l.prev h → (list_add_before h p l).next z ≡ l.next z
unfolding list_add_before
next-list_add_before_ne l h p z a b =
    update_ne (update l.next (l.prev h) p) p h z a ∙ update_ne l.next (l.prev h) p z b

next-list_del_init_ne :
    (l : Links) (p z : ℕ) → z ≢ p → z ≢ l.prev p → (list_del_init p l).next z ≡ l.next z
unfolding list_del_init
next-list_del_init_ne l p z a b =
    update_ne (update l.next (l.prev p) (l.next p)) p p z a
    ∙ update_ne l.next (l.prev p) (l.next p) z b

next-list_del_init_self : (l : Links) (p : ℕ) → (list_del_init p l).next p ≡ p
unfolding list_del_init
next-list_del_init_self l p = update_self (update l.next (l.prev p) (l.next p)) p p

-- Appending a process that is in no list.
pub append-IsRunList :
    (q : RunQueue) (xs : List ℕ) (p : ℕ)
    → IsRunList q xs
    → NotIn p xs
    → p ≢ 0
    → p ≢ q.run_list
    → length xs < max_process
    → IsRunList (append p q) (xs ++ p ∷ [])
unfolding append
append-IsRunList q xs p v new nonzero h few = record {
  ring = IsRing-list_add_tail xs p v.ring ((λ e. h (sym e)), new);
  count = omega (arith, v.count, length-append xs (p ∷ []));
  few = omega (arith, length-append xs (p ∷ []));
  detached = λ z n.
      let in_xs = All-append_left (λ x. x ≢ z) xs (p ∷ []) n.1 in
      let is_p = (All-append_right (λ x. x ≢ z) xs (p ∷ []) n.1).0 in
      next-list_add_before_ne q.links q.run_list p z (λ e. is_p (sym e))
        (λ e.
          last-ne z q.run_list xs n.0 in_xs
            (sym (prev-last q.links q.run_list xs q.run_list v.ring.seg) ∙ sym e))
      ∙ v.detached z (n.0, in_xs);
  nonzero = All-append _ xs (p ∷ []) v.nonzero (nonzero, tt);
}

-- Removing a process, wherever it stands in the list.
pub remove-IsRunList :
    (q : RunQueue) (ys : List ℕ) (p : ℕ) (zs : List ℕ)
    → IsRunList q (ys ++ p ∷ zs)
    → IsRunList (remove p q) (ys ++ zs)
unfolding remove
remove-IsRunList q ys p zs v = record {
  ring = (IsRing-list_del_init ys p zs v.ring).0;
  count = omega (arith, v.count, v.few, length-append ys (p ∷ zs), length-append ys zs);
  few = omega (arith, v.few, length-append ys (p ∷ zs), length-append ys zs);
  detached = λ z n. elim (ℕ_discrete z p) [
    | yes e ↦
        subst (λ w. (list_del_init p q.links).next w ≡ w) (sym e)
          (next-list_del_init_self q.links p)
    | no k ↦
        let in_ys = All-append_left (λ x. x ≢ z) ys zs n.1 in
        let in_zs = All-append_right (λ x. x ≢ z) ys zs n.1 in
        next-list_del_init_ne q.links p z k (λ e. last-ne z q.run_list ys n.0 in_ys (
          sym (
            prev-last q.links q.run_list ys p
              (IsSeg-split_left q.links q.run_list ys p zs q.run_list v.ring.seg))
          ∙ sym e))
        ∙ v.detached z (n.0, All-append _ ys (p ∷ zs) in_ys ((λ e. k (sym e)), in_zs))
  ];
  nonzero =
      All-append _ ys zs (All-append_left _ ys (p ∷ zs) v.nonzero)
        (All-append_right _ ys (p ∷ zs) v.nonzero).1;
}
