-- ===== src/Pmm/FirstFit/Tail.antt =====
-- The insertion loop of `default_init_memmap` and `default_free_pages` behind the last block: after
-- `list_add(le, base)` there is no `break`, so the loop goes on to `base` itself and runs
-- `list_add(base, base)`.
use nku_os_2025_lab.Prelude.{
  ℕ, zero, suc, ◌+◌, ◌≤◌, ◌<◌, ◌≡◌, ◌≢◌, sym, ◌∙◌, List, [], ◌∷◌, ◌++◌, some, arith, All, NotIn,
  length, le→ltb, eq→==, ne→==, update, update_self, update_ne,
}
use nku_os_2025_lab.Libs.LinkedList.{Links, list_add, list_empty}
use nku_os_2025_lab.Libs.LinkedList.Ring.{IsRing, IsChain, IsSeg-IsChain, IsChain-agree}
use nku_os_2025_lab.Libs.LinkedList.Insert.{IsRing-list_add}
use nku_os_2025_lab.Pmm.FirstFit.{insert_loop, insert_block}

-- The rounds of the loop.
insert_loop_end :
    (f head base le : ℕ) (l : Links)
    → l.next le ≡ head
    → insert_loop (suc f) head base le l ≡ some l
unfolding insert_loop
insert_loop_end f head base le l e = rw (eq→== (l.next le) head e)

insert_loop_skip :
    (f head base le p : ℕ) (l : Links)
    → l.next le ≡ p
    → p ≢ head
    → p ≤ base
    → l.next p ≢ head
    → insert_loop (suc f) head base le l ≡ insert_loop f head base p l
unfolding insert_loop
insert_loop_skip f head base le p l e h k n =
    rw e (rw (ne→== p head h) (rw (le→ltb base p k) (rw (ne→== (l.next p) head n))))

insert_loop_last :
    (f head base le p : ℕ) (l : Links)
    → l.next le ≡ p
    → p ≢ head
    → p ≤ base
    → l.next p ≡ head
    → insert_loop (suc f) head base le l ≡ insert_loop f head base p (list_add p base l)
unfolding insert_loop
insert_loop_last f head base le p l e h k n =
    rw e (rw (ne→== p head h) (rw (le→ltb base p k) (rw (eq→== (l.next p) head n))))

next-list_add : (l : Links) (p e : ℕ) → p ≢ e → (list_add p e l).next p ≡ e
unfolding list_add
next-list_add l p e h = update_ne (update l.next p e) e (l.next p) p h ∙ update_self l.next p e

next-list_add_new : (l : Links) (p e : ℕ) → (list_add p e l).next e ≡ l.next p
unfolding list_add
next-list_add_new l p e = update_self (update l.next p e) e (l.next p)

-- Linking an entry behind itself: its forward link stays, its backward link is lost.
next-list_add_self : (l : Links) (e x : ℕ) → (list_add e e l).next x ≡ l.next x
unfolding list_add
next-list_add_self l e x = ground arith

prev-list_add_self : (l : Links) (e : ℕ) → (list_add e e l).prev e ≡ e
unfolding list_add
prev-list_add_self l e = update_self (update l.prev (l.next e) e) e e

insert_loop_tail :
    (fuel head base le : ℕ) (l : Links) (us : List ℕ) (y : ℕ)
    → length us + 3 ≤ fuel
    → IsChain l le (us ++ y ∷ []) head
    → NotIn head (us ++ y ∷ [])
    → All (λ u. u < base) us
    → y < base
    → base ≢ head
    → insert_loop fuel head base le l ≡ some (list_add base base (list_add y base l))
insert_loop_tail zero head base le l us y f c d h k n = absurd (omega arith)
insert_loop_tail (suc zero) head base le l us y f c d h k n = absurd (omega arith)
insert_loop_tail (suc (suc zero)) head base le l us y f c d h k n = absurd (omega arith)
insert_loop_tail (suc (suc (suc f))) head base le l [] y _ c d h k n =
    let to_base : (list_add y base l).next y ≡ base = next-list_add l y base (λ e. omega arith) in
    let at_end : (list_add y base l).next base ≡ head = next-list_add_new l y base ∙ c.1 in
    insert_loop_last (suc (suc f)) head base le y l c.0 d.0 (omega arith) c.1
    ∙ insert_loop_last (suc f) head base y base (list_add y base l) to_base n (omega arith) at_end
    ∙ insert_loop_end f head base base (list_add base base (list_add y base l))
        (next-list_add_self (list_add y base l) base base ∙ at_end)
insert_loop_tail (suc (suc (suc f))) head base le l (u ∷ us) y g c d h k n =
    insert_loop_skip (suc (suc f)) head base le u l c.0 d.0 (omega arith) (next_u us c.1 d.1)
    ∙ insert_loop_tail (suc (suc f)) head base u l us y (omega arith) c.1 d.1 h.1 k n
  where
    next_u :
        (ws : List ℕ)
        → IsChain l u (ws ++ y ∷ []) head
        → NotIn head (ws ++ y ∷ [])
        → l.next u ≢ head
    next_u [] c' d' e = d'.0 (sym c'.0 ∙ e)
    next_u (w ∷ ws) c' d' e = d'.0 (sym c'.0 ∙ e)

-- The links after inserting `base` behind the last entry: forward it is last, but `prev` of `base`
-- is `base`.
pub record TailInserted (l : Links) (head base : ℕ) (us : List ℕ) (y : ℕ) : Type 0 where
  pub links : Links
  pub result : insert_block head base l ≡ some links
  pub chain : IsChain links head (us ++ y ∷ base ∷ []) head
  pub self_linked : links.prev base ≡ base

pub insert_block-TailInserted :
    (l : Links) (head base : ℕ) (us : List ℕ) (y : ℕ)
    → IsRing l head (us ++ y ∷ [])
    → All (λ u. u < base) us
    → y < base
    → base < head
    → length us + 1 ≤ head
    → TailInserted l head base us y
unfolding insert_block list_empty
insert_block-TailInserted l head base us y r h k n f = record {
  links = list_add base base (list_add y base l);
  result =
      not_empty us r
      ∙ insert_loop_tail (head + 2) head base head l us y (omega arith)
          (IsSeg-IsChain l head (us ++ y ∷ []) head r.seg) r.distinct.0 h k (λ e. omega arith);
  chain =
      IsChain-agree (list_add y base l) (list_add base base (list_add y base l)) head
        (us ++ y ∷ base ∷ []) head (agree (head ∷ us ++ y ∷ base ∷ []))
        (IsSeg-IsChain (list_add y base l) head (us ++ y ∷ base ∷ []) head
          (IsRing-list_add us y [] base r (fresh us h)).seg);
  self_linked = prev-list_add_self (list_add y base l) base;
}
  where
    agree :
        (xs : List ℕ)
        → All (λ x. (list_add base base (list_add y base l)).next x ≡ (list_add y base l).next x) xs
    agree [] = tt
    agree (x ∷ xs) = (next-list_add_self (list_add y base l) base x, agree xs)

    fresh : (ws : List ℕ) → All (λ u. u < base) ws → NotIn base (head ∷ ws ++ y ∷ [])
    fresh [] g = ((λ e. omega arith), ((λ e. omega arith), tt))
    fresh (w ∷ ws) g = ((λ e. omega arith), ((λ e. omega arith), (fresh ws g.1).1))

    not_empty :
        (ws : List ℕ)
        → IsRing l head (ws ++ y ∷ [])
        → insert_block head base l ≡ insert_loop (head + 2) head base head l
    not_empty [] q = rw (ne→== (l.next head) head (λ e. q.distinct.0.0 (sym q.seg.0 ∙ e)))
    not_empty (w ∷ ws) q = rw (ne→== (l.next head) head (λ e. q.distinct.0.0 (sym q.seg.0 ∙ e)))
