-- ===== src/Libs/LinkedList/Insert.antt =====
-- `list_add_before` and `list_add` put one entry where they say, and nothing else moves.
use nku_os_2025_lab.Prelude.{
  ℕ, ◌≡◌, sym, ◌≢◌, ◌∙◌, subst, ap, List, [], ◌∷◌, ◌++◌, All, NotIn, Distinct, last, update,
  update_self, update_ne, All-append_left, All-append_right, append_assoc, append-nil,
}
use nku_os_2025_lab.Libs.LinkedList.{Links, list_add_between, list_add, list_add_before}
use nku_os_2025_lab.Libs.LinkedList.Ring.{
  IsSeg, IsRing, IsSeg-split_left, IsSeg-split_right, IsSeg-join, IsSeg-agree, prev-last, next-last,
}
use nku_os_2025_lab.Libs.LinkedList.Distinct.{
  NotIn-before, NotIn-after, last-NotIn, last-ne_head, Distinct-append_left, Distinct-insert,
}

-- The segment before the gap grows by the entry.
IsSeg-list_add_between_left :
    (l : Links) (a : ℕ) (xs : List ℕ) (e n p : ℕ)
    → p ≡ last a xs
    → IsSeg l a xs n
    → NotIn e (a ∷ xs)
    → n ≢ e
    → NotIn n xs
    → Distinct (a ∷ xs)
    → IsSeg (list_add_between e p n l) a (xs ++ e ∷ []) n
unfolding list_add_between
IsSeg-list_add_between_left l a [] e n p pe s he ne hn d = (
  update_ne (update l.next p e) e n a he.0 ∙ rw pe (update_self l.next a e),
  update_self (update l.prev n e) e p ∙ pe,
  (
    update_self (update l.next p e) e n,
    update_ne (update l.prev n e) e p n ne ∙ update_self l.prev n e,
  ),
)
IsSeg-list_add_between_left l a (x ∷ xs) e n p pe s he ne hn d = (
  update_ne (update l.next p e) e n a he.0
      ∙ update_ne l.next p e a (λ q. last-ne_head a x xs d (q ∙ pe))
      ∙ s.0,
  update_ne (update l.prev n e) e p x he.1.0 ∙ update_ne l.prev n e x hn.0 ∙ s.1,
  IsSeg-list_add_between_left l x xs e n p pe s.2 he.1 ne hn.1 d.1,
)

-- Reads of cells that two updates do not touch.
update_agree₂ :
    (f : ℕ → ℕ) (p v e w : ℕ) (xs : List ℕ)
    → NotIn p xs
    → NotIn e xs
    → All (λ x. update (update f p v) e w x ≡ f x) xs
update_agree₂ f p v e w [] h k = tt
update_agree₂ f p v e w (x ∷ xs) h k =
    (update_ne (update f p v) e w x k.0 ∙ update_ne f p v x h.0, update_agree₂ f p v e w xs h.1 k.1)

IsSeg-list_add_between_right :
    (l : Links) (n : ℕ) (ys : List ℕ) (b e p : ℕ)
    → IsSeg l n ys b
    → NotIn p (n ∷ ys)
    → NotIn e (n ∷ ys)
    → NotIn n (b ∷ ys)
    → b ≢ e
    → IsSeg (list_add_between e p n l) n ys b
unfolding list_add_between
IsSeg-list_add_between_right l n ys b e p s hp he hn hb =
    IsSeg-agree l (list_add_between e p n l) n ys b (update_agree₂ l.next p e e n (n ∷ ys) hp he)
      (update_agree₂ l.prev n e e p (b ∷ ys) hn (hb, he.1)) s

-- A ring that has neither the entry nor its neighbours stays as it is.
pub IsRing-list_add_other :
    (l : Links) (p elm head : ℕ) (zs : List ℕ)
    → NotIn p (head ∷ zs)
    → NotIn (l.next p) (head ∷ zs)
    → NotIn elm (head ∷ zs)
    → IsRing l head zs
    → IsRing (list_add p elm l) head zs
unfolding list_add list_add_between
IsRing-list_add_other l p elm head zs hp hn he r = record {
  seg =
      IsSeg-agree l (list_add p elm l) head zs head
        (update_agree₂ l.next p elm elm (l.next p) (head ∷ zs) hp he)
        (update_agree₂ l.prev (l.next p) elm elm p (head ∷ zs) hn he) r.seg;
  distinct = r.distinct;
}

-- In a well-linked list, adding after an entry is adding before its successor.
pub list_add-eq-list_add_before :
    (l : Links) (p n elm : ℕ)
    → l.next p ≡ n
    → l.prev n ≡ p
    → list_add p elm l ≡ list_add_before n elm l
unfolding list_add list_add_before
list_add-eq-list_add_before l p n elm e f = rw (e, f)

module _ {l : Links} {head : ℕ} where
  -- `list_add_before(le, elm)` puts a new entry `elm` just before the entry `le` of a ring, and
  -- the result is a ring.
  pub IsRing-list_add_before :
      (xs : List ℕ) (le : ℕ) (ys : List ℕ) (elm : ℕ)
      → IsRing l head (xs ++ le ∷ ys)
      → NotIn elm (head ∷ xs ++ le ∷ ys)
      → IsRing (list_add_before le elm l) head (xs ++ elm ∷ le ∷ ys)
  unfolding list_add_before
  IsRing-list_add_before xs le ys elm r fresh =
      let fl : NotIn elm xs = All-append_left (λ z. z ≢ elm) xs (le ∷ ys) fresh.1 in
      let fr : NotIn elm (le ∷ ys) = All-append_right (λ z. z ≢ elm) xs (le ∷ ys) fresh.1 in
      let p : l.prev le ≡ last head xs =
        prev-last l head xs le (IsSeg-split_left l head xs le ys head r.seg) in
      let left : IsSeg (list_add_before le elm l) head (xs ++ elm ∷ []) le =
        IsSeg-list_add_between_left l head xs elm le (l.prev le) p
          (IsSeg-split_left l head xs le ys head r.seg) (fresh.0, fl) fr.0
          (NotIn-before xs le ys r.distinct.1)
          (Distinct-append_left (head ∷ xs) (le ∷ ys) r.distinct) in
      let right : IsSeg (list_add_before le elm l) le ys head =
        IsSeg-list_add_between_right l le ys head elm (l.prev le)
          (IsSeg-split_right l head xs le ys head r.seg)
          (subst (λ w. NotIn w (le ∷ ys)) (sym p) (last-NotIn head xs (le ∷ ys) r.distinct)) fr
          (
            λ q. (All-append_right (λ z. z ≢ head) xs (le ∷ ys) r.distinct.0).0 (sym q),
            NotIn-after xs le ys r.distinct.1,
          )
          fresh.0 in
      record {
        seg =
            rw (append_assoc xs (elm ∷ []) (le ∷ ys)) at
              (IsSeg-join (list_add_before le elm l) head (xs ++ elm ∷ []) le ys head left right);
        distinct = Distinct-insert elm (head ∷ xs) (le ∷ ys) r.distinct (fresh.0, fl) fr;
      }

  -- Before the head is at the end of the list.
  pub IsRing-list_add_tail :
      (xs : List ℕ) (elm : ℕ)
      → IsRing l head xs
      → NotIn elm (head ∷ xs)
      → IsRing (list_add_before head elm l) head (xs ++ elm ∷ [])
  unfolding list_add_before
  IsRing-list_add_tail xs elm r fresh = record {
    seg =
        IsSeg-list_add_between_left l head xs elm head (l.prev head)
          (prev-last l head xs head r.seg) r.seg fresh fresh.0 r.distinct.0 r.distinct;
    distinct =
        Distinct-insert elm (head ∷ xs) []
          (subst Distinct (sym (append-nil (head ∷ xs))) r.distinct) fresh tt;
  }

  -- `list_add(le, elm)` puts a new entry `elm` just after the entry `le` of a ring, and the result
  -- is a ring.
  pub IsRing-list_add :
      (xs : List ℕ) (le : ℕ) (ys : List ℕ) (elm : ℕ)
      → IsRing l head (xs ++ le ∷ ys)
      → NotIn elm (head ∷ xs ++ le ∷ ys)
      → IsRing (list_add le elm l) head (xs ++ le ∷ elm ∷ ys)
  IsRing-list_add xs le [] elm r fresh =
      let s : IsSeg l le [] head = IsSeg-split_right l head xs le [] head r.seg in
      rw (list_add-eq-list_add_before l le head elm s.0 s.1) (
        rw (append_assoc xs (le ∷ []) (elm ∷ [])) at
          (IsRing-list_add_tail (xs ++ le ∷ []) elm r fresh))
  IsRing-list_add xs le (y ∷ ys) elm r fresh =
      let s : IsSeg l le (y ∷ ys) head = IsSeg-split_right l head xs le (y ∷ ys) head r.seg in
      rw (list_add-eq-list_add_before l le y elm s.0 s.1) (
        rw (append_assoc xs (le ∷ []) (elm ∷ y ∷ ys)) at (
          IsRing-list_add_before (xs ++ le ∷ []) y ys elm
            (rw (← append_assoc xs (le ∷ []) (y ∷ ys)) at r)
            (subst (λ w. NotIn elm (head ∷ w)) (sym (append_assoc xs (le ∷ []) (y ∷ ys))) fresh)))

  -- The same with the place given by the entries before it, none of them at the front.
  pub IsRing-list_add-last :
      (ys zs : List ℕ) (p elm : ℕ)
      → p ≡ last head ys
      → IsRing l head (ys ++ zs)
      → NotIn elm (head ∷ ys ++ zs)
      → IsRing (list_add p elm l) head (ys ++ elm ∷ zs)
  IsRing-list_add-last ys [] p elm e r fresh =
      let r' : IsRing l head ys = subst (λ w. IsRing l head w) (append-nil ys) r in
      rw
        (list_add-eq-list_add_before l p head elm (ap l.next e ∙ next-last l head ys head r'.seg)
          (prev-last l head ys head r'.seg ∙ sym e))
        (IsRing-list_add_tail ys elm r' (subst (λ w. NotIn elm (head ∷ w)) (append-nil ys) fresh))
  IsRing-list_add-last ys (z ∷ zs) p elm e r fresh =
      let s : IsSeg l head ys z = IsSeg-split_left l head ys z zs head r.seg in
      rw
        (list_add-eq-list_add_before l p z elm (ap l.next e ∙ next-last l head ys z s)
          (prev-last l head ys z s ∙ sym e))
        (IsRing-list_add_before ys z zs elm r fresh)

  -- `list_add(head, elm)` puts `elm` first.
  pub IsRing-list_add_head :
      (xs : List ℕ) (elm : ℕ)
      → IsRing l head xs
      → NotIn elm (head ∷ xs)
      → IsRing (list_add head elm l) head (elm ∷ xs)
  IsRing-list_add_head [] elm r fresh =
      rw (list_add-eq-list_add_before l head head elm r.seg.0 r.seg.1)
        (IsRing-list_add_tail [] elm r fresh)
  IsRing-list_add_head (x ∷ xs) elm r fresh =
      rw (list_add-eq-list_add_before l head x elm r.seg.0 r.seg.1)
        (IsRing-list_add_before [] x xs elm r fresh)
