-- ===== src/Libs/LinkedList/Remove.antt =====
-- `list_del` and `list_del_init` take one entry out of a ring, and nothing else moves.
use nku_os_2025_lab.Prelude.{
  ℕ, ◌≡◌, refl, sym, ◌≢◌, ◌∙◌, subst, append-nil, ◌↔◌, true, ==→eq, All-append, List, [], ◌∷◌, ◌++◌,
  NotIn, Distinct, last, update_self, update_ne, All-append_left, All-append_right, eq→==,
}
use nku_os_2025_lab.Libs.LinkedList.{
  Links, list_init, list_del_between, list_del, list_del_init, list_empty,
}
use nku_os_2025_lab.Libs.LinkedList.Ring.{
  IsSeg, IsRing, IsSeg-split_left, IsSeg-split_right, IsSeg-join, IsSeg-agree, prev-last,
  update_agree,
}
use nku_os_2025_lab.Libs.LinkedList.Distinct.{
  NotIn-before, NotIn-after, last-NotIn, last-ne_head, Distinct-append_left, Distinct-remove,
}

-- The segment before the removed entry now ends at its successor.
IsSeg-retarget :
    (l : Links) (a : ℕ) (xs : List ℕ) (y n p : ℕ)
    → p ≡ last a xs
    → IsSeg l a xs y
    → NotIn n xs
    → Distinct (a ∷ xs)
    → IsSeg (list_del_between p n l) a xs n
unfolding list_del_between
IsSeg-retarget l a [] y n p pe s hn d =
    (rw pe (update_self l.next a n), update_self l.prev n p ∙ pe)
IsSeg-retarget l a (x ∷ xs) y n p pe s hn d = (
  update_ne l.next p n a (λ q. last-ne_head a x xs d (q ∙ pe)) ∙ s.0,
  update_ne l.prev n p x hn.0 ∙ s.1,
  IsSeg-retarget l x xs y n p pe s.2 hn.1 d.1,
)

module _ {l : Links} {head : ℕ} where
  -- `list_del(elm)` removes the entry from the ring that holds it.
  pub IsRing-list_del :
      (xs : List ℕ) (elm : ℕ) (ys : List ℕ)
      → IsRing l head (xs ++ elm ∷ ys)
      → IsRing (list_del elm l) head (xs ++ ys)
  unfolding list_del
  IsRing-list_del xs elm [] r =
      let left : IsSeg l head xs elm = IsSeg-split_left l head xs elm [] head r.seg in
      let right : IsSeg l elm [] head = IsSeg-split_right l head xs elm [] head r.seg in
      let p : l.prev elm ≡ last head xs = prev-last l head xs elm left in
      record {
        seg =
            subst (λ w. IsSeg w head (xs ++ []) head)
              (λ i. list_del_between (l.prev elm) (sym right.0 i) l)
              (subst (λ w. IsSeg (list_del_between (l.prev elm) head l) head w head)
                (sym (append-nil xs))
                (IsSeg-retarget l head xs elm head (l.prev elm) p left
                  (All-append_left (λ z. z ≢ head) xs (elm ∷ []) r.distinct.0)
                  (Distinct-append_left (head ∷ xs) (elm ∷ []) r.distinct)));
        distinct = Distinct-remove (head ∷ xs) elm [] r.distinct;
      }
  IsRing-list_del xs elm (y ∷ ys) r =
      let left : IsSeg l head xs elm = IsSeg-split_left l head xs elm (y ∷ ys) head r.seg in
      let right : IsSeg l elm (y ∷ ys) head = IsSeg-split_right l head xs elm (y ∷ ys) head r.seg in
      let p : l.prev elm ≡ last head xs = prev-last l head xs elm left in
      let d : Distinct (head ∷ xs ++ y ∷ ys) =
        Distinct-remove (head ∷ xs) elm (y ∷ ys) r.distinct in
      let before : IsSeg (list_del_between (l.prev elm) y l) head xs y =
        IsSeg-retarget l head xs elm y (l.prev elm) p left (NotIn-before xs y ys d.1)
          (Distinct-append_left (head ∷ xs) (y ∷ ys) d) in
      let after : IsSeg (list_del_between (l.prev elm) y l) y ys head =
        unfold list_del_between in
        IsSeg-agree l (list_del_between (l.prev elm) y l) y ys head
          (update_agree l.next (l.prev elm) y (y ∷ ys)
            (subst (λ w. NotIn w (y ∷ ys)) (sym p) (last-NotIn head xs (y ∷ ys) d)))
          (update_agree l.prev y (l.prev elm) (head ∷ ys) (
            λ q. (All-append_right (λ z. z ≢ head) xs (y ∷ ys) d.0).0 (sym q),
            NotIn-after xs y ys d.1,
          ))
          right.2 in
      record {
        seg =
            subst (λ w. IsSeg w head (xs ++ y ∷ ys) head)
              (λ i. list_del_between (l.prev elm) (sym right.0 i) l)
              (IsSeg-join (list_del_between (l.prev elm) y l) head xs y ys head before after);
        distinct = d;
      }

-- `list_init` makes an empty ring.
pub IsRing-list_init : (l : Links) (head : ℕ) → IsRing (list_init head l) head []
unfolding list_init
IsRing-list_init l head = record {
  seg = (update_self l.next head head, update_self l.prev head head);
  distinct = (tt, tt);
}

-- A ring that has neither neighbour of the entry stays as it is.
pub IsRing-list_del_other :
    (l : Links) (elm head : ℕ) (zs : List ℕ)
    → NotIn (l.prev elm) (head ∷ zs)
    → NotIn (l.next elm) (head ∷ zs)
    → IsRing l head zs
    → IsRing (list_del elm l) head zs
unfolding list_del list_del_between
IsRing-list_del_other l elm head zs p n r = record {
  seg =
      IsSeg-agree l (list_del elm l) head zs head
        (update_agree l.next (l.prev elm) (l.next elm) (head ∷ zs) p)
        (update_agree l.prev (l.next elm) (l.prev elm) (head ∷ zs) n) r.seg;
  distinct = r.distinct;
}

pub IsSeg-list_init :
    (m : Links) (elm a : ℕ) (xs : List ℕ) (b : ℕ)
    → NotIn elm (a ∷ xs)
    → b ≢ elm
    → IsSeg m a xs b
    → IsSeg (list_init elm m) a xs b
unfolding list_init
IsSeg-list_init m elm a xs b h k s =
    IsSeg-agree m (list_init elm m) a xs b (update_agree m.next elm elm (a ∷ xs) h)
      (update_agree m.prev elm elm (b ∷ xs) (k, h.1)) s

module _ {l : Links} {head : ℕ} where
  -- The list at `head` tests empty exactly when it holds no entry.
  pub list_empty-iff_nil : (xs : List ℕ) → IsRing l head xs → (list_empty head l ≡ true) ↔ (xs ≡ [])
  unfolding list_empty
  list_empty-iff_nil [] r = (λ h. refl, λ h. eq→== _ _ r.seg.0)
  list_empty-iff_nil (x ∷ xs) r =
      (λ h. absurd (r.distinct.0.0 (sym r.seg.0 ∙ ==→eq _ _ h)), λ h. cc)

  -- `list_del_init(elm)` removes the entry from its ring, which stays a ring, and the entry is
  -- then an empty list.
  pub IsRing-list_del_init :
      (xs : List ℕ) (elm : ℕ) (ys : List ℕ)
      → IsRing l head (xs ++ elm ∷ ys)
      → IsRing (list_del_init elm l) head (xs ++ ys) × (list_empty elm (list_del_init elm l) ≡ true)
  unfolding list_del_init list_empty
  IsRing-list_del_init xs elm ys r =
      let gone : IsRing (list_del elm l) head (xs ++ ys) = IsRing-list_del xs elm ys r in
      let apart : NotIn elm (head ∷ xs ++ ys) = (
        λ q. (All-append_right (λ z. z ≢ head) xs (elm ∷ ys) r.distinct.0).0 (sym q),
        All-append (λ z. z ≢ elm) xs ys (NotIn-before xs elm ys r.distinct.1)
            (NotIn-after xs elm ys r.distinct.1),
      ) in
      (
        record {
          seg = IsSeg-list_init (list_del elm l) elm head (xs ++ ys) head apart apart.0 gone.seg;
          distinct = gone.distinct;
        },
        eq→== _ _ (update_self (list_del elm l).next elm elm),
      )
