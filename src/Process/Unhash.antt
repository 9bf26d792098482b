-- ===== src/Process/Unhash.antt =====
-- Taking an entry out of its bucket keeps the hash table.
use nku_os_2025_lab.Prelude.{
  ℕ, ◌+◌, ◌<◌, ◌≡◌, ◌≢◌, refl, sym, ap, subst, inl, inr, List, [], ◌∷◌, ◌++◌, arith, All, All-map,
  All-both, Among, Among-All, NotIn, Distinct, last, map, update, update_self, update_ne,
}
use native.Mathlib.Decide.{ℕ_discrete}
use nku_os_2025_lab.Libs.LinkedList.{Links, list_del}
use nku_os_2025_lab.Libs.LinkedList.Ring.{IsRing, IsSeg-split_left, IsSeg-split_right, prev-last}
use nku_os_2025_lab.Libs.LinkedList.Distinct.{NotIn-before, NotIn-after}
use nku_os_2025_lab.Libs.LinkedList.Remove.{IsRing-list_del, IsRing-list_del_other}
use nku_os_2025_lab.Process.{pid_hashfn}
use nku_os_2025_lab.Process.Buckets.{
  IsTable, IsEntry, hash_list_size, pid_hashfn-lt, header_ne, other_bucket,
}

module _ {ℓ} (P : ℕ → Type ℓ) where
  pub All-remove : (ys : List ℕ) (x : ℕ) (zs : List ℕ) → All P (ys ++ x ∷ zs) → All P (ys ++ zs)
  All-remove [] x zs h = h.1
  All-remove (y ∷ ys) x zs h = (h.0, All-remove ys x zs h.1)

pub Among-remove : (a x : ℕ) (ys zs : List ℕ) → a ≢ x → Among a (ys ++ x ∷ zs) → Among a (ys ++ zs)
Among-remove a x [] zs n i = elim i [ inl e ↦ absurd (n e) | inr j ↦ j ]
Among-remove a x (y ∷ ys) zs n i = elim i [
  | inl e ↦ inl e
  | inr j ↦ inr (Among-remove a x ys zs n j)
]

pub Among-at : (x : ℕ) (ys zs : List ℕ) → Among x (ys ++ x ∷ zs)
Among-at x [] zs = inl refl
Among-at x (y ∷ ys) zs = inr (Among-at x ys zs)

pub Among-split :
    (x : ℕ) (xs : List ℕ) → Among x xs → (ys : List ℕ) × (zs : List ℕ) × (xs ≡ ys ++ x ∷ zs)
Among-split x [] i = absurd i
Among-split x (y ∷ ys) i = elim i [
  | inl e ↦ ([], ys, ap (λ w. w ∷ ys) (sym e))
  | inr j ↦ let s = Among-split x ys j in (y ∷ s.0, s.1, ap (λ w. y ∷ w) s.2)
]

pub Distinct-map_remove :
    (f : ℕ → ℕ) (ys : List ℕ) (x : ℕ) (zs : List ℕ)
    → Distinct (map f (ys ++ x ∷ zs))
    → Distinct (map f (ys ++ zs))
Distinct-map_remove f [] x zs d = d.1
Distinct-map_remove f (y ∷ ys) x zs d = (apart ys d.0, Distinct-map_remove f ys x zs d.1)
  where
    apart : (ws : List ℕ) → NotIn (f y) (map f (ws ++ x ∷ zs)) → NotIn (f y) (map f (ws ++ zs))
    apart [] h = h.1
    apart (w ∷ ws) h = (h.0, apart ws h.1)

-- In a ring of distinct entries, the others are not the one.
pub others_ne :
    (l : Links) (head : ℕ) (ys : List ℕ) (x : ℕ) (zs : List ℕ)
    → IsRing l head (ys ++ x ∷ zs)
    → All (λ y. y ≢ x) (ys ++ zs)
others_ne l head ys x zs r = append_all ys (NotIn-before ys x zs r.distinct.1)
  where
    append_all : (ws : List ℕ) → NotIn x ws → All (λ y. y ≢ x) (ws ++ zs)
    append_all [] h = NotIn-after ys x zs r.distinct.1
    append_all (w ∷ ws) h = (h.0, append_all ws h.1)

Among-last : (a : ℕ) (ys zs : List ℕ) → Among (last a ys) (a ∷ ys ++ zs)
Among-last a [] zs = inl refl
Among-last a (y ∷ ys) zs = inr (Among-last y ys zs)

-- The neighbours of an entry are in its ring.
Among-prev :
    (l : Links) (head : ℕ) (ys : List ℕ) (x : ℕ) (zs : List ℕ)
    → IsRing l head (ys ++ x ∷ zs)
    → Among (l.prev x) (head ∷ ys ++ x ∷ zs)
Among-prev l head ys x zs r =
    subst (λ w. Among w (head ∷ ys ++ x ∷ zs))
      (sym (prev-last l head ys x (IsSeg-split_left l head ys x zs head r.seg)))
      (Among-last head ys (x ∷ zs))

Among-next :
    (l : Links) (head : ℕ) (ys : List ℕ) (x : ℕ) (zs : List ℕ)
    → IsRing l head (ys ++ x ∷ zs)
    → Among (l.next x) (head ∷ ys ++ x ∷ zs)
Among-next l head ys x [] r = inl (IsSeg-split_right l head ys x [] head r.seg).0
Among-next l head ys x (z ∷ zs) r = inr (
    subst (λ w. Among w (ys ++ x ∷ z ∷ zs))
      (sym (IsSeg-split_right l head ys x (z ∷ zs) head r.seg).0) (behind ys))
  where
    behind : (ws : List ℕ) → Among z (ws ++ x ∷ z ∷ zs)
    behind [] = inr (inl refl)
    behind (w ∷ ws) = inr (behind ws)

module _ (base : ℕ) (links : Links) (pid : ℕ → ℕ) (buckets : ℕ → List ℕ)
    (v : IsTable base links pid buckets) where
  -- The entries of one bucket, and its header, are in no other.
  bucket_apart :
      (b c : ℕ)
      → b < hash_list_size
      → c < hash_list_size
      → b ≢ c
      → All (λ w. NotIn w ((base + b) ∷ buckets b)) ((base + c) ∷ buckets c)
  bucket_apart b c h k n = (
    (
      (λ q. n (omega arith)),
      All-map _ _ (buckets b) (λ x (i : IsEntry base x) q. header_ne base c x k i (sym q))
          (v.entries b),
    ),
    All-both (buckets c) (v.entries c) (v.hashed c)
        (λ w i e. (header_ne base b w h i, other_bucket pid b c w (buckets b) n e (v.hashed b))),
  )

  module _ (proc : ℕ) (ys zs : List ℕ)
      (split : buckets (pid_hashfn (pid proc)) ≡ ys ++ proc ∷ zs) where
    abbrev bucket : ℕ
    bucket = pid_hashfn (pid proc)

    -- The table without the process.
    abbrev pub narrower : ℕ → List ℕ
    narrower = update buckets bucket (ys ++ zs)

    pub mine : IsRing links (base + bucket) (ys ++ proc ∷ zs)
    mine = subst (IsRing links (base + bucket)) split (v.rings bucket (pid_hashfn-lt (pid proc)))

    -- What holds of the entries of every bucket still does.
    pub at_bucket :
        (P : ℕ → ℕ → Type 0) → ((b : ℕ) → All (P b) (buckets b)) → (b : ℕ) → All (P b) (narrower b)
    at_bucket P k b = elim (ℕ_discrete b bucket) [
      | yes e ↦
          subst (λ w. All (P w) (narrower w)) (sym e)
            (subst (All (P bucket)) (sym (update_self buckets bucket (ys ++ zs)))
              (All-remove (P bucket) ys proc zs (subst (All (P bucket)) split (k bucket))))
      | no n ↦ subst (All (P b)) (sym (update_ne buckets bucket (ys ++ zs) b n)) (k b)
    ]

    neighbour :
        (b w : ℕ)
        → b < hash_list_size
        → b ≢ bucket
        → Among w ((base + bucket) ∷ ys ++ proc ∷ zs)
        → NotIn w ((base + b) ∷ buckets b)
    neighbour b w h n i =
        Among-All (λ u. NotIn u ((base + b) ∷ buckets b)) w ((base + bucket) ∷ buckets bucket)
          (subst (λ us. Among w ((base + bucket) ∷ us)) (sym split) i)
          (bucket_apart b bucket h (pid_hashfn-lt (pid proc)) n)

    pub IsTable-list_del : IsTable base (list_del proc links) pid narrower
    IsTable-list_del = record {
      rings = λ b h. elim (ℕ_discrete b bucket) [
        | yes e ↦
            subst (λ w. IsRing (list_del proc links) (base + w) (narrower w)) (sym e)
              (subst (IsRing (list_del proc links) (base + bucket))
                (sym (update_self buckets bucket (ys ++ zs))) (IsRing-list_del ys proc zs mine))
        | no n ↦
            subst (IsRing (list_del proc links) (base + b))
              (sym (update_ne buckets bucket (ys ++ zs) b n))
              (IsRing-list_del_other links proc (base + b) (buckets b)
                (neighbour b (links.prev proc) h n
                  (Among-prev links (base + bucket) ys proc zs mine))
                (neighbour b (links.next proc) h n
                  (Among-next links (base + bucket) ys proc zs mine))
                (v.rings b h))
      ];
      hashed = at_bucket (λ b x. pid_hashfn (pid x) ≡ b) v.hashed;
      entries = at_bucket (λ b. IsEntry base) v.entries;
      present = at_bucket (λ b x. x ≢ 0) v.present;
    }
