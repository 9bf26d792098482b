-- ===== src/Sched/Pooled/Order.antt =====
-- The heap order of a pool: the root is least, and writes to what `comp` does not read keep it.
use nku_os_2025_lab.Prelude.{
  ℕ, ◌≡◌, ◌≢◌, refl, subst, ◌∙◌, Bool, false, List, [], ◌∷◌, ◌++◌, All, All-map, All-append,
  All-append_left, All-append_right, NotIn, Perm, NotIn-perm,
}
use nku_os_2025_lab.Libs.SkewHeap.Tree.{Tree, leaf, node, nodes, AllNodes, IsHeap}

-- What holds of the nodes of a tree, as a list or as a tree.
pub AllNodes-All {ℓ} : (P : ℕ → Type ℓ) (t : Tree) → AllNodes P t → All P (nodes t)
AllNodes-All P leaf h = tt
AllNodes-All P (node l x r) h =
    (h.0, All-append P (nodes l) (nodes r) (AllNodes-All P l h.1) (AllNodes-All P r h.2))

pub All-AllNodes {ℓ} : (P : ℕ → Type ℓ) (t : Tree) → All P (nodes t) → AllNodes P t
All-AllNodes P leaf h = tt
All-AllNodes P (node l x r) h = (
  h.0,
  All-AllNodes P l (All-append_left P (nodes l) (nodes r) h.1),
  All-AllNodes P r (All-append_right P (nodes l) (nodes r) h.1),
)

-- A decidable predicate moves along a list with no item that another has not.
All-absent {ℓ} :
    (P : ℕ → Type ℓ) (dec : (z : ℕ) → Dec (P z)) (ys : List ℕ)
    → ((z : ℕ) → (P z → ⊥) → NotIn z ys)
    → All P ys
All-absent P dec [] h = tt
All-absent P dec (y ∷ ys) h = elim (dec y) [
  | yes p ↦ (p, All-absent P dec ys (λ z n. (h z n).1))
  | no n ↦ absurd ((h y n).0 refl)
]

pub All-perm {ℓ} :
    (P : ℕ → Type ℓ) (dec : (z : ℕ) → Dec (P z)) {xs ys : List ℕ} → Perm xs ys → All P xs → All P ys
All-perm P dec {xs} {ys} p h =
    All-absent P dec ys
      (λ z n. NotIn-perm z p (All-map P _ xs (λ x (q : P x) e. n (subst P e q)) h))

pub root_least :
    (less : ℕ → ℕ → Bool) (l : Tree) (x : ℕ) (r : Tree)
    → IsHeap less (node l x r)
    → All (λ y. less y x ≡ false) (nodes l ++ nodes r)
root_least less l x r h =
    All-append _ (nodes l) (nodes r) (AllNodes-All _ l h.0) (AllNodes-All _ r h.1)

-- `less` and `more` agree on pairs of items other than `x`.
abbrev pub AgreeBut : ℕ → (ℕ → ℕ → Bool) → (ℕ → ℕ → Bool) → Type 0
AgreeBut x less more = (a b : ℕ) → a ≢ x → b ≢ x → more a b ≡ less a b

above-agree :
    (x : ℕ) (less more : ℕ → ℕ → Bool)
    → AgreeBut x less more
    → (y : ℕ) (t : Tree) → y ≢ x
    → NotIn x (nodes t)
    → AllNodes (λ z. less z y ≡ false) t
    → AllNodes (λ z. more z y ≡ false) t
above-agree x less more g y leaf n k h = tt
above-agree x less more g y (node l z r) n k h = (
  g z y k.0 n ∙ h.0,
  above-agree x less more g y l n (All-append_left _ (nodes l) (nodes r) k.1) h.1,
  above-agree x less more g y r n (All-append_right _ (nodes l) (nodes r) k.1) h.2,
)

pub IsHeap-agree :
    (x : ℕ) (less more : ℕ → ℕ → Bool)
    → AgreeBut x less more
    → (t : Tree) → NotIn x (nodes t)
    → IsHeap less t
    → IsHeap more t
IsHeap-agree x less more g leaf k h = tt
IsHeap-agree x less more g (node l y r) k h =
    let kl = All-append_left _ (nodes l) (nodes r) k.1 in
    let kr = All-append_right _ (nodes l) (nodes r) k.1 in
    (
      above-agree x less more g y l k.0 kl h.0,
      above-agree x less more g y r k.0 kr h.1,
      IsHeap-agree x less more g l kl h.2,
      IsHeap-agree x less more g r kr h.3,
    )
