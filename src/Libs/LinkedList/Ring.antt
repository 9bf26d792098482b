-- ===== src/Libs/LinkedList/Ring.antt =====
-- The sequence of entries that a ring of list.h holds: segments of links, cut and joined.
use nku_os_2025_lab.Prelude.{
  ℕ, ◌≡◌, ◌∙◌, List, [], ◌∷◌, ◌++◌, All, NotIn, Distinct, last, update, update_ne,
}
use nku_os_2025_lab.Libs.LinkedList.{Links}

-- From `a` the forward links lead through `xs` to `b`, and the backward links lead back.
abbrev pub IsSeg : Links → ℕ → List ℕ → ℕ → Type 0
IsSeg l a [] b = (l.next a ≡ b) × (l.prev b ≡ a)
IsSeg l a (x ∷ xs) b = (l.next a ≡ x) × (l.prev x ≡ a) × IsSeg l x xs b

-- The forward links alone.
abbrev pub IsChain : Links → ℕ → List ℕ → ℕ → Type 0
IsChain l a [] b = l.next a ≡ b
IsChain l a (x ∷ xs) b = (l.next a ≡ x) × IsChain l x xs b

-- The list at `head` holds the entries `xs`, in this order.
pub record IsRing (l : Links) (head : ℕ) (xs : List ℕ) : Type 0 where
  pub seg : IsSeg l head xs head
  pub distinct : Distinct (head ∷ xs)

pub IsSeg-IsChain : (l : Links) (a : ℕ) (xs : List ℕ) (b : ℕ) → IsSeg l a xs b → IsChain l a xs b
IsSeg-IsChain l a [] b s = s.0
IsSeg-IsChain l a (x ∷ xs) b s = (s.0, IsSeg-IsChain l x xs b s.2)

-- Cutting and joining a segment at one of its entries.
pub IsSeg-split_left :
    (l : Links) (a : ℕ) (xs : List ℕ) (y : ℕ) (ys : List ℕ) (b : ℕ)
    → IsSeg l a (xs ++ y ∷ ys) b
    → IsSeg l a xs y
IsSeg-split_left l a [] y ys b s = (s.0, s.1)
IsSeg-split_left l a (x ∷ xs) y ys b s = (s.0, s.1, IsSeg-split_left l x xs y ys b s.2)

pub IsSeg-split_right :
    (l : Links) (a : ℕ) (xs : List ℕ) (y : ℕ) (ys : List ℕ) (b : ℕ)
    → IsSeg l a (xs ++ y ∷ ys) b
    → IsSeg l y ys b
IsSeg-split_right l a [] y ys b s = s.2
IsSeg-split_right l a (x ∷ xs) y ys b s = IsSeg-split_right l x xs y ys b s.2

pub IsSeg-join :
    (l : Links) (a : ℕ) (xs : List ℕ) (y : ℕ) (ys : List ℕ) (b : ℕ)
    → IsSeg l a xs y
    → IsSeg l y ys b
    → IsSeg l a (xs ++ y ∷ ys) b
IsSeg-join l a [] y ys b s t = (s.0, s.1, t)
IsSeg-join l a (x ∷ xs) y ys b s t = (s.0, s.1, IsSeg-join l x xs y ys b s.2 t)

pub prev-last : (l : Links) (a : ℕ) (xs : List ℕ) (b : ℕ) → IsSeg l a xs b → l.prev b ≡ last a xs
prev-last l a [] b s = s.1
prev-last l a (x ∷ xs) b s = prev-last l x xs b s.2

pub next-last : (l : Links) (a : ℕ) (xs : List ℕ) (b : ℕ) → IsSeg l a xs b → l.next (last a xs) ≡ b
next-last l a [] b s = s.0
next-last l a (x ∷ xs) b s = next-last l x xs b s.2

-- A segment reads `next` at `a ∷ xs` and `prev` at `xs` and `b`: a store that agrees there has it
-- too.
pub IsSeg-agree :
    (l m : Links) (a : ℕ) (xs : List ℕ) (b : ℕ)
    → All (λ x. m.next x ≡ l.next x) (a ∷ xs)
    → All (λ x. m.prev x ≡ l.prev x) (b ∷ xs)
    → IsSeg l a xs b
    → IsSeg m a xs b
IsSeg-agree l m a [] b n p s = (n.0 ∙ s.0, p.0 ∙ s.1)
IsSeg-agree l m a (x ∷ xs) b n p s =
    (n.0 ∙ s.0, p.1.0 ∙ s.1, IsSeg-agree l m x xs b n.1 (p.0, p.1.1) s.2)

-- Writes to cells that the list does not name.
pub update_agree :
    (f : ℕ → ℕ) (p v : ℕ) (xs : List ℕ) → NotIn p xs → All (λ x. update f p v x ≡ f x) xs
update_agree f p v [] h = tt
update_agree f p v (x ∷ xs) h = (update_ne f p v x h.0, update_agree f p v xs h.1)

-- A chain reads `next` at `a ∷ xs`.
pub IsChain-agree :
    (l m : Links) (a : ℕ) (xs : List ℕ) (b : ℕ)
    → All (λ x. m.next x ≡ l.next x) (a ∷ xs)
    → IsChain l a xs b
    → IsChain m a xs b
IsChain-agree l m a [] b h c = h.0 ∙ c
IsChain-agree l m a (x ∷ xs) b h c = (h.0 ∙ c.0, IsChain-agree l m x xs b h.1 c.1)

pub IsChain-split_left :
    (l : Links) (a : ℕ) (xs : List ℕ) (y : ℕ) (ys : List ℕ) (b : ℕ)
    → IsChain l a (xs ++ y ∷ ys) b
    → IsChain l a xs y
IsChain-split_left l a [] y ys b c = c.0
IsChain-split_left l a (x ∷ xs) y ys b c = (c.0, IsChain-split_left l x xs y ys b c.1)

pub IsChain-split_right :
    (l : Links) (a : ℕ) (xs : List ℕ) (y : ℕ) (ys : List ℕ) (b : ℕ)
    → IsChain l a (xs ++ y ∷ ys) b
    → IsChain l y ys b
IsChain-split_right l a [] y ys b c = c.1
IsChain-split_right l a (x ∷ xs) y ys b c = IsChain-split_right l x xs y ys b c.1
