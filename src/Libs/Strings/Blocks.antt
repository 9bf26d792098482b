-- ===== src/Libs/Strings/Blocks.antt =====
-- Copying and comparing blocks of memory.
use nku_os_2025_lab.Prelude.{
  ℕ, zero, suc, ◌+◌, ◌-◌, ◌<◌, ◌≤◌, ◌≡◌, ◌≢◌, ◌⊎◌, inl, inr, ◌∙◌, refl, sym, ap, ap₂, arith,
  Bool-cases, update, update_ne, update_self, ltb, ◌&&◌, ◌==◌, ==→eq, ==→ne,
}
use native.Mathlib.Decide.{ℕ_discrete}
use nku_os_2025_lab.Prelude.Int.{ℤ, sub_ℕ}
use nku_os_2025_lab.Libs.Strings.{Memory, memset, memcpy, move_up, move_down, memmove, memcmp}

-- `w` is `m` with the `n` bytes at `src`, as they are in `m`, also at `dst`.
pub record Copied (dst src n : ℕ) (m w : Memory) : Type 0 where
  pub inside : (k : ℕ) → k < n → w (dst + k) ≡ m (src + k)
  pub outside : (x : ℕ) → (x < dst) ⊎ (dst + n ≤ x) → w x ≡ m x

pub move_up-Copied :
    (d s n : ℕ) (m : Memory) → (d ≤ s) ⊎ (s + n ≤ d) → Copied d s n m (move_up d s n m)
unfolding move_up
move_up-Copied d s zero m o = record { inside = λ k h. absurd (omega arith); outside = λ x h. refl }
move_up-Copied d s (suc n) m o =
    let c = move_up-Copied (d + 1) (s + 1) n (update m d (m s)) (omega arith) in
    let w = move_up (d + 1) (s + 1) n (update m d (m s)) in
    record {
      inside = λ k h. elim (ℕ_discrete k 0) [
        | yes e ↦
            let a : (d + k ≡ d) = omega arith in
            let b : (s ≡ s + k) = omega arith in
            ap w a ∙ c.outside d (omega arith) ∙ update_self m d (m s) ∙ ap m b
        | no n ↦
            let a : (d + k ≡ d + 1 + (k - 1)) = omega arith in
            let b : (s + 1 + (k - 1) ≡ s + k) = omega arith in
            ap w a
            ∙ c.inside (k - 1) (omega arith)
            ∙ update_ne m d (m s) (s + 1 + (k - 1)) (omega arith)
            ∙ ap m b
      ];
      outside = λ x h. c.outside x (omega arith) ∙ update_ne m d (m s) x (omega arith);
    }

move_down-Copied : (d s n : ℕ) (m : Memory) → s ≤ d → Copied d s n m (move_down (d + n) (s + n) n m)
unfolding move_down
move_down-Copied d s zero m o = record {
  inside = λ k h. absurd (omega arith);
  outside = λ x h. refl;
}
move_down-Copied d s (suc n) m o =
    let dn : (d + suc n - 1 ≡ d + n) = omega arith in
    let sn : (s + suc n - 1 ≡ s + n) = omega arith in
    let v = update m (d + n) (m (s + n)) in
    let w = move_down (d + n) (s + n) n v in
    let c = move_down-Copied d s n v o in
    let r : Copied d s (suc n) m w = record {
      inside = λ k h. elim (ℕ_discrete k n) [
        | yes e ↦
            let a : (d + k ≡ d + n) = omega arith in
            let b : (s + n ≡ s + k) = omega arith in
            ap w a ∙ c.outside (d + n) (omega arith) ∙ update_self m (d + n) (m (s + n)) ∙ ap m b
        | no l ↦ c.inside k (omega arith) ∙ update_ne m (d + n) (m (s + n)) (s + k) (omega arith)
      ];
      outside = λ x h. c.outside x (omega arith) ∙ update_ne m (d + n) (m (s + n)) x (omega arith);
    } in
    rw (dn, sn) r

-- `memmove` copies the `n` bytes at `src` to `dst`, as they were before the call, however the two
-- blocks overlap, and changes nothing else.
pub memmove-Copied : (dst src n : ℕ) (m : Memory) → Copied dst src n m (memmove dst src n m)
unfolding memmove
memmove-Copied dst src n m = elim (Bool-cases (ltb src dst && ltb dst (src + n))) [
  | inl e ↦ rw e (move_down-Copied dst src n m (ground arith))
  | inr e ↦ rw e (move_up-Copied dst src n m (ground arith))
]

memcpy-move_up : (d s n : ℕ) (m : Memory) → memcpy d s n m ≡ move_up d s n m
unfolding memcpy move_up
memcpy-move_up d s zero m = refl
memcpy-move_up d s (suc n) m = memcpy-move_up (d + 1) (s + 1) n (update m d (m s))

-- `memcpy` copies as `memmove` does where the destination does not begin inside the source block
-- behind its first byte.
pub memcpy-Copied :
    (dst src n : ℕ) (m : Memory)
    → (dst ≤ src) ⊎ (src + n ≤ dst)
    → Copied dst src n m (memcpy dst src n m)
memcpy-Copied dst src n m o = rw (memcpy-move_up dst src n m) (move_up-Copied dst src n m o)

-- `memset` writes `c` to the `n` bytes at `s`, and changes nothing else.
pub memset-fills :
    (s c n : ℕ) (m : Memory)
    → ((k : ℕ) → k < n → memset s c n m (s + k) ≡ c)
      × ((x : ℕ) → (x < s) ⊎ (s + n ≤ x) → memset s c n m x ≡ m x)
unfolding memset
memset-fills s c zero m = (λ k h. absurd (omega arith), λ x h. refl)
memset-fills s c (suc n) m =
    let r = memset-fills (s + 1) c n (update m s c) in
    let w = memset (s + 1) c n (update m s c) in
    (
      λ k h. elim (ℕ_discrete k 0) [
        | yes e ↦
            let a : (s + k ≡ s) = omega arith in ap w a ∙ r.1 s (omega arith) ∙ update_self m s c
        | no l ↦
            let a : (s + k ≡ s + 1 + (k - 1)) = omega arith in ap w a ∙ r.0 (k - 1) (omega arith)
      ],
      λ x h. r.1 x (omega arith) ∙ update_ne m s c x (omega arith),
    )

-- The bytes at which two blocks differ first.
pub record DiffersFirst (s1 s2 n : ℕ) (m : Memory) (r : ℤ) : Type 0 where
  pub place : ℕ
  pub below : place < n
  pub same : (k : ℕ) → k < place → m (s1 + k) ≡ m (s2 + k)
  pub other : m (s1 + place) ≢ m (s2 + place)
  pub value : r ≡ sub_ℕ (m (s1 + place)) (m (s2 + place))

same_shift :
    (s1 s2 n : ℕ) (m : Memory)
    → m s1 ≡ m s2
    → ((k : ℕ) → k < n → m (s1 + 1 + k) ≡ m (s2 + 1 + k))
    → (k : ℕ) → k < suc n
    → m (s1 + k) ≡ m (s2 + k)
same_shift s1 s2 n m e f k h = elim (ℕ_discrete k 0) [
  | yes z ↦
      let a : (s1 + k ≡ s1) = omega arith in
      let b : (s2 ≡ s2 + k) = omega arith in ap m a ∙ e ∙ ap m b
  | no l ↦
      let a : (s1 + k ≡ s1 + 1 + (k - 1)) = omega arith in
      let b : (s2 + 1 + (k - 1) ≡ s2 + k) = omega arith in ap m a ∙ f (k - 1) (omega arith) ∙ ap m b
]

shift-DiffersFirst :
    (s1 s2 n : ℕ) (m : Memory) (r : ℤ)
    → m s1 ≡ m s2
    → DiffersFirst (s1 + 1) (s2 + 1) n m r
    → DiffersFirst s1 s2 (suc n) m r
shift-DiffersFirst s1 s2 n m r e d =
    let a : (s1 + 1 + d.place ≡ s1 + suc d.place) = omega arith in
    let b : (s2 + 1 + d.place ≡ s2 + suc d.place) = omega arith in
    record {
      place = suc d.place;
      below = omega (arith, d.below);
      same = same_shift s1 s2 d.place m e d.same;
      other = λ x. d.other (ap m a ∙ x ∙ sym (ap m b));
      value = d.value ∙ ap₂ (λ x y. sub_ℕ (m x) (m y)) a b;
    }

-- `memcmp` returns 0 where the blocks hold the same bytes, and otherwise the difference of the
-- first two bytes that differ.
pub memcmp-compares :
    (s1 s2 n : ℕ) (m : Memory)
    → ((memcmp s1 s2 n m ≡ ℤ.pos 0) × ((k : ℕ) → k < n → m (s1 + k) ≡ m (s2 + k)))
      ⊎ DiffersFirst s1 s2 n m (memcmp s1 s2 n m)
unfolding memcmp
memcmp-compares s1 s2 zero m = inl (refl, λ k h. absurd (omega arith))
memcmp-compares s1 s2 (suc n) m = elim (Bool-cases (m s1 == m s2)) [
  | inl e ↦
      let q = ==→eq (m s1) (m s2) e in
      rw e (elim (memcmp-compares (s1 + 1) (s2 + 1) n m) [
        | inl r ↦ inl (r.0, same_shift s1 s2 n m q r.1)
        | inr r ↦ inr (shift-DiffersFirst s1 s2 n m (memcmp (s1 + 1) (s2 + 1) n m) q r)
      ])
  | inr e ↦
      let a : (s1 ≡ s1 + 0) = omega arith in
      let b : (s2 ≡ s2 + 0) = omega arith in
      rw e (
        inr (record {
          place = 0;
          below = omega arith;
          same = λ k h. absurd (omega arith);
          other = λ x. ==→ne (m s1) (m s2) e (ap m a ∙ x ∙ sym (ap m b));
          value = ap₂ (λ x y. sub_ℕ (m x) (m y)) a b;
        }))
]
