-- ===== src/Libs/Strings/Text.antt =====
-- Strings: their length, copying and joining them, and the place of a character.
use nku_os_2025_lab.Prelude.{
  ℕ, zero, suc, ◌+◌, ◌<◌, ◌≤◌, ◌≡◌, ◌≢◌, ◌⊎◌, ◌∙◌, refl, sym, subst, ap, arith, update, update_ne,
  eq→==, ne→==, List, [], ◌∷◌, ◌++◌, length, length-append, NotIn, none, some,
}
use nku_os_2025_lab.Libs.Strings.{
  Memory, strlen, strlen_loop, strcpy, strcat, strchr, strfind, move_up,
}
use nku_os_2025_lab.Libs.Strings.Blocks.{move_up-Copied}

-- The bytes `cs`, none of them 0, stand at `s`, with a 0 behind them.
abbrev pub IsString : Memory → ℕ → List ℕ → Type 0
IsString m s [] = m s ≡ 0
IsString m s (c ∷ cs) = (m s ≡ c) × (c ≢ 0) × IsString m (s + 1) cs

-- A memory that holds at `t` what `m` holds at `s`.
pub IsString-agree :
    (m w : Memory) (s t : ℕ) (cs : List ℕ)
    → ((k : ℕ) → k < length cs + 1 → w (t + k) ≡ m (s + k))
    → IsString m s cs
    → IsString w t cs
IsString-agree m w s t [] f h =
    let a : (t ≡ t + 0) = omega arith in
    let b : (s + 0 ≡ s) = omega arith in ap w a ∙ f 0 (omega arith) ∙ ap m b ∙ h
IsString-agree m w s t (c ∷ cs) f h =
    let a : (t ≡ t + 0) = omega arith in
    let b : (s + 0 ≡ s) = omega arith in
    (
      ap w a ∙ f 0 (omega arith) ∙ ap m b ∙ h.0,
      h.1,
      IsString-agree m w (s + 1) (t + 1) cs
          (λ k l.
            let p : (t + 1 + k ≡ t + suc k) = omega arith in
            let q : (s + suc k ≡ s + 1 + k) = omega arith in
            ap w p ∙ f (suc k) (omega arith) ∙ ap m q)
          h.2,
    )

strlen_loop_lem :
    (fuel s cnt : ℕ) (m : Memory) (cs : List ℕ)
    → IsString m s cs
    → length cs < fuel
    → strlen_loop fuel s cnt m ≡ some (cnt + length cs)
unfolding strlen_loop
strlen_loop_lem zero s cnt m cs h l = elim l [ ]
strlen_loop_lem (suc fuel) s cnt m [] h l = rw h (ap some (omega arith))
strlen_loop_lem (suc fuel) s cnt m (c ∷ cs) h l = rw h.0 (
    rw (ne→== c 0 h.1)
      (strlen_loop_lem fuel (s + 1) (cnt + 1) m cs h.2 (omega arith) ∙ ap some (omega arith)))

-- `strlen` returns the length of the string, with more fuel than that.
pub strlen-eq-length :
    (fuel s : ℕ) (m : Memory) (cs : List ℕ)
    → IsString m s cs
    → length cs < fuel
    → strlen fuel s m ≡ some (length cs)
unfolding strlen
strlen-eq-length fuel s m cs h l = strlen_loop_lem fuel s 0 m cs h l ∙ ap some (omega arith)

strcpy_lem :
    (fuel dst src : ℕ) (m : Memory) (cs : List ℕ)
    → IsString m src cs
    → (dst ≤ src) ⊎ (src + length cs < dst)
    → length cs < fuel
    → strcpy fuel dst src m ≡ some (move_up dst src (length cs + 1) m)
unfolding strcpy move_up
strcpy_lem zero dst src m cs h o l = elim l [ ]
strcpy_lem (suc fuel) dst src m [] h o l = rw (eq→== (m src) 0 h)
strcpy_lem (suc fuel) dst src m (c ∷ cs) h o l =
    let e : (suc (length cs + 1) ≡ suc (length cs) + 1) = omega arith in
    rw (ne→== (m src) 0 (λ z. h.1 (sym h.0 ∙ z))) (
      strcpy_lem fuel (dst + 1) (src + 1) (update m dst (m src)) cs
        (IsString-agree m (update m dst (m src)) (src + 1) (src + 1) cs
          (λ k b. update_ne m dst (m src) (src + 1 + k) (omega arith)) h.2)
        (omega arith) (omega arith)
      ∙ ap (λ n. some (move_up dst src n m)) e)

-- What copying the string `cs` to `dst` leaves: the string, and the rest of the memory.
pub record Written (m w : Memory) (dst : ℕ) (cs : List ℕ) : Type 0 where
  pub string : IsString w dst cs
  pub outside : (x : ℕ) → (x < dst) ⊎ (dst + length cs < x) → w x ≡ m x

-- `strcpy` puts the string at `dst` and changes nothing else, where the destination does not begin
-- inside the source behind its first byte.
pub strcpy-Written :
    (fuel dst src : ℕ) (m : Memory) (cs : List ℕ)
    → IsString m src cs
    → (dst ≤ src) ⊎ (src + length cs < dst)
    → length cs < fuel
    → (w : Memory) × (strcpy fuel dst src m ≡ some w) × Written m w dst cs
strcpy-Written fuel dst src m cs h o l =
    let c = move_up-Copied dst src (length cs + 1) m (omega arith) in
    (
      move_up dst src (length cs + 1) m,
      strcpy_lem fuel dst src m cs h o l,
      record {
        string = IsString-agree m (move_up dst src (length cs + 1) m) src dst cs c.inside h;
        outside = λ x k. c.outside x (omega arith);
      },
    )

IsString-append :
    (m w : Memory) (d : ℕ) (ds cs : List ℕ)
    → IsString m d ds
    → ((k : ℕ) → k < length ds → w (d + k) ≡ m (d + k))
    → IsString w (d + length ds) cs
    → IsString w d (ds ++ cs)
IsString-append m w d [] cs h f g =
    let a : (d + 0 ≡ d) = omega arith in subst (λ n. IsString w n cs) a g
IsString-append m w d (x ∷ ds) cs h f g =
    let a : (d ≡ d + 0) = omega arith in
    let b : (d + 0 ≡ d) = omega arith in
    let e : (d + suc (length ds) ≡ d + 1 + length ds) = omega arith in
    (
      ap w a ∙ f 0 (omega arith) ∙ ap m b ∙ h.0,
      h.1,
      IsString-append m w (d + 1) ds cs h.2
          (λ k l.
            let p : (d + 1 + k ≡ d + suc k) = omega arith in
            let q : (d + suc k ≡ d + 1 + k) = omega arith in
            ap w p ∙ f (suc k) (omega arith) ∙ ap m q)
          (subst (λ n. IsString w n cs) e g),
    )

-- `strcat` leaves the two strings joined at `dst` and changes nothing behind them or before `dst`,
-- where the end of the first does not lie inside the second behind its first byte.
pub strcat-Written :
    (fuel dst src : ℕ) (m : Memory) (ds cs : List ℕ)
    → IsString m dst ds
    → IsString m src cs
    → (dst + length ds ≤ src) ⊎ (src + length cs < dst + length ds)
    → length ds < fuel
    → length cs < fuel
    → (w : Memory) × (strcat fuel dst src m ≡ some w) × Written m w dst (ds ++ cs)
unfolding strcat
strcat-Written fuel dst src m ds cs g h o k l =
    let (w, e, r) = strcpy-Written fuel (dst + length ds) src m cs h o l in
    (
      w,
      rw (strlen-eq-length fuel dst m ds g k) e,
      record {
        string =
            IsString-append m w dst ds cs g (λ j b. r.outside (dst + j) (omega arith)) r.string;
        outside = λ x b. r.outside x (omega (arith, length-append ds cs));
      },
    )

-- `strchr` and `strfind` return the place of the first `c` in the string.
pub strchr-first :
    (fuel s c : ℕ) (m : Memory) (xs bs : List ℕ)
    → IsString m s (xs ++ c ∷ bs)
    → NotIn c xs
    → length xs < fuel
    → (strchr fuel s c m ≡ some (some (s + length xs)))
      × (strfind fuel s c m ≡ some (s + length xs))
unfolding strchr strfind
strchr-first zero s c m xs bs h n l = elim l [ ]
strchr-first (suc fuel) s c m [] bs h n l = rw h.0 (
    rw (ne→== c 0 h.1, eq→== c c refl)
      (ap (λ x. some (some x)) (omega arith), ap some (omega arith)))
strchr-first (suc fuel) s c m (a ∷ xs) bs h n l =
    let r = strchr-first fuel (s + 1) c m xs bs h.2 n.1 (omega arith) in
    let e : (s + 1 + length xs ≡ s + suc (length xs)) = omega arith in
    rw h.0 (rw (ne→== a 0 h.1, ne→== a c n.0) (r.0 ∙ ap (λ x. some (some x)) e, r.1 ∙ ap some e))

-- Where the string has no `c`, `strchr` returns NULL and `strfind` the end of the string.
pub strchr_absent :
    (fuel s c : ℕ) (m : Memory) (cs : List ℕ)
    → IsString m s cs
    → NotIn c cs
    → length cs < fuel
    → (strchr fuel s c m ≡ some none) × (strfind fuel s c m ≡ some (s + length cs))
unfolding strchr strfind
strchr_absent zero s c m cs h n l = elim l [ ]
strchr_absent (suc fuel) s c m [] h n l = rw h (refl, ap some (omega arith))
strchr_absent (suc fuel) s c m (a ∷ xs) h n l =
    let r = strchr_absent fuel (s + 1) c m xs h.2 n.1 (omega arith) in
    let e : (s + 1 + length xs ≡ s + suc (length xs)) = omega arith in
    rw h.0 (rw (ne→== a 0 h.1, ne→== a c n.0) (r.0, r.1 ∙ ap some e))
