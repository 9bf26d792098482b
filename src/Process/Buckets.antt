-- ===== src/Process/Buckets.antt =====
-- The hash table of the processes by pid: `find_proc` finds what `hash_proc` puts there.
use nku_os_2025_lab.Prelude.{
  ℕ, zero, suc, ◌+◌, ◌≤◌, ◌<◌, ◌≡◌, ◌≢◌, refl, sym, ap, subst, ◌∙◌, ◌⊎◌, inl, inr, List, [], ◌∷◌,
  Option, some, arith, All, All-map, Among, NotIn, length, eq→==, ne→==, update, update_self,
  update_ne, lt→ltb, le→ltb,
}
use native.Mathlib.Decide.{ℕ_discrete, dec_lt}
use nku_os_2025_lab.Libs.Hash.{hash32}
use nku_os_2025_lab.Libs.LinkedList.{Links, list_add}
use nku_os_2025_lab.Libs.LinkedList.Ring.{IsChain, IsRing, IsSeg-IsChain}
use nku_os_2025_lab.Libs.LinkedList.Insert.{IsRing-list_add_head, IsRing-list_add_other}
use nku_os_2025_lab.Process.{Processes, max_pid, pid_hashfn, find_proc_loop, find_proc}

-- The number of buckets.
abbrev pub hash_list_size : ℕ
hash_list_size = 1024

pub pid_hashfn-lt : (pid : ℕ) → pid_hashfn pid < hash_list_size
unfolding hash32
pid_hashfn-lt pid = omega arith

-- The entry is not one of the headers of the table, which start at `base`.
abbrev pub IsEntry : ℕ → ℕ → Type 0
IsEntry base x = (x < base) ⊎ (base + hash_list_size ≤ x)

-- The processes of every bucket, each in the bucket of its pid.
pub record IsTable (base : ℕ) (links : Links) (pid : ℕ → ℕ) (buckets : ℕ → List ℕ) : Type 0 where
  pub rings : (b : ℕ) → b < hash_list_size → IsRing links (base + b) (buckets b)
  pub hashed : (b : ℕ) → All (λ x. pid_hashfn (pid x) ≡ b) (buckets b)
  pub entries : (b : ℕ) → All (IsEntry base) (buckets b)
  pub present : (b : ℕ) → All (λ x. x ≢ 0) (buckets b)

-- An entry that is no header is not a header of a bucket.
pub header_ne : (base b x : ℕ) → b < hash_list_size → IsEntry base x → base + b ≢ x
header_ne base b x h (inl k) e = omega arith
header_ne base b x h (inr k) e = omega arith

-- Buckets have no process in common.
pub other_bucket :
    (pid : ℕ → ℕ) (b c x : ℕ) (zs : List ℕ)
    → b ≢ c
    → pid_hashfn (pid x) ≡ c
    → All (λ z. pid_hashfn (pid z) ≡ b) zs
    → NotIn x zs
other_bucket pid b c x zs n h k =
    All-map _ _ zs
      (λ z (e : pid_hashfn (pid z) ≡ b) q. n (sym e ∙ ap (λ w. pid_hashfn (pid w)) q ∙ h)) k

module _ (base : ℕ) (links : Links) (pid : ℕ → ℕ) (buckets : ℕ → List ℕ)
    (v : IsTable base links pid buckets) (proc : ℕ) (entry : IsEntry base proc)
    (new : (b : ℕ) → NotIn proc (buckets b)) (real : proc ≢ 0) where
  -- The bucket that the process goes to, and the table with it.
  abbrev bucket : ℕ
  bucket = pid_hashfn (pid proc)

  abbrev wider : ℕ → List ℕ
  wider = update buckets bucket (proc ∷ buckets bucket)

  mine : IsRing links (base + bucket) (buckets bucket)
  mine = v.rings bucket (pid_hashfn-lt (pid proc))

  -- The header of the bucket is neither another header nor in another bucket.
  header_apart : (b : ℕ) → b ≢ bucket → NotIn (base + bucket) ((base + b) ∷ buckets b)
  header_apart b n = (
    (λ q. n (omega arith)),
    All-map _ _ (buckets b)
        (λ x (i : IsEntry base x) q. header_ne base bucket x (pid_hashfn-lt (pid proc)) i (sym q))
        (v.entries b),
  )

  -- The first entry of the bucket, or its header, is in no other bucket.
  first_apart :
      (b : ℕ) (ys : List ℕ)
      → b < hash_list_size
      → b ≢ bucket
      → IsRing links (base + bucket) ys
      → All (λ x. pid_hashfn (pid x) ≡ bucket) ys
      → All (IsEntry base) ys
      → NotIn (links.next (base + bucket)) ((base + b) ∷ buckets b)
  first_apart b [] h n r k e =
      subst (λ w. NotIn w ((base + b) ∷ buckets b)) (sym r.seg.0) (header_apart b n)
  first_apart b (y ∷ ys) h n r k e =
      subst (λ w. NotIn w ((base + b) ∷ buckets b)) (sym r.seg.0)
        (header_ne base b y h e.0, other_bucket pid b bucket y (buckets b) n k.0 (v.hashed b))

  at_bucket :
      (P : ℕ → ℕ → Type 0)
      → P bucket proc
      → ((b : ℕ) → All (P b) (buckets b))
      → (b : ℕ) → All (P b) (wider b)
  at_bucket P h k b = elim (ℕ_discrete b bucket) [
    | yes e ↦ rw e (rw (update_self buckets bucket (proc ∷ buckets bucket)) (h, k bucket))
    | no n ↦ rw (update_ne buckets bucket (proc ∷ buckets bucket) b n) (k b)
  ]

  pub IsTable-list_add : IsTable base (list_add (base + bucket) proc links) pid wider
  IsTable-list_add = record {
    rings = λ b h. elim (ℕ_discrete b bucket) [
      | yes e ↦ rw e (
          rw (update_self buckets bucket (proc ∷ buckets bucket)) (
            IsRing-list_add_head (buckets bucket) proc mine
              (header_ne base bucket proc (pid_hashfn-lt (pid proc)) entry, new bucket)))
      | no n ↦ rw (update_ne buckets bucket (proc ∷ buckets bucket) b n) (
          IsRing-list_add_other links (base + bucket) proc (base + b) (buckets b) (header_apart b n)
            (first_apart b (buckets bucket) h n mine (v.hashed bucket) (v.entries bucket))
            (header_ne base b proc h entry, new b) (v.rings b h))
    ];
    hashed = at_bucket (λ b x. pid_hashfn (pid x) ≡ b) refl v.hashed;
    entries = at_bucket (λ b. IsEntry base) entry v.entries;
    present = at_bucket (λ b x. x ≢ 0) real v.present;
  }

-- What a search among the processes `ys` gives: one with the pid, or NULL where none has it.
pub record Looked (pids : ℕ → ℕ) (pid : ℕ) (ys : List ℕ) (run : Option ℕ) : Type 0 where
  pub proc : ℕ
  pub result : run ≡ some proc
  pub verdict :
      ((proc ≡ 0) × All (λ x. pids x ≢ pid) ys) ⊎ ((proc ≢ 0) × Among proc ys × (pids proc ≡ pid))

skip :
    (pids : ℕ → ℕ) (pid x : ℕ) (ys : List ℕ) (run : Option ℕ)
    → pids x ≢ pid
    → Looked pids pid ys run
    → Looked pids pid (x ∷ ys) run
skip pids pid x ys run n r = record {
  proc = r.proc;
  result = r.result;
  verdict = elim r.verdict [ inl k ↦ inl (k.0, (n, k.1)) | inr k ↦ inr (k.0, inr k.1, k.2) ];
}

find_proc_loop-Looked :
    (fuel list le pid : ℕ) (s : Processes) (ys : List ℕ)
    → IsChain s.hash_links le ys list
    → NotIn list ys
    → All (λ x. x ≢ 0) ys
    → length ys < fuel
    → Looked s.pid pid ys (find_proc_loop fuel list le pid s)
unfolding find_proc_loop
find_proc_loop-Looked zero list le pid s ys c n z h = absurd (omega arith)
find_proc_loop-Looked (suc fuel) list le pid s [] c n z h = record {
  proc = 0;
  result = rw c (rw (eq→== list list refl) refl);
  verdict = inl (refl, tt);
}
find_proc_loop-Looked (suc fuel) list le pid s (y ∷ ys) c n z h = rw c.0 (
    rw (ne→== y list n.0) (elim (ℕ_discrete (s.pid y) pid) [
      | yes e ↦
          rw (eq→== (s.pid y) pid e)
            (record { proc = y; result = refl; verdict = inr (z.0, inl refl, e) })
      | no e ↦ rw (ne→== (s.pid y) pid e) (
          skip s.pid pid y ys _ e
            (find_proc_loop-Looked fuel list y pid s ys c.1 n.1 z.1 (omega arith)))
    ]))

-- The search in the bucket of a pid in bounds.
pub find_proc-Looked :
    (fuel pid : ℕ) (s : Processes) (buckets : ℕ → List ℕ)
    → IsTable s.hash_list s.hash_links s.pid buckets
    → 0 < pid
    → pid < max_pid
    → length (buckets (pid_hashfn pid)) < fuel
    → Looked s.pid pid (buckets (pid_hashfn pid)) (find_proc fuel pid s)
unfolding find_proc
find_proc-Looked fuel pid s buckets v l u h =
    let b = pid_hashfn pid in
    let ring = v.rings b (pid_hashfn-lt pid) in
    rw (lt→ltb 0 pid l) (
      rw (lt→ltb pid max_pid u) (
        find_proc_loop-Looked fuel (s.hash_list + b) (s.hash_list + b) pid s (buckets b)
          (IsSeg-IsChain s.hash_links (s.hash_list + b) (buckets b) (s.hash_list + b) ring.seg)
          ring.distinct.0 (v.present b) h))

pub find_proc-outside :
    (fuel pid : ℕ) (s : Processes) → ((pid ≡ 0) ⊎ (max_pid ≤ pid)) → find_proc fuel pid s ≡ some 0
unfolding find_proc
find_proc-outside fuel pid s (inl e) = rw (le→ltb 0 pid (omega arith)) refl
find_proc-outside fuel pid s (inr e) = elim (dec_lt 0 pid) [
  | yes h ↦ rw (lt→ltb 0 pid h, le→ltb pid max_pid e) refl
  | no h ↦ rw (le→ltb 0 pid (omega arith)) refl
]
