-- ===== src/Process/Admit.antt =====
-- A new process goes into the list and the table, and they still agree.
use nku_os_2025_lab.Prelude.{
  ℕ, ◌+◌, ◌*◌, ◌≤◌, ◌<◌, ◌≡◌, ◌≢◌, refl, sym, ap, subst, ◌∙◌, ◌⊎◌, inl, inr, List, [], ◌∷◌, Option,
  some, arith, All, All-map, All-both, Among, Among-All, NotIn, Distinct, length, map, update,
  update_self, update_ne, eq→==, ne→==, ◌>>=◌,
}
use native.Mathlib.Decide.{ℕ_discrete}
use nku_os_2025_lab.Libs.LinkedList.Insert.{IsRing-list_add_head}
use nku_os_2025_lab.Sched.Proc.{max_process}
use nku_os_2025_lab.Process.{
  Processes, max_pid, pid_hashfn, get_pid, hash_proc, set_links, admit_process,
}
use nku_os_2025_lab.Process.Pid.{IsPids, Fresh, get_pid-Fresh}
use nku_os_2025_lab.Process.Buckets.{IsTable, IsEntry, IsTable-list_add}
use nku_os_2025_lab.Process.Agree.{IsProcesses}

-- What admitting the process `proc` leaves.
pub record Admitted (s : Processes) (xs : List ℕ) (buckets : ℕ → List ℕ) (proc : ℕ)
    (run : Option Processes) : Type 0 where
  pub pid : ℕ
  pub left : Processes
  pub result : run ≡ some left
  pub has : left.pid proc ≡ pid
  pub new : All (λ x. s.pid x ≢ pid) xs
  pub others : All (λ x. left.pid x ≡ s.pid x) xs
  pub valid :
      IsProcesses left
        (proc ∷ xs)
        (update buckets (pid_hashfn (left.pid proc)) (proc ∷ buckets (pid_hashfn (left.pid proc))))
  pub child : left.cptr (s.parent proc) ≡ proc
  pub older : left.optr proc ≡ s.cptr (s.parent proc)
  pub younger : left.yptr proc ≡ 0
  pub back : (s.cptr (s.parent proc) ≡ 0) ⊎ (left.yptr (s.cptr (s.parent proc)) ≡ proc)
  pub count : left.nr_process ≡ s.nr_process + 1

map-NotIn : (f : ℕ → ℕ) (a : ℕ) (xs : List ℕ) → All (λ x. f x ≢ a) xs → NotIn a (map f xs)
map-NotIn f a [] h = tt
map-NotIn f a (x ∷ xs) h = (h.0, map-NotIn f a xs h.1)

map-agree : (f g : ℕ → ℕ) (xs : List ℕ) → All (λ x. g x ≡ f x) xs → map f xs ≡ map g xs
map-agree f g [] h = refl
map-agree f g (x ∷ xs) h =
    ap (λ y. y ∷ map f xs) (sym h.0) ∙ ap (λ ys. g x ∷ ys) (map-agree f g xs h.1)

module _ (s : Processes) (xs : List ℕ) (buckets : ℕ → List ℕ) (v : IsProcesses s xs buckets)
    (proc : ℕ) (fresh : NotIn proc (s.proc_list ∷ xs)) (entry : IsEntry s.hash_list proc)
    (real : proc ≢ 0) (few : length xs < max_process) (run : Option (ℕ × Processes))
    (f : Fresh s xs run) where
  -- The pids, the bucket and the table after the step.
  abbrev pids : ℕ → ℕ
  pids = update s.pid proc f.pid

  abbrev home : ℕ
  home = pid_hashfn (pids proc)

  abbrev filled : ℕ → List ℕ
  filled = update buckets home (proc ∷ buckets home)

  mine : pids proc ≡ f.pid
  mine = update_self s.pid proc f.pid

  theirs : All (λ x. pids x ≡ s.pid x) xs
  theirs = All-map _ _ xs (λ x n. update_ne s.pid proc f.pid x n) fresh.1

  not_tabled : (b : ℕ) → NotIn proc (buckets b)
  not_tabled b =
      All-map _ _ (buckets b) (λ x i. Among-All (λ y. y ≢ proc) x xs i fresh.1) (v.listed b)

  table : IsTable s.hash_list s.hash_links pids buckets
  table = record {
    rings = v.table.rings;
    hashed = λ b.
        All-both (buckets b) (not_tabled b) (v.table.hashed b)
          (λ x n e. ap pid_hashfn (update_ne s.pid proc f.pid x n) ∙ e);
    entries = v.table.entries;
    present = v.table.present;
  }

  tabled : All (λ x. Among x (filled (pid_hashfn (pids x)))) (proc ∷ xs)
  tabled = (
    subst (Among proc) (sym (update_self buckets home (proc ∷ buckets home))) (inl refl),
    All-both xs theirs v.tabled (λ x e i. elim (ℕ_discrete (pid_hashfn (pids x)) home) [
      | yes q ↦
          let j : Among x (buckets home) =
            subst (λ w. Among x (buckets w)) (ap pid_hashfn (sym e) ∙ q) i in
          subst (λ w. Among x (filled w)) (sym q)
            (subst (Among x) (sym (update_self buckets home (proc ∷ buckets home))) (inr j))
      | no n ↦
          subst (Among x)
            (sym (update_ne buckets home (proc ∷ buckets home) (pid_hashfn (pids x)) n))
            (subst (λ w. Among x (buckets (pid_hashfn w))) (sym e) i)
    ]),
  )

  listed : (b : ℕ) → All (λ x. Among x (proc ∷ xs)) (filled b)
  listed b = elim (ℕ_discrete b home) [
    | yes e ↦
        subst (λ w. All (λ x. Among x (proc ∷ xs)) (filled w)) (sym e)
          (subst (All (λ x. Among x (proc ∷ xs)))
            (sym (update_self buckets home (proc ∷ buckets home)))
            (inl refl, All-map _ _ (buckets home) (λ x i. inr i) (v.listed home)))
    | no n ↦
        subst (All (λ x. Among x (proc ∷ xs)))
          (sym (update_ne buckets home (proc ∷ buckets home) b n))
          (All-map _ _ (buckets b) (λ x i. inr i) (v.listed b))
  ]

  -- The state after the step.
  abbrev after : Processes
  after =
      set_links proc
        (hash_proc proc (record s { last_pid = f.pid; next_safe = f.safe; pid = pids }))

  after-IsPids : IsPids after (proc ∷ xs)
  unfolding set_links hash_proc
  after-IsPids = record {
    ring = IsRing-list_add_head xs proc v.pids.ring fresh;
    gap = (
      inl (omega (arith, mine)),
      All-both xs theirs f.valid.gap (λ x e g. elim g [
        | inl h ↦ inl (omega (arith, h, e))
        | inr h ↦ inr (omega (arith, h, e))
      ]),
    );
    started = f.valid.started;
    bounded = f.valid.bounded;
    few = omega arith;
  }

  after-IsProcesses : IsProcesses after (proc ∷ xs) filled
  unfolding set_links hash_proc
  after-IsProcesses = record {
    pids = after-IsPids;
    table = IsTable-list_add s.hash_list s.hash_links pids buckets table proc entry not_tabled real;
    unique = (
      map-NotIn pids (pids proc) xs (All-both xs theirs f.new (λ x e n q. n (sym e ∙ q ∙ mine))),
      subst Distinct (map-agree s.pid pids xs theirs) v.unique,
    );
    ranged = (
      (omega (arith, f.above, mine), omega (arith, f.below, mine)),
      All-both xs theirs v.ranged (λ x e r. (omega (arith, r.0, e), omega (arith, r.1, e))),
    );
    listed = listed;
    tabled = tabled;
  }

  after-Admitted :
      s.cptr (s.parent proc) ≢ proc
      → (r : Option Processes) → r ≡ some after
      → Admitted s xs buckets proc r
  unfolding set_links hash_proc
  after-Admitted n r e = record {
    pid = f.pid;
    left = after;
    result = e;
    has = mine;
    new = f.new;
    others = theirs;
    valid = after-IsProcesses;
    child = update_self s.cptr (s.parent proc) proc;
    older = update_self s.optr proc (s.cptr (s.parent proc));
    younger = elim (ℕ_discrete (s.cptr (s.parent proc)) 0) [
      | yes z ↦ rw (eq→== (s.cptr (s.parent proc)) 0 z) (update_self s.yptr proc 0)
      | no z ↦ rw (ne→== (s.cptr (s.parent proc)) 0 z) (
          update_ne (update s.yptr proc 0) (s.cptr (s.parent proc)) proc proc (λ q. n (sym q))
          ∙ update_self s.yptr proc 0)
    ];
    back = elim (ℕ_discrete (s.cptr (s.parent proc)) 0) [
      | yes z ↦ inl z
      | no z ↦ inr (
          rw (ne→== (s.cptr (s.parent proc)) 0 z)
            (update_self (update s.yptr proc 0) (s.cptr (s.parent proc)) proc))
    ];
    count = refl;
  }

-- Where the list and the table agree and fewer than MAX_PROCESS processes are listed, a process
-- that is in neither and not its parent's youngest child is admitted, with fuel for a walk of the
-- list for every pid: it gets a pid that no listed process has, the others keep theirs, the list
-- and the table agree with the process in both, so that no two have the same pid, and it becomes
-- its parent's youngest child, linked with the one that was that before.
pub admit_process-Admitted :
    (fuel proc : ℕ) (s : Processes) (xs : List ℕ) (buckets : ℕ → List ℕ)
    → IsProcesses s xs buckets
    → NotIn proc (s.proc_list ∷ xs)
    → IsEntry s.hash_list proc
    → proc ≢ 0
    → s.cptr (s.parent proc) ≢ proc
    → length xs < max_process
    → max_pid * (length xs + 1) ≤ fuel
    → Admitted s xs buckets proc (admit_process fuel proc s)
unfolding admit_process
admit_process-Admitted fuel proc s xs buckets v fresh entry real n few h =
    let f = get_pid-Fresh fuel s xs v.pids h in
    after-Admitted s xs buckets v proc fresh entry real few (get_pid fuel s) f n
      (admit_process fuel proc s)
      (ap
        (λ o. o >>= λ (pid, t).
          some (set_links proc (hash_proc proc (record t { pid = update t.pid proc pid }))))
        f.result)
