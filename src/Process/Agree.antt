-- ===== src/Process/Agree.antt =====
-- The list and the table of the processes agree, so that `find_proc` finds what is listed.
use nku_os_2025_lab.Prelude.{
  ℕ, ◌<◌, ◌≢◌, refl, subst, inl, inr, List, arith, All, All-map, Among, Among-All, Distinct, length,
  map,
}
use native.Mathlib.Decide.{dec_lt}
use nku_os_2025_lab.Process.{Processes, max_pid, pid_hashfn, find_proc}
use nku_os_2025_lab.Process.Pid.{IsPids}
use nku_os_2025_lab.Process.Buckets.{IsTable, Looked, find_proc-Looked, find_proc-outside}

-- The processes `xs` are listed, no two have the same pid, and the table has the same processes, in
-- `buckets`.
pub record IsProcesses (s : Processes) (xs : List ℕ) (buckets : ℕ → List ℕ) : Type 0 where
  pub pids : IsPids s xs
  pub table : IsTable s.hash_list s.hash_links s.pid buckets
  pub unique : Distinct (map s.pid xs)
  pub ranged : All (λ x. (0 < s.pid x) × (s.pid x < max_pid)) xs
  pub listed : (b : ℕ) → All (λ x. Among x xs) (buckets b)
  pub tabled : All (λ x. Among x (buckets (pid_hashfn (s.pid x)))) xs

-- Where the list and the table agree, with more fuel than the bucket of the pid has processes,
-- `find_proc` gives a listed process with the pid, or NULL where no listed process has it; this
-- holds of every number, also of those that are no pids.
pub find_proc-Found :
    (fuel pid : ℕ) (s : Processes) (xs : List ℕ) (buckets : ℕ → List ℕ)
    → IsProcesses s xs buckets
    → length (buckets (pid_hashfn pid)) < fuel
    → Looked s.pid pid xs (find_proc fuel pid s)
find_proc-Found fuel pid s xs buckets v h = elim (dec_lt 0 pid) [
  | no n ↦ record {
    proc = 0;
    result = find_proc-outside fuel pid s (inl (omega arith));
    verdict = inl (
      refl,
      All-map _ _ xs (λ x (r : (0 < s.pid x) × (s.pid x < max_pid)) e. let l = r.0 in omega arith)
          v.ranged,
    );
  }
  | yes l ↦ elim (dec_lt pid max_pid) [
    | no n ↦ record {
      proc = 0;
      result = find_proc-outside fuel pid s (inr (omega arith));
      verdict = inl (
        refl,
        All-map _ _ xs (λ x (r : (0 < s.pid x) × (s.pid x < max_pid)) e. let u = r.1 in omega arith)
            v.ranged,
      );
    }
    | yes u ↦
        let f = find_proc-Looked fuel pid s buckets v.table l u h in
        record {
          proc = f.proc;
          result = f.result;
          verdict = elim f.verdict [
            | inl k ↦ inl (
              k.0,
              All-map _ _ xs
                  (λ x (i : Among x (buckets (pid_hashfn (s.pid x)))) e.
                    Among-All (λ y. s.pid y ≢ pid) x (buckets (pid_hashfn pid))
                      (subst (λ w. Among x (buckets (pid_hashfn w))) e i) k.1 e)
                  v.tabled,
            )
            | inr k ↦ inr (
              k.0,
              Among-All (λ y. Among y xs) f.proc (buckets (pid_hashfn pid)) k.1
                  (v.listed (pid_hashfn pid)),
              k.2,
            )
          ];
        }
  ]
]
