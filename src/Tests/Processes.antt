-- ===== src/Tests/Processes.antt =====
-- Processes 3 and 5 with the pids 1 and 2, children of 9; process 7 is about to become a child of
-- 9. The header of the list is at address 100 and the table of buckets at 2000.
use nku_os_2025_lab.Prelude.{
  ℕ, ◌+◌, ◌*◌, ◌≡◌, ◌≢◌, ◌<◌, refl, inl, inr, All, List, [], ◌∷◌, arith, ◌==◌, if◌then◌else◌, ne→==,
  length, some,
}
use native.Mathlib.Decide.{ℕ_discrete}
use nku_os_2025_lab.Libs.Hash.{hash32}
use nku_os_2025_lab.Libs.LinkedList.Ring.{IsRing}
use nku_os_2025_lab.Process.{
  Processes, pid_hashfn, get_pid, find_proc, dismiss_process, admit_process,
}
use nku_os_2025_lab.Process.Pid.{IsPids, Fresh, get_pid-Fresh}
use nku_os_2025_lab.Process.Buckets.{IsTable, IsEntry, hash_list_size, Looked}
use nku_os_2025_lab.Process.Dismiss.{Dismissed, dismiss_process-Dismissed}
use nku_os_2025_lab.Process.Agree.{IsProcesses, find_proc-Found}
use nku_os_2025_lab.Process.Admit.{Admitted, admit_process-Admitted}

abbrev state : Processes
state = record {
  proc_list = 100;
  links = record {
    next = λ x. if x == 100 then 5 else if x == 5 then 3 else if x == 3 then 100 else x;
    prev = λ x. if x == 100 then 3 else if x == 3 then 5 else if x == 5 then 100 else x;
  };
  hash_list = 2000;
  hash_links = record {
    next = λ x.
        if x == 2632
        then 3
        else if x == 3
        then 2632
        else if x == 2241
        then 5
        else if x == 5
        then 2241
        else x;
    prev = λ x.
        if x == 2632
        then 3
        else if x == 3
        then 2632
        else if x == 2241
        then 5
        else if x == 5
        then 2241
        else x;
  };
  nr_process = 2;
  next_safe = 8192;
  last_pid = 8191;
  pid = λ x. if x == 3 then 1 else if x == 5 then 2 else 0;
  parent = λ x. 9;
  cptr = λ x. if x == 9 then 5 else 0;
  yptr = λ x. if x == 3 then 5 else 0;
  optr = λ x. if x == 5 then 3 else 0;
}

abbrev buckets : ℕ → List ℕ
buckets b = if b == 632 then 3 ∷ [] else if b == 241 then 5 ∷ [] else []

state-IsPids : IsPids state (5 ∷ 3 ∷ [])
state-IsPids = record {
  ring = record { seg = (refl, refl, (refl, refl, (refl, refl))); distinct = omega arith };
  gap = omega arith;
  started = omega arith;
  bounded = omega arith;
  few = omega arith;
}

in_buckets :
    (P : ℕ → List ℕ → Type 0)
    → P 632 (3 ∷ [])
    → P 241 (5 ∷ [])
    → ((b : ℕ) → b ≢ 632 → b ≢ 241 → P b [])
    → (b : ℕ) → P b (buckets b)
in_buckets P h k f b = elim (ℕ_discrete b 632) [
  | yes e ↦ rw e h
  | no n ↦
      rw (ne→== b 632 n)
        (elim (ℕ_discrete b 241) [ yes e ↦ rw e k | no m ↦ rw (ne→== b 241 m) (f b n m) ])
]

IsRing-at : (b : ℕ) → b < hash_list_size → IsRing state.hash_links (2000 + b) (buckets b)
IsRing-at =
    in_buckets (λ b xs. b < hash_list_size → IsRing state.hash_links (2000 + b) xs)
      (λ h. record { seg = (refl, refl, (refl, refl)); distinct = omega arith })
      (λ h. record { seg = (refl, refl, (refl, refl)); distinct = omega arith })
      (λ b n m h. record { seg = (ground arith, ground arith); distinct = (tt, tt) })

state-IsTable : IsTable 2000 state.hash_links state.pid buckets
unfolding hash32
state-IsTable = record {
  rings = IsRing-at;
  hashed =
      in_buckets (λ b. All (λ x. pid_hashfn (state.pid x) ≡ b)) (refl, tt) (refl, tt) (λ b n m. tt);
  entries = in_buckets (λ b. All (IsEntry 2000)) (omega arith) (omega arith) (λ b n m. tt);
  present = in_buckets (λ b. All (λ x. x ≢ 0)) (omega arith) (omega arith) (λ b n m. tt);
}

state-IsProcesses : IsProcesses state (5 ∷ 3 ∷ []) buckets
unfolding hash32
state-IsProcesses = record {
  pids = state-IsPids;
  table = state-IsTable;
  unique = omega arith;
  ranged = omega arith;
  listed = in_buckets (λ b. All _) (inr (inl refl), tt) (inl refl, tt) (λ b n m. tt);
  tabled = (inl refl, (inl refl, tt));
}

get_pid-Fresh_example : Fresh state (5 ∷ 3 ∷ []) (get_pid (8192 * 3) state)
get_pid-Fresh_example = get_pid-Fresh (8192 * 3) state (5 ∷ 3 ∷ []) state-IsPids (omega arith)

few : length (buckets (pid_hashfn 2)) < 2
unfolding hash32
few = omega arith

find_proc-Found_example : Looked state.pid 2 (5 ∷ 3 ∷ []) (find_proc 2 2 state)
find_proc-Found_example = find_proc-Found 2 2 state (5 ∷ 3 ∷ []) buckets state-IsProcesses few

admit_process-Admitted_example :
    Admitted state (5 ∷ 3 ∷ []) buckets 7 (admit_process (8192 * 3) 7 state)
admit_process-Admitted_example =
    admit_process-Admitted (8192 * 3) 7 state (5 ∷ 3 ∷ []) buckets state-IsProcesses (omega arith)
      (omega arith) (omega arith) (omega arith) (omega arith) (omega arith)

-- The pids wrap around, and the first free one is 3.
wrap_around : get_pid 20 state ≡ some (3, record state { last_pid = 3; next_safe = 8192 })
unfolding get_pid
wrap_around = refl

dismiss_process-Dismissed_example : Dismissed state [] 5 (3 ∷ []) (dismiss_process 5 state)
dismiss_process-Dismissed_example =
    dismiss_process-Dismissed state [] 5 (3 ∷ []) buckets state-IsProcesses (omega arith)
