-- ===== src/Process.antt =====
-- lab8/kern/process/proc.c: the list of the processes, their family links, the hash table by pid,
-- and the choice of a pid. A `struct proc_struct *` is a number, which is also the address of its
-- `list_link` and of its `hash_link`, and NULL is 0. `none` is the end of the fuel of a loop.
pub mod Scan
pub mod Reach
pub mod Pid
pub mod Buckets
pub mod Agree
pub mod Admit
pub mod Unhash
pub mod Dismiss
use nku_os_2025_lab.Prelude.{
  ℕ, zero, suc, ◌+◌, ◌-◌, Bool, ◌&&◌, Option, none, some, ltb, leb, ◌==◌, if◌then◌else◌, ◌>>=◌,
  update,
}
use nku_os_2025_lab.Libs.Hash.{hash32}
use nku_os_2025_lab.Libs.LinkedList.{Links, list_add, list_del}

-- The static variables of proc.c, with the fields of all processes. `hash_list` is the address of
-- the first header of the table.
pub record Processes : Type 0 where
  pub proc_list : ℕ
  pub links : Links
  pub hash_list : ℕ
  pub hash_links : Links
  pub nr_process : ℕ
  pub next_safe : ℕ
  pub last_pid : ℕ
  pub pid : ℕ → ℕ
  pub parent : ℕ → ℕ
  pub cptr : ℕ → ℕ
  pub yptr : ℕ → ℕ
  pub optr : ℕ → ℕ

-- `MAX_PID` is twice `MAX_PROCESS`.
abbrev pub max_pid : ℕ
max_pid = 8192

abbrev pub hash_shift : ℕ
hash_shift = 10

abbrev pub pid_hashfn : ℕ → ℕ
pid_hashfn x = hash32 x hash_shift

-- One round of the loop of `get_pid` at the process `p`: the entry that the loop goes on from, the
-- pid that it tries, and `next_safe`.
unfoldable pub scan_step : Processes → ℕ → ℕ → ℕ → ℕ × ℕ × ℕ
scan_step s p last safe =
    if s.pid p == last
    then (if leb safe (last + 1)
        then (s.proc_list, (if leb max_pid (last + 1) then 1 else last + 1), max_pid)
        else (p, last + 1, safe))
    else if ltb last (s.pid p) && ltb (s.pid p) safe
    then (p, last, s.pid p)
    else (p, last, safe)

-- The loop of `get_pid`, from `repeat` on: the pid and `next_safe` that it ends with.
unfoldable pub scan : ℕ → Processes → ℕ → ℕ → ℕ → Option (ℕ × ℕ)
unfolding scan_step
scan zero s le last safe = none
scan (suc fuel) s le last safe =
    let p = s.links.next le in
    let step = scan_step s p last safe in
    let rest = scan fuel s step.0 step.1 step.2 in
    if p == s.proc_list then some (last, safe) else rest

unfoldable pub get_pid : ℕ → Processes → Option (ℕ × Processes)
unfolding scan
get_pid fuel s =
    let last = s.last_pid + 1 in
    let search =
      (if leb max_pid last
        then scan fuel s s.proc_list 1 max_pid
        else if leb s.next_safe last
        then scan fuel s s.proc_list last max_pid
        else some (last, s.next_safe)) in
    search >>= λ (pid, safe). some (pid, record s { last_pid = pid; next_safe = safe })

unfoldable pub hash_proc : ℕ → Processes → Processes
unfolding list_add hash32
hash_proc proc s = record s {
  hash_links = list_add (s.hash_list + pid_hashfn (s.pid proc)) proc s.hash_links;
}

unfoldable pub unhash_proc : ℕ → Processes → Processes
unfolding list_del
unhash_proc proc s = record s { hash_links = list_del proc s.hash_links }

-- The loop of `find_proc` on the bucket whose header is `list`.
unfoldable pub find_proc_loop : ℕ → ℕ → ℕ → ℕ → Processes → Option ℕ
find_proc_loop zero list le pid s = none
find_proc_loop (suc fuel) list le pid s =
    let p = s.hash_links.next le in
    let rest = find_proc_loop fuel list p pid s in
    if p == list then some 0 else if s.pid p == pid then some p else rest

-- The process, or NULL.
unfoldable pub find_proc : ℕ → ℕ → Processes → Option ℕ
unfolding find_proc_loop hash32
find_proc fuel pid s =
    let list = s.hash_list + pid_hashfn pid in
    let found = find_proc_loop fuel list list pid s in
    if ltb 0 pid && ltb pid max_pid then found else some 0

unfoldable pub set_links : ℕ → Processes → Processes
unfolding list_add
set_links proc s =
    let older = s.cptr (s.parent proc) in
    let yptr = update s.yptr proc 0 in
    record s {
      links = list_add s.proc_list proc s.links;
      yptr = if older == 0 then yptr else update yptr older proc;
      optr = update s.optr proc older;
      cptr = update s.cptr (s.parent proc) proc;
      nr_process = s.nr_process + 1;
    }

unfoldable pub remove_links : ℕ → Processes → Processes
unfolding list_del
remove_links proc s =
    let older = s.optr proc in
    let yptr = if older == 0 then s.yptr else update s.yptr older (s.yptr proc) in
    let younger = yptr proc in
    record s {
      links = list_del proc s.links;
      yptr = yptr;
      optr = if younger == 0 then s.optr else update s.optr younger older;
      cptr = if younger == 0 then update s.cptr (s.parent proc) older else s.cptr;
      nr_process = s.nr_process - 1;
    }

-- What `do_fork` does with interrupts off: the pid of the new process, its place in the table, and
-- its place in the list and the family.
unfoldable pub admit_process : ℕ → ℕ → Processes → Option Processes
unfolding get_pid hash_proc set_links
admit_process fuel proc s = get_pid fuel s >>= λ (pid, t).
    some (set_links proc (hash_proc proc (record t { pid = update t.pid proc pid })))

-- What `do_wait` does with interrupts off to a process that has ended.
unfoldable pub dismiss_process : ℕ → Processes → Processes
unfolding unhash_proc remove_links
dismiss_process proc s = remove_links proc (unhash_proc proc s)
