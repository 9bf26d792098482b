-- ===== src/Fs/Process/CloseAll.antt =====
-- A process that exits closes what it has opened, also where calls of other threads are in
-- progress.
use nku_os_2025_lab.Prelude.{
  ℕ, zero, suc, ◌+◌, ◌-◌, ◌<◌, ◌≤◌, ◌≡◌, ◌≢◌, refl, sym, ◌∙◌, false, eq→==, ne→==, inl, inr, Option,
  some, true, ltb, arith, ◌==◌, if◌then◌else◌,
}
use native.Mathlib.Decide.{ℕ_discrete}
use nku_os_2025_lab.Fs.File.{Files, Vfs, Status, unused, opened, closed, nentry, is_opened}
use nku_os_2025_lab.Fs.File.Table.{IsTable}
use nku_os_2025_lab.Fs.File.Close.{opened_cases, fd_array_close-Closed}
use nku_os_2025_lab.Fs.Process.{close_opened, close_loop, files_closeall}

-- The status of an entry with `held` calls in progress, after it is closed.
abbrev pub status_after : ℕ → Status → Status
status_after held st = if is_opened st then (if held == 0 then unused else closed) else st

status_after_other : (held : ℕ) (st : Status) → is_opened st ≡ false → status_after held st ≡ st
status_after_other held st o = rw o

status_after_idle : (held : ℕ) → held ≡ 0 → status_after held opened ≡ unused
status_after_idle held z = rw (eq→== held 0 z)

status_after_busy : (held : ℕ) → held ≢ 0 → status_after held opened ≡ closed
status_after_busy held n = rw (ne→== held 0 n)

module _ {W : Type 0} (v : Vfs W) (held : ℕ → ℕ) where
  -- What closing the entries from `i` on leaves, `left` of them.
  pub record Swept (left i : ℕ) (s : Files W) (run : Option (Files W)) : Type 0 where
    pub table : Files W
    pub result : run ≡ some table
    pub valid : IsTable table held
    pub statuses :
        (j : ℕ)
        → i ≤ j
        → j < i + left
        → (table.fd_array j).status ≡ status_after (held j) (s.fd_array j).status
    pub rest : (j : ℕ) → j < i → table.fd_array j ≡ s.fd_array j
    pub above : (j : ℕ) → i + left ≤ j → table.fd_array j ≡ s.fd_array j
    pub files_count : table.files_count ≡ s.files_count

  close_opened-Swept :
      (i : ℕ) (s : Files W) → IsTable s held → i < nentry → Swept 1 i s (close_opened v i s)
  unfolding close_opened
  close_opened-Swept i s t h = elim (opened_cases (s.fd_array i)) [
    | inr o ↦ record {
      table = s;
      result = rw o;
      valid = t;
      statuses = λ j a b.
          let e : (j ≡ i) = omega arith in
          rw e (sym (status_after_other (held i) (s.fd_array i).status o));
      rest = λ j k. refl;
      above = λ j k. refl;
      files_count = refl;
    }
    | inl o ↦
        let c = fd_array_close-Closed v s held i t h o in
        record {
          table = c.table;
          result = rw o c.result;
          valid = c.valid;
          statuses = λ j a b.
              let e : (j ≡ i) = omega arith in
              rw e (
                rw o (elim c.outcome [
                  | inl (n, e', w) ↦ e' ∙ sym (status_after_busy (held i) n)
                  | inr (z, e', w) ↦ e' ∙ sym (status_after_idle (held i) z)
                ]));
          rest = λ j k. c.rest j (omega arith);
          above = λ j k. c.rest j (omega arith);
          files_count = c.files_count;
        }
  ]

  close_loop-Swept :
      (left i : ℕ) (s : Files W)
      → IsTable s held
      → i + left ≤ nentry
      → Swept left i s (close_loop v left i s)
  unfolding close_loop
  close_loop-Swept zero i s t h = record {
    table = s;
    result = refl;
    valid = t;
    statuses = λ j a b. absurd (omega arith);
    rest = λ j k. refl;
    above = λ j k. refl;
    files_count = refl;
  }
  close_loop-Swept (suc left) i s t h =
      let c = close_opened-Swept i s t (omega arith) in
      let r = close_loop-Swept left (i + 1) c.table c.valid (omega arith) in
      record {
        table = r.table;
        result = rw c.result r.result;
        valid = r.valid;
        statuses = λ j a b. elim (ℕ_discrete j i) [
          | yes e ↦ rw (r.rest j (omega arith)) (c.statuses j a (omega arith))
          | no k ↦ rw (← c.above j (omega arith)) (r.statuses j (omega arith) (omega arith))
        ];
        rest = λ j k. r.rest j (omega arith) ∙ c.rest j k;
        above = λ j k. r.above j (omega arith) ∙ c.above j (omega arith);
        files_count = r.files_count ∙ c.files_count;
      }

  -- `files_closeall` on a well-formed table that is in use passes its assertions. The table stays
  -- well formed with the same calls in progress; entries 0 and 1 stay as they are, and each of the
  -- 70 entries behind them that is open is freed if no call is in progress on it and is marked
  -- closed if there is one.
  pub files_closeall-Swept :
      (s : Files W) → IsTable s held → 0 < s.files_count → Swept 70 2 s (files_closeall v s)
  unfolding files_closeall
  files_closeall-Swept s t c =
      let b : (ltb 0 s.files_count ≡ true) = ground arith in
      let r = close_loop-Swept (nentry - 2) 2 s t (omega arith) in rw b r
