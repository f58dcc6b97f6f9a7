-- ===== src/Log/Tests.antt =====
-- Runs of the theorems on the log.
use tp2_so.Prelude.{
  ◌<◌, ◌-◌, ◌⊎◌, panic, ℕ, ◌≡◌, refl, false, List, [], ◌∷◌, if◌then◌else◌, leb, length, replicate,
  arith, done, inl,
}
use tp2_so.Log.{
  logsize, absorb, Machine, Log, update, commit, recover_from_log, reboot, log_write, get_head,
  begin_op, maxopblocks,
}
use tp2_so.Log.Blocks.{member}
use tp2_so.Log.Crash.{recover-commit, IsCommitting}
use tp2_so.Log.Space.{Usage, Use, Used, fresh, log_write-cases, sum}

abbrev touched : List ℕ
touched = 5 ∷ []

-- Block 5 has been changed in the cache; the log has 3 blocks from block 10 on.
abbrev changed : Machine
changed = record {
  memory = update (λ b. replicate 4 0) 5 (42 ∷ []);
  disk = λ b. replicate 4 0;
  power = 7;
}

changed-IsCommitting : IsCommitting 10 3 (5 ∷ []) changed
unfolding get_head member
changed-IsCommitting = record {
  empty = refl;
  homes = (inl (omega arith), tt);
  fits = omega arith;
  wide = omega arith;
  coherent = λ c h m. ground arith;
}

recover-commit_example :
    (recover_from_log 10 (reboot (commit 10 (5 ∷ []) changed).disk 2)).disk 5
    ≡ (if leb changed.power (length touched) then changed.disk 5 else changed.memory 5)
recover-commit_example =
    recover-commit 10 3 (5 ∷ []) changed 2 5 changed-IsCommitting (omega arith) (inl (omega arith))

abbrev opened : Usage
opened = record {
  log = record { start = 10; size = logsize; outstanding = 1; committing = false; lh = [] };
  budgets = maxopblocks ∷ [];
}

opened-Used : Used (fresh 10 logsize) opened
unfolding begin_op
opened-Used = Used.more Used.unused (Use.opens refl)

log_write-cases_example :
    (opened.log.committing ≡ false)
    × ((length opened.log.lh < logsize - 1)
          × ((l : Log) × (log_write 5 opened.log ≡ done l) × (l.lh ≡ absorb 5 opened.log.lh))
        ⊎ (length opened.log.lh ≡ logsize - 1)
          × (sum opened.budgets ≡ 1)
          × (log_write 5 opened.log ≡ panic "too big a transaction"))
log_write-cases_example = log_write-cases 10 opened 0 9 5 opened-Used refl
