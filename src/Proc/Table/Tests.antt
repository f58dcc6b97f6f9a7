-- ===== src/Proc/Table/Tests.antt =====
-- Runs of the theorems on the process table.
use tp2_so.Prelude.{ℕ, ◌≡◌, ◌≤◌, none, some, [], ◌∷◌, arith}
use tp2_so.Proc.{Kernel, sleeping, runnable, zero_proc}
use tp2_so.Proc.Samples.{process, with_procs}
use tp2_so.Proc.Table.{set_max_time}
use tp2_so.Proc.Table.Shares.{set_max_time-shares, users, weights, granted}

abbrev pair : Kernel ℕ
pair = with_procs (process 1 none sleeping ∷ process 2 (some 0) runnable ∷ [])

abbrev one_free : Kernel ℕ
one_free = with_procs (process 1 none runnable ∷ zero_proc ∷ zero_proc ∷ [])

set_max_time-shares_example :
    (k' : Kernel ℕ) × (set_max_time pair ≡ some (users pair.procs, k')) × (granted k'.procs ≤ 10000)
unfolding users weights
set_max_time-shares_example = set_max_time-shares pair (omega arith) (omega arith) (omega arith)
