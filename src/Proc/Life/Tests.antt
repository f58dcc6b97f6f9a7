-- ===== src/Proc/Life/Tests.antt =====
-- Runs of the theorems on exit and fork.
use tp2_so.Prelude.{ℕ, ◌≡◌, ◌≤◌, ◌⊎◌, refl, arith, done}
use tp2_so.Proc.{Kernel, runnable, zombie, nproc, proc_at}
use tp2_so.Proc.Samples.{plain, with_procs, family, ready, ready-IsReady}
use tp2_so.Proc.Life.{exit, fork}
use tp2_so.Proc.Life.Forked.{Failed, Made, fork_lem}
use tp2_so.Proc.Life.Orphans.{exit_lem, heir}

abbrev household : Kernel ℕ
household = with_procs (family runnable)

exit_example :
    (k' : Kernel ℕ) × (exit plain ready 1 household ≡ done k')
    × ((proc_at k' 1).state ≡ zombie)
    × ((j : ℕ)
        → (nproc ≤ j)
          ⊎ ((proc_at k' j).parent ≡ heir 1 household.initproc (proc_at household j).parent))
exit_example = exit_lem plain ready 1 household ready-IsReady refl (omega arith) refl

fork_example :
    Failed plain 1 household (fork plain 1 household)
    ⊎ Made plain 1 household (fork plain 1 household)
fork_example = fork_lem plain 1 household refl
