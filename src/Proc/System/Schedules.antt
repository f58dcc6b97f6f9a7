-- ===== src/Proc/System/Schedules.antt =====
-- The lottery scheduler on the kernels that the steps reach.
use tp2_so.Prelude.{ℕ, ◌^◌, ◌≡◌, ◌<◌, ◌≤◌, true, some, find_index, done, arith}
use tp2_so.Proc.{Proc, Policy, Kernel, Services, proc_at, on_proc, is_runnable}
use tp2_so.Proc.Tame.{active}
use tp2_so.Proc.Sched.{total_tickets, lottery_round}
use tp2_so.Proc.Sched.Lottery.{sum_stakes, draw_wins, scheduled, lottery_round-runs}
use tp2_so.Proc.System.{Reach, boot}
use tp2_so.Proc.System.Safety.{Reach-IsSound}

runnable-active : (p : Proc) → is_runnable p.state ≡ true → active p ≡ true
runnable-active p h = ground arith

-- In every reachable kernel with a runnable process, whose runnable processes hold fewer than 2 ^ 31
-- tickets, a round of the lottery with a winner up to their total switches to a process that was
-- runnable: switchuvm does not panic, and the process runs, with a full time slice and one more
-- context switch counted.
pub lottery_round-Reach :
    {W : Type 0} (io : Services W) (policy : Policy) (w0 : W) (w i : ℕ) (k : Kernel W)
    → Reach io (boot policy w0) k
    → sum_stakes k.procs < 2 ^ 31
    → w ≤ total_tickets k.procs
    → find_index (λ p. is_runnable p.state) k.procs ≡ some i
    → (j : ℕ) × (is_runnable (proc_at k j).state ≡ true)
      × (lottery_round w k ≡ done (some j, on_proc j scheduled k))
lottery_round-Reach io policy w0 w i k r b le f =
    let (j, e, l, h) = draw_wins w i k.procs b le f in
    let (st, dir) = (Reach-IsSound io policy w0 r).equipped j (runnable-active (proc_at k j) h) in
    (j, h, lottery_round-runs w j k e st dir)
