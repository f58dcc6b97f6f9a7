-- ===== src/Proc/System/Tests.antt =====
-- Runs of the theorems on the whole process table: the kernel boots and sets up its first process.
use tp2_so.Prelude.{ℕ, ◌≡◌, ◌≢◌, refl, true, some, arith, done}
use tp2_so.Proc.{Kernel, Policy, is_runnable, proc_at, on_proc}
use tp2_so.Proc.Samples.{plain}
use tp2_so.Proc.Table.{alloc_slot, alloc_stack, embryo_of, set_up_stack}
use tp2_so.Proc.Life.{first_of}
use tp2_so.Proc.Sched.{lottery_round, total_tickets, total_from}
use tp2_so.Proc.Sched.Lottery.{sum_stakes, scheduled}
use tp2_so.Proc.System.{boot, Step, Reach}
use tp2_so.Proc.System.Safety.{Reach-IsSound, IsSound}
use tp2_so.Proc.System.Schedules.{lottery_round-Reach}

abbrev booted : Kernel ℕ
booted = boot Policy.lottery 0

abbrev allocated : Kernel ℕ
allocated = (alloc_slot booted).1

abbrev stacked : Kernel ℕ
stacked = (alloc_stack plain 0 allocated).1

abbrev started : Kernel ℕ
started = on_proc 0 (first_of 5 7 stacked.ticks) (record stacked { initproc = some 0; world = 9 })

started-Reach : Reach plain booted started
unfolding alloc_slot alloc_stack embryo_of set_up_stack
started-Reach =
    Reach.later
      (Reach.later (Reach.later Reach.start (Step.allocates (omega arith))) (Step.stacks 0 refl))
      (Step.inits 0 5 7 9 refl has_stack has_memory)
  where
    dir : ℕ
    dir = 5

    has_stack : (proc_at stacked 0).kstack ≢ 0
    has_stack e = absurd (omega arith)

    has_memory : dir ≢ 0
    has_memory e = absurd (omega arith)

Reach-IsSound_example : IsSound started.nextpid started.procs
Reach-IsSound_example = Reach-IsSound plain Policy.lottery 0 started-Reach

lottery_round_example :
    (j : ℕ) × (is_runnable (proc_at started j).state ≡ true)
    × (lottery_round 3 started ≡ done (some j, on_proc j scheduled started))
unfolding alloc_slot alloc_stack embryo_of set_up_stack first_of sum_stakes total_tickets total_from
lottery_round_example =
    lottery_round-Reach plain Policy.lottery 0 3 0 started started-Reach (omega arith) (omega arith)
      refl
