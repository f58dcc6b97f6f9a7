-- ===== src/Proc/System.antt =====
-- The kernel's processes as a transition system: a step is what one process or processor does to the
-- table while it holds `ptable.lock`, or outside it to a slot that is its own. fork and userinit are
-- split where they let the lock go.
pub mod Safety
pub mod Forks
pub mod Schedules
pub mod Tests
use tp2_so.Prelude.{ℕ, ◌+◌, ◌<◌, ◌^◌, ◌≡◌, ◌≢◌, Bool, Option, none, some, List, replicate, done}
use tp2_so.Proc.{
  ProcState, unused, embryo, running, Chan, Policy, Proc, Kernel, Services, proc_at, on_proc,
  zero_proc, nproc, with_tickets, with_trace,
}
use tp2_so.Proc.Tame.{Runs}
use tp2_so.Proc.Table.{
  alloc_slot, alloc_stack, wakeup, kill, set_priority, countprocs, set_max_time,
}
use tp2_so.Proc.Sched.{SchedGuard, yield_proc, sleep, awake, lottery_round, priority_round}
use tp2_so.Proc.Life.{growproc, exit, child_of, first_of, exec_image}
use tp2_so.Proc.Wait.{Waited, Times, wait, wait2}

-- The kernel when `pinit` has run: no slot is in use.
abbrev pub boot : {W : Type 0} → Policy → W → Kernel W
boot policy w = record {
  policy = policy;
  procs = replicate nproc zero_proc;
  initproc = none;
  nextpid = 1;
  ticks = 0;
  world = w;
}

module _ {W : Type 0} (io : Services W) where
  pub data Step (k : Kernel W) : Kernel W → Type 0 where
    -- allocproc; the pids, which are ints, have not run out.
    allocates : k.nextpid + 1 < 2 ^ 31 → Step k (alloc_slot k).1
    stacks : (i : ℕ) → (proc_at k i).state ≡ embryo → Step k (alloc_stack io i k).1
    -- fork gives up: its copy of the memory failed.
    abandons :
        (i : ℕ) (w : W)
        → (proc_at k i).state ≡ embryo
        → Step k (on_proc i (λ p. record p { kstack = 0; state = unused }) (record k { world = w }))
    -- fork lets the child run.
    forks :
        (i cur dir : ℕ) (w : W)
        → (proc_at k i).state ≡ embryo
        → (proc_at k i).kstack ≢ 0
        → dir ≢ 0
        → Step k (on_proc i (child_of cur dir (proc_at k cur)) (record k { world = w }))
    -- userinit lets the first process run.
    inits :
        (i dir root : ℕ) (w : W)
        → (proc_at k i).state ≡ embryo
        → (proc_at k i).kstack ≢ 0
        → dir ≢ 0
        → Step k (on_proc i (first_of dir root k.ticks) (record k { initproc = some i; world = w }))
    grows : (cur n : ℕ) → Step k (growproc io cur n k).1
    -- exec commits to the new image; `w` is the rest of the kernel after freevm.
    execs :
        (cur dir sz entry sp : ℕ) (last : List ℕ) (w : W)
        → Runs k.procs cur
        → dir ≢ 0
        → Step k (on_proc cur (exec_image dir sz entry sp last) (record k { world = w }))
    -- sys_set_tickets and sys_trace, of any int.
    buys : (cur n : ℕ) → Step k (on_proc cur (with_tickets n) k)
    traces : (cur n : ℕ) → Step k (on_proc cur (with_trace n) k)
    exits :
        (g : SchedGuard) (cur : ℕ) {k' : Kernel W}
        → Runs k.procs cur
        → exit io g cur k ≡ done k'
        → Step k k'
    waits :
        (g : SchedGuard) (cur : ℕ) (r : Waited) {k' : Kernel W}
        → Runs k.procs cur
        → wait io g cur k ≡ done (r, k')
        → Step k k'
    waits2 :
        (g : SchedGuard) (cur : ℕ) (r : Waited) (t : Option Times) {k' : Kernel W}
        → Runs k.procs cur
        → wait2 io g cur k ≡ done (r, t, k')
        → Step k k'
    sleeps :
        (g : SchedGuard) (cur : ℕ) (lk_null : Bool) (chan : Chan) {k' : Kernel W}
        → Runs k.procs cur
        → sleep g (some cur) lk_null chan k ≡ done k'
        → Step k k'
    awakes : (cur : ℕ) → Step k (awake cur k)
    yields :
        (g : SchedGuard) (cur : ℕ) {k' : Kernel W}
        → Runs k.procs cur
        → yield_proc g cur k ≡ done k'
        → Step k k'
    wakes : (chan : Chan) → Step k (wakeup chan k)
    kills : (pid : ℕ) → Step k (kill pid k).1
    prioritises : (pid priority : ℕ) → Step k (set_priority pid priority k).1
    counts : Step k (countprocs k)
    -- trap.c: the clock.
    ticks : (t : ℕ) → Step k (record k { ticks = t })
    shares : (n : ℕ) {k' : Kernel W} → set_max_time k ≡ some (n, k') → Step k k'
    draws : (w : ℕ) (o : Option ℕ) {k' : Kernel W} → lottery_round w k ≡ done (o, k') → Step k k'
    picks :
        (n i : ℕ) (o : Option ℕ) {k' : Kernel W} → priority_round n i k ≡ done (o, k') → Step k k'
    -- The services' state changes by itself: other parts of the kernel use it.
    turns : (w : W) → Step k (record k { world = w })

  pub data Reach (k : Kernel W) : Kernel W → Type 0 where
    start : Reach k k
    later : {k1 k2 : Kernel W} → Reach k k1 → Step k1 k2 → Reach k k2
