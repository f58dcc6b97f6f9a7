-- ===== src/Proc/Table.antt =====
-- proc.c: the operations on the process table that one pass under `ptable.lock` performs.
pub mod Keeps
pub mod Alloc
pub mod Effects
pub mod Shares
pub mod Tests
use tp2_so.Prelude.{
  ℕ, zero, suc, ◌+◌, ◌-◌, ◌*◌, ◌%◌, ◌^◌, Bool, true, false, not, ◌&&◌, ◌||◌, Option, none, some,
  List, [], ◌∷◌, map, if◌then◌else◌, ◌==◌, get_or, modify, find_index, add32, mul32, sdiv32,
  minus_one,
}
use tp2_so.Proc.{
  ProcState, unused, embryo, sleeping, runnable, running, zombie, is_unused, is_sleeping, Chan,
  chan_eq, Proc, Policy, lottery, priority_rr, Kernel, proc_at, on_proc, Services, kstacksize,
  sizeof_trapframe, sizeof_context,
}

-- wakeup1, on one slot.
wake : Chan → Proc → Proc
wake chan p =
    if is_sleeping p.state && chan_eq p.chan chan then record p { state = runnable } else p

pub wakeup1 : Chan → List Proc → List Proc
unfolding wake
wakeup1 chan procs = map (wake chan) procs

pub wakeup : {W : Type 0} → Chan → Kernel W → Kernel W
wakeup chan k = record k { procs = wakeup1 chan k.procs }

-- kill, on the slot that it finds.
mark_killed : Proc → Proc
mark_killed p =
    if is_sleeping p.state
    then record p { killed = 1; state = runnable }
    else record p { killed = 1 }

pub kill : {W : Type 0} → ℕ → Kernel W → ℕ × Kernel W
unfolding mark_killed
kill pid k = elim (find_index (λ p. p.pid == pid) k.procs) [
  | none ↦ (minus_one, k)
  | some i ↦ (0, on_proc i mark_killed k)
]

-- set_priority returns its argument whether or not a slot has the pid.
pub set_priority : {W : Type 0} → ℕ → ℕ → Kernel W → ℕ × Kernel W
set_priority pid priority k = elim (find_index (λ p. p.pid == pid) k.procs) [
  | none ↦ (pid, k)
  | some i ↦ (pid, on_proc i (λ p. record p { priority = priority }) k)
]

-- countprocs, on one slot.
count_tick : Proc → Proc
count_tick p = elim p.state [
  | runnable ↦ record p { retime = add32 p.retime 1 }
  | running ↦ record p { rutime = add32 p.rutime 1 }
  | sleeping ↦ record p { stime = add32 p.stime 1 }
  | _ ↦ p
]

pub countprocs : {W : Type 0} → Kernel W → Kernel W
unfolding count_tick
countprocs k = record k { procs = map count_tick k.procs }

-- set_max_time: the first loop, with `proc_quantum` and `priority_sum`.
pub quantum_and_sum : List Proc → ℕ → ℕ → ℕ × ℕ
quantum_and_sum [] quantum sum = (quantum, sum)
quantum_and_sum (p ∷ ps) quantum sum =
    let used = not (p.pid == 0) in
    quantum_and_sum ps (if used then add32 quantum 1 else quantum)
      (if used then add32 sum p.priority else sum)

-- The second loop, on one slot.
pub share : ℕ → Proc → Proc
share sum p = if p.pid == 0 then p else record p { max_time = sdiv32 (mul32 10000 p.priority) sum }

-- Whether the processor does that division: it raises the divide error where the sum is 0, and for the
-- smallest `int` divided by -1.
pub divides : ℕ → Proc → Bool
divides sum p =
    p.pid == 0 || not (sum == 0) && not (sum == minus_one && mul32 10000 p.priority == 2 ^ 31)

pub all_divide : ℕ → List Proc → Bool
all_divide sum [] = true
all_divide sum (p ∷ ps) = divides sum p && all_divide sum ps

-- `none` is the divide error.
pub set_max_time : {W : Type 0} → Kernel W → Option (ℕ × Kernel W)
unfolding quantum_and_sum share all_divide
set_max_time k =
    let (quantum, sum) = quantum_and_sum k.procs 0 0 in
    if all_divide sum k.procs
    then some (quantum, record k { procs = map (share sum) k.procs })
    else none

-- allocproc up to the release of the lock: the slot found, and what is written to it.
unfoldable pub embryo_of : Policy → ℕ → ℕ → Proc → Proc
embryo_of lottery pid ticks p = record p { tickets = 10; state = embryo; pid = pid }
embryo_of priority_rr pid ticks p = record p {
  state = embryo;
  pid = pid;
  priority = 1;
  init_time = ticks;
}

unfoldable pub alloc_slot : {W : Type 0} → Kernel W → Option ℕ × Kernel W
unfolding embryo_of
alloc_slot k = elim (find_index (λ p. is_unused p.state) k.procs) [
  | none ↦ (none, k)
  | some i ↦ (
    some i,
    record k {
      procs = modify k.procs i (embryo_of k.policy k.nextpid k.ticks);
      nextpid = add32 k.nextpid 1;
    },
  )
]

-- The rest of allocproc: the kernel stack, whose top holds the trap frame, the return address
-- `trapret` and the context.
unfoldable pub set_up_stack : ℕ → ℕ → ℕ → Proc → Proc
set_up_stack stack forkret ticks p =
    let tf = stack + kstacksize - sizeof_trapframe in
    record p {
      kstack = stack;
      tf = tf;
      context = tf - 4 - sizeof_context;
      resume_at = forkret;
      ctime = ticks;
      stime = 0;
      retime = 0;
      rutime = 0;
    }

unfoldable pub alloc_stack : {W : Type 0} → Services W → ℕ → Kernel W → Option ℕ × Kernel W
unfolding set_up_stack
alloc_stack io i k =
    let (stack, w) = io.kalloc k.world in
    let k1 = record k { world = w } in
    if stack == 0
    then (none, on_proc i (λ p. record p { kstack = 0; state = unused }) k1)
    else (some i, on_proc i (set_up_stack stack io.forkret k.ticks) k1)

-- allocproc, once the first half has found a slot or none.
pub alloc_rest : {W : Type 0} → Services W → Option ℕ × Kernel W → Option ℕ × Kernel W
unfolding alloc_stack
alloc_rest io (none, k) = (none, k)
alloc_rest io (some i, k) = alloc_stack io i k

pub allocproc : {W : Type 0} → Services W → Kernel W → Option ℕ × Kernel W
unfolding alloc_slot alloc_rest
allocproc io k = alloc_rest io (alloc_slot k)
