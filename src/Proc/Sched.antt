-- ===== src/Proc/Sched.antt =====
-- proc.c: sched, yield, sleep and the two schedulers. A switch to another context ends a function of
-- the model: its result is the kernel's state at the switch.
pub mod Keeps
pub mod Lottery
pub mod Priority
pub mod Quantum
pub mod Tests
use tp2_so.Prelude.{
  ℕ, zero, suc, ◌+◌, ◌-◌, ◌*◌, Bool, true, false, not, ◌&&◌, ◌||◌, Option, none, some, List, [],
  ◌∷◌, if◌then◌else◌, ◌==◌, get_or, modify, add32, sub32, mul32, slt32, sle32, Outcome, done, panic,
  panic_if, ◌>>=◌, ◌>>◌,
}
use tp2_so.Proc.{
  ProcState, unused, embryo, sleeping, runnable, running, zombie, is_runnable, is_running, Chan,
  null, Proc, Kernel, proc_at, on_proc, interv, zero_proc,
}

-- What sched asks of the processor: whether it holds `ptable.lock`, how deep its pushcli calls are
-- nested, and whether interrupts are on.
pub record SchedGuard : Type 0 where
  pub holding : Bool
  pub ncli : ℕ
  pub interruptible : Bool

module _ {W : Type 0} where
  -- The state at `swtch`. Saving and restoring `intena` concerns the processor only.
  pub sched : SchedGuard → ℕ → Kernel W → Outcome (Kernel W)
  sched g cur k =
      panic_if (not g.holding) "sched ptable.lock"
      >> panic_if (not (g.ncli == 1)) "sched locks"
      >> panic_if (is_running (proc_at k cur).state) "sched running"
      >> panic_if g.interruptible "sched interruptible"
      >> done (on_proc cur (λ p. record p { counter = add32 p.counter 1 }) k)

  -- yield gives the processor up only when the time slice has run out.
  pub yield_proc : SchedGuard → ℕ → Kernel W → Outcome (Kernel W)
  unfolding sched
  yield_proc g cur k =
      let k1 = on_proc cur (λ p. record p { timeslice = sub32 p.timeslice 1 }) k in
      if (proc_at k1 cur).timeslice == 0
      then sched g cur (on_proc cur (λ p. record p { state = runnable }) k1)
      else done k1

  -- sleep(chan, lk) up to its switch; `lk` is only tested here, and `none` for `myproc()` is null.
  pub sleep : SchedGuard → Option ℕ → Bool → Chan → Kernel W → Outcome (Kernel W)
  sleep g none lk_null chan k = panic "sleep"
  sleep g (some cur) lk_null chan k =
      panic_if lk_null "sleep without lk"
      >> sched g cur (on_proc cur (λ p. record p { chan = chan; state = sleeping }) k)

  -- The end of sleep, when the process runs again.
  pub awake : ℕ → Kernel W → Kernel W
  awake cur k = on_proc cur (λ p. record p { chan = null }) k

-- switchuvm's checks of the process to be run.
pub check_vm : Proc → Outcome (Unit {0})
check_vm p =
    panic_if (p.kstack == 0) "switchuvm: no kstack" >> panic_if (p.pgdir == 0) "switchuvm: no pgdir"

-- The lottery scheduler: the loop that adds up the tickets of the runnable processes.
unfoldable pub total_from : ℕ → List Proc → ℕ
total_from sum [] = sum
total_from sum (p ∷ ps) = total_from (if is_runnable p.state then add32 sum p.tickets else sum) ps

unfoldable pub total_tickets : List Proc → ℕ
unfolding total_from
total_tickets procs = total_from 0 procs

-- The loop that looks for the process with the winning ticket.
pub draw : ℕ → ℕ → List Proc → Option ℕ
draw winner passed [] = none
draw winner passed (p ∷ ps) =
    let passed1 = if is_runnable p.state then add32 passed p.tickets else passed in
    let rest = draw winner passed1 ps in
    if is_runnable p.state && not (slt32 passed1 winner)
    then some 0
    else elim rest [ none ↦ none | some i ↦ some (suc i) ]

start_lottery : Proc → Proc
start_lottery p = record p { state = running; counter = add32 p.counter 1; timeslice = interv }

module _ {W : Type 0} where
  -- One round of the `for(;;)`, once the winner is drawn: the slot that runs, and the state when it
  -- is switched to.
  pub lottery_round : ℕ → Kernel W → Outcome (Option ℕ × Kernel W)
  unfolding draw start_lottery check_vm
  lottery_round winner k = elim (draw winner 0 k.procs) [
    | none ↦ done (none, k)
    | some i ↦ check_vm (proc_at k i) >> done (some i, on_proc i start_lottery k)
  ]

-- The priority scheduler: how long a slot has run since `init_time`, in tenths of a tick.
abbrev pub proc_time : ℕ → Proc → ℕ
proc_time now p = sub32 (mul32 now 10) (mul32 p.init_time 10)

-- The inner loop over `p1`: the best slot so far and its priority.
pub highest : List Proc → ℕ → ℕ → ℕ → ℕ
highest [] j best priority = best
highest (p ∷ ps) j best priority =
    let better = is_runnable p.state && slt32 priority p.priority in
    highest ps (j + 1) (if better then j else best) (if better then p.priority else priority)

-- A slot whose time is over starts a new period.
renew : ℕ → Proc → Proc
renew now p = record p { total_time = sub32 now p.init_time; init_time = now }

-- The loop over `p` from slot `i`, up to the next slot that may run: the slot chosen, with the table.
pub scan : ℕ → ℕ → ℕ → List Proc → Option ℕ × List Proc
unfolding renew highest
scan zero i now procs = (none, procs)
scan (suc n) i now procs =
    let p = get_or procs i zero_proc in
    let over = sle32 p.max_time (proc_time now p) in
    let rest = scan n (i + 1) now (if over then modify procs i (renew now) else procs) in
    if not (is_runnable p.state) || over then rest else (some (highest procs 0 i p.priority), procs)

start_priority : Proc → Proc
start_priority p = record p { state = running }

module _ {W : Type 0} where
  -- From slot `i` to the next switch or to the end of the table. After a switch the loop goes on
  -- behind the slot that ran.
  pub priority_round : ℕ → ℕ → Kernel W → Outcome (Option ℕ × Kernel W)
  unfolding scan start_priority check_vm
  priority_round n i k =
      let (chosen, procs) = scan n i k.ticks k.procs in
      let k1 = record k { procs = procs } in
      elim chosen [
        | none ↦ done (none, k1)
        | some j ↦ check_vm (proc_at k1 j) >> done (some j, on_proc j start_priority k1)
      ]
