-- ===== src/Proc/Samples.antt =====
-- Small kernels for the tests: slot 0 is init, slots 1 and 2 are its descendants.
use tp2_so.Prelude.{ℕ, ◌+◌, refl, true, false, Option, none, some, List, ◌∷◌, replicate}
use tp2_so.Proc.{ProcState, running, sleeping, Policy, Proc, Kernel, Services, zero_proc}
use tp2_so.Proc.Sched.{SchedGuard}
use tp2_so.Proc.Sched.Quantum.{IsReady}

-- Services that always succeed; the state counts the pages handed out.
abbrev pub plain : Services ℕ
plain = record {
  kalloc = λ w. (w + 1, w + 1);
  kfree = λ a w. w;
  setupkvm = λ w. (w + 1, w + 1);
  inituvm = λ d w. w;
  allocuvm = λ d old new w. (new, w);
  deallocuvm = λ d old new w. (new, w);
  copyuvm = λ d sz w. (w + 1, w + 1);
  freevm = λ d w. w;
  filedup = λ f w. w;
  fileclose = λ f w. w;
  idup = λ f w. w;
  iput = λ f w. w;
  begin_op = λ w. w;
  end_op = λ w. w;
  namei_root = λ w. (7, w);
  forkret = 1234;
}

-- The locks as sched wants them.
abbrev pub ready : SchedGuard
ready = record { holding = true; ncli = 1; interruptible = false }

pub ready-IsReady : IsReady ready
ready-IsReady = record { held = refl; once = refl; off = refl }

abbrev pub process : ℕ → Option ℕ → ProcState → Proc
process pid parent state = record zero_proc {
  pid = pid;
  parent = parent;
  state = state;
  kstack = 4096;
  pgdir = 8192;
  tickets = 10;
  priority = 1;
  timeslice = 3;
}

abbrev pub with_procs : List Proc → Kernel ℕ
with_procs ps = record {
  policy = Policy.lottery;
  procs = ps;
  initproc = some 0;
  nextpid = 4;
  ticks = 100;
  world = 0;
}

-- init sleeps, its child runs, and the child's child is in the state given.
abbrev pub family : ProcState → List Proc
family state =
    process 1 none sleeping
    ∷ process 2 (some 0) running
    ∷ process 3 (some 1) state
    ∷ replicate 61 zero_proc
