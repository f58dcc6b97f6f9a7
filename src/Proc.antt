-- ===== src/Proc.antt =====
-- proc.h: the process table's records, and what proc.c needs of the rest of the kernel.
pub mod Tame
pub mod Table
pub mod Life
pub mod Wait
pub mod Sched
pub mod System
pub mod Samples
use tp2_so.Prelude.{
  ℕ, ◌+◌, ◌*◌, ◌^◌, Bool, true, false, Option, none, some, List, [], ◌∷◌, if◌then◌else◌, ◌==◌,
  get_or, modify, replicate,
}

-- `enum procstate`
pub data ProcState : Type 0 where
  unused embryo sleeping runnable running zombie : ProcState

abbrev pub is_unused : ProcState → Bool
is_unused unused = true
is_unused _ = false

abbrev pub is_sleeping : ProcState → Bool
is_sleeping sleeping = true
is_sleeping _ = false

abbrev pub is_runnable : ProcState → Bool
is_runnable runnable = true
is_runnable _ = false

abbrev pub is_running : ProcState → Bool
is_running running = true
is_running _ = false

abbrev pub is_zombie : ProcState → Bool
is_zombie zombie = true
is_zombie _ = false

-- `void *chan`: null, the address of a slot of the process table, or another address. The kernel
-- sleeps on the address of one of its objects, so addresses are only compared.
pub data Chan : Type 0 where
  null : Chan
  slot : ℕ → Chan
  object : ℕ → Chan

abbrev pub chan_eq : Chan → Chan → Bool
chan_eq null null = true
chan_eq (slot i) (slot j) = i == j
chan_eq (object a) (object b) = a == b
chan_eq _ _ = false

-- `struct trapframe` of x86.h, without its padding.
pub record Trapframe : Type 0 where
  pub edi : ℕ
  pub esi : ℕ
  pub ebp : ℕ
  pub oesp : ℕ
  pub ebx : ℕ
  pub edx : ℕ
  pub ecx : ℕ
  pub eax : ℕ
  pub gs : ℕ
  pub fs : ℕ
  pub es : ℕ
  pub ds : ℕ
  pub trapno : ℕ
  pub err : ℕ
  pub eip : ℕ
  pub cs : ℕ
  pub eflags : ℕ
  pub esp : ℕ
  pub ss : ℕ

-- `struct proc`. A pointer into the process table is an index of it, and `none` is null. Pointers to
-- other objects are addresses, and 0 is null. An `int` is a word of 32 bits.
pub record Proc : Type 0 where
  pub sz : ℕ
  pub pgdir : ℕ
  pub kstack : ℕ
  pub state : ProcState
  pub pid : ℕ
  pub parent : Option ℕ
  pub tf : ℕ  -- address of the trap frame
  pub frame : Trapframe  -- what stands there
  pub context : ℕ  -- address of the saved context
  pub resume_at : ℕ  -- its `eip`
  pub chan : Chan
  pub killed : ℕ
  pub ofile : List ℕ
  pub cwd : ℕ
  pub name : List ℕ
  pub traceflag : ℕ
  pub counter : ℕ
  pub timeslice : ℕ
  pub tickets : ℕ
  pub retime : ℕ
  pub stime : ℕ
  pub rutime : ℕ
  pub ctime : ℕ
  pub total_time : ℕ
  pub max_time : ℕ
  pub init_time : ℕ
  pub priority : ℕ

-- param.h, and sizes that the i386 layout fixes.
abbrev pub nproc : ℕ
nproc = 64

abbrev pub nofile : ℕ
nofile = 16

abbrev pub interv : ℕ
interv = 5

abbrev pub kstacksize : ℕ
kstacksize = 4096

abbrev pub pgsize : ℕ
pgsize = 4096

abbrev pub sizeof_trapframe : ℕ
sizeof_trapframe = 76

abbrev pub sizeof_context : ℕ
sizeof_context = 20

-- The scheduler is chosen when the kernel is compiled: the flags LOTTERY and PRIORITY.
pub data Policy : Type 0 where
  lottery priority_rr : Policy

-- `memset(p->tf, 0, sizeof(*p->tf))`
abbrev pub zero_frame : Trapframe
zero_frame = record {
  edi = 0;
  esi = 0;
  ebp = 0;
  oesp = 0;
  ebx = 0;
  edx = 0;
  ecx = 0;
  eax = 0;
  gs = 0;
  fs = 0;
  es = 0;
  ds = 0;
  trapno = 0;
  err = 0;
  eip = 0;
  cs = 0;
  eflags = 0;
  esp = 0;
  ss = 0;
}

-- A slot of the static array, all zero.
abbrev pub zero_proc : Proc
zero_proc = record {
  sz = 0;
  pgdir = 0;
  kstack = 0;
  state = unused;
  pid = 0;
  parent = none;
  tf = 0;
  frame = zero_frame;
  context = 0;
  resume_at = 0;
  chan = null;
  killed = 0;
  ofile = replicate nofile 0;
  cwd = 0;
  name = replicate 16 0;
  traceflag = 0;
  counter = 0;
  timeslice = 0;
  tickets = 0;
  retime = 0;
  stime = 0;
  rutime = 0;
  ctime = 0;
  total_time = 0;
  max_time = 0;
  init_time = 0;
  priority = 0;
}

-- The globals of proc.c with `ticks` of trap.c, and the rest of the kernel's state.
pub record Kernel (W : Type 0) : Type 0 where
  pub policy : Policy
  pub procs : List Proc
  pub initproc : Option ℕ
  pub nextpid : ℕ
  pub ticks : ℕ
  pub world : W

-- `&ptable.proc[i]` read, and written through.
abbrev pub proc_at : {W : Type 0} → Kernel W → ℕ → Proc
proc_at k i = get_or k.procs i zero_proc

abbrev pub on_proc : {W : Type 0} → ℕ → (Proc → Proc) → Kernel W → Kernel W
on_proc i f k = record k { procs = modify k.procs i f }

-- The operations of kalloc.c, vm.c, file.c, fs.c and log.c that proc.c calls, over their state.
pub record Services (W : Type 0) : Type 0 where
  pub kalloc : W → ℕ × W
  pub kfree : ℕ → W → W
  pub setupkvm : W → ℕ × W
  pub inituvm : ℕ → W → W
  pub allocuvm : ℕ → ℕ → ℕ → W → ℕ × W
  pub deallocuvm : ℕ → ℕ → ℕ → W → ℕ × W
  pub copyuvm : ℕ → ℕ → W → ℕ × W
  pub freevm : ℕ → W → W
  pub filedup : ℕ → W → W
  pub fileclose : ℕ → W → W
  pub idup : ℕ → W → W
  pub iput : ℕ → W → W
  pub begin_op : W → W
  pub end_op : W → W
  pub namei_root : W → ℕ × W
  pub forkret : ℕ  -- the address of the function

-- What sys_set_tickets and sys_trace write.
abbrev pub with_tickets : ℕ → Proc → Proc
with_tickets n p = record p { tickets = n }

abbrev pub with_trace : ℕ → Proc → Proc
with_trace n p = record p { traceflag = n }
