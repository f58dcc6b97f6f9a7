-- ===== src/Syscall.antt =====
-- syscall.c and sysproc.c: the arguments of a system call, the dispatch, and the calls on processes. The
-- memory of the process is a function from its addresses to bytes.
pub mod Arguments
pub mod Dispatch
pub mod Tests
use tp2_so.Prelude.{
  ℕ, zero, suc, ◌+◌, ◌-◌, ◌*◌, ◌^◌, Bool, true, false, not, ◌&&◌, ◌||◌, Option, none, some, List,
  [], ◌∷◌, ◌++◌, if◌then◌else◌, ◌==◌, ltb, leb, get_elem?, add32, sub32, slt32, minus_one,
}
use tp2_so.Proc.{Proc, Kernel, proc_at, on_proc, with_tickets, with_trace, Services}
use tp2_so.Proc.Life.{growproc}

-- `*(int*)addr`
abbrev pub int_at : (ℕ → ℕ) → ℕ → ℕ
int_at mem addr =
    mem addr + 2 ^ 8 * mem (addr + 1) + 2 ^ 16 * mem (addr + 2) + 2 ^ 24 * mem (addr + 3)

-- `none` is the result -1, and else it is what the function stores.
unfoldable pub fetchint : (ℕ → ℕ) → Proc → ℕ → Option ℕ
fetchint mem p addr =
    if leb p.sz addr || ltb p.sz (add32 addr 4) then none else some (int_at mem addr)

abbrev pub one_more : Option ℕ → Option ℕ
one_more none = none
one_more (some n) = some (n + 1)

-- The loop of fetchstr over the `left` addresses from `s` to the end: the characters before the 0.
pub str_from : (ℕ → ℕ) → ℕ → ℕ → Option ℕ
str_from mem zero s = none
str_from mem (suc left) s =
    let rest = one_more (str_from mem left (s + 1)) in if mem s == 0 then some 0 else rest

-- The length of the string.
pub fetchstr : (ℕ → ℕ) → Proc → ℕ → Option ℕ
unfolding str_from
fetchstr mem p addr = if leb p.sz addr then none else str_from mem (p.sz - addr) addr

pub argint : (ℕ → ℕ) → Proc → ℕ → Option ℕ
unfolding fetchint
argint mem p n = fetchint mem p (add32 (p.frame.esp + 4) (4 * n))

pub argptr : (ℕ → ℕ) → Proc → ℕ → ℕ → Option ℕ
unfolding argint
argptr mem p n size = elim (argint mem p n) [
  | none ↦ none
  | some i ↦ if slt32 size 0 || (leb p.sz i || ltb p.sz (add32 i size)) then none else some i
]

-- The address of the string and its length.
pub argstr : (ℕ → ℕ) → Proc → ℕ → Option (ℕ × ℕ)
unfolding argint fetchstr
argstr mem p n = elim (argint mem p n) [
  | none ↦ none
  | some addr ↦ elim (fetchstr mem p addr) [ none ↦ none | some len ↦ some (addr, len) ]
]

pub data Call : Type 0 where
  fork exit wait pipe read kill exec fstat chdir dup getpid sbrk sleep uptime open_file write mknod
        unlink link mkdir close :
      Call
  trace cs set_tickets set_priority wait2 yield : Call

-- The array `syscalls`, with the null entry 0.
abbrev pub syscalls : List (Option Call)
syscalls =
    none
    ∷ some fork
    ∷ some exit
    ∷ some wait
    ∷ some pipe
    ∷ some read
    ∷ some kill
    ∷ some exec
    ∷ some fstat
    ∷ some chdir
    ∷ some dup
    ∷ some getpid
    ∷ some sbrk
    ∷ some sleep
    ∷ some uptime
    ∷ some open_file
    ∷ some write
    ∷ some mknod
    ∷ some unlink
    ∷ some link
    ∷ some mkdir
    ∷ some close
    ∷ some trace
    ∷ some cs
    ∷ some set_tickets
    ∷ some set_priority
    ∷ some wait2
    ∷ some yield
    ∷ []

-- The array `syscallnames` has the names in the same order; a name is its call.
abbrev pub syscallnames : List (Option Call)
syscallnames = syscalls

-- NELEM(syscalls)
abbrev pub nelem : ℕ
nelem = 28

-- What syscall prints.
pub data Message : Type 0 where
  unknown_call : ℕ → List ℕ → ℕ → Message
  traced : ℕ → List ℕ → ℕ → Option Call → Message

module _ {W : Type 0} where
  abbrev pub set_eax : ℕ → ℕ → Kernel W → Kernel W
  set_eax cur v k = on_proc cur (λ q. record q { frame = record (q.frame) { eax = v } }) k

  -- `syscalls[num]()`, for handlers that return; a null entry is an unknown call, and `none` is what is not in
  -- the array.
  call_handler :
      (Call → Kernel W → ℕ × Kernel W)
      → ℕ
      → Kernel W
      → Option (Option Call)
      → Option (List Message × Kernel W)
  call_handler run cur k none = none
  call_handler run cur k (some none) =
      let p = proc_at k cur in
      some (unknown_call p.pid p.name p.frame.eax ∷ [], set_eax cur minus_one k)
  call_handler run cur k (some (some c)) = some ([], set_eax cur (run c k).0 (run c k).1)

  -- The first half of syscall.
  pub run_call : (Call → Kernel W → ℕ × Kernel W) → ℕ → Kernel W → Option (List Message × Kernel W)
  unfolding call_handler
  run_call run cur k =
      let p = proc_at k cur in
      let num = p.frame.eax in
      let known = call_handler run cur k (get_elem? syscalls num) in
      let unknown = some (unknown_call p.pid p.name num ∷ [], set_eax cur minus_one k) in
      if slt32 0 num && ltb num nelem then known else unknown

  -- The trace, with the name that stands in the array.
  traced_call :
      ℕ → ℕ → Kernel W → List Message → Option (Option Call) → Option (List Message × Kernel W)
  traced_call cur num k said none = none
  traced_call cur num k said (some name) =
      let p = proc_at k cur in some (said ++ traced p.pid p.name num name ∷ [], k)

  -- The second half of syscall.
  trace_call : ℕ → ℕ → Option (List Message × Kernel W) → Option (List Message × Kernel W)
  unfolding traced_call
  trace_call cur num none = none
  trace_call cur num (some (said, k)) =
      let shown = traced_call cur num k said (get_elem? syscallnames num) in
      if (proc_at k cur).traceflag == 0 then some (said, k) else shown

  -- `none`: one of the two arrays is read outside its bounds.
  pub syscall : (Call → Kernel W → ℕ × Kernel W) → ℕ → Kernel W → Option (List Message × Kernel W)
  unfolding run_call trace_call
  syscall run cur k = trace_call cur (proc_at k cur).frame.eax (run_call run cur k)

  -- sysproc.c. `cur` is the slot of the process that calls.
  module _ (mem : ℕ → ℕ) (cur : ℕ) where
    pub sys_kill : Kernel W → ℕ × Kernel W
    unfolding argint
    sys_kill k = elim (argint mem (proc_at k cur) 0) [
      | none ↦ (minus_one, k)
      | some pid ↦ tp2_so.Proc.Table.kill pid k
    ]

    pub sys_sbrk : Services W → Kernel W → ℕ × Kernel W
    unfolding argint
    sys_sbrk io k = elim (argint mem (proc_at k cur) 0) [
      | none ↦ (minus_one, k)
      | some n ↦
          let (r, k1) = growproc io cur n k in
          if slt32 r 0 then (minus_one, k1) else ((proc_at k cur).sz, k1)
    ]

    pub sys_trace : Kernel W → ℕ × Kernel W
    unfolding argint
    sys_trace k = elim (argint mem (proc_at k cur) 0) [
      | none ↦ (minus_one, k)
      | some n ↦ (0, on_proc cur (with_trace n) k)
    ]

    pub sys_set_tickets : Kernel W → ℕ × Kernel W
    unfolding argint
    sys_set_tickets k = elim (argint mem (proc_at k cur) 0) [
      | none ↦ (minus_one, k)
      | some n ↦ (n, on_proc cur (with_tickets n) k)
    ]

    pub sys_set_priority : Kernel W → ℕ × Kernel W
    unfolding argint
    sys_set_priority k = elim (argint mem (proc_at k cur) 0) [
      | none ↦ (minus_one, k)
      | some pid ↦ elim (argint mem (proc_at k cur) 1) [
        | none ↦ (minus_one, k)
        | some pr ↦ tp2_so.Proc.Table.set_priority pid pr k
      ]
    ]

    pub sys_getpid : Kernel W → ℕ × Kernel W
    sys_getpid k = ((proc_at k cur).pid, k)

    pub sys_cs : Kernel W → ℕ × Kernel W
    sys_cs k = ((proc_at k cur).counter, k)
