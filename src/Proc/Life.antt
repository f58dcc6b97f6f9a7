-- ===== src/Proc/Life.antt =====
-- proc.c: userinit, growproc, fork and exit. `cur` is the slot of `myproc()`.
pub mod Keeps
pub mod Orphans
pub mod Forking
pub mod Forked
pub mod Tests
use tp2_so.Prelude.{
  ℕ, zero, suc, ◌+◌, ◌-◌, ◌*◌, Bool, true, false, not, ◌&&◌, Option, none, some, List, [], ◌∷◌, map,
  if◌then◌else◌, ◌==◌, get_or, modify, replicate, add32, slt32, minus_one, Outcome, done, panic,
  panic_if, ◌>>=◌, ◌>>◌,
}
use tp2_so.Str.{safestrcpy}
use tp2_so.Proc.{
  ProcState, unused, embryo, sleeping, runnable, running, zombie, is_zombie, Chan, null, slot, Proc,
  zero_proc, Kernel, proc_at, on_proc, Services, pgsize, nproc, nofile, Trapframe, zero_frame,
}
use tp2_so.Proc.Table.{allocproc, wakeup1, wakeup}
use tp2_so.Proc.Sched.{SchedGuard, sched}

-- `ptr == ptr` for pointers into the table.
abbrev pub same_slot : Option ℕ → Option ℕ → Bool
same_slot none none = true
same_slot (some i) (some j) = i == j
same_slot _ _ = false

-- The address that a pointer into the table is, as a channel.
abbrev pub chan_of : Option ℕ → Chan
chan_of none = null
chan_of (some i) = slot i

-- `safestrcpy(p->name, "initcode", sizeof(p->name))`, and `"initcode"` with its terminating 0.
abbrev initcode_name : List ℕ
initcode_name = b'i' ∷ b'n' ∷ b'i' ∷ b't' ∷ b'c' ∷ b'o' ∷ b'd' ∷ b'e' ∷ 0 ∷ []

-- The user registers of the first process: selectors (SEG_UCODE << 3) | DPL_USER and
-- (SEG_UDATA << 3) | DPL_USER, and the flag FL_IF.
init_frame : Trapframe
init_frame = record zero_frame {
  cs = 27;
  ds = 35;
  es = 35;
  ss = 35;
  eflags = 0x200;
  esp = pgsize;
  eip = 0;
}

-- What userinit writes to the first slot, the final `state = RUNNABLE` included.
unfoldable pub first_of : ℕ → ℕ → ℕ → Proc → Proc
unfolding init_frame
first_of dir root ticks p = record p {
  pgdir = dir;
  sz = pgsize;
  ctime = ticks;
  frame = init_frame;
  name = safestrcpy p.name initcode_name 16;
  cwd = root;
  state = runnable;
}

-- `np->ofile[i] = filedup(curproc->ofile[i])` where it is set, for both arrays in step.
pub copy_files : List ℕ → List ℕ → List ℕ
copy_files [] old = old
copy_files (f ∷ fs) [] = []
copy_files (f ∷ fs) (o ∷ old) = (if f == 0 then o else f) ∷ copy_files fs old

-- What fork writes to the child's slot, the final `state = RUNNABLE` included.
pub child_of : ℕ → ℕ → Proc → Proc → Proc
unfolding copy_files
child_of cur dir parent np = record np {
  pgdir = dir;
  sz = parent.sz;
  parent = some cur;
  frame = record (parent.frame) { eax = 0 };
  traceflag = parent.traceflag;
  ofile = copy_files parent.ofile np.ofile;
  cwd = parent.cwd;
  name = safestrcpy np.name parent.name 16;
  state = runnable;
}

-- `if(p->parent == curproc) p->parent = initproc`
adopt : ℕ → Option ℕ → Proc → Proc
adopt cur init p = if same_slot p.parent (some cur) then record p { parent = init } else p

-- One round of the loop that passes children to init: a zombie child wakes init.
pub reparent_round : ℕ → ℕ → Option ℕ → List Proc → List Proc
unfolding adopt
reparent_round i cur init procs =
    let p = get_or procs i zero_proc in
    let procs1 = modify procs i (adopt cur init) in
    if same_slot p.parent (some cur) && is_zombie p.state
    then wakeup1 (chan_of init) procs1
    else procs1

-- `n` rounds from slot `i` on.
pub reparent : ℕ → ℕ → ℕ → Option ℕ → List Proc → List Proc
unfolding reparent_round
reparent zero i cur init procs = procs
reparent (suc n) i cur init procs = reparent n (i + 1) cur init (reparent_round i cur init procs)

-- What exec writes to the process when it commits to the new image: `entry` is the entry point, `sp` the
-- user stack, and `last` the last element of the path.
unfoldable pub exec_image : ℕ → ℕ → ℕ → ℕ → List ℕ → Proc → Proc
exec_image dir sz entry sp last p = record p {
  name = safestrcpy p.name last 16;
  pgdir = dir;
  sz = sz;
  frame = record (p.frame) { eip = entry; esp = sp };
}

module _ {W : Type 0} (io : Services W) where
  -- `none`: allocproc failed, and userinit writes through the null pointer that it returned.
  pub userinit : Kernel W → Outcome (Option (Kernel W))
  userinit k =
      let (found, k1) = allocproc io k in
      elim found [
        | none ↦ done none
        | some i ↦
            let (dir, w) = io.setupkvm k1.world in
            let w1 = io.inituvm dir w in
            let (root, w2) = io.namei_root w1 in
            panic_if (dir == 0) "userinit: out of memory?"
            >> done (
                some (
                  on_proc i (first_of dir root k1.ticks)
                    (record k1 { initproc = some i; world = w2 })))
      ]

  -- growproc(n); `switchuvm` only loads registers of the processor.
  pub growproc : ℕ → ℕ → Kernel W → ℕ × Kernel W
  growproc cur n k =
      let p = proc_at k cur in
      let grown = io.allocuvm p.pgdir p.sz (add32 p.sz n) k.world in
      let shrunk = io.deallocuvm p.pgdir p.sz (add32 p.sz n) k.world in
      let (sz, w) = if slt32 0 n then grown else if slt32 n 0 then shrunk else (p.sz, k.world) in
      if not (n == 0) && (sz == 0)
      then (minus_one, record k { world = w })
      else (0, on_proc cur (λ q. record q { sz = sz }) (record k { world = w }))

  -- The open files of the parent, each duplicated.
  pub dup_files : List ℕ → W → W
  dup_files [] w = w
  dup_files (f ∷ fs) w = dup_files fs (if f == 0 then w else io.filedup f w)

  -- fork, once allocproc has returned a slot or null. The page directory that copyuvm makes is bound
  -- to `dir`, with the rest of the kernel after it to `w`.
  pub fork_rest : ℕ → Option ℕ × Kernel W → ℕ × Kernel W
  unfolding child_of dup_files
  fork_rest cur (none, k) = (minus_one, k)
  fork_rest cur (some i, k) =
      let p = proc_at k cur in
      let dir = (io.copyuvm p.pgdir p.sz k.world).0 in
      let w = (io.copyuvm p.pgdir p.sz k.world).1 in
      if dir == 0
      then (
        minus_one,
        on_proc i (λ np. record np { kstack = 0; state = unused })
            (record k { world = io.kfree (proc_at k i).kstack w }),
      )
      else (
        (proc_at k i).pid,
        on_proc i (child_of cur dir p) (record k { world = io.idup p.cwd (dup_files p.ofile w) }),
      )

  pub fork : ℕ → Kernel W → ℕ × Kernel W
  unfolding fork_rest
  fork cur k = fork_rest cur (allocproc io k)

  -- exit closes every open file.
  pub close_files : List ℕ → W → W
  close_files [] w = w
  close_files (f ∷ fs) w = close_files fs (if f == 0 then w else io.fileclose f w)

  -- exit up to its last switch; a return of sched would be the panic "zombie exit".
  pub exit : SchedGuard → ℕ → Kernel W → Outcome (Kernel W)
  exit g cur k =
      let p = proc_at k cur in
      let w = io.end_op (io.iput p.cwd (io.begin_op (close_files p.ofile k.world))) in
      let closed = modify k.procs cur (λ q. record q { ofile = replicate nofile 0; cwd = 0 }) in
      let woken = wakeup1 (chan_of p.parent) closed in
      let adopted = reparent nproc 0 cur k.initproc woken in
      let dead = modify adopted cur (λ q. record q { state = zombie }) in
      panic_if (same_slot k.initproc (some cur)) "init exiting"
      >> sched g cur (record k { procs = dead; world = w })
