-- ===== src/Proc/Wait.antt =====
-- proc.c: wait and wait2. One pass over the table under `ptable.lock`, up to a return or to the
-- switch in sleep; after `awake` the loop makes another pass.
pub mod Keeps
pub mod Children
pub mod Tests
use tp2_so.Prelude.{
  ℕ, zero, suc, ◌+◌, Bool, true, false, not, ◌&&◌, ◌||◌, Option, none, some, List, [], ◌∷◌, set,
  if◌then◌else◌, ◌==◌, get_or, modify, find_index, minus_one, Outcome, done, panic, panic_if, ◌>>=◌,
  ◌>>◌,
}
use tp2_so.Proc.{ProcState, unused, is_zombie, Chan, slot, Proc, Kernel, proc_at, on_proc, Services}
use tp2_so.Proc.Sched.{SchedGuard, sched, sleep}
use tp2_so.Proc.Life.{same_slot}

-- The loop over the table: `havekids`, and the first zombie child.
pub data Kids : Type 0 where
  no_kids : Kids
  kids : Kids
  zombie_at : ℕ → Kids

pub look : ℕ → List Proc → Bool → ℕ → Kids
look cur [] havekids i = if havekids then kids else no_kids
look cur (p ∷ ps) havekids i =
    let child = same_slot p.parent (some cur) in
    let rest = look cur ps (child || havekids) (i + 1) in
    if child && is_zombie p.state then zombie_at i else rest

-- What the caller of wait sees of one pass.
pub data Waited : Type 0 where
  reaped : ℕ → Waited  -- the pid returned
  childless : Waited  -- the return of -1
  asleep : Waited

-- The times that wait2 stores through its three pointers.
pub record Times : Type 0 where
  pub retime : ℕ
  pub rutime : ℕ
  pub stime : ℕ

free_slot : Proc → Proc
free_slot p = record p {
  kstack = 0;
  pid = 0;
  parent = none;
  name = set p.name 0 0;
  killed = 0;
  ctime = 0;
  state = unused;
}

free_slot2 : Proc → Proc
unfolding free_slot
free_slot2 p = record (free_slot p) { retime = 0; rutime = 0; stime = 0 }

pub times_of : Proc → Times
times_of p = record { retime = p.retime; rutime = p.rutime; stime = p.stime }

module _ {W : Type 0} (io : Services W) where
  -- `kfree(p->kstack); freevm(p->pgdir);`, then the slot is cleared.
  reap : (Proc → Proc) → ℕ → Kernel W → Kernel W
  reap clear i k =
      let p = proc_at k i in
      on_proc i clear (record k { world = io.freevm p.pgdir (io.kfree p.kstack k.world) })

  -- The end of a pass that found no zombie.
  wait_more : SchedGuard → ℕ → Bool → Kernel W → Outcome (Waited × Kernel W)
  wait_more g cur havekids k =
      if not havekids || not ((proc_at k cur).killed == 0)
      then done (childless, k)
      else (sleep g (some cur) false (slot cur) k >>= λ k1. done (asleep, k1))

  pub wait : SchedGuard → ℕ → Kernel W → Outcome (Waited × Kernel W)
  unfolding look reap free_slot wait_more
  wait g cur k = elim (look cur k.procs false 0) [
    | no_kids ↦ wait_more g cur false k
    | kids ↦ wait_more g cur true k
    | zombie_at i ↦ done (reaped (proc_at k i).pid, reap free_slot i k)
  ]

  abbrev pub without_times : Waited × Kernel W → Outcome (Waited × Option Times × Kernel W)
  without_times r = done (r.0, none, r.1)

  -- wait2 stores the times only when it reaps a child.
  pub wait2 : SchedGuard → ℕ → Kernel W → Outcome (Waited × Option Times × Kernel W)
  unfolding look reap free_slot2 wait_more times_of
  wait2 g cur k = elim (look cur k.procs false 0) [
    | no_kids ↦ (wait_more g cur false k >>= without_times)
    | kids ↦ (wait_more g cur true k >>= without_times)
    | zombie_at i ↦
        done (reaped (proc_at k i).pid, some (times_of (proc_at k i)), reap free_slot2 i k)
  ]
