-- ===== src/Proc/Table/Keeps.antt =====
-- The passes over the process table keep what identifies the processes.
use tp2_so.Prelude.{
  ℕ, ◌≡◌, refl, subst, some, List, arith, Option-cases, find_index, ◌==◌, Bool-cases, inl, inr,
}
use tp2_so.Proc.{embryo, Chan, Proc, Kernel, Services, proc_at}
use tp2_so.Proc.Tame.{KeepsSlot, Keeps, Keeps-refl, Keeps-map, Keeps-modify, Runs, map-Runs}
use tp2_so.Proc.Table.{
  wake, wakeup1, wakeup, mark_killed, kill, set_priority, count_tick, countprocs, share,
  set_max_time, alloc_stack, quantum_and_sum, all_divide,
}

wake-KeepsSlot : (chan : Chan) (p : Proc) → KeepsSlot p (wake chan p)
unfolding wake
wake-KeepsSlot chan p = ground arith

pub wakeup1-Keeps : (chan : Chan) (ps : List Proc) → Keeps ps (wakeup1 chan ps)
unfolding wakeup1
wakeup1-Keeps chan ps = Keeps-map (wake chan) ps (wake-KeepsSlot chan)

pub wakeup-Keeps : {W : Type 0} (chan : Chan) (k : Kernel W) → Keeps k.procs (wakeup chan k).procs
unfolding wakeup
wakeup-Keeps chan k = wakeup1-Keeps chan k.procs

mark_killed-KeepsSlot : (p : Proc) → KeepsSlot p (mark_killed p)
unfolding mark_killed
mark_killed-KeepsSlot p = ground arith

pub kill-Keeps : {W : Type 0} (pid : ℕ) (k : Kernel W) → Keeps k.procs (kill pid k).1.procs
unfolding kill
kill-Keeps pid k = elim (Option-cases (find_index (λ p. p.pid == pid) k.procs)) [
  | inl e ↦ rw (e, kill) (Keeps-refl k.procs)
  | inr (i, e) ↦
      rw (e, kill) (Keeps-modify k.procs i mark_killed (mark_killed-KeepsSlot (proc_at k i)))
]

pub set_priority-Keeps :
    {W : Type 0} (pid priority : ℕ) (k : Kernel W)
    → Keeps k.procs (set_priority pid priority k).1.procs
unfolding set_priority
set_priority-Keeps pid priority k = elim (Option-cases (find_index (λ p. p.pid == pid) k.procs)) [
  | inl e ↦ rw (e, set_priority) (Keeps-refl k.procs)
  | inr (i, e) ↦
      rw (e, set_priority)
        (Keeps-modify k.procs i (λ p. record p { priority = priority }) (ground arith))
]

count_tick-KeepsSlot : (p : Proc) → KeepsSlot p (count_tick p)
unfolding count_tick
count_tick-KeepsSlot p = ground arith

pub countprocs-Keeps : {W : Type 0} (k : Kernel W) → Keeps k.procs (countprocs k).procs
unfolding countprocs
countprocs-Keeps k = Keeps-map count_tick k.procs count_tick-KeepsSlot

share-KeepsSlot : (sum : ℕ) (p : Proc) → KeepsSlot p (share sum p)
unfolding share
share-KeepsSlot sum p = ground arith

pub set_max_time-Keeps :
    {W : Type 0} (n : ℕ) (k k' : Kernel W) → set_max_time k ≡ some (n, k') → Keeps k.procs k'.procs
unfolding set_max_time
set_max_time-Keeps {W} n k k' e = elim (Bool-cases (all_divide sum k.procs)) [
  | inl c ↦
      subst (Keeps k.procs) (ground arith) (Keeps-map (share sum) k.procs (share-KeepsSlot sum))
  | inr c ↦ absurd (ground arith)
]
  where
    sum : ℕ
    sum = (quantum_and_sum k.procs 0 0).1

-- allocproc's second half works on a slot that is still being set up.
pub alloc_stack-Keeps :
    {W : Type 0} (io : Services W) (i : ℕ) (k : Kernel W)
    → (proc_at k i).state ≡ embryo
    → Keeps k.procs (alloc_stack io i k).1.procs
unfolding alloc_stack
alloc_stack-Keeps io i k e = elim (Bool-cases ((io.kalloc k.world).0 == 0)) [
  | inl c ↦ rw c (Keeps-modify k.procs i _ (ground arith))
  | inr c ↦ rw c (Keeps-modify k.procs i _ (ground arith))
]

pub wakeup1-Runs :
    (chan : Chan) (ps : List Proc) (cur : ℕ) → Runs ps cur → Runs (wakeup1 chan ps) cur
unfolding wakeup1 wake
wakeup1-Runs chan ps cur r = map-Runs ps cur (wake chan) (λ p h. ground arith) r

module _ {W : Type 0} (k : Kernel W) where
  pub nextpid-kill : (pid : ℕ) → (kill pid k).1.nextpid ≡ k.nextpid
  unfolding kill
  nextpid-kill pid = ground arith

  pub nextpid-set_priority : (pid pr : ℕ) → (set_priority pid pr k).1.nextpid ≡ k.nextpid
  unfolding set_priority
  nextpid-set_priority pid pr = ground arith

  pub nextpid-wakeup : (chan : Chan) → (wakeup chan k).nextpid ≡ k.nextpid
  unfolding wakeup
  nextpid-wakeup chan = refl

  pub nextpid-countprocs : (countprocs k).nextpid ≡ k.nextpid
  unfolding countprocs
  nextpid-countprocs = refl

  pub nextpid-alloc_stack : (io : Services W) (i : ℕ) → (alloc_stack io i k).1.nextpid ≡ k.nextpid
  unfolding alloc_stack
  nextpid-alloc_stack io i = ground arith

  pub nextpid-set_max_time :
      (n : ℕ) (k' : Kernel W) → set_max_time k ≡ some (n, k') → k'.nextpid ≡ k.nextpid
  unfolding set_max_time
  nextpid-set_max_time n k' e = ground arith
