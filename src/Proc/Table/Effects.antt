-- ===== src/Proc/Table/Effects.antt =====
-- What wakeup1, kill and countprocs do to each slot.
use tp2_so.Prelude.{
  ℕ, zero, suc, ◌+◌, ◌%◌, ◌^◌, ◌<◌, ◌≡◌, ◌≢◌, refl, sym, ◌∙◌, map, ◌||◌, inl, inr, ◌⊎◌, ℕ_discrete,
  Bool, false, ◌&&◌, some, List, [], ◌∷◌, length, get_or, find_index, find_index-some, arith, add32,
  minus_one, Option-cases, ◌==◌, if◌then◌else◌, get_or-modify_self, get_or-modify_ne, length-map,
}
use tp2_so.Proc.{
  runnable, is_unused, is_sleeping, is_runnable, is_running, Chan, chan_eq, Policy, Proc, Kernel,
  proc_at, zero_proc,
}
use tp2_so.Proc.Table.{
  wake, wakeup1, mark_killed, kill, count_tick, countprocs, alloc_slot, embryo_of,
}

wakeup1-get_or :
    (chan : Chan) (ps : List Proc) (i : ℕ)
    → get_or (wakeup1 chan ps) i zero_proc ≡ wake chan (get_or ps i zero_proc)
unfolding wakeup1 wake
wakeup1-get_or chan [] i = refl
wakeup1-get_or chan (p ∷ ps) zero = refl
wakeup1-get_or chan (p ∷ ps) (suc i) = wakeup1-get_or chan ps i

-- wakeup1 makes every process that sleeps on the channel runnable, and changes nothing else of it
-- nor anything of the other slots.
pub wakeup1_lem :
    (chan : Chan) (ps : List Proc) (i : ℕ)
    → get_or (wakeup1 chan ps) i zero_proc ≡ (
        if is_sleeping (get_or ps i zero_proc).state && chan_eq (get_or ps i zero_proc).chan chan
        then record (get_or ps i zero_proc) { state = runnable }
        else get_or ps i zero_proc)
unfolding wake
wakeup1_lem chan ps i = wakeup1-get_or chan ps i

abbrev with_pid : ℕ → Proc → Bool
with_pid pid p = p.pid == pid

-- Where no slot of the table has the pid, kill returns -1 and changes nothing.
pub kill-missing :
    {W : Type 0} (pid : ℕ) (k : Kernel W)
    → ((i : ℕ) → i < length k.procs → (proc_at k i).pid ≢ pid)
    → kill pid k ≡ (minus_one, k)
unfolding kill
kill-missing pid k h = elim (Option-cases (find_index (with_pid pid) k.procs)) [
  | inl e ↦ rw (e, kill) refl
  | inr (i, e) ↦
      let (l, t) = find_index-some (with_pid pid) k.procs i zero_proc e in
      absurd (h i l (ground arith))
]

-- If a slot has the pid, kill returns 0; the first such slot is marked, and is not left asleep; no
-- other slot changes.
pub kill-found :
    {W : Type 0} (pid i : ℕ) (k : Kernel W)
    → find_index (with_pid pid) k.procs ≡ some i
    → ((kill pid k).0 ≡ 0)
      × ((proc_at (kill pid k).1 i).killed ≡ 1)
      × (is_sleeping (proc_at (kill pid k).1 i).state ≡ false)
      × ((j : ℕ) → (j ≡ i) ⊎ (proc_at (kill pid k).1 j ≡ proc_at k j))
unfolding kill mark_killed
kill-found pid i k e =
    let (l, t) = find_index-some (with_pid pid) k.procs i zero_proc e in
    let self = get_or-modify_self k.procs i mark_killed zero_proc l in
    rw (e, kill)
      (
        refl,
        rw self (ground arith),
        rw self (ground arith),
        λ j. elim (ℕ_discrete j i) [
          | yes q ↦ inl q
          | no ne ↦ inr (get_or-modify_ne k.procs i j mark_killed zero_proc (λ q. ne (sym q)))
        ],
      )

killed-embryo_of :
    (policy : Policy) (pid ticks : ℕ) (p : Proc) → (embryo_of policy pid ticks p).killed ≡ p.killed
unfolding embryo_of
killed-embryo_of Policy.lottery pid ticks p = refl
killed-embryo_of Policy.priority_rr pid ticks p = refl

-- Where the first slot with pid 0 is also the first free one after kill(0), kill(0) returns 0, the
-- next allocproc finds that slot, and the new process in it is marked as killed.
pub alloc_slot-kill_zero :
    {W : Type 0} (i : ℕ) (k : Kernel W)
    → find_index (with_pid 0) k.procs ≡ some i
    → find_index (λ p. is_unused p.state) (kill 0 k).1.procs ≡ some i
    → ((kill 0 k).0 ≡ 0)
      × ((alloc_slot (kill 0 k).1).0 ≡ some i)
      × ((proc_at (alloc_slot (kill 0 k).1).1 i).killed ≡ 1)
unfolding alloc_slot
alloc_slot-kill_zero {W} i k e f =
    let (ok, marked, _, _) = kill-found 0 i k e in
    let (l, u) = find_index-some (λ p. is_unused p.state) (kill 0 k).1.procs i zero_proc f in
    rw (f, alloc_slot)
      (
        ok,
        refl,
        rw
            (get_or-modify_self (kill 0 k).1.procs i
              (embryo_of (kill 0 k).1.policy (kill 0 k).1.nextpid (kill 0 k).1.ticks) zero_proc l)
            (killed-embryo_of _ _ _ _ ∙ marked),
      )

count_tick-get_or :
    (ps : List Proc) (i : ℕ)
    → get_or (map count_tick ps) i zero_proc ≡ count_tick (get_or ps i zero_proc)
unfolding count_tick
count_tick-get_or [] i = refl
count_tick-get_or (p ∷ ps) zero = refl
count_tick-get_or (p ∷ ps) (suc i) = count_tick-get_or ps i

-- The three counters of a slot, together.
abbrev pub life_time : Proc → ℕ
life_time p = (p.retime + p.rutime + p.stime) % 2 ^ 32

-- What a tick charges to a slot.
pub record IsCharged (p q : Proc) : Type 0 where
  pub once :
      life_time q
      ≡ (life_time p
          + (if is_runnable p.state || is_running p.state || is_sleeping p.state then 1 else 0))
        % 2 ^ 32
  pub ready : q.retime ≡ (if is_runnable p.state then add32 p.retime 1 else p.retime)
  pub busy : q.rutime ≡ (if is_running p.state then add32 p.rutime 1 else p.rutime)
  pub idle : q.stime ≡ (if is_sleeping p.state then add32 p.stime 1 else p.stime)

count_tick-IsCharged : (p : Proc) → IsCharged p (count_tick p)
unfolding count_tick
count_tick-IsCharged p = ground arith

-- A tick is charged once to every runnable, running or sleeping process, to the counter of its
-- state, and to no other slot.
pub countprocs_lem :
    {W : Type 0} (k : Kernel W) (i : ℕ) → IsCharged (proc_at k i) (proc_at (countprocs k) i)
unfolding countprocs
countprocs_lem k i = rw (count_tick-get_or k.procs i) (count_tick-IsCharged (proc_at k i))

pub length-wakeup1 : (chan : Chan) (ps : List Proc) → length (wakeup1 chan ps) ≡ length ps
unfolding wakeup1
length-wakeup1 chan ps = length-map ps (wake chan)
