-- ===== src/Proc/Sched/Keeps.antt =====
-- The scheduler's functions keep what identifies the processes.
use tp2_so.Prelude.{
  ℕ, zero, suc, ◌+◌, ◌≡◌, refl, subst, Bool, true, false, Option, none, some, List, get_or, modify,
  arith, Option-cases, Bool-cases, inl, inr, done, ◌==◌, sle32, sub32, add32, modify-modify,
}
use tp2_so.Proc.{
  sleeping, runnable, running, Chan, null, Proc, Kernel, proc_at, on_proc, zero_proc, is_runnable,
}
use tp2_so.Proc.Tame.{Keeps, Keeps-refl, Keeps-trans, Keeps-modify}
use tp2_so.Proc.Sched.{
  SchedGuard, sched, yield_proc, sleep, awake, draw, lottery_round, start_lottery, scan, renew,
  proc_time, priority_round, start_priority,
}
use tp2_so.Proc.Sched.Lottery.{draw-some}
use tp2_so.Proc.Sched.Priority.{scan-IsTop}

module _ {W : Type 0} (g : SchedGuard) (cur : ℕ) where
  pub sched-Keeps : (k k' : Kernel W) → sched g cur k ≡ done k' → Keeps k.procs k'.procs
  unfolding sched
  sched-Keeps k k' e =
      subst (Keeps k.procs) (ground arith)
        (Keeps-modify k.procs cur (λ p. record p { counter = add32 p.counter 1 }) (ground arith))

  -- A process that calls yield is running, so its slot is active before and after.
  pub yield_proc-Keeps :
      (k k' : Kernel W)
      → (proc_at k cur).state ≡ running
      → yield_proc g cur k ≡ done k'
      → Keeps k.procs k'.procs
  unfolding yield_proc
  yield_proc-Keeps k k' r e = elim (Bool-cases ((proc_at k1 cur).timeslice == 0)) [
    | inl c ↦ Keeps-trans k.procs k2.procs k'.procs keep2 (sched-Keeps k2 k' (ground arith))
    | inr c ↦ subst (Keeps k.procs) (ground arith) keep1
  ]
    where
      k1 : Kernel W
      k1 = on_proc cur (λ p. record p { timeslice = sub32 p.timeslice 1 }) k

      k2 : Kernel W
      k2 = on_proc cur (λ p. record p { state = runnable }) k1

      keep2 : Keeps k.procs k2.procs
      keep2 = rw (modify-modify k.procs cur _ (λ p. record p { state = runnable })) (
          Keeps-modify k.procs cur
            (λ p. record p { timeslice = sub32 p.timeslice 1; state = runnable }) (ground arith))

      keep1 : Keeps k.procs k1.procs
      keep1 =
          Keeps-modify k.procs cur (λ p. record p { timeslice = sub32 p.timeslice 1 })
            (ground arith)

  pub sleep-Keeps :
      (lk_null : Bool) (chan : Chan) (k k' : Kernel W)
      → (proc_at k cur).state ≡ running
      → sleep g (some cur) lk_null chan k ≡ done k'
      → Keeps k.procs k'.procs
  unfolding sleep
  sleep-Keeps true chan k k' r e = absurd (cc)
  sleep-Keeps false chan k k' r e =
      Keeps-trans k.procs k1.procs k'.procs
        (Keeps-modify k.procs cur (λ p. record p { chan = chan; state = sleeping }) (ground arith))
        (sched-Keeps k1 k' e)
    where
      k1 : Kernel W
      k1 = on_proc cur (λ p. record p { chan = chan; state = sleeping }) k

pub awake-Keeps : {W : Type 0} (cur : ℕ) (k : Kernel W) → Keeps k.procs (awake cur k).procs
unfolding awake
awake-Keeps cur k = Keeps-modify k.procs cur (λ p. record p { chan = null }) (ground arith)

-- The lottery runs a slot that was runnable.
pub lottery_round-Keeps :
    {W : Type 0} (w : ℕ) (o : Option ℕ) (k k' : Kernel W)
    → lottery_round w k ≡ done (o, k')
    → Keeps k.procs k'.procs
unfolding lottery_round start_lottery
lottery_round-Keeps w o k k' e = elim (Option-cases (draw w 0 k.procs)) [
  | inl f ↦ subst (Keeps k.procs) (ground arith) (Keeps-refl k.procs)
  | inr (i, f) ↦
      let (l, r) = draw-some w 0 i k.procs f in
      subst (Keeps k.procs) (ground arith) (Keeps-modify k.procs i start_lottery (ground arith))
]

scan-Keeps :
    (n i now : ℕ) (ps qs : List Proc) (o : Option ℕ) → scan n i now ps ≡ (o, qs) → Keeps ps qs
unfolding scan renew
scan-Keeps zero i now ps qs o e = subst (Keeps ps) (ground arith) (Keeps-refl ps)
scan-Keeps (suc n) i now ps qs o e = elim (Bool-cases (sle32 p.max_time (proc_time now p))) [
  | inl c ↦
      Keeps-trans ps (modify ps i (renew now)) qs (Keeps-modify ps i (renew now) (ground arith))
        (scan-Keeps n (i + 1) now (modify ps i (renew now)) qs o (ground arith))
  | inr c ↦ elim (Bool-cases (is_runnable p.state)) [
    | inl r ↦ subst (Keeps ps) (ground arith) (Keeps-refl ps)
    | inr r ↦ scan-Keeps n (i + 1) now ps qs o (ground arith)
  ]
]
  where
    p : Proc
    p = get_or ps i zero_proc

-- The priority scheduler runs a slot that was runnable.
pub priority_round-Keeps :
    {W : Type 0} (n i : ℕ) (o : Option ℕ) (k k' : Kernel W)
    → priority_round n i k ≡ done (o, k')
    → Keeps k.procs k'.procs
unfolding priority_round start_priority
priority_round-Keeps n i o k k' e = go (scan n i k.ticks k.procs).0 refl
  where
    table : List Proc
    table = (scan n i k.ticks k.procs).1

    scanned : Keeps k.procs table
    scanned = scan-Keeps n i k.ticks k.procs table (scan n i k.ticks k.procs).0 refl

    go : (c : Option ℕ) → (scan n i k.ticks k.procs).0 ≡ c → Keeps k.procs k'.procs
    go none f = subst (Keeps k.procs) (ground arith) scanned
    go (some j) f = Keeps-trans k.procs table k'.procs scanned (
        subst (Keeps table) (ground arith)
          (Keeps-modify table j start_priority (ground (arith, ready))))
      where
        ready : is_runnable (get_or table j zero_proc).state ≡ true
        ready = (scan-IsTop n i k.ticks j k.procs table (ground arith)).ready

module _ {W : Type 0} (k k' : Kernel W) where
  pub nextpid-sched : (g : SchedGuard) (cur : ℕ) → sched g cur k ≡ done k' → k'.nextpid ≡ k.nextpid
  unfolding sched
  nextpid-sched g cur e = ground arith

  pub nextpid-yield_proc :
      (g : SchedGuard) (cur : ℕ) → yield_proc g cur k ≡ done k' → k'.nextpid ≡ k.nextpid
  unfolding yield_proc sched
  nextpid-yield_proc g cur e = ground arith

  pub nextpid-sleep :
      (g : SchedGuard) (cur : Option ℕ) (b : Bool) (chan : Chan)
      → sleep g cur b chan k ≡ done k'
      → k'.nextpid ≡ k.nextpid
  unfolding sleep sched
  nextpid-sleep g none b chan e = absurd (cc)
  nextpid-sleep g (some cur) b chan e = ground arith

  pub nextpid-lottery_round :
      (w : ℕ) (o : Option ℕ) → lottery_round w k ≡ done (o, k') → k'.nextpid ≡ k.nextpid
  unfolding lottery_round
  nextpid-lottery_round w o e = elim (Option-cases (draw w 0 k.procs)) [
    | inl f ↦ ground arith
    | inr (i, f) ↦ ground arith
  ]

  pub nextpid-priority_round :
      (n i : ℕ) (o : Option ℕ) → priority_round n i k ≡ done (o, k') → k'.nextpid ≡ k.nextpid
  unfolding priority_round
  nextpid-priority_round n i o e = elim (Option-cases (scan n i k.ticks k.procs).0) [
    | inl f ↦ ground arith
    | inr (j, f) ↦ ground arith
  ]

  pub nextpid-awake : (cur : ℕ) → (awake cur k).nextpid ≡ k.nextpid
  unfolding awake
  nextpid-awake cur = refl
