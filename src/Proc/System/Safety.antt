-- ===== src/Proc/System/Safety.antt =====
-- What holds in every kernel that the steps reach.
use tp2_so.Prelude.{
  ℕ, zero, suc, ◌+◌, ◌^◌, ◌≡◌, ◌≢◌, ◌<◌, ◌∙◌, refl, sym, true, some, List, [], ◌∷◌, get_or, modify,
  replicate, arith, inl, inr, length, add32, ◌≤◌, get_or-modify_cases,
}
use tp2_so.Proc.{
  embryo, Policy, Proc, Kernel, Services, proc_at, zero_proc, nproc, with_tickets, with_trace,
}
use tp2_so.Proc.Table.{alloc_slot, alloc_stack, embryo_of, wakeup, kill, set_priority, countprocs}
use tp2_so.Proc.Table.Keeps.{
  alloc_stack-Keeps, nextpid-alloc_stack, wakeup-Keeps, nextpid-wakeup, kill-Keeps, nextpid-kill,
  set_priority-Keeps, nextpid-set_priority, countprocs-Keeps, nextpid-countprocs,
  set_max_time-Keeps, nextpid-set_max_time,
}
use tp2_so.Proc.Sched.{awake}
use tp2_so.Proc.Sched.Keeps.{
  sleep-Keeps, nextpid-sleep, awake-Keeps, nextpid-awake, yield_proc-Keeps, nextpid-yield_proc,
  lottery_round-Keeps, nextpid-lottery_round, priority_round-Keeps, nextpid-priority_round,
}
use tp2_so.Proc.Wait.Keeps.{wait-Keeps, nextpid-wait, wait2-Keeps, nextpid-wait2}
use tp2_so.Proc.Table.Alloc.{alloc_slot_cases, embryo_of_lem}
use tp2_so.Proc.Life.{child_of, first_of, growproc, exec_image}
use tp2_so.Proc.Life.Keeps.{
  exit-Keeps, nextpid-exit, growproc-Keeps, nextpid-growproc, child_of_lem, first_of_lem,
}
use tp2_so.Proc.System.{
  Step, allocates, stacks, abandons, forks, inits, grows, exits, waits, waits2, sleeps, awakes,
  execs, buys, traces, yields, wakes, kills, prioritises, counts, ticks, shares, draws, picks,
  turns, Reach, start, later, boot,
}
use tp2_so.Proc.Tame.{live, active, Keeps, Keeps-modify, Runs}

-- Live slots have different pids, which have been handed out; a slot that has been set up has a
-- kernel stack and a page table.
pub record IsSound (next : ℕ) (ps : List Proc) : Type 0 where
  pub started : 0 < next
  pub an_int : next < 2 ^ 31
  pub handed : (i : ℕ) → live (get_or ps i zero_proc) ≡ true → (get_or ps i zero_proc).pid < next
  pub positive : (i : ℕ) → live (get_or ps i zero_proc) ≡ true → 0 < (get_or ps i zero_proc).pid
  pub distinct :
      (i j : ℕ)
      → live (get_or ps i zero_proc) ≡ true
      → live (get_or ps j zero_proc) ≡ true
      → (get_or ps i zero_proc).pid ≡ (get_or ps j zero_proc).pid
      → i ≡ j
  pub equipped :
      (i : ℕ)
      → active (get_or ps i zero_proc) ≡ true
      → ((get_or ps i zero_proc).kstack ≢ 0) × ((get_or ps i zero_proc).pgdir ≢ 0)

Keeps-IsSound : (next : ℕ) (ps qs : List Proc) → Keeps ps qs → IsSound next ps → IsSound next qs
Keeps-IsSound next ps qs keep s = record {
  started = s.started;
  an_int = s.an_int;
  handed = λ i h. let (l, e) = (keep i).alive h in rw e (s.handed i l);
  positive = λ i h. let (l, e) = (keep i).alive h in rw e (s.positive i l);
  distinct = λ i j h h' e.
      let (l, f) = (keep i).alive h in
      let (l', f') = (keep j).alive h' in s.distinct i j l l' (sym f ∙ e ∙ f');
  equipped = λ i h. let (a, e, f) = (keep i).ready h in rw (e, f) (s.equipped i a);
}

-- Slot `i` of a sound table is replaced, by a slot that is live with pid `pid`.
module _ (next i : ℕ) (ps : List Proc) (s : IsSound next ps) (f : Proc → Proc)
    (l : i < length ps) where
  abbrev old : ℕ → Proc
  old j = get_or ps j zero_proc

  abbrev new : ℕ → Proc
  new j = get_or (modify ps i f) j zero_proc

  replace-IsSound :
      (next' : ℕ)
      → next ≤ next'
      → next' < 2 ^ 31
      → (f (old i)).pid < next'
      → 0 < (f (old i)).pid
      → ((j : ℕ) → j ≢ i → live (old j) ≡ true → (f (old i)).pid ≢ (old j).pid)
      → (active (f (old i)) ≡ true → ((f (old i)).kstack ≢ 0) × ((f (old i)).pgdir ≢ 0))
      → IsSound next' (modify ps i f)
  replace-IsSound next' le fits below above apart fit = record {
    started = omega (arith, s.started);
    an_int = fits;
    handed = λ j h. elim (get_or-modify_cases ps i j f zero_proc l) [
      | inl (e, q) ↦ rw q below
      | inr (q, ne) ↦ rw q (omega (arith, s.handed j (rw q at h)))
    ];
    positive = λ j h. elim (get_or-modify_cases ps i j f zero_proc l) [
      | inl (e, q) ↦ rw q above
      | inr (q, ne) ↦ rw q (s.positive j (rw q at h))
    ];
    distinct = λ j m h h' e. elim (get_or-modify_cases ps i j f zero_proc l) [
      | inl (ej, qj) ↦ elim (get_or-modify_cases ps i m f zero_proc l) [
        | inl (em, qm) ↦ ej ∙ sym em
        | inr (qm, nm) ↦ absurd (apart m nm (rw qm at h') (rw (qj, qm) at e))
      ]
      | inr (qj, nj) ↦ elim (get_or-modify_cases ps i m f zero_proc l) [
        | inl (em, qm) ↦ absurd (apart j nj (rw qj at h) (sym (rw (qj, qm) at e)))
        | inr (qm, nm) ↦ s.distinct j m (rw qj at h) (rw qm at h') (rw (qj, qm) at e)
      ]
    ];
    equipped = λ j h. elim (get_or-modify_cases ps i j f zero_proc l) [
      | inl (e, q) ↦ rw q (fit (rw q at h))
      | inr (q, ne) ↦ rw q (s.equipped j (rw q at h))
    ];
  }

-- A slot whose process is not in the null state stands in the table.
in_range : (ps : List Proc) (i : ℕ) → live (get_or ps i zero_proc) ≡ true → i < length ps
in_range [] i h = absurd (cc)
in_range (p ∷ ps) zero h = omega arith
in_range (p ∷ ps) (suc i) h = omega (arith, in_range ps i h)

-- An embryo with a kernel stack becomes a process with its pid.
start-IsSound :
    (next i : ℕ) (ps : List Proc) (f : Proc → Proc)
    → IsSound next ps
    → (get_or ps i zero_proc).state ≡ embryo
    → (get_or ps i zero_proc).kstack ≢ 0
    → (f (get_or ps i zero_proc)).pid ≡ (get_or ps i zero_proc).pid
    → (f (get_or ps i zero_proc)).kstack ≡ (get_or ps i zero_proc).kstack
    → (f (get_or ps i zero_proc)).pgdir ≢ 0
    → IsSound next (modify ps i f)
start-IsSound next i ps f s e st ep ek ed =
    replace-IsSound next i ps s f (in_range ps i alive) next (omega arith) s.an_int
      (rw ep (s.handed i alive)) (rw ep (s.positive i alive))
      (λ j ne h q. ne (sym (s.distinct i j alive h (sym ep ∙ q)))) (λ _. (rw ek st, ed))
  where
    alive : live (get_or ps i zero_proc) ≡ true
    alive = ground arith

-- A running process gets a new image.
exec-IsSound :
    (next cur dir sz entry sp : ℕ) (last : List ℕ) (ps : List Proc)
    → IsSound next ps
    → Runs ps cur
    → dir ≢ 0
    → IsSound next (modify ps cur (exec_image dir sz entry sp last))
unfolding exec_image
exec-IsSound next cur dir sz entry sp last ps s run d =
    replace-IsSound next cur ps s (exec_image dir sz entry sp last) (in_range ps cur alive) next
      (omega arith) s.an_int (s.handed cur alive) (s.positive cur alive)
      (λ j ne h q. ne (sym (s.distinct cur j alive h q))) (λ _. ((s.equipped cur set_up).0, d))
  where
    alive : live (get_or ps cur zero_proc) ≡ true
    alive = ground (arith, run)

    set_up : active (get_or ps cur zero_proc) ≡ true
    set_up = ground (arith, run)

-- A free slot becomes an embryo with the next pid.
alloc_slot-IsSound :
    {W : Type 0} (k : Kernel W)
    → k.nextpid + 1 < 2 ^ 31
    → IsSound k.nextpid k.procs
    → IsSound (alloc_slot k).1.nextpid (alloc_slot k).1.procs
alloc_slot-IsSound k b s = elim (alloc_slot_cases k) [
  | inl e ↦ rw e s
  | inr (i, e, l, free) ↦
      let (q, n) = embryo_of_lem k.policy k.nextpid k.ticks (proc_at k i) in
      rw e (
        replace-IsSound k.nextpid i k.procs s (embryo_of k.policy k.nextpid k.ticks) l
          (add32 k.nextpid 1) (omega arith) (omega (arith, b)) (omega (arith, n))
          (omega (arith, n, s.started)) (λ j ne h p. omega (arith, s.handed j h, n))
          (λ a. absurd (ground arith)))
]

module _ {W : Type 0} (io : Services W) where
  kept :
      (k k' : Kernel W)
      → Keeps k.procs k'.procs
      → k'.nextpid ≡ k.nextpid
      → IsSound k.nextpid k.procs
      → IsSound k'.nextpid k'.procs
  kept k k' keep e s = rw e (Keeps-IsSound k.nextpid k.procs k'.procs keep s)

  -- Every step keeps the table sound.
  pub Step-IsSound :
      {k k' : Kernel W} → Step io k k' → IsSound k.nextpid k.procs → IsSound k'.nextpid k'.procs
  Step-IsSound {k} (allocates b) s = alloc_slot-IsSound k b s
  Step-IsSound {k} (stacks i e) s =
      kept k (alloc_stack io i k).1 (alloc_stack-Keeps io i k e) (nextpid-alloc_stack k io i) s
  Step-IsSound {k} (abandons i w e) s =
      Keeps-IsSound k.nextpid k.procs _ (Keeps-modify k.procs i _ (ground arith)) s
  Step-IsSound {k} (forks i cur dir w e st d) s =
      let (p, q, r) = child_of_lem cur dir (proc_at k cur) (proc_at k i) in
      start-IsSound k.nextpid i k.procs (child_of cur dir (proc_at k cur)) s e st p q (rw r d)
  Step-IsSound {k} (inits i dir root w e st d) s =
      let (p, q, r) = first_of_lem dir root k.ticks (proc_at k i) in
      start-IsSound k.nextpid i k.procs (first_of dir root k.ticks) s e st p q (rw r d)
  Step-IsSound {k} (grows cur n) s =
      kept k (growproc io cur n k).1 (growproc-Keeps io cur n k) (nextpid-growproc io cur n k) s
  Step-IsSound {k} (execs cur dir sz entry sp last w r d) s =
      exec-IsSound k.nextpid cur dir sz entry sp last k.procs s r d
  Step-IsSound {k} (buys cur n) s =
      Keeps-IsSound k.nextpid k.procs _
        (Keeps-modify k.procs cur (with_tickets n)
          (record { alive = λ h. (h, refl); ready = λ h. (h, refl, refl) }))
        s
  Step-IsSound {k} (traces cur n) s =
      Keeps-IsSound k.nextpid k.procs _
        (Keeps-modify k.procs cur (with_trace n)
          (record { alive = λ h. (h, refl); ready = λ h. (h, refl, refl) }))
        s
  Step-IsSound {k} {k'} (exits g cur r e) s =
      kept k k' (exit-Keeps io g cur k k' r e) (nextpid-exit io g cur k k' e) s
  Step-IsSound {k} {k'} (waits g cur o r e) s =
      kept k k' (wait-Keeps io g cur o k k' r e) (nextpid-wait io g cur o k k' e) s
  Step-IsSound {k} {k'} (waits2 g cur o t r e) s =
      kept k k' (wait2-Keeps io g cur o t k k' r e) (nextpid-wait2 io g cur o t k k' e) s
  Step-IsSound {k} {k'} (sleeps g cur b chan r e) s =
      kept k k' (sleep-Keeps g cur b chan k k' r e) (nextpid-sleep k k' g (some cur) b chan e) s
  Step-IsSound {k} (awakes cur) s =
      kept k (awake cur k) (awake-Keeps cur k) (nextpid-awake k k cur) s
  Step-IsSound {k} {k'} (yields g cur r e) s =
      kept k k' (yield_proc-Keeps g cur k k' r e) (nextpid-yield_proc k k' g cur e) s
  Step-IsSound {k} (wakes chan) s =
      kept k (wakeup chan k) (wakeup-Keeps chan k) (nextpid-wakeup k chan) s
  Step-IsSound {k} (kills pid) s = kept k (kill pid k).1 (kill-Keeps pid k) (nextpid-kill k pid) s
  Step-IsSound {k} (prioritises pid pr) s =
      kept k (set_priority pid pr k).1 (set_priority-Keeps pid pr k) (nextpid-set_priority k pid pr)
        s
  Step-IsSound {k} counts s = kept k (countprocs k) (countprocs-Keeps k) (nextpid-countprocs k) s
  Step-IsSound (ticks t) s = s
  Step-IsSound {k} {k'} (shares n e) s =
      kept k k' (set_max_time-Keeps n k k' e) (nextpid-set_max_time k n k' e) s
  Step-IsSound {k} {k'} (draws w o e) s =
      kept k k' (lottery_round-Keeps w o k k' e) (nextpid-lottery_round k k' w o e) s
  Step-IsSound {k} {k'} (picks n i o e) s =
      kept k k' (priority_round-Keeps n i o k k' e) (nextpid-priority_round k k' n i o e) s
  Step-IsSound (turns w) s = s

zero_slots : (n i : ℕ) → get_or (replicate n zero_proc) i zero_proc ≡ zero_proc
zero_slots zero i = refl
zero_slots (suc n) zero = refl
zero_slots (suc n) (suc i) = zero_slots n i

boot-IsSound : (n : ℕ) → IsSound 1 (replicate n zero_proc)
boot-IsSound n = record {
  started = omega arith;
  an_int = omega arith;
  handed = λ i h. absurd (cc (zero_slots n i));
  positive = λ i h. absurd (cc (zero_slots n i));
  distinct = λ i j h h' e. absurd (cc (zero_slots n i));
  equipped = λ i h. absurd (cc (zero_slots n i));
}

-- In every kernel that steps reach from the boot, live slots have different pids, all of them
-- positive and below `nextpid` as ints, and every slot that has been set up has a kernel stack and a
-- page table. (A step that hands out a pid supposes that `nextpid` stays an int below 2 ^ 31.)
pub Reach-IsSound :
    {W : Type 0} (io : Services W) (policy : Policy) (w : W) {k : Kernel W}
    → Reach io (boot policy w) k
    → IsSound k.nextpid k.procs
Reach-IsSound io policy w start = boot-IsSound nproc
Reach-IsSound io policy w (later r st) = Step-IsSound io st (Reach-IsSound io policy w r)
