-- ===== src/Proc/Life/Orphans.antt =====
-- exit leaves no child behind.
use tp2_so.Prelude.{
  ℕ, zero, suc, ◌+◌, ◌<◌, ◌≤◌, ◌≡◌, ◌∙◌, refl, ap, inl, inr, false, ◌&&◌, Option, some, List, [],
  ◌∷◌, length, get_or, modify, replicate, arith, Bool-cases, ltb, ◌⊎◌, if◌then◌else◌, ◌==◌, done,
  get_or-modify_self, length-modify, add32,
}
use tp2_so.Proc.{
  Proc, zombie, Kernel, Services, proc_at, on_proc, zero_proc, nproc, nofile, is_zombie, is_running,
  Chan,
}
use tp2_so.Proc.Table.{wakeup1}
use tp2_so.Proc.Table.Effects.{wakeup1_lem, length-wakeup1}
use tp2_so.Proc.Sched.{SchedGuard}
use tp2_so.Proc.Sched.Quantum.{IsReady, sched-done}
use tp2_so.Proc.Life.{adopt, reparent, reparent_round, exit, same_slot, chan_of, close_files}

parent_of : List Proc → ℕ → Option ℕ
parent_of ps j = (get_or ps j zero_proc).parent

parent-wakeup1 :
    (chan : Chan) (ps : List Proc) (j : ℕ) → parent_of (wakeup1 chan ps) j ≡ parent_of ps j
unfolding parent_of
parent-wakeup1 chan ps j = ground (arith, wakeup1_lem chan ps j)

module _ (cur : ℕ) (init : Option ℕ) where
  -- The parent that a slot with parent `p` has afterwards.
  pub heir : Option ℕ → Option ℕ
  heir p = if same_slot p (some cur) then init else p

  parent-adopt :
      (ps : List Proc) (i j : ℕ)
      → parent_of (modify ps i (adopt cur init)) j
        ≡ (if i == j then heir (parent_of ps j) else parent_of ps j)
  unfolding adopt heir parent_of
  parent-adopt [] i j = ground arith
  parent-adopt (p ∷ ps) zero zero = ground arith
  parent-adopt (p ∷ ps) zero (suc j) = ground arith
  parent-adopt (p ∷ ps) (suc i) zero = ground arith
  parent-adopt (p ∷ ps) (suc i) (suc j) = ground (arith, parent-adopt ps i j)

  parent-reparent_round :
      (i j : ℕ) (ps : List Proc)
      → parent_of (reparent_round i cur init ps) j
        ≡ (if i == j then heir (parent_of ps j) else parent_of ps j)
  unfolding reparent_round
  parent-reparent_round i j ps =
      elim (Bool-cases (
        same_slot (get_or ps i zero_proc).parent (some cur)
        && is_zombie (get_or ps i zero_proc).state)) [
          | inl c ↦
              rw (c, reparent_round)
                (parent-wakeup1 (chan_of init) (modify ps i (adopt cur init)) j
                  ∙ parent-adopt ps i j)
          | inr c ↦ rw (c, reparent_round) (parent-adopt ps i j)
        ]

  -- Rounds from slot `i` on leave the slots before it alone.
  parent-reparent_below :
      (n i j : ℕ) (ps : List Proc) → j < i → parent_of (reparent n i cur init ps) j ≡ parent_of ps j
  unfolding reparent
  parent-reparent_below zero i j ps h = refl
  parent-reparent_below (suc n) i j ps h =
      parent-reparent_below n (i + 1) j (reparent_round i cur init ps) (omega arith)
      ∙ ground (arith, parent-reparent_round i j ps)

  parent-reparent :
      (n i j : ℕ) (ps : List Proc)
      → i ≤ j
      → j < i + n
      → parent_of (reparent n i cur init ps) j ≡ heir (parent_of ps j)
  unfolding reparent
  parent-reparent zero i j ps le lt = absurd (omega arith)
  parent-reparent (suc n) i j ps le lt = elim (Bool-cases (i == j)) [
    | inl c ↦
        parent-reparent_below n (i + 1) j (reparent_round i cur init ps) (ground arith)
        ∙ ground (arith, parent-reparent_round i j ps)
    | inr c ↦
        parent-reparent n (i + 1) j (reparent_round i cur init ps) (ground arith) (omega arith)
        ∙ ap heir (ground (arith, parent-reparent_round i j ps))
  ]

parent-modify :
    (ps : List Proc) (i j : ℕ) (f : Proc → Proc)
    → ((p : Proc) → (f p).parent ≡ p.parent)
    → parent_of (modify ps i f) j ≡ parent_of ps j
unfolding parent_of
parent-modify [] i j f h = refl
parent-modify (p ∷ ps) zero zero f h = h p
parent-modify (p ∷ ps) zero (suc j) f h = refl
parent-modify (p ∷ ps) (suc i) zero f h = refl
parent-modify (p ∷ ps) (suc i) (suc j) f h = parent-modify ps i j f h

length-reparent_round :
    (cur i : ℕ) (init : Option ℕ) (ps : List Proc)
    → length (reparent_round i cur init ps) ≡ length ps
unfolding reparent_round
length-reparent_round cur i init ps = ground (
  arith,
  length-wakeup1 (chan_of init) (modify ps i (adopt cur init)),
  length-modify ps i (adopt cur init),
)

length-reparent :
    (cur n i : ℕ) (init : Option ℕ) (ps : List Proc) → length (reparent n i cur init ps) ≡ length ps
unfolding reparent
length-reparent cur zero i init ps = refl
length-reparent cur (suc n) i init ps =
    length-reparent cur n (i + 1) init (reparent_round i cur init ps)
    ∙ length-reparent_round cur i init ps

-- The process that exits, with the locks as sched wants them and unless it is init, becomes a
-- zombie; every slot that had it for its parent has init instead, and no other parent changes.
pub exit_lem :
    {W : Type 0} (io : Services W) (g : SchedGuard) (cur : ℕ) (k : Kernel W)
    → IsReady g
    → length k.procs ≡ nproc
    → cur < nproc
    → same_slot k.initproc (some cur) ≡ false
    → (k' : Kernel W) × (exit io g cur k ≡ done k')
      × ((proc_at k' cur).state ≡ zombie)
      × ((j : ℕ) → (nproc ≤ j) ⊎ ((proc_at k' j).parent ≡ heir cur k.initproc (proc_at k j).parent))
unfolding exit parent_of
exit_lem {W} io g cur k r len lt other = (
  k',
  rw (other, exit) (sched-done g cur dead r stopped),
  ap (λ (p : Proc). p.state)
        (get_or-modify_self dead.procs cur _ zero_proc
          (rw (length-modify adopted cur (λ q. record q { state = zombie })) in_range))
      ∙ died,
  λ j. elim (Bool-cases (ltb j nproc)) [
    | inl h ↦ inr (inherits j (ground arith))
    | inr h ↦ inl (ground arith)
  ],
)
  where
    closed : List Proc
    closed = modify k.procs cur (λ q. record q { ofile = replicate nofile 0; cwd = 0 })

    woken : List Proc
    woken = wakeup1 (chan_of (proc_at k cur).parent) closed

    adopted : List Proc
    adopted = reparent nproc 0 cur k.initproc woken

    dead : Kernel W
    dead = record k {
      procs = modify adopted cur (λ q. record q { state = zombie });
      world = io.end_op (
          io.iput (proc_at k cur).cwd (io.begin_op (close_files io (proc_at k cur).ofile k.world)));
    }

    in_range : cur < length adopted
    in_range =
        rw
          (
            length-reparent cur nproc 0 k.initproc woken,
            length-wakeup1 (chan_of (proc_at k cur).parent) closed,
            length-modify k.procs cur (λ q. record q { ofile = replicate nofile 0; cwd = 0 }),
            len,
          )
          lt

    died : (proc_at dead cur).state ≡ zombie
    died =
        ap (λ (p : Proc). p.state)
          (get_or-modify_self adopted cur (λ q. record q { state = zombie }) zero_proc in_range)

    stopped : is_running (proc_at dead cur).state ≡ false
    stopped = rw died refl

    k' : Kernel W
    k' = on_proc cur (λ p. record p { counter = add32 p.counter 1 }) dead

    inherits :
        (j : ℕ) → j < nproc → (proc_at k' j).parent ≡ heir cur k.initproc (proc_at k j).parent
    inherits j h =
        parent-modify dead.procs cur j _ (λ p. refl)
        ∙ (parent-modify adopted cur j _ (λ p. refl)
            ∙ (parent-reparent cur k.initproc nproc 0 j woken (omega arith) (omega arith)
                ∙ ap (heir cur k.initproc) (
                    parent-wakeup1 (chan_of (proc_at k cur).parent) closed j
                    ∙ parent-modify k.procs cur j _ (λ p. refl))))
