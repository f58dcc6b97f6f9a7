-- ===== src/Proc/Wait/Keeps.antt =====
-- wait and wait2 keep what identifies the processes that they do not reap.
use tp2_so.Prelude.{
  ℕ, ◌≡◌, refl, subst, Bool, true, false, not, ◌||◌, Option, some, List, modify, arith, Bool-cases,
  inl, inr, ◌⊎◌, done, >>=-eq-done, ◌==◌,
}
use tp2_so.Proc.{Proc, Kernel, Services, proc_at, slot}
use tp2_so.Proc.Tame.{Keeps, Keeps-refl, Keeps-modify, Runs}
use tp2_so.Proc.Sched.{SchedGuard, sleep}
use tp2_so.Proc.Sched.Keeps.{sleep-Keeps, nextpid-sleep}
use tp2_so.Proc.Wait.{
  Kids, no_kids, kids, zombie_at, look, Waited, free_slot, free_slot2, wait_more, wait, wait2,
  Times, without_times,
}

free_slot-Keeps : (ps : List Proc) (i : ℕ) → Keeps ps (modify ps i free_slot)
unfolding free_slot
free_slot-Keeps ps i = Keeps-modify ps i free_slot (ground arith)

free_slot2-Keeps : (ps : List Proc) (i : ℕ) → Keeps ps (modify ps i free_slot2)
unfolding free_slot2
free_slot2-Keeps ps i = Keeps-modify ps i free_slot2 (ground arith)

-- What `look` found, with the equation.
pub Kids-cases : (c : Kids) → ((c ≡ no_kids) ⊎ (c ≡ kids)) ⊎ ((i : ℕ) × (c ≡ zombie_at i))
Kids-cases no_kids = inl (inl refl)
Kids-cases kids = inl (inr refl)
Kids-cases (zombie_at i) = inr (i, refl)

module _ {W : Type 0} (io : Services W) (g : SchedGuard) (cur : ℕ) where
  wait_more-Keeps :
      (b : Bool) (r : Waited) (k k' : Kernel W)
      → Runs k.procs cur
      → wait_more io g cur b k ≡ done (r, k')
      → Keeps k.procs k'.procs
  unfolding wait_more
  wait_more-Keeps b r k k' h e = elim (Bool-cases (not b || not ((proc_at k cur).killed == 0))) [
    | inl c ↦ subst (Keeps k.procs) (ground arith) (Keeps-refl k.procs)
    | inr c ↦
        let (k1, f, f') =
          >>=-eq-done (sleep g (some cur) false (slot cur) k) _ (rw (c, wait_more) at e) in
        subst (Keeps k.procs) (ground arith) (sleep-Keeps g cur false (slot cur) k k1 h f)
  ]

  pub wait-Keeps :
      (r : Waited) (k k' : Kernel W)
      → Runs k.procs cur
      → wait io g cur k ≡ done (r, k')
      → Keeps k.procs k'.procs
  unfolding wait
  wait-Keeps r k k' h e = elim (Kids-cases (look cur k.procs false 0)) [
    | inl (inl c) ↦ wait_more-Keeps false r k k' h (ground arith)
    | inl (inr c) ↦ wait_more-Keeps true r k k' h (ground arith)
    | inr (i, c) ↦ subst (Keeps k.procs) (ground arith) (free_slot-Keeps k.procs i)
  ]

  pub wait2-Keeps :
      (r : Waited) (t : Option Times) (k k' : Kernel W)
      → Runs k.procs cur
      → wait2 io g cur k ≡ done (r, t, k')
      → Keeps k.procs k'.procs
  unfolding wait2
  wait2-Keeps r t k k' h e = elim (Kids-cases (look cur k.procs false 0)) [
    | inl (inl c) ↦
        let (x, f, f') =
          >>=-eq-done (wait_more io g cur false k) (without_times io) (rw (c, wait2) at e) in
        subst (Keeps k.procs) (ground arith) (wait_more-Keeps false x.0 k x.1 h f)
    | inl (inr c) ↦
        let (x, f, f') =
          >>=-eq-done (wait_more io g cur true k) (without_times io) (rw (c, wait2) at e) in
        subst (Keeps k.procs) (ground arith) (wait_more-Keeps true x.0 k x.1 h f)
    | inr (i, c) ↦ subst (Keeps k.procs) (ground arith) (free_slot2-Keeps k.procs i)
  ]

  nextpid-wait_more :
      (b : Bool) (r : Waited) (k k' : Kernel W)
      → wait_more io g cur b k ≡ done (r, k')
      → k'.nextpid ≡ k.nextpid
  unfolding wait_more
  nextpid-wait_more b r k k' e = elim (Bool-cases (not b || not ((proc_at k cur).killed == 0))) [
    | inl c ↦ ground arith
    | inr c ↦
        let (k1, f, f') =
          >>=-eq-done (sleep g (some cur) false (slot cur) k) _ (rw (c, wait_more) at e) in
        ground (arith, nextpid-sleep k k1 g (some cur) false (slot cur) f)
  ]

  pub nextpid-wait :
      (r : Waited) (k k' : Kernel W) → wait io g cur k ≡ done (r, k') → k'.nextpid ≡ k.nextpid
  unfolding wait
  nextpid-wait r k k' e = elim (Kids-cases (look cur k.procs false 0)) [
    | inl (inl c) ↦ nextpid-wait_more false r k k' (ground arith)
    | inl (inr c) ↦ nextpid-wait_more true r k k' (ground arith)
    | inr (i, c) ↦ ground arith
  ]

  pub nextpid-wait2 :
      (r : Waited) (t : Option Times) (k k' : Kernel W)
      → wait2 io g cur k ≡ done (r, t, k')
      → k'.nextpid ≡ k.nextpid
  unfolding wait2
  nextpid-wait2 r t k k' e = elim (Kids-cases (look cur k.procs false 0)) [
    | inl (inl c) ↦
        let (x, f, f') =
          >>=-eq-done (wait_more io g cur false k) (without_times io) (rw (c, wait2) at e) in
        ground (arith, nextpid-wait_more false x.0 k x.1 f)
    | inl (inr c) ↦
        let (x, f, f') =
          >>=-eq-done (wait_more io g cur true k) (without_times io) (rw (c, wait2) at e) in
        ground (arith, nextpid-wait_more true x.0 k x.1 f)
    | inr (i, c) ↦ ground arith
  ]
