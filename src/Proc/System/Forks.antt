-- ===== src/Proc/System/Forks.antt =====
-- fork as a sequence of steps.
use native.Mathlib.Decide.{ℕ_discrete}
use tp2_so.Prelude.{
  ℕ, ◌+◌, ◌<◌, ◌^◌, ◌≡◌, ◌≢◌, ◌∙◌, ap, sym, subst, Option, none, some, inl, inr, get_or-modify_self,
  length-modify, length,
}
use tp2_so.Proc.{embryo, Kernel, Services, proc_at, zero_proc}
use tp2_so.Proc.Table.{alloc_slot, alloc_stack, embryo_of, set_up_stack, allocproc}
use tp2_so.Proc.Table.Alloc.{
  alloc_slot_cases, embryo_of_lem, with_embryo, alloc_stack_cases, with_stack, set_up_stack_lem,
  allocproc-none, allocproc-some,
}
use tp2_so.Proc.Life.{fork, dup_files}
use tp2_so.Proc.Life.Forking.{fork-full, fork-no_memory, fork-child, copied}
use tp2_so.Proc.System.{allocates, stacks, abandons, forks, Reach, start, later}

module _ {W : Type 0} (io : Services W) (cur : ℕ) where
  -- From a kernel whose slot `i` has become an embryo with a stack.
  from_stack :
      (k k2 : Kernel W) (i : ℕ)
      → allocproc io k ≡ (some i, k2)
      → (proc_at k2 i).state ≡ embryo
      → (proc_at k2 i).kstack ≢ 0
      → Reach io k k2
      → Reach io k (fork io cur k).1
  from_stack k k2 i e em st r = elim (ℕ_discrete (copied io cur k k2).0 0) [
    | yes z ↦
        subst (Reach io k) (sym (ap second (fork-no_memory io cur k k2 i e z)))
          (later r (abandons i (io.kfree (proc_at k2 i).kstack (copied io cur k k2).1) em))
    | no nz ↦ subst (Reach io k) (sym (ap second (fork-child io cur k k2 i e nz))) (
        later r (
          forks i cur (copied io cur k k2).0
            (io.idup (proc_at k2 cur).cwd
              (dup_files io (proc_at k2 cur).ofile (copied io cur k k2).1))
            em st nz))
  ]
    where
      second : ℕ × Kernel W → Kernel W
      second = λ p. p.1

  -- From a kernel whose slot `i` has just become an embryo.
  from_embryo :
      (k k1 : Kernel W) (i : ℕ)
      → alloc_slot k ≡ (some i, k1)
      → (proc_at k1 i).state ≡ embryo
      → i < length k1.procs
      → Reach io k k1
      → Reach io k (fork io cur k).1
  from_embryo k k1 i e em l r = elim (alloc_stack_cases io i k1) [
    | inl z ↦
        subst (Reach io k)
          (sym (
            ap (λ (p : ℕ × Kernel W). p.1)
              (fork-full io cur k (alloc_stack io i k1).1
                (allocproc-some io k k1 i e ∙ pair_of (alloc_stack io i k1) z))))
          (later r (stacks i em))
    | inr (f, nz) ↦
        let self =
          get_or-modify_self k1.procs i (set_up_stack (io.kalloc k1.world).0 io.forkret k1.ticks)
            zero_proc l in
        let (s, t, p) =
          set_up_stack_lem (io.kalloc k1.world).0 io.forkret k1.ticks (proc_at k1 i) in
        from_stack k (with_stack io i k1) i (allocproc-some io k k1 i e ∙ f) (rw self (t ∙ em))
          (rw (self, s) nz)
          (subst (Reach io k) (ap (λ (q : Option ℕ × Kernel W). q.1) f) (later r (stacks i em)))
  ]
    where
      pair_of : (q : Option ℕ × Kernel W) → q.0 ≡ none → q ≡ (none, q.1)
      pair_of q z = ap (λ (o : Option ℕ). (o, q.1)) z

  -- While the pids have not run out, the kernel that fork leaves is one that the steps reach: an
  -- embryo, its stack, and then either the child that can run or the slot given back.
  fork-Reach : (k : Kernel W) → k.nextpid + 1 < 2 ^ 31 → Reach io k (fork io cur k).1
  fork-Reach k b = elim (alloc_slot_cases k) [
    | inl e ↦
        subst (Reach io k)
          (sym (ap (λ (p : ℕ × Kernel W). p.1) (fork-full io cur k k (allocproc-none io k e))))
          start
    | inr (i, e, l, free) ↦
        let f = embryo_of k.policy k.nextpid k.ticks in
        from_embryo k (with_embryo i k) i e
          (rw (get_or-modify_self k.procs i f zero_proc l)
            (embryo_of_lem k.policy k.nextpid k.ticks (proc_at k i)).0)
          (rw (length-modify k.procs i f) l)
          (subst (Reach io k) (ap (λ (q : Option ℕ × Kernel W). q.1) e) (later start (allocates b)))
  ]
