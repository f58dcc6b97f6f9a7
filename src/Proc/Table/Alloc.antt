-- ===== src/Proc/Table/Alloc.antt =====
-- allocproc: which slot it takes, and what it writes there.
use tp2_so.Prelude.{
  ℕ, ◌<◌, ◌≡◌, ◌≢◌, refl, ap, ◌⊎◌, inl, inr, true, none, some, length, modify, find_index,
  find_index-some, arith, add32, Option-cases, Bool-cases, ◌==◌,
}
use tp2_so.Proc.{
  Policy, lottery, priority_rr, embryo, is_unused, Proc, Kernel, Services, proc_at, on_proc,
  zero_proc,
}
use tp2_so.Proc.Table.{alloc_slot, alloc_stack, allocproc, alloc_rest, embryo_of, set_up_stack}

pub embryo_of_lem :
    (policy : Policy) (pid ticks : ℕ) (p : Proc)
    → ((embryo_of policy pid ticks p).state ≡ embryo) × ((embryo_of policy pid ticks p).pid ≡ pid)
unfolding embryo_of
embryo_of_lem lottery pid ticks p = (refl, refl)
embryo_of_lem priority_rr pid ticks p = (refl, refl)

-- The kernel after slot `i` has become an embryo.
abbrev pub with_embryo : {W : Type 0} → ℕ → Kernel W → Kernel W
with_embryo i k = record k {
  procs = modify k.procs i (embryo_of k.policy k.nextpid k.ticks);
  nextpid = add32 k.nextpid 1;
}

pub alloc_slot_cases :
    {W : Type 0} (k : Kernel W)
    → (alloc_slot k ≡ (none, k))
      ⊎ ((i : ℕ) × (alloc_slot k ≡ (some i, with_embryo i k))
          × (i < length k.procs)
          × (is_unused (proc_at k i).state ≡ true))
unfolding alloc_slot
alloc_slot_cases k = elim (Option-cases (find_index (λ p. is_unused p.state) k.procs)) [
  | inl e ↦ inl (rw (e, alloc_slot) refl)
  | inr (i, e) ↦
      let (l, u) = find_index-some (λ p. is_unused p.state) k.procs i zero_proc e in
      inr (i, rw (e, alloc_slot) refl, l, u)
]

-- The kernel after slot `i` has got its stack.
abbrev pub with_stack : {W : Type 0} → Services W → ℕ → Kernel W → Kernel W
with_stack io i k =
    on_proc i (set_up_stack (io.kalloc k.world).0 io.forkret k.ticks)
      (record k { world = (io.kalloc k.world).1 })

pub alloc_stack_cases :
    {W : Type 0} (io : Services W) (i : ℕ) (k : Kernel W)
    → ((alloc_stack io i k).0 ≡ none)
      ⊎ ((alloc_stack io i k ≡ (some i, with_stack io i k)) × ((io.kalloc k.world).0 ≢ 0))
unfolding alloc_stack
alloc_stack_cases io i k = elim (Bool-cases ((io.kalloc k.world).0 == 0)) [
  | inl c ↦ inl (rw (c, alloc_stack) refl)
  | inr c ↦ inr (rw (c, alloc_stack) refl, ground arith)
]

pub set_up_stack_lem :
    (stack forkret ticks : ℕ) (p : Proc)
    → ((set_up_stack stack forkret ticks p).kstack ≡ stack)
      × ((set_up_stack stack forkret ticks p).state ≡ p.state)
      × ((set_up_stack stack forkret ticks p).pid ≡ p.pid)
unfolding set_up_stack
set_up_stack_lem stack forkret ticks p = (refl, refl, refl)

-- allocproc is its two halves.
pub allocproc-none :
    {W : Type 0} (io : Services W) (k : Kernel W)
    → alloc_slot k ≡ (none, k)
    → allocproc io k ≡ (none, k)
unfolding allocproc alloc_rest
allocproc-none io k e = ap (alloc_rest io) e

pub allocproc-some :
    {W : Type 0} (io : Services W) (k k1 : Kernel W) (i : ℕ)
    → alloc_slot k ≡ (some i, k1)
    → allocproc io k ≡ alloc_stack io i k1
unfolding allocproc alloc_rest
allocproc-some io k k1 i e = ap (alloc_rest io) e
