-- ===== src/Proc/Life/Forked.antt =====
-- fork as a whole: when it fails, and the child that it makes.
use native.Mathlib.Decide.{ℕ_discrete}
use tp2_so.Prelude.{
  ℕ, ◌<◌, ◌≡◌, ◌≢◌, ◌⊎◌, ◌∙◌, ap, refl, sym, none, some, true, false, minus_one, arith, inl, inr,
  length, get_or-modify_self, get_or-modify_ne, length-modify, modify, find_index, Option-cases,
}
use tp2_so.Proc.{unused, runnable, is_unused, Proc, Kernel, Services, proc_at, on_proc, zero_proc}
use tp2_so.Proc.Table.{allocproc, embryo_of, set_up_stack, alloc_slot, alloc_stack}
use tp2_so.Proc.Table.Alloc.{
  alloc_slot_cases, embryo_of_lem, with_embryo, alloc_stack_cases, with_stack, allocproc-none,
  allocproc-some,
}
use tp2_so.Proc.Life.{fork, child_of}
use tp2_so.Proc.Life.Forking.{fork-full, fork-no_memory, fork-child, copied}

-- What a forked child has: the parent's memory size, directory, name, trace flag and registers but for
-- `eax`, which is 0; a pid and a kernel stack of its own; and `cur` for a parent.
pub record IsChild (cur pid stack dir : ℕ) (p c : Proc) : Type 0 where
  pub state_runs : c.state ≡ runnable
  pub of_parent : c.parent ≡ some cur
  pub new_pid : c.pid ≡ pid
  pub new_stack : c.kstack ≡ stack
  pub new_dir : c.pgdir ≡ dir
  pub same_size : c.sz ≡ p.sz
  pub returns_0 : c.frame ≡ record (p.frame) { eax = 0 }
  pub same_flag : c.traceflag ≡ p.traceflag
  pub same_cwd : c.cwd ≡ p.cwd

module _ {W : Type 0} (io : Services W) (cur : ℕ) (k : Kernel W) where
  -- The stack that kalloc gives, and the directory that copyuvm makes after it; 0 for none.
  abbrev pub stack_of : ℕ × W
  stack_of = io.kalloc k.world

  abbrev pub copy_of : ℕ × W
  copy_of = io.copyuvm (proc_at k cur).pgdir (proc_at k cur).sz stack_of.1

  child_of-IsChild :
      (i : ℕ) (np : Proc)
      → np.pid ≡ k.nextpid
      → np.kstack ≡ stack_of.0
      → IsChild cur k.nextpid stack_of.0 copy_of.0
          (proc_at k cur)
          (child_of cur copy_of.0 (proc_at k cur) np)
  unfolding child_of
  child_of-IsChild i np e f = record {
    state_runs = refl;
    of_parent = refl;
    new_pid = e;
    new_stack = f;
    new_dir = refl;
    same_size = refl;
    returns_0 = refl;
    same_flag = refl;
    same_cwd = refl;
  }

  -- The slot that allocproc sets up, and the others.
  set_up :
      (i : ℕ)
      → i < length k.procs
      → ((proc_at (with_stack io i (with_embryo i k)) i).pid ≡ k.nextpid)
        × ((proc_at (with_stack io i (with_embryo i k)) i).kstack ≡ stack_of.0)
  unfolding set_up_stack
  set_up i l =
      let f = embryo_of k.policy k.nextpid k.ticks in
      let one = get_or-modify_self k.procs i f zero_proc l in
      let two =
        get_or-modify_self (modify k.procs i f) i (set_up_stack stack_of.0 io.forkret k.ticks)
          zero_proc (rw (length-modify k.procs i f) l) in
      rw (two, one) ((embryo_of_lem k.policy k.nextpid k.ticks (proc_at k i)).1, refl)

  set_up-others : (i j : ℕ) → i ≢ j → proc_at (with_stack io i (with_embryo i k)) j ≡ proc_at k j
  set_up-others i j ne =
      get_or-modify_ne (modify k.procs i (embryo_of k.policy k.nextpid k.ticks)) i j
        (set_up_stack stack_of.0 io.forkret k.ticks) zero_proc ne
      ∙ get_or-modify_ne k.procs i j (embryo_of k.policy k.nextpid k.ticks) zero_proc ne

  no_slot : alloc_slot k ≡ (none, k) → find_index (λ p. is_unused p.state) k.procs ≡ none
  unfolding alloc_slot
  no_slot e = elim (Option-cases (find_index (λ p. is_unused p.state) k.procs)) [
    | inl f ↦ f
    | inr (i, f) ↦ absurd (ground arith)
  ]

  -- A slot in use is not the one that allocproc takes.
  other_slot :
      (i j : ℕ)
      → is_unused (proc_at k i).state ≡ true
      → is_unused (proc_at k j).state ≡ false
      → i ≢ j
  other_slot i j u v e =
      absurd (ground (arith, sym u ∙ ap (λ (x : ℕ). is_unused (proc_at k x).state) e ∙ v))

  this_or : {P : Type 0} (i j : ℕ) → (i ≢ j → P) → (i ≡ j) ⊎ P
  this_or i j f = elim (ℕ_discrete i j) [ yes e ↦ inl e | no ne ↦ inr (f ne) ]

  either_slot :
      {P : Type 0} (i j : ℕ)
      → is_unused (proc_at k i).state ≡ true
      → (i ≢ j → P)
      → (is_unused (proc_at k j).state ≡ true) ⊎ P
  either_slot i j u f = elim (this_or i j f) [
    | inl e ↦ inl (sym (ap (λ (x : ℕ). is_unused (proc_at k x).state) e) ∙ u)
    | inr r ↦ inr r
  ]

  -- What is said of a fork that fails, and of one that makes a child.
  abbrev pub Failed : ℕ × Kernel W → Type 0
  Failed (n, k') =
      (n ≡ minus_one)
      × ((find_index (λ p. is_unused p.state) k.procs ≡ none) ⊎ (stack_of.0 ≡ 0) ⊎ (copy_of.0 ≡ 0))
      × ((j : ℕ) → (is_unused (proc_at k j).state ≡ true) ⊎ (proc_at k' j ≡ proc_at k j))

  abbrev pub Made : ℕ × Kernel W → Type 0
  Made (n, k') =
      (n ≡ k.nextpid)
      × (stack_of.0 ≢ 0)
      × (copy_of.0 ≢ 0)
      × ((i : ℕ) × (is_unused (proc_at k i).state ≡ true)
          × IsChild cur k.nextpid stack_of.0 copy_of.0 (proc_at k cur) (proc_at k' i)
          × ((j : ℕ) → (i ≡ j) ⊎ (proc_at k' j ≡ proc_at k j)))

  -- Where the first half of allocproc takes slot `i` and kalloc has no stack for it.
  no_stack :
      (i : ℕ)
      → alloc_slot k ≡ (some i, with_embryo i k)
      → is_unused (proc_at k i).state ≡ true
      → stack_of.0 ≡ 0
      → Failed (fork io cur k)
  unfolding alloc_stack
  no_stack i e u z =
      let f = allocproc-some io k (with_embryo i k) i e in
      let back =
        on_proc i (λ p. record p { kstack = 0; state = unused })
          (record (with_embryo i k) { world = stack_of.1 }) in
      let g : alloc_stack io i (with_embryo i k) ≡ (none, back) = rw (z, alloc_stack) refl in
      rw (fork-full io cur k back (f ∙ g)) (
        refl,
        inr (inl z),
        λ j. either_slot i j u (λ ne.
            get_or-modify_ne (modify k.procs i (embryo_of k.policy k.nextpid k.ticks)) i j
              (λ p. record p { kstack = 0; state = unused }) zero_proc ne
            ∙ get_or-modify_ne k.procs i j (embryo_of k.policy k.nextpid k.ticks) zero_proc ne),
      )

  stack_fails : (i : ℕ) → (alloc_stack io i (with_embryo i k)).0 ≡ none → stack_of.0 ≡ 0
  unfolding alloc_stack
  stack_fails i z = ground arith

  -- Where allocproc sets slot `i` up.
  with_slot :
      (i : ℕ)
      → allocproc io k ≡ (some i, with_stack io i (with_embryo i k))
      → i < length k.procs
      → is_unused (proc_at k i).state ≡ true
      → stack_of.0 ≢ 0
      → is_unused (proc_at k cur).state ≡ false
      → Failed (fork io cur k) ⊎ Made (fork io cur k)
  with_slot i e l u ns v = elim (ℕ_discrete copy_of.0 0) [
    | yes z ↦ inl (
        rw (fork-no_memory io cur k k2 i e (rw copies z)) (
          refl,
          inr (inr z),
          λ j. either_slot i j u (λ ne.
              get_or-modify_ne k2.procs i j (λ np. record np { kstack = 0; state = unused })
                zero_proc ne
              ∙ set_up-others i j ne),
        ))
    | no nz ↦ inr (
        rw
          (
            fork-child io cur k k2 i e (rw copies nz),
            copies,
            set_up-others i cur (other_slot i cur u v),
          )
          (
            (set_up i l).0,
            ns,
            nz,
            (
              i,
              u,
              rw
                  (get_or-modify_self k2.procs i (child_of cur copy_of.0 (proc_at k cur)) zero_proc
                    inside)
                  (child_of-IsChild i (proc_at k2 i) (set_up i l).0 (set_up i l).1),
              λ j. this_or i j (λ ne.
                  get_or-modify_ne k2.procs i j (child_of cur copy_of.0 (proc_at k cur)) zero_proc
                    ne
                  ∙ set_up-others i j ne),
            ),
          ))
  ]
    where
      k2 : Kernel W
      k2 = with_stack io i (with_embryo i k)

      copies : copied io cur k k2 ≡ copy_of
      copies =
          ap (λ (p : Proc). io.copyuvm p.pgdir p.sz stack_of.1)
            (set_up-others i cur (other_slot i cur u v))

      inside : i < length k2.procs
      inside =
          rw
            (
              length-modify (modify k.procs i (embryo_of k.policy k.nextpid k.ticks)) i
                  (set_up_stack stack_of.0 io.forkret k.ticks),
              length-modify k.procs i (embryo_of k.policy k.nextpid k.ticks),
            )
            l

  -- Where a process is in slot `cur`, fork either returns -1, which it does only where no slot is unused, kalloc
  -- has no stack, or copyuvm no page directory, and then no slot in use changes; or it returns the
  -- next pid, and one slot that was unused holds a child that can run: it has that pid, `cur` for a
  -- parent, the stack and the page directory that kalloc and copyuvm have returned, and the parent's
  -- memory size, directory, trace flag and registers, with `eax` 0; and no other slot changes.
  pub fork_lem :
      is_unused (proc_at k cur).state ≡ false → Failed (fork io cur k) ⊎ Made (fork io cur k)
  fork_lem v = elim (alloc_slot_cases k) [
    | inl e ↦
        inl
          (rw (fork-full io cur k k (allocproc-none io k e)) (refl, inl (no_slot e), λ j. inr refl))
    | inr (i, e, l, u) ↦ elim (alloc_stack_cases io i (with_embryo i k)) [
      | inl z ↦ inl (no_stack i e u (stack_fails i z))
      | inr (f, ns) ↦ with_slot i (allocproc-some io k (with_embryo i k) i e ∙ f) l u ns v
    ]
  ]
