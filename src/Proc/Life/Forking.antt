-- ===== src/Proc/Life/Forking.antt =====
-- The branches of fork.
use tp2_so.Prelude.{
  ℕ, ◌≡◌, ◌≢◌, ◌∙◌, ap, refl, none, some, ◌==◌, minus_one, arith, Bool-cases, inl, inr,
}
use tp2_so.Proc.{unused, Kernel, Services, proc_at, on_proc}
use tp2_so.Proc.Table.{allocproc}
use tp2_so.Proc.Life.{fork, fork_rest, child_of, dup_files}

module _ {W : Type 0} (io : Services W) (cur : ℕ) (k k1 : Kernel W) where
  -- Where allocproc finds no slot or no stack.
  pub fork-full : allocproc io k ≡ (none, k1) → fork io cur k ≡ (minus_one, k1)
  unfolding fork
  fork-full e = ap (fork_rest io cur) e

  -- The page directory that copyuvm makes, or 0.
  abbrev pub copied : ℕ × W
  copied = io.copyuvm (proc_at k1 cur).pgdir (proc_at k1 cur).sz k1.world

  -- Where copyuvm fails: the child's stack goes back to the allocator and its slot is free again.
  pub fork-no_memory :
      (i : ℕ)
      → allocproc io k ≡ (some i, k1)
      → copied.0 ≡ 0
      → fork io cur k ≡ (
        minus_one,
        on_proc i
            (λ np. record np { kstack = 0; state = unused })
            (record k1 { world = io.kfree (proc_at k1 i).kstack copied.1 }),
      )
  unfolding fork fork_rest
  fork-no_memory i e z = ap (fork_rest io cur) e ∙ rw (z, fork_rest) refl

  -- Where both succeed: the child is set up from the parent, and its pid is returned.
  pub fork-child :
      (i : ℕ)
      → allocproc io k ≡ (some i, k1)
      → copied.0 ≢ 0
      → fork io cur k ≡ (
        (proc_at k1 i).pid,
        on_proc i (child_of cur copied.0 (proc_at k1 cur)) (record k1 {
          world = io.idup (proc_at k1 cur).cwd (dup_files io (proc_at k1 cur).ofile copied.1);
        }),
      )
  unfolding fork fork_rest
  fork-child i e nz = elim (Bool-cases (copied.0 == 0)) [
    | inl c ↦ absurd (nz (ground arith))
    | inr c ↦ ap (fork_rest io cur) e ∙ rw (c, fork_rest) refl
  ]
