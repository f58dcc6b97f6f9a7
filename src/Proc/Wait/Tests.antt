-- ===== src/Proc/Wait/Tests.antt =====
-- Runs of the theorems on wait and wait2.
use tp2_so.Prelude.{ℕ, zero, suc, ◌≡◌, ◌⊎◌, ◌&&◌, refl, true, false, none, some, done, [], ◌∷◌}
use tp2_so.Proc.{Kernel, unused, sleeping, running, runnable, zombie, is_zombie, proc_at}
use tp2_so.Proc.Samples.{plain, process, with_procs, family, ready}
use tp2_so.Proc.Wait.{wait, reaped}
use tp2_so.Proc.Wait.Children.{is_child, wait-zombie}

abbrev bereft : Kernel ℕ
bereft = with_procs (family zombie)

wait-zombie_example :
    (i : ℕ) × (k' : Kernel ℕ) × (wait plain ready 1 bereft
      ≡ done (reaped (proc_at bereft i).pid, k'))
    × (is_child 1 bereft.procs i ≡ true)
    × (is_zombie (proc_at bereft i).state ≡ true)
    × ((proc_at k' i).state ≡ unused)
    × ((m : ℕ) → (m ≡ i) ⊎ (proc_at k' m ≡ proc_at bereft m))
wait-zombie_example = wait-zombie plain ready 1 bereft 2 refl refl

abbrev lonely : Kernel ℕ
lonely = with_procs (process 1 none sleeping ∷ process 2 (some 0) running ∷ [])

no_child : (j : ℕ) → is_child 1 lonely.procs j ≡ false
no_child zero = refl
no_child (suc zero) = refl
no_child (suc (suc j)) = refl

abbrev parted : Kernel ℕ
parted =
    with_procs
      (process 1 none sleeping ∷ process 2 (some 0) running ∷ process 3 (some 1) runnable ∷ [])

no_zombie : (m : ℕ) → is_child 1 parted.procs m && is_zombie (proc_at parted m).state ≡ false
no_zombie zero = refl
no_zombie (suc zero) = refl
no_zombie (suc (suc zero)) = refl
no_zombie (suc (suc (suc m))) = refl
