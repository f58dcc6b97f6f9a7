-- ===== src/Proc/Sched/Tests.antt =====
-- Runs of the theorems on the two schedulers and on yield.
use tp2_so.Prelude.{ℕ, ◌≡◌, refl, none, some, List, [], ◌∷◌, arith}
use tp2_so.Proc.{Proc, Kernel, sleeping, runnable, running}
use tp2_so.Proc.Samples.{process, with_procs, family}
use tp2_so.Proc.Sched.{draw, scan, highest}
use tp2_so.Proc.Sched.Lottery.{draw-own_ticket, sum_stakes, stakes_before}
use tp2_so.Proc.Sched.Priority.{scan-IsTop, IsTop}

-- Ten tickets that take part and ten that do not, then ten more.
abbrev three : List Proc
three = process 1 none runnable ∷ process 2 (some 0) sleeping ∷ process 3 (some 0) runnable ∷ []

draw-own_ticket_example : draw 11 0 three ≡ some 2
unfolding sum_stakes stakes_before
draw-own_ticket_example =
    draw-own_ticket 11 2 three (omega arith) (omega arith) refl (omega arith) (omega arith)

abbrev ranked : List Proc
ranked =
    record (process 1 none runnable) { priority = 1; max_time = 5 }
    ∷ record (process 2 (some 0) runnable) { priority = 9; max_time = 5 }
    ∷ []

scan_example : IsTop ranked 1
unfolding scan highest
scan_example = scan-IsTop 2 0 0 1 ranked ranked refl

abbrev busy : Kernel ℕ
busy = with_procs (family running)
