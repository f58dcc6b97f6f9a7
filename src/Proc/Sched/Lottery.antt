-- ===== src/Proc/Sched/Lottery.antt =====
-- The lottery of `scheduler`: every drawn ticket belongs to one runnable process.
use tp2_so.Prelude.{
  ℕ, zero, suc, ◌+◌, ◌^◌, ◌≤◌, ◌<◌, ◌≡◌, refl, ◌≢◌, inl, inr, true, none, some, List, [], ◌∷◌,
  if◌then◌else◌, length, get_or, arith, Bool-cases, Option-cases, add32, find_index, done,
}
use tp2_so.Proc.{Proc, Kernel, running, interv, proc_at, on_proc, zero_proc, is_runnable}
use tp2_so.Proc.Sched.{total_from, total_tickets, draw, lottery_round, check_vm, start_lottery}

-- The tickets that a slot takes part with, and their sum without wrap-around.
abbrev pub stake : Proc → ℕ
stake p = if is_runnable p.state then p.tickets else 0

unfoldable pub sum_stakes : List Proc → ℕ
sum_stakes [] = 0
sum_stakes (p ∷ ps) = stake p + sum_stakes ps

-- The tickets that stand before slot `i`.
unfoldable pub stakes_before : ℕ → List Proc → ℕ
stakes_before zero ps = 0
stakes_before (suc i) [] = 0
stakes_before (suc i) (p ∷ ps) = stake p + stakes_before i ps

stakes_before-le : (i : ℕ) (ps : List Proc) → stakes_before i ps ≤ sum_stakes ps
unfolding sum_stakes stakes_before
stakes_before-le zero ps = omega arith
stakes_before-le (suc i) [] = omega arith
stakes_before-le (suc i) (p ∷ ps) = omega (arith, stakes_before-le i ps)

total_from-eq :
    (sum : ℕ) (ps : List Proc)
    → sum + sum_stakes ps < 2 ^ 31
    → total_from sum ps ≡ sum + sum_stakes ps
unfolding total_from sum_stakes
total_from-eq sum [] h = omega arith
total_from-eq sum (p ∷ ps) h = elim (Bool-cases (is_runnable p.state)) [
  | inl e ↦ ground (arith, total_from-eq (add32 sum p.tickets) ps)
  | inr e ↦ ground (arith, total_from-eq sum ps)
]

-- While the tickets of the runnable processes add up to less than 2 ^ 31, the first loop of the
-- lottery computes their sum.
pub total_tickets-eq-sum_stakes :
    (ps : List Proc) → sum_stakes ps < 2 ^ 31 → total_tickets ps ≡ sum_stakes ps
unfolding total_tickets
total_tickets-eq-sum_stakes ps h = ground (arith, total_from-eq 0 ps)

-- With `passed` tickets behind it the loop stops at the slot whose stake covers the winner.
draw_from :
    (w passed i : ℕ) (ps : List Proc)
    → passed + sum_stakes ps < 2 ^ 31
    → i < length ps
    → is_runnable (get_or ps i zero_proc).state ≡ true
    → passed + stakes_before i ps < w
    → w ≤ passed + stakes_before (suc i) ps
    → draw w passed ps ≡ some i
unfolding draw sum_stakes stakes_before
draw_from w passed i [] h l r a b = absurd (omega arith)
draw_from w passed zero (p ∷ []) h l r a b = ground arith
draw_from w passed zero (p ∷ q ∷ ps) h l r a b = ground arith
draw_from w passed (suc i) (p ∷ ps) h l r a b = elim (Bool-cases (is_runnable p.state)) [
  | inl e ↦ ground (arith, draw_from w (add32 passed p.tickets) i ps, stakes_before-le (suc i) ps)
  | inr e ↦ ground (arith, draw_from w passed i ps, stakes_before-le (suc i) ps)
]

-- While the tickets of the runnable processes add up to less than 2 ^ 31, the runnable slot `i` is
-- drawn by every winner that lies above the tickets of the runnable slots before it and not above
-- them with its own, so by as many winners as it has tickets.
pub draw-own_ticket :
    (w i : ℕ) (ps : List Proc)
    → sum_stakes ps < 2 ^ 31
    → i < length ps
    → is_runnable (get_or ps i zero_proc).state ≡ true
    → stakes_before i ps < w
    → w ≤ stakes_before (suc i) ps
    → draw w 0 ps ≡ some i
draw-own_ticket w i ps h l r a b = draw_from w 0 i ps (omega arith) l r (omega arith) (omega arith)

draw_zero_from :
    (passed : ℕ) (ps : List Proc)
    → passed + sum_stakes ps < 2 ^ 31
    → draw 0 passed ps ≡ find_index (λ p. is_runnable p.state) ps
unfolding draw sum_stakes
draw_zero_from passed [] h = refl
draw_zero_from passed (p ∷ ps) h = elim (Bool-cases (is_runnable p.state)) [
  | inl e ↦ ground arith
  | inr e ↦ ground (arith, draw_zero_from passed ps)
]

-- What the drawing loop stops at is a runnable slot of the table.
pub draw-some :
    (w passed j : ℕ) (ps : List Proc)
    → draw w passed ps ≡ some j
    → (j < length ps) × (is_runnable (get_or ps j zero_proc).state ≡ true)
unfolding draw
draw-some w passed j [] e = absurd (cc)
draw-some w passed zero (p ∷ ps) e = ground arith
draw-some w passed (suc j) (p ∷ ps) e =
    ground
      (arith, draw-some w (if is_runnable p.state then add32 passed p.tickets else passed) j ps)

draw-ne-none_above :
    (w passed : ℕ) (ps : List Proc)
    → passed + sum_stakes ps < 2 ^ 31
    → passed < w
    → w ≤ passed + sum_stakes ps
    → draw w passed ps ≢ none
unfolding draw sum_stakes
draw-ne-none_above w passed [] h a b = absurd (omega arith)
draw-ne-none_above w passed (p ∷ ps) h a b = elim (Bool-cases (is_runnable p.state)) [
  | inl e ↦ ground (arith, draw-ne-none_above w (add32 passed p.tickets) ps)
  | inr e ↦ ground (arith, draw-ne-none_above w passed ps)
]

draw-ne-none :
    (w passed i : ℕ) (ps : List Proc)
    → passed + sum_stakes ps < 2 ^ 31
    → w ≤ passed + sum_stakes ps
    → find_index (λ p. is_runnable p.state) ps ≡ some i
    → draw w passed ps ≢ none
unfolding draw sum_stakes
draw-ne-none w passed i [] h b f = absurd (cc)
draw-ne-none w passed zero (p ∷ ps) h b f =
    ground (arith, draw-ne-none_above w (add32 passed p.tickets) ps)
draw-ne-none w passed (suc i) (p ∷ ps) h b f = ground (arith, draw-ne-none w passed i ps)

-- While the tickets of the runnable processes add up to less than 2 ^ 31, every winner up to their
-- total, as the first loop computes it, picks a runnable slot, if the table has one.
pub draw_wins :
    (w i : ℕ) (ps : List Proc)
    → sum_stakes ps < 2 ^ 31
    → w ≤ total_tickets ps
    → find_index (λ p. is_runnable p.state) ps ≡ some i
    → (j : ℕ) × (draw w 0 ps ≡ some j)
      × (j < length ps)
      × (is_runnable (get_or ps j zero_proc).state ≡ true)
draw_wins w i ps h b f = elim (Option-cases (draw w 0 ps)) [
  | inl e ↦ absurd (draw-ne-none w 0 i ps (omega arith) le f e)
  | inr (j, e) ↦ let (l, r) = draw-some w 0 j ps e in (j, e, l, r)
]
  where
    le : w ≤ 0 + sum_stakes ps
    le = omega (arith, total_tickets-eq-sum_stakes ps h)

-- While the tickets of the runnable processes add up to less than 2 ^ 31, the winner 0, which is
-- drawn as well, falls to the first runnable slot, if there is one.
pub draw-zero :
    (ps : List Proc)
    → sum_stakes ps < 2 ^ 31
    → draw 0 0 ps ≡ find_index (λ p. is_runnable p.state) ps
draw-zero ps h = draw_zero_from 0 ps (omega arith)

-- The winner's slot as the scheduler leaves it when it switches.
abbrev pub scheduled : Proc → Proc
scheduled p = record p { state = running; counter = add32 p.counter 1; timeslice = interv }

pub lottery_round-runs :
    {W : Type 0} (w i : ℕ) (k : Kernel W)
    → draw w 0 k.procs ≡ some i
    → (proc_at k i).kstack ≢ 0
    → (proc_at k i).pgdir ≢ 0
    → lottery_round w k ≡ done (some i, on_proc i scheduled k)
unfolding lottery_round check_vm start_lottery
lottery_round-runs w i k e st dir = rw (e, lottery_round) (ground arith)
