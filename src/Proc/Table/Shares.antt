-- ===== src/Proc/Table/Shares.antt =====
-- set_max_time: what the shares add up to.
use tp2_so.Prelude.{
  ℕ, ◌+◌, ◌*◌, ◌/◌, ◌^◌, ◌<◌, ◌≤◌, ◌≡◌, true, false, refl, some, List, [], ◌∷◌, map, if◌then◌else◌,
  ◌==◌, arith, Bool-cases, inl, inr, add32, mul32, sdiv32,
}
use tp2_so.Proc.{Proc, Kernel}
use tp2_so.Proc.Table.{quantum_and_sum, share, divides, all_divide, set_max_time}

-- The priorities of the slots with a pid, and how many there are.
unfoldable pub weights : List Proc → ℕ
weights [] = 0
weights (p ∷ ps) = (if p.pid == 0 then 0 else p.priority) + weights ps

unfoldable pub users : List Proc → ℕ
users [] = 0
users (p ∷ ps) = (if p.pid == 0 then 0 else 1) + users ps

-- The times that the slots with a pid get.
pub granted : List Proc → ℕ
granted [] = 0
granted (p ∷ ps) = (if p.pid == 0 then 0 else p.max_time) + granted ps

quantum_and_sum-eq :
    (ps : List Proc) (q s : ℕ)
    → q + users ps < 2 ^ 32
    → s + weights ps < 2 ^ 32
    → quantum_and_sum ps q s ≡ (q + users ps, s + weights ps)
unfolding quantum_and_sum users weights
quantum_and_sum-eq [] q s h b = ground arith
quantum_and_sum-eq (p ∷ ps) q s h b = elim (Bool-cases (p.pid == 0)) [
  | inl c ↦ ground (arith, quantum_and_sum-eq ps q s)
  | inr c ↦ ground (arith, quantum_and_sum-eq ps (add32 q 1) (add32 s p.priority))
]

sdiv32-small : (a b : ℕ) → a < 2 ^ 31 → b < 2 ^ 31 → sdiv32 a b ≡ a / b
sdiv32-small a b h h' = ground arith

div-mul-le : (a b : ℕ) → 0 < b → a / b * b ≤ a
div-mul-le a b h = grind arith

share-max_time :
    (s : ℕ) (p : Proc)
    → 0 < s
    → s < 2 ^ 31
    → 10000 * p.priority < 2 ^ 31
    → (p.pid == 0) ≡ false
    → (share s p).max_time * s ≤ 10000 * p.priority
unfolding share
share-max_time s p pos b fit c =
    let e : mul32 10000 p.priority ≡ 10000 * p.priority = omega arith in
    rw (c, e, sdiv32-small (10000 * p.priority) s fit b) (div-mul-le (10000 * p.priority) s pos)

pid-share : (s : ℕ) (p : Proc) → (share s p).pid ≡ p.pid
unfolding share
pid-share s p = ground arith

granted-le :
    (s : ℕ) (ps : List Proc)
    → 0 < s
    → s < 2 ^ 31
    → 10000 * weights ps < 2 ^ 31
    → granted (map (share s) ps) * s ≤ 10000 * weights ps
unfolding granted weights
granted-le s [] pos b fit = omega arith
granted-le s (p ∷ ps) pos b fit = elim (Bool-cases (p.pid == 0)) [
  | inl c ↦
      let e : (share s p).pid ≡ 0 = ground (arith, pid-share s p) in
      let r : granted (map (share s) ps) * s ≤ 10000 * weights ps =
        granted-le s ps pos b (ground arith) in
      rw (e, c) (omega (arith, r))
  | inr c ↦
      let e : ((share s p).pid == 0) ≡ false = ground (arith, pid-share s p) in
      let r : granted (map (share s) ps) * s ≤ 10000 * weights ps =
        granted-le s ps pos b (ground arith) in
      rw (e, c) (omega (arith, r, share-max_time s p pos b (ground arith) c))
]

all_divide-small : (s : ℕ) (ps : List Proc) → 0 < s → s < 2 ^ 31 → all_divide s ps ≡ true
unfolding all_divide divides
all_divide-small s [] pos b = refl
all_divide-small s (p ∷ ps) pos b = ground (arith, all_divide-small s ps pos b)

-- Where fewer than 2 ^ 32 slots have a pid, their priorities are not all 0, and 10000 times the sum fits an
-- `int`, set_max_time returns the number of those slots, and the times that it gives them add up to
-- at most 10000.
pub set_max_time-shares :
    {W : Type 0} (k : Kernel W)
    → users k.procs < 2 ^ 32
    → 0 < weights k.procs
    → 10000 * weights k.procs < 2 ^ 31
    → (k' : Kernel W) × (set_max_time k ≡ some (users k.procs, k')) × (granted k'.procs ≤ 10000)
unfolding set_max_time
set_max_time-shares k h pos fit = (
  record k { procs = map (share (weights k.procs)) k.procs },
  ground (arith, quantum_and_sum-eq k.procs 0 0, all_divide-small (weights k.procs) k.procs),
  le_of_mul (granted (map (share (weights k.procs)) k.procs)) 10000 (weights k.procs) pos
      (granted-le (weights k.procs) k.procs pos (omega arith) fit),
)
  where
    le_of_mul : (a b c : ℕ) → 0 < c → a * c ≤ b * c → a ≤ b
    le_of_mul a b c p q = grind arith
