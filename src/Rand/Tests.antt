-- ===== src/Rand/Tests.antt =====
-- Runs of the theorems on the random numbers.
use tp2_so.Prelude.{ℕ, ◌+◌, refl, arith}
use tp2_so.Rand.{unseeded}
use tp2_so.Rand.State.{IsTwister}

unseeded-IsTwister : IsTwister unseeded
unseeded-IsTwister = record { words = refl; index = omega arith }

-- A source that counts.
abbrev count_up : ℕ → ℕ × ℕ
count_up s = (s, s + 1)
