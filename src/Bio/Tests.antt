-- ===== src/Bio/Tests.antt =====
-- A block read from the disk after boot.
use tp2_so.Prelude.{ℕ, [], inl, refl, done, panic, Outcome}
use tp2_so.Sleeplock.{acquiresleep, holdingsleep}
use tp2_so.Bio.{
  Data, Cache, Got, binit, link_all, first_in, backwards, bget, bread, bread_rest, bread_locked,
  read_in, iderw,
}
use tp2_so.Bio.Stored.{IsRead}
use tp2_so.Bio.Steps.{starts, bread-latest}

abbrev numbered : ℕ → Data
numbered = λ b i. b

-- The cache that a call leaves.
abbrev left_by : Outcome (Got × Cache) → Cache
left_by (done (r, c)) = c
left_by (panic s) = binit numbered 100

bread-latest_example : IsRead 7 0 33 (left_by (bread 7 1 33 (binit numbered 100))) numbered
unfolding binit link_all first_in backwards bget bread bread_rest bread_locked read_in iderw
    acquiresleep holdingsleep
bread-latest_example =
    bread-latest numbered 100 (binit numbered 100) (left_by (bread 7 1 33 (binit numbered 100)))
      numbered [] 7 33 0 starts (inl refl)
