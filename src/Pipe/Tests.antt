-- ===== src/Pipe/Tests.antt =====
-- Runs of the theorems on pipes: a byte is written, read, and the write end is closed.
use tp2_so.Prelude.{ℕ, ◌≡◌, refl, false, List, [], ◌∷◌, ◌++◌, replicate}
use tp2_so.Pipe.{Pipe, new_pipe, pipewrite, piperead}
use tp2_so.Pipe.Ring.{IsPipe, contents}
use tp2_so.Pipe.Fifo.{Traffic, Traffic-fifo}

abbrev junk : List ℕ
junk = replicate 512 1

abbrev written : Pipe
written = (pipewrite false (7 ∷ 8 ∷ []) (new_pipe junk)).pipe

abbrev half_read : Pipe
half_read = (piperead false 1 written).pipe

abbrev traffic :
    Traffic
      (new_pipe junk)
      ([] ++ (pipewrite false (7 ∷ 8 ∷ []) (new_pipe junk)).sent)
      ([] ++ (piperead false 1 written).bytes)
      half_read
traffic =
    Traffic.reads _ _ written false 1
      (Traffic.writes [] [] (new_pipe junk) false (7 ∷ 8 ∷ []) Traffic.opened)

Traffic-fifo_example :
    IsPipe half_read
    × ([] ++ (piperead false 1 written).bytes) ++ contents half_read
      ≡ [] ++ (pipewrite false (7 ∷ 8 ∷ []) (new_pipe junk)).sent
Traffic-fifo_example = Traffic-fifo junk _ _ half_read refl traffic
