-- ===== src/Ftable/Tests.antt =====
-- A file opened after boot.
use tp2_so.Prelude.{◌≡◌, ◌≢◌, ◌⊎◌, refl, arith, List, [], ◌∷◌, done, replicate, modify}
use tp2_so.Ftable.{
  File, zero_file, with_ref, nfile, filealloc, fileclose, Closing, still_open, closes_nothing,
}
use tp2_so.Ftable.Handles.{Held, boots, allocates, count}
use tp2_so.Ftable.Safety.{Held-closes}

abbrev one_open : List File
one_open = modify (replicate nfile zero_file) 0 (with_ref 1)

one_open-Held : Held one_open (0 ∷ [])
unfolding filealloc
one_open-Held = allocates 0 boots refl

one_reference : count 0 (0 ∷ []) ≢ 0
unfolding count
one_reference e = omega arith

Held-closes_example :
    (c : Closing) × (t1 : List File) × (fileclose 0 one_open ≡ done (c, t1))
    × ((count 0 (0 ∷ []) ≡ 1) × (c ≡ closes_nothing) ⊎ (count 0 (0 ∷ []) ≢ 1) × (c ≡ still_open))
Held-closes_example = Held-closes one_open (0 ∷ []) 0 one_open-Held one_reference
