-- ===== src/Ftable/Calls/Tests.antt =====
-- A process with one open file.
use tp2_so.Prelude.{
  ℕ, suc, ◌+◌, ◌-◌, ◌^◌, ◌<◌, ◌≡◌, ◌⊎◌, refl, some, [], ◌∷◌, arith, replicate, get_or, set, modify,
  minus_one, done,
}
use tp2_so.Ftable.{zero_file, with_ref, nfile, filealloc, Closing}
use tp2_so.Ftable.Handles.{boots, allocates, count}
use tp2_so.Ftable.Calls.{Files, argfd, sys_dup, sys_close, open_inode}
use tp2_so.Ftable.Calls.Descriptors.{
  IsOwned, sys_dup-IsOwned, sys_close-IsOwned, open_inode-IsOwned,
}

abbrev one_open : Files
one_open = record {
  ofile = 1 ∷ replicate 15 0;
  table = modify (replicate nfile zero_file) 0 (with_ref 1);
}

one_open-IsOwned : IsOwned one_open []
unfolding count filealloc
one_open-IsOwned = record {
  held = 0 ∷ [];
  before = allocates 0 boots refl;
  same = λ i. ground arith;
}

few : (i : ℕ) → count (suc i) (1 ∷ replicate 15 0) + count i [] < 2 ^ 31 - 1
unfolding count
few i = ground arith

sys_dup-IsOwned_example :
    (r : ℕ) × (s1 : Files) × (sys_dup (some 0) one_open ≡ done (r, s1))
    × IsOwned s1 []
    × ((r ≡ minus_one) × (s1 ≡ one_open)
        ⊎ ((fd : ℕ) × (i : ℕ) × (argfd (some 0) one_open ≡ some (fd, i))
            × (get_or one_open.ofile r 0 ≡ 0)
            × (s1.ofile ≡ set one_open.ofile r (suc i))))
sys_dup-IsOwned_example = sys_dup-IsOwned (some 0) one_open [] one_open-IsOwned few

sys_close-IsOwned_example :
    (r : ℕ) × (c : Closing) × (s1 : Files) × (sys_close (some 0) one_open ≡ done ((r, c), s1))
    × IsOwned s1 []
    × ((r ≡ minus_one) × (s1 ≡ one_open)
        ⊎ (r ≡ 0)
          × ((fd : ℕ) × (i : ℕ) × (argfd (some 0) one_open ≡ some (fd, i))
              × (s1.ofile ≡ set one_open.ofile fd 0)))
sys_close-IsOwned_example = sys_close-IsOwned (some 0) one_open [] one_open-IsOwned

open_inode-IsOwned_example :
    (r : ℕ) × (s1 : Files) × (open_inode 1 7 one_open ≡ done (r, s1))
    × IsOwned s1 []
    × ((r ≡ minus_one) × (s1.ofile ≡ one_open.ofile)
        ⊎ ((i : ℕ) × (get_or one_open.ofile r 0 ≡ 0)
            × (s1.ofile ≡ set one_open.ofile r (suc i))
            × (count (suc i) one_open.ofile + count i [] ≡ 0)))
open_inode-IsOwned_example = open_inode-IsOwned 1 7 one_open [] one_open-IsOwned
