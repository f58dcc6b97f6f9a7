-- ===== src/Vm/Tests.antt =====
-- A page mapped in an empty directory.
use tp2_so.Prelude.{ℕ, true, false, ◌+◌, ◌≡◌, refl, arith, [], ◌∷◌, done}
use tp2_so.Kalloc.{kernbase}
use tp2_so.Kalloc.Pages.{Distinct}
use tp2_so.Vm.{Memory, is_present, mappages}
use tp2_so.Vm.Space.{IsSpace, pte_of}
use tp2_so.Vm.Mapping.{AreMapped}
use tp2_so.Vm.Returns.{mappages-maps}

abbrev empty : Memory
empty = record { word = λ a. 0; free = (kernbase + 8192) ∷ ((kernbase + 4096) ∷ []) }

empty-IsSpace : IsSpace empty kernbase
unfolding Distinct
empty-IsSpace = record {
  dir = refl;
  apart = λ i l t. absurd (nothing t);
  high = λ i l t. absurd (nothing t);
  distinct = λ i j l k t u e. absurd (nothing t);
  free = (
    record {
      aligned = refl;
      above = omega arith;
      below = omega arith;
      not_dir = omega arith;
      not_table = λ i l t. absurd (nothing t);
    },
    (
      record {
        aligned = refl;
        above = omega arith;
        below = omega arith;
        not_dir = omega arith;
        not_table = λ i l t. absurd (nothing t);
      },
      tt,
    ),
  );
  once = ((omega arith, tt), (tt, tt));
}
  where
    nothing : is_present 0 ≡ true → ⊥
    nothing t = cc

nothing_there : (x : ℕ) → is_present (pte_of empty kernbase x) ≡ false
nothing_there x = refl

mappages-maps_example :
    (m1 : Memory) × (mappages kernbase 5000 4096 65536 6 empty ≡ done (0, m1))
    × AreMapped kernbase 4096 8192 65536 6 empty m1
mappages-maps_example =
    mappages-maps kernbase 5000 4096 65536 6 empty empty-IsSpace (omega arith) (omega arith)
      (omega arith) (omega arith) (λ x l h. nothing_there x)
