-- ===== src/Kalloc/Tests.antt =====
-- Runs of the theorems on the page allocator: two pages behind the kernel.
use tp2_so.Prelude.{ℕ, ◌≡◌, ◌≢◌, refl, [], ◌∷◌, false, arith, done}
use tp2_so.Kalloc.{Kmem, kfree, kalloc, freerange, page_round_up}
use tp2_so.Kalloc.Pages.{Chain, Distinct, IsPage, IsStack, kfree-IsStack, kalloc-IsStack}
use tp2_so.Kalloc.Range.{IsRange, freed, freerange-IsStack}

abbrev kernel_end : ℕ
kernel_end = 0x8011_5000

abbrev none_free : Kmem
none_free = record { use_lock = false; freelist = 0; word = λ a. 0 }

none_free-IsStack : IsStack kernel_end [] none_free
unfolding Chain Distinct
none_free-IsStack = record { chain = refl; pages = tt; distinct = tt }

abbrev page : ℕ
page = 0x8020_0000

page-IsPage : IsPage kernel_end page
page-IsPage = record { aligned = refl; positive = omega arith; good = refl }

kfree_example :
    (k1 : Kmem) × (kfree kernel_end page none_free ≡ done k1) × IsStack kernel_end (page ∷ []) k1
kfree_example = kfree-IsStack kernel_end page [] none_free none_free-IsStack page-IsPage tt

abbrev one_free : Kmem
one_free = record { use_lock = false; freelist = page; word = λ a. 0 }

one_free-IsStack : IsStack kernel_end (page ∷ []) one_free
unfolding Chain Distinct
one_free-IsStack = record { chain = (refl, refl); pages = (page-IsPage, tt); distinct = (tt, tt) }

kalloc_example :
    ((kalloc one_free).0 ≡ page) × (page ≢ 0) × IsStack kernel_end [] (kalloc one_free).1
kalloc_example = kalloc-IsStack kernel_end page [] one_free one_free-IsStack

two_pages : IsRange kernel_end (page_round_up 0x801f_f123) 0x8020_2345 2
two_pages = record {
  aligned = refl;
  behind = omega arith;
  mapped = omega arith;
  whole = omega arith;
  rest = omega arith;
  physical = omega arith;
}

freerange_example :
    (k1 : Kmem) × (freerange kernel_end 0x801f_f123 0x8020_2345 none_free ≡ done k1)
    × IsStack kernel_end (freed 2 (page_round_up 0x801f_f123) []) k1
freerange_example =
    freerange-IsStack 2 kernel_end 0x801f_f123 0x8020_2345 [] none_free two_pages tt
      none_free-IsStack
