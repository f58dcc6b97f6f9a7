-- ===== src/Kalloc/Range.antt =====
-- freerange's loop frees every whole page of its range.
use tp2_so.Prelude.{
  ℕ, zero, suc, ◌+◌, ◌*◌, ◌/◌, ◌%◌, ◌<◌, ◌≤◌, ◌≡◌, ◌≢◌, refl, sym, false, true, List, [], ◌∷◌, All,
  arith, subst, done, add32, leb,
}
use tp2_so.Kalloc.{Kmem, free_from, freerange, page_round_up, page_bytes, phystop, kernbase}
use tp2_so.Kalloc.Pages.{IsPage, IsStack, kfree-IsStack}

-- The stack when `n` pages from `p` on have been freed on top of `ps`, the last one on top.
unfoldable pub freed : ℕ → ℕ → List ℕ → List ℕ
freed zero p ps = ps
freed (suc n) p ps = freed n (p + page_bytes) (p ∷ ps)

-- A range that starts at a page boundary, holds `n` whole pages, and lies in the physical memory
-- that the kernel maps, behind the kernel itself.
pub record IsRange (end_of p vend n : ℕ) : Type 0 where
  pub aligned : p % page_bytes ≡ 0
  pub behind : end_of ≤ p
  pub mapped : kernbase ≤ p
  pub whole : p + n * page_bytes ≤ vend
  pub rest : vend < p + (n + 1) * page_bytes
  pub physical : vend ≤ kernbase + phystop

first-IsPage : (end_of p vend n : ℕ) → IsRange end_of p vend (suc n) → IsPage end_of p
first-IsPage end_of p vend n r = record {
  aligned = r.aligned;
  positive = omega (arith, r.mapped);
  good = ground (arith, r.aligned, r.behind, r.mapped, r.whole, r.physical);
}

next-IsRange :
    (end_of p vend n : ℕ) → IsRange end_of p vend (suc n) → IsRange end_of (p + page_bytes) vend n
next-IsRange end_of p vend n r = record {
  aligned = omega (arith, r.aligned);
  behind = omega (arith, r.behind);
  mapped = omega (arith, r.mapped);
  whole = omega (arith, r.whole);
  rest = omega (arith, r.rest);
  physical = r.physical;
}

raise : (p : ℕ) (ps : List ℕ) → All (λ q. q < p) ps → All (λ q. q < p + page_bytes) ps
raise p [] b = tt
raise p (q ∷ ps) (lt, b) = (omega arith, raise p ps b)

below-ne : (p : ℕ) (ps : List ℕ) → All (λ q. q < p) ps → All (λ q. q ≢ p) ps
below-ne p [] b = tt
below-ne p (q ∷ ps) (lt, b) = ((λ e. absurd (apart lt e)), below-ne p ps b)
  where
    apart : q < p → q ≡ p → ⊥
    apart l e = omega arith

free_from-IsStack :
    (n fuel end_of p vend : ℕ) (ps : List ℕ) (k : Kmem)
    → n < fuel
    → IsRange end_of p vend n
    → All (λ q. q < p) ps
    → IsStack end_of ps k
    → (k1 : Kmem) × (free_from fuel end_of p vend k ≡ done k1) × IsStack end_of (freed n p ps) k1
unfolding free_from freed
free_from-IsStack zero zero end_of p vend ps k lt r b s = absurd (no lt)
  where
    no : 0 < 0 → ⊥
    no l = omega arith
free_from-IsStack zero (suc fuel) end_of p vend ps k lt r b s = (k, rw (stops) refl, s)
  where
    stops : leb (add32 p page_bytes) vend ≡ false
    stops = ground (arith, r.rest, r.physical, r.whole)
free_from-IsStack (suc n) zero end_of p vend ps k lt r b s = absurd (no lt)
  where
    no : suc n < 0 → ⊥
    no l = omega arith
free_from-IsStack (suc n) (suc fuel) end_of p vend ps k lt r b s =
    let (k1, e1, s1) =
      kfree-IsStack end_of p ps k s (first-IsPage end_of p vend n r) (below-ne p ps b) in
    let (k2, e2, s2) =
      free_from-IsStack n fuel end_of (p + page_bytes) vend (p ∷ ps) k1 (omega arith)
        (next-IsRange end_of p vend n r) (omega arith, raise p ps b) s1 in
    (k2, rw (goes, e1) (subst (λ x. free_from fuel end_of x vend k1 ≡ done k2) (sym narrow) e2), s2)
  where
    goes : leb (add32 p page_bytes) vend ≡ true
    goes = ground (arith, r.whole, r.physical)

    narrow : add32 p page_bytes ≡ p + page_bytes
    narrow = ground (arith, r.whole, r.physical)

-- On a stack of pages below the range, freerange ends without a panic, and has pushed the whole pages
-- of the range in ascending order: the fuel of the model is enough.
pub freerange-IsStack :
    (n end_of vstart vend : ℕ) (ps : List ℕ) (k : Kmem)
    → IsRange end_of (page_round_up vstart) vend n
    → All (λ q. q < page_round_up vstart) ps
    → IsStack end_of ps k
    → (k1 : Kmem) × (freerange end_of vstart vend k ≡ done k1)
      × IsStack end_of (freed n (page_round_up vstart) ps) k1
unfolding freerange
freerange-IsStack n end_of vstart vend ps k r b s =
    free_from-IsStack n (vend / page_bytes + 1) end_of (page_round_up vstart) vend ps k
      (enough (page_round_up vstart) r.whole) r b s
  where
    enough : (p : ℕ) → p + n * page_bytes ≤ vend → n < vend / page_bytes + 1
    enough p le = omega arith
