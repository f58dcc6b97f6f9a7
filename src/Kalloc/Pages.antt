-- ===== src/Kalloc/Pages.antt =====
-- The linked list of free pages implements a stack of pages.
use tp2_so.Prelude.{
  ℕ, ◌%◌, ◌<◌, ◌≡◌, ◌≢◌, refl, sym, false, List, [], ◌∷◌, All, arith, subst, ◌==◌, done,
}
use tp2_so.Kalloc.{Kmem, bad_page, link_in, kfree, kalloc, page_bytes}

-- From the address `head` the links lead through these pages, and end.
unfoldable pub Chain : (ℕ → ℕ) → ℕ → List ℕ → Type 0
Chain word head [] = head ≡ 0
Chain word head (p ∷ ps) = (head ≡ p) × Chain word (word p) ps

unfoldable pub Distinct : List ℕ → Type 0
Distinct [] = Unit
Distinct (p ∷ ps) = All (λ q. q ≢ p) ps × Distinct ps

-- An address that kfree takes.
pub record IsPage (end_of v : ℕ) : Type 0 where
  pub aligned : v % page_bytes ≡ 0
  pub positive : 0 < v
  pub good : bad_page end_of v ≡ false

pub record IsStack (end_of : ℕ) (ps : List ℕ) (k : Kmem) : Type 0 where
  pub chain : Chain k.word k.freelist ps
  pub pages : All (IsPage end_of) ps
  pub distinct : Distinct ps

Chain-link_in :
    (end_of v h : ℕ) (k : Kmem) (ps : List ℕ)
    → IsPage end_of v
    → All (IsPage end_of) ps
    → All (λ q. q ≢ v) ps
    → Chain k.word h ps
    → Chain (link_in v k) h ps
unfolding Chain
Chain-link_in end_of v h k [] page pages others c = c
Chain-link_in end_of v h k (p ∷ ps) page (here, there) (ne, nes) (e, c) = (
  e,
  subst (λ x. Chain (link_in v k) x ps) (sym same)
      (Chain-link_in end_of v (k.word p) k ps page there nes c),
)
  where
    apart : p ≡ v → ⊥
    apart q = ne q

    same : link_in v k p ≡ k.word p
    same = ground (arith, here.aligned, page.aligned, apart)

-- On a stack of free pages, kfree of another page does not panic and pushes it.
pub kfree-IsStack :
    (end_of v : ℕ) (ps : List ℕ) (k : Kmem)
    → IsStack end_of ps k
    → IsPage end_of v
    → All (λ q. q ≢ v) ps
    → (k1 : Kmem) × (kfree end_of v k ≡ done k1) × IsStack end_of (v ∷ ps) k1
unfolding kfree Chain Distinct
kfree-IsStack end_of v ps k s page others = (
  record k { freelist = v; word = link_in v k },
  rw (page.good) refl,
  record {
    chain = (
      refl,
      subst (λ x. Chain (link_in v k) x ps) (sym self)
          (Chain-link_in end_of v k.freelist k ps page s.pages others s.chain),
    );
    pages = (page, s.pages);
    distinct = (others, s.distinct);
  },
)
  where
    self : link_in v k v ≡ k.freelist
    self = ground arith

-- kalloc takes the page that was freed last, and leaves the others.
pub kalloc-IsStack :
    (end_of p : ℕ) (ps : List ℕ) (k : Kmem)
    → IsStack end_of (p ∷ ps) k
    → ((kalloc k).0 ≡ p) × (p ≢ 0) × IsStack end_of ps (kalloc k).1
unfolding kalloc Chain Distinct
kalloc-IsStack end_of p ps k s = (
  s.chain.0,
  nonzero,
  rw (found) record {
    chain = subst (λ x. Chain k.word (k.word x) ps) (sym s.chain.0) s.chain.1;
    pages = s.pages.1;
    distinct = s.distinct.1;
  },
)
  where
    nonzero : p ≢ 0
    nonzero e = absurd (positive s.pages.0.positive e)
      where
        positive : 0 < p → p ≡ 0 → ⊥
        positive lt q = omega arith

    found : (k.freelist == 0) ≡ false
    found = ground (arith, s.chain.0, s.pages.0.positive)

-- Without a free page kalloc returns 0 and changes nothing.
pub kalloc-empty : (end_of : ℕ) (k : Kmem) → IsStack end_of [] k → kalloc k ≡ (0, k)
unfolding kalloc Chain
kalloc-empty end_of k s = rw (s.chain) refl
