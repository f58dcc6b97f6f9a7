-- ===== src/Vm/Space.antt =====
-- An address space, and a change of one page.
use tp2_so.Prelude.{
  ℕ, ◌+◌, ◌*◌, ◌%◌, ◌^◌, ◌<◌, ◌≤◌, ◌≡◌, ◌≢◌, refl, sym, ap, subst, true, false, ◌&&◌, Bool-cases,
  inl, inr, List, [], ◌∷◌, arith, if◌then◌else◌, ◌==◌, All, subst₂,
}
use tp2_so.Kalloc.{kernbase, page_bytes}
use tp2_so.Kalloc.Pages.{Distinct}
use tp2_so.Vm.{Memory, p2v, pdx, ptx, pte_addr, is_present, store}

-- The entry of the directory, the table there, and the entry for an address: 0 where there is no table.
abbrev pub pde_of : Memory → ℕ → ℕ → ℕ
pde_of m pgdir i = m.word (pgdir + 4 * i)

abbrev pub table_of : Memory → ℕ → ℕ → ℕ
table_of m pgdir i = p2v (pte_addr (pde_of m pgdir i))

abbrev pub pte_of : Memory → ℕ → ℕ → ℕ
pte_of m pgdir va =
    if is_present (pde_of m pgdir (pdx va))
    then m.word (table_of m pgdir (pdx va) + 4 * ptx va)
    else 0

-- A page of the kernel that is neither the directory nor a table.
pub record IsFreePage (m : Memory) (pgdir p : ℕ) : Type 0 where
  pub aligned : p % page_bytes ≡ 0
  pub above : kernbase ≤ p
  pub below : p < 2 ^ 32
  pub not_dir : p ≢ pgdir
  pub not_table : (i : ℕ) → i < 1024 → is_present (pde_of m pgdir i) ≡ true → table_of m pgdir i ≢ p

-- The directory, the tables and the free pages are different pages, and the tables are pages of the kernel.
pub record IsSpace (m : Memory) (pgdir : ℕ) : Type 0 where
  pub dir : pgdir % page_bytes ≡ 0
  pub apart : (i : ℕ) → i < 1024 → is_present (pde_of m pgdir i) ≡ true → table_of m pgdir i ≢ pgdir
  pub high :
      (i : ℕ) → i < 1024 → is_present (pde_of m pgdir i) ≡ true → kernbase ≤ table_of m pgdir i
  pub distinct :
      (i j : ℕ)
      → i < 1024
      → j < 1024
      → is_present (pde_of m pgdir i) ≡ true
      → is_present (pde_of m pgdir j) ≡ true
      → table_of m pgdir i ≡ table_of m pgdir j
      → i ≡ j
  pub free : All (IsFreePage m pgdir) m.free
  pub once : Distinct m.free

All-map : {P Q : ℕ → Type 0} (ps : List ℕ) → ((p : ℕ) → P p → Q p) → All P ps → All Q ps
All-map [] f h = tt
All-map (p ∷ ps) f (h, hs) = (f p h, All-map ps f hs)

pub All-map₂ :
    {P Q R : ℕ → Type 0} (ps : List ℕ)
    → ((p : ℕ) → P p → Q p → R p)
    → All P ps
    → All Q ps
    → All R ps
All-map₂ [] f h g = tt
All-map₂ (p ∷ ps) f (h, hs) (g, gs) = (f p h g, All-map₂ ps f hs gs)

-- What only depends on the directory.
module _ (m m1 : Memory) (pgdir : ℕ)
    (same : (i : ℕ) → i < 1024 → pde_of m1 pgdir i ≡ pde_of m pgdir i) where
  same_page : (p : ℕ) → IsFreePage m pgdir p → IsFreePage m1 pgdir p
  same_page p h = record {
    aligned = h.aligned;
    above = h.above;
    below = h.below;
    not_dir = h.not_dir;
    not_table = λ i l.
        subst (λ x. is_present x ≡ true → p2v (pte_addr x) ≢ p) (sym (same i l)) (h.not_table i l);
  }

  same_directory-IsSpace : m1.free ≡ m.free → IsSpace m pgdir → IsSpace m1 pgdir
  same_directory-IsSpace e sp = record {
    dir = sp.dir;
    apart = λ i l.
        subst (λ x. is_present x ≡ true → p2v (pte_addr x) ≢ pgdir) (sym (same i l)) (sp.apart i l);
    high = λ i l.
        subst (λ x. is_present x ≡ true → kernbase ≤ p2v (pte_addr x)) (sym (same i l))
          (sp.high i l);
    distinct = λ i j l k.
        subst₂
          (λ x y.
            is_present x ≡ true → is_present y ≡ true → p2v (pte_addr x) ≡ p2v (pte_addr y) → i ≡ j)
          (sym (same i l)) (sym (same j k)) (sp.distinct i j l k);
    free = subst (λ ps. All (IsFreePage m1 pgdir) ps) (sym e) (All-map m.free same_page sp.free);
    once = subst Distinct (sym e) sp.once;
  }

-- The slots of aligned pages.
slot_eq :
    (t u x y a i : ℕ)
    → t % page_bytes ≡ 0
    → u % page_bytes ≡ 0
    → x < 1024
    → y < 1024
    → (t ≡ u → a ≡ i)
    → (a ≡ i → t ≡ u)
    → (t + 4 * x == u + 4 * y) ≡ (a == i && x == y)
slot_eq t u x y a i ht hu hx hy f g = elim (Bool-cases (a == i)) [
  | inl e ↦ let q : a ≡ i = ground (arith, e) in ground (arith, g q)
  | inr e ↦ ground (arith, apart e)
]
  where
    apart : (a == i) ≡ false → t ≢ u
    apart e q = let r = f q in ground (arith, r, e)

pub table-aligned : (m : Memory) (pgdir i : ℕ) → table_of m pgdir i % page_bytes ≡ 0
table-aligned m pgdir i = omega arith

-- An entry is written in a table.
module _ (m : Memory) (pgdir : ℕ) (sp : IsSpace m pgdir) (i x w : ℕ) (l : i < 1024) (k : x < 1024)
    (there : is_present (pde_of m pgdir i) ≡ true) where
  pde_of-store :
      (j : ℕ)
      → j < 1024
      → pde_of (store (table_of m pgdir i + 4 * x) w m) pgdir j ≡ pde_of m pgdir j
  pde_of-store j h = ground (arith, sp.apart i l there, sp.dir)

  pub store-IsSpace : IsSpace (store (table_of m pgdir i + 4 * x) w m) pgdir
  store-IsSpace = same_directory-IsSpace m _ pgdir pde_of-store refl sp

  pub pte_of-store :
      (va : ℕ)
      → pte_of (store (table_of m pgdir i + 4 * x) w m) pgdir va
        ≡ (if pdx va == i && ptx va == x then w else pte_of m pgdir va)
  pte_of-store va = elim (Bool-cases (is_present (pde_of m pgdir (pdx va)))) [
    | inl t ↦
        subst
          (λ d.
            (if is_present d
              then (if p2v (pte_addr d) + 4 * ptx va == table_of m pgdir i + 4 * x
                  then w
                  else m.word (p2v (pte_addr d) + 4 * ptx va))
              else 0)
            ≡ (if pdx va == i && ptx va == x then w else pte_of m pgdir va))
          (sym (pde_of-store (pdx va) (omega arith)))
          (rw
            (
              t,
              slot_eq (table_of m pgdir (pdx va)) (table_of m pgdir i) (ptx va) x (pdx va) i
                  (table-aligned m pgdir (pdx va)) (table-aligned m pgdir i) (omega arith) k
                  (sp.distinct (pdx va) i (omega arith) l t there) (λ e. ap (table_of m pgdir) e),
            )
            refl)
    | inr t ↦
        subst
          (λ d.
            (if is_present d
              then (if p2v (pte_addr d) + 4 * ptx va == table_of m pgdir i + 4 * x
                  then w
                  else m.word (p2v (pte_addr d) + 4 * ptx va))
              else 0)
            ≡ (if pdx va == i && ptx va == x then w else pte_of m pgdir va))
          (sym (pde_of-store (pdx va) (omega arith))) (rw (t, other t) refl)
  ]
    where
      clash :
          is_present (pde_of m pgdir (pdx va)) ≡ is_present (pde_of m pgdir i)
          → is_present (pde_of m pgdir (pdx va)) ≡ false
          → ⊥
      clash q t = cc (there)

      other : is_present (pde_of m pgdir (pdx va)) ≡ false → (pdx va == i) ≡ false
      other t = elim (Bool-cases (pdx va == i)) [
        | inr e ↦ e
        | inl e ↦
            let q : pdx va ≡ i = ground (arith, e) in
            absurd (clash (ap (λ j. is_present (pde_of m pgdir j)) q) t)
      ]
