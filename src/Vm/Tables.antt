-- ===== src/Vm/Tables.antt =====
-- A new page table in the directory.
use tp2_so.Prelude.{
  ℕ, ◌+◌, ◌*◌, ◌%◌, ◌^◌, ◌<◌, ◌≤◌, ◌≡◌, ◌≢◌, ◌∙◌, refl, sym, ap, subst, true, false, Bool-cases,
  inl, inr, ◌⊎◌, List, ◌∷◌, arith, if◌then◌else◌, ◌==◌, All, subst₂,
}
use tp2_so.Kalloc.{kernbase, page_bytes}
use tp2_so.Kalloc.Pages.{Distinct}
use tp2_so.Vm.{Memory, p2v, v2p, pdx, ptx, pte_addr, is_present, with_pwu, store, clear_page}
use tp2_so.Vm.Space.{pde_of, table_of, pte_of, IsFreePage, IsSpace, All-map₂, table-aligned}

new-address :
    (p : ℕ) → p % page_bytes ≡ 0 → kernbase ≤ p → p < 2 ^ 32 → p2v (pte_addr (with_pwu (v2p p))) ≡ p
new-address p a b c = omega (arith, a, b, c)

with_pwu-present : (w : ℕ) → is_present (with_pwu w) ≡ true
with_pwu-present w = ground arith

module _ (m : Memory) (pgdir : ℕ) (sp : IsSpace m pgdir) (p : ℕ) (ps : List ℕ) (i : ℕ)
    (l : i < 1024) (pages : All (IsFreePage m pgdir) (p ∷ ps)) (once : Distinct (p ∷ ps))
    (absent : is_present (pde_of m pgdir i) ≡ false) where
  abbrev pub with_table : Memory
  with_table = store (pgdir + 4 * i) (with_pwu (v2p p)) (clear_page p (record m { free = ps }))

  page : IsFreePage m pgdir p
  page = pages.0

  pde_of_self : pde_of with_table pgdir i ≡ with_pwu (v2p p)
  pde_of_self = ground arith

  pde_of-other :
      (j : ℕ) → j < 1024 → (j == i) ≡ false → pde_of with_table pgdir j ≡ pde_of m pgdir j
  pde_of-other j h n = ground (arith, page.not_dir, page.aligned, sp.dir)

  pub table_of_self : table_of with_table pgdir i ≡ p
  table_of_self =
      ap (λ d. p2v (pte_addr d)) pde_of_self ∙ new-address p page.aligned page.above page.below

  pub present_self : is_present (pde_of with_table pgdir i) ≡ true
  present_self = ap is_present pde_of_self ∙ with_pwu-present (v2p p)

  -- A table is the new one or an old one.
  table-cases :
      (j : ℕ)
      → j < 1024
      → is_present (pde_of with_table pgdir j) ≡ true
      → (j ≡ i) × (table_of with_table pgdir j ≡ p)
        ⊎ (is_present (pde_of m pgdir j) ≡ true)
          × (table_of with_table pgdir j ≡ table_of m pgdir j)
  table-cases j h t = elim (Bool-cases (j == i)) [
    | inl e ↦
        let q : j ≡ i = ground (arith, e) in
        inl (q, ap (table_of with_table pgdir) q ∙ table_of_self)
    | inr e ↦
        let same = pde_of-other j h e in
        inr (sym (ap is_present same) ∙ t, ap (λ d. p2v (pte_addr d)) same)
  ]

  new_page : (q : ℕ) → IsFreePage m pgdir q → q ≢ p → IsFreePage with_table pgdir q
  new_page q f ne = record {
    aligned = f.aligned;
    above = f.above;
    below = f.below;
    not_dir = f.not_dir;
    not_table = λ j h t e. elim (table-cases j h t) [
      | inl (_, s) ↦ ne (sym e ∙ s)
      | inr (t1, s) ↦ f.not_table j h t1 (sym s ∙ e)
    ];
  }

  pub with_table-IsSpace : IsSpace with_table pgdir
  unfolding Distinct
  with_table-IsSpace = record {
    dir = sp.dir;
    apart = λ j h t e. elim (table-cases j h t) [
      | inl (_, s) ↦ page.not_dir (sym s ∙ e)
      | inr (t1, s) ↦ sp.apart j h t1 (sym s ∙ e)
    ];
    high = λ j h t. elim (table-cases j h t) [
      | inl (_, s) ↦ subst (λ x. kernbase ≤ x) (sym s) page.above
      | inr (t1, s) ↦ subst (λ x. kernbase ≤ x) (sym s) (sp.high j h t1)
    ];
    distinct = λ j k h g t u e. elim (table-cases j h t) [
      | inl (a, s) ↦ elim (table-cases k g u) [
        | inl (b, r) ↦ a ∙ sym b
        | inr (u1, r) ↦ absurd (page.not_table k g u1 (sym r ∙ (sym e ∙ s)))
      ]
      | inr (t1, s) ↦ elim (table-cases k g u) [
        | inl (b, r) ↦ absurd (page.not_table j h t1 (sym s ∙ (e ∙ r)))
        | inr (u1, r) ↦ sp.distinct j k h g t1 u1 (sym s ∙ (e ∙ r))
      ]
    ];
    free = All-map₂ ps new_page pages.1 once.0;
    once = once.1;
  }

  in_new : (x : ℕ) → x < 1024 → with_table.word (p + 4 * x) ≡ 0
  in_new x h = ground (arith, page.not_dir, page.aligned, sp.dir, l)

  in_old :
      (t x : ℕ)
      → x < 1024
      → t % page_bytes ≡ 0
      → t ≢ pgdir
      → t ≢ p
      → with_table.word (t + 4 * x) ≡ m.word (t + 4 * x)
  in_old t x h a n k = ground (arith, page.aligned, sp.dir, l)

  at_self :
      (x : ℕ)
      → x < 1024
      → (if is_present (pde_of with_table pgdir i)
          then with_table.word (table_of with_table pgdir i + 4 * x)
          else 0)
        ≡ 0
  at_self x h =
      subst₂ (λ b t. (if b then with_table.word (t + 4 * x) else 0) ≡ 0) (sym present_self)
        (sym table_of_self) (in_new x h)

  at_other : (va : ℕ) → (pdx va == i) ≡ false → pte_of with_table pgdir va ≡ pte_of m pgdir va
  at_other va e =
      subst
        (λ d.
          (if is_present d then with_table.word (p2v (pte_addr d) + 4 * ptx va) else 0)
          ≡ pte_of m pgdir va)
        (sym (pde_of-other (pdx va) (omega arith) e))
        (elim (Bool-cases (is_present (pde_of m pgdir (pdx va)))) [
          | inl t ↦
              subst
                (λ b.
                  (if b then with_table.word (table_of m pgdir (pdx va) + 4 * ptx va) else 0)
                  ≡ (if b then m.word (table_of m pgdir (pdx va) + 4 * ptx va) else 0))
                (sym t)
                (in_old (table_of m pgdir (pdx va)) (ptx va) (omega arith)
                  (table-aligned m pgdir (pdx va)) (sp.apart (pdx va) (omega arith) t)
                  (page.not_table (pdx va) (omega arith) t))
          | inr t ↦
              subst
                (λ b.
                  (if b then with_table.word (table_of m pgdir (pdx va) + 4 * ptx va) else 0)
                  ≡ (if b then m.word (table_of m pgdir (pdx va) + 4 * ptx va) else 0))
                (sym t) refl
        ])

  -- The new table is empty, and the entries are as before.
  pub pte_of-with_table : (va : ℕ) → pte_of with_table pgdir va ≡ pte_of m pgdir va
  pte_of-with_table va = elim (Bool-cases (pdx va == i)) [
    | inr e ↦ at_other va e
    | inl e ↦
        let q : pdx va ≡ i = ground (arith, e) in
        subst
          (λ d.
            (if is_present (pde_of with_table pgdir d)
              then with_table.word (table_of with_table pgdir d + 4 * ptx va)
              else 0)
            ≡ (if is_present (pde_of m pgdir d)
                then m.word (table_of m pgdir d + 4 * ptx va)
                else 0))
          (sym q)
          (at_self (ptx va) (omega arith)
            ∙ sym (ap (λ b. if b then m.word (table_of m pgdir i + 4 * ptx va) else 0) absent))
  ]
