-- ===== src/Vm/Returns.antt =====
-- mappages where there are pages enough.
use tp2_so.Prelude.{
  ℕ, zero, suc, ◌+◌, ◌-◌, ◌*◌, ◌/◌, ◌%◌, ◌^◌, ◌<◌, ◌≤◌, ◌≡◌, ◌≢◌, ◌∙◌, refl, sym, ap, subst, Bool,
  true, false, not, ◌&&◌, ◌||◌, Bool-cases, inl, inr, ◌⊎◌, List, [], ◌∷◌, arith, if◌then◌else◌,
  ◌==◌, ltb, leb, add32, sub32, bit_or, done, length, List-cases,
}
use tp2_so.Kalloc.{kernbase, page_bytes}
use tp2_so.Vm.{
  Memory, pdx, ptx, is_present, with_p, store, walkpgdir, map_from, mappages, page_round_down,
}
use tp2_so.Vm.Space.{pde_of, table_of, pte_of, IsSpace}
use tp2_so.Vm.Mapping.{
  IsWalked, walkpgdir-IsWalked, walkpgdir-new, store-IsMapped, same_page_test, AreMapped,
  mappages-AreMapped,
}

walk-table :
    (pgdir va : ℕ) (m : Memory)
    → IsSpace m pgdir
    → is_present (pde_of m pgdir (pdx va)) ≡ true
    → (walkpgdir pgdir va true m).0 ≢ 0
unfolding walkpgdir
walk-table pgdir va m sp t z =
    let q : (walkpgdir pgdir va true m).0 ≡ table_of m pgdir (pdx va) + 4 * ptx va =
      rw (walkpgdir, t) refl in
    absurd (omega (arith, sp.high (pdx va) (omega arith) t, q, z))

walk-page :
    (pgdir va : ℕ) (m : Memory) (p : ℕ) (ps : List ℕ)
    → IsSpace m pgdir
    → is_present (pde_of m pgdir (pdx va)) ≡ false
    → m.free ≡ p ∷ ps
    → (walkpgdir pgdir va true m).0 ≢ 0
walk-page pgdir va m p ps sp t e z =
    let h : kernbase ≤ p =
      (subst (λ q. tp2_so.Prelude.All (tp2_so.Vm.Space.IsFreePage m pgdir) q) e sp.free).0.above in
    absurd (omega (arith, h, ap (λ x. x.0) (walkpgdir-new pgdir va m p ps t e h), z))

-- With a page left, walkpgdir gives an entry.
walkpgdir-walks :
    (pgdir va : ℕ) (m : Memory)
    → IsSpace m pgdir
    → 0 < length m.free
    → ((walkpgdir pgdir va true m).0 ≢ 0)
      × IsWalked pgdir va m (walkpgdir pgdir va true m).0 (walkpgdir pgdir va true m).1
walkpgdir-walks pgdir va m sp l = elim (walkpgdir-IsWalked pgdir va m sp) [
  | inr w ↦ (some_entry, w)
  | inl z ↦ absurd (some_entry z)
]
  where
    some_entry : (walkpgdir pgdir va true m).0 ≢ 0
    some_entry = elim (Bool-cases (is_present (pde_of m pgdir (pdx va)))) [
      | inl t ↦ walk-table pgdir va m sp t
      | inr t ↦ elim (List-cases m.free) [
        | inl e ↦ absurd (omega (arith, l, ap length e))
        | inr (p, ps, e) ↦ walk-page pgdir va m p ps sp t e
      ]
    ]

-- The entry that walkpgdir points to.
walked-word :
    (pgdir va : ℕ) (m : Memory) (pte : ℕ) (m1 : Memory)
    → IsWalked pgdir va m pte m1
    → m1.word pte ≡ pte_of m pgdir va
walked-word pgdir va m pte m1 w =
    ap m1.word w.address
    ∙ (sym (ap (λ b. if b then m1.word (table_of m1 pgdir (pdx va) + 4 * ptx va) else 0) w.there)
        ∙ w.same va)

map_from-returns :
    (rounds pgdir a last pa perm : ℕ) (m : Memory)
    → IsSpace m pgdir
    → a % page_bytes ≡ 0
    → last % page_bytes ≡ 0
    → a ≤ last
    → last < 2 ^ 32
    → last < a + rounds * page_bytes
    → (last - a) / page_bytes < length m.free
    → ((x : ℕ) → a ≤ x → x < last + page_bytes → is_present (pte_of m pgdir x) ≡ false)
    → (m1 : Memory) × (map_from rounds pgdir a last pa perm m ≡ done (0, m1))
unfolding map_from
map_from-returns zero pgdir a last pa perm m sp za zl le hl en few none_there =
    absurd (omega (arith, le, en))
map_from-returns (suc rounds) pgdir a last pa perm m sp za zl le hl en few none_there =
    let (n, wk) = walkpgdir-walks pgdir a m sp (omega (arith, few)) in
    let z : ((walkpgdir pgdir a true m).0 == 0) ≡ false = ground (arith, n) in
    let t : is_present ((walkpgdir pgdir a true m).1.word (walkpgdir pgdir a true m).0) ≡ false =
      ap is_present (walked-word pgdir a m _ _ wk)
      ∙ none_there a (omega arith) (omega (arith, le)) in
    let m2 =
      store (walkpgdir pgdir a true m).0 (with_p (bit_or pa perm)) (walkpgdir pgdir a true m).1 in
    let mp = store-IsMapped pgdir a (with_p (bit_or pa perm)) m _ _ wk in
    elim (Bool-cases (a == last)) [
      | inl d ↦ (m2, rw (z, t, d) refl)
      | inr d ↦
          let lt : a < last = ground (arith, le, d) in
          let next : add32 a page_bytes ≡ a + page_bytes = ground (arith, za, zl, lt, hl) in
          let (m1, e) =
            map_from-returns rounds pgdir (add32 a page_bytes) last (add32 pa page_bytes) perm m2
              mp.space (omega (arith, next, za)) zl (omega (arith, next, za, zl, lt)) hl
              (omega (arith, next, en)) (omega (arith, next, few, lt, za, zl, wk.taken))
              (λ x l h.
                ap is_present
                  (mp.entry x ∙ beyond x (omega (arith, next, l)) (omega (arith, h, zl, hl)))
                ∙ none_there x (omega (arith, next, l)) h) in
          (m1, rw (z, t, d) e)
    ]
  where
    beyond :
        (x : ℕ)
        → a + page_bytes ≤ x
        → x < 2 ^ 32
        → (if pdx x == pdx a && ptx x == ptx a then with_p (bit_or pa perm) else pte_of m pgdir x)
          ≡ pte_of m pgdir x
    beyond x l h = rw (same_page_test x a h (omega (arith, le, hl)) za) (ground (arith, l))

-- For a range that is not empty and does not wrap around, of which no address has an entry, in an address space whose directory, tables
-- and free pages are different pages, with a free page at least for each page of the range: mappages returns 0. Every address of a page
-- from the first to the last then has the entry of its own physical page, these being consecutive from `pa` on, with the permissions and
-- the bit PTE_P; every other address has the entry that it had; and the directory, the tables, the new ones included, and the free pages
-- are different pages again.
pub mappages-maps :
    (pgdir va size pa perm : ℕ) (m : Memory)
    → IsSpace m pgdir
    → 0 < size
    → va + size ≤ 2 ^ 32
    → pa < 2 ^ 32
    → (page_round_down (va + size - 1) - page_round_down va) / page_bytes < length m.free
    → ((x : ℕ)
        → page_round_down va ≤ x
        → x < page_round_down (va + size - 1) + page_bytes
        → is_present (pte_of m pgdir x) ≡ false)
    → (m1 : Memory) × (mappages pgdir va size pa perm m ≡ done (0, m1))
      × AreMapped pgdir (page_round_down va) (page_round_down (va + size - 1)) pa perm m m1
unfolding mappages
mappages-maps pgdir va size pa perm m sp pos fits hp few none_there =
    let ends : page_round_down (sub32 (add32 va size) 1) ≡ page_round_down (va + size - 1) =
      ground (arith, pos, fits) in
    let (m1, e) =
      subst
        (λ l.
          (m1 : Memory) × (map_from (sub32 l (page_round_down va) / page_bytes + 1) pgdir
              (page_round_down va) l pa perm m
            ≡ done (0, m1)))
        (sym ends)
        (run (page_round_down va) (page_round_down (va + size - 1)) (omega arith) (omega arith)
          (omega (arith, pos, fits)) (omega (arith, pos, fits)) few none_there) in
    (m1, e, mappages-AreMapped pgdir va size pa perm m m1 sp pos fits hp e)
  where
    run :
        (a last : ℕ)
        → a % page_bytes ≡ 0
        → last % page_bytes ≡ 0
        → a ≤ last
        → last < 2 ^ 32
        → (last - a) / page_bytes < length m.free
        → ((x : ℕ) → a ≤ x → x < last + page_bytes → is_present (pte_of m pgdir x) ≡ false)
        → (m1 : Memory) × (map_from (sub32 last a / page_bytes + 1) pgdir a last pa perm m
            ≡ done (0, m1))
    run a last za zl le hl few1 clear =
        let rounds : sub32 last a / page_bytes + 1 ≡ (last - a) / page_bytes + 1 =
          ground (arith, le, hl) in
        map_from-returns (sub32 last a / page_bytes + 1) pgdir a last pa perm m sp za zl le hl
          (omega (arith, rounds, le)) few1 clear
