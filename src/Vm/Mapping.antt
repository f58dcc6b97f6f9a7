-- ===== src/Vm/Mapping.antt =====
-- mappages.
use Prim.Native.String.{String}
use tp2_so.Prelude.{
  length, subst₂, List-cases, ℕ, zero, suc, ◌+◌, ◌-◌, ◌*◌, ◌/◌, ◌%◌, ◌^◌, ◌<◌, ◌≤◌, ◌≡◌, ◌∙◌, refl,
  sym, ap, subst, true, false, ◌&&◌, Bool-cases, inl, inr, ◌⊎◌, List, [], ◌∷◌, arith, if◌then◌else◌,
  ◌==◌, ltb, leb, add32, sub32, All, bit_or, done, panic, Outcome, minus_one,
}
use tp2_so.Kalloc.{kernbase, page_bytes}
use tp2_so.Kalloc.Pages.{Distinct}
use tp2_so.Vm.{
  Memory, v2p, pdx, ptx, is_present, with_p, with_pwu, store, clear_page, walkpgdir, map_from,
  mappages, page_round_down,
}
use tp2_so.Vm.Space.{pde_of, table_of, pte_of, IsFreePage, IsSpace, store-IsSpace, pte_of-store}
use tp2_so.Vm.Tables.{table_of_self, present_self, with_table-IsSpace, pte_of-with_table}

-- What walkpgdir with `alloc` leaves: no page was left, or there is a table for the address.
pub record IsWalked (pgdir va : ℕ) (m : Memory) (pte : ℕ) (m1 : Memory) : Type 0 where
  pub space : IsSpace m1 pgdir
  pub there : is_present (pde_of m1 pgdir (pdx va)) ≡ true
  pub address : pte ≡ table_of m1 pgdir (pdx va) + 4 * ptx va
  pub same : (x : ℕ) → pte_of m1 pgdir x ≡ pte_of m pgdir x
  pub taken : length m.free ≤ length m1.free + 1

walkpgdir-empty :
    (pgdir va : ℕ) (m : Memory)
    → is_present (pde_of m pgdir (pdx va)) ≡ false
    → m.free ≡ []
    → (walkpgdir pgdir va true m).0 ≡ 0
unfolding walkpgdir
walkpgdir-empty pgdir va m t e = rw (walkpgdir, t, e) refl

pub walkpgdir-new :
    (pgdir va : ℕ) (m : Memory) (p : ℕ) (ps : List ℕ)
    → is_present (pde_of m pgdir (pdx va)) ≡ false
    → m.free ≡ p ∷ ps
    → kernbase ≤ p
    → walkpgdir pgdir va true m ≡ (
      p + 4 * ptx va,
      store (pgdir + 4 * pdx va) (with_pwu (v2p p)) (clear_page p (record m { free = ps })),
    )
unfolding walkpgdir
walkpgdir-new pgdir va m p ps t e h =
    let some_page : (p == 0) ≡ false = ground (arith, h) in rw (walkpgdir, t, e, some_page) refl

pub walkpgdir-IsWalked :
    (pgdir va : ℕ) (m : Memory)
    → IsSpace m pgdir
    → ((walkpgdir pgdir va true m).0 ≡ 0)
      ⊎ IsWalked pgdir va m (walkpgdir pgdir va true m).0 (walkpgdir pgdir va true m).1
unfolding walkpgdir
walkpgdir-IsWalked pgdir va m sp = elim (Bool-cases (is_present (pde_of m pgdir (pdx va)))) [
  | inl t ↦ inr (
      subst (λ (x : ℕ × Memory). IsWalked pgdir va m x.0 x.1) (sym (rw (walkpgdir, t) refl))
        (record { space = sp; there = t; address = refl; same = λ x. refl; taken = omega arith }))
  | inr t ↦ elim (List-cases m.free) [
    | inl e ↦ inl (walkpgdir-empty pgdir va m t e)
    | inr (p, ps, e) ↦
        let pages = subst (λ q. All (IsFreePage m pgdir) q) e sp.free in
        let once = subst Distinct e sp.once in
        let i = pdx va in
        let l : i < 1024 = omega arith in
        inr (
          subst (λ (x : ℕ × Memory). IsWalked pgdir va m x.0 x.1)
            (sym (walkpgdir-new pgdir va m p ps t e pages.0.above))
            (record {
              space = with_table-IsSpace m pgdir sp p ps i l pages once t;
              there = present_self m pgdir sp p ps i l pages once t;
              address =
                  ap (λ x. x + 4 * ptx va) (sym (table_of_self m pgdir sp p ps i l pages once t));
              same = pte_of-with_table m pgdir sp p ps i l pages once t;
              taken = omega (arith, ap length e);
            }))
  ]
]

-- One round: the entry of the page of `a` is written, and the others are as before.
pub record IsMapped (pgdir a w : ℕ) (m m1 : Memory) : Type 0 where
  pub space : IsSpace m1 pgdir
  pub entry :
      (x : ℕ)
      → pte_of m1 pgdir x ≡ (if pdx x == pdx a && ptx x == ptx a then w else pte_of m pgdir x)

pub store-IsMapped :
    (pgdir a w : ℕ) (m : Memory) (pte : ℕ) (m1 : Memory)
    → IsWalked pgdir a m pte m1
    → IsMapped pgdir a w m (store pte w m1)
store-IsMapped pgdir a w m pte m1 wk =
    subst (λ x. IsMapped pgdir a w m (store x w m1)) (sym wk.address)
      (record {
        space =
            store-IsSpace m1 pgdir wk.space (pdx a) (ptx a) w (omega arith) (omega arith) wk.there;
        entry = λ x.
            pte_of-store m1 pgdir wk.space (pdx a) (ptx a) w (omega arith) (omega arith) wk.there x
            ∙ ap (λ v. if pdx x == pdx a && ptx x == ptx a then w else v) (wk.same x);
      })

-- The pages from `a` to `last` have their entries, for consecutive pages from `pa` on.
abbrev pub mapped : ℕ → ℕ → ℕ → ℕ → Memory → ℕ → ℕ → ℕ
mapped a last pa perm m pgdir x =
    if leb a x && ltb x (last + page_bytes)
    then with_p (bit_or (add32 pa (page_round_down (x - a))) perm)
    else pte_of m pgdir x

pub same_page_test :
    (x a : ℕ)
    → x < 2 ^ 32
    → a < 2 ^ 32
    → a % page_bytes ≡ 0
    → (pdx x == pdx a && ptx x == ptx a) ≡ (leb a x && ltb x (a + page_bytes))
same_page_test x a hx ha z = ground arith

-- The first page and the pages behind it.
mapped-step :
    (pgdir a last pa perm : ℕ) (m m2 : Memory) (x : ℕ)
    → a % page_bytes ≡ 0
    → last % page_bytes ≡ 0
    → a < last
    → last < 2 ^ 32
    → pa < 2 ^ 32
    → x < 2 ^ 32
    → IsMapped pgdir a (with_p (bit_or pa perm)) m m2
    → mapped (a + page_bytes) last (add32 pa page_bytes) perm m2 pgdir x
      ≡ mapped a last pa perm m pgdir x
mapped-step pgdir a last pa perm m m2 x za zl lt hl hp hx mp =
    elim (Bool-cases (leb (a + page_bytes) x)) [
      | inl b ↦
          let later : add32 (add32 pa page_bytes) (page_round_down (x - (a + page_bytes)))
              ≡ add32 pa (page_round_down (x - a)) =
            ground (arith, za, b) in
          ground (arith, ap (λ w. with_p (bit_or w perm)) later, read, b)
      | inr b ↦ elim (Bool-cases (leb a x)) [
        | inl c ↦
            let first : add32 pa (page_round_down (x - a)) ≡ pa = ground (arith, za, b, c) in
            ground (arith, ap (λ w. with_p (bit_or w perm)) first, read, b, c)
        | inr c ↦ ground (arith, read, b, c)
      ]
    ]
  where
    read :
        pte_of m2 pgdir x
        ≡ (if leb a x && ltb x (a + page_bytes) then with_p (bit_or pa perm) else pte_of m pgdir x)
    read =
        mp.entry x
        ∙ ap (λ t. if t then with_p (bit_or pa perm) else pte_of m pgdir x)
            (same_page_test x a hx (omega (arith, lt, hl)) za)

mapped-last :
    (pgdir a pa perm : ℕ) (m m2 : Memory) (x : ℕ)
    → a % page_bytes ≡ 0
    → a < 2 ^ 32
    → pa < 2 ^ 32
    → x < 2 ^ 32
    → IsMapped pgdir a (with_p (bit_or pa perm)) m m2
    → pte_of m2 pgdir x ≡ mapped a a pa perm m pgdir x
mapped-last pgdir a pa perm m m2 x za ha hp hx mp =
    mp.entry x
    ∙ (ap (λ t. if t then with_p (bit_or pa perm) else pte_of m pgdir x)
          (same_page_test x a hx ha za)
        ∙ elim (Bool-cases (leb a x && ltb x (a + page_bytes))) [
          | inl b ↦
              let first : add32 pa (page_round_down (x - a)) ≡ pa = ground (arith, za, b) in
              ap
                (λ w.
                  if leb a x && ltb x (a + page_bytes)
                  then with_p (bit_or w perm)
                  else pte_of m pgdir x)
                (sym first)
          | inr b ↦ rw (b) refl
        ])

-- What mappages gives when it returns 0.
pub record AreMapped (pgdir a last pa perm : ℕ) (m m1 : Memory) : Type 0 where
  pub space : IsSpace m1 pgdir
  pub entries : (x : ℕ) → x < 2 ^ 32 → pte_of m1 pgdir x ≡ mapped a last pa perm m pgdir x

map_from-AreMapped :
    (rounds pgdir a last pa perm : ℕ) (m m1 : Memory)
    → IsSpace m pgdir
    → a % page_bytes ≡ 0
    → last % page_bytes ≡ 0
    → a ≤ last
    → last < 2 ^ 32
    → pa < 2 ^ 32
    → last < a + rounds * page_bytes
    → map_from rounds pgdir a last pa perm m ≡ done (0, m1)
    → AreMapped pgdir a last pa perm m m1
unfolding map_from
map_from-AreMapped zero pgdir a last pa perm m m1 sp za zl le hl hp en e =
    absurd (omega (arith, le, en))
map_from-AreMapped (suc rounds) pgdir a last pa perm m m1 sp za zl le hl hp en e =
    elim (Bool-cases ((walkpgdir pgdir a true m).0 == 0)) [
      | inl z ↦ absurd (failed (rw (z) at e))
      | inr z ↦ elim (walkpgdir-IsWalked pgdir a m sp) [
        | inl n ↦ absurd (clash n z)
        | inr wk ↦
            let mp =
              store-IsMapped pgdir a (with_p (bit_or pa perm)) m (walkpgdir pgdir a true m).0
                (walkpgdir pgdir a true m).1 wk in
            elim (Bool-cases
              (is_present ((walkpgdir pgdir a true m).1.word (walkpgdir pgdir a true m).0))) [
                | inl t ↦ absurd (remap (rw (z, t) at e))
                | inr t ↦ elim (Bool-cases (a == last)) [
                  | inl d ↦
                      let one : a ≡ last = ground (arith, d) in
                      let q = ap (λ x. x.1) (inside (rw (z, t, d) at e)) in
                      subst₂ (λ l w. AreMapped pgdir a l pa perm m w) one q
                        (record {
                          space = mp.space;
                          entries = λ x h.
                              mapped-last pgdir a pa perm m _ x za (omega (arith, le, hl)) hp h mp;
                        })
                  | inr d ↦
                      let lt : a < last = ground (arith, le, d) in
                      let next : add32 a page_bytes ≡ a + page_bytes =
                        ground (arith, za, zl, lt, hl) in
                      let m2 =
                        store (walkpgdir pgdir a true m).0 (with_p (bit_or pa perm))
                          (walkpgdir pgdir a true m).1 in
                      let r =
                        map_from-AreMapped rounds pgdir (add32 a page_bytes) last
                          (add32 pa page_bytes) perm _ m1 mp.space (omega (arith, next, za)) zl
                          (omega (arith, next, za, zl, lt)) hl (omega arith)
                          (omega (arith, next, en)) (rw (z, t, d) at e) in
                      record {
                        space = r.space;
                        entries = λ x h.
                            r.entries x h
                            ∙ (ap (λ k. mapped k last (add32 pa page_bytes) perm m2 pgdir x) next
                                ∙ mapped-step pgdir a last pa perm m _ x za zl lt hl hp h mp);
                      }
                ]
              ]
      ]
    ]
  where
    failed : {x : Memory} → ◌≡◌ {A = Outcome (ℕ × Memory)} (done (minus_one, x)) (done (0, m1)) → ⊥
    failed q = let r : minus_one ≡ 0 = ap first q in absurd (omega (arith, r))
      where
        first : Outcome (ℕ × Memory) → ℕ
        first (done x) = x.0
        first (panic s) = 0

    remap : {s : String} → ◌≡◌ {A = Outcome (ℕ × Memory)} (panic s) (done (0, m1)) → ⊥
    remap q = cc

    inside : {x y : ℕ × Memory} → done x ≡ done y → x ≡ y
    inside q = cc

    clash : (walkpgdir pgdir a true m).0 ≡ 0 → ((walkpgdir pgdir a true m).0 == 0) ≡ false → ⊥
    clash n z = ground (arith, n, z)

-- For a range that is not empty and does not wrap around, in an address space whose directory, tables and free pages are different pages:
-- if mappages returns 0, every address of a page from the first to the last has the entry of its own physical page, these being
-- consecutive from `pa` on, with the permissions and the bit PTE_P; every other address has the entry that it had; and the directory, the
-- tables, the new ones included, and the free pages are different again.
pub mappages-AreMapped :
    (pgdir va size pa perm : ℕ) (m m1 : Memory)
    → IsSpace m pgdir
    → 0 < size
    → va + size ≤ 2 ^ 32
    → pa < 2 ^ 32
    → mappages pgdir va size pa perm m ≡ done (0, m1)
    → AreMapped pgdir (page_round_down va) (page_round_down (va + size - 1)) pa perm m m1
unfolding mappages
mappages-AreMapped pgdir va size pa perm m m1 sp pos fits hp e =
    let a = page_round_down va in
    let last = page_round_down (sub32 (add32 va size) 1) in
    let ends : last ≡ page_round_down (va + size - 1) = ground (arith, pos, fits) in
    let le : a ≤ last = ground (arith, pos, fits) in
    let lt : last < 2 ^ 32 = omega arith in
    let rounds : sub32 last a / page_bytes + 1 ≡ (last - a) / page_bytes + 1 =
      ground (arith, le, lt) in
    subst (λ l. AreMapped pgdir a l pa perm m m1) ends
      (map_from-AreMapped (sub32 last a / page_bytes + 1) pgdir a last pa perm m m1 sp (omega arith)
        (omega arith) le lt hp (omega (arith, rounds, le)) e)
