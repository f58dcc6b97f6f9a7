-- ===== src/Syscall/Arguments.antt =====
-- The addresses that the calls accept.
use tp2_so.Prelude.{
  ℕ, zero, suc, ◌+◌, ◌-◌, ◌^◌, ◌<◌, ◌≤◌, ◌≡◌, ◌≢◌, ◌↔◌, ◌⊎◌, refl, ap, sym, subst, Bool, true,
  false, ◌||◌, Bool-cases, inl, inr, Option, none, some, arith, if◌then◌else◌, ◌==◌, ltb, leb,
  add32, slt32,
}
use tp2_so.Kalloc.{kernbase}
use tp2_so.Proc.{Proc}
use tp2_so.Syscall.{one_more, str_from, fetchstr, argint, argptr}

-- The address arithmetic of argptr.
inside :
    (sz i size : ℕ)
    → sz ≤ kernbase
    → size < 2 ^ 32
    → ((slt32 size 0 || (leb sz i || ltb sz (add32 i size))) ≡ false)
      ↔ ((size < 2 ^ 31) × (i < sz) × (i + size ≤ sz))
inside sz i size h w = (λ e. (ground arith, ground arith, ground arith), λ (a, b, c). ground arith)

-- For a process below KERNBASE, argptr accepts exactly the argument of which every byte of the block, and the start itself, is in the
-- memory of the process. The size is any int, and a negative one is refused.
pub argptr_iff :
    (mem : ℕ → ℕ) (p : Proc) (n size a : ℕ)
    → p.sz ≤ kernbase
    → size < 2 ^ 32
    → (argptr mem p n size ≡ some a)
      ↔ ((argint mem p n ≡ some a) × (size < 2 ^ 31) × (a < p.sz) × (a + size ≤ p.sz))
unfolding argptr
argptr_iff mem p n size a h w = by_cases (argint mem p n)
  where
    checked : (i : ℕ) → Bool
    checked i = slt32 size 0 || (leb p.sz i || ltb p.sz (add32 i size))

    by_cases :
        (o : Option ℕ)
        → (elim o as (λ _. Option ℕ) [ none ↦ none | some i ↦ if checked i then none else some i ]
            ≡ some a)
          ↔ ((o ≡ some a) × (size < 2 ^ 31) × (a < p.sz) × (a + size ≤ p.sz))
    by_cases none = (λ e. absurd (none_some e), λ (e, r1, r2, r3). absurd (none_some e))
      where
        none_some : none ≡ some a → ⊥
        none_some e = cc
    by_cases (some i) = elim (Bool-cases (checked i)) [
      | inl c ↦ (
        λ e. absurd (none_some (rw (c) at e)),
        λ (e, b1, b2, b3). absurd (
            bad c (
              (inside p.sz i size h w).1 (
                subst (λ x. (size < 2 ^ 31) × (x < p.sz) × (x + size ≤ p.sz)) (sym (some_eq e))
                  (b1, b2, b3)))),
      )
      | inr c ↦ (
        λ e.
            let q : some i ≡ some a = rw (c) at e in
            let (b1, b2, b3) =
              subst (λ x. (size < 2 ^ 31) × (x < p.sz) × (x + size ≤ p.sz)) (some_eq q)
                ((inside p.sz i size h w).0 c) in
            (q, b1, b2, b3),
        λ (e, b1, b2, b3). rw (c) e,
      )
    ]
      where
        none_some : none ≡ some a → ⊥
        none_some e = cc

        some_eq : some i ≡ some a → i ≡ a
        some_eq e = cc

        bad : checked i ≡ true → checked i ≡ false → ⊥
        bad c d = cc

ℕ-cases : (n : ℕ) → (n ≡ 0) ⊎ ((m : ℕ) × (n ≡ m + 1))
ℕ-cases zero = inl refl
ℕ-cases (suc m) = inr (m, omega arith)

-- A string of `n` characters, and a 0 behind it.
abbrev pub IsString : (ℕ → ℕ) → ℕ → ℕ → Type 0
IsString mem s n = (mem (s + n) ≡ 0) × ((i : ℕ) → i < n → mem (s + i) ≢ 0)

-- The string behind a character.
IsString-tail_iff :
    (mem : ℕ → ℕ) (s n : ℕ) → (mem s == 0) ≡ false → IsString mem (s + 1) n ↔ IsString mem s (n + 1)
IsString-tail_iff mem s n z = (
  λ (e, ne). (
    move (omega arith) e,
    λ i h. elim (ℕ-cases i) [
      | inl q ↦ λ e0. ground (arith, at_start i q e0)
      | inr (j, q) ↦ λ e0. ne j (omega (arith, q, h)) (move (omega (arith, q)) e0)
    ],
  ),
  λ (e, ne).
      (move (omega arith) e, λ i h e0. ne (i + 1) (omega (arith, h)) (move (omega arith) e0)),
)
  where
    move : {a b : ℕ} → a ≡ b → mem a ≡ 0 → mem b ≡ 0
    move q e = subst (λ x. mem x ≡ 0) q e

    at_start : (i : ℕ) → i ≡ 0 → mem (s + i) ≡ 0 → mem s ≡ 0
    at_start i q e = move (omega (arith, q)) e

str_from_iff :
    (mem : ℕ → ℕ) (left s n : ℕ) → (str_from mem left s ≡ some n) ↔ ((n < left) × IsString mem s n)
unfolding str_from
str_from_iff mem zero s n = (λ e. absurd (none_some e), λ (h, r). absurd (omega (arith, h)))
  where
    none_some : none ≡ some n → ⊥
    none_some q = cc
str_from_iff mem (suc left) s n = elim (Bool-cases (mem s == 0)) [
  | inl z ↦ (λ e. at_end z (rw (z) at e), λ (h, w). rw (z) (ap some (sym (ended z w))))
  | inr z ↦ (
    λ e.
        longer z (str_from mem left (s + 1)) (λ m q. (str_from_iff mem left (s + 1) m).0 q)
          (rw (z) at e),
    λ (h, w). rw (z) (more z h w (λ m lt w1. (str_from_iff mem left (s + 1) m).1 (lt, w1))),
  )
]
  where
    same : {a b : ℕ} → some a ≡ some b → a ≡ b
    same q = cc

    at_end : (mem s == 0) ≡ true → some 0 ≡ some n → (n < suc left) × IsString mem s n
    at_end z q = (
      omega (arith, same q),
      (
        subst (λ x. mem x ≡ 0) (omega (arith, same q)) (zeroed z),
        λ i h. absurd (omega (arith, same q, h)),
      ),
    )
      where
        zeroed : (mem s == 0) ≡ true → mem s ≡ 0
        zeroed z = ground arith

    ended : (mem s == 0) ≡ true → IsString mem s n → n ≡ 0
    ended z (e, ne) = elim (ℕ-cases n) [
      | inl q ↦ q
      | inr (m, q) ↦
          absurd (ne 0 (omega (arith, q)) (subst (λ x. mem x ≡ 0) (omega arith) (zeroed z)))
    ]
      where
        zeroed : (mem s == 0) ≡ true → mem s ≡ 0
        zeroed z = ground arith

    longer :
        (mem s == 0) ≡ false
        → (o : Option ℕ) → ((m : ℕ) → o ≡ some m → (m < left) × IsString mem (s + 1) m)
        → one_more o ≡ some n
        → (n < suc left) × IsString mem s n
    longer z none found e = absurd (none_some e)
      where
        none_some : none ≡ some n → ⊥
        none_some q = cc
    longer z (some m) found e =
        let (lt, w) = found m refl in
        subst (λ x. (x < suc left) × IsString mem s x) (same e)
          (omega (arith, lt), (IsString-tail_iff mem s m z).0 w)

    more :
        (mem s == 0) ≡ false
        → n < suc left
        → IsString mem s n
        → ((m : ℕ) → m < left → IsString mem (s + 1) m → str_from mem left (s + 1) ≡ some m)
        → one_more (str_from mem left (s + 1)) ≡ some n
    more z h (e, ne) back = elim (ℕ-cases n) [
      | inl q ↦ absurd (nonzero (subst (λ x. mem x ≡ 0) (omega (arith, q)) e))
      | inr (m, q) ↦
          let w = (IsString-tail_iff mem s m z).1 (subst (λ x. IsString mem s x) q (e, ne)) in
          rw (back m (omega (arith, h, q)) w) (ap some (sym q))
    ]
      where
        nonzero : mem s ≡ 0 → ⊥
        nonzero e0 = ground (arith, z)

-- fetchstr returns a length exactly when a string of this length, with its 0, is in the memory of the process from the address on: the
-- loop does not leave that memory, and returns the length to the first 0.
pub fetchstr_iff :
    (mem : ℕ → ℕ) (p : Proc) (addr n : ℕ)
    → (fetchstr mem p addr ≡ some n) ↔ ((addr + n < p.sz) × IsString mem addr n)
unfolding fetchstr
fetchstr_iff mem p addr n = elim (Bool-cases (leb p.sz addr)) [
  | inl b ↦ (λ e. absurd (none_some (rw (b) at e)), λ (h, w). absurd (beyond b h))
  | inr b ↦ (
    λ e.
        let (lt, w) = (str_from_iff mem (p.sz - addr) addr n).0 (rw (b) at e) in
        (omega (arith, lt), w),
    λ (h, w). rw (b) ((str_from_iff mem (p.sz - addr) addr n).1 (omega (arith, h), w)),
  )
]
  where
    none_some : none ≡ some n → ⊥
    none_some q = cc

    beyond : leb p.sz addr ≡ true → addr + n < p.sz → ⊥
    beyond b h = ground (arith, b, h)
