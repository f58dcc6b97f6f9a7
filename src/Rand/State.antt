-- ===== src/Rand/State.antt =====
-- The twister never reads outside its array, and what it returns is in range.
use tp2_so.Prelude.{
  ℕ, zero, suc, ◌+◌, ◌-◌, ◌%◌, ◌^◌, ◌<◌, ◌≤◌, ◌≡◌, ◌∙◌, refl, List, length, length-set, arith,
  Bool-cases, ◌==◌, leb, get_or, inl, inr, set, ◌*◌, subst, sym,
}
use tp2_so.Rand.{
  Twister, size, rand_max, seed_loop, sgenrand, twist, twist_loop, generate, seeded, renewed,
  refill, genrand, middle,
}

pub record IsTwister (t : Twister) : Type 0 where
  pub words : length t.mt ≡ size
  pub index : t.mti ≤ size + 1

length-seed_loop : (n i : ℕ) (mt : List ℕ) → length (seed_loop n i mt) ≡ length mt
unfolding seed_loop
length-seed_loop zero i mt = refl
length-seed_loop (suc n) i mt =
    length-seed_loop n (i + 1) (set mt i (69069 * get_or mt (i - 1) 0 % 2 ^ 32)) ∙ length-set mt i _

length-twist : (i j k : ℕ) (mt : List ℕ) → length (twist i j k mt) ≡ length mt
unfolding twist
length-twist i j k mt = length-set mt i _

length-twist_loop :
    (n kk ahead behind : ℕ) (mt : List ℕ) → length (twist_loop n kk ahead behind mt) ≡ length mt
unfolding twist_loop
length-twist_loop zero kk ahead behind mt = refl
length-twist_loop (suc n) kk ahead behind mt =
    length-twist_loop n (kk + 1) ahead behind (twist kk (kk + 1) (kk + ahead - behind) mt)
    ∙ length-twist kk (kk + 1) (kk + ahead - behind) mt

length-generate : (mt : List ℕ) → length (generate mt) ≡ length mt
unfolding generate
length-generate mt =
    length-twist (size - 1) 0 (middle - 1) _
    ∙ (length-twist_loop (middle - 1) (size - middle) middle size _
        ∙ length-twist_loop (size - middle) 0 middle 0 mt)

sgenrand-IsTwister : (seed : ℕ) (t : Twister) → IsTwister t → IsTwister (sgenrand seed t)
unfolding sgenrand
sgenrand-IsTwister seed t wf = record {
  words =
      length-seed_loop (size - 1) 1 (set t.mt 0 (seed % 2 ^ 32)) ∙ (length-set t.mt 0 _ ∙ wf.words);
  index = omega arith;
}

seeded-IsTwister : (t : Twister) → IsTwister t → IsTwister (seeded t)
unfolding seeded
seeded-IsTwister t wf = elim (Bool-cases (t.mti == size + 1)) [
  | inl c ↦ rw (c) (sgenrand-IsTwister 4357 t wf)
  | inr c ↦ rw (c) wf
]

renewed-IsTwister : (t : Twister) → IsTwister t → IsTwister (renewed t)
unfolding renewed
renewed-IsTwister t wf = record {
  words = length-generate _ ∙ (seeded-IsTwister t wf).words;
  index = omega arith;
}

-- After `refill`, the index at which genrand reads is inside the array.
refill-IsTwister : (t : Twister) → IsTwister t → IsTwister (refill t) × (refill t).mti < size
unfolding refill renewed
refill-IsTwister t wf = elim (Bool-cases (leb size t.mti)) [
  | inl c ↦ rw (c) (renewed-IsTwister t wf, omega arith)
  | inr c ↦ rw (c) (wf, ground arith)
]

-- On a twister of N words with an index of at most N + 1, genrand reads inside the array, returns
-- at most RAND_MAX, and leaves a twister of N words whose index is the one it read plus one.
pub genrand-IsTwister :
    (t : Twister)
    → IsTwister t
    → (refill t).mti < length (refill t).mt
      × (genrand t).0 ≤ rand_max
      × IsTwister (genrand t).1
      × (genrand t).1.mti ≡ (refill t).mti + 1
unfolding genrand
genrand-IsTwister t wf =
    let (wf1, lt) = refill-IsTwister t wf in
    (
      subst (λ n. (refill t).mti < n) (sym wf1.words) lt,
      omega arith,
      record { words = wf1.words; index = omega arith },
      refl,
    )
