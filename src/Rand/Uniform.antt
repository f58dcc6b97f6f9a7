-- ===== src/Rand/Uniform.antt =====
-- random_at_most: range, and how often each result comes up.
use tp2_so.Prelude.{
  ℕ, zero, suc, ◌+◌, ◌-◌, ◌*◌, ◌/◌, ◌<◌, ◌≤◌, ◌≡◌, ◌↔◌, refl, subst, false, some, arith, Bool-cases,
  inl, inr,
}
use tp2_so.Rand.{num_rand, bin_size, defect, rejects, random_at_most, rand_max}

-- The numbers that are not rejected fill `max + 1` bins of equal size.
bins : (max : ℕ) → max ≤ rand_max → num_rand - defect max ≡ (max + 1) * bin_size max
bins max h = grind arith

bin_size-positive : (max : ℕ) → max ≤ rand_max → 0 < bin_size max
bin_size-positive max h = grind arith

kept-below : (max x : ℕ) → max ≤ rand_max → rejects max x ≡ false → x < (max + 1) * bin_size max
kept-below max x h e = ground (arith, bins max h)

div-at_most : (d n x : ℕ) → 0 < d → x < (n + 1) * d → x / d ≤ n
div-at_most d n x p lt = grind arith

not_rejected : (max x : ℕ) → max ≤ rand_max → x < (max + 1) * bin_size max → rejects max x ≡ false
not_rejected max x h lt = ground (arith, bins max h)

bin-inside : (d max r x : ℕ) → r ≤ max → x < (r + 1) * d → x < (max + 1) * d
bin-inside d max r x le lt = grind arith

div-eq : (d r x : ℕ) → 0 < d → r * d ≤ x → x < (r + 1) * d → x / d ≡ r
div-eq d r x p lo hi = grind arith

div-bounds : (d x : ℕ) → 0 < d → (x / d * d ≤ x) × (x < (x / d + 1) * d)
div-bounds d x p = grind arith

-- For max ≤ RAND_MAX, a number x that is not rejected is divided into a result r exactly if it
-- lies in the r-th bin, the `bin_size max` numbers from r * bin_size on, and r ≤ max.
pub bin_iff :
    (max r x : ℕ)
    → max ≤ rand_max
    → (rejects max x ≡ false × x / bin_size max ≡ r)
      ↔ (r ≤ max × r * bin_size max ≤ x × x < (r + 1) * bin_size max)
bin_iff max r x h = (there, back)
  where
    pos : 0 < bin_size max
    pos = bin_size-positive max h

    there :
        rejects max x ≡ false × x / bin_size max ≡ r
        → r ≤ max × r * bin_size max ≤ x × x < (r + 1) * bin_size max
    there (kept, e) =
        let (lo, hi) = div-bounds (bin_size max) x pos in
        (
          subst (λ q. q ≤ max) e (div-at_most (bin_size max) max x pos (kept-below max x h kept)),
          subst (λ q. q * bin_size max ≤ x) e lo,
          subst (λ q. x < (q + 1) * bin_size max) e hi,
        )

    back :
        r ≤ max × r * bin_size max ≤ x × x < (r + 1) * bin_size max
        → rejects max x ≡ false × x / bin_size max ≡ r
    back (le, lo, hi) = (
      not_rejected max x h (bin-inside (bin_size max) max r x le hi),
      div-eq (bin_size max) r x pos lo hi,
    )

module _ {S : Type 0} (next : S → ℕ × S) where
  -- Whatever the source of numbers, a result of random_at_most is at most `max` ≤ RAND_MAX.
  pub random_at_most-bounded :
      (fuel max : ℕ) (s : S) (r : ℕ) (s1 : S)
      → max ≤ rand_max
      → random_at_most next fuel max s ≡ some (r, s1)
      → r ≤ max
  unfolding random_at_most
  random_at_most-bounded zero max s r s1 h e = ground arith
  random_at_most-bounded (suc fuel) max s r s1 h e = elim (Bool-cases (rejects max (next s).0)) [
    | inl c ↦ random_at_most-bounded fuel max (next s).1 r s1 h (rw (c) at e)
    | inr c ↦
        let got = rw (c) at e in
        let (lo, hi) = div-bounds (bin_size max) (next s).0 (bin_size-positive max h) in
        let le =
          div-at_most (bin_size max) max (next s).0 (bin_size-positive max h)
            (kept-below max (next s).0 h c) in
        ground (arith, got, le)
  ]

  -- The source after `n` draws.
  unfoldable pub after : ℕ → S → S
  after zero s = s
  after (suc n) s = after n (next s).1

  -- If one of the first `fuel` numbers drawn is not rejected, random_at_most returns.
  pub random_at_most-returns :
      (fuel max : ℕ) (s : S) (n : ℕ)
      → n < fuel
      → rejects max (next (after n s)).0 ≡ false
      → (got : ℕ × S) × random_at_most next fuel max s ≡ some got
  unfolding random_at_most after
  random_at_most-returns zero max s n lt kept = absurd (no_draw lt)
    where
      no_draw : n < 0 → ⊥
      no_draw l = omega arith
  random_at_most-returns (suc fuel) max s zero lt kept = rw (kept) (_, refl)
  random_at_most-returns (suc fuel) max s (suc n) lt kept =
      elim (Bool-cases (rejects max (next s).0)) [
        | inl c ↦ rw (c) (random_at_most-returns fuel max (next s).1 n (omega arith) kept)
        | inr c ↦ rw (c) (_, refl)
      ]
