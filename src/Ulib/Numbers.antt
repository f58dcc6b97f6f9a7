-- ===== src/Ulib/Numbers.antt =====
-- Numbers as text: atoi reads back what printint prints.
use tp2_so.Prelude.{
  ℕ, Bool, zero, suc, ◌+◌, ◌*◌, ◌/◌, ◌%◌, ◌<◌, ◌≡◌, ◌^◌, ◌∙◌, refl, ap, true, false, ◌&&◌,
  Bool-cases, inl, inr, List, [], ◌∷◌, arith, ◌==◌, get_or, add32, sub32, mul32, slt32, leb,
}
use tp2_so.Ulib.{atoi, atoi_from, digit_codes, print_digits, printint}

digit_code : (d : ℕ) → d < 10 → get_or digit_codes d 0 ≡ b'0' + d
digit_code zero h = refl
digit_code (suc zero) h = refl
digit_code (suc (suc zero)) h = refl
digit_code (suc (suc (suc zero))) h = refl
digit_code (suc (suc (suc (suc zero)))) h = refl
digit_code (suc (suc (suc (suc (suc zero))))) h = refl
digit_code (suc (suc (suc (suc (suc (suc zero)))))) h = refl
digit_code (suc (suc (suc (suc (suc (suc (suc zero))))))) h = refl
digit_code (suc (suc (suc (suc (suc (suc (suc (suc zero)))))))) h = refl
digit_code (suc (suc (suc (suc (suc (suc (suc (suc (suc zero))))))))) h = refl
digit_code (suc (suc (suc (suc (suc (suc (suc (suc (suc (suc d)))))))))) h = absurd (omega arith)

-- One more digit for atoi.
atoi_from-digit :
    (n d : ℕ) (s : List ℕ)
    → d < 10
    → n * 10 + d < 2 ^ 32
    → atoi_from n ((b'0' + d) ∷ s) ≡ atoi_from (n * 10 + d) s
unfolding atoi_from
atoi_from-digit n d s lt small = rw (is_digit, value) refl
  where
    is_digit : (leb b'0' (b'0' + d) && leb (b'0' + d) b'9') ≡ true
    is_digit = ground arith

    value : sub32 (add32 (mul32 n 10) (b'0' + d)) b'0' ≡ n * 10 + d
    value = omega arith

-- Rounds of the loop that are enough for the numbers below this.
abbrev reach : ℕ → ℕ
reach zero = 1
reach (suc n) = 2 * reach n

atoi-print_digits :
    (fuel x : ℕ) (buf : List ℕ)
    → x < reach (suc fuel)
    → x < 2 ^ 32
    → atoi_from 0 (print_digits digit_codes (suc fuel) x 10 buf) ≡ atoi_from x buf
unfolding print_digits
atoi-print_digits zero x buf lt small =
    rw (last, digit_code (x % 10) (omega arith))
      (atoi_from-digit 0 (x % 10) buf (omega arith) (omega arith) ∙ ap (λ n. atoi_from n buf) whole)
  where
    last : (x / 10 == 0) ≡ true
    last = ground arith

    whole : 0 * 10 + x % 10 ≡ x
    whole = omega arith
atoi-print_digits (suc fuel) x buf lt small = elim (Bool-cases (x / 10 == 0)) [
  | inl e ↦
      rw (e, digit_code (x % 10) (omega arith))
        (atoi_from-digit 0 (x % 10) buf (omega arith) (omega arith)
          ∙ ap (λ n. atoi_from n buf) (whole e))
  | inr e ↦ rw (e) (
      atoi-print_digits fuel (x / 10) (get_or digit_codes (x % 10) 0 ∷ buf) (omega arith)
        (omega arith)
      ∙ (ap (λ d. atoi_from (x / 10) (d ∷ buf)) (digit_code (x % 10) (omega arith))
          ∙ (atoi_from-digit (x / 10) (x % 10) buf (omega arith) (omega arith)
              ∙ ap (λ n. atoi_from n buf) (joined x))))
]
  where
    whole : (x / 10 == 0) ≡ true → 0 * 10 + x % 10 ≡ x
    whole e = ground arith

    joined : (x : ℕ) → x / 10 * 10 + x % 10 ≡ x
    joined x = omega arith

-- atoi reads back a number below 2 ^ 31 that printint prints in base 10, as a signed or as an
-- unsigned number.
pub atoi-printint : (x : ℕ) (sgn : Bool) → x < 2 ^ 31 → atoi (printint digit_codes x 10 sgn) ≡ x
unfolding atoi printint
atoi-printint x sgn small = rw (positive) (atoi-print_digits 31 x [] (omega arith) (omega arith))
  where
    positive : (sgn && slt32 x 0) ≡ false
    positive = ground arith
