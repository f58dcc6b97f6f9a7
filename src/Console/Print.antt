-- ===== src/Console/Print.antt =====
-- cprintf with its printint, and what it has in common with the printf of the user programs.
use tp2_so.Prelude.{
  ℕ, zero, suc, ◌+◌, ◌/◌, ◌%◌, ◌<◌, ◌≡◌, ◌≢◌, refl, Bool, true, false, ◌&&◌, ◌||◌, get_or, slt32,
  sub32, List, [], ◌∷◌, ◌++◌, arith, if◌then◌else◌, ◌==◌,
}
use tp2_so.Ulib.{digit_codes, print_digits, printint, c_string, null_text, printf, printf_from}

-- `static char digits[]`
abbrev pub console_digits : List ℕ
console_digits =
    b'0' ∷ b'1' ∷ b'2' ∷ b'3' ∷ b'4' ∷ b'5' ∷ b'6' ∷ b'7' ∷ b'8' ∷ b'9' ∷ b'a' ∷ b'b' ∷ b'c' ∷ b'd'
    ∷ b'e' ∷ b'f' ∷ []

-- The `do` loop of printint: `buf` with the character written last in front, as it is printed.
put_digits : ℕ → ℕ → ℕ → List ℕ → List ℕ
put_digits zero x base buf = buf
put_digits (suc fuel) x base buf =
    let buf1 = get_or console_digits (x % base) 0 ∷ buf in
    let rest = put_digits fuel (x / base) base buf1 in if x / base == 0 then buf1 else rest

-- console.c's printint.
print_int : ℕ → ℕ → Bool → List ℕ
unfolding put_digits
print_int xx base sign =
    let negative = sign && slt32 xx 0 in
    let buf = put_digits 32 (if negative then sub32 0 xx else xx) base [] in
    if negative then b'-' ∷ buf else buf

-- The tables of console.c and printf.c have the same decimal digits.
same_digit : (n : ℕ) → n < 10 → get_or console_digits n 0 ≡ get_or digit_codes n 0
same_digit n h = ground arith

same_digits :
    (fuel x : ℕ) (buf : List ℕ) → put_digits fuel x 10 buf ≡ print_digits digit_codes fuel x 10 buf
unfolding put_digits print_digits
same_digits zero x buf = refl
same_digits (suc fuel) x buf =
    let e : get_or console_digits (x % 10) 0 ≡ get_or digit_codes (x % 10) 0 =
      same_digit (x % 10) (omega arith) in
    rw (e, same_digits fuel (x / 10) (get_or digit_codes (x % 10) 0 ∷ buf)) refl

same_int : (xx : ℕ) → print_int xx 10 true ≡ printint digit_codes xx 10 true
unfolding print_int printint
same_int xx = rw (same_digits 32 (if true && slt32 xx 0 then sub32 0 xx else xx) []) refl

-- What cprintf gives to consputc, for `argp` at the `ap`-th word above `fmt`.
module _ (stack : ℕ → ℕ) (memory : ℕ → List ℕ) where
  pub cprintf_from : ℕ → List ℕ → List ℕ
  cprintf_from ap [] = []
  cprintf_from ap (c ∷ []) = if c == 0 || c == b'%' then [] else c ∷ []
  cprintf_from ap (c ∷ (d ∷ fmt)) =
      let plain = c ∷ cprintf_from ap (d ∷ fmt) in
      let same = cprintf_from ap fmt in
      let next = cprintf_from (ap + 1) fmt in
      if c == 0
      then []
      else if c == b'%'
      then (if d == 0
          then []
          else if d == b'd'
          then print_int (stack ap) 10 true ++ next
          else if d == b'x' || d == b'p'
          then print_int (stack ap) 16 false ++ next
          else if d == b's'
          then (if stack ap == 0 then null_text else c_string (memory (stack ap))) ++ next
          else if d == b'%'
          then b'%' ∷ same
          else b'%' ∷ (d ∷ same))
      else plain

  pub cprintf : List ℕ → List ℕ
  unfolding cprintf_from
  cprintf fmt = cprintf_from 0 fmt

  -- No `%c`, `%x` or `%p` in the format.
  abbrev pub IsCommon : List ℕ → Type 0
  IsCommon [] = Unit
  IsCommon (c ∷ []) = Unit
  IsCommon (c ∷ (d ∷ fmt)) =
      ((c ≡ b'%') → (d ≢ b'c') × (d ≢ b'x') × (d ≢ b'p')) × IsCommon (d ∷ fmt) × IsCommon fmt

  same_step :
      (at : ℕ) (c d : ℕ) (fmt : List ℕ)
      → ((c ≡ b'%') → (d ≢ b'c') × (d ≢ b'x') × (d ≢ b'p'))
      → cprintf_from at (d ∷ fmt) ≡ printf_from digit_codes stack memory at false (d ∷ fmt)
      → cprintf_from at fmt ≡ printf_from digit_codes stack memory at false fmt
      → cprintf_from (at + 1) fmt ≡ printf_from digit_codes stack memory (at + 1) false fmt
      → cprintf_from at (c ∷ (d ∷ fmt))
        ≡ printf_from digit_codes stack memory at false (c ∷ (d ∷ fmt))
  unfolding cprintf_from printf_from
  same_step at c d fmt h e1 e2 e3 = rw (e1, e2, e3, same_int (stack at)) (ground arith)

  same_from :
      (at : ℕ) (fmt : List ℕ)
      → IsCommon fmt
      → cprintf_from at fmt ≡ printf_from digit_codes stack memory at false fmt
  unfolding cprintf_from printf_from
  same_from at [] h = refl
  same_from at (c ∷ []) h = ground arith
  same_from at (c ∷ (d ∷ fmt)) (h, h1, h2) =
      same_step at c d fmt h (same_from at (d ∷ fmt) h1) (same_from at fmt h2)
        (same_from (at + 1) fmt h2)

  -- On a format without `%c`, which only printf reads, and without `%x` and `%p`, whose digits are small letters in the kernel and
  -- capitals in printf, the kernel's cprintf and the user's printf put out the same bytes, for the same arguments.
  pub cprintf-eq-printf :
      (fmt : List ℕ) → IsCommon fmt → cprintf fmt ≡ printf digit_codes stack memory fmt
  unfolding cprintf printf
  cprintf-eq-printf fmt h = same_from 0 fmt h
