-- ===== src/Ulib.antt =====
-- ulib.c and printf.c: the library of the user programs. A string is the list of its bytes; it ends
-- at its first 0, or with the list.
pub mod Numbers
pub mod Tests
use tp2_so.Prelude.{
  ℕ, zero, suc, ◌+◌, ◌-◌, ◌*◌, ◌/◌, ◌%◌, Bool, true, false, not, ◌&&◌, ◌||◌, Option, none, some,
  List, [], ◌∷◌, ◌++◌, if◌then◌else◌, ◌==◌, ltb, leb, add32, sub32, mul32, slt32, get_or,
}

-- strcpy(s, t): the bytes written, the final 0 included.
pub strcpy : List ℕ → List ℕ
strcpy [] = 0 ∷ []
strcpy (c ∷ t) = if c == 0 then 0 ∷ [] else c ∷ strcpy t

pub strcmp : List ℕ → List ℕ → ℕ
strcmp [] [] = 0
strcmp [] (d ∷ q) = sub32 0 d
strcmp (c ∷ p) [] = c
strcmp (c ∷ p) (d ∷ q) = if not (c == 0) && (c == d) then strcmp p q else sub32 c d

-- strchr(s, c): the string from the first `c` on, or `none` for null.
pub strchr : List ℕ → ℕ → Option (List ℕ)
strchr [] c = none
strchr (d ∷ s) c =
    let rest = strchr s c in if d == 0 then none else if d == c then some (d ∷ s) else rest

-- gets(buf, max) on the bytes that read will return: what is stored, without the final 0, and what
-- is left to read. `room` is `max - 1 - i`.
pub gets_from : ℕ → List ℕ → List ℕ × List ℕ
gets_from zero input = ([], input)
gets_from (suc room) [] = ([], [])
gets_from (suc room) (c ∷ input) =
    let rest = gets_from room input in
    if c == b'\n' || c == b'\r' then (c ∷ [], input) else (c ∷ rest.0, rest.1)

pub gets : ℕ → List ℕ → List ℕ × List ℕ
unfolding gets_from
gets max input = gets_from (max - 1) input

-- The loop of atoi.
pub atoi_from : ℕ → List ℕ → ℕ
atoi_from n [] = n
atoi_from n (c ∷ s) =
    let rest = atoi_from (sub32 (add32 (mul32 n 10) c) b'0') s in
    if leb b'0' c && leb c b'9' then rest else n

pub atoi : List ℕ → ℕ
unfolding atoi_from
atoi s = atoi_from 0 s

-- `static char digits[]`
abbrev pub digit_codes : List ℕ
digit_codes =
    b'0' ∷ b'1' ∷ b'2' ∷ b'3' ∷ b'4' ∷ b'5' ∷ b'6' ∷ b'7' ∷ b'8' ∷ b'9' ∷ b'A' ∷ b'B' ∷ b'C' ∷ b'D'
    ∷ b'E' ∷ b'F' ∷ []

-- The `do` loop of printint, which fills `buf` from the last digit on; `buf` is kept in the order in
-- which it is printed, from its end.
unfoldable pub print_digits : List ℕ → ℕ → ℕ → ℕ → List ℕ → List ℕ
print_digits digits zero x radix buf = buf
print_digits digits (suc fuel) x radix buf =
    let rest = print_digits digits fuel (x / radix) radix (get_or digits (x % radix) 0 ∷ buf) in
    if x / radix == 0 then get_or digits (x % radix) 0 ∷ buf else rest

-- printint(fd, xx, base, sgn), as the bytes that it puts out.
unfoldable pub printint : List ℕ → ℕ → ℕ → Bool → List ℕ
unfolding print_digits
printint digits xx radix sgn =
    let neg = sgn && slt32 xx 0 in
    let x = if neg then sub32 0 xx else xx in
    let printed = print_digits digits 32 x radix [] in if neg then b'-' ∷ printed else printed

-- A string up to its end.
unfoldable pub c_string : List ℕ → List ℕ
c_string [] = []
c_string (c ∷ s) = if c == 0 then [] else c ∷ c_string s

abbrev pub null_text : List ℕ
null_text = b'(' ∷ b'n' ∷ b'u' ∷ b'l' ∷ b'l' ∷ b')' ∷ []

-- printf(fd, fmt, ...): what it writes. `stack i` is the i-th word above `fmt`, `memory` has the
-- strings, `digits` is printint's table; `escaped` is `state == '%'`.
module _ (digits : List ℕ) (stack : ℕ → ℕ) (memory : ℕ → List ℕ) where
  abbrev pub text_at : ℕ → List ℕ
  text_at s = if s == 0 then null_text else c_string (memory s)

  unfoldable pub printf_from : ℕ → Bool → List ℕ → List ℕ
  unfolding printint c_string
  printf_from ap escaped [] = []
  printf_from ap false (c ∷ fmt) =
      let plain = c ∷ printf_from ap false fmt in
      let escape = printf_from ap true fmt in
      if c == 0 then [] else if c == b'%' then escape else plain
  printf_from ap true (c ∷ fmt) =
      let same = printf_from ap false fmt in
      let next = printf_from (ap + 1) false fmt in
      if c == 0
      then []
      else if c == b'd'
      then printint digits (stack ap) 10 true ++ next
      else if c == b'x' || c == b'p'
      then printint digits (stack ap) 16 false ++ next
      else if c == b's'
      then text_at (stack ap) ++ next
      else if c == b'c'
      then (stack ap % 256) ∷ next
      else if c == b'%'
      then c ∷ same
      else b'%' ∷ (c ∷ same)

  unfoldable pub printf : List ℕ → List ℕ
  unfolding printf_from
  printf fmt = printf_from 0 false fmt
