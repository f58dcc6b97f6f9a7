-- ===== src/Console/Tests.antt =====
-- A line typed and read, a character on the screen, and a format printed.
use tp2_so.Prelude.{ℕ, ◌≡◌, refl, List, [], ◌∷◌, false, arith, replicate}
use tp2_so.Console.{Input, Cga, consoleintr, consoleread}
use tp2_so.Console.Ring.{IsInput, chars_from, line}
use tp2_so.Console.Editing.{view, keys, consoleintr-view}
use tp2_so.Console.Reading.{IsRead, consoleread-IsRead}
use tp2_so.Console.Print.{cprintf, IsCommon, cprintf-eq-printf}
use tp2_so.Ulib.{digit_codes, printf}

abbrev no_input : Input
no_input = record {
  buf = replicate 128 0;
  r = 0;
  w = 0;
  e = 0;
  echoed = [];
  woken = false;
  doprocdump = false;
}

no_input-IsInput : IsInput no_input
unfolding line chars_from
no_input-IsInput = record {
  size = refl;
  read_word = omega arith;
  write_word = omega arith;
  edit_word = omega arith;
  order = refl;
  room = omega arith;
  plain = tt;
}

abbrev ls_line : List ℕ
ls_line = b'l' ∷ b's' ∷ b'\r' ∷ []

consoleintr-view_example :
    IsInput (consoleintr ls_line no_input)
    × (view (consoleintr ls_line no_input) ≡ keys ls_line (view no_input))
consoleintr-view_example = consoleintr-view ls_line no_input no_input-IsInput

typed-IsInput : IsInput (consoleintr ls_line no_input)
typed-IsInput = (consoleintr-view ls_line no_input no_input-IsInput).0

consoleread-IsRead_example :
    IsRead false 4 4
      (consoleintr ls_line no_input)
      (consoleread false 4 4 (consoleintr ls_line no_input))
consoleread-IsRead_example =
    consoleread-IsRead false 4 4 (consoleintr ls_line no_input) (omega arith) typed-IsInput

abbrev last_cell : Cga
last_cell = record { pos = 1919; crt = λ i. 0 }

abbrev one_number : List ℕ
one_number = b'%' ∷ b'd' ∷ b'\n' ∷ []

one_number-IsCommon : IsCommon (λ i. 42) (λ a. []) one_number
one_number-IsCommon = (
  λ _. ((λ e. omega arith), (λ e. omega arith), (λ e. omega arith)),
  (λ e. omega arith, tt, tt),
  tt,
)

cprintf-eq-printf_example :
    cprintf (λ i. 42) (λ a. []) one_number ≡ printf digit_codes (λ i. 42) (λ a. []) one_number
cprintf-eq-printf_example = cprintf-eq-printf (λ i. 42) (λ a. []) one_number one_number-IsCommon
