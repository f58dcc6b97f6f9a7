-- ===== src/Sh/Tests.antt =====
-- The parser on a line.
use tp2_so.Prelude.{ℕ, ◌≡◌, ◌≢◌, refl, List, [], ◌∷◌, arith}
use tp2_so.Sh.{Cmd, parsed, out_of_fuel, parse_cmd}
use tp2_so.Sh.Fuel.{parse_cmd-ne-out_of_fuel}
use tp2_so.Sh.Lines.{parse_cmd-show_line}
use tp2_so.Sh.Grammar.{
  Line, last, before, only, piped, simple, block, input, append, line_cmd, show_line, IsWord,
}

abbrev cat : List ℕ
cat = b'c' ∷ (b'a' ∷ (b't' ∷ []))

-- ` ( cat < a & ; cat ) | cat cat >> a`
abbrev sample : Line
sample =
    last
      (piped
        (block
          (before (only (simple [] (record { word = cat; redirs = input (b'a' ∷ []) ∷ [] } ∷ []))) 1
            (last (only (simple [] (record { word = cat; redirs = [] } ∷ []))) 0))
          [])
        (only (
          simple [] (
            record { word = cat; redirs = [] }
            ∷ (record { word = cat; redirs = append (b'a' ∷ []) ∷ [] } ∷ [])))))
      0

cat-IsWord : IsWord cat
unfolding tp2_so.Sh.is_white tp2_so.Sh.is_symbol
cat-IsWord = (omega arith, refl)

a-IsWord : IsWord (b'a' ∷ [])
unfolding tp2_so.Sh.is_white tp2_so.Sh.is_symbol
a-IsWord = (omega arith, refl)

parse_cmd-show_line_example : parse_cmd (show_line sample []) ≡ parsed (line_cmd sample)
parse_cmd-show_line_example = parse_cmd-show_line sample (
  (
    (
      ((tt, ((cat-IsWord, (a-IsWord, tt)), tt)), omega arith),
      ((tt, ((cat-IsWord, tt), tt)), omega arith),
    ),
    tt,
  ),
  ((tt, ((cat-IsWord, tt), ((cat-IsWord, (a-IsWord, tt)), tt))), omega arith),
)

parse_cmd-ne-out_of_fuel_example : parse_cmd (show_line sample []) ≢ out_of_fuel
parse_cmd-ne-out_of_fuel_example = parse_cmd-ne-out_of_fuel (show_line sample [])
