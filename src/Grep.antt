-- ===== src/Grep.antt =====
-- grep.c: the matcher of regular expressions. A string is the list of its characters before the 0.
pub mod Language
pub mod Search
pub mod Tests
use tp2_so.Prelude.{ℕ, Bool, true, false, ◌||◌, List, [], ◌∷◌, if◌then◌else◌, ◌==◌}

-- `re[0]=='.' || re[0]==*text`
abbrev pub fits : ℕ → ℕ → Bool
fits r t = r == b'.' || r == t

-- matchstar, on the function that looks for the rest of the expression at the start of a text.
pub match_star : (List ℕ → Bool) → ℕ → List ℕ → Bool
match_star here c [] = here []
match_star here c (t ∷ text) =
    let rest = match_star here c text in
    if here (t ∷ text) then true else if t == c || c == b'.' then rest else false

-- The end of matchhere, on the same function.
pub match_one : (List ℕ → Bool) → ℕ → List ℕ → Bool
match_one here r [] = false
match_one here r (t ∷ text) = if fits r t then here text else false

abbrev pub is_end : List ℕ → Bool
is_end [] = true
is_end (t ∷ text) = false

pub match_here : List ℕ → List ℕ → Bool
unfolding match_star match_one
match_here [] text = true
match_here (r ∷ []) text = if r == b'$' then is_end text else match_one (match_here []) r text
match_here (r ∷ (s ∷ re)) text =
    let star = match_star (match_here re) r text in
    let one = match_one (match_here (s ∷ re)) r text in if s == b'*' then star else one

-- The loop of match.
pub match_from : List ℕ → List ℕ → Bool
unfolding match_here
match_from re [] = match_here re []
match_from re (t ∷ text) =
    let rest = match_from re text in if match_here re (t ∷ text) then true else rest

pub match_text : List ℕ → List ℕ → Bool
unfolding match_from match_here
match_text [] text = match_from [] text
match_text (r ∷ re) text = if r == b'^' then match_here re text else match_from (r ∷ re) text
