-- ===== src/Grep/Tests.antt =====
-- The expression `^a.*b$`.
use tp2_so.Prelude.{ℕ, ◌≡◌, ◌↔◌, true, List, [], ◌∷◌}
use tp2_so.Grep.{match_text}
use tp2_so.Grep.Search.{Occurs, match_text_iff}

abbrev from_a_to_b : List ℕ
from_a_to_b = b'^' ∷ (b'a' ∷ (b'.' ∷ (b'*' ∷ (b'b' ∷ (b'$' ∷ [])))))

abbrev ab : List ℕ
ab = b'a' ∷ (b'c' ∷ (b'b' ∷ []))

match_text_iff_example : (match_text from_a_to_b ab ≡ true) ↔ Occurs from_a_to_b ab
match_text_iff_example = match_text_iff from_a_to_b ab
