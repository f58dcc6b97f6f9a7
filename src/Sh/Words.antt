-- ===== src/Sh/Words.antt =====
-- The tokens of a line whose tokens have a space before them.
use tp2_so.Prelude.{ℕ, ◌≡◌, ◌∙◌, refl, Bool, true, false, not, List, [], ◌∷◌, ◌++◌, arith, ◌==◌}
use tp2_so.Sh.{
  is_white, is_symbol, skip_white, word_of, after_word, Token, after_gt, token_at, gettoken,
  first_is, peek,
}
use tp2_so.Sh.Grammar.{all_plain, IsWord, show_word}

-- Nothing is left, or a space is next.
abbrev pub Spaced : List ℕ → Type 0
Spaced [] = Unit
Spaced (c ∷ s) = c ≡ b' '

plain-head : (c : ℕ) (w : List ℕ) → all_plain (c ∷ w) ≡ true → is_white c ≡ false
plain-head c w h = ground arith

plain-head_symbol : (c : ℕ) (w : List ℕ) → all_plain (c ∷ w) ≡ true → is_symbol c ≡ false
plain-head_symbol c w h = ground arith

plain-tail : (c : ℕ) (w : List ℕ) → all_plain (c ∷ w) ≡ true → all_plain w ≡ true
plain-tail c w h = ground arith

word_of-show : (w rest : List ℕ) → all_plain w ≡ true → Spaced rest → word_of (w ++ rest) ≡ w
unfolding word_of
word_of-show [] [] h g = refl
word_of-show [] (c ∷ s) h g = unfold is_white in rw (g) refl
word_of-show (c ∷ w) rest h g =
    rw (plain-head c w h, plain-head_symbol c w h, word_of-show w rest (plain-tail c w h) g) refl

after_word-show :
    (w rest : List ℕ) → all_plain w ≡ true → Spaced rest → after_word (w ++ rest) ≡ rest
unfolding after_word
after_word-show [] [] h g = refl
after_word-show [] (c ∷ s) h g = unfold is_white in rw (g) refl
after_word-show (c ∷ w) rest h g =
    rw (plain-head c w h, plain-head_symbol c w h, after_word-show w rest (plain-tail c w h) g) refl

abbrev pub word_token : List ℕ → List ℕ → Token
word_token w rest = record { kind = b'a'; chars = w; rest = skip_white rest }

pub gettoken-word :
    (s w rest : List ℕ)
    → IsWord w
    → Spaced rest
    → skip_white s ≡ w ++ rest
    → gettoken s ≡ word_token w rest
unfolding gettoken token_at
gettoken-word s [] rest (l, h) g e = absurd (omega arith)
gettoken-word s (c ∷ w) rest (l, h) g e =
    let y = plain-head_symbol c w h in
    let gt : (c == b'>') ≡ false = unfold is_symbol in ground (arith, y) in
    let q = plain-tail c w h in
    rw (e, gt, y, plain-head c w h, word_of-show w rest q g, after_word-show w rest q g) refl

pub skip_white-space : (s : List ℕ) → skip_white (b' ' ∷ s) ≡ skip_white s
unfolding skip_white is_white
skip_white-space s = refl

pub skip_white-word : (w rest : List ℕ) → IsWord w → skip_white (show_word w rest) ≡ w ++ rest
unfolding skip_white
skip_white-word [] rest (l, h) = absurd (omega arith)
skip_white-word (c ∷ w) rest (l, h) =
    skip_white-space (c ∷ (w ++ rest)) ∙ rw (plain-head c w h) refl

-- A symbol other than `>`.
pub gettoken-symbol :
    (c : ℕ) (s t : List ℕ)
    → is_symbol c ≡ true
    → (c == b'>') ≡ false
    → skip_white s ≡ c ∷ t
    → gettoken s ≡ record { kind = c; chars = c ∷ []; rest = skip_white t }
unfolding gettoken token_at
gettoken-symbol c s t y g e = rw (e, g, y) refl

pub gettoken-gt :
    (s t : List ℕ)
    → skip_white s ≡ b'>' ∷ (b' ' ∷ t)
    → gettoken s ≡ record { kind = b'>'; chars = b'>' ∷ []; rest = skip_white (b' ' ∷ t) }
unfolding gettoken token_at after_gt
gettoken-gt s t e = rw (e) refl

pub gettoken-gtgt :
    (s t : List ℕ)
    → skip_white s ≡ b'>' ∷ (b'>' ∷ t)
    → gettoken s ≡ record { kind = b'+'; chars = b'>' ∷ (b'>' ∷ []); rest = skip_white t }
unfolding gettoken token_at after_gt
gettoken-gtgt s t e = rw (e) refl

pub peek-first :
    (toks : ℕ → Bool) (c : ℕ) (s t : List ℕ) → skip_white s ≡ c ∷ t → peek toks s ≡ toks c
unfolding peek first_is
peek-first toks c s t e = rw (e) refl

-- Nothing is left but white space, or the first character behind it is one of `toks`.
abbrev pub stops : (ℕ → Bool) → List ℕ → Bool
stops toks [] = true
stops toks (c ∷ s) = toks c

abbrev pub Follows : (ℕ → Bool) → List ℕ → Type 0
Follows toks s = stops toks (skip_white s) ≡ true

pub Follows-subset :
    (toks more : ℕ → Bool) (s : List ℕ)
    → ((c : ℕ) → toks c ≡ true → more c ≡ true)
    → Follows toks s
    → Follows more s
Follows-subset toks more s h f = by_cases (skip_white s) f
  where
    by_cases : (t : List ℕ) → stops toks t ≡ true → stops more t ≡ true
    by_cases [] g = refl
    by_cases (c ∷ t) g = h c g

pub peek-Follows :
    (toks other : ℕ → Bool) (s : List ℕ)
    → ((c : ℕ) → toks c ≡ true → other c ≡ false)
    → Follows toks s
    → peek other s ≡ false
unfolding peek first_is
peek-Follows toks other s h f = by_cases (skip_white s) f
  where
    by_cases : (t : List ℕ) → stops toks t ≡ true → first_is other t ≡ false
    by_cases [] g = refl
    by_cases (c ∷ t) g = h c g

pub Follows-symbol :
    (toks : ℕ → Bool) (c : ℕ) (s : List ℕ)
    → is_white c ≡ false
    → toks c ≡ true
    → Follows toks (b' ' ∷ (c ∷ s))
unfolding skip_white
Follows-symbol toks c s w h = rw (skip_white-space (c ∷ s), w) h

-- A word is no symbol.
abbrev pub is_plain : ℕ → Bool
is_plain c = not (is_symbol c)

pub Follows-word : (w rest : List ℕ) → IsWord w → Follows is_plain (show_word w rest)
Follows-word [] rest (l, h) = absurd (omega arith)
Follows-word (c ∷ w) rest (l, h) =
    rw (skip_white-word (c ∷ w) rest (l, h), plain-head_symbol c w h) refl
