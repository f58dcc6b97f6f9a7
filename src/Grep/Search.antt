-- ===== src/Grep/Search.antt =====
-- match, against the language of the expression.
use tp2_so.Prelude.{
  ℕ, ◌≡◌, ◌↔◌, ◌∙◌, refl, sym, ap, subst, Bool, true, false, Bool-cases, inl, inr, List, [], ◌∷◌,
  ◌++◌, if◌then◌else◌, ◌==◌,
}
use tp2_so.Grep.{match_here, match_from, match_text}
use tp2_so.Grep.Language.{AtEnd, StartsWith, match_here-StartsWith, word-match_here}

-- Whether an expression holds to the start, and the expression behind the `^`.
unfoldable pub holds_start : List ℕ → Bool
holds_start [] = false
holds_start (r ∷ re) = r == b'^'

unfoldable pub body : List ℕ → List ℕ
body [] = []
body (r ∷ re) = if r == b'^' then re else r ∷ re

-- A word of the expression stands in the text, at its start if the expression says so.
pub record Occurs (re text : List ℕ) : Type 0 where
  pub before : List ℕ
  pub behind : List ℕ
  pub cut : text ≡ before ++ behind
  pub at_start : AtEnd (holds_start re) before
  pub here : StartsWith (body re) behind

match_from-split :
    (re text : List ℕ)
    → match_from re text ≡ true
    → (before : List ℕ) × (behind : List ℕ) × (text ≡ before ++ behind)
      × (match_here re behind ≡ true)
unfolding match_from
match_from-split re [] e = ([], [], refl, e)
match_from-split re (t ∷ text) e = elim (Bool-cases (match_here re (t ∷ text))) [
  | inl h ↦ ([], t ∷ text, refl, h)
  | inr h ↦
      let (before, behind, c, k) = match_from-split re text (rw (h) at e) in
      (t ∷ before, behind, ap (λ xs. t ∷ xs) c, k)
]

split-match_from :
    (re before behind : List ℕ)
    → match_here re behind ≡ true
    → match_from re (before ++ behind) ≡ true
unfolding match_from
split-match_from re [] [] h = h
split-match_from re [] (t ∷ behind) h = rw (h) refl
split-match_from re (t ∷ before) behind h =
    elim (Bool-cases (match_here re (t ∷ (before ++ behind)))) [
      | inl k ↦ rw (k) refl
      | inr k ↦ rw (k) (split-match_from re before behind h)
    ]

started : (re text : List ℕ) → StartsWith re text → match_here re text ≡ true
started re text s =
    subst (λ xs. match_here re xs ≡ true) (sym s.cut)
      (word-match_here re s.word s.rest s.is_word s.at_end)

match_text-Occurs : (re text : List ℕ) → match_text re text ≡ true → Occurs re text
unfolding match_text holds_start body
match_text-Occurs [] text e =
    let (before, behind, c, h) = match_from-split [] text e in
    record {
      before = before;
      behind = behind;
      cut = c;
      at_start = tt;
      here = match_here-StartsWith [] behind h;
    }
match_text-Occurs (r ∷ re) text e = elim (Bool-cases (r == b'^')) [
  | inl d ↦ record {
    before = [];
    behind = text;
    cut = refl;
    at_start = rw (d) refl;
    here = rw (d) (match_here-StartsWith re text (rw (d) at e));
  }
  | inr d ↦
      let (before, behind, c, h) = match_from-split (r ∷ re) text (rw (d) at e) in
      record {
        before = before;
        behind = behind;
        cut = c;
        at_start = rw (d) tt;
        here = rw (d) (match_here-StartsWith (r ∷ re) behind h);
      }
]

Occurs-match_text : (re text : List ℕ) → Occurs re text → match_text re text ≡ true
unfolding match_text holds_start body
Occurs-match_text [] text o =
    subst (λ xs. match_from [] xs ≡ true) (sym o.cut)
      (split-match_from [] o.before o.behind (started [] o.behind o.here))
Occurs-match_text (r ∷ re) text o = elim (Bool-cases (r == b'^')) [
  | inl d ↦
      let none_before : o.before ≡ [] = rw (d) at o.at_start in
      let whole : text ≡ o.behind = o.cut ∙ ap (λ xs. xs ++ o.behind) none_before in
      rw (d)
        (subst (λ xs. match_here re xs ≡ true) (sym whole) (started re o.behind (rw (d) at o.here)))
  | inr d ↦ rw (d) (
      subst (λ xs. match_from (r ∷ re) xs ≡ true) (sym o.cut)
        (split-match_from (r ∷ re) o.before o.behind
          (started (r ∷ re) o.behind (rw (d) at o.here))))
]

-- match finds an expression in a text exactly if some word of the expression's language stands in the
-- text: anywhere, or at its start if the expression begins with `^`, and up to its end if it ends in `$`.
-- The language is that of the items `c`, `.`, `c*` and `.*`, one after the other.
pub match_text_iff : (re text : List ℕ) → (match_text re text ≡ true) ↔ Occurs re text
match_text_iff re text = (match_text-Occurs re text, Occurs-match_text re text)
