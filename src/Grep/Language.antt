-- ===== src/Grep/Language.antt =====
-- The language of an expression, and the search for one of its words.
use tp2_so.Prelude.{
  ℕ, ◌≡◌, ◌∙◌, refl, sym, ap, subst, Bool, true, false, ◌||◌, Bool-cases, inl, inr, List, [], ◌∷◌,
  ◌++◌, append_assoc, arith, if◌then◌else◌, ◌==◌, All,
}
use tp2_so.Grep.{fits, match_star, match_one, is_end, match_here}

-- A character, or any number of them.
pub data Item : Type 0 where
  one : ℕ → Item
  star : ℕ → Item

-- An expression as a sequence of items, and whether a `$` ends it.
unfoldable pub items : List ℕ → List Item
items [] = []
items (r ∷ []) = if r == b'$' then [] else one r ∷ []
items (r ∷ (s ∷ re)) =
    let starred = star r ∷ items re in
    let single = one r ∷ items (s ∷ re) in if s == b'*' then starred else single

unfoldable pub ends : List ℕ → Bool
ends [] = false
ends (r ∷ []) = r == b'$'
ends (r ∷ (s ∷ re)) =
    let starred = ends re in let single = ends (s ∷ re) in if s == b'*' then starred else single

-- The words of a sequence of items.
pub data IsWord : List Item → List ℕ → Type 0 where
  no_items : IsWord [] []
  one_item :
      {r t : ℕ} {is : List Item} {w : List ℕ}
      → fits r t ≡ true
      → IsWord is w
      → IsWord (one r ∷ is) (t ∷ w)
  star_item :
      {r : ℕ} {is : List Item} {w : List ℕ} (ts : List ℕ) {v : List ℕ}
      → All (λ t. fits r t ≡ true) ts
      → IsWord is w
      → v ≡ ts ++ w
      → IsWord (star r ∷ is) v

abbrev pub AtEnd : Bool → List ℕ → Type 0
AtEnd true text = text ≡ []
AtEnd false text = Unit

-- A word of the expression stands at the start of the text, and at its end too if the expression says so.
pub record StartsWith (re text : List ℕ) : Type 0 where
  pub word : List ℕ
  pub rest : List ℕ
  pub cut : text ≡ word ++ rest
  pub is_word : IsWord (items re) word
  pub at_end : AtEnd (ends re) rest

-- A split of a text behind characters that fit.
record IsSkipped (here : List ℕ → Bool) (c : ℕ) (text : List ℕ) : Type 0 where
  pub passed : List ℕ
  pub rest : List ℕ
  pub cut : text ≡ passed ++ rest
  pub fit : All (λ t. fits c t ≡ true) passed
  pub found : here rest ≡ true

match_star-IsSkipped :
    (here : List ℕ → Bool) (c : ℕ) (text : List ℕ)
    → match_star here c text ≡ true
    → IsSkipped here c text
unfolding match_star
match_star-IsSkipped here c [] e = record {
  passed = [];
  rest = [];
  cut = refl;
  fit = tt;
  found = e;
}
match_star-IsSkipped here c (t ∷ text) e = elim (Bool-cases (here (t ∷ text))) [
  | inl h ↦ record { passed = []; rest = t ∷ text; cut = refl; fit = tt; found = h }
  | inr h ↦ elim (Bool-cases (t == c || c == b'.')) [
    | inl f ↦
        let k = match_star-IsSkipped here c text (rw (h, f) at e) in
        record {
          passed = t ∷ k.passed;
          rest = k.rest;
          cut = ap (λ xs. t ∷ xs) k.cut;
          fit = (ground arith, k.fit);
          found = k.found;
        }
    | inr f ↦ absurd (refused (rw (h, f) at e))
  ]
]
  where
    refused : false ≡ true → ⊥
    refused q = cc

IsSkipped-match_star :
    (here : List ℕ → Bool) (c : ℕ) (passed rest : List ℕ)
    → All (λ t. fits c t ≡ true) passed
    → here rest ≡ true
    → match_star here c (passed ++ rest) ≡ true
unfolding match_star
IsSkipped-match_star here c [] [] fit found = found
IsSkipped-match_star here c [] (t ∷ rest) fit found = rw (found) refl
IsSkipped-match_star here c (t ∷ passed) rest (f, fit) found =
    elim (Bool-cases (here (t ∷ (passed ++ rest)))) [
      | inl h ↦ rw (h) refl
      | inr h ↦ rw (h, allowed) (IsSkipped-match_star here c passed rest fit found)
    ]
  where
    allowed : (t == c || c == b'.') ≡ true
    allowed = ground arith

-- The cases of a word.
IsWord-nil : {w : List ℕ} → IsWord [] w → w ≡ []
IsWord-nil no_items = refl

IsWord-one :
    {r : ℕ} {is : List Item} {w : List ℕ}
    → IsWord (one r ∷ is) w
    → (t : ℕ) × (v : List ℕ) × (w ≡ t ∷ v) × (fits r t ≡ true) × IsWord is v
IsWord-one (one_item {t = t} {w = v} f k) = (t, v, refl, f, k)

IsWord-star :
    {r : ℕ} {is : List Item} {w : List ℕ}
    → IsWord (star r ∷ is) w
    → (ts : List ℕ) × (v : List ℕ) × (w ≡ ts ++ v) × All (λ t. fits r t ≡ true) ts × IsWord is v
IsWord-star (star_item {w = v} ts f k e) = (ts, v, e, f, k)

match_one-step :
    (here : List ℕ → Bool) (r : ℕ) (text : List ℕ)
    → match_one here r text ≡ true
    → (t : ℕ) × (rest : List ℕ) × (text ≡ t ∷ rest) × (fits r t ≡ true) × (here rest ≡ true)
unfolding match_one
match_one-step here r [] e = cc
match_one-step here r (t ∷ text) e = elim (Bool-cases (fits r t)) [
  | inl f ↦ (t, text, refl, f, rw (f) at e)
  | inr f ↦ absurd (refused (rw (f) at e))
]
  where
    refused : false ≡ true → ⊥
    refused q = cc

-- An item in front of a start.
one-StartsWith :
    (r t : ℕ) (re re1 text text1 : List ℕ)
    → items re ≡ one r ∷ items re1
    → ends re ≡ ends re1
    → text ≡ t ∷ text1
    → fits r t ≡ true
    → StartsWith re1 text1
    → StartsWith re text
one-StartsWith r t re re1 text text1 i n c f s = record {
  word = t ∷ s.word;
  rest = s.rest;
  cut = c ∙ ap (λ xs. t ∷ xs) s.cut;
  is_word = subst (λ is. IsWord is (t ∷ s.word)) (sym i) (one_item f s.is_word);
  at_end = subst (λ b. AtEnd b s.rest) (sym n) s.at_end;
}

star-StartsWith :
    (r : ℕ) (re re1 text : List ℕ)
    → items re ≡ star r ∷ items re1
    → ends re ≡ ends re1
    → (k : IsSkipped (match_here re1) r text) → StartsWith re1 k.rest
    → StartsWith re text
star-StartsWith r re re1 text i n k s = record {
  word = k.passed ++ s.word;
  rest = s.rest;
  cut = k.cut ∙ (ap (λ xs. k.passed ++ xs) s.cut ∙ sym (append_assoc k.passed s.word s.rest));
  is_word =
      subst (λ is. IsWord is (k.passed ++ s.word)) (sym i)
        (star_item k.passed k.fit s.is_word refl);
  at_end = subst (λ b. AtEnd b s.rest) (sym n) s.at_end;
}

pub match_here-StartsWith : (re text : List ℕ) → match_here re text ≡ true → StartsWith re text
unfolding match_here items ends
match_here-StartsWith [] text e = record {
  word = [];
  rest = text;
  cut = refl;
  is_word = no_items;
  at_end = tt;
}
match_here-StartsWith (r ∷ []) text e = elim (Bool-cases (r == b'$')) [
  | inl d ↦ finished d (rw (d) at e)
  | inr d ↦
      let (t, rest, c, f, _) = match_one-step (match_here []) r text (rw (d) at e) in
      one-StartsWith r t (r ∷ []) [] text rest (rw (d) refl) (rw (d) refl) c f
        (match_here-StartsWith [] rest refl)
]
  where
    empty : (text : List ℕ) → is_end text ≡ true → text ≡ []
    empty [] q = refl
    empty (t ∷ text) q = cc

    finished : (r == b'$') ≡ true → is_end text ≡ true → StartsWith (r ∷ []) text
    finished d q = record {
      word = [];
      rest = text;
      cut = refl;
      is_word = rw (d) no_items;
      at_end = rw (d) (empty text q);
    }
match_here-StartsWith (r ∷ (s ∷ re)) text e = elim (Bool-cases (s == b'*')) [
  | inl d ↦
      let k = match_star-IsSkipped (match_here re) r text (rw (d) at e) in
      star-StartsWith r (r ∷ (s ∷ re)) re text (rw (d) refl) (rw (d) refl) k
        (match_here-StartsWith re k.rest k.found)
  | inr d ↦
      let (t, rest, c, f, h) = match_one-step (match_here (s ∷ re)) r text (rw (d) at e) in
      one-StartsWith r t (r ∷ (s ∷ re)) (s ∷ re) text rest (rw (d) refl) (rw (d) refl) c f
        (match_here-StartsWith (s ∷ re) rest h)
]

pub word-match_here :
    (re word rest : List ℕ)
    → IsWord (items re) word
    → AtEnd (ends re) rest
    → match_here re (word ++ rest) ≡ true
unfolding match_here items ends match_one
word-match_here [] word rest w n = refl
word-match_here (r ∷ []) word rest w n = elim (Bool-cases (r == b'$')) [
  | inl d ↦
      let none_left : word ≡ [] = IsWord-nil (rw (d) at w) in
      let at_end : rest ≡ [] = rw (d) at n in rw (d, none_left, at_end) refl
  | inr d ↦ let (t, v, e, f, _) = IsWord-one (rw (d) at w) in rw (d, e, f) refl
]
word-match_here (r ∷ (s ∷ re)) word rest w n = elim (Bool-cases (s == b'*')) [
  | inl d ↦
      let (ts, v, e, f, k) = IsWord-star (rw (d) at w) in
      rw (d) (
        subst (λ xs. match_star (match_here re) r xs ≡ true)
          (sym (append_assoc ts v rest) ∙ ap (λ xs. xs ++ rest) (sym e))
          (IsSkipped-match_star (match_here re) r ts (v ++ rest) f
            (word-match_here re v rest k (rw (d) at n))))
  | inr d ↦
      let (t, v, e, f, k) = IsWord-one (rw (d) at w) in
      rw (d, e, f) (word-match_here (s ∷ re) v rest k (rw (d) at n))
]
