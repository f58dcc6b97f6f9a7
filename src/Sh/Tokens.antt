-- ===== src/Sh/Tokens.antt =====
-- The tokens of the shell, and the lengths that are left.
use tp2_so.Prelude.{
  List-cases, ℕ, ◌<◌, ◌≤◌, ◌≡◌, refl, ap, subst, Bool, true, false, Bool-cases, inl, inr, List, [],
  ◌∷◌, arith, ◌==◌, length,
}
use tp2_so.Sh.{
  is_white, is_symbol, skip_white, after_word, after_gt, token_at, gettoken, first_is, peek,
}

pub length-skip_white : (s : List ℕ) → length (skip_white s) ≤ length s
unfolding skip_white
length-skip_white [] = omega arith
length-skip_white (c ∷ s) = ground (arith, length-skip_white s)

pub length-after_word : (s : List ℕ) → length (after_word s) ≤ length s
unfolding after_word
length-after_word [] = omega arith
length-after_word (c ∷ s) = ground (arith, length-after_word s)

-- What white space is skipped to does not begin with any.
pub skip_white-first : (s t : List ℕ) (c : ℕ) → skip_white s ≡ c ∷ t → is_white c ≡ false
unfolding skip_white
skip_white-first [] t c e = cc
skip_white-first (d ∷ s) t c e = elim (Bool-cases (is_white d)) [
  | inl w ↦ skip_white-first s t c (rw (w) at e)
  | inr w ↦ let same : d ≡ c = heads (rw (w) at e) in subst (λ x. is_white x ≡ false) same w
]
  where
    heads : {r : List ℕ} → d ∷ r ≡ c ∷ t → d ≡ c
    heads q = cc

pub skip_white_idem : (s : List ℕ) → skip_white (skip_white s) ≡ skip_white s
unfolding skip_white
skip_white_idem [] = refl
skip_white_idem (c ∷ s) = elim (Bool-cases (is_white c)) [
  | inl w ↦ rw (w) (skip_white_idem s)
  | inr w ↦ rw (w, w) refl
]

length-after_gt : (s : List ℕ) → length (after_gt s).rest ≤ length s
unfolding after_gt
length-after_gt [] = omega arith
length-after_gt (c ∷ s) = ground (arith, length-skip_white s, length-skip_white (c ∷ s))

length-token_at :
    (c : ℕ) (s : List ℕ) → is_white c ≡ false → length (token_at (c ∷ s)).rest ≤ length s
unfolding token_at
length-token_at c s w = elim (Bool-cases (c == b'>')) [
  | inl g ↦ rw (g) (length-after_gt s)
  | inr g ↦ elim (Bool-cases (is_symbol c)) [
    | inl y ↦ rw (g, y) (length-skip_white s)
    | inr y ↦ rw (g, y, w) (omega (arith, length-skip_white (after_word s), length-after_word s))
  ]
]

-- A token that is there has eaten a character.
pub length-gettoken :
    (s t : List ℕ) (c : ℕ) → skip_white s ≡ c ∷ t → length (gettoken s).rest < length s
unfolding gettoken
length-gettoken s t c e = rw (e) (
    omega (arith, length-token_at c t (skip_white-first s t c e), length-skip_white s, ap length e))

pub length-gettoken_le : (s : List ℕ) → length (gettoken s).rest ≤ length s
length-gettoken_le s = elim (List-cases (skip_white s)) [
  | inl e ↦ unfold gettoken token_at in rw (e) (omega arith)
  | inr (c, t, e) ↦ omega (arith, length-gettoken s t c e)
]

pub peek-true :
    (toks : ℕ → Bool) (s : List ℕ) → peek toks s ≡ true → length (gettoken s).rest < length s
peek-true toks s p = elim (List-cases (skip_white s)) [
  | inl e ↦ absurd (nothing e p)
  | inr (c, t, e) ↦ length-gettoken s t c e
]
  where
    nothing : skip_white s ≡ [] → peek toks s ≡ true → ⊥
    nothing e p =
        let q : first_is toks (skip_white s) ≡ true = unfold peek in p in none_first (rw (e) at q)
      where
        none_first : first_is toks [] ≡ true → ⊥
        none_first q = let r : false ≡ true = unfold first_is in q in cc

pub kind-zero :
    (s : List ℕ) → ((gettoken s).kind == 0) ≡ false → length (gettoken s).rest < length s
kind-zero s k = elim (List-cases (skip_white s)) [
  | inl e ↦ absurd (at_end e k)
  | inr (c, t, e) ↦ length-gettoken s t c e
]
  where
    at_end : skip_white s ≡ [] → ((gettoken s).kind == 0) ≡ false → ⊥
    at_end e k =
        let z : (gettoken s).kind ≡ 0 = unfold gettoken token_at in rw (e) refl in ground (arith, z)
