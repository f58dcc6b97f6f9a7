-- ===== src/Console/Ring.antt =====
-- The characters in the input ring: those that can be read, and the line that is being edited.
use tp2_so.Prelude.{
  ℕ, zero, suc, ◌+◌, ◌-◌, ◌%◌, ◌^◌, ◌<◌, ◌≤◌, ◌≡◌, ◌≢◌, ◌∙◌, refl, ap, ap₂, List, [], ◌∷◌, ◌++◌,
  arith, length, get_or, get_or-set_ne, set, add32, sub32, All,
}
use tp2_so.Console.{Input, input_buf}

-- `n` characters of the ring from counter value `i` on.
unfoldable pub chars_from : ℕ → ℕ → List ℕ → List ℕ
chars_from zero i bs = []
chars_from (suc n) i bs = get_or bs (i % input_buf) 0 ∷ chars_from n (add32 i 1) bs

unfoldable pub ready : Input → List ℕ
ready s = chars_from (sub32 s.w s.r) s.r s.buf

unfoldable pub line : Input → List ℕ
line s = chars_from (sub32 s.e s.w) s.w s.buf

-- The counters stand in the order r, w, e, at most INPUT_BUF apart, and no line end is in the line.
pub record IsInput (s : Input) : Type 0 where
  pub size : length s.buf ≡ input_buf
  pub read_word : s.r < 2 ^ 32
  pub write_word : s.w < 2 ^ 32
  pub edit_word : s.e < 2 ^ 32
  pub order : sub32 s.w s.r + sub32 s.e s.w ≡ sub32 s.e s.r
  pub room : sub32 s.e s.r ≤ input_buf
  pub plain : All (λ c. c ≢ b'\n') (line s)

pub length-chars_from : (n i : ℕ) (bs : List ℕ) → length (chars_from n i bs) ≡ n
unfolding chars_from
length-chars_from zero i bs = refl
length-chars_from (suc n) i bs = ap suc (length-chars_from n (add32 i 1) bs)

plus_zero : (i : ℕ) → i + 0 ≡ i
plus_zero i = omega arith

pub chars_from-snoc :
    (n i : ℕ) (bs : List ℕ)
    → chars_from (suc n) i bs ≡ chars_from n i bs ++ get_or bs ((i + n) % input_buf) 0 ∷ []
unfolding chars_from
chars_from-snoc zero i bs = rw (plus_zero i) refl
chars_from-snoc (suc n) i bs =
    ap (λ xs. get_or bs (i % input_buf) 0 ∷ xs)
      (chars_from-snoc n (add32 i 1) bs
        ∙ ap (λ j. chars_from n (add32 i 1) bs ++ get_or bs j 0 ∷ []) (around i n))
  where
    around : (i n : ℕ) → (add32 i 1 + n) % input_buf ≡ (i + suc n) % input_buf
    around i n = omega arith

pub chars_from-add :
    (a b i j : ℕ) (bs : List ℕ)
    → i < 2 ^ 32
    → add32 i a ≡ j
    → chars_from (a + b) i bs ≡ chars_from a i bs ++ chars_from b j bs
unfolding chars_from
chars_from-add zero b i j bs h e = ap₂ (λ n k. chars_from n k bs) (zero_plus b) here
  where
    zero_plus : (b : ℕ) → 0 + b ≡ b
    zero_plus b = omega arith

    here : i ≡ j
    here = omega arith
chars_from-add (suc a) b i j bs h e =
    ap (λ n. chars_from n i bs) (suc_plus a b)
    ∙ ap (λ xs. get_or bs (i % input_buf) 0 ∷ xs)
        (chars_from-add a b (add32 i 1) j bs (omega arith) (omega arith))
  where
    suc_plus : (a b : ℕ) → suc a + b ≡ suc (a + b)
    suc_plus a b = omega arith

pub chars_from-set :
    (n m i j c : ℕ) (bs : List ℕ)
    → n ≤ m
    → m < input_buf
    → (i + m) % input_buf ≡ j % input_buf
    → chars_from n i (set bs (j % input_buf) c) ≡ chars_from n i bs
unfolding chars_from
chars_from-set zero m i j c bs le lt e = refl
chars_from-set (suc n) m i j c bs le lt e =
    ap₂ (λ x xs. x ∷ xs) (get_or-set_ne bs (j % input_buf) (i % input_buf) c 0 (λ same. apart same))
      (chars_from-set n (m - 1) (add32 i 1) j c bs (omega arith) (omega arith) (omega arith))
  where
    apart : j % input_buf ≡ i % input_buf → ⊥
    apart same = omega arith
