-- ===== src/Sh/Reading.antt =====
-- The parser on the words of a written line.
use tp2_so.Prelude.{
  List-cases, ℕ, zero, suc, ◌+◌, ◌<◌, ◌≡◌, ◌∙◌, refl, sym, ap, subst, Bool, true, false, not, ◌||◌,
  inl, inr, List, [], ◌∷◌, ◌++◌, map, arith, ◌==◌, leb, length,
}
use tp2_so.Sh.{
  Parsed, parsed, failed, out_of_fuel, ◌>>=◌, is_white, is_symbol, skip_white, gettoken, token_at,
  first_is, peek, redir_of, max_args, parse_redirs, parse_args,
}
use tp2_so.Sh.Tokens.{skip_white_idem}
use tp2_so.Sh.Words.{
  Spaced, word_token, gettoken-word, skip_white-word, gettoken-symbol, gettoken-gt, gettoken-gtgt,
  peek-first, Follows, stops, Follows-subset, peek-Follows, is_plain, Follows-word,
}
use tp2_so.Sh.Grammar.{
  IsWord, Redirection, input, output, append, target, redirection, Arg, words, arg_redirs,
  AreRedirs, AreArgs, show_word, show_redir, show_redirs, show_args,
}

-- The value `v`, and what is left is `t` but for white space; or no fuel.
abbrev pub Yields : {A : Type 0} → A → List ℕ → Parsed (A × List ℕ) → Type 0
Yields v t (parsed (a, s)) = (a ≡ v) × (skip_white s ≡ skip_white t)
Yields v t (failed e) = ⊥
Yields v t out_of_fuel = Unit

pub >>=-Yields :
    {A B : Type 0} (v : A) (t : List ℕ) (w : B) (u : List ℕ) (m : Parsed (A × List ℕ))
    (f : A × List ℕ → Parsed (B × List ℕ))
    → Yields v t m
    → ((s : List ℕ) → skip_white s ≡ skip_white t → Yields w u (f (v, s)))
    → Yields w u (m >>= f)
>>=-Yields v t w u (parsed (a, s)) f (e, q) g = subst (λ x. Yields w u (f (x, s))) (sym e) (g s q)
>>=-Yields v t w u (failed x) f h g = absurd h
>>=-Yields v t w u out_of_fuel f h g = tt

-- Where a list of redirections ends, a list of arguments, a command, a pipeline, and a line.
abbrev pub no_redir : ℕ → Bool
no_redir c = not (c == b'<' || c == b'>')

abbrev pub after_line : ℕ → Bool
after_line c = c == b')'

abbrev pub after_pipeline : ℕ → Bool
after_pipeline c = c == b')' || (c == b'&' || c == b';')

abbrev pub after_command : ℕ → Bool
after_command c = c == b'|' || (c == b')' || (c == b'&' || c == b';'))

pub Spaced-show_redirs :
    (rs : List Redirection) (rest : List ℕ) → Spaced rest → Spaced (show_redirs rs rest)
Spaced-show_redirs [] rest h = h
Spaced-show_redirs (input f ∷ rs) rest h = refl
Spaced-show_redirs (output f ∷ rs) rest h = refl
Spaced-show_redirs (append f ∷ rs) rest h = refl

pub Spaced-show_args :
    (args : List Arg) (rest : List ℕ) → Spaced rest → Spaced (show_args args rest)
Spaced-show_args [] rest h = h
Spaced-show_args (a ∷ args) rest h = refl

-- A redirection is read as it is meant.
record IsRead (r : Redirection) (s rest : List ℕ) : Type 0 where
  is_next : peek (λ c. c == b'<' || c == b'>') s ≡ true
  file_token : gettoken (gettoken s).rest ≡ word_token (target r) rest
  meant : redir_of (gettoken s).kind (target r) ≡ redirection r

file_token-eq :
    (s t f rest : List ℕ)
    → IsWord f
    → Spaced rest
    → (gettoken s).rest ≡ skip_white (show_word f rest)
    → gettoken (gettoken s).rest ≡ word_token f rest
file_token-eq s t f rest w g e =
    gettoken-word (gettoken s).rest f rest w g
      (rw (e, skip_white_idem (show_word f rest)) (skip_white-word f rest w))

show_redir-IsRead :
    (r : Redirection) (s rest : List ℕ)
    → IsWord (target r)
    → Spaced rest
    → skip_white s ≡ skip_white (show_redir r rest)
    → IsRead r s rest
show_redir-IsRead (input f) s rest w g e =
    let at : skip_white s ≡ b'<' ∷ show_word f rest = unfold skip_white is_white in e in
    let tok = gettoken-symbol b'<' s (show_word f rest) (unfold is_symbol in refl) refl at in
    record {
      is_next = peek-first (λ c. c == b'<' || c == b'>') b'<' s (show_word f rest) at;
      file_token = file_token-eq s [] f rest w g (ap (λ t. t.rest) tok);
      meant = rw (tok) refl;
    }
show_redir-IsRead (output f) s rest w g e =
    let at : skip_white s ≡ b'>' ∷ show_word f rest = unfold skip_white is_white in e in
    let tok = gettoken-gt s (f ++ rest) at in
    record {
      is_next = peek-first (λ c. c == b'<' || c == b'>') b'>' s (show_word f rest) at;
      file_token = file_token-eq s [] f rest w g (ap (λ t. t.rest) tok);
      meant = rw (tok) refl;
    }
show_redir-IsRead (append f) s rest w g e =
    let at : skip_white s ≡ b'>' ∷ (b'>' ∷ show_word f rest) = unfold skip_white is_white in e in
    let tok = gettoken-gtgt s (show_word f rest) at in
    record {
      is_next = peek-first (λ c. c == b'<' || c == b'>') b'>' s (b'>' ∷ show_word f rest) at;
      file_token = file_token-eq s [] f rest w g (ap (λ t. t.rest) tok);
      meant = rw (tok) refl;
    }

pub parse_redirs-Yields :
    (fuel : ℕ) (rs : List Redirection) (s rest : List ℕ)
    → AreRedirs rs
    → Spaced rest
    → Follows no_redir rest
    → skip_white s ≡ skip_white (show_redirs rs rest)
    → Yields (map redirection rs) rest (parse_redirs fuel s)
unfolding parse_redirs
parse_redirs-Yields zero rs s rest h g f e = tt
parse_redirs-Yields (suc fuel) [] s rest h g f e =
    let p : peek (λ c. c == b'<' || c == b'>') s ≡ false =
      peek-Follows no_redir (λ c. c == b'<' || c == b'>') s (λ c n. ground (arith, n)) (rw (e) f) in
    rw (p) (refl, skip_white_idem s ∙ e)
parse_redirs-Yields (suc fuel) (r ∷ rs) s rest (h, hs) g f e =
    let read = show_redir-IsRead r s (show_redirs rs rest) h (Spaced-show_redirs rs rest g) e in
    rw (read.is_next, read.file_token)
      (>>=-Yields (map redirection rs) rest (redirection r ∷ map redirection rs) rest
        (parse_redirs fuel (skip_white (show_redirs rs rest)))
        (λ (rs1, s1). parsed (redir_of (gettoken s).kind (target r) ∷ rs1, s1))
        (parse_redirs-Yields fuel rs (skip_white (show_redirs rs rest)) rest hs g f
          (skip_white_idem (show_redirs rs rest)))
        (λ s1 q. (ap (λ x. x ∷ map redirection rs) read.meant, q)))

pub show_args-no_redir :
    (args : List Arg) (rest : List ℕ)
    → AreArgs args
    → Follows after_command rest
    → Follows no_redir (show_args args rest)
show_args-no_redir [] rest h f =
    Follows-subset after_command no_redir rest (λ c n. ground (arith, n)) f
show_args-no_redir (a ∷ args) rest ((w, rs), h) f =
    Follows-subset is_plain no_redir _ (λ c n. plain c n)
      (Follows-word a.word (show_redirs a.redirs (show_args args rest)) w)
  where
    plain : (c : ℕ) → is_plain c ≡ true → no_redir c ≡ true
    plain c n = unfold is_symbol in ground (arith, n)

-- Behind the last argument.
no_args-Yields :
    (fuel argc : ℕ) (s rest : List ℕ)
    → Follows after_command rest
    → skip_white s ≡ skip_white rest
    → Yields ([], []) rest (parse_args fuel argc s)
unfolding parse_args
no_args-Yields zero argc s rest f e = tt
no_args-Yields (suc fuel) argc s rest f e = elim (List-cases (skip_white s)) [
  | inl q ↦
      let at_end : gettoken s ≡ record { kind = 0; chars = []; rest = [] } =
        unfold gettoken token_at in rw (q) refl in
      let none_next : peek after_command s ≡ false = unfold peek first_is in rw (q) refl in
      rw (none_next, at_end) (refl, sym q ∙ e)
  | inr (c, t, q) ↦
      let next : after_command c ≡ true = ap (stops after_command) (sym q ∙ e) ∙ f in
      rw (peek-first after_command c s t q ∙ next) (refl, skip_white_idem s ∙ e)
]

pub parse_args-Yields :
    (fuel argc : ℕ) (args : List Arg) (s rest : List ℕ)
    → AreArgs args
    → argc + length args < max_args
    → Spaced rest
    → Follows after_command rest
    → skip_white s ≡ skip_white (show_args args rest)
    → Yields (words args, arg_redirs args) rest (parse_args fuel argc s)
unfolding parse_args
parse_args-Yields fuel argc [] s rest h m g f e = no_args-Yields fuel argc s rest f e
parse_args-Yields zero argc (a ∷ args) s rest h m g f e = tt
parse_args-Yields (suc fuel) argc (a ∷ args) s rest ((w, rs), h) m g f e =
    let more = show_args args rest in
    let after = show_redirs a.redirs more in
    let spaced = Spaced-show_args args rest g in
    let tok =
      gettoken-word s a.word after w (Spaced-show_redirs a.redirs more spaced)
        (e ∙ skip_white-word a.word after w) in
    let p =
      peek-Follows is_plain after_command s (λ c n. plain c n)
        (rw (e) (Follows-word a.word after w)) in
    let few : leb max_args (argc + 1) ≡ false = ground arith in
    rw (p, tok, few)
      (>>=-Yields (map redirection a.redirs) more
        (a.word ∷ words args, map redirection a.redirs ++ arg_redirs args) rest _ _
        (parse_redirs-Yields (length (skip_white after) + 1) a.redirs (skip_white after) more rs
          spaced (show_args-no_redir args rest h f) (skip_white_idem after))
        (λ s1 q.
          >>=-Yields (words args, arg_redirs args) rest
            (a.word ∷ words args, map redirection a.redirs ++ arg_redirs args) rest _ _
            (parse_args-Yields fuel (argc + 1) args s1 rest h (omega arith) g f q)
            (λ s2 q2. (refl, q2))))
  where
    plain : (c : ℕ) → is_plain c ≡ true → after_command c ≡ false
    plain c n = unfold is_symbol in ground (arith, n)
