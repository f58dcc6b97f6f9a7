-- ===== src/Sh/Lines.antt =====
-- The parser on a written line.
use tp2_so.Prelude.{
  ℕ, zero, suc, ◌+◌, ◌*◌, ◌≡◌, ◌≢◌, ◌∙◌, refl, sym, ap, subst, Bool, true, not, ◌||◌, List, [], ◌∷◌,
  map, arith, if◌then◌else◌, ◌==◌, length,
}
use tp2_so.Sh.{
  Cmd, pipe, sequence, back, Parsed, parsed, failed, out_of_fuel, ◌>>=◌, is_white, is_symbol,
  skip_white, gettoken, peek, wrap, parse_redirs, parse_backs, parse_simple, parse_block,
  parse_exec, parse_line, parse_pipe, parse_cmd,
}
use tp2_so.Sh.Reading.{
  Yields, >>=-Yields, no_redir, after_line, after_pipeline, after_command, parse_redirs-Yields,
  parse_args-Yields, Spaced-show_args, show_args-no_redir,
}
use tp2_so.Sh.Fuel.{parse_cmd-ne-out_of_fuel}
use tp2_so.Sh.Tokens.{skip_white_idem}
use tp2_so.Sh.Words.{
  Spaced, gettoken-symbol, peek-first, Follows, Follows-subset, peek-Follows, Follows-symbol,
  is_plain, Follows-word,
}
use tp2_so.Sh.Grammar.{
  Redirection, input, output, append, redirection, Arg, Line, last, before, Pipeline, only, piped,
  Command, simple, block, words, arg_redirs, backs, line_cmd, pipeline_cmd, command_cmd, AreRedirs,
  AreArgs, IsLine, IsPipeline, IsCommand, show_redirs, show_args, show_backs, show_line,
  show_pipeline, show_command,
}

-- What follows the marks `&` of a pipeline.
abbrev after_backs : ℕ → Bool
after_backs c = c == b')' || c == b';'

abbrev no_block : ℕ → Bool
no_block c = not (c == b'(')

parse_backs-Yields :
    (fuel n : ℕ) (c : Cmd) (s rest : List ℕ)
    → Follows after_backs rest
    → skip_white s ≡ skip_white (show_backs n rest)
    → Yields (backs n c) rest (parse_backs fuel c s)
unfolding parse_backs
parse_backs-Yields zero n c s rest f e = tt
parse_backs-Yields (suc fuel) zero c s rest f e =
    let p = peek-Follows after_backs (λ c. c == b'&') s (λ c h. ground (arith, h)) (rw (e) f) in
    rw (p) (refl, skip_white_idem s ∙ e)
parse_backs-Yields (suc fuel) (suc n) c s rest f e =
    let at : skip_white s ≡ b'&' ∷ show_backs n rest = unfold skip_white is_white in e in
    let tok = gettoken-symbol b'&' s (show_backs n rest) (unfold is_symbol in refl) refl at in
    rw (peek-first (λ c. c == b'&') b'&' s (show_backs n rest) at, tok)
      (parse_backs-Yields fuel n (back c) (skip_white (show_backs n rest)) rest f
        (skip_white_idem (show_backs n rest)))

show_backs-after_pipeline :
    (n : ℕ) (rest : List ℕ) → Follows after_backs rest → Follows after_pipeline (show_backs n rest)
show_backs-after_pipeline zero rest f =
    Follows-subset after_backs after_pipeline rest (λ c h. ground (arith, h)) f
show_backs-after_pipeline (suc n) rest f =
    Follows-symbol after_pipeline b'&' (show_backs n rest) (unfold is_white in refl) refl

Spaced-show_backs : (n : ℕ) (rest : List ℕ) → Spaced rest → Spaced (show_backs n rest)
Spaced-show_backs zero rest g = g
Spaced-show_backs (suc n) rest g = refl

parse_simple-Yields :
    (rs : List Redirection) (args : List Arg) (s rest : List ℕ)
    → IsCommand (simple rs args)
    → Spaced rest
    → Follows after_command rest
    → skip_white s ≡ skip_white (show_command (simple rs args) rest)
    → Yields (command_cmd (simple rs args)) rest (parse_simple s)
unfolding parse_simple show_line line_cmd
parse_simple-Yields rs args s rest ((hr, ha), m) g f e =
    >>=-Yields (map redirection rs) (show_args args rest) (command_cmd (simple rs args)) rest _ _
      (parse_redirs-Yields (length s + 1) rs s (show_args args rest) hr
        (Spaced-show_args args rest g) (show_args-no_redir args rest ha f) e)
      (λ s1 q.
        >>=-Yields (words args, arg_redirs args) rest (command_cmd (simple rs args)) rest _ _
          (parse_args-Yields (length s1 + 1) 0 args s1 rest ha (omega (arith, m)) g f q)
          (λ s2 q2. (refl, q2)))

-- A simple command does not begin with a parenthesis.
show_simple-no_block :
    (rs : List Redirection) (args : List Arg) (rest : List ℕ)
    → AreArgs args
    → Follows after_command rest
    → Follows no_block (show_redirs rs (show_args args rest))
show_simple-no_block (input w ∷ rs) args rest h f =
    Follows-symbol no_block b'<' _ (unfold is_white in refl) refl
show_simple-no_block (output w ∷ rs) args rest h f =
    Follows-symbol no_block b'>' _ (unfold is_white in refl) refl
show_simple-no_block (append w ∷ rs) args rest h f =
    Follows-symbol no_block b'>' _ (unfold is_white in refl) refl
show_simple-no_block [] [] rest h f =
    Follows-subset after_command no_block rest (λ c n. ground (arith, n)) f
show_simple-no_block [] (a ∷ args) rest ((w, rs), h) f =
    Follows-subset is_plain no_block _ (λ c n. plain c n)
      (Follows-word a.word (show_redirs a.redirs (show_args args rest)) w)
  where
    plain : (c : ℕ) → is_plain c ≡ true → no_block c ≡ true
    plain c n = unfold is_symbol in ground (arith, n)

-- A function that reads every line.
abbrev Reads : (List ℕ → Parsed (Cmd × List ℕ)) → Type 0
Reads line =
    (l : Line) (s rest : List ℕ)
    → IsLine l
    → Spaced rest
    → Follows after_line rest
    → skip_white s ≡ skip_white (show_line l rest)
    → Yields (line_cmd l) rest (line s)

module _ (line : List ℕ → Parsed (Cmd × List ℕ)) (reads : Reads line) where
  parse_block-Yields :
      (l : Line) (rs : List Redirection) (s rest : List ℕ)
      → IsLine l
      → AreRedirs rs
      → Spaced rest
      → Follows after_command rest
      → skip_white s ≡ b'(' ∷ show_line l (b' ' ∷ (b')' ∷ show_redirs rs rest))
      → Yields (wrap (map redirection rs) (line_cmd l)) rest (parse_block line s)
  unfolding parse_block
  parse_block-Yields l rs s rest hl hr g f at =
      let closing = b' ' ∷ (b')' ∷ show_redirs rs rest) in
      let tok = gettoken-symbol b'(' s (show_line l closing) (unfold is_symbol in refl) refl at in
      rw (peek-first (λ c. c == b'(') b'(' s (show_line l closing) at, tok)
        (>>=-Yields (line_cmd l) closing (wrap (map redirection rs) (line_cmd l)) rest _ _
          (reads l (skip_white (show_line l closing)) closing hl refl
            (Follows-symbol after_line b')' (show_redirs rs rest) (unfold is_white in refl) refl)
            (skip_white_idem (show_line l closing)))
          (λ s1 q. closed s1 (unfold skip_white is_white in q)))
    where
      closed :
          (s1 : List ℕ)
          → skip_white s1 ≡ b')' ∷ show_redirs rs rest
          → Yields (wrap (map redirection rs) (line_cmd l)) rest (
              if peek (λ c. c == b')') s1
              then (parse_redirs (length (gettoken s1).rest + 1) (gettoken s1).rest >>= λ (rs1, s2).
                  parsed (wrap rs1 (line_cmd l), s2))
              else failed "syntax - missing )")
      closed s1 q =
          let tok =
            gettoken-symbol b')' s1 (show_redirs rs rest) (unfold is_symbol in refl) refl q in
          let none : Follows no_redir rest =
            Follows-subset after_command no_redir rest (λ c n. ground (arith, n)) f in
          rw (peek-first (λ c. c == b')') b')' s1 (show_redirs rs rest) q, tok)
            (>>=-Yields (map redirection rs) rest (wrap (map redirection rs) (line_cmd l)) rest
              (parse_redirs (length (skip_white (show_redirs rs rest)) + 1)
                (skip_white (show_redirs rs rest)))
              (λ (rs1, s2). parsed (wrap rs1 (line_cmd l), s2))
              (parse_redirs-Yields (length (skip_white (show_redirs rs rest)) + 1) rs
                (skip_white (show_redirs rs rest)) rest hr g none
                (skip_white_idem (show_redirs rs rest)))
              (λ s2 q2. (refl, q2)))

  parse_exec-Yields :
      (c : Command) (s rest : List ℕ)
      → IsCommand c
      → Spaced rest
      → Follows after_command rest
      → skip_white s ≡ skip_white (show_command c rest)
      → Yields (command_cmd c) rest (parse_exec line s)
  unfolding parse_exec show_line line_cmd
  parse_exec-Yields (simple rs args) s rest h g f e =
      let none =
        peek-Follows no_block (λ c. c == b'(') s (λ c n. ground (arith, n))
          (rw (e) (show_simple-no_block rs args rest h.0.1 f)) in
      subst
        (λ b.
          Yields (command_cmd (simple rs args)) rest
            (if b then parse_block line s else parse_simple s))
        (sym none) (parse_simple-Yields rs args s rest h g f e)
  parse_exec-Yields (block l rs) s rest (hl, hr) g f e =
      let at : skip_white s ≡ b'(' ∷ show_line l (b' ' ∷ (b')' ∷ show_redirs rs rest)) =
        unfold skip_white is_white in e in
      subst
        (λ b.
          Yields (command_cmd (block l rs)) rest (if b then parse_block line s else parse_simple s))
        (sym (peek-first (λ c. c == b'(') b'(' s _ at))
        (parse_block-Yields l rs s rest hl hr g f at)

semicolon-after_backs : (t : List ℕ) → Follows after_backs (b' ' ∷ (b';' ∷ t))
unfolding is_white
semicolon-after_backs t = Follows-symbol after_backs b';' t refl refl

bar-after_command : (t : List ℕ) → Follows after_command (b' ' ∷ (b'|' ∷ t))
unfolding is_white
bar-after_command t = Follows-symbol after_command b'|' t refl refl

semicolon-next :
    (s t : List ℕ) → skip_white s ≡ skip_white (b' ' ∷ (b';' ∷ t)) → skip_white s ≡ b';' ∷ t
unfolding skip_white is_white
semicolon-next s t q = q

bar-next : (s t : List ℕ) → skip_white s ≡ skip_white (b' ' ∷ (b'|' ∷ t)) → skip_white s ≡ b'|' ∷ t
unfolding skip_white is_white
bar-next s t q = q

semicolon-token :
    (s t : List ℕ)
    → skip_white s ≡ b';' ∷ t
    → gettoken s ≡ record { kind = b';'; chars = b';' ∷ []; rest = skip_white t }
unfolding is_symbol
semicolon-token s t q = gettoken-symbol b';' s t refl refl q

bar-token :
    (s t : List ℕ)
    → skip_white s ≡ b'|' ∷ t
    → gettoken s ≡ record { kind = b'|'; chars = b'|' ∷ []; rest = skip_white t }
unfolding is_symbol
bar-token s t q = gettoken-symbol b'|' s t refl refl q

mutual
  unfolding parse_line show_line line_cmd

  parse_line-Yields :
      (fuel : ℕ) (l : Line) (s rest : List ℕ)
      → IsLine l
      → Spaced rest
      → Follows after_line rest
      → skip_white s ≡ skip_white (show_line l rest)
      → Yields (line_cmd l) rest (parse_line fuel s)
  parse_line-Yields zero l s rest h g f e = tt
  parse_line-Yields (suc fuel) (last p n) s rest h g f e =
      let stop : Follows after_backs rest =
        Follows-subset after_line after_backs rest (λ c k. ground (arith, k)) f in
      >>=-Yields (pipeline_cmd p) (show_backs n rest) (line_cmd (last p n)) rest (parse_pipe fuel s)
        _
        (parse_pipe-Yields fuel p s (show_backs n rest) h (Spaced-show_backs n rest g)
          (show_backs-after_pipeline n rest stop) e)
        (λ s1 q.
          >>=-Yields (backs n (pipeline_cmd p)) rest (line_cmd (last p n)) rest
            (parse_backs (length s1 + 1) (pipeline_cmd p) s1) _
            (parse_backs-Yields (length s1 + 1) n (pipeline_cmd p) s1 rest stop q)
            (λ s2 q2.
              let none =
                peek-Follows after_line (λ c. c == b';') s2 (λ c k. ground (arith, k))
                  (rw (q2) f) in
              rw (none) (refl, skip_white_idem s2 ∙ q2)))
  parse_line-Yields (suc fuel) (before p n l) s rest (h, hl) g f e =
      let next = b' ' ∷ (b';' ∷ show_line l rest) in
      let stop : Follows after_backs next = semicolon-after_backs (show_line l rest) in
      >>=-Yields (pipeline_cmd p) (show_backs n next) (line_cmd (before p n l)) rest
        (parse_pipe fuel s) _
        (parse_pipe-Yields fuel p s (show_backs n next) h (Spaced-show_backs n next refl)
          (show_backs-after_pipeline n next stop) e)
        (λ s1 q.
          >>=-Yields (backs n (pipeline_cmd p)) next (line_cmd (before p n l)) rest
            (parse_backs (length s1 + 1) (pipeline_cmd p) s1) _
            (parse_backs-Yields (length s1 + 1) n (pipeline_cmd p) s1 next stop q)
            (λ s2 q2.
              let at = semicolon-next s2 (show_line l rest) q2 in
              let tok = semicolon-token s2 (show_line l rest) at in
              rw (peek-first (λ c. c == b';') b';' s2 (show_line l rest) at, tok)
                (>>=-Yields (line_cmd l) rest (line_cmd (before p n l)) rest
                  (parse_line fuel (skip_white (show_line l rest)))
                  (λ (c2, s3). parsed (sequence (backs n (pipeline_cmd p)) c2, s3))
                  (parse_line-Yields fuel l (skip_white (show_line l rest)) rest hl g f
                    (skip_white_idem (show_line l rest)))
                  (λ s3 q3. (refl, q3)))))

  parse_pipe-Yields :
      (fuel : ℕ) (p : Pipeline) (s rest : List ℕ)
      → IsPipeline p
      → Spaced rest
      → Follows after_pipeline rest
      → skip_white s ≡ skip_white (show_pipeline p rest)
      → Yields (pipeline_cmd p) rest (parse_pipe fuel s)
  parse_pipe-Yields zero p s rest h g f e = tt
  parse_pipe-Yields (suc fuel) (only c) s rest h g f e =
      >>=-Yields (command_cmd c) rest (command_cmd c) rest (parse_exec (parse_line fuel) s) _
        (parse_exec-Yields (parse_line fuel) (λ l s1 t. parse_line-Yields fuel l s1 t) c s rest h g
          (Follows-subset after_pipeline after_command rest (λ c k. ground (arith, k)) f) e)
        (λ s1 q.
          let none =
            peek-Follows after_pipeline (λ c. c == b'|') s1 (λ c k. ground (arith, k)) (rw (q) f) in
          rw (none) (refl, skip_white_idem s1 ∙ q))
  parse_pipe-Yields (suc fuel) (piped c p) s rest (h, hp) g f e =
      let next = b' ' ∷ (b'|' ∷ show_pipeline p rest) in
      >>=-Yields (command_cmd c) next (pipeline_cmd (piped c p)) rest
        (parse_exec (parse_line fuel) s) _
        (parse_exec-Yields (parse_line fuel) (λ l s1 t. parse_line-Yields fuel l s1 t) c s next h
          refl (bar-after_command (show_pipeline p rest)) e)
        (λ s1 q.
          let at = bar-next s1 (show_pipeline p rest) q in
          let tok = bar-token s1 (show_pipeline p rest) at in
          rw (peek-first (λ c. c == b'|') b'|' s1 (show_pipeline p rest) at, tok)
            (>>=-Yields (pipeline_cmd p) rest (pipeline_cmd (piped c p)) rest
              (parse_pipe fuel (skip_white (show_pipeline p rest)))
              (λ (c1, s2). parsed (pipe (command_cmd c) c1, s2))
              (parse_pipe-Yields fuel p (skip_white (show_pipeline p rest)) rest hp g f
                (skip_white_idem (show_pipeline p rest)))
              (λ s2 q2. (refl, q2))))

-- Every line of the grammar whose words are words, and that has fewer than MAXARGS words in a command, written
-- with a space before each token, is read as the command that it means.
pub parse_cmd-show_line : (l : Line) → IsLine l → parse_cmd (show_line l []) ≡ parsed (line_cmd l)
unfolding parse_cmd
parse_cmd-show_line l h =
    let s = show_line l [] in
    let none : Follows after_line [] = unfold skip_white in refl in
    whole (parse_line (3 * length s + 3) s)
      (parse_line-Yields (3 * length s + 3) l s [] h tt none refl)
      (unfold parse_cmd in parse_cmd-ne-out_of_fuel s)
  where
    done :
        (c : Cmd) (t : List ℕ)
        → t ≡ []
        → c ≡ line_cmd l
        → elim t as (λ _. Parsed Cmd) [ [] ↦ parsed c | d ∷ rest ↦ failed "syntax" ]
          ≡ parsed (line_cmd l)
    done c [] q e = ap parsed e
    done c (d ∷ t) q e = cc

    whole :
        (m : Parsed (Cmd × List ℕ))
        → Yields (line_cmd l) [] m
        → (m >>= λ (c, s1). elim (skip_white s1) as (λ _. Parsed Cmd) [
          | [] ↦ parsed c
          | d ∷ rest ↦ failed "syntax"
        ])
          ≢ out_of_fuel
        → (m >>= λ (c, s1). elim (skip_white s1) as (λ _. Parsed Cmd) [
          | [] ↦ parsed c
          | d ∷ rest ↦ failed "syntax"
        ])
          ≡ parsed (line_cmd l)
    whole (parsed (c, s1)) (e, q) ne =
        let ended : skip_white s1 ≡ [] = unfold skip_white in q in done c (skip_white s1) ended e
    whole (failed x) h ne = absurd h
    whole out_of_fuel h ne = absurd (ne refl)
