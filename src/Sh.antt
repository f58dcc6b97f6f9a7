-- ===== src/Sh.antt =====
-- sh.c: the parser of the shell. A pointer into the line is the list of the characters from there to
-- the end of the line; a word is its characters, as nulterminate leaves them.
pub mod Tokens
pub mod Fuel
pub mod Grammar
pub mod Words
pub mod Reading
pub mod Lines
pub mod Tests
use Prim.Native.String.{String}
use tp2_so.Prelude.{
  ℕ, zero, suc, ◌+◌, ◌*◌, Bool, true, false, not, ◌&&◌, ◌||◌, List, [], ◌∷◌, ◌++◌, if◌then◌else◌,
  ◌==◌, ltb, leb, length,
}

abbrev pub max_args : ℕ
max_args = 10

-- fcntl.h
abbrev pub o_rdonly : ℕ
o_rdonly = 0

abbrev pub o_wronly_create : ℕ
o_wronly_create = 0x201

-- `file`, `mode` and `fd` of a `struct redircmd`.
pub record Redir : Type 0 where
  pub file : List ℕ
  pub mode : ℕ
  pub fd : ℕ

pub data Cmd : Type 0 where
  exec : List (List ℕ) → Cmd
  redir : Cmd → Redir → Cmd
  pipe : Cmd → Cmd → Cmd
  sequence : Cmd → Cmd → Cmd
  back : Cmd → Cmd

-- What the parser does: it returns, it panics, or the model has no fuel left.
pub data Parsed {ℓ} (A : Type ℓ) : Type ℓ where
  parsed : A → Parsed A
  failed : String → Parsed A
  out_of_fuel : Parsed A

infixl 5 ◌>>=◌
abbrev pub ◌>>=◌ {ℓ κ} : {A : Type ℓ} {B : Type κ} → Parsed A → (A → Parsed B) → Parsed B
parsed a >>= f = f a
failed s >>= f = failed s
out_of_fuel >>= f = out_of_fuel

unfoldable pub is_white : ℕ → Bool
is_white c = c == b' ' || (c == b'\t' || (c == b'\r' || (c == b'\n' || c == 11)))

unfoldable pub is_symbol : ℕ → Bool
is_symbol c =
    c == b'<'
    || (c == b'|' || (c == b'>' || (c == b'&' || (c == b';' || (c == b'(' || c == b')')))))

-- `while(s < es && strchr(whitespace, *s)) s++;`
pub skip_white : List ℕ → List ℕ
skip_white [] = []
skip_white (c ∷ s) = let rest = skip_white s in if is_white c then rest else c ∷ s

-- The loop of gettoken over a word: the word, and what is behind it.
pub word_of : List ℕ → List ℕ
word_of [] = []
word_of (c ∷ s) = let rest = word_of s in if is_white c || is_symbol c then [] else c ∷ rest

pub after_word : List ℕ → List ℕ
after_word [] = []
after_word (c ∷ s) = let rest = after_word s in if is_white c || is_symbol c then c ∷ s else rest

-- The value of gettoken, the characters from `q` to `eq`, and `*ps` after it.
pub record Token : Type 0 where
  pub kind : ℕ
  pub chars : List ℕ
  pub rest : List ℕ

-- gettoken after a `>`.
pub after_gt : List ℕ → Token
unfolding skip_white
after_gt [] = record { kind = b'>'; chars = b'>' ∷ []; rest = [] }
after_gt (c ∷ s) =
    if c == b'>'
    then record { kind = b'+'; chars = b'>' ∷ (b'>' ∷ []); rest = skip_white s }
    else record { kind = b'>'; chars = b'>' ∷ []; rest = skip_white (c ∷ s) }

-- gettoken behind the white space.
pub token_at : List ℕ → Token
unfolding skip_white word_of after_word after_gt
token_at [] = record { kind = 0; chars = []; rest = [] }
token_at (c ∷ s) =
    if c == b'>'
    then after_gt s
    else if is_symbol c
    then record { kind = c; chars = c ∷ []; rest = skip_white s }
    else record { kind = b'a'; chars = word_of (c ∷ s); rest = skip_white (after_word (c ∷ s)) }

pub gettoken : List ℕ → Token
unfolding token_at skip_white
gettoken s = token_at (skip_white s)

-- peek's answer, on the character that it comes to; its `*ps` is `skip_white s`.
pub first_is : (ℕ → Bool) → List ℕ → Bool
first_is toks [] = false
first_is toks (c ∷ s) = toks c

pub peek : (ℕ → Bool) → List ℕ → Bool
unfolding first_is skip_white
peek toks s = first_is toks (skip_white s)

-- redircmd by the token of the redirection.
abbrev pub redir_of : ℕ → List ℕ → Redir
redir_of tok file =
    if tok == b'<'
    then record { file = file; mode = o_rdonly; fd = 0 }
    else record { file = file; mode = o_wronly_create; fd = 1 }

-- The redirections wrapped around a command, the first one innermost.
pub wrap : List Redir → Cmd → Cmd
wrap [] c = c
wrap (r ∷ rs) c = wrap rs (redir c r)

-- parseredirs: the redirections, which it wraps around its command.
pub parse_redirs : ℕ → List ℕ → Parsed (List Redir × List ℕ)
unfolding gettoken peek
parse_redirs zero s = out_of_fuel
parse_redirs (suc fuel) s =
    let tok = gettoken s in
    let name = gettoken tok.rest in
    let rest = parse_redirs fuel name.rest in
    if peek (λ c. c == b'<' || c == b'>') s
    then if name.kind == b'a'
      then (rest >>= λ (rs, s1). parsed (redir_of tok.kind name.chars ∷ rs, s1))
      else failed "missing file for redirection"
    else parsed ([], skip_white s)

-- The loop of parseexec, with `argc` arguments so far: the arguments and the redirections from there.
pub parse_args : ℕ → ℕ → List ℕ → Parsed ((List (List ℕ) × List Redir) × List ℕ)
unfolding gettoken peek parse_redirs
parse_args zero argc s = out_of_fuel
parse_args (suc fuel) argc s =
    let tok = gettoken s in
    let rest = parse_redirs (length tok.rest + 1) tok.rest >>= λ (rs, s1).
    parse_args fuel (argc + 1) s1 >>= λ ((args, rs1), s2).
    parsed ((tok.chars ∷ args, rs ++ rs1), s2) in
    if peek (λ c. c == b'|' || (c == b')' || (c == b'&' || c == b';'))) s
    then parsed (([], []), skip_white s)
    else if tok.kind == 0
    then parsed (([], []), tok.rest)
    else if not (tok.kind == b'a')
    then failed "syntax"
    else if leb max_args (argc + 1)
    then failed "too many args"
    else rest

-- `while(peek(ps, es, "&")){ gettoken(ps, es, 0, 0); cmd = backcmd(cmd); }`
pub parse_backs : ℕ → Cmd → List ℕ → Parsed (Cmd × List ℕ)
unfolding gettoken peek
parse_backs zero c s = out_of_fuel
parse_backs (suc fuel) c s =
    let rest = parse_backs fuel (back c) (gettoken s).rest in
    if peek (λ c. c == b'&') s then rest else parsed (c, skip_white s)

-- parseexec of a command that is no block.
pub parse_simple : List ℕ → Parsed (Cmd × List ℕ)
unfolding parse_redirs parse_args wrap
parse_simple s = parse_redirs (length s + 1) s >>= λ (rs, s1).
    parse_args (length s1 + 1) 0 s1 >>= λ ((args, rs1), s2).
    parsed (wrap (rs ++ rs1) (exec args), s2)

-- parseblock, on parseline.
pub parse_block : (List ℕ → Parsed (Cmd × List ℕ)) → List ℕ → Parsed (Cmd × List ℕ)
unfolding gettoken peek parse_redirs wrap
parse_block line s =
    if peek (λ c. c == b'(') s
    then (line (gettoken s).rest >>= λ (c, s1).
        if peek (λ c. c == b')') s1
        then (parse_redirs (length (gettoken s1).rest + 1) (gettoken s1).rest >>= λ (rs, s2).
            parsed (wrap rs c, s2))
        else failed "syntax - missing )")
    else failed "parseblock"

pub parse_exec : (List ℕ → Parsed (Cmd × List ℕ)) → List ℕ → Parsed (Cmd × List ℕ)
unfolding parse_block parse_simple peek
parse_exec line s = if peek (λ c. c == b'(') s then parse_block line s else parse_simple s

unfoldable mutual
  unfolding parse_exec parse_backs gettoken peek

  pub parse_line : ℕ → List ℕ → Parsed (Cmd × List ℕ)
  parse_line zero s = out_of_fuel
  parse_line (suc fuel) s = parse_pipe fuel s >>= λ (c, s1).
      parse_backs (length s1 + 1) c s1 >>= λ (c1, s2).
      let rest = parse_line fuel (gettoken s2).rest >>= λ (c2, s3). parsed (sequence c1 c2, s3) in
      if peek (λ c. c == b';') s2 then rest else parsed (c1, skip_white s2)

  pub parse_pipe : ℕ → List ℕ → Parsed (Cmd × List ℕ)
  parse_pipe zero s = out_of_fuel
  parse_pipe (suc fuel) s = parse_exec (parse_line fuel) s >>= λ (c, s1).
      let rest = parse_pipe fuel (gettoken s1).rest >>= λ (c1, s2). parsed (pipe c c1, s2) in
      if peek (λ c. c == b'|') s1 then rest else parsed (c, skip_white s1)

-- parsecmd. Each nested call has eaten a character, or is one of three on the way down.
pub parse_cmd : List ℕ → Parsed Cmd
unfolding parse_line
parse_cmd s = parse_line (3 * length s + 3) s >>= λ (c, s1). elim (skip_white s1) [
  | [] ↦ parsed c
  | d ∷ rest ↦ failed "syntax"
]
