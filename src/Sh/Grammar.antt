-- ===== src/Sh/Grammar.antt =====
-- The grammar of the shell's lines: what a line means as a command, and how it is written.
use tp2_so.Prelude.{ℕ, zero, suc, ◌<◌, ◌≡◌, Bool, true, not, ◌&&◌, List, [], ◌∷◌, ◌++◌, map, length}
use tp2_so.Sh.{
  Cmd, exec, pipe, sequence, back, Redir, max_args, o_rdonly, o_wronly_create, is_white, is_symbol,
  wrap,
}

-- A word: characters that are neither white space nor symbols, one at least.
abbrev pub all_plain : List ℕ → Bool
all_plain [] = true
all_plain (c ∷ w) = (not (is_white c) && not (is_symbol c)) && all_plain w

abbrev pub IsWord : List ℕ → Type 0
IsWord w = (0 < length w) × (all_plain w ≡ true)

pub data Redirection : Type 0 where
  input output append : List ℕ → Redirection

abbrev pub target : Redirection → List ℕ
target (input file) = file
target (output file) = file
target (append file) = file

-- What the shell opens: standard input for reading, standard output for writing, and the same to append.
abbrev pub redirection : Redirection → Redir
redirection (input file) = record { file = file; mode = o_rdonly; fd = 0 }
redirection (output file) = record { file = file; mode = o_wronly_create; fd = 1 }
redirection (append file) = record { file = file; mode = o_wronly_create; fd = 1 }

-- An argument, and the redirections behind it.
pub record Arg : Type 0 where
  pub word : List ℕ
  pub redirs : List Redirection

mutual
  pub data Line : Type 0 where
    last : Pipeline → ℕ → Line
    before : Pipeline → ℕ → Line → Line

  pub data Pipeline : Type 0 where
    only : Command → Pipeline
    piped : Command → Pipeline → Pipeline

  pub data Command : Type 0 where
    simple : List Redirection → List Arg → Command
    block : Line → List Redirection → Command

abbrev pub words : List Arg → List (List ℕ)
words [] = []
words (a ∷ args) = a.word ∷ words args

abbrev pub arg_redirs : List Arg → List Redir
arg_redirs [] = []
arg_redirs (a ∷ args) = map redirection a.redirs ++ arg_redirs args

-- A command with `n` marks `&` behind it.
abbrev pub backs : ℕ → Cmd → Cmd
backs zero c = c
backs (suc n) c = backs n (back c)

unfoldable mutual
  unfolding wrap

  pub line_cmd : Line → Cmd
  line_cmd (last p n) = backs n (pipeline_cmd p)
  line_cmd (before p n l) = sequence (backs n (pipeline_cmd p)) (line_cmd l)

  pub pipeline_cmd : Pipeline → Cmd
  pipeline_cmd (only c) = command_cmd c
  pipeline_cmd (piped c p) = pipe (command_cmd c) (pipeline_cmd p)

  pub command_cmd : Command → Cmd
  command_cmd (simple rs args) = wrap (map redirection rs ++ arg_redirs args) (exec (words args))
  command_cmd (block l rs) = wrap (map redirection rs) (line_cmd l)

-- What can be written: the words are words, and a command has fewer of them than MAXARGS.
abbrev pub AreRedirs : List Redirection → Type 0
AreRedirs [] = Unit
AreRedirs (r ∷ rs) = IsWord (target r) × AreRedirs rs

abbrev pub AreArgs : List Arg → Type 0
AreArgs [] = Unit
AreArgs (a ∷ args) = (IsWord a.word × AreRedirs a.redirs) × AreArgs args

abbrev mutual
  pub IsLine : Line → Type 0
  IsLine (last p n) = IsPipeline p
  IsLine (before p n l) = IsPipeline p × IsLine l

  pub IsPipeline : Pipeline → Type 0
  IsPipeline (only c) = IsCommand c
  IsPipeline (piped c p) = IsCommand c × IsPipeline p

  pub IsCommand : Command → Type 0
  IsCommand (simple rs args) = (AreRedirs rs × AreArgs args) × (length args < max_args)
  IsCommand (block l rs) = IsLine l × AreRedirs rs

-- The text, in front of `rest`: a space before each token.
abbrev pub show_word : List ℕ → List ℕ → List ℕ
show_word w rest = b' ' ∷ (w ++ rest)

abbrev pub show_redir : Redirection → List ℕ → List ℕ
show_redir (input file) rest = b' ' ∷ (b'<' ∷ show_word file rest)
show_redir (output file) rest = b' ' ∷ (b'>' ∷ show_word file rest)
show_redir (append file) rest = b' ' ∷ (b'>' ∷ (b'>' ∷ show_word file rest))

abbrev pub show_redirs : List Redirection → List ℕ → List ℕ
show_redirs [] rest = rest
show_redirs (r ∷ rs) rest = show_redir r (show_redirs rs rest)

abbrev pub show_args : List Arg → List ℕ → List ℕ
show_args [] rest = rest
show_args (a ∷ args) rest = show_word a.word (show_redirs a.redirs (show_args args rest))

abbrev pub show_backs : ℕ → List ℕ → List ℕ
show_backs zero rest = rest
show_backs (suc n) rest = b' ' ∷ (b'&' ∷ show_backs n rest)

unfoldable mutual
  pub show_line : Line → List ℕ → List ℕ
  show_line (last p n) rest = show_pipeline p (show_backs n rest)
  show_line (before p n l) rest = show_pipeline p (show_backs n (b' ' ∷ (b';' ∷ show_line l rest)))

  pub show_pipeline : Pipeline → List ℕ → List ℕ
  show_pipeline (only c) rest = show_command c rest
  show_pipeline (piped c p) rest = show_command c (b' ' ∷ (b'|' ∷ show_pipeline p rest))

  pub show_command : Command → List ℕ → List ℕ
  show_command (simple rs args) rest = show_redirs rs (show_args args rest)
  show_command (block l rs) rest = b' ' ∷ (b'(' ∷ show_line l (b' ' ∷ (b')' ∷ show_redirs rs rest)))
