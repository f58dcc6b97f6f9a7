-- ===== src/Console.antt =====
-- console.c: the ring in which a line is edited, reads from it, the screen, and cprintf.
pub mod Ring
pub mod Editing
pub mod Reading
pub mod Screen
pub mod Print
pub mod Tests
use tp2_so.Prelude.{
  ℕ, zero, suc, ◌+◌, ◌-◌, ◌*◌, ◌/◌, ◌%◌, Bool, true, false, not, ◌&&◌, ◌||◌, Option, none, some,
  List, [], ◌∷◌, ◌++◌, if◌then◌else◌, ◌==◌, ltb, leb, add32, sub32, slt32, get_or, set, bit_or,
  Outcome, done, panic_if, ◌>>◌,
}

abbrev pub input_buf : ℕ
input_buf = 128

abbrev pub backspace : ℕ
backspace = 0x100

-- `C(x)`, the code of control-x.
abbrev pub control : ℕ → ℕ
control x = x - b'@'

-- `input`, with what has been echoed (the last one first), and the two things that an interrupt
-- causes: readers are woken, and the processes are listed.
pub record Input : Type 0 where
  pub buf : List ℕ
  pub r : ℕ
  pub w : ℕ
  pub e : ℕ
  pub echoed : List ℕ
  pub woken : Bool
  pub doprocdump : Bool

-- `input.e--; consputc(BACKSPACE);`
pub erase : Input → Input
erase s = record s { e = sub32 s.e 1; echoed = backspace ∷ s.echoed }

-- The `while` of control-U.
pub kill_line : ℕ → Input → Input
unfolding erase
kill_line zero s = s
kill_line (suc fuel) s =
    let rest = kill_line fuel (erase s) in
    if not (s.e == s.w) && not (get_or s.buf (sub32 s.e 1 % input_buf) 0 == b'\n') then rest else s

abbrev pub to_newline : ℕ → ℕ
to_newline c = if c == b'\r' then b'\n' else c

-- `input.buf[input.e++ % INPUT_BUF] = c; consputc(c);`
pub type_in : ℕ → Input → Input
type_in c s = record s {
  buf = set s.buf (s.e % input_buf) c;
  e = add32 s.e 1;
  echoed = c ∷ s.echoed;
}

-- The test after a character has been typed, and what it does.
pub commit_line : ℕ → Input → Input
commit_line c s =
    if c == b'\n' || c == control b'D' || s.e == add32 s.r input_buf
    then record s { w = s.e; woken = true }
    else s

-- One turn of consoleintr's loop; the line that is killed has at most INPUT_BUF characters.
pub intr_key : ℕ → Input → Input
unfolding kill_line type_in commit_line erase
intr_key c s =
    if c == control b'P'
    then record s { doprocdump = true }
    else if c == control b'U'
    then kill_line input_buf s
    else if c == control b'H' || c == 0x7f
    then (if s.e == s.w then s else erase s)
    else if not (c == 0) && ltb (sub32 s.e s.r) input_buf
    then commit_line (to_newline c) (type_in (to_newline c) s)
    else s

-- consoleintr, on the characters that getc returns before it returns -1.
pub consoleintr : List ℕ → Input → Input
unfolding intr_key
consoleintr [] s = s
consoleintr (c ∷ cs) s = consoleintr cs (intr_key c s)

-- How a piece of consoleread ends.
pub data Ending : Type 0 where
  returned failed asleep : Ending

pub record Read : Type 0 where
  pub ending : Ending
  pub bytes : List ℕ
  pub left : ℕ  -- `n`
  pub input : Input

abbrev with_byte : ℕ → Read → Read
with_byte c t = record t { bytes = c ∷ t.bytes }

-- consoleread from the head of its outer loop, with `n` bytes to go, for a process that is or is not
-- killed, up to its return or its sleep. It returns `target - n`.
pub consoleread : Bool → ℕ → ℕ → Input → Read
consoleread killed target zero s = record { ending = returned; bytes = []; left = 0; input = s }
consoleread killed target (suc n) s =
    let c = get_or s.buf (s.r % input_buf) 0 in
    let s1 = record s { r = add32 s.r 1 } in
    let rest = consoleread killed target n s1 in
    if s.r == s.w
    then record { ending = if killed then failed else asleep; bytes = []; left = suc n; input = s }
    else if c == control b'D'
    then record {
      ending = returned;
      bytes = [];
      left = suc n;
      input = if ltb (suc n) target then s else s1;
    }
    else if c == b'\n'
    then record { ending = returned; bytes = c ∷ []; left = n; input = s1 }
    else with_byte c rest

-- The cells of the CGA memory, and the cursor.
pub record Cga : Type 0 where
  pub pos : ℕ
  pub crt : ℕ → ℕ

abbrev pub poke : ℕ → ℕ → (ℕ → ℕ) → ℕ → ℕ
poke i v crt j = if i == j then v else crt j

-- The first `if` of cgaputc.
pub place : ℕ → Cga → Cga
place c s =
    if c == b'\n'
    then record s { pos = s.pos + (80 - s.pos % 80) }
    else if c == backspace
    then record s { pos = s.pos - 1 }
    else record { pos = s.pos + 1; crt = poke s.pos (bit_or (c % 256) 0x700) s.crt }

-- `memmove(crt, crt+80, ...23*80); pos -= 80; memset(crt+pos, 0, ...(24*80 - pos));`
pub scroll : Cga → Cga
scroll s = record {
  pos = s.pos - 80;
  crt = λ i.
      if leb (s.pos - 80) i && ltb i 1920
      then 0
      else if ltb i 1840
      then s.crt (i + 80)
      else s.crt i;
}

pub cgaputc : ℕ → Cga → Outcome Cga
unfolding place scroll
cgaputc c s =
    let s1 = place c s in
    let s2 = if leb 24 (s1.pos / 80) then scroll s1 else s1 in
    panic_if (ltb 2000 s1.pos) "pos under/overflow"
    >> done (record s2 { crt = poke s2.pos (bit_or b' ' 0x700) s2.crt })
