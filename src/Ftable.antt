-- ===== src/Ftable.antt =====
-- file.c: the table of open files.
pub mod Handles
pub mod Safety
pub mod Calls
pub mod Transfer
pub mod Tests
use tp2_so.Prelude.{
  ℕ, zero, suc, Bool, true, false, not, Option, none, some, List, ◌==◌, if◌then◌else◌, add32, sub32,
  slt32, get_or, modify, find_index, Outcome, done, panic_if, ◌>>◌,
}

abbrev pub nfile : ℕ
nfile = 100

pub data FileType : Type 0 where
  fd_none : FileType
  fd_pipe : FileType
  fd_inode : FileType

-- `struct file`; `pipe` and `ip` are addresses.
pub record File : Type 0 where
  pub type : FileType
  pub ref : ℕ
  pub readable : Bool
  pub writable : Bool
  pub pipe : ℕ
  pub ip : ℕ
  pub off : ℕ

abbrev pub zero_file : File
zero_file = record {
  type = fd_none;
  ref = 0;
  readable = false;
  writable = false;
  pipe = 0;
  ip = 0;
  off = 0;
}

abbrev pub with_ref : ℕ → File → File
with_ref n f = record f { ref = n }

-- The index of the file, or none for the null pointer.
pub filealloc : List File → Option ℕ × List File
filealloc t = elim (find_index (λ f. f.ref == 0) t) [
  | none ↦ (none, t)
  | some i ↦ (some i, modify t i (with_ref 1))
]

pub filedup : ℕ → List File → Outcome (List File)
filedup i t =
    panic_if (slt32 (get_or t i zero_file).ref 1) "filedup"
    >> done (modify t i (λ f. with_ref (add32 f.ref 1) f))

-- What fileclose calls after it has let the table go: nothing while other references remain, or for a
-- file without a type; pipeclose; or iput, inside an operation of the log.
pub data Closing : Type 0 where
  still_open : Closing
  closes_nothing : Closing
  closes_pipe : ℕ → Bool → Closing
  puts_inode : ℕ → Closing

pub last_close : FileType → File → Closing
last_close fd_none f = closes_nothing
last_close fd_pipe f = closes_pipe f.pipe f.writable
last_close fd_inode f = puts_inode f.ip

pub fileclose : ℕ → List File → Outcome (Closing × List File)
unfolding last_close
fileclose i t =
    let f = get_or t i zero_file in
    let left = sub32 f.ref 1 in
    panic_if (slt32 f.ref 1) "fileclose"
    >> done (
        if slt32 0 left
        then (still_open, modify t i (with_ref left))
        else (last_close f.type f, modify t i (λ f. record f { ref = 0; type = fd_none })))
