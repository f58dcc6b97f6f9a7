-- ===== src/Ftable/Calls.antt =====
-- sysfile.c: the calls on the descriptors of a process. `argument` is what argint fetches. In `ofile` a null
-- pointer is 0, and the file with the index `i` of the table is `i + 1`.
pub mod Descriptors
pub mod Tests
use tp2_so.Prelude.{
  ℕ, zero, suc, ◌+◌, Bool, true, false, not, ◌||◌, Option, none, some, List, ◌==◌, if◌then◌else◌,
  slt32, minus_one, get_or, set, modify, find_index, Outcome, done, ◌>>=◌, bit_and,
}
use tp2_so.Proc.{nofile}
use tp2_so.Ftable.{File, FileType, fd_inode, filealloc, filedup, fileclose, Closing, closes_nothing}

pub record Files : Type 0 where
  pub ofile : List ℕ
  pub table : List File

abbrev pub file_of : ℕ → ℕ → Option (ℕ × ℕ)
file_of fd zero = none
file_of fd (suc i) = some (fd, i)

-- The descriptor and the file, or -1.
pub argfd : Option ℕ → Files → Option (ℕ × ℕ)
argfd none s = none
argfd (some fd) s =
    if slt32 fd 0 || not (slt32 fd nofile) then none else file_of fd (get_or s.ofile fd 0)

-- The descriptor, and the array with the file in it.
pub fdalloc : ℕ → List ℕ → Option (ℕ × List ℕ)
fdalloc i ofile = elim (find_index (λ f. f == 0) ofile) [
  | none ↦ none
  | some fd ↦ some (fd, set ofile fd (suc i))
]

pub sys_dup : Option ℕ → Files → Outcome (ℕ × Files)
unfolding argfd fdalloc
sys_dup argument s = elim (argfd argument s) [
  | none ↦ done (minus_one, s)
  | some (old, i) ↦ elim (fdalloc i s.ofile) [
    | none ↦ done (minus_one, s)
    | some (fd, ofile) ↦
        (filedup i s.table >>= λ table. done (fd, record { ofile = ofile; table = table }))
  ]
]

-- With what fileclose closes.
pub sys_close : Option ℕ → Files → Outcome ((ℕ × Closing) × Files)
unfolding argfd
sys_close argument s = elim (argfd argument s) [
  | none ↦ done ((minus_one, closes_nothing), s)
  | some (fd, i) ↦
      (fileclose i s.table >>= λ (c, table).
      done ((0, c), record { ofile = set s.ofile fd 0; table = table }))
]

-- fcntl.h
abbrev o_wronly : ℕ
o_wronly = 1

abbrev o_rdwr : ℕ
o_rdwr = 2

-- The fields that sys_open gives to the file.
pub opened : ℕ → ℕ → File → File
opened omode ip f = record f {
  type = fd_inode;
  ip = ip;
  off = 0;
  readable = bit_and omode o_wronly == 0;
  writable = not (bit_and omode o_wronly == 0) || not (bit_and omode o_rdwr == 0);
}

-- What sys_open does with the result of filealloc.
with_file : ℕ → ℕ → List ℕ → Option ℕ × List File → Outcome (ℕ × Files)
unfolding fdalloc opened
with_file omode ip old (none, t) = done (minus_one, record { ofile = old; table = t })
with_file omode ip old (some i, t) = elim (fdalloc i old) [
  | none ↦ (fileclose i t >>= λ (c, t1). done (minus_one, record { ofile = old; table = t1 }))
  | some (fd, ofile) ↦ done (fd, record { ofile = ofile; table = modify t i (opened omode ip) })
]

-- sys_open from the place where it has the inode `ip` locked. On -1 the inode is put back.
pub open_inode : ℕ → ℕ → Files → Outcome (ℕ × Files)
unfolding with_file
open_inode omode ip s = with_file omode ip s.ofile (filealloc s.table)
