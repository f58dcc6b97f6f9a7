-- ===== src/Ftable/Transfer.antt =====
-- file.c: reads and writes of an open file. The pipe and the inode that the file points to are arguments; the
-- inode is the one that ilock leaves in memory. Locks and the log's operations are not in the state: the chunks
-- of filewrite follow on each other, where the code lets the inode go between them.
pub mod Chunks
use Prim.Native.String.{String}
use tp2_so.Prelude.{
  ℕ, zero, suc, ◌+◌, ◌-◌, ◌*◌, ◌/◌, Bool, true, false, not, List, [], ◌∷◌, length, if◌then◌else◌,
  ◌==◌, ltb, slt32, add32, min, minus_one, Outcome, done, panic, ◌>>=◌,
}
use tp2_so.Log.{maxopblocks}
use tp2_so.Pipe.{Pipe, Taken, Written, piperead, pipewrite}
use tp2_so.Fs.{Superblock, Fs}
use tp2_so.Fs.Inode.{Inode, Moved, refused, moved, readi, writei}
use tp2_so.Ftable.{File, FileType, fd_none, fd_pipe, fd_inode}

-- The most that one transaction of the log takes.
abbrev pub max_chunk : ℕ
max_chunk = (maxopblocks - 1 - 1 - 2) / 2 * 512

abbrev pub advanced : ℕ → File → File
advanced off f = record f { off = off }

-- What a write leaves: `i` and the file's offset, the inode and the disk.
pub record Put : Type 0 where
  pub count : ℕ
  pub off : ℕ
  pub ip : Inode
  pub fs : Fs

pub data Got : Type 0 where
  not_readable : Got
  from_pipe : Taken → Got
  from_inode : Moved (List ℕ) → Got

pub data Sent : Type 0 where
  not_writable : Sent
  to_pipe : Written → Sent
  to_inode : ℕ → Sent

module _ (sb : Superblock) where
  abbrev advance_by : Moved (List ℕ) → File → File
  advance_by refused f = f
  advance_by (moved bs) f = advanced (add32 f.off (length bs)) f

  receive : FileType → Bool → ℕ → File → Pipe → Inode → Fs → Outcome (Got × File × Inode × Fs)
  receive fd_none killed n f p ip s = panic "fileread"
  receive fd_pipe killed n f p ip s = done (from_pipe (piperead killed n p), f, ip, s)
  receive fd_inode killed n f p ip s =
      readi sb ip f.off n s >>= λ (r, ip1, s1). done (from_inode r, advance_by r f, ip1, s1)

  -- For a process that is or is not killed.
  pub fileread : Bool → ℕ → File → Pipe → Inode → Fs → Outcome (Got × File × Inode × Fs)
  unfolding receive
  fileread killed n f p ip s =
      if not f.readable then done (not_readable, f, ip, s) else receive f.type killed n f p ip s

  -- The test of writei's result, and the next round.
  next_chunk : ℕ → ℕ → ℕ → (ℕ → ℕ → Inode → Fs → Outcome Put) → Moved ℕ × Inode × Fs → Outcome Put
  next_chunk i off n1 loop (refused, ip, s) =
      done (record { count = i; off = off; ip = ip; fs = s })
  next_chunk i off n1 loop (moved r, ip, s) =
      if r == n1 then loop (i + r) (add32 off r) ip s else panic "short filewrite"

  -- The loop of filewrite, with `left` bytes to write behind the first `i`.
  pub write_chunks : ℕ → ℕ → (ℕ → ℕ) → ℕ → ℕ → Inode → Fs → Outcome Put
  unfolding next_chunk
  write_chunks zero left src i off ip s = done (record { count = i; off = off; ip = ip; fs = s })
  write_chunks (suc rounds) left src i off ip s =
      let n1 = min left max_chunk in
      if left == 0
      then done (record { count = i; off = off; ip = ip; fs = s })
      else (writei sb ip (λ x. src (i + x)) off n1 s
          >>= next_chunk i off n1 (write_chunks rounds (left - n1) src))

  send :
      FileType
      → Bool
      → List ℕ
      → (ℕ → ℕ)
      → ℕ
      → File
      → Pipe
      → Inode
      → Fs
      → Outcome (Sent × File × Inode × Fs)
  unfolding write_chunks
  send fd_none killed cs src n f p ip s = panic "filewrite"
  send fd_pipe killed cs src n f p ip s = done (to_pipe (pipewrite killed cs p), f, ip, s)
  send fd_inode killed cs src n f p ip s =
      let left = if slt32 0 n then n else 0 in
      write_chunks left left src 0 f.off ip s >>= λ w.
      done (to_inode (if w.count == n then n else minus_one), advanced w.off f, w.ip, w.fs)

  -- `src` is the memory from `addr` on, and `cs` its first `n` bytes.
  pub filewrite :
      Bool → List ℕ → (ℕ → ℕ) → ℕ → File → Pipe → Inode → Fs → Outcome (Sent × File × Inode × Fs)
  unfolding send
  filewrite killed cs src n f p ip s =
      if not f.writable then done (not_writable, f, ip, s) else send f.type killed cs src n f p ip s
