-- ===== src/Log.antt =====
-- log.c: the redo log of the file system, over a disk that can lose power after any write.
pub mod Space
pub mod Blocks
pub mod Crash
pub mod Tests
use tp2_so.Prelude.{
  ℕ, zero, suc, ◌+◌, ◌-◌, ◌*◌, ◌≤◌, ◌<◌, Bool, true, false, not, ◌&&◌, ◌||◌, Option, none, some,
  List, [], ◌∷◌, ◌++◌, if◌then◌else◌, ◌==◌, leb, add32, sub32, mul32, slt32, length, take, Outcome,
  done, panic, panic_if, ◌>>=◌, ◌>>◌,
}

-- param.h
abbrev pub maxopblocks : ℕ
maxopblocks = 10

abbrev pub logsize : ℕ
logsize = 30

-- A disk block of BSIZE bytes, as its 128 words of 32 bits.
abbrev pub Block : Type 0
Block = List ℕ

abbrev pub update : (ℕ → Block) → ℕ → Block → ℕ → Block
update f b v c = if b == c then v else f c

-- What bread returns for each block (the cached copy, or the disk's), the disk itself, and the
-- number of writes that reach the disk before the power fails. A block in the log is pinned in the
-- cache by B_DIRTY, so a cached copy that differs from the disk is not lost while there is power.
pub record Machine : Type 0 where
  pub memory : ℕ → Block
  pub disk : ℕ → Block
  pub power : ℕ

-- bwrite, with the new contents of the buffer.
pub bwrite : ℕ → Block → Machine → Machine
bwrite b v m = record {
  memory = update m.memory b v;
  disk = if m.power == 0 then m.disk else update m.disk b v;
  power = m.power - 1;
}

-- `struct log`, less its lock; `lh` holds the first `n` entries of `lh.block`, and its length is `n`.
pub record Log : Type 0 where
  pub start : ℕ
  pub size : ℕ
  pub outstanding : ℕ
  pub committing : Bool
  pub lh : List ℕ

-- The words of a header block: `n`, then the entries, over what the block held.
pub put_words : List ℕ → Block → Block
put_words [] old = old
put_words (x ∷ xs) [] = []
put_words (x ∷ xs) (o ∷ old) = x ∷ put_words xs old

pub put_head : List ℕ → Block → Block
unfolding put_words
put_head lh old = put_words (length lh ∷ lh) old

-- read_head: the entries that the block's first word counts.
pub get_head : Block → List ℕ
get_head [] = []
get_head (n ∷ words) = take n words

-- write_head
pub write_head : ℕ → List ℕ → Machine → Machine
unfolding bwrite put_head
write_head start lh m = bwrite start (put_head lh (m.memory start)) m

-- write_log: from entry `tail` on, each cached block goes to its block of the log.
pub write_log : ℕ → ℕ → List ℕ → Machine → Machine
unfolding bwrite
write_log start tail [] m = m
write_log start tail (b ∷ bs) m =
    write_log start (tail + 1) bs (bwrite (start + tail + 1) (m.memory b) m)

-- install_trans: each block of the log goes to its home.
pub install_trans : ℕ → ℕ → List ℕ → Machine → Machine
unfolding bwrite
install_trans start tail [] m = m
install_trans start tail (b ∷ bs) m =
    install_trans start (tail + 1) bs (bwrite b (m.memory (start + tail + 1)) m)

-- commit; what it leaves in `lh` is the empty list.
pub commit : ℕ → List ℕ → Machine → Machine
unfolding write_log write_head install_trans
commit start [] m = m
commit start (b ∷ bs) m =
    write_head start []
      (install_trans start 0 (b ∷ bs) (write_head start (b ∷ bs) (write_log start 0 (b ∷ bs) m)))

-- recover_from_log
pub recover_from_log : ℕ → Machine → Machine
unfolding get_head install_trans write_head
recover_from_log start m = write_head start [] (install_trans start 0 (get_head (m.memory start)) m)

-- A boot: the cache is empty, so bread returns what is on the disk.
abbrev pub reboot : (ℕ → Block) → ℕ → Machine
reboot d power = record { memory = d; disk = d; power = power }

-- One turn of begin_op's loop: the operation starts, or it sleeps and looks again when it is woken.
pub data Begun : Type 0 where
  begun : Log → Begun
  waits : Begun

pub begin_op : Log → Begun
begin_op l =
    if l.committing
    then waits
    else if slt32 logsize (add32 (length l.lh) (mul32 (add32 l.outstanding 1) maxopblocks))
    then waits
    else begun (record l { outstanding = add32 l.outstanding 1 })

-- end_op up to the release of the lock: the log, and whether this caller commits.
pub end_op : Log → Outcome (Log × Bool)
end_op l =
    panic_if l.committing "log.committing"
    >> (let l1 = record l { outstanding = sub32 l.outstanding 1 } in
        if l1.outstanding == 0
        then done (record l1 { committing = true }, true)
        else done (l1, false))

-- The rest of end_op where `do_commit` is set.
pub finish_commit : Log → Machine → Log × Machine
unfolding commit
finish_commit l m = (record l { committing = false; lh = [] }, commit l.start l.lh m)

-- The search of log_write through the logged blocks: the new list.
pub absorb : ℕ → List ℕ → List ℕ
absorb b [] = b ∷ []
absorb b (c ∷ bs) = if c == b then b ∷ bs else c ∷ absorb b bs

pub log_write : ℕ → Log → Outcome Log
unfolding absorb
log_write b l =
    panic_if (leb logsize (length l.lh) || leb l.size (length l.lh + 1)) "too big a transaction"
    >> panic_if (slt32 l.outstanding 1) "log_write outside of trans"
    >> done (record l { lh = absorb b l.lh })
