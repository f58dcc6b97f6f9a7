-- ===== src/Fs.antt =====
-- fs.c: blocks, inodes and their contents. The disk is seen through the buffer cache, as an array of
-- blocks; `logged` is the list of the blocks given to log_write, the last one first. bread and brelse
-- leave this state alone.
pub mod Bits
pub mod Bitmap
pub mod Path
pub mod Inode
pub mod Content
pub mod Mapping
pub mod Indirect
pub mod Writing
pub mod Rounds
pub mod Dinode
pub mod Files
pub mod Stored
pub mod Updating
pub mod Directory
pub mod Linking
pub mod Linked
pub mod Tests
use tp2_so.Prelude.{
  ℕ, zero, suc, ◌+◌, ◌-◌, ◌*◌, ◌/◌, ◌%◌, ◌^◌, Bool, true, false, not, ◌&&◌, ◌||◌, Option, none,
  some, List, [], ◌∷◌, if◌then◌else◌, ◌==◌, ltb, leb, add32, sub32, get_or, set, replicate, bit_and,
  bit_or, Outcome, done, panic, panic_if, ◌>>=◌, ◌>>◌,
}
use tp2_so.Bio.{Data, update}

abbrev pub bsize : ℕ
bsize = 512

abbrev pub ndirect : ℕ
ndirect = 12

abbrev pub nindirect : ℕ
nindirect = 128

abbrev pub maxfile : ℕ
maxfile = 140

-- Bitmap bits per block.
abbrev pub bpb : ℕ
bpb = 4096

pub record Superblock : Type 0 where
  pub size : ℕ
  pub nblocks : ℕ
  pub ninodes : ℕ
  pub nlog : ℕ
  pub logstart : ℕ
  pub inodestart : ℕ
  pub bmapstart : ℕ

pub record Fs : Type 0 where
  pub block : ℕ → Data
  pub logged : List ℕ

-- A buffer's new bytes, and log_write.
abbrev pub log_block : ℕ → Data → Fs → Fs
log_block b d s = record { block = update b d s.block; logged = b ∷ s.logged }

-- `((uint*)bp->data)[i]` read, and written: little-endian words.
pub word_at : Data → ℕ → ℕ
word_at d i = d (4 * i) + 256 * d (4 * i + 1) + 65536 * d (4 * i + 2) + 16777216 * d (4 * i + 3)

pub put_word : ℕ → ℕ → Data → Data
put_word i w d j =
    if j == 4 * i
    then w % 256
    else if j == 4 * i + 1
    then w / 256 % 256
    else if j == 4 * i + 2
    then w / 65536 % 256
    else if j == 4 * i + 3
    then w / 16777216 % 256
    else d j

abbrev pub zeros : Data
zeros = λ i. 0

-- bzero
abbrev pub bzero : ℕ → Fs → Fs
bzero b s = log_block b zeros s

-- `1 << (bi % 8)`
abbrev pub mask : ℕ → ℕ
mask bi = 2 ^ (bi % 8)

module _ (sb : Superblock) where
  -- BBLOCK(b, sb)
  abbrev pub bitmap_block : ℕ → ℕ
  bitmap_block b = b / bpb + sb.bmapstart

  -- `(bp->data[bi/8] & m) != 0`, for the buffer of block `bm`.
  abbrev pub bit_set : Fs → ℕ → ℕ → Bool
  bit_set s bm bi = not (bit_and (s.block bm (bi / 8)) (mask bi) == 0)

  -- The inner loop of balloc, from `bi` on, with `n` bits to go.
  pub free_bit : ℕ → ℕ → ℕ → Fs → Option ℕ
  free_bit zero b bi s = none
  free_bit (suc n) b bi s =
      let rest = free_bit n b (bi + 1) s in
      if ltb (b + bi) sb.size
      then (if bit_set s (bitmap_block b) bi then rest else some bi)
      else none

  -- `bp->data[bi/8] |= m; log_write(bp);`
  pub mark : ℕ → ℕ → Fs → Fs
  mark b bi s =
      let d = s.block (bitmap_block b) in
      log_block (bitmap_block b) (update (bi / 8) (bit_or (d (bi / 8)) (mask bi)) d) s

  -- The outer loop of balloc, from `b` on.
  pub balloc_from : ℕ → ℕ → Fs → Outcome (ℕ × Fs)
  balloc_from zero b s = panic "balloc: out of blocks"
  balloc_from (suc rounds) b s =
      let rest = balloc_from rounds (b + bpb) s in
      if ltb b sb.size
      then elim (free_bit bpb b 0 s) [
        | some bi ↦ done (b + bi, bzero (b + bi) (mark b bi s))
        | none ↦ rest
      ]
      else panic "balloc: out of blocks"

  -- balloc; there are no more rounds than bitmap blocks.
  pub balloc : Fs → Outcome (ℕ × Fs)
  balloc s = balloc_from (sb.size / bpb + 1) 0 s

  -- `bp->data[bi/8] &= ~m; log_write(bp);`
  abbrev pub unmark : ℕ → Fs → Fs
  unmark b s =
      let bi = b % bpb in
      let d = s.block (bitmap_block b) in
      log_block (bitmap_block b) (update (bi / 8) (bit_and (d (bi / 8)) (255 - mask bi)) d) s

  pub bfree : ℕ → Fs → Outcome Fs
  bfree b s =
      panic_if (not (bit_set s (bitmap_block b) (b % bpb))) "freeing free block"
      >> done (unmark b s)
