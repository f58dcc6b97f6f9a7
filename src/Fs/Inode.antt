-- ===== src/Fs/Inode.antt =====
-- fs.c: the contents of an inode. The caller holds the inode's lock, so its fields are passed along.
use tp2_so.Prelude.{
  ℕ, zero, suc, ◌+◌, ◌-◌, ◌*◌, ◌/◌, ◌%◌, Bool, true, ◌&&◌, ◌||◌, List, [], ◌∷◌, ◌++◌, if◌then◌else◌,
  ◌==◌, ltb, leb, add32, get_or, set, min, Outcome, done, panic, panic_if, ◌>>=◌, ◌>>◌,
}
use tp2_so.Bio.{Data}
use tp2_so.Fs.{
  Superblock, Fs, bsize, ndirect, nindirect, maxfile, log_block, word_at, put_word, balloc, bfree,
}

-- `struct inode`, less its lock; `addrs` has NDIRECT + 1 words.
pub record Inode : Type 0 where
  pub dev : ℕ
  pub inum : ℕ
  pub ref : ℕ
  pub valid : Bool
  pub type : ℕ
  pub major : ℕ
  pub minor : ℕ
  pub nlink : ℕ
  pub size : ℕ
  pub addrs : List ℕ

-- stat.h
abbrev pub t_dir : ℕ
t_dir = 1

abbrev pub t_dev : ℕ
t_dev = 3

abbrev pub inode_block : Superblock → ℕ → ℕ
inode_block sb inum = inum / 8 + sb.inodestart

-- A 16-bit field of a buffer, read and written.
unfoldable pub half_at : Data → ℕ → ℕ
half_at d off = d off + 256 * d (off + 1)

unfoldable pub put_half : ℕ → ℕ → Data → Data
put_half off w d j = if j == off then w % 256 else if j == off + 1 then w / 256 % 256 else d j

-- `memmove(dip->addrs, ip->addrs, sizeof(ip->addrs))`, from word `i` of the block on.
unfoldable pub put_words : ℕ → List ℕ → Data → Data
unfolding put_word
put_words i [] d = d
put_words i (w ∷ ws) d = put_words (i + 1) ws (put_word i w d)

unfoldable pub get_words : ℕ → ℕ → Data → List ℕ
unfolding word_at
get_words zero i d = []
get_words (suc n) i d = word_at d i ∷ get_words n (i + 1) d

-- `n` bytes of a buffer from `i` on, and a buffer with the bytes of `src` from `from` on put at `i`.
unfoldable pub bytes_of : ℕ → ℕ → Data → List ℕ
bytes_of zero i d = []
bytes_of (suc n) i d = d i ∷ bytes_of n (i + 1) d

unfoldable pub put_bytes : ℕ → ℕ → ℕ → (ℕ → ℕ) → Data → Data
put_bytes n i from src d j = if leb i j && ltb j (i + n) then src (from + (j - i)) else d j

-- How readi and writei return: -1, or the number of bytes.
pub data Moved {ℓ} (A : Type ℓ) : Type ℓ where
  refused : Moved A
  moved : A → Moved A

-- The inode put in its block: a `struct dinode` has 64 bytes; `addrs` starts at its 12th.
unfoldable pub put_inode : Inode → Data → Data
unfolding put_half put_word put_words
put_inode ip d =
    let at = ip.inum % 8 * 64 in
    let d1 = put_half at ip.type d in
    let d2 = put_half (at + 2) ip.major d1 in
    let d3 = put_half (at + 4) ip.minor d2 in
    let d4 = put_half (at + 6) ip.nlink d3 in
    let d5 = put_word (at / 4 + 2) ip.size d4 in put_words (at / 4 + 3) ip.addrs d5

module _ (sb : Superblock) where
  unfoldable pub iupdate : Inode → Fs → Fs
  unfolding put_inode
  iupdate ip s = let b = inode_block sb ip.inum in log_block b (put_inode ip (s.block b)) s

  -- The part of ilock that reads the inode.
  unfoldable pub ilock_read : Inode → Fs → Outcome Inode
  unfolding half_at word_at get_words
  ilock_read ip s =
      let d = s.block (inode_block sb ip.inum) in
      let at = ip.inum % 8 * 64 in
      let ip1 = record ip {
        type = half_at d at;
        major = half_at d (at + 2);
        minor = half_at d (at + 4);
        nlink = half_at d (at + 6);
        size = word_at d (at / 4 + 2);
        addrs = get_words 13 (at / 4 + 3) d;
        valid = true;
      } in
      if ip.valid then done ip else (panic_if (ip1.type == 0) "ilock: no type" >> done ip1)

  -- `if((addr = ip->addrs[i]) == 0) ip->addrs[i] = addr = balloc(ip->dev);`
  unfoldable pub slot_addr : ℕ → Inode → Fs → Outcome (ℕ × Inode × Fs)
  slot_addr i ip s =
      if get_or ip.addrs i 0 == 0
      then (balloc sb s >>= λ (a, s1). done (a, record ip { addrs = set ip.addrs i a }, s1))
      else done (get_or ip.addrs i 0, ip, s)

  -- `if((addr = a[bn]) == 0){ a[bn] = addr = balloc(ip->dev); log_write(bp); }`, in block `ind`.
  unfoldable pub indirect_addr : ℕ → ℕ → Inode → Fs → Outcome (ℕ × Inode × Fs)
  unfolding word_at put_word
  indirect_addr bn ind ip s =
      if word_at (s.block ind) bn == 0
      then (balloc sb s >>= λ (a, s1).
          done (a, ip, log_block ind (put_word bn a (s1.block ind)) s1))
      else done (word_at (s.block ind) bn, ip, s)

  unfoldable pub bmap : Inode → ℕ → Fs → Outcome (ℕ × Inode × Fs)
  unfolding slot_addr indirect_addr
  bmap ip bn s =
      if ltb bn ndirect
      then slot_addr bn ip s
      else if ltb (bn - ndirect) nindirect
      then (slot_addr ndirect ip s >>= λ (ind, ip1, s1). indirect_addr (bn - ndirect) ind ip1 s1)
      else panic "bmap: out of range"

  -- The loops of itrunc: over the direct blocks, and over the words of the indirect block.
  pub free_direct : ℕ → ℕ → Inode → Fs → Outcome (Inode × Fs)
  free_direct zero i ip s = done (ip, s)
  free_direct (suc n) i ip s =
      if get_or ip.addrs i 0 == 0
      then free_direct n (i + 1) ip s
      else (bfree sb (get_or ip.addrs i 0) s >>= λ s1.
          free_direct n (i + 1) (record ip { addrs = set ip.addrs i 0 }) s1)

  pub free_words : ℕ → ℕ → Data → Fs → Outcome Fs
  unfolding word_at
  free_words zero j d s = done s
  free_words (suc n) j d s =
      if word_at d j == 0
      then free_words n (j + 1) d s
      else (bfree sb (word_at d j) s >>= free_words n (j + 1) d)

  pub free_indirect : Inode × Fs → Outcome (Inode × Fs)
  unfolding free_words
  free_indirect (ip, s) =
      let ind = get_or ip.addrs ndirect 0 in
      if ind == 0
      then done (ip, s)
      else (free_words nindirect 0 (s.block ind) s >>= λ s1.
          bfree sb ind s1 >>= λ s2. done (record ip { addrs = set ip.addrs ndirect 0 }, s2))

  pub itrunc_done : Inode × Fs → Outcome (Inode × Fs)
  unfolding iupdate
  itrunc_done (ip, s) = let ip1 = record ip { size = 0 } in done (ip1, iupdate ip1 s)

  pub itrunc : Inode → Fs → Outcome (Inode × Fs)
  unfolding free_direct free_indirect itrunc_done
  itrunc ip s = free_direct ndirect 0 ip s >>= free_indirect >>= itrunc_done

  -- The loop of readi: what it copies out of the blocks. Each round copies at least one byte.
  unfoldable pub read_from : ℕ → ℕ → ℕ → Inode → Fs → Outcome (List ℕ × Inode × Fs)
  read_from zero off n ip s = done ([], ip, s)
  read_from (suc rounds) off n ip s =
      let m = min n (bsize - off % bsize) in
      if n == 0
      then done ([], ip, s)
      else (bmap ip (off / bsize) s >>= λ (a, ip1, s1).
          read_from rounds (off + m) (n - m) ip1 s1 >>= λ (bs, ip2, s2).
          done (bytes_of m (off % bsize) (s1.block a) ++ bs, ip2, s2))

  -- readi of a file or directory; devices are read by their drivers.
  unfoldable pub readi : Inode → ℕ → ℕ → Fs → Outcome (Moved (List ℕ) × Inode × Fs)
  readi ip off n s =
      let n1 = if ltb ip.size (off + n) then ip.size - off else n in
      if ltb ip.size off || ltb (add32 off n) off
      then done (refused, ip, s)
      else (read_from (n1 + 1) off n1 ip s >>= λ (bs, ip1, s1). done (moved bs, ip1, s1))

  -- The loop of writei; `tot` bytes of `src` have been written.
  unfoldable pub write_from : ℕ → ℕ → ℕ → ℕ → (ℕ → ℕ) → Inode → Fs → Outcome (Inode × Fs)
  write_from zero tot off n src ip s = done (ip, s)
  write_from (suc rounds) tot off n src ip s =
      let m = min n (bsize - off % bsize) in
      if n == 0
      then done (ip, s)
      else (bmap ip (off / bsize) s >>= λ (a, ip1, s1).
          write_from rounds (tot + m) (off + m) (n - m) src ip1
            (log_block a (put_bytes m (off % bsize) tot src (s1.block a)) s1))

  -- `if(n > 0 && off > ip->size){ ip->size = off; iupdate(ip); }`
  unfoldable pub grow : ℕ → ℕ → Inode × Fs → Outcome (Moved ℕ × Inode × Fs)
  grow off n (ip, s) =
      let ip1 = record ip { size = off } in
      if ltb 0 n && ltb ip.size off
      then done (moved n, ip1, iupdate ip1 s)
      else done (moved n, ip, s)

  unfoldable pub writei : Inode → (ℕ → ℕ) → ℕ → ℕ → Fs → Outcome (Moved ℕ × Inode × Fs)
  writei ip src off n s =
      if ltb ip.size off || ltb (add32 off n) off
      then done (refused, ip, s)
      else if ltb (maxfile * bsize) (off + n)
      then done (refused, ip, s)
      else (write_from (n + 1) 0 off n src ip s >>= grow (off + n) n)
