-- ===== src/Fs/Dinode.antt =====
-- iupdate and ilock: an inode on the disk, eight to a block.
use tp2_so.Prelude.{
  ℕ, zero, suc, ◌+◌, ◌-◌, ◌*◌, ◌/◌, ◌%◌, ◌^◌, ◌<◌, ◌≤◌, ◌≡◌, ◌≢◌, ◌∙◌, refl, ap, ap₂, true, false,
  Bool-cases, inl, inr, ◌⊎◌, List, [], ◌∷◌, arith, if◌then◌else◌, ◌==◌, subst, done, length,
}
use tp2_so.Bio.{Data}
use tp2_so.Fs.{Superblock, Fs, word_at, put_word}
use tp2_so.Fs.Inode.{
  Inode, inode_block, half_at, put_half, put_inode, put_words, get_words, iupdate, ilock_read,
}
use tp2_so.Fs.Content.{word_at-put_word}

-- Every byte of a buffer is one.
abbrev pub IsBytes : Data → Type 0
IsBytes d = (i : ℕ) → d i < 256

put_half-IsBytes : (off w : ℕ) (d : Data) → IsBytes d → IsBytes (put_half off w d)
unfolding put_half
put_half-IsBytes off w d h i = ground (arith, h i)

put_word-IsBytes : (k w : ℕ) (d : Data) → IsBytes d → IsBytes (put_word k w d)
unfolding put_word
put_word-IsBytes k w d h i = ground (arith, h i)

put_words-IsBytes : (k : ℕ) (ws : List ℕ) (d : Data) → IsBytes d → IsBytes (put_words k ws d)
unfolding put_words
put_words-IsBytes k [] d h i = h i
put_words-IsBytes k (w ∷ ws) d h i =
    put_words-IsBytes (k + 1) ws (put_word k w d) (put_word-IsBytes k w d h) i

-- Bytes that put_words leaves alone.
put_words-others :
    (k : ℕ) (ws : List ℕ) (d : Data) (i : ℕ)
    → (i < 4 * k) ⊎ (4 * (k + length ws) ≤ i)
    → put_words k ws d i ≡ d i
unfolding put_words put_word
put_words-others k [] d i h = refl
put_words-others k (w ∷ ws) d i h =
    put_words-others (k + 1) ws (put_word k w d) i (ground arith) ∙ ground arith

-- The words of an inode's `addrs`.
pub data AreWords : List ℕ → Type 0 where
  no_words : AreWords []
  word_cons : {w : ℕ} {ws : List ℕ} → w < 2 ^ 32 → AreWords ws → AreWords (w ∷ ws)

word_at-same :
    (i : ℕ) (d e : Data)
    → ((j : ℕ) → 4 * i ≤ j → j < 4 * i + 4 → d j ≡ e j)
    → word_at d i ≡ word_at e i
unfolding word_at
word_at-same i d e h = omega (
  arith,
  h (4 * i) (omega arith) (omega arith),
  h (4 * i + 1) (omega arith) (omega arith),
  h (4 * i + 2) (omega arith) (omega arith),
  h (4 * i + 3) (omega arith) (omega arith),
)

get_words-put_words :
    (k : ℕ) (ws : List ℕ) (d : Data) → AreWords ws → get_words (length ws) k (put_words k ws d) ≡ ws
unfolding put_words get_words
get_words-put_words k [] d h = refl
get_words-put_words k (w ∷ ws) d (word_cons lt h) =
    ap₂ (λ x xs. x ∷ xs) (first ∙ rw (word_at-put_word k k w d lt) self)
      (get_words-put_words (k + 1) ws (put_word k w d) h)
  where
    self : (if k == k then w else word_at d k) ≡ w
    self = ground arith

    first : word_at (put_words (k + 1) ws (put_word k w d)) k ≡ word_at (put_word k w d) k
    first =
        word_at-same k (put_words (k + 1) ws (put_word k w d)) (put_word k w d)
          (λ j le lt. put_words-others (k + 1) ws (put_word k w d) j (inl (omega arith)))

get_words-same :
    (n k : ℕ) (d e : Data)
    → ((j : ℕ) → 4 * k ≤ j → j < 4 * (k + n) → d j ≡ e j)
    → get_words n k d ≡ get_words n k e
unfolding get_words
get_words-same zero k d e h = refl
get_words-same (suc n) k d e h =
    ap₂ (λ x xs. x ∷ xs) (word_at-same k d e (λ j le lt. h j le (omega arith)))
      (get_words-same n (k + 1) d e (λ j le lt. h j (omega arith) (omega arith)))

-- The fields of an inode fit the disk's.
pub record Fits (ip : Inode) : Type 0 where
  pub type : ip.type < 2 ^ 16
  pub major : ip.major < 2 ^ 16
  pub minor : ip.minor < 2 ^ 16
  pub nlink : ip.nlink < 2 ^ 16
  pub size : ip.size < 2 ^ 32
  pub addrs : AreWords ip.addrs
  pub slots : length ip.addrs ≡ 13

half_at-same : (i : ℕ) (d e : Data) → d i ≡ e i → d (i + 1) ≡ e (i + 1) → half_at d i ≡ half_at e i
unfolding half_at
half_at-same i d e p q = omega arith

pub put_inode-IsBytes : (ip : Inode) (d : Data) → IsBytes d → IsBytes (put_inode ip d)
unfolding put_inode
put_inode-IsBytes ip d h = put_words-IsBytes (ip.inum % 8 * 64 / 4 + 3) ip.addrs _ (
    put_word-IsBytes (ip.inum % 8 * 64 / 4 + 2) ip.size _ (
      put_half-IsBytes (ip.inum % 8 * 64 + 6) ip.nlink _ (
        put_half-IsBytes (ip.inum % 8 * 64 + 4) ip.minor _ (
          put_half-IsBytes (ip.inum % 8 * 64 + 2) ip.major _
            (put_half-IsBytes (ip.inum % 8 * 64) ip.type d h)))))

-- The bytes of the other inodes in the block.
put_inode-others :
    (ip : Inode) (d : Data) (i : ℕ)
    → length ip.addrs ≡ 13
    → (i < ip.inum % 8 * 64) ⊎ (ip.inum % 8 * 64 + 64 ≤ i)
    → put_inode ip d i ≡ d i
unfolding put_inode put_half put_word
put_inode-others ip d i l h =
    put_words-others (ip.inum % 8 * 64 / 4 + 3) ip.addrs _ i (ground arith) ∙ ground arith

module _ (ip : Inode) (d : Data) (f : Fits ip) where
  abbrev at : ℕ
  at = ip.inum % 8 * 64

  abbrev halves : Data
  halves =
      put_half (at + 6) ip.nlink
        (put_half (at + 4) ip.minor (put_half (at + 2) ip.major (put_half at ip.type d)))

  -- The bytes before `addrs`.
  head_byte :
      (i : ℕ) → i < 12 → put_inode ip d (at + i) ≡ put_word (at / 4 + 2) ip.size halves (at + i)
  unfolding put_inode
  head_byte i lt = put_words-others (at / 4 + 3) ip.addrs _ (at + i) (inl (omega arith))

  type_stored : half_at (put_inode ip d) at ≡ ip.type
  unfolding half_at put_half put_word
  type_stored = ground (arith, head_byte 0 (omega arith), head_byte 1 (omega arith), f.type)

  major_stored : half_at (put_inode ip d) (at + 2) ≡ ip.major
  unfolding half_at put_half put_word
  major_stored = ground (arith, head_byte 2 (omega arith), head_byte 3 (omega arith), f.major)

  minor_stored : half_at (put_inode ip d) (at + 4) ≡ ip.minor
  unfolding half_at put_half put_word
  minor_stored = ground (arith, head_byte 4 (omega arith), head_byte 5 (omega arith), f.minor)

  nlink_stored : half_at (put_inode ip d) (at + 6) ≡ ip.nlink
  unfolding half_at put_half put_word
  nlink_stored = ground (arith, head_byte 6 (omega arith), head_byte 7 (omega arith), f.nlink)

  size_stored : word_at (put_inode ip d) (at / 4 + 2) ≡ ip.size
  size_stored =
      word_at-same (at / 4 + 2) (put_inode ip d) (put_word (at / 4 + 2) ip.size halves) same_byte
      ∙ (word_at-put_word (at / 4 + 2) (at / 4 + 2) ip.size halves f.size ∙ self)
    where
      same_byte :
          (j : ℕ)
          → 4 * (at / 4 + 2) ≤ j
          → j < 4 * (at / 4 + 2) + 4
          → put_inode ip d j ≡ put_word (at / 4 + 2) ip.size halves j
      same_byte j le lt =
          subst (λ k. put_inode ip d k ≡ put_word (at / 4 + 2) ip.size halves k) offset
            (head_byte (j - at) (omega arith))
        where
          offset : at + (j - at) ≡ j
          offset = omega arith

      self : (if at / 4 + 2 == at / 4 + 2 then ip.size else word_at halves (at / 4 + 2)) ≡ ip.size
      self = ground arith

  addrs_stored : get_words 13 (at / 4 + 3) (put_inode ip d) ≡ ip.addrs
  unfolding put_inode
  addrs_stored =
      subst (λ n. get_words n (at / 4 + 3) (put_inode ip d) ≡ ip.addrs) f.slots
        (get_words-put_words (at / 4 + 3) ip.addrs _ f.addrs)

module _ (sb : Superblock) where
  -- What iupdate has written, ilock reads back into an entry for the same inode that is not valid: if
  -- the fields fit the disk's and the type is not 0, the result is the inode that was written, with the
  -- entry's own `dev` and `ref`, and valid.
  pub ilock_read-iupdate :
      (ip ip1 : Inode) (s : Fs)
      → Fits ip
      → ip.type ≢ 0
      → ip1.inum ≡ ip.inum
      → ip1.valid ≡ false
      → ilock_read sb ip1 (iupdate sb ip s)
        ≡ done (record ip { dev = ip1.dev; ref = ip1.ref; valid = true })
  unfolding ilock_read iupdate
  ilock_read-iupdate ip ip1 s f n same not_valid =
      rw
        (
          same,
          not_valid,
          self,
          type_stored ip d f,
          major_stored ip d f,
          minor_stored ip d f,
          nlink_stored ip d f,
          size_stored ip d f,
          addrs_stored ip d f,
          typed,
        )
        refl
    where
      d : Data
      d = s.block (inode_block sb ip.inum)

      self : (inode_block sb ip.inum == inode_block sb ip.inum) ≡ true
      self = ground arith

      typed : (ip.type == 0) ≡ false
      typed = ground arith

  ilock_read-same :
      (ip : Inode) (s t : Fs)
      → ((i : ℕ)
          → ip.inum % 8 * 64 ≤ i
          → i < ip.inum % 8 * 64 + 64
          → s.block (inode_block sb ip.inum) i ≡ t.block (inode_block sb ip.inum) i)
      → ilock_read sb ip s ≡ ilock_read sb ip t
  unfolding ilock_read
  ilock_read-same ip s t h =
      rw
        (
          type_same,
          half 2 (omega arith),
          half 4 (omega arith),
          half 6 (omega arith),
          size_same,
          addrs_same,
        )
        refl
    where
      b : ℕ
      b = inode_block sb ip.inum

      first : ℕ
      first = ip.inum % 8 * 64

      half : (o : ℕ) → o < 63 → half_at (s.block b) (first + o) ≡ half_at (t.block b) (first + o)
      half o lt =
          half_at-same (first + o) (s.block b) (t.block b)
            (h (first + o) (omega arith) (omega arith))
            (h (first + o + 1) (omega arith) (omega arith))

      type_same : half_at (s.block b) first ≡ half_at (t.block b) first
      type_same =
          half_at-same first (s.block b) (t.block b) (h first (omega arith) (omega arith))
            (h (first + 1) (omega arith) (omega arith))

      size_same : word_at (s.block b) (first / 4 + 2) ≡ word_at (t.block b) (first / 4 + 2)
      size_same =
          word_at-same (first / 4 + 2) (s.block b) (t.block b)
            (λ j le lt. h j (omega arith) (omega arith))

      addrs_same :
          get_words 13 (first / 4 + 3) (s.block b) ≡ get_words 13 (first / 4 + 3) (t.block b)
      addrs_same =
          get_words-same 13 (first / 4 + 3) (s.block b) (t.block b)
            (λ j le lt. h j (omega arith) (omega arith))

  -- iupdate leaves every other inode on the disk as it was, in its block and in the others.
  pub ilock_read-iupdate_other :
      (ip ip1 : Inode) (s : Fs)
      → length ip.addrs ≡ 13
      → ip1.inum ≢ ip.inum
      → ilock_read sb ip1 (iupdate sb ip s) ≡ ilock_read sb ip1 s
  unfolding iupdate
  ilock_read-iupdate_other ip ip1 s l n = ilock_read-same ip1 (iupdate sb ip s) s (λ i le lt.
      elim (Bool-cases (inode_block sb ip.inum == inode_block sb ip1.inum)) [
        | inr e ↦ rw (e) refl
        | inl e ↦ rw (e) (
            put_inode-others ip (s.block (inode_block sb ip.inum)) i l (apart i e le lt)
            ∙ ap (λ b. s.block b i) (same e))
      ])
    where
      same :
          (inode_block sb ip.inum == inode_block sb ip1.inum) ≡ true
          → inode_block sb ip.inum ≡ inode_block sb ip1.inum
      same e = ground arith

      apart :
          (i : ℕ)
          → (inode_block sb ip.inum == inode_block sb ip1.inum) ≡ true
          → ip1.inum % 8 * 64 ≤ i
          → i < ip1.inum % 8 * 64 + 64
          → (i < ip.inum % 8 * 64) ⊎ (ip.inum % 8 * 64 + 64 ≤ i)
      apart i e le lt = ground arith
