-- ===== src/Fs/Updating.antt =====
-- writei as a whole: the loop, and then the inode's new size on the disk.
use tp2_so.Prelude.{
  ℕ, ◌+◌, ◌-◌, ◌*◌, ◌/◌, ◌<◌, ◌≤◌, ◌≡◌, ◌≢◌, ◌∙◌, refl, sym, ap, Bool, true, false, ◌&&◌, ◌||◌,
  Bool-cases, inl, inr, ◌⊎◌, List, arith, if◌then◌else◌, ltb, leb, min, subst, subst₂, done,
  >>=-eq-done, done-triple, Outcome, add32,
}
use tp2_so.Bio.{Data}
use tp2_so.Fs.{Superblock, Fs, bsize, maxfile}
use tp2_so.Fs.Bitmap.{IsLayout}
use tp2_so.Fs.Inode.{
  Inode, inode_block, bytes_of, put_inode, iupdate, readi, write_from, writei, grow, Moved, refused,
  moved,
}
use tp2_so.Fs.Content.{pointer, pointer_of, byte_at, IsFile}
use tp2_so.Fs.Dinode.{IsBytes, put_inode-IsBytes}
use tp2_so.Fs.Rounds.{IsWritten, write_from-IsWritten}
use tp2_so.Fs.Files.{IsFilled, readi-eq, bytes_of-same}
use tp2_so.Fs.Stored.{stored, stored-pointer, stored-IsFile, stored-byte_at}

-- The test of writei that refuses a call.
abbrev pub is_refused : Inode → ℕ → ℕ → Bool
is_refused ip off n = (ltb ip.size off || ltb (add32 off n) off) || ltb (maxfile * bsize) (off + n)

module _ (sb : Superblock) (lay : IsLayout sb) (src : ℕ → ℕ) (fit : (i : ℕ) → src i < 256) where
  -- A write of `n` bytes at `off`, all of them done.
  pub record IsUpdated (s : Fs) (ip : Inode) (off n : ℕ) (r : Moved ℕ) (ip1 : Inode) (s1 : Fs)
      : Type 0 where
    pub count : r ≡ moved n
    pub same_type : ip1.type ≡ ip.type
    pub same_inum : ip1.inum ≡ ip.inum
    pub file : IsFile sb s1 ip1
    pub size : ip1.size ≡ (if ltb ip.size (off + n) then off + n else ip.size)
    pub bytes :
        (x : ℕ)
        → x < maxfile * bsize
        → byte_at s1 ip1 x
          ≡ (if leb off x && ltb x (off + n) then src (x - off) else byte_at s ip x)
    pub there :
        (x : ℕ)
        → x < maxfile * bsize
        → off ≤ x
        → x < off + n
        → pointer s1 ip1 (pointer_of (x / bsize)) ≢ 0
    pub kept : (q : ℕ) → q < 141 → pointer s ip q ≢ 0 → pointer s1 ip1 q ≡ pointer s ip q

  abbrev from_zero :
      (s s2 : Fs) (ip ip2 : Inode) (off n : ℕ)
      → IsWritten sb lay src fit s ip 0 off n s2 ip2
      → (x : ℕ) → x < maxfile * bsize
      → byte_at s2 ip2 x ≡ (if leb off x && ltb x (off + n) then src (x - off) else byte_at s ip x)
  from_zero s s2 ip ip2 off n w x h =
      w.bytes x h
      ∙ ap (λ k. if leb off x && ltb x (off + n) then src k else byte_at s ip x) (plain (x - off))
    where
      plain : (k : ℕ) → 0 + k ≡ k
      plain k = omega arith

  grow-IsUpdated :
      (s s2 s1 : Fs) (ip ip2 ip1 : Inode) (off n : ℕ) (r : Moved ℕ)
      → inode_block sb ip.inum < sb.bmapstart
      → off ≤ ip.size
      → IsWritten sb lay src fit s ip 0 off n s2 ip2
      → grow sb (off + n) n (ip2, s2) ≡ done (r, ip1, s1)
      → IsUpdated s ip off n r ip1 s1
  unfolding grow iupdate
  grow-IsUpdated s s2 s1 ip ip2 ip1 off n r before le w e =
      elim (Bool-cases (ltb 0 n && ltb ip2.size (off + n))) [
        | inl t ↦
            let (q1, q2, q3) = done-triple (rw (t) at e) in
            subst (λ x. IsUpdated s ip off n x ip1 s1) q1
              (subst₂ (λ y z. IsUpdated s ip off n (moved n) y z) q2 q3 (longer t))
        | inr t ↦
            let (q1, q2, q3) = done-triple (rw (t) at e) in
            subst (λ x. IsUpdated s ip off n x ip1 s1) q1
              (subst₂ (λ y z. IsUpdated s ip off n (moved n) y z) q2 q3 (as_long t))
      ]
    where
      inode_before : inode_block sb ip2.inum < sb.bmapstart
      inode_before = subst (λ i. inode_block sb i < sb.bmapstart) (sym w.same_inum) before

      d : Data
      d = put_inode (record ip2 { size = off + n }) (s2.block (inode_block sb ip2.inum))

      d-IsBytes : IsBytes d
      d-IsBytes =
          put_inode-IsBytes (record ip2 { size = off + n }) (s2.block (inode_block sb ip2.inum))
            (w.file.fs.bytes (inode_block sb ip2.inum))

      same_pointer :
          (p : ℕ)
          → pointer
              (stored sb lay s2 ip2 w.file
                (inode_block sb ip2.inum)
                (off + n)
                inode_before
                d
                d-IsBytes)
              (record ip2 { size = off + n })
              p
            ≡ pointer s2 ip2 p
      same_pointer p =
          stored-pointer sb lay s2 ip2 w.file (inode_block sb ip2.inum) (off + n) inode_before d
            d-IsBytes p

      longer :
          (ltb 0 n && ltb ip2.size (off + n)) ≡ true
          → IsUpdated s ip off n
              (moved n)
              (record ip2 { size = off + n })
              (stored sb lay s2 ip2 w.file
                (inode_block sb ip2.inum)
                (off + n)
                inode_before
                d
                d-IsBytes)
      longer t = record {
        count = refl;
        same_type = w.same_type;
        same_inum = w.same_inum;
        file =
            stored-IsFile sb lay s2 ip2 w.file (inode_block sb ip2.inum) (off + n) inode_before d
              d-IsBytes;
        size = ground (arith, w.same_size);
        bytes = λ x h.
            stored-byte_at sb lay s2 ip2 w.file (inode_block sb ip2.inum) (off + n) inode_before d
              d-IsBytes x h
            ∙ from_zero s s2 ip ip2 off n w x h;
        there = λ x h b l z. w.filled x h b l (sym (same_pointer _) ∙ z);
        kept = λ q h k. same_pointer q ∙ w.kept q h k;
      }

      as_long : (ltb 0 n && ltb ip2.size (off + n)) ≡ false → IsUpdated s ip off n (moved n) ip2 s2
      as_long t = record {
        count = refl;
        same_type = w.same_type;
        same_inum = w.same_inum;
        file = w.file;
        size = ground (arith, w.same_size);
        bytes = from_zero s s2 ip ip2 off n w;
        there = w.filled;
        kept = w.kept;
      }

  -- For a well-formed file whose inode's block stands before the bitmap, on a disk with the bitmap
  -- before the data, and for a source of bytes: writei refuses an offset past the end of the file, a sum
  -- `off + n` that wraps around, and an end past the largest file, and changes nothing then. Else, if it
  -- returns, it has written all `n` bytes: they are the file's bytes from `off` on, the other bytes are
  -- as they were, the size covers the write, the written blocks are there, no pointer that was there has
  -- changed, and the file is well-formed again. A file is well-formed if its blocks are data blocks in
  -- use, each under one pointer.
  pub writei-cases :
      (s : Fs) (ip : Inode) (off n : ℕ)
      → IsFile sb s ip
      → inode_block sb ip.inum < sb.bmapstart
      → (is_refused ip off n ≡ true) × (writei sb ip src off n s ≡ done (refused, ip, s))
        ⊎ (is_refused ip off n ≡ false)
          × ((r : Moved ℕ) (ip1 : Inode) (s1 : Fs)
              → writei sb ip src off n s ≡ done (r, ip1, s1)
              → IsUpdated s ip off n r ip1 s1)
  unfolding writei
  writei-cases s ip off n wf before = elim (Bool-cases (ltb ip.size off || ltb (add32 off n) off)) [
    | inl t ↦ inl (rw (t) refl, rw (t) refl)
    | inr t ↦ elim (Bool-cases (ltb (maxfile * bsize) (off + n))) [
      | inl u ↦ inl (rw (t, u) refl, rw (t, u) refl)
      | inr u ↦ inr (
        rw (t, u) refl,
        λ r ip1 s1 e.
            let ((ip2, s2), f, g) =
              >>=-eq-done (write_from sb (n + 1) 0 off n src ip s) (grow sb (off + n) n)
                (rw (t, u) at e) in
            grow-IsUpdated s s2 s1 ip ip2 ip1 off n r before (ground arith)
              (write_from-IsWritten sb lay src fit (n + 1) 0 off n s ip s2 ip2 wf (omega arith)
                (ground arith) f)
              g,
      )
    ]
  ]

  pub updated-IsFilled :
      (s : Fs) (ip : Inode) (off n : ℕ) (r : Moved ℕ) (ip1 : Inode) (s1 : Fs)
      → IsFilled sb s ip
      → is_refused ip off n ≡ false
      → IsUpdated s ip off n r ip1 s1
      → IsFilled sb s1 ip1
  updated-IsFilled s ip off n r ip1 s1 fl ok w = record {
    small = ground (arith, w.size, fl.small);
    there = λ x h. elim (Bool-cases (ltb x ip.size)) [
      | inl l ↦
          let old : pointer s ip (pointer_of (x / bsize)) ≢ 0 = fl.there x (ground arith) in
          λ z. old (sym (w.kept (pointer_of (x / bsize)) (slot_in x h) old) ∙ z)
      | inr l ↦ w.there x (in_range x h) (past x l) (below x l h)
    ];
  }
    where
      in_range : (x : ℕ) → x < ip1.size → x < maxfile * bsize
      in_range x h = ground (arith, w.size, fl.small)

      slot_in : (x : ℕ) → x < ip1.size → pointer_of (x / bsize) < 141
      slot_in x h = let lt = in_range x h in ground arith

      past : (x : ℕ) → ltb x ip.size ≡ false → off ≤ x
      past x l = ground arith

      below : (x : ℕ) → ltb x ip.size ≡ false → x < ip1.size → x < off + n
      below x l h = ground (arith, w.size)

  -- If writei accepts and returns, readi reads back what was written. The file is well-formed and has
  -- all its blocks, its inode's block stands before the bitmap and the bitmap before the data, and the
  -- source holds bytes. The file has all its blocks again.
  pub readi-writei :
      (s s1 : Fs) (ip ip1 : Inode) (off n k : ℕ)
      → IsFile sb s ip
      → IsFilled sb s ip
      → inode_block sb ip.inum < sb.bmapstart
      → writei sb ip src off n s ≡ done (moved k, ip1, s1)
      → (readi sb ip1 off n s1 ≡ done (moved (bytes_of n 0 src), ip1, s1)) × IsFilled sb s1 ip1
  readi-writei s s1 ip ip1 off n k wf fl before e = elim (writei-cases s ip off n wf before) [
    | inl (t, f) ↦ absurd (disagree f)
    | inr (ok, w) ↦
        let u = w (moved k) ip1 s1 e in
        let fl1 = updated-IsFilled s ip off n (moved k) ip1 s1 fl ok u in
        (readi-eq sb s1 ip1 off n fl1 ∙ (rw (accepted ok u) (ap (answer) (content ok u))), fl1)
  ]
    where
      disagree : writei sb ip src off n s ≡ done (refused, ip, s) → ⊥
      disagree f = cc

      answer : List ℕ → Outcome (Moved (List ℕ) × Inode × Fs)
      answer bs = done (moved bs, ip1, s1)

      accepted :
          is_refused ip off n ≡ false
          → IsUpdated s ip off n (moved k) ip1 s1
          → (ltb ip1.size off || ltb (add32 off n) off) ≡ false
      accepted ok u = ground (arith, u.size)

      content :
          is_refused ip off n ≡ false
          → IsUpdated s ip off n (moved k) ip1 s1
          → bytes_of (min n (ip1.size - off)) off (byte_at s1 ip1) ≡ bytes_of n 0 src
      content ok u = rw (all) (bytes_of-same n off 0 (byte_at s1 ip1) src byte)
        where
          all : min n (ip1.size - off) ≡ n
          all = ground (arith, u.size)

          byte : (i : ℕ) → i < n → byte_at s1 ip1 (off + i) ≡ src (0 + i)
          byte i lt = u.bytes (off + i) (ground arith) ∙ rw (in_write, same) refl
            where
              in_write : (leb off (off + i) && ltb (off + i) (off + n)) ≡ true
              in_write = ground arith

              same : off + i - off ≡ 0 + i
              same = omega arith
