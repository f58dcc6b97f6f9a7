-- ===== src/Fs/Files.antt =====
-- readi and writei as wholes.
use tp2_so.Prelude.{
  ℕ, zero, suc, ◌+◌, ◌-◌, ◌*◌, ◌/◌, ◌%◌, ◌<◌, ◌≤◌, ◌≡◌, ◌≢◌, ◌∙◌, refl, sym, ap, ap₂, true, false,
  ◌||◌, Bool-cases, inl, inr, List, [], ◌∷◌, ◌++◌, arith, if◌then◌else◌, ◌==◌, ltb, min, subst,
  subst₂, done, Outcome, get_or, add32,
}
use tp2_so.Bio.{Data}
use tp2_so.Fs.{Superblock, Fs, bsize, maxfile, word_at}
use tp2_so.Fs.Inode.{
  Inode, slot_addr, indirect_addr, bmap, bytes_of, read_from, readi, refused, moved,
}
use tp2_so.Fs.Content.{pointer, pointer_of, byte_at}

pub bytes_of-same :
    (n i j : ℕ) (d e : Data)
    → ((k : ℕ) → k < n → d (i + k) ≡ e (j + k))
    → bytes_of n i d ≡ bytes_of n j e
unfolding bytes_of
bytes_of-same zero i j d e h = refl
bytes_of-same (suc n) i j d e h =
    ap₂ (λ x xs. x ∷ xs) first (bytes_of-same n (i + 1) (j + 1) d e later)
  where
    first : d i ≡ e j
    first = subst₂ (λ x y. d x ≡ e y) (start i) (start j) (h 0 (omega arith))
      where
        start : (i : ℕ) → i + 0 ≡ i
        start i = omega arith

    later : (k : ℕ) → k < n → d (i + 1 + k) ≡ e (j + 1 + k)
    later k lt = subst₂ (λ x y. d x ≡ e y) left right (h (k + 1) (omega arith))
      where
        left : i + (k + 1) ≡ i + 1 + k
        left = omega arith

        right : j + (k + 1) ≡ j + 1 + k
        right = omega arith

bytes_of-append :
    (m k n i j : ℕ) (d : Data)
    → m + k ≡ n
    → i + m ≡ j
    → bytes_of m i d ++ bytes_of k j d ≡ bytes_of n i d
unfolding bytes_of
bytes_of-append zero k n i j d e f = subst₂ (λ x y. bytes_of k j d ≡ bytes_of x y d) same start refl
  where
    same : k ≡ n
    same = omega arith

    start : j ≡ i
    start = omega arith
bytes_of-append (suc m) k zero i j d e f = absurd (omega arith)
bytes_of-append (suc m) k (suc n) i j d e f =
    ap (λ xs. d i ∷ xs) (bytes_of-append m k n (i + 1) j d (omega arith) (omega arith))

module _ (sb : Superblock) where
  -- Every block of the file before its end is there.
  pub record IsFilled (s : Fs) (ip : Inode) : Type 0 where
    pub small : ip.size ≤ maxfile * bsize
    pub there : (x : ℕ) → x < ip.size → pointer s ip (pointer_of (x / bsize)) ≢ 0

  bmap-mapped :
      (s : Fs) (ip : Inode) (bn : ℕ)
      → bn < maxfile
      → pointer s ip (pointer_of bn) ≢ 0
      → bmap sb ip bn s ≡ done (pointer s ip (pointer_of bn), ip, s)
  unfolding bmap slot_addr indirect_addr pointer
  bmap-mapped s ip bn lt n = elim (Bool-cases (ltb bn 12)) [
    | inl l ↦ rw (l, wide l, direct l) refl
    | inr l ↦ rw (l, low l, inside l, shifted l, there l, word l) refl
  ]
    where
      direct : ltb bn 12 ≡ true → (get_or ip.addrs bn 0 == 0) ≡ false
      direct l = ground (arith, n)

      wide : ltb bn 12 ≡ true → ltb bn 13 ≡ true
      wide l = ground arith

      shifted : ltb bn 12 ≡ false → bn + 1 - 13 ≡ bn - 12
      shifted l = ground arith

      low : ltb bn 12 ≡ false → ltb (bn + 1) 13 ≡ false
      low l = ground arith

      inside : ltb bn 12 ≡ false → ltb (bn - 12) 128 ≡ true
      inside l = ground arith

      there : ltb bn 12 ≡ false → (get_or ip.addrs 12 0 == 0) ≡ false
      there l = ground (arith, n)

      word : ltb bn 12 ≡ false → (word_at (s.block (get_or ip.addrs 12 0)) (bn - 12) == 0) ≡ false
      word l = ground (arith, n)

  read_from-eq :
      (rounds off n : ℕ) (s : Fs) (ip : Inode)
      → IsFilled s ip
      → n < rounds
      → off + n ≤ ip.size
      → read_from sb rounds off n ip s ≡ done (bytes_of n off (byte_at s ip), ip, s)
  unfolding read_from bytes_of
  read_from-eq zero off n s ip fl h b = absurd (omega arith)
  read_from-eq (suc rounds) off n s ip fl h b = elim (Bool-cases (n == 0)) [
    | inl z ↦ let none : n ≡ 0 = ground arith in rw (z) (ap answer (nothing none))
    | inr z ↦
        rw
          (
            z,
            bmap-mapped s ip (off / bsize) (in_range z) (present z),
            read_from-eq rounds (off + min n (bsize - off % bsize))
                (n - min n (bsize - off % bsize)) s ip fl (fewer z) (omega arith),
          )
          (ap answer (chunk z))
  ]
    where
      answer : List ℕ → Outcome (List ℕ × Inode × Fs)
      answer bs = done (bs, ip, s)

      nothing : n ≡ 0 → [] ≡ bytes_of n off (byte_at s ip)
      nothing e = subst (λ k. [] ≡ bytes_of k off (byte_at s ip)) (sym e) refl

      in_range : (n == 0) ≡ false → off / bsize < maxfile
      in_range z = ground (arith, fl.small)

      present : (n == 0) ≡ false → pointer s ip (pointer_of (off / bsize)) ≢ 0
      present z = fl.there off (ground arith)

      fewer : (n == 0) ≡ false → n - min n (bsize - off % bsize) < rounds
      fewer z = ground arith

      not_null : (n == 0) ≡ false → (pointer s ip (pointer_of (off / bsize)) == 0) ≡ false
      not_null z = ground (arith, present z)

      byte :
          (n == 0) ≡ false
          → (k : ℕ) → k < min n (bsize - off % bsize)
          → s.block (pointer s ip (pointer_of (off / bsize))) (off % bsize + k)
            ≡ byte_at s ip (off + k)
      byte z k lt = unfold byte_at in rw (same_block, same_byte, not_null z) refl
        where
          same_block : (off + k) / bsize ≡ off / bsize
          same_block = omega arith

          same_byte : (off + k) % bsize ≡ off % bsize + k
          same_byte = omega arith

      chunk :
          (n == 0) ≡ false
          → bytes_of
                (min n (bsize - off % bsize))
                (off % bsize)
                (s.block (pointer s ip (pointer_of (off / bsize))))
              ++ bytes_of
                  (n - min n (bsize - off % bsize))
                  (off + min n (bsize - off % bsize))
                  (byte_at s ip)
            ≡ bytes_of n off (byte_at s ip)
      chunk z =
          ap
            (λ bs.
              bs
              ++ bytes_of (n - min n (bsize - off % bsize)) (off + min n (bsize - off % bsize))
                  (byte_at s ip))
            (bytes_of-same (min n (bsize - off % bsize)) (off % bsize) off
              (s.block (pointer s ip (pointer_of (off / bsize)))) (byte_at s ip) (byte z))
          ∙ bytes_of-append (min n (bsize - off % bsize)) (n - min n (bsize - off % bsize)) n off
              (off + min n (bsize - off % bsize)) (byte_at s ip) (omega arith) refl

  -- readi of a file that has all its blocks and is not larger than the largest file: it refuses an
  -- offset past the end and a sum `off + n` that wraps around; else it returns the bytes from `off` on,
  -- as many as there are up to `n`. It changes nothing.
  pub readi-eq :
      (s : Fs) (ip : Inode) (off n : ℕ)
      → IsFilled s ip
      → readi sb ip off n s ≡ (
          if ltb ip.size off || ltb (add32 off n) off
          then done (refused, ip, s)
          else done (moved (bytes_of (min n (ip.size - off)) off (byte_at s ip)), ip, s))
  unfolding readi
  readi-eq s ip off n fl = elim (Bool-cases (ltb ip.size off || ltb (add32 off n) off)) [
    | inl t ↦ rw (t) refl
    | inr t ↦
        rw
          (
            t,
            amount t,
            read_from-eq (min n (ip.size - off) + 1) off (min n (ip.size - off)) s ip fl
                (omega arith) (within t),
          )
          refl
  ]
    where
      amount :
          (ltb ip.size off || ltb (add32 off n) off) ≡ false
          → (if ltb ip.size (off + n) then ip.size - off else n) ≡ min n (ip.size - off)
      amount t = ground arith

      within :
          (ltb ip.size off || ltb (add32 off n) off) ≡ false → off + min n (ip.size - off) ≤ ip.size
      within t = ground arith
