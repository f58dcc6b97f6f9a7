-- ===== src/Fs/Rounds.antt =====
-- The loop of writei, over the blocks.
use tp2_so.Prelude.{
  ℕ, zero, suc, ◌+◌, ◌-◌, ◌*◌, ◌/◌, ◌%◌, ◌<◌, ◌≤◌, ◌≡◌, ◌≢◌, ◌∙◌, refl, sym, ap, true, false, ◌&&◌,
  Bool-cases, inl, inr, ◌⊎◌, arith, if◌then◌else◌, ◌==◌, ltb, leb, min, subst, subst₂, done,
  >>=-eq-done, done-pair,
}
use tp2_so.Fs.{Superblock, Fs, bsize, maxfile, log_block}
use tp2_so.Fs.Bitmap.{IsLayout}
use tp2_so.Fs.Inode.{Inode, bmap, put_bytes, write_from}
use tp2_so.Fs.Content.{pointer, pointer_of, byte_at, IsFile}
use tp2_so.Fs.Mapping.{IsMapped}
use tp2_so.Fs.Indirect.{bmap-IsMapped}
use tp2_so.Fs.Writing.{
  spliced, put_block, in_range, put_block-pointer, put_block-IsFile, put_block-byte_at,
}

module _ (sb : Superblock) (lay : IsLayout sb) (src : ℕ → ℕ) (fit : (i : ℕ) → src i < 256) where
  -- What the loop of writei has done.
  pub record IsWritten (s : Fs) (ip : Inode) (tot off n : ℕ) (s1 : Fs) (ip1 : Inode) : Type 0 where
    pub file : IsFile sb s1 ip1
    pub same_size : ip1.size ≡ ip.size
    pub same_inum : ip1.inum ≡ ip.inum
    pub same_type : ip1.type ≡ ip.type
    pub bytes :
        (x : ℕ)
        → x < maxfile * bsize
        → byte_at s1 ip1 x ≡ spliced sb lay src fit (byte_at s ip) tot off n x
    pub filled :
        (x : ℕ)
        → x < maxfile * bsize
        → off ≤ x
        → x < off + n
        → pointer s1 ip1 (pointer_of (x / bsize)) ≢ 0
    pub kept : (q : ℕ) → q < 141 → pointer s ip q ≢ 0 → pointer s1 ip1 q ≡ pointer s ip q

  nothing-IsWritten :
      (s : Fs) (ip : Inode) (tot off n : ℕ) → IsFile sb s ip → n ≡ 0 → IsWritten s ip tot off n s ip
  nothing-IsWritten s ip tot off n wf e = record {
    file = wf;
    same_size = refl;
    same_inum = refl;
    same_type = refl;
    bytes = λ x h. rw (none x) refl;
    filled = λ x h b l. absurd (omega arith);
    kept = λ q h k. refl;
  }
    where
      none : (x : ℕ) → (leb off x && ltb x (off + n)) ≡ false
      none x = ground arith

  spliced_twice :
      (old : ℕ → ℕ) (tot off n m x : ℕ)
      → m ≤ n
      → spliced sb lay src fit (spliced sb lay src fit old tot off m) (tot + m) (off + m) (n - m) x
        ≡ spliced sb lay src fit old tot off n x
  spliced_twice old tot off n m x h =
      elim (Bool-cases (leb (off + m) x && ltb x (off + m + (n - m)))) [
        | inl l ↦ rw (l, late l, same l) refl
        | inr l ↦ rw (l) (elim (Bool-cases (leb off x && ltb x (off + m))) [
          | inl e ↦ rw (e, early e) refl
          | inr e ↦ rw (e, outside l e) refl
        ])
      ]
    where
      late :
          (leb (off + m) x && ltb x (off + m + (n - m))) ≡ true
          → (leb off x && ltb x (off + n)) ≡ true
      late l = ground arith

      same :
          (leb (off + m) x && ltb x (off + m + (n - m))) ≡ true
          → tot + m + (x - (off + m)) ≡ tot + (x - off)
      same l = ground arith

      early : (leb off x && ltb x (off + m)) ≡ true → (leb off x && ltb x (off + n)) ≡ true
      early e = ground arith

      outside :
          (leb (off + m) x && ltb x (off + m + (n - m))) ≡ false
          → (leb off x && ltb x (off + m)) ≡ false
          → (leb off x && ltb x (off + n)) ≡ false
      outside l e = ground arith

  -- One round, and the others after it.
  round-IsWritten :
      (s : Fs) (ip : Inode) (tot off n m a : ℕ) (s2 s3 : Fs) (ip2 ip3 : Inode)
      → (range : off < maxfile * bsize) → (within : m ≤ bsize - off % bsize) → m ≤ n
      → (m ≡ n) ⊎ (m ≡ bsize - off % bsize)
      → (mp : IsMapped sb lay s ip (pointer_of (off / bsize)) a s2 ip2)
      → IsWritten
          (put_block sb lay src fit s2 ip2 mp.file tot off m a range within mp.at mp.nonzero)
          ip2
          (tot + m)
          (off + m)
          (n - m)
          s3
          ip3
      → IsWritten s ip tot off n s3 ip3
  round-IsWritten s ip tot off n m a s2 s3 ip2 ip3 range within le full mp w = record {
    file = w.file;
    same_size = w.same_size ∙ mp.same_size;
    same_inum = w.same_inum ∙ mp.same_inum;
    same_type = w.same_type ∙ mp.same_type;
    bytes = λ x h. w.bytes x h ∙ (step x h ∙ spliced_twice (byte_at s ip) tot off n m x le);
    filled = λ x h b l. elim (Bool-cases (x / bsize == off / bsize)) [
      | inl e ↦
          let same : off / bsize ≡ x / bsize = ground arith in
          subst (λ k. pointer s3 ip3 (pointer_of k) ≢ 0) same this_slot
      | inr e ↦ w.filled x h (past x e b l full) (omega arith)
    ];
    kept = λ q h k.
        let e = mp.kept q h k in
        w.kept q h (λ z. k (sym e ∙ (sym (moved_pointer q) ∙ z))) ∙ (moved_pointer q ∙ e);
  }
    where
      after : Fs
      after = put_block sb lay src fit s2 ip2 mp.file tot off m a range within mp.at mp.nonzero

      moved_pointer : (q : ℕ) → pointer after ip2 q ≡ pointer s2 ip2 q
      moved_pointer q =
          put_block-pointer sb lay src fit s2 ip2 mp.file tot off m a range within mp.at mp.nonzero
            q

      step :
          (x : ℕ)
          → x < maxfile * bsize
          → spliced sb lay src fit (byte_at after ip2) (tot + m) (off + m) (n - m) x
            ≡ spliced sb lay src fit
                (spliced sb lay src fit (byte_at s ip) tot off m)
                (tot + m)
                (off + m)
                (n - m)
                x
      step x h =
          ap
            (λ y.
              if leb (off + m) x && ltb x (off + m + (n - m))
              then src (tot + m + (x - (off + m)))
              else y)
            (put_block-byte_at sb lay src fit s2 ip2 mp.file tot off m a range within mp.at
                mp.nonzero x h
              ∙ ap (λ y. if leb off x && ltb x (off + m) then src (tot + (x - off)) else y)
                  (mp.same_bytes x h))

      this_range : pointer_of (off / bsize) < 141
      this_range =
          in_range sb lay src fit s2 ip2 mp.file tot off m a range within mp.at mp.nonzero off range

      this_slot : pointer s3 ip3 (pointer_of (off / bsize)) ≢ 0
      this_slot z = mp.nonzero (
          sym mp.at
          ∙ (sym (moved_pointer _)
              ∙ (sym (
                    w.kept (pointer_of (off / bsize)) this_range
                      (λ y. mp.nonzero (sym mp.at ∙ (sym (moved_pointer _) ∙ y))))
                  ∙ z)))

      past :
          (x : ℕ)
          → (x / bsize == off / bsize) ≡ false
          → off ≤ x
          → x < off + n
          → (m ≡ n) ⊎ (m ≡ bsize - off % bsize)
          → off + m ≤ x
      past x e b l f = ground arith

  pub write_from-IsWritten :
      (rounds tot off n : ℕ) (s : Fs) (ip : Inode) (s1 : Fs) (ip1 : Inode)
      → IsFile sb s ip
      → n < rounds
      → off + n ≤ maxfile * bsize
      → write_from sb rounds tot off n src ip s ≡ done (ip1, s1)
      → IsWritten s ip tot off n s1 ip1
  unfolding write_from
  write_from-IsWritten zero tot off n s ip s1 ip1 wf h b e = absurd (omega arith)
  write_from-IsWritten (suc rounds) tot off n s ip s1 ip1 wf h b e = elim (Bool-cases (n == 0)) [
    | inl z ↦
        let (q1, q2) = done-pair (rw (z) at e) in
        subst₂ (λ i t. IsWritten s ip tot off n t i) q1 q2
          (nothing-IsWritten s ip tot off n wf (ground arith))
    | inr z ↦
        let ((a, ip2, s2), f, g) =
          >>=-eq-done (bmap sb ip (off / bsize) s)
            (λ (a, ip1, s1).
              write_from sb rounds (tot + min n (bsize - off % bsize))
                (off + min n (bsize - off % bsize)) (n - min n (bsize - off % bsize)) src ip1
                (log_block a
                  (put_bytes (min n (bsize - off % bsize)) (off % bsize) tot src (s1.block a)) s1))
            (rw (z) at e) in
        let positive : n ≢ 0 = ground arith in
        let mp = bmap-IsMapped sb lay s ip (off / bsize) a s2 ip2 wf (omega arith) f in
        let range : off < maxfile * bsize = omega arith in
        let within : min n (bsize - off % bsize) ≤ bsize - off % bsize = omega arith in
        round-IsWritten s ip tot off n (min n (bsize - off % bsize)) a s2 s1 ip2 ip1 range within
          (omega arith) (ground arith) mp
          (write_from-IsWritten rounds (tot + min n (bsize - off % bsize))
            (off + min n (bsize - off % bsize)) (n - min n (bsize - off % bsize))
            (put_block sb lay src fit s2 ip2 mp.file tot off (min n (bsize - off % bsize)) a range
              within mp.at mp.nonzero)
            ip2 s1 ip1
            (put_block-IsFile sb lay src fit s2 ip2 mp.file tot off (min n (bsize - off % bsize)) a
              range within mp.at mp.nonzero)
            (omega arith) (omega arith) g)
  ]
