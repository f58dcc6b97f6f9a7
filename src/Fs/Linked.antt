-- ===== src/Fs/Linked.antt =====
-- fs.c: dirlookup after dirlink.
use tp2_so.Prelude.{
  ℕ, zero, suc, ◌+◌, ◌-◌, ◌*◌, ◌/◌, ◌%◌, ◌^◌, ◌<◌, ◌≤◌, ◌≡◌, ◌≢◌, ◌∙◌, refl, sym, ap, ap₂, subst,
  Bool, true, false, ◌&&◌, Bool-cases, inl, inr, some, List, [], ◌∷◌, arith, ◌==◌, ltb, leb, length,
  get_or, add32, sub32, Outcome, done, panic, ◌>>=◌, >>=-eq-done, done-triple, subst₂,
}
use tp2_so.Str.{strncmp, strncpy, pad}
use tp2_so.Fs.{Superblock, Fs, maxfile, bsize}
use tp2_so.Fs.Bitmap.{IsLayout}
use tp2_so.Fs.Path.{dirsiz}
use tp2_so.Fs.Inode.{Inode, t_dir, inode_block, readi, writei, bytes_of, Moved, refused, moved}
use tp2_so.Fs.Content.{byte_at, IsFile}
use tp2_so.Fs.Files.{IsFilled, bytes_of-same}
use tp2_so.Fs.Updating.{IsUpdated, writei-cases, updated-IsFilled}
use tp2_so.Fs.Directory.{
  entry_size, entry_inum, is_match, whole_entry, dirlookup, entry, readi-entry, dirlookup-Searched,
  length-bytes_of,
}
use tp2_so.Fs.Linking.{
  new_entry, entry_byte, all_written, empty_from, link_new, link_absent, dirlink,
}

strncmp-strncpy : (n : ℕ) (name : List ℕ) → strncmp name (strncpy name n) n ≡ 0
unfolding strncmp strncpy pad
strncmp-strncpy zero name = refl
strncmp-strncpy (suc n) [] = refl
strncmp-strncpy (suc n) (c ∷ name) = elim (Bool-cases (c == 0)) [
  | inl e ↦ rw (e) (self_sub e)
  | inr e ↦ rw (e, self) (strncmp-strncpy n name)
]
  where
    self_sub : (c == 0) ≡ true → sub32 c c ≡ 0
    self_sub e = ground arith

    self : (c == c) ≡ true
    self = ground arith

length-pad : (n : ℕ) → length (pad n) ≡ n
unfolding pad
length-pad zero = refl
length-pad (suc n) = ap suc (length-pad n)

length-strncpy : (n : ℕ) (name : List ℕ) → length (strncpy name n) ≡ n
unfolding strncpy
length-strncpy zero name = refl
length-strncpy (suc n) [] = ap suc (length-pad n)
length-strncpy (suc n) (c ∷ name) = elim (Bool-cases (c == 0)) [
  | inl e ↦ rw (e) (ap suc (length-pad n))
  | inr e ↦ rw (e) (ap suc (length-strncpy n name))
]

-- The bytes at which a list stands.
bytes_of-get_or :
    (xs : List ℕ) (i : ℕ) (d : ℕ → ℕ)
    → ((k : ℕ) → k < length xs → d (i + k) ≡ get_or xs k 0)
    → bytes_of (length xs) i d ≡ xs
unfolding bytes_of
bytes_of-get_or [] i d h = refl
bytes_of-get_or (x ∷ xs) i d h =
    ap₂ (λ y ys. y ∷ ys) (subst (λ j. d j ≡ x) here (h 0 (omega arith)))
      (bytes_of-get_or xs (i + 1) d
        (λ k lt. subst (λ j. d j ≡ get_or xs k 0) (there k) (h (suc k) (omega arith))))
  where
    here : i + 0 ≡ i
    here = omega arith

    there : (k : ℕ) → i + suc k ≡ i + 1 + k
    there k = omega arith

module _ (sb : Superblock) (s : Fs) (dp : Inode) (fl : IsFilled sb s dp)
    (whole : dp.size % entry_size ≡ 0) where
  -- The offset found is that of an entry, or the end.
  empty_from-entry :
      (name : List ℕ) (rounds i : ℕ)
      → dp.size / entry_size < rounds + i
      → entry_size * i ≤ dp.size
      → (k : ℕ) × (entry_size * k ≤ dp.size)
        × (empty_from sb rounds (entry_size * i) dp s ≡ done (entry_size * k, dp, s))
  unfolding empty_from
  empty_from-entry name zero i h le = (i, le, refl)
  empty_from-entry name (suc rounds) i h le = elim (Bool-cases (ltb (entry_size * i) dp.size)) [
    | inr e ↦ (i, le, rw (e) refl)
    | inl e ↦ elim (Bool-cases (entry_inum (entry sb name s dp fl whole i) == 0)) [
      | inl z ↦ (i, le, rw (e, reads e, size_is, whole_entry, z) refl)
      | inr z ↦
          let (k, l, r) = empty_from-entry name rounds (i + 1) (omega arith) (further e) in
          (k, l, rw (e, reads e, size_is, whole_entry, z, next e) r)
    ]
  ]
    where
      reads :
          ltb (entry_size * i) dp.size ≡ true
          → readi sb dp (entry_size * i) entry_size s
            ≡ done (moved (entry sb name s dp fl whole i), dp, s)
      reads e = readi-entry sb name s dp fl whole i (ground arith)

      size_is : length (entry sb name s dp fl whole i) ≡ entry_size
      size_is = length-bytes_of sb name entry_size (entry_size * i) (byte_at s dp)

      further : ltb (entry_size * i) dp.size ≡ true → entry_size * (i + 1) ≤ dp.size
      further e = ground (arith, whole)

      next :
          ltb (entry_size * i) dp.size ≡ true
          → add32 (entry_size * i) entry_size ≡ entry_size * (i + 1)
      next e = ground (arith, fl.small)

module _ (sb : Superblock) (lay : IsLayout sb) (name : List ℕ) (inum : ℕ)
    (fit : (i : ℕ) → entry_byte name inum i < 256) (some_inum : inum ≢ 0)
    (half : inum < 2 ^ 16) where
  new_entry-length : length (new_entry name inum) ≡ entry_size
  new_entry-length = let l = length-strncpy dirsiz name in omega arith

  new_entry-is_match : is_match name (new_entry name inum) ≡ true
  new_entry-is_match = rw (used, strncmp-strncpy dirsiz name) refl
    where
      used : (inum % 256 + 256 * (inum / 256 % 256) == 0) ≡ false
      used = ground arith

  -- The entries after a write of one of them.
  module _ (s s1 : Fs) (dp dp1 : Inode) (k : ℕ) (r : Moved ℕ) (fl : IsFilled sb s dp)
      (fl1 : IsFilled sb s1 dp1) (whole : dp.size % entry_size ≡ 0)
      (in_file : entry_size * k ≤ dp.size)
      (u : IsUpdated sb lay
        (entry_byte name inum)
        fit
        s
        dp
        (entry_size * k)
        entry_size
        r
        dp1
        s1) where
    whole1 : dp1.size % entry_size ≡ 0
    whole1 = ground (arith, u.size, whole)

    in_file1 : entry_size * k < dp1.size
    in_file1 = ground (arith, u.size)

    entry_written : entry sb name s1 dp1 fl1 whole1 k ≡ new_entry name inum
    entry_written =
        subst (λ n. bytes_of n (entry_size * k) (byte_at s1 dp1) ≡ new_entry name inum)
          new_entry-length
          (bytes_of-get_or (new_entry name inum) (entry_size * k) (byte_at s1 dp1) (λ j lt.
            u.bytes (entry_size * k + j) (in_max j (short j lt))
            ∙ (rw (inside j (short j lt), back j) refl)))
      where
        short : (j : ℕ) → j < length (new_entry name inum) → j < entry_size
        short j lt = subst (λ n. j < n) new_entry-length lt

        in_max : (j : ℕ) → j < entry_size → entry_size * k + j < maxfile * bsize
        in_max j lt = omega (arith, in_file1, fl1.small, whole1)

        inside :
            (j : ℕ)
            → j < entry_size
            → (leb (entry_size * k) (entry_size * k + j)
                && ltb (entry_size * k + j) (entry_size * k + entry_size))
              ≡ true
        inside j lt = ground arith

        back : (j : ℕ) → entry_size * k + j - entry_size * k ≡ j
        back j = omega arith

    entry_kept :
        (j : ℕ)
        → entry_size * j < dp1.size
        → (j == k) ≡ false
        → entry sb name s1 dp1 fl1 whole1 j ≡ entry sb name s dp fl whole j
    entry_kept j lt n =
        bytes_of-same entry_size (entry_size * j) (entry_size * j) (byte_at s1 dp1) (byte_at s dp)
          (λ i h. u.bytes (entry_size * j + i) (in_max i h) ∙ rw (outside i h) refl)
      where
        in_max : (i : ℕ) → i < entry_size → entry_size * j + i < maxfile * bsize
        in_max i h = omega (arith, fl1.small, whole1)

        outside :
            (i : ℕ)
            → i < entry_size
            → (leb (entry_size * k) (entry_size * j + i)
                && ltb (entry_size * j + i) (entry_size * k + entry_size))
              ≡ false
        outside i h = ground arith

    older : (j : ℕ) → entry_size * j < dp1.size → (j == k) ≡ false → entry_size * j < dp.size
    older j lt n = ground (arith, u.size, whole)

    found_again :
        dp.type ≡ t_dir
        → ((j : ℕ)
            → 0 ≤ j
            → entry_size * j < dp.size
            → is_match name (entry sb name s dp fl whole j) ≡ false)
        → dirlookup sb name dp1 s1 ≡ done (some (inum, entry_size * k), dp1, s1)
    found_again dir absent =
        elim (dirlookup-Searched sb name s1 dp1 fl1 whole1 (u.same_type ∙ dir)) [
          | inr (_, all) ↦ absurd (
              differ (ap (is_match name) entry_written ∙ new_entry-is_match)
                (all k (omega arith) in_file1))
          | inl (j, _, lt, res, m, _) ↦ elim (Bool-cases (j == k)) [
            | inl e ↦
                let same : j ≡ k = ground arith in
                res
                ∙ ap (λ x. done (some x, dp1, s1))
                    (ap₂ (λ x y. (x, y))
                      (ap (λ i. entry_inum (entry sb name s1 dp1 fl1 whole1 i)) same
                        ∙ (ap entry_inum entry_written ∙ number))
                      (ap (λ i. entry_size * i) same))
            | inr e ↦ absurd (
                differ m
                  (ap (is_match name) (entry_kept j lt e) ∙ absent j (omega arith) (older j lt e)))
          ]
        ]
      where
        differ : {t : Bool} → t ≡ true → t ≡ false → ⊥
        differ p q = cc

        number : inum % 256 + 256 * (inum / 256 % 256) ≡ inum
        number = omega arith

  all_written-done :
      (r : Moved ℕ) (dp dp1 : Inode) (s s1 : Fs)
      → all_written (r, dp, s) ≡ done (true, dp1, s1)
      → (n : ℕ) × (r ≡ moved n) × (dp ≡ dp1) × (s ≡ s1)
  unfolding all_written
  all_written-done refused dp dp1 s s1 e = cc
  all_written-done (moved n) dp dp1 s s1 e = elim (Bool-cases (n == entry_size)) [
    | inl t ↦ let (_, q1, q2) = done-triple (rw (t) at e) in (n, refl, q1, q2)
    | inr t ↦ absurd (panics (rw (t) at e))
  ]
    where
      panics : ◌≡◌ {A = Outcome (Bool × Inode × Fs)} (panic "dirlink") (done (true, dp1, s1)) → ⊥
      panics q = cc

  module _ (s : Fs) (dp : Inode) (wf : IsFile sb s dp) (fl : IsFilled sb s dp)
      (whole : dp.size % entry_size ≡ 0) (dir : dp.type ≡ t_dir)
      (before : inode_block sb dp.inum < sb.bmapstart) where
    -- The write of dirlink, at the entry that it has found.
    written_found :
        (s1 : Fs) (dp1 : Inode) (k : ℕ)
        → entry_size * k ≤ dp.size
        → ((j : ℕ)
            → 0 ≤ j
            → entry_size * j < dp.size
            → is_match name (entry sb name s dp fl whole j) ≡ false)
        → (writei sb dp (entry_byte name inum) (entry_size * k) entry_size s >>= all_written)
          ≡ done (true, dp1, s1)
        → dirlookup sb name dp1 s1 ≡ done (some (inum, entry_size * k), dp1, s1)
    written_found s1 dp1 k le absent e =
        let ((r, dp2, s2), f, g) =
          >>=-eq-done (writei sb dp (entry_byte name inum) (entry_size * k) entry_size s)
            all_written e in
        let (n, is_moved, q1, q2) = all_written-done r dp2 dp1 s2 s1 g in
        subst₂ (λ x y. dirlookup sb name x y ≡ done (some (inum, entry_size * k), x, y)) q1 q2
          (elim (writei-cases sb lay (entry_byte name inum) fit s dp (entry_size * k) entry_size wf
            before) [
              | inl (_, h) ↦ absurd (refusal h f is_moved)
              | inr (ok, w) ↦
                  let u = w r dp2 s2 f in
                  found_again s s2 dp dp2 k r fl
                    (updated-IsFilled sb lay (entry_byte name inum) fit s dp (entry_size * k)
                      entry_size r dp2 s2 fl ok u)
                    whole le u dir absent
            ])
      where
        refusal :
            {r : Moved ℕ} {dp2 : Inode} {s2 : Fs} {n : ℕ} {o : Outcome (Moved ℕ × Inode × Fs)}
            → o ≡ done (refused, dp, s)
            → o ≡ done (r, dp2, s2)
            → r ≡ moved n
            → ⊥
        refusal h f m = let (q, _, _) = done-triple (sym h ∙ f) in clash (q ∙ m)
          where
            clash : {n : ℕ} → refused ≡ moved n → ⊥
            clash q = cc

    -- A name that dirlink has linked is found: dirlookup returns the number that it was linked to. The
    -- directory is well-formed, has all its blocks and consists of whole entries, its inode's block stands
    -- before the bitmap and the bitmap before the data, the entry consists of bytes, and the number is
    -- not 0 and fits 16 bits.
    pub dirlookup-dirlink :
        (s1 : Fs) (dp1 : Inode)
        → dirlink sb name inum dp s ≡ done (true, dp1, s1)
        → (off : ℕ) × (dirlookup sb name dp1 s1 ≡ done (some (inum, off), dp1, s1))
    unfolding dirlink link_absent link_new
    dirlookup-dirlink s1 dp1 e = elim (dirlookup-Searched sb name s dp fl whole dir) [
      | inl (k, _, _, res, _, _) ↦ absurd (there_already (rw (res) at e))
      | inr (res, absent) ↦
          let (k, le, found) =
            empty_from-entry sb s dp fl whole name (dp.size / entry_size + 1) 0 (omega arith)
              (omega arith) in
          (entry_size * k, written_found s1 dp1 k le absent (rw (res, found) at e))
    ]
      where
        there_already :
            ◌≡◌ {A = Outcome (Bool × Inode × Fs)} (done (false, dp, s)) (done (true, dp1, s1)) → ⊥
        there_already q = let (b, _, _) = done-triple q in clash b
          where
            clash : ◌≡◌ {A = Bool} false true → ⊥
            clash b = cc
