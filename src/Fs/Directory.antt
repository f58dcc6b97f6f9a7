-- ===== src/Fs/Directory.antt =====
-- fs.c: the search of dirlookup, before iget, against the entries that the directory's bytes hold.
use tp2_so.Prelude.{
  ℕ, zero, suc, ◌+◌, ◌-◌, ◌*◌, ◌/◌, ◌%◌, ◌<◌, ◌≤◌, ◌≡◌, ◌∙◌, refl, ap, subst, Bool, true, false,
  not, ◌||◌, ◌&&◌, Bool-cases, inl, inr, ◌⊎◌, Option, none, some, List, arith, if◌then◌else◌, ◌==◌,
  ltb, min, length, drop, get_or, add32, Outcome, done, panic, panic_if, ◌>>=◌, ◌>>◌,
}
use tp2_so.Str.{strncmp}
use tp2_so.Fs.{Superblock, Fs}
use tp2_so.Fs.Path.{dirsiz}
use tp2_so.Fs.Inode.{Inode, t_dir, readi, bytes_of, Moved, refused, moved}
use tp2_so.Fs.Content.{byte_at}
use tp2_so.Fs.Files.{IsFilled, readi-eq}

-- `sizeof(struct dirent)`, and its fields.
abbrev pub entry_size : ℕ
entry_size = 16

abbrev pub entry_inum : List ℕ → ℕ
entry_inum de = get_or de 0 0 + 256 * get_or de 1 0

abbrev pub entry_name : List ℕ → List ℕ
entry_name de = drop 2 de

-- The two tests of the loop: `de.inum == 0` goes on, and so does another name.
abbrev pub is_match : List ℕ → List ℕ → Bool
is_match name de = not (entry_inum de == 0) && strncmp name (entry_name de) dirsiz == 0

-- `if(readi(...) != sizeof(de)) panic("dirlookup read");`
unfoldable pub whole_entry : Moved (List ℕ) × Inode × Fs → Outcome (List ℕ × Inode × Fs)
whole_entry (refused, dp, s) = panic "dirlookup read"
whole_entry (moved de, dp, s) =
    if length de == entry_size then done (de, dp, s) else panic "dirlookup read"

module _ (sb : Superblock) (name : List ℕ) where
  -- The loop: the inode's number and `*poff`, or none. A round for each entry.
  unfoldable pub look_from : ℕ → ℕ → Inode → Fs → Outcome (Option (ℕ × ℕ) × Inode × Fs)
  unfolding whole_entry
  look_from zero off dp s = done (none, dp, s)
  look_from (suc rounds) off dp s =
      if ltb off dp.size
      then (readi sb dp off entry_size s >>= whole_entry >>= λ (de, dp1, s1).
          let rest = look_from rounds (add32 off entry_size) dp1 s1 in
          if is_match name de then done (some (entry_inum de, off), dp1, s1) else rest)
      else done (none, dp, s)

  unfoldable pub dirlookup : Inode → Fs → Outcome (Option (ℕ × ℕ) × Inode × Fs)
  unfolding look_from
  dirlookup dp s =
      panic_if (not (dp.type == t_dir)) "dirlookup not DIR"
      >> look_from (dp.size / entry_size + 1) 0 dp s

  pub length-bytes_of : (n i : ℕ) (d : ℕ → ℕ) → length (bytes_of n i d) ≡ n
  unfolding bytes_of
  length-bytes_of zero i d = refl
  length-bytes_of (suc n) i d = ap suc (length-bytes_of n (i + 1) d)

  module _ (s : Fs) (dp : Inode) (fl : IsFilled sb s dp) (whole : dp.size % entry_size ≡ 0) where
    -- The entry of an index.
    abbrev pub entry : ℕ → List ℕ
    entry k = bytes_of entry_size (entry_size * k) (byte_at s dp)

    pub readi-entry :
        (k : ℕ)
        → entry_size * k < dp.size
        → readi sb dp (entry_size * k) entry_size s ≡ done (moved (entry k), dp, s)
    readi-entry k h = readi-eq sb s dp (entry_size * k) entry_size fl ∙ rw (accepted, all) refl
      where
        accepted :
            (ltb dp.size (entry_size * k)
              || ltb (add32 (entry_size * k) entry_size) (entry_size * k))
            ≡ false
        accepted = ground (arith, fl.small)

        all : min entry_size (dp.size - entry_size * k) ≡ entry_size
        all = omega (arith, whole)

    -- What the search from entry `i` on comes to.
    abbrev pub Searched : ℕ → Outcome (Option (ℕ × ℕ) × Inode × Fs) → Type 0
    Searched i r =
        ((k : ℕ) × (i ≤ k)
          × (entry_size * k < dp.size)
          × (r ≡ done (some (entry_inum (entry k), entry_size * k), dp, s))
          × (is_match name (entry k) ≡ true)
          × ((j : ℕ) → i ≤ j → j < k → is_match name (entry j) ≡ false))
        ⊎ (r ≡ done (none, dp, s))
          × ((j : ℕ) → i ≤ j → entry_size * j < dp.size → is_match name (entry j) ≡ false)

    look_from-entry :
        (rounds i : ℕ)
        → entry_size * i < dp.size
        → look_from (suc rounds) (entry_size * i) dp s ≡ (
            if is_match name (entry i)
            then done (some (entry_inum (entry i), entry_size * i), dp, s)
            else look_from rounds (entry_size * (i + 1)) dp s)
    unfolding look_from whole_entry
    look_from-entry rounds i h =
        rw
          (
            inside,
            readi-entry i h,
            length-bytes_of entry_size (entry_size * i) (byte_at s dp),
            next,
          )
          refl
      where
        inside : ltb (entry_size * i) dp.size ≡ true
        inside = ground (arith, h)

        next : add32 (entry_size * i) entry_size ≡ entry_size * (i + 1)
        next = omega (arith, fl.small)

    look_from-Searched :
        (rounds i : ℕ)
        → dp.size / entry_size < rounds + i
        → Searched i (look_from rounds (entry_size * i) dp s)
    look_from-Searched zero i h = inr (unfold look_from in refl, λ j le lt. absurd (omega arith))
    look_from-Searched (suc rounds) i h = elim (Bool-cases (ltb (entry_size * i) dp.size)) [
      | inr e ↦ inr (unfold look_from in rw (e) refl, λ j le lt. absurd (past e le lt))
      | inl e ↦ elim (Bool-cases (is_match name (entry i))) [
        | inl m ↦ inl (
          i,
          omega arith,
          inside e,
          look_from-entry rounds i (inside e) ∙ rw (m) refl,
          m,
          λ j le lt. absurd (omega arith),
        )
        | inr m ↦ elim (look_from-Searched rounds (i + 1) (omega arith)) [
          | inl (k, le, lt, r, found, before) ↦ inl (
            k,
            omega arith,
            lt,
            look_from-entry rounds i (inside e) ∙ rw (m) r,
            found,
            λ j l1 l2. earlier m k before j l1 l2,
          )
          | inr (r, all) ↦
              inr (look_from-entry rounds i (inside e) ∙ rw (m) r, λ j l1 l2. every m all j l1 l2)
        ]
      ]
    ]
      where
        inside : ltb (entry_size * i) dp.size ≡ true → entry_size * i < dp.size
        inside e = ground arith

        past : {j : ℕ} → ltb (entry_size * i) dp.size ≡ false → i ≤ j → entry_size * j < dp.size → ⊥
        past e le lt = ground arith

        earlier :
            is_match name (entry i) ≡ false
            → (k : ℕ) → ((j : ℕ) → i + 1 ≤ j → j < k → is_match name (entry j) ≡ false)
            → (j : ℕ) → i ≤ j
            → j < k
            → is_match name (entry j) ≡ false
        earlier m k before j l1 l2 = elim (Bool-cases (i == j)) [
          | inl q ↦
              let same : i ≡ j = ground arith in subst (λ x. is_match name (entry x) ≡ false) same m
          | inr q ↦ before j (ground arith) l2
        ]

        every :
            is_match name (entry i) ≡ false
            → ((j : ℕ) → i + 1 ≤ j → entry_size * j < dp.size → is_match name (entry j) ≡ false)
            → (j : ℕ) → i ≤ j
            → entry_size * j < dp.size
            → is_match name (entry j) ≡ false
        every m all j l1 l2 = elim (Bool-cases (i == j)) [
          | inl q ↦
              let same : i ≡ j = ground arith in subst (λ x. is_match name (entry x) ≡ false) same m
          | inr q ↦ all j (ground arith) l2
        ]

    -- dirlookup of a directory that has all its blocks, is not larger than the largest file, and consists
    -- of whole entries: it returns the number and the offset of the first entry that is in use and has
    -- the name, or none if there is no such entry. It changes nothing.
    pub dirlookup-Searched : dp.type ≡ t_dir → Searched 0 (dirlookup dp s)
    unfolding dirlookup
    dirlookup-Searched dir =
        rw (is_dir) (look_from-Searched (dp.size / entry_size + 1) 0 (omega arith))
      where
        is_dir : (dp.type == t_dir) ≡ true
        is_dir = ground (arith, dir)
