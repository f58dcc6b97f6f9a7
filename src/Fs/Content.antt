-- ===== src/Fs/Content.antt =====
-- fs.c: the bytes of a file, and a new block of it.
use tp2_so.Prelude.{
  ℕ, ◌+◌, ◌-◌, ◌*◌, ◌/◌, ◌%◌, ◌^◌, ◌<◌, ◌≤◌, ◌≡◌, ◌≢◌, ◌∙◌, refl, sym, ap, Bool, true, false, ◌||◌,
  Bool-cases, inl, inr, ◌⊎◌, arith, if◌then◌else◌, ◌==◌, ltb, subst, length, get_or,
}
use tp2_so.Bio.{Data}
use tp2_so.Fs.{Superblock, Fs, bsize, ndirect, maxfile, word_at, put_word}
use tp2_so.Fs.Bitmap.{used, first_data, IsFs}
use tp2_so.Fs.Inode.{Inode}

-- The pointers of an inode: its 13 words, and then the words of its indirect block.
unfoldable pub pointer : Fs → Inode → ℕ → ℕ
pointer s ip p =
    if ltb p 13
    then get_or ip.addrs p 0
    else if get_or ip.addrs ndirect 0 == 0
    then 0
    else word_at (s.block (get_or ip.addrs ndirect 0)) (p - 13)

-- Block `bn` of the contents is found through this pointer.
abbrev pub pointer_of : ℕ → ℕ
pointer_of bn = if ltb bn ndirect then bn else bn + 1

-- The byte at an offset; a hole reads as 0.
unfoldable pub byte_at : Fs → Inode → ℕ → ℕ
unfolding pointer
byte_at s ip off =
    if pointer s ip (pointer_of (off / bsize)) == 0
    then 0
    else s.block (pointer s ip (pointer_of (off / bsize))) (off % bsize)

pub word_at-put_word :
    (i j w : ℕ) (d : Data)
    → w < 2 ^ 32
    → word_at (put_word i w d) j ≡ (if j == i then w else word_at d j)
unfolding word_at put_word
word_at-put_word i j w d h = elim (Bool-cases (j == i)) [
  | inl e ↦ rw (e) (
      let same : j ≡ i = ground arith in
      subst (λ k. word_at (put_word i w d) k ≡ w) (sym same) whole)
  | inr e ↦ rw (e) (ground arith)
]
  where
    whole : word_at (put_word i w d) i ≡ w
    whole = ground arith

module _ (sb : Superblock) where
  -- The blocks of a file are data blocks in use, and each has one pointer to it.
  pub record IsFile (s : Fs) (ip : Inode) : Type 0 where
    pub fs : IsFs sb s
    pub slots : length ip.addrs ≡ 13
    pub owned :
        (p : ℕ)
        → p < 141
        → pointer s ip p ≢ 0
        → (first_data sb ≤ pointer s ip p)
          × (pointer s ip p < sb.size)
          × (used sb s (pointer s ip p) ≡ true)
    pub distinct :
        (p q : ℕ) → p < 141 → q < 141 → pointer s ip p ≢ 0 → pointer s ip p ≡ pointer s ip q → p ≡ q

  -- A new block at a pointer that was null.
  pub record IsExtended (s s1 : Fs) (ip ip1 : Inode) (p0 a ind : ℕ) : Type 0 where
    pub range : p0 < 141
    pub old : pointer s ip p0 ≡ 0
    pub fs : IsFs sb s1
    pub slots : length ip1.addrs ≡ 13
    pub pointers : (p : ℕ) → p < 141 → pointer s1 ip1 p ≡ (if p == p0 then a else pointer s ip p)
    pub unused : used sb s a ≡ false
    pub nonzero : a ≢ 0
    pub inside : a < sb.size
    pub beyond : first_data sb ≤ a
    pub marked : (c : ℕ) → c < sb.size → used sb s1 c ≡ (c == a || used sb s c)
    pub zeroed : (i : ℕ) → s1.block a i ≡ 0
    pub others : (c : ℕ) → first_data sb ≤ c → c ≢ a → c ≢ ind → s1.block c ≡ s.block c
    pub indirect : (ind ≡ a) ⊎ (ind ≡ pointer s ip 12) × (ind ≢ 0)

  module _ (s s1 : Fs) (ip ip1 : Inode) (p0 a ind : ℕ) (wf : IsFile s ip)
      (x : IsExtended s s1 ip ip1 p0 a ind) where
    fresh : (p : ℕ) → p < 141 → pointer s ip p ≢ 0 → pointer s ip p ≢ a
    fresh p h n e = clash (wf.owned p h n).2 e
      where
        clash : used sb s (pointer s ip p) ≡ true → pointer s ip p ≡ a → ⊥
        clash u q =
            let v : used sb s a ≡ true = subst (λ c. used sb s c ≡ true) q u in cc (x.unused)

    pub extended-IsFile : IsFile s1 ip1
    extended-IsFile = record {
      fs = x.fs;
      slots = x.slots;
      owned = λ p h n. elim (Bool-cases (p == p0)) [
        | inl e ↦ subst Good (sym (new p h e)) (x.beyond, x.inside, used_new)
        | inr e ↦ subst Good (sym (kept p h e)) (old_good p h (nonnull p h e n))
      ];
      distinct = λ p q h k n e.
          ground (arith, x.pointers p h, x.pointers q k, wf.distinct p q h k, fresh p h, fresh q k);
    }
      where
        Good : ℕ → Type 0
        Good c = (first_data sb ≤ c) × (c < sb.size) × (used sb s1 c ≡ true)

        new : (p : ℕ) → p < 141 → (p == p0) ≡ true → pointer s1 ip1 p ≡ a
        new p h e = x.pointers p h ∙ rw (e) refl

        kept : (p : ℕ) → p < 141 → (p == p0) ≡ false → pointer s1 ip1 p ≡ pointer s ip p
        kept p h e = x.pointers p h ∙ rw (e) refl

        nonnull : (p : ℕ) → p < 141 → (p == p0) ≡ false → pointer s1 ip1 p ≢ 0 → pointer s ip p ≢ 0
        nonnull p h e n z = n (kept p h e ∙ z)

        used_new : used sb s1 a ≡ true
        used_new = x.marked a x.inside ∙ ap (λ t. t || used sb s a) (self a)
          where
            self : (a : ℕ) → (a == a) ≡ true
            self a = ground arith

        or_true : (t : Bool) → (t || true) ≡ true
        or_true true = refl
        or_true false = refl

        old_good : (p : ℕ) → p < 141 → pointer s ip p ≢ 0 → Good (pointer s ip p)
        old_good p h n =
            let (beyond, inside, u) = wf.owned p h n in
            (
              beyond,
              inside,
              x.marked (pointer s ip p) inside ∙ (ap (λ t. pointer s ip p == a || t) u ∙ or_true _),
            )

    -- A file with a new, zeroed block has the same bytes.
    pub extended-byte_at : (off : ℕ) → off < maxfile * bsize → byte_at s1 ip1 off ≡ byte_at s ip off
    unfolding byte_at
    extended-byte_at off h = elim (Bool-cases (at == p0)) [
      | inl e ↦ rw (x.pointers at in_range, e, was_null e) (rw (not_null) (x.zeroed (off % bsize)))
      | inr e ↦
          rw (x.pointers at in_range, e)
            (elim (Bool-cases (pointer s ip at == 0)) [
              | inl z ↦ rw (z) refl
              | inr z ↦ rw (z) (ap (λ d. d (off % bsize)) (same_block z))
            ])
    ]
      where
        at : ℕ
        at = pointer_of (off / bsize)

        in_range : at < 141
        in_range = ground arith

        not_middle : at ≢ 12
        not_middle e = ground arith

        not_null : (a == 0) ≡ false
        not_null = ground (arith, x.nonzero)

        was_null : (at == p0) ≡ true → (pointer s ip at == 0) ≡ true
        was_null e =
            let same : at ≡ p0 = ground arith in
            subst (λ p. (pointer s ip p == 0) ≡ true) (sym same) (rw (x.old) refl)

        same_block :
            (pointer s ip at == 0) ≡ false → s1.block (pointer s ip at) ≡ s.block (pointer s ip at)
        same_block z =
            let n : pointer s ip at ≢ 0 = λ q. ground arith in
            x.others (pointer s ip at) (wf.owned at in_range n).0 (fresh at in_range n) (λ q.
              elim x.indirect [
                | inl i ↦ fresh at in_range n (q ∙ i)
                | inr (i, _) ↦ not_middle (wf.distinct at 12 in_range (omega arith) n (q ∙ i))
              ])
