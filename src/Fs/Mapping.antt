-- ===== src/Fs/Mapping.antt =====
-- fs.c: bmap, the block of an offset, found or added.
use tp2_so.Prelude.{
  ℕ, ◌+◌, ◌-◌, ◌*◌, ◌<◌, ◌≤◌, ◌≡◌, ◌≢◌, ◌∙◌, refl, sym, ap, true, false, Bool-cases, inl, inr, List,
  arith, if◌then◌else◌, ◌==◌, ltb, lt→ltb, subst, subst₂, done, >>=-eq-done, done-triple, length,
  length-set, get_or, set, get_or-set_self, get_or-set_ne,
}
use tp2_so.Fs.{Superblock, Fs, bsize, maxfile, word_at, balloc}
use tp2_so.Fs.Bitmap.{used, first_data, IsLayout, IsAllocated, balloc-IsAllocated}
use tp2_so.Fs.Inode.{Inode, slot_addr}
use tp2_so.Fs.Content.{pointer, byte_at, IsFile, IsExtended, extended-IsFile, extended-byte_at}

get_or-set :
    (xs : List ℕ) (i j v : ℕ)
    → i < length xs
    → get_or (set xs i v) j 0 ≡ (if j == i then v else get_or xs j 0)
get_or-set xs i j v h = elim (Bool-cases (j == i)) [
  | inl e ↦
      let same : j ≡ i = ground arith in
      rw (e) (subst (λ k. get_or (set xs i v) k 0 ≡ v) (sym same) (get_or-set_self xs i v 0 h))
  | inr e ↦ rw (e) (get_or-set_ne xs i j v 0 (λ q. apart e q))
]
  where
    apart : (j == i) ≡ false → i ≡ j → ⊥
    apart e q = ground arith

module _ (sb : Superblock) (lay : IsLayout sb) where
  -- The block at pointer `p` after the call, and a file with the same bytes.
  pub record IsMapped (s : Fs) (ip : Inode) (p a : ℕ) (s1 : Fs) (ip1 : Inode) : Type 0 where
    pub file : IsFile sb s1 ip1
    pub at : pointer s1 ip1 p ≡ a
    pub nonzero : a ≢ 0
    pub same_bytes : (off : ℕ) → off < maxfile * bsize → byte_at s1 ip1 off ≡ byte_at s ip off
    pub same_size : ip1.size ≡ ip.size
    pub same_inum : ip1.inum ≡ ip.inum
    pub same_type : ip1.type ≡ ip.type
    pub kept : (q : ℕ) → q < 141 → pointer s ip q ≢ 0 → pointer s1 ip1 q ≡ pointer s ip q

  module _ (s : Fs) (ip : Inode) (wf : IsFile sb s ip) where
    pub first_data_positive : 0 < first_data sb
    first_data_positive = omega (arith, lay.before)

    module _ (i a : ℕ) (s1 : Fs) (lt : i < 13) (null : get_or ip.addrs i 0 ≡ 0)
        (al : IsAllocated sb s a s1) where
      abbrev slotted : Inode
      slotted = record ip { addrs = set ip.addrs i a }

      slot_of : (j : ℕ) → get_or slotted.addrs j 0 ≡ (if j == i then a else get_or ip.addrs j 0)
      slot_of j = get_or-set ip.addrs i j a (subst (λ n. i < n) (sym wf.slots) lt)

      -- The indirect block is not the new one.
      same_indirect :
          get_or ip.addrs 12 0 ≢ 0
          → s1.block (get_or ip.addrs 12 0) ≡ s.block (get_or ip.addrs 12 0)
      unfolding pointer
      same_indirect n =
          let o = wf.owned 12 (omega arith) n in
          al.others (get_or ip.addrs 12 0) o.0 (λ e. clash o.2 e)
        where
          clash : used sb s (get_or ip.addrs 12 0) ≡ true → get_or ip.addrs 12 0 ≡ a → ⊥
          clash u e =
              let v : used sb s a ≡ true = subst (λ c. used sb s c ≡ true) e u in cc (al.unused)

      slotted-pointer : (p : ℕ) → pointer s1 slotted p ≡ (if p == i then a else pointer s ip p)
      unfolding pointer word_at
      slotted-pointer p = elim (Bool-cases (ltb p 13)) [
        | inl l ↦ rw (l) (slot_of p)
        | inr l ↦ elim (Bool-cases (i == 12)) [
          | inl m ↦ rw (l, hit m, a_nonnull, past l, none_before m) (words_zero (p - 13))
          | inr m ↦
              rw (l, slot_of 12, other_slot m, past l)
                (elim (Bool-cases (get_or ip.addrs 12 0 == 0)) [
                  | inl z ↦ rw (z) refl
                  | inr z ↦ rw (z) (ap (λ d. word_at d (p - 13)) (same_indirect (nonnull z)))
                ])
        ]
      ]
        where
          hit : (i == 12) ≡ true → get_or slotted.addrs 12 0 ≡ a
          hit m = let e : (12 == i) ≡ true = ground arith in slot_of 12 ∙ rw (e) refl

          a_nonnull : (a == 0) ≡ false
          a_nonnull = ground (arith, al.beyond, first_data_positive)

          past : ltb p 13 ≡ false → (p == i) ≡ false
          past l = ground (arith, lt)

          other_slot : (i == 12) ≡ false → (12 == i) ≡ false
          other_slot m = ground arith

          none_before : (i == 12) ≡ true → (get_or ip.addrs 12 0 == 0) ≡ true
          none_before m =
              let same : i ≡ 12 = ground arith in
              subst (λ k. (get_or ip.addrs k 0 == 0) ≡ true) same (rw (null) refl)

          nonnull : (get_or ip.addrs 12 0 == 0) ≡ false → get_or ip.addrs 12 0 ≢ 0
          nonnull z e = ground arith

          words_zero : (j : ℕ) → word_at (s1.block a) j ≡ 0
          words_zero j = omega (
            arith,
            al.zeroed (4 * j),
            al.zeroed (4 * j + 1),
            al.zeroed (4 * j + 2),
            al.zeroed (4 * j + 3),
          )

      slotted-IsExtended : IsExtended sb s s1 ip slotted i a a
      unfolding pointer
      slotted-IsExtended = record {
        range = omega arith;
        old = rw (lt→ltb i 13 lt) null;
        fs = al.wf;
        slots = length-set ip.addrs i a ∙ wf.slots;
        pointers = λ p h. slotted-pointer p;
        unused = al.unused;
        nonzero = λ e. absurd (positive e al.beyond first_data_positive);
        inside = al.inside;
        beyond = al.beyond;
        marked = al.marked;
        zeroed = al.zeroed;
        others = λ c h n _. al.others c h n;
        indirect = inl refl;
      }
        where
          positive : {f : ℕ} → a ≡ 0 → f ≤ a → 0 < f → ⊥
          positive e le lt = omega arith

    -- An extension is a mapping.
    pub mapped :
        (p a ind : ℕ) (s1 : Fs) (ip1 : Inode)
        → ip1.size ≡ ip.size
        → ip1.inum ≡ ip.inum
        → ip1.type ≡ ip.type
        → IsExtended sb s s1 ip ip1 p a ind
        → IsMapped s ip p a s1 ip1
    mapped p a ind s1 ip1 z w v x = record {
      file = extended-IsFile sb s s1 ip ip1 p a ind wf x;
      at = x.pointers p x.range ∙ ap (λ t. if t then a else pointer s ip p) (self p);
      nonzero = x.nonzero;
      same_bytes = extended-byte_at sb s s1 ip ip1 p a ind wf x;
      same_size = z;
      same_inum = w;
      same_type = v;
      kept = λ q h n. x.pointers q h ∙ other q h n;
    }
      where
        self : (p : ℕ) → (p == p) ≡ true
        self p = ground arith

        other :
            (q : ℕ)
            → q < 141
            → pointer s ip q ≢ 0
            → (if q == p then a else pointer s ip q) ≡ pointer s ip q
        other q h n = ground (arith, x.old)

    pub slot_addr-IsMapped :
        (i a : ℕ) (s1 : Fs) (ip1 : Inode)
        → i < 13
        → slot_addr sb i ip s ≡ done (a, ip1, s1)
        → IsMapped s ip i a s1 ip1
    unfolding slot_addr
    slot_addr-IsMapped i a s1 ip1 lt e = elim (Bool-cases (get_or ip.addrs i 0 == 0)) [
      | inl z ↦
          let ((a1, s2), f, g) =
            >>=-eq-done (balloc sb s)
              (λ (a, s1). done (a, record ip { addrs = set ip.addrs i a }, s1)) (rw (z) at e) in
          let al = balloc-IsAllocated sb s s2 a1 lay wf.fs f in
          let (q1, q2, q3) = done-triple g in
          subst (λ x. IsMapped s ip i x s1 ip1) q1
            (subst₂ (λ y z. IsMapped s ip i a1 z y) q2 q3
              (mapped i a1 a1 s2 (slotted i a1 s2 lt (ground arith) al) refl refl refl
                (slotted-IsExtended i a1 s2 lt (ground arith) al)))
      | inr z ↦
          let (q1, q2, q3) = done-triple (rw (z) at e) in
          subst (λ x. IsMapped s ip i x s1 ip1) q1
            (subst₂ (λ y z. IsMapped s ip i (get_or ip.addrs i 0) z y) q2 q3 (already z))
    ]
      where
        already : (get_or ip.addrs i 0 == 0) ≡ false → IsMapped s ip i (get_or ip.addrs i 0) s ip
        already z = record {
          file = wf;
          at = unfold pointer in (rw (lt→ltb i 13 lt) refl);
          nonzero = λ q. ground arith;
          same_bytes = λ off h. refl;
          same_size = refl;
          same_inum = refl;
          same_type = refl;
          kept = λ q h n. refl;
        }
