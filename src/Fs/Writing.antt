-- ===== src/Fs/Writing.antt =====
-- writei: the bytes of a file after a write.
use tp2_so.Prelude.{
  ℕ, ◌+◌, ◌-◌, ◌*◌, ◌/◌, ◌%◌, ◌<◌, ◌≤◌, ◌≡◌, ◌≢◌, ◌∙◌, refl, sym, ap, true, false, ◌&&◌, Bool-cases,
  inl, inr, arith, if◌then◌else◌, ◌==◌, ltb, leb, subst, get_or,
}
use tp2_so.Fs.{Superblock, Fs, bsize, maxfile, log_block, word_at}
use tp2_so.Fs.Bitmap.{used, first_data, IsLayout}
use tp2_so.Fs.Inode.{Inode, put_bytes}
use tp2_so.Fs.Content.{pointer, pointer_of, byte_at, IsFile}

module _ (sb : Superblock) (lay : IsLayout sb) (src : ℕ → ℕ) (fit : (i : ℕ) → src i < 256) where
  -- Bytes `off` to `off + n` of a file come from `src`, from `tot` on, and the others are kept.
  abbrev pub spliced : (ℕ → ℕ) → ℕ → ℕ → ℕ → ℕ → ℕ
  spliced old tot off n x = if leb off x && ltb x (off + n) then src (tot + (x - off)) else old x

  module _ (s : Fs) (ip : Inode) (wf : IsFile sb s ip) (tot off m a : ℕ)
      (range : off < maxfile * bsize) (within : m ≤ bsize - off % bsize)
      (at : pointer s ip (pointer_of (off / bsize)) ≡ a) (nonzero : a ≢ 0) where
    abbrev pub put_block : Fs
    put_block = log_block a (put_bytes m (off % bsize) tot src (s.block a)) s

    slot : ℕ → ℕ
    slot x = pointer_of (x / bsize)

    pub in_range : (x : ℕ) → x < maxfile * bsize → pointer_of (x / bsize) < 141
    in_range x h = ground arith

    put_owned : (first_data sb ≤ a) × (a < sb.size) × (used sb s a ≡ true)
    put_owned =
        subst (λ c. (first_data sb ≤ c) × (c < sb.size) × (used sb s c ≡ true)) at
          (wf.owned (pointer_of (off / bsize)) (in_range off range) (λ z. nonzero (sym at ∙ z)))

    put_used : (c : ℕ) → c < sb.size → used sb put_block c ≡ used sb s c
    put_used c h = ground (arith, lay.before, put_owned.0)

    -- No other pointer is to block `a`.
    alone :
        (p : ℕ) → p < 141 → (p == pointer_of (off / bsize)) ≡ false → (a == pointer s ip p) ≡ false
    alone p h n = elim (Bool-cases (a == pointer s ip p)) [
      | inr e ↦ e
      | inl e ↦
          let same : pointer s ip p ≡ a = ground arith in
          absurd (
            apart n (
              wf.distinct p (pointer_of (off / bsize)) h (in_range off range)
                (λ z. nonzero (sym same ∙ z)) (same ∙ sym at)))
    ]
      where
        apart : {q : ℕ} → (p == q) ≡ false → p ≡ q → ⊥
        apart n e = ground arith

    pub put_block-pointer : (p : ℕ) → pointer put_block ip p ≡ pointer s ip p
    unfolding pointer
    put_block-pointer p = elim (Bool-cases (ltb p 13)) [
      | inl l ↦ rw (l) refl
      | inr l ↦
          rw (l) (ap (λ d. if get_or ip.addrs 12 0 == 0 then 0 else word_at d (p - 13)) same_block)
    ]
      where
        not_indirect : (12 == pointer_of (off / bsize)) ≡ false
        not_indirect = ground arith

        other : (a == get_or ip.addrs 12 0) ≡ false
        other = alone 12 (omega arith) not_indirect

        same_block : put_block.block (get_or ip.addrs 12 0) ≡ s.block (get_or ip.addrs 12 0)
        same_block = ground (arith, other)

    pub put_block-IsFile : IsFile sb put_block ip
    put_block-IsFile = record {
      fs = record {
        bytes = λ c i.
            unfold put_bytes in ground (arith, wf.fs.bytes c i, fit (tot + (i - off % bsize)));
        reserved = λ c h. put_used c (omega arith) ∙ wf.fs.reserved c h;
      };
      slots = wf.slots;
      owned = λ p h n.
          let (b, i, u) = wf.owned p h (λ z. n (put_block-pointer p ∙ z)) in
          subst (λ c. (first_data sb ≤ c) × (c < sb.size) × (used sb put_block c ≡ true))
            (sym (put_block-pointer p)) (b, i, put_used (pointer s ip p) i ∙ u);
      distinct = λ p q h k n e.
          wf.distinct p q h k (λ z. n (put_block-pointer p ∙ z))
            (sym (put_block-pointer p) ∙ (e ∙ put_block-pointer q));
    }

    -- The write of one block.
    pub put_block-byte_at :
        (x : ℕ) → x < maxfile * bsize → byte_at put_block ip x ≡ spliced (byte_at s ip) tot off m x
    unfolding byte_at put_bytes
    put_block-byte_at x h = elim (Bool-cases (pointer_of (x / bsize) == pointer_of (off / bsize))) [
      | inl e ↦ here e
      | inr e ↦
          rw
            (
              put_block-pointer (pointer_of (x / bsize)),
              alone (pointer_of (x / bsize)) (in_range x h) e,
              outside e,
            )
            refl
    ]
      where
        outside :
            (pointer_of (x / bsize) == pointer_of (off / bsize)) ≡ false
            → (leb off x && ltb x (off + m)) ≡ false
        outside e = ground arith

        same_block :
            (pointer_of (x / bsize) == pointer_of (off / bsize)) ≡ true → x / bsize ≡ off / bsize
        same_block e = ground arith

        slot_is :
            (pointer_of (x / bsize) == pointer_of (off / bsize)) ≡ true
            → pointer s ip (pointer_of (x / bsize)) ≡ a
        slot_is e = ap (λ k. pointer s ip (pointer_of k)) (same_block e) ∙ at

        not_null : (a == 0) ≡ false
        not_null = ground (arith, nonzero)

        self : (a == a) ≡ true
        self = ground arith

        inner :
            x / bsize ≡ off / bsize
            → (leb (off % bsize) (x % bsize) && ltb (x % bsize) (off % bsize + m))
              ≡ (leb off x && ltb x (off + m))
        inner e = ground arith

        shift :
            x / bsize ≡ off / bsize
            → (leb off x && ltb x (off + m)) ≡ true
            → x % bsize - off % bsize ≡ x - off
        shift e i = ground arith

        bytes :
            x / bsize ≡ off / bsize
            → put_bytes m (off % bsize) tot src (s.block a) (x % bsize) ≡ (
                if leb off x && ltb x (off + m)
                then src (tot + (x - off))
                else s.block a (x % bsize))
        bytes e = elim (Bool-cases (leb off x && ltb x (off + m))) [
          | inl i ↦ rw (i, inner e ∙ i, shift e i) refl
          | inr i ↦ rw (i, inner e ∙ i) refl
        ]

        here :
            (pointer_of (x / bsize) == pointer_of (off / bsize)) ≡ true
            → byte_at put_block ip x ≡ spliced (byte_at s ip) tot off m x
        here e =
            rw (put_block-pointer (pointer_of (x / bsize)), slot_is e, not_null, self)
              (bytes (same_block e))
