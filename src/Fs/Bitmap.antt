-- ===== src/Fs/Bitmap.antt =====
-- fs.c: the free map, in balloc and bfree.
use tp2_so.Prelude.{
  ℕ, zero, suc, ◌+◌, ◌-◌, ◌/◌, ◌%◌, ◌^◌, ◌<◌, ◌≤◌, ◌≡◌, ◌≢◌, ◌∙◌, refl, sym, Bool, true, false, not,
  ◌&&◌, ◌||◌, Bool-cases, Option-cases, inl, inr, ◌⊎◌, Option, none, some, arith, ◌==◌, ltb, subst,
  subst₂, done, panic, done-pair, Outcome,
}
use tp2_so.Fs.{
  Superblock, Fs, bpb, bzero, bitmap_block, bit_set, free_bit, mark, balloc_from, balloc, unmark,
  bfree,
}
use tp2_so.Fs.Bits.{bit_or-clear, bit_and-clear}

module _ (sb : Superblock) where
  -- Is the block marked as in use?
  abbrev pub used : Fs → ℕ → Bool
  used s b = bit_set sb s (bitmap_block sb b) (b % bpb)

  -- The first block of the files' data: mkfs puts `nblocks` data blocks at the end of the disk.
  abbrev pub first_data : ℕ
  first_data = sb.size - sb.nblocks

  -- The bitmap stands before the data.
  pub record IsLayout : Type 0 where
    pub before : sb.size / bpb + sb.bmapstart < first_data
    pub small : sb.size < 2 ^ 32

  pub record IsFs (s : Fs) : Type 0 where
    pub bytes : (b i : ℕ) → s.block b i < 256
    pub reserved : (b : ℕ) → b < first_data → used s b ≡ true

  module _ (s : Fs) (wf : IsFs s) where
    mark-used :
        (b bi c : ℕ) → b % bpb ≡ 0 → bi < bpb → used (mark sb b bi s) c ≡ (c == b + bi || used s c)
    unfolding mark
    mark-used b bi c aligned lt = ground (
      arith,
      bit_or-clear (s.block (bitmap_block sb b) (bi / 8)) (bi % 8) (c % bpb % 8)
          (wf.bytes (bitmap_block sb b) (bi / 8)) (omega arith) (omega arith),
    )

    mark-bytes : (b bi c i : ℕ) → (mark sb b bi s).block c i < 256
    unfolding mark
    mark-bytes b bi c i = ground (
      arith,
      wf.bytes c i,
      bit_or-clear (s.block (bitmap_block sb b) (bi / 8)) (bi % 8) 0
          (wf.bytes (bitmap_block sb b) (bi / 8)) (omega arith) (omega arith),
    )

    -- What `free_bit` finds.
    free_bit-some :
        (n b bi r : ℕ)
        → free_bit sb n b bi s ≡ some r
        → (bi ≤ r) × (r < bi + n) × (b + r < sb.size) × (bit_set sb s (bitmap_block sb b) r ≡ false)
    unfolding free_bit
    free_bit-some zero b bi r e = cc
    free_bit-some (suc n) b bi r e = elim (Bool-cases (ltb (b + bi) sb.size)) [
      | inl t ↦ elim (Bool-cases (bit_set sb s (bitmap_block sb b) bi)) [
        | inl u ↦
            let (p, q, x, y) = free_bit-some n b (bi + 1) r (rw (t, u) at e) in
            (omega arith, omega arith, x, y)
        | inr u ↦ first t u (rw (t, u) at e)
      ]
      | inr t ↦ absurd (past (rw (t) at e))
    ]
      where
        past : ◌≡◌ {A = Option ℕ} none (some r) → ⊥
        past e = cc

        first :
            ltb (b + bi) sb.size ≡ true
            → bit_set sb s (bitmap_block sb b) bi ≡ false
            → some bi ≡ some r
            → (bi ≤ r)
              × (r < bi + suc n)
              × (b + r < sb.size)
              × (bit_set sb s (bitmap_block sb b) r ≡ false)
        first t u q =
            let same : bi ≡ r = cc in
            (
              omega arith,
              omega arith,
              ground arith,
              subst (λ k. bit_set sb s (bitmap_block sb b) k ≡ false) same u,
            )

    -- The bits before the one found, or all of them, are set.
    free_bit-before :
        (n b bi r : ℕ)
        → free_bit sb n b bi s ≡ some r
        → (k : ℕ) → bi ≤ k
        → k < r
        → bit_set sb s (bitmap_block sb b) k ≡ true
    unfolding free_bit
    free_bit-before zero b bi r e k p q = cc
    free_bit-before (suc n) b bi r e k p q = elim (Bool-cases (ltb (b + bi) sb.size)) [
      | inl t ↦ elim (Bool-cases (bit_set sb s (bitmap_block sb b) bi)) [
        | inl u ↦ elim (Bool-cases (k == bi)) [
          | inl same ↦
              let e1 : bi ≡ k = ground arith in
              subst (λ j. bit_set sb s (bitmap_block sb b) j ≡ true) e1 u
          | inr other ↦ free_bit-before n b (bi + 1) r (rw (t, u) at e) k (ground arith) q
        ]
        | inr u ↦ absurd (first u t (rw (t, u) at e))
      ]
      | inr t ↦ absurd (past (rw (t) at e))
    ]
      where
        past : ◌≡◌ {A = Option ℕ} none (some r) → ⊥
        past e = cc

        first :
            bit_set sb s (bitmap_block sb b) bi ≡ false
            → ltb (b + bi) sb.size ≡ true
            → some bi ≡ some r
            → ⊥
        first u t e = let same : bi ≡ r = cc in omega arith

    free_bit-none :
        (n b bi : ℕ)
        → free_bit sb n b bi s ≡ none
        → (k : ℕ) → bi ≤ k
        → k < bi + n
        → b + k < sb.size
        → bit_set sb s (bitmap_block sb b) k ≡ true
    unfolding free_bit
    free_bit-none zero b bi e k p q lt = absurd (omega arith)
    free_bit-none (suc n) b bi e k p q lt =
        elim (Bool-cases (bit_set sb s (bitmap_block sb b) bi)) [
          | inl u ↦ elim (Bool-cases (k == bi)) [
            | inl same ↦
                let e1 : bi ≡ k = ground arith in
                subst (λ j. bit_set sb s (bitmap_block sb b) j ≡ true) e1 u
            | inr other ↦
                free_bit-none n b (bi + 1) (rw (within, u) at e) k (ground arith) (omega arith) lt
          ]
          | inr u ↦ absurd (found u (rw (within, u) at e))
        ]
      where
        within : ltb (b + bi) sb.size ≡ true
        within = ground arith

        found : bit_set sb s (bitmap_block sb b) bi ≡ false → some bi ≡ none → ⊥
        found u e = cc

  -- What a successful balloc has done.
  pub record IsAllocated (s : Fs) (a : ℕ) (s1 : Fs) : Type 0 where
    pub wf : IsFs s1
    pub unused : used s a ≡ false
    pub inside : a < sb.size
    pub beyond : first_data ≤ a
    pub lower_used : (c : ℕ) → c < a → used s c ≡ true
    pub marked : (c : ℕ) → c < sb.size → used s1 c ≡ (c == a || used s c)
    pub zeroed : (i : ℕ) → s1.block a i ≡ 0
    pub others : (c : ℕ) → first_data ≤ c → c ≢ a → s1.block c ≡ s.block c

  module _ (s : Fs) (lay : IsLayout) (wf : IsFs s) where
    -- A bit found in the map, with every lower block in use.
    found-IsAllocated :
        (b r : ℕ)
        → b % bpb ≡ 0
        → free_bit sb bpb b 0 s ≡ some r
        → ((c : ℕ) → c < b → c < sb.size → used s c ≡ true)
        → IsAllocated s (b + r) (bzero (b + r) (mark sb b r s))
    found-IsAllocated b r aligned e below =
        let (_, lt, inside, clear_bit) = free_bit-some s wf bpb b 0 r e in
        let unused : used s (b + r) ≡ false =
          subst₂ (λ bm bi. bit_set sb s bm bi ≡ false) (sym (same_block lt)) (sym (same_bit lt))
            clear_bit in
        let beyond : first_data ≤ b + r = not_reserved unused in
        record {
          wf = record {
            bytes = λ c i. ground (arith, mark-bytes s wf b r c i);
            reserved = λ c lt1.
                other_block c beyond lt1
                ∙ (mark-used s wf b r c aligned lt ∙ rw (wf.reserved c lt1) (or_true (c == b + r)));
          };
          unused = unused;
          inside = inside;
          beyond = beyond;
          lower_used = lower lt inside;
          marked = λ c lt1. in_map c beyond lt1 ∙ mark-used s wf b r c aligned lt;
          zeroed = λ i. ground arith;
          others = λ c p ne. ground (arith, unmarked c p inside);
        }
      where
        same_block : r < bpb → (b + r) / bpb + sb.bmapstart ≡ b / bpb + sb.bmapstart
        same_block lt = omega arith

        same_bit : r < bpb → (b + r) % bpb ≡ r
        same_bit lt = omega arith

        or_true : (t : Bool) → (t || true) ≡ true
        or_true true = refl
        or_true false = refl

        not_reserved : used s (b + r) ≡ false → first_data ≤ b + r
        not_reserved u = ground (arith, wf.reserved (b + r))

        in_map :
            (c : ℕ)
            → first_data ≤ b + r
            → c < sb.size
            → used (bzero (b + r) (mark sb b r s)) c ≡ used (mark sb b r s) c
        in_map c far lt1 = ground (arith, lay.before)

        other_block :
            (c : ℕ)
            → first_data ≤ b + r
            → c < first_data
            → used (bzero (b + r) (mark sb b r s)) c ≡ used (mark sb b r s) c
        other_block c far lt1 = ground (arith, lay.before)

        lower : r < bpb → b + r < sb.size → (c : ℕ) → c < b + r → used s c ≡ true
        lower lt inside c h = elim (Bool-cases (ltb c b)) [
          | inl l ↦ below c (ground arith) (omega (arith, inside))
          | inr l ↦
              subst₂ (λ bm bi. bit_set sb s bm bi ≡ true) (in_block c lt h l) (in_bits c lt h l)
                (free_bit-before s wf bpb b 0 r e (c - b) (omega arith) (ground arith))
        ]
          where
            in_block :
                (c : ℕ)
                → r < bpb
                → c < b + r
                → ltb c b ≡ false
                → bitmap_block sb b ≡ bitmap_block sb c
            in_block c lt h l = ground arith

            in_bits : (c : ℕ) → r < bpb → c < b + r → ltb c b ≡ false → c - b ≡ c % bpb
            in_bits c lt h l = ground arith

        unmarked : (c : ℕ) → first_data ≤ c → b + r < sb.size → (mark sb b r s).block c ≡ s.block c
        unmarked c p h = unfold mark in ground (arith, lay.before)

    balloc_from-IsAllocated :
        (rounds b a : ℕ) (s1 : Fs)
        → b % bpb ≡ 0
        → ((c : ℕ) → c < b → c < sb.size → used s c ≡ true)
        → balloc_from sb rounds b s ≡ done (a, s1)
        → IsAllocated s a s1
    unfolding balloc_from
    balloc_from-IsAllocated zero b a s1 aligned below e = cc
    balloc_from-IsAllocated (suc rounds) b a s1 aligned below e =
        elim (Bool-cases (ltb b sb.size)) [
          | inr t ↦ absurd (over (rw (t) at e))
          | inl t ↦ elim (Option-cases (free_bit sb bpb b 0 s)) [
            | inr (r, f) ↦
                let (q, q1) = done-pair (rw (t, f, balloc_from) at e) in
                subst₂ (λ x y. IsAllocated s x y) q q1 (found-IsAllocated b r aligned f below)
            | inl f ↦
                balloc_from-IsAllocated rounds (b + bpb) a s1 (omega arith) (more f)
                  (rw (t, f, balloc_from) at e)
          ]
        ]
      where
        over : ◌≡◌ {A = Outcome (ℕ × Fs)} (panic "balloc: out of blocks") (done (a, s1)) → ⊥
        over q = cc

        in_block : (c : ℕ) → c < b + bpb → ltb c b ≡ false → bitmap_block sb b ≡ bitmap_block sb c
        in_block c h l = ground arith

        in_bits : (c : ℕ) → c < b + bpb → ltb c b ≡ false → c - b ≡ c % bpb
        in_bits c h l = ground arith

        more : free_bit sb bpb b 0 s ≡ none → (c : ℕ) → c < b + bpb → c < sb.size → used s c ≡ true
        more f c h inside = elim (Bool-cases (ltb c b)) [
          | inl l ↦ below c (ground arith) inside
          | inr l ↦
              subst₂ (λ bm bi. bit_set sb s bm bi ≡ true) (in_block c h l) (in_bits c h l)
                (free_bit-none s wf bpb b 0 f (c - b) (omega arith) (ground arith) (ground arith))
        ]

  -- On a disk whose bitmap stands before its data, with buffers of bytes and every block before the
  -- data marked as in use: if balloc returns, it has taken the first free block, which is one of the
  -- data. The block is in use and zeroed, every other block of the data and every other bit are as they
  -- were, and the disk is again as described.
  pub balloc-IsAllocated :
      (s s1 : Fs) (a : ℕ) → IsLayout → IsFs s → balloc sb s ≡ done (a, s1) → IsAllocated s a s1
  unfolding balloc
  balloc-IsAllocated s s1 a lay wf e =
      balloc_from-IsAllocated s lay wf (sb.size / bpb + 1) 0 a s1 refl
        (λ c h _. absurd (none_below c h)) e
    where
      none_below : (c : ℕ) → c < 0 → ⊥
      none_below c h = omega arith

  -- What bfree has done.
  pub record IsFreed (s : Fs) (b : ℕ) (s1 : Fs) : Type 0 where
    pub cleared : (c : ℕ) → used s1 c ≡ (not (c == b) && used s c)
    pub same_data : (c : ℕ) → first_data ≤ c → s1.block c ≡ s.block c
    pub bytes : (c i : ℕ) → s1.block c i < 256

  -- On a disk whose bitmap stands before its data, with buffers of bytes and every block before the
  -- data marked as in use, bfree of a block of the disk panics where the block is free; else it
  -- returns, with the block's bit cleared, every other bit and the data as they were, and buffers of
  -- bytes.
  pub bfree-cases :
      (s : Fs) (b : ℕ)
      → IsLayout
      → IsFs s
      → b < sb.size
      → (used s b ≡ false) × (bfree sb b s ≡ panic "freeing free block")
        ⊎ (used s b ≡ true) × ((s1 : Fs) × (bfree sb b s ≡ done s1) × IsFreed s b s1)
  unfolding bfree
  bfree-cases s b lay wf inside = elim (Bool-cases (used s b)) [
    | inr u ↦ inl (u, rw (u) refl)
    | inl u ↦ inr (
      u,
      (
        unmark sb b s,
        rw (u) refl,
        record {
          cleared = λ c. ground (
            arith,
            bit_and-clear (s.block (bitmap_block sb b) (b % bpb / 8)) (b % bpb % 8) (c % bpb % 8)
                (wf.bytes (bitmap_block sb b) (b % bpb / 8)) (omega arith) (omega arith),
          );
          same_data = λ c p. ground (arith, lay.before);
          bytes = λ c i. ground (
            arith,
            wf.bytes c i,
            bit_and-clear (s.block (bitmap_block sb b) (b % bpb / 8)) (b % bpb % 8) 0
                (wf.bytes (bitmap_block sb b) (b % bpb / 8)) (omega arith) (omega arith),
          );
        },
      ),
    )
  ]
