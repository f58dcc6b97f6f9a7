-- ===== src/Bio/Counted.antt =====
-- What the calls on the cache keep of the references to its buffers.
use native.Mathlib.Decide.{ℕ_discrete}
use tp2_so.Prelude.{
  ℕ, ◌+◌, ◌<◌, ◌^◌, ◌≡◌, ◌∙◌, refl, ap, sym, subst, Bool, true, false, Bool-cases, Option-cases,
  inl, inr, ◌⊎◌, not, none, List, ◌∷◌, arith, ◌==◌, done, panic, panic_if, >>=-eq-done, done-pair,
  Outcome, sub32, length,
}
use tp2_so.Sleeplock.{acquiresleep, releasesleep, holdingsleep}
use tp2_so.Bio.{
  Buf, Cache, on_buf, first_in, backwards, caches, idle, recycled, referenced, bget, synced, iderw,
  Got, got, read_in, bread_locked, bwrite, brelse, change,
}
use tp2_so.Bio.Store.{first_in-some}
use tp2_so.Bio.Stored.{locked_by, acquired}
use tp2_so.Bio.Refs.{
  count, has_ref, drop_ref, IsCounted, AreCounted, count-has_ref, count-le-length, count-drop_ref,
  on_buf-AreCounted, others-more, others-fewer, has_ref-drop_ref,
}

bget_cases :
    (b i : ℕ) (c c1 : Cache)
    → bget 1 b c ≡ done (i, c1)
    → (on_buf i referenced c ≡ c1) × (caches c 1 b i ≡ true)
      ⊎ (on_buf i (recycled 1 b) c ≡ c1) × (idle c i ≡ true)
unfolding bget
bget_cases b i c c1 e = elim (Option-cases (first_in (caches c 1 b) c.order)) [
  | inr (j, f) ↦
      let (same, then_c1) = done-pair (rw (f, bget) at e) in
      inl (
        ap (λ k. on_buf k referenced c) (sym same) ∙ then_c1,
        subst (λ k. caches c 1 b k ≡ true) same (first_in-some (caches c 1 b) c.order j f),
      )
  | inl f ↦ elim (Option-cases (first_in (idle c) (backwards c.order))) [
    | inl g ↦ absurd (failed f g)
    | inr (j, g) ↦
        let (same, then_c1) = done-pair (rw (f, g, bget) at e) in
        inr (
          ap (λ k. on_buf k (recycled 1 b) c) (sym same) ∙ then_c1,
          subst (λ k. idle c k ≡ true) same (first_in-some (idle c) (backwards c.order) j g),
        )
  ]
]
  where
    failed :
        first_in (caches c 1 b) c.order ≡ none → first_in (idle c) (backwards c.order) ≡ none → ⊥
    failed f g =
        let e1 : (let r : Outcome (ℕ × Cache) = panic "bget: no buffers" in r ≡ done (i, c1)) =
          rw (f, g, bget) at e in
        cc

module _ (hs : List (ℕ × ℕ)) where
  referenced-IsCounted :
      (i b : ℕ) (c : Cache)
      → length hs + 1 < 2 ^ 32
      → caches c 1 b i ≡ true
      → IsCounted hs i (c.buf i)
      → IsCounted ((i, b) ∷ hs) i (referenced (c.buf i))
  unfolding count has_ref
  referenced-IsCounted i b c n h s = record {
    counted = ground (arith, s.counted, count-le-length hs i);
    few = ground (arith, count-le-length hs i);
    keys = λ d r. elim (Bool-cases (b == d)) [
      | inl e ↦ (ground arith, ground arith)
      | inr e ↦ s.keys d (ground arith)
    ];
    full = λ l. ((s.full l).0, ground arith);
  }

  recycled-IsCounted :
      (i b : ℕ) (c : Cache)
      → length hs + 1 < 2 ^ 32
      → idle c i ≡ true
      → IsCounted hs i (c.buf i)
      → IsCounted ((i, b) ∷ hs) i (recycled 1 b (c.buf i))
  unfolding count has_ref
  recycled-IsCounted i b c n h s = record {
    counted = ground (arith, free);
    few = ground (arith, free);
    keys = λ d r. elim (Bool-cases (b == d)) [
      | inl e ↦ (refl, ground arith)
      | inr e ↦ absurd (omega (arith, free, count-has_ref hs i d (ground arith)))
    ];
    full = λ l. absurd (omega (arith, free, (s.full l).1));
  }
    where
      free : count hs i ≡ 0
      free = ground (arith, s.counted)

  pub bget-AreCounted :
      (b i : ℕ) (c c1 : Cache)
      → length hs + 1 < 2 ^ 32
      → bget 1 b c ≡ done (i, c1)
      → AreCounted hs c
      → AreCounted ((i, b) ∷ hs) c1
  bget-AreCounted b i c c1 n e st = elim (bget_cases b i c c1 e) [
    | inl (q, h) ↦ subst (AreCounted ((i, b) ∷ hs)) q (
        on_buf-AreCounted i referenced c hs ((i, b) ∷ hs)
          (λ j ne s. others-more i b hs j (c.buf j) ne s) (referenced-IsCounted i b c n h (st i))
          st)
    | inr (q, h) ↦ subst (AreCounted ((i, b) ∷ hs)) q (
        on_buf-AreCounted i (recycled 1 b) c hs ((i, b) ∷ hs)
          (λ j ne s. others-more i b hs j (c.buf j) ne s) (recycled-IsCounted i b c n h (st i)) st)
  ]

  -- A buffer that is valid now, and is referenced.
  valid-IsCounted :
      (i : ℕ) (p q : Buf)
      → (q.refcnt ≡ p.refcnt) × (q.dev ≡ p.dev) × (q.blockno ≡ p.blockno) × (q.valid ≡ true)
      → 0 < count hs i
      → IsCounted hs i p
      → IsCounted hs i q
  valid-IsCounted i p q (r, d, k, v) pos s = record {
    counted = r ∙ s.counted;
    few = s.few;
    keys = λ e h. (d ∙ (s.keys e h).0, k ∙ (s.keys e h).1);
    full = λ l. (v, pos);
  }

  -- The buffer `i` with `f` done to it, and read or written.
  synced-AreCounted :
      (i : ℕ) (f : Buf → Buf) (c : Cache)
      → ((f (c.buf i)).refcnt ≡ (c.buf i).refcnt)
        × ((f (c.buf i)).dev ≡ (c.buf i).dev)
        × ((f (c.buf i)).blockno ≡ (c.buf i).blockno)
      → 0 < count hs i
      → AreCounted hs c
      → AreCounted hs (synced i (on_buf i f c))
  synced-AreCounted i f c (r, d, k) pos st j = elim (ℕ_discrete i j) [
    | yes e ↦
        subst (λ x. IsCounted hs x ((synced i (on_buf i f c)).buf x)) e
          (valid-IsCounted i (c.buf i) ((synced i (on_buf i f c)).buf i)
            (ground (arith, r), ground (arith, d), ground (arith, k), ground arith) pos (st i))
    | no ne ↦ subst (IsCounted hs j) (ground (arith, ne)) (st j)
  ]

  read_in-AreCounted :
      (pid i : ℕ) (c c1 : Cache) (r : Got) (flag : Bool)
      → (c.buf i).valid ≡ flag
      → 0 < count hs i
      → read_in pid i flag (on_buf i (locked_by pid) c) ≡ done (r, c1)
      → AreCounted hs c
      → AreCounted hs c1
  unfolding read_in iderw
  read_in-AreCounted pid i c c1 r true v pos e st = subst (AreCounted hs) (done-pair e).1 (
      on_buf-AreCounted i (locked_by pid) c hs hs (λ j ne s. s)
        (valid-IsCounted i (c.buf i) (locked_by pid (c.buf i)) (refl, refl, refl, v) pos (st i)) st)
  read_in-AreCounted pid i c c1 r false v pos e st =
      let (c2, f, g) =
        >>=-eq-done (iderw pid i (on_buf i (locked_by pid) c)) (λ c2. done (got i, c2)) e in
      let same : synced i (on_buf i (locked_by pid) c) ≡ c2 = ground arith in
      subst (AreCounted hs) (same ∙ (done-pair g).1)
        (synced-AreCounted i (locked_by pid) c (refl, refl, refl) pos st)

  pub bread_locked-AreCounted :
      (pid i : ℕ) (c c1 : Cache) (r : Got)
      → 0 < count hs i
      → bread_locked pid i c ≡ done (r, c1)
      → AreCounted hs c
      → AreCounted hs c1
  unfolding bread_locked
  bread_locked-AreCounted pid i c c1 r pos e st =
      elim (Option-cases (acquiresleep pid (c.buf i).lock)) [
        | inl t ↦ subst (AreCounted hs) (done-pair (rw (t, bread_locked) at e)).1 st
        | inr (lk, t) ↦
            read_in-AreCounted pid i c c1 r (c.buf i).valid refl pos
              (rw (acquired pid (c.buf i).lock lk t, bread_locked) at e) st
      ]

  pub change-AreCounted :
      (i : ℕ) (d : ℕ → ℕ) (c : Cache) → AreCounted hs c → AreCounted hs (change i d c)
  change-AreCounted i d c st =
      on_buf-AreCounted i (λ b. record b { bytes = d; dirty = true }) c hs hs (λ j ne s. s)
        (record {
          counted = (st i).counted;
          few = (st i).few;
          keys = (st i).keys;
          full = (st i).full;
        })
        st

  pub bwrite-AreCounted :
      (pid i : ℕ) (c c1 : Cache)
      → 0 < count hs i
      → bwrite pid i c ≡ done c1
      → AreCounted hs c
      → AreCounted hs c1
  unfolding bwrite iderw
  bwrite-AreCounted pid i c c1 pos e st =
      let (_, _, f) =
        >>=-eq-done (panic_if (not (holdingsleep pid (c.buf i).lock)) "bwrite")
          (λ _. iderw pid i (on_buf i (λ b. record b { dirty = true }) c)) e in
      let same : synced i (on_buf i (λ b. record b { dirty = true }) c) ≡ c1 = ground arith in
      subst (AreCounted hs) same
        (synced-AreCounted i (λ b. record b { dirty = true }) c (refl, refl, refl) pos st)

  -- The buffer that brelse unlocks.
  released : Buf → Buf
  released b = record b { lock = releasesleep b.lock; refcnt = sub32 b.refcnt 1 }

  released-IsCounted :
      (i b : ℕ) (p : Buf)
      → has_ref hs i b ≡ true
      → IsCounted hs i p
      → IsCounted (drop_ref hs i b) i (released p)
  unfolding released releasesleep
  released-IsCounted i b p h s =
      let fewer = count-drop_ref hs i b h in
      record {
        counted = ground (arith, s.counted, s.few, fewer);
        few = omega (arith, s.few, fewer);
        keys = λ d r. s.keys d (has_ref-drop_ref hs i b i d r);
        full = λ l. absurd (l refl);
      }

  pub brelse-AreCounted :
      (pid i b : ℕ) (c c1 : Cache)
      → has_ref hs i b ≡ true
      → brelse pid i c ≡ done c1
      → AreCounted hs c
      → AreCounted (drop_ref hs i b) c1
  unfolding brelse released
  brelse-AreCounted pid i b c c1 h e st j = subst (IsCounted (drop_ref hs i b) j) (ground arith) (
      on_buf-AreCounted i released c hs (drop_ref hs i b)
        (λ j ne s. others-fewer i b hs j (c.buf j) ne s) (released-IsCounted i b (c.buf i) h (st i))
        st j)
