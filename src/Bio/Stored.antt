-- ===== src/Bio/Stored.antt =====
-- What the calls on the cache keep: it stores the blocks of the disk, as they were last given.
use tp2_so.Prelude.{
  ℕ, ◌≡◌, ◌≢◌, ◌∙◌, refl, ap, sym, Bool, true, false, Bool-cases, Option-cases, inl, inr, ◌⊎◌, not,
  none, some, ◌∷◌, arith, ◌==◌, done, panic, panic_if, >>=-eq-done, subst, subst₂, done-pair,
  Outcome, sub32,
}
use tp2_so.Sleeplock.{Sleeplock, acquiresleep, releasesleep, holdingsleep}
use tp2_so.Bio.{
  Data, Buf, Cache, on_buf, first_in, backwards, caches, idle, recycled, referenced, bget, synced,
  iderw, Got, got, sleeps, read_in, bread_locked, bwrite, without, brelse,
}
use tp2_so.Bio.Store.{
  IsCache, Stores, member, first_in-some, first_in-none, first_in-member, member-backwards,
  member-without, on_buf-SameBlock, agree-IsCache, agree-Stores, synced-IsCache, synced-Stores,
  synced-key, reused-IsCache, reused-Stores,
}

-- What a caller may rely on.
pub record IsStored (c : Cache) (v : ℕ → Data) : Type 0 where
  pub wf : IsCache c
  pub holds : Stores c v

abbrev pub HasBlock : Cache → ℕ → ℕ → Type 0
HasBlock c i blockno = ((c.buf i).dev ≡ 1) × ((c.buf i).blockno ≡ blockno)

kept-IsStored :
    (i : ℕ) (f : Buf → Buf) (c : Cache) (v : ℕ → Data)
    → (((f (c.buf i)).dev ≡ (c.buf i).dev)
        × ((f (c.buf i)).blockno ≡ (c.buf i).blockno)
        × ((f (c.buf i)).valid ≡ (c.buf i).valid)
        × ((f (c.buf i)).dirty ≡ (c.buf i).dirty)
        × ((f (c.buf i)).bytes ≡ (c.buf i).bytes))
    → IsStored c v
    → IsStored (on_buf i f c) v
kept-IsStored i f c v (a, b, l, d, e) st =
    let s = on_buf-SameBlock i f c (sym a, sym b, sym l, sym d, sym e) in
    record {
      wf = agree-IsCache c (on_buf i f c) s (λ j m. m) st.wf;
      holds = agree-Stores c (on_buf i f c) s v (λ b. refl) st.holds;
    }

pub bget-IsStored :
    (b i : ℕ) (c c1 : Cache) (v : ℕ → Data)
    → IsStored c v
    → bget 1 b c ≡ done (i, c1)
    → IsStored c1 v × HasBlock c1 i b
unfolding bget
bget-IsStored b i c c1 v st e = elim (Option-cases (first_in (caches c 1 b) c.order)) [
  | inr (j, f) ↦
      let (same, then_c1) = done-pair (rw (f, bget) at e) in
      subst₂ (λ k d. IsStored d v × HasBlock d k b) same then_c1
        (
          kept-IsStored j referenced c v (refl, refl, refl, refl, refl) st,
          hit j (first_in-some (caches c 1 b) c.order j f),
        )
  | inl f ↦ elim (Option-cases (first_in (idle c) (backwards c.order))) [
    | inl g ↦ absurd (failed f g)
    | inr (j, g) ↦
        let (same, then_c1) = done-pair (rw (f, g, bget) at e) in
        let member_j =
          sym (member-backwards j c.order) ∙ first_in-member (idle c) (backwards c.order) j g in
        let unused = free_of j (first_in-some (idle c) (backwards c.order) j g) in
        let absent = none_has f in
        subst₂ (λ k d. IsStored d v × HasBlock d k b) same then_c1
          (
            record {
              wf = reused-IsCache j b c v st.wf st.holds member_j unused absent;
              holds = reused-Stores j b c v st.wf st.holds member_j unused absent;
            },
            missed j,
          )
  ]
]
  where
    hit : (j : ℕ) → caches c 1 b j ≡ true → HasBlock (on_buf j referenced c) j b
    hit j k = ground arith

    missed : (j : ℕ) → HasBlock (on_buf j (recycled 1 b) c) j b
    missed j = ground arith

    free_of : (j : ℕ) → idle c j ≡ true → (c.buf j).dirty ≡ false
    free_of j k = ground arith

    failed :
        first_in (caches c 1 b) c.order ≡ none → first_in (idle c) (backwards c.order) ≡ none → ⊥
    failed f g =
        let e1 : (let r : Outcome (ℕ × Cache) = panic "bget: no buffers" in r ≡ done (i, c1)) =
          rw (f, g, bget) at e in
        cc

    none_has :
        first_in (caches c 1 b) c.order ≡ none → (j : ℕ) → (c.buf j).dev ≡ 1 → (c.buf j).blockno ≢ b
    none_has f j a q =
        absurd (clash j a q (first_in-none (caches c 1 b) c.order j f (st.wf.listed j a)))
      where
        clash : (j : ℕ) → (c.buf j).dev ≡ 1 → (c.buf j).blockno ≡ b → caches c 1 b j ≡ false → ⊥
        clash j a q n = ground arith

pub iderw-IsStored :
    (pid i : ℕ) (c c1 : Cache) (v : ℕ → Data)
    → IsStored c v
    → iderw pid i c ≡ done c1
    → IsStored c1 v × (c1 ≡ synced i c) × ((c.buf i).dev ≡ 1)
unfolding iderw
iderw-IsStored pid i c c1 v st e =
    let dev : (c.buf i).dev ≡ 1 = ground arith in
    let same : synced i c ≡ c1 = ground arith in
    (
      subst (λ d. IsStored d v) same
          (record {
            wf = synced-IsCache i c v st.wf st.holds dev;
            holds = synced-Stores i c v st.wf st.holds dev;
          }),
      sym same,
      dev,
    )

-- What bread has done when it returns a buffer.
pub record IsRead (pid i blockno : ℕ) (c : Cache) (v : ℕ → Data) : Type 0 where
  pub key : HasBlock c i blockno
  pub full : (c.buf i).valid ≡ true
  pub mine : holdingsleep pid (c.buf i).lock ≡ true
  pub latest : (c.buf i).bytes ≡ v blockno

-- The buffer locked, before it is known whether it has to be read.
abbrev pub locked_by : ℕ → Buf → Buf
locked_by pid b = record b { lock = record { locked = 1; pid = pid } }

synced-lock :
    (i : ℕ) (c : Cache)
    → (((synced i c).buf i).lock ≡ (c.buf i).lock) × (((synced i c).buf i).valid ≡ true)
synced-lock i c = ground arith

pub acquired :
    (pid : ℕ) (lk lk1 : Sleeplock)
    → acquiresleep pid lk ≡ some lk1
    → acquiresleep pid lk ≡ some (record { locked = 1; pid = pid })
unfolding acquiresleep
acquired pid lk lk1 e = ground arith

-- The buffer just locked.
module _ (pid i b : ℕ) (c : Cache) (v : ℕ → Data) (st : IsStored c v) (has : HasBlock c i b)
    (mine : holdingsleep pid (c.buf i).lock ≡ true) where
  already : (c.buf i).valid ≡ true → IsRead pid i b c v
  already l = record {
    key = has;
    full = l;
    mine = mine;
    latest = st.holds.cached i has.0 l ∙ ap v has.1;
  }

  fetched : IsStored (synced i c) v → IsRead pid i b (synced i c) v
  fetched st2 =
      let (a, k) = synced-key i c v st.wf st.holds has.0 i in
      let (same, full) = synced-lock i c in
      record {
        key = (a ∙ has.0, k ∙ has.1);
        full = full;
        mine = ap (holdingsleep pid) same ∙ mine;
        latest = st2.holds.cached i (a ∙ has.0) full ∙ ap v (k ∙ has.1);
      }

  read_in-IsStored :
      (flag : Bool) (c1 : Cache) (r : Got)
      → (c.buf i).valid ≡ flag
      → read_in pid i flag c ≡ done (r, c1)
      → IsStored c1 v × (r ≡ got i) × IsRead pid i b c1 v
  unfolding read_in
  read_in-IsStored true c1 r l e =
      let (a, q) = done-pair e in
      (subst (λ d. IsStored d v) q st, sym a, subst (λ d. IsRead pid i b d v) q (already l))
  read_in-IsStored false c1 r l e =
      let (c2, f, g) = >>=-eq-done (iderw pid i c) (λ c2. done (got i, c2)) e in
      let (st2, s, _) = iderw-IsStored pid i c c2 v st f in
      let (a, q) = done-pair g in
      (
        subst (λ d. IsStored d v) q st2,
        sym a,
        subst (λ d. IsRead pid i b d v) (sym s ∙ q) (fetched (subst (λ d. IsStored d v) s st2)),
      )

pub bread_locked-IsStored :
    (pid i b : ℕ) (c c1 : Cache) (r : Got) (v : ℕ → Data)
    → IsStored c v
    → HasBlock c i b
    → bread_locked pid i c ≡ done (r, c1)
    → IsStored c1 v × (r ≡ sleeps i) ⊎ IsStored c1 v × (r ≡ got i) × IsRead pid i b c1 v
unfolding bread_locked holdingsleep
bread_locked-IsStored pid i b c c1 r v st (dev, num) e =
    elim (Option-cases (acquiresleep pid (c.buf i).lock)) [
      | inl t ↦
          let (a, q) = done-pair (rw (t, bread_locked) at e) in
          inl (subst (λ d. IsStored d v) q st, sym a)
      | inr (lk, t) ↦
          let e1 = rw (acquired pid (c.buf i).lock lk t, bread_locked) at e in
          inr (
            read_in-IsStored pid i b c2 v
              (kept-IsStored i (locked_by pid) c v (refl, refl, refl, refl, refl) st)
              (ground (arith, dev), ground (arith, num)) (ground arith) (c.buf i).valid c1 r
              (ground arith) e1)
    ]
  where
    c2 : Cache
    c2 = on_buf i (locked_by pid) c

dirty-IsStored :
    (i : ℕ) (c : Cache) (v : ℕ → Data)
    → IsStored c v
    → (c.buf i).dev ≡ 1
    → (c.buf i).valid ≡ true
    → IsStored (on_buf i (λ b. record b { dirty = true }) c) v
dirty-IsStored i c v st dev full = record {
  wf = record {
    unique = λ j k a b e. st.wf.unique j k (ground arith) (ground arith) (ground arith);
    listed = λ j a. ground (arith, st.wf.listed j);
    kept = λ j a. ground (arith, full, st.wf.kept j);
  };
  holds = record {
    cached = λ j a l. ground (arith, st.holds.cached j);
    on_disk = λ b h. st.holds.on_disk b (λ j a q. ground (arith, h j));
  };
}

pub brelse-IsStored :
    (pid i : ℕ) (c c1 : Cache) (v : ℕ → Data)
    → IsStored c v
    → brelse pid i c ≡ done c1
    → IsStored c1 v
unfolding brelse
brelse-IsStored pid i c c1 v st e = elim (Bool-cases (holdingsleep pid (c.buf i).lock)) [
  | inr n ↦ absurd (refused n)
  | inl h ↦ elim (Bool-cases (sub32 (c.buf i).refcnt 1 == 0)) [
    | inl z ↦
        subst (λ d. IsStored d v) (last_one h z)
          (record {
            wf = agree-IsCache c' front (λ j. (refl, refl, refl, refl, refl)) moved st'.wf;
            holds =
                agree-Stores c' front (λ j. (refl, refl, refl, refl, refl)) v (λ b. refl) st'.holds;
          })
    | inr z ↦ subst (λ d. IsStored d v) (more_wait h z) st'
  ]
]
  where
    c' : Cache
    c' = on_buf i (λ b. record b { lock = releasesleep b.lock; refcnt = sub32 b.refcnt 1 }) c

    front : Cache
    front = record c' { order = i ∷ without i c.order }

    st' : IsStored c' v
    st' =
        kept-IsStored i (λ b. record b { lock = releasesleep b.lock; refcnt = sub32 b.refcnt 1 }) c
          v (refl, refl, refl, refl, refl) st

    moved : (j : ℕ) → member j c.order ≡ true → member j (i ∷ without i c.order) ≡ true
    moved j m = ground (arith, member-without i j c.order)

    refused : holdingsleep pid (c.buf i).lock ≡ false → ⊥
    refused n = ground arith

    last_one :
        holdingsleep pid (c.buf i).lock ≡ true → (sub32 (c.buf i).refcnt 1 == 0) ≡ true → front ≡ c1
    last_one h z = ground arith

    more_wait :
        holdingsleep pid (c.buf i).lock ≡ true → (sub32 (c.buf i).refcnt 1 == 0) ≡ false → c' ≡ c1
    more_wait h z = ground arith

pub iderw-dev : (pid i : ℕ) (c c1 : Cache) → iderw pid i c ≡ done c1 → (c.buf i).dev ≡ 1
unfolding iderw
iderw-dev pid i c c1 e = ground arith

pub bwrite-IsStored :
    (pid i : ℕ) (c c1 : Cache) (v : ℕ → Data)
    → IsStored c v
    → (c.buf i).valid ≡ true
    → bwrite pid i c ≡ done c1
    → IsStored c1 v
unfolding bwrite
bwrite-IsStored pid i c c1 v st full e =
    let (_, _, f) =
      >>=-eq-done (panic_if (not (holdingsleep pid (c.buf i).lock)) "bwrite")
        (λ _. iderw pid i (on_buf i (λ b. record b { dirty = true }) c)) e in
    let dev = iderw-dev pid i (on_buf i (λ b. record b { dirty = true }) c) c1 f in
    let st1 = dirty-IsStored i c v st (ground (arith, dev)) full in
    (iderw-IsStored pid i (on_buf i (λ b. record b { dirty = true }) c) c1 v st1 f).0
