-- ===== src/Bio/Store.antt =====
-- The cache and the disk together are an array of blocks.
use tp2_so.Prelude.{
  ℕ, ◌≡◌, ◌≢◌, ◌∙◌, refl, ap, sym, Bool, true, false, Bool-cases, inl, inr, ◌⊎◌, ◌||◌, none, some,
  List, [], ◌∷◌, ◌++◌, arith, ◌==◌, subst,
}
use tp2_so.Bio.{
  Data, Buf, Cache, update, on_buf, first_in, backwards, recycled, synced, without, change,
}

unfoldable pub member : ℕ → List ℕ → Bool
member i [] = false
member i (j ∷ js) = i == j || member i js

-- Only device 1 has a disk; other buffers have never been used.
pub record IsCache (c : Cache) : Type 0 where
  pub unique :
      (i j : ℕ)
      → (c.buf i).dev ≡ 1
      → (c.buf j).dev ≡ 1
      → (c.buf i).blockno ≡ (c.buf j).blockno
      → i ≡ j
  pub listed : (i : ℕ) → (c.buf i).dev ≡ 1 → member i c.order ≡ true
  pub kept : (i : ℕ) → (c.buf i).dirty ≡ true → (c.buf i).valid ≡ true

-- The cache and the disk hold the blocks `v`: a valid buffer has its block's bytes, and so has the
-- disk, where no buffer is dirty with the block.
pub record Stores (c : Cache) (v : ℕ → Data) : Type 0 where
  pub cached :
      (i : ℕ) → (c.buf i).dev ≡ 1 → (c.buf i).valid ≡ true → (c.buf i).bytes ≡ v (c.buf i).blockno
  pub on_disk :
      (b : ℕ)
      → ((i : ℕ) → (c.buf i).dev ≡ 1 → (c.buf i).blockno ≡ b → (c.buf i).dirty ≡ false)
      → c.disk b ≡ v b

pub first_in-some :
    (test : ℕ → Bool) (is : List ℕ) (i : ℕ) → first_in test is ≡ some i → test i ≡ true
unfolding first_in
first_in-some test [] i e = cc
first_in-some test (j ∷ is) i e = elim (Bool-cases (test j)) [
  | inl t ↦ let same : j ≡ i = ground arith in subst (λ k. test k ≡ true) same t
  | inr f ↦ first_in-some test is i (ground arith)
]

pub first_in-none :
    (test : ℕ → Bool) (is : List ℕ) (i : ℕ)
    → first_in test is ≡ none
    → member i is ≡ true
    → test i ≡ false
unfolding first_in member
first_in-none test [] i e m = cc
first_in-none test (j ∷ is) i e m = elim (Bool-cases (test j)) [
  | inl t ↦ absurd (found t e)
  | inr f ↦ elim (Bool-cases (i == j)) [
    | inl s ↦ let same : j ≡ i = ground arith in subst (λ k. test k ≡ false) same f
    | inr s ↦ first_in-none test is i (ground arith) (ground arith)
  ]
]
  where
    found : test j ≡ true → first_in test (j ∷ is) ≡ none → ⊥
    found t e = ground arith

pub first_in-member :
    (test : ℕ → Bool) (is : List ℕ) (i : ℕ) → first_in test is ≡ some i → member i is ≡ true
unfolding first_in member
first_in-member test [] i e = cc
first_in-member test (j ∷ is) i e = elim (Bool-cases (test j)) [
  | inl t ↦ ground arith
  | inr f ↦ ground (arith, first_in-member test is i (ground arith))
]

member-append : (i : ℕ) (xs ys : List ℕ) → member i (xs ++ ys) ≡ (member i xs || member i ys)
unfolding member
member-append i [] ys = refl
member-append i (x ∷ xs) ys = ground (arith, member-append i xs ys)

pub member-backwards : (i : ℕ) (is : List ℕ) → member i (backwards is) ≡ member i is
unfolding member backwards
member-backwards i [] = refl
member-backwards i (j ∷ is) =
    ground (arith, member-append i (backwards is) (j ∷ []), member-backwards i is)

pub member-without : (i j : ℕ) (is : List ℕ) → member j (i ∷ without i is) ≡ (j == i || member j is)
unfolding member without
member-without i j [] = refl
member-without i j (k ∷ is) = ground (arith, member-without i j is)

-- A change of one buffer that keeps its key, its bytes and its flags.
abbrev pub SameBlock : Buf → Buf → Type 0
SameBlock a b =
    (a.dev ≡ b.dev)
    × (a.blockno ≡ b.blockno)
    × (a.valid ≡ b.valid)
    × (a.dirty ≡ b.dirty)
    × (a.bytes ≡ b.bytes)

on_buf-cases :
    (i j : ℕ) (f : Buf → Buf) (c : Cache)
    → (i ≡ j) × ((on_buf i f c).buf j ≡ f (c.buf i)) ⊎ (i ≢ j) × ((on_buf i f c).buf j ≡ c.buf j)
on_buf-cases i j f c = ground arith

-- A step that leaves every buffer's block as it was.
module _ (c c' : Cache) (s : (j : ℕ) → SameBlock (c.buf j) (c'.buf j)) where
  pub agree-IsCache :
      ((j : ℕ) → member j c.order ≡ true → member j c'.order ≡ true) → IsCache c → IsCache c'
  agree-IsCache o wf = record {
    unique = λ i j a b e. wf.unique i j ((s i).0 ∙ a) ((s j).0 ∙ b) ((s i).1 ∙ (e ∙ sym (s j).1));
    listed = λ i a. o i (wf.listed i ((s i).0 ∙ a));
    kept = λ i a. sym (s i).2 ∙ wf.kept i ((s i).3 ∙ a);
  }

  pub agree-Stores : (v : ℕ → Data) → ((b : ℕ) → c'.disk b ≡ c.disk b) → Stores c v → Stores c' v
  agree-Stores v d st = record {
    cached = λ i a l. sym (s i).4 ∙ (st.cached i ((s i).0 ∙ a) ((s i).2 ∙ l) ∙ ap v (s i).1);
    on_disk =
        λ b h. d b ∙ st.on_disk b (λ i a e. (s i).3 ∙ h i (sym (s i).0 ∙ a) (sym (s i).1 ∙ e));
  }

pub on_buf-SameBlock :
    (i : ℕ) (f : Buf → Buf) (c : Cache)
    → SameBlock (c.buf i) (f (c.buf i))
    → (j : ℕ) → SameBlock (c.buf j) ((on_buf i f c).buf j)
on_buf-SameBlock i f c h j = elim (on_buf-cases i j f c) [
  | inl (e, u) ↦ subst (λ k. SameBlock (c.buf k) ((on_buf i f c).buf j)) e (rw (u) h)
  | inr (e, u) ↦ rw (u) (refl, refl, refl, refl, refl)
]

-- Reading a block in, or writing it back.
module _ (i : ℕ) (c : Cache) (v : ℕ → Data) (wf : IsCache c) (st : Stores c v)
    (dev : (c.buf i).dev ≡ 1) where
  clean : (c.buf i).dirty ≡ false → c.disk (c.buf i).blockno ≡ v (c.buf i).blockno
  clean d = st.on_disk (c.buf i).blockno λ j a e.
      let same : j ≡ i = wf.unique j i a dev e in subst (λ k. (c.buf k).dirty ≡ false) (sym same) d

  pub synced-key :
      (j : ℕ)
      → ((synced i c).buf j).dev ≡ (c.buf j).dev × ((synced i c).buf j).blockno ≡ (c.buf j).blockno
  synced-key j = ground arith

  pub synced-IsCache : IsCache (synced i c)
  synced-IsCache = record {
    unique = λ j k a b e.
        wf.unique j k (sym (synced-key j).0 ∙ a) (sym (synced-key k).0 ∙ b)
          (sym (synced-key j).1 ∙ (e ∙ (synced-key k).1));
    listed = λ j a. subst (λ o. member j o ≡ true) order (wf.listed j (sym (synced-key j).0 ∙ a));
    kept = λ j a. ground (arith, wf.kept j);
  }
    where
      order : c.order ≡ (synced i c).order
      order = ground arith

  pub synced-Stores : Stores (synced i c) v
  synced-Stores = elim (Bool-cases (c.buf i).dirty) [
    | inl d ↦ rw (d) record {
      cached = λ j a l. ground (arith, st.cached j, st.cached i, wf.kept i);
      on_disk = λ b h. elim (Bool-cases ((c.buf i).blockno == b)) [
        | inl e ↦ rw (e) (st.cached i dev (wf.kept i d) ∙ ap v (number e))
        | inr e ↦ rw (e) (st.on_disk b (λ j a q. ground (arith, h j)))
      ];
    }
    | inr d ↦ rw (d) record {
      cached = λ j a l. ground (arith, st.cached j, clean d);
      on_disk = λ b h. st.on_disk b (λ j a q. ground (arith, h j));
    }
  ]
    where
      number : {b : ℕ} → ((c.buf i).blockno == b) ≡ true → (c.buf i).blockno ≡ b
      number e = ground arith

-- A buffer that is not dirty, given to a block that no buffer has.
module _ (i blockno : ℕ) (c : Cache) (v : ℕ → Data) (wf : IsCache c) (st : Stores c v)
    (inside : member i c.order ≡ true) (unused : (c.buf i).dirty ≡ false)
    (absent : (j : ℕ) → (c.buf j).dev ≡ 1 → (c.buf j).blockno ≢ blockno) where
  abbrev pub reused : Cache
  reused = on_buf i (recycled 1 blockno) c

  pub reused-IsCache : IsCache reused
  reused-IsCache = record {
    unique = λ j k a b e. ground (arith, wf.unique j k, absent j, absent k);
    listed = λ j a. ground (arith, inside, wf.listed j);
    kept = λ j a. ground (arith, wf.kept j);
  }

  pub reused-Stores : Stores reused v
  reused-Stores = record {
    cached = λ j a l. ground (arith, st.cached j);
    on_disk = λ b h. st.on_disk b (λ j a q. ground (arith, unused, h j));
  }

-- A changed block.
module _ (i : ℕ) (d : Data) (c : Cache) (v : ℕ → Data) (wf : IsCache c) (st : Stores c v)
    (dev : (c.buf i).dev ≡ 1) (full : (c.buf i).valid ≡ true) where
  pub change-IsCache : IsCache (change i d c)
  change-IsCache = record {
    unique = λ j k a b e. wf.unique j k (ground arith) (ground arith) (ground arith);
    listed = λ j a. ground (arith, wf.listed j);
    kept = λ j a. ground (arith, full, wf.kept j);
  }

  pub change-Stores : Stores (change i d c) (update (c.buf i).blockno d v)
  change-Stores = record {
    cached = λ j a l. ground (arith, st.cached j, wf.unique i j dev);
    on_disk = λ b h. elim (Bool-cases ((c.buf i).blockno == b)) [
      | inl e ↦ absurd (ground (arith, h i))
      | inr e ↦ rw (e) (st.on_disk b (λ j a q. ground (arith, h j)))
    ];
  }
