-- ===== src/Ftable/Handles.antt =====
-- The references that the processes hold, against the counts of the table.
use tp2_so.Prelude.{
  ℕ, zero, suc, ◌-◌, ◌^◌, ◌<◌, ◌≡◌, ◌≢◌, ◌∙◌, refl, ap, sym, subst, subst₂, true, false, Bool-cases,
  Option-cases, inl, inr, ◌⊎◌, Option, none, some, List, [], ◌∷◌, arith, if◌then◌else◌, ◌==◌, slt32,
  add32, sub32, length, get_or, modify, find_index, replicate, get_or-modify_self, get_or-modify_ne,
  find_index-some, done, done-pair,
}
use tp2_so.Ftable.{
  File, fd_none, zero_file, with_ref, nfile, filealloc, filedup, fileclose, Closing, still_open,
  last_close,
}

-- How often an index is on a list, and the list without one of it.
unfoldable pub count : ℕ → List ℕ → ℕ
count i [] = 0
count i (j ∷ js) = if i == j then suc (count i js) else count i js

pub drop_one : ℕ → List ℕ → List ℕ
drop_one i [] = []
drop_one i (j ∷ js) = let rest = drop_one i js in if i == j then js else j ∷ rest

-- Calls of processes that hold references: `held` has an index for each reference. A holder may change
-- the other fields of its file.
pub data Held : List File → List ℕ → Type 0 where
  boots : Held (replicate nfile zero_file) []
  allocates :
      {t : List File} {held : List ℕ} (i : ℕ) {t1 : List File}
      → Held t held
      → filealloc t ≡ (some i, t1)
      → Held t1 (i ∷ held)
  sets :
      {t : List File} {held : List ℕ} (i : ℕ) (g : File → File)
      → Held t held
      → count i held ≢ 0
      → ((f : File) → (g f).ref ≡ f.ref)
      → Held (modify t i g) held
  dups :
      {t : List File} {held : List ℕ} (i : ℕ) {t1 : List File}
      → Held t held
      → count i held ≢ 0
      → count i held < 2 ^ 31 - 1
      → filedup i t ≡ done t1
      → Held t1 (i ∷ held)
  closes :
      {t : List File} {held : List ℕ} (i : ℕ) (c : Closing) {t1 : List File}
      → Held t held
      → count i held ≢ 0
      → fileclose i t ≡ done (c, t1)
      → Held t1 (drop_one i held)

-- The table counts the references.
pub record IsCounted (t : List File) (held : List ℕ) : Type 0 where
  pub refs : (i : ℕ) → (get_or t i zero_file).ref ≡ count i held
  pub small : (i : ℕ) → count i held < 2 ^ 31

-- An index with references is in the table.
pub in_range : (t : List File) (i : ℕ) → (get_or t i zero_file).ref ≢ 0 → i < length t
in_range [] i n = absurd (n refl)
in_range (f ∷ t) zero n = omega arith
in_range (f ∷ t) (suc i) n = let lt = in_range t i n in omega arith

get_or-modify_file :
    (t : List File) (i j : ℕ) (g : File → File)
    → i < length t
    → (get_or (modify t i g) j zero_file).ref
      ≡ (if i == j then (g (get_or t i zero_file)).ref else (get_or t j zero_file).ref)
get_or-modify_file t i j g h = elim (Bool-cases (i == j)) [
  | inl e ↦
      let same : i ≡ j = ground arith in
      rw (e) (
        subst (λ k. (get_or (modify t i g) k zero_file).ref ≡ (g (get_or t i zero_file)).ref) same
          (ap (λ f. f.ref) (get_or-modify_self t i g zero_file h)))
  | inr e ↦ rw (e) (ap (λ f. f.ref) (get_or-modify_ne t i j g zero_file (λ q. apart e q)))
]
  where
    apart : (i == j) ≡ false → i ≡ j → ⊥
    apart e q = ground arith

pub count-drop_one :
    (i j : ℕ) (held : List ℕ)
    → count j (drop_one i held) ≡ (if i == j then count j held - 1 else count j held)
unfolding count drop_one
count-drop_one i j [] = ground arith
count-drop_one i j (k ∷ held) = ground (arith, count-drop_one i j held)

pub drop_one-head : (i : ℕ) (held : List ℕ) → drop_one i (i ∷ held) ≡ held
unfolding drop_one
drop_one-head i held = let same : (i == i) ≡ true = ground arith in rw (same) refl

-- A file whose count becomes what its references become.
modified-IsCounted :
    (t : List File) (held held1 : List ℕ) (i : ℕ) (g : File → File)
    → i < length t
    → (g (get_or t i zero_file)).ref ≡ count i held1
    → ((j : ℕ) → (i == j) ≡ false → count j held1 ≡ count j held)
    → count i held1 < 2 ^ 31
    → IsCounted t held
    → IsCounted (modify t i g) held1
modified-IsCounted t held held1 i g h now others lt ct = record {
  refs = λ j. get_or-modify_file t i j g h ∙ elim (Bool-cases (i == j)) [
    | inl e ↦ let same : i ≡ j = ground arith in rw (e) (now ∙ ap (λ k. count k held1) same)
    | inr e ↦ rw (e) (ct.refs j ∙ sym (others j e))
  ];
  small = λ j. elim (Bool-cases (i == j)) [
    | inl e ↦ let same : i ≡ j = ground arith in subst (λ k. count k held1 < 2 ^ 31) same lt
    | inr e ↦ subst (λ n. n < 2 ^ 31) (sym (others j e)) (ct.small j)
  ];
}

-- The calls on a file with references.
module _ (t : List File) (held : List ℕ) (ct : IsCounted t held) (i : ℕ)
    (n : count i held ≢ 0) where
  pub ref_held : (get_or t i zero_file).ref ≢ 0
  ref_held z = n (sym (ct.refs i) ∙ z)

  not_less : slt32 (get_or t i zero_file).ref 1 ≡ false
  not_less = ground (arith, ct.refs i, ct.small i, n)

  pub filedup-done : filedup i t ≡ done (modify t i (λ f. with_ref (add32 f.ref 1) f))
  unfolding filedup
  filedup-done = rw (not_less) refl

  dup-IsCounted :
      count i held < 2 ^ 31 - 1
      → IsCounted (modify t i (λ f. with_ref (add32 f.ref 1) f)) (i ∷ held)
  unfolding count
  dup-IsCounted lt =
      modified-IsCounted t held (i ∷ held) i (λ f. with_ref (add32 f.ref 1) f)
        (in_range t i ref_held) (ground (arith, ct.refs i, ct.small i)) (λ j e. ground arith)
        (ground arith) ct

  -- The file and the table after a close.
  pub fileclose-cases :
      (count i held ≢ 1)
        × (fileclose i t
            ≡ done (still_open, modify t i (with_ref (sub32 (get_or t i zero_file).ref 1))))
      ⊎ (count i held ≡ 1)
        × (fileclose i t
            ≡ done (
              last_close (get_or t i zero_file).type (get_or t i zero_file),
              modify t i (λ f. record f { ref = 0; type = fd_none }),
            ))
  unfolding fileclose
  fileclose-cases = elim (Bool-cases (slt32 0 (sub32 (get_or t i zero_file).ref 1))) [
    | inl e ↦ inl (λ one. absurd (more e one), rw (not_less, e) refl)
    | inr e ↦ inr (last e, rw (not_less, e) refl)
  ]
    where
      more : slt32 0 (sub32 (get_or t i zero_file).ref 1) ≡ true → count i held ≡ 1 → ⊥
      more e one = ground (arith, ct.refs i)

      last : slt32 0 (sub32 (get_or t i zero_file).ref 1) ≡ false → count i held ≡ 1
      last e = ground (arith, ct.refs i, ct.small i, n)

  close-IsCounted :
      (c : Closing) (t1 : List File) → fileclose i t ≡ done (c, t1) → IsCounted t1 (drop_one i held)
  close-IsCounted c t1 e = elim fileclose-cases [
    | inl (m, f) ↦
        let (_, q) = done-pair (sym f ∙ e) in
        subst (λ x. IsCounted x (drop_one i held)) q
          (modified-IsCounted t held (drop_one i held) i
            (with_ref (sub32 (get_or t i zero_file).ref 1)) (in_range t i ref_held)
            (ground (arith, ct.refs i, ct.small i, count-drop_one i i held, n))
            (λ j e. ground (arith, count-drop_one i j held))
            (ground (arith, count-drop_one i i held, ct.small i)) ct)
    | inr (one, f) ↦
        let (_, q) = done-pair (sym f ∙ e) in
        subst (λ x. IsCounted x (drop_one i held)) q
          (modified-IsCounted t held (drop_one i held) i (λ f. record f { ref = 0; type = fd_none })
            (in_range t i ref_held) (ground (arith, count-drop_one i i held, one))
            (λ j e. ground (arith, count-drop_one i j held))
            (ground (arith, count-drop_one i i held, one)) ct)
  ]

pub filealloc-IsCounted :
    (t : List File) (held : List ℕ) (i : ℕ) (t1 : List File)
    → IsCounted t held
    → filealloc t ≡ (some i, t1)
    → IsCounted t1 (i ∷ held) × (count i held ≡ 0)
unfolding filealloc count
filealloc-IsCounted t held i t1 ct e = elim (Option-cases (find_index (λ f. f.ref == 0) t)) [
  | inl f ↦ absurd (nothing (rw (f, filealloc) at e))
  | inr (k, f) ↦
      let (lt, free) = find_index-some (λ f. f.ref == 0) t k zero_file f in
      let (q1, q2) = pair (rw (f, filealloc) at e) in
      subst₂ (λ x y. IsCounted y (x ∷ held) × (count x held ≡ 0)) q1 q2
        (
          modified-IsCounted t held (k ∷ held) k (with_ref 1) lt (ground (arith, ct.refs k))
              (λ j e. ground arith) (ground (arith, ct.refs k)) ct,
          ground (arith, ct.refs k),
        )
]
  where
    nothing : {t1 : List File} → ◌≡◌ {A = Option ℕ × List File} (none, t) (some i, t1) → ⊥
    nothing q = let e : ◌≡◌ {A = Option ℕ} none (some i) = ap (λ x. x.0) q in cc

    pair :
        {k : ℕ} {t2 : List File}
        → ◌≡◌ {A = Option ℕ × List File} (some k, t2) (some i, t1)
        → (k ≡ i) × (t2 ≡ t1)
    pair q = let e : ◌≡◌ {A = Option ℕ} (some _) (some i) = ap (λ x. x.0) q in (cc, ap (λ x. x.1) q)

pub Held-IsCounted : {t : List File} {held : List ℕ} → Held t held → IsCounted t held
unfolding count
Held-IsCounted boots = record { refs = λ i. all_free nfile i; small = λ i. omega arith }
  where
    all_free : (n i : ℕ) → (get_or (replicate n zero_file) i zero_file).ref ≡ 0
    all_free zero i = refl
    all_free (suc n) zero = refl
    all_free (suc n) (suc i) = all_free n i
Held-IsCounted (allocates {t} {held} i {t1} before e) =
    (filealloc-IsCounted t held i t1 (Held-IsCounted before) e).0
Held-IsCounted (sets {t} {held} i g before n same) =
    let ct = Held-IsCounted before in
    modified-IsCounted t held held i g (in_range t i (ref_held t held ct i n))
      (same (get_or t i zero_file) ∙ ct.refs i) (λ j e. refl) (ct.small i) ct
Held-IsCounted (dups {t} {held} i {t1} before n lt e) =
    let ct = Held-IsCounted before in
    subst (λ x. IsCounted x (i ∷ held)) (same (sym (filedup-done t held ct i n) ∙ e))
      (dup-IsCounted t held ct i n lt)
  where
    same : {a b : List File} → done a ≡ done b → a ≡ b
    same q = cc
Held-IsCounted (closes {t} {held} i c {t1} before n e) =
    close-IsCounted t held (Held-IsCounted before) i n c t1 e
