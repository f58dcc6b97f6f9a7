-- ===== src/Bio/Refs.antt =====
-- The references to the buffers of the cache: a holder of the reference (i, b) has got buffer i for
-- block b from bget, and gives it back with brelse.
use native.Mathlib.Decide.{ℕ_discrete}
use tp2_so.Prelude.{
  ℕ, ◌+◌, ◌<◌, ◌≤◌, ◌^◌, ◌≡◌, ◌≢◌, ◌∙◌, refl, sym, subst, Bool, true, false, ◌&&◌, ◌||◌, Bool-cases,
  inl, inr, List, [], ◌∷◌, arith, ◌==◌, if◌then◌else◌, length,
}
use tp2_so.Bio.{Buf, Cache, on_buf}

unfoldable pub count : List (ℕ × ℕ) → ℕ → ℕ
count [] i = 0
count ((j, d) ∷ hs) i = (if j == i then 1 else 0) + count hs i

unfoldable pub has_ref : List (ℕ × ℕ) → ℕ → ℕ → Bool
has_ref [] i b = false
has_ref ((j, d) ∷ hs) i b = j == i && d == b || has_ref hs i b

pub drop_ref : List (ℕ × ℕ) → ℕ → ℕ → List (ℕ × ℕ)
drop_ref [] i b = []
drop_ref ((j, d) ∷ hs) i b = if j == i && d == b then hs else (j, d) ∷ drop_ref hs i b

-- What the references say of one buffer.
pub record IsCounted (hs : List (ℕ × ℕ)) (i : ℕ) (b : Buf) : Type 0 where
  pub counted : b.refcnt ≡ count hs i
  pub few : count hs i < 2 ^ 32
  pub keys : (d : ℕ) → has_ref hs i d ≡ true → (b.dev ≡ 1) × (b.blockno ≡ d)
  pub full : b.lock.locked ≢ 0 → (b.valid ≡ true) × (0 < count hs i)

abbrev pub AreCounted : List (ℕ × ℕ) → Cache → Type 0
AreCounted hs c = (i : ℕ) → IsCounted hs i (c.buf i)

pub count-has_ref : (hs : List (ℕ × ℕ)) (i b : ℕ) → has_ref hs i b ≡ true → 0 < count hs i
unfolding count has_ref
count-has_ref [] i b h = absurd (ground arith)
count-has_ref ((j, d) ∷ hs) i b h = ground (arith, count-has_ref hs i b)

pub count-le-length : (hs : List (ℕ × ℕ)) (i : ℕ) → count hs i ≤ length hs
unfolding count
count-le-length [] i = omega arith
count-le-length ((j, d) ∷ hs) i = ground (arith, count-le-length hs i)

pub count-drop_ref :
    (hs : List (ℕ × ℕ)) (i b : ℕ)
    → has_ref hs i b ≡ true
    → count hs i ≡ count (drop_ref hs i b) i + 1
unfolding count has_ref drop_ref
count-drop_ref [] i b h = absurd (ground arith)
count-drop_ref ((j, d) ∷ hs) i b h = ground (arith, count-drop_ref hs i b)

pub count-drop_ref_ne :
    (hs : List (ℕ × ℕ)) (i b j : ℕ) → i ≢ j → count (drop_ref hs i b) j ≡ count hs j
unfolding count drop_ref
count-drop_ref_ne [] i b j ne = refl
count-drop_ref_ne ((k, d) ∷ hs) i b j ne = ground (arith, count-drop_ref_ne hs i b j ne)

pub has_ref-drop_ref :
    (hs : List (ℕ × ℕ)) (i b j e : ℕ) → has_ref (drop_ref hs i b) j e ≡ true → has_ref hs j e ≡ true
unfolding has_ref drop_ref
has_ref-drop_ref [] i b j e h = h
has_ref-drop_ref ((k, d) ∷ hs) i b j e h = elim (Bool-cases (k == i && d == b)) [
  | inl c ↦ ground arith
  | inr c ↦ ground (arith, has_ref-drop_ref hs i b j e)
]

-- A buffer changes, and the references to it; those to other buffers stay.
pub on_buf-AreCounted :
    (i : ℕ) (f : Buf → Buf) (c : Cache) (hs hs1 : List (ℕ × ℕ))
    → ((j : ℕ) → i ≢ j → IsCounted hs j (c.buf j) → IsCounted hs1 j (c.buf j))
    → IsCounted hs1 i (f (c.buf i))
    → AreCounted hs c
    → AreCounted hs1 (on_buf i f c)
on_buf-AreCounted i f c hs hs1 others one st j = elim (ℕ_discrete i j) [
  | yes e ↦
      subst (IsCounted hs1 j) (ground (arith, e)) (subst (λ k. IsCounted hs1 k (f (c.buf i))) e one)
  | no ne ↦ subst (IsCounted hs1 j) (ground (arith, ne)) (others j ne (st j))
]

-- A reference more.
pub others-more :
    (i b : ℕ) (hs : List (ℕ × ℕ)) (j : ℕ) (p : Buf)
    → i ≢ j
    → IsCounted hs j p
    → IsCounted ((i, b) ∷ hs) j p
unfolding count has_ref
others-more i b hs j p ne s = record {
  counted = ground (arith, ne, s.counted);
  few = ground (arith, ne, s.few);
  keys = λ d h. s.keys d (ground (arith, ne));
  full = λ l. (ground (arith, s.full l), ground (arith, ne, s.full l));
}

-- A reference less.
pub others-fewer :
    (i b : ℕ) (hs : List (ℕ × ℕ)) (j : ℕ) (p : Buf)
    → i ≢ j
    → IsCounted hs j p
    → IsCounted (drop_ref hs i b) j p
others-fewer i b hs j p ne s = record {
  counted = s.counted ∙ sym (count-drop_ref_ne hs i b j ne);
  few = rw (count-drop_ref_ne hs i b j ne) s.few;
  keys = λ d h. s.keys d (has_ref-drop_ref hs i b j d h);
  full = λ l. ((s.full l).0, rw (count-drop_ref_ne hs i b j ne) ((s.full l).1));
}
