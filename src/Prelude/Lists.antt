-- ===== src/Prelude/Lists.antt =====
-- Lists measured and indexed by native numbers, under the library's names: C arrays.
use Prim.Native.Nat.{ℕ, zero, suc, ◌+◌, ◌-◌, ◌<◌, min}
use mathlib.Core.Path.{◌≡◌, refl, ap, sym}
use mathlib.Core.Logic.{◌≢◌, ◌⊎◌, inl, inr}
use mathlib.Core.List.{List, [], ◌∷◌, ◌++◌, map}
use mathlib.Core.Bool.{Bool, true, false}
use mathlib.Core.Option.{Option, none, some}
use native.Mathlib.Decide.{ℕ_discrete}
use tp2_so.Prelude.Tests.{if◌then◌else◌}
use native.Mathlib.Omega.{arith}

pub List-cases {ℓ} :
    {A : Type ℓ} (xs : List A) → (xs ≡ []) ⊎ ((x : A) × (rest : List A) × (xs ≡ x ∷ rest))
List-cases [] = inl refl
List-cases (x ∷ rest) = inr (x, rest, refl)

module _ {ℓ} {A : Type ℓ} where
  abbrev pub length : List A → ℕ
  length [] = 0
  length (x ∷ xs) = suc (length xs)

  abbrev pub get_elem? : List A → ℕ → Option A
  get_elem? [] i = none
  get_elem? (x ∷ xs) zero = some x
  get_elem? (x ∷ xs) (suc i) = get_elem? xs i

  abbrev pub get_or : List A → ℕ → A → A
  get_or [] i d = d
  get_or (x ∷ xs) zero d = x
  get_or (x ∷ xs) (suc i) d = get_or xs i d

  -- A write out of bounds changes nothing.
  abbrev pub set : List A → ℕ → A → List A
  set [] i v = []
  set (x ∷ xs) zero v = v ∷ xs
  set (x ∷ xs) (suc i) v = x ∷ set xs i v

  -- The element at an index is replaced by its image.
  abbrev pub modify : List A → ℕ → (A → A) → List A
  modify [] i f = []
  modify (x ∷ xs) zero f = f x ∷ xs
  modify (x ∷ xs) (suc i) f = x ∷ modify xs i f

  -- The first index whose element passes the test: a `for` loop that stops there.
  abbrev pub find_index : (A → Bool) → List A → Option ℕ
  find_index test [] = none
  find_index test (x ∷ xs) =
      let rest = find_index test xs in
      if test x then some 0 else elim rest [ none ↦ none | some i ↦ some (suc i) ]

  abbrev pub take : ℕ → List A → List A
  take zero xs = []
  take (suc n) [] = []
  take (suc n) (x ∷ xs) = x ∷ take n xs

  abbrev pub drop : ℕ → List A → List A
  drop zero xs = xs
  drop (suc n) [] = []
  drop (suc n) (x ∷ xs) = drop n xs

  abbrev pub replicate : ℕ → A → List A
  replicate zero a = []
  replicate (suc n) a = a ∷ replicate n a

  -- A predicate of every element, which computes to a tuple.
  abbrev pub All {κ} : (A → Type κ) → List A → Type κ
  All P [] = Unit
  All P (x ∷ xs) = P x × All P xs

module _ {ℓ} {A : Type ℓ} where
  pub length-append : (xs ys : List A) → length (xs ++ ys) ≡ length xs + length ys
  length-append [] ys = omega arith
  length-append (x ∷ xs) ys = omega (arith, length-append xs ys)

  pub length-set : (xs : List A) (i : ℕ) (v : A) → length (set xs i v) ≡ length xs
  length-set [] i v = refl
  length-set (x ∷ xs) zero v = refl
  length-set (x ∷ xs) (suc i) v = ap suc (length-set xs i v)

  pub length-map {κ} : {B : Type κ} (xs : List A) (f : A → B) → length (map f xs) ≡ length xs
  length-map [] f = refl
  length-map (x ∷ xs) f = ap suc (length-map xs f)

  pub length-take : (n : ℕ) (xs : List A) → length (take n xs) ≡ min n (length xs)
  length-take zero xs = omega arith
  length-take (suc n) [] = omega arith
  length-take (suc n) (x ∷ xs) = omega (arith, length-take n xs)

  pub length-drop : (n : ℕ) (xs : List A) → length (drop n xs) ≡ length xs - n
  length-drop zero xs = omega arith
  length-drop (suc n) [] = omega arith
  length-drop (suc n) (x ∷ xs) = omega (arith, length-drop n xs)

  pub length-replicate : (n : ℕ) (a : A) → length (replicate n a) ≡ n
  length-replicate zero a = refl
  length-replicate (suc n) a = ap suc (length-replicate n a)

  pub get_or-set_self :
      (xs : List A) (i : ℕ) (v d : A) → i < length xs → get_or (set xs i v) i d ≡ v
  get_or-set_self [] i v d h = absurd (omega arith)
  get_or-set_self (x ∷ xs) zero v d h = refl
  get_or-set_self (x ∷ xs) (suc i) v d h = get_or-set_self xs i v d (omega arith)

  pub get_or-set_ne :
      (xs : List A) (i j : ℕ) (v d : A) → i ≢ j → get_or (set xs i v) j d ≡ get_or xs j d
  get_or-set_ne [] i j v d h = refl
  get_or-set_ne (x ∷ xs) zero zero v d h = absurd (h refl)
  get_or-set_ne (x ∷ xs) zero (suc j) v d h = refl
  get_or-set_ne (x ∷ xs) (suc i) zero v d h = refl
  get_or-set_ne (x ∷ xs) (suc i) (suc j) v d h = get_or-set_ne xs i j v d (λ e. h (ap suc e))

  pub get_elem?-set_self :
      (xs : List A) (i : ℕ) (v : A) → i < length xs → get_elem? (set xs i v) i ≡ some v
  get_elem?-set_self [] i v h = elim h [ ]
  get_elem?-set_self (x ∷ xs) zero v h = refl
  get_elem?-set_self (x ∷ xs) (suc i) v h = get_elem?-set_self xs i v (omega arith)

  pub get_elem?-set_ne :
      (xs : List A) (i j : ℕ) (v : A) → i ≢ j → get_elem? (set xs i v) j ≡ get_elem? xs j
  get_elem?-set_ne [] i j v h = refl
  get_elem?-set_ne (x ∷ xs) zero zero v h = absurd (h refl)
  get_elem?-set_ne (x ∷ xs) zero (suc j) v h = refl
  get_elem?-set_ne (x ∷ xs) (suc i) zero v h = refl
  get_elem?-set_ne (x ∷ xs) (suc i) (suc j) v h = get_elem?-set_ne xs i j v (λ e. h (ap suc e))

  pub length-modify : (xs : List A) (i : ℕ) (f : A → A) → length (modify xs i f) ≡ length xs
  length-modify [] i f = refl
  length-modify (x ∷ xs) zero f = refl
  length-modify (x ∷ xs) (suc i) f = ap suc (length-modify xs i f)

  pub modify-modify :
      (xs : List A) (i : ℕ) (f g : A → A) → modify (modify xs i f) i g ≡ modify xs i (λ x. g (f x))
  modify-modify [] i f g = refl
  modify-modify (x ∷ xs) zero f g = refl
  modify-modify (x ∷ xs) (suc i) f g = ap (λ l. x ∷ l) (modify-modify xs i f g)

  -- A function that leaves the element as it is leaves the list as it is.
  pub modify-fixed :
      (xs : List A) (i : ℕ) (f : A → A) (d : A)
      → f (get_or xs i d) ≡ get_or xs i d
      → modify xs i f ≡ xs
  modify-fixed [] i f d h = refl
  modify-fixed (x ∷ xs) zero f d h = ap (λ y. y ∷ xs) h
  modify-fixed (x ∷ xs) (suc i) f d h = ap (λ l. x ∷ l) (modify-fixed xs i f d h)

  pub modify-congr :
      (xs : List A) (i : ℕ) (f g : A → A) (d : A)
      → f (get_or xs i d) ≡ g (get_or xs i d)
      → modify xs i f ≡ modify xs i g
  modify-congr [] i f g d h = refl
  modify-congr (x ∷ xs) zero f g d h = ap (λ y. y ∷ xs) h
  modify-congr (x ∷ xs) (suc i) f g d h = ap (λ l. x ∷ l) (modify-congr xs i f g d h)

  pub get_or-modify_self :
      (xs : List A) (i : ℕ) (f : A → A) (d : A)
      → i < length xs
      → get_or (modify xs i f) i d ≡ f (get_or xs i d)
  get_or-modify_self [] i f d h = absurd (omega arith)
  get_or-modify_self (x ∷ xs) zero f d h = refl
  get_or-modify_self (x ∷ xs) (suc i) f d h = get_or-modify_self xs i f d (omega arith)

  pub get_or-modify_ne :
      (xs : List A) (i j : ℕ) (f : A → A) (d : A)
      → i ≢ j
      → get_or (modify xs i f) j d ≡ get_or xs j d
  get_or-modify_ne [] i j f d h = refl
  get_or-modify_ne (x ∷ xs) zero zero f d h = absurd (h refl)
  get_or-modify_ne (x ∷ xs) zero (suc j) f d h = refl
  get_or-modify_ne (x ∷ xs) (suc i) zero f d h = refl
  get_or-modify_ne (x ∷ xs) (suc i) (suc j) f d h = get_or-modify_ne xs i j f d (λ e. h (ap suc e))

  -- An index is the one that is modified, or another.
  pub get_or-modify_cases :
      (xs : List A) (i j : ℕ) (f : A → A) (d : A)
      → i < length xs
      → ((j ≡ i) × (get_or (modify xs i f) j d ≡ f (get_or xs i d)))
        ⊎ (get_or (modify xs i f) j d ≡ get_or xs j d) × (j ≢ i)
  get_or-modify_cases xs i j f d h = elim (ℕ_discrete j i) [
    | yes e ↦ inl (e, rw e (get_or-modify_self xs i f d h))
    | no ne ↦ inr (get_or-modify_ne xs i j f d (λ e. ne (sym e)), ne)
  ]

  pub get_or-map {κ} :
      {B : Type κ} (f : A → B) (xs : List A) (i : ℕ) (d : A) (e : B)
      → i < length xs
      → get_or (map f xs) i e ≡ f (get_or xs i d)
  get_or-map f [] i d e h = absurd (omega arith)
  get_or-map f (x ∷ xs) zero d e h = refl
  get_or-map f (x ∷ xs) (suc i) d e h = get_or-map f xs i d e (omega arith)

  -- What `find_index` finds: an index in range whose element passes, the first such.
  pub find_index-some :
      (test : A → Bool) (xs : List A) (i : ℕ) (d : A)
      → find_index test xs ≡ some i
      → (i < length xs) × (test (get_or xs i d) ≡ true)
  find_index-some test [] i d h = absurd (cc)
  find_index-some test (x ∷ xs) zero d h = ground arith
  find_index-some test (x ∷ xs) (suc i) d h = ground (arith, find_index-some test xs i d)

  pub find_index-first :
      (test : A → Bool) (xs : List A) (i j : ℕ) (d : A)
      → find_index test xs ≡ some i
      → j < i
      → test (get_or xs j d) ≡ false
  find_index-first test [] i j d h l = absurd (cc)
  find_index-first test (x ∷ xs) zero j d h l = absurd (omega arith)
  find_index-first test (x ∷ xs) (suc i) zero d h l = ground arith
  find_index-first test (x ∷ xs) (suc i) (suc j) d h l =
      ground (arith, find_index-first test xs i j d)

  pub find_index-none :
      (test : A → Bool) (xs : List A) (j : ℕ) (d : A)
      → find_index test xs ≡ none
      → j < length xs
      → test (get_or xs j d) ≡ false
  find_index-none test [] j d h l = absurd (omega arith)
  find_index-none test (x ∷ xs) zero d h l = ground arith
  find_index-none test (x ∷ xs) (suc j) d h l = ground (arith, find_index-none test xs j d)
