-- ===== src/Fs/Path.antt =====
-- fs.c: the elements of a path, against the parts between the slashes of the whole path. A path is the
-- list of its characters before the 0.
use tp2_so.Prelude.{
  ℕ, zero, suc, ◌+◌, ◌<◌, ◌≤◌, ◌≡◌, ◌≢◌, ◌∙◌, refl, ap, sym, subst, false, Bool-cases, inl, inr,
  ◌⊎◌, Option, none, some, List, [], ◌∷◌, ◌++◌, arith, if◌then◌else◌, ◌==◌, leb, length, take, drop,
  All,
}
use tp2_so.Ulib.{c_string}

abbrev pub dirsiz : ℕ
dirsiz = 14

-- `while(*path == '/') path++;`
pub skip_slashes : List ℕ → List ℕ
skip_slashes [] = []
skip_slashes (c ∷ path) = let rest = skip_slashes path in if c == b'/' then rest else c ∷ path

-- The characters that `while(*path != '/' && *path != 0) path++;` passes over, and those left.
pub elem_of : List ℕ → List ℕ
elem_of [] = []
elem_of (c ∷ path) = let rest = elem_of path in if c == b'/' then [] else c ∷ rest

pub after_elem : List ℕ → List ℕ
after_elem [] = []
after_elem (c ∷ path) = let rest = after_elem path in if c == b'/' then c ∷ path else rest

-- The element copied to the start of `name`.
pub copy_name : List ℕ → List ℕ → List ℕ
copy_name s name =
    if leb dirsiz (length s)
    then take dirsiz s ++ drop dirsiz name
    else s ++ 0 ∷ drop (length s + 1) name

-- skipelem behind the leading slashes.
pub next_elem : List ℕ → List ℕ → Option (List ℕ × List ℕ)
unfolding skip_slashes elem_of after_elem copy_name
next_elem [] name = none
next_elem (c ∷ path) name =
    some (skip_slashes (after_elem (c ∷ path)), copy_name (elem_of (c ∷ path)) name)

-- The path behind the element, and `name`; none for the null pointer.
pub skipelem : List ℕ → List ℕ → Option (List ℕ × List ℕ)
unfolding skip_slashes next_elem
skipelem path name = next_elem (skip_slashes path) name

-- A path cut at its slashes, from its end on.
put_first : ℕ → List (List ℕ) → List (List ℕ)
put_first c [] = (c ∷ []) ∷ []
put_first c (w ∷ ws) = (c ∷ w) ∷ ws

split : List ℕ → List (List ℕ)
unfolding put_first
split [] = [] ∷ []
split (c ∷ path) = let rest = split path in if c == b'/' then [] ∷ rest else put_first c rest

nonempty : List (List ℕ) → List (List ℕ)
nonempty [] = []
nonempty ([] ∷ ws) = nonempty ws
nonempty ((c ∷ w) ∷ ws) = (c ∷ w) ∷ nonempty ws

-- The parts of a path that are not empty.
unfoldable pub parts : List ℕ → List (List ℕ)
unfolding split nonempty
parts path = nonempty (split path)

skip_slashes-parts : (path : List ℕ) → parts (skip_slashes path) ≡ parts path
unfolding skip_slashes parts split nonempty
skip_slashes-parts [] = refl
skip_slashes-parts (c ∷ path) = elim (Bool-cases (c == b'/')) [
  | inl e ↦ rw (e) (skip_slashes-parts path)
  | inr e ↦ rw (e, e) refl
]

-- The first piece of the cut, and the pieces behind it.
split-elem_of :
    (path : List ℕ)
    → (ws : List (List ℕ)) × (split path ≡ elem_of path ∷ ws)
      × (nonempty ws ≡ parts (after_elem path))
unfolding split elem_of after_elem nonempty parts put_first
split-elem_of [] = ([], refl, refl)
split-elem_of (c ∷ path) = elim (Bool-cases (c == b'/')) [
  | inl e ↦ (split path, rw (e) refl, rw (e, e) refl)
  | inr e ↦ let (ws, s, k) = split-elem_of path in (ws, rw (e, s) refl, rw (e) k)
]

first-apart : (path rest : List ℕ) (c : ℕ) → skip_slashes path ≡ c ∷ rest → (c == b'/') ≡ false
unfolding skip_slashes
first-apart [] rest c e = cc
first-apart (d ∷ path) rest c e = elim (Bool-cases (d == b'/')) [
  | inl s ↦ first-apart path rest c (rw (s) at e)
  | inr s ↦ let same : d ≡ c = heads (rw (s) at e) in subst (λ k. (k == b'/') ≡ false) same s
]
  where
    heads : {xs : List ℕ} → d ∷ xs ≡ c ∷ rest → d ≡ c
    heads q = cc

-- What `name` holds, read as a string of at most `n` characters.
c_string-cut :
    (n : ℕ) (s rest : List ℕ)
    → All (λ c. c ≢ 0) s
    → n ≤ length s
    → c_string (take n (take n s ++ rest)) ≡ take n s
unfolding c_string
c_string-cut zero s rest h le = refl
c_string-cut (suc n) [] rest h le = absurd (omega arith)
c_string-cut (suc n) (c ∷ s) rest (p, h) le =
    let n0 : (c == 0) ≡ false = ground (arith, p) in
    rw (n0) (ap (λ xs. c ∷ xs) (c_string-cut n s rest h (omega arith)))

c_string-whole :
    (n : ℕ) (s rest : List ℕ)
    → All (λ c. c ≢ 0) s
    → length s < n
    → c_string (take n (s ++ 0 ∷ rest)) ≡ take n s
unfolding c_string
c_string-whole zero s rest h lt = absurd (omega arith)
c_string-whole (suc n) [] rest h lt = refl
c_string-whole (suc n) (c ∷ s) rest (p, h) lt =
    let n0 : (c == 0) ≡ false = ground (arith, p) in
    rw (n0) (ap (λ xs. c ∷ xs) (c_string-whole n s rest h (omega arith)))

copy_name-c_string :
    (s name : List ℕ)
    → All (λ c. c ≢ 0) s
    → c_string (take dirsiz (copy_name s name)) ≡ take dirsiz s
unfolding copy_name
copy_name-c_string s name h = elim (Bool-cases (leb dirsiz (length s))) [
  | inl l ↦ rw (l) (c_string-cut dirsiz s (drop dirsiz name) h (ground arith))
  | inr l ↦ rw (l) (c_string-whole dirsiz s (drop (length s + 1) name) h (ground arith))
]

elem_of-All : (path : List ℕ) → All (λ c. c ≢ 0) path → All (λ c. c ≢ 0) (elem_of path)
unfolding elem_of
elem_of-All [] h = tt
elem_of-All (c ∷ path) (p, h) = elim (Bool-cases (c == b'/')) [
  | inl e ↦ rw (e) tt
  | inr e ↦ rw (e) (p, elem_of-All path h)
]

skip_slashes-All : (path : List ℕ) → All (λ c. c ≢ 0) path → All (λ c. c ≢ 0) (skip_slashes path)
unfolding skip_slashes
skip_slashes-All [] h = tt
skip_slashes-All (c ∷ path) (p, h) = elim (Bool-cases (c == b'/')) [
  | inl e ↦ rw (e) (skip_slashes-All path h)
  | inr e ↦ rw (e) (p, h)
]

-- A path that does not start with a slash has a part, if it is not empty.
some_part : (c : ℕ) (path : List ℕ) → (c == b'/') ≡ false → parts (c ∷ path) ≢ []
unfolding parts nonempty split put_first
some_part c path e q =
    let (ws, s, _) = split-elem_of path in
    let cut : split (c ∷ path) ≡ (c ∷ elem_of path) ∷ ws = rw (e, s) refl in
    clash (ap nonempty (sym cut) ∙ q)
  where
    clash : {w : List ℕ} {ws : List (List ℕ)} → (c ∷ w) ∷ ws ≡ [] → ⊥
    clash q = cc

List-cases : (xs : List ℕ) → (xs ≡ []) ⊎ ((x : ℕ) × (rest : List ℕ) × (xs ≡ x ∷ rest))
List-cases [] = inl refl
List-cases (x ∷ rest) = inr (x, rest, refl)

-- The path left by a call.
pub record IsSkipped (path name : List ℕ) (elem rest name1 : List ℕ) : Type 0 where
  pub result : skipelem path name ≡ some (rest, name1)
  pub first : parts path ≡ elem ∷ parts rest
  pub copied : c_string (take dirsiz name1) ≡ take dirsiz elem
  pub last : (rest ≡ []) × (parts rest ≡ []) ⊎ (rest ≢ []) × (parts rest ≢ [])

-- skipelem of a path of characters that are not 0 returns null if the path has no part, that is nothing
-- but slashes. Else `name` holds the first DIRSIZ characters of the first part, the path returned has the
-- other parts, and it is empty just if there are none.
pub skipelem-parts :
    (path name : List ℕ)
    → All (λ c. c ≢ 0) path
    → (parts path ≡ []) × (skipelem path name ≡ none)
      ⊎ ((elem : List ℕ) × (rest : List ℕ) × (name1 : List ℕ) × IsSkipped path name elem rest name1)
unfolding skipelem next_elem parts split nonempty elem_of
skipelem-parts path name h = elim (List-cases (skip_slashes path)) [
  | inl e ↦ inl (sym (skip_slashes-parts path) ∙ rw (e) refl, rw (e) refl)
  | inr (c, s, e) ↦
      let (ws, cut, left) = split-elem_of (c ∷ s) in
      inr (
        elem_of (c ∷ s),
        skip_slashes (after_elem (c ∷ s)),
        copy_name (elem_of (c ∷ s)) name,
        record {
          result = rw (e) refl;
          first =
              sym (skip_slashes-parts path)
              ∙ (rw (e) (whole c s ws cut (first-apart path s c e))
                  ∙ ap (λ xs. elem_of (c ∷ s) ∷ xs)
                      (left ∙ sym (skip_slashes-parts (after_elem (c ∷ s)))));
          copied =
              copy_name-c_string (elem_of (c ∷ s)) name
                (elem_of-All (c ∷ s) (subst (All (λ c. c ≢ 0)) e (skip_slashes-All path h)));
          last = elim (List-cases (skip_slashes (after_elem (c ∷ s)))) [
            | inl n ↦ inl (n, rw (n) refl)
            | inr (d, r, n) ↦ inr (
              λ z. no_clash (sym n ∙ z),
              λ z. some_part d r (first-apart (after_elem (c ∷ s)) r d n) (ap parts (sym n) ∙ z),
            )
          ];
        },
      )
]
  where
    no_clash : {d : ℕ} {r : List ℕ} → d ∷ r ≡ [] → ⊥
    no_clash q = cc

    whole :
        (c : ℕ) (s : List ℕ) (ws : List (List ℕ))
        → split (c ∷ s) ≡ elem_of (c ∷ s) ∷ ws
        → (c == b'/') ≡ false
        → parts (c ∷ s) ≡ elem_of (c ∷ s) ∷ nonempty ws
    whole c s ws cut f = ap nonempty cut ∙ rw (f) refl
