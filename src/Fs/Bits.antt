-- ===== src/Fs/Bits.antt =====
-- Setting and clearing a bit of a byte, by evaluation.
use tp2_so.Prelude.{
  ℕ, zero, suc, ◌+◌, ◌-◌, ◌*◌, ◌/◌, ◌%◌, ◌^◌, ◌<◌, ◌≡◌, refl, sym, Bool, true, false, not, ◌&&◌,
  arith, if◌then◌else◌, ◌==◌, ltb, bit_and, bit_or, subst,
}

all_below : ℕ → (ℕ → Bool) → Bool
all_below zero p = true
all_below (suc n) p = p n && all_below n p

all_below_lem : (n : ℕ) (p : ℕ → Bool) (x : ℕ) → all_below n p ≡ true → x < n → p x ≡ true
unfolding all_below
all_below_lem zero p x h lt = absurd (omega arith)
all_below_lem (suc n) p x h lt = ground (arith, all_below_lem n p x)

same_bool : Bool → Bool → Bool
same_bool true b = b
same_bool false b = not b

same_bool-eq : (a b : Bool) → same_bool a b ≡ true → a ≡ b
unfolding same_bool
same_bool-eq true b h = sym h
same_bool-eq false true h = h
same_bool-eq false false h = refl

-- Is bit `k` clear?
abbrev pub clear : ℕ → ℕ → Bool
clear x k = bit_and x (2 ^ k) == 0

set_ok : ℕ → ℕ → ℕ → Bool
unfolding same_bool
set_ok x j k =
    same_bool (clear (bit_or x (2 ^ j)) k) (if j == k then false else clear x k)
    && ltb (bit_or x (2 ^ j)) 256

clear_ok : ℕ → ℕ → ℕ → Bool
unfolding same_bool
clear_ok x j k =
    same_bool (clear (bit_and x (255 - 2 ^ j)) k) (if j == k then true else clear x k)
    && ltb (bit_and x (255 - 2 ^ j)) 256

-- All bytes and all pairs of bits.
abbrev for_all : (ℕ → ℕ → ℕ → Bool) → ℕ → Bool
for_all p n = p (n / 64) (n / 8 % 8) (n % 8)

set_table : all_below 16384 (for_all set_ok) ≡ true
unfolding all_below set_ok
set_table = refl

clear_table : all_below 16384 (for_all clear_ok) ≡ true
unfolding all_below clear_ok
clear_table = refl

for_all-at :
    (p : ℕ → ℕ → ℕ → Bool) (x j k : ℕ)
    → all_below 16384 (for_all p) ≡ true
    → x < 256
    → j < 8
    → k < 8
    → p x j k ≡ true
for_all-at p x j k t a b c =
    let n : ℕ = x * 64 + j * 8 + k in
    let e : n / 64 ≡ x = omega arith in
    let f : n / 8 % 8 ≡ j = omega arith in
    let g : n % 8 ≡ k = omega arith in
    subst (λ z. p x j z ≡ true) g
      (subst (λ y. p x y (n % 8) ≡ true) f
        (subst (λ w. p w (n / 8 % 8) (n % 8) ≡ true) e
          (all_below_lem 16384 (for_all p) n t (omega arith))))

pub bit_or-clear :
    (x j k : ℕ)
    → x < 256
    → j < 8
    → k < 8
    → (clear (bit_or x (2 ^ j)) k ≡ (if j == k then false else clear x k)) × bit_or x (2 ^ j) < 256
unfolding set_ok
bit_or-clear x j k a b c =
    let h = for_all-at set_ok x j k set_table a b c in
    (
      same_bool-eq (clear (bit_or x (2 ^ j)) k) (if j == k then false else clear x k)
          (ground arith),
      ground arith,
    )

pub bit_and-clear :
    (x j k : ℕ)
    → x < 256
    → j < 8
    → k < 8
    → (clear (bit_and x (255 - 2 ^ j)) k ≡ (if j == k then true else clear x k))
      × bit_and x (255 - 2 ^ j) < 256
unfolding clear_ok
bit_and-clear x j k a b c =
    let h = for_all-at clear_ok x j k clear_table a b c in
    (
      same_bool-eq (clear (bit_and x (255 - 2 ^ j)) k) (if j == k then true else clear x k)
          (ground arith),
      ground arith,
    )
