-- ===== src/Str.antt =====
-- string.c: the kernel's byte and string routines. A buffer is the list of its bytes; a pointer
-- into it is the rest of the list. Reads past the end of the modelled bytes give 0.
use tp2_so.Prelude.{ℕ, zero, suc, List, [], ◌∷◌, if◌then◌else◌, ◌==◌, sub32, ◌&&◌, not}

-- memcmp(v1, v2, n): the difference of the first two bytes that differ, or 0.
pub memcmp : List ℕ → List ℕ → ℕ → ℕ
memcmp s1 s2 zero = 0
memcmp [] s2 (suc n) = 0
memcmp (a ∷ s1) [] (suc n) = 0
memcmp (a ∷ s1) (b ∷ s2) (suc n) = if a == b then memcmp s1 s2 n else sub32 a b

-- strncmp(p, q, n). A list that ends stands for a string that ends: its next byte is 0.
unfoldable pub strncmp : List ℕ → List ℕ → ℕ → ℕ
strncmp p q zero = 0
strncmp [] [] (suc n) = 0
strncmp [] (b ∷ q) (suc n) = sub32 0 b
strncmp (a ∷ p) [] (suc n) = a
strncmp (a ∷ p) (b ∷ q) (suc n) = if not (a == 0) && (a == b) then strncmp p q n else sub32 a b

-- strncpy(s, t, n): the `n` bytes written at `s`, padded with 0.
unfoldable pub pad : ℕ → List ℕ
pad zero = []
pad (suc n) = 0 ∷ pad n

unfoldable pub strncpy : List ℕ → ℕ → List ℕ
unfolding pad
strncpy t zero = []
strncpy [] (suc n) = 0 ∷ pad n
strncpy (c ∷ t) (suc n) = c ∷ (if c == 0 then pad n else strncpy t n)

-- The loop of safestrcpy: at most `n` bytes, up to and including a terminating 0; the last of the
-- buffer's bytes written is `*s = 0`.
copy_bytes : List ℕ → List ℕ → ℕ → List ℕ
copy_bytes [] t n = []
copy_bytes (d ∷ s) t zero = 0 ∷ s
copy_bytes (d ∷ s) [] (suc n) = 0 ∷ (elim s [ [] ↦ [] | e ∷ r ↦ 0 ∷ r ])
copy_bytes (d ∷ s) (c ∷ t) (suc n) =
    let rest = copy_bytes s t n in
    if c == 0 then 0 ∷ (elim s [ [] ↦ [] | e ∷ r ↦ 0 ∷ r ]) else c ∷ rest

-- safestrcpy(s, t, n), as the new contents of the buffer at `s`.
pub safestrcpy : List ℕ → List ℕ → ℕ → List ℕ
unfolding copy_bytes
safestrcpy s t zero = s
safestrcpy s t (suc n) = copy_bytes s t n

-- strlen(s): bytes before the first 0.
pub strlen : List ℕ → ℕ
strlen [] = 0
strlen (c ∷ s) = if c == 0 then 0 else suc (strlen s)
