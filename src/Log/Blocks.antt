-- ===== src/Log/Blocks.antt =====
-- What the loops of the log write to memory and disk, block by block.
use tp2_so.Prelude.{
  ℕ, ◌+◌, ◌-◌, ◌≤◌, ◌<◌, ◌≡◌, ◌∙◌, refl, sym, ap, ◌⊎◌, inl, inr, Bool, true, false, ◌||◌, List, [],
  ◌∷◌, ◌==◌, length, take, arith, All, Bool-cases, subst,
}
use tp2_so.Log.{
  Block, update, Machine, bwrite, put_words, put_head, get_head, write_log, install_trans,
}

-- A block that the log does not occupy: its `size` blocks stand from `start` on, the header first.
abbrev pub IsHome : ℕ → ℕ → ℕ → Type 0
IsHome start size b = (b < start) ⊎ (start + size ≤ b)

unfoldable pub member : ℕ → List ℕ → Bool
member b [] = false
member b (c ∷ bs) = c == b || member b bs

pub member-nil : (b : ℕ) → member b [] ≡ false
unfolding member
member-nil b = refl

-- The blocks of the log from entry `tail` on hold what `value` says of the blocks `bs`.
abbrev pub Holds : (ℕ → Block) → ℕ → ℕ → List ℕ → (ℕ → Block) → Type 0
Holds f start tail [] value = Unit
Holds f start tail (b ∷ bs) value =
    (f (start + tail + 1) ≡ value b) × Holds f start (tail + 1) bs value

take-put_words :
    (xs : List ℕ) (old : Block) → length xs ≤ length old → take (length xs) (put_words xs old) ≡ xs
unfolding put_words
take-put_words [] old h = refl
take-put_words (x ∷ xs) [] h = absurd (omega arith)
take-put_words (x ∷ xs) (o ∷ old) h = ap (λ l. x ∷ l) (take-put_words xs old (omega arith))

-- The header's round trip: read_head reads back the list that write_head wrote, if it is shorter
-- than the block.
pub get_head-put_head :
    (lh : List ℕ) (old : Block) → length lh < length old → get_head (put_head lh old) ≡ lh
unfolding get_head put_head
get_head-put_head lh [] h = absurd (omega arith)
get_head-put_head lh (o ∷ old) h = take-put_words lh old (omega arith)

member-IsHome :
    (start size c : ℕ) (bs : List ℕ)
    → All (IsHome start size) bs
    → member c bs ≡ true
    → IsHome start size c
unfolding member
member-IsHome start size c [] h e = absurd (cc)
member-IsHome start size c (b ∷ bs) h e = elim (Bool-cases (b == c)) [
  | inl q ↦ let same : b ≡ c = ground arith in subst (IsHome start size) same h.0
  | inr q ↦ member-IsHome start size c bs h.1 (ground arith)
]

-- A block that is not home is not among home blocks.
pub member-log :
    (start size c : ℕ) (bs : List ℕ)
    → All (IsHome start size) bs
    → start ≤ c
    → c < start + size
    → member c bs ≡ false
member-log start size c bs h a b = elim (Bool-cases (member c bs)) [
  | inl e ↦
      let i : IsHome start size c = member-IsHome start size c bs h e in absurd (omega (arith, i))
  | inr e ↦ e
]

pub get_head-put_head_nil : (old : Block) → get_head (put_head [] old) ≡ []
unfolding get_head put_head
get_head-put_head_nil [] = refl
get_head-put_head_nil (o ∷ old) = refl

pub Holds-congr :
    (f g : ℕ → Block) (start size tail : ℕ) (bs : List ℕ) (value : ℕ → Block)
    → ((c : ℕ) → start ≤ c → c < start + size → f c ≡ g c)
    → tail + length bs < size
    → Holds f start tail bs value
    → Holds g start tail bs value
Holds-congr f g start size tail [] value e l h = tt
Holds-congr f g start size tail (b ∷ bs) value e l h = (
  sym (e (start + tail + 1) (omega arith) (omega arith)) ∙ h.0,
  Holds-congr f g start size (tail + 1) bs value e (omega arith) h.1,
)

pub Holds-update :
    (f : ℕ → Block) (start tail c : ℕ) (v : Block) (bs : List ℕ) (value : ℕ → Block)
    → (c < start + tail + 1) ⊎ (start + tail + length bs < c)
    → Holds f start tail bs value
    → Holds (update f c v) start tail bs value
Holds-update f start tail c v [] value o h = tt
Holds-update f start tail c v (b ∷ bs) value o h =
    (ground arith, Holds-update f start (tail + 1) c v bs value (omega arith) h.1)

module _ (start size : ℕ) where
  -- A dead disk does not change.
  pub install-dead :
      (tail : ℕ) (bs : List ℕ) (m : Machine)
      → m.power ≡ 0
      → (install_trans start tail bs m).disk ≡ m.disk
  unfolding install_trans bwrite
  install-dead tail [] m h = refl
  install-dead tail (b ∷ bs) m h =
      install-dead (tail + 1) bs (bwrite b (m.memory (start + tail + 1)) m) (ground arith)
      ∙ rw h refl

  pub power-install :
      (tail : ℕ) (bs : List ℕ) (m : Machine)
      → (install_trans start tail bs m).power ≡ m.power - length bs
  unfolding install_trans bwrite
  power-install tail [] m = omega arith
  power-install tail (b ∷ bs) m =
      power-install (tail + 1) bs (bwrite b (m.memory (start + tail + 1)) m) ∙ omega arith

  -- Installing writes the listed blocks only.
  pub install-disk_other :
      (tail : ℕ) (bs : List ℕ) (m : Machine) (c : ℕ)
      → member c bs ≡ false
      → (install_trans start tail bs m).disk c ≡ m.disk c
  unfolding install_trans member bwrite
  install-disk_other tail [] m c h = refl
  install-disk_other tail (b ∷ bs) m c h =
      install-disk_other (tail + 1) bs (bwrite b (m.memory (start + tail + 1)) m) c (ground arith)
      ∙ ground arith

  -- With power for all of them each listed block gets its value.
  pub install-disk :
      (tail : ℕ) (bs : List ℕ) (m : Machine) (value : ℕ → Block) (c : ℕ)
      → Holds m.memory start tail bs value
      → All (IsHome start size) bs
      → tail + length bs < size
      → length bs ≤ m.power
      → member c bs ≡ true
      → (install_trans start tail bs m).disk c ≡ value c
  unfolding install_trans member
  install-disk tail [] m value c h a f p e = absurd (cc)
  install-disk tail (b ∷ bs) m value c h a f p e = elim (Bool-cases (member c bs)) [
    | inl q ↦
        install-disk (tail + 1) bs m1 value c holds1 a.1 (omega arith)
          (unfold bwrite in omega arith) q
    | inr q ↦
        let same : b ≡ c = ground arith in
        install-disk_other (tail + 1) bs m1 c q ∙ (unfold bwrite in ground (arith, h.0))
  ]
    where
      m1 : Machine
      m1 = bwrite b (m.memory (start + tail + 1)) m

      holds1 : Holds m1.memory start (tail + 1) bs value
      holds1 =
          unfold bwrite in
          Holds-update m.memory start (tail + 1) b (m.memory (start + tail + 1)) bs value
            (omega (arith, a.0)) h.1

  -- Without power for all, each listed block still has its old contents or its value.
  pub install-disk_either :
      (tail : ℕ) (bs : List ℕ) (m : Machine) (value : ℕ → Block) (c : ℕ)
      → Holds m.memory start tail bs value
      → All (IsHome start size) bs
      → tail + length bs < size
      → ((install_trans start tail bs m).disk c ≡ m.disk c)
        ⊎ ((install_trans start tail bs m).disk c ≡ value c)
  unfolding install_trans member
  install-disk_either tail [] m value c h a f = inl refl
  install-disk_either tail (b ∷ bs) m value c h a f =
      elim (install-disk_either (tail + 1) bs m1 value c holds1 a.1 (omega arith)) [
        | inr e ↦ inr e
        | inl e ↦
            unfold bwrite in
            elim (Bool-cases (b == c)) [
              | inr q ↦ inl (e ∙ ground arith)
              | inl q ↦ elim (Bool-cases (m.power == 0)) [
                | inl z ↦ inl (e ∙ ground arith)
                | inr z ↦ let same : b ≡ c = ground arith in inr (e ∙ ground (arith, h.0))
              ]
            ]
      ]
    where
      m1 : Machine
      m1 = bwrite b (m.memory (start + tail + 1)) m

      holds1 : Holds m1.memory start (tail + 1) bs value
      holds1 =
          unfold bwrite in
          Holds-update m.memory start (tail + 1) b (m.memory (start + tail + 1)) bs value
            (omega (arith, a.0)) h.1

  -- write_log writes blocks of the log only.
  pub write_log-disk_other :
      (tail : ℕ) (bs : List ℕ) (m : Machine) (c : ℕ)
      → (c ≤ start + tail) ⊎ (start + tail + length bs < c)
      → (write_log start tail bs m).disk c ≡ m.disk c
  unfolding write_log bwrite
  write_log-disk_other tail [] m c h = refl
  write_log-disk_other tail (b ∷ bs) m c h =
      write_log-disk_other (tail + 1) bs (bwrite (start + tail + 1) (m.memory b) m) c (omega arith)
      ∙ ground arith

  pub write_log-memory_other :
      (tail : ℕ) (bs : List ℕ) (m : Machine) (c : ℕ)
      → (c ≤ start + tail) ⊎ (start + tail + length bs < c)
      → (write_log start tail bs m).memory c ≡ m.memory c
  unfolding write_log bwrite
  write_log-memory_other tail [] m c h = refl
  write_log-memory_other tail (b ∷ bs) m c h =
      write_log-memory_other (tail + 1) bs (bwrite (start + tail + 1) (m.memory b) m) c
        (omega arith)
      ∙ ground arith

  pub power-write_log :
      (tail : ℕ) (bs : List ℕ) (m : Machine)
      → (write_log start tail bs m).power ≡ m.power - length bs
  unfolding write_log bwrite
  power-write_log tail [] m = omega arith
  power-write_log tail (b ∷ bs) m =
      power-write_log (tail + 1) bs (bwrite (start + tail + 1) (m.memory b) m) ∙ omega arith

  -- After write_log the log holds the contents of the listed blocks, on the disk too if the power
  -- lasts.
  pub write_log-Holds :
      (tail : ℕ) (bs : List ℕ) (m : Machine) (value : ℕ → Block)
      → ((c : ℕ) → IsHome start size c → m.memory c ≡ value c)
      → All (IsHome start size) bs
      → tail + length bs < size
      → length bs ≤ m.power
      → Holds (write_log start tail bs m).disk start tail bs value
        × Holds (write_log start tail bs m).memory start tail bs value
  unfolding write_log
  write_log-Holds tail [] m value v a f p = (tt, tt)
  write_log-Holds tail (b ∷ bs) m value v a f p =
      let (d, r) =
        write_log-Holds (tail + 1) bs m1 value v1 a.1 (omega arith)
          (unfold bwrite in omega arith) in
      (
        (write_log-disk_other (tail + 1) bs m1 (start + tail + 1) (omega arith) ∙ here_disk, d),
        (write_log-memory_other (tail + 1) bs m1 (start + tail + 1) (omega arith) ∙ here_memory, r),
      )
    where
      m1 : Machine
      m1 = bwrite (start + tail + 1) (m.memory b) m

      v1 : (c : ℕ) → IsHome start size c → m1.memory c ≡ value c
      v1 = unfold bwrite in λ c i. ground (arith, v c i)

      here_disk : m1.disk (start + tail + 1) ≡ value b
      here_disk = unfold bwrite in ground (arith, v b a.0)

      here_memory : m1.memory (start + tail + 1) ≡ value b
      here_memory = unfold bwrite in ground (arith, v b a.0)
