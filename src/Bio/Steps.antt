-- ===== src/Bio/Steps.antt =====
-- The calls on the buffer cache, in any order, and what bread returns.
use tp2_so.Prelude.{
  ℕ, ◌+◌, ◌<◌, ◌^◌, List, [], length, ◌≡◌, refl, true, inl, inr, ◌⊎◌, ◌∷◌, arith, done, >>=-eq-done,
  subst,
}
use tp2_so.Sleeplock.{holdingsleep}
use tp2_so.Bio.{
  Data, Cache, update, binit, bget, Got, got, sleeps, bread_locked, bread_rest, bread, bwrite,
  brelse, change,
}
use tp2_so.Bio.Store.{change-IsCache, change-Stores}
use tp2_so.Bio.Refs.{has_ref, count, drop_ref, AreCounted, count-has_ref}
use tp2_so.Bio.Counted.{
  bget-AreCounted, bread_locked-AreCounted, change-AreCounted, bwrite-AreCounted, brelse-AreCounted,
}
use tp2_so.Bio.Stored.{
  IsStored, HasBlock, IsRead, bget-IsStored, bread_locked-IsStored, bwrite-IsStored,
  brelse-IsStored,
}

-- A call on the cache: the blocks and the references before it, and those after it.
pub data Call (c : Cache) (v : ℕ → Data) (hs : List (ℕ × ℕ))
    : Cache → (ℕ → Data) → List (ℕ × ℕ) → Type 0 where
  gets :
      (b i : ℕ) {c1 : Cache}
      → length hs + 1 < 2 ^ 32
      → bget 1 b c ≡ done (i, c1)
      → Call c v hs c1 v ((i, b) ∷ hs)
  locks :
      (pid i b : ℕ) (r : Got) {c1 : Cache}
      → has_ref hs i b ≡ true
      → bread_locked pid i c ≡ done (r, c1)
      → Call c v hs c1 v hs
  changes :
      (pid i b : ℕ) (d : Data)
      → has_ref hs i b ≡ true
      → holdingsleep pid (c.buf i).lock ≡ true
      → Call c v hs (change i d c) (update b d v) hs
  writes :
      (pid i b : ℕ) {c1 : Cache}
      → has_ref hs i b ≡ true
      → bwrite pid i c ≡ done c1
      → Call c v hs c1 v hs
  releases :
      (pid i b : ℕ) {c1 : Cache}
      → has_ref hs i b ≡ true
      → brelse pid i c ≡ done c1
      → Call c v hs c1 v (drop_ref hs i b)

-- Sequences of calls from binit on, with no references there.
pub data Calls (disk : ℕ → Data) (size : ℕ) : Cache → (ℕ → Data) → List (ℕ × ℕ) → Type 0 where
  starts : Calls disk size (binit disk size) disk []
  then_call :
      {c c1 : Cache} {v v1 : ℕ → Data} {hs hs1 : List (ℕ × ℕ)}
      → Calls disk size c v hs
      → Call c v hs c1 v1 hs1
      → Calls disk size c1 v1 hs1

abbrev IsInStep : Cache → (ℕ → Data) → List (ℕ × ℕ) → Type 0
IsInStep c v hs = IsStored c v × AreCounted hs c

-- Who holds the lock of a buffer holds it filled.
locked-full :
    (pid i : ℕ) (c : Cache) (hs : List (ℕ × ℕ))
    → AreCounted hs c
    → holdingsleep pid (c.buf i).lock ≡ true
    → (c.buf i).valid ≡ true
unfolding holdingsleep
locked-full pid i c hs st mine = ((st i).full (ground arith)).0

bwrite-holds :
    (pid i : ℕ) (c c1 : Cache) → bwrite pid i c ≡ done c1 → holdingsleep pid (c.buf i).lock ≡ true
unfolding bwrite
bwrite-holds pid i c c1 e = ground arith

Call-IsInStep :
    {c c1 : Cache} {v v1 : ℕ → Data} {hs hs1 : List (ℕ × ℕ)}
    → Call c v hs c1 v1 hs1
    → IsInStep c v hs
    → IsInStep c1 v1 hs1
Call-IsInStep {c} {v = v} {hs = hs} (gets b i {c1} n e) (st, k) =
    ((bget-IsStored b i c c1 v st e).0, bget-AreCounted hs b i c c1 n e k)
Call-IsInStep {c} {v = v} {hs = hs} (locks pid i b r {c1} h e) (st, k) = (
  elim (bread_locked-IsStored pid i b c c1 r v st ((k i).keys b h) e) [
    | inl (st1, _) ↦ st1
    | inr (st1, _, _) ↦ st1
  ],
  bread_locked-AreCounted hs pid i c c1 r (count-has_ref hs i b h) e k,
)
Call-IsInStep {c} {v = v} {hs = hs} (changes pid i b d h mine) (st, k) =
    let full = locked-full pid i c hs k mine in
    let (dev, num) = (k i).keys b h in
    (
      subst (λ x. IsStored (change i d c) (update x d v)) num
          (record {
            wf = change-IsCache i d c v st.wf st.holds dev full;
            holds = change-Stores i d c v st.wf st.holds dev full;
          }),
      change-AreCounted hs i d c k,
    )
Call-IsInStep {c} {v = v} {hs = hs} (writes pid i b {c1} h e) (st, k) = (
  bwrite-IsStored pid i c c1 v st (locked-full pid i c hs k (bwrite-holds pid i c c1 e)) e,
  bwrite-AreCounted hs pid i c c1 (count-has_ref hs i b h) e k,
)
Call-IsInStep {c} {v = v} {hs = hs} (releases pid i b {c1} h e) (st, k) =
    (brelse-IsStored pid i c c1 v st e, brelse-AreCounted hs pid i b c c1 h e k)

binit-IsStored : (disk : ℕ → Data) (size : ℕ) → IsStored (binit disk size) disk
unfolding binit
binit-IsStored disk size = record {
  wf = record {
    unique = λ i j a b e. absurd (omega arith);
    listed = λ i a. absurd (omega arith);
    kept = λ i a. cc;
  };
  holds = record { cached = λ i a l. cc; on_disk = λ b h. refl };
}

binit-AreCounted : (disk : ℕ → Data) (size : ℕ) → AreCounted [] (binit disk size)
unfolding binit count has_ref
binit-AreCounted disk size i = record {
  counted = refl;
  few = omega arith;
  keys = λ d h. absurd (ground arith);
  full = λ l. absurd (l refl);
}

Calls-IsInStep :
    {disk : ℕ → Data} {size : ℕ} {c : Cache} {v : ℕ → Data} {hs : List (ℕ × ℕ)}
    → Calls disk size c v hs
    → IsInStep c v hs
Calls-IsInStep {disk} {size} starts = (binit-IsStored disk size, binit-AreCounted disk size)
Calls-IsInStep (then_call before call) = Call-IsInStep call (Calls-IsInStep before)

-- bread has got the buffer `i` for block `b` and locked it: in one piece, or after it slept on the lock with the
-- reference that it had got before.
abbrev pub BreadReturns : ℕ → ℕ → ℕ → List (ℕ × ℕ) → Cache → Cache → Type 0
BreadReturns pid b i hs c c1 =
    (bread pid 1 b c ≡ done (got i, c1))
    ⊎ (has_ref hs i b ≡ true) × (bread_locked pid i c ≡ done (got i, c1))

locked-latest :
    (c c1 : Cache) (v : ℕ → Data) (pid b i j : ℕ)
    → IsStored c v
    → HasBlock c j b
    → bread_locked pid j c ≡ done (got i, c1)
    → IsRead pid i b c1 v
locked-latest c c1 v pid b i j st has g =
    elim (bread_locked-IsStored pid j b c c1 (got i) v st has g) [
      | inl (_, q) ↦ absurd (awake q)
      | inr (_, q, r) ↦ subst (λ k. IsRead pid k b c1 v) (same q) r
    ]
  where
    awake : {j : ℕ} → got i ≡ sleeps j → ⊥
    awake q = cc

    same : {j : ℕ} → got i ≡ got j → j ≡ i
    same q = cc

-- After any calls on the cache, in any order, each on a buffer to which its caller has a reference and
-- with fewer than 2 ^ 32 references at a time: if bread returns a buffer for a block of the disk, at once or
-- after it slept on the buffer's lock, the buffer holds that block, it is the caller's, it is valid,
-- and it has the bytes that were last given to the block.
pub bread-latest :
    (disk : ℕ → Data) (size : ℕ) (c c1 : Cache) (v : ℕ → Data) (hs : List (ℕ × ℕ)) (pid b i : ℕ)
    → Calls disk size c v hs
    → BreadReturns pid b i hs c c1
    → IsRead pid i b c1 v
unfolding bread bread_rest
bread-latest disk size c c1 v hs pid b i before returned = elim returned [
  | inl e ↦
      let ((j, c2), f, g) = >>=-eq-done (bget 1 b c) (bread_rest pid) e in
      let (st, has) = bget-IsStored b j c c2 v (Calls-IsInStep before).0 f in
      locked-latest c2 c1 v pid b i j st has g
  | inr (h, g) ↦
      let (st, k) = Calls-IsInStep before in locked-latest c c1 v pid b i i st ((k i).keys b h) g
]
