-- ===== src/Pipe/Blocking.antt =====
-- When pipewrite and piperead return, fail or sleep, and whom they wake.
use tp2_so.Prelude.{
  ℕ, zero, suc, ◌≡◌, refl, Bool, true, false, Bool-cases, inl, inr, ◌⊎◌, ◌&&◌, ◌||◌, not, List, [],
  ◌∷◌, arith, if◌then◌else◌, length, cons-ne-nil, min, ◌≢◌,
}
use tp2_so.Pipe.{
  Pipe, Status, End, readers, writers, asleep, returned, failed, put, pop, is_full, is_empty,
  pipewrite, piperead, drain,
}
use tp2_so.Pipe.Ring.{IsPipe, count, pop-IsPipe}

-- What each way to end a piece of pipewrite means.
pub Ends : Bool → Pipe → Status → List ℕ → List End → Type 0
Ends killed q returned left woken = (left ≡ []) × (woken ≡ readers ∷ [])
Ends killed q failed left woken =
    (left ≢ []) × (is_full q ≡ true) × ((not q.readopen || killed) ≡ true)
Ends killed q asleep left woken =
    (left ≢ [])
    × (is_full q ≡ true)
    × (q.readopen ≡ true)
    × (killed ≡ false)
    × (woken ≡ readers ∷ [])

-- pipewrite returns exactly when nothing is left, having woken the readers; it fails only at a full
-- ring whose read end is closed or when the process is killed; it sleeps only at a full ring that
-- is open for reading, and has woken the readers before.
pub pipewrite-Ends :
    (killed : Bool) (cs : List ℕ) (p : Pipe)
    → let w = pipewrite killed cs p in Ends killed w.pipe w.status w.left w.woken
unfolding pipewrite Ends
pipewrite-Ends killed [] p = (refl, refl)
pipewrite-Ends killed (c ∷ cs) p = elim (Bool-cases (is_full p)) [
  | inl e ↦ elim (Bool-cases (not p.readopen || killed)) [
    | inl e1 ↦ rw (e, e1) (cons-ne-nil c cs, e, e1)
    | inr e1 ↦ rw (e, e1) (cons-ne-nil c cs, e, ground arith, ground arith, refl)
  ]
  | inr e ↦ rw (e) (pipewrite-Ends killed cs (put c p))
]

count-pop : (p : Pipe) → IsPipe p → is_empty p ≡ false → suc (count (pop p)) ≡ count p
unfolding pop
count-pop p wf e = ground (arith, wf.room, wf.read_word, wf.write_word)

drain-count : (n : ℕ) (p : Pipe) → IsPipe p → length (drain n p).0 ≡ min n (count p)
unfolding drain
drain-count zero p wf = omega arith
drain-count (suc n) p wf = elim (Bool-cases (is_empty p)) [
  | inl e ↦ rw (e) (ground (arith, wf.read_word, wf.write_word))
  | inr e ↦ rw (e) (ground (arith, drain-count n (pop p) (pop-IsPipe p wf e), count-pop p wf e))
]

-- piperead of n bytes sleeps exactly if the ring is empty and the write end is open (and fails
-- instead if the process is killed); otherwise it returns the smaller of n and the number of bytes
-- in the ring, and wakes the writers.
pub piperead-ends :
    (killed : Bool) (n : ℕ) (p : Pipe)
    → IsPipe p
    → let r = piperead killed n p in
      (r.status ≡ returned
        × (is_empty p && p.writeopen) ≡ false
        × length r.bytes ≡ min n (count p)
        × r.woken ≡ writers ∷ [])
      ⊎ (is_empty p && p.writeopen) ≡ true
        × r.pipe ≡ p
        × r.status ≡ (if killed then failed else asleep)
unfolding piperead
piperead-ends killed n p wf = elim (Bool-cases (is_empty p && p.writeopen)) [
  | inl e ↦ rw (e) (inr (refl, refl, refl))
  | inr e ↦ rw (e) (inl (refl, refl, drain-count n p wf, refl))
]
