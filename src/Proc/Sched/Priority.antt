-- ===== src/Proc/Sched/Priority.antt =====
-- The priority scheduler of `scheduler`: the slot that a round chooses.
use tp2_so.Prelude.{
  ℕ, zero, suc, ◌+◌, ◌≡◌, refl, ◌⊎◌, inl, inr, Bool, true, not, ◌&&◌, ◌||◌, Option, some, List, [],
  ◌∷◌, if◌then◌else◌, get_or, modify, arith, Bool-cases, slt32, sle32, ap, subst₂,
}
use tp2_so.Proc.{Proc, zero_proc, is_runnable}
use tp2_so.Proc.Sched.{highest, scan, renew, proc_time}

-- The largest priority, in the signed order, of `least` and the runnable slots.
top : ℕ → List Proc → ℕ
top least [] = least
top least (p ∷ ps) =
    top (if is_runnable p.state && slt32 least p.priority then p.priority else least) ps

top-ge : (least : ℕ) (ps : List Proc) → sle32 least (top least ps) ≡ true
unfolding top
top-ge least [] = ground arith
top-ge least (p ∷ ps) = elim (Bool-cases (is_runnable p.state && slt32 least p.priority)) [
  | inl e ↦ ground (arith, top-ge p.priority ps)
  | inr e ↦ ground (arith, top-ge least ps)
]

top-ge_slot :
    (least m : ℕ) (ps : List Proc)
    → is_runnable (get_or ps m zero_proc).state ≡ true
    → sle32 (get_or ps m zero_proc).priority (top least ps) ≡ true
unfolding top
top-ge_slot least m [] r = absurd (cc)
top-ge_slot least zero (p ∷ ps) r =
    elim (Bool-cases (is_runnable p.state && slt32 least p.priority)) [
      | inl e ↦ ground (arith, top-ge p.priority ps)
      | inr e ↦ ground (arith, top-ge least ps)
    ]
top-ge_slot least (suc m) (p ∷ ps) r =
    top-ge_slot (if is_runnable p.state && slt32 least p.priority then p.priority else least) m ps r

-- Where the inner loop ends up: on its first slot, or on a runnable slot of the largest priority.
highest_cases :
    (ps : List Proc) (j best least : ℕ)
    → ((highest ps j best least ≡ best) × (top least ps ≡ least))
      ⊎ ((m : ℕ) × (highest ps j best least ≡ j + m)
          × (is_runnable (get_or ps m zero_proc).state ≡ true)
          × ((get_or ps m zero_proc).priority ≡ top least ps))
unfolding highest top
highest_cases [] j best least = inl (refl, refl)
highest_cases (p ∷ ps) j best least =
    elim (Bool-cases (is_runnable p.state && slt32 least p.priority)) [
      | inl e ↦ elim (highest_cases ps (j + 1) j p.priority) [
        | inl (a, b) ↦ inr (0, ground arith, ground arith, ground arith)
        | inr (m, a, b, c) ↦ inr (suc m, ground arith, b, ground arith)
      ]
      | inr e ↦ elim (highest_cases ps (j + 1) best least) [
        | inl (a, b) ↦ inl (ground arith, ground arith)
        | inr (m, a, b, c) ↦ inr (suc m, ground arith, b, ground arith)
      ]
    ]

-- Slot `j` is runnable, and no runnable slot has a larger priority.
pub record IsTop (ps : List Proc) (j : ℕ) : Type 0 where
  pub ready : is_runnable (get_or ps j zero_proc).state ≡ true
  pub largest :
      (m : ℕ)
      → is_runnable (get_or ps m zero_proc).state ≡ true
      → sle32 (get_or ps m zero_proc).priority (get_or ps j zero_proc).priority ≡ true

highest-IsTop :
    (ps : List Proc) (i : ℕ)
    → is_runnable (get_or ps i zero_proc).state ≡ true
    → IsTop ps (highest ps 0 i (get_or ps i zero_proc).priority)
highest-IsTop ps i r = elim (highest_cases ps 0 i (get_or ps i zero_proc).priority) [
  | inl (a, b) ↦ rw a (record {
    ready = r;
    largest = λ m h. rw b at (top-ge_slot (get_or ps i zero_proc).priority m ps h);
  })
  | inr (m, a, b, c) ↦
      let e : highest ps 0 i (get_or ps i zero_proc).priority ≡ m = omega arith in
      rw e (record {
        ready = b;
        largest = λ n h. rw c (top-ge_slot (get_or ps i zero_proc).priority n ps h);
      })
]

-- The test by which the loop passes a slot.
abbrev skips : ℕ → Proc → Bool
skips now p = not (is_runnable p.state) || sle32 p.max_time (proc_time now p)

-- When a round of the priority scheduler chooses a slot, that slot is runnable, and none of the
-- runnable slots has a larger priority, read as a signed number.
pub scan-IsTop : (n i now j : ℕ) (ps qs : List Proc) → scan n i now ps ≡ (some j, qs) → IsTop qs j
unfolding scan
scan-IsTop zero i now j ps qs e = absurd (cc (ap (λ (r : Option ℕ × List Proc). r.0) e))
scan-IsTop (suc n) i now j ps qs e = elim (Bool-cases (skips now p)) [
  | inl s ↦ scan-IsTop n (i + 1) now j passed qs (ground arith)
  | inr s ↦
      let same : ps ≡ qs = ground arith in
      let chosen : highest ps 0 i p.priority ≡ j = ground arith in
      subst₂ IsTop same chosen (highest-IsTop ps i (ground arith))
]
  where
    p : Proc
    p = get_or ps i zero_proc

    passed : List Proc
    passed = if sle32 p.max_time (proc_time now p) then modify ps i (renew now) else ps
