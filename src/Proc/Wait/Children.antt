-- ===== src/Proc/Wait/Children.antt =====
-- What wait does, by the children that its caller has.
use tp2_so.Prelude.{
  ℕ, zero, suc, ◌+◌, ◌<◌, ◌≡◌, refl, sym, ap, inl, inr, ◌⊎◌, ℕ_discrete, modify, Bool, true, false,
  ◌&&◌, ◌||◌, none, some, List, [], ◌∷◌, length, get_or, arith, Bool-cases, done,
  get_or-modify_self, get_or-modify_ne, add32,
}
use tp2_so.Proc.{
  Proc, unused, sleeping, is_zombie, slot, Kernel, Services, proc_at, on_proc, zero_proc,
}
use tp2_so.Proc.Sched.{SchedGuard}
use tp2_so.Proc.Sched.Quantum.{IsReady, sleep-done}
use tp2_so.Proc.Life.{same_slot}
use tp2_so.Proc.Wait.{
  no_kids, kids, zombie_at, look, reaped, childless, asleep, free_slot, free_slot2, reap, wait_more,
  wait, wait2, times_of,
}

-- Slot `j` holds a child of the process in slot `cur`.
abbrev pub is_child : ℕ → List Proc → ℕ → Bool
is_child cur ps j = same_slot (get_or ps j zero_proc).parent (some cur)

module _ (cur : ℕ) where
  look-no_kids :
      (ps : List Proc) (b : Bool) (i j : ℕ)
      → look cur ps b i ≡ no_kids
      → (b ≡ false) × (is_child cur ps j ≡ false)
  unfolding look
  look-no_kids [] b i j e = ground arith
  look-no_kids (p ∷ ps) b i zero e =
      ground (arith, look-no_kids ps (same_slot p.parent (some cur) || b) (i + 1) 0)
  look-no_kids (p ∷ ps) b i (suc j) e =
      ground (arith, look-no_kids ps (same_slot p.parent (some cur) || b) (i + 1) j)

  look-zombie_at :
      (ps : List Proc) (b : Bool) (i m : ℕ)
      → look cur ps b i ≡ zombie_at m
      → (j : ℕ) × (m ≡ i + j)
        × (j < length ps)
        × (is_child cur ps j ≡ true)
        × (is_zombie (get_or ps j zero_proc).state ≡ true)
  unfolding look
  look-zombie_at [] b i m e = absurd (ground arith)
  look-zombie_at (p ∷ ps) b i m e =
      elim (Bool-cases (same_slot p.parent (some cur) && is_zombie p.state)) [
        | inl c ↦ (0, ground arith, ground arith, ground arith, ground arith)
        | inr c ↦
            let (j, q, l, h, z) =
              look-zombie_at ps (same_slot p.parent (some cur) || b) (i + 1) m (ground arith) in
            (suc j, omega arith, omega arith, h, z)
      ]

  -- With a zombie child in the table the loop finds one.
  look-zombie :
      (ps : List Proc) (b : Bool) (i j : ℕ)
      → is_child cur ps j ≡ true
      → is_zombie (get_or ps j zero_proc).state ≡ true
      → (m : ℕ) × (look cur ps b i ≡ zombie_at m)
  unfolding look
  look-zombie [] b i j c z = absurd (cc)
  look-zombie (p ∷ ps) b i zero c z = (i, ground arith)
  look-zombie (p ∷ ps) b i (suc j) c z =
      elim (Bool-cases (same_slot p.parent (some cur) && is_zombie p.state)) [
        | inl f ↦ (i, ground arith)
        | inr f ↦
            let (m, e) = look-zombie ps (same_slot p.parent (some cur) || b) (i + 1) j c z in
            (m, ground arith)
      ]

  -- Without a child it finds none.
  look-childless :
      (ps : List Proc) (i : ℕ)
      → ((j : ℕ) → is_child cur ps j ≡ false)
      → look cur ps false i ≡ no_kids
  unfolding look
  look-childless [] i h = refl
  look-childless (p ∷ ps) i h = ground (arith, h 0, look-childless ps (i + 1) (λ j. h (suc j)))

  -- With a child, and no child a zombie, it reports that there are children.
  look-kids :
      (ps : List Proc) (b : Bool) (i j : ℕ)
      → is_child cur ps j || b ≡ true
      → ((m : ℕ) → is_child cur ps m && is_zombie (get_or ps m zero_proc).state ≡ false)
      → look cur ps b i ≡ kids
  unfolding look
  look-kids [] b i j c h = ground arith
  look-kids (p ∷ ps) b i zero c h = ground (
    arith,
    h 0,
    look-kids ps (same_slot p.parent (some cur) || b) (i + 1) 0 (ground arith) (λ m. h (suc m)),
  )
  look-kids (p ∷ ps) b i (suc j) c h = ground (
    arith,
    h 0,
    look-kids ps (same_slot p.parent (some cur) || b) (i + 1) j (ground arith) (λ m. h (suc m)),
  )

modified_or_same :
    (ps : List Proc) (i m : ℕ) (f : Proc → Proc)
    → (m ≡ i) ⊎ (get_or (modify ps i f) m zero_proc ≡ get_or ps m zero_proc)
modified_or_same ps i m f = elim (ℕ_discrete m i) [
  | yes e ↦ inl e
  | no ne ↦ inr (get_or-modify_ne ps i m f zero_proc (λ x. ne (sym x)))
]

module _ {W : Type 0} (io : Services W) (g : SchedGuard) (cur : ℕ) (k : Kernel W) where
  -- With a zombie child in the table, wait returns at once: what it returns is the pid of a zombie
  -- child, whose slot it frees; the other slots do not change.
  pub wait-zombie :
      (j : ℕ)
      → is_child cur k.procs j ≡ true
      → is_zombie (proc_at k j).state ≡ true
      → (i : ℕ) × (k' : Kernel W) × (wait io g cur k ≡ done (reaped (proc_at k i).pid, k'))
        × (is_child cur k.procs i ≡ true)
        × (is_zombie (proc_at k i).state ≡ true)
        × ((proc_at k' i).state ≡ unused)
        × ((m : ℕ) → (m ≡ i) ⊎ (proc_at k' m ≡ proc_at k m))
  unfolding wait reap free_slot
  wait-zombie j c z =
      let (m, e) = look-zombie cur k.procs false 0 j c z in
      let (i, q, l, h, d) = look-zombie_at cur k.procs false 0 m e in
      let e' : look cur k.procs false 0 ≡ zombie_at i = ground arith in
      (
        i,
        reap io free_slot i k,
        rw (e', wait) refl,
        h,
        d,
        ap (λ (p : Proc). p.state) (get_or-modify_self k.procs i free_slot zero_proc l),
        λ n. modified_or_same k.procs i n free_slot,
      )

  -- With a zombie child in the table, wait2 returns at once: what it returns is the pid of a zombie
  -- child and the three times that this child has collected; it frees the child's slot, and the
  -- other slots do not change.
  pub wait2-zombie :
      (j : ℕ)
      → is_child cur k.procs j ≡ true
      → is_zombie (proc_at k j).state ≡ true
      → (i : ℕ) × (k' : Kernel W) × (wait2 io g cur k
          ≡ done (reaped (proc_at k i).pid, some (times_of (proc_at k i)), k'))
        × (is_child cur k.procs i ≡ true)
        × (is_zombie (proc_at k i).state ≡ true)
        × ((proc_at k' i).state ≡ unused)
        × ((m : ℕ) → (m ≡ i) ⊎ (proc_at k' m ≡ proc_at k m))
  unfolding wait2 reap free_slot2
  wait2-zombie j c z =
      let (m, e) = look-zombie cur k.procs false 0 j c z in
      let (i, q, l, h, d) = look-zombie_at cur k.procs false 0 m e in
      let e' : look cur k.procs false 0 ≡ zombie_at i = ground arith in
      (
        i,
        reap io free_slot2 i k,
        rw (e', wait2) refl,
        h,
        d,
        ap (λ (p : Proc). p.state) (get_or-modify_self k.procs i free_slot2 zero_proc l),
        λ n. modified_or_same k.procs i n free_slot2,
      )

  -- Without a child, wait and wait2 return -1 and change nothing.
  pub wait-childless :
      ((j : ℕ) → is_child cur k.procs j ≡ false)
      → (wait io g cur k ≡ done (childless, k)) × (wait2 io g cur k ≡ done (childless, none, k))
  unfolding wait wait2 wait_more
  wait-childless h =
      let e = look-childless cur k.procs 0 h in (rw (e, wait) refl, rw (e, wait2) refl)

  -- With children of which none is a zombie, wait puts a caller that has not been killed, with
  -- the locks as sched wants them, to sleep on the address of its own slot, and counts a switch.
  pub wait-asleep :
      (j : ℕ)
      → IsReady g
      → cur < length k.procs
      → (proc_at k cur).killed ≡ 0
      → is_child cur k.procs j ≡ true
      → ((m : ℕ) → is_child cur k.procs m && is_zombie (proc_at k m).state ≡ false)
      → wait io g cur k
        ≡ done (
          asleep,
          on_proc cur
              (λ p. record p { chan = slot cur; state = sleeping; counter = add32 p.counter 1 })
              k,
        )
  unfolding wait wait_more
  wait-asleep j r l alive c h =
      let e = look-kids cur k.procs false 0 j (ground arith) h in
      rw (e, wait) (rw (alive, wait_more) (rw (sleep-done g cur (slot cur) k r l) refl))
