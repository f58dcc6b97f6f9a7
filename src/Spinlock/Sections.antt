-- ===== src/Spinlock/Sections.antt =====
-- Critical sections: acquire and release give a processor back as they found it.
use tp2_so.Prelude.{
  ℕ, ◌+◌, ◌<◌, ◌≡◌, ◌^◌, refl, false, true, not, ◌&&◌, ◌||◌, slt32, sub32, ap, ◌∙◌, some, arith,
  add32, if◌then◌else◌, ◌==◌, done, panic, Bool-cases, inl, inr,
}
use tp2_so.Spinlock.{
  Cpu, Spin, unlocked, pushcli, popcli, holding, owned_by, acquire, acquire_rest, release,
  release_rest,
}

-- Interrupts are off inside a section, and `room` more sections can be opened before `ncli` wraps.
pub record IsCpu (room : ℕ) (c : Cpu) : Type 0 where
  pub quiet : (c.ncli == 0) || not c.ints ≡ true
  pub shallow : c.ncli + room < 2 ^ 31

-- What pushcli and popcli leave of a processor: only the saved flag may be new.
abbrev pub saved : Cpu → Cpu
saved c = record c { intena = if c.ncli == 0 then c.ints else c.intena }

popcli-pushcli : (c : Cpu) → IsCpu 1 c → popcli (pushcli c) ≡ done (saved c)
unfolding popcli pushcli
popcli-pushcli c wf =
    rw (back, nonnegative)
      (elim (Bool-cases (c.ncli == 0)) [
        | inl z ↦ rw (z) (elim (Bool-cases c.ints) [ inl i ↦ rw (i) refl | inr i ↦ rw (i) refl ])
        | inr z ↦ rw (z, off z) refl
      ])
  where
    back : sub32 (add32 c.ncli 1) 1 ≡ c.ncli
    back = ground (arith, wf.shallow)

    off : c.ncli == 0 ≡ false → c.ints ≡ false
    off z = ground (arith, wf.quiet)

    nonnegative : slt32 c.ncli 0 ≡ false
    nonnegative = ground (arith, wf.shallow)

holding_inside :
    (me : ℕ) (lk : Spin) (d : Cpu)
    → IsCpu 1 d
    → d.ncli == 0 ≡ false
    → holding me lk d ≡ done (not (lk.locked == 0) && owned_by me lk.cpu, d)
unfolding holding
holding_inside me lk d wf inside = rw (popcli-pushcli d wf, inside) refl

pushcli-IsCpu : (room : ℕ) (c : Cpu) → IsCpu (room + 1) c → IsCpu room (pushcli c)
unfolding pushcli
pushcli-IsCpu room c wf = record { quiet = ground arith; shallow = ground (arith, wf.shallow) }

pushcli_inside : (c : Cpu) → IsCpu 1 c → (pushcli c).ncli == 0 ≡ false
unfolding pushcli
pushcli_inside c wf = ground (arith, wf.shallow)

pushcli-ints : (c : Cpu) → (pushcli c).ints ≡ false
unfolding pushcli
pushcli-ints c = refl

weaken : (room : ℕ) (c : Cpu) → IsCpu (room + 1) c → IsCpu 1 c
weaken room c wf = record { quiet = wf.quiet; shallow = omega (arith, wf.shallow) }

-- A processor with room for three more sections that takes a free lock, and releases it, has its interrupts off in between, has as
-- many sections open as before, and its interrupts on again exactly if they were on before; in
-- between it holds the lock, a second acquire of it panics.
pub release-acquire :
    (me : ℕ) (c : Cpu)
    → IsCpu 3 c
    → (c1 : Cpu) × (c2 : Cpu) × (lk : Spin) × (acquire me unlocked c ≡ done (some lk, c1))
      × (c1.ints ≡ false)
      × (release me lk c1 ≡ done (unlocked, c2))
      × (c2.ints ≡ c.ints)
      × (c2.ncli ≡ c.ncli)
      × (acquire me lk c1 ≡ panic "acquire")
unfolding acquire acquire_rest release release_rest
release-acquire me c wf = (
  d,
  saved c,
  mine,
  rw (held_by_none) refl,
  off,
  rw (held_by_me) (rw (whole) refl),
  refl,
  refl,
  rw (again) refl,
)
  where
    d : Cpu
    d = pushcli c

    mine : Spin
    mine = record { locked = 1; cpu = some me }

    self : me == me ≡ true
    self = ground arith

    dwf : IsCpu 2 d
    dwf = pushcli-IsCpu 2 c wf

    off : d.ints ≡ false
    off = pushcli-ints c

    held_by_none : holding me unlocked d ≡ done (false, d)
    held_by_none = holding_inside me unlocked d (weaken 1 d dwf) (pushcli_inside c (weaken 2 c wf))

    held_by_me : holding me mine d ≡ done (true, d)
    held_by_me =
        holding_inside me mine d (weaken 1 d dwf) (pushcli_inside c (weaken 2 c wf))
        ∙ ap (λ b. done (b, d)) self

    whole : popcli d ≡ done (saved c)
    whole = popcli-pushcli c (weaken 2 c wf)

    again : holding me mine (pushcli d) ≡ done (true, pushcli d)
    again =
        holding_inside me mine (pushcli d) (pushcli-IsCpu 1 d dwf)
          (pushcli_inside d (weaken 1 d dwf))
        ∙ ap (λ b. done (b, pushcli d)) self
