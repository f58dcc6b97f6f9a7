-- ===== src/Spinlock.antt =====
-- spinlock.c: locks that spin, with interrupts off on the processor that holds one. `ints` is the
-- processor's flag FL_IF. A try at the `xchg` that finds the lock taken leaves acquire spinning.
pub mod Sections
pub mod Tests
use tp2_so.Prelude.{
  ℕ, Bool, false, true, not, ◌&&◌, Option, none, some, if◌then◌else◌, ◌==◌, add32, sub32, slt32,
  Outcome, done, panic_if, ◌>>=◌, ◌>>◌,
}

-- The fields of `struct cpu` that pushcli and popcli use.
pub record Cpu : Type 0 where
  pub ncli : ℕ
  pub intena : Bool
  pub ints : Bool

-- `struct spinlock`, less what is there for debugging; a processor is its number.
pub record Spin : Type 0 where
  pub locked : ℕ
  pub cpu : Option ℕ

-- initlock
abbrev pub unlocked : Spin
unlocked = record { locked = 0; cpu = none }

pub pushcli : Cpu → Cpu
pushcli c = record {
  ncli = add32 c.ncli 1;
  intena = if c.ncli == 0 then c.ints else c.intena;
  ints = false;
}

pub popcli : Cpu → Outcome Cpu
popcli c =
    let c1 = record c { ncli = sub32 c.ncli 1 } in
    panic_if c.ints "popcli - interruptible"
    >> panic_if (slt32 c1.ncli 0) "popcli"
    >> done (if c1.ncli == 0 && c1.intena then record c1 { ints = true } else c1)

abbrev pub owned_by : ℕ → Option ℕ → Bool
owned_by me none = false
owned_by me (some c) = c == me

pub holding : ℕ → Spin → Cpu → Outcome (Bool × Cpu)
holding me lk c = popcli (pushcli c) >>= λ c1. done (not (lk.locked == 0) && owned_by me lk.cpu, c1)

-- acquire up to the first `xchg`: the lock if it was free, or `none` while it spins.
acquire_rest : ℕ → Spin → Bool × Cpu → Outcome (Option Spin × Cpu)
acquire_rest me lk (held, c) =
    panic_if held "acquire"
    >> done (if lk.locked == 0 then some (record { locked = 1; cpu = some me }) else none, c)

pub acquire : ℕ → Spin → Cpu → Outcome (Option Spin × Cpu)
acquire me lk c = holding me lk (pushcli c) >>= acquire_rest me lk

release_rest : Bool × Cpu → Outcome (Spin × Cpu)
release_rest (held, c) = panic_if (not held) "release" >> (popcli c >>= λ c1. done (unlocked, c1))

pub release : ℕ → Spin → Cpu → Outcome (Spin × Cpu)
release me lk c = holding me lk c >>= release_rest
