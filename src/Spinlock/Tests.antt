-- ===== src/Spinlock/Tests.antt =====
-- A run of the theorem on spin locks.
use tp2_so.Prelude.{refl, false, true, arith}
use tp2_so.Spinlock.{Cpu}
use tp2_so.Spinlock.Sections.{IsCpu}

abbrev awake_cpu : Cpu
awake_cpu = record { ncli = 0; intena = false; ints = true }

awake_cpu-IsCpu : IsCpu 3 awake_cpu
awake_cpu-IsCpu = record { quiet = refl; shallow = omega arith }
