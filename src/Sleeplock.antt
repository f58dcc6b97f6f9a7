-- ===== src/Sleeplock.antt =====
-- sleeplock.c: a lock that a process waits for asleep. Each function runs whole under the lock's own
-- spin lock, except where acquiresleep sleeps.
use tp2_so.Prelude.{ℕ, Bool, not, ◌&&◌, Option, none, some, if◌then◌else◌, ◌==◌}

pub record Sleeplock : Type 0 where
  pub locked : ℕ
  pub pid : ℕ

-- initsleeplock
abbrev pub free_lock : Sleeplock
free_lock = record { locked = 0; pid = 0 }

-- One turn of acquiresleep's `while`, for process `pid`: the lock taken, or `none` where it sleeps on
-- the lock's address and looks again when it is woken.
unfoldable pub acquiresleep : ℕ → Sleeplock → Option Sleeplock
acquiresleep pid lk = if not (lk.locked == 0) then none else some (record { locked = 1; pid = pid })

-- releasesleep; it wakes those who sleep on the lock's address.
unfoldable pub releasesleep : Sleeplock → Sleeplock
releasesleep lk = free_lock

unfoldable pub holdingsleep : ℕ → Sleeplock → Bool
holdingsleep pid lk = not (lk.locked == 0) && lk.pid == pid
