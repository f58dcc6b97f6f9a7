-- ===== src/Pipe.antt =====
-- pipe.c: a pipe is a ring of PIPESIZE bytes and two counters that wrap at 2 ^ 32. A call holds
-- the pipe's lock from its start to its return or to its sleep, so it is modelled in the pieces
-- between those points; a sleeping writer goes on with the bytes left, a sleeping reader from the
-- test of its loop.
pub mod Ring
pub mod Fifo
pub mod Blocking
pub mod Tests
use tp2_so.Prelude.{
  ℕ, zero, suc, ◌+◌, ◌%◌, Bool, true, false, not, ◌||◌, ◌&&◌, List, [], ◌∷◌, if◌then◌else◌, ◌==◌,
  get_or, set, add32,
}

abbrev pub pipesize : ℕ
pipesize = 512

pub record Pipe : Type 0 where
  pub buffer : List ℕ
  pub nread : ℕ
  pub nwrite : ℕ
  pub readopen : Bool
  pub writeopen : Bool

-- The two addresses that processes sleep on: &p->nread and &p->nwrite.
pub data End : Type 0 where
  readers : End
  writers : End

-- How a piece of a call ends.
pub data Status : Type 0 where
  returned : Status
  failed : Status
  asleep : Status

-- pipealloc's part for the pipe, on the page `junk` that kalloc gave.
abbrev pub new_pipe : List ℕ → Pipe
new_pipe junk = record { buffer = junk; nread = 0; nwrite = 0; readopen = true; writeopen = true }

-- Closing an end, the end woken, and whether the pipe is freed.
pub record Closed : Type 0 where
  pub pipe : Pipe
  woken : End
  pub freed : Bool

pub pipeclose : Bool → Pipe → Closed
pipeclose true p = record {
  pipe = record p { writeopen = false };
  woken = readers;
  freed = not p.readopen;
}
pipeclose false p = record {
  pipe = record p { readopen = false };
  woken = writers;
  freed = not p.writeopen;
}

-- `sent` are the bytes put in (the code's `i` is their number), `left` those still to be put in.
pub record Written : Type 0 where
  status : Status
  pub sent : List ℕ
  pub left : List ℕ
  pub pipe : Pipe
  pub woken : List End

abbrev pub is_full : Pipe → Bool
is_full p = p.nwrite == add32 p.nread pipesize

-- `p->data[p->nwrite++ % PIPESIZE] = c;`
pub put : ℕ → Pipe → Pipe
put c p = record p { buffer = set p.buffer (p.nwrite % pipesize) c; nwrite = add32 p.nwrite 1 }

abbrev also_sent : ℕ → Written → Written
also_sent c w = record w { sent = c ∷ w.sent }

-- pipewrite, for a process that is or is not killed.
pub pipewrite : Bool → List ℕ → Pipe → Written
pipewrite killed [] p = record {
  status = returned;
  sent = [];
  left = [];
  pipe = p;
  woken = readers ∷ [];
}
pipewrite killed (c ∷ cs) p =
    let rest = pipewrite killed cs (put c p) in
    if is_full p
    then if not p.readopen || killed
      then record { status = failed; sent = []; left = c ∷ cs; pipe = p; woken = [] }
      else record { status = asleep; sent = []; left = c ∷ cs; pipe = p; woken = readers ∷ [] }
    else also_sent c rest

pub record Taken : Type 0 where
  status : Status
  pub bytes : List ℕ
  pub pipe : Pipe
  pub woken : List End

abbrev pub is_empty : Pipe → Bool
is_empty p = p.nread == p.nwrite

-- `addr[i] = p->data[p->nread++ % PIPESIZE];`
abbrev pub front : Pipe → ℕ
front p = get_or p.buffer (p.nread % pipesize) 0

pub pop : Pipe → Pipe
pop p = record p { nread = add32 p.nread 1 }

-- The loop of piperead that copies.
pub drain : ℕ → Pipe → List ℕ × Pipe
drain zero p = ([], p)
drain (suc n) p =
    let rest = drain n (pop p) in if is_empty p then ([], p) else (front p ∷ rest.0, rest.1)

-- piperead of at most `n` bytes, for a process that is or is not killed.
pub piperead : Bool → ℕ → Pipe → Taken
piperead killed n p =
    if is_empty p && p.writeopen
    then record { status = if killed then failed else asleep; bytes = []; pipe = p; woken = [] }
    else record {
      status = returned;
      bytes = (drain n p).0;
      pipe = (drain n p).1;
      woken = writers ∷ [];
    }
