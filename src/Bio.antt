-- ===== src/Bio.antt =====
-- bio.c, the buffer cache, over the disk of memide.c. A buffer is its index in `bcache.buf`; the
-- linked list of buffers is the list of their indices, the most recently used first. `flags` is the
-- two Booleans `valid` (B_VALID) and `dirty` (B_DIRTY); the bytes of a block are a function of the
-- offset.
pub mod Refs
pub mod Store
pub mod Stored
pub mod Counted
pub mod Steps
pub mod Tests
use tp2_so.Prelude.{
  ℕ, zero, suc, ◌+◌, ◌-◌, Bool, true, false, not, ◌&&◌, ◌||◌, Option, none, some, List, [], ◌∷◌,
  ◌++◌, if◌then◌else◌, ◌==◌, leb, add32, sub32, Outcome, done, panic, panic_if, ◌>>=◌, ◌>>◌,
}
use tp2_so.Sleeplock.{Sleeplock, free_lock, acquiresleep, releasesleep, holdingsleep}

abbrev pub nbuf : ℕ
nbuf = 30

abbrev pub Data : Type 0
Data = ℕ → ℕ

pub record Buf : Type 0 where
  pub valid : Bool
  pub dirty : Bool
  pub dev : ℕ
  pub blockno : ℕ
  pub lock : Sleeplock
  pub refcnt : ℕ
  pub bytes : Data

pub record Cache : Type 0 where
  pub buf : ℕ → Buf
  pub order : List ℕ
  pub disk : ℕ → Data
  pub disksize : ℕ

abbrev pub update {ℓ} : {A : Type ℓ} → ℕ → A → (ℕ → A) → ℕ → A
update i v f j = if i == j then v else f j

abbrev pub on_buf : ℕ → (Buf → Buf) → Cache → Cache
on_buf i f c = record c { buf = update i (f (c.buf i)) c.buf }

abbrev pub zero_buf : Buf
zero_buf = record {
  valid = false;
  dirty = false;
  dev = 0;
  blockno = 0;
  lock = free_lock;
  refcnt = 0;
  bytes = λ i. 0;
}

-- binit's loop puts each buffer before those of smaller index.
pub link_all : ℕ → List ℕ
link_all zero = []
link_all (suc n) = n ∷ link_all n

pub binit : (ℕ → Data) → ℕ → Cache
unfolding link_all
binit disk size = record {
  buf = λ i. zero_buf;
  order = link_all nbuf;
  disk = disk;
  disksize = size;
}

-- The first buffer on a list that passes the test.
pub first_in : (ℕ → Bool) → List ℕ → Option ℕ
first_in test [] = none
first_in test (i ∷ is) = if test i then some i else first_in test is

pub backwards : List ℕ → List ℕ
backwards [] = []
backwards (i ∷ is) = backwards is ++ i ∷ []

abbrev pub caches : Cache → ℕ → ℕ → ℕ → Bool
caches c dev blockno i = (c.buf i).dev == dev && (c.buf i).blockno == blockno

abbrev pub idle : Cache → ℕ → Bool
idle c i = (c.buf i).refcnt == 0 && not (c.buf i).dirty

abbrev pub recycled : ℕ → ℕ → Buf → Buf
recycled dev blockno b = record b {
  dev = dev;
  blockno = blockno;
  valid = false;
  dirty = false;
  refcnt = 1;
}

abbrev pub referenced : Buf → Buf
referenced b = record b { refcnt = add32 b.refcnt 1 }

-- bget up to acquiresleep.
pub bget : ℕ → ℕ → Cache → Outcome (ℕ × Cache)
unfolding first_in backwards
bget dev blockno c = elim (first_in (caches c dev blockno) c.order) [
  | some i ↦ done (i, on_buf i referenced c)
  | none ↦ elim (first_in (idle c) (backwards c.order)) [
    | some i ↦ done (i, on_buf i (recycled dev blockno) c)
    | none ↦ panic "bget: no buffers"
  ]
]

-- What iderw does to the buffer and to the disk.
abbrev pub synced : ℕ → Cache → Cache
synced i c =
    let b = c.buf i in
    if b.dirty
    then record c {
      buf = update i (record b { dirty = false; valid = true }) c.buf;
      disk = update b.blockno b.bytes c.disk;
    }
    else on_buf i (λ b. record b { bytes = c.disk b.blockno; valid = true }) c

pub iderw : ℕ → ℕ → Cache → Outcome Cache
iderw pid i c =
    let b = c.buf i in
    panic_if (not (holdingsleep pid b.lock)) "iderw: buf not locked"
    >> panic_if (b.valid && not b.dirty) "iderw: nothing to do"
    >> panic_if (not (b.dev == 1)) "iderw: request not for disk 1"
    >> panic_if (leb c.disksize b.blockno) "iderw: block out of range"
    >> done (synced i c)

-- The end of bread: the buffer's lock, and the block read if it has to be.
pub data Got : Type 0 where
  got : ℕ → Got  -- the buffer, locked
  sleeps : ℕ → Got  -- asleep on the buffer's lock

-- `if((b->flags & B_VALID) == 0) iderw(b);`
pub read_in : ℕ → ℕ → Bool → Cache → Outcome (Got × Cache)
read_in pid i true c = done (got i, c)
read_in pid i false c = iderw pid i c >>= λ c2. done (got i, c2)

pub bread_locked : ℕ → ℕ → Cache → Outcome (Got × Cache)
unfolding read_in
bread_locked pid i c = elim (acquiresleep pid (c.buf i).lock) [
  | none ↦ done (sleeps i, c)
  | some lk ↦ read_in pid i (c.buf i).valid (on_buf i (λ b. record b { lock = lk }) c)
]

pub bread_rest : ℕ → ℕ × Cache → Outcome (Got × Cache)
unfolding bread_locked
bread_rest pid (i, c) = bread_locked pid i c

pub bread : ℕ → ℕ → ℕ → Cache → Outcome (Got × Cache)
unfolding bread_rest
bread pid dev blockno c = bget dev blockno c >>= bread_rest pid

pub bwrite : ℕ → ℕ → Cache → Outcome Cache
bwrite pid i c =
    panic_if (not (holdingsleep pid (c.buf i).lock)) "bwrite"
    >> iderw pid i (on_buf i (λ b. record b { dirty = true }) c)

pub without : ℕ → List ℕ → List ℕ
without i [] = []
without i (j ∷ js) = if j == i then js else j ∷ without i js

-- brelse: a buffer that nobody waits for goes to the front of the list.
pub brelse : ℕ → ℕ → Cache → Outcome Cache
unfolding without
brelse pid i c =
    let c1 = on_buf i (λ b. record b { lock = releasesleep b.lock; refcnt = sub32 b.refcnt 1 }) c in
    panic_if (not (holdingsleep pid (c.buf i).lock)) "brelse"
    >> done (if (c1.buf i).refcnt == 0 then record c1 { order = i ∷ without i c1.order } else c1)

-- A change of the bytes by the process that holds the buffer, followed by log_write's
-- `b->flags |= B_DIRTY`.
abbrev pub change : ℕ → Data → Cache → Cache
change i d c = on_buf i (λ b. record b { bytes = d; dirty = true }) c
