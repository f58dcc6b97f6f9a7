-- ===== src/Kalloc.antt =====
-- kalloc.c: the free pages are a list that is linked through the pages themselves. `end_of` is the
-- linker's address `end`. kmem's lock is held throughout kfree's and kalloc's changes, or there is
-- one processor only and `use_lock` is 0.
pub mod Pages
pub mod Range
pub mod Tests
use tp2_so.Prelude.{
  ℕ, zero, suc, ◌+◌, ◌-◌, ◌*◌, ◌/◌, ◌%◌, Bool, false, true, not, ◌&&◌, ◌||◌, if◌then◌else◌, ◌==◌,
  ltb, leb, add32, sub32, Outcome, done, panic_if, ◌>>=◌, ◌>>◌,
}

abbrev pub page_bytes : ℕ
page_bytes = 4096

-- memlayout.h
abbrev pub phystop : ℕ
phystop = 0xe00_0000

abbrev pub kernbase : ℕ
kernbase = 0x8000_0000

-- The head of the list (0 is null), and the word that stands at each address.
pub record Kmem : Type 0 where
  pub use_lock : Bool
  pub freelist : ℕ
  pub word : ℕ → ℕ

-- `(uint)v % PGSIZE || v < end || V2P(v) >= PHYSTOP`
abbrev pub bad_page : ℕ → ℕ → Bool
bad_page end_of v = not (v % page_bytes == 0) || (ltb v end_of || leb phystop (sub32 v kernbase))

-- `memset(v, 1, PGSIZE); r->next = kmem.freelist;`
abbrev pub link_in : ℕ → Kmem → ℕ → ℕ
link_in v k a =
    if a == v
    then k.freelist
    else if leb v a && ltb a (v + page_bytes)
    then 0x0101_0101
    else k.word a

pub kfree : ℕ → ℕ → Kmem → Outcome Kmem
kfree end_of v k =
    panic_if (bad_page end_of v) "kfree" >> done (record k { freelist = v; word = link_in v k })

-- kalloc; 0 where there is no page.
pub kalloc : Kmem → ℕ × Kmem
kalloc k = (k.freelist, if k.freelist == 0 then k else record k { freelist = k.word k.freelist })

-- `for(; p + PGSIZE <= vend; p += PGSIZE) kfree(p);`, with `fuel` rounds at most.
pub free_from : ℕ → ℕ → ℕ → ℕ → Kmem → Outcome Kmem
free_from zero end_of p vend k = done k
free_from (suc fuel) end_of p vend k =
    if leb (add32 p page_bytes) vend
    then kfree end_of p k >>= free_from fuel end_of (add32 p page_bytes) vend
    else done k

-- `PGROUNDUP(a)`
abbrev pub page_round_up : ℕ → ℕ
page_round_up a = add32 a (page_bytes - 1) / page_bytes * page_bytes

-- freerange, from `PGROUNDUP(vstart)`; no range has more pages than `vend / PGSIZE`.
pub freerange : ℕ → ℕ → ℕ → Kmem → Outcome Kmem
freerange end_of vstart vend k =
    free_from (vend / page_bytes + 1) end_of (page_round_up vstart) vend k

pub kinit1 : ℕ → ℕ → ℕ → Kmem → Outcome Kmem
kinit1 end_of vstart vend k = freerange end_of vstart vend (record k { use_lock = false })

pub kinit2 : ℕ → ℕ → ℕ → Kmem → Outcome Kmem
kinit2 end_of vstart vend k =
    freerange end_of vstart vend k >>= λ k1. done (record k1 { use_lock = true })
