-- ===== src/Vm.antt =====
-- vm.c: the two-level page tables. The memory is a word at each address of the kernel, and the page allocator
-- is the stack of free pages that kalloc.c keeps.
pub mod Space
pub mod Tables
pub mod Mapping
pub mod Returns
pub mod Tests
use Prim.Native.String.{String}
use tp2_so.Prelude.{
  ℕ, zero, suc, ◌+◌, ◌-◌, ◌*◌, ◌/◌, ◌%◌, ◌^◌, Bool, true, false, not, ◌&&◌, ◌||◌, List, [], ◌∷◌,
  if◌then◌else◌, ◌==◌, ltb, leb, add32, sub32, bit_or, minus_one, Outcome, done, panic_if, ◌>>◌,
}
use tp2_so.Kalloc.{kernbase, page_bytes}

pub record Memory : Type 0 where
  pub word : ℕ → ℕ
  pub free : List ℕ

-- memlayout.h and mmu.h
abbrev pub p2v : ℕ → ℕ
p2v a = add32 a kernbase

abbrev pub v2p : ℕ → ℕ
v2p a = sub32 a kernbase

abbrev pub pdx : ℕ → ℕ
pdx va = va / 2 ^ 22 % 1024

abbrev pub ptx : ℕ → ℕ
ptx va = va / 2 ^ 12 % 1024

abbrev pub page_round_down : ℕ → ℕ
page_round_down a = a / 4096 * 4096

-- PTE_ADDR, and the bit PTE_P.
abbrev pub pte_addr : ℕ → ℕ
pte_addr pte = pte / 4096 * 4096

abbrev pub is_present : ℕ → Bool
is_present pte = pte % 2 == 1

-- `w | PTE_P` and `w | PTE_P | PTE_W | PTE_U`
abbrev pub with_p : ℕ → ℕ
with_p w = w / 2 * 2 + 1

abbrev pub with_pwu : ℕ → ℕ
with_pwu w = w / 8 * 8 + 7

abbrev pub take_page : List ℕ → ℕ
take_page [] = 0
take_page (p ∷ ps) = p

abbrev pub other_pages : List ℕ → List ℕ
other_pages [] = []
other_pages (p ∷ ps) = ps

abbrev pub store : ℕ → ℕ → Memory → Memory
store addr v m = record m { word = λ a. if a == addr then v else m.word a }

-- `memset(pgtab, 0, PGSIZE)`
abbrev pub clear_page : ℕ → Memory → Memory
clear_page p m = record m { word = λ a. if leb p a && ltb a (p + page_bytes) then 0 else m.word a }

-- The address of the entry, or 0.
pub walkpgdir : ℕ → ℕ → Bool → Memory → ℕ × Memory
walkpgdir pgdir va alloc m =
    let pde = pgdir + 4 * pdx va in
    let p = take_page m.free in
    if is_present (m.word pde)
    then (p2v (pte_addr (m.word pde)) + 4 * ptx va, m)
    else if not alloc || p == 0
    then (0, m)
    else (
      p + 4 * ptx va,
      store pde (with_pwu (v2p p)) (clear_page p (record m { free = other_pages m.free })),
    )

-- The loop of mappages, with `rounds` rounds at most.
pub map_from : ℕ → ℕ → ℕ → ℕ → ℕ → ℕ → Memory → Outcome (ℕ × Memory)
unfolding walkpgdir
map_from zero pgdir a last pa perm m = done (0, m)
map_from (suc rounds) pgdir a last pa perm m =
    let pte = (walkpgdir pgdir a true m).0 in
    let m1 = (walkpgdir pgdir a true m).1 in
    let m2 = store pte (with_p (bit_or pa perm)) m1 in
    let rest = map_from rounds pgdir (add32 a page_bytes) last (add32 pa page_bytes) perm m2 in
    if pte == 0
    then done (minus_one, m1)
    else panic_if (is_present (m1.word pte)) "remap" >> (if a == last then done (0, m2) else rest)

-- 0 or -1. There are as many rounds as pages from the first to the last.
pub mappages : ℕ → ℕ → ℕ → ℕ → ℕ → Memory → Outcome (ℕ × Memory)
unfolding map_from
mappages pgdir va size pa perm m =
    let a = page_round_down va in
    let last = page_round_down (sub32 (add32 va size) 1) in
    map_from (sub32 last a / page_bytes + 1) pgdir a last pa perm m
