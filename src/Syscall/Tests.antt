-- ===== src/Syscall/Tests.antt =====
-- A process of one page that passes a buffer and a string.
use tp2_so.Prelude.{
  ℕ, ◌+◌, ◌^◌, ◌≡◌, ◌≢◌, ◌≤◌, ◌<◌, ◌↔◌, none, some, [], ◌∷◌, ◌==◌, if◌then◌else◌, arith,
}
use tp2_so.Proc.{Proc, zero_proc, Kernel}
use tp2_so.Proc.Samples.{with_procs}
use tp2_so.Syscall.{argint, argptr, fetchstr, Call, syscall, nelem}
use tp2_so.Syscall.Arguments.{IsString, argptr_iff, fetchstr_iff}
use tp2_so.Syscall.Dispatch.{syscall-none_iff}

-- The stack pointer is 4000; the argument at 4008 is the address 3000, and "ab" stands at 3000.
abbrev mem : ℕ → ℕ
mem a =
    if a == 4008
    then 184
    else if a == 4009
    then 11
    else if a == 3000
    then b'a'
    else if a == 3001
    then b'b'
    else 0

abbrev user : Proc
user = record zero_proc {
  sz = 4096;
  frame = record (zero_proc.frame) { esp = 4000; eax = 99 };
  traceflag = 1;
}

argptr_iff_example : (argptr mem user 1 1096 ≡ some 3000) ↔ (
    (argint mem user 1 ≡ some 3000) × (1096 < 2 ^ 31) × (3000 < user.sz) × (3000 + 1096 ≤ user.sz))
argptr_iff_example = argptr_iff mem user 1 1096 3000 (omega arith) (omega arith)

fetchstr_iff_example :
    (fetchstr mem user 3000 ≡ some 2) ↔ ((3000 + 2 < user.sz) × IsString mem 3000 2)
fetchstr_iff_example = fetchstr_iff mem user 3000 2

abbrev answers : Call → Kernel ℕ → ℕ × Kernel ℕ
answers c k = (0, k)

syscall-none_iff_example :
    (syscall answers 0 (with_procs (user ∷ [])) ≡ none) ↔ ((nelem ≤ 99) × (user.traceflag ≢ 0))
syscall-none_iff_example = syscall-none_iff answers 0 (with_procs (user ∷ []))
