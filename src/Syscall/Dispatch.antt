-- ===== src/Syscall/Dispatch.antt =====
-- The dispatch, traced.
use tp2_so.Prelude.{
  ◌<◌, Option, ℕ, zero, suc, ◌≤◌, ◌≡◌, ◌≢◌, ◌↔◌, ◌∙◌, refl, ap, sym, true, false, ◌&&◌, Bool-cases,
  inl, inr, none, some, List, [], ◌∷◌, arith, ◌==◌, ltb, slt32, get_or, get_elem?, length, modify,
  minus_one,
}
use tp2_so.Proc.{Proc, zero_proc, Kernel, proc_at}
use tp2_so.Syscall.{
  Message, unknown_call, syscalls, Call, nelem, set_eax, call_handler, run_call, traced_call,
  trace_call, syscall,
}

get_or-modify_flag :
    (ps : List Proc) (i : ℕ) (f : Proc → Proc)
    → ((q : Proc) → (f q).traceflag ≡ q.traceflag)
    → (get_or (modify ps i f) i zero_proc).traceflag ≡ (get_or ps i zero_proc).traceflag
get_or-modify_flag [] i f h = refl
get_or-modify_flag (p ∷ ps) zero f h = h p
get_or-modify_flag (p ∷ ps) (suc i) f h = get_or-modify_flag ps i f h

get_elem-in :
    {A : Type 0} (xs : List A) (i : ℕ) → i < length xs → (x : A) × (get_elem? xs i ≡ some x)
get_elem-in [] i h = absurd (omega (arith, h))
get_elem-in (x ∷ xs) zero h = (x, refl)
get_elem-in (x ∷ xs) (suc i) h = get_elem-in xs i (omega (arith, h))

get_elem-out : {A : Type 0} (xs : List A) (i : ℕ) → length xs ≤ i → get_elem? xs i ≡ none
get_elem-out [] i h = refl
get_elem-out (x ∷ xs) zero h = absurd (omega (arith, h))
get_elem-out (x ∷ xs) (suc i) h = get_elem-out xs i (omega (arith, h))

module _ {W : Type 0} (run : Call → Kernel W → ℕ × Kernel W) (cur : ℕ) where
  different : {A : Type 0} {a : A} → some a ≡ none → ⊥
  different q = cc

  handler-some :
      (k : Kernel W) (c : Option Call)
      → (x : List Message × Kernel W) × (call_handler run cur k (some c) ≡ some x)
  unfolding call_handler
  handler-some k none = (_, refl)
  handler-some k (some c) = (_, refl)

  -- The dispatch itself stays inside `syscalls`.
  run_call-some : (k : Kernel W) → (x : List Message × Kernel W) × (run_call run cur k ≡ some x)
  unfolding run_call
  run_call-some k =
      let p = proc_at k cur in
      elim (Bool-cases (slt32 0 p.frame.eax && ltb p.frame.eax nelem)) [
        | inr b ↦ (
          (unknown_call p.pid p.name p.frame.eax ∷ [], set_eax cur minus_one k),
          rw (run_call, b) refl,
        )
        | inl b ↦
            let (c, e) = get_elem-in syscalls p.frame.eax (ground (arith, b)) in
            let (x, q) = handler-some k c in (x, rw (run_call, b, e) q)
      ]

  run_call-unknown :
      (k : Kernel W) (said : List Message) (k1 : Kernel W)
      → nelem ≤ (proc_at k cur).frame.eax
      → run_call run cur k ≡ some (said, k1)
      → (proc_at k1 cur).traceflag ≡ (proc_at k cur).traceflag
  unfolding run_call
  run_call-unknown k said k1 h e =
      let b : (slt32 0 (proc_at k cur).frame.eax && ltb (proc_at k cur).frame.eax nelem) ≡ false =
        ground (arith, h) in
      ap (λ x. (proc_at x cur).traceflag) (sym (second (rw (run_call, b) at e)))
      ∙ get_or-modify_flag k.procs cur _ (λ q. refl)
    where
      inside : {A : Type 0} {x y : A} → some x ≡ some y → x ≡ y
      inside q = cc

      second : {x : List Message × Kernel W} → some x ≡ some (said, k1) → x.1 ≡ k1
      second q = ap (λ x. x.1) (inside q)

  trace_call-none_iff :
      (num : ℕ) (said : List Message) (k1 : Kernel W)
      → (trace_call cur num (some (said, k1)) ≡ none)
        ↔ ((nelem ≤ num) × ((proc_at k1 cur).traceflag ≢ 0))
  unfolding trace_call traced_call
  trace_call-none_iff num said k1 = elim (Bool-cases ((proc_at k1 cur).traceflag == 0)) [
    | inl z ↦ (
      λ e. absurd (different (rw (trace_call, z) at e)),
      λ (h, t). absurd (t (ground (arith, z))),
    )
    | inr z ↦ elim (Bool-cases (ltb num nelem)) [
      | inl lt ↦
          let (name, q) = get_elem-in syscalls num (ground (arith, lt)) in
          (λ e. absurd (different (rw (trace_call, z, q) at e)), λ (h, t). absurd (in_table lt h))
      | inr lt ↦
          let q = get_elem-out syscalls num (ground (arith, lt)) in
          (λ e. (ground (arith, lt), λ t. traced_zero z t), λ h. rw (trace_call, z, q) refl)
    ]
  ]
    where
      in_table : ltb num nelem ≡ true → nelem ≤ num → ⊥
      in_table lt h = ground (arith, lt, h)

      traced_zero : ((proc_at k1 cur).traceflag == 0) ≡ false → (proc_at k1 cur).traceflag ≡ 0 → ⊥
      traced_zero z q = ground (arith, z, q)

  -- syscall reads one of its arrays outside its bounds exactly when a traced process makes a call whose number is not in them, a negative
  -- number included. The dispatch itself never does, for any number.
  pub syscall-none_iff :
      (k : Kernel W)
      → (syscall run cur k ≡ none)
        ↔ ((nelem ≤ (proc_at k cur).frame.eax) × ((proc_at k cur).traceflag ≢ 0))
  unfolding syscall
  syscall-none_iff k =
      let ((said, k1), e) = run_call-some k in
      let (f, g) = trace_call-none_iff (proc_at k cur).frame.eax said k1 in
      let same : syscall run cur k ≡ trace_call cur (proc_at k cur).frame.eax (some (said, k1)) =
        ap (trace_call cur (proc_at k cur).frame.eax) e in
      (
        λ q. let (h, t) = f (sym same ∙ q) in (h, λ z. t (run_call-unknown k said k1 h e ∙ z)),
        λ (h, t). same ∙ g (h, λ z. t (sym (run_call-unknown k said k1 h e) ∙ z)),
      )
