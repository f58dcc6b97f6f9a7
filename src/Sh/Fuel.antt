-- ===== src/Sh/Fuel.antt =====
-- The fuel of the parser.
use tp2_so.Prelude.{
  ℕ, zero, suc, ◌+◌, ◌*◌, ◌<◌, ◌≤◌, ◌≡◌, ◌≢◌, sym, subst, true, false, ◌||◌, Bool-cases, inl, inr,
  List, [], ◌∷◌, ◌++◌, arith, if◌then◌else◌, ◌==◌, leb, length,
}
use tp2_so.Sh.{
  Cmd, exec, pipe, sequence, back, Redir, Parsed, parsed, failed, out_of_fuel, ◌>>=◌, skip_white,
  gettoken, peek, redir_of, wrap, max_args, parse_redirs, parse_args, parse_backs, parse_simple,
  parse_block, parse_exec, parse_line, parse_pipe, parse_cmd,
}
use tp2_so.Sh.Tokens.{length-skip_white, length-gettoken_le, peek-true, kind-zero}

-- There was fuel enough, and no more than `n` characters are left.
abbrev Ends {ℓ} : {A : Type ℓ} → ℕ → Parsed (A × List ℕ) → Type 0
Ends n (parsed (a, s)) = length s ≤ n
Ends n (failed e) = Unit
Ends n out_of_fuel = ⊥

>>=-Ends {ℓ κ} :
    {A : Type ℓ} {B : Type κ} (n k : ℕ) (m : Parsed (A × List ℕ))
    (f : A × List ℕ → Parsed (B × List ℕ))
    → Ends n m
    → ((a : A) (s : List ℕ) → length s ≤ n → Ends k (f (a, s)))
    → Ends k (m >>= f)
>>=-Ends n k (parsed (a, s)) f h g = g a s h
>>=-Ends n k (failed e) f h g = tt
>>=-Ends n k out_of_fuel f h g = absurd h

parse_redirs-Ends :
    (fuel n : ℕ) (s : List ℕ) → length s < fuel → length s ≤ n → Ends n (parse_redirs fuel s)
unfolding parse_redirs
parse_redirs-Ends zero n s h le = omega arith
parse_redirs-Ends (suc fuel) n s h le = elim (Bool-cases (peek (λ c. c == b'<' || c == b'>') s)) [
  | inr p ↦ rw (p) (omega (arith, length-skip_white s))
  | inl p ↦ elim (Bool-cases ((gettoken (gettoken s).rest).kind == b'a')) [
    | inr k ↦ rw (p, k) tt
    | inl k ↦
        rw (p, k)
          (>>=-Ends n n (parse_redirs fuel (gettoken (gettoken s).rest).rest)
            (λ (rs, s1).
              parsed (redir_of (gettoken s).kind (gettoken (gettoken s).rest).chars ∷ rs, s1))
            (parse_redirs-Ends fuel n (gettoken (gettoken s).rest).rest (shorter p) (fewer p))
            (λ rs s1 l. l))
  ]
]
  where
    shorter :
        peek (λ c. c == b'<' || c == b'>') s ≡ true
        → length (gettoken (gettoken s).rest).rest < fuel
    shorter p =
        omega
          (arith, peek-true (λ c. c == b'<' || c == b'>') s p, length-gettoken_le (gettoken s).rest)

    fewer :
        peek (λ c. c == b'<' || c == b'>') s ≡ true → length (gettoken (gettoken s).rest).rest ≤ n
    fewer p =
        omega
          (arith, peek-true (λ c. c == b'<' || c == b'>') s p, length-gettoken_le (gettoken s).rest)

parse_args-Ends :
    (fuel argc n : ℕ) (s : List ℕ)
    → length s < fuel
    → length s ≤ n
    → Ends n (parse_args fuel argc s)
unfolding parse_args
parse_args-Ends zero argc n s h le = omega arith
parse_args-Ends (suc fuel) argc n s h le =
    elim (Bool-cases (peek (λ c. c == b'|' || (c == b')' || (c == b'&' || c == b';'))) s)) [
      | inl p ↦ rw (p) (omega (arith, length-skip_white s))
      | inr p ↦ elim (Bool-cases ((gettoken s).kind == 0)) [
        | inl z ↦ rw (p, z) (omega (arith, length-gettoken_le s))
        | inr z ↦ elim (Bool-cases ((gettoken s).kind == b'a')) [
          | inr k ↦ rw (p, z, k) tt
          | inl k ↦ elim (Bool-cases (leb max_args (argc + 1))) [
            | inl m ↦ rw (p, z, k, m) tt
            | inr m ↦
                rw (p, z, k, m) (more z (λ s1 l1 l2. parse_args-Ends fuel (argc + 1) n s1 l1 l2))
          ]
        ]
      ]
    ]
  where
    more :
        ((gettoken s).kind == 0) ≡ false
        → ((s1 : List ℕ)
            → length s1 < fuel
            → length s1 ≤ n
            → Ends n (parse_args fuel (argc + 1) s1))
        → Ends {A = List (List ℕ) × List Redir} n (
            parse_redirs (length (gettoken s).rest + 1) (gettoken s).rest >>= λ (rs, s1).
            parse_args fuel (argc + 1) s1 >>= λ ((args, rs1), s2).
            parsed (((gettoken s).chars ∷ args, rs ++ rs1), s2))
    more z later =
        let lt = kind-zero s z in
        >>=-Ends (length (gettoken s).rest) n _ _
          (parse_redirs-Ends (length (gettoken s).rest + 1) (length (gettoken s).rest)
            (gettoken s).rest (omega arith) (omega arith))
          (λ rs s1 l.
            >>=-Ends n n (parse_args fuel (argc + 1) s1)
              (λ ((args, rs1), s2). parsed (((gettoken s).chars ∷ args, rs ++ rs1), s2))
              (later s1 (omega arith) (omega arith)) (λ x s2 l1. l1))

parse_backs-Ends :
    (fuel n : ℕ) (c : Cmd) (s : List ℕ)
    → length s < fuel
    → length s ≤ n
    → Ends n (parse_backs fuel c s)
unfolding parse_backs
parse_backs-Ends zero n c s h le = omega arith
parse_backs-Ends (suc fuel) n c s h le = elim (Bool-cases (peek (λ c. c == b'&') s)) [
  | inr p ↦ rw (p) (omega (arith, length-skip_white s))
  | inl p ↦
      let lt = peek-true (λ c. c == b'&') s p in
      rw (p) (parse_backs-Ends fuel n (back c) (gettoken s).rest (omega arith) (omega arith))
]

parse_simple-Ends : (n : ℕ) (s : List ℕ) → length s ≤ n → Ends n (parse_simple s)
unfolding parse_simple
parse_simple-Ends n s le =
    >>=-Ends n n (parse_redirs (length s + 1) s)
      (λ (rs, s1). parse_args (length s1 + 1) 0 s1 >>= λ ((args, rs1), s2).
        parsed (wrap (rs ++ rs1) (exec args), s2))
      (parse_redirs-Ends (length s + 1) n s (omega arith) le)
      (λ rs s1 l.
        >>=-Ends n n (parse_args (length s1 + 1) 0 s1)
          (λ ((args, rs1), s2). parsed (wrap (rs ++ rs1) (exec args), s2))
          (parse_args-Ends (length s1 + 1) 0 n s1 (omega arith) l) (λ x s2 l1. l1))

module _ (line : List ℕ → Parsed (Cmd × List ℕ)) (n : ℕ)
    (shorter : (s : List ℕ) → length s < n → Ends (length s) (line s)) where
  parse_block-Ends : (s : List ℕ) → length s ≤ n → Ends n (parse_block line s)
  unfolding parse_block
  parse_block-Ends s le = elim (Bool-cases (peek (λ c. c == b'(') s)) [
    | inr p ↦ rw (p) tt
    | inl p ↦
        let lt = peek-true (λ c. c == b'(') s p in
        rw (p) (
          >>=-Ends (length (gettoken s).rest) n (line (gettoken s).rest) _
            (shorter (gettoken s).rest (omega arith)) (λ c s1 l. closing c s1 (omega arith)))
  ]
    where
      closing :
          (c : Cmd) (s1 : List ℕ)
          → length s1 ≤ n
          → Ends n (
              if peek (λ c. c == b')') s1
              then (parse_redirs (length (gettoken s1).rest + 1) (gettoken s1).rest >>= λ (rs, s2).
                  parsed (wrap rs c, s2))
              else failed "syntax - missing )")
      closing c s1 l = elim (Bool-cases (peek (λ c. c == b')') s1)) [
        | inr q ↦ rw (q) tt
        | inl q ↦
            let lt = peek-true (λ c. c == b')') s1 q in
            rw (q) (
              >>=-Ends n n (parse_redirs (length (gettoken s1).rest + 1) (gettoken s1).rest)
                (λ (rs, s2). parsed (wrap rs c, s2))
                (parse_redirs-Ends (length (gettoken s1).rest + 1) n (gettoken s1).rest
                  (omega arith) (omega arith))
                (λ rs s2 l2. l2))
      ]

  parse_exec-Ends : (s : List ℕ) → length s ≤ n → Ends n (parse_exec line s)
  unfolding parse_exec
  parse_exec-Ends s le = elim (Bool-cases (peek (λ c. c == b'(') s)) [
    | inl p ↦
        subst (λ b. Ends n (if b then parse_block line s else parse_simple s)) (sym p)
          (parse_block-Ends s le)
    | inr p ↦
        subst (λ b. Ends n (if b then parse_block line s else parse_simple s)) (sym p)
          (parse_simple-Ends n s le)
  ]

mutual
  unfolding parse_line

  parse_line-Ends :
      (fuel : ℕ) (s : List ℕ) → 3 * length s + 2 < fuel → Ends (length s) (parse_line fuel s)
  parse_line-Ends zero s h = omega arith
  parse_line-Ends (suc fuel) s h =
      >>=-Ends (length s) (length s) (parse_pipe fuel s) _ (parse_pipe-Ends fuel s (omega arith))
        (λ c s1 l.
          >>=-Ends (length s) (length s) (parse_backs (length s1 + 1) c s1) _
            (parse_backs-Ends (length s1 + 1) (length s) c s1 (omega arith) l)
            (λ c1 s2 l2. elim (Bool-cases (peek (λ c. c == b';') s2)) [
              | inr p ↦ rw (p) (omega (arith, length-skip_white s2))
              | inl p ↦
                  let lt = peek-true (λ c. c == b';') s2 p in
                  rw (p) (
                    >>=-Ends (length (gettoken s2).rest) (length s)
                      (parse_line fuel (gettoken s2).rest) (λ (c2, s3). parsed (sequence c1 c2, s3))
                      (parse_line-Ends fuel (gettoken s2).rest (omega arith))
                      (λ c2 s3 l3. omega arith))
            ]))

  parse_pipe-Ends :
      (fuel : ℕ) (s : List ℕ) → 3 * length s + 1 < fuel → Ends (length s) (parse_pipe fuel s)
  parse_pipe-Ends zero s h = omega arith
  parse_pipe-Ends (suc fuel) s h =
      >>=-Ends (length s) (length s) (parse_exec (parse_line fuel) s) _
        (parse_exec-Ends (parse_line fuel) (length s)
          (λ s1 l. parse_line-Ends fuel s1 (omega arith)) s (omega arith))
        (λ c s1 l. elim (Bool-cases (peek (λ c. c == b'|') s1)) [
          | inr p ↦ rw (p) (omega (arith, length-skip_white s1))
          | inl p ↦
              let lt = peek-true (λ c. c == b'|') s1 p in
              rw (p) (
                >>=-Ends (length (gettoken s1).rest) (length s) (parse_pipe fuel (gettoken s1).rest)
                  (λ (c1, s2). parsed (pipe c c1, s2))
                  (parse_pipe-Ends fuel (gettoken s1).rest (omega arith)) (λ c1 s2 l2. omega arith))
        ])

-- The fuel that parsecmd is given is enough for every line: it returns or panics.
pub parse_cmd-ne-out_of_fuel : (s : List ℕ) → parse_cmd s ≢ out_of_fuel
unfolding parse_cmd
parse_cmd-ne-out_of_fuel s =
    fueled (parse_line (3 * length s + 3) s) (parse_line-Ends (3 * length s + 3) s (omega arith))
  where
    last :
        (c : Cmd) (t : List ℕ)
        → elim t as (λ _. Parsed Cmd) [ [] ↦ parsed c | d ∷ rest ↦ failed "syntax" ] ≢ out_of_fuel
    last c [] e = cc
    last c (d ∷ t) e = cc

    fueled :
        (m : Parsed (Cmd × List ℕ))
        → Ends (length s) m
        → (m >>= λ (c, s1). elim (skip_white s1) as (λ _. Parsed Cmd) [
          | [] ↦ parsed c
          | d ∷ rest ↦ failed "syntax"
        ])
          ≢ out_of_fuel
    fueled (parsed (c, s1)) h e = last c (skip_white s1) e
    fueled (failed w) h e = cc
    fueled out_of_fuel h e = absurd h
