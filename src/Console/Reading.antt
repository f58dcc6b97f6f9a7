-- ===== src/Console/Reading.antt =====
-- Reads from the console take characters off the front of the ring.
use tp2_so.Prelude.{
  ℕ, zero, suc, ◌+◌, ◌%◌, ◌≤◌, ◌≡◌, ◌∙◌, refl, ap, [], ◌∷◌, ◌++◌, arith, length, get_or, add32,
  sub32, ◌==◌, true, false, Bool, Bool-cases, inl, inr, ◌⊎◌, if◌then◌else◌, ltb,
}
use tp2_so.Console.{Input, input_buf, control, consoleread, returned, failed, asleep, Read}
use tp2_so.Console.Ring.{IsInput, chars_from, ready, line}

abbrev past_front : Input → Input
past_front s = record s { r = add32 s.r 1 }

module _ (s : Input) (wf : IsInput s) (some_left : (s.r == s.w) ≡ false) where
  ready-past_front : ready s ≡ get_or s.buf (s.r % input_buf) 0 ∷ ready (past_front s)
  unfolding ready chars_from
  ready-past_front = ap (λ n. chars_from n s.r s.buf) one_more
    where
      one_more : sub32 s.w s.r ≡ suc (sub32 s.w (add32 s.r 1))
      one_more = ground (arith, wf.read_word, wf.write_word)

  past_front-IsInput : IsInput (past_front s)
  past_front-IsInput = record {
    size = wf.size;
    read_word = omega arith;
    write_word = wf.write_word;
    edit_word = wf.edit_word;
    order = ground (arith, wf.order, wf.room, wf.read_word, wf.write_word, wf.edit_word);
    room = ground (arith, wf.order, wf.room, wf.read_word, wf.write_word, wf.edit_word);
    plain = unfold line in wf.plain;
  }

ready-empty : (s : Input) → IsInput s → (s.r == s.w) ≡ true → ready s ≡ []
unfolding ready chars_from
ready-empty s wf same = ap (λ n. chars_from n s.r s.buf) none_there
  where
    none_there : sub32 s.w s.r ≡ 0
    none_there = ground (arith, wf.read_word, wf.write_word)

-- How a piece of consoleread may end: asleep or failed with nothing left to take; returned with the
-- bytes taken off the front, and a control-D too if `n` is still `target`.
pub record IsRead (killed : Bool) (target n : ℕ) (s : Input) (t : Read) : Type 0 where
  pub wf : IsInput t.input
  pub same_line : line t.input ≡ line s
  pub counted : length t.bytes + t.left ≡ n
  pub front :
      (ready s ≡ t.bytes ++ ready t.input)
      ⊎ (ready s ≡ t.bytes ++ control b'D' ∷ ready t.input) × (t.left ≡ target)
  pub waits :
      (t.ending ≡ returned)
      ⊎ (ready t.input ≡ []) × (t.ending ≡ (if killed then failed else asleep))

-- A read of `n` characters, up to `target`, takes what it returns off the front of the ring, and
-- leaves the line alone; it swallows a control-D only if it has taken nothing, and it sleeps, or
-- fails when the process is killed, only when nothing is left to read.
pub consoleread-IsRead :
    (killed : Bool) (target n : ℕ) (s : Input)
    → n ≤ target
    → IsInput s
    → IsRead killed target n s (consoleread killed target n s)
unfolding consoleread
consoleread-IsRead killed target zero s le wf = record {
  wf = wf;
  same_line = refl;
  counted = omega arith;
  front = inl refl;
  waits = inl refl;
}
consoleread-IsRead killed target (suc n) s le wf = elim (Bool-cases (s.r == s.w)) [
  | inl e ↦ rw (e) record {
    wf = wf;
    same_line = refl;
    counted = omega arith;
    front = inl refl;
    waits = inr (ready-empty s wf e, refl);
  }
  | inr e ↦ elim (Bool-cases (c == control b'D')) [
    | inl d ↦ elim (Bool-cases (ltb (suc n) target)) [
      | inl l ↦
          rw (e, d, l)
            record {
              wf = wf;
              same_line = refl;
              counted = omega arith;
              front = inl refl;
              waits = inl refl;
            }
      | inr l ↦
          rw (e, d, l)
            record {
              wf = past_front-IsInput s wf e;
              same_line = unfold line in refl;
              counted = omega arith;
              front = inr (
                ready-past_front s wf e ∙ ap (λ x. x ∷ ready (past_front s)) (the_eof d),
                at_target l,
              );
              waits = inl refl;
            }
    ]
    | inr d ↦ elim (Bool-cases (c == b'\n')) [
      | inl l ↦
          rw (e, d, l)
            record {
              wf = past_front-IsInput s wf e;
              same_line = unfold line in refl;
              counted = omega arith;
              front = inl (ready-past_front s wf e);
              waits = inl refl;
            }
      | inr l ↦
          let t =
            consoleread-IsRead killed target n (past_front s) (omega arith)
              (past_front-IsInput s wf e) in
          rw (e, d, l)
            record {
              wf = t.wf;
              same_line = t.same_line ∙ (unfold line in refl);
              counted = omega (arith, t.counted);
              front = elim t.front [
                | inl f ↦ inl (ready-past_front s wf e ∙ ap (λ xs. c ∷ xs) f)
                | inr (f, g) ↦ inr (ready-past_front s wf e ∙ ap (λ xs. c ∷ xs) f, g)
              ];
              waits = t.waits;
            }
    ]
  ]
]
  where
    c : ℕ
    c = get_or s.buf (s.r % input_buf) 0

    the_eof : (c == control b'D') ≡ true → c ≡ control b'D'
    the_eof d = ground arith

    at_target : ltb (suc n) target ≡ false → suc n ≡ target
    at_target l = ground arith
