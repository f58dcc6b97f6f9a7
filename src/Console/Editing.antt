-- ===== src/Console/Editing.antt =====
-- The input ring implements a line editor.
use tp2_so.Prelude.{
  ℕ, zero, suc, ◌+◌, ◌%◌, ◌^◌, ◌<◌, ◌≤◌, ◌≡◌, ◌≢◌, ◌∙◌, refl, ap, ap₂, sym, List, [], ◌∷◌, ◌++◌,
  arith, length, get_or, get_or-set_self, length-set, set, add32, sub32, All, subst, ◌==◌, true,
  false, not, Bool-cases, inl, inr, ◌&&◌, ◌||◌, if◌then◌else◌, ltb,
}
use tp2_so.Console.{
  Input, input_buf, control, to_newline, erase, kill_line, type_in, commit_line, intr_key,
  consoleintr,
}
use tp2_so.Console.Ring.{
  IsInput, chars_from, chars_from-snoc, chars_from-set, chars_from-add, length-chars_from, ready,
  line,
}

-- What the editor holds: characters for the readers, and a line.
pub record Editor : Type 0 where
  pub committed : List ℕ
  pub draft : List ℕ

abbrev pub drop_last : List ℕ → List ℕ
drop_last [] = []
drop_last (x ∷ []) = []
drop_last (x ∷ y ∷ xs) = x ∷ drop_last (y ∷ xs)

-- One key: control-P, control-U, backspace or delete, or a character, which is taken while there is
-- room; a line end, control-D or the last place passes the line on.
pub key : ℕ → Editor → Editor
key c ed =
    let draft = ed.draft ++ to_newline c ∷ [] in
    let used = length ed.committed + length ed.draft in
    if c == control b'P'
    then ed
    else if c == control b'U'
    then record ed { draft = [] }
    else if c == control b'H' || c == 0x7f
    then record ed { draft = drop_last ed.draft }
    else if not (c == 0) && ltb used input_buf
    then (if to_newline c == b'\n' || to_newline c == control b'D' || used + 1 == input_buf
        then record { committed = ed.committed ++ draft; draft = [] }
        else record ed { draft = draft })
    else ed

abbrev pub view : Input → Editor
view s = record { committed = ready s; draft = line s }

drop_last-snoc : (xs : List ℕ) (x : ℕ) → drop_last (xs ++ x ∷ []) ≡ xs
drop_last-snoc [] x = refl
drop_last-snoc (y ∷ []) x = refl
drop_last-snoc (y ∷ z ∷ xs) x = ap (λ ys. y ∷ ys) (drop_last-snoc (z ∷ xs) x)

All-snoc : (xs : List ℕ) (x n : ℕ) → All (λ c. c ≢ n) (xs ++ x ∷ []) → All (λ c. c ≢ n) xs × x ≢ n
All-snoc [] x n (h, u) = (tt, h)
All-snoc (y ∷ xs) x n (h, a) = let (b, c) = All-snoc xs x n a in ((h, b), c)

snoc-All : (xs : List ℕ) (x n : ℕ) → All (λ c. c ≢ n) xs → x ≢ n → All (λ c. c ≢ n) (xs ++ x ∷ [])
snoc-All [] x n u h = (h, tt)
snoc-All (y ∷ xs) x n (h, a) k = (h, snoc-All xs x n a k)

-- With something in the line, the last character of the line is before `e`.
line-split :
    (s : Input)
    → IsInput s
    → (s.e == s.w) ≡ false
    → line s ≡ line (erase s) ++ get_or s.buf (sub32 s.e 1 % input_buf) 0 ∷ []
unfolding line erase
line-split s wf more =
    ap (λ n. chars_from n s.w s.buf) one_more
    ∙ (chars_from-snoc (sub32 (sub32 s.e 1) s.w) s.w s.buf
        ∙ ap (λ j. chars_from (sub32 (sub32 s.e 1) s.w) s.w s.buf ++ get_or s.buf j 0 ∷ []) last)
  where
    one_more : sub32 s.e s.w ≡ suc (sub32 (sub32 s.e 1) s.w)
    one_more = ground (arith, wf.edit_word, wf.write_word)

    last : (s.w + sub32 (sub32 s.e 1) s.w) % input_buf ≡ sub32 s.e 1 % input_buf
    last = ground (arith, wf.edit_word, wf.write_word)

erase-IsInput : (s : Input) → IsInput s → (s.e == s.w) ≡ false → IsInput (erase s)
unfolding erase
erase-IsInput s wf more = record {
  size = wf.size;
  read_word = wf.read_word;
  write_word = wf.write_word;
  edit_word = omega arith;
  order = ground (arith, wf.order, wf.room, wf.read_word, wf.write_word, wf.edit_word);
  room = ground (arith, wf.order, wf.room, wf.read_word, wf.write_word, wf.edit_word);
  plain =
      (All-snoc _ _ b'\n' (subst (λ l. All (λ c. c ≢ b'\n') l) (line-split s wf more) wf.plain)).0;
}

-- An empty line.
line-empty : (s : Input) → IsInput s → (s.e == s.w) ≡ true → line s ≡ []
unfolding line chars_from
line-empty s wf same = ap (λ n. chars_from n s.w s.buf) none_there
  where
    none_there : sub32 s.e s.w ≡ 0
    none_there = ground (arith, wf.edit_word, wf.write_word)

-- control-U removes the whole line: it holds no line end.
kill_line-view :
    (fuel : ℕ) (s : Input)
    → IsInput s
    → sub32 s.e s.w ≤ fuel
    → IsInput (kill_line fuel s)
      × (ready (kill_line fuel s) ≡ ready s)
      × (line (kill_line fuel s) ≡ [])
unfolding kill_line ready erase
kill_line-view zero s wf le = (wf, refl, line-empty s wf (same wf.edit_word wf.write_word))
  where
    same : s.e < 2 ^ 32 → s.w < 2 ^ 32 → (s.e == s.w) ≡ true
    same a b = ground arith
kill_line-view (suc fuel) s wf le = elim (Bool-cases (s.e == s.w)) [
  | inl same ↦ rw (same) (wf, refl, line-empty s wf same)
  | inr more ↦
      let (rest, apart) =
        All-snoc _ _ b'\n' (subst (λ l. All (λ c. c ≢ b'\n') l) (line-split s wf more) wf.plain) in
      rw (more, other apart)
        (kill_line-view fuel (erase s) (erase-IsInput s wf more)
          (shorter more wf.edit_word wf.write_word))
]
  where
    other :
        get_or s.buf (sub32 s.e 1 % input_buf) 0 ≢ b'\n'
        → (get_or s.buf (sub32 s.e 1 % input_buf) 0 == b'\n') ≡ false
    other ne = ground arith

    shorter : (s.e == s.w) ≡ false → s.e < 2 ^ 32 → s.w < 2 ^ 32 → sub32 (sub32 s.e 1) s.w ≤ fuel
    shorter more a b = ground arith

-- A character typed while there is room.
module _ (c : ℕ) (s : Input) (wf : IsInput s) (free : ltb (sub32 s.e s.r) input_buf ≡ true) where
  ready-type_in : ready (type_in c s) ≡ ready s
  unfolding ready type_in
  ready-type_in =
      chars_from-set (sub32 s.w s.r) (sub32 s.e s.r) s.r s.e c s.buf (omega (arith, wf.order))
        (ground arith) (omega (arith, wf.edit_word, wf.read_word))

  line-type_in : line (type_in c s) ≡ line s ++ c ∷ []
  unfolding line type_in
  line-type_in =
      ap (λ n. chars_from n s.w (set s.buf (s.e % input_buf) c)) one_more
      ∙ (chars_from-snoc (sub32 s.e s.w) s.w (set s.buf (s.e % input_buf) c)
          ∙ ap₂ (λ xs x. xs ++ x ∷ [])
              (chars_from-set (sub32 s.e s.w) (sub32 s.e s.w) s.w s.e c s.buf (omega arith) fits
                place)
              (ap (λ j. get_or (set s.buf (s.e % input_buf) c) j 0) place
                ∙ get_or-set_self s.buf (s.e % input_buf) c 0
                    (subst (λ n. s.e % input_buf < n) (sym wf.size) (omega arith))))
    where
      fits : sub32 s.e s.w < input_buf
      fits = ground (arith, wf.order)

      one_more : sub32 (add32 s.e 1) s.w ≡ suc (sub32 s.e s.w)
      one_more = ground (arith, fits, wf.edit_word, wf.write_word)

      place : (s.w + sub32 s.e s.w) % input_buf ≡ s.e % input_buf
      place = ground (arith, wf.edit_word, wf.write_word)

  -- As long as the character is no line end, the invariant still holds.
  type_in-IsInput : c ≢ b'\n' → IsInput (type_in c s)
  unfolding type_in
  type_in-IsInput h = record {
    size = length-set s.buf (s.e % input_buf) c ∙ wf.size;
    read_word = wf.read_word;
    write_word = wf.write_word;
    edit_word = omega arith;
    order = ground (arith, wf.order, wf.room, wf.read_word, wf.write_word, wf.edit_word);
    room = ground (arith, wf.order, wf.room, wf.read_word, wf.write_word, wf.edit_word);
    plain = subst (λ l. All (λ d. d ≢ b'\n') l) (sym line-type_in) (snoc-All _ c b'\n' wf.plain h);
  }

  -- The line passed on to the readers.
  abbrev passed_on : Input
  passed_on = record s {
    buf = set s.buf (s.e % input_buf) c;
    e = add32 s.e 1;
    w = add32 s.e 1;
    echoed = c ∷ s.echoed;
    woken = true;
  }

  passed_on-IsInput : IsInput passed_on
  unfolding line chars_from
  passed_on-IsInput = record {
    size = length-set s.buf (s.e % input_buf) c ∙ wf.size;
    read_word = wf.read_word;
    write_word = omega arith;
    edit_word = omega arith;
    order = ground (arith, wf.order, wf.room, wf.read_word, wf.write_word, wf.edit_word);
    room = ground (arith, wf.order, wf.room, wf.read_word, wf.write_word, wf.edit_word);
    plain =
        subst (λ n. All (λ d. d ≢ b'\n') (chars_from n (add32 s.e 1) passed_on.buf)) (sym nothing)
          tt;
  }
    where
      nothing : sub32 (add32 s.e 1) (add32 s.e 1) ≡ 0
      nothing = omega arith

  line-passed_on : line passed_on ≡ []
  unfolding line chars_from
  line-passed_on = ap (λ n. chars_from n (add32 s.e 1) passed_on.buf) nothing
    where
      nothing : sub32 (add32 s.e 1) (add32 s.e 1) ≡ 0
      nothing = omega arith

  ready-passed_on : ready passed_on ≡ ready s ++ (line s ++ c ∷ [])
  ready-passed_on =
      unfold ready line type_in in
      (ap (λ n. chars_from n s.r (set s.buf (s.e % input_buf) c)) sums
        ∙ (chars_from-add (sub32 s.w s.r) (sub32 (add32 s.e 1) s.w) s.r s.w _ wf.read_word back
            ∙ ap₂ (λ xs ys. xs ++ ys) ready-type_in line-type_in))
    where
      sums : sub32 (add32 s.e 1) s.r ≡ sub32 s.w s.r + sub32 (add32 s.e 1) s.w
      sums = ground (arith, wf.order, wf.room, wf.read_word, wf.write_word, wf.edit_word)

      back : add32 s.r (sub32 s.w s.r) ≡ s.w
      back = ground (arith, wf.read_word, wf.write_word)

-- The places in use, and the test for the last one.
used-view : (s : Input) → IsInput s → length (ready s) + length (line s) ≡ sub32 s.e s.r
unfolding ready line
used-view s wf =
    ap₂ (λ a b. a + b) (length-chars_from (sub32 s.w s.r) s.r s.buf)
      (length-chars_from (sub32 s.e s.w) s.w s.buf)
    ∙ wf.order

last_place :
    (s : Input)
    → IsInput s
    → ltb (sub32 s.e s.r) input_buf ≡ true
    → (add32 s.e 1 == add32 s.r input_buf) ≡ (sub32 s.e s.r + 1 == input_buf)
last_place s wf free = ground (arith, wf.read_word, wf.edit_word)

-- A character that is taken.
taken-view :
    (c : ℕ) (s : Input)
    → IsInput s
    → ltb (sub32 s.e s.r) input_buf ≡ true
    → IsInput (commit_line c (type_in c s))
      × (view (commit_line c (type_in c s)) ≡ (
          if c == b'\n' || c == control b'D' || sub32 s.e s.r + 1 == input_buf
          then record { committed = ready s ++ (line s ++ c ∷ []); draft = [] }
          else record { committed = ready s; draft = line s ++ c ∷ [] }))
unfolding commit_line type_in
taken-view c s wf free =
    rw (last_place s wf free)
      (elim (Bool-cases (c == b'\n' || c == control b'D' || sub32 s.e s.r + 1 == input_buf)) [
        | inl t ↦ rw (t) (
          passed_on-IsInput c s wf free,
          ap₂ (λ a b. record { committed = a; draft = b }) (ready-passed_on c s wf free)
              (line-passed_on c s wf free),
        )
        | inr t ↦ rw (t) (
          type_in-IsInput c s wf free (no_newline t),
          ap₂ (λ a b. record { committed = a; draft = b }) (ready-type_in c s wf free)
              (line-type_in c s wf free),
        )
      ])
  where
    no_newline :
        (c == b'\n' || c == control b'D' || sub32 s.e s.r + 1 == input_buf) ≡ false → c ≢ b'\n'
    no_newline t e = ground arith

erased-view :
    (s : Input)
    → IsInput s
    → (s.e == s.w) ≡ false
    → view (erase s) ≡ record { committed = ready s; draft = drop_last (line s) }
erased-view s wf more =
    unfold ready erase in
    (ap (λ l. record { committed = ready s; draft = l })
      (sym (ap drop_last (line-split s wf more) ∙ drop_last-snoc (line (erase s)) _)))

-- Every turn of consoleintr keeps the ring's invariant, and does to what the ring holds what the key
-- does in the editor.
pub intr_key-view :
    (c : ℕ) (s : Input)
    → IsInput s
    → IsInput (intr_key c s) × (view (intr_key c s) ≡ key c (view s))
unfolding intr_key key
intr_key-view c s wf = rw (used-view s wf) (elim (Bool-cases (c == control b'P')) [
  | inl p ↦ rw (p) (
    record {
      size = wf.size;
      read_word = wf.read_word;
      write_word = wf.write_word;
      edit_word = wf.edit_word;
      order = wf.order;
      room = wf.room;
      plain = unfold line in wf.plain;
    },
    unfold ready line in refl,
  )
  | inr p ↦ elim (Bool-cases (c == control b'U')) [
    | inl u ↦
        let (wf1, same, none_left) =
          kill_line-view input_buf s wf (omega (arith, wf.order, wf.room)) in
        rw (p, u) (wf1, ap₂ (λ a b. record { committed = a; draft = b }) same none_left)
    | inr u ↦ elim (Bool-cases (c == control b'H' || c == 0x7f)) [
      | inl h ↦ elim (Bool-cases (s.e == s.w)) [
        | inl same ↦
            rw (p, u, h, same)
              (
                wf,
                ap (λ l. record { committed = ready s; draft = l })
                    (line-empty s wf same ∙ sym (ap drop_last (line-empty s wf same))),
              )
        | inr more ↦ rw (p, u, h, more) (erase-IsInput s wf more, erased-view s wf more)
      ]
      | inr h ↦ elim (Bool-cases (not (c == 0) && ltb (sub32 s.e s.r) input_buf)) [
        | inl free ↦ rw (p, u, h, free) (taken-view (to_newline c) s wf (ground arith))
        | inr full ↦ rw (p, u, h, full) (wf, refl)
      ]
    ]
  ]
])

pub keys : List ℕ → Editor → Editor
unfolding key
keys [] ed = ed
keys (c ∷ cs) ed = keys cs (key c ed)

-- consoleintr, on any characters, keeps the ring's invariant, and leaves in the ring what the editor
-- holds after these keys.
pub consoleintr-view :
    (cs : List ℕ) (s : Input)
    → IsInput s
    → IsInput (consoleintr cs s) × (view (consoleintr cs s) ≡ keys cs (view s))
unfolding consoleintr keys
consoleintr-view [] s wf = (wf, refl)
consoleintr-view (c ∷ cs) s wf =
    let (wf1, e1) = intr_key-view c s wf in
    let (wf2, e2) = consoleintr-view cs (intr_key c s) wf1 in (wf2, e2 ∙ ap (keys cs) e1)
