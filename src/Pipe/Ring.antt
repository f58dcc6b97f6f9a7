-- ===== src/Pipe/Ring.antt =====
-- The bytes in a pipe's ring, in order, and what one `put` and one `pop` do to them.
use tp2_so.Prelude.{
  ℕ, zero, suc, ◌+◌, ◌%◌, ◌<◌, ◌≤◌, ◌≡◌, ◌∙◌, refl, ap, ap₂, sym, List, [], ◌∷◌, ◌++◌, arith,
  length, length-set, Bool, get_or, get_or-set_self, get_or-set_ne, ◌-◌, ◌^◌, set, add32, sub32,
  true, false, subst,
}
use tp2_so.Pipe.{Pipe, pipesize, put, pop, front, is_full, is_empty, new_pipe, pipeclose}

-- `n` bytes of the ring from counter value `i` on.
pub bytes_from : ℕ → ℕ → List ℕ → List ℕ
bytes_from zero i bs = []
bytes_from (suc n) i bs = get_or bs (i % pipesize) 0 ∷ bytes_from n (add32 i 1) bs

-- How many bytes are in the pipe.
abbrev pub count : Pipe → ℕ
count p = sub32 p.nwrite p.nread

pub contents : Pipe → List ℕ
contents p = bytes_from (count p) p.nread p.buffer

pub record IsPipe (p : Pipe) : Type 0 where
  pub size : length p.buffer ≡ pipesize
  pub read_word : p.nread < 2 ^ 32
  pub write_word : p.nwrite < 2 ^ 32
  pub room : count p ≤ pipesize

plus_zero : (i : ℕ) → i + 0 ≡ i
plus_zero i = omega arith

bytes_from-snoc :
    (n i : ℕ) (bs : List ℕ)
    → bytes_from (suc n) i bs ≡ bytes_from n i bs ++ get_or bs ((i + n) % pipesize) 0 ∷ []
unfolding bytes_from
bytes_from-snoc zero i bs = rw (plus_zero i) refl
bytes_from-snoc (suc n) i bs =
    ap (λ xs. get_or bs (i % pipesize) 0 ∷ xs)
      (bytes_from-snoc n (add32 i 1) bs
        ∙ ap (λ j. bytes_from n (add32 i 1) bs ++ get_or bs j 0 ∷ []) (step i n))
  where
    step : (i n : ℕ) → (add32 i 1 + n) % pipesize ≡ (i + suc n) % pipesize
    step i n = omega arith

bytes_from-set :
    (n m i j c : ℕ) (bs : List ℕ)
    → n ≤ m
    → m < pipesize
    → (i + m) % pipesize ≡ j % pipesize
    → bytes_from n i (set bs (j % pipesize) c) ≡ bytes_from n i bs
unfolding bytes_from
bytes_from-set zero m i j c bs le lt e = refl
bytes_from-set (suc n) m i j c bs le lt e =
    ap₂ (λ x xs. x ∷ xs) (get_or-set_ne bs (j % pipesize) (i % pipesize) c 0 (λ same. apart same))
      (bytes_from-set n (m - 1) (add32 i 1) j c bs (omega arith) (omega arith) (omega arith))
  where
    apart : j % pipesize ≡ i % pipesize → ⊥
    apart same = omega arith

pub put-IsPipe : (c : ℕ) (p : Pipe) → IsPipe p → is_full p ≡ false → IsPipe (put c p)
unfolding put
put-IsPipe c p wf open_slot = record {
  size = length-set p.buffer (p.nwrite % pipesize) c ∙ wf.size;
  read_word = wf.read_word;
  write_word = omega arith;
  room = ground (arith, wf.room, wf.read_word, wf.write_word);
}

pub contents-put :
    (c : ℕ) (p : Pipe) → IsPipe p → is_full p ≡ false → contents (put c p) ≡ contents p ++ c ∷ []
unfolding contents put bytes_from
contents-put c p wf open_slot =
    ap (λ n. bytes_from n p.nread bs) one_more
    ∙ (bytes_from-snoc (count p) p.nread bs
        ∙ ap₂ (λ xs x. xs ++ x ∷ [])
            (bytes_from-set (count p) (count p) p.nread p.nwrite c p.buffer (omega arith) lt same)
            (ap (λ j. get_or bs j 0) same
              ∙ get_or-set_self p.buffer (p.nwrite % pipesize) c 0
                  (subst (λ n. p.nwrite % pipesize < n) (sym wf.size) (omega arith))))
  where
    bs : List ℕ
    bs = set p.buffer (p.nwrite % pipesize) c

    one_more : sub32 (add32 p.nwrite 1) p.nread ≡ suc (count p)
    one_more = ground (arith, wf.room, wf.read_word, wf.write_word)

    lt : count p < pipesize
    lt = ground (arith, wf.room, wf.read_word, wf.write_word)

    same : (p.nread + count p) % pipesize ≡ p.nwrite % pipesize
    same = ground (arith, wf.read_word, wf.write_word)

pub pop-IsPipe : (p : Pipe) → IsPipe p → is_empty p ≡ false → IsPipe (pop p)
unfolding pop
pop-IsPipe p wf some_left = record {
  size = wf.size;
  read_word = omega arith;
  write_word = wf.write_word;
  room = ground (arith, wf.room, wf.read_word, wf.write_word);
}

pub contents-pop :
    (p : Pipe) → IsPipe p → is_empty p ≡ false → contents p ≡ front p ∷ contents (pop p)
unfolding contents pop bytes_from
contents-pop p wf some_left = ap (λ n. bytes_from n p.nread p.buffer) one_less
  where
    one_less : count p ≡ suc (sub32 p.nwrite (add32 p.nread 1))
    one_less = ground (arith, wf.room, wf.read_word, wf.write_word)

pub contents-empty : (p : Pipe) → IsPipe p → is_empty p ≡ true → contents p ≡ []
unfolding contents bytes_from
contents-empty p wf none_left = ap (λ n. bytes_from n p.nread p.buffer) none_there
  where
    none_there : count p ≡ 0
    none_there = ground (arith, wf.read_word, wf.write_word)

pub new_pipe-IsPipe : (junk : List ℕ) → length junk ≡ pipesize → IsPipe (new_pipe junk)
new_pipe-IsPipe junk full_page = record {
  size = full_page;
  read_word = omega arith;
  write_word = omega arith;
  room = omega arith;
}

pub pipeclose-IsPipe : (writable : Bool) (p : Pipe) → IsPipe p → IsPipe (pipeclose writable p).pipe
unfolding pipeclose
pipeclose-IsPipe true p wf = record {
  size = wf.size;
  read_word = wf.read_word;
  write_word = wf.write_word;
  room = wf.room;
}
pipeclose-IsPipe false p wf = record {
  size = wf.size;
  read_word = wf.read_word;
  write_word = wf.write_word;
  room = wf.room;
}

pub contents-pipeclose :
    (writable : Bool) (p : Pipe) → contents (pipeclose writable p).pipe ≡ contents p
unfolding pipeclose contents
contents-pipeclose true p = refl
contents-pipeclose false p = refl
