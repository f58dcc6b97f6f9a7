-- ===== src/Log/Space.antt =====
-- The log's reservations: begin_op admits an operation only if every admitted operation can write
-- its MAXOPBLOCKS blocks. An operation is what runs between begin_op and end_op; its budget is the
-- number of calls of log_write that it has left.
use tp2_so.Prelude.{
  sym, ◌∙◌, ◌⊎◌, ℕ, zero, suc, ◌+◌, ◌-◌, ◌*◌, ◌≤◌, ◌<◌, ◌≡◌, refl, ap, Bool, true, false, some,
  List, [], ◌∷◌, length, get_elem?, set, All, done, panic, arith, Bool-cases, ◌==◌, inl, inr,
}
use tp2_so.Log.{
  Log, Machine, begun, begin_op, end_op, finish_commit, absorb, log_write, logsize, maxopblocks,
}

pub sum : List ℕ → ℕ
sum [] = 0
sum (x ∷ xs) = x + sum xs

abbrev pub remove : List ℕ → ℕ → List ℕ
remove [] i = []
remove (x ∷ xs) zero = xs
remove (x ∷ xs) (suc i) = x ∷ remove xs i

-- The log, with the budgets of the operations that are running.
pub record Usage : Type 0 where
  pub log : Log
  pub budgets : List ℕ

pub data Use (u : Usage) : Usage → Type 0 where
  opens :
      {l : Log}
      → begin_op u.log ≡ begun l
      → Use u (record { log = l; budgets = maxopblocks ∷ u.budgets })
  writes :
      (i r b : ℕ) {l : Log}
      → get_elem? u.budgets i ≡ some (suc r)
      → log_write b u.log ≡ done l
      → Use u (record { log = l; budgets = set u.budgets i r })
  closes :
      (i r : ℕ) (commits : Bool) {l : Log}
      → get_elem? u.budgets i ≡ some r
      → end_op u.log ≡ done (l, commits)
      → Use u (record { log = l; budgets = remove u.budgets i })
  commits :
      (m : Machine)
      → u.log.committing ≡ true
      → Use u (record { log = (finish_commit u.log m).0; budgets = u.budgets })

-- initlog has run: the log is empty and no operation is running.
abbrev pub fresh : ℕ → ℕ → Usage
fresh start size = record {
  log = record { start = start; size = size; outstanding = 0; committing = false; lh = [] };
  budgets = [];
}

pub data Used (u : Usage) : Usage → Type 0 where
  unused : Used u u
  more : {v w : Usage} → Used u v → Use v w → Used u w

pub record IsReserved (u : Usage) : Type 0 where
  pub counted : u.log.outstanding ≡ length u.budgets
  pub quiet : u.log.committing ≡ true → u.budgets ≡ []
  pub room : length u.log.lh + sum u.budgets ≤ logsize
  pub few : length u.budgets ≤ 3
  pub small : All (λ b. b ≤ maxopblocks) u.budgets

length-absorb : (b : ℕ) (bs : List ℕ) → length (absorb b bs) ≤ length bs + 1
unfolding absorb
length-absorb b [] = omega arith
length-absorb b (c ∷ bs) = ground (arith, length-absorb b bs)

sum-set : (bs : List ℕ) (i r : ℕ) → get_elem? bs i ≡ some (suc r) → sum (set bs i r) + 1 ≡ sum bs
unfolding sum
sum-set [] i r e = absurd (cc)
sum-set (b ∷ bs) zero r e = ground arith
sum-set (b ∷ bs) (suc i) r e = omega (arith, sum-set bs i r e)

length-set : (bs : List ℕ) (i r : ℕ) → length (set bs i r) ≡ length bs
length-set [] i r = refl
length-set (b ∷ bs) zero r = refl
length-set (b ∷ bs) (suc i) r = ap suc (length-set bs i r)

All-set :
    (bs : List ℕ) (i r : ℕ)
    → r ≤ maxopblocks
    → All (λ b. b ≤ maxopblocks) bs
    → All (λ b. b ≤ maxopblocks) (set bs i r)
All-set [] i r h a = tt
All-set (b ∷ bs) zero r h a = (h, a.1)
All-set (b ∷ bs) (suc i) r h a = (a.0, All-set bs i r h a.1)

All-get :
    (bs : List ℕ) (i r : ℕ)
    → All (λ b. b ≤ maxopblocks) bs
    → get_elem? bs i ≡ some r
    → r ≤ maxopblocks
All-get [] i r a e = absurd (cc)
All-get (b ∷ bs) zero r a e = ground arith
All-get (b ∷ bs) (suc i) r a e = All-get bs i r a.1 e

remove_lem :
    (bs : List ℕ) (i r : ℕ)
    → get_elem? bs i ≡ some r
    → All (λ b. b ≤ maxopblocks) bs
    → (sum (remove bs i) ≤ sum bs)
      × (length (remove bs i) + 1 ≡ length bs)
      × All (λ b. b ≤ maxopblocks) (remove bs i)
unfolding sum
remove_lem [] i r e a = absurd (cc)
remove_lem (b ∷ bs) zero r e a = (omega arith, omega arith, a.1)
remove_lem (b ∷ bs) (suc i) r e a =
    let (s, l, k) = remove_lem bs i r e a.1 in (omega arith, omega arith, (a.0, k))

sum-le : (bs : List ℕ) → All (λ b. b ≤ maxopblocks) bs → sum bs ≤ length bs * maxopblocks
unfolding sum
sum-le [] a = omega arith
sum-le (b ∷ bs) a = omega (arith, sum-le bs a.1, a.0)

sum-positive :
    (bs : List ℕ) (i r : ℕ) → get_elem? bs i ≡ some (suc r) → (0 < sum bs) × (0 < length bs)
unfolding sum
sum-positive [] i r e = absurd (cc)
sum-positive (b ∷ bs) zero r e = ground arith
sum-positive (b ∷ bs) (suc i) r e = omega (arith, sum-positive bs i r e)

begin_op-IsReserved :
    (u : Usage) (l : Log)
    → begin_op u.log ≡ begun l
    → IsReserved u
    → IsReserved (record { log = l; budgets = maxopblocks ∷ u.budgets })
unfolding begin_op sum
begin_op-IsReserved u l e r = record {
  counted = ground (arith, r.counted, r.few);
  quiet = λ c. absurd (idle_log c);
  room = ground (arith, r.counted, r.few, sum-le u.budgets r.small);
  few = ground (arith, r.counted, r.few);
  small = (omega arith, r.small);
}
  where
    idle_log : l.committing ≡ true → ⊥
    idle_log c = ground (arith, e, c)

log_write-IsReserved :
    (u : Usage) (l : Log) (i k b : ℕ)
    → get_elem? u.budgets i ≡ some (suc k)
    → log_write b u.log ≡ done l
    → IsReserved u
    → IsReserved (record { log = l; budgets = set u.budgets i k })
unfolding log_write
log_write-IsReserved u l i k b g e r = record {
  counted = ground (arith, r.counted, length-set u.budgets i k);
  quiet = λ c. absurd (busy c);
  room = ground (arith, r.room, length-absorb b u.log.lh, sum-set u.budgets i k g);
  few = omega (arith, r.few, length-set u.budgets i k);
  small = All-set u.budgets i k (omega (arith, All-get u.budgets i (suc k) r.small g)) r.small;
}
  where
    same : l.committing ≡ u.log.committing
    same = ground (arith, e)

    busy : l.committing ≡ true → ⊥
    busy c =
        let h = (sum-positive u.budgets i k g).1 in
        omega (arith, h, ap length (r.quiet (sym same ∙ c)))

end_op-IsReserved :
    (u : Usage) (l : Log) (i k : ℕ) (c : Bool)
    → get_elem? u.budgets i ≡ some k
    → end_op u.log ≡ done (l, c)
    → IsReserved u
    → IsReserved (record { log = l; budgets = remove u.budgets i })
unfolding end_op
end_op-IsReserved u l i k c g e r =
    let (s, n, a) = remove_lem u.budgets i k g r.small in
    record {
      counted = ground (arith, r.counted, r.few, n);
      quiet = λ c. none_left (remove u.budgets i) (last_one c n);
      room = ground (arith, r.room, s);
      few = omega (arith, r.few, n);
      small = a;
    }
  where
    last_one :
        l.committing ≡ true
        → length (remove u.budgets i) + 1 ≡ length u.budgets
        → length (remove u.budgets i) ≡ 0
    last_one q n = ground (arith, e, q, n, r.counted, r.few)

    none_left : (xs : List ℕ) → length xs ≡ 0 → xs ≡ []
    none_left [] z = refl
    none_left (x ∷ xs) z = absurd (omega (arith, z))

finish_commit-IsReserved :
    (u : Usage) (m : Machine)
    → IsReserved u
    → IsReserved (record { log = (finish_commit u.log m).0; budgets = u.budgets })
unfolding finish_commit
finish_commit-IsReserved u m r = record {
  counted = r.counted;
  quiet = λ c. absurd (cc);
  room = omega (arith, r.room);
  few = r.few;
  small = r.small;
}

-- Every step keeps the reservations.
Use-IsReserved : {u v : Usage} → Use u v → IsReserved u → IsReserved v
Use-IsReserved {u} (opens {l} e) r = begin_op-IsReserved u l e r
Use-IsReserved {u} (writes i k b {l} g e) r = log_write-IsReserved u l i k b g e r
Use-IsReserved {u} (closes i k c {l} g e) r = end_op-IsReserved u l i k c g e r
Use-IsReserved {u} (commits m c) r = finish_commit-IsReserved u m r

Used-IsReserved : {start size : ℕ} {u : Usage} → Used (fresh start size) u → IsReserved u
unfolding sum
Used-IsReserved unused = record {
  counted = refl;
  quiet = λ c. refl;
  room = omega arith;
  few = omega arith;
  small = tt;
}
Used-IsReserved (more r s) = Use-IsReserved s (Used-IsReserved r)

-- No step changes the size of the log.
Use-size : {u v : Usage} → Use u v → v.log.size ≡ u.log.size
unfolding begin_op log_write end_op finish_commit
Use-size {u} (opens {l} e) = ground (arith, e)
Use-size {u} (writes i k b {l} g e) = ground (arith, e)
Use-size {u} (closes i k c {l} g e) = ground (arith, e)
Use-size {u} (commits m c) = refl

Used-size : {start size : ℕ} {u : Usage} → Used (fresh start size) u → u.log.size ≡ size
Used-size unused = refl
Used-size (more r s) = Use-size s ∙ Used-size r

-- In every state that begin_op, log_write, end_op and the commits reach on the log that mkfs makes, of LOGSIZE blocks with the header,
-- while an operation has one of its MAXOPBLOCKS writes left: no commit is running; and log_write logs the block, unless this is the last
-- write that all running operations together have left and LOGSIZE - 1 blocks are logged, when it panics.
pub log_write-cases :
    (start : ℕ) (u : Usage) (i r b : ℕ)
    → Used (fresh start logsize) u
    → get_elem? u.budgets i ≡ some (suc r)
    → (u.log.committing ≡ false)
      × ((length u.log.lh < logsize - 1)
            × ((l : Log) × (log_write b u.log ≡ done l) × (l.lh ≡ absorb b u.log.lh))
          ⊎ (length u.log.lh ≡ logsize - 1)
            × (sum u.budgets ≡ 1)
            × (log_write b u.log ≡ panic "too big a transaction"))
unfolding log_write
log_write-cases start u i r b reached g = (
  elim (Bool-cases u.log.committing) [
    | inl c ↦ absurd (omega (arith, positive.1, ap length (inv.quiet c)))
    | inr c ↦ c
  ],
  elim (Bool-cases (length u.log.lh == logsize - 1)) [
    | inl f ↦ inr (
      ground (arith, f),
      ground (arith, f, inv.room, positive.0),
      ground (arith, f, Used-size reached),
    )
    | inr f ↦ inl (
      ground (arith, f, inv.room, positive.0),
      (
        record u.log { lh = absorb b u.log.lh },
        ground
            (arith, f, inv.room, inv.counted, inv.few, positive.0, positive.1, Used-size reached),
        refl,
      ),
    )
  ],
)
  where
    inv : IsReserved u
    inv = Used-IsReserved reached

    positive : (0 < sum u.budgets) × (0 < length u.budgets)
    positive = sum-positive u.budgets i r g

-- A block that is already logged takes no more room.
pub length-absorb_again :
    (b : ℕ) (bs : List ℕ) → length (absorb b (absorb b bs)) ≡ length (absorb b bs)
unfolding absorb
length-absorb_again b [] = ground arith
length-absorb_again b (c ∷ bs) = elim (Bool-cases (c == b)) [
  | inl e ↦ rw (e, absorb) (ground arith)
  | inr e ↦ rw (e, absorb) (rw (e, absorb) (ap suc (length-absorb_again b bs)))
]
