-- ===== src/Ftable/Calls/Descriptors.antt =====
-- The descriptors of a process, against the counts of the table.
use tp2_so.Prelude.{
  ℕ, zero, suc, ◌+◌, ◌-◌, ◌^◌, ◌<◌, ◌≡◌, ◌≢◌, ◌∙◌, refl, ap, sym, subst, ◌||◌, not, Bool-cases,
  Option-cases, inl, inr, ◌⊎◌, Option, none, some, List, [], ◌∷◌, arith, if◌then◌else◌, ◌==◌, slt32,
  length, get_or, set, modify, find_index, find_index-some, minus_one, done, add32,
}
use tp2_so.Proc.{nofile}
use tp2_so.Ftable.{File, with_ref, filealloc, fileclose, Closing, closes_nothing}
use tp2_so.Ftable.Handles.{
  drop_one-head, count, drop_one, Held, allocates, sets, dups, closes, count-drop_one, filedup-done,
  Held-IsCounted,
}
use tp2_so.Ftable.Safety.{Held-closes, Held-allocates}
use tp2_so.Ftable.Calls.{
  Files, file_of, argfd, fdalloc, sys_dup, sys_close, opened, with_file, open_inode,
}

-- The references to the files of the table are the descriptors of the process and those of `others`.
pub record IsOwned (s : Files) (others : List ℕ) : Type 0 where
  pub held : List ℕ
  pub before : Held s.table held
  pub same : (i : ℕ) → count i held ≡ count (suc i) s.ofile + count i others

count-set :
    (x : ℕ) (l : List ℕ) (i v : ℕ)
    → i < length l
    → count x (set l i v) + (if x == get_or l i 0 then 1 else 0)
      ≡ count x l + (if x == v then 1 else 0)
unfolding count
count-set x [] i v h = absurd (omega (arith, h))
count-set x (y ∷ l) zero v h = ground arith
count-set x (y ∷ l) (suc i) v h = ground (arith, count-set x l i v (omega (arith, h)))

get_or-nonzero : (l : List ℕ) (i v : ℕ) → get_or l i 0 ≡ suc v → i < length l
get_or-nonzero [] i v e = absurd (omega (arith, e))
get_or-nonzero (x ∷ l) zero v e = omega arith
get_or-nonzero (x ∷ l) (suc i) v e = omega (arith, get_or-nonzero l i v e)

argfd-some :
    (argument : Option ℕ) (s : Files) (fd i : ℕ)
    → argfd argument s ≡ some (fd, i)
    → get_or s.ofile fd 0 ≡ suc i
unfolding argfd
argfd-some none s fd i e = absurd (none_some e)
  where
    none_some : ◌≡◌ {A = Option (ℕ × ℕ)} none (some (fd, i)) → ⊥
    none_some q = cc
argfd-some (some n) s fd i e = elim (Bool-cases (slt32 n 0 || not (slt32 n nofile))) [
  | inl b ↦ absurd (none_some (rw (b) at e))
  | inr b ↦ by_cases (get_or s.ofile n 0) refl (rw (b) at e)
]
  where
    none_some : ◌≡◌ {A = Option (ℕ × ℕ)} none (some (fd, i)) → ⊥
    none_some q = cc

    by_cases :
        (f : ℕ) → get_or s.ofile n 0 ≡ f → file_of n f ≡ some (fd, i) → get_or s.ofile fd 0 ≡ suc i
    by_cases zero q e = absurd (none_some e)
    by_cases (suc j) q e =
        let here : n ≡ fd = ap (λ x. x.0) (inside e) in
        subst (λ x. get_or s.ofile x 0 ≡ suc i) here (q ∙ ap (λ x. suc x.1) (inside e))
      where
        inside : {a b : ℕ × ℕ} → some a ≡ some b → a ≡ b
        inside q = cc

-- A new descriptor is the first that is free.
fdalloc-some :
    (i : ℕ) (l : List ℕ) (fd : ℕ) (l1 : List ℕ)
    → fdalloc i l ≡ some (fd, l1)
    → (fd < length l) × (get_or l fd 0 ≡ 0) × (l1 ≡ set l fd (suc i))
unfolding fdalloc
fdalloc-some i l fd l1 e = elim (Option-cases (find_index (λ f. f == 0) l)) [
  | inl q ↦ absurd (none_some (rw (q, fdalloc) at e))
  | inr (k, q) ↦
      let (lt, free) = find_index-some (λ f. f == 0) l k 0 q in
      let both = inside (rw (q, fdalloc) at e) in
      let here : k ≡ fd = ap (λ x. x.0) both in
      let zeroed : get_or l k 0 ≡ 0 = ground (arith, free) in
      (
        omega (arith, lt, here),
        subst (λ x. get_or l x 0 ≡ 0) here zeroed,
        sym (ap (λ x. x.1) both) ∙ ap (λ x. set l x (suc i)) here,
      )
]
  where
    none_some : ◌≡◌ {A = Option (ℕ × List ℕ)} none (some (fd, l1)) → ⊥
    none_some q = cc

    inside : {a b : ℕ × List ℕ} → some a ≡ some b → a ≡ b
    inside q = cc

-- The reference of a new descriptor.
added-same :
    (i fd : ℕ) (l l1 held others : List ℕ)
    → ((j : ℕ) → count j held ≡ count (suc j) l + count j others)
    → fdalloc i l ≡ some (fd, l1)
    → (j : ℕ) → count j (i ∷ held) ≡ count (suc j) l1 + count j others
unfolding count
added-same i fd l l1 held others same e j =
    let (lt, free, q) = fdalloc-some i l fd l1 e in
    rw (q) (ground (arith, count-set (suc j) l fd (suc i) lt, free, same j))

-- And of one that is given up.
dropped-same :
    (i fd : ℕ) (l held others : List ℕ)
    → ((j : ℕ) → count j held ≡ count (suc j) l + count j others)
    → get_or l fd 0 ≡ suc i
    → (j : ℕ) → count j (drop_one i held) ≡ count (suc j) (set l fd 0) + count j others
dropped-same i fd l held others same e j =
    rw (count-drop_one i j held)
      (ground (arith, count-set (suc j) l fd 0 (get_or-nonzero l fd i e), e, same j))

-- A descriptor is a reference.
descriptor-held :
    (i fd : ℕ) (l held others : List ℕ)
    → ((j : ℕ) → count j held ≡ count (suc j) l + count j others)
    → get_or l fd 0 ≡ suc i
    → count i held ≢ 0
descriptor-held i fd l held others same e z =
    ground (arith, count-set (suc i) l fd 0 (get_or-nonzero l fd i e), e, same i, z)

-- sys_dup of a process whose descriptors are counted, with fewer than 2 ^ 31 - 1 references to each file, returns. It gives -1 and
-- leaves all as it was, or a descriptor that was free and now stands for the file of the argument. The descriptors are still counted.
pub sys_dup-IsOwned :
    (argument : Option ℕ) (s : Files) (others : List ℕ)
    → IsOwned s others
    → ((i : ℕ) → count (suc i) s.ofile + count i others < 2 ^ 31 - 1)
    → (r : ℕ) × (s1 : Files) × (sys_dup argument s ≡ done (r, s1))
      × IsOwned s1 others
      × ((r ≡ minus_one) × (s1 ≡ s)
          ⊎ ((fd : ℕ) × (i : ℕ) × (argfd argument s ≡ some (fd, i))
              × (get_or s.ofile r 0 ≡ 0)
              × (s1.ofile ≡ set s.ofile r (suc i))))
unfolding sys_dup
sys_dup-IsOwned argument s others own few = elim (Option-cases (argfd argument s)) [
  | inl q ↦ (minus_one, s, rw (sys_dup, q) refl, own, inl (refl, refl))
  | inr ((old, i), q) ↦ elim (Option-cases (fdalloc i s.ofile)) [
    | inl n ↦ (minus_one, s, rw (sys_dup, q, n) refl, own, inl (refl, refl))
    | inr ((fd, l1), a) ↦
        let ct = Held-IsCounted own.before in
        let there =
          descriptor-held i old s.ofile own.held others own.same (argfd-some argument s old i q) in
        let t1 = modify s.table i (λ f. with_ref (add32 f.ref 1) f) in
        let d = filedup-done s.table own.held ct i there in
        let (lt, free, e) = fdalloc-some i s.ofile fd l1 a in
        (
          fd,
          record { ofile = l1; table = t1 },
          rw (sys_dup, q, a, d) refl,
          record {
            held = i ∷ own.held;
            before = dups i own.before there (omega (arith, own.same i, few i)) d;
            same = added-same i fd s.ofile l1 own.held others own.same a;
          },
          inr (old, i, q, free, e),
        )
  ]
]

-- sys_close of a process whose descriptors are counted returns. It gives -1 and leaves all as it was, or 0 with the descriptor of the
-- argument free and the others as they were. The descriptors are still counted.
pub sys_close-IsOwned :
    (argument : Option ℕ) (s : Files) (others : List ℕ)
    → IsOwned s others
    → (r : ℕ) × (c : Closing) × (s1 : Files) × (sys_close argument s ≡ done ((r, c), s1))
      × IsOwned s1 others
      × ((r ≡ minus_one) × (s1 ≡ s)
          ⊎ (r ≡ 0)
            × ((fd : ℕ) × (i : ℕ) × (argfd argument s ≡ some (fd, i))
                × (s1.ofile ≡ set s.ofile fd 0)))
unfolding sys_close
sys_close-IsOwned argument s others own = elim (Option-cases (argfd argument s)) [
  | inl q ↦ (minus_one, closes_nothing, s, rw (sys_close, q) refl, own, inl (refl, refl))
  | inr ((fd, i), q) ↦
      let here = argfd-some argument s fd i q in
      let there = descriptor-held i fd s.ofile own.held others own.same here in
      let (c, t1, d, what) = Held-closes s.table own.held i own.before there in
      (
        0,
        c,
        record { ofile = set s.ofile fd 0; table = t1 },
        rw (sys_close, q, d) refl,
        record {
          held = drop_one i own.held;
          before = closes i c own.before there d;
          same = dropped-same i fd s.ofile own.held others own.same here;
        },
        inr (refl, (fd, i, q, refl)),
      )
]

head-held : (i : ℕ) (held : List ℕ) → count i (i ∷ held) ≢ 0
unfolding count
head-held i held e = ground (arith, e)

open_inode-no_file :
    (omode ip : ℕ) (s : Files)
    → filealloc s.table ≡ (none, s.table)
    → open_inode omode ip s ≡ done (minus_one, s)
unfolding open_inode with_file
open_inode-no_file omode ip s q = rw (open_inode, q) refl

open_inode-no_descriptor :
    (omode ip : ℕ) (s : Files) (i : ℕ) (t1 : List File) (c : Closing) (t2 : List File)
    → filealloc s.table ≡ (some i, t1)
    → fdalloc i s.ofile ≡ none
    → fileclose i t1 ≡ done (c, t2)
    → open_inode omode ip s ≡ done (minus_one, record s { table = t2 })
unfolding open_inode with_file
open_inode-no_descriptor omode ip s i t1 c t2 q n d = rw (open_inode, q) (rw (with_file, n, d) refl)

open_inode-opened :
    (omode ip : ℕ) (s : Files) (i : ℕ) (t1 : List File) (fd : ℕ) (l1 : List ℕ)
    → filealloc s.table ≡ (some i, t1)
    → fdalloc i s.ofile ≡ some (fd, l1)
    → open_inode omode ip s
      ≡ done (fd, record { ofile = l1; table = modify t1 i (opened omode ip) })
unfolding open_inode with_file
open_inode-opened omode ip s i t1 fd l1 q a = rw (open_inode, q) (rw (with_file, a) refl)

-- sys_open, once it has the inode, of a process whose descriptors are counted returns. It gives -1 with all descriptors as they were,
-- or a descriptor that was free and now stands for a file to which nobody had a reference. The descriptors are still counted.
pub open_inode-IsOwned :
    (omode ip : ℕ) (s : Files) (others : List ℕ)
    → IsOwned s others
    → (r : ℕ) × (s1 : Files) × (open_inode omode ip s ≡ done (r, s1))
      × IsOwned s1 others
      × ((r ≡ minus_one) × (s1.ofile ≡ s.ofile)
          ⊎ ((i : ℕ) × (get_or s.ofile r 0 ≡ 0)
              × (s1.ofile ≡ set s.ofile r (suc i))
              × (count (suc i) s.ofile + count i others ≡ 0)))
open_inode-IsOwned omode ip s others own = elim (Held-allocates s.table own.held own.before) [
  | inr (q, busy) ↦ (minus_one, s, open_inode-no_file omode ip s q, own, inl (refl, refl))
  | inl (i, t1, q, lt, idle) ↦
      let now = allocates i own.before q in
      elim (Option-cases (fdalloc i s.ofile)) [
        | inl n ↦
            let (c, t2, d, what) = Held-closes t1 (i ∷ own.held) i now (head-held i own.held) in
            (
              minus_one,
              record s { table = t2 },
              open_inode-no_descriptor omode ip s i t1 c t2 q n d,
              record {
                held = own.held;
                before =
                    subst (λ h. Held t2 h) (drop_one-head i own.held)
                      (closes i c now (head-held i own.held) d);
                same = own.same;
              },
              inl (refl, refl),
            )
        | inr ((fd, l1), a) ↦
            let (short, free, e) = fdalloc-some i s.ofile fd l1 a in
            (
              fd,
              record { ofile = l1; table = modify t1 i (opened omode ip) },
              open_inode-opened omode ip s i t1 fd l1 q a,
              record {
                held = i ∷ own.held;
                before =
                    sets i (opened omode ip) now (head-held i own.held)
                      (λ f. unfold opened in refl);
                same = added-same i fd s.ofile l1 own.held others own.same a;
              },
              inr (i, free, e, sym (own.same i) ∙ idle),
            )
      ]
]
