-- ===== src/Ftable/Safety.antt =====
-- What a process that holds references may rely on.
use tp2_so.Prelude.{
  ℕ, true, false, ◌<◌, ◌≡◌, ◌≢◌, ◌∙◌, refl, ap, sym, subst, Option-cases, inl, inr, ◌⊎◌, none, some,
  List, arith, ◌==◌, add32, sub32, length, get_or, modify, find_index, length-modify,
  find_index-some, find_index-none, done, done-pair,
}
use tp2_so.Ftable.{
  File, fd_none, zero_file, with_ref, nfile, filealloc, fileclose, Closing, still_open,
  closes_nothing, closes_pipe, puts_inode, last_close, FileType, fd_pipe, fd_inode,
}
use tp2_so.Ftable.Handles.{
  count, Held, boots, allocates, sets, dups, closes, IsCounted, filedup-done, fileclose-cases,
  Held-IsCounted,
}

filealloc-length :
    (t : List File) (i : ℕ) (t1 : List File) → filealloc t ≡ (some i, t1) → length t1 ≡ length t
unfolding filealloc
filealloc-length t i t1 e = elim (Option-cases (find_index (λ f. f.ref == 0) t)) [
  | inl f ↦ sym (ap (λ x. length x.1) (rw (f, filealloc) at e))
  | inr (k, f) ↦
      sym (ap (λ x. length x.1) (rw (f, filealloc) at e)) ∙ length-modify t k (with_ref 1)
]

fileclose-length :
    (t : List File) (held : List ℕ) (i : ℕ) (c : Closing) (t1 : List File)
    → IsCounted t held
    → count i held ≢ 0
    → fileclose i t ≡ done (c, t1)
    → length t1 ≡ length t
fileclose-length t held i c t1 ct n e = elim (fileclose-cases t held ct i n) [
  | inl (_, f) ↦
      let (_, q) = done-pair (sym f ∙ e) in
      sym (ap length q) ∙ length-modify t i (with_ref (sub32 (get_or t i zero_file).ref 1))
  | inr (_, f) ↦
      let (_, q) = done-pair (sym f ∙ e) in
      sym (ap length q) ∙ length-modify t i (λ f. record f { ref = 0; type = fd_none })
]

Held-length : {t : List File} {held : List ℕ} → Held t held → length t ≡ nfile
Held-length boots = refl
Held-length (allocates {t} {held} i {t1} before e) = filealloc-length t i t1 e ∙ Held-length before
Held-length (sets {t} {held} i g before n same) = length-modify t i g ∙ Held-length before
Held-length (dups {t} {held} i {t1} before n lt e) =
    sym (ap length (same (sym (filedup-done t held (Held-IsCounted before) i n) ∙ e)))
    ∙ (length-modify t i (λ f. with_ref (add32 f.ref 1) f) ∙ Held-length before)
  where
    same : {a b : List File} → done a ≡ done b → a ≡ b
    same q = cc
Held-length (closes {t} {held} i c {t1} before n e) =
    fileclose-length t held i c t1 (Held-IsCounted before) n e ∙ Held-length before

-- What the last close of a file has to do: nothing for a file without a type; for a pipe, to close its writing end if the file
-- was writable and its reading end if not; and for an inode, to put it.
abbrev pub Settles : FileType → File → Closing → Type 0
Settles fd_none f c = c ≡ closes_nothing
Settles fd_pipe f c = c ≡ closes_pipe f.pipe f.writable
Settles fd_inode f c = c ≡ puts_inode f.ip

last_close-Settles : (ty : FileType) (f : File) → Settles ty f (last_close ty f)
unfolding last_close
last_close-Settles fd_none f = refl
last_close-Settles fd_pipe f = refl
last_close-Settles fd_inode f = refl

-- After any calls by processes that hold references, fewer than 2 ^ 31 to a file, fileclose of a file with a reference returns. If
-- this was the last reference, it closes nothing for a file without a type; of a pipe it closes the writing end if the file was
-- writable and the reading end if not; and it puts the inode of an inode's file. If it was not the last, it closes nothing.
pub Held-closes :
    (t : List File) (held : List ℕ) (i : ℕ)
    → Held t held
    → count i held ≢ 0
    → (c : Closing) × (t1 : List File) × (fileclose i t ≡ done (c, t1))
      × ((count i held ≡ 1) × Settles (get_or t i zero_file).type (get_or t i zero_file) c
          ⊎ (count i held ≢ 1) × (c ≡ still_open))
Held-closes t held i before n = elim (fileclose-cases t held (Held-IsCounted before) i n) [
  | inl (m, f) ↦
      (still_open, modify t i (with_ref (sub32 (get_or t i zero_file).ref 1)), f, inr (m, refl))
  | inr (one, f) ↦ (
    last_close (get_or t i zero_file).type (get_or t i zero_file),
    modify t i (λ f. record f { ref = 0; type = fd_none }),
    f,
    inl (one, last_close-Settles (get_or t i zero_file).type (get_or t i zero_file)),
  )
]

-- After any calls by processes that hold references, fewer than 2 ^ 31 to a file, filealloc gives a file of the table to which nobody
-- has a reference, or returns null, and then every file of the table has one.
pub Held-allocates :
    (t : List File) (held : List ℕ)
    → Held t held
    → ((i : ℕ) × (t1 : List File) × (filealloc t ≡ (some i, t1)) × (i < nfile) × (count i held ≡ 0))
      ⊎ (filealloc t ≡ (none, t)) × ((i : ℕ) → i < nfile → count i held ≢ 0)
unfolding filealloc
Held-allocates t held before = elim (Option-cases (find_index (λ f. f.ref == 0) t)) [
  | inl f ↦ inr (
    rw (f, filealloc) refl,
    λ i h. busy i (find_index-none (λ f. f.ref == 0) t i zero_file f (ranged i h)),
  )
  | inr (k, f) ↦
      let (lt, free) = find_index-some (λ f. f.ref == 0) t k zero_file f in
      inl (
        k,
        modify t k (with_ref 1),
        rw (f, filealloc) refl,
        subst (λ n. k < n) (Held-length before) lt,
        idle_file k free,
      )
]
  where
    ct : IsCounted t held
    ct = Held-IsCounted before

    ranged : (i : ℕ) → i < nfile → i < length t
    ranged i h = subst (λ n. i < n) (sym (Held-length before)) h

    busy : (i : ℕ) → ((get_or t i zero_file).ref == 0) ≡ false → count i held ≢ 0
    busy i e z = ground (arith, ct.refs i)

    idle_file : (i : ℕ) → ((get_or t i zero_file).ref == 0) ≡ true → count i held ≡ 0
    idle_file i e = ground (arith, ct.refs i)
