-- ===== src/Ftable/Transfer/Chunks.antt =====
-- A write in chunks, while no other process changes the file.
use tp2_so.Prelude.{
  ℕ, zero, suc, ◌+◌, ◌-◌, ◌*◌, ◌/◌, ◌^◌, ◌<◌, ◌≤◌, ◌≡◌, ◌≢◌, ◌∙◌, refl, sym, ap, subst, Bool, true,
  Bool-cases, inl, inr, ◌⊎◌, List, arith, if◌then◌else◌, ◌==◌, ltb, leb, min, Outcome, done, panic,
  >>=-eq-done, add32, minus_one, not, slt32,
}
use tp2_so.Pipe.{Pipe}
use tp2_so.Fs.{Superblock, Fs, bsize, maxfile}
use tp2_so.Fs.Bitmap.{IsLayout}
use tp2_so.Fs.Inode.{Inode, inode_block, writei, Moved, moved}
use tp2_so.Fs.Content.{pointer, pointer_of, IsFile}
use tp2_so.Fs.Updating.{is_refused, IsUpdated, writei-cases}
use tp2_so.Ftable.{File, fd_inode}
use tp2_so.Ftable.Transfer.{
  max_chunk, advanced, Put, Sent, not_writable, to_inode, next_chunk, write_chunks, send, filewrite,
}

pointer_of-lt : (x : ℕ) → x < maxfile * bsize → pointer_of (x / bsize) < 141
pointer_of-lt x h = ground (arith, h)

module _ (sb : Superblock) (lay : IsLayout sb) (src : ℕ → ℕ) (fit : (i : ℕ) → src i < 256) where
  nothing-IsUpdated :
      (s : Fs) (ip : Inode) (off : ℕ)
      → IsFile sb s ip
      → off ≤ ip.size
      → IsUpdated sb lay src fit s ip off 0 (moved 0) ip s
  nothing-IsUpdated s ip off wf le = record {
    count = refl;
    same_type = refl;
    same_inum = refl;
    file = wf;
    size = ground (arith, le);
    bytes = λ x h. ground arith;
    there = λ x h b l. absurd (omega (arith, b, l));
    kept = λ q h k. refl;
  }

  -- Two writes, the second where the first ends.
  both-IsUpdated :
      (s s1 s2 : Fs) (ip ip1 ip2 : Inode) (off i n : ℕ)
      → off ≤ ip.size
      → IsUpdated sb lay src fit s ip off i (moved i) ip1 s1
      → IsUpdated sb lay (λ x. src (i + x)) (λ x. fit (i + x)) s1 ip1 (off + i) n (moved n) ip2 s2
      → IsUpdated sb lay src fit s ip off (i + n) (moved (i + n)) ip2 s2
  both-IsUpdated s s1 s2 ip ip1 ip2 off i n le u v = record {
    count = refl;
    same_type = v.same_type ∙ u.same_type;
    same_inum = v.same_inum ∙ u.same_inum;
    file = v.file;
    size = ground (arith, v.size, u.size);
    bytes = λ x h. elim (Bool-cases (leb (off + i) x)) [
      | inl b ↦ let e = ap src (shifted x b) in ground (arith, v.bytes x h, u.bytes x h, e)
      | inr b ↦ ground (arith, v.bytes x h, u.bytes x h)
    ];
    there = λ x h b l. elim (Bool-cases (ltb x (off + i))) [
      | inl t ↦ λ z.
          first x h b t
            (sym (v.kept (pointer_of (x / bsize)) (pointer_of-lt x h) (first x h b t)) ∙ z)
      | inr t ↦ v.there x h (ground (arith, t)) (omega (arith, l))
    ];
    kept = λ q h k. v.kept q h (λ z. k (sym (u.kept q h k) ∙ z)) ∙ u.kept q h k;
  }
    where
      shifted : (x : ℕ) → leb (off + i) x ≡ true → i + (x - (off + i)) ≡ x - off
      shifted x b = ground (arith, b)

      first :
          (x : ℕ)
          → x < maxfile * bsize
          → off ≤ x
          → ltb x (off + i) ≡ true
          → pointer s1 ip1 (pointer_of (x / bsize)) ≢ 0
      first x h b t = u.there x h b (ground (arith, t))

  module _ (s0 : Fs) (ip0 : Inode) (off0 : ℕ) (le : off0 ≤ ip0.size)
      (before : inode_block sb ip0.inum < sb.bmapstart) where
    -- The first `w.count` of `n` bytes are written. If they are not all, writei refused the chunk behind them.
    pub record IsPut (n : ℕ) (w : Put) : Type 0 where
      pub updated : IsUpdated sb lay src fit s0 ip0 off0 w.count (moved w.count) w.ip w.fs
      pub off : w.off ≡ off0 + w.count
      pub ended :
          (w.count ≡ n)
          ⊎ (w.count < n) × (is_refused w.ip w.off (min (n - w.count) max_chunk) ≡ true)

    -- One round of the loop, on what the later ones do.
    chunk-IsPut :
        (left i off n : ℕ) (ip : Inode) (s : Fs) (w : Put)
        → 0 < left
        → i + left ≡ n
        → off ≡ off0 + i
        → IsUpdated sb lay src fit s0 ip0 off0 i (moved i) ip s
        → (loop : ℕ → ℕ → Inode → Fs → Outcome Put)
        → ((ip1 : Inode) (s1 : Fs) (off1 : ℕ)
            → off1 ≡ off0 + (i + min left max_chunk)
            → IsUpdated sb lay src fit s0 ip0 off0
                (i + min left max_chunk)
                (moved (i + min left max_chunk))
                ip1
                s1
            → loop (i + min left max_chunk) off1 ip1 s1 ≡ done w
            → IsPut n w)
        → (r : Moved ℕ) (ip1 : Inode) (s1 : Fs)
        → writei sb ip (λ x. src (i + x)) off (min left max_chunk) s ≡ done (r, ip1, s1)
        → next_chunk sb i off (min left max_chunk) loop (r, ip1, s1) ≡ done w
        → IsPut n w
    unfolding next_chunk
    chunk-IsPut left i off n ip s w pos sum at u loop later r ip1 s1 f g =
        let n1 = min left max_chunk in
        elim (writei-cases sb lay (λ x. src (i + x)) (λ x. fit (i + x)) s ip off n1 u.file
          (subst (λ k. inode_block sb k < sb.bmapstart) (sym u.same_inum) before)) [
            | inl (t, q) ↦
                stopped t (same (ap (next_chunk sb i off n1 loop) (inside (sym q ∙ f)) ∙ g))
            | inr (ok, all) ↦
                let v = all r ip1 s1 f in
                let here : IsUpdated sb lay (λ x. src (i + x)) (λ x. fit (i + x)) s ip (off0 + i) n1
                    (moved n1) ip1 s1 =
                  subst
                    (λ x.
                      IsUpdated sb lay (λ x. src (i + x)) (λ x. fit (i + x)) s ip x n1 (moved n1)
                        ip1 s1)
                    at
                    (subst
                      (λ x.
                        IsUpdated sb lay (λ x. src (i + x)) (λ x. fit (i + x)) s ip off n1 x ip1 s1)
                      v.count v) in
                let goes : (n1 == n1) ≡ true = ground arith in
                let g1 : (if n1 == n1
                      then loop (i + n1) (add32 off n1) ip1 s1
                      else panic "short filewrite")
                    ≡ done w =
                  ap (λ x. next_chunk sb i off n1 loop (x, ip1, s1)) (sym v.count) ∙ g in
                later ip1 s1 (add32 off n1) (ground (arith, ok, at))
                  (both-IsUpdated s0 s s1 ip0 ip ip1 off0 i n1 le u here) (rw (goes) at g1)
          ]
      where
        same : {x y : Put} → done x ≡ done y → x ≡ y
        same q = cc

        inside : {A : Type 0} {x y : A} → done x ≡ done y → x ≡ y
        inside q = cc

        stopped :
            is_refused ip off (min left max_chunk) ≡ true
            → record { count = i; off = off; ip = ip; fs = s } ≡ w
            → IsPut n w
        stopped t q =
            subst (λ x. IsPut n x) q
              (record {
                updated = u;
                off = at;
                ended = inr (
                  omega (arith, pos, sum),
                  subst (λ x. is_refused ip off (min x max_chunk) ≡ true) (omega (arith, sum)) t,
                );
              })

    write_chunks-IsPut :
        (rounds left i off n : ℕ) (ip : Inode) (s : Fs) (w : Put)
        → left ≤ rounds
        → i + left ≡ n
        → off ≡ off0 + i
        → IsUpdated sb lay src fit s0 ip0 off0 i (moved i) ip s
        → write_chunks sb rounds left src i off ip s ≡ done w
        → IsPut n w
    unfolding write_chunks
    write_chunks-IsPut zero left i off n ip s w h sum at u e =
        subst (λ x. IsPut n x) (same e)
          (record { updated = u; off = at; ended = inl (omega (arith, h, sum)) })
      where
        same : {x y : Put} → done x ≡ done y → x ≡ y
        same q = cc
    write_chunks-IsPut (suc rounds) left i off n ip s w h sum at u e =
        elim (Bool-cases (left == 0)) [
          | inl z ↦
              subst (λ x. IsPut n x) (same (rw (z) at e))
                (record { updated = u; off = at; ended = inl (ground (arith, sum)) })
          | inr z ↦
              let ((r, ip1, s1), f, g) =
                >>=-eq-done (writei sb ip (λ x. src (i + x)) off (min left max_chunk) s)
                  (next_chunk sb i off (min left max_chunk)
                    (write_chunks sb rounds (left - min left max_chunk) src))
                  (rw (z) at e) in
              chunk-IsPut left i off n ip s w (ground (arith, z)) sum at u
                (write_chunks sb rounds (left - min left max_chunk) src)
                (λ ip2 s2 off1 at1 v e1.
                  write_chunks-IsPut rounds (left - min left max_chunk) (i + min left max_chunk)
                    off1 n ip2 s2 w (ground (arith, h, z)) (omega (arith, sum)) at1 v e1)
                r ip1 s1 f g
        ]
      where
        same : {x y : Put} → done x ≡ done y → x ≡ y
        same q = cc

-- What is left of a write of `n` bytes at `off`.
abbrev WroteSome :
    (sb : Superblock)
    → IsLayout sb
    → (src : ℕ → ℕ) → ((i : ℕ) → src i < 256)
    → Fs
    → Inode
    → ℕ
    → ℕ
    → Sent
    → File
    → Inode
    → Fs
    → Type 0
WroteSome sb lay src fit s ip off n r f1 ip1 s1 =
    (m : ℕ) × IsUpdated sb lay src fit s ip off m (moved m) ip1 s1
    × (f1.off ≡ off + m)
    × ((r ≡ to_inode n) × (m ≡ n)
        ⊎ (r ≡ to_inode minus_one)
          × (m < n)
          × (is_refused ip1 f1.off (min (n - m) max_chunk) ≡ true))

-- While no other process changes the inode between the chunks: a write to a file that is open for writing and whose offset is not past its end, of a number of bytes that is not negative as an int,
-- for a well-formed file whose inode's block stands before the bitmap, on a disk with the bitmap before the data, and for a source of
-- bytes: if filewrite returns, it has written the first `m` bytes at the offset, as one call of writei does, and moved the offset past
-- them. It returns `n` and `m` is `n`, or it returns -1, `m` is less, and writei refuses the chunk behind them.
filewrite-cases :
    (sb : Superblock) (lay : IsLayout sb) (src : ℕ → ℕ) (fit : (i : ℕ) → src i < 256)
    (killed : Bool) (cs : List ℕ) (n : ℕ) (f f1 : File) (p : Pipe) (ip ip1 : Inode) (s s1 : Fs)
    (r : Sent)
    → f.writable ≡ true
    → f.type ≡ fd_inode
    → n < 2 ^ 31
    → f.off ≤ ip.size
    → IsFile sb s ip
    → inode_block sb ip.inum < sb.bmapstart
    → filewrite sb killed cs src n f p ip s ≡ done (r, f1, ip1, s1)
    → (m : ℕ) × IsUpdated sb lay src fit s ip f.off m (moved m) ip1 s1
      × (f1.off ≡ f.off + m)
      × ((r ≡ to_inode n) × (m ≡ n)
          ⊎ (r ≡ to_inode minus_one)
            × (m < n)
            × (is_refused ip1 f1.off (min (n - m) max_chunk) ≡ true))
unfolding filewrite send
filewrite-cases sb lay src fit killed cs n f f1 p ip ip1 s s1 r wr ty lt le wf before e =
    let e1 : send sb fd_inode killed cs src n f p ip s ≡ done (r, f1, ip1, s1) =
      subst (λ t. send sb t killed cs src n f p ip s ≡ done (r, f1, ip1, s1)) ty
        (subst
          (λ b.
            (if not b
              then done (not_writable, f, ip, s)
              else send sb f.type killed cs src n f p ip s)
            ≡ done (r, f1, ip1, s1))
          wr e) in
    let left : (if slt32 0 n then n else 0) ≡ n = ground (arith, lt) in
    let (w, q, g) =
      >>=-eq-done (write_chunks sb n n src 0 f.off ip s) finish (rw (send, left) at e1) in
    let put =
      write_chunks-IsPut sb lay src fit s ip f.off le before n n 0 f.off n ip s w (omega arith)
        (omega arith) (omega arith) (nothing-IsUpdated sb lay src fit s ip f.off wf le) q in
    closing w put (inside g)
  where
    finish : Put → Outcome (Sent × File × Inode × Fs)
    finish w = done (to_inode (if w.count == n then n else minus_one), advanced w.off f, w.ip, w.fs)

    inside : {A : Type 0} {x y : A} → done x ≡ done y → x ≡ y
    inside q = cc

    whole : {c : ℕ} → c ≡ n → to_inode (if c == n then n else minus_one) ≡ to_inode n
    whole {c} e = ap to_inode (ground (arith, e))

    short : {c : ℕ} → c < n → to_inode (if c == n then n else minus_one) ≡ to_inode minus_one
    short {c} e = ap to_inode (ground (arith, e))

    closing :
        (w : Put)
        → IsPut sb lay src fit s ip f.off le before n w
        → ◌≡◌ {A = Sent × File × Inode × Fs}
            (to_inode (if w.count == n then n else minus_one), advanced w.off f, w.ip, w.fs)
            (r, f1, ip1, s1)
        → WroteSome sb lay src fit s ip f.off n r f1 ip1 s1
    closing w put q =
        subst (λ x. WroteSome sb lay src fit s ip f.off n x.0 x.1 x.2 x.3) q
          (elim put.ended [
            | inl e ↦ (w.count, put.updated, put.off, inl (whole e, e))
            | inr (lt, halt) ↦ (w.count, put.updated, put.off, inr (short lt, lt, halt))
          ])
