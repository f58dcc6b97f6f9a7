-- ===== src/Fs/Indirect.antt =====
-- bmap through the indirect block.
use tp2_so.Prelude.{
  ℕ, ◌+◌, ◌-◌, ◌^◌, ◌<◌, ◌≤◌, ◌≡◌, ◌≢◌, ◌∙◌, refl, sym, true, false, Bool-cases, inl, inr, arith,
  if◌then◌else◌, ◌==◌, ltb, subst, subst₂, done, >>=-eq-done, done-triple, get_or,
}
use tp2_so.Fs.{Superblock, Fs, maxfile, log_block, word_at, put_word, balloc}
use tp2_so.Fs.Bitmap.{used, first_data, IsLayout, IsFs, IsAllocated, balloc-IsAllocated}
use tp2_so.Fs.Inode.{Inode, slot_addr, indirect_addr, bmap}
use tp2_so.Fs.Content.{pointer, pointer_of, word_at-put_word, IsFile, IsExtended}
use tp2_so.Fs.Mapping.{IsMapped, mapped, first_data_positive, slot_addr-IsMapped}

module _ (sb : Superblock) (lay : IsLayout sb) where
  module _ (s : Fs) (ip : Inode) (wf : IsFile sb s ip) where
    abbrev indirect : ℕ
    indirect = get_or ip.addrs 12 0

    module _ (bn a : ℕ) (s2 : Fs) (lt : bn < 128) (there : indirect ≢ 0)
        (null : word_at (s.block indirect) bn ≡ 0) (al : IsAllocated sb s a s2) where
      abbrev pointed : Fs
      pointed = log_block indirect (put_word bn a (s2.block indirect)) s2

      indirect_owned :
          (first_data sb ≤ indirect) × (indirect < sb.size) × (used sb s indirect ≡ true)
      unfolding pointer
      indirect_owned = wf.owned 12 (omega arith) there

      indirect-ne : indirect ≢ a
      indirect-ne e = clash indirect_owned.2
        where
          clash : used sb s indirect ≡ true → ⊥
          clash u =
              let v : used sb s a ≡ true = subst (λ c. used sb s c ≡ true) e u in cc (al.unused)

      kept_indirect : s2.block indirect ≡ s.block indirect
      kept_indirect = al.others indirect indirect_owned.0 indirect-ne

      -- The map is in other blocks.
      same_used : (c : ℕ) → c < sb.size → used sb pointed c ≡ used sb s2 c
      same_used c h = ground (arith, lay.before, indirect_owned.0)

      pointed-IsFs : IsFs sb pointed
      pointed-IsFs = record {
        bytes = λ c i. unfold put_word in ground (arith, al.wf.bytes c i);
        reserved = λ c h. same_used c (omega arith) ∙ al.wf.reserved c h;
      }

      pointed-pointer :
          (p : ℕ) → pointer pointed ip p ≡ (if p == bn + 13 then a else pointer s ip p)
      unfolding pointer
      pointed-pointer p = elim (Bool-cases (ltb p 13)) [
        | inl l ↦ rw (l, low l) refl
        | inr l ↦
            rw
              (
                l,
                not_null,
                self,
                word_at-put_word bn (p - 13) a (s2.block indirect) small,
                shifted l,
                kept_indirect,
              )
              refl
      ]
        where
          small : a < 2 ^ 32
          small = omega (arith, al.inside, lay.small)

          self : (indirect == indirect) ≡ true
          self = ground arith

          not_null : (indirect == 0) ≡ false
          not_null = ground (arith, there)

          low : ltb p 13 ≡ true → (p == bn + 13) ≡ false
          low l = ground arith

          shifted : ltb p 13 ≡ false → (p - 13 == bn) ≡ (p == bn + 13)
          shifted l = ground arith

      pointed-IsExtended : IsExtended sb s pointed ip ip (bn + 13) a indirect
      unfolding pointer
      pointed-IsExtended = record {
        range = omega arith;
        old = was_null;
        fs = pointed-IsFs;
        slots = wf.slots;
        pointers = λ p h. pointed-pointer p;
        unused = al.unused;
        nonzero = λ e. absurd (positive e al.beyond (first_data_positive sb lay s ip wf));
        inside = al.inside;
        beyond = al.beyond;
        marked = λ c h. same_used c h ∙ al.marked c h;
        zeroed = λ i. ground (arith, al.zeroed i, indirect-ne);
        others = λ c h n m. ground (arith, al.others c h n, m);
        indirect = inr (refl, there);
      }
        where
          positive : {f : ℕ} → a ≡ 0 → f ≤ a → 0 < f → ⊥
          positive e le lt = omega arith

          was_null : pointer s ip (bn + 13) ≡ 0
          was_null = ground (arith, null, there)

    indirect_addr-IsMapped :
        (bn a : ℕ) (s1 : Fs) (ip1 : Inode)
        → bn < 128
        → indirect ≢ 0
        → indirect_addr sb bn indirect ip s ≡ done (a, ip1, s1)
        → IsMapped sb lay s ip (bn + 13) a s1 ip1
    unfolding indirect_addr
    indirect_addr-IsMapped bn a s1 ip1 lt there e =
        elim (Bool-cases (word_at (s.block indirect) bn == 0)) [
          | inl z ↦
              let ((a1, s2), f, g) =
                >>=-eq-done (balloc sb s)
                  (λ (a, s1).
                    done (a, ip, log_block indirect (put_word bn a (s1.block indirect)) s1))
                  (rw (z) at e) in
              let al = balloc-IsAllocated sb s s2 a1 lay wf.fs f in
              let (q1, q2, q3) = done-triple g in
              subst (λ x. IsMapped sb lay s ip (bn + 13) x s1 ip1) q1
                (subst₂ (λ y z. IsMapped sb lay s ip (bn + 13) a1 z y) q2 q3
                  (mapped sb lay s ip wf (bn + 13) a1 indirect
                    (pointed bn a1 s2 lt there (ground arith) al) ip refl refl refl
                    (pointed-IsExtended bn a1 s2 lt there (ground arith) al)))
          | inr z ↦
              let (q1, q2, q3) = done-triple (rw (z) at e) in
              subst (λ x. IsMapped sb lay s ip (bn + 13) x s1 ip1) q1
                (subst₂ (λ y z. IsMapped sb lay s ip (bn + 13) (word_at (s.block indirect) bn) z y)
                  q2 q3 (already z))
        ]
      where
        already :
            (word_at (s.block indirect) bn == 0) ≡ false
            → IsMapped sb lay s ip (bn + 13) (word_at (s.block indirect) bn) s ip
        already z = record {
          file = wf;
          at = unfold pointer in ground (arith, there);
          nonzero = λ q. ground arith;
          same_bytes = λ off h. refl;
          same_size = refl;
          same_inum = refl;
          same_type = refl;
          kept = λ q h n. refl;
        }

  -- bmap: the block is at the pointer of `bn`, and the file has the same bytes and the same size.
  pub bmap-IsMapped :
      (s : Fs) (ip : Inode) (bn a : ℕ) (s1 : Fs) (ip1 : Inode)
      → IsFile sb s ip
      → bn < maxfile
      → bmap sb ip bn s ≡ done (a, ip1, s1)
      → IsMapped sb lay s ip (pointer_of bn) a s1 ip1
  unfolding bmap pointer
  bmap-IsMapped s ip bn a s1 ip1 wf lt e = elim (Bool-cases (ltb bn 12)) [
    | inl l ↦ rw (l) (slot_addr-IsMapped sb lay s ip wf bn a s1 ip1 (ground arith) (rw (l) at e))
    | inr l ↦
        let ((ind, ip2, s2), f, g) =
          >>=-eq-done (slot_addr sb 12 ip s)
            (λ (ind, ip1, s1). indirect_addr sb (bn - 12) ind ip1 s1) (rw (l, inside l) at e) in
        let m = slot_addr-IsMapped sb lay s ip wf 12 ind s2 ip2 (omega arith) f in
        rw (l) (joined l ind ip2 s2 m g)
  ]
    where
      inside : ltb bn 12 ≡ false → ltb (bn - 12) 128 ≡ true
      inside l = ground arith

      shifted : ltb bn 12 ≡ false → bn - 12 + 13 ≡ bn + 1
      shifted l = ground arith

      joined :
          ltb bn 12 ≡ false
          → (ind : ℕ) (ip2 : Inode) (s2 : Fs) → IsMapped sb lay s ip 12 ind s2 ip2
          → indirect_addr sb (bn - 12) ind ip2 s2 ≡ done (a, ip1, s1)
          → IsMapped sb lay s ip (bn + 1) a s1 ip1
      joined l ind ip2 s2 m g =
          let there : get_or ip2.addrs 12 0 ≢ 0 = λ z. m.nonzero (sym m.at ∙ z) in
          let n : IsMapped sb lay s2 ip2 (bn - 12 + 13) a s1 ip1 =
            indirect_addr-IsMapped s2 ip2 m.file (bn - 12) a s1 ip1 (ground arith) there
              (subst (λ i. indirect_addr sb (bn - 12) i ip2 s2 ≡ done (a, ip1, s1)) (sym m.at) g) in
          record {
            file = n.file;
            at = subst (λ p. pointer s1 ip1 p ≡ a) (shifted l) n.at;
            nonzero = n.nonzero;
            same_bytes = λ off h. n.same_bytes off h ∙ m.same_bytes off h;
            same_size = n.same_size ∙ m.same_size;
            same_inum = n.same_inum ∙ m.same_inum;
            same_type = n.same_type ∙ m.same_type;
            kept = λ q h k. let e = m.kept q h k in n.kept q h (λ z. k (sym e ∙ z)) ∙ e;
          }
