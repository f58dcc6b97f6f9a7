-- ===== src/Fs/Stored.antt =====
-- A file after its inode has been stored on the disk.
use tp2_so.Prelude.{
  ℕ, ◌-◌, ◌*◌, ◌/◌, ◌<◌, ◌≤◌, ◌≡◌, ◌∙◌, refl, sym, ap, true, false, Bool-cases, inl, inr, arith,
  if◌then◌else◌, ◌==◌, ltb, subst, get_or,
}
use tp2_so.Bio.{Data}
use tp2_so.Fs.{Superblock, Fs, bsize, maxfile, log_block, word_at}
use tp2_so.Fs.Bitmap.{used, first_data, IsLayout}
use tp2_so.Fs.Inode.{Inode}
use tp2_so.Fs.Content.{pointer, pointer_of, byte_at, IsFile}
use tp2_so.Fs.Dinode.{IsBytes}

-- A new block of inodes, which stands before the bitmap, and a new size.
module _ (sb : Superblock) (lay : IsLayout sb) (s : Fs) (ip : Inode) (wf : IsFile sb s ip) (b z : ℕ)
    (before : b < sb.bmapstart) (d : Data) (fit : IsBytes d) where
  abbrev pub sized : Inode
  sized = record ip { size = z }

  abbrev pub stored : Fs
  stored = log_block b d s

  stored-used : (c : ℕ) → used sb stored c ≡ used sb s c
  stored-used c = ground arith

  pub stored-pointer : (p : ℕ) → pointer stored sized p ≡ pointer s ip p
  unfolding pointer
  stored-pointer p = elim (Bool-cases (get_or ip.addrs 12 0 == 0)) [
    | inl n ↦ rw (n) refl
    | inr n ↦
        ap
          (λ d.
            if ltb p 13
            then get_or ip.addrs p 0
            else if get_or ip.addrs 12 0 == 0
            then 0
            else word_at d (p - 13))
          (same_block n)
  ]
    where
      apart : (get_or ip.addrs 12 0 == 0) ≡ false → (b == get_or ip.addrs 12 0) ≡ false
      apart n = ground (arith, wf.owned 12 (omega arith), lay.before)

      same_block :
          (get_or ip.addrs 12 0 == 0) ≡ false
          → stored.block (get_or ip.addrs 12 0) ≡ s.block (get_or ip.addrs 12 0)
      same_block n = ground (arith, apart n)

  pub stored-IsFile : IsFile sb stored sized
  stored-IsFile = record {
    fs = record {
      bytes = λ c i. ground (arith, wf.fs.bytes c i, fit i);
      reserved = λ c h. stored-used c ∙ wf.fs.reserved c h;
    };
    slots = wf.slots;
    owned = λ p h n.
        let (x, i, u) = wf.owned p h (λ e. n (stored-pointer p ∙ e)) in
        subst (λ c. (first_data sb ≤ c) × (c < sb.size) × (used sb stored c ≡ true))
          (sym (stored-pointer p)) (x, i, stored-used (pointer s ip p) ∙ u);
    distinct = λ p q h k n e.
        wf.distinct p q h k (λ e. n (stored-pointer p ∙ e))
          (sym (stored-pointer p) ∙ (e ∙ stored-pointer q));
  }

  pub stored-byte_at : (x : ℕ) → x < maxfile * bsize → byte_at stored sized x ≡ byte_at s ip x
  unfolding byte_at
  stored-byte_at x h = elim (Bool-cases (pointer s ip (pointer_of (x / bsize)) == 0)) [
    | inl n ↦ rw (stored-pointer (pointer_of (x / bsize)), n) refl
    | inr n ↦ rw (stored-pointer (pointer_of (x / bsize)), n, apart n) refl
  ]
    where
      apart :
          (pointer s ip (pointer_of (x / bsize)) == 0) ≡ false
          → (b == pointer s ip (pointer_of (x / bsize))) ≡ false
      apart n = ground (arith, wf.owned (pointer_of (x / bsize)) (ground arith), lay.before)
