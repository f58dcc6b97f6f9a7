-- ===== src/Fs/Linking.antt =====
-- fs.c: dirlink, and the name found again.
use tp2_so.Prelude.{
  ℕ, zero, suc, ◌+◌, ◌/◌, ◌%◌, Bool, true, false, Option, none, some, List, ◌∷◌, if◌then◌else◌,
  ◌==◌, ltb, get_or, add32, Outcome, done, panic, ◌>>=◌,
}
use tp2_so.Str.{strncpy}
use tp2_so.Fs.{Superblock, Fs}
use tp2_so.Fs.Path.{dirsiz}
use tp2_so.Fs.Inode.{Inode, readi, writei, Moved, refused, moved}
use tp2_so.Fs.Directory.{entry_size, entry_inum, whole_entry, dirlookup}

-- The entry that dirlink writes, and its bytes.
abbrev pub new_entry : List ℕ → ℕ → List ℕ
new_entry name inum = inum % 256 ∷ (inum / 256 % 256 ∷ strncpy name dirsiz)

abbrev pub entry_byte : List ℕ → ℕ → ℕ → ℕ
entry_byte name inum i = get_or (new_entry name inum) i 0

-- `if(writei(...) != sizeof(de)) panic("dirlink");`
unfoldable pub all_written : Moved ℕ × Inode × Fs → Outcome (Bool × Inode × Fs)
all_written (refused, dp, s) = panic "dirlink"
all_written (moved n, dp, s) = if n == entry_size then done (true, dp, s) else panic "dirlink"

module _ (sb : Superblock) where
  -- The loop that looks for an empty entry: its offset.
  unfoldable pub empty_from : ℕ → ℕ → Inode → Fs → Outcome (ℕ × Inode × Fs)
  unfolding whole_entry
  empty_from zero off dp s = done (off, dp, s)
  empty_from (suc rounds) off dp s =
      if ltb off dp.size
      then (readi sb dp off entry_size s >>= whole_entry >>= λ (de, dp1, s1).
          let rest = empty_from rounds (add32 off entry_size) dp1 s1 in
          if entry_inum de == 0 then done (off, dp1, s1) else rest)
      else done (off, dp, s)

  unfoldable pub link_new : List ℕ → ℕ → Inode → Fs → Outcome (Bool × Inode × Fs)
  unfolding empty_from all_written
  link_new name inum dp s = empty_from (dp.size / entry_size + 1) 0 dp s >>= λ (off, dp1, s1).
      writei sb dp1 (entry_byte name inum) off entry_size s1 >>= all_written

  unfoldable pub link_absent :
      List ℕ → ℕ → Option (ℕ × ℕ) × Inode × Fs → Outcome (Bool × Inode × Fs)
  unfolding link_new
  link_absent name inum (some found, dp, s) = done (false, dp, s)
  link_absent name inum (none, dp, s) = link_new name inum dp s

  -- dirlink: true for 0, and false for -1, where the name is there already.
  unfoldable pub dirlink : List ℕ → ℕ → Inode → Fs → Outcome (Bool × Inode × Fs)
  unfolding link_absent
  dirlink name inum dp s = dirlookup sb name dp s >>= link_absent name inum
