-- ===== src/Fs/Tests.antt =====
-- Runs on a disk as mkfs lays it out, with one file of three bytes in its first block of data.
use tp2_so.Prelude.{
  ℕ, zero, suc, ◌+◌, ◌/◌, ◌%◌, ◌<◌, ◌≤◌, ◌≡◌, ◌≢◌, ◌⊎◌, ◌∙◌, refl, All, List, none, some, sym,
  subst, Bool, true, false, ◌&&◌, Bool-cases, inl, inr, [], ◌∷◌, arith, if◌then◌else◌, ◌==◌, ltb,
  done, panic, Outcome, get_or, replicate,
}
use tp2_so.Bio.{Data}
use tp2_so.Fs.{Superblock, Fs, free_bit, balloc_from, balloc, bfree}
use tp2_so.Fs.Bitmap.{
  used, first_data, IsLayout, IsFs, IsAllocated, balloc-IsAllocated, IsFreed, bfree-cases,
}
use tp2_so.Fs.Inode.{
  Inode, slot_addr, bmap, bytes_of, iupdate, ilock_read, readi, write_from, writei, grow, Moved,
  refused, moved,
}
use tp2_so.Fs.Content.{pointer, pointer_of, byte_at, IsFile}
use tp2_so.Fs.Dinode.{Fits, AreWords, no_words, word_cons, ilock_read-iupdate_other}
use tp2_so.Fs.Files.{IsFilled, readi-eq}
use tp2_so.Str.{strncmp, strncpy, pad}
use tp2_so.Fs.Directory.{dirlookup, look_from, whole_entry, Searched, dirlookup-Searched}
use tp2_so.Fs.Linking.{
  new_entry, entry_byte, dirlink, link_absent, link_new, empty_from, all_written,
}
use tp2_so.Fs.Inode.{read_from}
use tp2_so.Fs.Linked.{dirlookup-dirlink}
use tp2_so.Fs.Path.{skipelem, parts, IsSkipped, skipelem-parts}
use tp2_so.Fs.Updating.{is_refused, IsUpdated, writei-cases, readi-writei}

abbrev pub sb : Superblock
sb = record {
  size = 1000;
  nblocks = 941;
  ninodes = 200;
  nlog = 30;
  logstart = 2;
  inodestart = 32;
  bmapstart = 58;
}

pub sb-IsLayout : IsLayout sb
sb-IsLayout = record { before = omega arith; small = omega arith }

-- Sixty blocks are in use.
abbrev bitmap : Data
bitmap = λ i. if ltb i 7 then 255 else if i == 7 then 15 else 0

abbrev pub disk : Fs
disk = record { block = λ b. if b == 58 then bitmap else λ i. i % 256; logged = [] }

abbrev all_below : ℕ → (ℕ → Bool) → Bool
all_below zero test = true
all_below (suc n) test = test n && all_below n test

all_below-true :
    (n : ℕ) (test : ℕ → Bool) → all_below n test ≡ true → (b : ℕ) → b < n → test b ≡ true
all_below-true zero test e b h = absurd (omega arith)
all_below-true (suc n) test e b h = elim (Bool-cases (b == n)) [
  | inl q ↦ let same : b ≡ n = ground arith in subst (λ k. test k ≡ true) (sym same) (ground arith)
  | inr q ↦ all_below-true n test (ground arith) b (ground arith)
]

disk-IsFs : IsFs sb disk
disk-IsFs = record {
  bytes = λ b i. ground arith;
  reserved = λ b h. all_below-true 59 (used sb disk) refl b h;
}

abbrev left_by : Outcome (ℕ × Fs) → Fs
left_by (done (a, s)) = s
left_by (panic s) = disk

balloc-IsAllocated_example : IsAllocated sb disk 60 (left_by (balloc sb disk))
unfolding balloc balloc_from free_bit
balloc-IsAllocated_example =
    balloc-IsAllocated sb disk (left_by (balloc sb disk)) 60 sb-IsLayout disk-IsFs refl

bfree-cases_example :
    (used sb disk 59 ≡ false) × (bfree sb 59 disk ≡ panic "freeing free block")
    ⊎ (used sb disk 59 ≡ true) × ((s1 : Fs) × (bfree sb 59 disk ≡ done s1) × IsFreed sb disk 59 s1)
bfree-cases_example = bfree-cases sb disk 59 sb-IsLayout disk-IsFs (omega arith)

abbrev inode_of : ℕ → ℕ → Inode
inode_of ty len = record {
  dev = 1;
  inum = 5;
  ref = 1;
  valid = true;
  type = ty;
  major = 0;
  minor = 0;
  nlink = 1;
  size = len;
  addrs = 59 ∷ replicate 12 0;
}

abbrev pub file : Inode
file = inode_of 2 3

-- A directory of one entry.
abbrev folder : Inode
folder = inode_of 1 16

get_or-zeros : (k p : ℕ) → get_or {A = ℕ} (replicate k 0) p 0 ≡ 0
get_or-zeros zero p = refl
get_or-zeros (suc k) zero = refl
get_or-zeros (suc k) (suc p) = get_or-zeros k p

only_block : (ty len p : ℕ) → pointer disk (inode_of ty len) p ≡ (if p == 0 then 59 else 0)
unfolding pointer
only_block ty len zero = refl
only_block ty len (suc p) = elim (Bool-cases (ltb (suc p) 13)) [
  | inl l ↦ rw (l, later) (get_or-zeros 12 p)
  | inr l ↦ rw (l, later) refl
]
  where
    later : (suc p == 0) ≡ false
    later = ground arith

inode_of-IsFile : (ty len : ℕ) → IsFile sb disk (inode_of ty len)
inode_of-IsFile ty len = record {
  fs = disk-IsFs;
  slots = refl;
  owned = λ p h n. owned p (only_block ty len p) n;
  distinct = λ p q h k n e. ground (arith, only_block ty len p, only_block ty len q);
}
  where
    Good : ℕ → Type 0
    Good c = (first_data sb ≤ c) × (c < sb.size) × (used sb disk c ≡ true)

    owned :
        (p : ℕ)
        → pointer disk (inode_of ty len) p ≡ (if p == 0 then 59 else 0)
        → pointer disk (inode_of ty len) p ≢ 0
        → Good (pointer disk (inode_of ty len) p)
    owned p e n = elim (Bool-cases (p == 0)) [
      | inl z ↦
          let at : pointer disk (inode_of ty len) p ≡ 59 = e ∙ rw (z) refl in
          subst Good (sym at) (omega arith, omega arith, refl)
      | inr z ↦ absurd (n (e ∙ rw (z) refl))
    ]

pub file-IsFile : IsFile sb disk file
file-IsFile = inode_of-IsFile 2 3

inode_of-IsFilled : (ty len : ℕ) → len ≤ 512 → IsFilled sb disk (inode_of ty len)
inode_of-IsFilled ty len le = record {
  small = omega arith;
  there = λ x h. in_first x (omega arith);
}
  where
    in_first : (x : ℕ) → x / 512 ≡ 0 → pointer disk (inode_of ty len) (pointer_of (x / 512)) ≢ 0
    in_first x e n =
        let w : pointer disk (inode_of ty len) (pointer_of 0) ≡ 0 =
          subst (λ k. pointer disk (inode_of ty len) (pointer_of k) ≡ 0) e n in
        ground (arith, only_block ty len 0)

file-IsFilled : IsFilled sb disk file
file-IsFilled = inode_of-IsFilled 2 3 (omega arith)

abbrev pub text : ℕ → ℕ
text i = (i + 7) % 256

pub text-IsBytes : (i : ℕ) → text i < 256
text-IsBytes i = omega arith

readi-eq_example :
    readi sb file 1 10 disk ≡ done (moved (bytes_of 2 1 (byte_at disk file)), file, disk)
readi-eq_example = readi-eq sb disk file 1 10 file-IsFilled

writei-cases_example :
    (is_refused file 2 4 ≡ true) × (writei sb file text 2 4 disk ≡ done (refused, file, disk))
    ⊎ (is_refused file 2 4 ≡ false)
      × ((r : Moved ℕ) (ip1 : Inode) (s1 : Fs)
          → writei sb file text 2 4 disk ≡ done (r, ip1, s1)
          → IsUpdated sb sb-IsLayout text text-IsBytes disk file 2 4 r ip1 s1)
writei-cases_example =
    writei-cases sb sb-IsLayout text text-IsBytes disk file 2 4 file-IsFile (omega arith)

abbrev written : Outcome (Moved ℕ × Inode × Fs) → Inode × Fs
written (done (r, ip, s)) = (ip, s)
written (panic s) = (file, disk)

readi-writei_example :
    (readi sb
        (written (writei sb file text 2 4 disk)).0
        2
        4
        (written (writei sb file text 2 4 disk)).1
      ≡ done (
        moved (bytes_of 4 0 text),
        (written (writei sb file text 2 4 disk)).0,
        (written (writei sb file text 2 4 disk)).1,
      ))
    × IsFilled sb
        (written (writei sb file text 2 4 disk)).1
        (written (writei sb file text 2 4 disk)).0
unfolding writei write_from bmap slot_addr grow iupdate
readi-writei_example =
    readi-writei sb sb-IsLayout text text-IsBytes disk (written (writei sb file text 2 4 disk)).1
      file (written (writei sb file text 2 4 disk)).0 2 4 4 file-IsFile file-IsFilled (omega arith)
      refl

abbrev cold : Inode
cold = record file { valid = false; size = 0; type = 0 }

file-Fits : Fits file
file-Fits = record {
  type = omega arith;
  major = omega arith;
  minor = omega arith;
  nlink = omega arith;
  size = omega arith;
  addrs = word_cons (omega arith) (few 12);
  slots = refl;
}
  where
    few : (n : ℕ) → AreWords (replicate n 0)
    few zero = no_words
    few (suc n) = word_cons (omega arith) (few n)

ilock_read-iupdate_other_example :
    ilock_read sb (record file { inum = 6 }) (iupdate sb file disk)
    ≡ ilock_read sb (record file { inum = 6 }) disk
ilock_read-iupdate_other_example =
    ilock_read-iupdate_other sb file (record file { inum = 6 }) disk refl (λ e. omega arith)

-- "/usr//bin/"
abbrev usr_bin : List ℕ
usr_bin = b'/' ∷ b'u' ∷ b's' ∷ b'r' ∷ b'/' ∷ b'/' ∷ b'b' ∷ b'i' ∷ b'n' ∷ b'/' ∷ []

usr_bin-All : All (λ c. c ≢ 0) usr_bin
usr_bin-All = (
  λ e. omega arith,
  (
    λ e. omega arith,
    (
      λ e. omega arith,
      (
        λ e. omega arith,
        (
          λ e. omega arith,
          (
            λ e. omega arith,
            (λ e. omega arith, (λ e. omega arith, (λ e. omega arith, (λ e. omega arith, tt)))),
          ),
        ),
      ),
    ),
  ),
)

skipelem-parts_example :
    (parts usr_bin ≡ []) × (skipelem usr_bin (replicate 14 0) ≡ none)
    ⊎ ((elem : List ℕ) × (rest : List ℕ) × (name1 : List ℕ) × IsSkipped usr_bin
          (replicate 14 0)
          elem
          rest
          name1)
skipelem-parts_example = skipelem-parts usr_bin (replicate 14 0) usr_bin-All

abbrev sh_name : List ℕ
sh_name = b's' ∷ b'h' ∷ []

dirlookup-Searched_example :
    Searched sb sh_name disk folder
      (inode_of-IsFilled 1 16 (omega arith))
      refl
      0
      (dirlookup sb sh_name folder disk)
dirlookup-Searched_example =
    dirlookup-Searched sb sh_name disk folder (inode_of-IsFilled 1 16 (omega arith)) refl refl

below_256 : List ℕ → Bool
below_256 [] = true
below_256 (c ∷ cs) = ltb c 256 && below_256 cs

all_bytes : (cs : List ℕ) → below_256 cs ≡ true → (i : ℕ) → get_or cs i 0 < 256
unfolding below_256
all_bytes [] e i = omega arith
all_bytes (c ∷ cs) e zero = ground arith
all_bytes (c ∷ cs) e (suc i) = all_bytes cs (ground arith) i

sh_entry-bytes : (i : ℕ) → entry_byte sh_name 9 i < 256
unfolding strncpy pad below_256
sh_entry-bytes i = all_bytes (new_entry sh_name 9) refl i

abbrev linked_at : Outcome (Bool × Inode × Fs) → Inode × Fs
linked_at (done (b, dp, s)) = (dp, s)
linked_at (panic s) = (folder, disk)

dirlookup-dirlink_example :
    (off : ℕ) × (dirlookup sb sh_name
        (linked_at (dirlink sb sh_name 9 folder disk)).0
        (linked_at (dirlink sb sh_name 9 folder disk)).1
      ≡ done (
        some (9, off),
        (linked_at (dirlink sb sh_name 9 folder disk)).0,
        (linked_at (dirlink sb sh_name 9 folder disk)).1,
      ))
unfolding dirlink link_absent link_new empty_from all_written dirlookup look_from whole_entry readi
    read_from bytes_of writei write_from bmap slot_addr grow iupdate strncmp strncpy pad
dirlookup-dirlink_example =
    dirlookup-dirlink sb sb-IsLayout sh_name 9 sh_entry-bytes (λ e. omega arith) (omega arith) disk
      folder (inode_of-IsFile 1 16) (inode_of-IsFilled 1 16 (omega arith)) refl refl (omega arith)
      (linked_at (dirlink sb sh_name 9 folder disk)).1
      (linked_at (dirlink sb sh_name 9 folder disk)).0 refl
