-- ===== src/Log/Crash.antt =====
-- Crash safety: a commit that loses power after any write is all or nothing.
use tp2_so.Prelude.{
  ℕ, suc, ◌+◌, ◌-◌, ◌≤◌, ◌<◌, ◌≡◌, ◌≢◌, ◌∙◌, refl, sym, ap, ◌⊎◌, inl, inr, false, List, [], ◌∷◌,
  if◌then◌else◌, ◌==◌, leb, length, arith, All, Bool-cases, subst, ℕ_discrete,
}
use tp2_so.Log.{
  Block, update, Machine, bwrite, put_head, get_head, write_head, write_log, install_trans, commit,
  recover_from_log, reboot,
}
use tp2_so.Log.Blocks.{
  IsHome, member, Holds, get_head-put_head, member-nil, member-log, install-dead, power-install,
  install-disk_other, install-disk, write_log-disk_other, write_log-memory_other, power-write_log,
  write_log-Holds, Holds-update, Holds-congr, get_head-put_head_nil,
}

module _ (start size : ℕ) where
  -- A disk from which recovery makes `value`: the log lists the blocks that are not yet home.
  record Recovers (d : ℕ → Block) (bs : List ℕ) (value : ℕ → Block) : Type 0 where
    head : get_head (d start) ≡ bs
    held : Holds d start 0 bs value
    homes : All (IsHome start size) bs
    fits : length bs < size
    rest : (c : ℕ) → IsHome start size c → member c bs ≡ false → d c ≡ value c

  write_head-disk_other :
      (lh : List ℕ) (m : Machine) (c : ℕ) → c ≢ start → (write_head start lh m).disk c ≡ m.disk c
  unfolding write_head bwrite
  write_head-disk_other lh m c h = ground arith

  write_head-dead :
      (lh : List ℕ) (m : Machine) → m.power ≡ 0 → (write_head start lh m).disk ≡ m.disk
  unfolding write_head bwrite
  write_head-dead lh m z = rw z refl

  write_head-live :
      (lh : List ℕ) (m : Machine)
      → 0 < m.power
      → (write_head start lh m).disk ≡ update m.disk start (put_head lh (m.memory start))
  unfolding write_head bwrite
  write_head-live lh m z = let e : (m.power == 0) ≡ false = ground arith in rw e refl

  memory-write_head :
      (lh : List ℕ) (m : Machine)
      → (write_head start lh m).memory ≡ update m.memory start (put_head lh (m.memory start))
  unfolding write_head bwrite
  memory-write_head lh m = refl

  power-write_head : (lh : List ℕ) (m : Machine) → (write_head start lh m).power ≡ m.power - 1
  unfolding write_head bwrite
  power-write_head lh m = refl

  -- Recovery from such a disk, with power to finish it, leaves every home block with its value.
  recover-value :
      (d : ℕ → Block) (bs : List ℕ) (value : ℕ → Block) (power c : ℕ)
      → Recovers d bs value
      → length bs ≤ power
      → IsHome start size c
      → (recover_from_log start (reboot d power)).disk c ≡ value c
  unfolding recover_from_log
  recover-value d bs value power c r p h =
      rw r.head
        (write_head-disk_other [] (install_trans start 0 bs (reboot d power)) c ne ∙ installed)
    where
      ne : c ≢ start
      ne = omega (arith, h, r.fits)

      installed : (install_trans start 0 bs (reboot d power)).disk c ≡ value c
      installed = elim (Bool-cases (member c bs)) [
        | inl q ↦
            install-disk start size 0 bs (reboot d power) value c r.held r.homes
              (omega (arith, r.fits)) p q
        | inr q ↦ install-disk_other start size 0 bs (reboot d power) c q ∙ r.rest c h q
      ]

-- The state in which commit is called: the disk's log is empty, the logged blocks lie outside the
-- log and fit it, and every other home block is in memory as it is on the disk.
pub record IsCommitting (start size : ℕ) (lh : List ℕ) (m : Machine) : Type 0 where
  pub empty : get_head (m.disk start) ≡ []
  pub homes : All (IsHome start size) lh
  pub fits : length lh < size
  pub wide : length lh < length (m.memory start)
  pub coherent : (c : ℕ) → IsHome start size c → member c lh ≡ false → m.memory c ≡ m.disk c

module _ (start size : ℕ) (b : ℕ) (bs : List ℕ) (m : Machine)
    (s : IsCommitting start size (b ∷ bs) m) where
  abbrev lh : List ℕ
  lh = b ∷ bs

  logged : Machine
  logged = write_log start 0 lh m

  headed : Machine
  unfolding logged
  headed = write_head start lh logged

  installed : Machine
  unfolding headed
  installed = install_trans start 0 lh headed

  committed : commit start lh m ≡ write_head start [] installed
  unfolding commit installed
  committed = refl

  logged-power : logged.power ≡ m.power - length lh
  unfolding logged
  logged-power = power-write_log start size 0 lh m

  headed-power : headed.power ≡ m.power - length lh - 1
  unfolding headed
  headed-power = power-write_head start size lh logged ∙ ap (λ (n : ℕ). n - 1) logged-power

  installed-power : installed.power ≡ m.power - length lh - 1 - length lh
  unfolding installed
  installed-power =
      power-install start size 0 lh headed ∙ ap (λ (n : ℕ). n - length lh) headed-power

  -- write_log leaves every block outside the log's entries as it was.
  logged-disk : (c : ℕ) → (c ≤ start) ⊎ (start + size ≤ c) → logged.disk c ≡ m.disk c
  unfolding logged
  logged-disk c o = write_log-disk_other start size 0 lh m c (omega (arith, s.fits))

  logged-head : logged.memory start ≡ m.memory start
  unfolding logged
  logged-head = write_log-memory_other start size 0 lh m start (omega arith)

  -- The power fails before the header is written: the disk's log is still empty.
  lost : m.power ≤ length lh → Recovers start size (commit start lh m).disk [] m.disk
  lost p =
      subst (λ d. Recovers start size d [] m.disk) (sym same)
        (record {
          head = ap get_head (logged-disk start (omega arith)) ∙ s.empty;
          held = tt;
          homes = tt;
          fits = omega (arith, s.fits);
          rest = λ c h _. logged-disk c (omega (arith, h));
        })
    where
      same : (commit start lh m).disk ≡ logged.disk
      same =
          ap (λ (n : Machine). n.disk) committed
          ∙ (write_head-dead start size [] installed (omega (arith, installed-power))
              ∙ (unfold installed in
                  install-dead start size 0 lh headed (omega (arith, headed-power))
                  ∙ (unfold headed in
                      write_head-dead start size lh logged (omega (arith, logged-power)))))

  -- It fails later: the header that is on the disk counts the blocks not yet home.
  module _ (p : length lh < m.power) where
    headed-disk : headed.disk ≡ update logged.disk start (put_head lh (logged.memory start))
    unfolding headed
    headed-disk = write_head-live start size lh logged (omega (arith, logged-power))

    headed-memory : headed.memory ≡ update logged.memory start (put_head lh (logged.memory start))
    unfolding headed
    headed-memory = memory-write_head start size lh logged

    log-Holds : Holds headed.disk start 0 lh m.memory × Holds headed.memory start 0 lh m.memory
    log-Holds = (
      subst (λ f. Holds f start 0 lh m.memory) (sym headed-disk)
          (Holds-update logged.disk start 0 start (put_head lh (logged.memory start)) lh m.memory
            (omega arith) both.0),
      subst (λ f. Holds f start 0 lh m.memory) (sym headed-memory)
          (Holds-update logged.memory start 0 start (put_head lh (logged.memory start)) lh m.memory
            (omega arith) both.1),
    )
      where
        both : Holds logged.disk start 0 lh m.memory × Holds logged.memory start 0 lh m.memory
        both =
            unfold logged in
            write_log-Holds start size 0 lh m m.memory (λ c h. refl) s.homes (omega (arith, s.fits))
              (omega arith)

    -- Installing leaves the log alone.
    installed-log : (c : ℕ) → start ≤ c → c < start + size → installed.disk c ≡ headed.disk c
    unfolding installed
    installed-log c a b =
        install-disk_other start size 0 lh headed c (member-log start size c lh s.homes a b)

    -- Home blocks that are not logged are on the disk as they are in memory.
    unlogged : (c : ℕ) → IsHome start size c → member c lh ≡ false → installed.disk c ≡ m.memory c
    unfolding installed
    unlogged c h q =
        install-disk_other start size 0 lh headed c q
        ∙ (ap (λ (d : ℕ → Block). d c) headed-disk
            ∙ (ground (arith, s.fits)
                ∙ (logged-disk c (omega (arith, h)) ∙ sym (s.coherent c h q))))

    in_log : installed.power ≡ 0 → Recovers start size (commit start lh m).disk lh m.memory
    in_log z =
        subst (λ d. Recovers start size d lh m.memory) (sym same)
          (record {
            head =
                ap get_head (
                  installed-log start (omega arith) (omega (arith, s.fits))
                  ∙ (ap (λ (d : ℕ → Block). d start) headed-disk ∙ ground (arith, logged-head)))
                ∙ get_head-put_head lh (m.memory start) s.wide;
            held =
                Holds-congr headed.disk installed.disk start size 0 lh m.memory
                  (λ c a b. sym (installed-log c a b)) (omega (arith, s.fits)) log-Holds.0;
            homes = s.homes;
            fits = s.fits;
            rest = unlogged;
          })
      where
        same : (commit start lh m).disk ≡ installed.disk
        same = ap (λ (n : Machine). n.disk) committed ∙ write_head-dead start size [] installed z

    all_home : 0 < installed.power → Recovers start size (commit start lh m).disk [] m.memory
    all_home z =
        subst (λ d. Recovers start size d [] m.memory) (sym same)
          (record {
            head = rw (update_self) (get_head-put_head_nil (installed.memory start));
            held = tt;
            homes = tt;
            fits = omega (arith, s.fits);
            rest = λ c h _. ground (arith, s.fits) ∙ at_home c h;
          })
      where
        same :
            (commit start lh m).disk
            ≡ update installed.disk start (put_head [] (installed.memory start))
        same = ap (λ (n : Machine). n.disk) committed ∙ write_head-live start size [] installed z

        update_self :
            update installed.disk start (put_head [] (installed.memory start)) start
            ≡ put_head [] (installed.memory start)
        update_self = ground arith

        at_home : (c : ℕ) → IsHome start size c → installed.disk c ≡ m.memory c
        at_home c h = elim (Bool-cases (member c lh)) [
          | inl q ↦
              unfold installed in
              install-disk start size 0 lh headed m.memory c log-Holds.1 s.homes
                (omega (arith, s.fits)) (omega (arith, headed-power, installed-power)) q
          | inr q ↦ unlogged c h q
        ]

-- A commit whose power fails after any number of writes is all or nothing, where the header on the
-- disk is clear, the log has room, and the cache differs from the disk only in the logged blocks:
-- after a recovery with power for at least as many writes as blocks are logged, every block outside
-- the log is as it was on the disk before, if the commit made at most as many writes as blocks are
-- logged, and otherwise as it was in memory.
pub recover-commit :
    (start size : ℕ) (lh : List ℕ) (m : Machine) (power c : ℕ)
    → IsCommitting start size lh m
    → length lh ≤ power
    → IsHome start size c
    → (recover_from_log start (reboot (commit start lh m).disk power)).disk c
      ≡ (if leb m.power (length lh) then m.disk c else m.memory c)
recover-commit start size [] m power c s p h =
    unfold commit in
    recover-value start size m.disk [] m.disk power c idle p h
    ∙ ground (arith, s.coherent c h (member-nil c))
  where
    idle : Recovers start size m.disk [] m.disk
    idle = record { head = s.empty; held = tt; homes = tt; fits = s.fits; rest = λ _ _ _. refl }
recover-commit start size (b ∷ bs) m power c s p h =
    elim (Bool-cases (leb m.power (suc (length bs)))) [
      | inl e ↦
          recover-value start size (commit start (b ∷ bs) m).disk [] m.disk power c
            (lost start size b bs m s (ground arith)) (omega arith) h
          ∙ rw e refl
      | inr e ↦
          elim (ℕ_discrete (installed start size b bs m s).power 0) [
            | yes z ↦
                recover-value start size (commit start (b ∷ bs) m).disk (b ∷ bs) m.memory power c
                  (in_log start size b bs m s (ground arith) z) p h
            | no nz ↦
                recover-value start size (commit start (b ∷ bs) m).disk [] m.memory power c
                  (all_home start size b bs m s (ground arith) (omega arith)) (omega arith) h
          ]
          ∙ rw e refl
    ]
