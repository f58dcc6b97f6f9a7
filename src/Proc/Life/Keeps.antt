-- ===== src/Proc/Life/Keeps.antt =====
-- exit and growproc keep what identifies the processes.
use tp2_so.Prelude.{
  ℕ, zero, suc, ◌+◌, ◌≡◌, refl, not, ◌&&◌, Option, some, List, get_or, modify, replicate, arith,
  Bool-cases, inl, inr, done, ◌==◌, if◌then◌else◌, slt32, add32,
}
use tp2_so.Proc.{Proc, Kernel, Services, proc_at, zero_proc, zombie, is_zombie, nproc, nofile}
use tp2_so.Proc.Tame.{Keeps, Keeps-refl, Keeps-trans, Keeps-modify, Runs, modify-Runs}
use tp2_so.Proc.Table.{wakeup1}
use tp2_so.Proc.Table.Keeps.{wakeup1-Keeps, wakeup1-Runs}
use tp2_so.Proc.Sched.{SchedGuard}
use tp2_so.Proc.Sched.Keeps.{sched-Keeps, nextpid-sched}
use tp2_so.Proc.Life.{
  adopt, reparent, reparent_round, child_of, first_of, exit, growproc, same_slot, chan_of,
  close_files,
}

module _ (cur : ℕ) (init : Option ℕ) where
  dies-Keeps :
      (ps : List Proc) → Runs ps cur → Keeps ps (modify ps cur (λ q. record q { state = zombie }))
  dies-Keeps ps r = Keeps-modify ps cur (λ q. record q { state = zombie }) (ground arith)

  reparent_round-Keeps : (i : ℕ) (ps : List Proc) → Keeps ps (reparent_round i cur init ps)
  unfolding reparent_round
  reparent_round-Keeps i ps =
      elim (Bool-cases (
        same_slot (get_or ps i zero_proc).parent (some cur)
        && is_zombie (get_or ps i zero_proc).state)) [
          | inl c ↦
              rw (c, reparent_round)
                (Keeps-trans ps (modify ps i (adopt cur init)) _ adopted
                  (wakeup1-Keeps (chan_of init) _))
          | inr c ↦ rw (c, reparent_round) adopted
        ]
    where
      adopted : Keeps ps (modify ps i (adopt cur init))
      adopted = Keeps-modify ps i (adopt cur init) (ground arith)

  reparent_round-Runs :
      (i : ℕ) (ps : List Proc) → Runs ps cur → Runs (reparent_round i cur init ps) cur
  unfolding reparent_round
  reparent_round-Runs i ps r =
      elim (Bool-cases (
        same_slot (get_or ps i zero_proc).parent (some cur)
        && is_zombie (get_or ps i zero_proc).state)) [
          | inl c ↦ rw (c, reparent_round) (wakeup1-Runs (chan_of init) _ cur adopted)
          | inr c ↦ rw (c, reparent_round) adopted
        ]
    where
      adopted : Runs (modify ps i (adopt cur init)) cur
      adopted = modify-Runs ps i cur (adopt cur init) (λ p h. ground arith) r

  reparent-Keeps : (n i : ℕ) (ps : List Proc) → Keeps ps (reparent n i cur init ps)
  unfolding reparent
  reparent-Keeps zero i ps = Keeps-refl ps
  reparent-Keeps (suc n) i ps =
      Keeps-trans ps next _ (reparent_round-Keeps i ps) (reparent-Keeps n (i + 1) next)
    where
      next : List Proc
      next = reparent_round i cur init ps

  reparent-Runs : (n i : ℕ) (ps : List Proc) → Runs ps cur → Runs (reparent n i cur init ps) cur
  unfolding reparent
  reparent-Runs zero i ps r = r
  reparent-Runs (suc n) i ps r =
      reparent-Runs n (i + 1) (reparent_round i cur init ps) (reparent_round-Runs i ps r)

module _ {W : Type 0} (io : Services W) where
  pub growproc-Keeps : (cur n : ℕ) (k : Kernel W) → Keeps k.procs (growproc io cur n k).1.procs
  unfolding growproc
  growproc-Keeps cur n k = elim (Bool-cases (not (n == 0) && (sized.0 == 0))) [
    | inl c ↦ rw (c, growproc) (Keeps-refl k.procs)
    | inr c ↦
        rw (c, growproc) (Keeps-modify k.procs cur (λ q. record q { sz = sized.0 }) (ground arith))
  ]
    where
      p : Proc
      p = proc_at k cur

      sized : ℕ × W
      sized =
          if slt32 0 n
          then io.allocuvm p.pgdir p.sz (add32 p.sz n) k.world
          else if slt32 n 0
          then io.deallocuvm p.pgdir p.sz (add32 p.sz n) k.world
          else (p.sz, k.world)

  -- The process that exits is running, so its slot is active before and after.
  pub exit-Keeps :
      (g : SchedGuard) (cur : ℕ) (k k' : Kernel W)
      → Runs k.procs cur
      → exit io g cur k ≡ done k'
      → Keeps k.procs k'.procs
  unfolding exit
  exit-Keeps g cur k k' r e = elim (Bool-cases (same_slot k.initproc (some cur))) [
    | inl c ↦ absurd (ground arith)
    | inr c ↦
        Keeps-trans k.procs adopted k'.procs
          (Keeps-trans k.procs closed adopted keep1 (
            Keeps-trans closed woken adopted (wakeup1-Keeps (chan_of p.parent) closed)
              (reparent-Keeps cur k.initproc nproc 0 woken)))
          (Keeps-trans adopted dead.procs k'.procs (dies-Keeps cur k.initproc adopted still)
            (sched-Keeps g cur dead k' (ground arith)))
  ]
    where
      p : Proc
      p = proc_at k cur

      closed : List Proc
      closed = modify k.procs cur (λ q. record q { ofile = replicate nofile 0; cwd = 0 })

      woken : List Proc
      woken = wakeup1 (chan_of p.parent) closed

      adopted : List Proc
      adopted = reparent nproc 0 cur k.initproc woken

      dead : Kernel W
      dead = record k {
        procs = modify adopted cur (λ q. record q { state = zombie });
        world = io.end_op (io.iput p.cwd (io.begin_op (close_files io p.ofile k.world)));
      }

      keep1 : Keeps k.procs closed
      keep1 =
          Keeps-modify k.procs cur (λ q. record q { ofile = replicate nofile 0; cwd = 0 })
            (ground arith)

      still : Runs adopted cur
      still =
          reparent-Runs cur k.initproc nproc 0 woken (
            wakeup1-Runs (chan_of p.parent) closed cur (modify-Runs k.procs cur cur _ (λ q h. h) r))

  pub nextpid-growproc : (cur n : ℕ) (k : Kernel W) → (growproc io cur n k).1.nextpid ≡ k.nextpid
  unfolding growproc
  nextpid-growproc cur n k = ground arith

  pub nextpid-exit :
      (g : SchedGuard) (cur : ℕ) (k k' : Kernel W)
      → exit io g cur k ≡ done k'
      → k'.nextpid ≡ k.nextpid
  unfolding exit
  nextpid-exit g cur k k' e = elim (Bool-cases (same_slot k.initproc (some cur))) [
    | inl c ↦ absurd (ground arith)
    | inr c ↦ nextpid-sched _ k' g cur (rw (c, exit) at e)
  ]

pub child_of_lem :
    (cur dir : ℕ) (p np : Proc)
    → ((child_of cur dir p np).pid ≡ np.pid)
      × ((child_of cur dir p np).kstack ≡ np.kstack)
      × ((child_of cur dir p np).pgdir ≡ dir)
unfolding child_of
child_of_lem cur dir p np = (refl, refl, refl)

pub first_of_lem :
    (dir root ticks : ℕ) (p : Proc)
    → ((first_of dir root ticks p).pid ≡ p.pid)
      × ((first_of dir root ticks p).kstack ≡ p.kstack)
      × ((first_of dir root ticks p).pgdir ≡ dir)
unfolding first_of
first_of_lem dir root ticks p = (refl, refl, refl)
