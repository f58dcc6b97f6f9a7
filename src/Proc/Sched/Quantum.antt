-- ===== src/Proc/Sched/Quantum.antt =====
-- yield: how long a process keeps the processor.
use mathlib.Core.Path.{fun_ext}
use tp2_so.Prelude.{
  ℕ, zero, suc, ◌^◌, ◌≡◌, ◌≢◌, ◌<◌, ap, ◌∙◌, some, true, false, List, if◌then◌else◌, length, modify,
  arith, sub32, add32, Outcome, done, get_or-modify_self, length-modify, ◌>>=◌, ◌==◌, modify-modify,
  modify-fixed, modify-congr, sym,
}
use tp2_so.Proc.{Proc, Kernel, runnable, sleeping, Chan, zero_proc, proc_at, on_proc, is_running}
use tp2_so.Proc.Sched.{SchedGuard, yield_proc, sched, sleep}

-- What a processor must be like for sched not to panic.
pub record IsReady (g : SchedGuard) : Type 0 where
  pub held : g.holding ≡ true
  pub once : g.ncli ≡ 1
  pub off : g.interruptible ≡ false

-- The calls of yield after which a process with time slice `t` gives the processor up: the counter
-- goes down by 1 modulo 2 ^ 32 before it is compared with 0.
abbrev pub slice_length : ℕ → ℕ
slice_length t = if t == 0 then 2 ^ 32 else t

-- `n` calls of yield by slot `cur`.
pub yields : {W : Type 0} → SchedGuard → ℕ → ℕ → Kernel W → Outcome (Kernel W)
yields g cur zero k = done k
yields g cur (suc n) k = yield_proc g cur k >>= λ k1. yields g cur n k1

abbrev slice_down : ℕ → Proc → Proc
slice_down n p = record p { timeslice = sub32 p.timeslice n }

yield_proc-early :
    {W : Type 0} (g : SchedGuard) (cur : ℕ) (k : Kernel W)
    → cur < length k.procs
    → sub32 (proc_at k cur).timeslice 1 ≢ 0
    → yield_proc g cur k ≡ done (on_proc cur (slice_down 1) k)
unfolding yield_proc
yield_proc-early g cur k l h =
    ground (arith, get_or-modify_self k.procs cur (slice_down 1) zero_proc l)

slice_down-add :
    (procs : List Proc) (cur n : ℕ)
    → cur < length procs
    → suc n < 2 ^ 32
    → modify (modify procs cur (slice_down 1)) cur (slice_down n)
      ≡ modify procs cur (slice_down (suc n))
slice_down-add procs cur n l h =
    modify-modify procs cur (slice_down 1) (slice_down n)
    ∙ ap (modify procs cur) (fun_ext λ p. ap (λ (t : ℕ). record p { timeslice = t }) (omega arith))

-- Before the time slice `t` of the slot `cur` of the table has run out, which takes `t` calls, or 2 ^ 32 if
-- it is 0, yield does not give the processor up: `n` calls change the time slice and nothing else.
pub yields-before :
    {W : Type 0} (g : SchedGuard) (cur n : ℕ) (k : Kernel W)
    → cur < length k.procs
    → (proc_at k cur).timeslice < 2 ^ 32
    → n < slice_length (proc_at k cur).timeslice
    → yields g cur n k ≡ done (on_proc cur (slice_down n) k)
unfolding yields
yields-before {W} g cur zero k l b h =
    ap (λ ps. done (record k { procs = ps }))
      (sym (modify-fixed k.procs cur (slice_down 0) zero_proc same))
  where
    same : slice_down 0 (proc_at k cur) ≡ proc_at k cur
    same = ap (λ (t : ℕ). record (proc_at k cur) { timeslice = t }) (omega arith)
yields-before {W} g cur (suc n) k l b h = rw (yield_proc-early g cur k l (ground arith)) (
    yields-before g cur n k1 in_range (rw down (ground arith)) (rw down (ground arith))
    ∙ ap (λ ps. done (record k { procs = ps })) (slice_down-add k.procs cur n l (ground arith)))
  where
    k1 : Kernel W
    k1 = on_proc cur (slice_down 1) k

    in_range : cur < length k1.procs
    in_range = rw (length-modify k.procs cur (slice_down 1)) l

    down : (proc_at k1 cur).timeslice ≡ sub32 (proc_at k cur).timeslice 1
    down =
        ap (λ (p : Proc). p.timeslice) (get_or-modify_self k.procs cur (slice_down 1) zero_proc l)

pub sched-done :
    {W : Type 0} (g : SchedGuard) (cur : ℕ) (k : Kernel W)
    → IsReady g
    → is_running (proc_at k cur).state ≡ false
    → sched g cur k ≡ done (on_proc cur (λ p. record p { counter = add32 p.counter 1 }) k)
unfolding sched
sched-done g cur k r h = rw (r.held, r.once, h, r.off)

abbrev given_up : Proc → Proc
given_up p = record p {
  timeslice = sub32 p.timeslice 1;
  state = runnable;
  counter = add32 p.counter 1;
}

yield_proc-last :
    {W : Type 0} (g : SchedGuard) (cur : ℕ) (k : Kernel W)
    → IsReady g
    → cur < length k.procs
    → sub32 (proc_at k cur).timeslice 1 ≡ 0
    → yield_proc g cur k ≡ done (on_proc cur given_up k)
unfolding yield_proc
yield_proc-last {W} g cur k r l h =
    rw (over, yield_proc)
      (sched-done g cur k2 r stopped
        ∙ ap (λ ps. done (record k { procs = ps }))
            (modify-modify k1.procs cur to_runnable _ ∙ modify-modify k.procs cur (slice_down 1) _))
  where
    to_runnable : Proc → Proc
    to_runnable = λ p. record p { state = runnable }

    k1 : Kernel W
    k1 = on_proc cur (slice_down 1) k

    k2 : Kernel W
    k2 = on_proc cur to_runnable k1

    in_range : cur < length k1.procs
    in_range = rw (length-modify k.procs cur (slice_down 1)) l

    over : (proc_at k1 cur).timeslice ≡ 0
    over =
        ap (λ (p : Proc). p.timeslice) (get_or-modify_self k.procs cur (slice_down 1) zero_proc l)
        ∙ h

    stopped : is_running (proc_at k2 cur).state ≡ false
    stopped =
        ap (λ (p : Proc). is_running p.state)
          (get_or-modify_self k1.procs cur to_runnable zero_proc in_range)

-- With the locks as sched wants them, the call of yield that ends the time slice `t` of slot `cur`,
-- the `t`-th, or the 2 ^ 32-th if `t` is 0, makes the process runnable, counts a switch, and
-- changes no other slot.
pub yields-last :
    {W : Type 0} (g : SchedGuard) (cur n : ℕ) (k : Kernel W)
    → IsReady g
    → cur < length k.procs
    → (proc_at k cur).timeslice < 2 ^ 32
    → suc n ≡ slice_length (proc_at k cur).timeslice
    → (yields g cur n k >>= yield_proc g cur)
      ≡ done (
          on_proc cur
            (λ p. record p { timeslice = 0; state = runnable; counter = add32 p.counter 1 })
            k)
yields-last {W} g cur n k r l b h = rw (yields-before g cur n k l b (ground arith)) (
    yield_proc-last g cur kn r in_range (rw left (ground arith))
    ∙ ap (λ ps. done (record k { procs = ps }))
        (modify-modify k.procs cur (slice_down n) given_up
          ∙ modify-congr k.procs cur _ _ zero_proc (
              ap
                (λ (t : ℕ). record (proc_at k cur) {
                  timeslice = t;
                  state = runnable;
                  counter = add32 (proc_at k cur).counter 1;
                })
                (ground arith))))
  where
    kn : Kernel W
    kn = on_proc cur (slice_down n) k

    in_range : cur < length kn.procs
    in_range = rw (length-modify k.procs cur (slice_down n)) l

    left : (proc_at kn cur).timeslice ≡ sub32 (proc_at k cur).timeslice n
    left =
        ap (λ (p : Proc). p.timeslice) (get_or-modify_self k.procs cur (slice_down n) zero_proc l)

-- The state at the switch in sleep.
pub sleep-done :
    {W : Type 0} (g : SchedGuard) (cur : ℕ) (chan : Chan) (k : Kernel W)
    → IsReady g
    → cur < length k.procs
    → sleep g (some cur) false chan k
      ≡ done (
          on_proc cur
            (λ p. record p { chan = chan; state = sleeping; counter = add32 p.counter 1 })
            k)
unfolding sleep
sleep-done {W} g cur chan k r l =
    sched-done g cur k1 r stopped
    ∙ ap (λ ps. done (record k { procs = ps })) (modify-modify k.procs cur to_sleep _)
  where
    to_sleep : Proc → Proc
    to_sleep = λ p. record p { chan = chan; state = sleeping }

    k1 : Kernel W
    k1 = on_proc cur to_sleep k

    stopped : is_running (proc_at k1 cur).state ≡ false
    stopped =
        ap (λ (p : Proc). is_running p.state) (get_or-modify_self k.procs cur to_sleep zero_proc l)
