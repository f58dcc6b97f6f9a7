-- ===== src/Proc/Tame.antt =====
-- Which slots of the process table are in use, and the changes of the table that keep their pids,
-- kernel stacks and page tables.
use tp2_so.Prelude.{
  ℕ, zero, suc, ◌≡◌, ◌∙◌, refl, Bool, true, false, not, List, [], ◌∷◌, map, get_or, modify,
}
use tp2_so.Proc.{ProcState, unused, embryo, running, is_unused, Proc, zero_proc}

abbrev pub live : Proc → Bool
live p = not (is_unused p.state)

-- A slot that has been set up: its process can run, or has run.
abbrev pub active_state : ProcState → Bool
active_state unused = false
active_state embryo = false
active_state _ = true

abbrev pub active : Proc → Bool
active p = active_state p.state

-- One slot before and after.
pub record KeepsSlot (p q : Proc) : Type 0 where
  pub alive : live q ≡ true → (live p ≡ true) × (q.pid ≡ p.pid)
  pub ready : active q ≡ true → (active p ≡ true) × (q.kstack ≡ p.kstack) × (q.pgdir ≡ p.pgdir)

pub KeepsSlot-refl : (p : Proc) → KeepsSlot p p
KeepsSlot-refl p = record { alive = λ h. (h, refl); ready = λ h. (h, refl, refl) }

-- Every slot, before and after.
abbrev pub Keeps : List Proc → List Proc → Type 0
Keeps ps qs = (i : ℕ) → KeepsSlot (get_or ps i zero_proc) (get_or qs i zero_proc)

pub Keeps-refl : (ps : List Proc) → Keeps ps ps
Keeps-refl ps i = KeepsSlot-refl (get_or ps i zero_proc)

pub Keeps-trans : (ps qs rs : List Proc) → Keeps ps qs → Keeps qs rs → Keeps ps rs
Keeps-trans ps qs rs a b i = record {
  alive = λ h. let (l, e) = (b i).alive h in let (m, f) = (a i).alive l in (m, e ∙ f);
  ready =
      λ h. let (l, e, f) = (b i).ready h in let (m, e', f') = (a i).ready l in (m, e ∙ e', f ∙ f');
}

pub Keeps-modify :
    (ps : List Proc) (i : ℕ) (f : Proc → Proc)
    → KeepsSlot (get_or ps i zero_proc) (f (get_or ps i zero_proc))
    → Keeps ps (modify ps i f)
Keeps-modify [] i f h j = KeepsSlot-refl zero_proc
Keeps-modify (p ∷ ps) zero f h zero = h
Keeps-modify (p ∷ ps) zero f h (suc j) = KeepsSlot-refl (get_or ps j zero_proc)
Keeps-modify (p ∷ ps) (suc i) f h zero = KeepsSlot-refl p
Keeps-modify (p ∷ ps) (suc i) f h (suc j) = Keeps-modify ps i f h j

pub Keeps-map :
    (f : Proc → Proc) (ps : List Proc) → ((p : Proc) → KeepsSlot p (f p)) → Keeps ps (map f ps)
Keeps-map f [] h j = KeepsSlot-refl zero_proc
Keeps-map f (p ∷ ps) h zero = h p
Keeps-map f (p ∷ ps) h (suc j) = Keeps-map f ps h j

-- Slot `cur` is running.
abbrev pub Runs : List Proc → ℕ → Type 0
Runs ps cur = (get_or ps cur zero_proc).state ≡ running

pub modify-Runs :
    (ps : List Proc) (i cur : ℕ) (f : Proc → Proc)
    → ((p : Proc) → p.state ≡ running → (f p).state ≡ running)
    → Runs ps cur
    → Runs (modify ps i f) cur
modify-Runs [] i cur f h r = r
modify-Runs (p ∷ ps) zero zero f h r = h p r
modify-Runs (p ∷ ps) zero (suc cur) f h r = r
modify-Runs (p ∷ ps) (suc i) zero f h r = r
modify-Runs (p ∷ ps) (suc i) (suc cur) f h r = modify-Runs ps i cur f h r

pub map-Runs :
    (ps : List Proc) (cur : ℕ) (f : Proc → Proc)
    → ((p : Proc) → p.state ≡ running → (f p).state ≡ running)
    → Runs ps cur
    → Runs (map f ps) cur
map-Runs [] cur f h r = r
map-Runs (p ∷ ps) zero f h r = h p r
map-Runs (p ∷ ps) (suc cur) f h r = map-Runs ps cur f h r
