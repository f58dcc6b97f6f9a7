-- ===== src/Prelude/Panics.antt =====
-- What a kernel function does: it returns, or it calls `panic`, which stops the machine.
use Prim.Native.String.{String}
use mathlib.Core.Path.{◌≡◌, refl}
use mathlib.Core.Bool.{Bool, true, false}

pub data Outcome {ℓ} (A : Type ℓ) : Type ℓ where
  done : A → Outcome A
  panic : String → Outcome A

infixl 5 ◌>>=◌
abbrev pub ◌>>=◌ {ℓ κ} : {A : Type ℓ} {B : Type κ} → Outcome A → (A → Outcome B) → Outcome B
done a >>= f = f a
panic s >>= f = panic s

infixl 5 ◌>>◌
abbrev pub ◌>>◌ {ℓ} : {B : Type ℓ} → Outcome (Unit {0}) → Outcome B → Outcome B
m >> k = m >>= λ _. k

-- `if(bad) panic(s);`
abbrev pub panic_if : Bool → String → Outcome (Unit {0})
panic_if true s = panic s
panic_if false s = done tt

-- Inversion of a successful bind.
pub >>=-eq-done {ℓ κ} :
    {A : Type ℓ} {B : Type κ} (m : Outcome A) (f : A → Outcome B) {b : B}
    → (m >>= f) ≡ done b
    → (a : A) × (m ≡ done a) × (f a ≡ done b)
>>=-eq-done (done a) f h = (a, refl, h)
>>=-eq-done (panic s) f h = cc

-- Results that are pairs.
pub done-pair {ℓ κ} :
    {A : Type ℓ} {B : Type κ} {a c : A} {b d : B}
    → ◌≡◌ {A = Outcome (A × B)} (done (a, b)) (done (c, d))
    → (a ≡ c) × (b ≡ d)
done-pair e = (cc, cc)

pub done-triple {ℓ κ μ} :
    {A : Type ℓ} {B : Type κ} {C : Type μ} {a d : A} {b e : B} {c f : C}
    → ◌≡◌ {A = Outcome (A × B × C)} (done (a, b, c)) (done (d, e, f))
    → (a ≡ d) × (b ≡ e) × (c ≡ f)
done-triple q = (cc, cc, cc)
