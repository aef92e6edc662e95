-- ===== src/Base/Outcome.antt =====
-- What a call of fallible Rust code comes to: a value, an `Err`, or a panic.
-- Error values keep their variant; the text that the code formats into them is left out.
use mathlib.Core.Path.{◌≡◌, refl}
use mathlib.Core.Logic.{◌⊎◌, inl, inr}
use mathlib.Core.Bool.{Bool, true, false}
use mathlib.Core.Option.{Option, none, some}

pub data Outcome {ℓ κ} (E : Type ℓ) (A : Type κ) : Type (ℓ ⊔ κ) where
  ok : A → Outcome E A
  err : E → Outcome E A
  panicked : Outcome E A

-- `?` on a call, and the call's value in what follows. A panic goes through like an error.
infixl 5 ◌>>=◌ ◌>>◌
abbrev pub ◌>>=◌ {ℓ μ κ} :
    {E : Type ℓ} {A : Type μ} {B : Type κ} (call : Outcome E A) → (A → Outcome E B) → Outcome E B
panicked >>= rest = panicked
err failure >>= rest = err failure
ok value >>= rest = rest value

-- `if !b { return Err(e) }`
abbrev pub guard {ℓ} : {E : Type ℓ} → Bool → E → Outcome E (Unit {0})
guard false failure = err failure
guard true failure = ok tt

abbrev pub ◌>>◌ {ℓ κ} :
    {E : Type ℓ} {B : Type κ} (call : Outcome E (Unit {0})) → Outcome E B → Outcome E B
call >> rest = call >>= λ _. rest

-- `assert!(b)`
abbrev pub assert {ℓ} : {E : Type ℓ} → Bool → Outcome E (Unit {0})
assert true = ok tt
assert false = panicked

-- `o.ok_or(e)?`
abbrev pub ok_or {ℓ κ} : {E : Type ℓ} {A : Type κ} → Option A → E → Outcome E A
ok_or none e = err e
ok_or (some a) e = ok a

-- `o.unwrap()`
abbrev pub unwrap {ℓ κ} : {E : Type ℓ} {A : Type κ} → Option A → Outcome E A
unwrap none = panicked
unwrap (some a) = ok a

-- The value of a bind that succeeds comes through a value of its first part.
pub >>=-eq-ok {ℓ μ κ} :
    {E : Type ℓ} {A : Type μ} {B : Type κ} {result : B} (call : Outcome E A)
    (rest : A → Outcome E B)
    → (call >>= rest) ≡ ok result
    → (value : A) × (call ≡ ok value) × (rest value ≡ ok result)
>>=-eq-ok panicked rest e = cc
>>=-eq-ok (err failure) rest e = cc
>>=-eq-ok (ok value) rest e = (value, refl, e)

-- A split on a computed outcome that keeps the equation.
pub Outcome-cases {ℓ κ} :
    {E : Type ℓ} {A : Type κ} (m : Outcome E A)
    → ((a : A) × (m ≡ ok a)) ⊎ ((e : E) × (m ≡ err e)) ⊎ (m ≡ panicked)
Outcome-cases (ok a) = inl (a, refl)
Outcome-cases (err e) = inr (inl (e, refl))
Outcome-cases panicked = inr (inr refl)

-- No outcome of the code: a loop of the model was given too little fuel.
pub data Fuel : Type 0 where
  out_of_fuel : Fuel

-- Code that returns no error but may panic.
abbrev pub Partial {ℓ} : Type ℓ → Type ℓ
Partial A = Outcome Fuel A

-- A guard that is passed.
pub guard-passes {ℓ κ} :
    {E : Type ℓ} {B : Type κ} {result : B} (b : Bool) (e : E) (rest : Outcome E B)
    → (guard b e >> rest) ≡ ok result
    → (b ≡ true) × (rest ≡ ok result)
guard-passes true e rest h = (refl, h)
guard-passes false e rest h = cc
