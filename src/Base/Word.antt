-- ===== src/Base/Word.antt =====
-- Rust's 64-bit unsigned arithmetic: `u64`, `usize` and the satoshis of `Amount`.
use dlcdevkit.Base.Tests.{ltb, leb, if◌then◌else◌}
use dlcdevkit.Base.Lists.{total}
use dlcdevkit.Base.Outcome.{Outcome, ok, err, panicked, ◌>>=◌}
use mathlib.Core.Path.{◌≡◌}
use mathlib.Core.Logic.{◌≢◌}
use mathlib.Core.List.{List, [], ◌∷◌}
use native.Mathlib.Omega.{arith}
use Prim.Native.Nat.{ℕ, ◌≤◌, ◌+◌, ◌-◌, ◌*◌, ◌%◌, ◌^◌, ◌<◌}
use mathlib.Core.Option.{Option, none, some}

abbrev pub u64_mod : ℕ
u64_mod = 2 ^ 64

abbrev pub IsU64 : ℕ → Type 0
IsU64 n = n < u64_mod

-- `a + b` on `usize` in a release build.
abbrev pub add_usize : ℕ → ℕ → ℕ
add_usize a b = (a + b) % u64_mod

-- `a.checked_add(b)` and `a.checked_mul(b)`
abbrev pub checked_add : ℕ → ℕ → Option ℕ
checked_add a b = if ltb (a + b) u64_mod then some (a + b) else none

abbrev pub checked_mul : ℕ → ℕ → Option ℕ
checked_mul a b = if ltb (a * b) u64_mod then some (a * b) else none

-- `a + b` and `a - b` on `Amount`, whose operators panic out of range.
abbrev pub add_amount {ℓ} : {E : Type ℓ} → ℕ → ℕ → Outcome E ℕ
add_amount a b = if ltb (a + b) u64_mod then ok (a + b) else panicked

abbrev pub sub_amount {ℓ} : {E : Type ℓ} → ℕ → ℕ → Outcome E ℕ
sub_amount a b = if leb b a then ok (a - b) else panicked

-- `a + b₁ + … + bₙ` and `a - b₁ - … - bₙ` on `Amount`, from the left.
unfoldable pub add_amounts {ℓ} : {E : Type ℓ} → ℕ → List ℕ → Outcome E ℕ
add_amounts a [] = ok a
add_amounts a (b ∷ bs) = add_amount a b >>= λ c. add_amounts c bs

unfoldable pub sub_amounts {ℓ} : {E : Type ℓ} → ℕ → List ℕ → Outcome E ℕ
sub_amounts a [] = ok a
sub_amounts a (b ∷ bs) = sub_amount a b >>= λ c. sub_amounts c bs

abbrev pub sum : List ℕ → ℕ
sum = total (λ n. n)

module _ {ℓ} {E : Type ℓ} where
  pub add_amounts-eq :
      (a : ℕ) (bs : List ℕ) {r : ℕ} → add_amounts {E = E} a bs ≡ ok r → r ≡ a + sum bs
  unfolding add_amounts
  add_amounts-eq a [] h = ground arith
  add_amounts-eq a (b ∷ bs) {r} h = ground (arith, add_amounts-eq (a + b) bs {r = r})

  pub add_amounts_ok :
      (a : ℕ) (bs : List ℕ) → a + sum bs < u64_mod → add_amounts {E = E} a bs ≡ ok (a + sum bs)
  unfolding add_amounts
  add_amounts_ok a [] h = ground arith
  add_amounts_ok a (b ∷ bs) h = ground (arith, add_amounts_ok (a + b) bs)

  pub sub_amounts-eq :
      (a : ℕ) (bs : List ℕ) {r : ℕ} → sub_amounts {E = E} a bs ≡ ok r → a ≡ r + sum bs
  unfolding sub_amounts
  sub_amounts-eq a [] h = ground arith
  sub_amounts-eq a (b ∷ bs) {r} h = ground (arith, sub_amounts-eq (a - b) bs {r = r})

  pub sub_amounts_ok :
      (a : ℕ) (bs : List ℕ) → sum bs ≤ a → sub_amounts {E = E} a bs ≡ ok (a - sum bs)
  unfolding sub_amounts
  sub_amounts_ok a [] h = ground arith
  sub_amounts_ok a (b ∷ bs) h = ground (arith, sub_amounts_ok (a - b) bs)

  -- These operators panic: they return no error.
  pub add_amounts-ne-err : (a : ℕ) (bs : List ℕ) (e : E) → add_amounts a bs ≢ err e
  unfolding add_amounts
  add_amounts-ne-err a [] e h = cc
  add_amounts-ne-err a (b ∷ bs) e h = ground (arith, add_amounts-ne-err (a + b) bs e)

  pub sub_amounts-ne-err : (a : ℕ) (bs : List ℕ) (e : E) → sub_amounts a bs ≢ err e
  unfolding sub_amounts
  sub_amounts-ne-err a [] e h = cc
  sub_amounts-ne-err a (b ∷ bs) e h = ground (arith, sub_amounts-ne-err (a - b) bs e)
