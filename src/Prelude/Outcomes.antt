-- ===== src/Prelude/Outcomes.antt =====
-- Rust's `Result` with the abort of `expect`, `unwrap` and of an index out of range beside it.
use mathlib.Core.Path.{refl}
use mathlib.Core.Bool.{Bool, true, false}
use mathlib.Core.Logic.{◌≢◌}

pub data Outcome {ℓ κ} (E : Type ℓ) (A : Type κ) : Type (ℓ ⊔ κ) where
  panic : Outcome E A
  err : E → Outcome E A
  ok : A → Outcome E A

-- `Result::and_then`; an abort ends the chain as well.
abbrev pub and_then {ℓ κ μ} :
    {E : Type ℓ} {A : Type κ} {B : Type μ} → (A → Outcome E B) → Outcome E A → Outcome E B
and_then next panic = panic
and_then next (err reason) = err reason
and_then next (ok value) = next value

-- The `?` operator, and a statement with no value.
infixl 5 ◌>>=◌ ◌>>◌
abbrev pub ◌>>=◌ {ℓ κ μ} :
    {E : Type ℓ} {A : Type κ} {B : Type μ} → Outcome E A → (A → Outcome E B) → Outcome E B
outcome >>= next = and_then next outcome

abbrev pub ◌>>◌ {ℓ κ} : {E : Type ℓ} {B : Type κ} → Outcome E (Unit {0}) → Outcome E B → Outcome E B
check >> rest = and_then (λ done. rest) check

-- `if !holds { return Err(reason); }`
abbrev pub ensure {ℓ} : {E : Type ℓ} → Bool → E → Outcome E (Unit {0})
ensure false reason = err reason
ensure true reason = ok tt

module _ {ℓ κ μ} {E : Type ℓ} {A : Type κ} {B : Type μ} (next : A → Outcome E B)
    (safe : (a : A) → next a ≢ panic) where
  and_then-ne-panic : (outcome : Outcome E A) → outcome ≢ panic → and_then next outcome ≢ panic
  and_then-ne-panic panic ne = absurd (ne refl)
  and_then-ne-panic (err reason) ne = λ e. cc
  and_then-ne-panic (ok value) ne = safe value

pub >>=-ne-panic {ℓ κ μ} :
    {E : Type ℓ} {A : Type κ} {B : Type μ} (outcome : Outcome E A) (next : A → Outcome E B)
    → outcome ≢ panic
    → ((a : A) → next a ≢ panic)
    → (outcome >>= next) ≢ panic
>>=-ne-panic outcome next ne safe = and_then-ne-panic next safe outcome ne

module _ {ℓ κ} {E : Type ℓ} {A : Type κ} where
  pub ok-ne-panic : (a : A) → ◌≢◌ {A = Outcome E A} (ok a) panic
  ok-ne-panic a e = cc

  pub err-ne-panic : (x : E) → ◌≢◌ {A = Outcome E A} (err x) panic
  err-ne-panic x e = cc
