-- ===== src/Prelude/Decimal.antt =====
-- Numbers in decimal, as Rust prints them, and reading them back.
use Prim.Native.Nat.{ℕ, zero, suc, ◌+◌, ◌-◌, ◌*◌, ◌/◌, ◌%◌, ◌<◌}
use mathlib.Core.Bool.{true, false}
use mathlib.Core.Logic.{inl, inr}
use mathlib.Core.List.{List, [], ◌∷◌}
use mathlib.Core.Option.{none, some}
use mathlib.Core.Path.{◌≡◌, refl, ap, ◌∙◌}
use native.Mathlib.Omega.{arith}
use dee_lip.Prelude.Lists.{All}
use dee_lip.Prelude.Tests.{ltb, ◌==◌, if◌then◌else◌, Bool-cases}
use dee_lip.Prelude.Text.{IsAscii, between, parse_unsigned, read_digits, unsigned_digits, below}

-- The digits of a number before a text; each step drops one digit, so a fuel above the number is enough.
unfoldable decimal : ℕ → ℕ → List ℕ → List ℕ
decimal zero n rest = rest
decimal (suc fuel) n rest =
    let more = decimal fuel (n / 10) ((48 + n % 10) ∷ rest) in
    if ltb n 10 then (48 + n) ∷ rest else more

-- `to_string` of an unsigned number
unfoldable pub to_string : ℕ → List ℕ
unfolding decimal
to_string n = decimal (suc n) n []

data IsSigned : List ℕ → Type 0 where
  no_plus : (c : ℕ) (cs : List ℕ) → (c == 0x2b) ≡ false → IsSigned (c ∷ cs)

decimal-IsSigned : (fuel n : ℕ) (rest : List ℕ) → IsSigned rest → IsSigned (decimal fuel n rest)
unfolding decimal
decimal-IsSigned zero n rest w = w
decimal-IsSigned (suc fuel) n rest w = elim (Bool-cases (ltb n 10)) [
  | inl h ↦ rw h (no_plus (48 + n) rest (ground arith))
  | inr h ↦ rw h (
      decimal-IsSigned fuel (n / 10) ((48 + n % 10) ∷ rest)
        (no_plus (48 + n % 10) rest (ground arith)))
]

to_string-IsSigned : (n : ℕ) → IsSigned (to_string n)
unfolding to_string decimal
to_string-IsSigned n = elim (Bool-cases (ltb n 10)) [
  | inl h ↦ rw h (no_plus (48 + n) [] (ground arith))
  | inr h ↦
      rw h
        (decimal-IsSigned n (n / 10) ((48 + n % 10) ∷ []) (no_plus (48 + n % 10) [] (ground arith)))
]

digit : (d : ℕ) → d < 10 → between 0x30 0x39 (48 + d) ≡ true
digit d h = ground arith

read_digits-digit :
    (acc d : ℕ) (cs : List ℕ)
    → d < 10
    → read_digits acc ((48 + d) ∷ cs) ≡ read_digits (acc * 10 + d) cs
unfolding read_digits
read_digits-digit acc d cs h =
    ap (λ b. if b then read_digits (acc * 10 + (48 + d - 48)) cs else none) (digit d h)
    ∙ ap (λ k. read_digits k cs) (omega arith)

read_digits-decimal :
    (fuel n : ℕ) (rest : List ℕ)
    → n < fuel
    → read_digits 0 (decimal fuel n rest) ≡ read_digits n rest
unfolding decimal
read_digits-decimal zero n rest lt = absurd (omega arith)
read_digits-decimal (suc fuel) n rest lt = elim (Bool-cases (ltb n 10)) [
  | inl h ↦
      rw h (read_digits-digit 0 n rest (ground arith) ∙ ap (λ k. read_digits k rest) (omega arith))
  | inr h ↦ rw h (
      read_digits-decimal fuel (n / 10) ((48 + n % 10) ∷ rest) (ground arith)
      ∙ read_digits-digit (n / 10) (n % 10) rest (omega arith)
      ∙ ap (λ k. read_digits k rest) (omega arith))
]

parse_unsigned-IsSigned :
    (bound : ℕ) (s : List ℕ) → IsSigned s → parse_unsigned bound s ≡ below bound (read_digits 0 s)
unfolding parse_unsigned unsigned_digits
parse_unsigned-IsSigned bound _ (no_plus c cs h) = rw h refl

ltb-below : (n bound : ℕ) → n < bound → ltb n bound ≡ true
ltb-below n bound lt = ground arith

-- A number of the type is read back from its digits.
pub parse_unsigned-to_string :
    (bound n : ℕ) → n < bound → parse_unsigned bound (to_string n) ≡ some n
unfolding to_string read_digits
parse_unsigned-to_string bound n lt =
    parse_unsigned-IsSigned bound (to_string n) (to_string-IsSigned n)
    ∙ ap (below bound) (read_digits-decimal (suc n) n [] (omega arith))
    ∙ ap (λ b. if b then some n else none) (ltb-below n bound lt)

abbrev pub IsDigit : ℕ → Type 0
IsDigit c = (47 < c) × (c < 58)

decimal-digits : (fuel n : ℕ) (rest : List ℕ) → All IsDigit rest → All IsDigit (decimal fuel n rest)
unfolding decimal
decimal-digits zero n rest w = w
decimal-digits (suc fuel) n rest w = elim (Bool-cases (ltb n 10)) [
  | inl h ↦ rw h ((omega arith, ground arith), w)
  | inr h ↦
      rw h (decimal-digits fuel (n / 10) ((48 + n % 10) ∷ rest) ((omega arith, omega arith), w))
]

-- Only digits are printed.
pub to_string-digits : (n : ℕ) → All IsDigit (to_string n)
unfolding to_string
to_string-digits n = decimal-digits (suc n) n [] tt

IsAscii-digits : (s : List ℕ) → All IsDigit s → IsAscii s
IsAscii-digits [] w = tt
IsAscii-digits (c ∷ cs) w = (omega (arith, w.0.1), IsAscii-digits cs w.1)

pub to_string-IsAscii : (n : ℕ) → IsAscii (to_string n)
to_string-IsAscii n = IsAscii-digits (to_string n) (to_string-digits n)
