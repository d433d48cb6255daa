-- ===== src/Prelude/Words.antt =====
-- Machine words as numbers, and their big-endian bytes.
use Prim.Native.Nat.{ℕ, ◌+◌, ◌*◌, ◌/◌, ◌%◌, ◌<◌}
use mathlib.Core.Path.{◌≡◌}
use mathlib.Core.List.{List, [], ◌∷◌}
use native.Mathlib.Omega.{arith}
use dee_lip.Prelude.Lists.{All}

-- `x as u8`, `x as u16`, `x as u32`
abbrev pub u8 : ℕ → ℕ
u8 x = x % 256

abbrev pub u16 : ℕ → ℕ
u16 x = x % 65536

abbrev pub u32 : ℕ → ℕ
u32 x = x % 4294967296

abbrev pub IsU8 : ℕ → Type 0
IsU8 x = x < 256

abbrev pub IsU16 : ℕ → Type 0
IsU16 x = x < 65536

abbrev pub IsU32 : ℕ → Type 0
IsU32 x = x < 4294967296

abbrev pub AreBytes : List ℕ → Type 0
AreBytes = All IsU8

-- `to_be_bytes` and `from_be_bytes`
abbrev pub be16 : ℕ → List ℕ
be16 x = (x / 256 % 256) ∷ (x % 256) ∷ []

abbrev pub be32 : ℕ → List ℕ
be32 x = (x / 16777216 % 256) ∷ (x / 65536 % 256) ∷ (x / 256 % 256) ∷ (x % 256) ∷ []

abbrev pub of_be16 : List ℕ → ℕ
of_be16 (a ∷ b ∷ _) = a * 256 + b
of_be16 _ = 0

abbrev pub of_be32 : List ℕ → ℕ
of_be32 (a ∷ b ∷ c ∷ d ∷ _) = a * 16777216 + b * 65536 + c * 256 + d
of_be32 _ = 0

pub of_be16-be16 : (x : ℕ) → IsU16 x → of_be16 (be16 x) ≡ x
of_be16-be16 x h = omega arith

pub of_be32-be32 : (x : ℕ) → IsU32 x → of_be32 (be32 x) ≡ x
of_be32-be32 x h = omega arith
