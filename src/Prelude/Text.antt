-- ===== src/Prelude/Text.antt =====
-- Rust texts as their code points, and `String::from_utf8_lossy`.
use Prim.Native.Nat.{ℕ, ◌+◌, ◌-◌, ◌*◌, ◌<◌}
use Prim.Native.Char.{code}
use Prim.Native.String.{String}
use mathlib.Core.Bool.{Bool, true, false, ◌&&◌, ◌||◌}
use mathlib.Core.List.{List, [], ◌∷◌, ◌++◌}
use mathlib.Core.Option.{Option, none, some}
use mathlib.Core.Path.{◌≡◌, refl, ap}
use native.Mathlib.Omega.{arith}
use dee_lip.Prelude.Lists.{All}
use dee_lip.Prelude.Tests.{leb, ltb, ◌==◌, if◌then◌else◌}

-- The code points of a literal: its bytes, where it is ASCII.
abbrev pub codes : String → List ℕ
codes String.[] = []
codes (String.◌∷◌ c s) = code c ∷ codes s

abbrev pub between : ℕ → ℕ → ℕ → Bool
between lo hi x = leb lo x && leb x hi

-- `char::is_whitespace`
unfoldable pub is_whitespace : ℕ → Bool
is_whitespace c =
    between 9 13 c
    || c == 0x20
    || c == 0x85
    || c == 0xa0
    || c == 0x1680
    || between 0x2000 0x200a c
    || c == 0x2028
    || c == 0x2029
    || c == 0x202f
    || c == 0x205f
    || c == 0x3000

abbrev pub is_empty {ℓ} : {A : Type ℓ} → List A → Bool
is_empty [] = true
is_empty (x ∷ xs) = false

-- `str::trim_end`
unfoldable pub trim_end : List ℕ → List ℕ
unfolding is_whitespace
trim_end [] = []
trim_end (c ∷ cs) =
    let rest = trim_end cs in if is_whitespace c && is_empty rest then [] else c ∷ rest

-- A sequence begun: how many bytes it still wants, the range of the next, the bits so far.
record Pending : Type 0 where
  need : ℕ
  lo : ℕ
  hi : ℕ
  point : ℕ

abbrev settled : Pending
settled = record { need = 0; lo = 0x80; hi = 0xbf; point = 0 }

abbrev begun : ℕ → ℕ → ℕ → ℕ → Pending
begun n lo hi p = record { need = n; lo = lo; hi = hi; point = p }

-- The first byte of a sequence: what it gives at once, and what is pending behind it.
utf8_first : ℕ → List ℕ × Pending
utf8_first b =
    if leb b 0x7f
    then (b ∷ [], settled)
    else if between 0xc2 0xdf b
    then ([], begun 1 0x80 0xbf (b - 0xc0))
    else if b == 0xe0
    then ([], begun 2 0xa0 0xbf 0)
    else if between 0xe1 0xec b || between 0xee 0xef b
    then ([], begun 2 0x80 0xbf (b - 0xe0))
    else if b == 0xed
    then ([], begun 2 0x80 0x9f 13)
    else if b == 0xf0
    then ([], begun 3 0x90 0xbf 0)
    else if between 0xf1 0xf3 b
    then ([], begun 3 0x80 0xbf (b - 0xf0))
    else if b == 0xf4
    then ([], begun 3 0x80 0x8f 4)
    else (0xfffd ∷ [], settled)

-- A sequence that breaks off gives one U+FFFD, and its breaking byte begins anew.
utf8_byte : Pending → ℕ → List ℕ × Pending
utf8_byte p b =
    if p.need == 0
    then utf8_first b
    else if between p.lo p.hi b
    then (let point = p.point * 64 + (b - 0x80) in
        if p.need == 1 then (point ∷ [], settled) else ([], begun (p.need - 1) 0x80 0xbf point))
    else (0xfffd ∷ (utf8_first b).0, (utf8_first b).1)

utf8_rest : Pending → List ℕ → List ℕ
utf8_rest p [] = if p.need == 0 then [] else 0xfffd ∷ []
utf8_rest p (b ∷ bs) = let (out, q) = utf8_byte p b in out ++ utf8_rest q bs

-- `String::from_utf8_lossy`
unfoldable pub from_utf8_lossy : List ℕ → List ℕ
unfolding utf8_first utf8_byte utf8_rest
from_utf8_lossy = utf8_rest settled

-- `std::str::from_utf8(bytes).is_ok()`
utf8_rest_ok : Pending → List ℕ → Bool
utf8_rest_ok p [] = p.need == 0
utf8_rest_ok p (b ∷ bs) =
    let rest = utf8_rest_ok (utf8_byte p b).1 bs in
    (if p.need == 0 then leb b 0x7f || between 0xc2 0xf4 b else between p.lo p.hi b) && rest

unfoldable pub is_utf8 : List ℕ → Bool
unfolding utf8_first utf8_byte utf8_rest_ok
is_utf8 = utf8_rest_ok settled

-- `char::to_ascii_lowercase`
abbrev pub to_ascii_lowercase : ℕ → ℕ
to_ascii_lowercase c = if between 0x41 0x5a c then c + 0x20 else c

-- `str::trim_start` and `str::trim`
unfoldable pub trim_start : List ℕ → List ℕ
unfolding is_whitespace
trim_start [] = []
trim_start (c ∷ cs) = let rest = trim_start cs in if is_whitespace c then rest else c ∷ cs

abbrev pub trim : List ℕ → List ℕ
trim cs = trim_end (trim_start cs)

-- `str::strip_prefix`
unfoldable pub strip_prefix : List ℕ → List ℕ → Option (List ℕ)
strip_prefix [] cs = some cs
strip_prefix (p ∷ ps) [] = none
strip_prefix (p ∷ ps) (c ∷ cs) = let rest = strip_prefix ps cs in if p == c then rest else none

unfoldable pub read_digits : ℕ → List ℕ → Option ℕ
read_digits acc [] = some acc
read_digits acc (c ∷ cs) =
    let rest = read_digits (acc * 10 + (c - 0x30)) cs in if between 0x30 0x39 c then rest else none

abbrev pub below : ℕ → Option ℕ → Option ℕ
below bound none = none
below bound (some n) = if ltb n bound then some n else none

unfoldable pub unsigned_digits : ℕ → List ℕ → Option ℕ
unsigned_digits bound [] = none
unsigned_digits bound (c ∷ cs) = below bound (read_digits 0 (c ∷ cs))

-- `str::parse` for an unsigned type whose values are those below the bound.
unfoldable pub parse_unsigned : ℕ → List ℕ → Option ℕ
unfolding read_digits unsigned_digits
parse_unsigned bound [] = none
parse_unsigned bound (c ∷ cs) =
    if c == 0x2b then unsigned_digits bound cs else unsigned_digits bound (c ∷ cs)

-- Text in ASCII is its own bytes.
abbrev pub IsAscii : List ℕ → Type 0
IsAscii = All (λ c. c < 128)

ascii_first : (b : ℕ) → b < 128 → leb b 0x7f ≡ true
ascii_first b h = ground arith

unfoldable pub all_ascii : List ℕ → Bool
all_ascii [] = true
all_ascii (c ∷ cs) = ltb c 128 && all_ascii cs

-- The test decides it.
pub all_ascii-IsAscii : (s : List ℕ) → all_ascii s ≡ true → IsAscii s
unfolding all_ascii
all_ascii-IsAscii [] h = tt
all_ascii-IsAscii (c ∷ cs) h = (ground arith, all_ascii-IsAscii cs (ground arith))

pub from_utf8_lossy-ascii : (s : List ℕ) → IsAscii s → from_utf8_lossy s ≡ s
unfolding from_utf8_lossy utf8_rest utf8_byte utf8_first
from_utf8_lossy-ascii [] h = refl
from_utf8_lossy-ascii (b ∷ bs) h =
    rw (ascii_first b h.0) (ap (λ l. b ∷ l) (from_utf8_lossy-ascii bs h.1))

pub is_utf8-ascii : (s : List ℕ) → IsAscii s → is_utf8 s ≡ true
unfolding is_utf8 utf8_rest_ok utf8_byte utf8_first
is_utf8-ascii [] h = refl
is_utf8-ascii (b ∷ bs) h = rw (ascii_first b h.0) (is_utf8-ascii bs h.1)

-- Lines, each with its line end, before a text.
abbrev pub lines_text : List (List ℕ) → List ℕ → List ℕ
lines_text [] rest = rest
lines_text (line ∷ lines) rest = line ++ (13 ∷ 10 ∷ lines_text lines rest)
