-- ===== src/Sip/Util.antt =====
-- crates/sip-core/src/wire/util.rs: the parsers of header values. Texts are lists of characters; an index
-- that the code takes in bytes is taken in characters here, which cut a text at the same places.
pub mod Uri
pub mod Replaces
pub mod Tests
use dee_lip.Prelude.{
  ℕ, suc, ◌+◌, ◌^◌, Bool, true, false, Option, none, some, List, [], ◌∷◌, ◌++◌, drop, slice,
  Outcome, ok, panic, ◌>>=◌, ◌==◌, if◌then◌else◌, codes, trim, strip_prefix, parse_unsigned,
  to_ascii_lowercase,
}
use mathlib.Core.List.{map}

abbrev onto_first : ℕ → List (List ℕ) → List (List ℕ)
onto_first c [] = (c ∷ []) ∷ []
onto_first c (l ∷ ls) = (c ∷ l) ∷ ls

-- `str::split` on a character
unfoldable pub split_on : ℕ → List ℕ → List (List ℕ)
split_on sep [] = [] ∷ []
split_on sep (c ∷ cs) =
    let rest = split_on sep cs in if c == sep then [] ∷ rest else onto_first c rest

abbrev pub one_more : Option ℕ → Option ℕ
one_more none = none
one_more (some n) = some (suc n)

-- `str::find` of a character
unfoldable pub find_char : ℕ → List ℕ → Option ℕ
find_char x [] = none
find_char x (c ∷ cs) = let rest = find_char x cs in if c == x then some 0 else one_more rest

abbrev has_prefix : List ℕ → List ℕ → Bool
has_prefix p cs = elim (strip_prefix p cs) [ none ↦ false | some _ ↦ true ]

-- The text from the first occurrence of the pattern on: `s.find(p).map(|i| &s[i..])`.
unfoldable pub from_first : List ℕ → List ℕ → Option (List ℕ)
from_first p [] = none
from_first p (c ∷ cs) =
    let rest = from_first p cs in if has_prefix p (c ∷ cs) then some (c ∷ cs) else rest

abbrev first_of : List (List ℕ) → List ℕ
first_of [] = []
first_of (l ∷ ls) = l

abbrev pub or_else {ℓ} : {A : Type ℓ} → Option A → Option A → Option A
or_else (some v) o = some v
or_else none o = o

abbrev pub or_text : Option (List ℕ) → List ℕ → List ℕ
or_text (some v) d = v
or_text none d = d

unfoldable pub parse_tag_in : List (List ℕ) → Option (List ℕ)
parse_tag_in [] = none
parse_tag_in (part ∷ parts) = or_else (strip_prefix (codes "tag=") (trim part)) (parse_tag_in parts)

unfoldable pub parse_tag : List ℕ → Option (List ℕ)
unfolding split_on parse_tag_in
parse_tag header = parse_tag_in (split_on 0x3b header)

-- What `parse_uri` does without a pair of angle brackets.
unfoldable pub bare_uri : List ℕ → List ℕ
unfolding split_on from_first
bare_uri header =
    let candidate = trim (first_of (split_on 0x3b header)) in
    or_text
      (or_else (from_first (codes "sip:") candidate)
        (or_else (from_first (codes "sips:") candidate) (from_first (codes "tel:") candidate)))
      candidate

abbrev pub bracketed : List ℕ → Option ℕ → Option ℕ → Outcome (Unit {0}) (Option (List ℕ))
bracketed header (some start) (some end) = slice header (start + 1) end >>= λ uri. ok (some uri)
bracketed header _ _ = ok (some (bare_uri header))

unfoldable pub parse_uri : List ℕ → Outcome (Unit {0}) (Option (List ℕ))
unfolding find_char bare_uri
parse_uri header = bracketed header (find_char 0x3c header) (find_char 0x3e header)

abbrev interval_of : Option ℕ → Option (List ℕ) → Option (ℕ × Option (List ℕ))
interval_of none r = none
interval_of (some n) r = some (n, r)

abbrev lowered : Option (List ℕ) → Option (List ℕ) → Option (List ℕ)
lowered (some v) r = some (map to_ascii_lowercase (trim v))
lowered none r = r

-- The loop over the parameters: the last `refresher=` counts.
unfoldable pub refresher_in : List (List ℕ) → Option (List ℕ) → Option (List ℕ)
refresher_in [] r = r
refresher_in (part ∷ parts) r =
    refresher_in parts (lowered (strip_prefix (codes "refresher=") (trim part)) r)

abbrev session_of : List (List ℕ) → Option (ℕ × Option (List ℕ))
session_of [] = none
session_of (first ∷ parts) =
    interval_of (parse_unsigned (2 ^ 32) (trim first)) (refresher_in parts none)

unfoldable pub parse_session_expires : List ℕ → Option (ℕ × Option (List ℕ))
unfolding split_on refresher_in
parse_session_expires header = session_of (split_on 0x3b header)

-- `str::replace` of a character
unfoldable pub replace_char : ℕ → List ℕ → List ℕ → List ℕ
replace_char x by [] = []
replace_char x by (c ∷ cs) = (if c == x then by else c ∷ []) ++ replace_char x by cs

unfoldable pub encode_replaces_param : List ℕ → List ℕ
unfolding replace_char
encode_replaces_param s = replace_char 0x40 (codes "%40") (
    replace_char 0x2c (codes "%2C") (
      replace_char 0x3d (codes "%3D")
        (replace_char 0x3b (codes "%3B") (replace_char 0x25 (codes "%25") s))))
