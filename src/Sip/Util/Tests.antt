-- ===== src/Sip/Util/Tests.antt =====
-- The theorems of util.rs at concrete inputs.
use dee_lip.Prelude.{ℕ, ◌≡◌, refl, some, List, ◌∷◌, ◌++◌, codes, ok, panic, arith}
use dee_lip.Sip.Util.{find_char, parse_uri, encode_replaces_param}
use dee_lip.Sip.Util.Uri.{parse_uri-panic_iff, parse_uri-bracketed}
use dee_lip.Sip.Util.Replaces.{escape_all, encode_replaces_param-escape_all}

-- The closing bracket before the opening one.
abbrev twisted : List ℕ
twisted = codes "a>b<c"

parse_uri-panic_iff_example : parse_uri twisted ≡ panic
unfolding find_char
parse_uri-panic_iff_example = (parse_uri-panic_iff twisted).1 (3, 1, refl, refl, omega arith)

parse_uri-bracketed_example :
    parse_uri (codes "Bob " ++ (0x3c ∷ (codes "sip:bob@h" ++ (0x3e ∷ codes ";tag=1"))))
    ≡ ok (some (codes "sip:bob@h"))
unfolding find_char
parse_uri-bracketed_example =
    parse_uri-bracketed (codes "Bob ") (codes "sip:bob@h") (codes ";tag=1") refl refl refl

encode_replaces_param-escape_all_example :
    encode_replaces_param (codes "a@b;c%3B") ≡ escape_all (codes "a@b;c%3B")
encode_replaces_param-escape_all_example = encode_replaces_param-escape_all (codes "a@b;c%3B")
