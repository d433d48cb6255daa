-- ===== src/Sip/Auth.antt =====
-- crates/sip-core/src/wire/auth.rs: digest authentication. The MD5 digest of a text, in hexadecimal, comes from
-- a crate: it is the parameter `md5_hex`. The map of a challenge's parameters is the list of what was inserted,
-- the newest first.
pub mod Params
pub mod Blanks
pub mod Challenge
pub mod Tests
use mathlib.Core.List.{map}
use dee_lip.Prelude.{
  ℕ, zero, suc, ◌+◌, Bool, false, not, ◌&&◌, Option, none, some, List, [], ◌∷◌, ◌++◌, length, take,
  drop, ◌==◌, if◌then◌else◌, bytes_eq, codes, to_ascii_lowercase, trim, strip_prefix,
}
use dee_lip.Sip.Framing.{onto_first}
use dee_lip.Sip.Util.{find_char, or_text}

module _ (md5_hex : List ℕ → List ℕ) where
  abbrev pub colon : List ℕ → List ℕ → List ℕ
  colon a b = a ++ (0x3a ∷ b)

  unfoldable pub compute_digest_response :
      (username realm password method uri nonce : List ℕ) → List ℕ
  compute_digest_response username realm password method uri nonce =
      let ha1 = md5_hex (colon username (colon realm password)) in
      let ha2 = md5_hex (colon method uri) in md5_hex (colon ha1 (colon nonce ha2))

unfoldable pub build_auth_header : (username realm nonce uri response : List ℕ) → List ℕ
build_auth_header username realm nonce uri response =
    codes "Authorization: Digest username=\""
    ++ (username
        ++ (codes "\", realm=\""
            ++ (realm
                ++ (codes "\", nonce=\""
                    ++ (nonce
                        ++ (codes "\", uri=\""
                            ++ (uri
                                ++ (codes "\", response=\""
                                    ++ (response ++ codes "\", algorithm=MD5")))))))))

pub record DigestChallenge : Type 0 where
  pub realm : List ℕ
  pub nonce : List ℕ
  pub algorithm : List ℕ
  pub opaque : Option (List ℕ)

-- The pieces between the commas that stand outside quotes.
unfoldable pub split_pairs : Bool → List ℕ → List (List ℕ)
split_pairs quoted [] = [] ∷ []
split_pairs quoted (c ∷ cs) =
    let rest = split_pairs (if c == 0x22 then not quoted else quoted) cs in
    if c == 0x2c && not quoted then [] ∷ rest else onto_first c rest

-- `trim_start_matches` and `trim_end_matches` of a character, and `trim_matches`
unfoldable pub trim_start_char : ℕ → List ℕ → List ℕ
trim_start_char sep [] = []
trim_start_char sep (c ∷ cs) =
    let rest = trim_start_char sep cs in if c == sep then rest else c ∷ cs

unfoldable pub trim_end_char : ℕ → List ℕ → List ℕ
trim_end_char sep [] = []
trim_end_char sep (c ∷ cs) = cut (trim_end_char sep cs)
  where
    cut : List ℕ → List ℕ
    cut [] = if c == sep then [] else c ∷ []
    cut (d ∷ ds) = c ∷ d ∷ ds

unfoldable pub trim_matches : ℕ → List ℕ → List ℕ
unfolding trim_start_char trim_end_char
trim_matches sep s = trim_end_char sep (trim_start_char sep s)

abbrev pub kv_at : Option ℕ → List ℕ → List (List ℕ × List ℕ) → List (List ℕ × List ℕ)
kv_at none s m = m
kv_at (some pos) s m =
    (map to_ascii_lowercase (trim (take pos s)), trim_matches 0x22 (trim (drop (pos + 1) s))) ∷ m

unfoldable pub insert_kv : List (List ℕ × List ℕ) → List ℕ → List (List ℕ × List ℕ)
unfolding trim_matches
insert_kv m s = kv_at (find_char 0x3d (trim s)) (trim s) m

unfoldable pub insert_all : List (List ℕ) → List (List ℕ × List ℕ) → List (List ℕ × List ℕ)
unfolding insert_kv
insert_all [] m = m
insert_all (s ∷ ss) m = insert_all ss (insert_kv m s)

unfoldable pub parse_kv_pairs : List ℕ → List (List ℕ × List ℕ)
unfolding split_pairs insert_all
parse_kv_pairs s = insert_all (split_pairs false s) []

unfoldable pub get : List ℕ → List (List ℕ × List ℕ) → Option (List ℕ)
get key [] = none
get key (e ∷ es) = let rest = get key es in if bytes_eq e.0 key then some e.1 else rest

-- `trim_start_matches` of a text: the fuel is the length of the text, and each step takes at least one
-- character off.
unfoldable pub trim_start_matches : List ℕ → ℕ → List ℕ → List ℕ
trim_start_matches p zero s = s
trim_start_matches p (suc fuel) s = elim (strip_prefix p s) [
  | none ↦ s
  | some rest ↦ trim_start_matches p fuel rest
]

abbrev pub trimmed : List ℕ → List ℕ → List ℕ
trimmed p s = trim_start_matches p (length s) s

abbrev pub challenge_of :
    Option (List ℕ) → Option (List ℕ) → List (List ℕ × List ℕ) → Option DigestChallenge
challenge_of none n m = none
challenge_of (some realm) none m = none
challenge_of (some realm) (some n) m = some (record {
  realm = realm;
  nonce = n;
  algorithm = or_text (get (codes "algorithm") m) (codes "MD5");
  opaque = get (codes "opaque") m;
})

-- `DigestChallenge::parse`
unfoldable pub parse_challenge : List ℕ → Option DigestChallenge
unfolding parse_kv_pairs get trim_start_matches
parse_challenge header =
    let m = parse_kv_pairs (trim (trimmed (codes "digest") (trimmed (codes "Digest") header))) in
    challenge_of (get (codes "realm") m) (get (codes "nonce") m) m

module _ (md5_hex : List ℕ → List ℕ) where
  abbrev pub response_to :
      (username password method uri : List ℕ) → Option DigestChallenge → Option (List ℕ)
  response_to username password method uri none = none
  response_to username password method uri (some c) = some (
      build_auth_header username c.realm c.nonce uri
        (compute_digest_response md5_hex username c.realm password method uri c.nonce))

  unfoldable pub build_challenge_response :
      (username password method uri challenge_header : List ℕ) → Option (List ℕ)
  unfolding compute_digest_response build_auth_header parse_challenge
  build_challenge_response username password method uri challenge_header =
      response_to username password method uri (parse_challenge challenge_header)
