-- ===== src/Sip/Auth/Challenge.antt =====
-- What the code of wire/auth.rs answers to a challenge of any parameters.
use mathlib.Core.List.{map}
use dee_lip.Prelude.{
  ℕ, ◌+◌, ◌≡◌, refl, ap, sym, ◌∙◌, Bool, true, false, Option, none, some, List, [], ◌∷◌, ◌++◌,
  length, drop, All, arith, take-append_exact, drop-append_exact, bytes_eq, codes, trim, trim_start,
  is_whitespace, strip_prefix, to_ascii_lowercase, append_assoc, if◌then◌else◌,
}
use dee_lip.Sip.Util.{find_char, or_else}
use dee_lip.Sip.Util.Uri.{moved, find_char-append, find_char-here}
use dee_lip.Sip.Auth.{
  insert_kv, insert_all, parse_kv_pairs, get, trim_start_matches, parse_challenge, kv_at,
  challenge_of, response_to, build_challenge_response, trim_matches, build_auth_header,
  compute_digest_response,
}
use dee_lip.Sip.Auth.Params.{
  Param, IsParam, value_then, param_then, others, pieces, split_pairs-params,
}
use dee_lip.Sip.Auth.Blanks.{trim-params, trim-name, trim_matches-value, find_char-letters}

-- A challenge: one parameter and any others.
unfoldable pub challenge_text : Param → List Param → List ℕ
unfolding others
challenge_text p ps = codes "Digest " ++ param_then p (others ps)

abbrev pub lower_name : Param → List ℕ
lower_name p = map to_ascii_lowercase p.name

-- The value of the last parameter of a name.
unfoldable pub last_of : List ℕ → List Param → Option (List ℕ)
unfolding bytes_eq
last_of key [] = none
last_of key (p ∷ ps) =
    or_else (last_of key ps) (if bytes_eq (lower_name p) key then some p.value else none)

unfoldable entries : List Param → List (List ℕ × List ℕ) → List (List ℕ × List ℕ)
entries [] m = m
entries (p ∷ ps) m = entries ps ((lower_name p, p.value) ∷ m)

-- A name and a value, as they are entered.
entered :
    (p : Param) (m : List (List ℕ × List ℕ))
    → IsParam p
    → kv_at (find_char 0x3d (param_then p [])) (param_then p []) m ≡ (lower_name p, p.value) ∷ m
entered p m g =
    ap (λ o. kv_at o (param_then p []) m) found
    ∙ ap
        (λ n.
          (map to_ascii_lowercase n, trim_matches 0x22 (trim (drop (at + 1) (param_then p []))))
          ∷ m)
        (ap trim (take-append_exact p.name _ at refl) ∙ trim-name p g)
    ∙ ap (λ v. (lower_name p, v) ∷ m)
        (ap (λ t. trim_matches 0x22 (trim t)) behind ∙ trim_matches-value p.quoted p.value g.valued)
  where
    at : ℕ
    at = length p.name

    tail : List ℕ
    tail = value_then p.quoted p.value []

    found : find_char 0x3d (param_then p []) ≡ some (length p.name)
    found =
        find_char-append 0x3d p.name (0x3d ∷ tail) (find_char-letters p.name g.letters)
        ∙ ap (moved (length p.name)) (find_char-here 0x3d tail)
        ∙ ap some (omega arith)

    one_longer : (s : List ℕ) → length (s ++ (0x3d ∷ [])) ≡ length s + 1
    one_longer [] = refl
    one_longer (c ∷ cs) = let ih = one_longer cs in omega arith

    behind : drop (length p.name + 1) (param_then p []) ≡ tail
    behind =
        ap (drop (length p.name + 1)) (sym (append_assoc p.name (0x3d ∷ []) tail))
        ∙ drop-append_exact (p.name ++ (0x3d ∷ [])) tail (length p.name + 1) (one_longer p.name)

insert_kv-param :
    (p : Param) (m : List (List ℕ × List ℕ))
    → IsParam p
    → insert_kv m (param_then p []) ≡ (lower_name p, p.value) ∷ m
unfolding insert_kv others
insert_kv-param p m g =
    ap (λ t. kv_at (find_char 0x3d t) t m) (trim-params p [] g tt) ∙ entered p m g

insert_kv-later :
    (p : Param) (m : List (List ℕ × List ℕ))
    → IsParam p
    → insert_kv m (0x20 ∷ param_then p []) ≡ (lower_name p, p.value) ∷ m
unfolding insert_kv others trim_start is_whitespace
insert_kv-later p m g =
    ap (λ t. kv_at (find_char 0x3d t) t m) (trim-params p [] g tt) ∙ entered p m g

insert_all-pieces :
    (ps : List Param) (m : List (List ℕ × List ℕ))
    → All IsParam ps
    → insert_all (pieces ps) m ≡ entries ps m
unfolding insert_all pieces entries
insert_all-pieces [] m gs = refl
insert_all-pieces (p ∷ ps) m gs =
    ap (insert_all (pieces ps)) (insert_kv-later p m gs.0)
    ∙ insert_all-pieces ps ((lower_name p, p.value) ∷ m) gs.1

parse_kv_pairs-params :
    (p : Param) (ps : List Param)
    → IsParam p
    → All IsParam ps
    → parse_kv_pairs (param_then p (others ps)) ≡ entries (p ∷ ps) []
unfolding parse_kv_pairs insert_all entries
parse_kv_pairs-params p ps g gs =
    ap (λ l. insert_all l []) (split_pairs-params p ps g gs)
    ∙ ap (insert_all (pieces ps)) (insert_kv-param p [] g)
    ∙ insert_all-pieces ps ((lower_name p, p.value) ∷ []) gs

by_order :
    (later here : Option (List ℕ)) (rest : Option (List ℕ))
    → or_else later (or_else here rest) ≡ or_else (or_else later here) rest
by_order none here rest = refl
by_order (some v) here rest = refl

get-entry :
    (b : Bool) (v : List ℕ) (rest : Option (List ℕ))
    → (if b then some v else rest) ≡ or_else (if b then some v else none) rest
get-entry true v rest = refl
get-entry false v rest = refl

get-entries :
    (key : List ℕ) (ps : List Param) (m : List (List ℕ × List ℕ))
    → get key (entries ps m) ≡ or_else (last_of key ps) (get key m)
unfolding get entries last_of
get-entries key [] m = refl
get-entries key (p ∷ ps) m =
    get-entries key ps ((lower_name p, p.value) ∷ m)
    ∙ ap (or_else (last_of key ps)) (get-entry (bytes_eq (lower_name p) key) p.value (get key m))
    ∙ by_order (last_of key ps) _ (get key m)

or_else-none : (o : Option (List ℕ)) → or_else o none ≡ o
or_else-none none = refl
or_else-none (some v) = refl

get-params : (key : List ℕ) (ps : List Param) → get key (entries ps []) ≡ last_of key ps
unfolding get
get-params key ps = get-entries key ps [] ∙ or_else-none (last_of key ps)

-- Texts with colons between them.
unfoldable pub joined : List (List ℕ) → List ℕ
joined [] = []
joined (s ∷ []) = s
joined (s ∷ t ∷ ts) = s ++ (0x3a ∷ joined (t ∷ ts))

-- The digest of RFC 2617 without a quality of protection: H(H(A1):nonce:H(A2)).
unfoldable pub digest :
    (List ℕ → List ℕ) → (username realm password method uri nonce : List ℕ) → List ℕ
unfolding joined
digest h username realm password method uri nonce = h (
    joined
      (h (joined (username ∷ realm ∷ password ∷ [])) ∷ nonce ∷ h (joined (method ∷ uri ∷ [])) ∷ []))

abbrev pub in_quotes : (name value : List ℕ) → Param
in_quotes name value = record { name = name; value = value; quoted = true }

abbrev pub plain : (name value : List ℕ) → Param
plain name value = record { name = name; value = value; quoted = false }

-- The credentials for a realm and a nonce.
unfoldable pub credentials_text :
    (List ℕ → List ℕ) → (username password method uri realm nonce : List ℕ) → List ℕ
unfolding others digest
credentials_text h username password method uri realm nonce =
    codes "Authorization: Digest "
    ++ param_then (in_quotes (codes "username") username) (
        others (
          in_quotes (codes "realm") realm
          ∷ in_quotes (codes "nonce") nonce
          ∷ in_quotes (codes "uri") uri
          ∷ in_quotes (codes "response") (digest h username realm password method uri nonce)
          ∷ plain (codes "algorithm") (codes "MD5")
          ∷ []))

abbrev pub answer_for :
    (List ℕ → List ℕ)
    → (username password method uri : List ℕ) → (realm nonce : Option (List ℕ)) → Option (List ℕ)
answer_for h username password method uri none n = none
answer_for h username password method uri (some realm) none = none
answer_for h username password method uri (some realm) (some nonce) =
    some (credentials_text h username password method uri realm nonce)

module _ (h : List ℕ → List ℕ) (username password method uri : List ℕ) where
  answered :
      (realm nonce : Option (List ℕ)) (m : List (List ℕ × List ℕ))
      → response_to h username password method uri (challenge_of realm nonce m)
        ≡ answer_for h username password method uri realm nonce
  unfolding credentials_text digest joined others build_auth_header compute_digest_response
  answered none n m = refl
  answered (some realm) none m = refl
  answered (some realm) (some nonce) m = refl

  -- For a challenge of the scheme Digest with any parameters, each with a name of letters and a value that is
  -- either in quotation marks, without one inside, or plain (visible ASCII without quotation marks and
  -- commas), separated by a comma and a blank: the answer is made of the values of the last `realm` and the last
  -- `nonce`, whatever the case of these names, the order, and the other parameters. It carries the user
  -- name, these two, the URI, and H(H(user:realm:password):nonce:H(method:URI)), H being the parameter for
  -- MD5. Where one of the two is missing, there is no answer.
  pub build_challenge_response-challenge_text :
      (p : Param) (ps : List Param)
      → IsParam p
      → All IsParam ps
      → build_challenge_response h username password method uri (challenge_text p ps)
        ≡ answer_for h username password method uri
            (last_of (codes "realm") (p ∷ ps))
            (last_of (codes "nonce") (p ∷ ps))
  unfolding build_challenge_response parse_challenge challenge_text trim_start_matches strip_prefix
      trim_start is_whitespace
  build_challenge_response-challenge_text p ps g gs =
      ap read (ap parse_kv_pairs (trim-params p ps g gs) ∙ parse_kv_pairs-params p ps g gs)
      ∙ answered (get (codes "realm") (entries (p ∷ ps) []))
          (get (codes "nonce") (entries (p ∷ ps) [])) (entries (p ∷ ps) [])
      ∙ ap
          (λ r.
            answer_for h username password method uri r (get (codes "nonce") (entries (p ∷ ps) [])))
          (get-params (codes "realm") (p ∷ ps))
      ∙ ap (answer_for h username password method uri (last_of (codes "realm") (p ∷ ps)))
          (get-params (codes "nonce") (p ∷ ps))
    where
      read : List (List ℕ × List ℕ) → Option (List ℕ)
      read m =
          response_to h username password method uri
            (challenge_of (get (codes "realm") m) (get (codes "nonce") m) m)
