-- ===== src/Sip/Auth/Tests.antt =====
-- Runs of wire/auth.rs.
use dee_lip.Prelude.{◌≡◌, refl, List, [], ◌∷◌, All, some, codes, ℕ, arith}
use dee_lip.Sip.Util.{find_char}
use dee_lip.Sip.Auth.{build_challenge_response}
use dee_lip.Sip.Auth.Params.{Param, IsParam}
use dee_lip.Sip.Auth.Challenge.{
  challenge_text, in_quotes, plain, answer_for, last_of, build_challenge_response-challenge_text,
}

abbrev as_is : List ℕ → List ℕ
as_is text = text

abbrev realm_first : Param
realm_first = in_quotes (codes "Realm") (codes "pbx, 1")

abbrev more : List Param
more = plain (codes "algorithm") (codes "MD5") ∷ in_quotes (codes "nonce") (codes "n0") ∷ []

realm_first-IsParam : IsParam realm_first
unfolding find_char
realm_first-IsParam = record { named = refl; letters = omega arith; valued = refl }

more-IsParam : All IsParam more
unfolding find_char
more-IsParam = (
  record { named = refl; letters = omega arith; valued = ground arith },
  (record { named = refl; letters = omega arith; valued = refl }, tt),
)

realm_found : last_of (codes "realm") (realm_first ∷ more) ≡ some (codes "pbx, 1")
unfolding last_of
realm_found = refl

build_challenge_response-challenge_text_example :
    build_challenge_response as_is
      (codes "alice")
      (codes "secret")
      (codes "INVITE")
      (codes "sip:bob@example.org")
      (challenge_text realm_first more)
    ≡ answer_for as_is
        (codes "alice")
        (codes "secret")
        (codes "INVITE")
        (codes "sip:bob@example.org")
        (last_of (codes "realm") (realm_first ∷ more))
        (last_of (codes "nonce") (realm_first ∷ more))
build_challenge_response-challenge_text_example =
    build_challenge_response-challenge_text as_is (codes "alice") (codes "secret") (codes "INVITE")
      (codes "sip:bob@example.org") realm_first more realm_first-IsParam more-IsParam
