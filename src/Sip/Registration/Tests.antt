-- ===== src/Sip/Registration/Tests.antt =====
-- Runs of registration.rs.
use dee_lip.Prelude.{
  ℕ, ◌≡◌, refl, true, false, none, List, [], ◌∷◌, ◌++◌, codes, is_utf8, from_utf8_lossy,
}
use dee_lip.Sip.Util.{find_char}
use dee_lip.Sip.Builders.Tests.{desk_phone}
use dee_lip.Sip.Registration.{Registrar, Line, registered, fails_with, permanent, register_once}
use dee_lip.Sip.Registration.Rounds.{IsOrderly, register_once-IsOrderly}

abbrev registrar : Registrar
registrar = record {
  stack = desk_phone;
  domain = codes "example.org";
  register_expires = 3600;
  reg_from_tag = codes "a7";
  reg_cseq = 1;
  allow_ip_rewrite = true;
  public_address_is_set = false;
}

abbrev reply : List ℕ → List ℕ
reply line =
    line
    ++ (13
        ∷ 10
        ∷ (codes "Via: SIP/2.0/UDP 10.0.0.2;received=192.0.2.7" ++ (13 ∷ 10 ∷ 13 ∷ 10 ∷ [])))

abbrev line_with : List ℕ → Line
line_with text = record {
  md5_hex = λ t. t;
  branch = codes "z1";
  next_branch = codes "z2";
  send_error = none;
  next_send_error = none;
  arriving = reply text ∷ [];
  arriving_next = [];
}

unknown_user :
    (register_once (line_with (codes "SIP/2.0 404 Not Found")) registrar).result
    ≡ fails_with (permanent 404)
unfolding register_once is_utf8 from_utf8_lossy find_char
unknown_user = refl

address_adopted :
    (register_once (line_with (codes "SIP/2.0 200 OK")) registrar).after.stack.advertised_ip
    ≡ codes "192.0.2.7"
unfolding register_once is_utf8 from_utf8_lossy find_char
address_adopted = refl

default_expires :
    (register_once (line_with (codes "SIP/2.0 200 OK")) registrar).result ≡ registered 3600
unfolding register_once is_utf8 from_utf8_lossy find_char
default_expires = refl

register_once-IsOrderly_example :
    IsOrderly registrar (register_once (line_with (codes "SIP/2.0 404 Not Found")) registrar)
register_once-IsOrderly_example =
    register_once-IsOrderly (line_with (codes "SIP/2.0 404 Not Found")) registrar
