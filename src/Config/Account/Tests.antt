-- ===== src/Config/Account/Tests.antt =====
-- Runs of account/sip_account.rs.
use dee_lip.Prelude.{
  ◌≡◌, refl, true, none, some, ◌∷◌, ◌++◌, codes, to_string, arith, trim_start, trim_end,
  is_whitespace,
}
use dee_lip.Config.Enums.{tls, match_transport}
use dee_lip.Config.Account.{SipAccount, connect_target, wants_srtp}
use dee_lip.Config.Account.Targets.{connect_target-proxy}

abbrev account : SipAccount
account = record {
  server = codes "example.org";
  domain = none;
  port = 5060;
  username = codes "alice";
  auth_username = none;
  sip_proxy = some (codes "[::1]" ++ (0x3a ∷ to_string 5070));
  media_encryption = match_transport;
  ice_enabled = none;
}

secured : wants_srtp account tls ≡ true
unfolding wants_srtp
secured = refl

connect_target-proxy_example : connect_target account ≡ (codes "[::1]", 5070)
unfolding to_string trim_start trim_end is_whitespace
connect_target-proxy_example =
    connect_target-proxy account 0x5b (codes "::1]") 5070 (omega arith) refl refl
