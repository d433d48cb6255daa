-- ===== src/Config/Account/Targets.antt =====
-- Where an account connects, by crates/config/src/account/sip_account.rs.
use dee_lip.Prelude.{
  ℕ, ◌<◌, ◌^◌, ◌≡◌, refl, false, none, some, List, [], ◌∷◌, ◌++◌, ◌==◌, arith, All, trim, to_string,
  parse_unsigned-to_string, IsDigit, to_string-digits,
}
use dee_lip.Config.Account.{SipAccount, rsplit_once, target_of, connect_target}

not_colon : (c : ℕ) → IsDigit c → (c == 0x3a) ≡ false
not_colon c h = ground arith

rsplit_once-digits : (ds : List ℕ) → All IsDigit ds → rsplit_once 0x3a ds ≡ none
unfolding rsplit_once
rsplit_once-digits [] h = refl
rsplit_once-digits (c ∷ cs) (h, hs) = rw (rsplit_once-digits cs hs, not_colon c h) refl

rsplit_once-colon :
    (host ds : List ℕ) → All IsDigit ds → rsplit_once 0x3a (host ++ (0x3a ∷ ds)) ≡ some (host, ds)
unfolding rsplit_once
rsplit_once-colon [] ds h = rw (rsplit_once-digits ds h) refl
rsplit_once-colon (c ∷ cs) ds h = rw (rsplit_once-colon cs ds h) refl

module _ (a : SipAccount) (c : ℕ) (cs : List ℕ) (n : ℕ) (fits : n < 2 ^ 16) where
  target_of-colon : target_of a ((c ∷ cs) ++ (0x3a ∷ to_string n)) ≡ (c ∷ cs, n)
  target_of-colon =
      rw
        (
          rsplit_once-colon (c ∷ cs) (to_string n) (to_string-digits n),
          parse_unsigned-to_string (2 ^ 16) n fits,
        )
        refl

-- An account whose proxy is set to a host of one character or more, a colon and a 16-bit port in decimal,
-- without blanks around, connects to that host and that port, whatever colons the host has itself.
pub connect_target-proxy :
    (a : SipAccount) (c : ℕ) (cs : List ℕ) (n : ℕ)
    → n < 2 ^ 16
    → a.sip_proxy ≡ some ((c ∷ cs) ++ (0x3a ∷ to_string n))
    → trim ((c ∷ cs) ++ (0x3a ∷ to_string n)) ≡ (c ∷ cs) ++ (0x3a ∷ to_string n)
    → connect_target a ≡ (c ∷ cs, n)
unfolding connect_target
connect_target-proxy a c cs n fits set tight = rw (set, tight) (target_of-colon a c cs n fits)
