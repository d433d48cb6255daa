-- ===== src/Config/Account/Agreements.antt =====
-- How an account's media is keyed, by crates/config/src/account/sip_account.rs.
use dee_lip.Prelude.{◌≡◌, refl, Bool, true, false, ◌&&◌, ◌||◌}
use dee_lip.Config.Enums.{
  TransportProtocol, MediaEncryption, match_transport, disabled, enabled, zrtp, dtls_srtp,
}
use dee_lip.Config.Account.{
  SipAccount, srtp_by, is_zrtp, is_dtls_srtp, is_tls, wants_srtp, wants_zrtp, wants_dtls_srtp,
}

and-false : (b : Bool) → (b && false) ≡ false
and-false true = refl
and-false false = refl

srtp_by-alone :
    (m : MediaEncryption) (t : TransportProtocol)
    → (srtp_by m t && (is_zrtp m || is_dtls_srtp m)) ≡ false
srtp_by-alone match_transport t = and-false (is_tls t)
srtp_by-alone disabled t = refl
srtp_by-alone enabled t = refl
srtp_by-alone zrtp t = refl
srtp_by-alone dtls_srtp t = refl

-- Keys in the session description are never offered together with an agreement in the media's path.
wants_srtp-alone :
    (a : SipAccount) (t : TransportProtocol)
    → (wants_srtp a t && (wants_zrtp a || wants_dtls_srtp a)) ≡ false
unfolding wants_srtp wants_zrtp wants_dtls_srtp
wants_srtp-alone a t = srtp_by-alone a.media_encryption t
