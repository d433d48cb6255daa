-- ===== src/Config/Account.antt =====
-- crates/config/src/account/sip_account.rs: what an account's settings resolve to.
pub mod Agreements
pub mod Targets
pub mod Tests
use dee_lip.Prelude.{
  ℕ, ◌^◌, Bool, true, false, Option, none, some, List, [], ◌∷◌, ◌==◌, if◌then◌else◌, trim,
  trim_start, trim_end, is_whitespace, parse_unsigned,
}
use dee_lip.Config.Enums.{
  TransportProtocol, udp, tcp, tls, auto, MediaEncryption, match_transport, disabled, enabled, zrtp,
  dtls_srtp,
}

-- The fields of `SipAccount` that its methods read.
pub record SipAccount : Type 0 where
  pub server : List ℕ
  pub domain : Option (List ℕ)
  pub port : ℕ
  pub username : List ℕ
  pub auth_username : Option (List ℕ)
  pub sip_proxy : Option (List ℕ)
  pub media_encryption : MediaEncryption
  pub ice_enabled : Option Bool

abbrev unless_blank : List ℕ → List ℕ → List ℕ → List ℕ
unless_blank s [] d = d
unless_blank s (c ∷ cs) d = s

abbrev set_or : Option (List ℕ) → List ℕ → List ℕ
set_or none d = d
set_or (some s) d = unless_blank s (trim s) d

unfoldable pub domain_of : SipAccount → List ℕ
unfolding trim_start trim_end is_whitespace
domain_of a = set_or a.domain a.server

unfoldable pub auth_username_of : SipAccount → List ℕ
unfolding trim_start trim_end is_whitespace
auth_username_of a = set_or a.auth_username a.username

abbrev pub split_here : ℕ → ℕ → List ℕ → Option (List ℕ × List ℕ) → Option (List ℕ × List ℕ)
split_here sep c cs (some (front, back)) = some (c ∷ front, back)
split_here sep c cs none = if c == sep then some ([], cs) else none

-- `str::rsplit_once` on a character
unfoldable pub rsplit_once : ℕ → List ℕ → Option (List ℕ × List ℕ)
rsplit_once sep [] = none
rsplit_once sep (c ∷ cs) = split_here sep c cs (rsplit_once sep cs)

abbrev pub with_port : ℕ → List ℕ → List ℕ → Option ℕ → List ℕ × ℕ
with_port port proxy [] o = (proxy, port)
with_port port proxy (h ∷ hs) none = (proxy, port)
with_port port proxy (h ∷ hs) (some own) = (h ∷ hs, own)

abbrev pub proxy_target : ℕ → List ℕ → Option (List ℕ × List ℕ) → List ℕ × ℕ
proxy_target port proxy none = (proxy, port)
proxy_target port proxy (some (host, digits)) =
    with_port port proxy host (parse_unsigned (2 ^ 16) digits)

abbrev pub target_of : SipAccount → List ℕ → List ℕ × ℕ
target_of a [] = (a.server, a.port)
target_of a (c ∷ cs) = proxy_target a.port (c ∷ cs) (rsplit_once 0x3a (c ∷ cs))

abbrev pub trimmed_or_empty : Option (List ℕ) → List ℕ
trimmed_or_empty none = []
trimmed_or_empty (some s) = trim s

unfoldable pub connect_target : SipAccount → List ℕ × ℕ
unfolding trim_start trim_end is_whitespace rsplit_once parse_unsigned
connect_target a = target_of a (trimmed_or_empty a.sip_proxy)

unfoldable pub is_tls : TransportProtocol → Bool
is_tls tls = true
is_tls udp = false
is_tls tcp = false
is_tls auto = false

abbrev pub srtp_by : MediaEncryption → TransportProtocol → Bool
srtp_by match_transport t = is_tls t
srtp_by disabled t = false
srtp_by enabled t = true
srtp_by zrtp t = false
srtp_by dtls_srtp t = false

unfoldable pub wants_srtp : SipAccount → TransportProtocol → Bool
unfolding is_tls
wants_srtp a t = srtp_by a.media_encryption t

abbrev pub is_zrtp : MediaEncryption → Bool
is_zrtp zrtp = true
is_zrtp match_transport = false
is_zrtp disabled = false
is_zrtp enabled = false
is_zrtp dtls_srtp = false

unfoldable pub wants_zrtp : SipAccount → Bool
wants_zrtp a = is_zrtp a.media_encryption

abbrev pub is_dtls_srtp : MediaEncryption → Bool
is_dtls_srtp dtls_srtp = true
is_dtls_srtp match_transport = false
is_dtls_srtp disabled = false
is_dtls_srtp enabled = false
is_dtls_srtp zrtp = false

unfoldable pub wants_dtls_srtp : SipAccount → Bool
wants_dtls_srtp a = is_dtls_srtp a.media_encryption

abbrev ice_or : Option Bool → Bool → Bool
ice_or none default = default
ice_or (some b) default = b

unfoldable pub wants_ice : SipAccount → Bool → Bool
wants_ice a global_default = ice_or a.ice_enabled global_default
