-- ===== src/Sip/Builders.antt =====
-- crates/sip-core/src/client/builders.rs and the parts of client/mod.rs and call/lifecycle/mod.rs that they
-- read: the texts of responses and of ACK requests. A text is written line by line.
pub mod Echo
pub mod Tests
use dee_lip.Prelude.{
  ℕ, ◌+◌, Bool, true, false, not, ◌&&◌, Option, none, some, List, [], ◌∷◌, ◌++◌, length,
  if◌then◌else◌, codes, lines_text, to_string,
}
use dee_lip.Sip.Util.{from_first, or_text}
use dee_lip.Sip.Message.{SipMessage, header, into_bytes}

-- The transports that a connection can have: `resolved_transport` is never `Auto`.
pub data ResolvedTransport : Type 0 where
  udp tcp tls : ResolvedTransport

-- What the builders read of a `SipStack` and its account. An address is a text.
pub record SipStack : Type 0 where
  pub identity_host : List ℕ
  pub username : List ℕ
  pub display_name : Option (List ℕ)
  pub auth_username : Option (List ℕ)
  pub password : List ℕ
  pub hide_caller_id : Bool
  pub session_timers_enabled : Bool
  pub advertised_ip : List ℕ
  pub local_ip : List ℕ
  pub local_port : ℕ
  pub server_addr : List ℕ
  pub resolved_transport : ResolvedTransport
  pub reg_call_id : List ℕ
  pub user_agent : List ℕ

unfoldable pub via_proto_str : ResolvedTransport → List ℕ
via_proto_str udp = codes "UDP"
via_proto_str tcp = codes "TCP"
via_proto_str tls = codes "TLS"

unfoldable pub contact_transport_param_str : ResolvedTransport → List ℕ
contact_transport_param_str udp = []
contact_transport_param_str tcp = codes ";transport=tcp"
contact_transport_param_str tls = codes ";transport=tls"

abbrev pub display : SipStack → List ℕ
display st = or_text st.display_name st.username

-- `str::len`, in bytes
abbrev pub byte_len : List ℕ → ℕ
byte_len s = length (into_bytes s)

abbrev pub is_empty : List ℕ → Bool
is_empty [] = true
is_empty (c ∷ cs) = false

abbrev pub contains : List ℕ → List ℕ → Bool
contains s part = elim (from_first part s) [ none ↦ false | some _ ↦ true ]

-- `req.header(name).unwrap_or("")`
abbrev pub field : SipMessage → List ℕ → List ℕ
field req name = or_text (header req name) []

abbrev pub to_line : List ℕ → List ℕ → List ℕ
to_line to tag =
    if not (is_empty tag) && not (contains to (codes ";tag="))
    then to ++ (codes ";tag=" ++ tag)
    else to

abbrev pub body_lines : List ℕ → List (List ℕ)
body_lines body =
    if is_empty body
    then (codes "Content-Length: " ++ to_string (byte_len body)) ∷ []
    else codes "Content-Type: application/sdp"
      ∷ (codes "Content-Length: " ++ to_string (byte_len body))
      ∷ []

-- `build_response` and `build_response_with_body`
unfoldable pub build_response : SipStack → SipMessage → ℕ → List ℕ → List ℕ → List ℕ → List ℕ
unfolding header from_first to_string into_bytes
build_response st req code phrase to_tag body =
    lines_text
      ((codes "SIP/2.0 " ++ (to_string code ++ (0x20 ∷ phrase)))
        ∷ (codes "Via: " ++ field req (codes "Via"))
        ∷ (codes "To: " ++ to_line (field req (codes "To")) to_tag)
        ∷ (codes "From: " ++ field req (codes "From"))
        ∷ (codes "Call-ID: " ++ field req (codes "Call-ID"))
        ∷ (codes "CSeq: " ++ field req (codes "CSeq"))
        ∷ (codes "User-Agent: " ++ st.user_agent)
        ∷ body_lines body)
      (13 ∷ 10 ∷ body)

-- The line of `build_via`, without its line end.
unfoldable pub build_via : SipStack → List ℕ → List ℕ
unfolding via_proto_str to_string
build_via st branch =
    codes "Via: SIP/2.0/"
    ++ (via_proto_str st.resolved_transport
        ++ (0x20
            ∷ (st.local_ip
                ++ (0x3a
                    ∷ (to_string st.local_port
                        ++ (codes ";branch=" ++ (branch ++ codes ";rport")))))))

-- The line of `build_contact`, without its line end.
unfoldable pub build_contact : SipStack → List ℕ
unfolding contact_transport_param_str to_string
build_contact st =
    codes "Contact: <sip:"
    ++ (st.username
        ++ (0x40
            ∷ (st.advertised_ip
                ++ (0x3a
                    ∷ (to_string st.local_port
                        ++ (contact_transport_param_str st.resolved_transport ++ codes ">"))))))

abbrev pub tag_param : Option (List ℕ) → List ℕ
tag_param none = []
tag_param (some t) = codes ";tag=" ++ t

abbrev pub request_text : List ℕ → List ℕ → List ℕ
request_text method uri = method ++ (0x20 ∷ (uri ++ codes " SIP/2.0"))

abbrev pub to_header : List ℕ → Option (List ℕ) → List ℕ
to_header uri tag = codes "To: <" ++ (uri ++ (0x3e ∷ tag_param tag))

abbrev pub from_header : SipStack → List ℕ → List ℕ
from_header st tag =
    codes "From: \""
    ++ (display st
        ++ (codes "\" <sip:"
            ++ (st.username ++ (0x40 ∷ (st.identity_host ++ (codes ">;tag=" ++ tag))))))

abbrev pub cseq_header : ℕ → List ℕ → List ℕ
cseq_header cseq method = codes "CSeq: " ++ (to_string cseq ++ (0x20 ∷ method))

unfoldable pub build_ack :
    SipStack → List ℕ → List ℕ → List ℕ → Option (List ℕ) → ℕ → List ℕ → List ℕ
unfolding via_proto_str build_contact to_string
build_ack st call_id from_tag to_uri to_tag cseq branch =
    lines_text
      (request_text (codes "ACK") to_uri
        ∷ (codes "Via: SIP/2.0/"
            ++ (via_proto_str st.resolved_transport
                ++ (0x20
                    ∷ (st.local_ip
                        ++ (0x3a ∷ (to_string st.local_port ++ (codes ";branch=" ++ branch)))))))
        ∷ codes "Max-Forwards: 70"
        ∷ to_header to_uri to_tag
        ∷ from_header st from_tag
        ∷ (codes "Call-ID: " ++ call_id)
        ∷ cseq_header cseq (codes "ACK")
        ∷ build_contact st
        ∷ codes "Content-Length: 0"
        ∷ [])
      (13 ∷ 10 ∷ [])
