-- ===== src/Sip/Calls/Requests.antt =====
-- The texts of the requests of a call: `build_invite` of lifecycle/outgoing.rs, and those that `hang_up` of
-- lifecycle/teardown.rs, `send_session_refresh` and `send_dtmf_info` of lifecycle/reinvite.rs write.
use dee_lip.Prelude.{
  ℕ, Bool, Option, none, some, List, [], ◌∷◌, ◌++◌, if◌then◌else◌, codes, lines_text, to_string,
}
use dee_lip.Sip.Builders.{
  SipStack, byte_len, build_via, build_contact, request_text, to_header, from_header, cseq_header,
}
use dee_lip.Sip.Message.{into_bytes}
use dee_lip.Sip.Dialog.{Dialog}

-- `SESSION_EXPIRES_DEFAULT` and `SESSION_MIN_SE`
abbrev pub session_expires_default : ℕ
session_expires_default = 1800

abbrev pub session_min_se : ℕ
session_min_se = 90

abbrev privacy_lines : Bool → List (List ℕ)
privacy_lines hide = if hide then codes "Privacy: id" ∷ [] else []

abbrev timer_lines : Bool → ℕ → List (List ℕ)
timer_lines enabled session_expires =
    if enabled
    then codes "Supported: timer"
      ∷ (codes "Session-Expires: " ++ (to_string session_expires ++ codes ";refresher=uac"))
      ∷ (codes "Min-SE: " ++ to_string session_min_se)
      ∷ []
    else []

abbrev pub auth_lines : Option (List ℕ) → List (List ℕ)
auth_lines none = []
auth_lines (some a) = a ∷ []

abbrev pub length_line : List ℕ → List ℕ
length_line body = codes "Content-Length: " ++ to_string (byte_len body)

unfoldable pub build_invite :
    SipStack
    → (call_id from_tag : List ℕ) → ℕ
    → (to sdp : List ℕ) → Option (List ℕ)
    → List ℕ
    → ℕ
    → List ℕ
unfolding build_via build_contact to_string into_bytes
build_invite st call_id from_tag cseq to sdp auth branch session_expires =
    lines_text
      (request_text (codes "INVITE") to
        ∷ build_via st branch
        ∷ codes "Max-Forwards: 70"
        ∷ to_header to none
        ∷ from_header st from_tag
        ∷ (codes "Call-ID: " ++ call_id)
        ∷ cseq_header cseq (codes "INVITE")
        ∷ build_contact st
        ∷ codes "Content-Type: application/sdp"
        ∷ (codes "User-Agent: " ++ st.user_agent)
        ∷ (privacy_lines st.hide_caller_id
            ++ (timer_lines st.session_timers_enabled session_expires
                ++ (auth_lines auth ++ (length_line sdp ∷ [])))))
      (13 ∷ 10 ∷ sdp)

-- The lines of a request within a dialog, up to its `Contact`.
abbrev pub dialog_lines : SipStack → Dialog → List ℕ → ℕ → List ℕ → List (List ℕ) → List (List ℕ)
dialog_lines st d method cseq branch more =
    request_text method d.remote_uri
    ∷ build_via st branch
    ∷ codes "Max-Forwards: 70"
    ∷ to_header d.remote_uri d.remote_tag
    ∷ from_header st d.local_tag
    ∷ (codes "Call-ID: " ++ d.call_id)
    ∷ cseq_header cseq method
    ∷ build_contact st
    ∷ more

unfoldable pub bye_text : SipStack → Dialog → ℕ → List ℕ → List ℕ
unfolding build_via build_contact to_string
bye_text st d cseq branch =
    lines_text
      (dialog_lines st d (codes "BYE") cseq branch
        ((codes "User-Agent: " ++ st.user_agent) ∷ codes "Content-Length: 0" ∷ []))
      (13 ∷ 10 ∷ [])

abbrev refresher_of : Bool → List ℕ
refresher_of uac = if uac then codes "uac" else codes "uas"

unfoldable pub refresh_text : SipStack → Dialog → ℕ → ℕ → List ℕ → List ℕ → List ℕ
unfolding build_via build_contact to_string into_bytes
refresh_text st d cseq interval local_sdp branch =
    lines_text
      (dialog_lines st d (codes "INVITE") cseq branch (
        codes "Content-Type: application/sdp"
        ∷ codes "Supported: timer"
        ∷ (codes "Session-Expires: "
            ++ (to_string interval ++ (codes ";refresher=" ++ refresher_of d.original_role_is_uac)))
        ∷ (codes "User-Agent: " ++ st.user_agent)
        ∷ length_line local_sdp
        ∷ []))
      (13 ∷ 10 ∷ local_sdp)

abbrev dtmf_body : ℕ → List ℕ
dtmf_body digit = codes "Signal=" ++ (digit ∷ 13 ∷ 10 ∷ (codes "Duration=250" ++ (13 ∷ 10 ∷ [])))

unfoldable pub info_text : SipStack → Dialog → ℕ → ℕ → List ℕ → List ℕ
unfolding build_via build_contact to_string into_bytes
info_text st d cseq digit branch =
    lines_text
      (dialog_lines st d (codes "INFO") cseq branch (
        codes "Content-Type: application/dtmf-relay"
        ∷ (codes "User-Agent: " ++ st.user_agent)
        ∷ length_line (dtmf_body digit)
        ∷ []))
      (13 ∷ 10 ∷ dtmf_body digit)
