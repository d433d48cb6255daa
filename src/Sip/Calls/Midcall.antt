-- ===== src/Sip/Calls/Midcall.antt =====
-- Hold and resume of crates/sip-core/src/call/lifecycle/reinvite.rs, and crates/sip-core/src/call/transfer.rs.
use dee_lip.Prelude.{
  ℕ, Bool, Option, none, some, List, [], ◌∷◌, ◌++◌, if◌then◌else◌, codes, lines_text, to_string,
  find, insert, remove,
}
use dee_lip.Sip.Util.{or_text, encode_replaces_param}
use dee_lip.Sip.Message.{into_bytes}
use dee_lip.Sip.Builders.{SipStack, build_via, build_contact}
use dee_lip.Sip.Dialog.{Dialog, Handle, next_local_cseq}
use dee_lip.Sip.Calls.{World, Handler, sent, with_dialog, contact_addr}
use dee_lip.Sip.Calls.Requests.{dialog_lines, length_line}
use dee_lip.Sip.Calls.Teardown.{without}
use dee_lip.Sip.Calls.Refresh.{is_confirmed}
use dee_lip.Sip.Calls.Incoming.{answer_lines}

unfoldable pub reinvite_text : SipStack → Dialog → ℕ → List ℕ → List ℕ → List ℕ
unfolding build_via build_contact to_string into_bytes
reinvite_text st d cseq local_sdp branch =
    lines_text
      (dialog_lines st d (codes "INVITE") cseq branch (
        codes "Content-Type: application/sdp"
        ∷ (codes "User-Agent: " ++ st.user_agent)
        ∷ length_line local_sdp
        ∷ []))
      (13 ∷ 10 ∷ local_sdp)

abbrev pub offered_within : World → List ℕ → Bool → Dialog → List ℕ → Handler
offered_within w id hold d local_sdp s =
    let d' = record d {
      local_cseq = next_local_cseq d;
      hold_pending = some hold;
      local_sdp = some local_sdp;
    } in
    (
      with_dialog id d' s,
      sent (reinvite_text s.stack d' d'.local_cseq local_sdp w.branch) (contact_addr w s.stack d')
          ∷ [],
    )

abbrev pub with_media : World → List ℕ → Bool → (Handle → List ℕ) → Dialog → Option Handle → Handler
with_media w id hold offer d none s = (s, [])
with_media w id hold offer d (some media) s = offered_within w id hold d (offer media) s

abbrev pub reinvite_of : World → List ℕ → Bool → (Handle → List ℕ) → Option Dialog → Handler
reinvite_of w id hold offer none s = (s, [])
reinvite_of w id hold offer (some d) s =
    if is_confirmed d.state then with_media w id hold offer d d.media s else (s, [])

-- `offer` is the session description that is made of the media, for a hold or for a resume.
unfoldable pub send_reinvite : World → List ℕ → Bool → (Handle → List ℕ) → Handler
unfolding find insert reinvite_text contact_addr
send_reinvite w id hold offer s = reinvite_of w id hold offer (find id s.dialogs) s

unfoldable pub refer_text : SipStack → Dialog → ℕ → List ℕ → List ℕ → List ℕ
unfolding build_via build_contact to_string
refer_text st d cseq refer_to branch =
    lines_text
      (dialog_lines st d (codes "REFER") cseq branch (
        (codes "Refer-To: <" ++ (refer_to ++ codes ">"))
        ∷ (codes "User-Agent: " ++ st.user_agent)
        ∷ codes "Content-Length: 0"
        ∷ []))
      (13 ∷ 10 ∷ [])

abbrev pub referred : World → List ℕ → List ℕ → Option Dialog → Handler
referred w id refer_to none s = (s, [])
referred w id refer_to (some d) s =
    if is_confirmed d.state
    then (let d' = record d { local_cseq = next_local_cseq d } in
        (
          with_dialog id d' s,
          sent (refer_text s.stack d' d'.local_cseq refer_to w.branch) (contact_addr w s.stack d')
              ∷ [],
        ))
    else (s, [])

unfoldable pub blind_transfer : World → (id target : List ℕ) → Handler
unfolding find insert refer_text contact_addr
blind_transfer w id target s = referred w id target (find id s.dialogs) s

unfoldable pub build_refer_to_with_replaces : (target replaces : List ℕ) → List ℕ
unfolding encode_replaces_param
build_refer_to_with_replaces target replaces =
    target ++ (codes "?Replaces=" ++ encode_replaces_param replaces)

abbrev replaced : Dialog → List ℕ
replaced consult =
    consult.call_id
    ++ (codes ";to-tag="
        ++ (or_text consult.remote_tag [] ++ (codes ";from-tag=" ++ consult.local_tag)))

abbrev pub consulted : World → List ℕ → Option Dialog → Handler
consulted w id none s = (s, [])
consulted w id (some consult) s =
    referred w id (build_refer_to_with_replaces consult.remote_uri (replaced consult))
      (find id s.dialogs) s

unfoldable pub attended_transfer : World → (id consultation : List ℕ) → Handler
unfolding find insert refer_text contact_addr build_refer_to_with_replaces
attended_transfer w id consultation s = consulted w id (find consultation s.dialogs) s

unfoldable pub redirect_text : SipStack → Dialog → (id target : List ℕ) → List ℕ
unfolding to_string
redirect_text st d id target =
    lines_text
      (answer_lines st d (codes "302 Moved Temporarily") id
        ((codes "Contact: <" ++ (target ++ codes ">")) ∷ codes "Content-Length: 0" ∷ []))
      (13 ∷ 10 ∷ [])

abbrev pub redirected : World → (id target : List ℕ) → Option Dialog → Handler
redirected w id target none s = (s, [])
redirected w id target (some d) s =
    (without id s, sent (redirect_text s.stack d id target) (contact_addr w s.stack d) ∷ [])

unfoldable pub redirect_call : World → (id target : List ℕ) → Handler
unfolding find remove redirect_text contact_addr
redirect_call w id target s = redirected w id target (find id s.dialogs) s
