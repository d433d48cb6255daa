-- ===== src/Sip/Calls/Incoming.antt =====
-- crates/sip-core/src/call/lifecycle/incoming.rs: calls that come in, and requests to hold that come in. The work
-- of the background task between `accept_call` and `on_incoming_answer_ready`, with the text of the answer,
-- is outside.
use dee_lip.Prelude.{
  ℕ, ◌+◌, ◌*◌, ◌/◌, ◌^◌, Bool, true, false, ◌||◌, Option, none, some, List, [], ◌∷◌, ◌++◌,
  if◌then◌else◌, codes, lines_text, to_string, trim, trim_start, trim_end, is_whitespace,
  strip_prefix, parse_unsigned, bytes_eq, from_utf8_lossy, find, insert, remove, Outcome, ok,
  and_then,
}
use dee_lip.Sip.Util.{split_on, or_text, parse_uri, parse_tag, parse_session_expires}
use dee_lip.Sip.Message.{SipMessage, SipMethod, header, headers_all, call_id, cseq, into_bytes}
use dee_lip.Sip.Builders.{
  SipStack, display, tag_param, cseq_header, build_contact, build_response, field,
}
use dee_lip.Sip.Dialog.{Dialog, Handle, confirmed, new_incoming}
use dee_lip.Sip.Calls.{
  State, World, Effect, Handler, sent, event, resolving, incoming_call, call_connected, call_failed,
  remote_held, remote_resumed, with_dialog, contact_addr, then_do,
}
use dee_lip.Sip.Calls.Requests.{length_line}
use dee_lip.Sip.Calls.Teardown.{without}
use dee_lip.Sip.Calls.Refresh.{is_confirmed}
use dee_lip.Sip.Calls.Responses.{at_least_one, is_uas, timed}

abbrev or_next : Option ℕ → Option ℕ → Option ℕ
or_next (some n) o = some n
or_next none o = o

abbrev param_number : Option (List ℕ) → Option ℕ
param_number none = none
param_number (some v) = parse_unsigned (2 ^ 32) (trim v)

unfoldable after_in_params : List (List ℕ) → Option ℕ
unfolding strip_prefix trim_start trim_end is_whitespace parse_unsigned
after_in_params [] = none
after_in_params (param ∷ params) =
    or_next (param_number (strip_prefix (codes "answer-after=") (trim param)))
      (after_in_params params)

abbrev behind_uri : List (List ℕ) → List (List ℕ)
behind_uri [] = []
behind_uri (uri ∷ params) = params

unfoldable after_in_entries : List (List ℕ) → Option ℕ
unfolding split_on after_in_params
after_in_entries [] = none
after_in_entries (entry ∷ entries) =
    or_next (after_in_params (behind_uri (split_on 0x3b entry))) (after_in_entries entries)

unfoldable after_in_headers : List (List ℕ) → Option ℕ
unfolding split_on after_in_entries
after_in_headers [] = none
after_in_headers (line ∷ lines) =
    or_next (after_in_entries (split_on 0x2c line)) (after_in_headers lines)

unfoldable pub parse_call_info_answer_after : SipMessage → Option ℕ
unfolding headers_all after_in_headers
parse_call_info_answer_after msg = after_in_headers (headers_all msg (codes "Call-Info"))

-- `body.lines().any(|l| l.trim() == "a=sendonly")`
unfoldable pub any_sendonly : List (List ℕ) → Bool
unfolding bytes_eq trim_start trim_end is_whitespace
any_sendonly [] = false
any_sendonly (line ∷ lines) = bytes_eq (trim line) (codes "a=sendonly") || any_sendonly lines

abbrev deadline : World → Option ℕ → Option ℕ → Option ℕ
deadline w none at = at
deadline w (some interval) at = some (w.now + 1000 * at_least_one (interval / 2))

abbrev turned : World → Bool → Dialog → Dialog
turned w sendonly d = record d {
  is_held = sendonly;
  session_refresh_at = deadline w d.session_expires d.session_refresh_at;
}

abbrev hold_events : List ℕ → (sendonly was_held : Bool) → List Effect
hold_events id true was_held = event (remote_held id) ∷ []
hold_events id false true = event (remote_resumed id) ∷ []
hold_events id false false = []

-- A request to hold, to resume or to refresh, within a call.
abbrev pub reinvited : World → SipMessage → List ℕ → List ℕ → Dialog → Bool → Handler
reinvited w msg from id d sendonly s = (
  with_dialog id (turned w sendonly d) s,
  sent (build_response s.stack msg 200 (codes "OK") d.local_tag (or_text d.local_sdp [])) from
      ∷ hold_events id sendonly d.is_held,
)

abbrev timer_in : Option (List ℕ) → Option (ℕ × Option (List ℕ))
timer_in none = none
timer_in (some v) = parse_session_expires v

abbrev sequence_or_one : Option (ℕ × SipMethod) → ℕ
sequence_or_one none = 1
sequence_or_one (some (n, m)) = n

abbrev pub dialog_from : World → SipMessage → List ℕ → List ℕ → List ℕ → Dialog
dialog_from w msg from id from_uri =
    record (new_incoming id w.tag from_uri (or_text (parse_tag (field msg (codes "From"))) [])
      (sequence_or_one (cseq msg)) (from_utf8_lossy msg.body) (field msg (codes "Via"))) {
        remote_contact = some from;
        incoming_session_expires = timer_in (header msg (codes "Session-Expires"));
      }

-- A fresh INVITE.
abbrev pub rung : World → SipMessage → List ℕ → List ℕ → List ℕ → Handler
rung w msg from id from_uri s = (
  with_dialog id (dialog_from w msg from id from_uri) s,
  sent (build_response s.stack msg 100 (codes "Trying") w.tag []) from
      ∷ sent (build_response s.stack msg 180 (codes "Ringing") w.tag []) from
      ∷ event (incoming_call id from_uri (parse_call_info_answer_after msg))
      ∷ [],
)

abbrev pub fresh_invite :
    World → SipMessage → List ℕ → List ℕ → State → Outcome (Unit {0}) (State × List Effect)
fresh_invite w msg from id s =
    and_then (λ uri. ok (rung w msg from id (or_text uri (field msg (codes "From"))) s))
      (parse_uri (field msg (codes "From")))

abbrev pub invite_for :
    World
    → SipMessage
    → List ℕ
    → List ℕ
    → Option Dialog
    → State
    → Outcome (Unit {0}) (State × List Effect)
invite_for w msg from id none s = fresh_invite w msg from id s
invite_for w msg from id (some d) s =
    if is_confirmed d.state
    then ok (reinvited w msg from id d (any_sendonly (split_on 10 (from_utf8_lossy msg.body))) s)
    else fresh_invite w msg from id s

abbrev pub invite_of :
    World → SipMessage → List ℕ → Option (List ℕ) → State → Outcome (Unit {0}) (State × List Effect)
invite_of w msg from none s = ok (s, [])
invite_of w msg from (some id) s = invite_for w msg from id (find id s.dialogs) s

unfoldable pub on_invite :
    World → SipMessage → List ℕ → State → Outcome (Unit {0}) (State × List Effect)
unfolding find insert call_id cseq header parse_uri parse_tag parse_session_expires
    parse_call_info_answer_after any_sendonly split_on from_utf8_lossy build_response new_incoming
on_invite w msg from s = invite_of w msg from (call_id msg) s

abbrev pub or_one : Option ℕ → ℕ
or_one none = 1
or_one (some n) = n

-- The lines of a response to the INVITE that began a call, up to its `CSeq`.
abbrev pub answer_lines :
    SipStack → Dialog → (status call_id : List ℕ) → List (List ℕ) → List (List ℕ)
answer_lines st d status call_id more =
    (codes "SIP/2.0 " ++ status)
    ∷ (codes "Via: " ++ d.remote_via)
    ∷ (codes "To: \""
        ++ (display st
            ++ (codes "\" <sip:"
                ++ (st.username
                    ++ (0x40 ∷ (st.identity_host ++ (codes ">;tag=" ++ d.local_tag)))))))
    ∷ (codes "From: <" ++ (d.remote_uri ++ (0x3e ∷ tag_param d.remote_tag)))
    ∷ (codes "Call-ID: " ++ call_id)
    ∷ cseq_header (or_one d.remote_cseq) (codes "INVITE")
    ∷ more

unfoldable pub decline_text : SipStack → Dialog → List ℕ → List ℕ
unfolding to_string
decline_text st d id =
    lines_text (answer_lines st d (codes "486 Busy Here") id (codes "Content-Length: 0" ∷ []))
      (13 ∷ 10 ∷ [])

abbrev pub rejected : World → List ℕ → Option Dialog → Handler
rejected w id none s = (s, [])
rejected w id (some d) s =
    (without id s, sent (decline_text s.stack d id) (contact_addr w s.stack d) ∷ [])

unfoldable pub reject_call : World → List ℕ → Handler
unfolding find remove decline_text contact_addr
reject_call w id s = rejected w id (find id s.dialogs) s

-- Whether `parse_sdp_forcing` finds a codec in an offer, and whether there is a port for the media.
pub record Local : Type 0 where
  pub takes : List ℕ → Bool
  pub has_port : Bool

abbrev pub declined : World → List ℕ → ℕ → List ℕ → Handler
declined w id code reason s =
    then_do (reject_call w id s) (λ s'. (s', event (call_failed id code reason) ∷ []))

abbrev pub accepted : World → Local → List ℕ → Option Dialog → Handler
accepted w l id none s = (s, [])
accepted w l id (some d) s =
    if l.takes (or_text d.remote_sdp [])
    then (if l.has_port
        then (s, resolving id ∷ [])
        else declined w id 0 (codes "Local RTP port allocation failed") s)
    else declined w id 488 (codes "No compatible codec") s

unfoldable pub accept_call : World → Local → List ℕ → Handler
unfolding find reject_call
accept_call w l id s = accepted w l id (find id s.dialogs) s

-- What the background task hands back, with the handle of the media that `resolve_call_media` makes of it.
pub record IncomingAnswerReady : Type 0 where
  pub call_id : List ℕ
  pub local_sdp : List ℕ
  pub media : Handle

abbrev echoed : Option (ℕ × Option (List ℕ)) → List (List ℕ)
echoed none = []
echoed (some (interval, theirs)) =
    codes "Supported: timer"
    ∷ (codes "Session-Expires: "
        ++ (to_string interval
            ++ (codes ";refresher=" ++ (if is_uas theirs then codes "uas" else codes "uac"))))
    ∷ []

abbrev pub timer_info : SipStack → Dialog → Option (ℕ × Option (List ℕ))
timer_info st d = if st.session_timers_enabled then d.incoming_session_expires else none

unfoldable pub ok_text : SipStack → Dialog → List ℕ → List ℕ
unfolding build_contact to_string into_bytes
ok_text st d local_sdp =
    lines_text
      (answer_lines st d (codes "200 OK") d.call_id (
        build_contact st
        ∷ codes "Content-Type: application/sdp"
        ∷ (codes "User-Agent: " ++ st.user_agent)
        ∷ (echoed (timer_info st d) ++ (length_line local_sdp ∷ []))))
      (13 ∷ 10 ∷ local_sdp)

abbrev timed_by : World → Option (ℕ × Option (List ℕ)) → Dialog → Dialog
timed_by w none d = d
timed_by w (some (interval, theirs)) d = timed w interval (is_uas theirs) d

abbrev pub established : World → SipStack → IncomingAnswerReady → Dialog → Dialog
established w st ev d = timed_by w (timer_info st d) (record d {
  incoming_session_expires = if st.session_timers_enabled then none else d.incoming_session_expires;
  state = confirmed;
  local_sdp = some ev.local_sdp;
  media = some ev.media;
})

abbrev pub answer_with : World → IncomingAnswerReady → Option Dialog → Handler
answer_with w ev none s = (s, [])
answer_with w ev (some d) s = (
  with_dialog ev.call_id (established w s.stack ev d) s,
  sent (ok_text s.stack d ev.local_sdp) (contact_addr w s.stack d)
      ∷ event (call_connected ev.call_id ev.media)
      ∷ [],
)

unfoldable pub on_incoming_answer_ready : World → IncomingAnswerReady → Handler
unfolding find insert ok_text contact_addr bytes_eq
on_incoming_answer_ready w ev s = answer_with w ev (find ev.call_id s.dialogs) s

abbrev pub connected_with : List ℕ → Handle → Option Dialog → Handler
connected_with id media none s = (s, [])
connected_with id media (some d) s =
    (with_dialog id (record d { media = some media }) s, event (call_connected id media) ∷ [])

-- Of lifecycle/response/connected.rs: the end of an outgoing call's background task.
unfoldable pub on_outgoing_connected : List ℕ → Handle → Handler
unfolding find insert
on_outgoing_connected id media s = connected_with id media (find id s.dialogs) s
