-- ===== src/Sip/Calls/Classify.antt =====
-- The classification of `on_response` in crates/sip-core/src/call/lifecycle/response/mod.rs: what a response
-- means for its dialog, and the dialog after it.
use dee_lip.Prelude.{
  ℕ, ◌^◌, Bool, true, false, not, ◌&&◌, ◌||◌, Option, none, some, List, [], if◌then◌else◌, ◌==◌,
  leb, codes, trim, trim_start, trim_end, is_whitespace, parse_unsigned, from_utf8_lossy, Outcome,
  ok, and_then,
}
use dee_lip.Sip.Util.{or_text, parse_tag, parse_session_expires}
use dee_lip.Sip.Message.{
  SipMethod, SipMessage, invite, register, ack, bye, cancel, options, info, notify, subscribe,
  refer, message, publish, other, header, cseq, reason_phrase,
}
use dee_lip.Sip.Builders.{field}
use dee_lip.Sip.Dialog.{
  Dialog, DialogState, Handle, calling, ringing, confirmed, terminating, terminated,
  parse_remote_contact,
}

-- The fields `ack_*` of an `Act`.
pub record Ack : Type 0 where
  pub cid : List ℕ
  pub from_tag : List ℕ
  pub to_uri : List ℕ
  pub to_tag : Option (List ℕ)
  pub cseq : ℕ

pub data Act : Type 0 where
  nothing_to_do is_ringing : Act
  connected :
      (id remote_sdp : List ℕ) (pending_offer ice_gathered : Option Handle) (a : Ack)
      (timer : Option (ℕ × Option (List ℕ)))
      → Act
  reinvite_ack : (id : List ℕ) (hold : Bool) (a : Ack) → Act
  session_refresh_ack : (id : List ℕ) (a : Ack) (timer : Option (ℕ × Option (List ℕ))) → Act
  bye_ok : List ℕ → Act
  failed : (id : List ℕ) (code : ℕ) (reason : List ℕ) → Act
  invite_challenged : (id to_uri local_sdp challenge_raw : List ℕ) (a : Ack) → Act
  session_interval_too_small : (id to_uri local_sdp : List ℕ) (min_se : ℕ) (a : Ack) → Act

abbrev pub ack_of : Dialog → ℕ → Ack
ack_of d n = record {
  cid = d.call_id;
  from_tag = d.local_tag;
  to_uri = d.remote_uri;
  to_tag = d.remote_tag;
  cseq = n;
}

abbrev pub Verdict : Type 0
Verdict = Dialog × Act

abbrev timer_of : Option (List ℕ) → Option (ℕ × Option (List ℕ))
timer_of none = none
timer_of (some v) = parse_session_expires v

abbrev pub session_header : SipMessage → Option (ℕ × Option (List ℕ))
session_header msg = timer_of (header msg (codes "Session-Expires"))

-- The first 200 to our INVITE.
abbrev pub connect : SipMessage → ℕ → Dialog → Option (List ℕ) → Verdict
connect msg n d contact =
    let sdp = from_utf8_lossy msg.body in
    let d' = record d {
      state = confirmed;
      remote_tag = parse_tag (field msg (codes "To"));
      remote_sdp = some sdp;
      remote_contact = contact;
      pending_offer = none;
      ice_gathered = none;
    } in
    (d', connected d.call_id sdp d.pending_offer d.ice_gathered (ack_of d' n) (session_header msg))

abbrev pub or_true : Option Bool → Bool
or_true none = true
or_true (some b) = b

-- A 200 to an INVITE of ours within the call.
abbrev pub reinvited_as : SipMessage → ℕ → Dialog → Bool → Verdict
reinvited_as msg n d refresh =
    if refresh
    then (
      record d { session_refresh_pending = false },
      session_refresh_ack d.call_id (ack_of d n) (session_header msg),
    )
    else (
      record d { hold_pending = none; is_held = or_true d.hold_pending },
      reinvite_ack d.call_id (or_true d.hold_pending) (ack_of d n),
    )

abbrev pub reinvited : SipMessage → ℕ → Dialog → Verdict
reinvited msg n d = reinvited_as msg n d d.session_refresh_pending

abbrev pub invite_answered : SipMessage → ℕ → Dialog → DialogState → Outcome (Unit {0}) Verdict
invite_answered msg n d calling =
    and_then (λ c. ok (connect msg n d c)) (parse_remote_contact (header msg (codes "Contact")))
invite_answered msg n d ringing =
    and_then (λ c. ok (connect msg n d c)) (parse_remote_contact (header msg (codes "Contact")))
invite_answered msg n d confirmed = ok (reinvited msg n d)
invite_answered msg n d terminating = ok (d, nothing_to_do)
invite_answered msg n d terminated = ok (d, nothing_to_do)

abbrev pub is_invite : SipMethod → Bool
is_invite invite = true
is_invite register = false
is_invite ack = false
is_invite bye = false
is_invite cancel = false
is_invite options = false
is_invite info = false
is_invite notify = false
is_invite subscribe = false
is_invite refer = false
is_invite message = false
is_invite publish = false
is_invite (other s) = false

abbrev pub is_bye : SipMethod → Bool
is_bye bye = true
is_bye register = false
is_bye ack = false
is_bye invite = false
is_bye cancel = false
is_bye options = false
is_bye info = false
is_bye notify = false
is_bye subscribe = false
is_bye refer = false
is_bye message = false
is_bye publish = false
is_bye (other s) = false

abbrev pub answered : SipMessage → Dialog → Option (ℕ × SipMethod) → Outcome (Unit {0}) Verdict
answered msg d none = ok (d, nothing_to_do)
answered msg d (some (n, m)) =
    if is_invite m
    then invite_answered msg n d d.state
    else ok (
        if is_bye m
        then (record d { state = terminated }, bye_ok d.call_id)
        else (d, nothing_to_do))

abbrev pub is_calling : DialogState → Bool
is_calling calling = true
is_calling ringing = false
is_calling confirmed = false
is_calling terminating = false
is_calling terminated = false

abbrev pub hdr_name : ℕ → List ℕ
hdr_name status = if status == 407 then codes "Proxy-Authenticate" else codes "WWW-Authenticate"

abbrev pub challenge_act : List ℕ → ℕ → Dialog → ℕ → Option (List ℕ) → Verdict
challenge_act id status d n none = (d, failed id status (codes "Missing auth challenge"))
challenge_act id status d n (some raw) = (
  record d { auth_retried = true },
  invite_challenged d.call_id d.remote_uri (or_text d.local_sdp []) raw (ack_of d n),
)

abbrev pub challenged : List ℕ → SipMessage → ℕ → Dialog → Option (ℕ × SipMethod) → Verdict
challenged id msg status d none = (d, failed id status (codes "Unauthorized"))
challenged id msg status d (some (n, m)) =
    if is_invite m
    then challenge_act id status d n (header msg (hdr_name status))
    else (d, failed id status (codes "Unauthorized"))

abbrev pub min_se_of : Option (List ℕ) → Option ℕ
min_se_of none = none
min_se_of (some v) = parse_unsigned (2 ^ 32) (trim v)

abbrev pub interval_act : List ℕ → ℕ → Dialog → ℕ → Option ℕ → Verdict
interval_act id status d n none = (d, failed id status (codes "422 with no Min-SE"))
interval_act id status d n (some min_se) = (
  d,
  session_interval_too_small d.call_id d.remote_uri (or_text d.local_sdp []) min_se (ack_of d n),
)

abbrev pub too_small : List ℕ → SipMessage → ℕ → Dialog → Option (ℕ × SipMethod) → Verdict
too_small id msg status d none = (d, failed id status (codes "Session Interval Too Small"))
too_small id msg status d (some (n, m)) =
    if is_invite m
    then interval_act id status d n (min_se_of (header msg (codes "Min-SE")))
    else (d, failed id status (codes "Session Interval Too Small"))

unfoldable pub classify : List ℕ → SipMessage → ℕ → Dialog → Outcome (Unit {0}) Verdict
unfolding header cseq reason_phrase parse_remote_contact parse_tag parse_session_expires
    from_utf8_lossy trim_start trim_end is_whitespace parse_unsigned
classify id msg status d =
    if status == 180
    then ok (record d { state = ringing }, is_ringing)
    else if status == 200
    then answered msg d (cseq msg)
    else ok (
        if status == 100
        then (d, nothing_to_do)
        else if (status == 401 || status == 407) && (is_calling d.state && not d.auth_retried)
        then challenged id msg status d (cseq msg)
        else if status == 422 && (is_calling d.state && not d.session_expires_retried)
        then too_small id msg status d (cseq msg)
        else if leb 300 status
        then (d, failed id status (or_text (reason_phrase msg) []))
        else (d, nothing_to_do))
