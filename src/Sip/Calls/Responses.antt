-- ===== src/Sip/Calls/Responses.antt =====
-- `on_response` of crates/sip-core/src/call/lifecycle/response: mod.rs, challenge.rs, session_timers.rs and
-- connected.rs, up to the background task of `handle_connected`.
use dee_lip.Prelude.{
  ℕ, ◌+◌, ◌*◌, ◌/◌, Bool, true, false, not, Option, none, some, List, [], ◌∷◌, if◌then◌else◌, leb,
  ltb, codes, to_string, bytes_eq, find, insert, remove, Outcome, ok, and_then,
}
use dee_lip.Sip.Message.{SipMethod, SipMessage, subscribe, refer, message, publish, call_id, cseq}
use dee_lip.Sip.Builders.{build_ack}
use dee_lip.Sip.Dialog.{Dialog, Handle, next_local_cseq}
use dee_lip.Sip.Auth.{build_challenge_response}
use dee_lip.Sip.Calls.{
  State, World, Effect, Handler, sent, event, handed_on, connecting, call_ringing, call_ended,
  call_held, call_resumed, call_failed, transfer_accepted, transfer_failed, with_dialog, then_do,
}
use dee_lip.Sip.Calls.Requests.{build_invite, session_expires_default}
use dee_lip.Sip.Calls.Teardown.{hang_up}
use dee_lip.Sip.Calls.Messages.{auth_name, on_message_response}
use dee_lip.Sip.Calls.Classify.{
  Ack, Act, Verdict, nothing_to_do, is_ringing, connected, reinvite_ack, session_refresh_ack,
  bye_ok, failed, invite_challenged, session_interval_too_small, classify,
}

abbrev pub ack_sent : State → Ack → List ℕ → Effect
ack_sent s a branch =
    sent (build_ack s.stack a.cid a.from_tag a.to_uri a.to_tag a.cseq branch) s.stack.server_addr

abbrev pub dropped : List ℕ → State → State
dropped id s = record s { dialogs = remove id s.dialogs }

abbrev pub fails : List ℕ → ℕ → List ℕ → Handler
fails id code reason s = (dropped id s, event (call_failed id code reason) ∷ [])

abbrev pub handle_reinvite_ack : World → List ℕ → Bool → Ack → Handler
handle_reinvite_ack w id hold a s =
    (s, ack_sent s a w.branch ∷ event (if hold then call_held id else call_resumed id) ∷ [])

abbrev pub at_least_one : ℕ → ℕ
at_least_one n = if ltb n 1 then 1 else n

abbrev pub is_uas : Option (List ℕ) → Bool
is_uas none = false
is_uas (some r) = bytes_eq r (codes "uas")

abbrev pub timed : World → ℕ → Bool → Dialog → Dialog
timed w interval ours d = record d {
  session_expires = some interval;
  we_are_refresher = ours;
  session_refresh_at =
      if ours then some (w.now + 1000 * at_least_one (interval / 2)) else d.session_refresh_at;
}

abbrev pub on_dialog : List ℕ → (Dialog → Dialog) → Option Dialog → State → State
on_dialog id f none s = s
on_dialog id f (some d) s = with_dialog id (f d) s

-- What a `Session-Expires` says of the refresh of a session.
abbrev pub with_timer : World → List ℕ → Option (ℕ × Option (List ℕ)) → State → State
with_timer w id none s = s
with_timer w id (some (interval, refresher)) s =
    on_dialog id (timed w interval (not (is_uas refresher))) (find id s.dialogs) s

abbrev pub handle_session_refresh_ack :
    World → List ℕ → Ack → Option (ℕ × Option (List ℕ)) → Handler
handle_session_refresh_ack w id a timer s = (with_timer w id timer s, ack_sent s a w.branch ∷ [])

abbrev pub resend :
    World
    → List ℕ
    → Ack
    → (to_uri local_sdp : List ℕ) → Option (List ℕ)
    → ℕ
    → Dialog
    → State
    → List Effect
resend w id a to_uri local_sdp auth expires d s =
    ack_sent s a d.invite_branch
    ∷ sent
        (build_invite s.stack d.call_id d.local_tag (next_local_cseq d) to_uri local_sdp auth
          w.next_branch expires)
        s.stack.server_addr
    ∷ []

abbrev pub challenge_dialog :
    World → List ℕ → (to_uri local_sdp : List ℕ) → Ack → Option (List ℕ) → Option Dialog → Handler
challenge_dialog w id to_uri local_sdp a auth none s = (s, [])
challenge_dialog w id to_uri local_sdp a none (some d) s = (
  dropped id s,
  ack_sent s a d.invite_branch ∷ event (call_failed id 401 (codes "Bad auth challenge")) ∷ [],
)
challenge_dialog w id to_uri local_sdp a (some auth) (some d) s = (
  with_dialog id (record d { local_cseq = next_local_cseq d; invite_branch = w.next_branch }) s,
  resend w id a to_uri local_sdp (some auth) session_expires_default d s,
)

abbrev pub handle_invite_challenged :
    World → List ℕ → (to_uri local_sdp challenge_raw : List ℕ) → Ack → Handler
handle_invite_challenged w id to_uri local_sdp challenge_raw a s =
    challenge_dialog w id to_uri local_sdp a
      (build_challenge_response w.md5_hex (auth_name s.stack) s.stack.password (codes "INVITE")
        to_uri challenge_raw)
      (find id s.dialogs) s

abbrev pub max_default : ℕ → ℕ
max_default n = if leb session_expires_default n then n else session_expires_default

abbrev pub interval_dialog :
    World → List ℕ → (to_uri local_sdp : List ℕ) → ℕ → Ack → Option Dialog → Handler
interval_dialog w id to_uri local_sdp min_se a none s = (s, [])
interval_dialog w id to_uri local_sdp min_se a (some d) s = (
  with_dialog id
      (record d {
        local_cseq = next_local_cseq d;
        invite_branch = w.next_branch;
        session_expires_retried = true;
      })
      s,
  resend w id a to_uri local_sdp none (max_default min_se) d s,
)

abbrev pub handle_session_interval_too_small :
    World → List ℕ → (to_uri local_sdp : List ℕ) → ℕ → Ack → Handler
handle_session_interval_too_small w id to_uri local_sdp min_se a s =
    interval_dialog w id to_uri local_sdp min_se a (find id s.dialogs) s

abbrev pub video_of : Option Dialog → Option Handle
video_of none = none
video_of (some d) = d.pending_offer_video

abbrev pub connect_media : List ℕ → Option Handle → Option Handle → Handler
connect_media id none gathered s = (s, [])
connect_media id (some offer) gathered s =
    let d = find id s.dialogs in
    (
      on_dialog id (λ d'. record d' { pending_offer_video = none }) d s,
      connecting id (some offer) gathered (video_of d) ∷ [],
    )

abbrev pub no_codec : World → List ℕ → Handler
no_codec w id s = then_do (hang_up w id s) (fails id 0 (codes "No compatible codec in answer"))

abbrev pub handle_connected :
    World
    → List ℕ
    → List ℕ
    → Option Handle
    → Option Handle
    → Ack
    → Option (ℕ × Option (List ℕ))
    → Handler
handle_connected w id remote_sdp offer gathered a timer s =
    then_do (with_timer w id timer s, ack_sent s a w.branch ∷ [])
      (λ s'.
        if w.has_codec remote_sdp then connect_media id offer gathered s' else no_codec w id s')

unfoldable pub perform : World → List ℕ → Act → Handler
unfolding find insert remove build_ack build_invite build_challenge_response auth_name hang_up
    bytes_eq
perform w id nothing_to_do s = (s, [])
perform w id is_ringing s = (s, event (call_ringing id) ∷ [])
perform w id (connected id' sdp offer gathered a timer) s =
    handle_connected w id' sdp offer gathered a timer s
perform w id (reinvite_ack id' hold a) s = handle_reinvite_ack w id' hold a s
perform w id (session_refresh_ack id' a timer) s = handle_session_refresh_ack w id' a timer s
perform w id (bye_ok id') s = (dropped id' s, event (call_ended id') ∷ [])
perform w id (failed id' code reason) s = fails id' code reason s
perform w id (invite_challenged id' to_uri sdp raw a) s =
    handle_invite_challenged w id' to_uri sdp raw a s
perform w id (session_interval_too_small id' to_uri sdp min_se a) s =
    handle_session_interval_too_small w id' to_uri sdp min_se a s

abbrev pub Result : Type 0
Result = Outcome (Unit {0}) (State × List Effect)

abbrev pub perform_on : World → List ℕ → State → Verdict → State × List Effect
perform_on w id s (d, act) = perform w id act (with_dialog id d s)

abbrev pub dialog_response : World → List ℕ → SipMessage → ℕ → Option Dialog → State → Result
dialog_response w id msg status none s = ok (s, [])
dialog_response w id msg status (some d) s =
    and_then (λ v. ok (perform_on w id s v)) (classify id msg status d)

abbrev pub transfer_response : List ℕ → ℕ → Handler
transfer_response id status s = (
  s,
  event (if ltb status 300 then transfer_accepted id else transfer_failed id (to_string status))
      ∷ [],
)

abbrev pub by_method : World → List ℕ → SipMessage → ℕ → Option (ℕ × SipMethod) → State → Result
by_method w id msg status (some (n, refer)) s = ok (transfer_response id status s)
by_method w id msg status (some (n, subscribe)) s = ok (s, handed_on subscribe msg ∷ [])
by_method w id msg status (some (n, message)) s = ok (on_message_response w msg status id s)
by_method w id msg status (some (n, publish)) s = ok (s, handed_on publish msg ∷ [])
by_method w id msg status other_cseq s = dialog_response w id msg status (find id s.dialogs) s

abbrev pub of_call : World → SipMessage → ℕ → Option (List ℕ) → State → Result
of_call w msg status none s = ok (s, [])
of_call w msg status (some id) s =
    if bytes_eq id s.stack.reg_call_id then ok (s, []) else by_method w id msg status (cseq msg) s

unfoldable pub on_response : World → SipMessage → ℕ → State → Result
unfolding find perform classify call_id cseq on_message_response to_string bytes_eq
on_response w msg status s = of_call w msg status (call_id msg) s
