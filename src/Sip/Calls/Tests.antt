-- ===== src/Sip/Calls/Tests.antt =====
-- Runs of call/lifecycle and of message_method.rs.
use dee_lip.Prelude.{
  ℕ, ◌*◌, ◌≤◌, ◌≡◌, refl, true, false, none, some, List, [], ◌∷◌, ◌++◌, length, All, codes,
  bytes_eq, find, strip_prefix,
}
use dee_lip.Sip.Util.{find_char}
use dee_lip.Sip.Message.{SipMessage, request, response, header, find_header, call_id, invite}
use dee_lip.Sip.Builders.Tests.{desk_phone}
use dee_lip.Sip.Dialog.{Dialog, calling, confirmed}
use dee_lip.Sip.Calls.{State, World, Effect, PendingMessage}
use dee_lip.Sip.Calls.Messages.{on_message_response}
use dee_lip.Sip.Calls.Endings.{Ends}
use dee_lip.Sip.Calls.Retries.{invites}
use dee_lip.Sip.Calls.Bounded.{Response, on_responses, on_responses-invites}
use dee_lip.Sip.Calls.Local.{IsGone, on_response-others, on_response-IsGone}
use dee_lip.Sip.Calls.Keys.{WellKeyed}
use dee_lip.Sip.Calls.Teardown.{hang_up}
use dee_lip.Sip.Calls.Runs.{Run, rest, then_step, hangs_up, Run-WellKeyed}
use dee_lip.Sip.Calls.Lifetime.{
  IsLifetime, send_message-IsLifetime, told, on_message_responses, MessageResponse,
}
use dee_lip.Sip.Calls.Incoming.{on_invite, reject_call}
use dee_lip.Sip.Calls.Responses.{on_response}

-- A digest that is no digest, where the value does not matter.
abbrev office : World
office = record {
  now = 0;
  branch = codes "z9hG4bK1";
  next_branch = codes "z9hG4bK2";
  tag = codes "t1";
  new_call_id = codes "m1@10.0.0.2";
  md5_hex = λ text. text;
  parse_addr = λ text. some text;
  has_codec = λ sdp. true;
  resolve_local_call_target = λ uri. none;
  send_error = λ text. none;
}

abbrev to_bob : Dialog
to_bob = record {
  call_id = codes "c1";
  local_tag = codes "a1";
  remote_tag = none;
  remote_uri = codes "sip:bob@example.org";
  remote_contact = none;
  remote_via = [];
  invite_branch = codes "z9hG4bK0";
  local_cseq = 1;
  remote_cseq = none;
  state = calling;
  remote_sdp = none;
  local_sdp = some (codes "v=0");
  is_held = false;
  hold_pending = none;
  auth_retried = false;
  media = none;
  ice_gathered = none;
  pending_offer = some 4;
  pending_offer_video = none;
  session_expires = none;
  we_are_refresher = false;
  session_refresh_at = none;
  session_refresh_pending = false;
  session_expires_retried = false;
  incoming_session_expires = none;
  original_role_is_uac = true;
}

abbrev to_carol : Dialog
to_carol = record to_bob {
  call_id = codes "c2";
  remote_uri = codes "sip:carol@example.org";
  state = confirmed;
  hold_pending = some true;
}

abbrev hello : PendingMessage
hello = record {
  to = codes "sip:bob@example.org";
  body = codes "hello";
  from_tag = codes "t0";
  auth_retried = false;
}

abbrev two_calls : State
two_calls = record {
  stack = desk_phone;
  local_account = false;
  domain = codes "example.org";
  dialogs = (codes "c1", to_bob) ∷ (codes "c2", to_carol) ∷ [];
  pending_messages = (codes "m1", hello) ∷ [];
}

two_calls-WellKeyed : WellKeyed two_calls
two_calls-WellKeyed = (refl, (refl, tt))

abbrev reply : (status : ℕ) (id sequence : List ℕ) → SipMessage
reply status id sequence = record {
  start_line = response status (codes "No");
  headers =
      (codes "Call-ID", id)
      ∷ (codes "CSeq", sequence)
      ∷ (codes "WWW-Authenticate", codes "Digest realm=\"pbx\", nonce=\"n0\"")
      ∷ [];
  body = [];
}

abbrev unauthorized : SipMessage
unauthorized = reply 401 (codes "c1") (codes "1 INVITE")

abbrev twice : List Response
twice = (office, unauthorized, 401) ∷ (office, unauthorized, 401) ∷ []

on_responses-invites_example :
    Ends (λ s' out. invites out ≤ 2 * length two_calls.dialogs) (on_responses twice two_calls)
on_responses-invites_example = on_responses-invites twice two_calls two_calls-WellKeyed

c1_called : call_id unauthorized ≡ some (codes "c1")
unfolding call_id header find_header bytes_eq
c1_called = refl

c1_c2 : bytes_eq (codes "c1") (codes "c2") ≡ false
unfolding bytes_eq
c1_c2 = refl

on_response-others_example :
    Ends
      (λ s' out. find (codes "c2") s'.dialogs ≡ find (codes "c2") two_calls.dialogs)
      (on_response office unauthorized 401 two_calls)
on_response-others_example =
    on_response-others office unauthorized 401 two_calls (codes "c1") (codes "c2")
      two_calls-WellKeyed c1_called c1_c2

on_response-IsGone_example :
    Ends (λ s' out. All (IsGone s') out) (on_response office unauthorized 401 two_calls)
on_response-IsGone_example =
    on_response-IsGone office unauthorized 401 two_calls two_calls-WellKeyed

abbrev hung_up : State × List Effect
hung_up = hang_up office (codes "c2") two_calls

hanging_up : Run two_calls (hung_up.0, [] ++ hung_up.1)
hanging_up =
    then_step two_calls (two_calls, []) hung_up (rest two_calls)
      (hangs_up office (codes "c2") two_calls)

Run-WellKeyed_example : WellKeyed hung_up.0
Run-WellKeyed_example =
    Run-WellKeyed two_calls (hung_up.0, [] ++ hung_up.1) hanging_up two_calls-WellKeyed

m1_unused : find (codes "m1@10.0.0.2") two_calls.pending_messages ≡ none
unfolding find bytes_eq
m1_unused = refl

abbrev refused : SipMessage
refused = reply 401 (codes "m1") (codes "1 MESSAGE")

send_message-IsLifetime_example :
    IsLifetime office
      (codes "sip:bob@example.org")
      (codes "hi")
      two_calls
      ((office, refused, 401) ∷ (office, refused, 401) ∷ [])
send_message-IsLifetime_example =
    send_message-IsLifetime office (codes "sip:bob@example.org") (codes "hi") two_calls
      ((office, refused, 401) ∷ (office, refused, 401) ∷ []) m1_unused

abbrev pending : SipMessage
pending = reply 491 (codes "c2") (codes "2 INVITE")

abbrev held_by_carol : SipMessage
held_by_carol = record {
  start_line = request invite (codes "sip:alice@10.0.0.2");
  headers = (codes "Call-ID", codes "c2") ∷ (codes "CSeq", codes "2 INVITE") ∷ [];
  body = codes "a=sendonly";
}

carol_holds :
    Ends
      (λ s' out. find (codes "c2") s'.dialogs ≡ some (record to_carol { is_held = true }))
      (on_invite office held_by_carol (codes "10.0.0.9:5060") two_calls)
unfolding on_invite
carol_holds = refl

declined_gone : find (codes "c1") (reject_call office (codes "c1") two_calls).0.dialogs ≡ none
unfolding reject_call bytes_eq
declined_gone = refl

abbrev twice_refused : List MessageResponse
twice_refused = (office, refused, 401) ∷ (office, refused, 401) ∷ []

two_rejections : told (on_message_responses (codes "m1") twice_refused two_calls).1 ≡ 1
unfolding told on_message_responses on_message_response bytes_eq strip_prefix find_char
two_rejections = refl
