-- ===== src/Sip/Calls.antt =====
-- crates/sip-core/src/call/lifecycle and src/message_method.rs: the state that the handlers of a `SipStack`
-- share, what they are given and what they do. A handler runs to its end before the next one starts.
pub mod Requests
pub mod Teardown
pub mod Outgoing
pub mod Incoming
pub mod Midcall
pub mod Refresh
pub mod Messages
pub mod Classify
pub mod Responses
pub mod Judgement
pub mod Endings
pub mod Keys
pub mod Retries
pub mod Bounded
pub mod Local
pub mod Runs
pub mod Delivery
pub mod Lifetime
pub mod Failures
pub mod Tests
use dee_lip.Prelude.{
  ℕ, Bool, true, false, Option, none, some, List, [], ◌∷◌, ◌++◌, Map, find, insert, if◌then◌else◌,
}
use dee_lip.Sip.Util.{or_text}
use dee_lip.Sip.Dialog.{Dialog, Handle}
use dee_lip.Sip.Builders.{SipStack}
use dee_lip.Sip.Message.{SipMethod, SipMessage}

-- A MESSAGE request that waits for its response.
pub record PendingMessage : Type 0 where
  pub to : List ℕ
  pub body : List ℕ
  pub from_tag : List ℕ
  pub auth_retried : Bool

pub record State : Type 0 where
  pub stack : SipStack
  pub local_account : Bool
  pub domain : List ℕ
  pub dialogs : Map Dialog
  pub pending_messages : Map PendingMessage

-- What a handler meets: the time in milliseconds, the branches, tag and Call-ID that it draws, MD5 in
-- hexadecimal, the parser of socket addresses, whether `parse_sdp` finds a codec of the account in an answer,
-- what the resolver finds for a URI, and the error of the transport for a text, if there is one.
pub record World : Type 0 where
  pub now : ℕ
  pub branch : List ℕ
  pub next_branch : List ℕ
  pub tag : List ℕ
  pub new_call_id : List ℕ
  pub md5_hex : List ℕ → List ℕ
  pub parse_addr : List ℕ → Option (List ℕ)
  pub has_codec : List ℕ → Bool
  pub resolve_local_call_target : List ℕ → Option (List ℕ)
  pub send_error : List ℕ → Option (List ℕ)

-- `call_connected` carries the handle of the call's media.
pub data SipEvent : Type 0 where
  call_ringing call_ended call_held call_resumed transfer_accepted remote_held remote_resumed :
      List ℕ → SipEvent
  incoming_call : (call_id from : List ℕ) (remote_answer_after : Option ℕ) → SipEvent
  call_connected : (call_id : List ℕ) (media : Handle) → SipEvent
  call_failed : (call_id : List ℕ) (code : ℕ) (reason : List ℕ) → SipEvent
  transfer_failed : (call_id reason : List ℕ) → SipEvent
  message_send_result : (to : List ℕ) (done : Bool) (reason : Option (List ℕ)) → SipEvent
  message_received : (from body : List ℕ) → SipEvent

-- `handed_on`: a response that goes to the handlers of SUBSCRIBE or PUBLISH; `resolving`: the background task
-- that makes the answer to a call; `connecting`: the one that connects the media of a call, with the offers
-- that it takes along.
pub data Effect : Type 0 where
  sent : (text addr : List ℕ) → Effect
  event : SipEvent → Effect
  handed_on : SipMethod → SipMessage → Effect
  resolving : (call_id : List ℕ) → Effect
  connecting : (call_id : List ℕ) (pending_offer ice_gathered video : Option Handle) → Effect

abbrev pub Handler : Type 0
Handler = State → State × List Effect

abbrev pub with_dialog : List ℕ → Dialog → State → State
with_dialog id d s = record s { dialogs = insert id d s.dialogs }

-- One handler after another.
abbrev pub then_do : State × List Effect → Handler → State × List Effect
then_do (s, out) h = let (s', more) = h s in (s', out ++ more)

-- `contact` of `DialogRequestContext::new`
abbrev pub parsed_or : (List ℕ → Option (List ℕ)) → Option (List ℕ) → List ℕ → List ℕ
parsed_or parse none addr = addr
parsed_or parse (some text) addr = or_text (parse text) addr

unfoldable pub contact_addr : World → SipStack → Dialog → List ℕ
contact_addr w st d = parsed_or w.parse_addr d.remote_contact st.server_addr
