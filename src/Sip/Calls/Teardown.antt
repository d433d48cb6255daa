-- ===== src/Sip/Calls/Teardown.antt =====
-- crates/sip-core/src/call/lifecycle/teardown.rs: ending a call.
use dee_lip.Prelude.{ℕ, Option, none, some, List, [], ◌∷◌, codes, find, insert, remove}
use dee_lip.Sip.Builders.{build_response}
use dee_lip.Sip.Message.{SipMessage, call_id}
use dee_lip.Sip.Dialog.{
  Dialog, DialogState, calling, ringing, confirmed, terminating, terminated, next_local_cseq,
}
use dee_lip.Sip.Calls.{
  State, World, Effect, Handler, sent, event, call_ended, with_dialog, contact_addr,
}
use dee_lip.Sip.Calls.Requests.{bye_text}

abbrev bye_to : World → List ℕ → Option Dialog → Handler
bye_to w id none s = (s, [])
bye_to w id (some d) s =
    let d' = record d { state = terminating; local_cseq = next_local_cseq d } in
    (
      with_dialog id d' s,
      sent (bye_text s.stack d' d'.local_cseq w.branch) (contact_addr w s.stack d') ∷ [],
    )

unfoldable pub hang_up : World → List ℕ → Handler
unfolding find insert bye_text contact_addr
hang_up w id s = bye_to w id (find id s.dialogs) s

abbrev pub without : List ℕ → State → State
without id s = record s { dialogs = remove id s.dialogs }

abbrev pub ok_to : State → SipMessage → List ℕ → Effect
ok_to s msg from = sent (build_response s.stack msg 200 (codes "OK") [] []) from

abbrev bye_of : SipMessage → List ℕ → Option (List ℕ) → Handler
bye_of msg from none s = (s, [])
bye_of msg from (some id) s = (without id s, ok_to s msg from ∷ event (call_ended id) ∷ [])

unfoldable pub on_bye : SipMessage → List ℕ → Handler
unfolding remove call_id build_response
on_bye msg from s = bye_of msg from (call_id msg) s

abbrev acked : DialogState → DialogState
acked calling = confirmed
acked ringing = ringing
acked confirmed = confirmed
acked terminating = terminating
acked terminated = terminated

abbrev ack_of : List ℕ → Option Dialog → State → State
ack_of id none s = s
ack_of id (some d) s = with_dialog id (record d { state = acked d.state }) s

abbrev ack_for : Option (List ℕ) → State → State
ack_for none s = s
ack_for (some id) s = ack_of id (find id s.dialogs) s

unfoldable pub on_ack : SipMessage → Handler
unfolding find insert call_id
on_ack msg s = (ack_for (call_id msg) s, [])

abbrev cancel_of : SipMessage → List ℕ → Option (List ℕ) → Handler
cancel_of msg from none s = (s, ok_to s msg from ∷ [])
cancel_of msg from (some id) s = (without id s, ok_to s msg from ∷ event (call_ended id) ∷ [])

unfoldable pub on_cancel : SipMessage → List ℕ → Handler
unfolding remove call_id build_response
on_cancel msg from s = cancel_of msg from (call_id msg) s
