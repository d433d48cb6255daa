-- ===== src/Sip/Calls/Keys/Incoming.antt =====
-- The dialogs stand under their own Call-IDs, whatever the handlers of call/lifecycle/incoming.rs do.
use dee_lip.Prelude.{
  ℕ, ◌≡◌, refl, ◌∙◌, [], codes, Option, none, some, Option-cases, Bool-cases, inl, inr, List, find,
  Outcome, ok, err, panic, and_then, All-remove,
}
use dee_lip.Sip.Util.{or_text, parse_uri}
use dee_lip.Sip.Message.{SipMessage, call_id}
use dee_lip.Sip.Builders.{SipStack, field}
use dee_lip.Sip.Dialog.{Dialog, Handle, new_incoming}
use dee_lip.Sip.Calls.{State, World}
use dee_lip.Sip.Calls.Endings.{Ends}
use dee_lip.Sip.Calls.Refresh.{is_confirmed}
use dee_lip.Sip.Calls.Keys.{WellKeyed, IsKeyed, put-WellKeyed, found-IsKeyed}
use dee_lip.Sip.Calls.Incoming.{
  Local, IncomingAnswerReady, on_invite, invite_for, fresh_invite, rung, dialog_from, reject_call,
  accept_call, accepted, on_incoming_answer_ready, answer_with, established, timer_info,
  on_outgoing_connected,
}

fresh-WellKeyed :
    (w : World) (msg : SipMessage) (from id : List ℕ) (s : State)
    → WellKeyed s
    → Ends (λ s' out. WellKeyed s') (fresh_invite w msg from id s)
unfolding new_incoming
fresh-WellKeyed w msg from id s k = by (parse_uri (field msg (codes "From")))
  where
    by :
        (o : Outcome (Unit {0}) (Option (List ℕ)))
        → Ends
            (λ s' out. WellKeyed s')
            (and_then (λ uri. ok (rung w msg from id (or_text uri (field msg (codes "From"))) s)) o)
    by panic = tt
    by (err e) = tt
    by (ok uri) = put-WellKeyed id (dialog_from w msg from id _) s refl k

invite-WellKeyed :
    (w : World) (msg : SipMessage) (from id : List ℕ) (o : Option Dialog) (s : State)
    → WellKeyed s
    → find id s.dialogs ≡ o
    → Ends (λ s' out. WellKeyed s') (invite_for w msg from id o s)
invite-WellKeyed w msg from id none s k h = fresh-WellKeyed w msg from id s k
invite-WellKeyed w msg from id (some d) s k h = elim (Bool-cases (is_confirmed d.state)) [
  | inl g ↦ rw g (put-WellKeyed id _ s (found-IsKeyed id d s k h) k)
  | inr g ↦ rw g (fresh-WellKeyed w msg from id s k)
]

pub on_invite-WellKeyed :
    (w : World) (msg : SipMessage) (from : List ℕ) (s : State)
    → WellKeyed s
    → Ends (λ s' out. WellKeyed s') (on_invite w msg from s)
unfolding on_invite
on_invite-WellKeyed w msg from s k = elim (Option-cases (call_id msg)) [
  | inl h ↦ rw h k
  | inr (id, h) ↦ rw h (invite-WellKeyed w msg from id (find id s.dialogs) s k refl)
]

pub reject_call-WellKeyed :
    (w : World) (id : List ℕ) (s : State) → WellKeyed s → WellKeyed (reject_call w id s).0
unfolding reject_call
reject_call-WellKeyed w id s k = elim (Option-cases (find id s.dialogs)) [
  | inl h ↦ rw h k
  | inr (d, h) ↦ rw h (All-remove IsKeyed id s.dialogs k)
]

accepted-WellKeyed :
    (w : World) (l : Local) (id : List ℕ) (o : Option Dialog) (s : State)
    → WellKeyed s
    → WellKeyed (accepted w l id o s).0
accepted-WellKeyed w l id none s k = k
accepted-WellKeyed w l id (some d) s k = elim (Bool-cases (l.takes (or_text d.remote_sdp []))) [
  | inl g ↦ elim (Bool-cases l.has_port) [
    | inl h ↦ rw (g, h) k
    | inr h ↦ rw (g, h) (reject_call-WellKeyed w id s k)
  ]
  | inr g ↦ rw g (reject_call-WellKeyed w id s k)
]

pub accept_call-WellKeyed :
    (w : World) (l : Local) (id : List ℕ) (s : State)
    → WellKeyed s
    → WellKeyed (accept_call w l id s).0
unfolding accept_call
accept_call-WellKeyed w l id s k = accepted-WellKeyed w l id (find id s.dialogs) s k

established-IsKeyed :
    (w : World) (st : SipStack) (ev : IncomingAnswerReady) (d : Dialog)
    → (established w st ev d).call_id ≡ d.call_id
established-IsKeyed w st ev d = elim (Option-cases (timer_info st d)) [
  | inl h ↦ rw h refl
  | inr (i, h) ↦ rw h refl
]

pub on_incoming_answer_ready-WellKeyed :
    (w : World) (ev : IncomingAnswerReady) (s : State)
    → WellKeyed s
    → WellKeyed (on_incoming_answer_ready w ev s).0
unfolding on_incoming_answer_ready
on_incoming_answer_ready-WellKeyed w ev s k = by (find ev.call_id s.dialogs) refl
  where
    by : (o : Option Dialog) → find ev.call_id s.dialogs ≡ o → WellKeyed (answer_with w ev o s).0
    by none h = k
    by (some d) h =
        put-WellKeyed ev.call_id (established w s.stack ev d) s
          (established-IsKeyed w s.stack ev d ∙ found-IsKeyed ev.call_id d s k h) k

pub on_outgoing_connected-WellKeyed :
    (id : List ℕ) (media : Handle) (s : State)
    → WellKeyed s
    → WellKeyed (on_outgoing_connected id media s).0
unfolding on_outgoing_connected
on_outgoing_connected-WellKeyed id media s k = elim (Option-cases (find id s.dialogs)) [
  | inl h ↦ rw h k
  | inr (d, h) ↦ rw h (put-WellKeyed id _ s (found-IsKeyed id d s k h) k)
]
