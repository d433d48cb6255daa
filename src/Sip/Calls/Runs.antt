-- ===== src/Sip/Calls/Runs.antt =====
-- The handlers of a `SipStack` one after another: what holds of the dialogs at every moment of a run.
use dee_lip.Prelude.{
  ℕ, ◌≡◌, refl, subst, ◌&&◌, Option, none, some, Option-cases, Bool-cases, inl, inr, List, [], ◌∷◌,
  codes, ◌++◌, find, Bool, Outcome, err, panic, and_then, ok, if◌then◌else◌,
}
use dee_lip.Sip.Message.{SipMessage}
use dee_lip.Sip.Dialog.{Dialog, Handle, new_outgoing}
use dee_lip.Sip.Calls.{State, World, Effect}
use dee_lip.Sip.Calls.Teardown.{hang_up, on_bye, on_ack, on_cancel}
use dee_lip.Sip.Calls.Outgoing.{OutgoingOfferReady, offered, on_outgoing_offer_ready, first_invite}
use dee_lip.Sip.Calls.Refresh.{
  send_session_refresh, refresh_dialog, refresh_each, refresh_session_timers, send_dtmf_info, due,
  is_confirmed,
}
use dee_lip.Sip.Calls.Messages.{send_message, first_message, on_message, received}
use dee_lip.Sip.Calls.Endings.{Ends}
use dee_lip.Sip.Calls.Keys.{
  WellKeyed, put-WellKeyed, found-IsKeyed, hang_up-WellKeyed, on_bye-WellKeyed, on_cancel-WellKeyed,
  on_ack-WellKeyed, on_response-WellKeyed,
}
use dee_lip.Sip.Calls.Responses.{on_response}
use dee_lip.Sip.Util.{parse_uri}
use dee_lip.Sip.Builders.{field}
use dee_lip.Sip.Calls.Incoming.{
  Local, IncomingAnswerReady, on_invite, accept_call, on_incoming_answer_ready, reject_call,
  on_outgoing_connected,
}
use dee_lip.Sip.Calls.Midcall.{send_reinvite, blind_transfer, attended_transfer, redirect_call}
use dee_lip.Sip.Calls.Keys.Incoming.{
  on_invite-WellKeyed, accept_call-WellKeyed, on_incoming_answer_ready-WellKeyed,
  reject_call-WellKeyed, on_outgoing_connected-WellKeyed,
}
use dee_lip.Sip.Calls.Keys.Midcall.{
  send_reinvite-WellKeyed, blind_transfer-WellKeyed, attended_transfer-WellKeyed,
  redirect_call-WellKeyed,
}

-- One handler.
pub data Step : State → State × List Effect → Type 0 where
  answers :
      (w : World) (msg : SipMessage) (status : ℕ) (s : State) (r : State × List Effect)
      → on_response w msg status s ≡ ok r
      → Step s r
  offers :
      (w : World) (ev : OutgoingOfferReady) (s : State) → Step s (on_outgoing_offer_ready w ev s)
  hangs_up : (w : World) (id : List ℕ) (s : State) → Step s (hang_up w id s)
  takes_bye : (msg : SipMessage) (from : List ℕ) (s : State) → Step s (on_bye msg from s)
  takes_ack : (msg : SipMessage) (s : State) → Step s (on_ack msg s)
  takes_cancel : (msg : SipMessage) (from : List ℕ) (s : State) → Step s (on_cancel msg from s)
  refreshes : (w : World) (s : State) → Step s (refresh_session_timers w s)
  dials : (w : World) (id : List ℕ) (digit : ℕ) (s : State) → Step s (send_dtmf_info w id digit s)
  writes : (w : World) (to body : List ℕ) (s : State) → Step s (send_message w to body s)
  takes_invite :
      (w : World) (msg : SipMessage) (from : List ℕ) (s : State) (r : State × List Effect)
      → on_invite w msg from s ≡ ok r
      → Step s r
  accepts : (w : World) (l : Local) (id : List ℕ) (s : State) → Step s (accept_call w l id s)
  answers_call :
      (w : World) (ev : IncomingAnswerReady) (s : State) → Step s (on_incoming_answer_ready w ev s)
  rejects : (w : World) (id : List ℕ) (s : State) → Step s (reject_call w id s)
  connects : (id : List ℕ) (media : Handle) (s : State) → Step s (on_outgoing_connected id media s)
  holds :
      (w : World) (id : List ℕ) (hold : Bool) (offer : Handle → List ℕ) (s : State)
      → Step s (send_reinvite w id hold offer s)
  transfers : (w : World) (id target : List ℕ) (s : State) → Step s (blind_transfer w id target s)
  transfers_to :
      (w : World) (id consultation : List ℕ) (s : State)
      → Step s (attended_transfer w id consultation s)
  redirects : (w : World) (id target : List ℕ) (s : State) → Step s (redirect_call w id target s)
  takes_message :
      (msg : SipMessage) (from : List ℕ) (s : State) (r : State × List Effect)
      → on_message msg from s ≡ ok r
      → Step s r

-- Any number of handlers, with all that they do.
pub data Run : State → State × List Effect → Type 0 where
  rest : (s : State) → Run s (s, [])
  then_step :
      (s : State) (r last : State × List Effect)
      → Run s r
      → Step r.0 last
      → Run s (last.0, r.1 ++ last.1)

offer-WellKeyed :
    (w : World) (ev : OutgoingOfferReady) (s : State)
    → WellKeyed s
    → WellKeyed (on_outgoing_offer_ready w ev s).0
unfolding on_outgoing_offer_ready offered new_outgoing
offer-WellKeyed w ev s k =
    elim (Option-cases
      (if s.local_account then w.resolve_local_call_target ev.to else some s.stack.server_addr)) [
        | inl h ↦ rw h k
        | inr (dest, h) ↦ rw h (elim (Option-cases (w.send_error (first_invite s ev))) [
          | inl g ↦ rw g (put-WellKeyed ev.call_id (offered ev) s refl k)
          | inr (e, g) ↦ rw g k
        ])
      ]

refresh_dialog-WellKeyed :
    (w : World) (id : List ℕ) (d : Dialog) (interval : Option ℕ) (sdp : Option (List ℕ)) (s : State)
    → d.call_id ≡ id
    → WellKeyed s
    → WellKeyed (refresh_dialog w id d interval sdp s).0
refresh_dialog-WellKeyed w id d none sdp s e k = k
refresh_dialog-WellKeyed w id d (some interval) none s e k = k
refresh_dialog-WellKeyed w id d (some interval) (some sdp) s e k = put-WellKeyed id _ s e k

refresh-WellKeyed :
    (w : World) (id : List ℕ) (s : State) → WellKeyed s → WellKeyed (send_session_refresh w id s).0
unfolding send_session_refresh
refresh-WellKeyed w id s k = elim (Option-cases (find id s.dialogs)) [
  | inl h ↦ rw h k
  | inr (d, h) ↦ rw h (elim (Bool-cases (is_confirmed d.state && d.we_are_refresher)) [
    | inl g ↦ rw g (
        refresh_dialog-WellKeyed w id d d.session_expires d.local_sdp s (found-IsKeyed id d s k h)
          k)
    | inr g ↦ rw g k
  ])
]

each-WellKeyed :
    (w : World) (ids : List (List ℕ)) (s : State) → WellKeyed s → WellKeyed (refresh_each w ids s).0
unfolding refresh_each
each-WellKeyed w [] s k = k
each-WellKeyed w (id ∷ ids) s k =
    each-WellKeyed w ids (send_session_refresh w id s).0 (refresh-WellKeyed w id s k)

dial-WellKeyed :
    (w : World) (id : List ℕ) (digit : ℕ) (s : State)
    → WellKeyed s
    → WellKeyed (send_dtmf_info w id digit s).0
unfolding send_dtmf_info
dial-WellKeyed w id digit s k = elim (Option-cases (find id s.dialogs)) [
  | inl h ↦ rw h k
  | inr (d, h) ↦ rw h (elim (Bool-cases (is_confirmed d.state)) [
    | inl g ↦ rw g (put-WellKeyed id _ s (found-IsKeyed id d s k h) k)
    | inr g ↦ rw g k
  ])
]

write-WellKeyed :
    (w : World) (to body : List ℕ) (s : State)
    → WellKeyed s
    → WellKeyed (send_message w to body s).0
unfolding send_message
write-WellKeyed w to body s k = elim (Option-cases (w.send_error (first_message w s to body))) [
  | inl h ↦ rw h k
  | inr (e, h) ↦ rw h k
]

message-WellKeyed :
    (msg : SipMessage) (from : List ℕ) (s : State)
    → WellKeyed s
    → Ends (λ s' out. WellKeyed s') (on_message msg from s)
unfolding on_message
message-WellKeyed msg from s k = by (parse_uri (field msg (codes "From")))
  where
    by :
        (o : Outcome (Unit {0}) (Option (List ℕ)))
        → Ends (λ s' out. WellKeyed s') (and_then (λ uri. ok (received msg from uri s)) o)
    by panic = tt
    by (err e) = tt
    by (ok uri) = k

Step-WellKeyed : (s : State) (r : State × List Effect) → Step s r → WellKeyed s → WellKeyed r.0
unfolding refresh_session_timers refresh_each
Step-WellKeyed _ _ (answers w msg status s r e) k =
    subst (Ends (λ s' out. WellKeyed s')) e (on_response-WellKeyed w msg status s k)
Step-WellKeyed _ _ (offers w ev s) k = offer-WellKeyed w ev s k
Step-WellKeyed _ _ (hangs_up w id s) k = hang_up-WellKeyed w id s k
Step-WellKeyed _ _ (takes_bye msg from s) k = on_bye-WellKeyed msg from s k
Step-WellKeyed _ _ (takes_ack msg s) k = on_ack-WellKeyed msg s k
Step-WellKeyed _ _ (takes_cancel msg from s) k = on_cancel-WellKeyed msg from s k
Step-WellKeyed _ _ (refreshes w s) k = each-WellKeyed w (due w.now s.dialogs) s k
Step-WellKeyed _ _ (dials w id digit s) k = dial-WellKeyed w id digit s k
Step-WellKeyed _ _ (writes w to body s) k = write-WellKeyed w to body s k
Step-WellKeyed _ _ (takes_invite w msg from s r e) k =
    subst (Ends (λ s' out. WellKeyed s')) e (on_invite-WellKeyed w msg from s k)
Step-WellKeyed _ _ (accepts w l id s) k = accept_call-WellKeyed w l id s k
Step-WellKeyed _ _ (answers_call w ev s) k = on_incoming_answer_ready-WellKeyed w ev s k
Step-WellKeyed _ _ (rejects w id s) k = reject_call-WellKeyed w id s k
Step-WellKeyed _ _ (connects id media s) k = on_outgoing_connected-WellKeyed id media s k
Step-WellKeyed _ _ (holds w id hold offer s) k = send_reinvite-WellKeyed w id hold offer s k
Step-WellKeyed _ _ (transfers w id target s) k = blind_transfer-WellKeyed w id target s k
Step-WellKeyed _ _ (transfers_to w id other s) k = attended_transfer-WellKeyed w id other s k
Step-WellKeyed _ _ (redirects w id target s) k = redirect_call-WellKeyed w id target s k
Step-WellKeyed _ _ (takes_message msg from s r e) k =
    subst (Ends (λ s' out. WellKeyed s')) e (message-WellKeyed msg from s k)

-- A run is any sequence of the handlers that reach the dialogs: responses, offers, INVITEs, ACKs, BYEs and
-- CANCELs, hanging up, accepting, answering, rejecting and redirecting, connecting, hold and resume, both
-- transfers, refreshes, DTMF, and with them the instant messages. After any run from a stack whose dialogs
-- stand under their own Call-IDs (a new stack has none), they still do.
pub Run-WellKeyed : (s : State) (r : State × List Effect) → Run s r → WellKeyed s → WellKeyed r.0
Run-WellKeyed _ _ (rest s) k = k
Run-WellKeyed _ _ (then_step s r last before step) k =
    Step-WellKeyed r.0 last step (Run-WellKeyed s r before k)
