-- ===== src/Sip/Calls/Keys.antt =====
-- The dialogs stand under their own Call-IDs, whatever the handlers of call/lifecycle do.
pub mod Incoming
pub mod Midcall
use dee_lip.Prelude.{
  sym, subst, ℕ, ◌≡◌, refl, ◌∙◌, Option, none, some, Option-cases, Bool-cases, inl, inr, List, All,
  find, All-insert, All-remove, All-find, codes,
}
use dee_lip.Sip.Message.{SipMessage, call_id}
use dee_lip.Sip.Dialog.{Dialog, Handle}
use dee_lip.Sip.Calls.{State, World, with_dialog}
use dee_lip.Sip.Calls.Teardown.{hang_up, on_bye, on_ack, on_cancel}
use dee_lip.Sip.Calls.Messages.{auth_name}
use dee_lip.Sip.Auth.{build_challenge_response}
use dee_lip.Sip.Calls.Classify.{
  Verdict, Act, Ack, nothing_to_do, is_ringing, connected, reinvite_ack, session_refresh_ack,
  bye_ok, failed, invite_challenged, session_interval_too_small,
}
use dee_lip.Sip.Calls.Judgement.{
  Judgement, idle, rings, connects, refreshes, reinvites, ends, fails, challenges, enlarges,
}
use dee_lip.Sip.Calls.Endings.{Ends, on_response-Ends}
use dee_lip.Sip.Calls.Responses.{
  on_response, perform, on_dialog, with_timer, handle_connected, no_codec, connect_media,
  challenge_dialog, interval_dialog,
}

abbrev pub IsKeyed : List ℕ × Dialog → Type 0
IsKeyed e = e.1.call_id ≡ e.0

abbrev pub WellKeyed : State → Type 0
WellKeyed s = All IsKeyed s.dialogs

pub put-WellKeyed :
    (id : List ℕ) (d : Dialog) (s : State)
    → d.call_id ≡ id
    → WellKeyed s
    → WellKeyed (with_dialog id d s)
put-WellKeyed id d s e w = All-insert IsKeyed id d s.dialogs e w

pub found-IsKeyed :
    (id : List ℕ) (d : Dialog) (s : State)
    → WellKeyed s
    → find id s.dialogs ≡ some d
    → d.call_id ≡ id
found-IsKeyed id d s w h = All-find IsKeyed id d s.dialogs w h

pub hang_up-WellKeyed :
    (w : World) (id : List ℕ) (s : State) → WellKeyed s → WellKeyed (hang_up w id s).0
unfolding hang_up
hang_up-WellKeyed w id s k = elim (Option-cases (find id s.dialogs)) [
  | inl h ↦ rw h k
  | inr (d, h) ↦ rw h (put-WellKeyed id _ s (found-IsKeyed id d s k h) k)
]

pub on_bye-WellKeyed :
    (msg : SipMessage) (from : List ℕ) (s : State) → WellKeyed s → WellKeyed (on_bye msg from s).0
unfolding on_bye
on_bye-WellKeyed msg from s k = elim (Option-cases (call_id msg)) [
  | inl h ↦ rw h k
  | inr (id, h) ↦ rw h (All-remove IsKeyed id s.dialogs k)
]

pub on_cancel-WellKeyed :
    (msg : SipMessage) (from : List ℕ) (s : State)
    → WellKeyed s
    → WellKeyed (on_cancel msg from s).0
unfolding on_cancel
on_cancel-WellKeyed msg from s k = elim (Option-cases (call_id msg)) [
  | inl h ↦ rw h k
  | inr (id, h) ↦ rw h (All-remove IsKeyed id s.dialogs k)
]

pub on_ack-WellKeyed : (msg : SipMessage) (s : State) → WellKeyed s → WellKeyed (on_ack msg s).0
unfolding on_ack
on_ack-WellKeyed msg s k = elim (Option-cases (call_id msg)) [
  | inl h ↦ rw h k
  | inr (id, h) ↦ rw h (elim (Option-cases (find id s.dialogs)) [
    | inl g ↦ rw g k
    | inr (d, g) ↦ rw g (put-WellKeyed id _ s (found-IsKeyed id d s k g) k)
  ])
]

on_dialog-WellKeyed :
    (id : List ℕ) (f : Dialog → Dialog) (s : State)
    → ((d : Dialog) → (f d).call_id ≡ d.call_id)
    → WellKeyed s
    → WellKeyed (on_dialog id f (find id s.dialogs) s)
on_dialog-WellKeyed id f s kept k = elim (Option-cases (find id s.dialogs)) [
  | inl h ↦ rw h k
  | inr (d, h) ↦ rw h (put-WellKeyed id (f d) s (kept d ∙ found-IsKeyed id d s k h) k)
]

with_timer-WellKeyed :
    (w : World) (id : List ℕ) (timer : Option (ℕ × Option (List ℕ))) (s : State)
    → WellKeyed s
    → WellKeyed (with_timer w id timer s)
with_timer-WellKeyed w id none s k = k
with_timer-WellKeyed w id (some (interval, refresher)) s k =
    on_dialog-WellKeyed id _ s (λ d. refl) k

no_codec-WellKeyed :
    (w : World) (id : List ℕ) (s : State) → WellKeyed s → WellKeyed (no_codec w id s).0
no_codec-WellKeyed w id s k =
    All-remove IsKeyed id (hang_up w id s).0.dialogs (hang_up-WellKeyed w id s k)

connect_media-WellKeyed :
    (id : List ℕ) (offer gathered : Option Handle) (s : State)
    → WellKeyed s
    → WellKeyed (connect_media id offer gathered s).0
connect_media-WellKeyed id none gathered s k = k
connect_media-WellKeyed id (some o) gathered s k = on_dialog-WellKeyed id _ s (λ d. refl) k

challenge-WellKeyed :
    (w : World) (id to_uri sdp : List ℕ) (a : Ack) (auth : Option (List ℕ)) (s : State)
    → WellKeyed s
    → WellKeyed (challenge_dialog w id to_uri sdp a auth (find id s.dialogs) s).0
challenge-WellKeyed w id to_uri sdp a auth s k = elim (Option-cases (find id s.dialogs)) [
  | inl h ↦ rw h k
  | inr (d, h) ↦ rw h (elim (Option-cases auth) [
    | inl g ↦ rw g (All-remove IsKeyed id s.dialogs k)
    | inr (x, g) ↦ rw g (put-WellKeyed id _ s (found-IsKeyed id d s k h) k)
  ])
]

interval-WellKeyed :
    (w : World) (id to_uri sdp : List ℕ) (min_se : ℕ) (a : Ack) (s : State)
    → WellKeyed s
    → WellKeyed (interval_dialog w id to_uri sdp min_se a (find id s.dialogs) s).0
interval-WellKeyed w id to_uri sdp min_se a s k = elim (Option-cases (find id s.dialogs)) [
  | inl h ↦ rw h k
  | inr (d, h) ↦ rw h (put-WellKeyed id _ s (found-IsKeyed id d s k h) k)
]

connected-WellKeyed :
    (w : World) (id sdp : List ℕ) (offer gathered : Option Handle) (a : Ack)
    (timer : Option (ℕ × Option (List ℕ))) (s : State)
    → WellKeyed s
    → WellKeyed (handle_connected w id sdp offer gathered a timer s).0
connected-WellKeyed w id sdp offer gathered a timer s k =
    let s' = with_timer w id timer s in
    let k' = with_timer-WellKeyed w id timer s k in
    elim (Bool-cases (w.has_codec sdp)) [
      | inl h ↦ rw h (connect_media-WellKeyed id offer gathered s' k')
      | inr h ↦ rw h (no_codec-WellKeyed w id s' k')
    ]

perform-WellKeyed :
    (w : World) (id : List ℕ) (act : Act) (s : State)
    → WellKeyed s
    → WellKeyed (perform w id act s).0
unfolding perform
perform-WellKeyed w id nothing_to_do s k = k
perform-WellKeyed w id is_ringing s k = k
perform-WellKeyed w id (connected id' sdp offer gathered a timer) s k =
    connected-WellKeyed w id' sdp offer gathered a timer s k
perform-WellKeyed w id (reinvite_ack id' hold a) s k = k
perform-WellKeyed w id (session_refresh_ack id' a timer) s k = with_timer-WellKeyed w id' timer s k
perform-WellKeyed w id (bye_ok id') s k = All-remove IsKeyed id' s.dialogs k
perform-WellKeyed w id (failed id' code reason) s k = All-remove IsKeyed id' s.dialogs k
perform-WellKeyed w id (invite_challenged id' to_uri sdp raw a) s k =
    challenge-WellKeyed w id' to_uri sdp a
      (build_challenge_response w.md5_hex (auth_name s.stack) s.stack.password (codes "INVITE")
        to_uri raw)
      s k
perform-WellKeyed w id (session_interval_too_small id' to_uri sdp min_se a) s k =
    interval-WellKeyed w id' to_uri sdp min_se a s k

judged-call_id :
    (id : List ℕ) (d : Dialog) (v : Verdict) → Judgement id d v → v.0.call_id ≡ d.call_id
judged-call_id id d _ idle = refl
judged-call_id id d _ rings = refl
judged-call_id id d _ (connects sdp tag contact a timer) = refl
judged-call_id id d _ (refreshes a timer) = refl
judged-call_id id d _ (reinvites hold a) = refl
judged-call_id id d _ ends = refl
judged-call_id id d _ (fails code reason) = refl
judged-call_id id d _ (challenges sdp raw a fresh) = refl
judged-call_id id d _ (enlarges sdp min_se a fresh) = refl

pub on_response-WellKeyed :
    (w : World) (msg : SipMessage) (status : ℕ) (s : State)
    → WellKeyed s
    → Ends (λ s' out. WellKeyed s') (on_response w msg status s)
on_response-WellKeyed w msg status s k =
    on_response-Ends w msg status s (λ s' out. WellKeyed s')
      (λ s' out q. subst (All IsKeyed) (sym q.same) k)
      (λ id d v named found judged.
        perform-WellKeyed w id v.1 (with_dialog id v.0 s)
          (put-WellKeyed id v.0 s (judged-call_id id d v judged ∙ found-IsKeyed id d s k found) k))
