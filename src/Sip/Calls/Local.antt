-- ===== src/Sip/Calls/Local.antt =====
-- Which dialogs a response touches, and which a reported end leaves (call/lifecycle/response).
use dee_lip.Prelude.{
  ℕ, ◌≡◌, refl, ap, sym, subst, ◌∙◌, true, false, Option, none, some, Option-cases, Bool-cases, inl,
  inr, List, [], ◌∷◌, ◌++◌, All, All-append, codes, find, find-insert_other, find-remove,
  find-remove_other, bytes_eq,
}
use mathlib.Core.Option.{some_inj}
use dee_lip.Sip.Message.{SipMessage, call_id}
use dee_lip.Sip.Dialog.{Dialog, Handle, terminated}
use dee_lip.Sip.Calls.{
  State, World, Effect, sent, event, handed_on, connecting, resolving, incoming_call,
  call_connected, remote_held, remote_resumed, call_ended, call_failed, call_ringing, call_held,
  call_resumed, transfer_accepted, transfer_failed, message_send_result, message_received,
  with_dialog,
}
use dee_lip.Sip.Calls.Teardown.{hang_up}
use dee_lip.Sip.Calls.Classify.{
  Ack, Verdict, connected, session_refresh_ack, bye_ok, failed, invite_challenged,
  session_interval_too_small,
}
use dee_lip.Sip.Calls.Judgement.{
  Judgement, idle, rings, connects, refreshes, reinvites, ends, fails, challenges, enlarges,
}
use dee_lip.Sip.Calls.Endings.{Ends, IsCalm, on_response-Ends}
use dee_lip.Sip.Calls.Keys.{WellKeyed, found-IsKeyed}
use dee_lip.Sip.Calls.Responses.{
  on_response, perform, perform_on, dropped, on_dialog, with_timer, handle_connected, no_codec,
  connect_media, challenge_dialog, interval_dialog,
}

-- A call that is reported as ended or failed has no dialog.
abbrev pub IsGone : State → Effect → Type 0
IsGone s (event (call_ended id)) = find id s.dialogs ≡ none
IsGone s (event (call_failed id code reason)) = find id s.dialogs ≡ none
IsGone s e = Unit {0}

-- The dialogs of other calls are as they were, and what is reported as ended is gone.
pub record IsLocal (id : List ℕ) (s : State) (r : State × List Effect) : Type 0 where
  pub others :
      (other : List ℕ) → bytes_eq id other ≡ false → find other r.0.dialogs ≡ find other s.dialogs
  pub gone : All (IsGone r.0) r.1

put-IsLocal :
    (id : List ℕ) (d : Dialog) (s : State) (out : List Effect)
    → All (IsGone (with_dialog id d s)) out
    → IsLocal id s (with_dialog id d s, out)
put-IsLocal id d s out g = record {
  others = λ other ne. find-insert_other id other d s.dialogs ne;
  gone = g;
}

drop-IsLocal :
    (id : List ℕ) (s : State) (out : List Effect)
    → All (IsGone (dropped id s)) out
    → IsLocal id s (dropped id s, out)
drop-IsLocal id s out g = record {
  others = λ other ne. find-remove_other id other s.dialogs ne;
  gone = g;
}

same-IsLocal :
    (id : List ℕ) (s : State) (out : List Effect) → All (IsGone s) out → IsLocal id s (s, out)
same-IsLocal id s out g = record { others = λ other ne. refl; gone = g }

-- What is done behind something that reports no end.
then-IsLocal :
    (id : List ℕ) (s t : State) (out : List Effect) (r : State × List Effect)
    → IsLocal id s (t, [])
    → All (IsGone r.0) out
    → IsLocal id t r
    → IsLocal id s (r.0, out ++ r.1)
then-IsLocal id s t out r a g b = record {
  others = λ other ne. b.others other ne ∙ a.others other ne;
  gone = All-append (IsGone r.0) out r.1 g b.gone;
}

on_dialog-IsLocal :
    (id : List ℕ) (f : Dialog → Dialog) (s : State)
    → IsLocal id s (on_dialog id f (find id s.dialogs) s, [])
on_dialog-IsLocal id f s = elim (Option-cases (find id s.dialogs)) [
  | inl h ↦ rw h (same-IsLocal id s [] tt)
  | inr (d, h) ↦ rw h (put-IsLocal id (f d) s [] tt)
]

with_timer-IsLocal :
    (w : World) (id : List ℕ) (timer : Option (ℕ × Option (List ℕ))) (s : State)
    → IsLocal id s (with_timer w id timer s, [])
with_timer-IsLocal w id none s = same-IsLocal id s [] tt
with_timer-IsLocal w id (some (interval, refresher)) s = on_dialog-IsLocal id _ s

hang_up-others : (w : World) (id : List ℕ) (s : State) → IsLocal id s ((hang_up w id s).0, [])
unfolding hang_up
hang_up-others w id s = elim (Option-cases (find id s.dialogs)) [
  | inl h ↦ rw h (same-IsLocal id s [] tt)
  | inr (d, h) ↦ rw h (put-IsLocal id _ s [] tt)
]

hang_up-IsGone : (w : World) (id : List ℕ) (s t : State) → All (IsGone t) (hang_up w id s).1
unfolding hang_up
hang_up-IsGone w id s t = elim (Option-cases (find id s.dialogs)) [
  | inl h ↦ rw h tt
  | inr (d, h) ↦ rw h (tt, tt)
]

no_codec-IsLocal : (w : World) (id : List ℕ) (s : State) → IsLocal id s (no_codec w id s)
no_codec-IsLocal w id s =
    let t = (hang_up w id s).0 in
    let last = event (call_failed id 0 (codes "No compatible codec in answer")) ∷ [] in
    then-IsLocal id s t (hang_up w id s).1 (dropped id t, last) (hang_up-others w id s)
      (hang_up-IsGone w id s (dropped id t)) (drop-IsLocal id t last (find-remove id t.dialogs, tt))

connect_media-IsLocal :
    (id : List ℕ) (offer gathered : Option Handle) (s : State)
    → IsLocal id s (connect_media id offer gathered s)
connect_media-IsLocal id none gathered s = same-IsLocal id s [] tt
connect_media-IsLocal id (some o) gathered s = record {
  others = (on_dialog-IsLocal id (λ d. record d { pending_offer_video = none }) s).others;
  gone = (tt, tt);
}

connected-IsLocal :
    (w : World) (id sdp : List ℕ) (offer gathered : Option Handle) (a : Ack)
    (timer : Option (ℕ × Option (List ℕ))) (s : State)
    → IsLocal id s (handle_connected w id sdp offer gathered a timer s)
connected-IsLocal w id sdp offer gathered a timer s =
    let t = with_timer w id timer s in
    let timed = with_timer-IsLocal w id timer s in
    elim (Bool-cases (w.has_codec sdp)) [
      | inl h ↦ rw h (
          then-IsLocal id s t (_ ∷ []) (connect_media id offer gathered t) timed (tt, tt)
            (connect_media-IsLocal id offer gathered t))
      | inr h ↦
          rw h (
            then-IsLocal id s t (_ ∷ []) (no_codec w id t) timed (tt, tt) (no_codec-IsLocal w id t))
    ]

challenge-IsLocal :
    (w : World) (id to_uri sdp : List ℕ) (a : Ack) (auth : Option (List ℕ)) (s : State)
    → IsLocal id s (challenge_dialog w id to_uri sdp a auth (find id s.dialogs) s)
challenge-IsLocal w id to_uri sdp a auth s = elim (Option-cases (find id s.dialogs)) [
  | inl h ↦ rw h (same-IsLocal id s [] tt)
  | inr (d, h) ↦ rw h (elim (Option-cases auth) [
    | inl g ↦ rw g (drop-IsLocal id s _ (tt, (find-remove id s.dialogs, tt)))
    | inr (x, g) ↦ rw g (put-IsLocal id _ s _ (tt, (tt, tt)))
  ])
]

interval-IsLocal :
    (w : World) (id to_uri sdp : List ℕ) (min_se : ℕ) (a : Ack) (s : State)
    → IsLocal id s (interval_dialog w id to_uri sdp min_se a (find id s.dialogs) s)
interval-IsLocal w id to_uri sdp min_se a s = elim (Option-cases (find id s.dialogs)) [
  | inl h ↦ rw h (same-IsLocal id s [] tt)
  | inr (d, h) ↦ rw h (put-IsLocal id _ s _ (tt, (tt, tt)))
]

module _ (w : World) (id : List ℕ) (s : State) (d : Dialog) (keyed : d.call_id ≡ id) where
  after :
      (v : Verdict)
      → IsLocal d.call_id (with_dialog id v.0 s) (perform_on w id s v)
      → IsLocal id s (perform_on w id s v)
  after v l =
      let t = with_dialog id v.0 s in
      then-IsLocal id s t [] (perform_on w id s v) (put-IsLocal id v.0 s [] tt) tt
        (subst (λ k. IsLocal k t (perform_on w id s v)) keyed l)

  judged-IsLocal : (v : Verdict) → Judgement id d v → IsLocal id s (perform_on w id s v)
  unfolding perform
  judged-IsLocal _ idle = put-IsLocal id d s [] tt
  judged-IsLocal _ rings = put-IsLocal id _ s _ (tt, tt)
  judged-IsLocal _ (connects sdp tag contact a timer) =
      after (_, connected d.call_id sdp d.pending_offer d.ice_gathered a timer)
        (connected-IsLocal w d.call_id sdp d.pending_offer d.ice_gathered a timer _)
  judged-IsLocal _ (refreshes a timer) =
      let t = with_dialog id (record d { session_refresh_pending = false }) s in
      after (_, session_refresh_ack d.call_id a timer)
        (record { others = (with_timer-IsLocal w d.call_id timer t).others; gone = (tt, tt) })
  judged-IsLocal _ (reinvites true a) = put-IsLocal id _ s _ (tt, (tt, tt))
  judged-IsLocal _ (reinvites false a) = put-IsLocal id _ s _ (tt, (tt, tt))
  judged-IsLocal _ ends =
      let t = with_dialog id (record d { state = terminated }) s in
      after (_, bye_ok d.call_id) (drop-IsLocal d.call_id t _ (find-remove d.call_id t.dialogs, tt))
  judged-IsLocal _ (fails code reason) =
      let t = with_dialog id d s in
      then-IsLocal id s t [] (perform_on w id s (d, failed id code reason))
        (put-IsLocal id d s [] tt) tt (drop-IsLocal id t _ (find-remove id t.dialogs, tt))
  judged-IsLocal _ (challenges sdp raw a fresh) =
      after (_, invite_challenged d.call_id d.remote_uri sdp raw a)
        (challenge-IsLocal w d.call_id d.remote_uri sdp a _ _)
  judged-IsLocal _ (enlarges sdp min_se a fresh) =
      after (d, session_interval_too_small d.call_id d.remote_uri sdp min_se a)
        (interval-IsLocal w d.call_id d.remote_uri sdp min_se a (with_dialog id d s))

calm-IsGone : (s : State) (e : Effect) → IsCalm e → IsGone s e
calm-IsGone s (sent text addr) c = tt
calm-IsGone s (handed_on m msg) c = tt
calm-IsGone s (connecting id o g v) c = tt
calm-IsGone s (resolving i) c = tt
calm-IsGone s (event (incoming_call i f n)) c = tt
calm-IsGone s (event (call_connected i m)) c = tt
calm-IsGone s (event (remote_held i)) c = tt
calm-IsGone s (event (remote_resumed i)) c = tt
calm-IsGone s (event (call_ringing i)) c = tt
calm-IsGone s (event (call_ended i)) c = absurd c
calm-IsGone s (event (call_held i)) c = tt
calm-IsGone s (event (call_resumed i)) c = tt
calm-IsGone s (event (transfer_accepted i)) c = tt
calm-IsGone s (event (call_failed i n r)) c = absurd c
calm-IsGone s (event (transfer_failed i r)) c = tt
calm-IsGone s (event (message_send_result t d r)) c = tt
calm-IsGone s (event (message_received f b)) c = tt

calm-All : (s : State) (out : List Effect) → All IsCalm out → All (IsGone s) out
calm-All s [] c = tt
calm-All s (e ∷ es) c = (calm-IsGone s e c.0, calm-All s es c.1)

-- Where the dialogs stand under their own Call-IDs: a response leaves the dialogs of all other calls as they
-- were, whatever it is.
pub on_response-others :
    (w : World) (msg : SipMessage) (status : ℕ) (s : State) (id other : List ℕ)
    → WellKeyed s
    → call_id msg ≡ some id
    → bytes_eq id other ≡ false
    → Ends (λ s' out. find other s'.dialogs ≡ find other s.dialogs) (on_response w msg status s)
on_response-others w msg status s id other k named ne =
    on_response-Ends w msg status s (λ s' out. find other s'.dialogs ≡ find other s.dialogs)
      (λ s' out q. ap (find other) q.same)
      (λ key d v named' found judged.
        (judged-IsLocal w key s d (found-IsKeyed key d s k found) v judged).others other
          (ap (λ i. bytes_eq i other) (some_inj.0 (sym named' ∙ named)) ∙ ne))

-- Where the dialogs stand under their own Call-IDs: a call whose end or failure a response makes the stack
-- report has no dialog afterwards.
pub on_response-IsGone :
    (w : World) (msg : SipMessage) (status : ℕ) (s : State)
    → WellKeyed s
    → Ends (λ s' out. All (IsGone s') out) (on_response w msg status s)
on_response-IsGone w msg status s k =
    on_response-Ends w msg status s (λ s' out. All (IsGone s') out)
      (λ s' out q. calm-All s' out q.calm)
      (λ key d v named' found judged.
        (judged-IsLocal w key s d (found-IsKeyed key d s k found) v judged).gone)
