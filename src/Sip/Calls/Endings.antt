-- ===== src/Sip/Calls/Endings.antt =====
-- What `on_response` (call/lifecycle/response/mod.rs) does, by the verdict on the response.
use dee_lip.Prelude.{
  ℕ, ◌≡◌, refl, Bool, true, false, ◌&&◌, ◌||◌, Option, none, some, Option-cases, Bool-cases, inl,
  inr, List, [], ◌==◌, leb, ltb, All, Outcome, panic, err, ok, and_then, find, codes, bytes_eq,
  to_string, strip_prefix,
}
use dee_lip.Sip.Message.{
  SipMethod, SipMessage, starts_with, call_id, cseq, header, register, invite, ack, bye, cancel,
  options, info, notify, subscribe, refer, message, publish, other,
}
use dee_lip.Sip.Auth.{build_challenge_response}
use dee_lip.Sip.Dialog.{Dialog}
use dee_lip.Sip.Calls.{State, World, Effect, PendingMessage, sent, event, call_ended, call_failed}
use dee_lip.Sip.Calls.Messages.{
  on_message_response, build_message, auth_name, settle, retry, answer_challenge, challenged,
  challenge_name, challenged_as,
}
use dee_lip.Sip.Calls.Classify.{Verdict, classify}
use dee_lip.Sip.Calls.Judgement.{Judgement, Judged, classify-Judged}
use dee_lip.Sip.Calls.Responses.{
  on_response, perform_on, dialog_response, by_method, transfer_response,
}

-- What an outcome has, if it is one.
abbrev pub Ends : (State → List Effect → Type 0) → Outcome (Unit {0}) (State × List Effect) → Type 0
Ends P panic = Unit {0}
Ends P (err e) = Unit {0}
Ends P (ok r) = P r.0 r.1

abbrev pub is_invite_text : List ℕ → Bool
is_invite_text text = starts_with (codes "INVITE ") text

-- An effect that sends no INVITE and ends no call.
abbrev pub IsCalm : Effect → Type 0
IsCalm (sent text addr) = is_invite_text text ≡ false
IsCalm (event (call_ended id)) = ⊥
IsCalm (event (call_failed id code reason)) = ⊥
IsCalm e = Unit {0}

-- What touches no dialog.
pub record IsQuiet (s s' : State) (out : List Effect) : Type 0 where
  pub same : s'.dialogs ≡ s.dialogs
  pub calm : All IsCalm out

build_message-calm :
    (w : World) (s : State) (id from_tag : List ℕ) (n : ℕ) (to body : List ℕ)
    (auth : Option (List ℕ))
    → is_invite_text (build_message w s id from_tag n to body auth) ≡ false
unfolding build_message strip_prefix
build_message-calm w s id from_tag n to body auth = refl

settle-IsQuiet :
    (id : List ℕ) (p : Option PendingMessage) (done : Bool) (reason : Option (List ℕ)) (s : State)
    → IsQuiet s (settle id p done reason s).0 (settle id p done reason s).1
settle-IsQuiet id none done reason s = record { same = refl; calm = tt }
settle-IsQuiet id (some p) done reason s = record { same = refl; calm = (tt, tt) }

retry-IsQuiet :
    (w : World) (id : List ℕ) (p : PendingMessage) (auth : Option (List ℕ)) (s : State)
    → IsQuiet s (retry w id p auth s).0 (retry w id p auth s).1
retry-IsQuiet w id p none s = record { same = refl; calm = (tt, tt) }
retry-IsQuiet w id p (some auth) s = record {
  same = refl;
  calm = (build_message-calm w s id p.from_tag 2 p.to p.body (some auth), tt);
}

answer-IsQuiet :
    (w : World) (id : List ℕ) (p : PendingMessage) (raw : Option (List ℕ)) (s : State)
    → IsQuiet s (answer_challenge w id p raw s).0 (answer_challenge w id p raw s).1
answer-IsQuiet w id p none s = record { same = refl; calm = (tt, tt) }
answer-IsQuiet w id p (some raw) s =
    retry-IsQuiet w id p
      (build_challenge_response w.md5_hex (auth_name s.stack) s.stack.password (codes "MESSAGE")
        p.to raw)
      s

challenged-IsQuiet :
    (w : World) (msg : SipMessage) (status : ℕ) (id : List ℕ) (p : Option PendingMessage)
    (s : State)
    → IsQuiet s (challenged w msg status id p s).0 (challenged w msg status id p s).1
challenged-IsQuiet w msg status id none s = record { same = refl; calm = tt }
challenged-IsQuiet w msg status id (some p) s = judge p.auth_retried
  where
    judge :
        (b : Bool)
        → IsQuiet s (challenged_as w msg status id p b s).0 (challenged_as w msg status id p b s).1
    judge true = settle-IsQuiet id (some p) false (some (to_string status)) s
    judge false = answer-IsQuiet w id p (header msg (challenge_name status)) s

on_message_response-IsQuiet :
    (w : World) (msg : SipMessage) (status : ℕ) (id : List ℕ) (s : State)
    → IsQuiet s (on_message_response w msg status id s).0 (on_message_response w msg status id s).1
unfolding on_message_response
on_message_response-IsQuiet w msg status id s =
    let p = find id s.pending_messages in
    elim (Bool-cases (leb 200 status && leb status 299)) [
      | inl h ↦ rw h (settle-IsQuiet id p true none s)
      | inr h2 ↦ elim (Bool-cases (status == 401 || status == 407)) [
        | inl h ↦ rw (h2, h) (challenged-IsQuiet w msg status id p s)
        | inr h4 ↦ elim (Bool-cases (leb 300 status)) [
          | inl h ↦ rw (h2, h4, h) (settle-IsQuiet id p false (some (to_string status)) s)
          | inr h ↦ rw (h2, h4, h) (record { same = refl; calm = tt })
        ]
      ]
    ]

module _ (w : World) (msg : SipMessage) (status : ℕ) (s : State) (P : State → List Effect → Type 0)
    (quiet : (s' : State) (out : List Effect) → IsQuiet s s' out → P s' out)
    (judged : (id : List ℕ) (d : Dialog) (v : Verdict)
      → call_id msg ≡ some id
      → find id s.dialogs ≡ some d
      → Judgement id d v
      → P (perform_on w id s v).0 (perform_on w id s v).1) where
  verdict-Ends :
      (id : List ℕ) (d : Dialog) (o : Outcome (Unit {0}) Verdict)
      → call_id msg ≡ some id
      → find id s.dialogs ≡ some d
      → Judged id d o
      → Ends P (and_then (λ v. ok (perform_on w id s v)) o)
  verdict-Ends id d panic named found j = tt
  verdict-Ends id d (err e) named found j = tt
  verdict-Ends id d (ok v) named found j = judged id d v named found j

  dialog-Ends :
      (id : List ℕ)
      → call_id msg ≡ some id
      → Ends P (dialog_response w id msg status (find id s.dialogs) s)
  dialog-Ends id named = elim (Option-cases (find id s.dialogs)) [
    | inl h ↦ rw h (quiet s [] (record { same = refl; calm = tt }))
    | inr (d, h) ↦
        rw h
          (verdict-Ends id d (classify id msg status d) named h (classify-Judged id msg status d))
  ]

  transfer-IsCalm : (id : List ℕ) → All IsCalm (transfer_response id status s).1
  transfer-IsCalm id = elim (Bool-cases (ltb status 300)) [
    | inl h ↦ rw h (tt, tt)
    | inr h ↦ rw h (tt, tt)
  ]

  method-Ends :
      (id : List ℕ) (c : Option (ℕ × SipMethod))
      → call_id msg ≡ some id
      → Ends P (by_method w id msg status c s)
  method-Ends id none named = dialog-Ends id named
  method-Ends id (some (n, refer)) named =
      quiet s _ (record { same = refl; calm = transfer-IsCalm id })
  method-Ends id (some (n, subscribe)) named = quiet s _ (record { same = refl; calm = (tt, tt) })
  method-Ends id (some (n, message)) named =
      quiet _ _ (on_message_response-IsQuiet w msg status id s)
  method-Ends id (some (n, publish)) named = quiet s _ (record { same = refl; calm = (tt, tt) })
  method-Ends id (some (n, register)) named = dialog-Ends id named
  method-Ends id (some (n, invite)) named = dialog-Ends id named
  method-Ends id (some (n, ack)) named = dialog-Ends id named
  method-Ends id (some (n, bye)) named = dialog-Ends id named
  method-Ends id (some (n, cancel)) named = dialog-Ends id named
  method-Ends id (some (n, options)) named = dialog-Ends id named
  method-Ends id (some (n, info)) named = dialog-Ends id named
  method-Ends id (some (n, notify)) named = dialog-Ends id named
  method-Ends id (some (n, other m)) named = dialog-Ends id named

  pub on_response-Ends : Ends P (on_response w msg status s)
  unfolding on_response
  on_response-Ends = elim (Option-cases (call_id msg)) [
    | inl h ↦ rw h (quiet s [] (record { same = refl; calm = tt }))
    | inr (id, h) ↦ rw h (elim (Bool-cases (bytes_eq id s.stack.reg_call_id)) [
      | inl g ↦ rw g (quiet s [] (record { same = refl; calm = tt }))
      | inr g ↦ rw g (method-Ends id (cseq msg) h)
    ])
  ]
