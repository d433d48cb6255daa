-- ===== src/Sip/Calls/Judgement.antt =====
-- The verdicts that the classification of call/lifecycle/response/mod.rs can give.
use dee_lip.Prelude.{
  from_utf8_lossy, ℕ, ◌≡◌, refl, Bool, true, false, not, ◌&&◌, ◌||◌, Option, none, some,
  Option-cases, Bool-cases, inl, inr, List, [], ◌==◌, leb, codes, if◌then◌else◌, Outcome, panic,
  err, ok, and_then,
}
use dee_lip.Sip.Util.{or_text, parse_tag}
use dee_lip.Sip.Message.{SipMethod, SipMessage, header, cseq, reason_phrase}
use dee_lip.Sip.Dialog.{
  Dialog, DialogState, calling, ringing, confirmed, terminating, terminated, parse_remote_contact,
}
use dee_lip.Sip.Builders.{field}
use dee_lip.Sip.Calls.Classify.{
  reinvited_as, Ack, Verdict, ack_of, nothing_to_do, is_ringing, connected, reinvite_ack,
  session_refresh_ack, bye_ok, failed, invite_challenged, session_interval_too_small, classify,
  is_calling, connect, invite_answered, is_invite, is_bye, answered, challenged, too_small,
  session_header, or_true, min_se_of, hdr_name,
}

-- Each with what it says of the dialog; a retry only where none was made before.
pub data Judgement (id : List ℕ) (d : Dialog) : Verdict → Type 0 where
  idle : Judgement id d (d, nothing_to_do)
  rings : Judgement id d (record d { state = ringing }, is_ringing)
  connects :
      (sdp : List ℕ) (tag contact : Option (List ℕ)) (a : Ack)
      (timer : Option (ℕ × Option (List ℕ)))
      → Judgement id d (
        record d {
          state = confirmed;
          remote_tag = tag;
          remote_sdp = some sdp;
          remote_contact = contact;
          pending_offer = none;
          ice_gathered = none;
        },
        connected d.call_id sdp d.pending_offer d.ice_gathered a timer,
      )
  refreshes :
      (a : Ack) (timer : Option (ℕ × Option (List ℕ)))
      → Judgement id d
          (record d { session_refresh_pending = false }, session_refresh_ack d.call_id a timer)
  reinvites :
      (hold : Bool) (a : Ack)
      → Judgement id d
          (record d { hold_pending = none; is_held = hold }, reinvite_ack d.call_id hold a)
  ends : Judgement id d (record d { state = terminated }, bye_ok d.call_id)
  fails : (code : ℕ) (reason : List ℕ) → Judgement id d (d, failed id code reason)
  challenges :
      (sdp raw : List ℕ) (a : Ack)
      → d.auth_retried ≡ false
      → Judgement id d
          (record d { auth_retried = true }, invite_challenged d.call_id d.remote_uri sdp raw a)
  enlarges :
      (sdp : List ℕ) (min_se : ℕ) (a : Ack)
      → d.session_expires_retried ≡ false
      → Judgement id d (d, session_interval_too_small d.call_id d.remote_uri sdp min_se a)

abbrev pub Judged : List ℕ → Dialog → Outcome (Unit {0}) Verdict → Type 0
Judged id d panic = Unit {0}
Judged id d (err e) = Unit {0}
Judged id d (ok v) = Judgement id d v

module _ (id : List ℕ) (msg : SipMessage) (d : Dialog) where
  connect-Judged :
      (n : ℕ) (o : Outcome (Unit {0}) (Option (List ℕ)))
      → Judged id d (and_then (λ c. ok (connect msg n d c)) o)
  connect-Judged n panic = tt
  connect-Judged n (err e) = tt
  connect-Judged n (ok c) =
      connects (from_utf8_lossy msg.body) (parse_tag (field msg (codes "To"))) c _
        (session_header msg)

  reinvite_judged : (n : ℕ) (b : Bool) → Judgement id d (reinvited_as msg n d b)
  reinvite_judged n true = refreshes (ack_of d n) (session_header msg)
  reinvite_judged n false = reinvites (or_true d.hold_pending) (ack_of d n)

  invite-Judged : (n : ℕ) (state : DialogState) → Judged id d (invite_answered msg n d state)
  invite-Judged n calling = connect-Judged n (parse_remote_contact (header msg (codes "Contact")))
  invite-Judged n ringing = connect-Judged n (parse_remote_contact (header msg (codes "Contact")))
  invite-Judged n confirmed = reinvite_judged n d.session_refresh_pending
  invite-Judged n terminating = idle
  invite-Judged n terminated = idle

  bye_judged :
      (b : Bool)
      → Judgement id d
          (if b then (record d { state = terminated }, bye_ok d.call_id) else (d, nothing_to_do))
  bye_judged true = ends
  bye_judged false = idle

  answered-Judged : (c : Option (ℕ × SipMethod)) → Judged id d (answered msg d c)
  answered-Judged none = idle
  answered-Judged (some (n, m)) = elim (Bool-cases (is_invite m)) [
    | inl h ↦ rw h (invite-Judged n d.state)
    | inr h ↦ rw h (bye_judged (is_bye m))
  ]

  module _ (status : ℕ) where
    challenge_judged :
        (c : Option (ℕ × SipMethod))
        → d.auth_retried ≡ false
        → Judgement id d (challenged id msg status d c)
    challenge_judged none fresh = fails status (codes "Unauthorized")
    challenge_judged (some (n, m)) fresh = elim (Bool-cases (is_invite m)) [
      | inl h ↦ rw h (elim (Option-cases (header msg (hdr_name status))) [
        | inl g ↦ rw g (fails status (codes "Missing auth challenge"))
        | inr (raw, g) ↦ rw g (challenges (or_text d.local_sdp []) raw (ack_of d n) fresh)
      ])
      | inr h ↦ rw h (fails status (codes "Unauthorized"))
    ]

    interval_judged :
        (c : Option (ℕ × SipMethod))
        → d.session_expires_retried ≡ false
        → Judgement id d (too_small id msg status d c)
    interval_judged none fresh = fails status (codes "Session Interval Too Small")
    interval_judged (some (n, m)) fresh = elim (Bool-cases (is_invite m)) [
      | inl h ↦ rw h (elim (Option-cases (min_se_of (header msg (codes "Min-SE")))) [
        | inl g ↦ rw g (fails status (codes "422 with no Min-SE"))
        | inr (m, g) ↦ rw g (enlarges (or_text d.local_sdp []) m (ack_of d n) fresh)
      ])
      | inr h ↦ rw h (fails status (codes "Session Interval Too Small"))
    ]

    last_judged :
        (b : Bool)
        → Judgement id d (
            if b
            then (d, failed id status (or_text (reason_phrase msg) []))
            else (d, nothing_to_do))
    last_judged true = fails status (or_text (reason_phrase msg) [])
    last_judged false = idle

both : (a b c : Bool) → a && (b && not c) ≡ true → c ≡ false
both a b false h = refl
both false b true h = cc
both true false true h = cc
both true true true h = cc

pub classify-Judged :
    (id : List ℕ) (msg : SipMessage) (status : ℕ) (d : Dialog)
    → Judged id d (classify id msg status d)
unfolding classify
classify-Judged id msg status d = elim (Bool-cases (status == 180)) [
  | inl h ↦ rw h rings
  | inr h180 ↦ elim (Bool-cases (status == 200)) [
    | inl h ↦ rw (h180, h) (answered-Judged id msg d (cseq msg))
    | inr h200 ↦ elim (Bool-cases (status == 100)) [
      | inl h ↦ rw (h180, h200, h) idle
      | inr h100 ↦
          elim (Bool-cases
            ((status == 401 || status == 407) && (is_calling d.state && not d.auth_retried))) [
              | inl h ↦
                  rw (h180, h200, h100, h)
                    (challenge_judged id msg d status (cseq msg) (both _ _ _ h))
              | inr h401 ↦
                  elim (Bool-cases
                    (status == 422 && (is_calling d.state && not d.session_expires_retried))) [
                      | inl h ↦
                          rw (h180, h200, h100, h401, h)
                            (interval_judged id msg d status (cseq msg) (both _ _ _ h))
                      | inr h422 ↦
                          rw (h180, h200, h100, h401, h422)
                            (last_judged id msg d status (leb 300 status))
                    ]
            ]
    ]
  ]
]
