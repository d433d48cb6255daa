-- ===== src/Sip/Registration/Rounds.antt =====
-- What one registration (crates/sip-core/src/registration.rs) can come to.
use dee_lip.Prelude.{
  ℕ, ◌≤◌, ◌≡◌, refl, ◌⊎◌, inl, inr, true, ◌||◌, Bool-cases, Option, none, some, List, length, ◌==◌,
  arith,
}
use dee_lip.Sip.Message.{SipMessage, status_code, header}
use dee_lip.Sip.Registration.{
  Registrar, RegError, RegResult, Line, Attempt, registered, fails_with, permanent, register_once,
  register_text, recv_reg_response, refusal, second_answer, second_received, second_sent,
  second_round, challenged_by, challenge_header, first_answer, first_received, first_sent,
  numbered_on,
}

-- Only wrong credentials and an unknown user last.
abbrev pub IsLasting : RegError → Type 0
IsLasting (permanent c) = (c ≡ 403) ⊎ (c ≡ 404)
IsLasting e = Unit {0}

-- A failure leaves the stack's identity and addresses as they were.
abbrev pub IsFair : Registrar → Registrar → RegResult → Type 0
IsFair r after (registered expires) = Unit {0}
IsFair r after (fails_with e) = (after.stack ≡ r.stack) × IsLasting e

abbrev pub IsOrderly : Registrar → Attempt → Type 0
IsOrderly r a = (length a.sent ≤ 2) × IsFair r a.after a.result

one_of : (c : ℕ) → (c == 403 || c == 404) ≡ true → (c ≡ 403) ⊎ (c ≡ 404)
one_of c h = ground arith

refusal-IsLasting : (c : ℕ) → IsLasting (refusal c)
refusal-IsLasting c = elim (Bool-cases (c == 403 || c == 404)) [
  | inl h ↦ rw h (one_of c h)
  | inr h ↦ rw h tt
]

module _ (r : Registrar) where
  second_answer-IsFair :
      (resp : SipMessage) (o : Option ℕ)
      → IsFair r (second_answer r resp o).0 (second_answer r resp o).1
  second_answer-IsFair resp none = (refl, tt)
  second_answer-IsFair resp (some c) = elim (Bool-cases (c == 200)) [
    | inl h ↦ rw h tt
    | inr h ↦ rw h (refl, refusal-IsLasting c)
  ]

  second_received-IsFair :
      (o : Option SipMessage) → IsFair r (second_received r o).0 (second_received r o).1
  second_received-IsFair none = (refl, tt)
  second_received-IsFair (some resp) = second_answer-IsFair resp (status_code resp)

  second_sent-IsOrderly :
      (l : Line) (first text : List ℕ) (e : Option (List ℕ))
      → IsOrderly r (second_sent l first text r e)
  second_sent-IsOrderly l first text (some e) = (omega arith, (refl, tt))
  second_sent-IsOrderly l first text none =
      (omega arith, second_received-IsFair (recv_reg_response r.stack.reg_call_id l.arriving_next))

module _ (r : Registrar) (l : Line) (first : List ℕ) where
  second_round-IsOrderly :
      (auth : Option (List ℕ)) (raw : List ℕ) → IsOrderly r (second_round l first r auth raw)
  second_round-IsOrderly none raw = (omega arith, (refl, tt))
  second_round-IsOrderly (some auth) raw =
      second_sent-IsOrderly (numbered_on r) l first (register_text r (some auth) l.next_branch)
        l.next_send_error

  challenged_by-IsOrderly :
      (name : List ℕ) (raw : Option (List ℕ)) → IsOrderly r (challenged_by l first r name raw)
  challenged_by-IsOrderly name none = (omega arith, (refl, tt))
  challenged_by-IsOrderly name (some raw) = second_round-IsOrderly _ raw

  first_answer-IsOrderly :
      (resp : SipMessage) (o : Option ℕ) → IsOrderly r (first_answer l first r resp o)
  first_answer-IsOrderly resp none = (omega arith, (refl, tt))
  first_answer-IsOrderly resp (some c) = elim (Bool-cases (c == 200)) [
    | inl h ↦ rw h (omega arith, tt)
    | inr h ↦ elim (Bool-cases (c == 401 || c == 407)) [
      | inl k ↦
          rw (h, k)
            (challenged_by-IsOrderly (challenge_header c) (header resp (challenge_header c)))
      | inr k ↦ rw (h, k) (omega arith, (refl, refusal-IsLasting c))
    ]
  ]

  first_received-IsOrderly : (o : Option SipMessage) → IsOrderly r (first_received l first r o)
  first_received-IsOrderly none = (omega arith, (refl, tt))
  first_received-IsOrderly (some resp) = first_answer-IsOrderly resp (status_code resp)

  first_sent-IsOrderly : (e : Option (List ℕ)) → IsOrderly r (first_sent l first r e)
  first_sent-IsOrderly (some e) = (omega arith, (refl, tt))
  first_sent-IsOrderly none =
      first_received-IsOrderly (recv_reg_response r.stack.reg_call_id l.arriving)

-- One registration sends at most two REGISTER requests, whatever arrives; its failure is a permanent one only
-- for a 403 or a 404, and a failure leaves the addresses and the identity of the stack as they were.
pub register_once-IsOrderly : (l : Line) (r : Registrar) → IsOrderly r (register_once l r)
unfolding register_once
register_once-IsOrderly l r =
    first_sent-IsOrderly (numbered_on r) l (register_text r none l.branch) l.send_error
