-- ===== src/Sip/Calls/Lifetime.antt =====
-- The life of an instant message (crates/sip-core/src/message_method.rs) from its sending on, under any
-- responses.
use dee_lip.Prelude.{
  ℕ, ◌+◌, ◌-◌, ◌≤◌, ◌≡◌, refl, inl, inr, Bool, true, false, ◌&&◌, ◌||◌, Option, none, some,
  Bool-cases, List, [], ◌∷◌, ◌++◌, ◌==◌, leb, if◌then◌else◌, arith, to_string, find, find-insert,
  find-remove,
}
use dee_lip.Sip.Message.{SipMessage, header}
use dee_lip.Sip.Calls.{
  State, World, Effect, SipEvent, PendingMessage, Handler, sent, event, handed_on, connecting,
  resolving, message_send_result, then_do,
}
use dee_lip.Sip.Calls.Messages.{
  on_message_response, send_message, message_sent, pending_of, challenged, first_message, settle,
  retry, answer_challenge, challenged_as, challenge_name,
}

-- Responses to one message, each with what its handling meets.
abbrev pub MessageResponse : Type 0
MessageResponse = World × SipMessage × ℕ

unfoldable pub on_message_responses : List ℕ → List MessageResponse → Handler
on_message_responses id [] s = (s, [])
on_message_responses id ((w, msg, status) ∷ rs) s =
    then_do (on_message_response w msg status id s) (on_message_responses id rs)

abbrev pub is_result : SipEvent → ℕ
is_result (message_send_result to done reason) = 1
is_result e = 0

-- The results told, and the texts sent.
unfoldable pub told : List Effect → ℕ
told [] = 0
told (event e ∷ out) = is_result e + told out
told (sent text addr ∷ out) = told out
told (handed_on m msg ∷ out) = told out
told (connecting id p g v ∷ out) = told out
told (resolving id ∷ out) = told out

unfoldable pub texts : List Effect → ℕ
texts [] = 0
texts (sent text addr ∷ out) = 1 + texts out
texts (event e ∷ out) = texts out
texts (handed_on m msg ∷ out) = texts out
texts (connecting id p g v ∷ out) = texts out
texts (resolving id ∷ out) = texts out

abbrev pub waits : Option PendingMessage → ℕ
waits none = 0
waits (some p) = 1

abbrev pub chances : Option PendingMessage → ℕ
chances none = 0
chances (some p) = if p.auth_retried then 0 else 1

abbrev pub final_of : ℕ → ℕ
final_of status = if leb 200 status then 1 else 0

unfoldable pub finals : List MessageResponse → ℕ
finals [] = 0
finals ((w, msg, status) ∷ rs) = final_of status + finals rs

told-append : (a b : List Effect) → told (a ++ b) ≡ told a + told b
unfolding told
told-append [] b = omega arith
told-append (event e ∷ a) b = let ih = told-append a b in omega arith
told-append (sent text addr ∷ a) b = told-append a b
told-append (handed_on m msg ∷ a) b = told-append a b
told-append (connecting id p g v ∷ a) b = told-append a b
told-append (resolving id ∷ a) b = told-append a b

texts-append : (a b : List Effect) → texts (a ++ b) ≡ texts a + texts b
unfolding texts
texts-append [] b = omega arith
texts-append (sent text addr ∷ a) b = let ih = texts-append a b in omega arith
texts-append (event e ∷ a) b = texts-append a b
texts-append (handed_on m msg ∷ a) b = texts-append a b
texts-append (connecting id p g v ∷ a) b = texts-append a b
texts-append (resolving id ∷ a) b = texts-append a b

module _ (id : List ℕ) where
  abbrev after : State × List Effect → Option PendingMessage
  after r = find id r.0.pending_messages

  -- From `before` on: a result is told exactly when the wait ends, a chance pays for each text, and each of
  -- the `n` final responses uses up the wait or the chance.
  record Spends (before : Option PendingMessage) (n : ℕ) (r : State × List Effect) : Type 0 where
    results : told r.1 + waits (after r) ≡ waits before
    resends : texts r.1 + chances (after r) ≤ chances before
    closer : waits (after r) + chances (after r) ≤ waits before + chances before - n

  settle-Spends :
      (p : PendingMessage) (n : ℕ) (done : Bool) (reason : Option (List ℕ)) (s : State)
      → Spends (some p) n (settle id (some p) done reason s)
  unfolding told texts
  settle-Spends p n done reason s = record {
    results = rw (find-remove id s.pending_messages) (omega arith);
    resends = rw (find-remove id s.pending_messages) (omega arith);
    closer = rw (find-remove id s.pending_messages) (omega arith);
  }

  module _ (w : World) (msg : SipMessage) (status : ℕ) (p : PendingMessage) (s : State) where
    retry-Spends :
        (auth : Option (List ℕ)) (n : ℕ)
        → p.auth_retried ≡ false
        → n ≤ 1
        → Spends (some p) n (retry w id p auth s)
    unfolding told texts
    retry-Spends none n fresh one = settle-Spends p n false _ s
    retry-Spends (some auth) n fresh one = record {
      results =
          rw (find-insert id (record p { auth_retried = true }) s.pending_messages) (omega arith);
      resends =
          rw (find-insert id (record p { auth_retried = true }) s.pending_messages, fresh)
            (omega arith);
      closer =
          rw (find-insert id (record p { auth_retried = true }) s.pending_messages, fresh)
            (omega arith);
    }

    answer-Spends :
        (raw : Option (List ℕ)) (n : ℕ)
        → p.auth_retried ≡ false
        → n ≤ 1
        → Spends (some p) n (answer_challenge w id p raw s)
    answer-Spends none n fresh one = settle-Spends p n false _ s
    answer-Spends (some raw) n fresh one = retry-Spends _ n fresh one

    challenged-Spends :
        (b : Bool) (n : ℕ)
        → p.auth_retried ≡ b
        → n ≤ 1
        → Spends (some p) n (challenged_as w msg status id p b s)
    challenged-Spends true n e one = settle-Spends p n false _ s
    challenged-Spends false n e one = answer-Spends (header msg (challenge_name status)) n e one

  idle-Spends : (s : State) (n : ℕ) → find id s.pending_messages ≡ none → Spends none n (s, [])
  unfolding told texts
  idle-Spends s n h = record {
    results = rw h (omega arith);
    resends = rw h (omega arith);
    closer = rw h (omega arith);
  }

  open-Spends :
      (before : Option PendingMessage) (n : ℕ) (s : State)
      → find id s.pending_messages ≡ before
      → n ≡ 0
      → Spends before n (s, [])
  unfolding told texts
  open-Spends before n s h e = record {
    results = rw h (omega arith);
    resends = rw h (omega arith);
    closer = rw h (omega arith);
  }

  settled-Spends :
      (before : Option PendingMessage) (n : ℕ) (done : Bool) (reason : Option (List ℕ)) (s : State)
      → find id s.pending_messages ≡ before
      → Spends before n (settle id before done reason s)
  settled-Spends none n done reason s h = idle-Spends s n h
  settled-Spends (some p) n done reason s h = settle-Spends p n done reason s

  final-le : (status : ℕ) → final_of status ≤ 1
  final-le status = ground arith

  provisional :
      (status : ℕ)
      → (leb 200 status && leb status 299) ≡ false
      → leb 300 status ≡ false
      → final_of status ≡ 0
  provisional status a c = ground arith

  module _ (w : World) (msg : SipMessage) (status : ℕ) (s : State) where
    challenge-Spends :
        (before : Option PendingMessage)
        → find id s.pending_messages ≡ before
        → Spends before (final_of status) (challenged w msg status id before s)
    challenge-Spends none h = idle-Spends s (final_of status) h
    challenge-Spends (some p) h =
        challenged-Spends w msg status p s p.auth_retried (final_of status) refl (final-le status)

    on_message_response-Spends :
        (before : Option PendingMessage)
        → find id s.pending_messages ≡ before
        → Spends before (final_of status) (on_message_response w msg status id s)
    unfolding on_message_response
    on_message_response-Spends before found = elim (Bool-cases (leb 200 status && leb status 299)) [
      | inl a ↦ rw (found, a) (settled-Spends before (final_of status) true none s found)
      | inr a ↦ elim (Bool-cases (status == 401 || status == 407)) [
        | inl b ↦ rw (found, a, b) (challenge-Spends before found)
        | inr b ↦ elim (Bool-cases (leb 300 status)) [
          | inl c ↦
              rw (found, a, b, c)
                (settled-Spends before (final_of status) false (some (to_string status)) s found)
          | inr c ↦
              rw (a, b, c) (open-Spends before (final_of status) s found (provisional status a c))
        ]
      ]
    ]

  both-Spends :
      (before : Option PendingMessage) (n m : ℕ) (r : State × List Effect) (h : Handler)
      → Spends before n r
      → Spends (after r) m (h r.0)
      → Spends before (n + m) (then_do r h)
  both-Spends before n m r h a b =
      let t = told-append r.1 (h r.0).1 in
      let x = texts-append r.1 (h r.0).1 in
      record {
        results = rw t (omega (arith, a.results, b.results));
        resends = rw x (omega (arith, a.resends, b.resends));
        closer = omega (arith, a.closer, b.closer);
      }

  on_message_responses-Spends :
      (rs : List MessageResponse) (s : State)
      → Spends (find id s.pending_messages) (finals rs) (on_message_responses id rs s)
  unfolding on_message_responses finals
  on_message_responses-Spends [] s = open-Spends _ 0 s refl refl
  on_message_responses-Spends ((w, msg, status) ∷ rs) s =
      both-Spends _ (final_of status) (finals rs) (on_message_response w msg status id s)
        (on_message_responses id rs) (on_message_response-Spends w msg status s _ refl)
        (on_message_responses-Spends rs (on_message_response w msg status id s).0)

-- A message that is sent, and any responses to it one after another.
abbrev pub sent_and_answered :
    World → (to body : List ℕ) → State → List MessageResponse → State × List Effect
sent_and_answered w to body s rs =
    then_do (send_message w to body s) (on_message_responses w.new_call_id rs)

-- The result is told once, or the message waits for it; two texts are sent at most; and two final responses
-- are enough for the result.
pub record IsLifetime (w : World) (to body : List ℕ) (s : State) (rs : List MessageResponse)
    : Type 0 where
  pub result :
      told (sent_and_answered w to body s rs).1
        + waits (find w.new_call_id (sent_and_answered w to body s rs).0.pending_messages)
      ≡ 1
  pub resends : texts (sent_and_answered w to body s rs).1 ≤ 2
  pub ends : 2 ≤ finals rs → told (sent_and_answered w to body s rs).1 ≡ 1

-- What the sending leaves.
record Starts (id : List ℕ) (r : State × List Effect) : Type 0 where
  results : told r.1 + waits (after id r) ≡ 1
  resends : texts r.1 + chances (after id r) ≤ 2
  closer : waits (after id r) + chances (after id r) ≤ 2

module _ (w : World) (to body : List ℕ) (s : State)
    (unused : find w.new_call_id s.pending_messages ≡ none) where
  message_sent-Starts : (e : Option (List ℕ)) → Starts w.new_call_id (message_sent w to body e s)
  unfolding told texts
  message_sent-Starts (some e) = record {
    results = rw unused (omega arith);
    resends = rw unused (omega arith);
    closer = rw unused (omega arith);
  }
  message_sent-Starts none = record {
    results =
        rw (find-insert w.new_call_id (pending_of w to body) s.pending_messages) (omega arith);
    resends =
        rw (find-insert w.new_call_id (pending_of w to body) s.pending_messages) (omega arith);
    closer = rw (find-insert w.new_call_id (pending_of w to body) s.pending_messages) (omega arith);
  }

  send_message-Starts : Starts w.new_call_id (send_message w to body s)
  unfolding send_message
  send_message-Starts = message_sent-Starts (w.send_error (first_message w s to body))

-- For a message that is sent under a Call-ID under which none waits, and any responses to it, handled one
-- after another: its result has been told exactly once, or it still waits and none has been told; it has been
-- sent twice at most; and once two of the responses are final ones, the result has been told.
pub send_message-IsLifetime :
    (w : World) (to body : List ℕ) (s : State) (rs : List MessageResponse)
    → find w.new_call_id s.pending_messages ≡ none
    → IsLifetime w to body s rs
send_message-IsLifetime w to body s rs unused =
    let id = w.new_call_id in
    let r = send_message w to body s in
    let a = send_message-Starts w to body s unused in
    let b = on_message_responses-Spends id rs r.0 in
    let t = told-append r.1 (on_message_responses id rs r.0).1 in
    let x = texts-append r.1 (on_message_responses id rs r.0).1 in
    record {
      result = rw t (omega (arith, a.results, b.results));
      resends = rw x (omega (arith, a.resends, b.resends));
      ends = λ two. rw t (omega (arith, two, a.results, a.closer, b.results, b.closer));
    }
