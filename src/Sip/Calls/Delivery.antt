-- ===== src/Sip/Calls/Delivery.antt =====
-- The life of an instant message (src/message_method.rs) and of a call that is up, under failing responses.
use dee_lip.Prelude.{
  ℕ, ◌≤◌, ◌<◌, ◌≡◌, Bool, true, false, ◌||◌, Option, none, some, List, [], ◌∷◌, ◌==◌, arith, codes,
  find,
}
use dee_lip.Sip.Message.{SipMessage, header}
use dee_lip.Sip.Auth.{build_challenge_response}
use dee_lip.Sip.Calls.{State, World, Effect, PendingMessage, sent, event, message_send_result}
use dee_lip.Sip.Calls.Messages.{auth_name, build_message, challenge_name}

-- The message is done with and its sender told once; it was delivered where the flag says so.
pub record IsReported (id : List ℕ) (p : PendingMessage) (delivered : Bool)
    (r : State × List Effect) : Type 0 where
  pub gone : find id r.0.pending_messages ≡ none
  pub reason : Option (List ℕ)
  pub told : r.1 ≡ event (message_send_result p.to delivered reason) ∷ []

abbrev pub answer_to : World → PendingMessage → State → Option (List ℕ) → Option (List ℕ)
answer_to w p s none = none
answer_to w p s (some raw) =
    build_challenge_response w.md5_hex (auth_name s.stack) s.stack.password (codes "MESSAGE") p.to
      raw

abbrev pub credentials_as :
    World → PendingMessage → State → (challenge retried : Bool) → Option (List ℕ) → Option (List ℕ)
credentials_as w p s true false raw = answer_to w p s raw
credentials_as w p s true true raw = none
credentials_as w p s false retried raw = none

-- The credentials that a response lets the stack make for its message: it is a challenge, the first one, it
-- has the header that goes with its status, and that header can be answered for a MESSAGE to the recipient.
abbrev pub credentials : World → SipMessage → ℕ → PendingMessage → State → Option (List ℕ)
credentials w msg status p s =
    credentials_as w p s (status == 401 || status == 407) p.auth_retried
      (header msg (challenge_name status))

-- The same text is sent to the same recipient under the same Call-ID and tag, as the second request, with
-- the credentials, by way of the server; and the message waits as one that was sent again.
pub record IsRetried (w : World) (id : List ℕ) (p : PendingMessage) (s : State) (auth : List ℕ)
    (r : State × List Effect) : Type 0 where
  pub waits : find id r.0.pending_messages ≡ some (record p { auth_retried = true })
  pub again :
      r.1
      ≡ sent (build_message w s id p.from_tag 2 p.to p.body (some auth)) s.stack.server_addr ∷ []

module _ (w : World) (msg : SipMessage) (id : List ℕ) (p : PendingMessage) (s : State) where
  -- What is to become of the message, by the credentials that can be made.
  abbrev pub Outlook : Option (List ℕ) → State × List Effect → Type 0
  Outlook none r = IsReported id p false r
  Outlook (some auth) r = IsRetried w id p s auth r

late : (n m k : ℕ) → n < m → m ≤ k → (k == n) ≡ false
late n m k h l = ground arith
