-- ===== src/Sip/Calls/Messages.antt =====
-- crates/sip-core/src/message_method.rs: instant messages.
use dee_lip.Prelude.{
  ℕ, Bool, true, false, ◌&&◌, ◌||◌, Option, none, some, List, [], ◌∷◌, ◌++◌, if◌then◌else◌, ◌==◌,
  leb, codes, lines_text, to_string, find, insert, remove, from_utf8_lossy, trim, trim_start,
  trim_end, is_whitespace, Outcome, ok, and_then,
}
use dee_lip.Sip.Util.{or_text, parse_uri}
use dee_lip.Sip.Message.{SipMessage, header, into_bytes}
use dee_lip.Sip.Builders.{
  SipStack, is_empty, build_via, build_contact, request_text, to_header, cseq_header, display,
  field,
}
use dee_lip.Sip.Auth.{build_challenge_response}
use dee_lip.Sip.Calls.{
  State, World, PendingMessage, Effect, Handler, sent, event, message_send_result, message_received,
}
use dee_lip.Sip.Calls.Requests.{auth_lines, length_line}
use dee_lip.Sip.Calls.Teardown.{ok_to}

-- `SipAccount::auth_username`, whose blank is none
abbrev unless_blank : Option (List ℕ) → List ℕ → List ℕ
unless_blank none name = name
unless_blank (some s) name = if is_empty (trim s) then name else s

unfoldable pub auth_name : SipStack → List ℕ
unfolding is_whitespace trim_start trim_end
auth_name st = unless_blank st.auth_username st.username

unfoldable pub build_message :
    World → State → (call_id from_tag : List ℕ) → ℕ → (to body : List ℕ) → Option (List ℕ) → List ℕ
unfolding build_via build_contact to_string into_bytes
build_message w s call_id from_tag cseq to body auth =
    lines_text
      (request_text (codes "MESSAGE") to
        ∷ build_via s.stack w.branch
        ∷ codes "Max-Forwards: 70"
        ∷ to_header to none
        ∷ (codes "From: \""
            ++ (display s.stack
                ++ (codes "\" <sip:"
                    ++ (s.stack.username ++ (0x40 ∷ (s.domain ++ (codes ">;tag=" ++ from_tag)))))))
        ∷ (codes "Call-ID: " ++ call_id)
        ∷ cseq_header cseq (codes "MESSAGE")
        ∷ build_contact s.stack
        ∷ codes "Content-Type: text/plain"
        ∷ (codes "User-Agent: " ++ s.stack.user_agent)
        ∷ (auth_lines auth ++ (length_line body ∷ [])))
      (13 ∷ 10 ∷ body)

abbrev pub first_message : World → State → (to body : List ℕ) → List ℕ
first_message w s to body = build_message w s w.new_call_id w.tag 1 to body none

abbrev pub pending_of : World → (to body : List ℕ) → PendingMessage
pending_of w to body = record { to = to; body = body; from_tag = w.tag; auth_retried = false }

abbrev pub message_sent : World → (to body : List ℕ) → Option (List ℕ) → Handler
message_sent w to body (some e) s = (s, event (message_send_result to false (some e)) ∷ [])
message_sent w to body none s = (
  record s { pending_messages = insert w.new_call_id (pending_of w to body) s.pending_messages },
  sent (first_message w s to body) s.stack.server_addr ∷ [],
)

unfoldable pub send_message : World → (to body : List ℕ) → Handler
unfolding build_message insert
send_message w to body s = message_sent w to body (w.send_error (first_message w s to body)) s

abbrev closed : List ℕ → State → State
closed id s = record s { pending_messages = remove id s.pending_messages }

abbrev pub settle : List ℕ → Option PendingMessage → Bool → Option (List ℕ) → Handler
settle id none done reason s = (s, [])
settle id (some p) done reason s = (closed id s, event (message_send_result p.to done reason) ∷ [])

abbrev pub retry : World → List ℕ → PendingMessage → Option (List ℕ) → Handler
retry w id p none s = settle id (some p) false (some (codes "Bad auth challenge")) s
retry w id p (some auth) s = (
  record s { pending_messages = insert id (record p { auth_retried = true }) s.pending_messages },
  sent (build_message w s id p.from_tag 2 p.to p.body (some auth)) s.stack.server_addr ∷ [],
)

abbrev pub challenge_name : ℕ → List ℕ
challenge_name status =
    if status == 407 then codes "Proxy-Authenticate" else codes "WWW-Authenticate"

abbrev pub answer_challenge : World → List ℕ → PendingMessage → Option (List ℕ) → Handler
answer_challenge w id p none s = settle id (some p) false (some (codes "Missing auth challenge")) s
answer_challenge w id p (some raw) s =
    retry w id p
      (build_challenge_response w.md5_hex (auth_name s.stack) s.stack.password (codes "MESSAGE")
        p.to raw)
      s

abbrev pub challenged_as : World → SipMessage → ℕ → List ℕ → PendingMessage → Bool → Handler
challenged_as w msg status id p retried s =
    if retried
    then settle id (some p) false (some (to_string status)) s
    else answer_challenge w id p (header msg (challenge_name status)) s

abbrev pub challenged : World → SipMessage → ℕ → List ℕ → Option PendingMessage → Handler
challenged w msg status id none s = (s, [])
challenged w msg status id (some p) s = challenged_as w msg status id p p.auth_retried s

unfoldable pub on_message_response : World → SipMessage → ℕ → List ℕ → Handler
unfolding find insert remove build_message auth_name build_challenge_response header to_string
on_message_response w msg status id s =
    let pending = find id s.pending_messages in
    if leb 200 status && leb status 299
    then settle id pending true none s
    else if status == 401 || status == 407
    then challenged w msg status id pending s
    else if leb 300 status
    then settle id pending false (some (to_string status)) s
    else (s, [])

abbrev pub received : SipMessage → List ℕ → Option (List ℕ) → Handler
received msg from uri s = (
  s,
  ok_to s msg from
      ∷ event (message_received (or_text uri (field msg (codes "From"))) (from_utf8_lossy msg.body))
      ∷ [],
)

unfoldable pub on_message : SipMessage → List ℕ → State → Outcome (Unit {0}) (State × List Effect)
unfolding parse_uri header from_utf8_lossy
on_message msg from s =
    and_then (λ uri. ok (received msg from uri s)) (parse_uri (field msg (codes "From")))
