-- ===== src/Sip/Builders/Echo.antt =====
-- What a response of build_response (client/builders.rs) says, once it is parsed.
use dee_lip.Prelude.{
  ℕ, ◌≡◌, refl, ap, ◌∙◌, some, List, [], ◌∷◌, codes, to_string, bytes_eq, if◌then◌else◌,
}
use dee_lip.Sip.Message.{SipMessage, response, parse, header, find_header, status_code}
use dee_lip.Sip.Message.RoundTrip.{IsPrintable, message_text, parse-message_text}
use dee_lip.Sip.Builders.{SipStack, build_response, field, to_line, byte_len, is_empty}

abbrev length_header : List ℕ → List ℕ × List ℕ
length_header body = (codes "Content-Length", to_string (byte_len body))

abbrev body_headers : List ℕ → List (List ℕ × List ℕ)
body_headers body =
    if is_empty body
    then length_header body ∷ []
    else (codes "Content-Type", codes "application/sdp") ∷ length_header body ∷ []

-- The response as a message.
abbrev pub answer : SipStack → SipMessage → ℕ → List ℕ → List ℕ → List ℕ → SipMessage
answer st req code phrase to_tag body = record {
  start_line = response code phrase;
  headers =
      (codes "Via", field req (codes "Via"))
      ∷ (codes "To", to_line (field req (codes "To")) to_tag)
      ∷ (codes "From", field req (codes "From"))
      ∷ (codes "Call-ID", field req (codes "Call-ID"))
      ∷ (codes "CSeq", field req (codes "CSeq"))
      ∷ (codes "User-Agent", st.user_agent)
      ∷ body_headers body;
  body = body;
}

answer_text :
    (st : SipStack) (req : SipMessage) (code : ℕ) (phrase to_tag body : List ℕ)
    → build_response st req code phrase to_tag body
      ≡ message_text (answer st req code phrase to_tag body)
unfolding build_response
answer_text st req code phrase to_tag [] = refl
answer_text st req code phrase to_tag (c ∷ cs) = refl

-- Where the response is printable (ASCII text, a status below 2^16, every header in one line with no blanks
-- around its value), it parses, and the message has the status, the body, and the Via, From, Call-ID and CSeq
-- of the request (empty where the request has none).
pub build_response-parse :
    (st : SipStack) (req : SipMessage) (code : ℕ) (phrase to_tag body : List ℕ)
    → IsPrintable (answer st req code phrase to_tag body)
    → (m : SipMessage) × (parse (build_response st req code phrase to_tag body) ≡ some m)
      × (status_code m ≡ some code)
      × (header m (codes "Via") ≡ some (field req (codes "Via")))
      × (header m (codes "From") ≡ some (field req (codes "From")))
      × (header m (codes "Call-ID") ≡ some (field req (codes "Call-ID")))
      × (header m (codes "CSeq") ≡ some (field req (codes "CSeq")))
      × (m.body ≡ body)
unfolding header find_header status_code bytes_eq
build_response-parse st req code phrase to_tag body w = (
  answer st req code phrase to_tag body,
  ap parse (answer_text st req code phrase to_tag body)
      ∙ parse-message_text (answer st req code phrase to_tag body) w,
  refl,
  refl,
  refl,
  refl,
  refl,
  refl,
)
