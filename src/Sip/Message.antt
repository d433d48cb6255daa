-- ===== src/Sip/Message.antt =====
-- crates/sip-core/src/wire/message.rs: SIP messages, their parser and their accessors. Texts are lists of
-- characters; the bytes of a body are those of its characters in UTF-8.
pub mod Lines
pub mod Headers
pub mod RoundTrip
pub mod Tests
use mathlib.Core.List.{map}
use dee_lip.Prelude.{
  ℕ, ◌+◌, ◌*◌, ◌/◌, ◌%◌, ◌^◌, Bool, true, false, ◌&&◌, ◌||◌, Option, none, some, List, [], ◌∷◌,
  ◌++◌, take, drop, ltb, ◌==◌, if◌then◌else◌, bytes_eq, codes, from_utf8_lossy, is_utf8,
  to_ascii_lowercase, trim, strip_prefix, parse_unsigned,
}
use dee_lip.Sip.Framing.{split_crlf}
use dee_lip.Sip.Util.{find_char}

pub data SipMethod : Type 0 where
  register invite ack bye cancel options info notify subscribe refer message publish : SipMethod
  other : List ℕ → SipMethod

unfoldable pub as_str : SipMethod → List ℕ
as_str register = codes "REGISTER"
as_str invite = codes "INVITE"
as_str ack = codes "ACK"
as_str bye = codes "BYE"
as_str cancel = codes "CANCEL"
as_str options = codes "OPTIONS"
as_str info = codes "INFO"
as_str notify = codes "NOTIFY"
as_str subscribe = codes "SUBSCRIBE"
as_str refer = codes "REFER"
as_str message = codes "MESSAGE"
as_str publish = codes "PUBLISH"
as_str (other s) = s

-- `SipMethod::from`
unfoldable pub method_of : List ℕ → SipMethod
method_of s =
    if bytes_eq s (codes "REGISTER")
    then register
    else if bytes_eq s (codes "INVITE")
    then invite
    else if bytes_eq s (codes "ACK")
    then ack
    else if bytes_eq s (codes "BYE")
    then bye
    else if bytes_eq s (codes "CANCEL")
    then cancel
    else if bytes_eq s (codes "OPTIONS")
    then options
    else if bytes_eq s (codes "INFO")
    then info
    else if bytes_eq s (codes "NOTIFY")
    then notify
    else if bytes_eq s (codes "SUBSCRIBE")
    then subscribe
    else if bytes_eq s (codes "REFER")
    then refer
    else if bytes_eq s (codes "MESSAGE")
    then message
    else if bytes_eq s (codes "PUBLISH")
    then publish
    else other s

pub data SipStartLine : Type 0 where
  request : SipMethod → List ℕ → SipStartLine
  response : ℕ → List ℕ → SipStartLine

pub record SipMessage : Type 0 where
  pub start_line : SipStartLine
  pub headers : List (List ℕ × List ℕ)
  pub body : List ℕ

-- The text up to the first such character, and what stands behind it if there is one: a step of `splitn`.
unfoldable pub break_at : ℕ → List ℕ → List ℕ × Option (List ℕ)
break_at sep [] = ([], none)
break_at sep (c ∷ cs) =
    let (front, rest) = break_at sep cs in if c == sep then ([], some cs) else (c ∷ front, rest)

abbrev pub text_or_empty : Option (List ℕ) → List ℕ
text_or_empty none = []
text_or_empty (some s) = s

abbrev pub response_of : Option ℕ → List ℕ → Option SipStartLine
response_of none reason = none
response_of (some status) reason = some (response status reason)

-- The start line of a response, from what stands behind `SIP/2.0` and its space.
abbrev pub status_line : Option (List ℕ) → Option SipStartLine
status_line none = none
status_line (some rest) =
    let (status, reason) = break_at 0x20 rest in
    response_of (parse_unsigned (2 ^ 16) status) (text_or_empty reason)

abbrev pub request_line : List ℕ → Option (List ℕ) → Option SipStartLine
request_line method none = none
request_line method (some rest) = some (request (method_of method) (break_at 0x20 rest).0)

abbrev pub starts_with : List ℕ → List ℕ → Bool
starts_with p s = elim (strip_prefix p s) [ none ↦ false | some _ ↦ true ]

unfoldable pub parse_start_line : List ℕ → Option SipStartLine
unfolding break_at method_of
parse_start_line first =
    let (word, rest) = break_at 0x20 first in
    if starts_with (codes "SIP/2.0") first then status_line rest else request_line word rest

-- What the loop over the lines carries.
pub record Reading : Type 0 where
  pub headers : List (List ℕ × List ℕ)
  pub in_body : Bool
  pub body_parts : List (List ℕ)

abbrev pub nothing_read : Reading
nothing_read = record { headers = []; in_body = false; body_parts = [] }

-- `headers.last_mut()`, with the text appended to the value.
unfoldable pub onto_last : List ℕ → List (List ℕ × List ℕ) → List (List ℕ × List ℕ)
onto_last more [] = []
onto_last more (h ∷ []) = (h.0, h.1 ++ more) ∷ []
onto_last more (h ∷ g ∷ hs) = h ∷ onto_last more (g ∷ hs)

abbrev pub with_header : Option ℕ → List ℕ → Reading → Reading
with_header none line r = r
with_header (some pos) line r = record r {
  headers = r.headers ++ ((trim (take pos line), trim (drop (pos + 1) line)) ∷ []);
}

abbrev pub is_folded : ℕ → Bool
is_folded c = c == 0x20 || c == 0x09

abbrev pub header_line : List ℕ → Reading → Reading
header_line [] r = record r { in_body = true }
header_line (c ∷ cs) r =
    if is_folded c
    then record r { headers = onto_last (0x20 ∷ trim (c ∷ cs)) r.headers }
    else with_header (find_char 0x3a (c ∷ cs)) (c ∷ cs) r

unfoldable pub read_line : List ℕ → Reading → Reading
unfolding onto_last
read_line line r =
    if r.in_body then record r { body_parts = r.body_parts ++ (line ∷ []) } else header_line line r

unfoldable pub read_lines : List (List ℕ) → Reading → Reading
unfolding read_line
read_lines [] r = r
read_lines (line ∷ lines) r = read_lines lines (read_line line r)

-- `body_parts.join("\r\n")`
unfoldable pub join_crlf : List (List ℕ) → List ℕ
join_crlf [] = []
join_crlf (part ∷ []) = part
join_crlf (part ∷ next ∷ parts) = part ++ (13 ∷ 10 ∷ join_crlf (next ∷ parts))

-- The bytes of a character.
abbrev pub utf8_of : ℕ → List ℕ
utf8_of c =
    if ltb c 0x80
    then c ∷ []
    else if ltb c 0x800
    then (0xc0 + c / 64) ∷ (0x80 + c % 64) ∷ []
    else if ltb c 0x10000
    then (0xe0 + c / 4096) ∷ (0x80 + c / 64 % 64) ∷ (0x80 + c % 64) ∷ []
    else (0xf0 + c / 262144) ∷ (0x80 + c / 4096 % 64) ∷ (0x80 + c / 64 % 64) ∷ (0x80 + c % 64) ∷ []

-- `into_bytes`
unfoldable pub into_bytes : List ℕ → List ℕ
into_bytes [] = []
into_bytes (c ∷ cs) = utf8_of c ++ into_bytes cs

abbrev pub message_of : Option SipStartLine → Reading → Option SipMessage
message_of none r = none
message_of (some start) r =
    some (record {
      start_line = start;
      headers = r.headers;
      body = into_bytes (join_crlf r.body_parts);
    })

unfoldable pub parse_lines : List (List ℕ) → Option SipMessage
unfolding parse_start_line read_lines join_crlf into_bytes
parse_lines [] = none
parse_lines (first ∷ lines) = message_of (parse_start_line first) (read_lines lines nothing_read)

-- `SipMessage::parse`
unfoldable pub parse : List ℕ → Option SipMessage
unfolding split_crlf parse_lines
parse bytes = if is_utf8 bytes then parse_lines (split_crlf false (from_utf8_lossy bytes)) else none

abbrev pub same_name : List ℕ → List ℕ → Bool
same_name a b = bytes_eq (map to_ascii_lowercase a) (map to_ascii_lowercase b)

unfoldable pub find_header : List ℕ → List (List ℕ × List ℕ) → Option (List ℕ)
find_header name [] = none
find_header name (h ∷ hs) =
    let rest = find_header name hs in if same_name h.0 name then some h.1 else rest

-- `SipMessage::header`
unfoldable pub header : SipMessage → List ℕ → Option (List ℕ)
unfolding find_header
header m name = find_header name m.headers

unfoldable pub all_headers : List ℕ → List (List ℕ × List ℕ) → List (List ℕ)
all_headers name [] = []
all_headers name (h ∷ hs) =
    let rest = all_headers name hs in if same_name h.0 name then h.1 ∷ rest else rest

-- `SipMessage::headers_all`
unfoldable pub headers_all : SipMessage → List ℕ → List (List ℕ)
unfolding all_headers
headers_all m name = all_headers name m.headers

abbrev pub status_of : SipStartLine → Option ℕ
status_of (request m uri) = none
status_of (response status reason) = some status

unfoldable pub status_code : SipMessage → Option ℕ
status_code m = status_of m.start_line

abbrev pub reason_of : SipStartLine → Option (List ℕ)
reason_of (request m uri) = none
reason_of (response status reason) = some reason

unfoldable pub reason_phrase : SipMessage → Option (List ℕ)
reason_phrase m = reason_of m.start_line

abbrev pub request_method : SipStartLine → Option SipMethod
request_method (request m uri) = some m
request_method (response status reason) = none

-- `SipMessage::method`
unfoldable pub method : SipMessage → Option SipMethod
method m = request_method m.start_line

abbrev pub first_some : Option (List ℕ) → Option (List ℕ) → Option (List ℕ)
first_some (some v) o = some v
first_some none o = o

unfoldable pub call_id : SipMessage → Option (List ℕ)
unfolding header
call_id m = first_some (header m (codes "Call-ID")) (header m (codes "i"))

abbrev pub numbered : Option ℕ → Option (List ℕ) → Option (ℕ × SipMethod)
numbered none rest = none
numbered (some n) none = none
numbered (some n) (some rest) = some (n, method_of (trim rest))

abbrev pub cseq_of : Option (List ℕ) → Option (ℕ × SipMethod)
cseq_of none = none
cseq_of (some v) =
    let (seq, rest) = break_at 0x20 v in numbered (parse_unsigned (2 ^ 32) (trim seq)) rest

unfoldable pub cseq : SipMessage → Option (ℕ × SipMethod)
unfolding header break_at method_of
cseq m = cseq_of (header m (codes "CSeq"))
