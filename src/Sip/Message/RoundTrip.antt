-- ===== src/Sip/Message/RoundTrip.antt =====
-- `parse` of message.rs after the printing of a message.
use mathlib.Core.List.{map}
use dee_lip.Prelude.{
  lines_text, ℕ, ◌<◌, ◌≡◌, refl, ap, ◌∙◌, true, false, none, some, List, [], ◌∷◌, ◌++◌, arith, ◌==◌,
  All, All-append_right, bytes_eq, codes, strip_prefix, parse_unsigned, to_string,
  parse_unsigned-to_string, to_string-digits, ltb, ◌^◌, IsAscii, from_utf8_lossy,
  from_utf8_lossy-ascii, is_utf8-ascii, if◌then◌else◌,
}
use dee_lip.Sip.Framing.{split_crlf}
use dee_lip.Sip.Util.{find_char}
use dee_lip.Sip.Util.Uri.{missing, find_char-digits}
use dee_lip.Sip.Message.{
  SipMethod, SipStartLine, SipMessage, Reading, as_str, method_of, request, response, register,
  invite, ack, bye, cancel, options, info, notify, subscribe, refer, message, publish, other,
  break_at, parse_start_line, request_line, response_of, read_line, read_lines, nothing_read,
  into_bytes, message_of, text_or_empty, parse_lines, parse,
}
use dee_lip.Sip.Message.Lines.{split_crlf-line, join_crlf-split_crlf}
use dee_lip.Sip.Message.Headers.{header_text, IsHeader, read_lines-headers, read_lines-body}

-- A start line as it is sent.
abbrev pub start_text : SipStartLine → List ℕ
start_text (request m uri) = as_str m ++ (0x20 ∷ (uri ++ codes " SIP/2.0"))
start_text (response status reason) = codes "SIP/2.0 " ++ (to_string status ++ (0x20 ∷ reason))

-- One of the twelve methods that have a name, and a URI with no space; or a status that an unsigned 16-bit number holds.
abbrev pub IsStart : SipStartLine → Type 0
IsStart (request (other s) uri) = ⊥
IsStart (request m uri) = find_char 0x20 uri ≡ none
IsStart (response status reason) = status < 2 ^ 16

same_char : (x : ℕ) → (x == x) ≡ true
same_char x = ground arith

break_at-first :
    (sep : ℕ) (s rest : List ℕ)
    → find_char sep s ≡ none
    → break_at sep (s ++ (sep ∷ rest)) ≡ (s, some rest)
unfolding break_at
break_at-first sep [] rest h = rw (same_char sep) refl
break_at-first sep (c ∷ cs) rest h =
    let (ne, later) = missing sep c cs h in rw (ne, break_at-first sep cs rest later) refl

module _ (uri : List ℕ) (h : find_char 0x20 uri ≡ none) where
  request_rest :
      (m : SipMethod)
      → request_line (as_str m) (some (uri ++ codes " SIP/2.0"))
        ≡ some (request (method_of (as_str m)) uri)
  request_rest m =
      ap (λ p. some (request (method_of (as_str m)) p.0))
        (break_at-first 0x20 uri (codes "SIP/2.0") h)

request_start :
    (m : SipMethod) (uri : List ℕ)
    → IsStart (request m uri)
    → parse_start_line (start_text (request m uri)) ≡ some (request m uri)
unfolding parse_start_line break_at method_of as_str strip_prefix bytes_eq
request_start register uri h = request_rest uri h register
request_start invite uri h = request_rest uri h invite
request_start ack uri h = request_rest uri h ack
request_start bye uri h = request_rest uri h bye
request_start cancel uri h = request_rest uri h cancel
request_start options uri h = request_rest uri h options
request_start info uri h = request_rest uri h info
request_start notify uri h = request_rest uri h notify
request_start subscribe uri h = request_rest uri h subscribe
request_start refer uri h = request_rest uri h refer
request_start message uri h = request_rest uri h message
request_start publish uri h = request_rest uri h publish
request_start (other s) uri h = absurd h

to_string_no_space : (n : ℕ) → find_char 0x20 (to_string n) ≡ none
to_string_no_space n = find_char-digits 0x20 (to_string n) (omega arith) (to_string-digits n)

response_start :
    (status : ℕ) (reason : List ℕ)
    → status < 2 ^ 16
    → parse_start_line (start_text (response status reason)) ≡ some (response status reason)
unfolding parse_start_line break_at strip_prefix
response_start status reason h =
    ap (λ p. response_of (parse_unsigned (2 ^ 16) p.0) (text_or_empty p.1))
      (break_at-first 0x20 (to_string status) reason (to_string_no_space status))
    ∙ ap (λ o. response_of o reason) (parse_unsigned-to_string (2 ^ 16) status h)

one_byte : (c : ℕ) → c < 128 → ltb c 0x80 ≡ true
one_byte c h = ground arith

pub into_bytes-ascii : (s : List ℕ) → IsAscii s → into_bytes s ≡ s
unfolding into_bytes
into_bytes-ascii [] h = refl
into_bytes-ascii (c ∷ cs) h = rw (one_byte c h.0, into_bytes-ascii cs h.1) refl

-- A message as it is sent.
abbrev pub message_text : SipMessage → List ℕ
message_text m =
    start_text m.start_line ++ (13 ∷ 10 ∷ lines_text (map header_text m.headers) (13 ∷ 10 ∷ m.body))

abbrev pub IsLine : List ℕ → Type 0
IsLine s = find_char 13 s ≡ none

-- A message of ASCII text with a proper start line and proper headers, each on a line of its own.
pub record IsPrintable (m : SipMessage) : Type 0 where
  pub ascii : IsAscii (message_text m)
  pub starts : IsStart m.start_line
  pub start_line : IsLine (start_text m.start_line)
  pub named : All IsHeader m.headers
  pub lines : All IsLine (map header_text m.headers)

start_read : (s : SipStartLine) → IsStart s → parse_start_line (start_text s) ≡ some s
start_read (request m uri) h = request_start m uri h
start_read (response status reason) h = response_start status reason h

lines_cut :
    (lines : List (List ℕ)) (rest : List ℕ)
    → All IsLine lines
    → split_crlf false (lines_text lines (13 ∷ 10 ∷ rest)) ≡ lines ++ ([] ∷ split_crlf false rest)
unfolding find_char
lines_cut [] rest w = split_crlf-line [] rest refl
lines_cut (line ∷ lines) rest w =
    split_crlf-line line (lines_text lines (13 ∷ 10 ∷ rest)) w.0
    ∙ ap (λ l. line ∷ l) (lines_cut lines rest w.1)

abbrev behind_headers : List (List ℕ × List ℕ) → Reading
behind_headers hs = record { headers = hs; in_body = true; body_parts = [] }

lines_read :
    (hs : List (List ℕ × List ℕ)) (body : List ℕ)
    → All IsHeader hs
    → read_lines (map header_text hs ++ ([] ∷ split_crlf false body)) nothing_read
      ≡ record (behind_headers hs) { body_parts = split_crlf false body }
unfolding read_lines read_line
lines_read hs body w =
    read_lines-headers hs ([] ∷ split_crlf false body) nothing_read w refl
    ∙ read_lines-body (split_crlf false body) (behind_headers hs) refl

lines-IsAscii :
    (lines : List (List ℕ)) (rest : List ℕ) → IsAscii (lines_text lines rest) → IsAscii rest
lines-IsAscii [] rest w = w
lines-IsAscii (line ∷ lines) rest w =
    lines-IsAscii lines rest
      (All-append_right (λ c. c < 128) line (13 ∷ 10 ∷ lines_text lines rest) w).1.1

body-IsAscii : (m : SipMessage) → IsAscii (message_text m) → IsAscii m.body
body-IsAscii m w =
    let rest = lines_text (map header_text m.headers) (13 ∷ 10 ∷ m.body) in
    let behind = All-append_right (λ c. c < 128) (start_text m.start_line) (13 ∷ 10 ∷ rest) w in
    (lines-IsAscii (map header_text m.headers) (13 ∷ 10 ∷ m.body) behind.1.1).1.1

-- A message that is printable is read back from its text.
pub parse-message_text : (m : SipMessage) → IsPrintable m → parse (message_text m) ≡ some m
unfolding parse parse_lines
parse-message_text m w =
    let text = message_text m in
    let hs = map header_text m.headers in
    ap (λ b. if b then parse_lines (split_crlf false (from_utf8_lossy text)) else none)
      (is_utf8-ascii text w.ascii)
    ∙ ap (λ t. parse_lines (split_crlf false t)) (from_utf8_lossy-ascii text w.ascii)
    ∙ ap parse_lines (
        split_crlf-line (start_text m.start_line) (lines_text hs (13 ∷ 10 ∷ m.body)) w.start_line
        ∙ ap (λ l. start_text m.start_line ∷ l) (lines_cut hs m.body w.lines))
    ∙ ap (λ o. message_of o (read_lines (hs ++ ([] ∷ split_crlf false m.body)) nothing_read))
        (start_read m.start_line w.starts)
    ∙ ap (message_of (some m.start_line)) (lines_read m.headers m.body w.named)
    ∙ ap (λ b. some (record { start_line = m.start_line; headers = m.headers; body = b }))
        (ap into_bytes (join_crlf-split_crlf m.body)
          ∙ into_bytes-ascii m.body (body-IsAscii m w.ascii))
