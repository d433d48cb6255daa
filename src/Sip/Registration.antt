-- ===== src/Sip/Registration.antt =====
-- crates/sip-core/src/registration.rs, with `extract_expires` and `parse_via_received` of wire/util.rs: the two
-- rounds of REGISTER.
pub mod Rounds
pub mod Tests
use dee_lip.Prelude.{
  ℕ, ◌+◌, ◌%◌, ◌^◌, Bool, true, false, not, ◌&&◌, ◌||◌, Option, none, some, List, [], ◌∷◌, ◌++◌,
  if◌then◌else◌, ◌==◌, ltb, codes, lines_text, to_string, trim, trim_start, trim_end, is_whitespace,
  strip_prefix, parse_unsigned, bytes_eq,
}
use dee_lip.Sip.Util.{split_on, or_text}
use dee_lip.Sip.Message.{SipMessage, SipMethod, parse, header, status_code, method, call_id}
use dee_lip.Sip.Builders.{
  SipStack, display, build_via, build_contact, request_text, from_header, cseq_header,
}
use dee_lip.Sip.Auth.{trim_matches, build_challenge_response}
use dee_lip.Sip.Calls.Messages.{auth_name}
use dee_lip.Sip.Calls.Requests.{auth_lines}

-- What registration reads and writes of a `SipStack`; the addresses that it may change are the record's own.
pub record Registrar : Type 0 where
  pub stack : SipStack
  pub domain : List ℕ
  pub register_expires : ℕ
  pub reg_from_tag : List ℕ
  pub reg_cseq : ℕ
  pub allow_ip_rewrite : Bool
  pub public_address_is_set : Bool

-- `timed_out` stands for the transport's errors too.
pub data RegError : Type 0 where
  permanent rejected : ℕ → RegError
  expected_response timed_out : RegError
  not_sent missing bad_challenge : List ℕ → RegError

pub data RegResult : Type 0 where
  registered : ℕ → RegResult
  fails_with : RegError → RegResult

-- What registration meets: MD5 in hexadecimal, the branches it draws, the errors of its two sends, and the
-- datagrams that arrive before the timeouts of its two rounds.
pub record Line : Type 0 where
  pub md5_hex : List ℕ → List ℕ
  pub branch : List ℕ
  pub next_branch : List ℕ
  pub send_error : Option (List ℕ)
  pub next_send_error : Option (List ℕ)
  pub arriving : List (List ℕ)
  pub arriving_next : List (List ℕ)

abbrev or_number : Option ℕ → Option ℕ → Option ℕ
or_number (some n) o = some n
or_number none o = o

abbrev number_in : Option (List ℕ) → Option ℕ
number_in none = none
number_in (some v) = parse_unsigned (2 ^ 32) v

unfoldable expires_in : List (List ℕ) → Option ℕ
unfolding strip_prefix trim_start trim_end is_whitespace trim_matches
expires_in [] = none
expires_in (param ∷ params) =
    or_number (expires_param (strip_prefix (codes "expires=") (trim param))) (expires_in params)
  where
    expires_param : Option (List ℕ) → Option ℕ
    expires_param none = none
    expires_param (some v) = parse_unsigned (2 ^ 32) (trim_matches 0x22 v)

abbrev contact_expires : Option (List ℕ) → Option ℕ
contact_expires none = none
contact_expires (some contact) = expires_in (split_on 0x3b contact)

abbrev trimmed : Option (List ℕ) → Option (List ℕ)
trimmed none = none
trimmed (some v) = some (trim v)

unfoldable pub extract_expires : SipMessage → Option ℕ
unfolding header split_on expires_in parse_unsigned trim_start trim_end is_whitespace
extract_expires msg =
    or_number (number_in (trimmed (header msg (codes "Expires"))))
      (contact_expires (header msg (codes "Contact")))

abbrev first_text : Option (List ℕ) → Option (List ℕ) → Option (List ℕ)
first_text none o = o
first_text (some s) o = some (trim s)

-- The last `received=` among the parameters of a Via; its `rport=` is not used here.
unfoldable received_in : List (List ℕ) → Option (List ℕ) → Option (List ℕ)
unfolding strip_prefix trim_start trim_end is_whitespace
received_in [] received = received
received_in (part ∷ parts) received =
    received_in parts (first_text (strip_prefix (codes "received=") (trim part)) received)

abbrev behind_first : List (List ℕ) → List (List ℕ)
behind_first [] = []
behind_first (p ∷ ps) = ps

unfoldable pub via_received : List ℕ → Option (List ℕ)
unfolding received_in split_on
via_received via = received_in (behind_first (split_on 0x3b via)) none

abbrev changed : List ℕ → Option (List ℕ) → Option (List ℕ)
changed current none = none
changed current (some ip) = if bytes_eq ip current then none else some ip

abbrev seen_as : Option (List ℕ) → Option (List ℕ)
seen_as none = none
seen_as (some via) = via_received via

unfoldable pub resolve_ip_rewrite : List ℕ → Bool → Bool → Option (List ℕ) → Option (List ℕ)
unfolding via_received bytes_eq
resolve_ip_rewrite current allow_ip_rewrite public_address_is_set via =
    if not allow_ip_rewrite || public_address_is_set then none else changed current (seen_as via)

abbrev readdressed : Registrar → Option (List ℕ) → Registrar
readdressed r none = r
readdressed r (some ip) = record r { stack = record r.stack { advertised_ip = ip } }

unfoldable pub maybe_rewrite_advertised_ip : Registrar → SipMessage → Registrar
unfolding resolve_ip_rewrite header
maybe_rewrite_advertised_ip r resp = readdressed r (
    resolve_ip_rewrite r.stack.advertised_ip r.allow_ip_rewrite r.public_address_is_set
      (header resp (codes "Via")))

unfoldable pub register_text : Registrar → Option (List ℕ) → List ℕ → List ℕ
unfolding build_via build_contact to_string
register_text r auth branch =
    lines_text
      (request_text (codes "REGISTER") (codes "sip:" ++ r.domain)
        ∷ build_via r.stack branch
        ∷ codes "Max-Forwards: 70"
        ∷ (codes "To: \""
            ++ (display r.stack
                ++ (codes "\" <sip:" ++ (r.stack.username ++ (0x40 ∷ (r.domain ++ codes ">"))))))
        ∷ (codes "From: \""
            ++ (display r.stack
                ++ (codes "\" <sip:"
                    ++ (r.stack.username
                        ++ (0x40 ∷ (r.domain ++ (codes ">;tag=" ++ r.reg_from_tag)))))))
        ∷ (codes "Call-ID: " ++ r.stack.reg_call_id)
        ∷ cseq_header r.reg_cseq (codes "REGISTER")
        ∷ build_contact r.stack
        ∷ (codes "Expires: " ++ to_string r.register_expires)
        ∷ (codes "User-Agent: " ++ r.stack.user_agent)
        ∷ (auth_lines auth ++ (codes "Content-Length: 0" ∷ [])))
      (13 ∷ 10 ∷ [])

abbrev pub numbered_on : Registrar → Registrar
numbered_on r = record r { reg_cseq = (r.reg_cseq + 1) % 2 ^ 32 }

abbrev provisional : Option ℕ → Bool
provisional none = false
provisional (some c) = ltb c 200

abbrev is_request : Option SipMethod → Bool
is_request none = false
is_request (some m) = true

abbrev other_call : List ℕ → Option (List ℕ) → Bool
other_call own none = false
other_call own (some id) = not (bytes_eq id own)

abbrev ours : List ℕ → SipMessage → Bool
ours own msg =
    not (provisional (status_code msg) || (is_request (method msg) || other_call own (call_id msg)))

abbrev taken : List ℕ → Option SipMessage → Option SipMessage → Option SipMessage
taken own none rest = rest
taken own (some msg) rest = if ours own msg then some msg else rest

-- `recv_reg_response`: the first final response of this registration, if one arrives in time.
unfoldable pub recv_reg_response : List ℕ → List (List ℕ) → Option SipMessage
unfolding parse status_code method call_id bytes_eq
recv_reg_response own [] = none
recv_reg_response own (data_in ∷ more) = taken own (parse data_in) (recv_reg_response own more)

abbrev or_default : Option ℕ → ℕ → ℕ
or_default none n = n
or_default (some n) m = n

abbrev pub accepted : Registrar → SipMessage → Registrar × RegResult
accepted r resp = (
  maybe_rewrite_advertised_ip r resp,
  registered (or_default (extract_expires resp) r.register_expires),
)

abbrev pub refusal : ℕ → RegError
refusal c = if c == 403 || c == 404 then permanent c else rejected c

abbrev pub second_answer : Registrar → SipMessage → Option ℕ → Registrar × RegResult
second_answer r resp none = (r, fails_with expected_response)
second_answer r resp (some c) = if c == 200 then accepted r resp else (r, fails_with (refusal c))

abbrev pub second_received : Registrar → Option SipMessage → Registrar × RegResult
second_received r none = (r, fails_with timed_out)
second_received r (some resp) = second_answer r resp (status_code resp)

-- What is sent, and what comes of it.
pub record Attempt : Type 0 where
  pub after : Registrar
  pub sent : List (List ℕ)
  pub result : RegResult

abbrev pub attempt : List (List ℕ) → Registrar × RegResult → Attempt
attempt texts (r, result) = record { after = r; sent = texts; result = result }

abbrev pub second_sent : Line → List ℕ → List ℕ → Registrar → Option (List ℕ) → Attempt
second_sent l first text r (some e) = attempt (first ∷ []) (r, fails_with (not_sent e))
second_sent l first text r none =
    attempt (first ∷ text ∷ [])
      (second_received r (recv_reg_response r.stack.reg_call_id l.arriving_next))

abbrev pub second_round : Line → List ℕ → Registrar → Option (List ℕ) → List ℕ → Attempt
second_round l first r none raw = attempt (first ∷ []) (r, fails_with (bad_challenge raw))
second_round l first r (some auth) raw =
    second_sent l first (register_text r (some auth) l.next_branch) (numbered_on r)
      l.next_send_error

abbrev pub challenged_by : Line → List ℕ → Registrar → List ℕ → Option (List ℕ) → Attempt
challenged_by l first r name none = attempt (first ∷ []) (r, fails_with (missing name))
challenged_by l first r name (some raw) =
    second_round l first r
      (build_challenge_response l.md5_hex (auth_name r.stack) r.stack.password (codes "REGISTER")
        (codes "sip:" ++ r.domain) raw)
      raw

abbrev pub challenge_header : ℕ → List ℕ
challenge_header c = if c == 407 then codes "Proxy-Authenticate" else codes "WWW-Authenticate"

abbrev pub first_answer : Line → List ℕ → Registrar → SipMessage → Option ℕ → Attempt
first_answer l first r resp none = attempt (first ∷ []) (r, fails_with expected_response)
first_answer l first r resp (some c) =
    if c == 200
    then attempt (first ∷ []) (accepted r resp)
    else if c == 401 || c == 407
    then challenged_by l first r (challenge_header c) (header resp (challenge_header c))
    else attempt (first ∷ []) (r, fails_with (refusal c))

abbrev pub first_received : Line → List ℕ → Registrar → Option SipMessage → Attempt
first_received l first r none = attempt (first ∷ []) (r, fails_with timed_out)
first_received l first r (some resp) = first_answer l first r resp (status_code resp)

abbrev pub first_sent : Line → List ℕ → Registrar → Option (List ℕ) → Attempt
first_sent l text r (some e) = attempt [] (r, fails_with (not_sent e))
first_sent l text r none =
    first_received l text r (recv_reg_response r.stack.reg_call_id l.arriving)

unfoldable pub register_once : Line → Registrar → Attempt
unfolding register_text recv_reg_response status_code header maybe_rewrite_advertised_ip
    extract_expires build_challenge_response auth_name
register_once l r = first_sent l (register_text r none l.branch) (numbered_on r) l.send_error
