-- ===== src/Sip/Builders/Tests.antt =====
-- Runs of client/builders.rs.
use dee_lip.Prelude.{
  ◌≡◌, refl, true, false, none, some, [], ◌∷◌, codes, to_string, is_whitespace, trim_start,
  trim_end, all_ascii, all_ascii-IsAscii, arith, bytes_eq,
}
use dee_lip.Sip.Util.{find_char, from_first}
use dee_lip.Sip.Message.{
  SipMessage, request, bye, parse, header, find_header, status_code, into_bytes,
}
use dee_lip.Sip.Message.Headers.{IsHeader-of}
use dee_lip.Sip.Message.RoundTrip.{IsPrintable, message_text}
use dee_lip.Sip.Builders.{SipStack, udp, build_response, field}
use dee_lip.Sip.Builders.Echo.{answer, build_response-parse}

abbrev pub desk_phone : SipStack
desk_phone = record {
  identity_host = codes "example.org";
  username = codes "alice";
  display_name = none;
  auth_username = none;
  password = codes "secret";
  hide_caller_id = false;
  session_timers_enabled = true;
  advertised_ip = codes "10.0.0.2";
  local_ip = codes "10.0.0.2";
  local_port = 5060;
  server_addr = codes "10.0.0.1:5060";
  resolved_transport = udp;
  reg_call_id = codes "reg@10.0.0.2";
  user_agent = codes "DeeLip/1.0";
}

abbrev pub goodbye : SipMessage
goodbye = record {
  start_line = request bye (codes "sip:alice@10.0.0.2");
  headers =
      (codes "Via", codes "SIP/2.0/UDP 10.0.0.1;branch=z8")
      ∷ (codes "To", codes "<sip:alice@example.org>;tag=a1")
      ∷ (codes "From", codes "<sip:bob@example.org>;tag=b2")
      ∷ (codes "Call-ID", codes "4f@10.0.0.2")
      ∷ (codes "CSeq", codes "2 BYE")
      ∷ [];
  body = [];
}

answer-IsPrintable : IsPrintable (answer desk_phone goodbye 200 (codes "OK") [] [])
unfolding find_char from_first to_string all_ascii is_whitespace trim_start trim_end header
    find_header into_bytes bytes_eq
answer-IsPrintable = record {
  ascii = all_ascii-IsAscii (message_text (answer desk_phone goodbye 200 (codes "OK") [] [])) refl;
  starts = omega arith;
  start_line = refl;
  named = (
    IsHeader-of 86 (codes "ia") (codes "SIP/2.0/UDP 10.0.0.1;branch=z8") refl refl refl refl,
    (
      IsHeader-of 84 (codes "o") (codes "<sip:alice@example.org>;tag=a1") refl refl refl refl,
      (
        IsHeader-of 70 (codes "rom") (codes "<sip:bob@example.org>;tag=b2") refl refl refl refl,
        (
          IsHeader-of 67 (codes "all-ID") (codes "4f@10.0.0.2") refl refl refl refl,
          (
            IsHeader-of 67 (codes "Seq") (codes "2 BYE") refl refl refl refl,
            (
              IsHeader-of 85 (codes "ser-Agent") (codes "DeeLip/1.0") refl refl refl refl,
              (IsHeader-of 67 (codes "ontent-Length") (codes "0") refl refl refl refl, tt),
            ),
          ),
        ),
      ),
    ),
  );
  lines = (refl, (refl, (refl, (refl, (refl, (refl, (refl, tt)))))));
}

build_response-parse_example :
    (m : SipMessage) × (parse (build_response desk_phone goodbye 200 (codes "OK") [] []) ≡ some m)
    × (status_code m ≡ some 200)
    × (header m (codes "Via") ≡ some (field goodbye (codes "Via")))
    × (header m (codes "From") ≡ some (field goodbye (codes "From")))
    × (header m (codes "Call-ID") ≡ some (field goodbye (codes "Call-ID")))
    × (header m (codes "CSeq") ≡ some (field goodbye (codes "CSeq")))
    × (m.body ≡ [])
build_response-parse_example =
    build_response-parse desk_phone goodbye 200 (codes "OK") [] [] answer-IsPrintable
