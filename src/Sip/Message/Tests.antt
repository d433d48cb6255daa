-- ===== src/Sip/Message/Tests.antt =====
-- Runs of message.rs.
use dee_lip.Prelude.{
  ◌≡◌, refl, [], ◌∷◌, some, codes, to_string, is_whitespace, trim_start, trim_end, all_ascii,
  all_ascii-IsAscii, arith,
}
use dee_lip.Sip.Util.{find_char}
use dee_lip.Sip.Message.{SipMessage, response, parse}
use dee_lip.Sip.Message.Headers.{IsHeader-of}
use dee_lip.Sip.Message.RoundTrip.{IsPrintable, message_text, parse-message_text}

abbrev pub ringing : SipMessage
ringing = record {
  start_line = response 180 (codes "Ringing");
  headers =
      (codes "Via", codes "SIP/2.0/UDP 10.0.0.2:5060;branch=z9")
      ∷ (codes "Call-ID", codes "4f@10.0.0.2")
      ∷ (codes "CSeq", codes "7 INVITE")
      ∷ [];
  body = codes "v=0";
}

ringing-IsPrintable : IsPrintable ringing
unfolding find_char to_string all_ascii is_whitespace trim_start trim_end
ringing-IsPrintable = record {
  ascii = all_ascii-IsAscii (message_text ringing) refl;
  starts = omega arith;
  start_line = refl;
  named = (
    IsHeader-of 86 (codes "ia") (codes "SIP/2.0/UDP 10.0.0.2:5060;branch=z9") refl refl refl refl,
    (
      IsHeader-of 67 (codes "all-ID") (codes "4f@10.0.0.2") refl refl refl refl,
      (IsHeader-of 67 (codes "Seq") (codes "7 INVITE") refl refl refl refl, tt),
    ),
  );
  lines = (refl, (refl, (refl, tt)));
}

parse-message_text_example : parse (message_text ringing) ≡ some ringing
parse-message_text_example = parse-message_text ringing ringing-IsPrintable
