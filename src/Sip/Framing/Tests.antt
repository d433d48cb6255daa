-- ===== src/Sip/Framing/Tests.antt =====
-- The framer of framing.rs on two messages that arrive in three pieces.
use dee_lip.Prelude.{
  is_utf8, from_utf8_lossy, strip_prefix, parse_unsigned, trim_end, trim_start, ℕ, ◌≡◌, refl, some,
  List, [], ◌∷◌, ◌++◌, codes,
}
use dee_lip.Sip.Framing.{
  MessageFramer, empty_framer, push, try_take_message, recv_all, find_header_block_end,
  extract_content_length, split_crlf, first_length,
}
use dee_lip.Sip.Framing.Stability.{try_take_message-push}
use dee_lip.Sip.Framing.Chunks.{concat, messages_in, recv_all-messages_in}

abbrev crlf : List ℕ
crlf = 13 ∷ 10 ∷ []

abbrev first : List ℕ
first = codes "A" ++ (crlf ++ (codes "l: 2" ++ (crlf ++ (crlf ++ codes "hi"))))

abbrev framer : MessageFramer
framer = record { buf = first ++ codes "B" }

first_taken : try_take_message framer ≡ some (first, record { buf = codes "B" })
unfolding try_take_message find_header_block_end extract_content_length split_crlf first_length
    is_utf8 from_utf8_lossy strip_prefix parse_unsigned trim_end trim_start
first_taken = refl

try_take_message-push_example :
    (first ++ codes "B" ≡ framer.buf)
    × (try_take_message (push framer (codes "CD"))
        ≡ some (first, push (record { buf = codes "B" }) (codes "CD")))
try_take_message-push_example =
    try_take_message-push framer (record { buf = codes "B" }) first (codes "CD") first_taken

abbrev pieces : List (List ℕ)
pieces = codes "A" ∷ (crlf ++ codes "l: 2") ∷ (crlf ++ (crlf ++ (codes "hi" ++ first))) ∷ []

recv_all-messages_in_example :
    recv_all 2 empty_framer pieces ≡ messages_in 2 (push empty_framer (concat pieces))
recv_all-messages_in_example =
    recv_all-messages_in 2 empty_framer pieces (λ e. cc, (λ e. cc, (λ e. cc, tt)))
