-- ===== src/Zrtp/Wire/RoundTrip.antt =====
-- `Message::decode` of wire.rs undoes `Message::encode`, and `Packet::decode` undoes `Packet::encode`.
use dee_lip.Prelude.{
  ℕ, ◌+◌, ◌-◌, ◌<◌, ◌≡◌, refl, sym, ap, subst, ◌∙◌, List, [], ◌++◌, length, length-append,
  append_assoc, append-nil, At, At-next, ok, arith, true, leb, be16, be32, u16, of_be16, of_be32,
  of_be16-be16, of_be32-be32, IsU32, slice-at, slice-to, ◌>>=◌, slice, from_utf8_lossy, trim_end,
  ==_iff, bytes_eq, bytes_eq_refl,
}
use dee_lip.Zrtp.Wire.Types.{
  Message, IsMessage, hello, commit, dh_part1, dh_part2, confirm1, confirm2, conf2_ack, WireError,
  msg_preamble, Packet, IsPacket, header_prefix, zrtp_magic_cookie,
}
use dee_lip.Zrtp.Wire.Encode.{
  encode_body, type_tag, message_type_bytes, unchecked, encode, encode_packet,
}
use dee_lip.Zrtp.Wire.Decode.{decode_body, decode, decode_packet}
use dee_lip.Zrtp.Wire.Cursor.{reads}
use dee_lip.Zrtp.Wire.Sizes.{length-encode_body}
use dee_lip.Zrtp.Wire.Bodies.{
  At-all, decode_hello-encode_hello, decode_commit-encode_commit, decode_dhpart-encode_dhpart,
  decode_confirm-encode_confirm,
}

-- The type tag of a message leads to the reader of its body.
decode_body-encode_body :
    (m : Message)
    → IsMessage m
    → decode_body (trim_end (from_utf8_lossy (message_type_bytes (type_tag m)))) (encode_body m)
      ≡ ok m
unfolding decode_body encode_body type_tag message_type_bytes from_utf8_lossy trim_end bytes_eq
decode_body-encode_body (hello h) w = rw (decode_hello-encode_hello h w)
decode_body-encode_body (commit c) w = rw (decode_commit-encode_commit c w)
decode_body-encode_body (dh_part1 d) w = rw (decode_dhpart-encode_dhpart d w)
decode_body-encode_body (dh_part2 d) w = rw (decode_dhpart-encode_dhpart d w)
decode_body-encode_body (confirm1 c) w = rw (decode_confirm-encode_confirm c w)
decode_body-encode_body (confirm2 c) w = rw (decode_confirm-encode_confirm c w)
decode_body-encode_body conf2_ack w = refl

-- The frame of a message: preamble, length, tag, body and checksum.
abbrev framed : ℕ → List ℕ → List ℕ → List ℕ
framed n tag body = be16 msg_preamble ++ (be16 n ++ (tag ++ body))

module _ (n : ℕ) (tag body c : List ℕ) (tag_8 : length tag ≡ 8) (c_4 : length c ≡ 4)
    (n_eq : n ≡ 12 + length body) where
  length-covered : length (framed n tag body) ≡ n
  length-covered = omega (arith, length-append tag body)

  length-frame : length (framed n tag body ++ c) ≡ 4 + n
  length-frame = omega (arith, length-append (tag ++ body) c, length-append tag body)

  frame_fields :
      At (framed n tag body ++ c) 0 (be16 msg_preamble ++ (be16 n ++ (tag ++ (body ++ c))))
  frame_fields = record {
    before = [];
    split = ap (λ l. be16 msg_preamble ++ (be16 n ++ l)) (append_assoc tag body c);
    width = refl;
  }

  module _ (crc32 : List ℕ → ℕ) (n_u16 : n < 65536) (bytes : List ℕ)
      (e : bytes ≡ framed n tag body ++ c) (sum : of_be32 c ≡ crc32 (framed n tag body)) where
    decode_frame : decode crc32 bytes ≡ decode_body (trim_end (from_utf8_lossy tag)) body
    unfolding decode
    decode_frame =
        let size : length bytes ≡ 4 + n = ap length e ∙ length-frame in
        let at0 =
          subst (λ l. At l 0 (be16 msg_preamble ++ (be16 n ++ (tag ++ (body ++ c))))) (sym e)
            frame_fields in
        let r1 = reads (be16 msg_preamble) 2 refl at0 in
        let r2 = reads (be16 n) 2 refl r1.next in
        let at_body = At-next tag (body ++ c) 8 r2.next tag_8 in
        let at_all : At bytes 0 (bytes ++ []) = record {
          before = [];
          split = sym (append-nil bytes);
          width = refl;
        } in
        let at_u : At bytes 0 (framed n tag body ++ c) = record {
          before = [];
          split = e;
          width = refl;
        } in
        let at_c : At bytes n c = record {
          before = framed n tag body;
          split = e;
          width = length-covered;
        } in
        let long : leb 16 (length bytes) ≡ true = ground arith in
        let whole : leb (4 + n) (length bytes) ≡ true = ground arith in
        let kept : of_be16 (be16 n) ≡ n = of_be16-be16 n n_u16 in
        let less : 4 + n - 4 ≡ n = omega arith in
        let s_all : slice {E = WireError} bytes 0 (4 + n) ≡ ok bytes =
          slice-to bytes [] (4 + n) at_all (omega arith) in
        let s_c : slice {E = WireError} bytes n (length bytes) ≡ ok c =
          slice-to c [] (length bytes) (At-all c at_c) (omega arith) in
        let s_u : slice {E = WireError} bytes 0 n ≡ ok (framed n tag body) =
          slice-to (framed n tag body) c n at_u (omega (arith, length-covered)) in
        let s_body : slice {E = WireError} bytes 12 n ≡ ok body = slice-to body c n at_body n_eq in
        rw (
          long,
          r1.takes,
          r2.takes,
          kept,
          whole,
          s_all,
          less,
          s_c,
          s_u,
          (==_iff (of_be32 c) (crc32 (framed n tag body))).1 sum,
          slice-at tag (body ++ c) 8 r2.next tag_8,
          s_body,
        )

length-message_type_bytes : (m : Message) → length (message_type_bytes (type_tag m)) ≡ 8
unfolding message_type_bytes type_tag
length-message_type_bytes (hello h) = refl
length-message_type_bytes _ = refl

module _ (crc32 : List ℕ → ℕ) (crc32_u32 : (xs : List ℕ) → IsU32 (crc32 xs)) where
  -- With a checksum of 32 bits, every message whose fields have the sizes of their Rust types, and
  -- whose counts and lengths fit the one-byte and two-byte fields of the format, is decoded from
  -- its own encoding.
  pub decode-encode : (m : Message) → IsMessage m → decode crc32 (encode crc32 m) ≡ ok m
  unfolding encode unchecked
  decode-encode m w =
      let small = length-encode_body m w in
      let n_eq : u16 (8 + length (encode_body m) + 4) ≡ 12 + length (encode_body m) = omega arith in
      decode_frame (u16 (8 + length (encode_body m) + 4)) (message_type_bytes (type_tag m))
        (encode_body m) (be32 (crc32 (unchecked m))) (length-message_type_bytes m) refl n_eq crc32
        (omega arith) (encode crc32 m) refl (of_be32-be32 _ (crc32_u32 _))
      ∙ decode_body-encode_body m w

module _ (sequence ssrc : ℕ) (message : List ℕ) (bytes : List ℕ)
    (e : bytes
      ≡ header_prefix ++ (be16 sequence ++ (zrtp_magic_cookie ++ (be32 ssrc ++ message)))) where
  decode_header :
      (crc32 : List ℕ → ℕ)
      → decode_packet crc32 bytes ≡ (do
        m ← decode crc32 message
        ok (record { sequence = of_be16 (be16 sequence); ssrc = of_be32 (be32 ssrc); message = m }))
  unfolding decode_packet
  decode_header crc32 =
      let size : length bytes ≡ 12 + length message = ap length e ∙ omega arith in
      let at0 : At bytes 0
          (header_prefix ++ (be16 sequence ++ (zrtp_magic_cookie ++ (be32 ssrc ++ message)))) =
        record { before = []; split = e; width = refl } in
      let r1 = reads header_prefix 2 refl at0 in
      let r2 = reads (be16 sequence) 2 refl r1.next in
      let r3 = reads zrtp_magic_cookie 4 refl r2.next in
      let r4 = reads (be32 ssrc) 4 refl r3.next in
      let long : leb 12 (length bytes) ≡ true = ground arith in
      let s_cookie : slice {E = WireError} bytes 4 8 ≡ ok zrtp_magic_cookie =
        slice-to zrtp_magic_cookie (be32 ssrc ++ message) 8 r2.next refl in
      let s_rest : slice {E = WireError} bytes 12 (length bytes) ≡ ok message =
        slice-to message [] (length bytes) (At-all message r4.next) (omega arith) in
      rw (long, s_cookie, bytes_eq_refl zrtp_magic_cookie, r2.takes, r4.takes, s_rest)

module _ (crc32 : List ℕ → ℕ) (crc32_u32 : (xs : List ℕ) → IsU32 (crc32 xs)) where
  -- With a checksum of 32 bits, every packet with a 16-bit sequence number, a 32-bit SSRC and such
  -- a message is decoded from its own encoding.
  pub decode_packet-encode_packet :
      (p : Packet) → IsPacket p → decode_packet crc32 (encode_packet crc32 p) ≡ ok p
  unfolding encode_packet
  decode_packet-encode_packet p w =
      decode_header p.sequence p.ssrc (encode crc32 p.message) _ refl crc32
      ∙ rw (
        decode-encode crc32 crc32_u32 p.message w.message_fits,
        of_be16-be16 p.sequence w.sequence_u16,
        of_be32-be32 p.ssrc w.ssrc_u32,
      )
