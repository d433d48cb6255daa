-- ===== src/Zrtp/Wire/Encode.antt =====
-- crates/sip-core/src/zrtp/wire.rs: `encode_*`, `Message::encode` and `Packet::encode`. A helper that
-- appends to `out` gives the bytes appended. The checksum of the crate `crc` is a parameter.
use dee_lip.Prelude.{
  ℕ, ◌+◌, ◌-◌, Bool, true, false, List, [], ◌∷◌, ◌++◌, length, take, replicate, u8, u16, be16, be32,
  codes,
}
use Prim.Native.Nat.{min}
use dee_lip.Zrtp.Wire.Types.{
  Hello, Commit, DhPart, Confirm, Message, hello, commit, dh_part1, dh_part2, confirm1, confirm2,
  conf2_ack, Packet, zrtp_magic_cookie, header_prefix, msg_preamble,
}

unfoldable pub message_type_bytes : List ℕ → List ℕ
message_type_bytes tag = let n = min (length tag) 8 in take n tag ++ replicate (8 - n) b' '

unfoldable pub type_tag : Message → List ℕ
type_tag (hello h) = codes "Hello"
type_tag (commit c) = codes "Commit"
type_tag (dh_part1 d) = codes "DHPart1"
type_tag (dh_part2 d) = codes "DHPart2"
type_tag (confirm1 c) = codes "Confirm1"
type_tag (confirm2 c) = codes "Confirm2"
type_tag conf2_ack = codes "Conf2ACK"

unfoldable pub algos : List (List ℕ) → List ℕ
algos [] = []
algos (algo ∷ list) = algo ++ algos list

unfoldable pub encode_algo_list : List (List ℕ) → List ℕ
encode_algo_list list = u8 (length list) ∷ algos list

abbrev pub of_bool : Bool → ℕ
of_bool true = 1
of_bool false = 0

unfoldable pub encode_hello : Hello → List ℕ
encode_hello h =
    h.version
    ++ (h.client_id
        ++ (h.h3
            ++ (h.zid
                ++ ((of_bool h.mitm_capable ∷ [])
                    ++ (encode_algo_list h.hashes
                        ++ (encode_algo_list h.ciphers
                            ++ (encode_algo_list h.auths
                                ++ (encode_algo_list h.key_agreements
                                    ++ (encode_algo_list h.sas_types ++ h.mac)))))))))

unfoldable pub encode_commit : Commit → List ℕ
encode_commit c =
    c.h2
    ++ (c.zid
        ++ (c.hash ++ (c.cipher ++ (c.auth ++ (c.key_agreement ++ (c.sas ++ (c.hvi ++ c.mac)))))))

unfoldable pub encode_dhpart : DhPart → List ℕ
encode_dhpart d =
    d.h1
    ++ (d.rs1_id
        ++ (d.rs2_id ++ (d.aux_id ++ (d.pbx_id ++ (be16 (u16 (length d.pv)) ++ (d.pv ++ d.mac))))))

unfoldable pub encode_confirm : Confirm → List ℕ
encode_confirm c = c.confirm_mac ++ (c.cfb_iv ++ (be16 (u16 (length c.encrypted)) ++ c.encrypted))

unfoldable pub encode_body : Message → List ℕ
encode_body (hello h) = encode_hello h
encode_body (commit c) = encode_commit c
encode_body (dh_part1 d) = encode_dhpart d
encode_body (dh_part2 d) = encode_dhpart d
encode_body (confirm1 c) = encode_confirm c
encode_body (confirm2 c) = encode_confirm c
encode_body conf2_ack = []

-- What the checksum of a message covers.
unfoldable pub unchecked : Message → List ℕ
unchecked m =
    let body = encode_body m in
    be16 msg_preamble
    ++ (be16 (u16 (8 + length body + 4)) ++ (message_type_bytes (type_tag m) ++ body))

module _ (crc32 : List ℕ → ℕ) where
  unfoldable pub encode : Message → List ℕ
  encode m = let out = unchecked m in out ++ be32 (crc32 out)

  unfoldable pub encode_packet : Packet → List ℕ
  encode_packet p =
      header_prefix ++ (be16 p.sequence ++ (zrtp_magic_cookie ++ (be32 p.ssrc ++ encode p.message)))
