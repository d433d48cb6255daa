-- ===== src/Zrtp/Wire/Decode.antt =====
-- crates/sip-core/src/zrtp/wire.rs: `decode_*`, `Message::decode`, `Packet::decode` and
-- `is_zrtp_packet`. A reader of `body` at `pos` gives what it read and the new `pos`.
use dee_lip.Prelude.{
  ℕ, zero, suc, ◌+◌, ◌-◌, ◌*◌, Bool, not, ◌&&◌, none, some, List, [], ◌∷◌, length, get_elem?,
  range_of, leb, ◌==◌, if◌then◌else◌, Outcome, ok, err, panic, ◌>>=◌, ◌>>◌, ensure, slice,
  get_range, bytes_eq, of_be16, of_be32, codes, from_utf8_lossy, trim_end,
}
use dee_lip.Zrtp.Wire.Types.{
  WireError, too_short, bad_magic_cookie, bad_preamble, bad_crc, truncated, unknown_message_type,
  Hello, Commit, DhPart, Confirm, Message, hello, commit, dh_part1, dh_part2, confirm1, confirm2,
  conf2_ack, Packet, zrtp_magic_cookie, msg_preamble,
}

-- `body[pos..pos + n].try_into().unwrap()` with `pos += n`; the conversion to `[u8; n]` aborts at
-- another length.
unfoldable pub take_array : List ℕ → ℕ → ℕ → Outcome WireError (List ℕ × ℕ)
take_array body pos n = do
  s ← slice body pos (pos + n)
  if length s == n then ok (s, pos + n) else panic

-- `body[i]`
unfoldable pub byte_at : List ℕ → ℕ → Outcome WireError ℕ
byte_at body i = elim (get_elem? body i) [ none ↦ panic | some b ↦ ok b ]

-- `*body.get(i).ok_or(Truncated)?`
unfoldable pub get_byte : List ℕ → ℕ → Outcome WireError ℕ
get_byte body i = elim (get_elem? body i) [ none ↦ err truncated | some b ↦ ok b ]

-- The `for` loop of `decode_algo_list`.
unfoldable pub decode_algos : List ℕ → ℕ → ℕ → Outcome WireError (List (List ℕ) × ℕ)
decode_algos body zero pos = ok ([], pos)
decode_algos body (suc count) pos = do
  chunk ← get_range truncated body pos (pos + 4)
  (rest, end) ← decode_algos body count (pos + 4)
  ok (chunk ∷ rest, end)

unfoldable pub decode_algo_list : List ℕ → ℕ → Outcome WireError (List (List ℕ) × ℕ)
decode_algo_list body pos = do count ← get_byte body pos; decode_algos body count (pos + 1)

unfoldable pub decode_hello : List ℕ → Outcome WireError Hello
decode_hello body = do
  ensure (leb (4 + 16 + 32 + 12 + 1) (length body)) truncated
  (version, pos) ← take_array body 0 4
  (client_id, pos) ← take_array body pos 16
  (h3, pos) ← take_array body pos 32
  (zid, pos) ← take_array body pos 12
  mitm ← byte_at body pos
  (hashes, pos) ← decode_algo_list body (pos + 1)
  (ciphers, pos) ← decode_algo_list body pos
  (auths, pos) ← decode_algo_list body pos
  (key_agreements, pos) ← decode_algo_list body pos
  (sas_types, pos) ← decode_algo_list body pos
  mac ← get_range truncated body pos (pos + 8)
  ok (record {
    version = version;
    client_id = client_id;
    h3 = h3;
    zid = zid;
    mitm_capable = not (mitm == 0);
    hashes = hashes;
    ciphers = ciphers;
    auths = auths;
    key_agreements = key_agreements;
    sas_types = sas_types;
    mac = mac;
  })

unfoldable pub decode_commit : List ℕ → Outcome WireError Commit
decode_commit body = do
  ensure (leb (32 + 12 + 4 * 5 + 32 + 8) (length body)) truncated
  (h2, pos) ← take_array body 0 32
  (zid, pos) ← take_array body pos 12
  (hash, pos) ← take_array body pos 4
  (cipher, pos) ← take_array body pos 4
  (auth, pos) ← take_array body pos 4
  (key_agreement, pos) ← take_array body pos 4
  (sas, pos) ← take_array body pos 4
  (hvi, pos) ← take_array body pos 32
  (mac, pos) ← take_array body pos 8
  ok (record {
    h2 = h2;
    zid = zid;
    hash = hash;
    cipher = cipher;
    auth = auth;
    key_agreement = key_agreement;
    sas = sas;
    hvi = hvi;
    mac = mac;
  })

unfoldable pub decode_dhpart : List ℕ → Outcome WireError DhPart
decode_dhpart body = do
  ensure (leb (32 + 8 * 4 + 2) (length body)) truncated
  (h1, pos) ← take_array body 0 32
  (rs1_id, pos) ← take_array body pos 8
  (rs2_id, pos) ← take_array body pos 8
  (aux_id, pos) ← take_array body pos 8
  (pbx_id, pos) ← take_array body pos 8
  (len, pos) ← take_array body pos 2
  pv ← get_range truncated body pos (pos + of_be16 len)
  mac ← get_range truncated body (pos + of_be16 len) (pos + of_be16 len + 8)
  ok (record {
    h1 = h1;
    rs1_id = rs1_id;
    rs2_id = rs2_id;
    aux_id = aux_id;
    pbx_id = pbx_id;
    pv = pv;
    mac = mac;
  })

unfoldable pub decode_confirm : List ℕ → Outcome WireError Confirm
decode_confirm body = do
  ensure (leb (8 + 16 + 2) (length body)) truncated
  (confirm_mac, pos) ← take_array body 0 8
  (cfb_iv, pos) ← take_array body pos 16
  (len, pos) ← take_array body pos 2
  encrypted ← get_range truncated body pos (pos + of_be16 len)
  ok (record { confirm_mac = confirm_mac; cfb_iv = cfb_iv; encrypted = encrypted })

abbrev pub as_message :
    {A : Type 0} → Outcome WireError A → (A → Message) → Outcome WireError Message
as_message m f = m >>= λ a. ok (f a)

-- The `match` on the type tag.
unfoldable pub decode_body : List ℕ → List ℕ → Outcome WireError Message
decode_body tag body =
    if bytes_eq tag (codes "Hello")
    then as_message (decode_hello body) hello
    else if bytes_eq tag (codes "Commit")
    then as_message (decode_commit body) commit
    else if bytes_eq tag (codes "DHPart1")
    then as_message (decode_dhpart body) dh_part1
    else if bytes_eq tag (codes "DHPart2")
    then as_message (decode_dhpart body) dh_part2
    else if bytes_eq tag (codes "Confirm1")
    then as_message (decode_confirm body) confirm1
    else if bytes_eq tag (codes "Confirm2")
    then as_message (decode_confirm body) confirm2
    else if bytes_eq tag (codes "Conf2ACK")
    then ok conf2_ack
    else err (unknown_message_type tag)

module _ (crc32 : List ℕ → ℕ) where
  unfoldable pub decode : List ℕ → Outcome WireError Message
  decode bytes = do
    ensure (leb (4 + 8 + 4) (length bytes)) truncated
    (preamble, _) ← take_array bytes 0 2
    ensure (of_be16 preamble == msg_preamble) bad_preamble
    (len, _) ← take_array bytes 2 2
    let total_len = 4 + of_be16 len
    ensure (leb total_len (length bytes)) truncated
    let crc_at = total_len - 4
    message ← slice bytes 0 total_len
    expected_crc ← slice message crc_at (length message)
    covered ← slice message 0 crc_at
    ensure (of_be32 expected_crc == crc32 covered) bad_crc
    tag ← slice message 4 12
    body ← slice message 12 crc_at
    decode_body (trim_end (from_utf8_lossy tag)) body

  unfoldable pub decode_packet : List ℕ → Outcome WireError Packet
  decode_packet bytes = do
    ensure (leb 12 (length bytes)) too_short
    cookie ← slice bytes 4 8
    ensure (bytes_eq cookie zrtp_magic_cookie) bad_magic_cookie
    (sequence, _) ← take_array bytes 2 2
    (ssrc, _) ← take_array bytes 8 4
    rest ← slice bytes 12 (length bytes)
    message ← decode rest
    ok (record { sequence = of_be16 sequence; ssrc = of_be32 ssrc; message = message })

unfoldable pub is_zrtp_packet : List ℕ → Bool
is_zrtp_packet bytes = leb 8 (length bytes) && bytes_eq (range_of bytes 4 8) zrtp_magic_cookie
