-- ===== src/Zrtp/Wire/Types.antt =====
-- crates/sip-core/src/zrtp/wire.rs: the messages and the errors. A fixed array `[u8; N]` is a list of
-- bytes; its length is part of what `IsWellFormed` says of a message.
use dee_lip.Prelude.{ℕ, ◌+◌, ◌<◌, ◌≡◌, Bool, List, [], ◌∷◌, length, All, codes, IsU16, IsU32}

pub data WireError : Type 0 where
  too_short bad_magic_cookie bad_preamble bad_crc truncated : WireError
  unknown_message_type : List ℕ → WireError
  unsupported_algorithm : WireError

pub record Hello : Type 0 where
  pub version : List ℕ
  pub client_id : List ℕ
  pub h3 : List ℕ
  pub zid : List ℕ
  pub mitm_capable : Bool
  pub hashes : List (List ℕ)
  pub ciphers : List (List ℕ)
  pub auths : List (List ℕ)
  pub key_agreements : List (List ℕ)
  pub sas_types : List (List ℕ)
  pub mac : List ℕ

pub record Commit : Type 0 where
  pub h2 : List ℕ
  pub zid : List ℕ
  pub hash : List ℕ
  pub cipher : List ℕ
  pub auth : List ℕ
  pub key_agreement : List ℕ
  pub sas : List ℕ
  pub hvi : List ℕ
  pub mac : List ℕ

pub record DhPart : Type 0 where
  pub h1 : List ℕ
  pub rs1_id : List ℕ
  pub rs2_id : List ℕ
  pub aux_id : List ℕ
  pub pbx_id : List ℕ
  pub pv : List ℕ
  pub mac : List ℕ

pub record Confirm : Type 0 where
  pub confirm_mac : List ℕ
  pub cfb_iv : List ℕ
  pub encrypted : List ℕ

pub data Message : Type 0 where
  hello : Hello → Message
  commit : Commit → Message
  dh_part1 dh_part2 : DhPart → Message
  confirm1 confirm2 : Confirm → Message
  conf2_ack : Message

pub record Packet : Type 0 where
  pub sequence : ℕ
  pub ssrc : ℕ
  pub message : Message

-- `ZRTP_MAGIC_COOKIE`, `HEADER_PREFIX` and `MSG_PREAMBLE`
abbrev pub zrtp_magic_cookie : List ℕ
zrtp_magic_cookie = codes "ZRTP"

abbrev pub header_prefix : List ℕ
header_prefix = 0x10 ∷ 0x00 ∷ []

abbrev pub msg_preamble : ℕ
msg_preamble = 0x505a

-- What the Rust types and the one-byte and two-byte counts of the format ask of a message.
abbrev pub IsArray : ℕ → List ℕ → Type 0
IsArray n xs = length xs ≡ n

abbrev pub IsAlgoList : List (List ℕ) → Type 0
IsAlgoList l = (length l < 256) × All (IsArray 4) l

pub record IsHello (h : Hello) : Type 0 where
  pub version_4 : IsArray 4 h.version
  pub client_id_16 : IsArray 16 h.client_id
  pub h3_32 : IsArray 32 h.h3
  pub zid_12 : IsArray 12 h.zid
  pub hashes_fit : IsAlgoList h.hashes
  pub ciphers_fit : IsAlgoList h.ciphers
  pub auths_fit : IsAlgoList h.auths
  pub key_agreements_fit : IsAlgoList h.key_agreements
  pub sas_types_fit : IsAlgoList h.sas_types
  pub mac_8 : IsArray 8 h.mac

pub record IsCommit (c : Commit) : Type 0 where
  pub h2_32 : IsArray 32 c.h2
  pub zid_12 : IsArray 12 c.zid
  pub hash_4 : IsArray 4 c.hash
  pub cipher_4 : IsArray 4 c.cipher
  pub auth_4 : IsArray 4 c.auth
  pub key_agreement_4 : IsArray 4 c.key_agreement
  pub sas_4 : IsArray 4 c.sas
  pub hvi_32 : IsArray 32 c.hvi
  pub mac_8 : IsArray 8 c.mac

pub record IsDhPart (d : DhPart) : Type 0 where
  pub h1_32 : IsArray 32 d.h1
  pub rs1_id_8 : IsArray 8 d.rs1_id
  pub rs2_id_8 : IsArray 8 d.rs2_id
  pub aux_id_8 : IsArray 8 d.aux_id
  pub pbx_id_8 : IsArray 8 d.pbx_id
  pub pv_fits : length d.pv + 86 < 65536
  pub mac_8 : IsArray 8 d.mac

pub record IsConfirm (c : Confirm) : Type 0 where
  pub confirm_mac_8 : IsArray 8 c.confirm_mac
  pub cfb_iv_16 : IsArray 16 c.cfb_iv
  pub encrypted_fits : length c.encrypted + 38 < 65536

abbrev pub IsMessage : Message → Type 0
IsMessage (hello h) = IsHello h
IsMessage (commit c) = IsCommit c
IsMessage (dh_part1 d) = IsDhPart d
IsMessage (dh_part2 d) = IsDhPart d
IsMessage (confirm1 c) = IsConfirm c
IsMessage (confirm2 c) = IsConfirm c
IsMessage conf2_ack = Unit

pub record IsPacket (p : Packet) : Type 0 where
  pub sequence_u16 : IsU16 p.sequence
  pub ssrc_u32 : IsU32 p.ssrc
  pub message_fits : IsMessage p.message
