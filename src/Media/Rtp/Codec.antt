-- ===== src/Media/Rtp/Codec.antt =====
-- `RtpPacket::encode` and `RtpPacket::decode` of rtp.rs.
use Prim.Native.Nat.{bit_and, bit_or}
use dee_lip.Prelude.{
  failures, failures-none, ℕ, ◌+◌, ◌*◌, ◌/◌, ◌%◌, ◌<◌, ◌≤◌, ◌≡◌, refl, ap, Bool, true, false, not,
  some, length, ltb, ◌==◌, ==_iff, IsU16, IsU32, arith,
}
use dee_lip.Media.Rtp.{RtpPacket, encode, decode, marker_bit}

abbrev second_byte : Bool → ℕ → ℕ
second_byte m pt = bit_or (marker_bit m) (bit_and pt 0x7f)

type_table : (m : Bool) → failures (λ pt. bit_and (second_byte m pt) 0x7f == pt) 128 ≡ 0
unfolding failures
type_table true = refl
type_table false = refl

set_table : failures (λ pt. not (bit_and (second_byte true pt) 0x80 == 0)) 128 ≡ 0
unfolding failures
set_table = refl

clear_table : failures (λ pt. bit_and (second_byte false pt) 0x80 == 0) 128 ≡ 0
unfolding failures
clear_table = refl

type_kept : (m : Bool) (pt : ℕ) → pt < 128 → bit_and (second_byte m pt) 0x7f ≡ pt
type_kept m pt h = (==_iff _ _).0 (failures-none _ 128 pt h (type_table m))

marker_kept : (m : Bool) (pt : ℕ) → pt < 128 → not (bit_and (second_byte m pt) 0x80 == 0) ≡ m
marker_kept true pt h = failures-none _ 128 pt h set_table
marker_kept false pt h = ap not (failures-none _ 128 pt h clear_table)

-- What the Rust types and the seven-bit field ask of a packet.
pub record IsPacket (p : RtpPacket) : Type 0 where
  pub payload_type_7 : p.payload_type < 128
  pub sequence_u16 : IsU16 p.sequence
  pub timestamp_u32 : IsU32 p.timestamp
  pub ssrc_u32 : IsU32 p.ssrc

word_kept : (x : ℕ) → IsU16 x → x / 256 % 256 * 256 + x % 256 ≡ x
word_kept x h = omega arith

long_kept :
    (x : ℕ)
    → IsU32 x
    → (x / 16777216 % 256 * 256 + x / 65536 % 256) * 65536 + (x / 256 % 256 * 256 + x % 256) ≡ x
long_kept x h = omega arith

long_enough : (n : ℕ) → 12 ≤ n → ltb n 12 ≡ false
long_enough n h = ground arith

-- Every packet with a 7-bit payload type, a 16-bit sequence number and a 32-bit timestamp and SSRC
-- is decoded from its own encoding, its marker and payload included.
pub decode-encode_rtp : (p : RtpPacket) → IsPacket p → decode (encode p) ≡ some p
unfolding decode encode
decode-encode_rtp p w = rw (
  type_kept p.marker p.payload_type w.payload_type_7,
  marker_kept p.marker p.payload_type w.payload_type_7,
  word_kept p.sequence w.sequence_u16,
  long_kept p.timestamp w.timestamp_u32,
  long_kept p.ssrc w.ssrc_u32,
  long_enough (length (encode p)) (omega arith),
)
