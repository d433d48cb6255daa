-- ===== src/Media/Dtmf.antt =====
-- crates/media-engine/src/dtmf.rs: telephone events. Characters are code points. The synthesis of tones
-- is floating-point arithmetic and is not modelled.
pub mod Burst
pub mod Tests
use Prim.Native.Nat.{bit_and, bit_or}
use dee_lip.Prelude.{
  ℕ, zero, suc, ◌+◌, ◌-◌, ◌/◌, Bool, true, false, ◌&&◌, ◌||◌, Option, none, some, List, [], ◌∷◌,
  ◌++◌, leb, ◌==◌, u8, u16, if◌then◌else◌,
}
use dee_lip.Media.Rtp.{RtpPacket, new_packet, encode}

unfoldable pub char_to_event : ℕ → Option ℕ
char_to_event c =
    if leb 0x30 c && leb c 0x39
    then some (c - 0x30)
    else if c == 0x2a
    then some 10
    else if c == 0x23
    then some 11
    else if c == 0x41 || c == 0x61
    then some 12
    else if c == 0x42 || c == 0x62
    then some 13
    else if c == 0x43 || c == 0x63
    then some 14
    else if c == 0x44 || c == 0x64
    then some 15
    else none

unfoldable pub encode_dtmf_payload : ℕ → Bool → ℕ → ℕ → List ℕ
encode_dtmf_payload event final volume duration =
    event
    ∷ (if final then bit_or 0x80 (bit_and volume 0x3f) else bit_and volume 0x3f)
    ∷ u8 (duration / 256)
    ∷ u8 duration
    ∷ []

-- The loop of `build_dtmf_burst` over the end packets.
unfoldable pub end_packets : ℕ → ℕ → ℕ → ℕ → ℕ → ℕ → List (List ℕ) × ℕ
unfolding encode_dtmf_payload
end_packets zero event ssrc seq base_ts dtmf_pt = ([], seq)
end_packets (suc n) event ssrc seq base_ts dtmf_pt =
    let end = new_packet dtmf_pt seq base_ts ssrc (encode_dtmf_payload event true 10 480) in
    let (out, seq') = end_packets n event ssrc (u16 (seq + 1)) base_ts dtmf_pt in
    (encode end ∷ out, seq')

-- The wire bytes of the packets, and the sequence number that `seq` is left at.
unfoldable pub build_dtmf_burst : ℕ → ℕ → ℕ → ℕ → ℕ → List (List ℕ) × ℕ
unfolding encode_dtmf_payload end_packets
build_dtmf_burst event ssrc seq base_ts dtmf_pt =
    let start =
      record (new_packet dtmf_pt seq base_ts ssrc (encode_dtmf_payload event false 10 160)) {
        marker = true;
      } in
    let seq1 = u16 (seq + 1) in
    let mid = new_packet dtmf_pt seq1 base_ts ssrc (encode_dtmf_payload event false 10 320) in
    let (ends, seq') = end_packets 3 event ssrc (u16 (seq1 + 1)) base_ts dtmf_pt in
    (encode start ∷ encode mid ∷ ends, seq')
