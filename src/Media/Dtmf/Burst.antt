-- ===== src/Media/Dtmf/Burst.antt =====
-- The packets of `build_dtmf_burst` of dtmf.rs.
use mathlib.Core.List.{map}
use dee_lip.Prelude.{
  ℕ, ◌+◌, ◌*◌, ◌<◌, ◌≡◌, ap, ◌∙◌, Bool, true, false, some, List, [], ◌∷◌, leb, ◌==◌, be16, u16,
  IsU16, IsU32, arith, if◌then◌else◌,
}
use Prim.Native.Nat.{min}
use dee_lip.Media.Rtp.{RtpPacket, new_packet, encode, decode}
use dee_lip.Media.Rtp.Codec.{decode-encode_rtp}
use dee_lip.Media.Dtmf.{encode_dtmf_payload, end_packets, build_dtmf_burst}

-- Packet `k` of a burst as RFC 4733 has it: one timestamp for all, the sequence numbers counted on, the
-- marker on the first packet, the end bit from the third on, volume 10, and the duration growing by 20 ms
-- up to the end.
pub burst_packet : ℕ → ℕ → ℕ → ℕ → ℕ → ℕ → RtpPacket
burst_packet event ssrc seq base_ts dtmf_pt k = record {
  payload_type = dtmf_pt;
  sequence = u16 (seq + k);
  timestamp = base_ts;
  ssrc = ssrc;
  marker = k == 0;
  payload = event ∷ (if leb 2 k then 128 + 10 else 10) ∷ be16 (160 * min (k + 1) 3);
}

list_eq5 {ℓ} :
    {A : Type ℓ} {a b c d e a' b' c' d' e' : A}
    → a ≡ a'
    → b ≡ b'
    → c ≡ c'
    → d ≡ d'
    → e ≡ e'
    → (a ∷ b ∷ c ∷ d ∷ e ∷ []) ≡ (a' ∷ b' ∷ c' ∷ d' ∷ e' ∷ [])
list_eq5 p q r s t = cc

module _ (ssrc base_ts dtmf_pt : ℕ) (hs : IsU32 ssrc) (ht : IsU32 base_ts) (hp : dtmf_pt < 128)
    (marker : Bool) (payload : List ℕ) where
  abbrev packet : ℕ → RtpPacket
  packet n = record {
    payload_type = dtmf_pt;
    sequence = n;
    timestamp = base_ts;
    ssrc = ssrc;
    marker = marker;
    payload = payload;
  }

  decoded : (n n' : ℕ) → n ≡ n' → IsU16 n → decode (encode (packet n)) ≡ some (packet n')
  decoded n n' e w =
      decode-encode_rtp (packet n)
        (record { payload_type_7 = hp; sequence_u16 = w; timestamp_u32 = ht; ssrc_u32 = hs })
      ∙ ap (λ k. some (packet k)) e

-- With a 32-bit SSRC and timestamp, a 16-bit sequence number and a 7-bit payload type, the five
-- packets of a burst decode to the packets that RFC 4733 has for the event, and the counter is
-- left five further, modulo 2 ^ 16.
pub build_dtmf_burst-decode :
    (event ssrc seq base_ts dtmf_pt : ℕ)
    → IsU32 ssrc
    → IsU16 seq
    → IsU32 base_ts
    → dtmf_pt < 128
    → (map decode (build_dtmf_burst event ssrc seq base_ts dtmf_pt).0
        ≡ map (λ k. some (burst_packet event ssrc seq base_ts dtmf_pt k)) (0 ∷ 1 ∷ 2 ∷ 3 ∷ 4 ∷ []))
      × ((build_dtmf_burst event ssrc seq base_ts dtmf_pt).1 ≡ u16 (seq + 5))
unfolding build_dtmf_burst end_packets encode_dtmf_payload burst_packet new_packet
build_dtmf_burst-decode event ssrc seq base_ts dtmf_pt hs hq ht hp =
    let d = decoded ssrc base_ts dtmf_pt hs ht hp in
    (
      list_eq5 (d true _ seq (u16 (seq + 0)) (omega arith) hq)
          (d false _ _ (u16 (seq + 1)) (omega arith) (omega arith))
          (d false _ _ (u16 (seq + 2)) (omega arith) (omega arith))
          (d false _ _ (u16 (seq + 3)) (omega arith) (omega arith))
          (d false _ _ (u16 (seq + 4)) (omega arith) (omega arith)),
      omega arith,
    )
