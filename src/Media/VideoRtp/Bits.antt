-- ===== src/Media/VideoRtp/Bits.antt =====
-- The header bytes of FU-A packets: what is packed into them is read back.
use Prim.Native.Nat.{bit_and, bit_or}
use dee_lip.Prelude.{
  ℕ, ◌≡◌, refl, Bool, true, false, not, ◌==◌, ==_iff, failures, failures-none, IsU8,
}
use dee_lip.Media.VideoRtp.{fu_a_type, fu_indicator, fu_header}

indicator_table : failures (λ h. bit_and (fu_indicator h) 0x1f == fu_a_type) 256 ≡ 0
unfolding failures
indicator_table = refl

pub indicator_type : (h : ℕ) → IsU8 h → (bit_and (fu_indicator h) 0x1f == fu_a_type) ≡ true
indicator_type h lt = failures-none _ 256 h lt indicator_table

abbrev same : Bool → Bool → Bool
same true b = b
same false b = not b

same→eq : (a b : Bool) → same a b ≡ true → b ≡ a
same→eq true b h = h
same→eq false true h = cc
same→eq false false h = refl

abbrev started : ℕ → Bool → Bool → Bool
started h s e = not (bit_and (fu_header h s e) 0x80 == 0)

start_table : (s e : Bool) → failures (λ h. same s (started h s e)) 256 ≡ 0
unfolding failures
start_table true true = refl
start_table true false = refl
start_table false true = refl
start_table false false = refl

pub start_bit : (h : ℕ) (s e : Bool) → IsU8 h → not (bit_and (fu_header h s e) 0x80 == 0) ≡ s
start_bit h s e lt = same→eq s _ (failures-none _ 256 h lt (start_table s e))

abbrev ended : ℕ → Bool → Bool → Bool
ended h s e = not (bit_and (fu_header h s e) 0x40 == 0)

end_table : (s e : Bool) → failures (λ h. same e (ended h s e)) 256 ≡ 0
unfolding failures
end_table true true = refl
end_table true false = refl
end_table false true = refl
end_table false false = refl

pub end_bit : (h : ℕ) (s e : Bool) → IsU8 h → not (bit_and (fu_header h s e) 0x40 == 0) ≡ e
end_bit h s e lt = same→eq e _ (failures-none _ 256 h lt (end_table s e))

abbrev rebuilt : ℕ → Bool → Bool → ℕ
rebuilt h s e = bit_or (bit_and (fu_indicator h) 0xe0) (bit_and (fu_header h s e) 0x1f)

header_table : (s e : Bool) → failures (λ h. rebuilt h s e == h) 256 ≡ 0
unfolding failures
header_table true true = refl
header_table true false = refl
header_table false true = refl
header_table false false = refl

pub header_kept :
    (h : ℕ) (s e : Bool)
    → IsU8 h
    → bit_or (bit_and (fu_indicator h) 0xe0) (bit_and (fu_header h s e) 0x1f) ≡ h
header_kept h s e lt = (==_iff _ _).0 (failures-none _ 256 h lt (header_table s e))
