-- ===== src/Media/G711.antt =====
-- crates/media-engine/src/codec.rs: G.711 and linear PCM. A sample is an integer of 16 bits; where the code joins
-- bits that do not overlap, they are added, and the complement of a byte is its distance from 255.
pub mod Bytes
pub mod Tests
use mathlib.Core.List.{map}
use dee_lip.Prelude.{
  ℕ, zero, suc, ◌+◌, ◌-◌, ◌*◌, ◌/◌, ◌%◌, ◌^◌, Bool, true, false, List, [], ◌∷◌, ◌++◌, replicate,
  get_or, ltb, leb, ◌==◌, if◌then◌else◌, be16, of_be16,
}

-- The integers, over the natural numbers of this development.
pub data ℤ : Type 0 where
  pos negsuc : ℕ → ℤ

abbrev ulaw_bias : ℕ
ulaw_bias = 0x84

abbrev ulaw_clip : ℕ
ulaw_clip = 32635

-- The table of exponents: two entries of 0 and of 1, then for each exponent twice as many as for the last.
abbrev ulaw_exp : List ℕ
ulaw_exp =
    0
    ∷ 0
    ∷ 1
    ∷ 1
    ∷ (replicate 4 2
        ++ (replicate 8 3
            ++ (replicate 16 4 ++ (replicate 32 5 ++ (replicate 64 6 ++ replicate 128 7)))))

abbrev clipped : ℕ → ℕ
clipped s = if ltb ulaw_clip s then ulaw_clip else s

-- The byte for a sign bit and a magnitude.
abbrev ulaw_byte : ℕ → ℕ → ℕ
ulaw_byte sign magnitude =
    let s = clipped magnitude + ulaw_bias in
    let exp = get_or ulaw_exp (s / 128 % 256) 0 in 255 - (sign + exp * 16 + s / 2 ^ (exp + 3) % 16)

unfoldable pub pcm_to_ulaw : ℤ → ℕ
pcm_to_ulaw (pos n) = ulaw_byte 0 n
pcm_to_ulaw (negsuc n) = ulaw_byte 0x80 (n + 1)

abbrev pub negated : ℕ → ℤ
negated zero = pos 0
negated (suc n) = negsuc n

abbrev pub signed : Bool → ℕ → ℤ
signed minus s = if minus then negated s else pos s

-- The magnitude of `ulaw_to_pcm`.
abbrev pub ulaw_magnitude : ℕ → ℕ
ulaw_magnitude u = let v = 255 - u in (v % 16 * 8 + ulaw_bias) * 2 ^ (v / 16 % 8) - ulaw_bias

unfoldable pub ulaw_to_pcm : ℕ → ℤ
ulaw_to_pcm u = signed (leb 128 (255 - u)) (ulaw_magnitude u)

-- `^` on words of so many bits
unfoldable pub xor : ℕ → ℕ → ℕ → ℕ
xor zero a b = 0
xor (suc bits) a b = (a + b) % 2 + 2 * xor bits (a / 2) (b / 2)

-- The position of the highest bit, of a number below 2 ^ fuel.
unfoldable pub highest_bit : ℕ → ℕ → ℕ
highest_bit zero n = 0
highest_bit (suc fuel) n = let rest = highest_bit fuel (n / 2) in if ltb n 2 then 0 else suc rest

abbrev segmented : ℕ → ℕ
segmented s =
    if ltb s 32
    then s / 2
    else if ltb s 64
    then 0x10 + (s - 32) / 2
    else (let seg = highest_bit 12 s - 4 in seg * 16 + s / 2 ^ seg % 16)

abbrev alaw_byte : ℕ → ℕ → ℕ
alaw_byte s mask = xor 8 (segmented (if ltb 4095 s then 4095 else s)) mask

unfoldable pub pcm_to_alaw : ℤ → ℕ
unfolding xor highest_bit
pcm_to_alaw (pos n) = alaw_byte (n / 8) 0xd5
pcm_to_alaw (negsuc n) = alaw_byte (n / 8) 0x55

abbrev alaw_step : ℕ → ℕ → ℕ
alaw_step mant zero = mant * 2 + 1
alaw_step mant (suc zero) = mant * 2 + 33
alaw_step mant (suc (suc n)) = (mant + 0x10) * 2 ^ suc (suc n) + 2 ^ suc n

abbrev pub alaw_magnitude : ℕ → ℕ
alaw_magnitude a = alaw_step (a % 16) (a / 16 % 8) * 8

unfoldable pub alaw_to_pcm : ℕ → ℤ
unfolding xor
alaw_to_pcm alaw = let a = xor 8 alaw 0x55 in signed (ltb a 128) (alaw_magnitude a)

unfoldable pub encode_pcmu : List ℤ → List ℕ
unfolding pcm_to_ulaw
encode_pcmu pcm = map pcm_to_ulaw pcm

unfoldable pub decode_pcmu : List ℕ → List ℤ
unfolding ulaw_to_pcm
decode_pcmu raw = map ulaw_to_pcm raw

unfoldable pub encode_pcma : List ℤ → List ℕ
unfolding pcm_to_alaw
encode_pcma pcm = map pcm_to_alaw pcm

unfoldable pub decode_pcma : List ℕ → List ℤ
unfolding alaw_to_pcm
decode_pcma raw = map alaw_to_pcm raw

-- `to_be_bytes` and `from_be_bytes` of a sample
abbrev pub word_of : ℤ → ℕ
word_of (pos n) = n
word_of (negsuc n) = 65535 - n

abbrev pub sample_of : ℕ → ℤ
sample_of w = if ltb w 32768 then pos w else negsuc (65535 - w)

unfoldable pub encode_l16 : List ℤ → List ℕ
encode_l16 [] = []
encode_l16 (s ∷ pcm) = be16 (word_of s) ++ encode_l16 pcm

unfoldable pub decode_l16 : List ℕ → List ℤ
decode_l16 [] = []
decode_l16 (a ∷ []) = []
decode_l16 (a ∷ b ∷ raw) = sample_of (of_be16 (a ∷ b ∷ [])) ∷ decode_l16 raw
