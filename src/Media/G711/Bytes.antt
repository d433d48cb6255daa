-- ===== src/Media/G711/Bytes.antt =====
-- What G.711 (crates/media-engine/src/codec.rs) does to each of the 256 bytes, and linear PCM to samples.
use mathlib.Core.Path.{ap₂}
use dee_lip.Prelude.{
  ◌++◌, ℕ, zero, suc, ◌-◌, ◌<◌, ◌≡◌, refl, ap, sym, ◌∙◌, Bool, true, false, ◌&&◌, ◌||◌, Bool-cases,
  inl, inr, List, [], ◌∷◌, ltb, ◌==◌, All, arith, be16, of_be16-be16, if◌then◌else◌,
}
use dee_lip.Media.G711.{
  ℤ, pos, negsuc, pcm_to_ulaw, ulaw_to_pcm, pcm_to_alaw, alaw_to_pcm, xor, highest_bit, encode_pcmu,
  decode_pcmu, encode_pcma, decode_pcma, encode_l16, decode_l16, word_of, sample_of,
}

-- A test on all numbers below one.
all_below : (ℕ → Bool) → ℕ → Bool
all_below test zero = true
all_below test (suc n) = test n && all_below test n

and_parts : (a b : Bool) → a && b ≡ true → (a ≡ true) × (b ≡ true)
and_parts true true h = (refl, refl)
and_parts true false h = absurd (cc)
and_parts false b h = absurd (cc)

same_number : (n k : ℕ) → (k == n) ≡ true → n ≡ k
same_number n k h = ground arith

smaller : (n k : ℕ) → (k == n) ≡ false → k < suc n → k < n
smaller n k h lt = ground arith

holds_below : (test : ℕ → Bool) (n k : ℕ) → all_below test n ≡ true → k < n → test k ≡ true
unfolding all_below
holds_below test zero k h lt = absurd (omega arith)
holds_below test (suc n) k h lt =
    let (here, rest) = and_parts (test n) (all_below test n) h in
    elim (Bool-cases (k == n)) [
      | inl e ↦ ap test (sym (same_number n k e)) ∙ here
      | inr e ↦ holds_below test n k rest (smaller n k e lt)
    ]

ulaw_kept : ℕ → Bool
ulaw_kept u = pcm_to_ulaw (ulaw_to_pcm u) == u || u == 0x7f

ulaw_all : all_below ulaw_kept 256 ≡ true
unfolding all_below ulaw_kept pcm_to_ulaw ulaw_to_pcm
ulaw_all = refl

alaw_kept : ℕ → Bool
alaw_kept a = pcm_to_alaw (alaw_to_pcm a) == a

alaw_all : all_below alaw_kept 256 ≡ true
unfolding all_below alaw_kept pcm_to_alaw alaw_to_pcm xor highest_bit
alaw_all = refl

bounded_sample : ℤ → Bool
bounded_sample (pos n) = ltb n 32768
bounded_sample (negsuc n) = ltb n 32768

-- A sample of 16 bits.
abbrev pub IsSample : ℤ → Type 0
IsSample (pos n) = n < 32768
IsSample (negsuc n) = n < 32768

IsSample-bounded : (s : ℤ) → bounded_sample s ≡ true → IsSample s
unfolding bounded_sample
IsSample-bounded (pos n) h = ground arith
IsSample-bounded (negsuc n) h = ground arith

both_bounded : ℕ → Bool
both_bounded b = bounded_sample (ulaw_to_pcm b) && bounded_sample (alaw_to_pcm b)

bounded_all : all_below both_bounded 256 ≡ true
unfolding all_below both_bounded bounded_sample ulaw_to_pcm alaw_to_pcm xor
bounded_all = refl

abbrev IsByte : ℕ → Type 0
IsByte b = b < 256

-- A byte of μ-law other than 0x7f, the negative zero.
abbrev pub IsUlaw : ℕ → Type 0
IsUlaw u = (u < 256) × ((u == 0x7f) ≡ false)

or_first : (a b : Bool) → a || b ≡ true → b ≡ false → a ≡ true
or_first true b h k = refl
or_first false b h k = cc

equal_of : (n k : ℕ) → (n == k) ≡ true → n ≡ k
equal_of n k h = ground arith

ulaw_byte_kept : (u : ℕ) → IsUlaw u → pcm_to_ulaw (ulaw_to_pcm u) ≡ u
unfolding ulaw_kept
ulaw_byte_kept u w = equal_of (pcm_to_ulaw (ulaw_to_pcm u)) u (
    or_first (pcm_to_ulaw (ulaw_to_pcm u) == u) (u == 0x7f)
      (holds_below ulaw_kept 256 u ulaw_all w.0) w.1)

alaw_byte_kept : (a : ℕ) → a < 256 → pcm_to_alaw (alaw_to_pcm a) ≡ a
unfolding alaw_kept
alaw_byte_kept a lt =
    equal_of (pcm_to_alaw (alaw_to_pcm a)) a (holds_below alaw_kept 256 a alaw_all lt)

-- What is decoded from bytes of μ-law, none of which is 0x7f (the negative zero), is encoded to the same bytes again.
pub encode_pcmu-decode_pcmu : (raw : List ℕ) → All IsUlaw raw → encode_pcmu (decode_pcmu raw) ≡ raw
unfolding encode_pcmu decode_pcmu
encode_pcmu-decode_pcmu [] w = refl
encode_pcmu-decode_pcmu (u ∷ us) w =
    ap₂ (λ b bs. b ∷ bs) (ulaw_byte_kept u w.0) (encode_pcmu-decode_pcmu us w.1)

-- What is decoded from any bytes of A-law is encoded to the same bytes again.
pub encode_pcma-decode_pcma : (raw : List ℕ) → All IsByte raw → encode_pcma (decode_pcma raw) ≡ raw
unfolding encode_pcma decode_pcma
encode_pcma-decode_pcma [] w = refl
encode_pcma-decode_pcma (a ∷ rest) w =
    ap₂ (λ b bs. b ∷ bs) (alaw_byte_kept a w.0) (encode_pcma-decode_pcma rest w.1)

byte_samples : (b : ℕ) → b < 256 → IsSample (ulaw_to_pcm b) × IsSample (alaw_to_pcm b)
unfolding both_bounded
byte_samples b lt =
    let (u, a) =
      and_parts (bounded_sample (ulaw_to_pcm b)) (bounded_sample (alaw_to_pcm b))
        (holds_below both_bounded 256 b bounded_all lt) in
    (IsSample-bounded (ulaw_to_pcm b) u, IsSample-bounded (alaw_to_pcm b) a)

-- All samples decoded from bytes, of μ-law as of A-law, fit 16 bits: the narrowing casts of the decoders lose nothing.
pub decoded-IsSample :
    (raw : List ℕ)
    → All IsByte raw
    → All IsSample (decode_pcmu raw) × All IsSample (decode_pcma raw)
unfolding decode_pcmu decode_pcma
decoded-IsSample [] w = (tt, tt)
decoded-IsSample (b ∷ bs) w =
    let (ulaws, alaws) = decoded-IsSample bs w.1 in
    let (u, a) = byte_samples b w.0 in ((u, ulaws), (a, alaws))

low : (n : ℕ) → n < 32768 → ltb n 32768 ≡ true
low n h = ground arith

high : (n : ℕ) → n < 32768 → ltb (65535 - n) 32768 ≡ false
high n h = ground arith

back : (n : ℕ) → n < 32768 → 65535 - (65535 - n) ≡ n
back n h = omega arith

l16_kept :
    (s : ℤ) (raw : List ℕ) → IsSample s → decode_l16 (be16 (word_of s) ++ raw) ≡ s ∷ decode_l16 raw
unfolding encode_l16 decode_l16
l16_kept (pos n) raw h =
    ap (λ k. sample_of k ∷ decode_l16 raw) (of_be16-be16 n (omega (arith, h)))
    ∙ ap (λ b. (if b then pos n else negsuc (65535 - n)) ∷ decode_l16 raw) (low n h)
l16_kept (negsuc n) raw h =
    ap (λ k. sample_of k ∷ decode_l16 raw) (of_be16-be16 (65535 - n) (omega arith))
    ∙ ap (λ b. (if b then pos (65535 - n) else negsuc (65535 - (65535 - n))) ∷ decode_l16 raw)
        (high n h)
    ∙ ap (λ k. negsuc k ∷ decode_l16 raw) (back n h)

-- Linear PCM of 16-bit samples is decoded to the same samples.
pub decode_l16-encode_l16 : (pcm : List ℤ) → All IsSample pcm → decode_l16 (encode_l16 pcm) ≡ pcm
unfolding encode_l16 decode_l16
decode_l16-encode_l16 [] w = refl
decode_l16-encode_l16 (s ∷ pcm) w =
    l16_kept s (encode_l16 pcm) w.0 ∙ ap (λ l. s ∷ l) (decode_l16-encode_l16 pcm w.1)
