-- ===== src/Media/G711/Tests.antt =====
-- Runs of crates/media-engine/src/codec.rs.
use dee_lip.Prelude.{ℕ, ◌≡◌, refl, List, [], ◌∷◌, All, arith}
use dee_lip.Media.G711.{encode_pcmu, decode_pcmu, encode_pcma, decode_pcma}
use dee_lip.Media.G711.Bytes.{
  IsUlaw, IsSample, encode_pcmu-decode_pcmu, encode_pcma-decode_pcma, decoded-IsSample,
}

abbrev some_bytes : List ℕ
some_bytes = 0 ∷ 0x80 ∷ 0xff ∷ []

IsUlaw-All : All IsUlaw some_bytes
IsUlaw-All = ((omega arith, refl), ((omega arith, refl), ((omega arith, refl), tt)))

encode_pcmu-decode_pcmu_example : encode_pcmu (decode_pcmu some_bytes) ≡ some_bytes
encode_pcmu-decode_pcmu_example = encode_pcmu-decode_pcmu some_bytes IsUlaw-All

encode_pcma-decode_pcma_example : encode_pcma (decode_pcma some_bytes) ≡ some_bytes
encode_pcma-decode_pcma_example =
    encode_pcma-decode_pcma some_bytes (omega arith, (omega arith, (omega arith, tt)))

decoded-IsSample_example :
    All IsSample (decode_pcmu some_bytes) × All IsSample (decode_pcma some_bytes)
decoded-IsSample_example =
    decoded-IsSample some_bytes (omega arith, (omega arith, (omega arith, tt)))
