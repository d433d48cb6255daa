-- ===== src/Zrtp/Engine/Toy.antt =====
-- Toy primitives that meet the laws: constant digests, a key exchange by addition, and a cipher that
-- changes nothing.
use dee_lip.Prelude.{ℕ, ◌+◌, ◌≡◌, refl, Option, none, some, List, [], ◌∷◌, replicate, arith, ap}
use dee_lip.Zrtp.Crypto.{Primitives}
use dee_lip.Zrtp.Engine.Handshake.{Laws}

abbrev toy_agree : ℕ → List ℕ → Option (List ℕ)
toy_agree k (x ∷ y ∷ ys) = some ((k + y) ∷ [])
toy_agree k xs = none

abbrev pub toy : Primitives ℕ
toy = record {
  sha256 = λ xs. replicate 32 7;
  hmac_sha256 = λ k xs. replicate 32 9;
  public_bytes = λ k. replicate 64 k;
  agree = toy_agree;
  confirm_encrypt = λ k iv xs. xs;
  confirm_decrypt = λ k iv xs. xs;
  crc32 = λ xs. 0;
}

toy_comm : (k l : ℕ) → toy_agree l (4 ∷ replicate 64 k) ≡ some ((k + l) ∷ [])
toy_comm k l = ap (λ (n : ℕ). some (n ∷ [])) (omega arith)

pub toy-Laws : Laws toy
toy-Laws = record {
  sha256_32 = λ xs. refl;
  hmac_32 = λ k xs. refl;
  public_64 = λ k. refl;
  crc32_u32 = λ xs. omega arith;
  cfb_undone = λ k iv xs. refl;
  cfb_length = λ k iv xs. refl;
  shared = λ k l. (k + l) ∷ [];
  agree_left = λ k l. refl;
  agree_right = toy_comm;
}
