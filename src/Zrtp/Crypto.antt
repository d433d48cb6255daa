-- ===== src/Zrtp/Crypto.antt =====
-- crates/sip-core/src/zrtp/crypto.rs: hash chain, key derivation, short authentication string and
-- message MACs. SHA-256, HMAC, ECDH and AES-CFB are those of the crates `ring` and `cfb_mode`: the
-- fields of `Primitives`. What comes from the random generator is an argument.
pub mod Sas
use dee_lip.Prelude.{
  ℕ, zero, suc, ◌+◌, ◌-◌, ◌*◌, ◌/◌, ◌%◌, ◌^◌, ◌≡◌, Bool, Option, none, some, List, [], ◌∷◌, ◌++◌,
  length, take, bytes_eq, be32, u32, of_be32, codes,
}
use dee_lip.Prelude.{get_or}

-- `K` is the type of EC private keys. `agree` fails on bytes that are no point of the curve.
pub record Primitives (K : Type 0) : Type 0 where
  pub sha256 : List ℕ → List ℕ
  pub hmac_sha256 : List ℕ → List ℕ → List ℕ
  pub public_bytes : K → List ℕ
  pub agree : K → List ℕ → Option (List ℕ)
  pub confirm_encrypt : List ℕ → List ℕ → List ℕ → List ℕ
  pub confirm_decrypt : List ℕ → List ℕ → List ℕ → List ℕ
  pub crc32 : List ℕ → ℕ

abbrev pub hash_algo : List ℕ
hash_algo = codes "S256"

abbrev pub cipher_algo : List ℕ
cipher_algo = codes "AES1"

abbrev pub auth_algo : List ℕ
auth_algo = codes "HS80"

abbrev pub key_agreement_algo : List ℕ
key_agreement_algo = codes "EC25"

abbrev pub sas_algo : List ℕ
sas_algo = codes "B32 "

pub record HashChain : Type 0 where
  pub h0 : List ℕ
  pub h1 : List ℕ
  pub h2 : List ℕ
  pub h3 : List ℕ

pub record SrtpKeys : Type 0 where
  pub key_i : List ℕ
  pub salt_i : List ℕ
  pub key_r : List ℕ
  pub salt_r : List ℕ

pub record Ec25KeyPair (K : Type 0) : Type 0 where
  pub private : K
  pub public_bytes : List ℕ

abbrev pub base32_alphabet : List ℕ
base32_alphabet = codes "ABCDEFGHIJKLMNOPQRSTUVWXYZ234567"

-- The character for bits `shift` to `shift + 4`.
unfoldable pub sas_char : ℕ → ℕ → ℕ
sas_char value shift = get_or base32_alphabet (value / 2 ^ shift % 32) 0

unfoldable pub render_sas_base32 : ℕ → List ℕ
render_sas_base32 value =
    sas_char value 27 ∷ sas_char value 22 ∷ sas_char value 17 ∷ sas_char value 12 ∷ []

unfoldable pub kdf_context : List ℕ → List ℕ → List ℕ → List ℕ
kdf_context zid_i zid_r total_hash = zid_i ++ (zid_r ++ total_hash)

unfoldable pub secret_fields : List (Option (List ℕ)) → List ℕ
secret_fields [] = []
secret_fields (none ∷ rest) = be32 0 ++ secret_fields rest
secret_fields (some s ∷ rest) = be32 (u32 (length s)) ++ (s ++ secret_fields rest)

module _ {K : Type 0} (p : Primitives K) where
  open p use {sha256, hmac_sha256, agree}

  -- `random` is what the generator fills `h0` with.
  unfoldable pub generate_hash_chain : List ℕ → HashChain
  generate_hash_chain random =
      let h1 = sha256 random in
      let h2 = sha256 h1 in record { h0 = random; h1 = h1; h2 = h2; h3 = sha256 h2 }

  unfoldable pub hash_forward : List ℕ → ℕ → List ℕ
  hash_forward cur zero = cur
  hash_forward cur (suc hops) = hash_forward (sha256 cur) hops

  unfoldable pub verify_hash_chain_hop : List ℕ → ℕ → List ℕ → Bool
  verify_hash_chain_hop image hops expected = bytes_eq (hash_forward image hops) expected

  unfoldable pub kdf : List ℕ → List ℕ → List ℕ → ℕ → List ℕ
  kdf ki label context bit_len =
      take (bit_len / 8)
        (hmac_sha256 ki (be32 1 ++ (label ++ (0 ∷ (context ++ be32 (u32 bit_len))))))

  unfoldable pub total_hash : List ℕ → List ℕ → List ℕ → List ℕ → List ℕ
  total_hash responder_hello commit dhpart1 dhpart2 =
      sha256 (responder_hello ++ (commit ++ (dhpart1 ++ dhpart2)))

  unfoldable pub derive_s0 : List ℕ → List ℕ → List ℕ → List ℕ → Option (List ℕ) → List ℕ
  derive_s0 dh_result zid_i zid_r total_hash s1 = sha256 (
      be32 1
      ++ (dh_result
          ++ (codes "ZRTP-HMAC-KDF"
              ++ (zid_i ++ (zid_r ++ (total_hash ++ secret_fields (s1 ∷ none ∷ none ∷ [])))))))

  unfoldable pub derive_srtp_keys : List ℕ → List ℕ → SrtpKeys
  derive_srtp_keys s0 context = record {
    key_i = kdf s0 (codes "Initiator SRTP master key") context 128;
    salt_i = kdf s0 (codes "Initiator SRTP master salt") context 112;
    key_r = kdf s0 (codes "Responder SRTP master key") context 128;
    salt_r = kdf s0 (codes "Responder SRTP master salt") context 112;
  }

  unfoldable pub derive_mac_keys : List ℕ → List ℕ → List ℕ × List ℕ
  derive_mac_keys s0 context = (
    kdf s0 (codes "Initiator HMAC key") context 256,
    kdf s0 (codes "Responder HMAC key") context 256,
  )

  unfoldable pub derive_zrtp_keys : List ℕ → List ℕ → List ℕ × List ℕ
  derive_zrtp_keys s0 context = (
    kdf s0 (codes "Initiator ZRTP key") context 128,
    kdf s0 (codes "Responder ZRTP key") context 128,
  )

  unfoldable pub derive_sas : List ℕ → List ℕ → ℕ × List ℕ
  derive_sas s0 context =
      let sasvalue = of_be32 (take 4 (kdf s0 (codes "SAS") context 256)) in
      (sasvalue, render_sas_base32 sasvalue)

  unfoldable pub compute_hvi : List ℕ → List ℕ → List ℕ
  compute_hvi dhpart2_bytes responder_hello_bytes = sha256 (dhpart2_bytes ++ responder_hello_bytes)

  unfoldable pub message_mac : List ℕ → List ℕ → List ℕ
  message_mac chain_key bytes = take 8 (hmac_sha256 chain_key bytes)

  unfoldable pub generate_ec25_keypair : K → Ec25KeyPair K
  generate_ec25_keypair private = record {
    private = private;
    public_bytes = p.public_bytes private;
  }

  -- `none` is the abort of its `expect`.
  unfoldable pub ec25_shared_secret : Ec25KeyPair K → List ℕ → Option (List ℕ)
  ec25_shared_secret keypair peer_public = agree keypair.private (0x04 ∷ peer_public)
