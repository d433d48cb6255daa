-- ===== src/Zrtp/Engine/Handshake/Messages.antt =====
-- The messages that an engine of engine.rs builds have the sizes of the format.
use dee_lip.Prelude.{
  ℕ, ◌≡◌, refl, List, ◌++◌, length, arith, length-append, length-take, be32, true, bytes_eq_refl,
  leb,
}
use dee_lip.Zrtp.Wire.Types.{Message, DhPart, IsHello, IsCommit, IsDhPart, IsConfirm}
use dee_lip.Zrtp.Crypto.{
  Primitives, generate_hash_chain, compute_hvi, message_mac, verify_hash_chain_hop, hash_forward,
}
use dee_lip.Zrtp.Engine.Build.{hello_of, dhpart_of, commit_of}
use dee_lip.Zrtp.Engine.Steps.{confirm_of}
use dee_lip.Zrtp.Engine.Handshake.{Laws}

module _ {K : Type 0} (p : Primitives K) (laws : Laws p) where
  length-message_mac : (k xs : List ℕ) → length (message_mac p k xs) ≡ 8
  unfolding message_mac
  length-message_mac k xs = omega (arith, length-take 8 (p.hmac_sha256 k xs), laws.hmac_32 k xs)

  module _ (random : List ℕ) where
    pub hello_of-IsHello :
        (zid client_id : List ℕ)
        → length zid ≡ 12
        → length client_id ≡ 16
        → IsHello (hello_of p (generate_hash_chain p random) zid client_id)
    unfolding hello_of generate_hash_chain
    hello_of-IsHello zid client_id hz hc = record {
      version_4 = refl;
      client_id_16 = hc;
      h3_32 = laws.sha256_32 _;
      zid_12 = hz;
      hashes_fit = omega arith;
      ciphers_fit = omega arith;
      auths_fit = omega arith;
      key_agreements_fit = omega arith;
      sas_types_fit = omega arith;
      mac_8 = length-message_mac _ _;
    }

    pub commit_of-IsCommit :
        (zid xs ys : List ℕ)
        → length zid ≡ 12
        → IsCommit (commit_of p (generate_hash_chain p random) zid (compute_hvi p xs ys))
    unfolding commit_of generate_hash_chain compute_hvi
    commit_of-IsCommit zid xs ys hz = record {
      h2_32 = laws.sha256_32 _;
      zid_12 = hz;
      hash_4 = refl;
      cipher_4 = refl;
      auth_4 = refl;
      key_agreement_4 = refl;
      sas_4 = refl;
      hvi_32 = laws.sha256_32 _;
      mac_8 = length-message_mac _ _;
    }

    pub dhpart_of-IsDhPart :
        (part : DhPart → Message) (k : K)
        → IsDhPart (dhpart_of p part (generate_hash_chain p random) (p.public_bytes k))
    unfolding dhpart_of generate_hash_chain
    dhpart_of-IsDhPart part k = record {
      h1_32 = laws.sha256_32 _;
      rs1_id_8 = refl;
      rs2_id_8 = refl;
      aux_id_8 = refl;
      pbx_id_8 = refl;
      pv_fits = omega (arith, laws.public_64 k);
      mac_8 = length-message_mac _ _;
    }

    -- Each link of a chain hashes to the next.
    pub chain_h2 :
        verify_hash_chain_hop p
          (generate_hash_chain p random).h2
          1
          (generate_hash_chain p random).h3
        ≡ true
    unfolding verify_hash_chain_hop hash_forward generate_hash_chain
    chain_h2 = bytes_eq_refl _

    pub chain_h1 :
        verify_hash_chain_hop p
          (generate_hash_chain p random).h1
          2
          (generate_hash_chain p random).h3
        ≡ true
    unfolding verify_hash_chain_hop hash_forward generate_hash_chain
    chain_h1 = bytes_eq_refl _

    pub chain_h1_h2 :
        verify_hash_chain_hop p
          (generate_hash_chain p random).h1
          1
          (generate_hash_chain p random).h2
        ≡ true
    unfolding verify_hash_chain_hop hash_forward generate_hash_chain
    chain_h1_h2 = bytes_eq_refl _

    pub chain_h0 :
        verify_hash_chain_hop p
          (generate_hash_chain p random).h0
          1
          (generate_hash_chain p random).h1
        ≡ true
    unfolding verify_hash_chain_hop hash_forward generate_hash_chain
    chain_h0 = bytes_eq_refl _

    pub length-h0 : length random ≡ 32 → length (generate_hash_chain p random).h0 ≡ 32
    unfolding generate_hash_chain
    length-h0 h = h

  -- What a Confirm message carries, decrypted, begins with `h0`.
  pub long_payload : (h0 : List ℕ) → length h0 ≡ 32 → leb 32 (length (h0 ++ be32 3600)) ≡ true
  long_payload h0 h = ground (arith, length-append h0 (be32 3600))

  pub confirm_of-IsConfirm :
      (zrtp_key mackey h0 iv : List ℕ)
      → length h0 ≡ 32
      → length iv ≡ 16
      → IsConfirm (confirm_of p zrtp_key mackey h0 iv)
  unfolding confirm_of
  confirm_of-IsConfirm zrtp_key mackey h0 iv hh hi = record {
    confirm_mac_8 = length-message_mac _ _;
    cfb_iv_16 = hi;
    encrypted_fits =
        omega (arith, laws.cfb_length zrtp_key iv (h0 ++ be32 3600), length-append h0 (be32 3600));
  }
