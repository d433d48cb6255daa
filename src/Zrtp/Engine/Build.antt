-- ===== src/Zrtp/Engine/Build.antt =====
-- crates/sip-core/src/zrtp/engine.rs: `new`, `start` and the messages that an engine builds.
use dee_lip.Prelude.{ℕ, Bool, false, ◌||◌, none, List, [], ◌∷◌, replicate, bytes_eq, codes}
use dee_lip.Zrtp.Wire.Types.{Hello, Commit, DhPart, Message, hello, commit}
use dee_lip.Zrtp.Wire.Encode.{encode}
use dee_lip.Zrtp.Crypto.{
  Primitives, HashChain, SrtpKeys, Ec25KeyPair, hash_algo, cipher_algo, auth_algo,
  key_agreement_algo, sas_algo, verify_hash_chain_hop, kdf_context, derive_s0, derive_srtp_keys,
  derive_mac_keys, derive_zrtp_keys, derive_sas, compute_hvi, message_mac, generate_ec25_keypair,
  ec25_shared_secret,
}
use dee_lip.Zrtp.Crypto
use dee_lip.Zrtp.Engine.Types.{Role, discovery, hello_sent, EngineEvent, send, ZrtpEngine}

abbrev pub cache_expiry_secs : ℕ
cache_expiry_secs = 3600

-- `list.contains(&algo)`
unfoldable pub contains : List (List ℕ) → List ℕ → Bool
contains [] algo = false
contains (a ∷ list) algo = bytes_eq a algo || contains list algo

abbrev zeros : ℕ → List ℕ
zeros n = replicate n 0

module _ {K : Type 0} (p : Primitives K) where
  abbrev encoded : Message → List ℕ
  encoded = encode p.crc32

  unfoldable pub hello_no_mac : HashChain → List ℕ → List ℕ → Hello
  hello_no_mac chain local_zid client_id = record {
    version = codes "1.10";
    client_id = client_id;
    h3 = chain.h3;
    zid = local_zid;
    mitm_capable = false;
    hashes = hash_algo ∷ [];
    ciphers = cipher_algo ∷ [];
    auths = auth_algo ∷ [];
    key_agreements = key_agreement_algo ∷ [];
    sas_types = sas_algo ∷ [];
    mac = zeros 8;
  }

  -- The Hello that an engine announces itself by.
  unfoldable pub hello_of : HashChain → List ℕ → List ℕ → Hello
  unfolding hello_no_mac
  hello_of chain local_zid client_id =
      let h = hello_no_mac chain local_zid client_id in
      record h { mac = message_mac p chain.h2 (encoded (hello h)) }

  -- A DHPart message under the chain's `h0`, by its constructor.
  unfoldable pub dhpart_no_mac : HashChain → List ℕ → DhPart
  dhpart_no_mac chain pv = record {
    h1 = chain.h1;
    rs1_id = zeros 8;
    rs2_id = zeros 8;
    aux_id = zeros 8;
    pbx_id = zeros 8;
    pv = pv;
    mac = zeros 8;
  }

  unfoldable pub dhpart_of : (DhPart → Message) → HashChain → List ℕ → DhPart
  unfolding dhpart_no_mac
  dhpart_of part chain pv =
      let d = dhpart_no_mac chain pv in record d { mac = message_mac p chain.h0 (encoded (part d)) }

  unfoldable pub commit_no_mac : HashChain → List ℕ → List ℕ → Commit
  commit_no_mac chain local_zid hvi = record {
    h2 = chain.h2;
    zid = local_zid;
    hash = hash_algo;
    cipher = cipher_algo;
    auth = auth_algo;
    key_agreement = key_agreement_algo;
    sas = sas_algo;
    hvi = hvi;
    mac = zeros 8;
  }

  unfoldable pub commit_of : HashChain → List ℕ → List ℕ → Commit
  unfolding commit_no_mac
  commit_of chain local_zid hvi =
      let c = commit_no_mac chain local_zid hvi in
      record c { mac = message_mac p chain.h1 (encoded (commit c)) }

module _ {K S : Type 0} (p : Primitives K) where
  -- `random` is what `generate_hash_chain` draws.
  unfoldable pub new : Role → List ℕ → List ℕ → List ℕ → S → ZrtpEngine K S
  new role local_zid client_id random store =
      let chain = Crypto.generate_hash_chain p random in
      record {
        role = role;
        state = discovery;
        local_zid = local_zid;
        remote_zid = none;
        chain = chain;
        local_hello = hello_of p chain local_zid client_id;
        local_hello_bytes = [];
        remote_hello = none;
        remote_hello_bytes = none;
        commit_bytes = none;
        dhpart1_bytes = none;
        dhpart2_bytes = none;
        commit = none;
        dhpart1_h1 = none;
        dhpart2_h1 = none;
        local_keypair = none;
        total_hash = none;
        s0 = none;
        srtp_keys = none;
        mac_keys = none;
        zrtp_keys = none;
        sas = none;
        store = store;
      }

  unfoldable pub start : ZrtpEngine K S → List EngineEvent × ZrtpEngine K S
  start e = (
    send (hello e.local_hello) ∷ [],
    record e { state = hello_sent; local_hello_bytes = encode p.crc32 (hello e.local_hello) },
  )
