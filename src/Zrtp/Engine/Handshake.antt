-- ===== src/Zrtp/Engine/Handshake.antt =====
-- Two engines of engine.rs that exchange their messages in order, over a link that delivers them.
pub mod Messages
pub mod Agreement
use dee_lip.Prelude.{
  false, ℕ, ◌+◌, ◌<◌, ◌≤◌, ◌≡◌, ◌≢◌, refl, sym, ap, ◌∙◌, Option, none, some, List, [], ◌∷◌, ◌++◌,
  length, take, Outcome, ok, err, panic, IsU32, arith, bytes_eq_refl, length-append,
  take-append_exact, be32, true, leb, length-take,
}
use dee_lip.Zrtp.Wire.Types.{
  Message, Hello, Commit, DhPart, Confirm, hello, commit, dh_part1, dh_part2, confirm1, confirm2,
  conf2_ack, IsMessage, IsHello, IsCommit, IsDhPart, IsConfirm,
}
use dee_lip.Zrtp.Wire.Encode.{encode}
use dee_lip.Zrtp.Wire.RoundTrip.{decode-encode}
use dee_lip.Zrtp.Crypto.{
  Primitives, HashChain, SrtpKeys, generate_hash_chain, compute_hvi, total_hash, derive_s0,
  kdf_context, derive_srtp_keys, derive_mac_keys, derive_zrtp_keys, derive_sas, message_mac,
  verify_hash_chain_hop, hash_forward, generate_ec25_keypair, ec25_shared_secret,
}
use dee_lip.Zrtp.Cache.{SharedSecretStore}
use dee_lip.Zrtp.Engine.Types.{
  Role, initiator, responder, HandshakeState, hello_sent, secure, EngineEvent, send, sas_ready,
  secure_on, EngineError, ZrtpEngine, Entropy, Handled,
}
use dee_lip.Zrtp.Engine.Build.{
  contains, hello_no_mac, hello_of, dhpart_no_mac, dhpart_of, commit_no_mac, commit_of, new, start,
}
use dee_lip.Zrtp.Engine.Steps.{confirm_of, secure_session, check_confirm, persist, zids, expect}
use dee_lip.Zrtp.Engine.Handlers.{
  on_hello, on_commit, on_dhpart1, on_dhpart2, on_confirm1, on_confirm2, on_conf2ack, dispatch,
  receive,
}

-- What the crates document: sizes of digests, tags and points, CFB decryption undoing encryption at
-- the same length, and both sides of an ECDH exchange computing one secret.
pub record Laws {K : Type 0} (p : Primitives K) : Type 0 where
  pub sha256_32 : (xs : List ℕ) → length (p.sha256 xs) ≡ 32
  pub hmac_32 : (k xs : List ℕ) → length (p.hmac_sha256 k xs) ≡ 32
  pub public_64 : (k : K) → length (p.public_bytes k) ≡ 64
  pub crc32_u32 : (xs : List ℕ) → IsU32 (p.crc32 xs)
  pub cfb_undone : (k iv xs : List ℕ) → p.confirm_decrypt k iv (p.confirm_encrypt k iv xs) ≡ xs
  pub cfb_length : (k iv xs : List ℕ) → length (p.confirm_encrypt k iv xs) ≡ length xs
  pub shared : K → K → List ℕ
  pub agree_left : (k l : K) → p.agree k (0x04 ∷ p.public_bytes l) ≡ some (shared k l)
  pub agree_right : (k l : K) → p.agree l (0x04 ∷ p.public_bytes k) ≡ some (shared k l)

-- What one side brings to a call: its identity, and what its random generator gives.
pub record Side (K S : Type 0) : Type 0 where
  pub zid : List ℕ
  pub client_id : List ℕ
  pub random : List ℕ
  pub private : K
  pub iv : List ℕ
  pub store : S

pub record IsSide {K S : Type 0} (s : Side K S) : Type 0 where
  pub zid_12 : length s.zid ≡ 12
  pub client_id_16 : length s.client_id ≡ 16
  pub random_32 : length s.random ≡ 32
  pub iv_16 : length s.iv ≡ 16

abbrev pub entropy_of : {K S : Type 0} → Side K S → Entropy K
entropy_of s = record { private = s.private; iv = s.iv }

module _ {K S : Type 0} (p : Primitives K) (secrets : SharedSecretStore S) where
  -- The bytes of the first message that a call sent.
  abbrev pub sent : List EngineEvent → List ℕ
  sent (send m ∷ events) = encode p.crc32 m
  sent events = []

  abbrev pub sent_ok : Outcome EngineError (List EngineEvent) → List ℕ
  sent_ok (ok events) = sent events
  sent_ok r = []

  -- The exchange in order, each message delivered once: what the last call of each side gave.
  unfoldable pub exchange : Side K S → Side K S → Handled K S × Handled K S
  exchange a b =
      let (hello_i, i) = start p (new p initiator a.zid a.client_id a.random a.store) in
      let (hello_r, r) = start p (new p responder b.zid b.client_id b.random b.store) in
      let ea = entropy_of a in
      let eb = entropy_of b in
      let (commit_i, i) = receive p secrets (sent hello_r) i ea in
      let (none_r, r) = receive p secrets (sent hello_i) r eb in
      let (dhpart_r, r) = receive p secrets (sent_ok commit_i) r eb in
      let (dhpart_i, i) = receive p secrets (sent_ok dhpart_r) i ea in
      let (confirm_r, r) = receive p secrets (sent_ok dhpart_i) r eb in
      let (confirm_i, i) = receive p secrets (sent_ok confirm_r) i ea in
      let (ack_r, r) = receive p secrets (sent_ok confirm_i) r eb in
      (receive p secrets (sent_ok ack_r) i ea, (ack_r, r))

  -- Both ends of an exchange are secure under the same keys.
  pub record Agreed (a b : Side K S) (ends : Handled K S × Handled K S) : Type 0 where
    pub keys : SrtpKeys
    pub sas : ℕ × List ℕ
    pub rs1 : List ℕ
    pub initiator_session : ends.0.0 ≡ ok (secure_on (secure_session keys initiator) ∷ [])
    pub responder_session :
        ends.1.0 ≡ ok (send conf2_ack ∷ secure_on (secure_session keys responder) ∷ [])
    pub initiator_secure : ends.0.1.state ≡ secure
    pub responder_secure : ends.1.1.state ≡ secure
    pub initiator_sas : ends.0.1.sas ≡ some sas
    pub responder_sas : ends.1.1.sas ≡ some sas
    pub initiator_stored :
        ends.0.1.store
        ≡ secrets.store a.store (record {
          local_zid = a.zid;
          remote_zid = b.zid;
          secrets = record { rs1 = rs1; rs2 = []; verified = false };
        })
    pub responder_stored :
        ends.1.1.store
        ≡ secrets.store b.store (record {
          local_zid = b.zid;
          remote_zid = a.zid;
          secrets = record { rs1 = rs1; rs2 = []; verified = false };
        })
