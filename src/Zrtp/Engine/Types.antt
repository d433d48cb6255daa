-- ===== src/Zrtp/Engine/Types.antt =====
-- crates/sip-core/src/zrtp/engine.rs: the engine's state, its events and its errors. `K` is the type of
-- EC private keys and `S` that of the secret store.
use dee_lip.Prelude.{ℕ, Option, List, Outcome}
use dee_lip.Zrtp.Wire.Types.{WireError, Hello, Commit, Message}
use dee_lip.Zrtp.Crypto.{HashChain, SrtpKeys, Ec25KeyPair}

pub data Role : Type 0 where
  initiator responder : Role

pub data HandshakeState : Type 0 where
  discovery hello_sent hello_received commit_sent commit_received dh_part1_sent : HandshakeState
  dh_part2_sent confirm1_sent confirm2_sent secure failed : HandshakeState

pub record SecureSession : Type 0 where
  pub srtp_key_i : List ℕ
  pub srtp_salt_i : List ℕ
  pub srtp_key_r : List ℕ
  pub srtp_salt_r : List ℕ
  pub role : Role

pub data EngineEvent : Type 0 where
  send : Message → EngineEvent
  sas_ready : List ℕ → EngineEvent
  secure_on : SecureSession → EngineEvent
  failed_with : List ℕ → EngineEvent

pub data EngineError : Type 0 where
  unexpected_message unsupported_algorithm chain_verification_failed hvi_mismatch : EngineError
  mac_verification_failed : EngineError
  wire : WireError → EngineError

pub record ZrtpEngine (K S : Type 0) : Type 0 where
  pub role : Role
  pub state : HandshakeState
  pub local_zid : List ℕ
  pub remote_zid : Option (List ℕ)
  pub chain : HashChain
  pub local_hello : Hello
  pub local_hello_bytes : List ℕ
  pub remote_hello : Option Hello
  pub remote_hello_bytes : Option (List ℕ)
  pub commit_bytes : Option (List ℕ)
  pub dhpart1_bytes : Option (List ℕ)
  pub dhpart2_bytes : Option (List ℕ)
  pub commit : Option Commit
  pub dhpart1_h1 : Option (List ℕ)
  pub dhpart2_h1 : Option (List ℕ)
  pub local_keypair : Option (Ec25KeyPair K)
  pub total_hash : Option (List ℕ)
  pub s0 : Option (List ℕ)
  pub srtp_keys : Option SrtpKeys
  pub mac_keys : Option (List ℕ × List ℕ)
  pub zrtp_keys : Option (List ℕ × List ℕ)
  pub sas : Option (ℕ × List ℕ)
  pub store : S

-- What one call draws from the random generator, if it does.
pub record Entropy (K : Type 0) : Type 0 where
  pub private : K
  pub iv : List ℕ

-- The result of a handler, and the engine that it leaves behind.
abbrev pub Handled : Type 0 → Type 0 → Type 0
Handled K S = Outcome EngineError (List EngineEvent) × ZrtpEngine K S
