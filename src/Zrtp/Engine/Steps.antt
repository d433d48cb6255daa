-- ===== src/Zrtp/Engine/Steps.antt =====
-- crates/sip-core/src/zrtp/engine.rs: the parts that the handlers share.
use dee_lip.Prelude.{
  Bool, ℕ, false, not, Option, none, some, List, [], ◌∷◌, ◌++◌, length, take, leb, ◌==◌,
  if◌then◌else◌, Outcome, ok, err, panic, bytes_eq, be32,
}
use dee_lip.Zrtp.Wire.Types.{WireError, Confirm, Message}
use dee_lip.Zrtp.Wire.Encode.{encode}
use dee_lip.Zrtp.Wire.Decode.{decode}
use dee_lip.Zrtp.Crypto.{
  Primitives, SrtpKeys, Ec25KeyPair, verify_hash_chain_hop, kdf_context, derive_s0,
  derive_srtp_keys, derive_mac_keys, derive_zrtp_keys, derive_sas, message_mac, ec25_shared_secret,
}
use dee_lip.Zrtp.Cache.{SharedSecretStore}
use dee_lip.Zrtp.Engine.Build.{cache_expiry_secs}
use dee_lip.Zrtp.Engine.Types.{
  SecureSession, Role, initiator, responder, secure, failed, EngineEvent, sas_ready, secure_on,
  EngineError, unexpected_message, chain_verification_failed, mac_verification_failed, wire,
  ZrtpEngine, Handled,
}

-- `Message::decode(..)?`, with the error wrapped.
abbrev pub wrapped : Outcome WireError Message → Outcome EngineError Message
wrapped (ok m) = ok m
wrapped (err x) = err (wire x)
wrapped panic = panic

-- The ZIDs of the initiator and of the responder.
unfoldable pub zids : Role → List ℕ → List ℕ → List ℕ × List ℕ
zids initiator local_zid remote_zid = (local_zid, remote_zid)
zids responder local_zid remote_zid = (remote_zid, local_zid)

abbrev pub sas_events : Option (ℕ × List ℕ) → List EngineEvent
sas_events none = []
sas_events (some (_, sas)) = sas_ready sas ∷ []

unfoldable pub secure_session : SrtpKeys → Role → SecureSession
secure_session keys role = record {
  srtp_key_i = keys.key_i;
  srtp_salt_i = keys.salt_i;
  srtp_key_r = keys.key_r;
  srtp_salt_r = keys.salt_r;
  role = role;
}

module _ {K S : Type 0} where
  -- `if refused { return early; }` before the rest.
  unfoldable pub early : Bool → Handled K S → Handled K S → Handled K S
  early refused x rest = if refused then x else rest

  -- `expect`
  abbrev pub expect : {A : Type 0} → ZrtpEngine K S → Option A → (A → Handled K S) → Handled K S
  expect e none k = (panic, e)
  expect e (some a) k = k a

  -- `self.state = Failed; return Err(..)`
  abbrev pub fail : ZrtpEngine K S → EngineError → Handled K S
  fail e x = (err x, record e { state = failed })

module _ {K : Type 0} (p : Primitives K) where
  abbrev pub encoded : Message → List ℕ
  encoded = encode p.crc32

  abbrev pub decoded : List ℕ → Outcome EngineError Message
  decoded raw = wrapped (decode p.crc32 raw)

  -- The payload of a Confirm message, under one side's keys.
  unfoldable pub confirm_of : List ℕ → List ℕ → List ℕ → List ℕ → Confirm
  confirm_of zrtp_key mackey h0 iv =
      let encrypted = p.confirm_encrypt zrtp_key iv (h0 ++ be32 cache_expiry_secs) in
      record { confirm_mac = message_mac p mackey encrypted; cfb_iv = iv; encrypted = encrypted }

module _ {K S : Type 0} (p : Primitives K) where
  -- The shared secret with the peer's `pv`, whose conversion to `[u8; 64]` is an error at another
  -- length; a `pv` that is no point of the curve aborts.
  unfoldable pub with_shared_secret :
      Ec25KeyPair K → List ℕ → ZrtpEngine K S → (List ℕ → Handled K S) → Handled K S
  with_shared_secret keypair pv e next =
      early (not (length pv == 64)) (err unexpected_message, e)
        (expect e (ec25_shared_secret p keypair pv) next)

  unfoldable pub finish_key_agreement :
      List ℕ → List ℕ → ZrtpEngine K S → (ZrtpEngine K S → Handled K S) → Handled K S
  finish_key_agreement dh_result th e next = expect e e.remote_zid λ remote_zid.
      let z = zids e.role e.local_zid remote_zid in
      let s0 = derive_s0 p dh_result z.0 z.1 th none in
      let context = kdf_context z.0 z.1 th in
      next (record e {
        total_hash = some th;
        srtp_keys = some (derive_srtp_keys p s0 context);
        mac_keys = some (derive_mac_keys p s0 context);
        zrtp_keys = some (derive_zrtp_keys p s0 context);
        sas = some (derive_sas p s0 context);
        s0 = some s0;
      })

  -- The checks that `on_confirm1` and `on_confirm2` make, under the sender's keys.
  unfoldable pub check_confirm :
      Confirm → List ℕ → List ℕ → Option (List ℕ) → ZrtpEngine K S → Handled K S → Handled K S
  check_confirm c zrtp_key mackey revealed e next =
      let plaintext = p.confirm_decrypt zrtp_key c.cfb_iv c.encrypted in
      early (not (bytes_eq (message_mac p mackey c.encrypted) c.confirm_mac))
        (fail e mac_verification_failed)
        (early (not (leb 32 (length plaintext))) (fail e mac_verification_failed) (
          expect e revealed λ h1.
            early (not (verify_hash_chain_hop p (take 32 plaintext) 1 h1))
              (fail e chain_verification_failed) next))

module _ {K S : Type 0} (p : Primitives K) (secrets : SharedSecretStore S) where
  -- `persist_retained_secret`
  abbrev pub persist : Option (List ℕ) → Option (List ℕ) → ZrtpEngine K S → ZrtpEngine K S
  persist none s0 e = e
  persist (some remote_zid) none e = e
  persist (some remote_zid) (some s0) e = record e {
    store = secrets.store e.store (record {
      local_zid = e.local_zid;
      remote_zid = remote_zid;
      secrets = record { rs1 = p.sha256 s0; rs2 = []; verified = false };
    });
  }

  -- Both ends of the handshake: state `Secure`, the secret kept, and `secure_on_event`.
  unfoldable pub become_secure : List EngineEvent → ZrtpEngine K S → Handled K S
  unfolding secure_session
  become_secure events e =
      let e = persist e.remote_zid e.s0 (record e { state = secure }) in
      expect e e.srtp_keys λ keys. (ok (events ++ secure_on (secure_session keys e.role) ∷ []), e)
