-- ===== src/Zrtp/Engine/Safety.antt =====
-- What engine.rs needs of its optional fields in each state, and what a handler must keep of it.
pub mod Agreement
pub mod Handlers
pub mod Receive
use mathlib.Core.Option.{some-injective}
use dee_lip.Prelude.{
  ℕ, ◌+◌, ◌≡◌, ◌≢◌, ◌⊎◌, inl, inr, refl, sym, ap, subst, ◌∙◌, Bool, true, false, not, Option, none,
  some, List, [], ◌∷◌, ◌++◌, Outcome, ok, err, panic, if◌then◌else◌, Bool-cases, Option-cases,
  arith, length, bytes_eq, ◌==◌, ==_iff, ok-ne-panic, err-ne-panic,
}
use dee_lip.Zrtp.Wire.Types.{
  WireError, Message, Hello, Commit, DhPart, Confirm, hello, commit, dh_part1, dh_part2, confirm1,
  confirm2, conf2_ack,
}
use dee_lip.Zrtp.Wire.Encode.{encode}
use dee_lip.Zrtp.Wire.Decode.{decode}
use dee_lip.Zrtp.Wire.RoundTrip.{decode-encode}
use dee_lip.Zrtp.Crypto.{
  verify_hash_chain_hop, compute_hvi, derive_s0, kdf_context, derive_srtp_keys, derive_mac_keys,
  derive_zrtp_keys, derive_sas, Primitives, HashChain, Ec25KeyPair, generate_hash_chain,
  ec25_shared_secret, generate_ec25_keypair,
}
use dee_lip.Zrtp.Cache.{SharedSecretStore}
use dee_lip.Zrtp.Engine.Types.{
  secure_on, Role, initiator, responder, HandshakeState, discovery, hello_sent, hello_received,
  commit_sent, commit_received, dh_part1_sent, dh_part2_sent, confirm1_sent, confirm2_sent, secure,
  failed, EngineEvent, EngineError, wire, unexpected_message, ZrtpEngine, Entropy, Handled,
}
use dee_lip.Zrtp.Engine.Build.{new, start, dhpart_of}
use dee_lip.Zrtp.Engine.Steps.{
  early, expect, fail, check_confirm, become_secure, persist, with_shared_secret,
  finish_key_agreement, zids, secure_session, decoded, wrapped,
}
use dee_lip.Zrtp.Engine.Handlers.{
  on_hello, send_commit, after_hello, on_commit, send_dhpart1, on_dhpart1, send_confirm1,
  on_dhpart2, on_confirm1, on_confirm2, on_conf2ack, dispatch, after_decode, receive,
  resend_dhpart2,
}
use dee_lip.Zrtp.Engine.Handshake.{Laws}
use dee_lip.Zrtp.Engine.Handshake.Messages.{dhpart_of-IsDhPart}

pub not-false : {b : Bool} → not b ≡ false → b ≡ true
not-false {b} h = ground arith

module _ {K S : Type 0} where
  -- Rules for the two ways in which a handler branches.
  pub early_rule :
      (P : Handled K S → Type 0) {b : Bool} {x y : Handled K S}
      → (b ≡ true → P x)
      → (b ≡ false → P y)
      → P (early b x y)
  unfolding early
  early_rule P {b} {x} {y} h k = split b h k
    where
      split : (b : Bool) → (b ≡ true → P x) → (b ≡ false → P y) → P (if b then x else y)
      split true h k = h refl
      split false h k = k refl

  pub expect_rule :
      {A : Type 0} (P : Handled K S → Type 0) (e : ZrtpEngine K S) (o : Option A)
      (k : A → Handled K S)
      → (o ≡ none → P (panic, e))
      → ((a : A) → o ≡ some a → P (k a))
      → P (expect e o k)
  expect_rule P e none k h g = h refl
  expect_rule P e (some a) k h g = g a refl

module _ {K S : Type 0} (p : Primitives K) where
  -- The fields that the handler of the next message reads by `expect`.
  abbrev pub Needs : HandshakeState → ZrtpEngine K S → Type 0
  Needs hello_received e = (e.remote_hello ≢ none) × (e.remote_zid ≢ none)
  Needs commit_sent e =
      (e.remote_hello ≢ none)
      × (e.remote_zid ≢ none)
      × (e.remote_hello_bytes ≢ none)
      × (e.commit_bytes ≢ none)
      × (bytes : List ℕ) × (d : DhPart) × (e.dhpart2_bytes ≡ some bytes)
      × (decode p.crc32 bytes ≡ ok (dh_part2 d))
  Needs dh_part1_sent e =
      (e.commit ≢ none) × (e.commit_bytes ≢ none) × (e.dhpart1_bytes ≢ none) × (e.remote_zid ≢ none)
  Needs dh_part2_sent e =
      (e.zrtp_keys ≢ none) × (e.mac_keys ≢ none) × (e.dhpart1_h1 ≢ none) × (e.srtp_keys ≢ none)
  Needs confirm1_sent e =
      (e.zrtp_keys ≢ none) × (e.mac_keys ≢ none) × (e.dhpart2_h1 ≢ none) × (e.srtp_keys ≢ none)
  Needs confirm2_sent e = e.srtp_keys ≢ none
  Needs _ e = Unit

  -- The invariant of an engine: what its state needs is there, and its hash chain is a chain.
  pub record IsReady (e : ZrtpEngine K S) : Type 0 where
    pub needs : Needs e.state e
    pub random : List ℕ
    pub chained : e.chain ≡ generate_hash_chain p random

  -- A key agreement with the public value `pv` aborts: the key pair is used up, or the 64 bytes are no point
  -- of the curve.
  pub data Unusable (e : ZrtpEngine K S) (pv : List ℕ) : Type 0 where
    used_up : e.local_keypair ≡ none → Unusable e pv
    no_point :
        (k : Ec25KeyPair K)
        → e.local_keypair ≡ some k
        → length pv ≡ 64
        → ec25_shared_secret p k pv ≡ none
        → Unusable e pv

  -- A message that the engine is ready for, which passes the checks before the key agreement, and whose
  -- public value is not usable.
  pub data KeyAgreementAborts (e : ZrtpEngine K S) (raw : List ℕ) : Message → Type 0 where
    in_dh_part1 :
        (d : DhPart) (h : Hello)
        → e.state ≡ commit_sent
        → e.role ≡ initiator
        → e.remote_hello ≡ some h
        → verify_hash_chain_hop p d.h1 2 h.h3 ≡ true
        → Unusable e d.pv
        → KeyAgreementAborts e raw (dh_part1 d)
    in_dh_part2 :
        (d : DhPart) (c : Commit)
        → e.state ≡ dh_part1_sent
        → e.role ≡ responder
        → e.commit ≡ some c
        → verify_hash_chain_hop p d.h1 1 c.h2 ≡ true
        → bytes_eq (compute_hvi p raw e.local_hello_bytes) c.hvi ≡ true
        → Unusable e d.pv
        → KeyAgreementAborts e raw (dh_part2 d)

  -- What the bytes of an aborting call decode to.
  abbrev pub AbortsOn : ZrtpEngine K S → List ℕ → Outcome WireError Message → Type 0
  AbortsOn e raw (ok m) = KeyAgreementAborts e raw m
  AbortsOn e raw (err x) = ⊥
  AbortsOn e raw panic = Unit {0}

  -- What a handler leaves behind, where it aborts only if `X`.
  pub record Kept (X : Type 0) (r : Handled K S) : Type 0 where
    pub ready : IsReady r.1
    pub aborts : r.0 ≡ panic → X

  module _ (X : Type 0) (random : List ℕ) where
    pub refused :
        (e : ZrtpEngine K S) (x : EngineError)
        → e.chain ≡ generate_hash_chain p random
        → Kept X (fail e x)
    refused e x c = record {
      ready = record { needs = tt; random = random; chained = c };
      aborts = λ h. absurd (err-ne-panic x h);
    }

    pub returned :
        (e : ZrtpEngine K S) (events : List EngineEvent)
        → e.chain ≡ generate_hash_chain p random
        → Needs e.state e
        → Kept X (ok events, e)
    returned e events c n = record {
      ready = record { needs = n; random = random; chained = c };
      aborts = λ h. absurd (ok-ne-panic events h);
    }

    pub returned_err :
        (e : ZrtpEngine K S) (x : EngineError)
        → e.chain ≡ generate_hash_chain p random
        → Needs e.state e
        → Kept X (err x, e)
    returned_err e x c n = record {
      ready = record { needs = n; random = random; chained = c };
      aborts = λ h. absurd (err-ne-panic x h);
    }

    pub aborted :
        (e : ZrtpEngine K S)
        → e.chain ≡ generate_hash_chain p random
        → Needs e.state e
        → X
        → Kept X (panic, e)
    aborted e c n k = record {
      ready = record { needs = n; random = random; chained = c };
      aborts = λ _. k;
    }

  -- The engine behind a key agreement with the peer `z`.
  abbrev pub agreed : List ℕ → List ℕ → ZrtpEngine K S → List ℕ → ZrtpEngine K S
  agreed dh th e z =
      let (zid_i, zid_r) = zids e.role e.local_zid z in
      let s0 = derive_s0 p dh zid_i zid_r th none in
      let context = kdf_context zid_i zid_r th in
      record e {
        total_hash = some th;
        srtp_keys = some (derive_srtp_keys p s0 context);
        mac_keys = some (derive_mac_keys p s0 context);
        zrtp_keys = some (derive_zrtp_keys p s0 context);
        sas = some (derive_sas p s0 context);
        s0 = some s0;
      }
