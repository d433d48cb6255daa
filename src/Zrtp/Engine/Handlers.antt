-- ===== src/Zrtp/Engine/Handlers.antt =====
-- crates/sip-core/src/zrtp/engine.rs: `receive` and the handler of each message. A handler gives its
-- result and the engine that it leaves; an `expect` on `None` aborts.
use dee_lip.Prelude.{ℕ, not, ◌||◌, none, some, List, [], ◌∷◌, Outcome, ok, err, panic, bytes_eq}
use dee_lip.Zrtp.Wire.Types.{
  Hello, Commit, DhPart, Confirm, Message, hello, commit, dh_part1, dh_part2, confirm1, confirm2,
  conf2_ack,
}
use dee_lip.Zrtp.Crypto.{
  total_hash, Primitives, hash_algo, cipher_algo, key_agreement_algo, verify_hash_chain_hop,
  compute_hvi, generate_ec25_keypair,
}
use dee_lip.Zrtp.Cache.{SharedSecretStore}
use dee_lip.Zrtp.Engine.Types.{
  Role, initiator, responder, HandshakeState, hello_sent, hello_received, commit_sent,
  commit_received, dh_part1_sent, dh_part2_sent, confirm1_sent, confirm2_sent, send, EngineError,
  unsupported_algorithm, chain_verification_failed, hvi_mismatch, ZrtpEngine, Entropy, Handled,
}
use dee_lip.Zrtp.Engine.Build.{contains, dhpart_of, commit_of}
use dee_lip.Zrtp.Engine.Steps.{
  early, encoded, decoded, expect, fail, finish_key_agreement, with_shared_secret, sas_events,
  confirm_of, check_confirm, become_secure,
}

module _ {K S : Type 0} where
  abbrev pub resend_dhpart2 : Outcome EngineError Message → ZrtpEngine K S → Handled K S
  resend_dhpart2 (ok (dh_part2 d)) e = (ok (send (dh_part2 d) ∷ sas_events e.sas), e)
  resend_dhpart2 (ok other) e = (panic, e)
  resend_dhpart2 (err x) e = (err x, e)
  resend_dhpart2 panic e = (panic, e)

module _ {K S : Type 0} (p : Primitives K) where
  unfoldable pub send_commit : ZrtpEngine K S → Entropy K → Handled K S
  send_commit e entropy =
      let keypair = generate_ec25_keypair p entropy.private in
      let dhpart2_bytes =
        encoded p (dh_part2 (dhpart_of p dh_part2 e.chain keypair.public_bytes)) in
      expect e e.remote_hello_bytes λ responder_hello_bytes.
        let c =
          commit_of p e.chain e.local_zid (compute_hvi p dhpart2_bytes responder_hello_bytes) in
        (
          ok (send (commit c) ∷ []),
          record e {
            local_keypair = some keypair;
            dhpart2_bytes = some dhpart2_bytes;
            commit_bytes = some (encoded p (commit c));
            commit = some c;
            state = commit_sent;
          },
        )

  abbrev pub after_hello : Role → ZrtpEngine K S → Entropy K → Handled K S
  after_hello responder e entropy = (ok [], e)
  after_hello initiator e entropy = send_commit e entropy

  unfoldable pub on_hello : Hello → List ℕ → ZrtpEngine K S → Entropy K → Handled K S
  on_hello h raw e entropy =
      early
        (not (contains h.hashes hash_algo)
          || not (contains h.ciphers cipher_algo)
          || not (contains h.key_agreements key_agreement_algo))
        (fail e unsupported_algorithm)
        (after_hello e.role
          (record e {
            remote_zid = some h.zid;
            remote_hello_bytes = some raw;
            remote_hello = some h;
            state = hello_received;
          })
          entropy)

  -- The half of `on_commit` behind its checks.
  unfoldable pub send_dhpart1 : ZrtpEngine K S → Entropy K → Handled K S
  send_dhpart1 e entropy =
      let keypair = generate_ec25_keypair p entropy.private in
      let d = dhpart_of p dh_part1 e.chain keypair.public_bytes in
      (
        ok (send (dh_part1 d) ∷ []),
        record e {
          local_keypair = some keypair;
          dhpart1_bytes = some (encoded p (dh_part1 d));
          state = dh_part1_sent;
        },
      )

  unfoldable pub on_commit : Commit → List ℕ → ZrtpEngine K S → Entropy K → Handled K S
  on_commit c raw e entropy = expect e e.remote_hello λ remote_hello.
      early (not (verify_hash_chain_hop p c.h2 1 remote_hello.h3))
        (fail e chain_verification_failed)
        (early
          (not (bytes_eq c.hash hash_algo)
            || not (bytes_eq c.cipher cipher_algo)
            || not (bytes_eq c.key_agreement key_agreement_algo))
          (fail e unsupported_algorithm)
          (send_dhpart1
            (record e { commit_bytes = some raw; commit = some c; state = commit_received })
            entropy))

  unfoldable pub on_dhpart1 : DhPart → List ℕ → ZrtpEngine K S → Handled K S
  on_dhpart1 d raw e = expect e e.remote_hello λ remote_hello.
      early (not (verify_hash_chain_hop p d.h1 2 remote_hello.h3))
        (fail e chain_verification_failed)
        (expect e e.local_keypair λ keypair.
          let e = record e {
            dhpart1_h1 = some d.h1;
            dhpart1_bytes = some raw;
            local_keypair = none;
          } in
          with_shared_secret p keypair d.pv e λ dh_result. expect e e.dhpart2_bytes λ dhpart2_bytes.
            expect e e.commit_bytes λ commit_bytes.
              expect e e.remote_hello_bytes λ responder_hello_bytes.
                finish_key_agreement p dh_result
                  (total_hash p responder_hello_bytes commit_bytes raw dhpart2_bytes) e
                  λ e.
                    resend_dhpart2 (decoded p dhpart2_bytes) (record e { state = dh_part2_sent }))

  -- The end of `on_dhpart2`, behind the key agreement.
  unfoldable pub send_confirm1 : ZrtpEngine K S → Entropy K → Handled K S
  unfolding confirm_of
  send_confirm1 e entropy = expect e e.zrtp_keys λ zrtp_keys. expect e e.mac_keys λ mac_keys.
      let confirm = confirm_of p zrtp_keys.1 mac_keys.1 e.chain.h0 entropy.iv in
      (ok (send (confirm1 confirm) ∷ sas_events e.sas), record e { state = confirm1_sent })

  unfoldable pub on_dhpart2 : DhPart → List ℕ → ZrtpEngine K S → Entropy K → Handled K S
  on_dhpart2 d raw e entropy = expect e e.commit λ c.
      early (not (verify_hash_chain_hop p d.h1 1 c.h2)) (fail e chain_verification_failed) (
        early (not (bytes_eq (compute_hvi p raw e.local_hello_bytes) c.hvi)) (fail e hvi_mismatch) (
          expect e e.local_keypair λ keypair.
            let e = record e { dhpart2_h1 = some d.h1; local_keypair = none } in
            with_shared_secret p keypair d.pv e λ dh_result. expect e e.commit_bytes λ commit_bytes.
              expect e e.dhpart1_bytes λ dhpart1_bytes.
                finish_key_agreement p dh_result
                  (total_hash p e.local_hello_bytes commit_bytes dhpart1_bytes raw) e
                  λ e. send_confirm1 e entropy))

  unfoldable pub on_confirm1 : Confirm → ZrtpEngine K S → Entropy K → Handled K S
  on_confirm1 c e entropy = expect e e.zrtp_keys λ zrtp_keys. expect e e.mac_keys λ mac_keys.
      check_confirm p c zrtp_keys.1 mac_keys.1 e.dhpart1_h1 e (
        let confirm = confirm_of p zrtp_keys.0 mac_keys.0 e.chain.h0 entropy.iv in
        (ok (send (confirm2 confirm) ∷ []), record e { state = confirm2_sent }))

module _ {K S : Type 0} (p : Primitives K) (secrets : SharedSecretStore S) where
  unfoldable pub on_confirm2 : Confirm → ZrtpEngine K S → Handled K S
  on_confirm2 c e = expect e e.zrtp_keys λ zrtp_keys. expect e e.mac_keys λ mac_keys.
      check_confirm p c zrtp_keys.0 mac_keys.0 e.dhpart2_h1 e
        (become_secure p secrets (send conf2_ack ∷ []) e)

  unfoldable pub on_conf2ack : ZrtpEngine K S → Handled K S
  on_conf2ack e = become_secure p secrets [] e

  -- The `match` of `receive`: any other message is ignored.
  unfoldable pub dispatch :
      Message → HandshakeState → Role → List ℕ → ZrtpEngine K S → Entropy K → Handled K S
  dispatch (hello h) hello_sent _ raw e entropy = on_hello p h raw e entropy
  dispatch (commit c) hello_received responder raw e entropy = on_commit p c raw e entropy
  dispatch (dh_part1 d) commit_sent initiator raw e entropy = on_dhpart1 p d raw e
  dispatch (dh_part2 d) dh_part1_sent responder raw e entropy = on_dhpart2 p d raw e entropy
  dispatch (confirm1 c) dh_part2_sent initiator raw e entropy = on_confirm1 p c e entropy
  dispatch (confirm2 c) confirm1_sent responder raw e entropy = on_confirm2 c e
  dispatch conf2_ack confirm2_sent initiator raw e entropy = on_conf2ack e
  dispatch _ _ _ raw e entropy = (ok [], e)

  abbrev pub after_decode :
      Outcome EngineError Message → List ℕ → ZrtpEngine K S → Entropy K → Handled K S
  after_decode (ok m) raw e entropy = dispatch m e.state e.role raw e entropy
  after_decode (err x) raw e entropy = (err x, e)
  after_decode panic raw e entropy = (panic, e)

  unfoldable pub receive : List ℕ → ZrtpEngine K S → Entropy K → Handled K S
  receive raw e entropy = after_decode (decoded p raw) raw e entropy
