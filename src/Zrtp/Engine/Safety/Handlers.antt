-- ===== src/Zrtp/Engine/Safety/Handlers.antt =====
-- The handlers of engine.rs behind the key agreement, and the dispatch, keep an engine ready.
use dee_lip.Prelude.{ℕ, ◌≡◌, ◌≢◌, sym, subst, Option, none, some, List, [], ◌∷◌, ◌++◌, ok}
use dee_lip.Zrtp.Wire.Types.{
  Message, Confirm, hello, commit, dh_part1, dh_part2, confirm1, confirm2, conf2_ack,
}
use dee_lip.Zrtp.Crypto.{Primitives, generate_hash_chain}
use dee_lip.Zrtp.Cache.{SharedSecretStore}
use dee_lip.Zrtp.Engine.Types.{
  secure_on, Role, initiator, responder, HandshakeState, hello_sent, hello_received, commit_sent,
  dh_part1_sent, dh_part2_sent, confirm1_sent, confirm2_sent, secure, EngineEvent, ZrtpEngine,
  Entropy, Handled,
}
use dee_lip.Zrtp.Engine.Steps.{expect, check_confirm, become_secure, persist, secure_session}
use dee_lip.Zrtp.Engine.Handlers.{on_confirm1, on_confirm2, on_conf2ack, dispatch}
use dee_lip.Zrtp.Engine.Handshake.{Laws}
use dee_lip.Zrtp.Engine.Safety.{
  early_rule, expect_rule, Needs, Kept, KeyAgreementAborts, refused, returned,
}
use dee_lip.Zrtp.Engine.Safety.Agreement.{
  on_hello-Kept, on_commit-Kept, on_dhpart1-Kept, on_dhpart2-Kept,
}

module _ {K S : Type 0} (p : Primitives K) where
  module _ (laws : Laws p) (e : ZrtpEngine K S) (random : List ℕ)
      (chained : e.chain ≡ generate_hash_chain p random) (X : Type 0) where
    confirm-Kept :
        (c : Confirm) (zrtp_key mackey : List ℕ) (revealed : Option (List ℕ)) (next : Handled K S)
        → revealed ≢ none
        → Kept p X next
        → Kept p X (check_confirm p c zrtp_key mackey revealed e next)
    unfolding check_confirm
    confirm-Kept c zrtp_key mackey revealed next have kept =
        early_rule (Kept p X) (λ _. refused p X random e _ chained)
          λ _.
            early_rule (Kept p X) (λ _. refused p X random e _ chained)
              λ _.
                expect_rule (Kept p X) e revealed _ (λ h. absurd (have h))
                  λ h1 _. early_rule (Kept p X) (λ _. refused p X random e _ chained) (λ _. kept)

    on_confirm1-Kept :
        (c : Confirm) (entropy : Entropy K)
        → Needs p dh_part2_sent e
        → Kept p X (on_confirm1 p c e entropy)
    unfolding on_confirm1
    on_confirm1-Kept c entropy n =
        expect_rule (Kept p X) e e.zrtp_keys _ (λ h. absurd (n.0 h))
          λ zrtp_keys _.
            expect_rule (Kept p X) e e.mac_keys _ (λ h. absurd (n.1 h))
              λ mac_keys _.
                confirm-Kept c _ _ e.dhpart1_h1 _ n.2 (returned p X random _ _ chained n.3)

    module _ (secrets : SharedSecretStore S) where
      persisted :
          (z s0 : Option (List ℕ)) (e' : ZrtpEngine K S)
          → (Q : ZrtpEngine K S → Type 0) → ((store : S) → Q (record e' { store = store }))
          → Q (persist p secrets z s0 e')
      persisted none s0 e' Q q = q e'.store
      persisted (some z) none e' Q q = q e'.store
      persisted (some z) (some s0) e' Q q = q _

      become_secure-Kept :
          (events : List EngineEvent)
          → e.srtp_keys ≢ none
          → Kept p X (become_secure p secrets events e)
      unfolding become_secure
      become_secure-Kept events have =
          persisted e.remote_zid e.s0 (record e { state = secure })
            (λ e'. Kept p X (
              expect e' e'.srtp_keys
                λ keys. (ok (events ++ secure_on (secure_session keys e'.role) ∷ []), e')))
            λ store.
              expect_rule (Kept p X) _ e.srtp_keys _ (λ h. absurd (have h))
                λ keys _. returned p X random _ _ chained tt

      on_confirm2-Kept :
          (c : Confirm) → Needs p confirm1_sent e → Kept p X (on_confirm2 p secrets c e)
      unfolding on_confirm2
      on_confirm2-Kept c n =
          expect_rule (Kept p X) e e.zrtp_keys _ (λ h. absurd (n.0 h))
            λ zrtp_keys _.
              expect_rule (Kept p X) e e.mac_keys _ (λ h. absurd (n.1 h))
                λ mac_keys _. confirm-Kept c _ _ e.dhpart2_h1 _ n.2 (become_secure-Kept _ n.3)

      Kept-as_is : (s : HandshakeState) → e.state ≡ s → Needs p s e → Kept p X (ok [], e)
      Kept-as_is s st n = returned p X random e [] chained (subst (λ s. Needs p s e) (sym st) n)

  module _ (laws : Laws p) (e : ZrtpEngine K S) (random : List ℕ)
      (chained : e.chain ≡ generate_hash_chain p random) (secrets : SharedSecretStore S) where
    pub dispatch-Kept :
        (m : Message) (s : HandshakeState) (r : Role) (raw : List ℕ) (entropy : Entropy K)
        → e.state ≡ s
        → e.role ≡ r
        → Needs p s e
        → Kept p (KeyAgreementAborts p e raw m) (dispatch p secrets m s r raw e entropy)
    unfolding dispatch on_conf2ack
    dispatch-Kept (hello h) hello_sent r raw entropy st ro n =
        on_hello-Kept p laws e random chained _ h raw entropy
    dispatch-Kept (commit c) hello_received responder raw entropy st ro n =
        on_commit-Kept p laws e random chained _ c raw entropy n
    dispatch-Kept (dh_part1 d) commit_sent initiator raw entropy st ro n =
        on_dhpart1-Kept p laws e random chained d raw st ro n
    dispatch-Kept (dh_part2 d) dh_part1_sent responder raw entropy st ro n =
        on_dhpart2-Kept p laws e random chained d raw entropy st ro n
    dispatch-Kept (confirm1 c) dh_part2_sent initiator raw entropy st ro n =
        on_confirm1-Kept laws e random chained _ c entropy n
    dispatch-Kept (confirm2 c) confirm1_sent responder raw entropy st ro n =
        on_confirm2-Kept laws e random chained _ secrets c n
    dispatch-Kept conf2_ack confirm2_sent initiator raw entropy st ro n =
        become_secure-Kept laws e random chained _ secrets [] n
    dispatch-Kept _ s _ raw entropy st ro n = Kept-as_is laws e random chained _ secrets s st n
