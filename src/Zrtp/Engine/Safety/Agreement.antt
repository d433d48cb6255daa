-- ===== src/Zrtp/Engine/Safety/Agreement.antt =====
-- The handlers of engine.rs up to the key agreement keep an engine ready.
use mathlib.Core.Option.{some-injective}
use dee_lip.Prelude.{
  ℕ, true, bytes_eq, ◌≡◌, ◌≢◌, refl, sym, subst, ◌∙◌, none, some, List, [], ok, length, ==_iff,
}
use dee_lip.Zrtp.Wire.Types.{Hello, Commit, DhPart, dh_part1, dh_part2}
use dee_lip.Zrtp.Wire.Encode.{encode}
use dee_lip.Zrtp.Wire.Decode.{decode}
use dee_lip.Zrtp.Wire.RoundTrip.{decode-encode}
use dee_lip.Zrtp.Crypto.{
  Primitives, Ec25KeyPair, generate_hash_chain, verify_hash_chain_hop, compute_hvi,
  ec25_shared_secret, generate_ec25_keypair,
}
use dee_lip.Zrtp.Engine.Types.{
  Role, initiator, responder, hello_received, commit_sent, dh_part1_sent, ZrtpEngine, Entropy,
  Handled,
}
use dee_lip.Zrtp.Engine.Build.{dhpart_of}
use dee_lip.Zrtp.Engine.Steps.{with_shared_secret, finish_key_agreement}
use dee_lip.Zrtp.Engine.Handlers.{
  on_hello, send_commit, after_hello, on_commit, send_dhpart1, on_dhpart1, send_confirm1,
  on_dhpart2,
}
use dee_lip.Zrtp.Engine.Handshake.{Laws}
use dee_lip.Zrtp.Engine.Handshake.Messages.{dhpart_of-IsDhPart}
use dee_lip.Zrtp.Engine.Safety.{
  early_rule, expect_rule, Needs, used_up, no_point, Unusable, KeyAgreementAborts, in_dh_part1,
  in_dh_part2, Kept, refused, returned, returned_err, aborted, agreed, not-false,
}

module _ {K S : Type 0} (p : Primitives K) where
  module _ (laws : Laws p) (e : ZrtpEngine K S) (random : List ℕ)
      (chained : e.chain ≡ generate_hash_chain p random) where
    pub on_hello-Kept :
        (X : Type 0) (h : Hello) (raw : List ℕ) (entropy : Entropy K)
        → Kept p X (on_hello p h raw e entropy)
    unfolding on_hello
    on_hello-Kept X h raw entropy =
        early_rule (Kept p X) (λ _. refused p X random e _ chained) (λ _. by_role e.role)
      where
        e' : ZrtpEngine K S
        e' = record e {
          remote_zid = some h.zid;
          remote_hello_bytes = some raw;
          remote_hello = some h;
          state = hello_received;
        }

        part : DhPart
        part = dhpart_of p dh_part2 e.chain (p.public_bytes entropy.private)

        kept_part : decode p.crc32 (encode p.crc32 (dh_part2 part)) ≡ ok (dh_part2 part)
        kept_part = rw chained (
            decode-encode p.crc32 laws.crc32_u32
              (dh_part2 (
                dhpart_of p dh_part2 (generate_hash_chain p random)
                  (p.public_bytes entropy.private)))
              (dhpart_of-IsDhPart p laws random dh_part2 entropy.private))

        by_role : (r : Role) → Kept p X (after_hello p r e' entropy)
        by_role responder = returned p X random e' [] chained (λ h. cc, λ h. cc)
        by_role initiator =
            unfold send_commit generate_ec25_keypair in
            returned p X random _ _ chained
              (λ h. cc, λ h. cc, λ h. cc, λ h. cc, _, part, refl, kept_part)

    pub on_commit-Kept :
        (X : Type 0) (c : Commit) (raw : List ℕ) (entropy : Entropy K)
        → Needs p hello_received e
        → Kept p X (on_commit p c raw e entropy)
    unfolding on_commit send_dhpart1
    on_commit-Kept X c raw entropy n =
        expect_rule (Kept p X) e e.remote_hello _ (λ h. absurd (n.0 h))
          λ h _.
            early_rule (Kept p X) (λ _. refused p X random e _ chained)
              λ _.
                early_rule (Kept p X) (λ _. refused p X random e _ chained)
                  λ _. returned p X random _ _ chained (λ h. cc, λ h. cc, λ h. cc, n.1)

    -- The half of a key agreement that both sides share: what follows it is kept.
    secret-Kept :
        (X : Type 0) (keypair : Ec25KeyPair K) (pv : List ℕ) (e' : ZrtpEngine K S)
        (next : List ℕ → Handled K S)
        → (length pv ≡ 64 → ec25_shared_secret p keypair pv ≡ none → X)
        → e'.chain ≡ generate_hash_chain p random
        → Needs p e'.state e'
        → ((dh : List ℕ) → Kept p X (next dh))
        → Kept p X (with_shared_secret p keypair pv e' next)
    unfolding with_shared_secret
    secret-Kept X keypair pv e' next out c n kept =
        early_rule (Kept p X) (λ _. returned_err p X random e' _ c n)
          λ long.
            expect_rule (Kept p X) e' (ec25_shared_secret p keypair pv) next
              (λ bad.
                aborted p X random e' c n (out ((==_iff (length pv) 64).0 (not-false long)) bad))
              (λ dh _. kept dh)

    agreement-Kept :
        (X : Type 0) (dh th : List ℕ) (e' : ZrtpEngine K S) (next : ZrtpEngine K S → Handled K S)
        → e'.remote_zid ≢ none
        → ((z : List ℕ) → Kept p X (next (agreed p dh th e' z)))
        → Kept p X (finish_key_agreement p dh th e' next)
    unfolding finish_key_agreement
    agreement-Kept X dh th e' next z kept =
        expect_rule (Kept p X) e' e'.remote_zid _ (λ h. absurd (z h)) (λ zid _. kept zid)

    pub on_dhpart1-Kept :
        (d : DhPart) (raw : List ℕ)
        → e.state ≡ commit_sent
        → e.role ≡ initiator
        → Needs p commit_sent e
        → Kept p (KeyAgreementAborts p e raw (dh_part1 d)) (on_dhpart1 p d raw e)
    unfolding on_dhpart1
    on_dhpart1-Kept d raw st ro n =
        expect_rule (Kept p X) e e.remote_hello _ (λ h. absurd (n.0 h))
          λ h hello.
            early_rule (Kept p X) (λ _. refused p X random e _ chained)
              λ v.
                expect_rule (Kept p X) e e.local_keypair _
                  (λ g.
                    aborted p X random e chained (subst (λ s. Needs p s e) (sym st) n)
                      (by h hello (not-false v) (used_up g)))
                  λ keypair pair.
                    secret-Kept X keypair d.pv _ _
                      (λ long bad. by h hello (not-false v) (no_point keypair pair long bad))
                      chained (subst (λ s. Needs p s (e' keypair)) (sym st) n)
                      λ dh.
                        expect_rule (Kept p X) (e' keypair) e.dhpart2_bytes _ (λ h. cc)
                          λ bytes have.
                            expect_rule (Kept p X) (e' keypair) e.commit_bytes _
                              (λ h. absurd (n.3 h))
                              λ cb _.
                                expect_rule (Kept p X) (e' keypair) e.remote_hello_bytes _
                                  (λ h. absurd (n.2 h))
                                  λ rb _. agreement-Kept X dh _ (e' keypair) _ n.1 λ z.
                                    rw (decodes bytes have) (
                                      returned p X random _ _ chained
                                        (λ h. cc, λ h. cc, λ h. cc, λ h. cc))
      where
        X : Type 0
        X = KeyAgreementAborts p e raw (dh_part1 d)

        by :
            (h : Hello)
            → e.remote_hello ≡ some h
            → verify_hash_chain_hop p d.h1 2 h.h3 ≡ true
            → Unusable p e d.pv
            → X
        by h hello v u = in_dh_part1 d h st ro hello v u

        e' : Ec25KeyPair K → ZrtpEngine K S
        e' keypair = record e {
          dhpart1_h1 = some d.h1;
          dhpart1_bytes = some raw;
          local_keypair = none;
        }

        decodes :
            (bytes : List ℕ)
            → e.dhpart2_bytes ≡ some bytes
            → decode p.crc32 bytes ≡ ok (dh_part2 n.5)
        decodes bytes have =
            subst (λ b. decode p.crc32 b ≡ ok (dh_part2 n.5)) (some-injective _ _ (sym n.6 ∙ have))
              n.7

    pub on_dhpart2-Kept :
        (d : DhPart) (raw : List ℕ) (entropy : Entropy K)
        → e.state ≡ dh_part1_sent
        → e.role ≡ responder
        → Needs p dh_part1_sent e
        → Kept p (KeyAgreementAborts p e raw (dh_part2 d)) (on_dhpart2 p d raw e entropy)
    unfolding on_dhpart2 send_confirm1
    on_dhpart2-Kept d raw entropy st ro n =
        expect_rule (Kept p X) e e.commit _ (λ h. absurd (n.0 h))
          λ c have.
            early_rule (Kept p X) (λ _. refused p X random e _ chained)
              λ v.
                early_rule (Kept p X) (λ _. refused p X random e _ chained)
                  λ hvi.
                    expect_rule (Kept p X) e e.local_keypair _
                      (λ g.
                        aborted p X random e chained (subst (λ s. Needs p s e) (sym st) n)
                          (by c have (not-false v) (not-false hvi) (used_up g)))
                      λ keypair pair.
                        secret-Kept X keypair d.pv _ _
                          (λ long bad.
                            by c have (not-false v) (not-false hvi)
                              (no_point keypair pair long bad))
                          chained (subst (λ s. Needs p s e') (sym st) n)
                          λ dh.
                            expect_rule (Kept p X) e' e.commit_bytes _ (λ h. absurd (n.1 h))
                              λ cb _.
                                expect_rule (Kept p X) e' e.dhpart1_bytes _ (λ h. absurd (n.2 h))
                                  λ db _. agreement-Kept X dh _ e' _ n.3 λ z.
                                    returned p X random _ _ chained
                                      (λ h. cc, λ h. cc, λ h. cc, λ h. cc)
      where
        X : Type 0
        X = KeyAgreementAborts p e raw (dh_part2 d)

        by :
            (c : Commit)
            → e.commit ≡ some c
            → verify_hash_chain_hop p d.h1 1 c.h2 ≡ true
            → bytes_eq (compute_hvi p raw e.local_hello_bytes) c.hvi ≡ true
            → Unusable p e d.pv
            → X
        by c have v hvi u = in_dh_part2 d c st ro have v hvi u

        e' : ZrtpEngine K S
        e' = record e { dhpart2_h1 = some d.h1; local_keypair = none }
