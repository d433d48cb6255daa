-- ===== src/Zrtp/Engine/Safety/Receive.antt =====
-- What holds of an engine of engine.rs after any calls of `receive`, and when one aborts.
use dee_lip.Prelude.{
  none, ◌↔◌, some, length, ◌==◌, true, false, ℕ, ◌≡◌, refl, List, Outcome, ok, err, panic,
  err-ne-panic,
}
use dee_lip.Zrtp.Wire.Types.{Message, WireError, Hello, DhPart, dh_part1}
use dee_lip.Zrtp.Wire.Decode.{decode}
use dee_lip.Zrtp.Crypto.{Primitives, Ec25KeyPair, ec25_shared_secret, verify_hash_chain_hop}
use dee_lip.Zrtp.Cache.{SharedSecretStore}
use dee_lip.Zrtp.Engine.Types.{
  EngineError, wire, initiator, commit_sent, unexpected_message, Role, Handled, ZrtpEngine, Entropy,
}
use dee_lip.Zrtp.Engine.Build.{new, start}
use dee_lip.Zrtp.Engine.Steps.{decoded, wrapped, early, with_shared_secret}
use dee_lip.Zrtp.Engine.Handlers.{after_decode, receive, dispatch, on_dhpart1, on_dhpart2}
use dee_lip.Zrtp.Engine.Handshake.{Laws}
use dee_lip.Zrtp.Engine.Safety.{
  AbortsOn, IsReady, KeyAgreementAborts, in_dh_part1, in_dh_part2, used_up, no_point,
}
use dee_lip.Zrtp.Engine.Safety.Handlers.{dispatch-Kept}

module _ {K S : Type 0} (p : Primitives K) where
  module _ (secrets : SharedSecretStore S) where
    module _ (laws : Laws p) (e : ZrtpEngine K S) (w : IsReady p e) (raw : List ℕ)
        (entropy : Entropy K) where
      decoded-IsReady :
          (o : Outcome EngineError Message) → IsReady p (after_decode p secrets o raw e entropy).1
      decoded-IsReady (ok m) =
          (dispatch-Kept p laws e w.random w.chained secrets m e.state e.role raw entropy refl refl
            w.needs).ready
      decoded-IsReady (err x) = w
      decoded-IsReady panic = w

    pub receive-IsReady :
        (laws : Laws p) (e : ZrtpEngine K S)
        → IsReady p e
        → (raw : List ℕ) (entropy : Entropy K) → IsReady p (receive p secrets raw e entropy).1
    unfolding receive
    receive-IsReady laws e w raw entropy = decoded-IsReady laws e w raw entropy (decoded p raw)

  pub start-IsReady :
      (r : Role) (zid client_id random : List ℕ) (store : S)
      → IsReady p (start p (new p r zid client_id random store)).1
  unfolding start new
  start-IsReady r zid client_id random store = record {
    needs = tt;
    random = random;
    chained = refl;
  }

  -- The engines that a call can come to: a new one that has sent its Hello, and what any bytes make
  -- of one.
  pub data Reachable (secrets : SharedSecretStore S) : ZrtpEngine K S → Type 0 where
    begun :
        (r : Role) (zid client_id random : List ℕ) (store : S)
        → Reachable secrets (start p (new p r zid client_id random store)).1
    received :
        {e : ZrtpEngine K S}
        → Reachable secrets e
        → (raw : List ℕ) (entropy : Entropy K)
        → Reachable secrets (receive p secrets raw e entropy).1

  module _ (secrets : SharedSecretStore S) (laws : Laws p) where
    Reachable-IsReady : {e : ZrtpEngine K S} → Reachable secrets e → IsReady p e
    Reachable-IsReady (begun r zid client_id random store) =
        start-IsReady r zid client_id random store
    Reachable-IsReady (received r raw entropy) =
        receive-IsReady secrets laws _ (Reachable-IsReady r) raw entropy

    aborts_by :
        (e : ZrtpEngine K S)
        → IsReady p e
        → (raw : List ℕ) (entropy : Entropy K) (o : Outcome WireError Message)
        → (after_decode p secrets (wrapped o) raw e entropy).0 ≡ panic
        → AbortsOn p e raw o
    aborts_by e w raw entropy (ok m) k =
        (dispatch-Kept p laws e w.random w.chained secrets m e.state e.role raw entropy refl refl
            w.needs).aborts
          k
    aborts_by e w raw entropy (err x) k = absurd (err-ne-panic (wire x) k)
    aborts_by e w raw entropy panic k = tt

    module _ (e : ZrtpEngine K S) (raw : List ℕ) (entropy : Entropy K) where
      unusable_aborts :
          (keypair : Ec25KeyPair K) (pv : List ℕ) (e' : ZrtpEngine K S)
          (next : List ℕ → Handled K S)
          → length pv ≡ 64
          → ec25_shared_secret p keypair pv ≡ none
          → (with_shared_secret p keypair pv e' next).0 ≡ panic
      unfolding with_shared_secret early
      unusable_aborts keypair pv e' next long bad = rw (long, bad) refl

      agreement_aborts :
          (m : Message)
          → KeyAgreementAborts p e raw m
          → (dispatch p secrets m e.state e.role raw e entropy).0 ≡ panic
      unfolding dispatch on_dhpart1 on_dhpart2 early
      agreement_aborts _ (in_dh_part1 d h st ro rh v (used_up none_left)) =
          rw (st, ro, rh, v, none_left) refl
      agreement_aborts _ (in_dh_part1 d h st ro rh v (no_point k kp long bad)) =
          rw (st, ro, rh, v, kp) (unusable_aborts k d.pv _ _ long bad)
      agreement_aborts _ (in_dh_part2 d c st ro co v hvi (used_up none_left)) =
          rw (st, ro, co, v, hvi, none_left) refl
      agreement_aborts _ (in_dh_part2 d c st ro co v hvi (no_point k kp long bad)) =
          rw (st, ro, co, v, hvi, kp) (unusable_aborts k d.pv _ _ long bad)

      aborts_on :
          (o : Outcome WireError Message)
          → AbortsOn p e raw o
          → (after_decode p secrets (wrapped o) raw e entropy).0 ≡ panic
      aborts_on (ok m) a = agreement_aborts m a
      aborts_on (err x) a = absurd a
      aborts_on panic a = refl

    -- Under the same laws of the primitives as for an exchange, for an engine that a start and any calls of
    -- `receive` have led to: a call of `receive` aborts exactly if `Message::decode` aborts on its bytes, or
    -- if they are a DHPart1 or DHPart2 that this role awaits in this state, whose hash chain (and, for a
    -- DHPart2, whose commitment) is right, and either the engine's key pair is used up or that message's
    -- own public value is 64 bytes that are no point of the curve. No other `expect` of the engine aborts.
    pub receive_aborts :
        {e : ZrtpEngine K S}
        → Reachable secrets e
        → (raw : List ℕ) (entropy : Entropy K)
        → ((receive p secrets raw e entropy).0 ≡ panic) ↔ AbortsOn p e raw (decode p.crc32 raw)
    unfolding receive
    receive_aborts {e} r raw entropy = (
      aborts_by e (Reachable-IsReady r) raw entropy (decode p.crc32 raw),
      aborts_on e raw entropy (decode p.crc32 raw),
    )

  -- Two DHPart1 in a row.
  module _ (secrets : SharedSecretStore S) (e : ZrtpEngine K S) (first second : List ℕ)
      (ent ent' : Entropy K) (h : Hello) (k : Ec25KeyPair K) (d d' : DhPart) where
    abbrev spent : ZrtpEngine K S
    spent = record e { dhpart1_h1 = some d.h1; dhpart1_bytes = some first; local_keypair = none }

    module _ (st : e.state ≡ commit_sent) (ro : e.role ≡ initiator)
        (rh : e.remote_hello ≡ some h) where
      first_refused :
          e.local_keypair ≡ some k
          → decode p.crc32 first ≡ ok (dh_part1 d)
          → verify_hash_chain_hop p d.h1 2 h.h3 ≡ true
          → (length d.pv == 64) ≡ false
          → receive p secrets first e ent ≡ (err unexpected_message, spent)
      unfolding receive dispatch on_dhpart1 early with_shared_secret
      first_refused kp d1 v1 long = rw (d1, st, ro, rh, v1, kp, long)

      second_aborts :
          decode p.crc32 second ≡ ok (dh_part1 d')
          → verify_hash_chain_hop p d'.h1 2 h.h3 ≡ true
          → (receive p secrets second spent ent').0 ≡ panic
      unfolding receive dispatch on_dhpart1 early
      second_aborts d2 v2 = rw (d2, st, ro, rh, v2)

    -- For an initiator in CommitSent that has a key pair, and two frames that decode to DHPart1s with a
    -- right hash chain, the first with a public value of other than 64 bytes: the first is refused as
    -- unexpected and leaves the state, and the second aborts the call.
    pub key_pair_spent :
        e.state ≡ commit_sent
        → e.role ≡ initiator
        → e.remote_hello ≡ some h
        → e.local_keypair ≡ some k
        → decode p.crc32 first ≡ ok (dh_part1 d)
        → decode p.crc32 second ≡ ok (dh_part1 d')
        → verify_hash_chain_hop p d.h1 2 h.h3 ≡ true
        → verify_hash_chain_hop p d'.h1 2 h.h3 ≡ true
        → (length d.pv == 64) ≡ false
        → let (r, e') = receive p secrets first e ent in
          (r ≡ err unexpected_message)
          × (e'.state ≡ commit_sent)
          × ((receive p secrets second e' ent').0 ≡ panic)
    key_pair_spent st ro rh kp d1 d2 v1 v2 long =
        rw (first_refused st ro rh kp d1 v1 long) (refl, st, second_aborts st ro rh d2 v2)
