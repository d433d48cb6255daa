-- ===== src/Media/ZrtpSession.antt =====
-- crates/media-engine/src/zrtp_session.rs: the runtime that drives a ZRTP engine for a call. Instants
-- are milliseconds; `Instant::now()` is the argument `now`, and what a call draws from the random
-- generator is the argument `entropy`. The SQLite store is a parameter, like every secret store.
pub mod Retries
pub mod Tests
use dee_lip.Prelude.{
  ℕ, ◌+◌, Option, none, some, List, [], ◌∷◌, ◌++◌, Outcome, ok, err, panic, ltb, leb, codes,
  replicate, if◌then◌else◌,
}
use dee_lip.Zrtp.Crypto.{Primitives}
use dee_lip.Zrtp.Cache.{SharedSecretStore}
use dee_lip.Zrtp.Engine.Types.{
  Role, SecureSession, EngineEvent, EngineError, ZrtpEngine, Entropy, send, sas_ready, secure_on,
  failed_with,
}
use dee_lip.Zrtp.Engine.Build.{new, start}
use dee_lip.Zrtp.Engine.Steps.{encoded}
use dee_lip.Zrtp.Engine.Handlers.{receive}

abbrev pub resend_interval : ℕ
resend_interval = 300

abbrev pub max_attempts : ℕ
max_attempts = 15

pub data ZrtpOutcome : Type 0 where
  send_bytes : List ℕ → ZrtpOutcome
  sas : List ℕ → ZrtpOutcome
  secure : SecureSession → ZrtpOutcome
  failed : List ℕ → ZrtpOutcome

pub record ZrtpRuntime (K S : Type 0) : Type 0 where
  pub engine : ZrtpEngine K S
  pub pending_resend : Option (List ℕ × ℕ)
  pub next_resend_at : ℕ

abbrev pub timed_out : ZrtpOutcome
timed_out = failed (codes "ZRTP handshake timed out")

unfoldable pub client_id : List ℕ
client_id = codes "DeeLip" ++ replicate 10 0x20

module _ {K S : Type 0} (p : Primitives K) where
  -- One round of the loop of `translate`.
  unfoldable pub translate_event : ℕ → EngineEvent → ZrtpRuntime K S → ZrtpOutcome × ZrtpRuntime K S
  translate_event now (send m) r = (
    send_bytes (encoded p m),
    record r { pending_resend = some (encoded p m, 0); next_resend_at = now + resend_interval },
  )
  translate_event now (sas_ready s) r = (sas s, r)
  translate_event now (secure_on session) r = (secure session, record r { pending_resend = none })
  translate_event now (failed_with reason) r = (failed reason, record r { pending_resend = none })

  unfoldable pub translate :
      ℕ → List EngineEvent → ZrtpRuntime K S → List ZrtpOutcome × ZrtpRuntime K S
  unfolding translate_event
  translate now [] r = ([], r)
  translate now (e ∷ es) r =
      let (o, r') = translate_event now e r in let (os, r'') = translate now es r' in (o ∷ os, r'')

  -- `ZrtpRuntime::new` behind the opening of the store.
  unfoldable pub new_runtime :
      Role → List ℕ → List ℕ → List ℕ → S → ℕ → List ZrtpOutcome × ZrtpRuntime K S
  unfolding translate
  new_runtime role local_zid client random store now =
      let (events, engine) = start p (new p role local_zid client random store) in
      translate now events
        (record { engine = engine; pending_resend = none; next_resend_at = now + resend_interval })

  module _ (secrets : SharedSecretStore S) where
    abbrev after_receive :
        ℕ
        → ZrtpRuntime K S
        → Outcome EngineError (List EngineEvent)
        → Outcome (Unit {0}) (List ZrtpOutcome) × ZrtpRuntime K S
    after_receive now r (ok events) = let (os, r') = translate now events r in (ok os, r')
    after_receive now r (err e) = (ok [], r)
    after_receive now r panic = (panic, r)

    -- An error of the engine is dropped; an abort of the engine is one of the caller.
    unfoldable pub handle_incoming :
        ℕ
        → List ℕ
        → ZrtpRuntime K S
        → Entropy K
        → Outcome (Unit {0}) (List ZrtpOutcome) × ZrtpRuntime K S
    unfolding translate
    handle_incoming now bytes r entropy =
        let (res, engine) = receive p secrets bytes r.engine entropy in
        after_receive now (record r { engine = engine }) res

abbrev resend_due :
    {K S : Type 0} → ℕ → ZrtpRuntime K S → List ℕ → ℕ → List ZrtpOutcome × ZrtpRuntime K S
resend_due now r bytes attempts =
    if ltb now r.next_resend_at
    then ([], r)
    else if leb max_attempts attempts
    then (timed_out ∷ [], record r { pending_resend = none })
    else (
      send_bytes bytes ∷ [],
      record r {
        pending_resend = some (bytes, attempts + 1);
        next_resend_at = now + resend_interval;
      },
    )

abbrev pub resend_of :
    {K S : Type 0} → ℕ → ZrtpRuntime K S → Option (List ℕ × ℕ) → List ZrtpOutcome × ZrtpRuntime K S
resend_of now r none = ([], r)
resend_of now r (some (bytes, attempts)) = resend_due now r bytes attempts

unfoldable pub tick : {K S : Type 0} → ℕ → ZrtpRuntime K S → List ZrtpOutcome × ZrtpRuntime K S
tick now r = resend_of now r r.pending_resend

-- The outcomes of tick after tick.
unfoldable pub tick_all : {K S : Type 0} → List ℕ → ZrtpRuntime K S → List ZrtpOutcome
unfolding tick
tick_all [] r = []
tick_all (now ∷ nows) r = let (os, r') = tick now r in os ++ tick_all nows r'
