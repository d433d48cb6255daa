-- ===== src/Sip/Calls/Failures.antt =====
-- Failing responses within a call (call/lifecycle/response/mod.rs).
use dee_lip.Prelude.{ℕ, List, []}
use dee_lip.Sip.Util.{or_text}
use dee_lip.Sip.Message.{SipMessage, SipMethod, reason_phrase, invite, info, bye}
use dee_lip.Sip.Dialog.{Dialog}

-- The requests of a call.
abbrev pub IsOfCall : SipMethod → Type 0
IsOfCall invite = Unit {0}
IsOfCall info = Unit {0}
IsOfCall bye = Unit {0}
IsOfCall m = ⊥

abbrev pub reason_of_failure : SipMessage → List ℕ
reason_of_failure msg = or_text (reason_phrase msg) []
