-- ===== src/Media/ZrtpSession/Retries.antt =====
-- The resends of `ZrtpRuntime::tick` of zrtp_session.rs.
use dee_lip.Prelude.{
  ℕ, zero, suc, ◌+◌, ◌≤◌, ◌<◌, ◌≡◌, refl, ap, true, false, none, some, List, [], ◌∷◌, ltb, leb,
  arith, if◌then◌else◌,
}
use dee_lip.Media.ZrtpSession.{
  ZrtpOutcome, ZrtpRuntime, send_bytes, timed_out, tick, resend_of, tick_all, max_attempts,
  resend_interval,
}

-- Each instant is late enough for the resend that the one before it put off.
unfoldable pub IsPaced : ℕ → List ℕ → Type 0
IsPaced at [] = Unit {0}
IsPaced at (now ∷ nows) = (at ≤ now) × IsPaced (now + resend_interval) nows

-- What a handshake that no packet answers does: `left` resends, one report of the failure, silence.
pub give_up : List ℕ → ℕ → List ℕ → List ZrtpOutcome
give_up bytes left [] = []
give_up bytes zero (now ∷ nows) = timed_out ∷ []
give_up bytes (suc left) (now ∷ nows) = send_bytes bytes ∷ give_up bytes left nows

not_early : (now at : ℕ) → at ≤ now → ltb now at ≡ false
not_early now at h = ground arith

all_used : (n : ℕ) → 15 ≤ n → leb 15 n ≡ true
all_used n h = ground arith

not_used : (n : ℕ) → n < 15 → leb 15 n ≡ false
not_used n h = ground arith

module _ {K S : Type 0} where
  tick_idle : (now : ℕ) (r : ZrtpRuntime K S) → r.pending_resend ≡ none → tick now r ≡ ([], r)
  unfolding tick
  tick_idle now r h = ap (resend_of now r) h

  quiet : (nows : List ℕ) (r : ZrtpRuntime K S) → r.pending_resend ≡ none → tick_all nows r ≡ []
  unfolding tick_all
  quiet [] r h = refl
  quiet (now ∷ nows) r h = rw (tick_idle now r h) (quiet nows r h)

  tick_late :
      (now : ℕ) (r : ZrtpRuntime K S) (bytes : List ℕ) (attempts : ℕ)
      → r.pending_resend ≡ some (bytes, attempts)
      → ltb now r.next_resend_at ≡ false
      → tick now r ≡ (
          if leb max_attempts attempts
          then (timed_out ∷ [], record r { pending_resend = none })
          else (
            send_bytes bytes ∷ [],
            record r {
              pending_resend = some (bytes, attempts + 1);
              next_resend_at = now + resend_interval;
            },
          ))
  unfolding tick
  tick_late now r bytes attempts h k = rw (h, k) refl

  -- A message that was sent again `attempts` times, at most 15, and that no event of the engine
  -- settles, is sent again at each of the next instants, each late enough after the one before,
  -- until the 15th resend; the instant after that reports the failure, once, and from then on
  -- nothing is sent.
  pub tick_all-give_up :
      (left attempts : ℕ) (bytes nows : List ℕ) (r : ZrtpRuntime K S)
      → attempts + left ≡ max_attempts
      → r.pending_resend ≡ some (bytes, attempts)
      → IsPaced r.next_resend_at nows
      → tick_all nows r ≡ give_up bytes left nows
  unfolding tick_all give_up IsPaced
  tick_all-give_up left attempts bytes [] r e h w = refl
  tick_all-give_up zero attempts bytes (now ∷ nows) r e h w =
      rw
        (
          tick_late now r bytes attempts h (not_early now r.next_resend_at w.0),
          all_used attempts (omega arith),
        )
        (ap (λ os. timed_out ∷ os) (quiet nows (record r { pending_resend = none }) refl))
  tick_all-give_up (suc left) attempts bytes (now ∷ nows) r e h w =
      rw
        (
          tick_late now r bytes attempts h (not_early now r.next_resend_at w.0),
          not_used attempts (omega arith),
        )
        (ap (λ os. send_bytes bytes ∷ os)
          (tick_all-give_up left (attempts + 1) bytes nows
            (record r {
              pending_resend = some (bytes, attempts + 1);
              next_resend_at = now + resend_interval;
            })
            (omega arith) refl w.1))
