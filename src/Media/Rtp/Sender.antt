-- ===== src/Media/Rtp/Sender.antt =====
-- The counters of `RtpSender` of rtp.rs over a whole run of ticks.
use mathlib.Core.Path.{ap₂}
use dee_lip.Prelude.{
  ℕ, ◌+◌, ◌*◌, ◌≡◌, refl, ap, ◌∙◌, Option, none, some, List, [], ◌∷◌, u16, u32, IsU16, IsU32, arith,
}
use mathlib.Core.List.{map}
use dee_lip.Media.Rtp.{RtpPacket, RtpSender, new_packet, next_packet, skip_tick}

-- One entry for each 20 ms tick: the payload that is sent, or nothing.
pub run : RtpSender → List (Option (List ℕ)) → List RtpPacket × RtpSender
run s [] = ([], s)
run s (none ∷ ticks) = run (skip_tick s) ticks
run s (some payload ∷ ticks) =
    let (packet, s') = next_packet s payload in
    let (packets, end) = run s' ticks in (packet ∷ packets, end)

-- The stamps that RFC 3550 asks for: `sent` packets and `passed` ticks stand before the first tick of
-- the list, and both counters began at `sequence` and `timestamp`.
pub stamps : ℕ → ℕ → ℕ → ℕ → ℕ → List (Option (List ℕ)) → List (ℕ × ℕ)
stamps sequence timestamp step sent passed [] = []
stamps sequence timestamp step sent passed (none ∷ ticks) =
    stamps sequence timestamp step sent (passed + 1) ticks
stamps sequence timestamp step sent passed (some payload ∷ ticks) =
    (u16 (sequence + sent), u32 (timestamp + passed * step))
    ∷ stamps sequence timestamp step (sent + 1) (passed + 1) ticks

abbrev pub stamp : RtpPacket → ℕ × ℕ
stamp p = (p.sequence, p.timestamp)

next_seq : (a k : ℕ) → u16 (u16 (a + k) + 1) ≡ u16 (a + (k + 1))
next_seq a k = omega arith

next_ts : (a k step : ℕ) → u32 (u32 (a + k * step) + step) ≡ u32 (a + (k + 1) * step)
next_ts a k step =
    let next_product : (k + 1) * step ≡ k * step + step = grind arith in omega (arith, next_product)

run_from :
    (sequence timestamp sent passed : ℕ) (s : RtpSender) (ticks : List (Option (List ℕ)))
    → s.sequence ≡ u16 (sequence + sent)
    → s.timestamp ≡ u32 (timestamp + passed * s.ts_increment)
    → map stamp (run s ticks).0 ≡ stamps sequence timestamp s.ts_increment sent passed ticks
unfolding run stamps next_packet skip_tick new_packet
run_from sequence timestamp sent passed s [] hs ht = refl
run_from sequence timestamp sent passed s (none ∷ ticks) hs ht =
    run_from sequence timestamp sent (passed + 1) (skip_tick s) ticks hs
      (ap (λ t. u32 (t + s.ts_increment)) ht ∙ next_ts timestamp passed s.ts_increment)
run_from sequence timestamp sent passed s (some payload ∷ ticks) hs ht =
    ap₂ (λ a b. a ∷ b) (ap₂ (λ n t. (n, t)) hs ht)
      (run_from sequence timestamp (sent + 1) (passed + 1) (next_packet s payload).1 ticks
        (ap (λ t. u16 (t + 1)) hs ∙ next_seq sequence sent)
        (ap (λ t. u32 (t + s.ts_increment)) ht ∙ next_ts timestamp passed s.ts_increment))

-- From a sender whose counters fit their words, over any run of ticks the packets are numbered one
-- after the other and each is stamped with the ticks passed, the silent ones too: sequence numbers
-- modulo 2 ^ 16, timestamps modulo 2 ^ 32.
pub run-stamps :
    (s : RtpSender) (ticks : List (Option (List ℕ)))
    → IsU16 s.sequence
    → IsU32 s.timestamp
    → map stamp (run s ticks).0 ≡ stamps s.sequence s.timestamp s.ts_increment 0 0 ticks
run-stamps s ticks hs ht = run_from s.sequence s.timestamp 0 0 s ticks (omega arith) (omega arith)
