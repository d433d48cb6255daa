-- ===== src/Media/Vad/Silence.antt =====
-- What vad.rs decides over a silence.
use dee_lip.Prelude.{
  ltb→lt, ap, ==_iff, leb→le, ℕ, ◌+◌, ◌-◌, ◌%◌, ◌<◌, ◌≤◌, ◌≡◌, refl, true, false, List, [], ◌∷◌,
  All, ltb, leb, ◌==◌, arith, inl, inr, Bool-cases, if◌then◌else◌,
}
use dee_lip.Media.Vad.{
  new_detector, VadDecision, VoiceActivityDetector, Meter, hangover_frames, cn_repeat_frames,
  process, decisions, talking, send_comfort_noise, skip,
}

-- The timetable: frame `k` of a silence is sent as speech before the hangover is over; from then on every
-- 25th frame, the first included, is a comfort-noise packet, and the others are skipped.
pub timetable : {P F : Type 0} → Meter P F → ℕ → List P → List VadDecision
timetable m k [] = []
timetable m k (pcm ∷ rest) =
    (if ltb (k + 1) hangover_frames
      then talking
      else if (k + 1 - hangover_frames) % cn_repeat_frames == 0
      then send_comfort_noise (m.noise_level_byte (m.frame_rms pcm))
      else skip)
    ∷ timetable m (k + 1) rest

abbrev pub IsQuiet : {P F : Type 0} → Meter P F → P → Type 0
IsQuiet m pcm = m.above_silence (m.frame_rms pcm) ≡ false

ltb→ge : (a b : ℕ) → ltb a b ≡ false → b ≤ a
ltb→ge a b h = ground arith

ltb_at : (k q : ℕ) → q ≡ k → ltb (q + 1) 15 ≡ true → ltb (k + 1) 15 ≡ true
ltb_at k q e h = ground arith

first_due : (k : ℕ) → k ≡ 14 → ((k + 1 - 15) % 25 == 0) ≡ true
first_due k e = (==_iff _ _).1 (omega arith)

late : (k : ℕ) → 14 ≤ k → ltb (k + 1) 15 ≡ false
late k h = ground arith

due :
    (k since : ℕ)
    → 15 ≤ k
    → since ≡ (k - 15) % 25
    → leb 25 (since + 1) ≡ true
    → ((k + 1 - 15) % 25 == 0) ≡ true
due k since le e b = (==_iff _ _).1 (omega (arith, leb→le 25 (since + 1) b))

leb→gt : (a b : ℕ) → leb a b ≡ false → b < a
leb→gt a b h = ground arith

pos_not_zero : (i : ℕ) → 1 ≤ i → (i == 0) ≡ false
pos_not_zero i h = ground arith

not_due :
    (k since : ℕ)
    → 15 ≤ k
    → since ≡ (k - 15) % 25
    → leb 25 (since + 1) ≡ false
    → ((k + 1 - 15) % 25 == 0) ≡ false
not_due k since le e b = let lt = leb→gt 25 (since + 1) b in pos_not_zero _ (omega arith)

module _ {P F : Type 0} (m : Meter P F) where
  repeat :
      (v : VoiceActivityDetector) (pcm : P)
      → IsQuiet m pcm
      → v.silent ≡ true
      → (process m v pcm) ≡ (
          if leb cn_repeat_frames (v.frames_since_sid + 1)
          then (
            send_comfort_noise (m.noise_level_byte (m.frame_rms pcm)),
            record v { frames_since_sid = 0 },
          )
          else (skip, record v { frames_since_sid = v.frames_since_sid + 1 }))
  unfolding process
  repeat v pcm q s = rw (q, s) refl

  linger :
      (v : VoiceActivityDetector) (pcm : P)
      → IsQuiet m pcm
      → v.silent ≡ false
      → (process m v pcm) ≡ (
          if ltb (v.quiet_frames + 1) hangover_frames
          then (talking, record v { quiet_frames = v.quiet_frames + 1 })
          else (
            send_comfort_noise (m.noise_level_byte (m.frame_rms pcm)),
            record { quiet_frames = v.quiet_frames + 1; silent = true; frames_since_sid = 0 },
          ))
  unfolding process
  linger v pcm q s = rw (q, s) refl

  in_silence :
      (k : ℕ) (v : VoiceActivityDetector) (frames : List P)
      → hangover_frames ≤ k
      → v.silent ≡ true
      → v.frames_since_sid ≡ (k - hangover_frames) % cn_repeat_frames
      → All (IsQuiet m) frames
      → decisions m v frames ≡ timetable m k frames
  unfolding decisions timetable process
  in_silence k v [] le s e q = refl
  in_silence k v (pcm ∷ rest) le s e q =
      elim (Bool-cases (leb cn_repeat_frames (v.frames_since_sid + 1))) [
        | inl b ↦
            rw (repeat v pcm q.0 s, b, late k (omega arith), due k v.frames_since_sid le e b)
              (ap (λ ds. send_comfort_noise (m.noise_level_byte (m.frame_rms pcm)) ∷ ds)
                (in_silence (k + 1) (record v { frames_since_sid = 0 }) rest (omega arith) s
                  (omega (arith, leb→le 25 (v.frames_since_sid + 1) b)) q.1))
        | inr b ↦
            rw (repeat v pcm q.0 s, b, late k (omega arith), not_due k v.frames_since_sid le e b)
              (ap (λ ds. skip ∷ ds)
                (in_silence (k + 1) (record v { frames_since_sid = v.frames_since_sid + 1 }) rest
                  (omega arith) s (omega (arith, leb→gt 25 (v.frames_since_sid + 1) b)) q.1))
      ]

  in_hangover :
      (k : ℕ) (v : VoiceActivityDetector) (frames : List P)
      → k < hangover_frames
      → v.silent ≡ false
      → v.quiet_frames ≡ k
      → All (IsQuiet m) frames
      → decisions m v frames ≡ timetable m k frames
  unfolding decisions timetable process
  in_hangover k v [] le s e q = refl
  in_hangover k v (pcm ∷ rest) le s e q =
      elim (Bool-cases (ltb (v.quiet_frames + 1) hangover_frames)) [
        | inl b ↦
            rw (linger v pcm q.0 s, b, ltb_at k v.quiet_frames e b)
              (ap (λ ds. talking ∷ ds)
                (in_hangover (k + 1) (record v { quiet_frames = v.quiet_frames + 1 }) rest
                  (omega (arith, ltb→lt _ _ b)) s (omega arith) q.1))
        | inr b ↦
            let last = ltb→ge (v.quiet_frames + 1) 15 b in
            rw (linger v pcm q.0 s, b, late k (omega arith), first_due k (omega arith))
              (ap (λ ds. send_comfort_noise (m.noise_level_byte (m.frame_rms pcm)) ∷ ds)
                (in_silence (k + 1)
                  (record {
                    quiet_frames = v.quiet_frames + 1;
                    silent = true;
                    frames_since_sid = 0;
                  })
                  rest (omega arith) refl (omega arith) q.1))
      ]

-- From a detector that has just been made, and, whatever the detector, behind a loud frame, which is sent
-- as speech, any run of quiet frames gives the timetable: 14 frames are sent as speech, the 15th and every
-- 25th after it as comfort noise at the level of that frame, and the others are skipped.
pub decisions-timetable :
    {P F : Type 0} (m : Meter P F) (v : VoiceActivityDetector) (loud : P) (frames : List P)
    → m.above_silence (m.frame_rms loud) ≡ true
    → All (IsQuiet m) frames
    → (decisions m new_detector frames ≡ timetable m 0 frames)
      × (decisions m v (loud ∷ frames) ≡ talking ∷ timetable m 0 frames)
unfolding decisions process
decisions-timetable m v loud frames h q = (
  in_hangover m 0 new_detector frames (omega arith) refl refl q,
  rw h (
      ap (λ ds. talking ∷ ds)
        (in_hangover m 0 (record v { quiet_frames = 0; silent = false }) frames (omega arith) refl
          refl q)),
)
