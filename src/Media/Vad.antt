-- ===== src/Media/Vad.antt =====
-- crates/media-engine/src/vad.rs: the voice activity detector. What it does with floating-point
-- numbers, the level of a frame, the comparison with SILENCE_RMS and the level byte, is a parameter; the
-- synthesis of noise on the receiving side is not modelled.
pub mod Silence
pub mod Tests
use dee_lip.Prelude.{ℕ, ◌+◌, Bool, true, false, not, List, [], ◌∷◌, ltb, leb, if◌then◌else◌}

abbrev pub hangover_frames : ℕ
hangover_frames = 15

abbrev pub cn_repeat_frames : ℕ
cn_repeat_frames = 25

pub data VadDecision : Type 0 where
  talking : VadDecision
  send_comfort_noise : ℕ → VadDecision
  skip : VadDecision

pub record VoiceActivityDetector : Type 0 where
  pub quiet_frames : ℕ
  pub silent : Bool
  pub frames_since_sid : ℕ

abbrev pub new_detector : VoiceActivityDetector
new_detector = record { quiet_frames = 0; silent = false; frames_since_sid = 0 }

-- `F` is the type of levels, `P` that of frames.
pub record Meter (P F : Type 0) : Type 0 where
  pub frame_rms : P → F
  pub above_silence : F → Bool
  pub noise_level_byte : F → ℕ

unfoldable pub process :
    {P F : Type 0} → Meter P F → VoiceActivityDetector → P → VadDecision × VoiceActivityDetector
process m v pcm =
    let rms = m.frame_rms pcm in
    if m.above_silence rms
    then (talking, record v { quiet_frames = 0; silent = false })
    else if not v.silent
    then (let quiet = v.quiet_frames + 1 in
        if ltb quiet hangover_frames then (talking, record v { quiet_frames = quiet }) else (
          send_comfort_noise (m.noise_level_byte rms),
          record { quiet_frames = quiet; silent = true; frames_since_sid = 0 },
        ))
    else (let since = v.frames_since_sid + 1 in
        if leb cn_repeat_frames since
        then (send_comfort_noise (m.noise_level_byte rms), record v { frames_since_sid = 0 })
        else (skip, record v { frames_since_sid = since }))

-- The decisions on frame after frame.
unfoldable pub decisions :
    {P F : Type 0} → Meter P F → VoiceActivityDetector → List P → List VadDecision
unfolding process
decisions m v [] = []
decisions m v (pcm ∷ rest) = let (d, v') = process m v pcm in d ∷ decisions m v' rest
