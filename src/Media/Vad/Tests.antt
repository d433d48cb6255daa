-- ===== src/Media/Vad/Tests.antt =====
-- The detector of vad.rs on a loud frame and twenty quiet ones; a frame is its level here.
use dee_lip.Prelude.{ℕ, ◌≡◌, refl, List, ◌∷◌, ltb, replicate, true}
use dee_lip.Media.Vad.{Meter, VoiceActivityDetector, new_detector, decisions, talking}
use dee_lip.Media.Vad.Silence.{timetable, decisions-timetable}

abbrev meter : Meter ℕ ℕ
meter = record { frame_rms = λ n. n; above_silence = λ n. ltb 25 n; noise_level_byte = λ n. n }

abbrev quiet : List ℕ
quiet = replicate 20 3

abbrev old : VoiceActivityDetector
old = record { quiet_frames = 15; silent = true; frames_since_sid = 7 }

decisions-timetable_example :
    (decisions meter new_detector quiet ≡ timetable meter 0 quiet)
    × (decisions meter old (100 ∷ quiet) ≡ talking ∷ timetable meter 0 quiet)
decisions-timetable_example = decisions-timetable meter old 100 quiet refl (
  refl,
  (
    refl,
    (
      refl,
      (
        refl,
        (
          refl,
          (
            refl,
            (
              refl,
              (
                refl,
                (
                  refl,
                  (
                    refl,
                    (
                      refl,
                      (refl, (refl, (refl, (refl, (refl, (refl, (refl, (refl, (refl, tt))))))))),
                    ),
                  ),
                ),
              ),
            ),
          ),
        ),
      ),
    ),
  ),
)
