-- ===== src/Media/Dtmf/Tests.antt =====
-- The burst of dtmf.rs for the digit 5, at a counter about to wrap around.
use mathlib.Core.List.{map}
use dee_lip.Prelude.{◌+◌, ◌≡◌, some, [], ◌∷◌, u16, arith}
use dee_lip.Media.Rtp.{decode}
use dee_lip.Media.Dtmf.{build_dtmf_burst}
use dee_lip.Media.Dtmf.Burst.{burst_packet, build_dtmf_burst-decode}

build_dtmf_burst-decode_example :
    (map decode (build_dtmf_burst 5 77 65533 8000 101).0
      ≡ map (λ k. some (burst_packet 5 77 65533 8000 101 k)) (0 ∷ 1 ∷ 2 ∷ 3 ∷ 4 ∷ []))
    × ((build_dtmf_burst 5 77 65533 8000 101).1 ≡ u16 (65533 + 5))
build_dtmf_burst-decode_example =
    build_dtmf_burst-decode 5 77 65533 8000 101 (omega arith) (omega arith) (omega arith)
      (omega arith)
