-- ===== src/Media/VideoRtp/Tests.antt =====
-- The round trip of video_rtp.rs at a stream of two NAL units, the first cut into three fragments.
use Prim.Native.Nat.{max}
use dee_lip.Prelude.{ℕ, ◌≤◌, ◌≡◌, refl, List, [], ◌∷◌, length, All, arith, ok}
use dee_lip.Media.VideoRtp.{
  split_nal_units, fragment_nal_units, reassemble_nal_units, find_starts, cut_at, trim_zeros,
}
use dee_lip.Media.VideoRtp.RoundTrip.{IsPlain, annex_b_of, reassemble_nal_units-fragment_nal_units}

abbrev stream : List ℕ
stream = 0 ∷ 0 ∷ 0 ∷ 1 ∷ 0x65 ∷ 1 ∷ 2 ∷ 3 ∷ 4 ∷ 5 ∷ 6 ∷ 7 ∷ 0 ∷ 0 ∷ 1 ∷ 0x41 ∷ 9 ∷ []

abbrev units : List (List ℕ)
units = (0x65 ∷ 1 ∷ 2 ∷ 3 ∷ 4 ∷ 5 ∷ 6 ∷ 7 ∷ []) ∷ (0x41 ∷ 9 ∷ []) ∷ []

split_nal_units-stream : split_nal_units stream ≡ units
unfolding split_nal_units find_starts cut_at trim_zeros
split_nal_units-stream = refl

units-IsPlain : All IsPlain (split_nal_units stream)
unfolding split_nal_units find_starts cut_at trim_zeros IsPlain
units-IsPlain = (λ e. omega arith, (λ e. omega arith, tt))

reassemble_nal_units-fragment_nal_units_example :
    (ps : List (List ℕ)) × (fragment_nal_units stream 5 ≡ ok ps)
    × All (λ p. length p ≤ max 5 3) ps
    × (reassemble_nal_units ps ≡ annex_b_of (split_nal_units stream))
reassemble_nal_units-fragment_nal_units_example =
    reassemble_nal_units-fragment_nal_units stream 5 (omega arith)
      (
        omega arith,
        (
          omega arith,
          (
            omega arith,
            (
              omega arith,
              (
                omega arith,
                (
                  omega arith,
                  (
                    omega arith,
                    (
                      omega arith,
                      (
                        omega arith,
                        (
                          omega arith,
                          (
                            omega arith,
                            (
                              omega arith,
                              (
                                omega arith,
                                (omega arith, (omega arith, (omega arith, (omega arith, tt)))),
                              ),
                            ),
                          ),
                        ),
                      ),
                    ),
                  ),
                ),
              ),
            ),
          ),
        ),
      )
      units-IsPlain
