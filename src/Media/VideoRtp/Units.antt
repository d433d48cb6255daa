-- ===== src/Media/VideoRtp/Units.antt =====
-- What `split_nal_units` of video_rtp.rs yields.
use dee_lip.Prelude.{
  ℕ, ◌+◌, ◌-◌, List, [], ◌∷◌, Bool-cases, inl, inr, ltb, drop, All, All-take, All-drop, IsU8,
  AreBytes,
}
use dee_lip.Media.VideoRtp.{find_starts, cut_at, split_nal_units, content_end}

cut_at-AreBytes : (bytes starts : List ℕ) → AreBytes bytes → All AreBytes (cut_at bytes starts)
unfolding cut_at
cut_at-AreBytes bytes [] h = tt
cut_at-AreBytes bytes (start ∷ starts) h =
    elim (Bool-cases (ltb (start + 3) (content_end bytes (start + 3) starts))) [
      | inl e ↦ rw e (
        All-take IsU8 (content_end bytes (start + 3) starts - (start + 3)) (drop (start + 3) bytes)
            (All-drop IsU8 (start + 3) bytes h),
        cut_at-AreBytes bytes starts h,
      )
      | inr e ↦ rw e (cut_at-AreBytes bytes starts h)
    ]

pub split_nal_units-AreBytes :
    (annex_b : List ℕ) → AreBytes annex_b → All AreBytes (split_nal_units annex_b)
unfolding split_nal_units
split_nal_units-AreBytes annex_b h = cut_at-AreBytes annex_b (find_starts 0 0 annex_b) h
