-- ===== src/Media/VideoRtp/Fragments.antt =====
-- The fragments of one NAL unit, run through the reassembly of video_rtp.rs.
use dee_lip.Prelude.{
  ℕ, zero, suc, ◌+◌, ◌≤◌, ◌<◌, ◌≡◌, refl, ap, ◌∙◌, Bool, true, false, Option, none, some, List, [],
  ◌∷◌, ◌++◌, append_assoc, append-nil, length, take, drop, ◌==◌, ==_iff, take-append-drop,
  length-drop, IsU8, arith,
}
use dee_lip.Media.VideoRtp.{
  start_code, chunks_of, fu_indicator, fu_header, fu_packets, Reassembly, reassemble_step,
  reassemble_from,
}
use dee_lip.Media.VideoRtp.Bits.{indicator_type, start_bit, end_bit, header_kept}

unfoldable pub concat : List (List ℕ) → List ℕ
concat [] = []
concat (l ∷ ls) = l ++ concat ls

pub concat-chunks_of :
    (fuel size : ℕ) (xs : List ℕ)
    → length xs ≤ fuel
    → 1 ≤ size
    → concat (chunks_of fuel size xs) ≡ xs
unfolding concat chunks_of
concat-chunks_of fuel size [] h k = refl
concat-chunks_of zero size (x ∷ xs) h k = absurd (omega arith)
concat-chunks_of (suc fuel) size (x ∷ xs) h k =
    ap (λ l. take size (x ∷ xs) ++ l)
      (concat-chunks_of fuel size (drop size (x ∷ xs)) (omega (arith, length-drop size (x ∷ xs))) k)
    ∙ take-append-drop size (x ∷ xs)

pub reassemble_from-append :
    (st : Reassembly) (xs ys : List (List ℕ))
    → reassemble_from st (xs ++ ys) ≡ reassemble_from (reassemble_from st xs) ys
unfolding reassemble_from
reassemble_from-append st [] ys = refl
reassemble_from-append st (x ∷ xs) ys = reassemble_from-append (reassemble_step st x) xs ys

module _ (h : ℕ) (lt : IsU8 h) (out chunk : List ℕ) where
  abbrev packet : Bool → Bool → List ℕ
  packet s e = fu_indicator h ∷ fu_header h s e ∷ chunk

  step_first :
      (accum : Option (List ℕ))
      → reassemble_step (out, accum) (packet true false) ≡ (out, some (h ∷ chunk))
  unfolding reassemble_step
  step_first accum =
      rw (indicator_type h lt, start_bit h true false lt, end_bit h true false lt)
        (ap (λ n. (out, some (n ∷ chunk))) (header_kept h true false lt))

  step_only :
      (accum : Option (List ℕ))
      → reassemble_step (out, accum) (packet true true) ≡ (out ++ (start_code ++ (h ∷ chunk)), none)
  unfolding reassemble_step
  step_only accum =
      rw (indicator_type h lt, start_bit h true true lt, end_bit h true true lt)
        (ap (λ n. (out ++ (start_code ++ (n ∷ chunk)), none)) (header_kept h true true lt))

  step_middle :
      (buf : List ℕ)
      → reassemble_step (out, some buf) (packet false false) ≡ (out, some (buf ++ chunk))
  unfolding reassemble_step
  step_middle buf = rw (indicator_type h lt, start_bit h false false lt, end_bit h false false lt)

  step_last :
      (buf : List ℕ)
      → reassemble_step (out, some buf) (packet false true)
        ≡ (out ++ (start_code ++ (buf ++ chunk)), none)
  unfolding reassemble_step
  step_last buf = rw (indicator_type h lt, start_bit h false true lt, end_bit h false true lt)

eq_false : (a b : ℕ) → a < b → (a == b) ≡ false
eq_false a b h = ground arith

pos_not_zero : (i : ℕ) → 1 ≤ i → (i == 0) ≡ false
pos_not_zero i h = ground arith

eq_true : (a b : ℕ) → a ≡ b → (a == b) ≡ true
eq_true a b = (==_iff a b).1

module _ (h : ℕ) (lt : IsU8 h) (out : List ℕ) where
  run_rest :
      (last i : ℕ) (buf c : List ℕ) (cs : List (List ℕ))
      → 1 ≤ i
      → i + length cs ≡ last
      → reassemble_from (out, some buf) (fu_packets h last i (c ∷ cs))
        ≡ (out ++ (start_code ++ (buf ++ concat (c ∷ cs))), none)
  unfolding reassemble_from fu_packets concat
  run_rest last i buf c [] pos e =
      rw (pos_not_zero i pos, eq_true i last (omega arith), step_last h lt out c buf, append-nil c)
        refl
  run_rest last i buf c (c' ∷ cs) pos e =
      rw
        (
          pos_not_zero i pos,
          eq_false i last (omega arith),
          step_middle h lt out c buf,
          run_rest last (i + 1) (buf ++ c) c' cs (omega arith) (omega arith),
          append_assoc buf c (c' ++ concat cs),
        )
        refl

  pub run_nal :
      (last : ℕ) (c : List ℕ) (cs : List (List ℕ)) (accum : Option (List ℕ))
      → last ≡ length cs
      → reassemble_from (out, accum) (fu_packets h last 0 (c ∷ cs))
        ≡ (out ++ (start_code ++ (h ∷ concat (c ∷ cs))), none)
  unfolding reassemble_from fu_packets concat
  run_nal last c [] accum e =
      rw (eq_true 0 last (omega arith), step_only h lt out c accum, append-nil c) refl
  run_nal last c (c' ∷ cs) accum e =
      rw
        (
          eq_false 0 last (omega arith),
          step_first h lt out c accum,
          run_rest last 1 (h ∷ c) c' cs (omega arith) (omega arith),
        )
        refl
