-- ===== src/Media/VideoRtp/RoundTrip.antt =====
-- `reassemble_nal_units` after `fragment_nal_units`.
use Prim.Native.Nat.{bit_and, max}
use dee_lip.Prelude.{
  ℕ, zero, suc, ◌+◌, ◌-◌, ◌≤◌, ◌≡◌, refl, ap, sym, ◌∙◌, ◌≢◌, true, false, none, List, [], ◌∷◌, ◌++◌,
  append_assoc, append-nil, length, take, drop, leb, ◌==◌, length-take, leb→le, All-append,
  Bool-cases, inl, inr, All, IsU8, AreBytes, ok, arith,
}
use dee_lip.Media.VideoRtp.{
  fu_a_type, start_code, chunks_of, fu_packets, packets_of, fragment_all, fragment_nal_units,
  split_nal_units, Reassembly, reassemble_step, reassemble_from, reassemble_nal_units,
}
use dee_lip.Media.VideoRtp.Units.{split_nal_units-AreBytes}
use dee_lip.Media.VideoRtp.Fragments.{concat, concat-chunks_of, reassemble_from-append, run_nal}

-- A NAL unit that is not itself of the FU-A type; the others would be taken for fragments.
unfoldable pub IsPlain : List ℕ → Type 0
IsPlain [] = Unit {0}
IsPlain (h ∷ _) = bit_and h 0x1f ≢ fu_a_type

-- The units, each behind a four-byte start code.
pub annex_b_of : List (List ℕ) → List ℕ
annex_b_of [] = []
annex_b_of ([] ∷ nals) = annex_b_of nals
annex_b_of ((h ∷ t) ∷ nals) = start_code ++ ((h ∷ t) ++ annex_b_of nals)

eq_ne : (a b : ℕ) → a ≢ b → (a == b) ≡ false
eq_ne a b h = ground arith

step_plain :
    (st : Reassembly) (h : ℕ) (t : List ℕ)
    → bit_and h 0x1f ≢ fu_a_type
    → reassemble_step st (h ∷ t) ≡ (st.0 ++ (start_code ++ (h ∷ t)), st.1)
unfolding reassemble_step
step_plain st h [] ne = rw (eq_ne (bit_and h 0x1f) fu_a_type ne)
step_plain st h (b ∷ t) ne = rw (eq_ne (bit_and h 0x1f) fu_a_type ne)

fu_packets-bound :
    (h size last i mtu : ℕ) (chunks : List (List ℕ))
    → All (λ c. length c ≤ size) chunks
    → size + 2 ≤ max mtu 3
    → All (λ p. length p ≤ max mtu 3) (fu_packets h last i chunks)
unfolding fu_packets
fu_packets-bound h size last i mtu [] hs le = tt
fu_packets-bound h size last i mtu (c ∷ cs) hs le =
    (omega (arith, hs.0), fu_packets-bound h size last (i + 1) mtu cs hs.1 le)

chunks_of-bound :
    (fuel size : ℕ) (xs : List ℕ) → All (λ c. length c ≤ size) (chunks_of fuel size xs)
unfolding chunks_of
chunks_of-bound fuel size [] = tt
chunks_of-bound zero size (x ∷ xs) = tt
chunks_of-bound (suc fuel) size (x ∷ xs) =
    (omega (arith, length-take size (x ∷ xs)), chunks_of-bound fuel size (drop size (x ∷ xs)))

fits_whole : (n mtu : ℕ) → leb n mtu ≡ true → n ≤ max mtu 3
fits_whole n mtu h = omega (arith, leb→le n mtu h)

-- The packets of one unit exist, and running them appends the unit.
Fragments : ℕ → List ℕ → Type 0
Fragments mtu nal =
    (ps : List (List ℕ)) × (packets_of mtu nal ≡ ok ps)
    × ((out : List ℕ) → reassemble_from (out, none) ps ≡ (out ++ annex_b_of (nal ∷ []), none))
    × All (λ p. length p ≤ max mtu 3) ps

le→leb : (a b : ℕ) → a ≤ b → leb a b ≡ true
le→leb a b h = ground arith

split_up :
    (mtu h b : ℕ) (t : List ℕ)
    → 2 ≤ mtu
    → leb (length (h ∷ b ∷ t)) mtu ≡ false
    → IsU8 h
    → Fragments mtu (h ∷ b ∷ t)
unfolding Fragments packets_of chunks_of reassemble_from annex_b_of
split_up mtu h b t le e lt =
    let size = max (mtu - 2) 1 in
    let rest = chunks_of (length t) size (drop size (b ∷ t)) in
    let whole : concat (chunks_of (suc (length t)) size (b ∷ t)) ≡ b ∷ t =
      concat-chunks_of (suc (length t)) size (b ∷ t) (omega arith) (omega arith) in
    (
      fu_packets h (suc (length rest) - 1) 0 (take size (b ∷ t) ∷ rest),
      rw (e, le→leb 2 mtu le, le→leb 1 (suc (length rest)) (omega arith)) refl,
      λ out.
          run_nal h lt out (suc (length rest) - 1) (take size (b ∷ t)) rest none (omega arith)
          ∙ ap (λ l. (out ++ (start_code ++ (h ∷ l)), none)) (whole ∙ sym (append-nil (b ∷ t))),
      fu_packets-bound h size (suc (length rest) - 1) 0 mtu (take size (b ∷ t) ∷ rest)
          (chunks_of-bound (suc (length t)) size (b ∷ t)) (omega arith),
    )

longer :
    (mtu h : ℕ) (t : List ℕ)
    → 2 ≤ mtu
    → leb (length (h ∷ t)) mtu ≡ false
    → IsU8 h
    → Fragments mtu (h ∷ t)
longer mtu h [] le e lt = absurd (ground arith)
longer mtu h (b ∷ t) le e lt = split_up mtu h b t le e lt

one_unit : (mtu : ℕ) (nal : List ℕ) → 2 ≤ mtu → AreBytes nal → IsPlain nal → Fragments mtu nal
unfolding Fragments packets_of reassemble_from annex_b_of IsPlain
one_unit mtu [] le bs plain = ([], refl, λ out. ap (λ l. (l, none)) (sym (append-nil out)), tt)
one_unit mtu (h ∷ t) le bs plain = elim (Bool-cases (leb (length (h ∷ t)) mtu)) [
  | inl e ↦ (
    (h ∷ t) ∷ [],
    rw e,
    λ out.
        step_plain (out, none) h t plain
        ∙ ap (λ l. (out ++ (start_code ++ l), none)) (sym (append-nil (h ∷ t))),
    (fits_whole (length (h ∷ t)) mtu e, tt),
  )
  | inr e ↦ longer mtu h t le e bs.0
]

annex_b_of-cons :
    (nal : List ℕ) (nals : List (List ℕ))
    → annex_b_of (nal ∷ nals) ≡ annex_b_of (nal ∷ []) ++ annex_b_of nals
unfolding annex_b_of
annex_b_of-cons [] nals = refl
annex_b_of-cons (h ∷ t) nals =
    ap (λ l. start_code ++ ((h ∷ l) ++ annex_b_of nals)) (sym (append-nil t))

each_unit :
    (mtu : ℕ) (nals : List (List ℕ))
    → 2 ≤ mtu
    → All AreBytes nals
    → All IsPlain nals
    → (ps : List (List ℕ)) × (fragment_all mtu nals ≡ ok ps)
      × ((out : List ℕ) → reassemble_from (out, none) ps ≡ (out ++ annex_b_of nals, none))
      × All (λ p. length p ≤ max mtu 3) ps
unfolding fragment_all reassemble_from Fragments annex_b_of
each_unit mtu [] le bs plain = ([], refl, λ out. ap (λ l. (l, none)) (sym (append-nil out)), tt)
each_unit mtu (nal ∷ nals) le bs plain =
    let (ps, made, run, fit) = one_unit mtu nal le bs.0 plain.0 in
    let (qs, made', run', fit') = each_unit mtu nals le bs.1 plain.1 in
    (
      ps ++ qs,
      rw (made, made') refl,
      λ out.
          reassemble_from-append (out, none) ps qs
          ∙ ap (λ st. reassemble_from st qs) (run out)
          ∙ run' (out ++ annex_b_of (nal ∷ []))
          ∙ ap (λ l. (l, none))
              (append_assoc out (annex_b_of (nal ∷ [])) (annex_b_of nals)
                ∙ ap (λ l. out ++ l) (sym (annex_b_of-cons nal nals))),
      All-append (λ p. length p ≤ max mtu 3) ps qs fit fit',
    )

-- With an MTU of two bytes or more, the bytes of a stream, none of whose NAL units is itself of type
-- FU-A, are cut into payloads without an abort; each payload is at most the MTU (three bytes, for an
-- MTU of two), and reassembling the payloads gives back the stream's NAL units in order, each behind a
-- four-byte start code.
pub reassemble_nal_units-fragment_nal_units :
    (annex_b : List ℕ) (mtu : ℕ)
    → 2 ≤ mtu
    → AreBytes annex_b
    → All IsPlain (split_nal_units annex_b)
    → (ps : List (List ℕ)) × (fragment_nal_units annex_b mtu ≡ ok ps)
      × All (λ p. length p ≤ max mtu 3) ps
      × (reassemble_nal_units ps ≡ annex_b_of (split_nal_units annex_b))
unfolding fragment_nal_units reassemble_nal_units
reassemble_nal_units-fragment_nal_units annex_b mtu le bs plain =
    let (ps, made, run, fit) =
      each_unit mtu (split_nal_units annex_b) le (split_nal_units-AreBytes annex_b bs) plain in
    (ps, made, fit, ap (λ r. r.0) (run []))
