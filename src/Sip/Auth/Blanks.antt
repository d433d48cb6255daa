-- ===== src/Sip/Auth/Blanks.antt =====
-- What trimming makes of the parameters of a digest header (wire/auth.rs).
use dee_lip.Prelude.{
  ℕ, ◌≡◌, refl, ap, sym, ◌∙◌, Bool, true, false, none, List, [], ◌∷◌, ◌++◌, All, arith, append-nil,
  ◌==◌, trim, trim_start, trim_end, is_whitespace, is_empty,
}
use dee_lip.Sip.Util.{find_char}
use dee_lip.Sip.Util.Uri.{missing}
use dee_lip.Sip.Auth.{trim_start_char, trim_end_char, trim_matches}
use dee_lip.Sip.Auth.Params.{
  Param, IsParam, IsUnquoted, IsLetter, IsPlain, IsValue, value_then, param_then, others, visible,
  letters-IsPlain, and_false,
}

-- A text that ends in no blank.
abbrev IsTight : List ℕ → Type 0
IsTight s = trim_end s ≡ s

filled : (a b : List ℕ) → is_empty b ≡ false → is_empty (a ++ b) ≡ false
filled [] b h = h
filled (x ∷ a) b h = refl

append-IsTight : (a b : List ℕ) → is_empty b ≡ false → IsTight b → IsTight (a ++ b)
unfolding trim_end
append-IsTight [] b h t = t
append-IsTight (x ∷ a) b h t =
    rw (append-IsTight a b h t, filled a b h, and_false (is_whitespace x)) refl

plain-IsTight : (s : List ℕ) → All IsPlain s → IsTight s
unfolding trim_end
plain-IsTight [] h = refl
plain-IsTight (c ∷ cs) h = rw (visible c h.0.0 h.0.1, plain-IsTight cs h.1) refl

mark-IsTight : IsTight (0x22 ∷ [])
unfolding trim_end is_whitespace
mark-IsTight = refl

equals-IsTight : (s : List ℕ) → IsTight s → IsTight (0x3d ∷ s)
unfolding trim_end is_whitespace
equals-IsTight s t = ap (λ l. 0x3d ∷ l) t

value-IsTight : (q : Bool) (v : List ℕ) → IsValue q v → IsTight (value_then q v [])
value-IsTight true v h = append-IsTight (0x22 ∷ v) (0x22 ∷ []) refl mark-IsTight
value-IsTight false v h = rw (append-nil v) (plain-IsTight v h)

value_then-IsTight :
    (q : Bool) (v rest : List ℕ)
    → is_empty rest ≡ false
    → IsTight rest
    → IsTight (value_then q v rest)
value_then-IsTight true v rest h t =
    append-IsTight (0x22 ∷ v) (0x22 ∷ rest) refl (append-IsTight (0x22 ∷ []) rest h t)
value_then-IsTight false v rest h t = append-IsTight v rest h t

pub params-IsTight :
    (p : Param) (ps : List Param)
    → IsParam p
    → All IsParam ps
    → trim_end (param_then p (others ps)) ≡ param_then p (others ps)
unfolding others
params-IsTight p [] g gs =
    append-IsTight p.name _ refl (equals-IsTight _ (value-IsTight p.quoted p.value g.valued))
params-IsTight p (q ∷ ps) g gs = append-IsTight p.name _ refl (
    equals-IsTight _ (
      value_then-IsTight p.quoted p.value (others (q ∷ ps)) refl (
        append-IsTight (0x2c ∷ 0x20 ∷ []) (param_then q (others ps)) (filled q.name _ refl)
          (params-IsTight q ps gs.0 gs.1))))

starts :
    (name t : List ℕ)
    → is_empty name ≡ false
    → All IsLetter name
    → trim_start (name ++ t) ≡ name ++ t
unfolding trim_start
starts [] t h l = cc
starts (c ∷ cs) t h l = rw (visible c (omega (arith, l.0.0)) (omega (arith, l.0.1))) refl

pub trim-params :
    (p : Param) (ps : List Param)
    → IsParam p
    → All IsParam ps
    → trim (param_then p (others ps)) ≡ param_then p (others ps)
trim-params p ps g gs = ap trim_end (starts p.name _ g.named g.letters) ∙ params-IsTight p ps g gs

pub trim-name : (p : Param) → IsParam p → trim p.name ≡ p.name
trim-name p g =
    ap trim_end (
      ap trim_start (sym (append-nil p.name))
      ∙ starts p.name [] g.named g.letters
      ∙ append-nil p.name)
    ∙ plain-IsTight p.name (letters-IsPlain p.name g.letters)

trim_end_char-last : (s : List ℕ) → IsUnquoted s → trim_end_char 0x22 (s ++ (0x22 ∷ [])) ≡ s
unfolding trim_end_char
trim_end_char-last [] h = refl
trim_end_char-last (c ∷ []) h = rw ((missing 0x22 c [] h).0) refl
trim_end_char-last (c ∷ d ∷ ds) h =
    rw (trim_end_char-last (d ∷ ds) (missing 0x22 c (d ∷ ds) h).1) refl

trim_matches-quoted :
    (s : List ℕ) → IsUnquoted s → trim_matches 0x22 (0x22 ∷ (s ++ (0x22 ∷ []))) ≡ s
unfolding trim_matches trim_start_char trim_end_char
trim_matches-quoted [] h = refl
trim_matches-quoted (c ∷ cs) h = rw ((missing 0x22 c cs h).0) (trim_end_char-last (c ∷ cs) h)

trim_end_char-plain : (s : List ℕ) → All IsPlain s → trim_end_char 0x22 s ≡ s
unfolding trim_end_char
trim_end_char-plain [] h = refl
trim_end_char-plain (c ∷ []) h = rw (h.0.2) refl
trim_end_char-plain (c ∷ d ∷ ds) h = rw (trim_end_char-plain (d ∷ ds) h.1) refl

trim_matches-plain : (s : List ℕ) → All IsPlain s → trim_matches 0x22 s ≡ s
unfolding trim_matches trim_start_char
trim_matches-plain [] h = trim_end_char-plain [] tt
trim_matches-plain (c ∷ cs) h = rw (h.0.2) (trim_end_char-plain (c ∷ cs) h)

trim-plain : (s : List ℕ) → All IsPlain s → trim s ≡ s
unfolding trim_start
trim-plain [] h = plain-IsTight [] tt
trim-plain (c ∷ cs) h = rw (visible c h.0.0 h.0.1) (plain-IsTight (c ∷ cs) h)

pub trim_matches-value :
    (q : Bool) (v : List ℕ) → IsValue q v → trim_matches 0x22 (trim (value_then q v [])) ≡ v
unfolding trim_start is_whitespace
trim_matches-value true v h =
    ap (trim_matches 0x22) (value-IsTight true v h) ∙ trim_matches-quoted v h
trim_matches-value false v h =
    rw (append-nil v) (ap (trim_matches 0x22) (trim-plain v h) ∙ trim_matches-plain v h)

pub find_char-letters : (s : List ℕ) → All IsLetter s → find_char 0x3d s ≡ none
unfolding find_char
find_char-letters [] h = refl
find_char-letters (c ∷ cs) h = rw (no_equals c h.0, find_char-letters cs h.1) refl
  where
    no_equals : (c : ℕ) → IsLetter c → (c == 0x3d) ≡ false
    no_equals c h = ground arith
