-- ===== src/Sip/Message/Lines.antt =====
-- The lines of a message: cutting at line ends and joining again.
use mathlib.Core.Path.{ap₂}
use dee_lip.Prelude.{
  ℕ, ◌≡◌, refl, ap, sym, ◌∙◌, true, false, Bool-cases, inl, inr, none, List, [], ◌∷◌, ◌++◌, ◌==◌,
  ==_iff, arith,
}
use dee_lip.Sip.Framing.{starts_crlf, onto_first, split_crlf}
use dee_lip.Sip.Util.{find_char}
use dee_lip.Sip.Util.Uri.{missing}
use dee_lip.Sip.Message.{join_crlf}

abbrev pub crlf : List ℕ
crlf = 13 ∷ 10 ∷ []

not_at : (c : ℕ) (cs : List ℕ) → (c == 13) ≡ false → starts_crlf (c ∷ cs) ≡ false
not_at c [] h = refl
not_at c (d ∷ cs) h = rw h

-- A line with no carriage return is cut off whole.
pub split_crlf-line :
    (line rest : List ℕ)
    → find_char 13 line ≡ none
    → split_crlf false (line ++ (13 ∷ 10 ∷ rest)) ≡ line ∷ split_crlf false rest
unfolding split_crlf
split_crlf-line [] rest h = refl
split_crlf-line (c ∷ cs) rest h =
    let (ne, later) = missing 13 c cs h in
    rw (not_at c (cs ++ (13 ∷ 10 ∷ rest)) ne, split_crlf-line cs rest later)

-- The pieces of a cut are never none.
data Pieces (s : List ℕ) : Type 0 where
  pieces : (l : List ℕ) (ls : List (List ℕ)) → split_crlf false s ≡ l ∷ ls → Pieces s

starts_twice : (c d : ℕ) (cs : List ℕ) → starts_crlf (c ∷ d ∷ cs) ≡ true → (c ≡ 13) × (d ≡ 10)
starts_twice c d cs h = ground (arith, ==_iff c 13, ==_iff d 10)

cut_pieces : (s : List ℕ) → Pieces s
unfolding split_crlf
cut_pieces [] = pieces [] [] refl
cut_pieces (c ∷ cs) = elim (Bool-cases (starts_crlf (c ∷ cs))) [
  | inl h ↦ pieces [] (split_crlf true cs) (rw h refl)
  | inr h ↦ elim (cut_pieces cs) [ pieces l ls e ↦ pieces (c ∷ l) ls (rw (h, e) refl) ]
]

join-onto_first :
    (c : ℕ) (s : List ℕ)
    → Pieces s
    → join_crlf (onto_first c (split_crlf false s)) ≡ c ∷ join_crlf (split_crlf false s)
unfolding join_crlf
join-onto_first c s (pieces l [] e) = rw e refl
join-onto_first c s (pieces l (m ∷ ls) e) = rw e refl

join-empty :
    (s : List ℕ)
    → Pieces s
    → join_crlf ([] ∷ split_crlf false s) ≡ 13 ∷ 10 ∷ join_crlf (split_crlf false s)
unfolding join_crlf
join-empty s (pieces l ls e) = rw e refl

-- A text is its pieces, joined.
pub join_crlf-split_crlf : (s : List ℕ) → join_crlf (split_crlf false s) ≡ s
unfolding split_crlf join_crlf
join_crlf-split_crlf [] = refl
join_crlf-split_crlf (c ∷ []) = refl
join_crlf-split_crlf (c ∷ d ∷ cs) = elim (Bool-cases (starts_crlf (c ∷ d ∷ cs))) [
  | inl h ↦
      let (ec, ed) = starts_twice c d cs h in
      rw h (
        join-empty cs (cut_pieces cs)
        ∙ ap (λ l. 13 ∷ 10 ∷ l) (join_crlf-split_crlf cs)
        ∙ ap₂ (λ x y. x ∷ y ∷ cs) (sym ec) (sym ed))
  | inr h ↦ rw h (
      join-onto_first c (d ∷ cs) (cut_pieces (d ∷ cs))
      ∙ ap (λ l. c ∷ l) (join_crlf-split_crlf (d ∷ cs)))
]
