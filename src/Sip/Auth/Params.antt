-- ===== src/Sip/Auth/Params.antt =====
-- The parameters of a digest header, and how the code of wire/auth.rs takes them apart.
use dee_lip.Prelude.{
  ℕ, ◌<◌, ◌≡◌, refl, ap, sym, ◌∙◌, Bool, true, false, ◌&&◌, none, List, [], ◌∷◌, ◌++◌, All, arith,
  append-nil, ◌==◌, is_whitespace, is_empty,
}
use dee_lip.Sip.Framing.{onto_first}
use dee_lip.Sip.Util.{find_char}
use dee_lip.Sip.Util.Uri.{missing}
use dee_lip.Sip.Auth.{split_pairs}

pub record Param : Type 0 where
  pub name : List ℕ
  pub value : List ℕ
  pub quoted : Bool

-- The texts of a value and of a parameter, before some other text.
abbrev pub value_then : Bool → List ℕ → List ℕ → List ℕ
value_then true v rest = 0x22 ∷ (v ++ (0x22 ∷ rest))
value_then false v rest = v ++ rest

abbrev pub param_then : Param → List ℕ → List ℕ
param_then p rest = p.name ++ (0x3d ∷ value_then p.quoted p.value rest)

-- Further parameters, each behind a comma and a blank.
unfoldable pub others : List Param → List ℕ
others [] = []
others (p ∷ ps) = 0x2c ∷ 0x20 ∷ param_then p (others ps)

abbrev pub IsUnquoted : List ℕ → Type 0
IsUnquoted s = find_char 0x22 s ≡ none

-- From `A` to `z`.
abbrev pub IsLetter : ℕ → Type 0
IsLetter c = (0x40 < c) × (c < 0x7b)

-- A visible ASCII character other than a quotation mark and a comma.
abbrev pub IsPlain : ℕ → Type 0
IsPlain c = (0x20 < c) × (c < 0x7f) × ((c == 0x22) ≡ false) × ((c == 0x2c) ≡ false)

abbrev pub IsValue : Bool → List ℕ → Type 0
IsValue true v = IsUnquoted v
IsValue false v = All IsPlain v

-- A name of letters; a value in quotation marks without one inside, or a plain one.
pub record IsParam (p : Param) : Type 0 where
  pub named : is_empty p.name ≡ false
  pub letters : All IsLetter p.name
  pub valued : IsValue p.quoted p.value

pub and_false : (b : Bool) → b && false ≡ false
and_false true = refl
and_false false = refl

pub visible : (c : ℕ) → 0x20 < c → c < 0x7f → is_whitespace c ≡ false
unfolding is_whitespace
visible c lo hi = ground arith

letter-IsPlain : (c : ℕ) → IsLetter c → IsPlain c
letter-IsPlain c h = (omega arith, omega arith, ground arith, ground arith)

pub letters-IsPlain : (s : List ℕ) → All IsLetter s → All IsPlain s
letters-IsPlain [] h = tt
letters-IsPlain (c ∷ cs) h = (letter-IsPlain c h.0, letters-IsPlain cs h.1)

-- Characters before the first piece.
unfoldable onto_all : List ℕ → List (List ℕ) → List (List ℕ)
onto_all [] l = l
onto_all (c ∷ cs) l = onto_first c (onto_all cs l)

onto_all-piece : (s l : List ℕ) (ls : List (List ℕ)) → onto_all s (l ∷ ls) ≡ (s ++ l) ∷ ls
unfolding onto_all
onto_all-piece [] l ls = refl
onto_all-piece (c ∷ cs) l ls = rw (onto_all-piece cs l ls) refl

onto_all-append :
    (s t : List ℕ) (l : List (List ℕ)) → onto_all (s ++ t) l ≡ onto_all s (onto_all t l)
unfolding onto_all
onto_all-append [] t l = refl
onto_all-append (c ∷ cs) t l = rw (onto_all-append cs t l) refl

split_pairs-quoted :
    (s rest : List ℕ)
    → IsUnquoted s
    → split_pairs true (s ++ (0x22 ∷ rest)) ≡ onto_all (s ++ (0x22 ∷ [])) (split_pairs false rest)
unfolding split_pairs onto_all
split_pairs-quoted [] rest h = refl
split_pairs-quoted (c ∷ cs) rest h =
    let (ne, later) = missing 0x22 c cs h in
    rw (ne, and_false (c == 0x2c), split_pairs-quoted cs rest later) refl

split_pairs-plain :
    (s rest : List ℕ)
    → All IsPlain s
    → split_pairs false (s ++ rest) ≡ onto_all s (split_pairs false rest)
unfolding split_pairs onto_all
split_pairs-plain [] rest h = refl
split_pairs-plain (c ∷ cs) rest h = rw (h.0.2, h.0.3, split_pairs-plain cs rest h.1) refl

split_pairs-value :
    (q : Bool) (v rest : List ℕ)
    → IsValue q v
    → split_pairs false (value_then q v rest)
      ≡ onto_all (value_then q v []) (split_pairs false rest)
unfolding split_pairs onto_all
split_pairs-value true v rest h = ap (onto_first 0x22) (split_pairs-quoted v rest h)
split_pairs-value false v rest h =
    split_pairs-plain v rest h ∙ ap (λ t. onto_all t (split_pairs false rest)) (sym (append-nil v))

split_pairs-param :
    (p : Param) (rest : List ℕ)
    → IsParam p
    → split_pairs false (param_then p rest) ≡ onto_all (param_then p []) (split_pairs false rest)
unfolding split_pairs onto_all
split_pairs-param p rest g =
    split_pairs-plain p.name (0x3d ∷ value_then p.quoted p.value rest)
      (letters-IsPlain p.name g.letters)
    ∙ ap (λ l. onto_all p.name (onto_first 0x3d l))
        (split_pairs-value p.quoted p.value rest g.valued)
    ∙ sym (onto_all-append p.name (0x3d ∷ value_then p.quoted p.value []) (split_pairs false rest))

-- The pieces of the parameters that follow the first one.
unfoldable pub pieces : List Param → List (List ℕ)
pieces [] = []
pieces (p ∷ ps) = (0x20 ∷ param_then p []) ∷ pieces ps

pub split_pairs-params :
    (p : Param) (ps : List Param)
    → IsParam p
    → All IsParam ps
    → split_pairs false (param_then p (others ps)) ≡ param_then p [] ∷ pieces ps
unfolding split_pairs others pieces
split_pairs-params p [] g gs =
    split_pairs-param p [] g
    ∙ onto_all-piece (param_then p []) [] []
    ∙ ap (λ l. l ∷ []) (append-nil (param_then p []))
split_pairs-params p (q ∷ ps) g gs =
    split_pairs-param p (others (q ∷ ps)) g
    ∙ ap (λ l. onto_all (param_then p []) ([] ∷ onto_first 0x20 l))
        (split_pairs-params q ps gs.0 gs.1)
    ∙ onto_all-piece (param_then p []) [] (pieces (q ∷ ps))
    ∙ ap (λ l. l ∷ pieces (q ∷ ps)) (append-nil (param_then p []))
