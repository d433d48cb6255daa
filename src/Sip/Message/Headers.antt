-- ===== src/Sip/Message/Headers.antt =====
-- The loop of `parse` of message.rs over header lines and body lines.
use mathlib.Core.List.{map}
use dee_lip.Prelude.{
  ℕ, ◌+◌, ◌≡◌, refl, ap, sym, subst, ◌∙◌, Bool, true, false, none, some, List, [], ◌∷◌, ◌++◌,
  append_assoc, append-nil, length, take, drop, take-append_exact, drop-append_exact, length-append,
  arith, trim, trim_start, is_whitespace, All, if◌then◌else◌,
}
use dee_lip.Sip.Util.{find_char}
use dee_lip.Sip.Util.Uri.{find_char-append, find_char-here, moved}
use dee_lip.Sip.Message.{Reading, is_folded, header_line, with_header, read_line, read_lines}

-- A header as it is sent.
abbrev pub header_text : List ℕ × List ℕ → List ℕ
header_text h = h.0 ++ (0x3a ∷ 0x20 ∷ h.1)

-- A name that is not empty, does not begin with a blank and has no colon, and no blanks around the name or
-- the value.
pub record IsHeader (h : List ℕ × List ℕ) : Type 0 where
  pub first : ℕ
  pub others : List ℕ
  pub name : h.0 ≡ first ∷ others
  pub unfolded : is_folded first ≡ false
  pub no_colon : find_char 0x3a h.0 ≡ none
  pub name_trimmed : trim h.0 ≡ h.0
  pub value_trimmed : trim h.1 ≡ h.1

pub IsHeader-of :
    (first : ℕ) (others value : List ℕ)
    → is_folded first ≡ false
    → find_char 0x3a (first ∷ others) ≡ none
    → trim (first ∷ others) ≡ first ∷ others
    → trim value ≡ value
    → IsHeader (first ∷ others, value)
IsHeader-of first others value unfolded no_colon name_trimmed value_trimmed = record {
  first = first;
  others = others;
  name = refl;
  unfolded = unfolded;
  no_colon = no_colon;
  name_trimmed = name_trimmed;
  value_trimmed = value_trimmed;
}

trim_space : (s : List ℕ) → trim (0x20 ∷ s) ≡ trim s
unfolding trim_start is_whitespace
trim_space s = refl

module _ (h : List ℕ × List ℕ) (w : IsHeader h) (r : Reading) where
  colon_at : find_char 0x3a (header_text h) ≡ some (length h.0)
  colon_at =
      find_char-append 0x3a h.0 (0x3a ∷ 0x20 ∷ h.1) w.no_colon
      ∙ ap (moved (length h.0)) (find_char-here 0x3a (0x20 ∷ h.1))
      ∙ ap some (omega arith)

  name_part : trim (take (length h.0) (header_text h)) ≡ h.0
  name_part = ap trim (take-append_exact h.0 (0x3a ∷ 0x20 ∷ h.1) (length h.0) refl) ∙ w.name_trimmed

  value_part : trim (drop (length h.0 + 1) (header_text h)) ≡ h.1
  value_part =
      ap (λ s. trim (drop (length h.0 + 1) s)) (sym (append_assoc h.0 (0x3a ∷ []) (0x20 ∷ h.1)))
      ∙ ap trim (
          drop-append_exact (h.0 ++ (0x3a ∷ [])) (0x20 ∷ h.1) (length h.0 + 1)
            (length-append h.0 (0x3a ∷ [])))
      ∙ trim_space h.1
      ∙ w.value_trimmed

  added :
      with_header (some (length h.0)) (header_text h) r
      ≡ record r { headers = r.headers ++ (h ∷ []) }
  added = rw (name_part, value_part) refl

header_line-first :
    (n v : List ℕ) (r : Reading) (first : ℕ) (others : List ℕ)
    → n ≡ first ∷ others
    → is_folded first ≡ false
    → header_line (n ++ v) r ≡ with_header (find_char 0x3a (n ++ v)) (n ++ v) r
header_line-first n v r first others e f =
    subst (λ m. header_line (m ++ v) r ≡ with_header (find_char 0x3a (m ++ v)) (m ++ v) r) (sym e)
      (rw f refl)

abbrev either_line : Bool → List ℕ → Reading → Reading
either_line b line r =
    if b then record r { body_parts = r.body_parts ++ (line ∷ []) } else header_line line r

read_line-header :
    (h : List ℕ × List ℕ) (r : Reading)
    → IsHeader h
    → r.in_body ≡ false
    → read_line (header_text h) r ≡ record r { headers = r.headers ++ (h ∷ []) }
unfolding read_line
read_line-header h r w out =
    ap (λ b. either_line b (header_text h) r) out
    ∙ header_line-first h.0 (0x3a ∷ 0x20 ∷ h.1) r w.first w.others w.name w.unfolded
    ∙ ap (λ o. with_header o (header_text h) r) (colon_at h w r)
    ∙ added h w r

-- The header lines of a message are read back.
pub read_lines-headers :
    (hs : List (List ℕ × List ℕ)) (rest : List (List ℕ)) (r : Reading)
    → All IsHeader hs
    → r.in_body ≡ false
    → read_lines (map header_text hs ++ rest) r
      ≡ read_lines rest (record r { headers = r.headers ++ hs })
unfolding read_lines
read_lines-headers [] rest r w out =
    ap (λ l. read_lines rest (record r { headers = l })) (sym (append-nil r.headers))
read_lines-headers (h ∷ hs) rest r w out =
    ap (λ q. read_lines (map header_text hs ++ rest) q) (read_line-header h r w.0 out)
    ∙ read_lines-headers hs rest (record r { headers = r.headers ++ (h ∷ []) }) w.1 out
    ∙ ap (λ l. read_lines rest (record r { headers = l })) (append_assoc r.headers (h ∷ []) hs)

read_line-body :
    (line : List ℕ) (r : Reading)
    → r.in_body ≡ true
    → read_line line r ≡ record r { body_parts = r.body_parts ++ (line ∷ []) }
unfolding read_line
read_line-body line r inside = ap (λ b. either_line b line r) inside

-- Behind the empty line every line belongs to the body.
pub read_lines-body :
    (parts : List (List ℕ)) (r : Reading)
    → r.in_body ≡ true
    → read_lines parts r ≡ record r { body_parts = r.body_parts ++ parts }
unfolding read_lines
read_lines-body [] r inside = ap (λ l. record r { body_parts = l }) (sym (append-nil r.body_parts))
read_lines-body (line ∷ parts) r inside =
    ap (λ q. read_lines parts q) (read_line-body line r inside)
    ∙ read_lines-body parts (record r { body_parts = r.body_parts ++ (line ∷ []) }) inside
    ∙ ap (λ l. record r { body_parts = l }) (append_assoc r.body_parts (line ∷ []) parts)
