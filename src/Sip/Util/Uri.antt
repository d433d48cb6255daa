-- ===== src/Sip/Util/Uri.antt =====
-- `parse_uri` of util.rs on a value with angle brackets.
use mathlib.Core.Path.{ap₂}
use dee_lip.Prelude.{
  All, IsDigit, ok-ne-panic, append_assoc, length-append, ℕ, suc, ◌+◌, ◌≤◌, ◌<◌, ◌≡◌, ◌↔◌, ◌⊎◌,
  refl, ap, sym, ◌∙◌, true, false, Bool-cases, inl, inr, Option, none, some, List, [], ◌∷◌, ◌++◌,
  length, slice, slice-eq-ok, leb, leb→le, ◌==◌, ok, panic, ◌>>=◌, arith, At, slice-at,
}
use dee_lip.Sip.Util.{one_more, find_char, bracketed, parse_uri}

one_more-some : (o : Option ℕ) (i : ℕ) → one_more o ≡ some i → (k : ℕ) × (o ≡ some k) × (i ≡ suc k)
one_more-some none i e = cc
one_more-some (some k) i e = (k, refl, cc)

find_char-cons :
    (x c : ℕ) (cs : List ℕ) (i : ℕ)
    → find_char x (c ∷ cs) ≡ some i
    → (i ≡ 0) ⊎ ((k : ℕ) × (find_char x cs ≡ some k) × (i ≡ suc k))
unfolding find_char
find_char-cons x c cs i = elim (Bool-cases (c == x)) [
  | inl h ↦ rw h (λ e. inl cc)
  | inr h ↦ rw h (λ e. inr (one_more-some (find_char x cs) i e))
]

find_char-inside : (x : ℕ) (s : List ℕ) (i : ℕ) → find_char x s ≡ some i → i < length s
unfolding find_char
find_char-inside x [] i e = cc
find_char-inside x (c ∷ cs) i e = elim (find_char-cons x c cs i e) [
  | inl h ↦ omega arith
  | inr (k, e', ek) ↦ omega (arith, find_char-inside x cs k e')
]

one_more-none : (o : Option ℕ) → one_more o ≡ none → o ≡ none
one_more-none none e = refl
one_more-none (some n) e = cc

-- Nothing found in the front: the search goes on behind it.
abbrev pub moved : ℕ → Option ℕ → Option ℕ
moved n none = none
moved n (some k) = some (n + k)

moved_one : (n : ℕ) (o : Option ℕ) → one_more (moved n o) ≡ moved (suc n) o
moved_one n none = refl
moved_one n (some k) = ap some (omega arith)

moved_zero : (o : Option ℕ) → o ≡ moved 0 o
moved_zero none = refl
moved_zero (some k) = ap some (omega arith)

pub missing :
    (x c : ℕ) (cs : List ℕ)
    → find_char x (c ∷ cs) ≡ none
    → ((c == x) ≡ false) × (find_char x cs ≡ none)
unfolding find_char
missing x c cs = elim (Bool-cases (c == x)) [
  | inl h ↦ rw h (λ e. cc)
  | inr h ↦ rw h (λ e. (refl, one_more-none (find_char x cs) e))
]

eq_self : (x : ℕ) → (x == x) ≡ true
eq_self x = ground arith

pub find_char-append :
    (x : ℕ) (s t : List ℕ)
    → find_char x s ≡ none
    → find_char x (s ++ t) ≡ moved (length s) (find_char x t)
unfolding find_char
find_char-append x [] t e = moved_zero (find_char x t)
find_char-append x (c ∷ cs) t e =
    let (ne, rest) = missing x c cs e in
    rw ne (ap one_more (find_char-append x cs t rest) ∙ moved_one (length cs) (find_char x t))

pub find_char-here : (x : ℕ) (t : List ℕ) → find_char x (x ∷ t) ≡ some 0
unfolding find_char
find_char-here x t = rw (eq_self x) refl

find_char-past :
    (x c : ℕ) (t : List ℕ) → (c == x) ≡ false → find_char x (c ∷ t) ≡ one_more (find_char x t)
unfolding find_char
find_char-past x c t h = rw h refl

not_le : (a b : ℕ) → leb (a + 1) b ≡ false → b ≤ a
not_le a b h = ground arith

le_test : (a b : ℕ) → b ≤ a → leb (a + 1) b ≡ false
le_test a b h = ground arith

-- The two brackets are there, and the closing one stands first.
abbrev pub IsReversed : List ℕ → Type 0
IsReversed header =
    (i : ℕ) × (j : ℕ) × (find_char 0x3c header ≡ some i)
    × (find_char 0x3e header ≡ some j)
    × (j ≤ i)

slice_aborts : (s : List ℕ) (i j : ℕ) → j ≤ length s → bracketed s (some i) (some j) ≡ panic → j ≤ i
slice_aborts s i j le e = elim (Bool-cases (leb (i + 1) j)) [
  | inl h ↦ absurd (
      ok-ne-panic _ (
        sym (ap (λ o. o >>= λ uri. ok (some uri)) (slice-eq-ok s (i + 1) j (leb→le (i + 1) j h) le))
        ∙ e))
  | inr h ↦ not_le i j h
]

aborts-IsReversed :
    (header : List ℕ) (o q : Option ℕ)
    → find_char 0x3c header ≡ o
    → find_char 0x3e header ≡ q
    → bracketed header o q ≡ panic
    → IsReversed header
aborts-IsReversed header none q eo eq e = cc
aborts-IsReversed header (some i) none eo eq e = cc
aborts-IsReversed header (some i) (some j) eo eq e =
    let lt = find_char-inside 0x3e header j eq in
    (i, j, eo, eq, slice_aborts header i j (omega arith) e)

reversed_aborts : (header : List ℕ) (i j : ℕ) → j ≤ i → bracketed header (some i) (some j) ≡ panic
unfolding slice
reversed_aborts header i j le = rw (le_test i j le) refl

-- `parse_uri` aborts on a header value exactly when the value has both angle brackets and the first
-- closing one stands before the first opening one.
pub parse_uri-panic_iff : (header : List ℕ) → (parse_uri header ≡ panic) ↔ IsReversed header
unfolding parse_uri
parse_uri-panic_iff header = (
  aborts-IsReversed header (find_char 0x3c header) (find_char 0x3e header) refl refl,
  λ r. let (i, j, ei, ej, le) = r in ap₂ (bracketed header) ei ej ∙ reversed_aborts header i j le,
)

-- Of a display name with neither angle bracket, then a URI without a closing one in a pair of
-- brackets, then any parameters, the URI is what `parse_uri` finds.
pub parse_uri-bracketed :
    (name uri parameters : List ℕ)
    → find_char 0x3c name ≡ none
    → find_char 0x3e name ≡ none
    → find_char 0x3e uri ≡ none
    → parse_uri (name ++ (0x3c ∷ (uri ++ (0x3e ∷ parameters)))) ≡ ok (some uri)
unfolding parse_uri
parse_uri-bracketed name uri parameters n1 n2 u =
    let text = name ++ (0x3c ∷ (uri ++ (0x3e ∷ parameters))) in
    let i = length name in
    let j = length name + 1 + length uri in
    let open_at : find_char 0x3c text ≡ some i =
      find_char-append 0x3c name _ n1
      ∙ ap (moved i) (find_char-here 0x3c (uri ++ (0x3e ∷ parameters)))
      ∙ ap some (omega arith) in
    let close_at : find_char 0x3e text ≡ some j =
      find_char-append 0x3e name _ n2
      ∙ ap (moved i) (
          find_char-past 0x3e 0x3c (uri ++ (0x3e ∷ parameters)) refl
          ∙ ap one_more (
              find_char-append 0x3e uri (0x3e ∷ parameters) u
              ∙ ap (moved (length uri)) (find_char-here 0x3e parameters)))
      ∙ ap some (omega arith) in
    let at : At text (i + 1) (uri ++ (0x3e ∷ parameters)) = record {
      before = name ++ (0x3c ∷ []);
      split = sym (append_assoc name (0x3c ∷ []) (uri ++ (0x3e ∷ parameters)));
      width = length-append name (0x3c ∷ []);
    } in
    ap₂ (bracketed text) open_at close_at
    ∙ ap (λ o. o >>= λ found. ok (some found))
        (slice-at uri (0x3e ∷ parameters) (length uri) at refl)

not_found :
    (sep c : ℕ) (cs : List ℕ)
    → (c == sep) ≡ false
    → find_char sep cs ≡ none
    → find_char sep (c ∷ cs) ≡ none
unfolding find_char
not_found sep c cs h e = rw (h, e) refl

-- A character below the digits is not among digits.
pub find_char-digits : (sep : ℕ) (s : List ℕ) → sep < 48 → All IsDigit s → find_char sep s ≡ none
unfolding find_char
find_char-digits sep [] lt w = refl
find_char-digits sep (c ∷ cs) lt w =
    not_found sep c cs (ground (arith, w.0.0)) (find_char-digits sep cs lt w.1)
