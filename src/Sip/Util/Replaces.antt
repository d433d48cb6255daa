-- ===== src/Sip/Util/Replaces.antt =====
-- `encode_replaces_param` of util.rs: its five passes escape each character once.
use dee_lip.Prelude.{
  ℕ, ◌≡◌, refl, ap, sym, ◌∙◌, true, List, [], ◌∷◌, ◌++◌, append_assoc, ◌==◌, ==_iff, subst,
  Bool-cases, inl, inr, codes, if◌then◌else◌,
}
use dee_lip.Sip.Util.{replace_char, encode_replaces_param}

-- The escape of one character.
abbrev pub escape : ℕ → List ℕ
escape c =
    if c == 0x25
    then codes "%25"
    else if c == 0x3b
    then codes "%3B"
    else if c == 0x3d
    then codes "%3D"
    else if c == 0x2c
    then codes "%2C"
    else if c == 0x40
    then codes "%40"
    else c ∷ []

pub escape_all : List ℕ → List ℕ
escape_all [] = []
escape_all (c ∷ cs) = escape c ++ escape_all cs

replace_char-append :
    (x : ℕ) (by s t : List ℕ)
    → replace_char x by (s ++ t) ≡ replace_char x by s ++ replace_char x by t
unfolding replace_char
replace_char-append x by [] t = refl
replace_char-append x by (c ∷ cs) t =
    ap (λ l. (if c == x then by else c ∷ []) ++ l) (replace_char-append x by cs t)
    ∙ sym
        (append_assoc (if c == x then by else c ∷ []) (replace_char x by cs) (replace_char x by t))

-- A pass goes through a text part by part, and so do passes one after the other.
abbrev Appends : (List ℕ → List ℕ) → Type 0
Appends f = (s t : List ℕ) → f (s ++ t) ≡ f s ++ f t

in_turn : (f g : List ℕ → List ℕ) → Appends f → Appends g → Appends (λ s. g (f s))
in_turn f g hf hg s t = ap g (hf s t) ∙ hg (f s) (f t)

encode-append : Appends encode_replaces_param
unfolding encode_replaces_param
encode-append =
    let p1 = replace_char 0x25 (codes "%25") in
    let p2 : List ℕ → List ℕ = λ s. replace_char 0x3b (codes "%3B") (p1 s) in
    let p3 : List ℕ → List ℕ = λ s. replace_char 0x3d (codes "%3D") (p2 s) in
    let p4 : List ℕ → List ℕ = λ s. replace_char 0x2c (codes "%2C") (p3 s) in
    let a2 : Appends p2 =
      in_turn p1 (replace_char 0x3b (codes "%3B")) (replace_char-append 0x25 _)
        (replace_char-append 0x3b (codes "%3B")) in
    let a3 : Appends p3 =
      in_turn p2 (replace_char 0x3d (codes "%3D")) a2 (replace_char-append 0x3d (codes "%3D")) in
    let a4 : Appends p4 =
      in_turn p3 (replace_char 0x2c (codes "%2C")) a3 (replace_char-append 0x2c (codes "%2C")) in
    in_turn p4 (replace_char 0x40 (codes "%40")) a4 (replace_char-append 0x40 (codes "%40"))

at_char :
    (c n : ℕ)
    → (c == n) ≡ true
    → encode_replaces_param (n ∷ []) ≡ escape n
    → encode_replaces_param (c ∷ []) ≡ escape c
at_char c n h = subst (λ m. encode_replaces_param (m ∷ []) ≡ escape m) (sym ((==_iff c n).0 h))

encode_one : (c : ℕ) → encode_replaces_param (c ∷ []) ≡ escape c
unfolding encode_replaces_param replace_char
encode_one c = elim (Bool-cases (c == 0x25)) [
  | inl h ↦ at_char c 0x25 h refl
  | inr h1 ↦ elim (Bool-cases (c == 0x3b)) [
    | inl h ↦ at_char c 0x3b h refl
    | inr h2 ↦ elim (Bool-cases (c == 0x3d)) [
      | inl h ↦ at_char c 0x3d h refl
      | inr h3 ↦ elim (Bool-cases (c == 0x2c)) [
        | inl h ↦ at_char c 0x2c h refl
        | inr h4 ↦ elim (Bool-cases (c == 0x40)) [
          | inl h ↦ at_char c 0x40 h refl
          | inr h5 ↦ rw (h1, h2, h3, h4, h5) refl
        ]
      ]
    ]
  ]
]

nothing : encode_replaces_param [] ≡ []
unfolding encode_replaces_param replace_char
nothing = refl

-- The five passes are one pass that escapes each of `%`, `;`, `=`, `,` and `@` once: no escape is escaped
-- again.
pub encode_replaces_param-escape_all : (s : List ℕ) → encode_replaces_param s ≡ escape_all s
unfolding escape_all
encode_replaces_param-escape_all [] = nothing
encode_replaces_param-escape_all (c ∷ cs) =
    encode-append (c ∷ []) cs
    ∙ ap (λ l. l ++ encode_replaces_param cs) (encode_one c)
    ∙ ap (λ l. escape c ++ l) (encode_replaces_param-escape_all cs)
