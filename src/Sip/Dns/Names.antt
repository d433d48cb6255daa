-- ===== src/Sip/Dns/Names.antt =====
-- Names of wire/dns.rs: what is encoded is decoded again, and the walk over a name ends.
use mathlib.Core.Path.{ap₂, fun_ext}
use dee_lip.Prelude.{
  ℕ, zero, suc, ◌+◌, ◌/◌, ◌≤◌, ◌<◌, ◌≡◌, refl, ap, sym, ◌∙◌, true, false, Option, none, some, List,
  [], ◌∷◌, ◌++◌, append_assoc, append-nil, length, length-append, get_elem?, take, drop,
  take-append_exact, drop-append_exact, leb, ◌==◌, u8, range_of, All, arith, IsAscii,
  from_utf8_lossy, from_utf8_lossy-ascii,
}
use dee_lip.Sip.Message.{into_bytes}
use dee_lip.Sip.Message.RoundTrip.{into_bytes-ascii}
use dee_lip.Sip.Dns.{
  Piece, broken, root, pointer, label, piece_of, labels_of, encode_labels, encode_name,
  decode_labels, decode_name, join_dots, joined, end_or, over, skip_from, skip_name,
}

-- A label of 1 to 63 ASCII characters.
pub record IsLabel (l : List ℕ) : Type 0 where
  pub ascii : IsAscii l
  pub some_text : 0 < length l
  pub short : length l < 64

get_elem?-append :
    (xs ys : List ℕ) (y n : ℕ) → length xs ≡ n → get_elem? (xs ++ (y ∷ ys)) n ≡ some y
get_elem?-append [] ys y n e = ap (get_elem? (y ∷ ys)) (sym e)
get_elem?-append (x ∷ xs) ys y zero e = absurd (omega arith)
get_elem?-append (x ∷ xs) ys y (suc n) e = get_elem?-append xs ys y n (omega arith)

length_byte : (n : ℕ) → n < 64 → u8 n ≡ n
length_byte n h = omega arith

not_end : (n : ℕ) → 0 < n → (n == 0) ≡ false
not_end n h = ground arith

no_pointer : (n : ℕ) → n < 64 → (n / 64 == 3) ≡ false
no_pointer n h = ground arith

inside : (n m : ℕ) → n ≤ m → leb n m ≡ true
inside n m h = ground arith

module _ (before l rest : List ℕ) (pos : ℕ) (at : length before ≡ pos) where
  abbrev labelled : List ℕ
  labelled = before ++ (length l ∷ (l ++ rest))

  moved_before : labelled ≡ (before ++ (length l ∷ [])) ++ (l ++ rest)
  moved_before = sym (append_assoc before (length l ∷ []) (l ++ rest))

  text_at : range_of labelled (pos + 1) (pos + 1 + length l) ≡ l
  text_at =
      ap (λ k. take k (drop (pos + 1) labelled)) (omega arith)
      ∙ ap (λ b. take (length l) (drop (pos + 1) b)) moved_before
      ∙ ap (take (length l)) (
          drop-append_exact (before ++ (length l ∷ [])) (l ++ rest) (pos + 1)
            (omega (arith, length-append before (length l ∷ []))))
      ∙ take-append_exact l rest (length l) refl

  fits : pos + 1 + length l ≤ length labelled
  fits = omega (arith, length-append before (length l ∷ (l ++ rest)), length-append l rest)

  piece-label :
      0 < length l
      → length l < 64
      → piece_of labelled pos (get_elem? labelled pos) ≡ label l (pos + 1 + length l)
  piece-label some_text short =
      rw
        (
          get_elem?-append before (l ++ rest) (length l) pos at,
          not_end (length l) some_text,
          no_pointer (length l) short,
          inside (pos + 1 + length l) (length labelled) fits,
        )
        (ap (λ t. label t (pos + 1 + length l)) text_at)

module _ (hops : ℕ) (buf : List ℕ) (cur : ℕ) (e : Option ℕ) (acc : List (List ℕ)) where
  step :
      (p : Piece)
      → piece_of buf cur (get_elem? buf cur) ≡ p
      → decode_labels (suc hops) buf cur e acc ≡ elim p as (λ q. Option (List (List ℕ) × ℕ)) [
        | broken ↦ none
        | root ↦ some (acc, end_or e (cur + 1))
        | pointer target ↦ decode_labels hops buf target (some (end_or e (cur + 2))) acc
        | label l next ↦ decode_labels hops buf next e (acc ++ (from_utf8_lossy l ∷ []))
      ]
  unfolding decode_labels
  step p h =
      ap
        (λ p. elim p as (λ q. Option (List (List ℕ) × ℕ)) [
          | broken ↦ none
          | root ↦ some (acc, end_or e (cur + 1))
          | pointer target ↦ decode_labels hops buf target (some (end_or e (cur + 2))) acc
          | label l next ↦ decode_labels hops buf next e (acc ++ (from_utf8_lossy l ∷ []))
        ])
        h

abbrev found : List (List ℕ) → ℕ → Option (List (List ℕ) × ℕ)
found labels pos = some (labels, pos)

encoded :
    (l : List ℕ) (ls : List (List ℕ)) (post : List ℕ)
    → IsLabel l
    → encode_labels (l ∷ ls) ++ post ≡ length l ∷ (l ++ (encode_labels ls ++ post))
unfolding encode_labels
encoded l ls post w =
    ap (λ b. u8 (length b) ∷ ((b ++ encode_labels ls) ++ post)) (into_bytes-ascii l w.ascii)
    ∙ ap₂ (λ n t. n ∷ t) (length_byte (length l) w.short) (append_assoc l (encode_labels ls) post)

decode_labels-encode_labels :
    (hops : ℕ) (ls : List (List ℕ)) (before post : List ℕ) (pos : ℕ) (acc : List (List ℕ))
    → All IsLabel ls
    → length ls < hops
    → length before ≡ pos
    → decode_labels hops (before ++ (encode_labels ls ++ post)) pos none acc
      ≡ some (acc ++ ls, pos + length (encode_labels ls))
unfolding encode_labels
decode_labels-encode_labels zero ls before post pos acc w lt at = absurd (omega arith)
decode_labels-encode_labels (suc hops) [] before post pos acc w lt at =
    step hops (before ++ (0 ∷ post)) pos none acc root
      (ap (piece_of (before ++ (0 ∷ post)) pos) (get_elem?-append before post 0 pos at))
    ∙ ap (λ l. some (l, pos + 1)) (sym (append-nil acc))
decode_labels-encode_labels (suc hops) (l ∷ ls) before post pos acc w lt at =
    let rest = encode_labels ls ++ post in
    let buf = before ++ (length l ∷ (l ++ rest)) in
    let before' = (before ++ (length l ∷ [])) ++ l in
    let bytes = into_bytes-ascii l w.0.ascii in
    ap (λ b. decode_labels (suc hops) (before ++ b) pos none acc) (encoded l ls post w.0)
    ∙ step hops buf pos none acc (label l (pos + 1 + length l))
        (piece-label before l rest pos at w.0.some_text w.0.short)
    ∙ ap (λ t. decode_labels hops buf (pos + 1 + length l) none (acc ++ (t ∷ [])))
        (from_utf8_lossy-ascii l w.0.ascii)
    ∙ ap (λ b. decode_labels hops b (pos + 1 + length l) none (acc ++ (l ∷ [])))
        (moved_before before l rest pos at ∙ sym (append_assoc (before ++ (length l ∷ [])) l rest))
    ∙ decode_labels-encode_labels hops ls before' post (pos + 1 + length l) (acc ++ (l ∷ [])) w.1
        (omega arith)
        (omega (
          arith,
          length-append (before ++ (length l ∷ [])) l,
          length-append before (length l ∷ []),
          at,
        ))
    ∙ ap₂ found (append_assoc acc (l ∷ []) ls)
        (omega (arith, length-append (into_bytes l) (encode_labels ls), ap length bytes))

-- Where every label of a name is 1 to 63 characters of ASCII and there are at most 127 of them: what
-- `encode_name` writes, anywhere in a buffer, is decoded to the labels joined with dots, and the position
-- given is the one right behind it.
pub decode_name-encode_name :
    (name before post : List ℕ)
    → All IsLabel (labels_of name)
    → length (labels_of name) < 128
    → decode_name (before ++ (encode_name name ++ post)) (length before)
      ≡ some (join_dots (labels_of name), length before + length (encode_name name))
unfolding decode_name encode_name
decode_name-encode_name name before post w lt =
    ap joined
      (decode_labels-encode_labels 128 (labels_of name) before post (length before) [] w lt refl)

get_elem?-beyond : (xs : List ℕ) (n : ℕ) → length xs ≤ n → get_elem? xs n ≡ none
get_elem?-beyond [] n h = refl
get_elem?-beyond (x ∷ xs) zero h = absurd (omega arith)
get_elem?-beyond (x ∷ xs) (suc n) h = get_elem?-beyond xs n (omega arith)

abbrev skipping : List ℕ → ℕ → (ℕ → Option ℕ) → Option ℕ → Option ℕ
skipping buf pos further o = elim o as (λ q. Option ℕ) [
  | none ↦ none
  | some len ↦ elim (over pos len) as (λ q. Option ℕ) [ some next ↦ some next | none ↦ further len ]
]

skip_out : (fuel : ℕ) (buf : List ℕ) (pos : ℕ) → length buf ≤ pos → skip_from fuel buf pos ≡ none
unfolding skip_from
skip_out zero buf pos h = refl
skip_out (suc fuel) buf pos h =
    ap (skipping buf pos (λ len. skip_from fuel buf (pos + (1 + len)))) (get_elem?-beyond buf pos h)

one_later : (a b : ℕ) → suc a + b ≡ suc (a + b)
one_later a b = omega arith

skip_enough :
    (fuel more : ℕ) (buf : List ℕ) (pos : ℕ)
    → length buf ≤ fuel + pos
    → skip_from (fuel + more) buf pos ≡ skip_from fuel buf pos
unfolding skip_from
skip_enough zero more buf pos h = skip_out (0 + more) buf pos (omega arith)
skip_enough (suc fuel) more buf pos h =
    ap (λ k. skip_from k buf pos) (one_later fuel more)
    ∙ ap (λ further. skipping buf pos further (get_elem? buf pos))
        (fun_ext (λ len. skip_enough fuel more buf (pos + (1 + len)) (omega arith)))

-- `skip_name` ends by itself: its loop, for however many rounds more it may run, gives what it gives within
-- as many rounds as the buffer has bytes, and one.
pub skip_name-enough :
    (buf : List ℕ) (pos more : ℕ) → skip_from (length buf + 1 + more) buf pos ≡ skip_name buf pos
unfolding skip_name
skip_name-enough buf pos more = skip_enough (length buf + 1) more buf pos (omega arith)
