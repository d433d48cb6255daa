-- ===== src/Sip/Framing/Stability.antt =====
-- A message that `try_take_message` of framing.rs takes is taken also when more bytes follow.
use mathlib.Core.Path.{ap₂}
use dee_lip.Prelude.{
  ◌%◌, ℕ, suc, ◌+◌, ◌≤◌, ◌≡◌, ◌≢◌, refl, ap, sym, subst, take-append-drop, ◌∙◌, Bool, true, false,
  Bool-cases, inl, inr, none, some, Option-cases, List, [], ◌∷◌, ◌++◌, length, take, drop,
  length-append, take-append_le, drop-append_le, ltb, is_utf8, from_utf8_lossy, arith,
  if◌then◌else◌,
}
use dee_lip.Sip.Framing.{
  MessageFramer, ends_headers, find_header_block_end, take_at, total_len, extract_content_length,
  usize_values, try_take_message, push,
}

ends_headers-append : (xs ys : List ℕ) → 4 ≤ length xs → ends_headers (xs ++ ys) ≡ ends_headers xs
ends_headers-append [] ys h = absurd (omega arith)
ends_headers-append (a ∷ []) ys h = absurd (omega arith)
ends_headers-append (a ∷ b ∷ []) ys h = absurd (omega arith)
ends_headers-append (a ∷ b ∷ c ∷ []) ys h = absurd (omega arith)
ends_headers-append (a ∷ b ∷ c ∷ d ∷ xs) ys h = refl

ends_headers-length : (xs : List ℕ) → ends_headers xs ≡ true → 4 ≤ length xs
ends_headers-length [] h = cc
ends_headers-length (a ∷ []) h = cc
ends_headers-length (a ∷ b ∷ []) h = cc
ends_headers-length (a ∷ b ∷ c ∷ []) h = cc
ends_headers-length (a ∷ b ∷ c ∷ d ∷ xs) h = omega arith

-- The end found lies inside the bytes, and more bytes do not move it.
record Found (xs : List ℕ) (n : ℕ) : Type 0 where
  four : 4 ≤ n
  inside : n ≤ length xs
  stays : (ys : List ℕ) → find_header_block_end (xs ++ ys) ≡ some n

Found-here : (b : ℕ) (bs : List ℕ) → ends_headers (b ∷ bs) ≡ true → Found (b ∷ bs) 4
unfolding find_header_block_end
Found-here b bs h =
    let four = ends_headers-length (b ∷ bs) h in
    record {
      four = omega arith;
      inside = four;
      stays = λ ys. rw (ends_headers-append (b ∷ bs) ys four, h) refl;
    }

Found-later :
    (b : ℕ) (bs : List ℕ) (m : ℕ)
    → ends_headers (b ∷ bs) ≡ false
    → Found bs m
    → Found (b ∷ bs) (suc m)
unfolding find_header_block_end
Found-later b bs m h w = record {
  four = omega (arith, w.four);
  inside = omega (arith, w.inside);
  stays = λ ys.
      rw (ends_headers-append (b ∷ bs) ys (omega (arith, w.four, w.inside)), h, w.stays ys) refl;
}

some_eq : {a b : ℕ} → some a ≡ some b → a ≡ b
some_eq e = cc

first_found :
    (b : ℕ) (bs : List ℕ) → ends_headers (b ∷ bs) ≡ true → some 4 ≡ find_header_block_end (b ∷ bs)
unfolding find_header_block_end
first_found b bs h = rw h refl

next_found :
    (b : ℕ) (bs : List ℕ) (m : ℕ)
    → ends_headers (b ∷ bs) ≡ false
    → find_header_block_end bs ≡ some m
    → some (suc m) ≡ find_header_block_end (b ∷ bs)
unfolding find_header_block_end
next_found b bs m h k = rw (h, k) refl

not_found :
    (b : ℕ) (bs : List ℕ) (n : ℕ)
    → ends_headers (b ∷ bs) ≡ false
    → find_header_block_end bs ≡ none
    → find_header_block_end (b ∷ bs) ≢ some n
unfolding find_header_block_end
not_found b bs n h k = rw (h, k) (λ e. cc)

nothing_taken :
    {m : List ℕ} {g : MessageFramer} (xs : List ℕ)
    → find_header_block_end xs ≡ none
    → take_at xs (find_header_block_end xs) ≢ some (m, g)
nothing_taken xs k = rw k (λ e. cc)

find_header_block_end-Found : (xs : List ℕ) (n : ℕ) → find_header_block_end xs ≡ some n → Found xs n
unfolding find_header_block_end
find_header_block_end-Found [] n e = cc
find_header_block_end-Found (b ∷ bs) n e = elim (Bool-cases (ends_headers (b ∷ bs))) [
  | inl h ↦ subst (Found (b ∷ bs)) (some_eq (first_found b bs h ∙ e)) (Found-here b bs h)
  | inr h ↦ elim (Option-cases (find_header_block_end bs)) [
    | inl k ↦ absurd (not_found b bs n h k e)
    | inr (m, k) ↦
        subst (Found (b ∷ bs)) (some_eq (next_found b bs m h k ∙ e))
          (Found-later b bs m h (find_header_block_end-Found bs m k))
  ]
]

some_pair : {a b : List ℕ × MessageFramer} → some a ≡ some b → a ≡ b
some_pair e = cc

ltb→ge : (a b : ℕ) → ltb a b ≡ false → b ≤ a
ltb→ge a b h = ground arith

longer_fits : (a b t u : ℕ) → ltb a t ≡ false → u ≡ t → a ≤ b → ltb b u ≡ false
longer_fits a b t u h e le = ground arith

abbrev part : List ℕ → ℕ → List ℕ × MessageFramer
part xs n = (take (total_len xs n) xs, record { buf = drop (total_len xs n) xs })

take_at_fits :
    (xs : List ℕ) (n : ℕ)
    → is_utf8 (take n xs) ≡ true
    → ltb (length xs) (total_len xs n) ≡ false
    → take_at xs (some n) ≡ some (part xs n)
take_at_fits xs n u h = rw (u, h)

needs_of :
    {r : List ℕ × MessageFramer} (t : List ℕ × MessageFramer) (u h : Bool)
    → (if u then (if h then none else some t) else none) ≡ some r
    → (u ≡ true) × (h ≡ false)
needs_of t true true e = cc
needs_of t true false e = (refl, refl)
needs_of t false h e = cc

take_at_needs :
    {r : List ℕ × MessageFramer} (xs : List ℕ) (n : ℕ)
    → take_at xs (some n) ≡ some r
    → (is_utf8 (take n xs) ≡ true) × (ltb (length xs) (total_len xs n) ≡ false)
take_at_needs xs n e =
    needs_of (part xs n) (is_utf8 (take n xs)) (ltb (length xs) (total_len xs n)) e

-- What is taken, and what is left, when the header block ends at `n`.
taken_stays :
    (xs ys : List ℕ) (n : ℕ) (m : List ℕ) (f : MessageFramer)
    → n ≤ length xs
    → take_at xs (some n) ≡ some (m, f)
    → (m ++ f.buf ≡ xs) × (take_at (xs ++ ys) (some n) ≡ some (m, record { buf = f.buf ++ ys }))
taken_stays xs ys n m f le e =
    let (utf8, fits) = take_at_needs xs n e in
    let here : some (m, f) ≡ some (part xs n) = sym e ∙ take_at_fits xs n utf8 fits in
    let head : take n (xs ++ ys) ≡ take n xs = take-append_le n xs ys le in
    let size : total_len (xs ++ ys) n ≡ total_len xs n =
      ap (λ l. (n + extract_content_length (from_utf8_lossy l)) % usize_values) head in
    let room = ltb→ge (length xs) (total_len xs n) fits in
    let there : take_at (xs ++ ys) (some n) ≡ some (part (xs ++ ys) n) =
      take_at_fits (xs ++ ys) n (ap is_utf8 head ∙ utf8) (
        longer_fits (length xs) (length (xs ++ ys)) (total_len xs n) (total_len (xs ++ ys) n) fits
          size (omega (arith, length-append xs ys))) in
    (
      subst (λ r. r.0 ++ r.1.buf ≡ xs) (sym (some_pair here))
          (take-append-drop (total_len xs n) xs),
      there
          ∙ ap₂ (λ a b. some (a, record { buf = b }))
              (ap (λ k. take k (xs ++ ys)) size
                ∙ take-append_le (total_len xs n) xs ys room
                ∙ ap (λ r. r.0) (sym (some_pair here)))
              (ap (λ k. drop k (xs ++ ys)) size
                ∙ drop-append_le (total_len xs n) xs ys room
                ∙ ap (λ r. r.1.buf ++ ys) (sym (some_pair here))),
    )

-- A message that is taken is the front of the buffer and the rest stays buffered; the same message
-- is taken when more bytes have been pushed behind it, which then stay behind the rest.
pub try_take_message-push :
    (f g : MessageFramer) (m chunk : List ℕ)
    → try_take_message f ≡ some (m, g)
    → (m ++ g.buf ≡ f.buf) × (try_take_message (push f chunk) ≡ some (m, push g chunk))
unfolding try_take_message push
try_take_message-push f g m chunk e = elim (Option-cases (find_header_block_end f.buf)) [
  | inl k ↦ absurd (nothing_taken f.buf k e)
  | inr (n, k) ↦
      let w = find_header_block_end-Found f.buf n k in
      let (front, same) = taken_stays f.buf chunk n m g w.inside (ap (take_at f.buf) (sym k) ∙ e) in
      (front, ap (take_at (f.buf ++ chunk)) (w.stays chunk) ∙ same)
]
