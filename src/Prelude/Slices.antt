-- ===== src/Prelude/Slices.antt =====
-- Slices of byte strings: `&b[i..j]` aborts out of range, `b.get(i..j)` is an error there.
use Prim.Native.Nat.{ℕ, ◌+◌, ◌-◌, ◌≤◌}
use mathlib.Core.Path.{◌≡◌, refl, ap, sym, ◌∙◌}
use mathlib.Core.Bool.{true, ◌&&◌}
use mathlib.Core.List.{List, [], ◌++◌, append_assoc}
use native.Mathlib.Omega.{arith}
use dee_lip.Prelude.Tests.{leb, if◌then◌else◌}
use dee_lip.Prelude.Lists.{
  length, take, drop, length-append, length-take, length-drop, take-append_exact, drop-append_exact,
}
use dee_lip.Prelude.Outcomes.{Outcome, ok, err, panic}

-- The bytes from `i` up to `j`.
abbrev pub range_of : List ℕ → ℕ → ℕ → List ℕ
range_of xs i j = take (j - i) (drop i xs)

module _ {ℓ} {E : Type ℓ} where
  -- `&xs[i..j]`
  unfoldable pub slice : List ℕ → ℕ → ℕ → Outcome E (List ℕ)
  slice xs i j = if leb i j && leb j (length xs) then ok (range_of xs i j) else panic

  -- `xs.get(i..j).ok_or(e)`
  unfoldable pub get_range : E → List ℕ → ℕ → ℕ → Outcome E (List ℕ)
  get_range e xs i j = if leb i j && leb j (length xs) then ok (range_of xs i j) else err e

-- `rest` is what stands behind the first `pos` bytes of `xs`.
pub record At (xs : List ℕ) (pos : ℕ) (rest : List ℕ) : Type 0 where
  pub before : List ℕ
  pub split : xs ≡ before ++ rest
  pub width : length before ≡ pos

pub At-start : (xs : List ℕ) → At xs 0 xs
At-start xs = record { before = []; split = refl; width = refl }

module _ {xs : List ℕ} {pos : ℕ} (b rest : List ℕ) (n : ℕ) (at : At xs pos (b ++ rest))
    (fits : length b ≡ n) where
  pub At-next : At xs (pos + n) rest
  At-next = record {
    before = at.before ++ b;
    split = at.split ∙ sym (append_assoc at.before b rest);
    width = omega (arith, length-append at.before b, at.width);
  }

  in_range : (leb pos (pos + n) && leb (pos + n) (length xs)) ≡ true
  in_range = ground (
    arith,
    ap length at.split,
    length-append at.before (b ++ rest),
    length-append b rest,
    at.width,
  )

  range_at : range_of xs pos (pos + n) ≡ b
  range_at =
      ap (λ l. range_of l pos (pos + n)) at.split
      ∙ ap (λ k. take k (drop pos (at.before ++ (b ++ rest)))) (omega arith)
      ∙ ap (take n) (drop-append_exact at.before (b ++ rest) pos at.width)
      ∙ take-append_exact b rest n fits

  pub slice-at {ℓ} : {E : Type ℓ} → slice {E = E} xs pos (pos + n) ≡ ok b
  unfolding slice
  slice-at = rw (in_range, range_at)

  pub get_range-at {ℓ} : {E : Type ℓ} (e : E) → get_range e xs pos (pos + n) ≡ ok b
  unfolding get_range
  get_range-at e = rw (in_range, range_at)

module _ (xs : List ℕ) (i j : ℕ) (h : i ≤ j) (k : j ≤ length xs) where
  pub length-range_of : length (range_of xs i j) ≡ j - i
  length-range_of = omega (arith, length-take (j - i) (drop i xs), length-drop i xs)

  bounds_hold : (leb i j && leb j (length xs)) ≡ true
  bounds_hold = ground arith

  pub slice-eq-ok {ℓ} : {E : Type ℓ} → slice {E = E} xs i j ≡ ok (range_of xs i j)
  unfolding slice
  slice-eq-ok = rw bounds_hold

  pub get_range-eq-ok {ℓ} : {E : Type ℓ} (e : E) → get_range e xs i j ≡ ok (range_of xs i j)
  unfolding get_range
  get_range-eq-ok e = rw bounds_hold

pub slice-to {ℓ} :
    {E : Type ℓ} {xs : List ℕ} {pos : ℕ} (b rest : List ℕ) (j : ℕ)
    → At xs pos (b ++ rest)
    → j ≡ pos + length b
    → slice {E = E} xs pos j ≡ ok b
slice-to {xs} {pos} b rest j at e = ap (slice xs pos) e ∙ slice-at b rest (length b) at refl
