-- ===== src/Prelude/Maps.antt =====
-- Maps whose keys are texts, such as `HashMap<String, _>`: lists of entries with one entry for a key.
use Prim.Native.Nat.{ℕ, ◌+◌, ◌≤◌, ◌*◌}
use mathlib.Core.Bool.{false}
use mathlib.Core.Logic.{inl, inr}
use mathlib.Core.List.{List, [], ◌∷◌}
use mathlib.Core.Option.{Option, none, some, some_inj}
use mathlib.Core.Path.{◌≡◌, refl, ap, ap₂, sym, ◌∙◌, subst}
use native.Mathlib.Omega.{arith}
use dee_lip.Prelude.Lists.{length, All, bytes_eq, bytes_eq_refl, bytes_eq→eq}
use dee_lip.Prelude.Tests.{if◌then◌else◌, Bool-cases}

abbrev pub Map {ℓ} : Type ℓ → Type ℓ
Map A = List (List ℕ × A)

module _ {ℓ} {A : Type ℓ} where
  -- `HashMap::get`
  unfoldable pub find : List ℕ → Map A → Option A
  find key [] = none
  find key (e ∷ es) = let rest = find key es in if bytes_eq e.0 key then some e.1 else rest

  -- `HashMap::insert`, and the writing through `get_mut`
  unfoldable pub insert : List ℕ → A → Map A → Map A
  insert key v [] = (key, v) ∷ []
  insert key v (e ∷ es) =
      let rest = insert key v es in if bytes_eq e.0 key then (key, v) ∷ es else e ∷ rest

  -- `HashMap::remove`
  unfoldable pub remove : List ℕ → Map A → Map A
  remove key [] = []
  remove key (e ∷ es) = let rest = remove key es in if bytes_eq e.0 key then rest else e ∷ rest

  passed :
      (k key other : List ℕ) (o : Option A) (v : A)
      → k ≡ key
      → bytes_eq key other ≡ false
      → o ≡ (if bytes_eq k other then some v else o)
  passed k key other o v e ne =
      sym (ap (λ b. if b then some v else o) (ap (λ l. bytes_eq l other) e ∙ ne))

  pub All-insert {κ} :
      (P : List ℕ × A → Type κ) (key : List ℕ) (v : A) (m : Map A)
      → P (key, v)
      → All P m
      → All P (insert key v m)
  unfolding insert
  All-insert P key v [] p w = (p, tt)
  All-insert P key v (e ∷ es) p w = elim (Bool-cases (bytes_eq e.0 key)) [
    | inl h ↦ rw h (p, w.1)
    | inr h ↦ rw h (w.0, All-insert P key v es p w.1)
  ]

  pub All-remove {κ} :
      (P : List ℕ × A → Type κ) (key : List ℕ) (m : Map A) → All P m → All P (remove key m)
  unfolding remove
  All-remove P key [] w = tt
  All-remove P key (e ∷ es) w = elim (Bool-cases (bytes_eq e.0 key)) [
    | inl h ↦ rw h (All-remove P key es w.1)
    | inr h ↦ rw h (w.0, All-remove P key es w.1)
  ]

  -- What is removed is gone.
  pub find-remove : (key : List ℕ) (m : Map A) → find key (remove key m) ≡ none
  unfolding find remove
  find-remove key [] = refl
  find-remove key (e ∷ es) = elim (Bool-cases (bytes_eq e.0 key)) [
    | inl h ↦ rw h (find-remove key es)
    | inr h ↦ rw (h, h) (find-remove key es)
  ]

  pub find-insert : (key : List ℕ) (v : A) (m : Map A) → find key (insert key v m) ≡ some v
  unfolding find insert
  find-insert key v [] = rw (bytes_eq_refl key) refl
  find-insert key v (e ∷ es) = elim (Bool-cases (bytes_eq e.0 key)) [
    | inl h ↦ rw h (rw (bytes_eq_refl key) refl)
    | inr h ↦ rw (h, h) (find-insert key v es)
  ]

  pub find-insert_other :
      (key other : List ℕ) (v : A) (m : Map A)
      → bytes_eq key other ≡ false
      → find other (insert key v m) ≡ find other m
  unfolding find insert
  find-insert_other key other v [] ne = rw ne refl
  find-insert_other key other v (e ∷ es) ne = elim (Bool-cases (bytes_eq e.0 key)) [
    | inl h ↦ rw h (rw ne (passed e.0 key other (find other es) e.1 (bytes_eq→eq e.0 key h) ne))
    | inr h ↦
        rw h (
          ap (λ o. if bytes_eq e.0 other then some e.1 else o)
            (find-insert_other key other v es ne))
  ]

  pub find-remove_other :
      (key other : List ℕ) (m : Map A)
      → bytes_eq key other ≡ false
      → find other (remove key m) ≡ find other m
  unfolding find remove
  find-remove_other key other [] ne = refl
  find-remove_other key other (e ∷ es) ne = elim (Bool-cases (bytes_eq e.0 key)) [
    | inl h ↦ rw h (
        find-remove_other key other es ne
        ∙ passed e.0 key other (find other es) e.1 (bytes_eq→eq e.0 key h) ne)
    | inr h ↦
        rw h
          (ap (λ o. if bytes_eq e.0 other then some e.1 else o) (find-remove_other key other es ne))
  ]

  -- The sum of a measure over the values.
  pub total : (A → ℕ) → Map A → ℕ
  total f [] = 0
  total f (e ∷ es) = f e.1 + total f es

  -- Putting a value in the place of another changes the sum by their difference.
  pub total-insert :
      (f : A → ℕ) (key : List ℕ) (old new : A) (m : Map A)
      → find key m ≡ some old
      → total f (insert key new m) + f old ≡ total f m + f new
  unfolding find insert total
  total-insert f key old new [] h = cc
  total-insert f key old new (e ∷ es) h = elim (Bool-cases (bytes_eq e.0 key)) [
    | inl t ↦
        let same = ap f (some_inj.0 (ap (λ b. if b then some e.1 else find key es) (sym t) ∙ h)) in
        rw t (omega (arith, same))
    | inr t ↦
        let found = ap (λ b. if b then some e.1 else find key es) (sym t) ∙ h in
        let rest = total-insert f key old new es found in rw t (omega (arith, rest))
  ]

  pub total-remove : (f : A → ℕ) (key : List ℕ) (m : Map A) → total f (remove key m) ≤ total f m
  unfolding remove total
  total-remove f key [] = omega arith
  total-remove f key (e ∷ es) =
      let rest = total-remove f key es in
      elim (Bool-cases (bytes_eq e.0 key)) [
        | inl t ↦ rw t (omega (arith, rest))
        | inr t ↦ rw t (omega (arith, rest))
      ]

  -- The entry that is found is one of the map.
  pub All-find {κ} :
      (P : List ℕ × A → Type κ) (key : List ℕ) (v : A) (m : Map A)
      → All P m
      → find key m ≡ some v
      → P (key, v)
  unfolding find
  All-find P key v [] w h = absurd (cc)
  All-find P key v (e ∷ es) w h = elim (Bool-cases (bytes_eq e.0 key)) [
    | inl t ↦
        subst P
          (ap₂ (λ k a. (k, a)) (bytes_eq→eq e.0 key t)
            (some_inj.0 (ap (λ b. if b then some e.1 else find key es) (sym t) ∙ h)))
          w.0
    | inr t ↦ All-find P key v es w.1 (ap (λ b. if b then some e.1 else find key es) (sym t) ∙ h)
  ]

  pub total-twice : (f : A → ℕ) → ((a : A) → f a ≤ 2) → (m : Map A) → total f m ≤ 2 * length m
  unfolding total
  total-twice f h [] = omega arith
  total-twice f h (e ∷ es) = omega (arith, h e.1, total-twice f h es)
