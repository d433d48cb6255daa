-- ===== src/Zrtp/Cache/Lookup.antt =====
-- The in-memory store of cache.rs is a map from pairs of ZIDs: what a load finds after a store or a clear.
use mathlib.Core.Path.{ap₂}
use dee_lip.Prelude.{
  ℕ, ◌≡◌, ◌≢◌, refl, ap, sym, ◌∙◌, Bool, true, false, ◌&&◌, Bool-cases, inl, inr, Option, none,
  some, List, [], ◌∷◌, bytes_eq, bytes_eq→eq, if◌then◌else◌,
}
use dee_lip.Zrtp.Cache.{
  CacheEntry, MemorySharedSecretStore, same_key, lookup, without, load, store, clear,
}

both : (a b : Bool) → (a && b) ≡ true → (a ≡ true) × (b ≡ true)
both true b h = (refl, h)
both false b h = cc

-- Of two keys that are the same, either stands for the other.
same_moves :
    (k : List ℕ × List ℕ) (a b c d : List ℕ)
    → same_key k a b ≡ true
    → same_key k c d ≡ same_key (a, b) c d
same_moves k a b c d h =
    let (e, f) = both (bytes_eq k.0 a) (bytes_eq k.1 b) h in
    rw (bytes_eq→eq k.0 a e, bytes_eq→eq k.1 b f)

pair_eq : (k : List ℕ × List ℕ) (a b : List ℕ) → same_key k a b ≡ true → k ≡ (a, b)
pair_eq k a b h =
    let (e, f) = both (bytes_eq k.0 a) (bytes_eq k.1 b) h in
    ap₂ (λ x y. (x, y)) (bytes_eq→eq k.0 a e) (bytes_eq→eq k.1 b f)

not_both : false ≢ true
not_both e = cc

-- A key that is not that of the entry removed.
other_key :
    (k : List ℕ × List ℕ) (a b c d : List ℕ)
    → same_key k a b ≡ true
    → same_key k c d ≡ false
    → same_key (c, d) a b ≡ false
other_key k a b c d h n = elim (Bool-cases (same_key (c, d) a b)) [
  | inl e ↦ absurd (not_both (sym n ∙ ap (λ q. same_key k q.0 q.1) (pair_eq (c, d) a b e) ∙ h))
  | inr e ↦ e
]

nothing : {A : Type 0} (b : Bool) → ◌≡◌ {A = Option A} none (if b then none else none)
nothing true = refl
nothing false = refl

twice :
    {A : Type 0} (b : Bool) (x y z : A)
    → (if b then x else z) ≡ (if b then x else if b then y else z)
twice true x y z = refl
twice false x y z = refl

-- What a lookup finds once the entry of a key is gone.
lookup-without :
    (m : List ((List ℕ × List ℕ) × CacheEntry)) (c d a b : List ℕ)
    → lookup (without m c d) a b ≡ (if same_key (c, d) a b then none else lookup m a b)
unfolding lookup without
lookup-without [] c d a b = nothing (same_key (c, d) a b)
lookup-without ((k, v) ∷ m) c d a b = elim (Bool-cases (same_key k c d)) [
  | inl h ↦
      rw (h, same_moves k c d a b h, lookup-without m c d a b)
        (twice (same_key (c, d) a b) none (some v) (lookup m a b))
  | inr h ↦ elim (Bool-cases (same_key k a b)) [
    | inl g ↦ rw (h, g, other_key k a b c d g h) refl
    | inr g ↦ rw (h, g) (lookup-without m c d a b)
  ]
]

-- A load finds the entry stored last under its pair of ZIDs, and nothing once the pair is cleared; a store
-- or a clear of another pair changes nothing for it.
pub load-store-clear :
    (s : MemorySharedSecretStore) (e : CacheEntry) (c d a b : List ℕ)
    → (load (store s e) a b
        ≡ (if same_key (e.local_zid, e.remote_zid) a b then some e else load s a b))
      × (load (clear s c d) a b ≡ (if same_key (c, d) a b then none else load s a b))
unfolding load store clear lookup
load-store-clear s e c d a b = (
  elim (Bool-cases (same_key (e.local_zid, e.remote_zid) a b)) [
    | inl h ↦ rw h refl
    | inr h ↦ rw h (lookup-without s.entries e.local_zid e.remote_zid a b ∙ rw h refl)
  ],
  lookup-without s.entries c d a b,
)
