-- ===== src/Zrtp/Cache.antt =====
-- crates/sip-core/src/zrtp/cache.rs: retained secrets by the pair of ZIDs. The trait is a record, and
-- the in-memory store an association list in place of the `HashMap`.
pub mod Lookup
pub mod Tests
use dee_lip.Prelude.{
  ℕ, ◌≡◌, Bool, true, ◌&&◌, Option, none, some, List, [], ◌∷◌, bytes_eq, bytes_eq→eq, if◌then◌else◌,
}

pub record RetainedSecrets : Type 0 where
  pub rs1 : List ℕ
  pub rs2 : List ℕ
  pub verified : Bool

pub record CacheEntry : Type 0 where
  pub local_zid : List ℕ
  pub remote_zid : List ℕ
  pub secrets : RetainedSecrets

pub record SharedSecretStore (S : Type 0) : Type 0 where
  pub load : S → List ℕ → List ℕ → Option CacheEntry
  pub store : S → CacheEntry → S
  pub clear : S → List ℕ → List ℕ → S

pub record MemorySharedSecretStore : Type 0 where
  pub entries : List ((List ℕ × List ℕ) × CacheEntry)

abbrev pub same_key : List ℕ × List ℕ → List ℕ → List ℕ → Bool
same_key k a b = bytes_eq k.0 a && bytes_eq k.1 b

pub lookup : List ((List ℕ × List ℕ) × CacheEntry) → List ℕ → List ℕ → Option CacheEntry
lookup [] a b = none
lookup ((k, v) ∷ m) a b = if same_key k a b then some v else lookup m a b

pub without :
    List ((List ℕ × List ℕ) × CacheEntry) → List ℕ → List ℕ → List ((List ℕ × List ℕ) × CacheEntry)
without [] a b = []
without ((k, v) ∷ m) a b =
    let rest = without m a b in if same_key k a b then rest else (k, v) ∷ rest

unfoldable pub load : MemorySharedSecretStore → List ℕ → List ℕ → Option CacheEntry
load s a b = lookup s.entries a b

unfoldable pub store : MemorySharedSecretStore → CacheEntry → MemorySharedSecretStore
store s e = record {
  entries = ((e.local_zid, e.remote_zid), e) ∷ without s.entries e.local_zid e.remote_zid;
}

unfoldable pub clear : MemorySharedSecretStore → List ℕ → List ℕ → MemorySharedSecretStore
clear s a b = record { entries = without s.entries a b }

abbrev pub memory_store : SharedSecretStore MemorySharedSecretStore
memory_store = record { load = load; store = store; clear = clear }
