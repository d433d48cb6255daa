-- ===== src/Zrtp/Cache/Tests.antt =====
-- The in-memory store of cache.rs at two pairs of ZIDs.
use dee_lip.Prelude.{ℕ, ◌≡◌, false, none, some, [], ◌∷◌, if◌then◌else◌}
use dee_lip.Zrtp.Cache.{CacheEntry, MemorySharedSecretStore, same_key, load, store, clear}
use dee_lip.Zrtp.Cache.Lookup.{load-store-clear}

abbrev entry : ℕ → CacheEntry
entry n = record {
  local_zid = 1 ∷ [];
  remote_zid = n ∷ [];
  secrets = record { rs1 = 7 ∷ []; rs2 = []; verified = false };
}

abbrev two : MemorySharedSecretStore
two = store (store (record { entries = [] }) (entry 2)) (entry 3)

load-store-clear_example :
    (load (store two (entry 4)) (1 ∷ []) (3 ∷ []) ≡ (
      if same_key (1 ∷ [], 4 ∷ []) (1 ∷ []) (3 ∷ [])
      then some (entry 4)
      else load two (1 ∷ []) (3 ∷ [])))
    × (load (clear two (1 ∷ []) (2 ∷ [])) (1 ∷ []) (3 ∷ []) ≡ (
        if same_key (1 ∷ [], 2 ∷ []) (1 ∷ []) (3 ∷ []) then none else load two (1 ∷ []) (3 ∷ [])))
load-store-clear_example = load-store-clear two (entry 4) (1 ∷ []) (2 ∷ []) (1 ∷ []) (3 ∷ [])
