-- ===== src/Config/Enums/Updates.antt =====
-- When enums.rs lets an update check run.
use dee_lip.Prelude.{ℕ, ◌+◌, ◌-◌, ◌*◌, ◌≤◌, ◌≡◌, refl, ◌↔◌, true, false, some, leb, arith}
use dee_lip.Config.Enums.{always, daily, weekly, never, min_interval_secs, is_due}

-- A check is due again `interval` seconds after a check that found it due, and at no earlier time after it.
interval_test :
    (interval last later : ℕ)
    → 1 ≤ interval
    → (leb interval (last + later - last) ≡ true) ↔ (interval ≤ later)
interval_test interval last later h = ground arith

-- With a last check at a time `last`, a check at a later time is due exactly: for `always` at
-- once, for `daily` and `weekly` when a day and a week have passed since, and for `never` not at
-- all.
pub is_due_iff :
    (last later : ℕ)
    → (is_due always (some last) (last + later) ≡ true)
      × ((is_due daily (some last) (last + later) ≡ true) ↔ (86400 ≤ later))
      × ((is_due weekly (some last) (last + later) ≡ true) ↔ (7 * 86400 ≤ later))
      × (is_due never (some last) (last + later) ≡ false)
unfolding is_due min_interval_secs
is_due_iff last later = (
  ground arith,
  interval_test 86400 last later (omega arith),
  interval_test 604800 last later (omega arith),
  refl,
)
