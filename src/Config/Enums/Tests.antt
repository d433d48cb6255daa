-- ===== src/Config/Enums/Tests.antt =====
-- The update check of enums.rs, an hour and a day after the last one.
use dee_lip.Prelude.{◌+◌, ◌*◌, ◌≤◌, ◌≡◌, ◌↔◌, true, false, some}
use dee_lip.Config.Enums.{is_due, always, daily, weekly, never}
use dee_lip.Config.Enums.Updates.{is_due_iff}

is_due_iff_example :
    (is_due always (some 1000) (1000 + 90000) ≡ true)
    × ((is_due daily (some 1000) (1000 + 90000) ≡ true) ↔ (86400 ≤ 90000))
    × ((is_due weekly (some 1000) (1000 + 90000) ≡ true) ↔ (7 * 86400 ≤ 90000))
    × (is_due never (some 1000) (1000 + 90000) ≡ false)
is_due_iff_example = is_due_iff 1000 90000
