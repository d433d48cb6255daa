-- ===== src/Config/DialPlan/Tests.antt =====
-- Runs of crates/config/src/dialplan.rs.
use dee_lip.Prelude.{◌≡◌, ◌⊎◌, ℕ, true, false, none, some, List, [], ◌∷◌, All, codes, bytes_eq}
use dee_lip.Config.DialPlan.{DialPlanRule, Engine, apply_dial_plan}
use dee_lip.Config.DialPlan.First.{IsPassed, IsRewritten, apply_dial_plan-first}

-- Patterns that match themselves only.
abbrev literal : Engine
literal = record {
  Regex = List ℕ;
  compile = λ p. some p;
  is_match = λ p s. bytes_eq p s;
  replace = λ p s r. r;
}

abbrev plan : List DialPlanRule
plan =
    record { pattern = codes "911"; replacement = codes "112"; enabled = false }
    ∷ record { pattern = codes "100"; replacement = codes "200"; enabled = true }
    ∷ []

apply_dial_plan-first_example :
    ((apply_dial_plan literal (codes "100") plan ≡ none)
      × All (IsPassed literal (codes "100")) plan)
    ⊎ IsRewritten literal (codes "100") plan (apply_dial_plan literal (codes "100") plan)
apply_dial_plan-first_example = apply_dial_plan-first literal (codes "100") plan
