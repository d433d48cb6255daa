-- ===== src/Config/DialPlan.antt =====
-- crates/config/src/dialplan.rs: the rules that rewrite a number before it is dialled. Regular expressions come
-- from a crate: their type, their compilation, the test and the replacement are parameters.
pub mod First
pub mod Tests
use dee_lip.Prelude.{ℕ, Bool, true, false, Option, none, some, List, [], ◌∷◌, if◌then◌else◌}

pub record DialPlanRule : Type 0 where
  pub pattern : List ℕ
  pub replacement : List ℕ
  pub enabled : Bool

-- `Regex::new`, `Regex::is_match` and `Regex::replace`
pub record Engine : Type 1 where
  pub Regex : Type 0
  pub compile : List ℕ → Option Regex
  pub is_match : Regex → List ℕ → Bool
  pub replace : Regex → List ℕ → List ℕ → List ℕ

abbrev pub by_regex :
    (e : Engine) → List ℕ → DialPlanRule → Option e.Regex → Option (List ℕ) → Option (List ℕ)
by_regex e raw rule none rest = rest
by_regex e raw rule (some re) rest =
    if e.is_match re raw then some (e.replace re raw rule.replacement) else rest

unfoldable pub apply_dial_plan : Engine → List ℕ → List DialPlanRule → Option (List ℕ)
apply_dial_plan e raw [] = none
apply_dial_plan e raw (rule ∷ rules) =
    let rest = apply_dial_plan e raw rules in
    if rule.enabled then by_regex e raw rule (e.compile rule.pattern) rest else rest
