-- ===== src/Config/DialPlan/First.antt =====
-- Which rule of a dial plan (crates/config/src/dialplan.rs) rewrites a number.
use dee_lip.Prelude.{
  ℕ, ◌≡◌, refl, ap, ◌⊎◌, inl, inr, Bool, true, false, Bool-cases, Option, none, some, List, [], ◌∷◌,
  ◌++◌, All, if◌then◌else◌,
}
use dee_lip.Config.DialPlan.{DialPlanRule, Engine, by_regex, apply_dial_plan}

-- The rule is off, its pattern is no regular expression, or that does not match the number.
abbrev pub IsPassed : Engine → List ℕ → DialPlanRule → Type 0
IsPassed e raw rule =
    (re : e.Regex)
    → rule.enabled ≡ true
    → e.compile rule.pattern ≡ some re
    → e.is_match re raw ≡ false

-- The first rule that is not passed, and what it makes of the number.
pub record IsRewritten (e : Engine) (raw : List ℕ) (rules : List DialPlanRule)
    (out : Option (List ℕ)) : Type 0 where
  pub before : List DialPlanRule
  pub rule : DialPlanRule
  pub behind : List DialPlanRule
  pub regex : e.Regex
  pub found : rules ≡ before ++ (rule ∷ behind)
  pub passed : All (IsPassed e raw) before
  pub on : rule.enabled ≡ true
  pub compiled : e.compile rule.pattern ≡ some regex
  pub matching : e.is_match regex raw ≡ true
  pub dialled : out ≡ some (e.replace regex raw rule.replacement)

abbrev Chosen : Engine → List ℕ → List DialPlanRule → Option (List ℕ) → Type 0
Chosen e raw rules out = ((out ≡ none) × All (IsPassed e raw) rules) ⊎ IsRewritten e raw rules out

module _ (e : Engine) (raw : List ℕ) (rule : DialPlanRule) (rules : List DialPlanRule)
    (rest : Option (List ℕ)) where
  later : IsPassed e raw rule → Chosen e raw rules rest → Chosen e raw (rule ∷ rules) rest
  later p (inl (none_out, all)) = inl (none_out, (p, all))
  later p (inr c) = inr (record {
    before = rule ∷ c.before;
    rule = c.rule;
    behind = c.behind;
    regex = c.regex;
    found = ap (λ l. rule ∷ l) c.found;
    passed = (p, c.passed);
    on = c.on;
    compiled = c.compiled;
    matching = c.matching;
    dialled = c.dialled;
  })

  judge :
      (b : Bool) (o : Option e.Regex)
      → rule.enabled ≡ b
      → e.compile rule.pattern ≡ o
      → Chosen e raw rules rest
      → Chosen e raw (rule ∷ rules) (if b then by_regex e raw rule o rest else rest)
  judge false o off c w = later (λ re on k. absurd (cc)) w
  judge true none on c w = later (λ re on' k. absurd (cc)) w
  judge true (some re) on c w = elim (Bool-cases (e.is_match re raw)) [
    | inl m ↦ rw m (
        inr (record {
          before = [];
          rule = rule;
          behind = rules;
          regex = re;
          found = refl;
          passed = tt;
          on = on;
          compiled = c;
          matching = m;
          dialled = refl;
        }))
    | inr m ↦ rw m (later (λ re' on' k. cc) w)
  ]

-- A number is rewritten by the first rule, in the order of the list, that is enabled, has a valid pattern and
-- matches it; where there is none, it is not rewritten.
pub apply_dial_plan-first :
    (e : Engine) (raw : List ℕ) (rules : List DialPlanRule)
    → ((apply_dial_plan e raw rules ≡ none) × All (IsPassed e raw) rules)
      ⊎ IsRewritten e raw rules (apply_dial_plan e raw rules)
unfolding apply_dial_plan
apply_dial_plan-first e raw [] = inl (refl, tt)
apply_dial_plan-first e raw (rule ∷ rules) =
    judge e raw rule rules (apply_dial_plan e raw rules) rule.enabled (e.compile rule.pattern) refl
      refl (apply_dial_plan-first e raw rules)
