-- ===== src/Core/Aggregate.antt =====
-- packages/znyx-core/src/znyx_core/core/decision.py: `DecisionAggregator.aggregate`.
use znyx_runtime.Prelude.{
  ℕ, Text, has_text, max, Bool, true, false, Option, none, some, List, [], ◌∷◌, ◌++◌, ◌&&◌, ltb,
  if◌then◌else◌,
}
use znyx_runtime.Core.Models.{
  Decision, allow, block, redact, warn, transform, RuleHit, DetectorResult, plain_result,
}
pub mod Worst
use znyx_runtime.Core.Labels.{decision_rank}

-- `all_rule_hits.extend(result.rule_hits)` for each result.
unfoldable pub all_rule_hits : List DetectorResult → List RuleHit
all_rule_hits [] = []
all_rule_hits (r ∷ rs) = r.rule_hits ++ all_rule_hits rs

-- `max((r.risk_score for r in results), default=0)`; a risk score is not negative.
unfoldable pub max_risk_score : List DetectorResult → ℕ
max_risk_score [] = 0
max_risk_score (r ∷ rs) = max r.risk_score (max_risk_score rs)

-- The variables of the loop that selects the highest priority.
pub record Selection : Type 0 where
  pub highest_decision : Decision
  pub highest_priority : ℕ
  pub selected_result : Option DetectorResult

abbrev pub no_selection : Selection
no_selection = record { highest_decision = allow; highest_priority = 0; selected_result = none }

-- One round of that loop. A result without a decision is skipped.
unfoldable pub consider : Selection → DetectorResult → Option Decision → Selection
consider s result none = s
consider s result (some d) =
    let priority = decision_rank (some d) in
    if ltb s.highest_priority priority
    then record { highest_decision = d; highest_priority = priority; selected_result = some result }
    else s

unfoldable pub select : Selection → List DetectorResult → Selection
unfolding consider
select s [] = s
select s (r ∷ rs) = select (consider s r r.decision) rs

abbrev rewrites : Option Decision → Bool
rewrites (some redact) = true
rewrites (some transform) = true
rewrites _ = false

-- The last text of a result that redacts or transforms replaces the selected one's.
unfoldable pub chain_text : Option Text → List DetectorResult → Option Text
chain_text current [] = current
chain_text current (r ∷ rs) =
    chain_text
      (if has_text r.sanitized_text && rewrites r.decision then r.sanitized_text else current) rs

abbrev of_selected {ℓ} :
    {A : Type ℓ} → (DetectorResult → Option A) → Option DetectorResult → Option A
of_selected f none = none
of_selected f (some r) = f r

unfoldable pub aggregate : List DetectorResult → DetectorResult
aggregate [] = plain_result (some allow) 0
aggregate (r ∷ rs) =
    let results = r ∷ rs in
    let s = select no_selection results in
    record (plain_result (some s.highest_decision) (max_risk_score results)) {
      rule_hits = all_rule_hits results;
      sanitized_text =
          chain_text (of_selected (λ (x : DetectorResult). x.sanitized_text) s.selected_result)
            results;
      user_message = of_selected (λ (x : DetectorResult). x.user_message) s.selected_result;
      developer_message =
          of_selected (λ (x : DetectorResult). x.developer_message) s.selected_result;
    }
