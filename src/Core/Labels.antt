-- ===== src/Core/Labels.antt =====
-- packages/znyx-core/src/znyx_core/core/labels.py and core/risk.py: the ranking of decisions and
-- the scales of risk. A score that the code holds in a float is a signed number of hundredths.
use znyx_runtime.Prelude.{
  ℕ, ◌+◌, ◌*◌, ◌/◌, ◌%◌, min, ℤ, pos, negsuc, Bool, true, false, Option, none, some, List, [], ◌∷◌,
  ltb, leb, ◌==◌, if◌then◌else◌,
}
use znyx_runtime.Core.Models.{
  Decision, allow, block, redact, warn, transform, Severity, low, medium, high, RuleHit,
}

-- `DECISION_PRECEDENCE`
abbrev pub decision_precedence : Decision → ℕ
decision_precedence block = 5
decision_precedence redact = 4
decision_precedence transform = 3
decision_precedence warn = 2
decision_precedence allow = 1

abbrev pub decision_rank : Option Decision → ℕ
decision_rank none = 0
decision_rank (some d) = decision_precedence d

unfoldable pub most_severe_from : Decision → ℕ → List Decision → Decision
most_severe_from best best_rank [] = best
most_severe_from best best_rank (d ∷ ds) =
    let r = decision_rank (some d) in
    most_severe_from (if ltb best_rank r then d else best)
      (if ltb best_rank r then r else best_rank) ds

unfoldable pub most_severe_decision : List Decision → Decision
unfolding most_severe_from
most_severe_decision ds = most_severe_from allow 0 ds

-- `SEVERITY_RISK_SCORES` of risk.py
abbrev pub severity_risk_scores : Severity → ℕ
severity_risk_scores low = 10
severity_risk_scores medium = 30
severity_risk_scores high = 50

sum_of_severities : List RuleHit → ℕ
sum_of_severities [] = 0
sum_of_severities (h ∷ hs) = severity_risk_scores h.severity + sum_of_severities hs

unfoldable pub calculate_risk_score : List RuleHit → ℕ
unfolding sum_of_severities
calculate_risk_score [] = 0
calculate_risk_score (h ∷ hs) = min 100 (sum_of_severities (h ∷ hs))

-- `min(100.0, max(0.0, v))`, in hundredths.
abbrev pub clamp_risk : ℤ → ℕ
clamp_risk (pos n) = min 10000 n
clamp_risk (negsuc n) = 0

-- `SEVERITY_TO_RISK`
unfoldable pub severity_to_risk : Severity → ℕ
severity_to_risk low = 25
severity_to_risk medium = 60
severity_to_risk high = 90

unfoldable pub risk_to_severity : ℤ → Severity
risk_to_severity risk =
    let r = clamp_risk risk in if leb 8000 r then high else if leb 4000 r then medium else low

-- The words that `normalize_risk` takes for its `kind`, in lower case.
pub data ScoreKind : Type 0 where
  deterministic judge ml embedding probability : ScoreKind

abbrev is_probability : ScoreKind → Bool
is_probability ml = true
is_probability embedding = true
is_probability probability = true
is_probability _ = false

abbrev times_100 : ℤ → ℤ
times_100 (pos n) = pos (n * 100)
times_100 (negsuc n) = negsuc (n * 100 + 99)

-- Python's `round` of a number of hundredths to a whole one: a half goes to the even neighbour.
abbrev round_half_even : ℕ → ℕ
round_half_even n =
    let q = n / 100 in
    let r = n % 100 in
    if ltb r 50 then q else if ltb 50 r then q + 1 else if (q % 2) == 0 then q else q + 1

unfoldable pub normalize_risk : Option ℤ → ScoreKind → ℕ
normalize_risk none kind = 0
normalize_risk (some v) kind =
    round_half_even (clamp_risk (if is_probability kind then times_100 v else v))
