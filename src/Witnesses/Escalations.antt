-- ===== src/Witnesses/Escalations.antt =====
-- The theorems on a run of the escalation, at concrete inputs.
use znyx_runtime.Prelude.{◌≤◌, codes, eq_text, true, false, none, some, ◌≡◌, ◌⊎◌, refl}
use znyx_runtime.Core.Labels.{decision_rank}
use znyx_runtime.Engine.Escalation.{run_with_strategy}
use znyx_runtime.Engine.Escalation.Outcome.{
  policy_outcome, policy_of, fallback-run_with_strategy, additive-run_with_strategy,
}
use znyx_runtime.Engine.Escalation.Boundary.{external_egress-run_with_strategy}
use znyx_runtime.Witnesses.Samples.{
  warned, additive_strategy, parse_url, blank, counting, context, allows, judge,
}

fallback-run_with_strategy_example :
    let r =
      (run_with_strategy parse_url blank blank
        (some counting)
        context
        (additive_strategy true)
        warned
        (codes "hi")
        allows
        judge
        3).0 in
    (r.fallback_path ≡ none)
    ⊎ ((r.decision, r.risk_score) ≡ policy_outcome (policy_of (additive_strategy true)) warned)
fallback-run_with_strategy_example =
    fallback-run_with_strategy parse_url blank blank (some counting) context
      (additive_strategy true) warned (codes "hi") allows judge 3

additive-run_with_strategy_example :
    decision_rank warned.decision
    ≤ decision_rank
        (run_with_strategy parse_url blank blank
          (some counting)
          context
          (additive_strategy false)
          warned
          (codes "hi")
          allows
          judge
          3).0.decision
unfolding eq_text
additive-run_with_strategy_example =
    additive-run_with_strategy parse_url blank blank (some counting) context
      (additive_strategy false) warned (codes "hi") allows judge 3 refl refl

external_egress-run_with_strategy_example :
    (run_with_strategy parse_url blank blank
      (some counting)
      context
      (additive_strategy true)
      warned
      (codes "hi")
      allows
      judge
      3).0.external_egress
    ≡ false
unfolding znyx_runtime.Engine.Escalation.is_gated
external_egress-run_with_strategy_example =
    external_egress-run_with_strategy parse_url blank blank (some counting) context
      (additive_strategy true) warned (codes "hi") allows judge 3 refl refl
