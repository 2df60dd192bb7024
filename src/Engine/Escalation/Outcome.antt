-- ===== src/Engine/Escalation/Outcome.antt =====
-- The outcome of `run_with_strategy` of engine/escalation.py: after a fallback, and with an additive
-- strategy.
use znyx_runtime.Prelude.{
  ℕ, ◌≤◌, Text, codes, eq_text, or_text, Bool, true, false, false≢true, Option, none, some, ◌≡◌,
  refl, sym, ap, ◌∙◌, ◌⊎◌, inl, inr, arith, if◌then◌else◌, Bool-cases, Option-cases,
}
use znyx_runtime.Core.Models.{Decision, allow, block, ExecutionMode, DetectorResult}
use znyx_runtime.Core.Labels.{decision_rank}
use znyx_runtime.Engine.Egress.{Url, Redactor, Sink, AuditContext}
use znyx_runtime.Engine.Backends.{BackendStrategy, is_deterministic}
use znyx_runtime.Engine.Attempt.{fallback_result, additive_merge}
use znyx_runtime.Engine.Attempt.Merge.{additive_merge_worst}
use znyx_runtime.Engine.Escalation.{
  Caller, JudgeCaller, Run, record_fallback, record_success, escalate, start, finish, gate_of,
  run_with_strategy,
}
use znyx_runtime.Engine.Escalation.Induct.{Keeps, escalate_keeps}

-- The decision and the risk that a fallback policy stands for.
abbrev pub policy_outcome : Text → DetectorResult → Option Decision × ℕ
policy_outcome policy det =
    if eq_text policy (codes "fail_open")
    then (some allow, 0)
    else if eq_text policy (codes "fail_closed")
    then (some block, 100)
    else (det.decision, det.risk_score)

abbrev pub policy_of : BackendStrategy → Text
policy_of strategy = or_text strategy.fallback (codes "fallback_to_deterministic")

-- A fallback is what its policy stands for; if the deterministic mode is selected, so is its result.
Settled : {S : Type 0} → BackendStrategy → DetectorResult → Run S → Type 0
Settled strategy det run =
    ((run.fallback_path ≡ none)
      ⊎ ((run.selected_result.decision, run.selected_result.risk_score)
          ≡ policy_outcome (policy_of strategy) det))
    × (is_deterministic run.selected_mode ≡ true → run.selected_result ≡ det)

outcome-fallback_result :
    (policy : Text) (det : DetectorResult) (mode : ExecutionMode) (err : Text)
    → let fb = fallback_result policy det mode err in
      (fb.result.decision, fb.result.risk_score) ≡ policy_outcome policy det
unfolding fallback_result
outcome-fallback_result policy det mode err =
    elim (Bool-cases (eq_text policy (codes "fail_open"))) [
      | inl o ↦ rw o refl
      | inr o ↦ rw o (elim (Bool-cases (eq_text policy (codes "fail_closed"))) [
        | inl c ↦ rw c refl
        | inr c ↦ rw c refl
      ])
    ]

mode-fallback_result :
    (policy : Text) (det : DetectorResult) (mode : ExecutionMode) (err : Text)
    → is_deterministic mode ≡ false
    → let fb = fallback_result policy det mode err in
      is_deterministic fb.mode ≡ true → fb.result ≡ det
unfolding fallback_result
mode-fallback_result policy det mode err m =
    elim (Bool-cases (eq_text policy (codes "fail_open"))) [
      | inl o ↦ rw o (λ e. absurd (false≢true (sym m ∙ e)))
      | inr o ↦ rw o (elim (Bool-cases (eq_text policy (codes "fail_closed"))) [
        | inl c ↦ rw c (λ e. absurd (false≢true (sym m ∙ e)))
        | inr c ↦ rw c (λ e. refl)
      ])
    ]

Anything : Bool → Type 0
Anything c = Unit

Settled-Keeps :
    {S : Type 0} (strategy : BackendStrategy) (det : DetectorResult)
    → Keeps {S = S} strategy det Anything (Settled strategy det)
unfolding Settled record_fallback record_success
Settled-Keeps strategy det = record {
  sink = λ run s h. h;
  fallback = λ mode reason run m n h. (
    inr (outcome-fallback_result (policy_of strategy) det mode reason),
    mode-fallback_result (policy_of strategy) det mode reason m,
  );
  success = λ mode crossed result run m n c h. (inl n, λ e. absurd (false≢true (sym m ∙ e)));
}

start-Settled :
    {S : Type 0} (strategy : BackendStrategy) (det : DetectorResult) (s : S)
    → Settled strategy det (start strategy det s)
unfolding Settled start
start-Settled strategy det s = (inl refl, λ e. refl)

rank-block : (d : Option Decision) → decision_rank d ≤ 5
rank-block d = ground arith

finish-Settled :
    {S : Type 0} (strategy : BackendStrategy) (det : DetectorResult) (text : Text) (run : Run S)
    → Settled strategy det run
    → let r = finish strategy det text run in
      ((r.fallback_path ≡ none)
        ⊎ ((r.decision, r.risk_score) ≡ policy_outcome (policy_of strategy) det))
unfolding Settled finish
finish-Settled strategy det text run (inl e, f) = inl e
finish-Settled strategy det text run (inr e, f) = elim (Option-cases run.fallback_path) [
  | inl n ↦ inl n
  | inr (path, n) ↦
      inr (elim (Bool-cases strategy.additive) [ inl a ↦ rw (n, a) e | inr a ↦ rw a e ])
]

rank-policy_outcome :
    (policy : Text) (det : DetectorResult)
    → eq_text policy (codes "fail_open") ≡ false
    → decision_rank det.decision ≤ decision_rank (policy_outcome policy det).0
rank-policy_outcome policy det o = elim (Bool-cases (eq_text policy (codes "fail_closed"))) [
  | inl c ↦ rw (o, c) (rank-block det.decision)
  | inr c ↦ rw (o, c) (omega arith)
]

rank-additive_merge :
    (det other : DetectorResult) (text : Text)
    → decision_rank det.decision ≤ decision_rank (additive_merge det other text).decision
rank-additive_merge det other text = omega (arith, (additive_merge_worst det other text).0)

additive_finish :
    {S : Type 0} (strategy : BackendStrategy) (det : DetectorResult) (text : Text) (run : Run S)
    → strategy.additive ≡ true
    → eq_text (policy_of strategy) (codes "fail_open") ≡ false
    → Settled strategy det run
    → decision_rank det.decision ≤ decision_rank (finish strategy det text run).decision
unfolding Settled finish
additive_finish strategy det text run a o (s, f) = elim (Option-cases run.fallback_path) [
  | inl n ↦ elim (Bool-cases (is_deterministic run.selected_mode)) [
    | inl d ↦ rw (a, n, d) (rw (f d) (omega arith))
    | inr d ↦ rw (a, n, d) (rank-additive_merge det run.selected_result text)
  ]
  | inr (path, n) ↦
      rw (a, n)
        (elim s [
          | inl e ↦ cc
          | inr e ↦
              rw (ap (λ (x : Option Decision × ℕ). decision_rank x.0) e)
                (rank-policy_outcome (policy_of strategy) det o)
        ])
]

module _ {S : Type 0} (urlparse : Text → Option Url) (pii secrets : Redactor)
    (egress_sink : Option (Sink S)) (context : AuditContext) (strategy : BackendStrategy)
    (det : DetectorResult) (text : Text) (caller : Caller) (judge_caller : JudgeCaller S)
    (s : S) where
  final_Settled : Settled strategy det (
      escalate strategy det text caller
        (gate_of urlparse pii secrets egress_sink context strategy)
        judge_caller
        strategy.order
        (start strategy det s))
  unfolding Anything start
  final_Settled =
      escalate_keeps strategy det (Settled-Keeps strategy det) text caller
        (gate_of urlparse pii secrets egress_sink context strategy) (λ mode b s' go. tt)
        judge_caller (λ mode b g. tt) strategy.order (start strategy det s) refl
        (start-Settled strategy det s)

  -- Either no fallback is reported, or the decision and the risk are those of the strategy's fallback
  -- policy: allow and 0 where it fails open, block and 100 where it fails closed, the deterministic
  -- ones otherwise. This holds whatever the backends, the judge and the sink answer.
  pub fallback-run_with_strategy :
      let r =
        (run_with_strategy urlparse pii secrets egress_sink context strategy det text caller
          judge_caller s).0 in
      (r.fallback_path ≡ none)
      ⊎ ((r.decision, r.risk_score) ≡ policy_outcome (policy_of strategy) det)
  unfolding run_with_strategy
  fallback-run_with_strategy = finish-Settled strategy det text _ final_Settled

  -- An additive escalation whose policy is not to fail open never gives a milder decision than the
  -- deterministic one, whatever the backends, the judge and the sink answer.
  pub additive-run_with_strategy :
      strategy.additive ≡ true
      → eq_text (policy_of strategy) (codes "fail_open") ≡ false
      → decision_rank det.decision
        ≤ decision_rank
            (run_with_strategy urlparse pii secrets egress_sink context strategy det text caller
              judge_caller s).0.decision
  unfolding run_with_strategy
  additive-run_with_strategy a o = additive_finish strategy det text _ a o final_Settled
