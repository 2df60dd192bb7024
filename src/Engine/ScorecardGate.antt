-- ===== src/Engine/ScorecardGate.antt =====
-- packages/znyx-core/src/znyx_core/engine/scorecard_gate.py: the quality bar of a model-backed
-- detector. A metric is a signed number of ten-thousandths, the precision of the scorecards;
-- instants are seconds.
use mathlib.Core.Option
use znyx_runtime.Prelude.{
  ℕ, zero, suc, ◌+◌, ◌-◌, ◌*◌, min, ℤ, pos, negsuc, ltb_ℤ, Text, codes, eq_text, mem_text, upper,
  has_text, or_text, Bool, true, false, ◌&&◌, ◌||◌, not, Option, none, some, List, [], ◌∷◌, ◌++◌,
  any, ltb, if◌then◌else◌,
}
use znyx_runtime.Engine.Config.{BackendSpec, StrategyConfig, DetectorConfig}
pub mod Tiers

abbrev pub advisory : Text
advisory = codes "advisory"

abbrev pub enforcement : Text
enforcement = codes "enforcement"

abbrev pub model_backed_modes : List Text
model_backed_modes =
    codes "local_ml"
    ∷ codes "local_embedding"
    ∷ codes "local_llm"
    ∷ codes "remote_llm"
    ∷ codes "remote_api"
    ∷ []

abbrev pub enforcing_actions : List Text
enforcing_actions = codes "BLOCK" ∷ codes "REDACT" ∷ []

abbrev pub order_of : Option StrategyConfig → List Text
order_of none = []
order_of (some s) = elim s.order [ none ↦ [] | some order ↦ order ]

unfoldable pub is_model_backed : DetectorConfig → Bool
unfolding mem_text eq_text
is_model_backed config = any (λ mode. mem_text mode model_backed_modes) (order_of config.strategy)

unfoldable pub required_tier_for_action : Option Text → Text
required_tier_for_action action =
    if mem_text (upper (or_text action [])) enforcing_actions then enforcement else advisory

-- The spec under a mode, and the empty dict where there is none.
backend_spec : Text → Option (List (Text × BackendSpec)) → Option BackendSpec
backend_spec mode none = none
backend_spec mode (some []) = none
backend_spec mode (some ((m, spec) ∷ rest)) =
    if eq_text m mode then some spec else backend_spec mode (some rest)

version_of : Option BackendSpec → Text
version_of none = codes "default"
version_of (some spec) =
    if has_text spec.model_id && has_text spec.revision
    then or_text spec.model_id [] ++ codes "@" ++ or_text spec.revision []
    else or_text spec.model_id (codes "default")

versions_from : Option (List (Text × BackendSpec)) → List Text → List Text → List Text
versions_from backends out [] = out
versions_from backends out (mode ∷ order) =
    let version = version_of (backend_spec mode backends) in
    versions_from backends
      (if mem_text mode model_backed_modes && not (mem_text version out)
        then out ++ version ∷ []
        else out)
      order

unfoldable pub model_versions_for : DetectorConfig → List Text
unfolding backend_spec version_of versions_from
model_versions_for config = versions_from config.backends [] (order_of config.strategy)

unfoldable pub resolve_gated_action : Option Text → Bool → Text × Bool
unfolding mem_text eq_text upper
resolve_gated_action action enforcement_passed =
    let act = upper (or_text action []) in
    if mem_text act enforcing_actions && not enforcement_passed
    then (codes "WARN", true)
    else (act, false)

-- The bars of one tier, in ten-thousandths but for the samples (a count) and the age (days).
pub record Gate : Type 0 where
  pub min_f1 : ℕ
  pub min_auroc : ℕ
  pub max_ece : ℕ
  pub max_fp_rate : ℕ
  pub max_p95_latency_ms : ℕ
  pub min_samples_per_language : ℕ
  pub max_validation_age_days : ℕ

abbrev pub advisory_gate : Gate
advisory_gate = record {
  min_f1 = 6000;
  min_auroc = 7000;
  max_ece = 1500;
  max_fp_rate = 1500;
  max_p95_latency_ms = 15_000_000;
  min_samples_per_language = 50;
  max_validation_age_days = 365;
}

abbrev pub enforcement_gate : Gate
enforcement_gate = record {
  min_f1 = 8000;
  min_auroc = 8500;
  max_ece = 1000;
  max_fp_rate = 500;
  max_p95_latency_ms = 10_000_000;
  min_samples_per_language = 100;
  max_validation_age_days = 180;
}

-- `_CATEGORY_OVERRIDES`
unfoldable pub override_gate : Option Text → Gate → Gate
override_gate none g = g
override_gate (some category) g =
    if eq_text category (codes "healthcare")
    then record g { min_f1 = 8800; min_auroc = 9200; max_fp_rate = 200; max_ece = 700 }
    else if eq_text category (codes "legal") || eq_text category (codes "finance")
    then record g { min_f1 = 8500; min_auroc = 9000; max_fp_rate = 300; max_ece = 800 }
    else g

-- `none` is the `ValueError` of an unknown tier.
unfoldable pub gate_for : Text → Option Text → Option Gate
unfolding override_gate
gate_for tier category =
    if eq_text tier advisory
    then some (override_gate category advisory_gate)
    else if eq_text tier enforcement
    then some (override_gate category enforcement_gate)
    else none

-- A value of the scorecard dict: only a finite number that is no bool counts.
pub data Metric : Type 0 where
  absent : Metric
  boolean : Bool → Metric
  not_finite : Metric
  not_number : Metric
  number : ℤ → Metric

unfoldable pub num : Metric → Option ℤ
num (number v) = some v
num _ = none

-- A value of `per_language`.
pub data Evidence : Type 0 where
  dict : Option ℕ → Evidence
  count : ℕ → Evidence
  other : Evidence

pub data ValidatedAt : Type 0 where
  missing : ValidatedAt
  iso : Text → ValidatedAt
  instant : ℕ → ValidatedAt

pub record Scorecard : Type 0 where
  pub f1 : Metric
  pub auroc : Metric
  pub ece : Metric
  pub fp_rate : Metric
  pub p95_latency_ms : Metric
  pub per_language : List (Text × Evidence)
  pub validated_at : ValidatedAt

pub data MetricName : Type 0 where
  f1 auroc ece fp_rate p95_latency_ms samples_per_language validation_age_days : MetricName

-- An entry of `failures`; its `op` follows from the metric.
pub record Failure : Type 0 where
  pub metric : MetricName
  pub required : ℕ
  pub actual : Option ℤ

pub record GateResult : Type 0 where
  pub passed : Bool
  pub tier : Text
  pub failures : List Failure
  pub gate : Gate

-- `actual is None or actual < bar`, and the other way round.
unfoldable pub too_low : Option ℤ → ℕ → Bool
too_low none bar = true
too_low (some v) bar = ltb_ℤ v (pos bar)

unfoldable pub too_high : Option ℤ → ℕ → Bool
too_high none bar = true
too_high (some v) bar = ltb_ℤ (pos bar) v

min_count : Option ℕ → ℕ → Option ℕ
min_count none n = some n
min_count (some m) n = some (min m n)

unfoldable pub min_lang_samples : List (Text × Evidence) → Option ℕ
unfolding min_count
min_lang_samples [] = none
min_lang_samples ((lang, dict none) ∷ rest) = min_count (min_lang_samples rest) 0
min_lang_samples ((lang, dict (some n)) ∷ rest) = min_count (min_lang_samples rest) n
min_lang_samples ((lang, count n) ∷ rest) = min_count (min_lang_samples rest) n
min_lang_samples ((lang, other) ∷ rest) = min_lang_samples rest

unfoldable pub too_few : Option ℕ → ℕ → Bool
too_few none bar = true
too_few (some n) bar = ltb n bar

abbrev pub seconds_per_day : ℕ
seconds_per_day = 86400

-- `now - validated_at`, in seconds.
abbrev since : ℕ → ℕ → ℤ
since now then' = if ltb now then' then negsuc (then' - now - 1) else pos (now - then')

-- Older than the bar, or dated later than a day from now (`_CLOCK_SKEW_DAYS`).
unfoldable pub out_of_date : Option ℤ → ℕ → Bool
out_of_date none bar = true
out_of_date (some age) bar = ltb_ℤ (pos (bar * seconds_per_day)) age || ltb_ℤ age (negsuc 86399)

abbrev pub fail_if : Bool → MetricName → ℕ → Option ℤ → List Failure
fail_if true metric required actual =
    record { metric = metric; required = required; actual = actual } ∷ []
fail_if false metric required actual = []

abbrev pub as_ℤ : Option ℕ → Option ℤ
as_ℤ none = none
as_ℤ (some n) = some (pos n)

abbrev pub is_empty {ℓ} : {A : Type ℓ} → List A → Bool
is_empty [] = true
is_empty (x ∷ xs) = false

-- `datetime.fromisoformat` and the clock are the platform's.
module _ (from_isoformat : Text → Option ℕ) (now : ℕ) where
  unfoldable pub validation_age : ValidatedAt → Option ℤ
  validation_age missing = none
  validation_age (iso []) = none
  validation_age (iso (c ∷ t)) = elim (from_isoformat (c ∷ t)) [
    | none ↦ none
    | some at ↦ some (since now at)
  ]
  validation_age (instant at) = some (since now at)

  unfoldable pub failures_of : Gate → Scorecard → List Failure
  failures_of gate s =
      fail_if (too_low (num s.f1) gate.min_f1) MetricName.f1 gate.min_f1 (num s.f1)
      ++ (fail_if (too_low (num s.auroc) gate.min_auroc) MetricName.auroc gate.min_auroc
            (num s.auroc)
          ++ (fail_if (too_high (num s.ece) gate.max_ece) MetricName.ece gate.max_ece (num s.ece)
              ++ (fail_if (too_high (num s.fp_rate) gate.max_fp_rate) MetricName.fp_rate
                    gate.max_fp_rate (num s.fp_rate)
                  ++ (fail_if (too_high (num s.p95_latency_ms) gate.max_p95_latency_ms)
                        MetricName.p95_latency_ms gate.max_p95_latency_ms (num s.p95_latency_ms)
                      ++ (fail_if
                            (too_few (min_lang_samples s.per_language)
                              gate.min_samples_per_language)
                            samples_per_language gate.min_samples_per_language
                            (as_ℤ (min_lang_samples s.per_language))
                          ++ fail_if
                              (out_of_date (validation_age s.validated_at)
                                gate.max_validation_age_days)
                              validation_age_days gate.max_validation_age_days
                              (validation_age s.validated_at))))))

  -- `GateResult(passed=not failures, …)`
  unfoldable pub gate_result : Text → Scorecard → Gate → GateResult
  unfolding failures_of
  gate_result tier s gate =
      let failures = failures_of gate s in
      record { passed = is_empty failures; tier = tier; failures = failures; gate = gate }

  unfoldable pub evaluate_gate : Text → Option Text → Scorecard → Option GateResult
  unfolding gate_result
  evaluate_gate tier category s = Option.map (gate_result tier s) (gate_for tier category)
