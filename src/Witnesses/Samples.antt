-- ===== src/Witnesses/Samples.antt =====
-- The sample configuration, results and callbacks.
use znyx_runtime.Prelude.{ℕ, suc, Text, codes, Bool, true, false, Option, none, some, [], ◌∷◌}
use znyx_runtime.Core.Models.{
  allow, block, redact, warn, remote_api, local_deterministic, DetectorResult, plain_result, Span,
}
use znyx_runtime.Engine.Config.{BackendSpec, StrategyConfig, truthy, stamp, DetectorConfig}
use znyx_runtime.Engine.Egress.{Url, EgressRequest, AuditContext, Redactor, Sink}
use znyx_runtime.Engine.Backends.{DetectorBackend, BackendStrategy, OrgDefault}
use znyx_runtime.Engine.Escalation.{returned, unavailable, Caller, JudgeCaller, legacy_judge}

abbrev pub warned : DetectorResult
warned = plain_result (some warn) 40

abbrev pub blocked_result : DetectorResult
blocked_result = plain_result (some block) 90

abbrev pub redacted_result : DetectorResult
redacted_result = record (plain_result (some redact) 60) {
  sanitized_text = some (codes "[X]");
  redaction_spans = record { start = 0; stop = 2; label = codes "x" } ∷ [];
}

abbrev pub spec_of : Option Text → BackendSpec
spec_of auth = record {
  endpoint_url = some (codes "api");
  model_id = some (codes "m");
  revision = none;
  task = none;
  provider = none;
  timeout_ms = none;
  auth_value = auth;
  region = some (codes "eu");
  in_boundary = none;
  params = none;
}

abbrev pub remote : DetectorBackend
remote = record { mode = remote_api; spec = spec_of none }

abbrev pub additive_strategy : Bool → BackendStrategy
additive_strategy no_external_calls = record {
  order = local_deterministic ∷ remote_api ∷ [];
  escalate_when = none;
  fallback = none;
  timeout_ms = none;
  additive = true;
  backends = remote ∷ [];
  no_external_calls = no_external_calls;
  allowed_regions = some (codes "eu" ∷ []);
  egress_allowlist = some (codes "api" ∷ []);
  redact_pii = true;
  redact_secrets = false;
}

abbrev pub parse_url : Text → Option Url
parse_url t = some (record { hostname = some t; netloc = t })

abbrev pub blank : Redactor
blank t = some (some (codes "#"))

abbrev pub counting : Sink ℕ
counting e n = (true, suc n)

abbrev pub context : AuditContext
context = record {
  occurred_at = 7;
  detector_key = codes "pii";
  org_scope = none;
  trace_id = none;
  model_version = none;
  new_event_id = codes "e1";
}

abbrev pub allows : Caller
allows b t timeout = returned (plain_result (some allow) 5)

abbrev pub judge : JudgeCaller ℕ
judge = legacy_judge (λ b t timeout. unavailable (codes "down"))

abbrev pub request : Bool → EgressRequest
request inside = record {
  endpoint_url = some (codes "api");
  region = some (codes "eu");
  in_boundary = some inside;
  no_external_calls = false;
  egress_allowlist = some (codes "api" ∷ []);
  allowed_regions = some (codes "eu" ∷ []);
  redact_pii = true;
  redact_secrets = false;
}

abbrev pub ml_strategy : StrategyConfig
ml_strategy = record {
  order = some (codes "local_ml" ∷ []);
  escalate_when = none;
  fallback = none;
  timeout_ms = none;
  additive = false;
}

abbrev pub config : DetectorConfig
config = record {
  strategy = some ml_strategy;
  backends = some ((codes "local_ml", spec_of (some (codes "own"))) ∷ []);
  scorecard_gate = some (
      stamp (record {
        enforcement_passed = truthy;
        model_version = none;
        validated_at = none;
        sig = none;
      }));
  fallback = none;
  timeout_ms = none;
  egress_allowlist = none;
  redact_before_egress = none;
  allowed_languages = none;
  blocked_languages = none;
}

abbrev pub org : OrgDefault
org = record {
  strategy = some (record ml_strategy { additive = true });
  backends = some ((codes "local_ml", spec_of (some (codes "org"))) ∷ []);
}

abbrev pub span : ℕ → ℕ → Span
span start stop = record { start = start; stop = stop; label = codes "id" }
