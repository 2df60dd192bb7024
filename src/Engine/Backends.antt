-- ===== src/Engine/Backends.antt =====
-- packages/znyx-core/src/znyx_core/engine/backends.py: from a detector's policy block to the strategy
-- that the escalation runs. `inference_url()` and the loopback test on a URL are arguments.
pub mod OrgDefaults
use znyx_runtime.Prelude.{
  ℕ, Text, codes, eq_text, mem_text, has_text, Bool, true, false, not, ◌&&◌, ◌||◌, Option, none,
  some, List, [], ◌∷◌, ◌++◌, map, ltb, leb, if◌then◌else◌,
}
use znyx_runtime.Prelude.Dict
use znyx_runtime.Prelude.Dict.{Dict}
use znyx_runtime.Core.Models.{
  ExecutionMode, local_deterministic, local_ml, local_embedding, local_llm, remote_llm, remote_api,
}
use znyx_runtime.Engine.Config.{BackendSpec, EscalateWhen, StrategyConfig, DetectorConfig}
use znyx_runtime.Engine.ScorecardGate.{order_of}

-- `ExecutionMode(value)`, `none` for a value outside `_VALID_MODES`.
unfoldable pub parse_mode : Text → Option ExecutionMode
parse_mode t =
    if eq_text t (codes "local_deterministic")
    then some local_deterministic
    else if eq_text t (codes "local_ml")
    then some local_ml
    else if eq_text t (codes "local_embedding")
    then some local_embedding
    else if eq_text t (codes "local_llm")
    then some local_llm
    else if eq_text t (codes "remote_llm")
    then some remote_llm
    else if eq_text t (codes "remote_api")
    then some remote_api
    else none

unfoldable pub is_ml_mode : ExecutionMode → Bool
is_ml_mode local_ml = true
is_ml_mode local_embedding = true
is_ml_mode _ = false

unfoldable pub same_mode : ExecutionMode → ExecutionMode → Bool
same_mode local_deterministic local_deterministic = true
same_mode local_ml local_ml = true
same_mode local_embedding local_embedding = true
same_mode local_llm local_llm = true
same_mode remote_llm remote_llm = true
same_mode remote_api remote_api = true
same_mode _ _ = false

pub record DetectorBackend : Type 0 where
  pub mode : ExecutionMode
  pub spec : BackendSpec
  pub open spec use *

-- `model_version`, and `_configured_model_version` of escalation.py.
unfoldable pub model_version : BackendSpec → Option Text
model_version b =
    if has_text b.model_id && has_text b.revision
    then elim b.model_id [
      | none ↦ none
      | some m ↦ elim b.revision [ none ↦ none | some r ↦ some (m ++ (64 ∷ r)) ]
    ]
    else b.model_id

pub record BackendStrategy : Type 0 where
  pub order : List ExecutionMode
  pub escalate_when : Option EscalateWhen
  pub fallback : Option Text
  pub timeout_ms : Option ℕ
  pub additive : Bool
  pub backends : List DetectorBackend
  pub no_external_calls : Bool
  pub allowed_regions : Option (List Text)
  pub egress_allowlist : Option (List Text)
  pub redact_pii : Bool
  pub redact_secrets : Bool

find_backend : ExecutionMode → List DetectorBackend → Option DetectorBackend
find_backend mode [] = none
find_backend mode (b ∷ l) = if same_mode b.mode mode then some b else find_backend mode l

unfoldable pub backend_for : BackendStrategy → ExecutionMode → Option DetectorBackend
unfolding find_backend
backend_for s mode = find_backend mode s.backends

-- The org-level default of a detector.
pub record OrgDefault : Type 0 where
  pub strategy : Option StrategyConfig
  pub backends : Option (Dict BackendSpec)

-- One round of the loop that back-fills keys; the flag is `changed`.
unfoldable pub back_fill :
    List Text → Text → BackendSpec → Dict BackendSpec × Bool → Dict BackendSpec × Bool
back_fill order mode org_be (policy_backends, changed) =
    if not (has_text org_be.auth_value)
    then (policy_backends, changed)
    else elim (Dict.lookup mode policy_backends) [
      | some pol_be ↦
          if not (has_text pol_be.auth_value)
          then (
            Dict.insert mode (record pol_be { auth_value = org_be.auth_value }) policy_backends,
            true,
          )
          else (policy_backends, changed)
      | none ↦
          if mem_text mode order
          then (Dict.insert mode org_be policy_backends, true)
          else (policy_backends, changed)
    ]

unfoldable pub back_fill_all :
    List Text → Dict BackendSpec → Dict BackendSpec × Bool → Dict BackendSpec × Bool
unfolding back_fill
back_fill_all order [] acc = acc
back_fill_all order ((mode, org_be) ∷ rest) acc =
    back_fill_all order rest (back_fill order mode org_be acc)

abbrev pub or_empty : Option (Dict BackendSpec) → Dict BackendSpec
or_empty none = []
or_empty (some d) = d

abbrev with_back_filled : DetectorConfig → Dict BackendSpec × Bool → DetectorConfig
with_back_filled c (backends, changed) =
    if changed then record c { backends = some backends } else c

-- Where the policy has a strategy of its own only keys are filled in.
fill_keys : DetectorConfig → Option (Dict BackendSpec) → DetectorConfig
unfolding back_fill_all
fill_keys c none = c
fill_keys c (some org_backends) =
    with_back_filled c
      (back_fill_all (order_of c.strategy) org_backends (or_empty c.backends, false))

fill_backends : Option (Dict BackendSpec) → Option (Dict BackendSpec) → Option (Dict BackendSpec)
fill_backends (some d) org_backends = some d
fill_backends none org_backends = org_backends

layer_under :
    DetectorConfig
    → StrategyConfig
    → Option (Dict BackendSpec)
    → Option StrategyConfig
    → DetectorConfig
unfolding fill_keys fill_backends
layer_under c org_strategy org_backends (some own) = fill_keys c org_backends
layer_under c org_strategy org_backends none = record c {
  strategy = some org_strategy;
  backends = fill_backends c.backends org_backends;
}

layer_strategy : DetectorConfig → OrgDefault → Option StrategyConfig → DetectorConfig
unfolding layer_under
layer_strategy c org none = c
layer_strategy c org (some org_strategy) = layer_under c org_strategy org.backends c.strategy

unfoldable pub layer_org_default : DetectorConfig → Option OrgDefault → DetectorConfig
unfolding layer_strategy
layer_org_default c none = c
layer_org_default c (some org) = layer_strategy c org org.strategy

valid_modes : List Text → List ExecutionMode
valid_modes [] = []
valid_modes (t ∷ l) = elim (parse_mode t) [ none ↦ valid_modes l | some m ↦ m ∷ valid_modes l ]

backends_of : Dict BackendSpec → List DetectorBackend
backends_of [] = []
backends_of ((t, spec) ∷ d) = elim (parse_mode t) [
  | none ↦ backends_of d
  | some m ↦ record { mode = m; spec = spec } ∷ backends_of d
]

-- `{**(be.params or {}), **lang_keys}`
abbrev with_param : Text → Option (List Text) → Dict (List Text) → Dict (List Text)
with_param key none params = params
with_param key (some langs) params = Dict.insert key langs params

abbrev or_no_params : Option (Dict (List Text)) → Dict (List Text)
or_no_params none = []
or_no_params (some d) = d

abbrev is_some {ℓ} : {A : Type ℓ} → Option A → Bool
is_some none = false
is_some (some a) = true

abbrev serves_language : Option Text → Bool
serves_language none = false
serves_language (some t) = eq_text t (codes "language")

-- `_inject_language_params`, on one backend.
unfoldable pub inject_language_params : DetectorConfig → DetectorBackend → DetectorBackend
inject_language_params c b =
    if (is_some c.allowed_languages || is_some c.blocked_languages) && serves_language b.task
    then record b {
      spec = record (b.spec) {
        params = some (
            with_param (codes "blocked_languages") c.blocked_languages
              (with_param (codes "allowed_languages") c.allowed_languages (or_no_params b.params)));
      };
    }
    else b

module _ (inference_url : Text) (is_loopback : Text → Bool) where
  -- `_resolve_ml_endpoints`, on one backend.
  unfoldable pub resolve_ml_endpoint : DetectorBackend → DetectorBackend
  resolve_ml_endpoint b =
      if not (is_ml_mode b.mode) || (has_text b.endpoint_url || not (has_text b.task))
      then b
      else let url =
          inference_url ++ (codes "/v1/infer/" ++ elim b.task [ none ↦ [] | some t ↦ t ]) in
        record b {
          spec = record (b.spec) {
            endpoint_url = some url;
            in_boundary = elim b.in_boundary [ none ↦ some (is_loopback url) | some x ↦ some x ];
          };
        }

  abbrev flag_or : Bool → Option Bool → Bool
  flag_or d none = d
  flag_or d (some b) = b

  abbrev or_else : Option Text → Option Text → Option Text
  or_else none b = b
  or_else (some []) b = b
  or_else (some (c ∷ t)) b = some (c ∷ t)

  -- `a or b`, on optional numbers: 0 is false.
  abbrev or_number : Option ℕ → Option ℕ → Option ℕ
  or_number none b = b
  or_number (some n) b = if ltb 0 n then some n else b

  redaction_flags : Option (Option Bool × Option Bool) → Bool × Bool
  redaction_flags none = (false, false)
  redaction_flags (some (p, s)) = (flag_or true p, flag_or true s)

  strategy_from :
      DetectorConfig
      → Bool
      → Option (List Text)
      → StrategyConfig
      → List ExecutionMode
      → Option BackendStrategy
  unfolding redaction_flags backends_of
  strategy_from c no_external_calls allowed_regions strat [] = none
  strategy_from c no_external_calls allowed_regions strat (m ∷ order) = some (record {
    order = m ∷ order;
    escalate_when = strat.escalate_when;
    fallback = or_else strat.fallback c.fallback;
    timeout_ms = or_number strat.timeout_ms c.timeout_ms;
    additive = strat.additive;
    backends =
        map (λ b. inject_language_params c (resolve_ml_endpoint b))
          (backends_of (or_empty c.backends));
    no_external_calls = no_external_calls;
    allowed_regions = allowed_regions;
    egress_allowlist = c.egress_allowlist;
    redact_pii = (redaction_flags c.redact_before_egress).0;
    redact_secrets = (redaction_flags c.redact_before_egress).1;
  })

  -- `build_strategy` with the runtime policy's two egress settings.
  unfoldable pub build_strategy :
      DetectorConfig → Bool → Option (List Text) → Option OrgDefault → Option BackendStrategy
  unfolding strategy_from valid_modes
  build_strategy config no_external_calls allowed_regions org_default =
      let c = layer_org_default config org_default in
      elim c.strategy [
        | none ↦ none
        | some strat ↦
            strategy_from c no_external_calls allowed_regions strat
              (valid_modes (order_of (some strat)))
      ]

abbrev pub is_deterministic : ExecutionMode → Bool
is_deterministic local_deterministic = true
is_deterministic _ = false

-- `len(band) == 2 and …`: any other band is ignored.
in_band : Option (List ℕ) → ℕ → Bool
in_band (some (low ∷ high ∷ [])) score = leb low score && leb score high
in_band _ score = true

below : Option ℕ → Option ℕ → Bool
below none confidence = true
below (some threshold) none = true
below (some threshold) (some confidence) = ltb confidence threshold

unfoldable pub should_escalate : Option EscalateWhen → ExecutionMode → ℕ → Option ℕ → Bool
unfolding in_band below
should_escalate none mode risk confidence = true
should_escalate (some w) mode risk confidence =
    if is_deterministic mode
    then in_band w.deterministic_score_between risk
    else below w.ml_confidence_below confidence
