-- ===== src/Engine/Egress.antt =====
-- packages/znyx-core/src/znyx_core/engine/egress.py: the gate, the redaction and the audit that stand
-- before every call that leaves the trust boundary. `urlparse` and the two redacting detectors are
-- arguments, and so is the audit sink, which acts on a state of its own.
use mathlib.Core.List.{reverse}
use znyx_runtime.Prelude.{
  ℕ, ◌+◌, Text, codes, mem_text, eq_text, lower, has_text, or_text, Bool, true, false, not, ◌&&◌,
  ◌||◌, Option, none, some, List, [], ◌∷◌, ltb, ◌==◌, if◌then◌else◌,
}
use znyx_runtime.Core.Models.{
  ExecutionMode, local_deterministic, local_ml, local_embedding, local_llm, remote_llm, remote_api,
}
pub mod Gate
pub mod Audit

pub record EgressDecision : Type 0 where
  pub is_egress : Bool
  pub allowed : Bool
  pub reason : Option Text
  pub host : Option Text
  pub region : Option Text
  pub redact_pii : Bool
  pub redact_secrets : Bool
  pub allowlisted : Bool

pub record EgressEvent : Type 0 where
  pub occurred_at : ℕ
  pub detector_key : Text
  pub mode : ExecutionMode
  pub destination_host : Option Text
  pub destination_region : Option Text
  pub org_scope : Option Text
  pub trace_id : Option Text
  pub bytes_out : ℕ
  pub redacted : Bool
  pub allowlisted : Bool
  pub model_version : Option Text
  pub event_id : Text

unfoldable pub is_boundary_crossing : ExecutionMode → Option Bool → Bool
is_boundary_crossing remote_llm in_boundary = true
is_boundary_crossing remote_api in_boundary = true
is_boundary_crossing local_deterministic in_boundary = false
is_boundary_crossing _ none = false
is_boundary_crossing _ (some b) = not b

-- What `urlparse` says of a URL: `none` where it raises.
pub record Url : Type 0 where
  pub hostname : Option Text
  pub netloc : Text

-- The keyword arguments of a gated call that come from the backend and from the policy.
pub record EgressRequest : Type 0 where
  pub endpoint_url : Option Text
  pub region : Option Text
  pub in_boundary : Option Bool
  pub no_external_calls : Bool
  pub egress_allowlist : Option (List Text)
  pub allowed_regions : Option (List Text)
  pub redact_pii : Bool
  pub redact_secrets : Bool

-- `None in l` is false for a list of texts.
abbrev pub listed : Option Text → List Text → Bool
listed none l = false
listed (some t) l = mem_text t l

-- `netloc.rsplit("@", 1)[-1]`: what stands behind the last `@`.
before_at : Text → Text
before_at [] = []
before_at (c ∷ t) = let rest = before_at t in if c == 64 then [] else c ∷ rest

unfoldable pub behind_last_at : Text → Text
unfolding before_at
behind_last_at t = reverse (before_at (reverse t))

-- `allowed_regions is not None and (region is None or region not in …)`
unfoldable pub off_region : EgressRequest → Bool
off_region r = elim r.allowed_regions [ none ↦ false | some l ↦ not (listed r.region l) ]

abbrev is_given {ℓ} : {A : Type ℓ} → Option A → Bool
is_given none = false
is_given (some a) = true

module _ (urlparse : Text → Option Url) where
  unfoldable pub host_of : Option Text → Option Text
  host_of none = none
  host_of (some []) = none
  host_of (some (c ∷ t)) = elim (urlparse (c ∷ t)) [ none ↦ none | some u ↦ u.hostname ]

  authority_in : Text → Option Text
  authority_in [] = none
  authority_in (c ∷ t) = some (lower (behind_last_at (c ∷ t)))

  unfoldable pub authority_of : Option Text → Option Text
  unfolding authority_in
  authority_of none = none
  authority_of (some []) = none
  authority_of (some (c ∷ t)) = elim (urlparse (c ∷ t)) [
    | none ↦ none
    | some u ↦ authority_in u.netloc
  ]

  -- `egress_allowlist is not None and host not in … and authority not in …`
  unfoldable pub off_allowlist : EgressRequest → Bool
  unfolding host_of authority_of
  off_allowlist r = elim r.egress_allowlist [
    | none ↦ false
    | some l ↦
        not (listed (host_of r.endpoint_url) l) && not (listed (authority_of r.endpoint_url) l)
  ]

  decision : EgressRequest → Bool → Bool → Option Text → EgressDecision
  unfolding host_of
  decision r is_egress allowed reason = record {
    is_egress = is_egress;
    allowed = allowed;
    reason = reason;
    host = host_of r.endpoint_url;
    region = r.region;
    redact_pii = false;
    redact_secrets = false;
    allowlisted = false;
  }

  unfoldable pub evaluate_egress : ExecutionMode → EgressRequest → EgressDecision
  unfolding decision
  evaluate_egress mode r =
      if not (is_boundary_crossing mode r.in_boundary)
      then decision r false true none
      else if r.no_external_calls
      then decision r true false (some (codes "no_external_calls"))
      else if off_allowlist r
      then decision r true false (some (codes "egress_not_allowlisted"))
      else if off_region r
      then record (decision r true false (some (codes "residency_denied"))) { allowlisted = true }
      else record (decision r true true none) {
        redact_pii = r.redact_pii;
        redact_secrets = r.redact_secrets;
        allowlisted = is_given r.egress_allowlist;
      }

-- The length of a text in UTF-8.
utf8_width : ℕ → ℕ
utf8_width c = if ltb c 128 then 1 else if ltb c 2048 then 2 else if ltb c 65536 then 3 else 4

unfoldable pub utf8_length : Text → ℕ
unfolding utf8_width
utf8_length [] = 0
utf8_length (c ∷ t) = utf8_width c + utf8_length t

-- A redacting detector: `none` where it raises, else its `sanitized_text`.
abbrev pub Redactor : Type 0
Redactor = Text → Option (Option Text)

-- One redactor applied to what has been redacted so far; `none` is the `RedactionError`.
apply_redactor : Redactor → Bool → Text × Bool → Option (Text × Bool)
apply_redactor redactor strict (redacted, changed) = elim (redactor redacted) [
  | none ↦ if strict then none else some (redacted, changed)
  | some sanitized ↦
      if has_text sanitized && not (eq_text (or_text sanitized []) redacted)
      then some (or_text sanitized [], true)
      else some (redacted, changed)
]

abbrev when_on : Bool → (Text × Bool → Option (Text × Bool)) → Text × Bool → Option (Text × Bool)
when_on true f s = f s
when_on false f s = some s

unfoldable pub redact_for_egress :
    Redactor → Redactor → Text → Bool → Bool → Bool → Option (Text × Bool)
unfolding apply_redactor
redact_for_egress pii secrets text redact_pii redact_secrets strict =
    elim (when_on redact_pii (apply_redactor pii strict) (text, false)) [
      | none ↦ none
      | some s ↦ when_on redact_secrets (apply_redactor secrets strict) s
    ]

pub record PreparedEgress : Type 0 where
  pub decision : EgressDecision
  pub call_text : Text
  pub redacted : Bool
  pub proceed : Bool
  pub reason : Option Text
  pub event_id : Option Text

-- What only describes the call in its audit record.
pub record AuditContext : Type 0 where
  pub occurred_at : ℕ
  pub detector_key : Text
  pub org_scope : Option Text
  pub trace_id : Option Text
  pub model_version : Option Text
  pub new_event_id : Text

unfoldable pub denied : EgressDecision → Text → Option Text → PreparedEgress
denied d text reason = record {
  decision = d;
  call_text = text;
  redacted = false;
  proceed = false;
  reason = reason;
  event_id = none;
}

unfoldable pub audit_event :
    ExecutionMode → EgressDecision → AuditContext → Text → Bool → EgressEvent
audit_event mode d ctx call_text redacted = record {
  occurred_at = ctx.occurred_at;
  detector_key = ctx.detector_key;
  mode = mode;
  destination_host = d.host;
  destination_region = d.region;
  org_scope = ctx.org_scope;
  trace_id = ctx.trace_id;
  bytes_out = utf8_length call_text;
  redacted = redacted;
  allowlisted = d.allowlisted;
  model_version = ctx.model_version;
  event_id = ctx.new_event_id;
}

unfoldable pub cleared : EgressDecision → Text → Bool → Option Text → PreparedEgress
cleared d call_text redacted event_id = record {
  decision = d;
  call_text = call_text;
  redacted = redacted;
  proceed = true;
  reason = none;
  event_id = event_id;
}

-- A sink takes an event and returns whether it was persisted, with its new state.
abbrev pub Sink : Type 0 → Type 0
Sink S = EgressEvent → S → Bool × S

module _ {S : Type 0} where
  -- The third stage: the fail-closed audit.
  unfoldable pub record_crossing :
      Option (Sink S)
      → ExecutionMode
      → EgressDecision
      → AuditContext
      → Text
      → Text
      → Bool
      → S
      → PreparedEgress × S
  unfolding denied cleared
  record_crossing none mode d ctx text call_text redacted s =
      (denied d text (some (codes "egress_audit_unconfigured")), s)
  record_crossing (some sink) mode d ctx text call_text redacted s =
      let (persisted, s') = sink (audit_event mode d ctx call_text redacted) s in
      if persisted
      then (cleared d call_text redacted (some ctx.new_event_id), s')
      else (denied d text (some (codes "egress_audit_unavailable")), s')

  -- The last two stages, on what the redaction left: `none` where it failed.
  unfoldable pub audit_redacted :
      Option (Sink S)
      → ExecutionMode
      → EgressDecision
      → AuditContext
      → Text
      → Option (Text × Bool)
      → S
      → PreparedEgress × S
  unfolding record_crossing
  audit_redacted sink mode d ctx text none s = (denied d text (some (codes "redaction_failed")), s)
  audit_redacted sink mode d ctx text (some (call_text, redacted)) s =
      if d.is_egress
      then record_crossing sink mode d ctx text call_text redacted s
      else (cleared d call_text redacted none, s)

module _ {S : Type 0} (pii secrets : Redactor) (egress_sink : Option (Sink S)) where
  -- The sequence behind a decision.
  unfoldable pub carry_out :
      ExecutionMode → EgressDecision → AuditContext → Text → S → PreparedEgress × S
  unfolding audit_redacted
  carry_out mode d ctx text s =
      let redaction = redact_for_egress pii secrets text d.redact_pii d.redact_secrets true in
      if d.allowed
      then audit_redacted egress_sink mode d ctx text
          (if d.is_egress && (d.redact_pii || d.redact_secrets)
            then redaction
            else some (text, false))
          s
      else (denied d text d.reason, s)

  unfoldable pub prepare_and_audit_egress :
      (Text → Option Url)
      → ExecutionMode
      → Text
      → EgressRequest
      → AuditContext
      → S
      → PreparedEgress × S
  unfolding carry_out
  prepare_and_audit_egress urlparse mode text r ctx s =
      carry_out mode (evaluate_egress urlparse mode r) ctx text s
