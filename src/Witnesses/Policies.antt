-- ===== src/Witnesses/Policies.antt =====
-- The theorems on policies, bundles and the bundle manager, at concrete inputs.
use znyx_runtime.Prelude.{
  ℕ, Text, codes, Bool, true, false, not, Option, none, some, List, [], ◌∷◌, ◌++◌, eq_text,
  mem_text, has_text, or_text, ◌≡◌, ◌≢◌, ◌⊎◌, refl, if◌then◌else◌, inr,
}
use znyx_runtime.Policy.Value.{Value, boolean, text, object, Object, empty, entry}
use znyx_runtime.Policy.Bundle.{
  Bundle, scope_key, resolve_scope, compute_hash, canonical_signing_payload_v2, resign_bundle,
  validate_bundle,
}
use znyx_runtime.Policy.Bundle.Scopes.{resolve_scope-isolated}
use znyx_runtime.Policy.Bundle.Trust.{
  IsSigned, validate_bundle-issued, validate_bundle-resign_bundle,
}
use znyx_runtime.Policy.Bundle.Document.{to_dict, from_dict-to_dict}
use znyx_runtime.Runtime.BundleManager.{
  File, missing, unreadable, yaml_policies, Outcome, returned, raised, Manager, new, Config,
  Response, unreachable, not_modified, served, Attempt,
}
use znyx_runtime.Runtime.BundleManager.Load.{if_none_match, start, poll}
use znyx_runtime.Runtime.BundleManager.Trusted.{
  IsAccepted, IsTrusted, IsFetched, Event, polled, ended, run, poll-bundle,
}
use znyx_runtime.Runtime.BundleManager.Boot.{serving-IsTrusted}
use znyx_runtime.Runtime.BundleManager.Recovery.{serving-closed}
use znyx_runtime.Runtime.BundleManager.Restart.{start-returns, restart-poll, start-unreadable}

abbrev dumps : Object → Text
dumps o = codes "doc"

abbrev sha256 : Text → Text
sha256 t = codes "0123456789abcdef"

abbrev sign : Text → Text → Option Text
sign pem m = some (115 ∷ m)

abbrev verify : Text → Text → Text → Bool
verify pem s m = eq_text s (115 ∷ m)

abbrev pii : Value → Object
pii v = entry (codes "pii") (object (entry (codes "action") v empty)) empty

abbrev file : Object
file = entry (codes "default") (object (pii (text (codes "WARN")))) (
    entry (codes "tenants") (object (entry (codes "t") (object (pii (text (codes "BLOCK")))) empty))
      empty)

abbrev j_pii : Text
j_pii = codes "pii"

abbrev sample : Bundle
sample = record {
  version = 1;
  bundle_id = codes "b1";
  org_id = codes "o";
  project_id = codes "p";
  environment = codes "prod";
  published_at = codes "now";
  policies = pii (boolean true);
  policy_hash = [];
  signature = none;
  scope = empty;
  scope_policies = (scope_key (codes "o") (codes "*") (codes "*") (codes "prod"), empty) ∷ [];
  signature_v2 = none;
}

resolve_scope-isolated_example :
    resolve_scope
      (record sample {
        scope_policies =
            (scope_key (codes "x") (codes "p") (codes "g") (codes "prod"), pii (boolean false))
            ∷ sample.scope_policies;
      })
      (codes "o")
      (codes "p")
      (codes "g")
      (codes "prod")
    ≡ resolve_scope sample (codes "o") (codes "p") (codes "g") (codes "prod")
unfolding eq_text
resolve_scope-isolated_example =
    resolve_scope-isolated sample (codes "o") (codes "p") (codes "g") (codes "prod") (codes "x")
      (codes "p") (codes "g") (codes "prod") (pii (boolean false)) refl refl refl refl

abbrev key : Text
key = codes "k"

key_pair : (m : Text) → IsSigned dumps sha256 sign verify (codes "k") (codes "k") m
key_pair m = record {
  made = 115 ∷ m;
  made_eq = refl;
  not_empty = refl;
  verifies = znyx_runtime.Prelude.eq_text_refl (115 ∷ m);
}

validate_bundle-resign_bundle_example :
    (out : Bundle) × (resign_bundle dumps sign sha256 sample (some (codes "k")) ≡ some out)
    × (validate_bundle dumps verify sha256 out (some (codes "k")) true true ≡ true)
validate_bundle-resign_bundle_example =
    validate_bundle-resign_bundle dumps sha256 sign verify sample b'k' b'k' [] [] true true refl
      key_pair

abbrev signed_sample : Bundle
signed_sample = record sample {
  policy_hash = compute_hash dumps sha256 sample;
  signature = some (115 ∷ compute_hash dumps sha256 sample);
  signature_v2 = some (115 ∷ canonical_signing_payload_v2 dumps sample);
}

abbrev messages : List Text
messages = signed_sample.policy_hash ∷ canonical_signing_payload_v2 dumps signed_sample ∷ []

abbrev verify_listed : Text → Text → Text → Bool
verify_listed pem s m = mem_text m messages

abbrev IsIssued : Text → Type 0
IsIssued m = mem_text m messages ≡ true

validate_bundle-issued_example :
    IsIssued signed_sample.policy_hash × IsIssued (canonical_signing_payload_v2 dumps signed_sample)
unfolding validate_bundle eq_text mem_text
validate_bundle-issued_example =
    validate_bundle-issued dumps sha256 verify_listed IsIssued signed_sample key false (λ s m e. e)
      refl

-- A printer and a reader of one document.
abbrev to_text : Object → Text
to_text o = codes "bundle"

abbrev of_text : Text → Option Object
of_text t = if eq_text t (codes "bundle") then some (to_dict signed_sample) else none

abbrev config : Config
config = record {
  mode = codes "managed";
  policy_path = codes "policies.yaml";
  fail_mode = codes "closed";
  bundle_public_key = some key;
  require_signed_bundles = true;
  require_bundle_sig_v2 = true;
}

-- A round that is answered with the signed bundle, or not at all, or with a bundle nobody signed.
abbrev good : Attempt
good = record {
  answer = λ sent. served (some (to_dict signed_sample)) (some (codes "e1"));
  copied = true;
  written = true;
}

abbrev out : Attempt
out = record { answer = λ sent. unreachable; copied = true; written = true }

abbrev forged : Attempt
forged = record {
  answer = λ sent. served (some (to_dict sample)) none;
  copied = true;
  written = true;
}

abbrev events : List Event
events = polled out ∷ ended ∷ polled forged ∷ []

abbrev booted : Manager
booted =
    (start dumps to_text of_text sha256 verify config missing (out ∷ good ∷ [])
      (new missing missing)).1

serving-IsTrusted_example :
    IsTrusted dumps to_text of_text sha256 verify config
      (run dumps to_text of_text sha256 verify config events booted).bundle
unfolding start eq_text
serving-IsTrusted_example =
    serving-IsTrusted dumps to_text of_text sha256 verify config missing missing missing
      (out ∷ good ∷ []) events refl

serving-closed_example :
    (b : Bundle) × ((run dumps to_text of_text sha256 verify config events booted).bundle ≡ some b)
    × IsAccepted dumps to_text of_text sha256 verify config b
unfolding eq_text start
serving-closed_example =
    serving-closed dumps to_text of_text sha256 verify config missing missing missing
      (out ∷ good ∷ []) events refl refl ((λ e. cc), ((λ e. cc), tt)) refl

start-returns_example :
    (start dumps to_text of_text sha256 verify config missing
      (out ∷ good ∷ [])
      (new missing missing)).0
    ≡ returned
unfolding eq_text znyx_runtime.Runtime.BundleManager.accepts
start-returns_example =
    start-returns dumps to_text of_text sha256 verify config missing (out ∷ []) [] good
      signed_sample (some (codes "e1")) (new missing missing) refl
      ((λ sent. (to_dict signed_sample, refl, from_dict-to_dict signed_sample)), refl, refl)

restart-poll_example :
    let left = poll dumps to_text of_text sha256 verify config good booted in
    let boot =
      start dumps to_text of_text sha256 verify config missing
        (out ∷ [])
        (new left.cache left.backup) in
    (boot.0 ≡ returned) × (boot.1.bundle ≡ some signed_sample) × (boot.1.cache ≡ left.cache)
unfolding eq_text znyx_runtime.Runtime.BundleManager.accepts
restart-poll_example =
    restart-poll dumps to_text of_text sha256 verify config missing good signed_sample
      (some (codes "e1")) booted (out ∷ []) refl refl
      ((λ sent. (to_dict signed_sample, refl, from_dict-to_dict signed_sample)), refl, refl)
      ((λ tag. refl), tt)

start-unreadable_example :
    (start dumps to_text of_text sha256 verify
      (record config { fail_mode = codes "open" })
      missing
      (out ∷ [])
      (new unreadable missing)).0
    ≡ raised
unfolding eq_text
start-unreadable_example =
    start-unreadable dumps to_text of_text sha256 verify
      (record config { fail_mode = codes "open" }) missing missing (out ∷ []) refl
      ((λ tag. refl), tt)

poll-bundle_example :
    IsFetched dumps to_text of_text sha256 verify config
      (good.answer (if_none_match booted.etag))
      booted.bundle
      (poll dumps to_text of_text sha256 verify config good booted).bundle
poll-bundle_example = poll-bundle dumps to_text of_text sha256 verify config good booted

abbrev holding : Manager
holding = record (new missing missing) { bundle = some signed_sample }
