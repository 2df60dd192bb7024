-- ===== src/Policy/Bundle.antt =====
-- policy/bundle.py: the bundle, its lookup by scope, its hash and both signatures. `json.dumps` (with the
-- options of each call), SHA-256 and the Ed25519 calls (key loading and base64 included) are arguments:
-- `sign` returns `none` where the library raises on the key, `verify` is false on every error.
pub mod Document
pub mod Scopes
pub mod Trust
use znyx_runtime.Prelude.{
  ℕ, ℤ, pos, Text, codes, Bool, true, false, not, ◌&&◌, ◌||◌, Option, none, some, List, [], ◌∷◌,
  ◌++◌, ◌==◌, eq_text, has_text, or_text, strip, if◌then◌else◌,
}
use znyx_runtime.Prelude.Dict
use znyx_runtime.Policy.Value.{Value, integer, text, object, Object, empty, entry, is_truthy}

-- `PolicyBundle`. The format version is a number; the other fields have their annotated types.
pub record Bundle : Type 0 where
  pub version : ℕ
  pub bundle_id : Text
  pub org_id : Text
  pub project_id : Text
  pub environment : Text
  pub published_at : Text
  pub policies : Object
  pub policy_hash : Text
  pub signature : Option Text
  pub scope : Object
  pub scope_policies : Dict.Dict Object
  pub signature_v2 : Option Text

abbrev pub bundle_format_version : ℕ
bundle_format_version = 1

abbrev or_star : Text → Text
or_star [] = codes "*"
or_star (c ∷ t) = c ∷ t

unfoldable pub scope_key : (tenant_id app_id agent_id env : Text) → Text
scope_key tenant_id app_id agent_id env =
    or_star tenant_id
    ++ (b':' ∷ or_star app_id ++ (b':' ∷ or_star agent_id ++ (b':' ∷ or_star env)))

unfoldable pub candidates : (tenant_id app_id agent_id env : Text) → List Text
unfolding scope_key
candidates tenant_id app_id agent_id env =
    scope_key tenant_id app_id agent_id env
    ∷ scope_key tenant_id app_id (codes "default") env
    ∷ scope_key tenant_id app_id (codes "*") env
    ∷ scope_key tenant_id (codes "*") (codes "*") env
    ∷ scope_key tenant_id (codes "*") (codes "*") (codes "*")
    ∷ scope_key (codes "*") (codes "*") (codes "*") (codes "*")
    ∷ []

abbrev or_else {ℓ} : {A : Type ℓ} → Option A → A → A
or_else none a = a
or_else (some b) a = b

-- The loop of `resolve_scope`, and its fallback.
unfoldable pub first_of : List Text → Dict.Dict Object → Object → Object
first_of [] d fallback = fallback
first_of (k ∷ ks) d fallback = or_else (Dict.lookup k d) (first_of ks d fallback)

abbrev pub is_empty {ℓ} : {A : Type ℓ} → List A → Bool
is_empty [] = true
is_empty (x ∷ xs) = false

-- `PolicyBundle.resolve_scope`
unfoldable pub resolve_scope : Bundle → (tenant_id app_id agent_id env : Text) → Object
unfolding candidates first_of
resolve_scope b tenant_id app_id agent_id env =
    if is_empty b.scope_policies
    then b.policies
    else first_of (candidates tenant_id app_id agent_id env) b.scope_policies b.policies

abbrev pub scopes_object : Dict.Dict Object → Object
scopes_object [] = empty
scopes_object ((k, o) ∷ d) = entry k (object o) (scopes_object d)

-- `str.replace("\\n", "\n")`: a backslash before an n becomes a line feed.
unfoldable pub unescape_lines : Text → Text
unescape_lines [] = []
unescape_lines (c ∷ []) = c ∷ []
unescape_lines (c ∷ d ∷ t) =
    let rest = unescape_lines t in
    let next = unescape_lines (d ∷ t) in if (c == 92) && (d == b'n') then 10 ∷ rest else c ∷ next

unfoldable pub normalized_pem : Text → Text
unfolding unescape_lines
normalized_pem pem = strip (unescape_lines pem)

unfoldable pub signing_envelope_v2 : Bundle → Object
signing_envelope_v2 b = entry (codes "bundle_format_version") (integer (pos b.version)) (
    entry (codes "bundle_id") (text b.bundle_id) (
      entry (codes "org_id") (text b.org_id) (
        entry (codes "project_id") (text b.project_id) (
          entry (codes "environment") (text b.environment) (
            entry (codes "published_at") (text b.published_at) (
              entry (codes "scope") (object b.scope) (
                entry (codes "policies") (object b.policies) (
                  entry (codes "scope_policies") (object (scopes_object b.scope_policies))
                    empty))))))))

abbrev pub bundle_sig_v2_domain : Text
bundle_sig_v2_domain = codes "znyx-policy-bundle-sig-v2" ++ 0 ∷ []

module _ (dumps : Object → Text) where
  unfoldable pub canonical_signing_payload_v2 : Bundle → Text
  unfolding signing_envelope_v2
  canonical_signing_payload_v2 b = bundle_sig_v2_domain ++ dumps (signing_envelope_v2 b)

  -- `PolicyBundle.compute_hash`
  unfoldable pub compute_hash : (sha256 : Text → Text) → Bundle → Text
  compute_hash sha256 b =
      codes "sha256:"
      ++ sha256 (
          dumps (
            entry (codes "policies") (object b.policies)
              (entry (codes "scope_policies") (object (scopes_object b.scope_policies)) empty)))

  module _ (sign : (pem payload : Text) → Option Text) where
    unfoldable pub sign_bundle : Bundle → Text → Option Text
    unfolding normalized_pem
    sign_bundle b private_key_pem = sign (normalized_pem private_key_pem) b.policy_hash

    unfoldable pub sign_bundle_v2 : Bundle → Text → Option Text
    unfolding normalized_pem canonical_signing_payload_v2
    sign_bundle_v2 b private_key_pem =
        sign (normalized_pem private_key_pem) (canonical_signing_payload_v2 b)

    -- The two signatures of `resign_bundle`: `none` where signing raises.
    abbrev signed : Bundle → Option Text → Option Text → Option Bundle
    signed b none v2 = none
    signed b (some s) none = none
    signed b (some s) (some s2) = some (record b { signature = some s; signature_v2 = some s2 })

    -- `resign_bundle`: the bundle as it is left.
    unfoldable pub resign_bundle : (sha256 : Text → Text) → Bundle → Option Text → Option Bundle
    unfolding compute_hash sign_bundle sign_bundle_v2
    resign_bundle sha256 b private_key_pem =
        let hashed : Bundle = record b { policy_hash = compute_hash sha256 b } in
        if has_text private_key_pem
        then signed hashed (sign_bundle hashed (or_text private_key_pem []))
            (sign_bundle_v2 hashed (or_text private_key_pem []))
        else some (record hashed { signature_v2 = none })

    -- `build_bundle`, with the generated identifier and the time of publication as arguments.
    unfoldable pub build_bundle :
        (sha256 : Text → Text) (fresh_id now : Text) (policies : Object)
        (org_id project_id environment bundle_id : Text) (private_key_pem : Option Text)
        (scope_policies : Dict.Dict Object)
        → Option Bundle
    unfolding resign_bundle
    build_bundle sha256 fresh_id now policies org_id project_id environment bundle_id
          private_key_pem scope_policies =
        resign_bundle sha256
          (record {
            version = bundle_format_version;
            bundle_id = or_text (some bundle_id) fresh_id;
            org_id = org_id;
            project_id = project_id;
            environment = environment;
            published_at = now;
            policies = policies;
            policy_hash = [];
            signature = none;
            scope = entry (codes "tenant_id") (text []) (
                entry (codes "app_id") (text [])
                  (entry (codes "agent_id") (text []) (entry (codes "env") (text []) empty)));
            scope_policies = scope_policies;
            signature_v2 = none;
          })
          private_key_pem

  module _ (verify : (pem signature payload : Text) → Bool) where
    unfoldable pub verify_bundle : Bundle → Text → Bool
    unfolding normalized_pem
    verify_bundle b public_key_pem =
        has_text b.signature
        && verify (normalized_pem public_key_pem) (or_text b.signature []) b.policy_hash

    unfoldable pub verify_bundle_v2 : Bundle → Text → Bool
    unfolding normalized_pem canonical_signing_payload_v2
    verify_bundle_v2 b public_key_pem =
        has_text b.signature_v2
        && verify (normalized_pem public_key_pem) (or_text b.signature_v2 [])
            (canonical_signing_payload_v2 b)

    unfoldable pub validate_bundle :
        (sha256 : Text → Text)
        → Bundle
        → (public_key_pem : Option Text) → (require_signature require_signature_v2 : Bool) → Bool
    unfolding compute_hash verify_bundle verify_bundle_v2
    validate_bundle sha256 b public_key_pem require_signature require_signature_v2 =
        if not (b.version == bundle_format_version)
        then false
        else if has_text (some b.policy_hash) && not (eq_text b.policy_hash (compute_hash sha256 b))
        then false
        else if not (require_signature || require_signature_v2)
        then true
        else if not (has_text b.signature)
        then false
        else if not (has_text public_key_pem)
        then false
        else if not (verify_bundle b (or_text public_key_pem []))
        then false
        else if has_text b.signature_v2
        then verify_bundle_v2 b (or_text public_key_pem [])
        else not require_signature_v2
