-- ===== src/Policy/Bundle/Document.antt =====
-- A bundle as a JSON document: `to_dict` and `from_dict` of policy/bundle.py. `from_dict`
-- checks no types; here it answers `none` where a value is not of its field's annotated type.
use znyx_runtime.Prelude.{ℕ, pos, negsuc, Text, codes, Option, none, some, List, [], ◌∷◌, ◌≡◌, refl}
use znyx_runtime.Prelude.Dict
use znyx_runtime.Policy.Value.{Value, null, integer, text, object, Object, empty, entry, get}
use znyx_runtime.Policy.Bundle.{Bundle, bundle_format_version, scopes_object}

infixl 5 ◌>>=◌
abbrev ◌>>=◌ {ℓ κ} : {A : Type ℓ} {B : Type κ} → Option A → (A → Option B) → Option B
none >>= f = none
some a >>= f = f a

abbrev text_or_null : Option Text → Value
text_or_null none = null
text_or_null (some t) = text t

-- `PolicyBundle.to_dict`, with the fields in their order.
unfoldable pub to_dict : Bundle → Object
to_dict b = entry (codes "version") (integer (pos b.version)) (
    entry (codes "bundle_id") (text b.bundle_id) (
      entry (codes "org_id") (text b.org_id) (
        entry (codes "project_id") (text b.project_id) (
          entry (codes "environment") (text b.environment) (
            entry (codes "published_at") (text b.published_at) (
              entry (codes "policies") (object b.policies) (
                entry (codes "policy_hash") (text b.policy_hash) (
                  entry (codes "signature") (text_or_null b.signature) (
                    entry (codes "scope") (object b.scope) (
                      entry (codes "scope_policies") (object (scopes_object b.scope_policies))
                        (entry (codes "signature_v2") (text_or_null b.signature_v2) empty)))))))))))

-- `data.get(k, default)` for the fields of each type.
abbrev text_field : (default : Text) → Option Value → Option Text
text_field default none = some default
text_field default (some (text t)) = some t
text_field default (some _) = none

abbrev version_field : Option Value → Option ℕ
version_field none = some bundle_format_version
version_field (some (integer (pos n))) = some n
version_field (some _) = none

abbrev object_field : Option Value → Option Object
object_field none = some empty
object_field (some (object o)) = some o
object_field (some _) = none

abbrev optional_field : Option Value → Option (Option Text)
optional_field none = some none
optional_field (some null) = some none
optional_field (some (text t)) = some (some t)
optional_field (some _) = none

abbrev scopes_of : Object → Option (Dict.Dict Object)
scopes_of empty = some []
scopes_of (entry k v o) = do
  policy ← object_field (some v)
  rest ← scopes_of o
  some ((k, policy) ∷ rest)

-- `PolicyBundle.from_dict`
unfoldable pub from_dict : Object → Option Bundle
unfolding get
from_dict document = do
  version ← version_field (get (codes "version") document)
  bundle_id ← text_field [] (get (codes "bundle_id") document)
  org_id ← text_field [] (get (codes "org_id") document)
  project_id ← text_field [] (get (codes "project_id") document)
  environment ← text_field (codes "prod") (get (codes "environment") document)
  published_at ← text_field [] (get (codes "published_at") document)
  policies ← object_field (get (codes "policies") document)
  policy_hash ← text_field [] (get (codes "policy_hash") document)
  signature ← optional_field (get (codes "signature") document)
  scope ← object_field (get (codes "scope") document)
  scope_policies ← (object_field (get (codes "scope_policies") document) >>= scopes_of)
  signature_v2 ← optional_field (get (codes "signature_v2") document)
  some (record {
    version = version;
    bundle_id = bundle_id;
    org_id = org_id;
    project_id = project_id;
    environment = environment;
    published_at = published_at;
    policies = policies;
    policy_hash = policy_hash;
    signature = signature;
    scope = scope;
    scope_policies = scope_policies;
    signature_v2 = signature_v2;
  })

optional_field-null : (o : Option Text) → optional_field (some (text_or_null o)) ≡ some o
optional_field-null none = refl
optional_field-null (some t) = refl

scopes_of-object : (d : Dict.Dict Object) → scopes_of (scopes_object d) ≡ some d
scopes_of-object [] = refl
scopes_of-object ((k, o) ∷ d) = rw (scopes_of-object d) refl

-- A bundle comes back whole from its document.
pub from_dict-to_dict : (b : Bundle) → from_dict (to_dict b) ≡ some b
unfolding from_dict to_dict get znyx_runtime.Prelude.eq_text
from_dict-to_dict b =
    rw
      (
        optional_field-null b.signature,
        optional_field-null b.signature_v2,
        scopes_of-object b.scope_policies,
      )
      refl
