-- ===== src/Policy/Resolver.antt =====
-- policy/resolver.py and the getters of policy/loader.py. The loaded YAML file is an argument. A getter
-- or a merge that meets a value which is not a dict raises: `none`. The hash of the resolved policy
-- (utils/hash.py) is built from `json.dumps` and SHA-256, which are arguments.
pub mod Layers
use znyx_runtime.Prelude.{
  Text, codes, Option, none, some, List, [], ◌∷◌, mem_text, take, if◌then◌else◌,
}
use znyx_runtime.Policy.Value.{
  Value, null, boolean, integer, float, text, array, object, Object, empty, entry, get, put,
}

abbrev pub nested_keys : List Text
nested_keys = codes "apps" ∷ codes "agents" ∷ codes "envs" ∷ codes "tenants" ∷ []

-- `PolicyResolver._merge_policy`: the base after the merge. `merge_value` gives what stands under a key
-- that held the first value, or none, and is overridden by the second.
unfoldable mutual
  pub merge_policy : Object → Object → Object
  merge_policy base empty = base
  merge_policy base (entry k v o) =
      if mem_text k nested_keys
      then merge_policy base o
      else merge_policy (put k (merge_value (get k base) v) base) o

  pub merge_value : Option Value → Value → Value
  merge_value old null = null
  merge_value old (boolean b) = boolean b
  merge_value old (integer n) = integer n
  merge_value old (float n) = float n
  merge_value old (text t) = text t
  merge_value old (array xs) = array xs
  merge_value none (object o) = object o
  merge_value (some null) (object o) = object o
  merge_value (some (boolean b)) (object o) = object o
  merge_value (some (integer n)) (object o) = object o
  merge_value (some (float n)) (object o) = object o
  merge_value (some (text t)) (object o) = object o
  merge_value (some (array xs)) (object o) = object o
  merge_value (some (object b)) (object o) = object (merge_policy b o)

-- A value on which the code calls a dict's method.
abbrev as_dict : Option Value → Option Object
as_dict none = some empty
as_dict (some (object o)) = some o
as_dict (some v) = none

abbrev and_then {ℓ} : {A B : Type ℓ} → Option A → (A → Option B) → Option B
and_then none f = none
and_then (some a) f = f a

-- `o.get(k, {})`, used as a dict.
unfoldable pub section_of : Text → Object → Option Object
section_of k o = as_dict (get k o)

-- `PolicyLoader.get_default_policy` and the getters of the four scopes.
unfoldable pub get_default_policy : Object → Option Object
unfolding section_of
get_default_policy policies = section_of (codes "default") policies

unfoldable pub get_tenant_policy : Object → Text → Option Object
unfolding section_of
get_tenant_policy policies tenant_id =
    and_then (section_of (codes "tenants") policies) (section_of tenant_id)

unfoldable pub get_app_policy : Object → (tenant_id app_id : Text) → Option Object
unfolding section_of get_tenant_policy
get_app_policy policies tenant_id app_id =
    and_then (get_tenant_policy policies tenant_id)
      (λ t. and_then (section_of (codes "apps") t) (section_of app_id))

unfoldable pub get_agent_policy : Object → (tenant_id app_id agent_id : Text) → Option Object
unfolding section_of get_app_policy
get_agent_policy policies tenant_id app_id agent_id =
    and_then (get_app_policy policies tenant_id app_id)
      (λ a. and_then (section_of (codes "agents") a) (section_of agent_id))

unfoldable pub get_env_policy : Object → (tenant_id app_id agent_id env : Text) → Option Object
unfolding section_of get_agent_policy
get_env_policy policies tenant_id app_id agent_id env =
    and_then (get_agent_policy policies tenant_id app_id agent_id)
      (λ a. and_then (section_of (codes "envs") a) (section_of env))

-- `compute_policy_hash`: the first 16 digits.
unfoldable pub compute_policy_hash : (dumps : Object → Text) (sha256 : Text → Text) → Object → Text
compute_policy_hash dumps sha256 policy = take 16 (sha256 (dumps policy))

-- The merges of `resolve`, of the layers that the getters returned.
unfoldable pub merge_layers : (base tenant app agent last : Option Object) → Option Object
unfolding merge_policy
merge_layers base tenant app agent last = and_then base (λ b. and_then tenant (λ t.
    and_then app (λ p. and_then agent (λ a.
      and_then last
        (λ e. some (merge_policy (merge_policy (merge_policy (merge_policy b t) p) a) e))))))

abbrev pub stamped : (dumps : Object → Text) (sha256 : Text → Text) → Option Object → Option Object
stamped dumps sha256 none = none
stamped dumps sha256 (some o) =
    some (put (codes "policy_version") (text (compute_policy_hash dumps sha256 o)) o)

-- `PolicyResolver.resolve`
unfoldable pub resolve :
    (dumps : Object → Text) (sha256 : Text → Text)
    → Object
    → (tenant_id app_id agent_id env : Text) → Option Object
unfolding merge_layers compute_policy_hash get_default_policy get_env_policy
resolve dumps sha256 policies tenant_id app_id agent_id env = stamped dumps sha256 (
    merge_layers (get_default_policy policies) (get_tenant_policy policies tenant_id)
      (get_app_policy policies tenant_id app_id)
      (get_agent_policy policies tenant_id app_id agent_id)
      (get_env_policy policies tenant_id app_id agent_id env))
