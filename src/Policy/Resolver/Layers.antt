-- ===== src/Policy/Resolver/Layers.antt =====
-- What the layers of policy/resolver.py decide, key by key.
use znyx_runtime.Prelude.{
  Text, false, Option, none, some, mem_text, eq_text, eq_text_refl, eq_text→eq, if◌then◌else◌, ◌≡◌,
  refl, sym, ◌∙◌, Bool-cases, inl, inr,
}
use znyx_runtime.Policy.Value.{Value, Object, empty, entry, get, put, get-put, IsObject}
use znyx_runtime.Policy.Resolver.{
  nested_keys, merge_policy, merge_value, get_default_policy, get_tenant_policy, get_app_policy,
  get_agent_policy, get_env_policy,
}

-- What a merge leaves under a key, from what the base and the override hold there.
abbrev pub overridden : Text → Option Value → Option Value → Option Value
overridden k old none = old
overridden k old (some v) = if mem_text k nested_keys then old else some (merge_value old v)

merge_policy-empty : (base : Object) → merge_policy base empty ≡ base
unfolding merge_policy
merge_policy-empty base = refl

merge_policy-entry :
    (base : Object) (k : Text) (v : Value) (o : Object)
    → merge_policy base (entry k v o) ≡ (
        if mem_text k nested_keys
        then merge_policy base o
        else merge_policy (put k (merge_value (get k base) v) base) o)
unfolding merge_policy
merge_policy-entry base k v o = refl

-- One entry of the override, given what the rest does to the base that the entry leaves.
overridden-entry :
    (j k : Text) (v : Value) (base o : Object) (rest : Option Value)
    → get k o ≡ none
    → mem_text k nested_keys ≡ false
    → rest ≡ overridden j (get j (put k (merge_value (get k base) v) base)) (get j o)
    → rest ≡ overridden j (get j base) (if eq_text k j then some v else get j o)
overridden-entry j k v base o rest h m e = elim (Bool-cases (eq_text k j)) [
  | inl s ↦
      let same = eq_text→eq k j s in
      e ∙ rw (get-put j k (merge_value (get k base) v) base, s, sym same, h, m) refl
  | inr s ↦ e ∙ rw (get-put j k (merge_value (get k base) v) base, s) refl
]

-- A merge acts on each key for itself, in whatever order the override lists its keys, which are
-- distinct: a key that the override does not mention, or that names nested scopes, stays as it was; any
-- other key takes the override's value, and where both hold dicts these are merged in turn.
pub get-merge_policy :
    (j : Text) (base o : Object)
    → IsObject o
    → get j (merge_policy base o) ≡ overridden j (get j base) (get j o)
unfolding get IsObject
get-merge_policy j base empty h = rw (merge_policy-empty base) refl
get-merge_policy j base (entry k v o) h = elim (Bool-cases (mem_text k nested_keys)) [
  | inl m ↦
      rw (merge_policy-entry base k v o, m)
        (get-merge_policy j base o h.1 ∙ elim (Bool-cases (eq_text k j)) [
          | inl s ↦ rw (sym (eq_text→eq k j s), eq_text_refl k, h.0, m) refl
          | inr s ↦ rw s refl
        ])
  | inr m ↦
      rw (merge_policy-entry base k v o, m)
        (overridden-entry j k v base o _ h.0 m
          (get-merge_policy j (put k (merge_value (get k base) v) base) o h.1))
]

-- The five layers that `resolve` reads for a scope, each of them a dict without repeated keys.
pub record AreLayers (policies : Object) (tenant_id app_id agent_id env : Text) : Type 0 where
  pub base : Object
  pub tenant : Object
  pub app : Object
  pub agent : Object
  pub last : Object
  pub base_eq : get_default_policy policies ≡ some base
  pub tenant_eq : get_tenant_policy policies tenant_id ≡ some tenant
  pub app_eq : get_app_policy policies tenant_id app_id ≡ some app
  pub agent_eq : get_agent_policy policies tenant_id app_id agent_id ≡ some agent
  pub last_eq : get_env_policy policies tenant_id app_id agent_id env ≡ some last
  pub tenant_IsObject : IsObject tenant
  pub app_IsObject : IsObject app
  pub agent_IsObject : IsObject agent
  pub last_IsObject : IsObject last
