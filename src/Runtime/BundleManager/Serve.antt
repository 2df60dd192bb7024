-- ===== src/Runtime/BundleManager/Serve.antt =====
-- What the manager serves: `get_policy`, `is_ready` and the cycle listeners of
-- packages/znyx-runtime/src/znyx_runtime/bundle_manager.py.
use znyx_runtime.Prelude.{
  Text, codes, Bool, true, false, not, ◌||◌, Option, none, some, or_text, if◌then◌else◌,
}
use znyx_runtime.Policy.Value.{boolean, text, object, Object, empty, entry, put, is_truthy}
use znyx_runtime.Policy.Resolver.{resolve}
use znyx_runtime.Policy.Bundle.{Bundle, is_empty, resolve_scope}
use znyx_runtime.Runtime.BundleManager.{
  CycleTask, no_task, running, done, Manager, Config, is_fail_open,
}

abbrev is_some {ℓ} : {A : Type ℓ} → Option A → Bool
is_some none = false
is_some (some a) = true

unfoldable pub is_ready : Manager → Bool
is_ready m = is_some m.bundle || is_some m.policy_resolver

-- The version that `get_policy` adds to a bundle's policy.
abbrev pub versioned : Bundle → Object → Object
versioned b policy =
    put (codes "policy_version") (text (or_text (some b.bundle_id) b.policy_hash)) policy

abbrev disabled : Object
disabled = entry (codes "enabled") (boolean false) empty

-- `BundleManager._empty_policy`
unfoldable pub empty_policy : Object
empty_policy = entry (codes "secrets") (object disabled) (
    entry (codes "exfiltration") (object disabled) (
      entry (codes "abuse") (object disabled) (
        entry (codes "pii") (object disabled) (
          entry (codes "jailbreak") (object disabled) (
            entry (codes "toxicity") (object disabled) (
              entry (codes "topic_restriction") (object disabled) (
                entry (codes "competitor") (object disabled) (
                  entry (codes "tools") (object disabled)
                    (entry (codes "structure") (object disabled) empty)))))))))

-- The listeners of the task that is running have all returned or raised.
unfoldable pub end_cycle : Manager → Manager
end_cycle m = record m { cycle_task = done }

module _ (dumps to_text : Object → Text) (of_text : Text → Option Object) (sha256 : Text → Text)
    (verify : (pem signature payload : Text) → Bool) (config : Config) where
  -- `get_policy`
  unfoldable pub get_policy : Manager → (tenant_id app_id agent_id env : Text) → Option Object
  unfolding resolve resolve_scope empty_policy
  get_policy m tenant_id app_id agent_id env = elim m.policy_resolver [
    | some policies ↦ resolve dumps sha256 policies tenant_id app_id agent_id env
    | none ↦
        let absent =
          if is_fail_open dumps to_text of_text sha256 verify config
          then some empty_policy
          else none in
        elim m.bundle [
          | none ↦ absent
          | some b ↦
              if is_truthy b.policies || not (is_empty b.scope_policies)
              then some (
                  versioned b (
                    resolve_scope b (or_text (some b.org_id) tenant_id)
                      (or_text (some b.project_id) app_id) agent_id
                      (or_text (some b.environment) env)))
              else absent
        ]
  ]

  -- `_active_policy_for_listeners`
  unfoldable pub active_policy : Manager → Option Object
  unfolding get_policy
  active_policy m = elim m.bundle [
    | some b ↦ some b.policies
    | none ↦ elim m.policy_resolver [
      | none ↦ none
      | some policies ↦
          get_policy m (codes "default") (codes "default") (codes "default") (codes "prod")
    ]
  ]

  abbrev spawned : CycleTask → Option Object → CycleTask
  spawned (running p) policy = running p
  spawned no_task policy = running policy
  spawned done policy = running policy

  -- `_spawn_cycle`
  unfoldable pub spawn_cycle : Manager → Manager
  unfolding active_policy
  spawn_cycle m = record m { cycle_task = spawned m.cycle_task (active_policy m) }
