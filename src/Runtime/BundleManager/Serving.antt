-- ===== src/Runtime/BundleManager/Serving.antt =====
-- `get_policy` of bundle_manager.py: where the policy of a request comes from.
use znyx_runtime.Prelude.{
  Option, Text, Bool, true, false, false≢true, none, some, [], ◌∷◌, has_text, or_text,
  if◌then◌else◌, ◌≡◌, ◌⊎◌, refl, sym, ◌∙◌, arith, Option-cases, inl, inr, not, ◌||◌,
}
use znyx_runtime.Policy.Value.{Object, is_truthy}
use znyx_runtime.Policy.Bundle.{Bundle, resolve_scope, is_empty}
use znyx_runtime.Policy.Resolver.{resolve}
use znyx_runtime.Runtime.BundleManager.{Manager, Config, is_fail_open}
use znyx_runtime.Runtime.BundleManager.Serve.{get_policy, versioned, empty_policy}

own : (x t : Text) → has_text (some x) ≡ true → or_text (some x) t ≡ x
own [] t h = absurd (false≢true h)
own (c ∷ x) t h = refl

absent_there : {o : Object} → none ≡ some o → ⊥
absent_there e = cc

chosen :
    (x f : Bool) (p d out : Object)
    → f ≡ false
    → (if x then some p else if f then some d else none) ≡ some out
    → some out ≡ some p
chosen x f p d out c h = ground (arith, c, h)

module _ (dumps to_text : Object → Text) (of_text : Text → Option Object) (sha256 : Text → Text)
    (verify : (pem signature payload : Text) → Bool) (config : Config) where
  bundle_policy :
      (m : Manager) (b : Bundle) (t a g e : Text)
      → m.policy_resolver ≡ none
      → m.bundle ≡ some b
      → get_policy dumps to_text of_text sha256 verify config m t a g e ≡ (
          if is_truthy b.policies || not (is_empty b.scope_policies)
          then some (
              versioned b (
                resolve_scope b
                  (or_text (some b.org_id) t)
                  (or_text (some b.project_id) a)
                  g
                  (or_text (some b.environment) e)))
          else if is_fail_open dumps to_text of_text sha256 verify config
          then some empty_policy
          else none)
  unfolding get_policy
  bundle_policy m b t a g e r h = rw (get_policy, r, h) refl

  resolver_policy :
      (m : Manager) (p : Object) (t a g e : Text)
      → m.policy_resolver ≡ some p
      → get_policy dumps to_text of_text sha256 verify config m t a g e
        ≡ resolve dumps sha256 p t a g e
  unfolding get_policy
  resolver_policy m p t a g e r = rw (get_policy, r) refl

  no_policy :
      (m : Manager) (t a g e : Text)
      → is_fail_open dumps to_text of_text sha256 verify config ≡ false
      → m.policy_resolver ≡ none
      → m.bundle ≡ none
      → get_policy dumps to_text of_text sha256 verify config m t a g e ≡ none
  unfolding get_policy
  no_policy m t a g e c r n = rw (get_policy, r, n, c) refl

  bundle_only :
      (b : Bundle) (t a g e : Text) (out : Object)
      → is_fail_open dumps to_text of_text sha256 verify config ≡ false
      → (if is_truthy b.policies || not (is_empty b.scope_policies)
          then some (
              versioned b (
                resolve_scope b
                  (or_text (some b.org_id) t)
                  (or_text (some b.project_id) a)
                  g
                  (or_text (some b.environment) e)))
          else if is_fail_open dumps to_text of_text sha256 verify config
          then some empty_policy
          else none)
        ≡ some out
      → some out
        ≡ some (
            versioned b (
              resolve_scope b
                (or_text (some b.org_id) t)
                (or_text (some b.project_id) a)
                g
                (or_text (some b.environment) e)))
  bundle_only b t a g e out c h = chosen _ _ _ _ out c h

  -- A bundle that names its organisation, project and environment decides the scope: the tenant, the app
  -- and the environment that a request states have no influence on the policy it gets.
  pub get_policy-own_scope :
      (m : Manager) (b : Bundle) (tenant_id app_id agent_id env tenant_id' app_id' env' : Text)
      → m.policy_resolver ≡ none
      → m.bundle ≡ some b
      → has_text (some b.org_id) ≡ true
      → has_text (some b.project_id) ≡ true
      → has_text (some b.environment) ≡ true
      → get_policy dumps to_text of_text sha256 verify config m tenant_id app_id agent_id env
        ≡ get_policy dumps to_text of_text sha256 verify config m tenant_id' app_id' agent_id env'
  unfolding resolve_scope
  get_policy-own_scope m b t a g e t' a' e' r h o p n =
      bundle_policy m b t a g e r h
      ∙ rw
          (
            own b.org_id t o,
            own b.project_id a p,
            own b.environment e n,
            ← own b.org_id t' o,
            ← own b.project_id a' p,
            ← own b.environment e' n,
          )
          (sym (bundle_policy m b t' a' g e' r h))

  -- Fail-closed, `get_policy` never makes a policy up: what it returns is the resolved policy of the YAML
  -- file, or that of the loaded bundle for the scope.
  pub get_policy-closed :
      (m : Manager) (tenant_id app_id agent_id env : Text) (out : Object)
      → is_fail_open dumps to_text of_text sha256 verify config ≡ false
      → get_policy dumps to_text of_text sha256 verify config m tenant_id app_id agent_id env
        ≡ some out
      → ((policies : Object) × (m.policy_resolver ≡ some policies)
          × (resolve dumps sha256 policies tenant_id app_id agent_id env ≡ some out))
        ⊎ ((b : Bundle) × (m.bundle ≡ some b)
            × (some out
                ≡ some (
                    versioned b (
                      resolve_scope b
                        (or_text (some b.org_id) tenant_id)
                        (or_text (some b.project_id) app_id)
                        agent_id
                        (or_text (some b.environment) env)))))
  get_policy-closed m t a g e out c h = elim (Option-cases m.policy_resolver) [
    | inr (p, r) ↦ inl (p, r, sym (resolver_policy m p t a g e r) ∙ h)
    | inl r ↦ elim (Option-cases m.bundle) [
      | inl n ↦ absurd (absent_there (sym (no_policy m t a g e c r n) ∙ h))
      | inr (b, n) ↦
          inr (b, n, bundle_only b t a g e out c (sym (bundle_policy m b t a g e r n) ∙ h))
    ]
  ]
