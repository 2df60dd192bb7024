-- ===== src/Policy/Bundle/Scopes.antt =====
-- `PolicyBundle.resolve_scope` of policy/bundle.py: which policy a scope gets.
use znyx_runtime.Prelude.{
  Text, codes, Bool, true, false, not, ◌==◌, none, some, List, [], ◌∷◌, ◌++◌, eq_text, all,
  if◌then◌else◌, ◌≡◌, refl, sym, ap, ◌∙◌, arith,
}
use znyx_runtime.Prelude.Dict
use znyx_runtime.Policy.Value.{Object}
use znyx_runtime.Policy.Bundle.{
  Bundle, scope_key, candidates, first_of, or_star, is_empty, resolve_scope,
}

-- No key of the list has an entry.
abbrev pub AreMissing : List Text → Dict.Dict Object → Type 0
AreMissing [] d = Unit
AreMissing (k ∷ ks) d = (Dict.lookup k d ≡ none) × AreMissing ks d

first_of-found :
    (pre post : List Text) (k : Text) (d : Dict.Dict Object) (fallback o : Object)
    → AreMissing pre d
    → Dict.lookup k d ≡ some o
    → first_of (pre ++ k ∷ post) d fallback ≡ o
unfolding first_of
first_of-found [] post k d fallback o h e = rw e refl
first_of-found (j ∷ pre) post k d fallback o h e =
    rw h.0 (first_of-found pre post k d fallback o h.1 e)

first_of-missing :
    (ks : List Text) (d : Dict.Dict Object) (fallback : Object)
    → AreMissing ks d
    → first_of ks d fallback ≡ fallback
unfolding first_of
first_of-missing [] d fallback h = refl
first_of-missing (k ∷ ks) d fallback h = rw h.0 (first_of-missing ks d fallback h.1)

nothing-AreMissing : (ks : List Text) → AreMissing ks []
unfolding Dict.lookup
nothing-AreMissing [] = tt
nothing-AreMissing (k ∷ ks) = (refl, nothing-AreMissing ks)

choose :
    (ks : List Text) (d : Dict.Dict Object) (fallback : Object)
    → (if is_empty d then fallback else first_of ks d fallback) ≡ first_of ks d fallback
choose ks [] fallback = sym (first_of-missing ks [] fallback (nothing-AreMissing ks))
choose ks (e ∷ d) fallback = refl

resolve_scope-first_of :
    (b : Bundle) (tenant_id app_id agent_id env : Text)
    → resolve_scope b tenant_id app_id agent_id env
      ≡ first_of (candidates tenant_id app_id agent_id env) b.scope_policies b.policies
unfolding resolve_scope
resolve_scope-first_of b tenant_id app_id agent_id env =
    choose (candidates tenant_id app_id agent_id env) b.scope_policies b.policies

-- The candidate keys of a scope, in their order, decide: the first one that the bundle has gives the
-- policy.
pub resolve_scope-first :
    (b : Bundle) (tenant_id app_id agent_id env k : Text) (pre post : List Text) (o : Object)
    → candidates tenant_id app_id agent_id env ≡ pre ++ k ∷ post
    → AreMissing pre b.scope_policies
    → Dict.lookup k b.scope_policies ≡ some o
    → resolve_scope b tenant_id app_id agent_id env ≡ o
resolve_scope-first b tenant_id app_id agent_id env k pre post o c h e =
    resolve_scope-first_of b tenant_id app_id agent_id env
    ∙ ap (λ ks. first_of ks b.scope_policies b.policies) c
    ∙ first_of-found pre post k b.scope_policies b.policies o h e

abbrev pub colon_free : Text → Bool
colon_free = all (λ c. not (c == b':'))

-- Keys that start with different texts up to the first colon are different.
key_apart :
    (x y r s : Text)
    → colon_free x ≡ true
    → colon_free y ≡ true
    → eq_text x y ≡ false
    → eq_text (x ++ b':' ∷ r) (y ++ b':' ∷ s) ≡ false
unfolding eq_text
key_apart [] [] r s hx hy n = ground (arith, n)
key_apart [] (y ∷ ys) r s hx hy n = ground (arith, hy)
key_apart (x ∷ xs) [] r s hx hy n = ground (arith, hx)
key_apart (x ∷ xs) (y ∷ ys) r s hx hy n = ground (arith, hx, hy, n, key_apart xs ys r s)

star_colon_free : (t : Text) → colon_free t ≡ true → colon_free (or_star t) ≡ true
star_colon_free [] h = refl
star_colon_free (c ∷ t) h = h

abbrev AreApart : Text → List Text → Type 0
AreApart k [] = Unit
AreApart k (j ∷ ks) = (eq_text k j ≡ false) × AreApart k ks

first_of-skip :
    (ks : List Text) (k : Text) (o : Object) (d : Dict.Dict Object) (fallback : Object)
    → AreApart k ks
    → first_of ks ((k, o) ∷ d) fallback ≡ first_of ks d fallback
unfolding first_of Dict.lookup
first_of-skip [] k o d fallback h = refl
first_of-skip (j ∷ ks) k o d fallback h = rw (h.0, first_of-skip ks k o d fallback h.1) refl

star_or_apart :
    (t other r s : Text)
    → colon_free t ≡ true
    → colon_free other ≡ true
    → eq_text (or_star other) (or_star t) ≡ false
    → eq_text (or_star other ++ b':' ∷ r) (or_star t ++ b':' ∷ s) ≡ false
star_or_apart t other r s ht ho n =
    key_apart (or_star other) (or_star t) r s (star_colon_free other ho) (star_colon_free t ht) n

-- Tenants are isolated: where no tenant identifier has a colon, an entry of the bundle for another
-- tenant than the one that asks, and not for every tenant, has no influence on the policy that the scope
-- gets.
pub resolve_scope-isolated :
    (b : Bundle) (tenant_id app_id agent_id env : Text)
    (other other_app other_agent other_env : Text) (o : Object)
    → colon_free tenant_id ≡ true
    → colon_free other ≡ true
    → eq_text (or_star other) (or_star tenant_id) ≡ false
    → eq_text (or_star other) (codes "*") ≡ false
    → resolve_scope
        (record b {
          scope_policies = (scope_key other other_app other_agent other_env, o) ∷ b.scope_policies;
        })
        tenant_id
        app_id
        agent_id
        env
      ≡ resolve_scope b tenant_id app_id agent_id env
unfolding candidates scope_key
resolve_scope-isolated b tenant_id app_id agent_id env other other_app other_agent other_env o ht ho
      n s =
    let own = λ (r q : Text). star_or_apart tenant_id other r q ht ho n in
    resolve_scope-first_of _ tenant_id app_id agent_id env
    ∙ first_of-skip (candidates tenant_id app_id agent_id env)
        (scope_key other other_app other_agent other_env) o b.scope_policies b.policies
        (
          own _ _,
          (
            own _ _,
            (own _ _, (own _ _, (own _ _, (star_or_apart (codes "*") other _ _ refl ho s, tt)))),
          ),
        )
    ∙ sym (resolve_scope-first_of b tenant_id app_id agent_id env)
