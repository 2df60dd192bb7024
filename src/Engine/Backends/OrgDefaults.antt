-- ===== src/Engine/Backends/OrgDefaults.antt =====
-- `layer_org_default` of engine/backends.py: what an org default may change.
use znyx_runtime.Prelude.{
  Text, eq_text, eq_text→eq, mem_text, has_text, Bool, true, false, false≢true, Option, none, some,
  List, [], ◌∷◌, ◌≡◌, refl, sym, ap, ◌∙◌, Bool-cases, Option-cases, inl, inr,
}
use znyx_runtime.Prelude.Dict
use znyx_runtime.Engine.Config.{BackendSpec, StrategyConfig, DetectorConfig}
use znyx_runtime.Engine.Backends.{
  OrgDefault, back_fill, back_fill_all, layer_org_default, layer_strategy, layer_under, fill_keys,
  fill_backends, with_back_filled, order_of, or_empty,
}

-- The backend of this mode has a key, and it is `be`.
abbrev Keyed : Text → BackendSpec → Dict.Dict BackendSpec → Type 0
Keyed mode be d = Dict.lookup mode d ≡ some be

not_none : (be : BackendSpec) → none ≡ some be → ⊥
not_none be h = cc

some_inj : (x y : BackendSpec) → some x ≡ some y → x ≡ y
some_inj x y h = cc

-- An entry for another mode leaves this one's alone.
other_mode :
    (mode m : Text) (be new_be : BackendSpec) (d : Dict.Dict BackendSpec)
    → Keyed mode be d
    → ¬ (m ≡ mode)
    → Keyed mode be (Dict.insert m new_be d)
other_mode mode m be new_be d h n = elim (Bool-cases (eq_text m mode)) [
  | inl e ↦ absurd (n (eq_text→eq m mode e))
  | inr e ↦ Dict.lookup-insert m mode new_be d ∙ rw e h
]

back_fill-Keyed :
    (order : List Text) (mode : Text) (be : BackendSpec) (m : Text) (org_be : BackendSpec)
    (acc : Dict.Dict BackendSpec × Bool)
    → has_text be.auth_value ≡ true
    → Keyed mode be acc.0
    → Keyed mode be (back_fill order m org_be acc).0
unfolding back_fill
back_fill-Keyed order mode be m org_be (d, changed) a h =
    elim (Bool-cases (has_text org_be.auth_value)) [
      | inr n ↦ rw (back_fill, n) h
      | inl y ↦ elim (Option-cases (Dict.lookup m d)) [
        | inl l ↦ elim (Bool-cases (mem_text m order)) [
          | inl i ↦
              rw (back_fill, y, l, i)
                (other_mode mode m be org_be d h
                  (λ e. not_none be (sym l ∙ (ap (λ x. Dict.lookup x d) e ∙ h))))
          | inr i ↦ rw (back_fill, y, l, i) h
        ]
        | inr (pol_be, l) ↦ elim (Bool-cases (has_text pol_be.auth_value)) [
          | inl k ↦ rw (back_fill, y, l, k) h
          | inr k ↦
              rw (back_fill, y, l, k)
                (other_mode mode m be _ d h (λ e. false≢true (
                  sym k
                  ∙ (ap (λ (x : BackendSpec). has_text x.auth_value)
                        (some_inj pol_be be (sym l ∙ (ap (λ x. Dict.lookup x d) e ∙ h)))
                      ∙ a))))
        ]
      ]
    ]

back_fill_all-Keyed :
    (order : List Text) (mode : Text) (be : BackendSpec) (org : Dict.Dict BackendSpec)
    (acc : Dict.Dict BackendSpec × Bool)
    → has_text be.auth_value ≡ true
    → Keyed mode be acc.0
    → Keyed mode be (back_fill_all order org acc).0
unfolding back_fill_all
back_fill_all-Keyed order mode be [] acc a h = h
back_fill_all-Keyed order mode be ((m, org_be) ∷ rest) acc a h =
    back_fill_all-Keyed order mode be rest (back_fill order m org_be acc) a
      (back_fill-Keyed order mode be m org_be acc a h)

strategy-with_back_filled :
    (c : DetectorConfig) (filled : Dict.Dict BackendSpec × Bool)
    → (with_back_filled c filled).strategy ≡ c.strategy
strategy-with_back_filled c (d, true) = refl
strategy-with_back_filled c (d, false) = refl

strategy-fill_keys :
    (c : DetectorConfig) (d : Option (Dict.Dict BackendSpec))
    → (fill_keys c d).strategy ≡ c.strategy
unfolding fill_keys
strategy-fill_keys c none = refl
strategy-fill_keys c (some d) = strategy-with_back_filled c _

strategy-layer_under :
    (c : DetectorConfig) (s own : StrategyConfig) (d : Option (Dict.Dict BackendSpec))
    (o : Option StrategyConfig)
    → o ≡ some own
    → (layer_under c s d o).strategy ≡ c.strategy
unfolding layer_under
strategy-layer_under c s own d none e = cc
strategy-layer_under c s own d (some x) e = strategy-fill_keys c d

strategy-layer_strategy :
    (c : DetectorConfig) (org : OrgDefault) (own : StrategyConfig) (o : Option StrategyConfig)
    → c.strategy ≡ some own
    → (layer_strategy c org o).strategy ≡ c.strategy
unfolding layer_strategy
strategy-layer_strategy c org own none h = refl
strategy-layer_strategy c org own (some s) h =
    strategy-layer_under c s own org.backends c.strategy h

-- A detector with a strategy of its own keeps it, whatever the org default says.
pub strategy-layer_org_default :
    (c : DetectorConfig) (org : Option OrgDefault) (own : StrategyConfig)
    → c.strategy ≡ some own
    → (layer_org_default c org).strategy ≡ some own
unfolding layer_org_default
strategy-layer_org_default c none own h = h
strategy-layer_org_default c (some org) own h = strategy-layer_strategy c org own org.strategy h ∙ h

Keyed-with_back_filled :
    (mode : Text) (be : BackendSpec) (c : DetectorConfig) (d : Dict.Dict BackendSpec)
    (changed : Bool)
    → Keyed mode be d
    → Keyed mode be (or_empty c.backends)
    → Keyed mode be (or_empty (with_back_filled c (d, changed)).backends)
Keyed-with_back_filled mode be c d true h k = h
Keyed-with_back_filled mode be c d false h k = k

Keyed-fill_keys :
    (mode : Text) (be : BackendSpec) (c : DetectorConfig) (org : Option (Dict.Dict BackendSpec))
    → has_text be.auth_value ≡ true
    → Keyed mode be (or_empty c.backends)
    → Keyed mode be (or_empty (fill_keys c org).backends)
unfolding fill_keys
Keyed-fill_keys mode be c none a h = h
Keyed-fill_keys mode be c (some d) a h =
    let filled = back_fill_all (order_of c.strategy) d (or_empty c.backends, false) in
    Keyed-with_back_filled mode be c filled.0 filled.1
      (back_fill_all-Keyed (order_of c.strategy) mode be d (or_empty c.backends, false) a h) h

Keyed-fill_backends :
    (mode : Text) (be : BackendSpec) (own org : Option (Dict.Dict BackendSpec))
    → Keyed mode be (or_empty own)
    → Keyed mode be (or_empty (fill_backends own org))
unfolding fill_backends Dict.lookup
Keyed-fill_backends mode be none org h = absurd (not_none be h)
Keyed-fill_backends mode be (some d) org h = h

Keyed-layer_under :
    (mode : Text) (be : BackendSpec) (c : DetectorConfig) (s : StrategyConfig)
    (org : Option (Dict.Dict BackendSpec)) (own : Option StrategyConfig)
    → has_text be.auth_value ≡ true
    → Keyed mode be (or_empty c.backends)
    → Keyed mode be (or_empty (layer_under c s org own).backends)
unfolding layer_under
Keyed-layer_under mode be c s org none a h = Keyed-fill_backends mode be c.backends org h
Keyed-layer_under mode be c s org (some own) a h = Keyed-fill_keys mode be c org a h

Keyed-layer_strategy :
    (mode : Text) (be : BackendSpec) (c : DetectorConfig) (org : OrgDefault)
    (o : Option StrategyConfig)
    → has_text be.auth_value ≡ true
    → Keyed mode be (or_empty c.backends)
    → Keyed mode be (or_empty (layer_strategy c org o).backends)
unfolding layer_strategy
Keyed-layer_strategy mode be c org none a h = h
Keyed-layer_strategy mode be c org (some s) a h =
    Keyed-layer_under mode be c s org.backends c.strategy a h

-- A backend of the policy that has a key of its own is left as it is by the org default: neither its
-- key nor another field changes.
pub backend-layer_org_default :
    (mode : Text) (be : BackendSpec) (c : DetectorConfig) (org : Option OrgDefault)
    → has_text be.auth_value ≡ true
    → Dict.lookup mode (or_empty c.backends) ≡ some be
    → Dict.lookup mode (or_empty (layer_org_default c org).backends) ≡ some be
unfolding layer_org_default
backend-layer_org_default mode be c none a h = h
backend-layer_org_default mode be c (some org) a h =
    Keyed-layer_strategy mode be c org org.strategy a h
