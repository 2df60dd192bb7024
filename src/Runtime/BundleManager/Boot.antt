-- ===== src/Runtime/BundleManager/Boot.antt =====
-- `start` of bundle_manager.py: what a start that returns leaves, when it returns, and the restart from
-- the cached bundle.
use znyx_runtime.Prelude.{
  Text, codes, Bool, true, false, Option, none, some, List, [], ◌∷◌, eq_text, eq_text→eq,
  if◌then◌else◌, ◌≡◌, refl, sym, subst, Bool-cases, inl, inr,
}
use znyx_runtime.Policy.Value.{Object}
use znyx_runtime.Policy.Bundle.{Bundle}
use znyx_runtime.Runtime.BundleManager.{
  File, missing, unreadable, json_text, yaml_policies, exists, Outcome, returned, raised, Manager,
  new, Config, Attempt, accepts, load_bundle_from_file,
}
use znyx_runtime.Runtime.BundleManager.Serve.{spawn_cycle}
use znyx_runtime.Runtime.BundleManager.Load.{
  ends_with, without_bundle, fetch_bundle, attempted, try_fetch, from_cache, load_cached,
  after_attempts, load_managed, from_json, from_yaml, load_local, then_spawn, start,
}
use znyx_runtime.Runtime.BundleManager.Trusted.{
  IsTrusted, IsSound, Event, run, run-IsSound, fetch_bundle-IsSound,
}

module _ (dumps to_text : Object → Text) (of_text : Text → Option Object) (sha256 : Text → Text)
    (verify : (pem signature payload : Text) → Bool) (config : Config) where
  abbrev Sound : Manager → Type 0
  Sound = IsSound dumps to_text of_text sha256 verify config

  attempted-IsSound :
      (r : Option Bool × Manager) (rest : Bool × Manager)
      → Sound r.1
      → Sound rest.1
      → Sound (attempted r rest).1
  attempted-IsSound (some u, m) rest h k = h
  attempted-IsSound (none, m) rest h k = k

  try_fetch-IsSound :
      (attempts : List Attempt) (m : Manager)
      → Sound m
      → Sound (try_fetch dumps to_text of_text sha256 verify config attempts m).1
  unfolding try_fetch
  try_fetch-IsSound [] m h = h
  try_fetch-IsSound (a ∷ attempts) m h =
      attempted-IsSound (fetch_bundle dumps to_text of_text sha256 verify config a m)
        (try_fetch dumps to_text of_text sha256 verify config attempts
          (fetch_bundle dumps to_text of_text sha256 verify config a m).1)
        (fetch_bundle-IsSound dumps to_text of_text sha256 verify config a m h)
        (try_fetch-IsSound attempts (fetch_bundle dumps to_text of_text sha256 verify config a m).1
          (fetch_bundle-IsSound dumps to_text of_text sha256 verify config a m h))

  from_cache-IsSound :
      (o : Option Bundle) (m : Manager)
      → Sound m
      → Sound (from_cache dumps to_text of_text sha256 verify config o m).1
  from_cache-IsSound none m h = h
  from_cache-IsSound (some b) m h =
      elim (Bool-cases (accepts dumps to_text of_text sha256 verify config b)) [
        | inl e ↦ rw e (e, inr (b, refl))
        | inr e ↦ rw e h
      ]

  read_cache-IsSound :
      (f : File) (m : Manager)
      → Sound m
      → Sound
          (if exists f
            then from_cache dumps to_text of_text sha256 verify config
                (load_bundle_from_file dumps to_text of_text sha256 verify config f)
                m
            else without_bundle dumps to_text of_text sha256 verify config m).1
  unfolding load_bundle_from_file
  read_cache-IsSound missing m h = h
  read_cache-IsSound unreadable m h = h
  read_cache-IsSound (json_text o) m h = from_cache-IsSound _ m h
  read_cache-IsSound (yaml_policies o) m h = h

  load_cached-IsSound :
      (m : Manager) → Sound m → Sound (load_cached dumps to_text of_text sha256 verify config m).1
  unfolding load_cached
  load_cached-IsSound m h = read_cache-IsSound m.cache m h

  after_attempts-IsSound :
      (r : Bool × Manager)
      → Sound r.1
      → Sound (after_attempts dumps to_text of_text sha256 verify config r).1
  after_attempts-IsSound (true, m) h = h
  after_attempts-IsSound (false, m) h = load_cached-IsSound m h

  load_managed-IsSound :
      (attempts : List Attempt) (m : Manager)
      → Sound m
      → Sound (load_managed dumps to_text of_text sha256 verify config attempts m).1
  unfolding load_managed
  load_managed-IsSound attempts m h =
      after_attempts-IsSound (try_fetch dumps to_text of_text sha256 verify config attempts m)
        (try_fetch-IsSound attempts m h)

  refused :
      (b : Bundle) (m : Manager)
      → accepts dumps to_text of_text sha256 verify config b ≡ false
      → (from_json dumps to_text of_text sha256 verify config (some b) m).0 ≡ returned
      → ⊥
  refused b m e r =
      let raises : (from_json dumps to_text of_text sha256 verify config (some b) m).0 ≡ raised =
        rw e refl in
      cc

  json-IsSound :
      (o : Option Bundle) (m : Manager)
      → (from_json dumps to_text of_text sha256 verify config o m).0 ≡ returned
      → Sound m
      → Sound (from_json dumps to_text of_text sha256 verify config o m).1
  json-IsSound none m r h = h
  json-IsSound (some b) m r h =
      elim (Bool-cases (accepts dumps to_text of_text sha256 verify config b)) [
        | inl e ↦ (e, inr (b, refl))
        | inr e ↦ absurd (refused b m e r)
      ]

  yaml-IsSound : (f : File) (m : Manager) → Sound m → Sound (from_yaml f m).1
  yaml-IsSound missing m h = h
  yaml-IsSound unreadable m h = h
  yaml-IsSound (json_text o) m h = h
  yaml-IsSound (yaml_policies o) m h = h

  load_local-json :
      (f : File) (m : Manager)
      → exists f ≡ true
      → ends_with (codes ".json") config.policy_path ≡ true
      → load_local dumps to_text of_text sha256 verify config f m
        ≡ from_json dumps to_text of_text sha256 verify config
            (load_bundle_from_file dumps to_text of_text sha256 verify config f)
            m
  unfolding load_local
  load_local-json f m e j = rw (load_local, e, j) refl

  load_local-IsSound :
      (f : File) (m : Manager)
      → (load_local dumps to_text of_text sha256 verify config f m).0 ≡ returned
      → Sound m
      → Sound (load_local dumps to_text of_text sha256 verify config f m).1
  unfolding load_local
  load_local-IsSound f m r h = elim (Bool-cases (exists f)) [
    | inr e ↦ rw (load_local, e) h
    | inl e ↦ elim (Bool-cases (ends_with (codes ".json") config.policy_path)) [
      | inl j ↦
          subst (λ (x : Outcome × Manager). x.0 ≡ returned → Sound x.1)
            (sym (load_local-json f m e j))
            (λ q.
              json-IsSound (load_bundle_from_file dumps to_text of_text sha256 verify config f) m q
                h)
            r
      | inr j ↦ rw (load_local, e, j) (yaml-IsSound f m h)
    ]
  ]

  spawned-IsSound :
      (r : Outcome × Manager)
      → (then_spawn dumps to_text of_text sha256 verify config r).0 ≡ returned
      → (r.0 ≡ returned → Sound r.1)
      → Sound (then_spawn dumps to_text of_text sha256 verify config r).1
  unfolding spawn_cycle
  spawned-IsSound (returned, m) e h = h refl
  spawned-IsSound (raised, m) e h = cc

  start-local :
      (f : File) (attempts : List Attempt) (m : Manager)
      → eq_text config.mode (codes "local") ≡ true
      → start dumps to_text of_text sha256 verify config f attempts m
        ≡ then_spawn dumps to_text of_text sha256 verify config
            (load_local dumps to_text of_text sha256 verify config f m)
  unfolding start
  start-local f attempts m l = rw (start, l) refl

  pub start-managed :
      (f : File) (attempts : List Attempt) (m : Manager)
      → eq_text config.mode (codes "managed") ≡ true
      → start dumps to_text of_text sha256 verify config f attempts m
        ≡ then_spawn dumps to_text of_text sha256 verify config
            (load_managed dumps to_text of_text sha256 verify config attempts m)
  unfolding start eq_text
  start-managed f attempts m g = rw (start, eq_text→eq config.mode (codes "managed") g) refl

  pub start-IsSound :
      (f : File) (attempts : List Attempt) (m : Manager)
      → (start dumps to_text of_text sha256 verify config f attempts m).0 ≡ returned
      → Sound m
      → Sound (start dumps to_text of_text sha256 verify config f attempts m).1
  unfolding start
  start-IsSound f attempts m r h = elim (Bool-cases (eq_text config.mode (codes "local"))) [
    | inl l ↦
        subst (λ (x : Outcome × Manager). x.0 ≡ returned → Sound x.1)
          (sym (start-local f attempts m l))
          (λ q.
            spawned-IsSound (load_local dumps to_text of_text sha256 verify config f m) q
              (λ p. load_local-IsSound f m p h))
          r
    | inr l ↦ elim (Bool-cases (eq_text config.mode (codes "managed"))) [
      | inl g ↦
          subst (λ (x : Outcome × Manager). x.0 ≡ returned → Sound x.1)
            (sym (start-managed f attempts m g))
            (λ q.
              spawned-IsSound (load_managed dumps to_text of_text sha256 verify config attempts m) q
                (λ p. load_managed-IsSound attempts m h))
            r
      | inr g ↦ rw (start, l, g) h
    ]
  ]

  -- Whatever is in the files when the service starts, whatever the control plane answers and however the
  -- polls and the listeners interleave: once `start` has returned, in local or in managed mode, the
  -- bundle in use, if there is one, is one that validation accepts.
  pub serving-IsTrusted :
      (f cache backup : File) (attempts : List Attempt) (es : List Event)
      → (start dumps to_text of_text sha256 verify config f attempts (new cache backup)).0
        ≡ returned
      → IsTrusted dumps to_text of_text sha256 verify config
          (run dumps to_text of_text sha256 verify config es
            (start dumps to_text of_text sha256 verify config f attempts
              (new cache backup)).1).bundle
  unfolding new
  serving-IsTrusted f cache backup attempts es r =
      (run-IsSound dumps to_text of_text sha256 verify config es _
        (start-IsSound f attempts (new cache backup) r (tt, inl refl))).0
