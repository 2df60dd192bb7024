-- ===== src/Runtime/BundleManager/Recovery.antt =====
-- `_load_managed` of bundle_manager.py: when a boot succeeds, what it then holds, and what it does with
-- the files of an earlier run.
use znyx_runtime.Prelude.{
  Text, codes, Bool, true, false, Option, none, some, List, [], ◌∷◌, has_text, eq_text,
  if◌then◌else◌, ◌≡◌, ◌≢◌, refl, sym, subst, ◌∙◌, Bool-cases, inl, inr, false≢true,
}
use znyx_runtime.Policy.Value.{Object}
use znyx_runtime.Policy.Bundle.{Bundle}
use znyx_runtime.Runtime.BundleManager.{
  File, missing, unreadable, json_text, yaml_policies, exists, Outcome, returned, raised, Manager,
  new, Config, Response, unreachable, not_modified, served, Attempt, accepts, is_fail_open,
  load_bundle_from_file,
}
use znyx_runtime.Runtime.BundleManager.Serve.{spawn_cycle}
use znyx_runtime.Runtime.BundleManager.Load.{
  take_bundle, read_body, if_none_match, receive, without_bundle, fetch_bundle, attempted,
  try_fetch, from_cache, load_cached, after_attempts, load_managed, then_spawn, start,
}
use znyx_runtime.Runtime.BundleManager.Trusted.{
  IsAccepted, IsSound, HasBundle, Event, run, run-keeps, fetch_bundle-IsSound, validated_there,
  fetched-bundle,
}
use znyx_runtime.Runtime.BundleManager.Boot.{start-managed, serving-IsTrusted}

-- The control plane answers 304 only to a request that carries an `If-None-Match`.
abbrev pub AreHonest : List Attempt → Type 0
AreHonest [] = Unit
AreHonest (a ∷ attempts) = (a.answer none ≢ not_modified) × AreHonest attempts

-- No request gets an answer.
abbrev pub AreOut : List Attempt → Type 0
AreOut [] = Unit
AreOut (a ∷ attempts) = ((tag : Option Text) → a.answer tag ≡ unreachable) × AreOut attempts

nothing_there : (u : Bool) (r : Option Bool × Manager) → r.0 ≡ none → r.0 ≡ some u → ⊥
nothing_there u r n e = cc

raised_there : (r : Outcome × Manager) → r.0 ≡ raised → r.0 ≡ returned → ⊥
raised_there r n e = cc

module _ (dumps to_text : Object → Text) (of_text : Text → Option Object) (sha256 : Text → Text)
    (verify : (pem signature payload : Text) → Bool) (config : Config) where
  abbrev Found : Manager → Type 0
  Found m = HasBundle dumps to_text of_text sha256 verify config m.bundle

  take_finds :
      (a : Attempt) (o : Option Bundle) (tag : Option Text) (m : Manager) (u : Bool)
      → (take_bundle dumps to_text of_text sha256 verify config a o tag m).0 ≡ some u
      → Found (take_bundle dumps to_text of_text sha256 verify config a o tag m).1
  unfolding take_bundle
  take_finds a none tag m u e = cc
  take_finds a (some b) tag m u e =
      elim (Bool-cases (accepts dumps to_text of_text sha256 verify config b)) [
        | inl ok ↦ (b, fetched-bundle dumps to_text of_text sha256 verify config a b tag m ok)
        | inr bad ↦ absurd (
            nothing_there u
              (take_bundle dumps to_text of_text sha256 verify config a (some b) tag m)
              (rw (take_bundle, bad) refl) e)
      ]

  receive_finds :
      (a : Attempt) (r : Response) (m : Manager) (u : Bool)
      → (r ≡ not_modified → Found m)
      → (receive dumps to_text of_text sha256 verify config a r m).0 ≡ some u
      → Found (receive dumps to_text of_text sha256 verify config a r m).1
  unfolding receive
  receive_finds a unreachable m u k e = cc
  receive_finds a not_modified m u k e = k refl
  receive_finds a (served body tag) m u k e = take_finds a (read_body body) tag m u e

  unchanged_finds :
      (a : Attempt) (m : Manager)
      → IsSound dumps to_text of_text sha256 verify config m
      → a.answer none ≢ not_modified
      → a.answer (if_none_match m.etag) ≡ not_modified
      → Found m
  unchanged_finds a m h honest e = elim (Bool-cases (has_text m.etag)) [
    | inr n ↦ absurd (honest (subst (λ t. a.answer t ≡ not_modified) (rw n refl) e))
    | inl y ↦ elim h.1 [ inl n ↦ absurd (false≢true (sym n ∙ y)) | inr b ↦ b ]
  ]

  attempted_finds :
      (r : Option Bool × Manager) (rest : Bool × Manager)
      → ((u : Bool) → r.0 ≡ some u → Found r.1)
      → (rest.0 ≡ true → Found rest.1)
      → (attempted r rest).0 ≡ true
      → Found (attempted r rest).1
  attempted_finds (some u, m) rest k l e = k u refl
  attempted_finds (none, m) rest k l e = l e

  try_fetch_finds :
      (attempts : List Attempt) (m : Manager)
      → IsSound dumps to_text of_text sha256 verify config m
      → AreHonest attempts
      → (try_fetch dumps to_text of_text sha256 verify config attempts m).0 ≡ true
      → Found (try_fetch dumps to_text of_text sha256 verify config attempts m).1
  unfolding try_fetch
  try_fetch_finds [] m h honest e = absurd (false≢true e)
  try_fetch_finds (a ∷ attempts) m h honest e =
      attempted_finds (fetch_bundle dumps to_text of_text sha256 verify config a m)
        (try_fetch dumps to_text of_text sha256 verify config attempts
          (fetch_bundle dumps to_text of_text sha256 verify config a m).1)
        (λ u.
          receive_finds a (a.answer (if_none_match m.etag)) m u (unchanged_finds a m h honest.0))
        (try_fetch_finds attempts (fetch_bundle dumps to_text of_text sha256 verify config a m).1
          (fetch_bundle-IsSound dumps to_text of_text sha256 verify config a m h) honest.1)
        e

  from_cache_finds :
      (o : Option Bundle) (m : Manager)
      → is_fail_open dumps to_text of_text sha256 verify config ≡ false
      → (from_cache dumps to_text of_text sha256 verify config o m).0 ≡ returned
      → Found (from_cache dumps to_text of_text sha256 verify config o m).1
  from_cache_finds none m c e = cc
  from_cache_finds (some b) m c e =
      elim (Bool-cases (accepts dumps to_text of_text sha256 verify config b)) [
        | inl ok ↦ rw ok (b, refl)
        | inr bad ↦ absurd (
            raised_there (from_cache dumps to_text of_text sha256 verify config (some b) m)
              (rw (bad, c) refl) e)
      ]

  read_cache_finds :
      (f : File) (m : Manager)
      → is_fail_open dumps to_text of_text sha256 verify config ≡ false
      → let out =
          if exists f
          then from_cache dumps to_text of_text sha256 verify config
              (load_bundle_from_file dumps to_text of_text sha256 verify config f)
              m
          else without_bundle dumps to_text of_text sha256 verify config m in
        out.0 ≡ returned → Found out.1
  unfolding load_bundle_from_file
  read_cache_finds missing m c e =
      absurd
        (raised_there (without_bundle dumps to_text of_text sha256 verify config m) (rw c refl) e)
  read_cache_finds unreadable m c e = cc
  read_cache_finds (json_text o) m c e = from_cache_finds _ m c e
  read_cache_finds (yaml_policies o) m c e = cc

  after_attempts_finds :
      (r : Bool × Manager)
      → is_fail_open dumps to_text of_text sha256 verify config ≡ false
      → (r.0 ≡ true → Found r.1)
      → (after_attempts dumps to_text of_text sha256 verify config r).0 ≡ returned
      → Found (after_attempts dumps to_text of_text sha256 verify config r).1
  unfolding load_cached
  after_attempts_finds (true, m) c k e = k refl
  after_attempts_finds (false, m) c k e = read_cache_finds m.cache m c e

  spawned_finds :
      (r : Outcome × Manager)
      → (r.0 ≡ returned → Found r.1)
      → (then_spawn dumps to_text of_text sha256 verify config r).0 ≡ returned
      → Found (then_spawn dumps to_text of_text sha256 verify config r).1
  unfolding spawn_cycle
  spawned_finds (returned, m) k e = k refl
  spawned_finds (raised, m) k e = cc

  start_finds :
      (f cache backup : File) (attempts : List Attempt)
      → eq_text config.mode (codes "managed") ≡ true
      → is_fail_open dumps to_text of_text sha256 verify config ≡ false
      → AreHonest attempts
      → (start dumps to_text of_text sha256 verify config f attempts (new cache backup)).0
        ≡ returned
      → Found (start dumps to_text of_text sha256 verify config f attempts (new cache backup)).1
  unfolding new load_managed
  start_finds f cache backup attempts g c honest r =
      let m = new cache backup in
      subst (λ (x : Outcome × Manager). x.0 ≡ returned → Found x.1)
        (sym (start-managed dumps to_text of_text sha256 verify config f attempts m g))
        (spawned_finds (load_managed dumps to_text of_text sha256 verify config attempts m) (
          after_attempts_finds (try_fetch dumps to_text of_text sha256 verify config attempts m) c
            (try_fetch_finds attempts m (tt, inl refl) honest)))
        r

  -- Fail-closed, in managed mode: once `start` has returned there is an accepted bundle in use, at the
  -- start and after every later round of polls and listeners, even if the control plane never answers
  -- again. It is required that `fail_mode` is not `open` and that a 304 answers only conditional requests.
  pub serving-closed :
      (f cache backup : File) (attempts : List Attempt) (es : List Event)
      → eq_text config.mode (codes "managed") ≡ true
      → is_fail_open dumps to_text of_text sha256 verify config ≡ false
      → AreHonest attempts
      → (start dumps to_text of_text sha256 verify config f attempts (new cache backup)).0
        ≡ returned
      → (b : Bundle) × ((run dumps to_text of_text sha256 verify config es
            (start dumps to_text of_text sha256 verify config f attempts
              (new cache backup)).1).bundle
          ≡ some b)
        × IsAccepted dumps to_text of_text sha256 verify config b
  serving-closed f cache backup attempts es g c honest r =
      let m = (start dumps to_text of_text sha256 verify config f attempts (new cache backup)).1 in
      let (b, e) =
        run-keeps dumps to_text of_text sha256 verify config es m
          (start_finds f cache backup attempts g c honest r) in
      (
        b,
        e,
        validated_there dumps to_text of_text sha256 verify config _ b e (
            serving-IsTrusted dumps to_text of_text sha256 verify config f cache backup attempts es
              r),
      )
