-- ===== src/Runtime/BundleManager/Restart.antt =====
-- Restarts of the manager of bundle_manager.py: the attempts of a boot, the cached bundle and a cache file
-- that cannot be read.
use znyx_runtime.Prelude.{
  Text, codes, Bool, true, false, Option, none, some, List, [], ◌∷◌, ◌++◌, eq_text, ◌≡◌, refl, sym,
  subst, ap, ◌∙◌, false≢true,
}
use znyx_runtime.Policy.Value.{Object}
use znyx_runtime.Policy.Bundle.{Bundle}
use znyx_runtime.Policy.Bundle.Document.{to_dict, from_dict, from_dict-to_dict}
use znyx_runtime.Runtime.BundleManager.{
  File, unreadable, json_text, Outcome, returned, raised, Manager, new, Config, served, Attempt,
  save_bundle_to_file, load_bundle_from_file, bundle_in,
}
use znyx_runtime.Runtime.BundleManager.Serve.{spawn_cycle}
use znyx_runtime.Runtime.BundleManager.Load.{
  take_bundle, if_none_match, receive, fetch_bundle, attempted, try_fetch, load_cached,
  after_attempts, load_managed, then_spawn, start, poll,
}
use znyx_runtime.Runtime.BundleManager.Trusted.{IsAccepted}
use znyx_runtime.Runtime.BundleManager.Boot.{start-managed}
use znyx_runtime.Runtime.BundleManager.Recovery.{AreOut}

attempted_passes :
    (r : Option Bool × Manager) (rest : Bool × Manager)
    → rest.0 ≡ true
    → (attempted r rest).0 ≡ true
attempted_passes (some u, m) rest e = refl
attempted_passes (none, m) rest e = e

module _ (dumps to_text : Object → Text) (of_text : Text → Option Object) (sha256 : Text → Text)
    (verify : (pem signature payload : Text) → Bool) (config : Config) where
  -- The attempt is answered with an accepted bundle, and the cache can be written.
  abbrev pub IsGood : Attempt → Bundle → Option Text → Type 0
  IsGood a b tag =
      ((sent : Option Text)
        → (body : Object) × (a.answer sent ≡ served (some body) tag) × (from_dict body ≡ some b))
      × IsAccepted dumps to_text of_text sha256 verify config b
      × (a.written ≡ true)

  -- What a state is after such an attempt.
  abbrev after_good : Attempt → Bundle → Option Text → Manager → Manager
  after_good a b tag m =
      (save_bundle_to_file to_text a.copied true b (record m { bundle = some b; etag = tag })).1

  good_fetch :
      (a : Attempt) (b : Bundle) (tag : Option Text) (m : Manager)
      → IsGood a b tag
      → fetch_bundle dumps to_text of_text sha256 verify config a m
        ≡ (some true, after_good a b tag m)
  unfolding fetch_bundle receive take_bundle save_bundle_to_file
  good_fetch a b tag m (e, ok, w) =
      let (body, answered, read) = e (if_none_match m.etag) in rw (answered, read, ok, w) refl

  good_attempt :
      (pre post : List Attempt) (a : Attempt) (b : Bundle) (tag : Option Text) (m : Manager)
      → IsGood a b tag
      → (try_fetch dumps to_text of_text sha256 verify config (pre ++ a ∷ post) m).0 ≡ true
  unfolding try_fetch
  good_attempt [] post a b tag m h = rw (good_fetch a b tag m h) refl
  good_attempt (p ∷ pre) post a b tag m h =
      attempted_passes (fetch_bundle dumps to_text of_text sha256 verify config p m) _ (
        good_attempt pre post a b tag
          (fetch_bundle dumps to_text of_text sha256 verify config p m).1 h)

  out_attempts :
      (attempts : List Attempt) (m : Manager)
      → AreOut attempts
      → try_fetch dumps to_text of_text sha256 verify config attempts m ≡ (false, m)
  unfolding try_fetch fetch_bundle receive
  out_attempts [] m h = refl
  out_attempts (a ∷ attempts) m h = rw (h.0 (if_none_match m.etag)) (out_attempts attempts m h.1)

  started :
      (f : File) (attempts : List Attempt) (m n : Manager)
      → eq_text config.mode (codes "managed") ≡ true
      → load_managed dumps to_text of_text sha256 verify config attempts m ≡ (returned, n)
      → start dumps to_text of_text sha256 verify config f attempts m
        ≡ (returned, spawn_cycle dumps to_text of_text sha256 verify config n)
  started f attempts m n g e =
      start-managed dumps to_text of_text sha256 verify config f attempts m g
      ∙ ap (then_spawn dumps to_text of_text sha256 verify config) e

  after_attempts_passes :
      (r : Bool × Manager)
      → r.0 ≡ true
      → after_attempts dumps to_text of_text sha256 verify config r ≡ (returned, r.1)
  after_attempts_passes (true, m) e = refl
  after_attempts_passes (false, m) e = absurd (false≢true e)

  -- A boot in managed mode comes up as soon as one of its attempts is answered with an accepted bundle
  -- that can be cached, whatever the attempts before it do, and whatever the fail mode.
  pub start-returns :
      (f : File) (pre post : List Attempt) (a : Attempt) (b : Bundle) (tag : Option Text)
      (m : Manager)
      → eq_text config.mode (codes "managed") ≡ true
      → IsGood a b tag
      → (start dumps to_text of_text sha256 verify config f (pre ++ a ∷ post) m).0 ≡ returned
  unfolding load_managed
  start-returns f pre post a b tag m g h =
      let r = try_fetch dumps to_text of_text sha256 verify config (pre ++ a ∷ post) m in
      ap (λ (x : Outcome × Manager). x.0)
        (started f (pre ++ a ∷ post) m r.1 g
          (after_attempts_passes r (good_attempt pre post a b tag m h)))

  poll-cache :
      (a : Attempt) (b : Bundle) (tag : Option Text) (m : Manager)
      → IsGood a b tag
      → (poll dumps to_text of_text sha256 verify config a m).cache
        ≡ json_text (to_text (to_dict b))
  unfolding poll spawn_cycle save_bundle_to_file
  poll-cache a b tag m h = ap (λ (r : Option Bool × Manager). r.1.cache) (good_fetch a b tag m h)

  -- What a save writes is read as the same bundle.
  load-to_dict :
      (b : Bundle)
      → of_text (to_text (to_dict b)) ≡ some (to_dict b)
      → load_bundle_from_file dumps to_text of_text sha256 verify config
          (json_text (to_text (to_dict b)))
        ≡ some b
  unfolding load_bundle_from_file to_dict znyx_runtime.Policy.Value.get znyx_runtime.Prelude.eq_text
  load-to_dict b e =
      ap (bundle_in dumps to_text of_text sha256 verify config) e ∙ from_dict-to_dict b

  from_own_cache :
      (b : Bundle) (attempts : List Attempt) (backup : File)
      → of_text (to_text (to_dict b)) ≡ some (to_dict b)
      → IsAccepted dumps to_text of_text sha256 verify config b
      → AreOut attempts
      → load_managed dumps to_text of_text sha256 verify config attempts
          (new (json_text (to_text (to_dict b))) backup)
        ≡ (returned, record (new (json_text (to_text (to_dict b))) backup) { bundle = some b })
  unfolding new load_managed load_cached
  from_own_cache b attempts backup read ok out =
      rw
        (
          out_attempts attempts (new (json_text (to_text (to_dict b))) backup) out,
          load-to_dict b read,
          ok,
        )
        refl

  rebooted :
      (f : File) (b : Bundle) (attempts : List Attempt) (backup : File)
      → of_text (to_text (to_dict b)) ≡ some (to_dict b)
      → eq_text config.mode (codes "managed") ≡ true
      → IsAccepted dumps to_text of_text sha256 verify config b
      → AreOut attempts
      → let boot =
          start dumps to_text of_text sha256 verify config f attempts
            (new (json_text (to_text (to_dict b))) backup) in
        (boot.0 ≡ returned)
        × (boot.1.bundle ≡ some b)
        × (boot.1.cache ≡ json_text (to_text (to_dict b)))
  unfolding new spawn_cycle
  rebooted f b attempts backup read g ok out =
      rw
        (started f attempts (new (json_text (to_text (to_dict b))) backup)
          (record (new (json_text (to_text (to_dict b))) backup) { bundle = some b }) g
          (from_own_cache b attempts backup read ok out))
        (refl, refl, refl)

  -- A bundle survives a restart without the control plane: after a poll that was answered with an
  -- accepted bundle and could cache its JSON document, a boot on the same files in which every request
  -- fails returns with that bundle, read back from the document, in use; provided that `json.load` reads
  -- what `json.dumps` writes of the document as that document.
  pub restart-poll :
      (f : File) (a : Attempt) (b : Bundle) (tag : Option Text) (m : Manager)
      (attempts : List Attempt)
      → of_text (to_text (to_dict b)) ≡ some (to_dict b)
      → eq_text config.mode (codes "managed") ≡ true
      → IsGood a b tag
      → AreOut attempts
      → let left = poll dumps to_text of_text sha256 verify config a m in
        let boot =
          start dumps to_text of_text sha256 verify config f attempts
            (new left.cache left.backup) in
        (boot.0 ≡ returned) × (boot.1.bundle ≡ some b) × (boot.1.cache ≡ left.cache)
  restart-poll f a b tag m attempts read g h out =
      subst
        (λ c.
          let boot =
            start dumps to_text of_text sha256 verify config f attempts
              (new c (poll dumps to_text of_text sha256 verify config a m).backup) in
          (boot.0 ≡ returned) × (boot.1.bundle ≡ some b) × (boot.1.cache ≡ c))
        (sym (poll-cache a b tag m h))
        (rebooted f b attempts (poll dumps to_text of_text sha256 verify config a m).backup read g
          h.1 out)

  -- A cache file that cannot be read stops a boot in which every request fails, also where `fail_mode` is
  -- `open`.
  pub start-unreadable :
      (f backup : File) (attempts : List Attempt)
      → eq_text config.mode (codes "managed") ≡ true
      → AreOut attempts
      → (start dumps to_text of_text sha256 verify config f attempts (new unreadable backup)).0
        ≡ raised
  unfolding new load_managed load_cached load_bundle_from_file
  start-unreadable f backup attempts g out =
      rw
        (
          start-managed dumps to_text of_text sha256 verify config f attempts
              (new unreadable backup) g,
          out_attempts attempts (new unreadable backup) out,
        )
        refl
