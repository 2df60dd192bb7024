-- ===== src/Runtime/BundleManager/Load.antt =====
-- How the manager of packages/znyx-runtime/src/znyx_runtime/bundle_manager.py comes to a policy: the
-- fetch, the boot in both modes, and the poll.
use znyx_runtime.Prelude.{
  Text, codes, Bool, true, false, not, Option, none, some, List, [], ◌∷◌, reverse, eq_text,
  has_text, if◌then◌else◌,
}
use znyx_runtime.Inference.Cache.{starts_with}
use znyx_runtime.Policy.Value.{Object}
use znyx_runtime.Policy.Bundle.{Bundle}
use znyx_runtime.Policy.Bundle.Document.{from_dict}
use znyx_runtime.Runtime.BundleManager.{
  File, missing, unreadable, json_text, yaml_policies, exists, Outcome, returned, raised, Manager,
  Config, Response, unreachable, not_modified, served, Attempt, save_bundle_to_file, is_fail_open,
  accepts, load_bundle_from_file,
}
use znyx_runtime.Runtime.BundleManager.Serve.{spawn_cycle}

-- The `If-None-Match` header.
abbrev pub if_none_match : Option Text → Option Text
if_none_match etag = if has_text etag then etag else none

-- `PolicyBundle.from_dict(resp.json())`
abbrev pub read_body : Option Object → Option Bundle
read_body none = none
read_body (some o) = from_dict o

abbrev pub fetched : Outcome × Manager → Option Bool × Manager
fetched (returned, m) = (some true, m)
fetched (raised, m) = (none, m)

abbrev pub attempted : Option Bool × Manager → Bool × Manager → Bool × Manager
attempted (some updated, m) rest = (true, m)
attempted (none, m) rest = rest

abbrev pub ends_with : Text → Text → Bool
ends_with suffix t = starts_with (reverse suffix) (reverse t)

abbrev pub from_yaml : File → Manager → Outcome × Manager
from_yaml (yaml_policies o) m = (returned, record m { policy_resolver = some o })
from_yaml missing m = (raised, m)
from_yaml unreadable m = (raised, m)
from_yaml (json_text o) m = (raised, m)

module _ (dumps to_text : Object → Text) (of_text : Text → Option Object) (sha256 : Text → Text)
    (verify : (pem signature payload : Text) → Bool) (config : Config) where
  -- What `_fetch_bundle` does with the bundle of an answer, if there is one, and its ETag.
  unfoldable pub take_bundle :
      Attempt → Option Bundle → Option Text → Manager → Option Bool × Manager
  unfolding accepts save_bundle_to_file
  take_bundle a none etag m = (none, m)
  take_bundle a (some b) etag m =
      if accepts dumps to_text of_text sha256 verify config b
      then fetched (
          save_bundle_to_file to_text a.copied a.written b
            (record m { bundle = some b; etag = etag }))
      else (none, m)

  -- What it does with the answer.
  unfoldable pub receive : Attempt → Response → Manager → Option Bool × Manager
  unfolding take_bundle from_dict
  receive a unreachable m = (none, m)
  receive a not_modified m = (some false, m)
  receive a (served body etag) m = take_bundle a (read_body body) etag m

  -- `_fetch_bundle`
  unfoldable pub fetch_bundle : Attempt → Manager → Option Bool × Manager
  unfolding receive
  fetch_bundle a m = receive a (a.answer (if_none_match m.etag)) m

  -- The attempts of `_load_managed`: whether one of them returned.
  unfoldable pub try_fetch : List Attempt → Manager → Bool × Manager
  unfolding fetch_bundle
  try_fetch [] m = (false, m)
  try_fetch (a ∷ attempts) m =
      attempted (fetch_bundle a m) (try_fetch attempts (fetch_bundle a m).1)

  abbrev pub without_bundle : Manager → Outcome × Manager
  without_bundle m =
      (if is_fail_open dumps to_text of_text sha256 verify config then returned else raised, m)

  abbrev pub from_cache : Option Bundle → Manager → Outcome × Manager
  from_cache none m = (raised, m)
  from_cache (some cached) m =
      if accepts dumps to_text of_text sha256 verify config cached
      then (returned, record m { bundle = some cached })
      else without_bundle m

  -- The end of `_load_managed`, when no attempt returned. A cache file that cannot be read raises.
  unfoldable pub load_cached : Manager → Outcome × Manager
  unfolding accepts load_bundle_from_file
  load_cached m =
      if exists m.cache
      then from_cache (load_bundle_from_file dumps to_text of_text sha256 verify config m.cache) m
      else without_bundle m

  abbrev pub after_attempts : Bool × Manager → Outcome × Manager
  after_attempts (true, m) = (returned, m)
  after_attempts (false, m) = load_cached m

  -- `_load_managed`
  unfoldable pub load_managed : List Attempt → Manager → Outcome × Manager
  unfolding try_fetch load_cached
  load_managed attempts m = after_attempts (try_fetch attempts m)

  abbrev yaml_of : File → Option Object
  yaml_of (yaml_policies o) = some o
  yaml_of missing = none
  yaml_of unreadable = none
  yaml_of (json_text o) = none

  abbrev pub from_json : Option Bundle → Manager → Outcome × Manager
  from_json none m = (raised, m)
  from_json (some b) m = (
    if accepts dumps to_text of_text sha256 verify config b then returned else raised,
    record m { bundle = some b },
  )

  -- `_load_local`, with the file at `policy_path`. A bundle that is refused stays in place.
  unfoldable pub load_local : File → Manager → Outcome × Manager
  unfolding accepts load_bundle_from_file starts_with
  load_local f m =
      if not (exists f)
      then without_bundle m
      else if ends_with (codes ".json") config.policy_path
      then from_json (load_bundle_from_file dumps to_text of_text sha256 verify config f) m
      else from_yaml f m

  abbrev pub then_spawn : Outcome × Manager → Outcome × Manager
  then_spawn (raised, m) = (raised, m)
  then_spawn (returned, m) = (returned, spawn_cycle dumps to_text of_text sha256 verify config m)

  -- `start`
  unfoldable pub start : File → List Attempt → Manager → Outcome × Manager
  unfolding load_local load_managed spawn_cycle
  start f attempts m =
      if eq_text config.mode (codes "local")
      then then_spawn (load_local f m)
      else if eq_text config.mode (codes "managed")
      then then_spawn (load_managed attempts m)
      else (raised, m)

  -- One round of `_poll_loop`.
  unfoldable pub poll : Attempt → Manager → Manager
  unfolding fetch_bundle spawn_cycle
  poll a m = spawn_cycle dumps to_text of_text sha256 verify config (fetch_bundle a m).1
