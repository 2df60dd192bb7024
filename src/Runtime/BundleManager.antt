-- ===== src/Runtime/BundleManager.antt =====
-- packages/znyx-runtime/src/znyx_runtime/bundle_manager.py, with `load_bundle_from_file` and
-- `save_bundle_to_file` of policy/bundle.py. The state holds the two cache files too. What the outside
-- does is an argument: how the control plane answers a request with a given `If-None-Match`, and
-- whether the copy and the write of a save succeed. A call that raises returns `none`, with the state as
-- it was left. `to_text` and `of_text` are `json.dumps` and `json.load` on files. The sleeps between attempts are left out.
pub mod Serve
pub mod Load
pub mod Trusted
pub mod Boot
pub mod Recovery
pub mod Restart
pub mod Serving
use znyx_runtime.Prelude.{
  Text, codes, Bool, true, false, not, ◌&&◌, ◌||◌, Option, none, some, List, [], ◌∷◌, reverse,
  eq_text, has_text, or_text, if◌then◌else◌,
}
use znyx_runtime.Inference.Cache.{starts_with}
use znyx_runtime.Policy.Value.{
  Value, boolean, text, object, Object, empty, entry, get, put, is_truthy,
}
use znyx_runtime.Policy.Bundle.Document.{to_dict, from_dict}
use znyx_runtime.Policy.Resolver.{resolve}
use znyx_runtime.Policy.Bundle.{
  Bundle, bundle_format_version, is_empty, compute_hash, resolve_scope, validate_bundle,
}

-- A file as the code reads it: `unreadable` is one that opening or decoding raises on, and
-- `json_text` one with the text of a JSON document, or of none.
pub data File : Type 0 where
  missing : File
  unreadable : File
  json_text : Text → File
  yaml_policies : Object → File

pub data Outcome : Type 0 where
  returned raised : Outcome

pub data CycleTask : Type 0 where
  no_task : CycleTask
  running : Option Object → CycleTask
  done : CycleTask

-- `BundleManager`, with the files `bundle_cache.json` and `bundle_cache.json.bak`.
pub record Manager : Type 0 where
  pub bundle : Option Bundle
  pub policy_resolver : Option Object
  pub etag : Option Text
  pub cycle_task : CycleTask
  pub cache : File
  pub backup : File

-- `BundleManager(config)`, on a machine that has these files.
unfoldable pub new : (cache backup : File) → Manager
new cache backup = record {
  bundle = none;
  policy_resolver = none;
  etag = none;
  cycle_task = no_task;
  cache = cache;
  backup = backup;
}

-- The fields of `RuntimeConfig` that the manager reads.
pub record Config : Type 0 where
  pub mode : Text
  pub policy_path : Text
  pub fail_mode : Text
  pub bundle_public_key : Option Text
  pub require_signed_bundles : Bool
  pub require_bundle_sig_v2 : Bool

-- An answer of the control plane: `unreachable` where the request or `raise_for_status` raises; a body
-- that is no JSON object is `none`; last the `ETag` header.
pub data Response : Type 0 where
  unreachable : Response
  not_modified : Response
  served : Option Object → Option Text → Response

pub record Attempt : Type 0 where
  pub answer : Option Text → Response
  pub copied : Bool
  pub written : Bool

abbrev pub exists : File → Bool
exists missing = false
exists unreadable = true
exists (json_text o) = true
exists (yaml_policies o) = true

abbrev is_given : Option Value → Bool
is_given none = false
is_given (some v) = true

-- `save_bundle_to_file`: atomic, so a failed write leaves the cache as it was. `to_text` is
-- `json.dumps` with its indent.
unfoldable pub save_bundle_to_file :
    (to_text : Object → Text) (copied written : Bool) → Bundle → Manager → Outcome × Manager
unfolding to_dict
save_bundle_to_file to_text copied written b m =
    let kept : Manager = record m {
      backup = if exists m.cache && copied then m.cache else m.backup;
    } in
    if written
    then (returned, record kept { cache = json_text (to_text (to_dict b)) })
    else (raised, kept)

module _ (dumps to_text : Object → Text) (of_text : Text → Option Object) (sha256 : Text → Text)
    (verify : (pem signature payload : Text) → Bool) (config : Config) where
  abbrev pub is_fail_open : Bool
  is_fail_open = eq_text config.fail_mode (codes "open")

  -- `validate_bundle`, as the manager calls it.
  unfoldable pub accepts : Bundle → Bool
  unfolding validate_bundle
  accepts b =
      validate_bundle dumps verify sha256 b config.bundle_public_key config.require_signed_bundles
        config.require_bundle_sig_v2

  -- A plain policy, which becomes a bundle of the defaults with its hash.
  unfoldable pub plain_bundle : Object → Bundle
  unfolding compute_hash
  plain_bundle o =
      let plain : Bundle = record {
        version = bundle_format_version;
        bundle_id = [];
        org_id = [];
        project_id = [];
        environment = codes "prod";
        published_at = [];
        policies = o;
        policy_hash = [];
        signature = none;
        scope = entry (codes "tenant_id") (text []) (
            entry (codes "app_id") (text [])
              (entry (codes "agent_id") (text []) (entry (codes "env") (text []) empty)));
        scope_policies = [];
        signature_v2 = none;
      } in
      record plain { policy_hash = compute_hash dumps sha256 plain }

  -- What is made of the document that `json.load` reads, if it does.
  abbrev pub bundle_in : Option Object → Option Bundle
  bundle_in none = none
  bundle_in (some o) =
      if is_given (get (codes "policies") o) && is_given (get (codes "version") o)
      then from_dict o
      else some (plain_bundle o)

  -- `load_bundle_from_file`: `none` where it raises. `of_text` is `json.load`; a YAML document is not
  -- JSON.
  unfoldable pub load_bundle_from_file : File → Option Bundle
  unfolding plain_bundle from_dict get
  load_bundle_from_file missing = none
  load_bundle_from_file unreadable = none
  load_bundle_from_file (yaml_policies o) = none
  load_bundle_from_file (json_text t) = bundle_in (of_text t)
