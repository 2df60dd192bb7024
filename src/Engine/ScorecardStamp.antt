-- ===== src/Engine/ScorecardStamp.antt =====
-- packages/znyx-core/src/znyx_core/engine/scorecard_stamp.py: the signed enforcement stamp.
-- The Ed25519 package and base64 are arguments.
pub mod Roundtrip
use znyx_runtime.Prelude.{
  Text, codes, quoted, quoted_or_null, has_text, or_text, Bool, true, false, Option, none, some,
  ◌++◌, [], ◌∷◌, if◌then◌else◌,
}
use znyx_runtime.Engine.Config.{
  Flag, is_true, truthy, falsy, StampFields, GateStamp, not_dict, stamp,
}

-- `bool(stamp.get("enforcement_passed"))`
abbrev pub holds : Flag → Bool
holds is_true = true
holds truthy = true
holds falsy = false

json_bool : Bool → Text
json_bool true = codes "true"
json_bool false = codes "false"

-- `_canonical_payload`: the sorted, compact JSON object.
unfoldable pub canonical_payload : Text → StampFields → Text
unfolding json_bool quoted quoted_or_null
canonical_payload detector_id s =
    codes "{\"detector\":"
    ++ (quoted detector_id
        ++ (codes ",\"enforcement_passed\":"
            ++ (json_bool (holds s.enforcement_passed)
                ++ (codes ",\"model_version\":"
                    ++ (quoted_or_null s.model_version
                        ++ (codes ",\"validated_at\":"
                            ++ (quoted_or_null s.validated_at ++ codes "}")))))))

flag_of : Bool → Flag
flag_of true = is_true
flag_of false = falsy

module _ {Key : Type 0} (load_private_key : Text → Option Key) (sign : Key → Text → Text)
    (b64encode : Text → Text) where
  -- `none` is the error of a key that cannot be loaded.
  unfoldable pub sign_stamp : Text → Bool → Text → Text → Text → Option StampFields
  unfolding canonical_payload flag_of
  sign_stamp detector_id enforcement_passed model_version validated_at private_key_pem =
      let fields : StampFields = record {
        enforcement_passed = flag_of enforcement_passed;
        model_version = some model_version;
        validated_at = some validated_at;
        sig = none;
      } in
      elim (load_private_key private_key_pem) [
        | none ↦ none
        | some key ↦ some (record fields {
          sig = some (b64encode (sign key (canonical_payload detector_id fields)));
        })
      ]

module _ {Key : Type 0} (load_public_key : Text → Option Key) (verify : Key → Text → Text → Bool)
    (b64decode : Text → Option Text) where
  check_signature : Text → StampFields → Option Key → Option Text → Bool
  check_signature detector_id s none sig = false
  check_signature detector_id s (some key) none = false
  check_signature detector_id s (some key) (some sig) =
      verify key sig (canonical_payload detector_id s)

  -- Every problem is `False`.
  unfoldable pub verify_stamp : Text → GateStamp → Text → Bool
  unfolding check_signature
  verify_stamp detector_id not_dict public_key_pem = false
  verify_stamp detector_id (stamp s) public_key_pem =
      if has_text s.sig
      then check_signature detector_id s (load_public_key public_key_pem)
          (b64decode (or_text s.sig []))
      else false
