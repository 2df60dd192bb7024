-- ===== src/Engine/ScorecardStamp/Roundtrip.antt =====
-- `sign_stamp` and `verify_stamp` of engine/scorecard_stamp.py together.
use znyx_runtime.Prelude.{
  Text, has_text, or_text, Bool, true, Option, none, some, [], ◌∷◌, ◌≡◌, refl, ◌∙◌,
}
use znyx_runtime.Engine.Config.{StampFields, stamp}
use znyx_runtime.Engine.ScorecardStamp.{
  canonical_payload, sign_stamp, flag_of, verify_stamp, check_signature,
}

or_text-some : (t : Text) → has_text (some t) ≡ true → or_text (some t) [] ≡ t
or_text-some [] h = refl
or_text-some (c ∷ t) h = refl

-- The signature is not part of what is signed.
canonical_payload-sig :
    (detector_id : Text) (s : StampFields) (sig : Option Text)
    → canonical_payload detector_id (record s { sig = sig }) ≡ canonical_payload detector_id s
unfolding canonical_payload
canonical_payload-sig detector_id s sig = refl

signed_verifies :
    {PublicKey : Type 0} (load_public_key : Text → Option PublicKey)
    (verify : PublicKey → Text → Text → Bool) (b64decode : Text → Option Text)
    (detector_id public_pem t sig : Text) (fields : StampFields) (public_key : PublicKey)
    → has_text (some t) ≡ true
    → load_public_key public_pem ≡ some public_key
    → b64decode t ≡ some sig
    → verify_stamp load_public_key verify b64decode detector_id
        (stamp (record fields { sig = some t }))
        public_pem
      ≡ verify public_key sig (canonical_payload detector_id fields)
unfolding verify_stamp check_signature
signed_verifies load_public_key verify b64decode detector_id public_pem t sig fields public_key
      filled publ decoded =
    rw (filled, or_text-some t filled, publ, decoded)
      (rw (canonical_payload-sig detector_id fields (some t)) refl)

-- With a key pair whose public key accepts what its private key signs, and signatures whose base64 is
-- not empty and is decoded to what was encoded, every stamp that is signed verifies
-- for its detector.
pub verify_stamp-sign_stamp :
    {PrivateKey PublicKey : Type 0} (load_private_key : Text → Option PrivateKey)
    (load_public_key : Text → Option PublicKey) (sign : PrivateKey → Text → Text)
    (verify : PublicKey → Text → Text → Bool) (b64encode : Text → Text)
    (b64decode : Text → Option Text) (private_pem public_pem : Text) (private_key : PrivateKey)
    (public_key : PublicKey)
    → load_private_key private_pem ≡ some private_key
    → load_public_key public_pem ≡ some public_key
    → ((message : Text) → verify public_key (sign private_key message) message ≡ true)
    → ((message : Text)
        → b64decode (b64encode (sign private_key message)) ≡ some (sign private_key message))
    → ((message : Text) → has_text (some (b64encode (sign private_key message))) ≡ true)
    → (detector_id : Text) (passed : Bool) (model_version validated_at : Text)
    → (s : StampFields) × (sign_stamp load_private_key sign b64encode detector_id passed
          model_version validated_at private_pem
        ≡ some s)
      × (verify_stamp load_public_key verify b64decode detector_id (stamp s) public_pem ≡ true)
unfolding sign_stamp
verify_stamp-sign_stamp load_private_key load_public_key sign verify b64encode b64decode private_pem
      public_pem private_key public_key priv publ accepts decodes filled detector_id passed
      model_version validated_at =
    let fields : StampFields = record {
      enforcement_passed = flag_of passed;
      model_version = some model_version;
      validated_at = some validated_at;
      sig = none;
    } in
    let signature = sign private_key (canonical_payload detector_id fields) in
    let s : StampFields = record fields { sig = some (b64encode signature) } in
    (
      s,
      rw (sign_stamp, priv) refl,
      signed_verifies load_public_key verify b64decode detector_id public_pem (b64encode signature)
            signature fields public_key (filled (canonical_payload detector_id fields)) publ
            (decodes (canonical_payload detector_id fields))
          ∙ accepts (canonical_payload detector_id fields),
    )
