-- ===== src/Policy/Bundle/Trust.antt =====
-- What `validate_bundle` of policy/bundle.py accepts.
use znyx_runtime.Prelude.{
  ℕ, Text, Bool, true, false, false≢true, not, ◌&&◌, ◌||◌, Option, some, [], ◌∷◌, ◌==◌, eq_text,
  eq_text_refl, has_text, or_text, if◌then◌else◌, ◌≡◌, ◌≢◌, ◌⊎◌, refl, sym, subst, ap, arith, inl,
  inr,
}
use znyx_runtime.Policy.Value.{Object}
use znyx_runtime.Policy.Bundle.{
  Bundle, bundle_format_version, normalized_pem, compute_hash, canonical_signing_payload_v2,
  sign_bundle, sign_bundle_v2, resign_bundle, verify_bundle, verify_bundle_v2, validate_bundle,
}

or_text-some : (t : Text) → has_text (some t) ≡ true → or_text (some t) [] ≡ t
or_text-some [] h = absurd (false≢true h)
or_text-some (c ∷ t) h = refl

and_right : (a b : Bool) → (a && b) ≡ true → b ≡ true
and_right a b h = ground (arith, h)

mismatch :
    (v n rest : Bool) → n ≡ true → (if not v then false else if n then false else rest) ≡ true → ⊥
mismatch v n rest e h = ground (arith, e, h)

guards :
    (v n k p q w z s r : Bool)
    → (if not v
        then false
        else if n
        then false
        else if not (s || r)
        then true
        else if not k
        then false
        else if not p
        then false
        else if not q
        then false
        else if w
        then z
        else not r)
      ≡ true
    → (s || r) ≡ true
    → (k ≡ true)
      × (p ≡ true)
      × (q ≡ true)
      × (((w ≡ true) × (z ≡ true)) ⊎ ((w ≡ false) × (r ≡ false)))
guards v n k p q w z s r h = ground (arith, h)

guards_pass :
    (v n k p q w z s r : Bool)
    → v ≡ true
    → n ≡ false
    → k ≡ true
    → p ≡ true
    → q ≡ true
    → w ≡ true
    → z ≡ true
    → (if not v
        then false
        else if n
        then false
        else if not (s || r)
        then true
        else if not k
        then false
        else if not p
        then false
        else if not q
        then false
        else if w
        then z
        else not r)
      ≡ true
guards_pass v n k p q w z s r e1 e2 e3 e4 e5 e6 e7 = rw (e1, e2, e3, e4, e5, e6, e7) (ground arith)

verified :
    (f : Text → Bool) (s : Text)
    → has_text (some s) ≡ true
    → f s ≡ true
    → (has_text (some s) && f (or_text (some s) [])) ≡ true
verified f [] h e = absurd (false≢true h)
verified f (c ∷ s) h e = e

module _ (dumps : Object → Text) (sha256 : Text → Text) where
  payload_apart :
      (b c : Bundle)
      → eq_text (canonical_signing_payload_v2 dumps c) (compute_hash dumps sha256 b) ≡ false
  unfolding eq_text canonical_signing_payload_v2 compute_hash
  payload_apart b c = refl

  module _ (verify : (pem signature payload : Text) → Bool) where
    -- Where only messages that were issued under a key verify with it, a bundle that is accepted with
    -- the v2 signature required has its policy hash and its whole envelope issued under the public key.
    pub validate_bundle-issued :
        (issued : Text → Type 0) (b : Bundle) (public_key_pem : Text) (require_signature : Bool)
        → ((s m : Text) → verify (normalized_pem public_key_pem) s m ≡ true → issued m)
        → validate_bundle dumps verify sha256 b (some public_key_pem) require_signature true ≡ true
        → issued b.policy_hash × issued (canonical_signing_payload_v2 dumps b)
    unfolding validate_bundle verify_bundle verify_bundle_v2
    validate_bundle-issued issued b public_key_pem require_signature only h =
        let (k, p, q, w) =
          guards (b.version == bundle_format_version)
            (has_text (some b.policy_hash)
              && not (eq_text b.policy_hash (compute_hash dumps sha256 b)))
            (has_text b.signature) (has_text (some public_key_pem))
            (verify_bundle dumps verify b (or_text (some public_key_pem) []))
            (has_text b.signature_v2)
            (verify_bundle_v2 dumps verify b (or_text (some public_key_pem) [])) require_signature
            true h (ground arith) in
        let key : or_text (some public_key_pem) [] ≡ public_key_pem =
          or_text-some public_key_pem p in
        (
          only _ _ (and_right _ _ (subst (λ m. verify_bundle dumps verify b m ≡ true) key q)),
          elim w [
            | inl (v, z) ↦
                only _ _
                  (and_right _ _ (subst (λ m. verify_bundle_v2 dumps verify b m ≡ true) key z))
            | inr (v, z) ↦ absurd (false≢true (sym z))
          ],
        )

    -- The two signatures cannot stand for each other: in an accepted bundle the message of the legacy
    -- one, the policy hash, is not the envelope of any bundle.
    pub signatures_apart :
        (b c : Bundle) (public_key_pem : Option Text)
        (require_signature require_signature_v2 : Bool)
        → validate_bundle dumps verify sha256 b public_key_pem require_signature
            require_signature_v2
          ≡ true
        → b.policy_hash ≢ canonical_signing_payload_v2 dumps c
    unfolding validate_bundle compute_hash canonical_signing_payload_v2
    signatures_apart b c public_key_pem r1 r2 h e =
        let h' : validate_bundle dumps verify sha256
              (record b { policy_hash = canonical_signing_payload_v2 dumps c }) public_key_pem r1 r2
            ≡ true =
          subst
            (λ p.
              validate_bundle dumps verify sha256 (record b { policy_hash = p }) public_key_pem r1
                r2
              ≡ true)
            e h in
        mismatch _
          (has_text (some (canonical_signing_payload_v2 dumps c))
            && not (
                eq_text (canonical_signing_payload_v2 dumps c) (
                  compute_hash dumps sha256
                    (record b { policy_hash = canonical_signing_payload_v2 dumps c }))))
          _
          (ap (λ x. not x)
            (payload_apart (record b { policy_hash = canonical_signing_payload_v2 dumps c }) c))
          h'

  -- A signature that the library makes with the private key: it is not empty, and verifies for the
  -- message with the public key.
  pub record IsSigned (sign : (pem payload : Text) → Option Text)
      (verify : (pem signature payload : Text) → Bool) (private_key_pem public_key_pem m : Text)
      : Type 0 where
    pub made : Text
    pub made_eq : sign (normalized_pem private_key_pem) m ≡ some made
    pub not_empty : has_text (some made) ≡ true
    pub verifies : verify (normalized_pem public_key_pem) made m ≡ true

  module _ (sign : (pem payload : Text) → Option Text)
      (verify : (pem signature payload : Text) → Bool) where
    resigned :
        (b : Bundle) (c : ℕ) (key : Text) (s s2 : Text)
        → let hashed : Bundle = record b { policy_hash = compute_hash dumps sha256 b } in
          sign_bundle dumps sign hashed (c ∷ key) ≡ some s
          → sign_bundle_v2 dumps sign hashed (c ∷ key) ≡ some s2
          → resign_bundle dumps sign sha256 b (some (c ∷ key))
            ≡ some (record hashed { signature = some s; signature_v2 = some s2 })
    unfolding resign_bundle
    resigned b c key s s2 e e2 = rw (e, e2) refl

    -- Under every combination of requirements, a bundle of the current format that was signed with a
    -- private key is accepted with its public key, where the library signs with the one and verifies
    -- with the other.
    pub validate_bundle-resign_bundle :
        (b : Bundle) (c d : ℕ) (private_key public_key : Text)
        (require_signature require_signature_v2 : Bool)
        → b.version ≡ bundle_format_version
        → ((m : Text) → IsSigned sign verify (c ∷ private_key) (d ∷ public_key) m)
        → (out : Bundle) × (resign_bundle dumps sign sha256 b (some (c ∷ private_key)) ≡ some out)
          × (validate_bundle dumps verify sha256 out
                (some (d ∷ public_key))
                require_signature
                require_signature_v2
              ≡ true)
    unfolding validate_bundle sign_bundle sign_bundle_v2 verify_bundle verify_bundle_v2
    validate_bundle-resign_bundle b c d private_key public_key r1 r2 v pair =
        let hashed : Bundle = record b { policy_hash = compute_hash dumps sha256 b } in
        let h = pair hashed.policy_hash in
        let h2 = pair (canonical_signing_payload_v2 dumps hashed) in
        (
          record hashed { signature = some h.made; signature_v2 = some h2.made },
          resigned b c private_key h.made h2.made h.made_eq h2.made_eq,
          guards_pass _ _ _ _ _ _ _ r1 r2 (rw v refl)
              (rw (eq_text_refl (compute_hash dumps sha256 b)) refl) h.not_empty refl
              (verified (λ s. verify (normalized_pem (d ∷ public_key)) s hashed.policy_hash) h.made
                h.not_empty h.verifies)
              h2.not_empty
              (verified
                (λ s.
                  verify (normalized_pem (d ∷ public_key)) s
                    (canonical_signing_payload_v2 dumps hashed))
                h2.made h2.not_empty h2.verifies),
        )
