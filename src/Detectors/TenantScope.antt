-- ===== src/Detectors/TenantScope.antt =====
-- packages/znyx-core/src/znyx_core/detectors/tenant_scope_assertion.py. The metadata is the dict that the
-- caller gives, or the empty one. Whether a float is zero is an argument.
pub mod Isolation
use znyx_runtime.Prelude.{
  ℕ, zero, suc, ◌+◌, ◌/◌, ◌%◌, ltb, ℤ, pos, negsuc, Text, codes, Bool, true, false, not, ◌&&◌, ◌||◌,
  any, map, eq_text, has_text, strip, Option, none, some, List, [], ◌∷◌, ◌++◌, if◌then◌else◌,
}
use znyx_runtime.Core.Models.{
  Decision, allow, block, warn, high, medium, RuleHit, DetectorResult, plain_result,
}
use znyx_runtime.Core.Labels.{calculate_risk_score}
use znyx_runtime.Policy.Value.{
  Value, null, boolean, integer, float, text, array, object, Items, nil, item, Object, empty, entry,
  get,
}
use znyx_runtime.Detectors.Metadata.{
  dict_of, name_of, or_else, with_default, first_dict, decimal, is_empty, hit_if,
}

abbrev pub retrieval_blocks : List Text
retrieval_blocks = codes "retrieval" ∷ codes "rag" ∷ codes "retrieval_context" ∷ []

abbrev pub chunk_lists : List Text
chunk_lists =
    codes "chunks" ∷ codes "documents" ∷ codes "results" ∷ codes "hits" ∷ codes "sources" ∷ []

abbrev pub tenant_keys : List Text
tenant_keys =
    codes "tenant_id"
    ∷ codes "tenant"
    ∷ codes "org_id"
    ∷ codes "owner"
    ∷ codes "customer_id"
    ∷ codes "namespace"
    ∷ []

abbrev pub scope_flags : List Text
scope_flags =
    codes "scope_enforced_in_query"
    ∷ codes "scoped_query"
    ∷ codes "prefilter"
    ∷ codes "filter_in_query"
    ∷ codes "tenant_filter_in_query"
    ∷ []

abbrev list_of : Option Value → Option Items
list_of none = none
list_of (some null) = none
list_of (some (boolean b)) = none
list_of (some (integer z)) = none
list_of (some (float t)) = none
list_of (some (text t)) = none
list_of (some (array xs)) = some xs
list_of (some (object o)) = none

-- `_retrieval_block`
unfoldable pub retrieval_block : Object → Object
retrieval_block metadata = with_default (first_dict retrieval_blocks metadata) metadata

abbrev first_list : List Text → Object → Option Items
first_list [] o = none
first_list (k ∷ ks) o = or_else (list_of (get k o)) (first_list ks o)

abbrev dicts : Items → List Object
dicts nil = []
dicts (item null xs) = dicts xs
dicts (item (boolean b) xs) = dicts xs
dicts (item (integer z) xs) = dicts xs
dicts (item (float t) xs) = dicts xs
dicts (item (text t) xs) = dicts xs
dicts (item (array ys) xs) = dicts xs
dicts (item (object o) xs) = o ∷ dicts xs

-- `_chunks`
unfoldable pub chunks_of : Object → List Object
chunks_of retrieved = dicts (with_default (first_list chunk_lists retrieved) nil)

-- The tag under a key: in the chunk, or in its metadata.
abbrev tag_under : Text → Object → Option Text
tag_under k chunk =
    or_else (name_of (get k chunk))
      (name_of (get k (with_default (dict_of (get (codes "metadata") chunk)) empty)))

abbrev first_tag : List Text → Object → Option Text
first_tag [] chunk = none
first_tag (k ∷ ks) chunk = or_else (tag_under k chunk) (first_tag ks chunk)

-- `_tenant_of`
unfoldable pub tenant_of : Object → Option Text
tenant_of chunk = first_tag tenant_keys chunk

pub record Settings : Type 0 where
  pub enabled : Bool
  pub blocks : Bool
  pub block_cross_tenant : Bool
  pub require_tenant_tags : Bool
  pub require_query_scoping : Bool

unfoldable pub cross_tenant_chunk : (owner expected : Text) → RuleHit
cross_tenant_chunk owner expected = record {
  rule_id = codes "tenant_scope_assertion.cross_tenant_chunk";
  severity = high;
  message =
      codes "Retrieved chunk belongs to tenant '"
      ++ (owner ++ (codes "', not the requesting tenant '" ++ (expected ++ codes "'")));
}

unfoldable pub unattributed_chunk : ℕ → RuleHit
unattributed_chunk untagged = record {
  rule_id = codes "tenant_scope_assertion.unattributed_chunk";
  severity = high;
  message =
      decimal untagged
      ++ codes " retrieved chunk(s) carry no tenant attribution; ownership cannot be verified";
}

unfoldable pub post_retrieval_filtering : RuleHit
post_retrieval_filtering = record {
  rule_id = codes "tenant_scope_assertion.post_retrieval_filtering";
  severity = medium;
  message =
      codes "Tenant scoping was applied after the similarity search; result counts and timing "
      ++ codes "can still leak other tenants' data";
}

-- What the loop over the chunks has found.
pub record Found : Type 0 where
  pub foreign : List RuleHit
  pub untagged : ℕ

-- One chunk, before what the later ones give.
abbrev pub look : (expected : Text) → Option Text → Found → Found
look expected none f = record f { untagged = suc f.untagged }
look expected (some owner) f =
    if has_text (some expected) && not (eq_text owner expected)
    then record f { foreign = cross_tenant_chunk owner expected ∷ f.foreign }
    else f

unfoldable pub scan : (expected : Text) → List Object → Found
unfolding tenant_of cross_tenant_chunk
scan expected [] = record { foreign = []; untagged = 0 }
scan expected (chunk ∷ chunks) = look expected (tenant_of chunk) (scan expected chunks)

module _ (is_zero : Text → Bool) where
  -- `bool(v)`
  abbrev is_true : Value → Bool
  is_true null = false
  is_true (boolean b) = b
  is_true (integer (pos zero)) = false
  is_true (integer (pos (suc n))) = true
  is_true (integer (negsuc n)) = true
  is_true (float t) = not (is_zero t)
  is_true (text t) = has_text (some t)
  is_true (array nil) = false
  is_true (array (item v xs)) = true
  is_true (object empty) = false
  is_true (object (entry k v o)) = true

  abbrev consed : Option Value → List Value → List Value
  consed none vs = vs
  consed (some v) vs = v ∷ vs

  abbrev reported : List Text → Object → List Value
  reported [] o = []
  reported (f ∷ fs) o = consed (get f o) (reported fs o)

  -- Some scoping flag is reported, and none of them is true.
  unfoldable pub is_filtered_after : Object → Bool
  is_filtered_after retrieved =
      not (is_empty (reported scope_flags retrieved))
      && not (any is_true (reported scope_flags retrieved))

  unfoldable pub hits_of :
      Settings → (retrieved : Object) → (chunks : List Object) → Found → List RuleHit
  unfolding is_filtered_after unattributed_chunk post_retrieval_filtering
  hits_of c retrieved chunks f =
      f.foreign
      ++ (hit_if (c.require_tenant_tags && ltb 0 f.untagged) (unattributed_chunk f.untagged)
          ++ hit_if
              (c.require_query_scoping && (not (is_empty chunks) && is_filtered_after retrieved))
              post_retrieval_filtering)

  abbrev pub with_hits : Settings → (cross : Bool) → List RuleHit → DetectorResult
  with_hits c cross [] = plain_result (some allow) 0
  with_hits c cross (h ∷ hits) =
      record (plain_result (some warn) (calculate_risk_score (h ∷ hits))) {
        rule_hits = h ∷ hits;
        decision = some (if c.blocks || (cross && c.block_cross_tenant) then block else warn);
      }

  abbrev pub judged :
      Settings → (expected : Text) → (retrieved : Object) → List Object → DetectorResult
  judged c expected retrieved chunks =
      let found = scan expected chunks in
      with_hits c (not (is_empty found.foreign)) (hits_of c retrieved chunks found)

  -- `detect`, without its two messages to the developer and the user.
  unfoldable pub detect : Settings → (tenant_id : Text) → (metadata : Object) → DetectorResult
  unfolding retrieval_block chunks_of scan hits_of calculate_risk_score
  detect c tenant_id metadata =
      if c.enabled
      then judged c (strip tenant_id) (retrieval_block metadata)
          (chunks_of (retrieval_block metadata))
      else plain_result (some allow) 0
