-- ===== src/Detectors/TenantScope/Isolation.antt =====
-- Which retrieved chunks detectors/tenant_scope_assertion.py lets pass.
use znyx_runtime.Prelude.{
  ltb, Text, Bool, true, false, false≢true, not, ◌&&◌, ◌||◌, eq_text, eq_text→eq, eq_text_refl, ◌↔◌,
  has_text, strip, Option, none, some, List, [], ◌∷◌, ◌++◌, ◌≡◌, refl, sym, ap, ◌∙◌, arith,
  Bool-cases, inl, inr,
}
use znyx_runtime.Core.Models.{allow, block, warn, RuleHit, DetectorResult}
use znyx_runtime.Policy.Value.{Object}
use znyx_runtime.Detectors.Metadata.{is_empty, hit_if}
use znyx_runtime.Detectors.TenantScope.{
  Settings, Found, look, scan, tenant_of, chunks_of, retrieval_block, is_filtered_after,
  unattributed_chunk, post_retrieval_filtering, hits_of, with_hits, judged, detect,
}

-- Every chunk is tagged for the tenant.
abbrev pub AreOwn : Text → List Object → Type 0
AreOwn expected [] = Unit
AreOwn expected (chunk ∷ chunks) = (tenant_of chunk ≡ some expected) × AreOwn expected chunks

look-foreign :
    (expected owner : Text) (f : Found)
    → has_text (some expected) ≡ true
    → eq_text owner expected ≡ false
    → is_empty (look expected (some owner) f).foreign ≡ false
look-foreign expected owner f h n = rw (h, n) refl

look-own :
    (expected owner : Text) (f : Found)
    → has_text (some expected) ≡ true
    → eq_text owner expected ≡ true
    → look expected (some owner) f ≡ f
look-own expected owner f h s = rw (h, s) refl

empty_append : (a b : List RuleHit) → is_empty (a ++ b) ≡ (is_empty a && is_empty b)
empty_append [] b = refl
empty_append (x ∷ a) b = refl

both : (a b : Bool) → (a && b) ≡ true → (a ≡ true) × (b ≡ true)
both a b h = ground (arith, h)

hit_gone : (b : Bool) (h : RuleHit) → is_empty (hit_if b h) ≡ true → b ≡ false
hit_gone true h e = absurd (false≢true e)
hit_gone false h e = refl

tagged : (a b : Bool) → a ≡ true → (a && b) ≡ false → b ≡ false
tagged a b h n = ground (arith, h, n)

look-keeps :
    (expected : Text) (o : Option Text) (f : Found)
    → is_empty f.foreign ≡ false
    → is_empty (look expected o f).foreign ≡ false
look-keeps expected none f h = h
look-keeps expected (some owner) f h =
    elim (Bool-cases (has_text (some expected) && not (eq_text owner expected))) [
      | inl e ↦ rw e refl
      | inr e ↦ rw e h
    ]

scan-foreign :
    (expected owner : Text) (pre post : List Object) (chunk : Object)
    → has_text (some expected) ≡ true
    → tenant_of chunk ≡ some owner
    → eq_text owner expected ≡ false
    → is_empty (scan expected (pre ++ chunk ∷ post)).foreign ≡ false
unfolding scan
scan-foreign expected owner [] post chunk h t n =
    rw t (look-foreign expected owner (scan expected post) h n)
scan-foreign expected owner (p ∷ pre) post chunk h t n =
    look-keeps expected (tenant_of p) (scan expected (pre ++ chunk ∷ post))
      (scan-foreign expected owner pre post chunk h t n)

-- A look that finds nothing has met a chunk of the tenant, with nothing found before.
look_clear :
    (expected : Text) (o : Option Text) (f : Found)
    → has_text (some expected) ≡ true
    → is_empty (look expected o f).foreign ≡ true
    → ltb 0 (look expected o f).untagged ≡ false
    → (o ≡ some expected) × (is_empty f.foreign ≡ true) × (ltb 0 f.untagged ≡ false)
look_clear expected none f h e u = absurd (ground (arith, u))
look_clear expected (some owner) f h e u = elim (Bool-cases (eq_text owner expected)) [
  | inl s ↦ (
    ap some (eq_text→eq owner expected s),
    sym (ap (λ (g : Found). is_empty g.foreign) (look-own expected owner f h s)) ∙ e,
    sym (ap (λ (g : Found). ltb 0 g.untagged) (look-own expected owner f h s)) ∙ u,
  )
  | inr s ↦ absurd (false≢true (sym (look-foreign expected owner f h s) ∙ e))
]

scan_clear :
    (expected : Text) (chunks : List Object)
    → has_text (some expected) ≡ true
    → is_empty (scan expected chunks).foreign ≡ true
    → ltb 0 (scan expected chunks).untagged ≡ false
    → AreOwn expected chunks
unfolding scan
scan_clear expected [] h e u = tt
scan_clear expected (chunk ∷ chunks) h e u =
    let (own, e', u') = look_clear expected (tenant_of chunk) (scan expected chunks) h e u in
    (own, scan_clear expected chunks h e' u')

abbrev nothing_found : Found
nothing_found = record { foreign = []; untagged = 0 }

look-same : (expected : Text) (f : Found) → look expected (some expected) f ≡ f
look-same expected f = rw (eq_text_refl expected) (ground arith)

scan-AreOwn :
    (expected : Text) (chunks : List Object)
    → AreOwn expected chunks
    → scan expected chunks ≡ nothing_found
unfolding scan
scan-AreOwn expected [] own = refl
scan-AreOwn expected (chunk ∷ chunks) (own, owns) =
    rw own (look-same expected (scan expected chunks)) ∙ scan-AreOwn expected chunks owns

not_block : some block ≡ some allow → ⊥
not_block e = cc

not_warn : some warn ≡ some allow → ⊥
not_warn e = cc

module _ (is_zero : Text → Bool) (c : Settings) where
  blocked :
      (hits : List RuleHit)
      → c.block_cross_tenant ≡ true
      → is_empty hits ≡ false
      → (with_hits is_zero c true hits).decision ≡ some block
  blocked [] b e = absurd (false≢true (sym e))
  blocked (h ∷ hits) b e = ground (arith, b)

  clear :
      (cross : Bool) (hits : List RuleHit)
      → (with_hits is_zero c cross hits).decision ≡ some allow
      → is_empty hits ≡ true
  clear cross [] e = refl
  clear cross (h ∷ hits) e = elim (Bool-cases (c.blocks || (cross && c.block_cross_tenant))) [
    | inl b ↦ absurd (not_block (sym (rw b refl) ∙ e))
    | inr b ↦ absurd (not_warn (sym (rw b refl) ∙ e))
  ]

  -- The third finding: there are chunks, and scoping is reported only as done after the search.
  abbrev pub is_late : (retrieved : Object) → List Object → Bool
  is_late retrieved chunks =
      c.require_query_scoping && (not (is_empty chunks) && is_filtered_after is_zero retrieved)

  hits_of-nothing :
      (retrieved : Object) (chunks : List Object)
      → is_late retrieved chunks ≡ false
      → hits_of is_zero c retrieved chunks nothing_found ≡ []
  unfolding hits_of
  hits_of-nothing retrieved chunks late = ground (arith, late)

  judged-allow :
      (expected : Text) (retrieved : Object) (chunks : List Object)
      → AreOwn expected chunks
      → is_late retrieved chunks ≡ false
      → (judged is_zero c expected retrieved chunks).decision ≡ some allow
  judged-allow expected retrieved chunks own late =
      rw (scan-AreOwn expected chunks own, hits_of-nothing retrieved chunks late) refl

  judged-foreign :
      (expected owner : Text) (retrieved : Object) (pre post : List Object) (chunk : Object)
      → c.block_cross_tenant ≡ true
      → has_text (some expected) ≡ true
      → tenant_of chunk ≡ some owner
      → eq_text owner expected ≡ false
      → (judged is_zero c expected retrieved (pre ++ chunk ∷ post)).decision ≡ some block
  unfolding hits_of
  judged-foreign expected owner retrieved pre post chunk b h t n =
      let found = scan-foreign expected owner pre post chunk h t n in
      rw found
        (blocked _ b (empty_append (scan expected (pre ++ chunk ∷ post)).foreign _ ∙ rw found refl))

  judged-AreOwn :
      (expected : Text) (retrieved : Object) (chunks : List Object)
      → c.require_tenant_tags ≡ true
      → has_text (some expected) ≡ true
      → (judged is_zero c expected retrieved chunks).decision ≡ some allow
      → AreOwn expected chunks × (is_late retrieved chunks ≡ false)
  unfolding hits_of
  judged-AreOwn expected retrieved chunks r h e =
      let f = scan expected chunks in
      let tags = c.require_tenant_tags && ltb 0 f.untagged in
      let scoping = is_late retrieved chunks in
      let nothing = clear _ (hits_of is_zero c retrieved chunks f) e in
      let (none_foreign, rest) =
        both (is_empty f.foreign)
          (is_empty (
            hit_if tags (unattributed_chunk f.untagged) ++ hit_if scoping post_retrieval_filtering))
          (sym (empty_append f.foreign _) ∙ nothing) in
      let (none_untagged, last) =
        both (is_empty (hit_if tags (unattributed_chunk f.untagged)))
          (is_empty (hit_if scoping post_retrieval_filtering))
          (sym (empty_append (hit_if tags (unattributed_chunk f.untagged)) _) ∙ rest) in
      let gone : tags ≡ false = hit_gone tags (unattributed_chunk f.untagged) none_untagged in
      (
        scan_clear expected chunks h none_foreign (tagged c.require_tenant_tags _ r gone),
        hit_gone scoping post_retrieval_filtering last,
      )

  on-detect :
      (tenant_id : Text) (metadata : Object)
      → c.enabled ≡ true
      → detect is_zero c tenant_id metadata
        ≡ judged is_zero c
            (strip tenant_id)
            (retrieval_block metadata)
            (chunks_of (retrieval_block metadata))
  unfolding detect
  on-detect tenant_id metadata on = rw (detect, on) refl

  -- A chunk that the detector reads and that is tagged for another tenant is blocked, whatever the
  -- configured action: where the detector is enabled and `block_cross_tenant` is on, and the request
  -- names its tenant.
  pub detect-foreign :
      (tenant_id owner : Text) (metadata : Object) (pre post : List Object) (chunk : Object)
      → c.enabled ≡ true
      → c.block_cross_tenant ≡ true
      → has_text (some (strip tenant_id)) ≡ true
      → chunks_of (retrieval_block metadata) ≡ pre ++ chunk ∷ post
      → tenant_of chunk ≡ some owner
      → eq_text owner (strip tenant_id) ≡ false
      → (detect is_zero c tenant_id metadata).decision ≡ some block
  detect-foreign tenant_id owner metadata pre post chunk on b h split t n =
      ap (λ (r : DetectorResult). r.decision)
        (on-detect tenant_id metadata on
          ∙ ap (judged is_zero c (strip tenant_id) (retrieval_block metadata)) split)
      ∙ judged-foreign (strip tenant_id) owner (retrieval_block metadata) pre post chunk b h t n

  -- Where the detector is enabled, requires tags and knows the tenant of the request, it answers ALLOW
  -- exactly when every chunk that it reads is tagged for that tenant and scoping is not found to be late.
  -- The chunks that it reads are the dicts in the first list under one of the five names: an entry that
  -- is not a dict, like a bare text, and what is in a further list do not count, tagged or not.
  pub detect-AreOwn :
      (tenant_id : Text) (metadata : Object)
      → c.enabled ≡ true
      → c.require_tenant_tags ≡ true
      → has_text (some (strip tenant_id)) ≡ true
      → ((detect is_zero c tenant_id metadata).decision ≡ some allow) ↔ (
          AreOwn (strip tenant_id) (chunks_of (retrieval_block metadata))
          × (is_late (retrieval_block metadata) (chunks_of (retrieval_block metadata)) ≡ false))
  detect-AreOwn tenant_id metadata on r h =
      let retrieved = retrieval_block metadata in
      let chunks = chunks_of retrieved in
      let same = ap (λ (x : DetectorResult). x.decision) (on-detect tenant_id metadata on) in
      (
        λ e. judged-AreOwn (strip tenant_id) retrieved chunks r h (sym same ∙ e),
        λ (own, late). same ∙ judged-allow (strip tenant_id) retrieved chunks own late,
      )
