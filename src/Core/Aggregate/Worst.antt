-- ===== src/Core/Aggregate/Worst.antt =====
-- The aggregator of core/decision.py: its decision by rank, the order of its input, its text.
use Prim.Native.Nat.{max}
use native.Mathlib.Nat.{ℕ_set}
use mathlib.Core.Logic.{∥∥₁_elim}
use mathlib.Core.List.{Perm, Permᴰ}
use znyx_runtime.Prelude.{
  ℕ, Text, has_text, Bool, true, false, Option, none, some, List, [], ◌∷◌, ◌++◌, ◌≡◌, refl, ap, sym,
  ◌&&◌, if◌then◌else◌, ◌∙◌, ◌⊎◌, inl, arith, any, leb, ◌↔◌, ◌≤◌,
}
use znyx_runtime.Core.Models.{Decision, allow, block, DetectorResult}
use znyx_runtime.Core.Labels.{decision_rank, decision_precedence}
use znyx_runtime.Core.Aggregate.{
  Selection, no_selection, consider, select, max_risk_score, chain_text, rewrites, aggregate,
}

-- The highest rank among the results' decisions, 0 where none has one.
abbrev pub worst_rank : List DetectorResult → ℕ
worst_rank [] = 0
worst_rank (r ∷ rs) = max (decision_rank r.decision) (worst_rank rs)

abbrev IsCoherent : Selection → Type 0
IsCoherent s =
    ((s.highest_priority ≡ 0) × (s.highest_decision ≡ allow))
    ⊎ (s.highest_priority ≡ decision_precedence s.highest_decision)

consider-IsCoherent :
    (s : Selection) (r : DetectorResult) (d : Option Decision)
    → IsCoherent s
    → IsCoherent (consider s r d)
unfolding consider
consider-IsCoherent s r none h = h
consider-IsCoherent s r (some d) h = ground arith

select-IsCoherent :
    (s : Selection) (rs : List DetectorResult) → IsCoherent s → IsCoherent (select s rs)
unfolding select
select-IsCoherent s [] h = h
select-IsCoherent s (r ∷ rs) h =
    select-IsCoherent (consider s r r.decision) rs (consider-IsCoherent s r r.decision h)

consider_priority :
    (s : Selection) (r : DetectorResult) (d : Option Decision)
    → (consider s r d).highest_priority ≡ max s.highest_priority (decision_rank d)
unfolding consider
consider_priority s r none = omega arith
consider_priority s r (some d) = ground arith

select_priority :
    (s : Selection) (rs : List DetectorResult)
    → (select s rs).highest_priority ≡ max s.highest_priority (worst_rank rs)
unfolding select
select_priority s [] = omega arith
select_priority s (r ∷ rs) =
    omega (arith, select_priority (consider s r r.decision) rs, consider_priority s r r.decision)

-- The rank of the aggregated decision is the highest rank among the results, and ALLOW's where no
-- result has a decision.
pub rank-aggregate :
    (rs : List DetectorResult) → decision_rank (aggregate rs).decision ≡ max 1 (worst_rank rs)
unfolding aggregate
rank-aggregate [] = omega arith
rank-aggregate (r ∷ rs) = ground (
  arith,
  select_priority no_selection (r ∷ rs),
  select-IsCoherent no_selection (r ∷ rs) (inl (refl, refl)),
)

abbrev pub is_block : Option Decision → Bool
is_block (some block) = true
is_block _ = false

blocks_rank : (d : Option Decision) → (is_block d ≡ true) ↔ (5 ≤ decision_rank d)
blocks_rank d = ground arith

rank-le : (d : Option Decision) → decision_rank d ≤ 5
rank-le d = ground arith

worst_rank-le : (rs : List DetectorResult) → worst_rank rs ≤ 5
worst_rank-le [] = omega arith
worst_rank-le (r ∷ rs) = omega (arith, rank-le r.decision, worst_rank-le rs)

any_block_rank :
    (rs : List DetectorResult) → any (λ r. is_block r.decision) rs ≡ leb 5 (worst_rank rs)
any_block_rank [] = refl
any_block_rank (r ∷ rs) = ground (arith, any_block_rank rs, worst_rank-le rs, rank-le r.decision)

-- The aggregate blocks exactly when some result blocks.
pub aggregate-block :
    (rs : List DetectorResult)
    → is_block (aggregate rs).decision ≡ any (λ r. is_block r.decision) rs
aggregate-block rs =
    ground (arith, any_block_rank rs, rank-aggregate rs, blocks_rank (aggregate rs).decision)

worst_rank-Permᴰ : {rs ss : List DetectorResult} → Permᴰ rs ss → worst_rank rs ≡ worst_rank ss
worst_rank-Permᴰ Permᴰ.nil = refl
worst_rank-Permᴰ (Permᴰ.cons e p) =
    omega (arith, worst_rank-Permᴰ p, ap (λ (x : DetectorResult). decision_rank x.decision) e)
worst_rank-Permᴰ (Permᴰ.swap d e) = omega (
  arith,
  ap (λ (x : DetectorResult). decision_rank x.decision) d,
  ap (λ (x : DetectorResult). decision_rank x.decision) e,
)
worst_rank-Permᴰ (Permᴰ.trans p q) = worst_rank-Permᴰ p ∙ worst_rank-Permᴰ q

max_risk_score-Permᴰ :
    {rs ss : List DetectorResult} → Permᴰ rs ss → max_risk_score rs ≡ max_risk_score ss
unfolding max_risk_score
max_risk_score-Permᴰ Permᴰ.nil = refl
max_risk_score-Permᴰ (Permᴰ.cons e p) =
    omega (arith, max_risk_score-Permᴰ p, ap (λ (x : DetectorResult). x.risk_score) e)
max_risk_score-Permᴰ (Permᴰ.swap d e) = omega (
  arith,
  ap (λ (x : DetectorResult). x.risk_score) d,
  ap (λ (x : DetectorResult). x.risk_score) e,
)
max_risk_score-Permᴰ (Permᴰ.trans p q) = max_risk_score-Permᴰ p ∙ max_risk_score-Permᴰ q

risk-aggregate : (rs : List DetectorResult) → (aggregate rs).risk_score ≡ max_risk_score rs
unfolding aggregate max_risk_score
risk-aggregate [] = refl
risk-aggregate (r ∷ rs) = refl

-- The aggregate has a decision, and its rank decides it.
decision_of_rank :
    (d e : Option Decision) → 1 ≤ decision_rank d → decision_rank d ≡ decision_rank e → d ≡ e
decision_of_rank none e p h = absurd (omega arith)
decision_of_rank (some d) none p h = absurd (omega arith)
decision_of_rank (some d) (some e) p h = ground arith

-- The aggregated decision and risk score do not depend on the order of the results.
pub aggregate-perm :
    {rs ss : List DetectorResult}
    → Perm rs ss
    → ((aggregate rs).decision ≡ (aggregate ss).decision)
      × ((aggregate rs).risk_score ≡ (aggregate ss).risk_score)
aggregate-perm {rs} {ss} p =
    let worst : worst_rank rs ≡ worst_rank ss = ∥∥₁_elim p (ℕ_set _ _) worst_rank-Permᴰ in
    let risk : max_risk_score rs ≡ max_risk_score ss =
      ∥∥₁_elim p (ℕ_set _ _) max_risk_score-Permᴰ in
    (
      decision_of_rank _ _ (omega (arith, rank-aggregate rs))
          (omega (arith, rank-aggregate rs, rank-aggregate ss)),
      risk-aggregate rs ∙ risk ∙ sym (risk-aggregate ss),
    )

chain_text_last :
    (u : Option Text) (rs : List DetectorResult) (r : DetectorResult) (c : ℕ) (t : Text)
    → r.sanitized_text ≡ some (c ∷ t)
    → rewrites r.decision ≡ true
    → chain_text u (rs ++ r ∷ []) ≡ some (c ∷ t)
unfolding chain_text
chain_text_last u [] r c t e w = rw (e, w)
chain_text_last u (x ∷ rs) r c t e w =
    chain_text_last
      (if has_text x.sanitized_text && rewrites x.decision then x.sanitized_text else u) rs r c t e
      w

-- A later transformation wins over every earlier text: where the last result redacts or transforms
-- and has a text, that text is the aggregate's, whichever result gave the decision.
pub aggregate_last_rewrite :
    (rs : List DetectorResult) (r : DetectorResult) (c : ℕ) (t : Text)
    → r.sanitized_text ≡ some (c ∷ t)
    → rewrites r.decision ≡ true
    → (aggregate (rs ++ r ∷ [])).sanitized_text ≡ some (c ∷ t)
unfolding aggregate
aggregate_last_rewrite [] r c t e w = chain_text_last _ [] r c t e w
aggregate_last_rewrite (x ∷ rs) r c t e w = chain_text_last _ (x ∷ rs) r c t e w
