-- ===== src/Witnesses/Aggregation.antt =====
-- The aggregator's theorems and those of the redaction, at concrete inputs.
use Prim.Native.Nat.{max}
use mathlib.Core.List.{Perm, Permᴰ}
use znyx_runtime.Prelude.{codes, true, some, [], ◌∷◌, ◌++◌, ◌≡◌, refl, arith, drop}
use znyx_runtime.Core.Models.{local_ml}
use znyx_runtime.Core.Labels.{decision_rank}
use znyx_runtime.Core.Aggregate.{aggregate}
use znyx_runtime.Core.Aggregate.Worst.{rank-aggregate, worst_rank, aggregate-perm}
use znyx_runtime.Engine.Redaction.{apply_redaction_spans, kept_spans, placeholder}
use znyx_runtime.Engine.Redaction.Render.{render, apply_redaction_spans-render}
use znyx_runtime.Engine.Redaction.Coverage.{partial_overlap_stays}
use znyx_runtime.Engine.Attempt.{layer_from_result}
use znyx_runtime.Engine.Attempt.Merge.{ml_normalized_saturates}
use znyx_runtime.Witnesses.Samples.{warned, blocked_result, span}

rank-aggregate_example :
    decision_rank (aggregate (warned ∷ blocked_result ∷ [])).decision
    ≡ max 1 (worst_rank (warned ∷ blocked_result ∷ []))
rank-aggregate_example = rank-aggregate (warned ∷ blocked_result ∷ [])

swapped : Perm (warned ∷ blocked_result ∷ []) (blocked_result ∷ warned ∷ [])
swapped = ∣ Permᴰ.trans (Permᴰ.swap refl refl) (Permᴰ.cons refl (Permᴰ.cons refl Permᴰ.nil)) ∣₁

aggregate-perm_example :
    ((aggregate (warned ∷ blocked_result ∷ [])).decision
      ≡ (aggregate (blocked_result ∷ warned ∷ [])).decision)
    × ((aggregate (warned ∷ blocked_result ∷ [])).risk_score
        ≡ (aggregate (blocked_result ∷ warned ∷ [])).risk_score)
aggregate-perm_example = aggregate-perm swapped

apply_redaction_spans-render_example :
    apply_redaction_spans (codes "abcdef") (span 4 5 ∷ span 0 3 ∷ [])
    ≡ render 0 (kept_spans (codes "abcdef") (span 4 5 ∷ span 0 3 ∷ [])) (codes "abcdef")
apply_redaction_spans-render_example =
    apply_redaction_spans-render (codes "abcdef") (span 4 5 ∷ span 0 3 ∷ [])

partial_overlap_stays_example :
    apply_redaction_spans (codes "abcdef") (span 0 3 ∷ span 2 5 ∷ [])
    ≡ placeholder (codes "id") ++ drop 3 (codes "abcdef")
partial_overlap_stays_example =
    partial_overlap_stays (codes "abcdef") 3 2 5 (codes "id") (codes "id") (omega arith)
      (omega arith) (omega arith) (omega arith)

ml_normalized_saturates_example :
    (layer_from_result local_ml warned true).normalized_score ≡ some 100
unfolding znyx_runtime.Engine.Backends.is_ml_mode
ml_normalized_saturates_example = ml_normalized_saturates local_ml warned refl (omega arith)
