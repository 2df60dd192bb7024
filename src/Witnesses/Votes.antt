-- ===== src/Witnesses/Votes.antt =====
-- The theorem on the consensus of judges, at a concrete input.
use znyx_runtime.Prelude.{ℕ, ◌≤◌, pos, codes, true, false, none, some, List, [], ◌∷◌, ◌≡◌, refl}
use znyx_runtime.Core.Models.{allow, block}
use znyx_runtime.Engine.Consensus.{JudgeVote, is_weighted, synthesize, synthesize_consensus}
use znyx_runtime.Engine.Consensus.Tally.{support}
use znyx_runtime.Engine.Consensus.Winner.{support-synthesize_consensus}

abbrev for_allow : JudgeVote
for_allow = record { decision = allow; risk_score = pos 500; weight = some (pos 150) }

abbrev for_block : JudgeVote
for_block = record { decision = block; risk_score = pos 9000; weight = none }

support-synthesize_consensus_example :
    let votes = for_allow ∷ for_block ∷ for_block ∷ [] in
    let r = synthesize true (codes "weighted") votes in
    let weighted = is_weighted (codes "weighted") votes in
    (support weighted allow votes ≤ support weighted r.decision votes)
    × (support weighted r.decision votes ≡ r.top_weight)
unfolding synthesize_consensus znyx_runtime.Prelude.eq_text
    znyx_runtime.Engine.Consensus.sum_weights znyx_runtime.Engine.Consensus.vote_weight
support-synthesize_consensus_example =
    support-synthesize_consensus (codes "weighted") for_allow (for_block ∷ for_block ∷ [])
      (synthesize true (codes "weighted") (for_allow ∷ for_block ∷ for_block ∷ [])) allow refl
