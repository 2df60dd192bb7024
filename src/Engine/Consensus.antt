-- ===== src/Engine/Consensus.antt =====
-- packages/znyx-core/src/znyx_core/engine/consensus.py. A decision is one of the canonical ones, a
-- weight a signed number of hundredths (`None` is 1.0), a risk one of hundredths. The mean risk and
-- the agreement are kept as fractions: the final rounding of both is left out.
pub mod Tally
pub mod Winner
use znyx_runtime.Prelude.{
  ℕ, ◌+◌, ◌*◌, min, max, ℤ, pos, negsuc, Text, codes, eq_text, Bool, true, false, ◌||◌, Option,
  none, some, List, [], ◌∷◌, ◌==◌, length, if◌then◌else◌,
}
use znyx_runtime.Core.Models.{Decision, allow, block, redact, warn, transform}
use znyx_runtime.Core.Labels.{most_severe_decision}

pub record JudgeVote : Type 0 where
  pub decision : Decision
  pub risk_score : ℤ
  pub weight : Option ℤ

pub record ConsensusResult : Type 0 where
  pub decision : Decision
  pub risk_sum : ℕ
  pub top_weight : ℕ
  pub total_weight : ℕ
  pub method : Text
  pub member_count : ℕ

abbrev pub same_decision : Decision → Decision → Bool
same_decision allow allow = true
same_decision block block = true
same_decision redact redact = true
same_decision warn warn = true
same_decision transform transform = true
same_decision _ _ = false

abbrev at_least_0 : Option ℤ → ℕ
at_least_0 none = 100
at_least_0 (some (pos n)) = n
at_least_0 (some (negsuc n)) = 0

-- `ew`, for the effective method.
unfoldable pub vote_weight : Bool → JudgeVote → ℕ
vote_weight weighted v = if weighted then at_least_0 v.weight else 100

unfoldable pub sum_weights : Bool → List JudgeVote → ℕ
sum_weights weighted [] = 0
sum_weights weighted (v ∷ vs) = vote_weight weighted v + sum_weights weighted vs

abbrev pub Tally : Type 0
Tally = List (Decision × ℕ)

-- `tally[d] = tally.get(d, 0.0) + w`
unfoldable pub add_vote : Decision → ℕ → Tally → Tally
add_vote d w [] = (d, w) ∷ []
add_vote d w ((e, x) ∷ l) = if same_decision e d then (e, x + w) ∷ l else (e, x) ∷ add_vote d w l

unfoldable pub tally_from : Bool → Tally → List JudgeVote → Tally
unfolding add_vote
tally_from weighted acc [] = acc
tally_from weighted acc (v ∷ vs) =
    tally_from weighted (add_vote v.decision (vote_weight weighted v) acc) vs

unfoldable pub top_of : Tally → ℕ
top_of [] = 0
top_of ((d, x) ∷ l) = max x (top_of l)

unfoldable pub winners : ℕ → Tally → List Decision
winners top [] = []
winners top ((d, x) ∷ l) = if x == top then d ∷ winners top l else winners top l

-- Ties go to the most severe decision.
unfoldable pub pick : List Decision → Decision
pick [] = allow
pick (d ∷ []) = d
pick (d ∷ e ∷ l) = most_severe_decision (d ∷ e ∷ l)

abbrev clamp : ℤ → ℕ
clamp (pos n) = min 10000 n
clamp (negsuc n) = 0

unfoldable pub risk_sum_of : Bool → List JudgeVote → ℕ
risk_sum_of weighted [] = 0
risk_sum_of weighted (v ∷ vs) =
    clamp v.risk_score * vote_weight weighted v + risk_sum_of weighted vs

-- The effective method: weights that are all zero count for nothing.
unfoldable pub is_weighted : Text → List JudgeVote → Bool
is_weighted method votes =
    if eq_text method (codes "weighted")
    then (if sum_weights true votes == 0 then false else true)
    else false

unfoldable pub synthesize : Bool → Text → List JudgeVote → ConsensusResult
synthesize weighted method votes =
    let tally = tally_from weighted [] votes in
    record {
      decision = pick (winners (top_of tally) tally);
      risk_sum = risk_sum_of weighted votes;
      top_weight = top_of tally;
      total_weight = sum_weights weighted votes;
      method = method;
      member_count = length votes;
    }

-- `none` is a ValueError: an unknown method, or no votes.
unfoldable pub synthesize_consensus : Text → List JudgeVote → Option ConsensusResult
unfolding synthesize is_weighted
synthesize_consensus method [] = none
synthesize_consensus method (v ∷ votes) =
    if eq_text method (codes "majority") || eq_text method (codes "weighted")
    then some (synthesize (is_weighted method (v ∷ votes)) method (v ∷ votes))
    else none
