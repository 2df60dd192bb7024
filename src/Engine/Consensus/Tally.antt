-- ===== src/Engine/Consensus/Tally.antt =====
-- The tally of the votes in engine/consensus.py: what each decision's votes weigh.
use znyx_runtime.Prelude.{
  ℕ, ◌+◌, ◌≤◌, Bool, true, false, ◌||◌, List, [], ◌∷◌, if◌then◌else◌, ◌≡◌, refl, ◌∙◌, arith,
  Bool-cases, inl, inr,
}
use znyx_runtime.Core.Models.{Decision}
use znyx_runtime.Engine.Consensus.{
  JudgeVote, same_decision, vote_weight, Tally, add_vote, tally_from, top_of,
}

-- What the votes for one decision weigh together.
unfoldable pub support : Bool → Decision → List JudgeVote → ℕ
support weighted d [] = 0
support weighted d (v ∷ vs) =
    (if same_decision v.decision d then vote_weight weighted v else 0) + support weighted d vs

unfoldable pub weight_in : Decision → Tally → ℕ
weight_in d [] = 0
weight_in d ((e, x) ∷ l) = if same_decision e d then x else weight_in d l

unfoldable pub has : Decision → Tally → Bool
has d [] = false
has d ((e, x) ∷ l) = same_decision e d || has d l

unfoldable pub IsTally : Tally → Type 0
IsTally [] = Unit
IsTally ((d, x) ∷ l) = (has d l ≡ false) × IsTally l

pub same→eq : (d e : Decision) → same_decision d e ≡ true → d ≡ e
same→eq d e h = ground arith

pub same_self : (d : Decision) → same_decision d d ≡ true
same_self d = ground arith

weight_in-add_vote :
    (d j : Decision) (w : ℕ) (l : Tally)
    → weight_in j (add_vote d w l) ≡ weight_in j l + (if same_decision d j then w else 0)
unfolding weight_in add_vote
weight_in-add_vote d j w [] = ground arith
weight_in-add_vote d j w ((e, x) ∷ l) = elim (Bool-cases (same_decision e d)) [
  | inl a ↦
      rw (a, same→eq e d a)
        (elim (Bool-cases (same_decision d j)) [ inl b ↦ rw b refl | inr b ↦ rw b (omega arith) ])
  | inr a ↦ rw a (elim (Bool-cases (same_decision e j)) [
    | inl b ↦
        let other : same_decision d j ≡ false = ground (arith, a, b) in rw (b, other) (omega arith)
    | inr b ↦ rw b (weight_in-add_vote d j w l)
  ])
]

has-add_vote :
    (d j : Decision) (w : ℕ) (l : Tally) → has j (add_vote d w l) ≡ (same_decision d j || has j l)
unfolding has add_vote
has-add_vote d j w [] = ground arith
has-add_vote d j w ((e, x) ∷ l) = elim (Bool-cases (same_decision e d)) [
  | inl a ↦ rw (a, same→eq e d a) (ground arith)
  | inr a ↦ rw a (ground (arith, has-add_vote d j w l))
]

pub add_vote-IsTally : (d : Decision) (w : ℕ) (l : Tally) → IsTally l → IsTally (add_vote d w l)
unfolding IsTally add_vote has
add_vote-IsTally d w [] h = (refl, tt)
add_vote-IsTally d w ((e, x) ∷ l) h = elim (Bool-cases (same_decision e d)) [
  | inl a ↦ rw a h
  | inr a ↦
      let other : same_decision d e ≡ false = ground (arith, a) in
      rw a (has-add_vote d e w l ∙ rw other h.0, add_vote-IsTally d w l h.1)
]

pub weight_in-tally_from :
    (weighted : Bool) (d : Decision) (acc : Tally) (vs : List JudgeVote)
    → weight_in d (tally_from weighted acc vs) ≡ weight_in d acc + support weighted d vs
unfolding tally_from support
weight_in-tally_from weighted d acc [] = omega arith
weight_in-tally_from weighted d acc (v ∷ vs) = omega (
  arith,
  weight_in-tally_from weighted d (add_vote v.decision (vote_weight weighted v) acc) vs,
  weight_in-add_vote v.decision d (vote_weight weighted v) acc,
)

pub tally_from-IsTally :
    (weighted : Bool) (acc : Tally) (vs : List JudgeVote)
    → IsTally acc
    → IsTally (tally_from weighted acc vs)
unfolding tally_from
tally_from-IsTally weighted acc [] h = h
tally_from-IsTally weighted acc (v ∷ vs) h =
    tally_from-IsTally weighted (add_vote v.decision (vote_weight weighted v) acc) vs
      (add_vote-IsTally v.decision (vote_weight weighted v) acc h)

pub weight_in-top_of : (d : Decision) (l : Tally) → weight_in d l ≤ top_of l
unfolding weight_in top_of
weight_in-top_of d [] = omega arith
weight_in-top_of d ((e, x) ∷ l) = elim (Bool-cases (same_decision e d)) [
  | inl a ↦ rw a (omega arith)
  | inr a ↦ rw a (omega (arith, weight_in-top_of d l))
]
