-- ===== src/Engine/Consensus/Winner.antt =====
-- The decision of `synthesize_consensus` in engine/consensus.py.
use znyx_runtime.Prelude.{
  codes, eq_text, ℕ, ◌≤◌, Text, Bool, true, false, ◌||◌, none, some, List, [], ◌∷◌, ◌==◌, ltb, ◌≡◌,
  refl, sym, ap, ◌∙◌, arith, Bool-cases, inl, inr, List-cases, length, subst, ==_iff, false≢true,
}
use znyx_runtime.Core.Models.{Decision, allow, block, redact, warn, transform}
use znyx_runtime.Core.Labels.{decision_rank, most_severe_decision, most_severe_from}
use znyx_runtime.Engine.Consensus.{
  JudgeVote, ConsensusResult, is_weighted, synthesize_consensus, same_decision, vote_weight, Tally,
  add_vote, tally_from, top_of, winners, pick, synthesize,
}
use znyx_runtime.Engine.Consensus.Tally.{
  support, weight_in, has, IsTally, same→eq, same_self, add_vote-IsTally, weight_in-tally_from,
  tally_from-IsTally, weight_in-top_of,
}

All : (Decision → Type 0) → List Decision → Type 0
All P [] = Unit
All P (d ∷ ds) = P d × All P ds

All-map :
    (P Q : Decision → Type 0) (ds : List Decision)
    → ((d : Decision) → P d → Q d)
    → All P ds
    → All Q ds
unfolding All
All-map P Q [] f h = tt
All-map P Q (d ∷ ds) f h = (f d h.0, All-map P Q ds f h.1)

most_severe_from-in :
    (P : Decision → Type 0) (best : Decision) (r : ℕ) (ds : List Decision)
    → P best
    → All P ds
    → P (most_severe_from best r ds)
unfolding most_severe_from All
most_severe_from-in P best r [] b h = b
most_severe_from-in P best r (d ∷ ds) b h = elim (Bool-cases (ltb r (decision_rank (some d)))) [
  | inl e ↦ rw e (most_severe_from-in P d (decision_rank (some d)) ds h.0 h.1)
  | inr e ↦ rw e (most_severe_from-in P best r ds b h.1)
]

pick-in :
    (P : Decision → Type 0) (d : Decision) (ds : List Decision) → All P (d ∷ ds) → P (pick (d ∷ ds))
unfolding pick All most_severe_decision
pick-in P d [] h = h.0
pick-in P allow (e ∷ ds) h = most_severe_from-in P allow 1 (e ∷ ds) h.0 h.1
pick-in P block (e ∷ ds) h = most_severe_from-in P block 5 (e ∷ ds) h.0 h.1
pick-in P redact (e ∷ ds) h = most_severe_from-in P redact 4 (e ∷ ds) h.0 h.1
pick-in P warn (e ∷ ds) h = most_severe_from-in P warn 2 (e ∷ ds) h.0 h.1
pick-in P transform (e ∷ ds) h = most_severe_from-in P transform 3 (e ∷ ds) h.0 h.1

HasTop : ℕ → Tally → Decision → Type 0
HasTop top l d = (has d l ≡ true) × (weight_in d l ≡ top)

HasTop-later :
    (top : ℕ) (e : Decision) (x : ℕ) (l : Tally)
    → has e l ≡ false
    → (d : Decision) → HasTop top l d
    → HasTop top ((e, x) ∷ l) d
unfolding HasTop has weight_in
HasTop-later top e x l n d h = elim (Bool-cases (same_decision e d)) [
  | inl a ↦ absurd (false≢true (sym n ∙ (ap (λ y. has y l) (same→eq e d a) ∙ h.0)))
  | inr a ↦ rw a h
]

HasTop-here :
    (top : ℕ) (e : Decision) (x : ℕ) (l : Tally) → (x == top) ≡ true → HasTop top ((e, x) ∷ l) e
unfolding HasTop has weight_in
HasTop-here top e x l h = rw (same_self e) (refl, (==_iff x top).0 h)

winners-HasTop : (top : ℕ) (l : Tally) → IsTally l → All (HasTop top l) (winners top l)
unfolding winners IsTally All
winners-HasTop top [] h = tt
winners-HasTop top ((e, x) ∷ l) h =
    let rest =
      All-map (HasTop top l) (HasTop top ((e, x) ∷ l)) (winners top l) (HasTop-later top e x l h.0)
        (winners-HasTop top l h.1) in
    elim (Bool-cases (x == top)) [
      | inl a ↦ rw a (HasTop-here top e x l a, rest)
      | inr a ↦ rw a rest
    ]

-- Some entry has the top weight.
winners_some : (l : Tally) (top : ℕ) → top_of l ≡ top → 1 ≤ length l → 1 ≤ length (winners top l)
unfolding winners top_of
winners_some [] top e h = h
winners_some ((d, x) ∷ []) top e h = ground (arith, e, ==_iff x top)
winners_some ((d, x) ∷ (f, y) ∷ l) top e h = elim (Bool-cases (x == top)) [
  | inl a ↦ rw a (omega arith)
  | inr a ↦
      let rest : top_of ((f, y) ∷ l) ≡ top = ground (arith, e, a, ==_iff x top) in
      rw a (winners_some ((f, y) ∷ l) top rest (omega arith))
]

pick-winners :
    (l : Tally) → IsTally l → 1 ≤ length l → HasTop (top_of l) l (pick (winners (top_of l) l))
pick-winners l h n = elim (List-cases (winners (top_of l) l)) [
  | inl e ↦
      absurd
        (omega (arith, winners_some l (top_of l) refl n, ap (λ (x : List Decision). length x) e))
  | inr (d, ds, e) ↦ rw e (
      pick-in (HasTop (top_of l) l) d ds
        (subst (All (HasTop (top_of l) l)) e (winners-HasTop (top_of l) l h)))
]

length-add_vote : (d : Decision) (w : ℕ) (l : Tally) → 1 ≤ length (add_vote d w l)
unfolding add_vote
length-add_vote d w [] = omega arith
length-add_vote d w ((e, x) ∷ l) = elim (Bool-cases (same_decision e d)) [
  | inl a ↦ rw a (omega arith)
  | inr a ↦ rw a (omega arith)
]

length-tally_from :
    (weighted : Bool) (acc : Tally) (vs : List JudgeVote)
    → 1 ≤ length acc
    → 1 ≤ length (tally_from weighted acc vs)
unfolding tally_from
length-tally_from weighted acc [] h = h
length-tally_from weighted acc (v ∷ vs) h =
    length-tally_from weighted (add_vote v.decision (vote_weight weighted v) acc) vs
      (length-add_vote v.decision (vote_weight weighted v) acc)

support-synthesize :
    (weighted : Bool) (method : Text) (v : JudgeVote) (vs : List JudgeVote) (d : Decision)
    → let r = synthesize weighted method (v ∷ vs) in
      (support weighted d (v ∷ vs) ≤ support weighted r.decision (v ∷ vs))
      × (support weighted r.decision (v ∷ vs) ≡ r.top_weight)
unfolding synthesize weight_in HasTop tally_from IsTally
support-synthesize weighted method v vs d =
    let first = add_vote v.decision (vote_weight weighted v) [] in
    let l = tally_from weighted first vs in
    let won =
      (pick-winners l
        (tally_from-IsTally weighted first vs
          (add_vote-IsTally v.decision (vote_weight weighted v) [] tt))
        (length-tally_from weighted first vs
          (length-add_vote v.decision (vote_weight weighted v) []))).1 in
    let r = pick (winners (top_of l) l) in
    let mine = weight_in-tally_from weighted d [] (v ∷ vs) in
    let wins = weight_in-tally_from weighted r [] (v ∷ vs) in
    (omega (arith, won, mine, wins, weight_in-top_of d l), omega (arith, won, wins))

some_inj : (x y : ConsensusResult) → some x ≡ some y → x ≡ y
some_inj x y h = cc

not_none : (y : ConsensusResult) → none ≡ some y → ⊥
not_none y h = cc

-- No decision has more votes, by the weights of the effective method, than the one that a consensus
-- decides for; and its votes weigh the top weight that the result reports.
pub support-synthesize_consensus :
    (method : Text) (v : JudgeVote) (vs : List JudgeVote) (r : ConsensusResult) (d : Decision)
    → synthesize_consensus method (v ∷ vs) ≡ some r
    → let weighted = is_weighted method (v ∷ vs) in
      (support weighted d (v ∷ vs) ≤ support weighted r.decision (v ∷ vs))
      × (support weighted r.decision (v ∷ vs) ≡ r.top_weight)
unfolding synthesize_consensus
support-synthesize_consensus method v vs r d h =
    let weighted = is_weighted method (v ∷ vs) in
    elim (Bool-cases (eq_text method (codes "majority") || eq_text method (codes "weighted"))) [
      | inl ok ↦
          let same =
            some_inj (synthesize weighted method (v ∷ vs)) r
              (sym (rw (synthesize_consensus, ok) refl) ∙ h) in
          subst
            (λ (x : ConsensusResult).
              (support weighted d (v ∷ vs) ≤ support weighted x.decision (v ∷ vs))
              × (support weighted x.decision (v ∷ vs) ≡ x.top_weight))
            same (support-synthesize weighted method v vs d)
      | inr bad ↦ absurd (not_none r (sym (rw (synthesize_consensus, bad) refl) ∙ h))
    ]
