-- ===== src/Engine/ScorecardGate/Tiers.antt =====
-- `evaluate_gate` of engine/scorecard_gate.py: its bars, tiers and categories.
use mathlib.Core.Option
use znyx_runtime.Prelude.{
  ℕ, ◌*◌, ◌≤◌, ℤ, pos, negsuc, ◌≤ℤ◌, Text, eq_text, Bool, true, false, not, ◌&&◌, Option, none,
  some, List, ◌++◌, ◌≡◌, refl, ap, ◌∙◌, eq_text_refl, eq_text→eq, ◌↔◌, ◌≢◌, arith,
}
use znyx_runtime.Engine.ScorecardGate.{
  advisory, enforcement, advisory_gate, enforcement_gate, Gate, GateResult, Failure, MetricName,
  Scorecard, num, too_low, too_high, too_few, out_of_date, min_lang_samples, validation_age,
  fail_if, is_empty, failures_of, gate_result, gate_for, override_gate, evaluate_gate,
  seconds_per_day,
}

abbrev pub AtLeast : Option ℤ → ℕ → Type 0
AtLeast none bar = ⊥
AtLeast (some v) bar = pos bar ≤ℤ v

abbrev pub AtMost : Option ℤ → ℕ → Type 0
AtMost none bar = ⊥
AtMost (some v) bar = v ≤ℤ pos bar

abbrev pub Enough : Option ℕ → ℕ → Type 0
Enough none bar = ⊥
Enough (some n) bar = bar ≤ n

-- Validated at most `bar` days ago, and not more than a day ahead.
abbrev pub Fresh : Option ℤ → ℕ → Type 0
Fresh none bar = ⊥
Fresh (some age) bar = (age ≤ℤ pos (bar * seconds_per_day)) × (negsuc 86399 ≤ℤ age)

module _ (from_isoformat : Text → Option ℕ) (now : ℕ) where
  -- Every metric is there and meets its bar.
  pub record Clears (gate : Gate) (s : Scorecard) : Type 0 where
    pub f1 : AtLeast (num s.f1) gate.min_f1
    pub auroc : AtLeast (num s.auroc) gate.min_auroc
    pub ece : AtMost (num s.ece) gate.max_ece
    pub fp_rate : AtMost (num s.fp_rate) gate.max_fp_rate
    pub latency : AtMost (num s.p95_latency_ms) gate.max_p95_latency_ms
    pub samples : Enough (min_lang_samples s.per_language) gate.min_samples_per_language
    pub age : Fresh (validation_age from_isoformat now s.validated_at) gate.max_validation_age_days

too_low_iff : (v : Option ℤ) (bar : ℕ) → (too_low v bar ≡ false) ↔ AtLeast v bar
unfolding too_low
too_low_iff v bar = ground arith

too_high_iff : (v : Option ℤ) (bar : ℕ) → (too_high v bar ≡ false) ↔ AtMost v bar
unfolding too_high
too_high_iff v bar = ground arith

too_few_iff : (n : Option ℕ) (bar : ℕ) → (too_few n bar ≡ false) ↔ Enough n bar
unfolding too_few
too_few_iff n bar = ground arith

out_of_date_iff : (age : Option ℤ) (bar : ℕ) → (out_of_date age bar ≡ false) ↔ Fresh age bar
unfolding out_of_date
out_of_date_iff age bar = ground arith

is_empty-fail_if :
    (b : Bool) (m : MetricName) (r : ℕ) (v : Option ℤ) (rest : List Failure)
    → is_empty (fail_if b m r v ++ rest) ≡ not b && is_empty rest
is_empty-fail_if true m r v rest = refl
is_empty-fail_if false m r v rest = refl

is_empty-fail_if_last :
    (b : Bool) (m : MetricName) (r : ℕ) (v : Option ℤ) → is_empty (fail_if b m r v) ≡ not b
is_empty-fail_if_last true m r v = refl
is_empty-fail_if_last false m r v = refl

none_of_seven :
    (a b c d e f g : Bool)
    → ((not a && (not b && (not c && (not d && (not e && (not f && not g)))))) ≡ true) ↔ (
        (a ≡ false)
        × (b ≡ false)
        × (c ≡ false)
        × (d ≡ false)
        × (e ≡ false)
        × (f ≡ false)
        × (g ≡ false))
none_of_seven a b c d e f g = ground arith

module _ (from_isoformat : Text → Option ℕ) (now : ℕ) where
  no_failures_iff :
      (gate : Gate) (s : Scorecard)
      → (is_empty (failures_of from_isoformat now gate s) ≡ true) ↔ Clears from_isoformat now gate s
  unfolding failures_of
  no_failures_iff gate s =
      simp (is_empty-fail_if, is_empty-fail_if_last, none_of_seven)
        (
          (λ h. record {
            f1 = (too_low_iff _ _).0 h.0;
            auroc = (too_low_iff _ _).0 h.1;
            ece = (too_high_iff _ _).0 h.2;
            fp_rate = (too_high_iff _ _).0 h.3;
            latency = (too_high_iff _ _).0 h.4;
            samples = (too_few_iff _ _).0 h.5;
            age = (out_of_date_iff _ _).0 h.6;
          }),
          λ c. (
            (too_low_iff _ _).1 c.f1,
            (too_low_iff _ _).1 c.auroc,
            (too_high_iff _ _).1 c.ece,
            (too_high_iff _ _).1 c.fp_rate,
            (too_high_iff _ _).1 c.latency,
            (too_few_iff _ _).1 c.samples,
            (out_of_date_iff _ _).1 c.age,
          ),
        )

-- An unknown tier is an error: no bar is chosen for it.
pub gate_for-unknown :
    (tier : Text) (category : Option Text)
    → (gate_for tier category ≡ none) ↔ ((tier ≢ advisory) × (tier ≢ enforcement))
unfolding gate_for
gate_for-unknown tier category = (
  (λ h. (
    (λ e. ground (arith, h, eq_text_refl advisory, ap (λ t. eq_text t advisory) e)),
    λ e. ground (arith, h, eq_text_refl enforcement, ap (λ t. eq_text t enforcement) e),
  )),
  λ (na, ne). ground (arith, eq_text→eq tier advisory, eq_text→eq tier enforcement),
)

-- `g` asks at least what `h` asks, metric by metric.
record IsStricter (g h : Gate) : Type 0 where
  f1 : h.min_f1 ≤ g.min_f1
  auroc : h.min_auroc ≤ g.min_auroc
  ece : g.max_ece ≤ h.max_ece
  fp_rate : g.max_fp_rate ≤ h.max_fp_rate
  latency : g.max_p95_latency_ms ≤ h.max_p95_latency_ms
  samples : h.min_samples_per_language ≤ g.min_samples_per_language
  age : g.max_validation_age_days ≤ h.max_validation_age_days

enforcement-IsStricter :
    (category : Option Text)
    → IsStricter (override_gate category enforcement_gate) (override_gate category advisory_gate)
unfolding override_gate
enforcement-IsStricter category = ground arith

category-IsStricter :
    (category : Option Text) → IsStricter (override_gate category enforcement_gate) enforcement_gate
unfolding override_gate
category-IsStricter category = ground arith

AtLeast-mono : (v : Option ℤ) (a b : ℕ) → b ≤ a → AtLeast v a → AtLeast v b
AtLeast-mono v a b h p = ground arith

AtMost-mono : (v : Option ℤ) (a b : ℕ) → a ≤ b → AtMost v a → AtMost v b
AtMost-mono v a b h p = ground arith

Enough-mono : (n : Option ℕ) (a b : ℕ) → b ≤ a → Enough n a → Enough n b
Enough-mono n a b h p = ground arith

Fresh-mono : (age : Option ℤ) (a b : ℕ) → a ≤ b → Fresh age a → Fresh age b
Fresh-mono age a b h p = ground arith

module _ (from_isoformat : Text → Option ℕ) (now : ℕ) where
  Clears-mono :
      (g h : Gate) (s : Scorecard)
      → IsStricter g h
      → Clears from_isoformat now g s
      → Clears from_isoformat now h s
  Clears-mono g h s le c = record {
    f1 = AtLeast-mono _ _ _ le.f1 c.f1;
    auroc = AtLeast-mono _ _ _ le.auroc c.auroc;
    ece = AtMost-mono _ _ _ le.ece c.ece;
    fp_rate = AtMost-mono _ _ _ le.fp_rate c.fp_rate;
    latency = AtMost-mono _ _ _ le.latency c.latency;
    samples = Enough-mono _ _ _ le.samples c.samples;
    age = Fresh-mono _ _ _ le.age c.age;
  }

  gate_of_tier :
      (category : Option Text)
      → (gate_for enforcement category ≡ some (override_gate category enforcement_gate))
        × (gate_for advisory category ≡ some (override_gate category advisory_gate))
  unfolding gate_for eq_text
  gate_of_tier category = (refl, refl)

  passed_weaker :
      (g h : Gate) (tier tier' : Text) (s : Scorecard)
      → IsStricter g h
      → (gate_result from_isoformat now tier s g).passed ≡ true
      → (gate_result from_isoformat now tier' s h).passed ≡ true
  unfolding gate_result
  passed_weaker g h tier tier' s le p =
      (no_failures_iff from_isoformat now h s).1
        (Clears-mono g h s le ((no_failures_iff from_isoformat now g s).0 p))

  -- A scorecard that passes the enforcement gate of a category also passes its advisory gate, and
  -- the enforcement gate of no category.
  pub enforcement-implies-advisory :
      (category : Option Text) (s : Scorecard) {r : GateResult}
      → evaluate_gate from_isoformat now enforcement category s ≡ some r
      → r.passed ≡ true
      → ((a : GateResult) × (evaluate_gate from_isoformat now advisory category s ≡ some a)
          × (a.passed ≡ true))
        × ((b : GateResult) × (evaluate_gate from_isoformat now enforcement none s ≡ some b)
            × (b.passed ≡ true))
  unfolding evaluate_gate override_gate
  enforcement-implies-advisory category s {r} h p =
      let known = gate_of_tier category in
      let judge = gate_result from_isoformat now enforcement s in
      let e : judge (override_gate category enforcement_gate) ≡ r =
        cc (h, ap (Option.map judge) known.0) in
      let p' : (judge (override_gate category enforcement_gate)).passed ≡ true =
        ap (λ (x : GateResult). x.passed) e ∙ p in
      (
        (
          gate_result from_isoformat now advisory s (override_gate category advisory_gate),
          rw known.1 refl,
          passed_weaker _ _ enforcement advisory s (enforcement-IsStricter category) p',
        ),
        (
          gate_result from_isoformat now enforcement s enforcement_gate,
          rw (gate_of_tier none).0 refl,
          passed_weaker _ _ enforcement enforcement s (category-IsStricter category) p',
        ),
      )
