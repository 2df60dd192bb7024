-- ===== src/Engine/Redaction/Coverage.antt =====
-- The overlap resolution of `apply_redaction_spans` in engine/escalation.py.
use mathlib.Core.Path.{subst, fun_ext}
use znyx_runtime.Prelude.{
  ℕ, ◌≤◌, ◌<◌, Text, drop, length, any, all, not, Bool, true, false, ◌&&◌, ◌||◌, List, [], ◌∷◌,
  ◌++◌, ◌≡◌, refl, sym, ap, ◌∙◌, arith, leb, ltb, Bool-cases, inl, inr,
}
use znyx_runtime.Core.Models.{Span}
use znyx_runtime.Engine.Redaction.{
  key_le, insert_span, sort_spans, in_range, keep_from, kept_spans, placeholder,
  apply_redaction_spans,
}

-- The offset `i` lies in one of the spans.
abbrev pub covers : List Span → ℕ → Bool
covers kept i = any (λ k. leb k.start i && ltb i k.stop) kept

-- No later span starts before `at`.
abbrev StartsFrom : ℕ → List Span → Type 0
StartsFrom at [] = Unit
StartsFrom at (s ∷ l) = (at ≤ s.start) × StartsFrom at l

abbrev IsSorted : List Span → Type 0
IsSorted [] = Unit
IsSorted (s ∷ l) = StartsFrom s.start l × IsSorted l

StartsFrom-le : (a b : ℕ) (l : List Span) → a ≤ b → StartsFrom b l → StartsFrom a l
StartsFrom-le a b [] h p = tt
StartsFrom-le a b (s ∷ l) h p = (omega arith, StartsFrom-le a b l h p.1)

StartsFrom-insert :
    (at : ℕ) (s : Span) (l : List Span)
    → at ≤ s.start
    → StartsFrom at l
    → StartsFrom at (insert_span s l)
unfolding insert_span
StartsFrom-insert at s [] h p = (h, tt)
StartsFrom-insert at s (t ∷ l) h p = ground (arith, StartsFrom-insert at s l h p.1)

key_le_start : (a b : Span) → key_le a b ≡ true → a.start ≤ b.start
unfolding key_le
key_le_start a b h = ground arith

key_gt_start : (a b : Span) → key_le a b ≡ false → b.start ≤ a.start
unfolding key_le
key_gt_start a b h = ground arith

insert_span-IsSorted : (s : Span) (l : List Span) → IsSorted l → IsSorted (insert_span s l)
unfolding insert_span
insert_span-IsSorted s [] h = (tt, tt)
insert_span-IsSorted s (t ∷ l) h = elim (Bool-cases (key_le s t)) [
  | inl e ↦ rw e ((key_le_start s t e, StartsFrom-le s.start t.start l (key_le_start s t e) h.0), h)
  | inr e ↦
      rw e (StartsFrom-insert t.start s l (key_gt_start s t e) h.0, insert_span-IsSorted s l h.1)
]

sort_spans-IsSorted : (l : List Span) → IsSorted (sort_spans l)
unfolding sort_spans
sort_spans-IsSorted [] = tt
sort_spans-IsSorted (s ∷ l) = insert_span-IsSorted s (sort_spans l) (sort_spans-IsSorted l)

module _ (p : Span → Bool) where
  all-insert_span : (s : Span) (l : List Span) → all p (insert_span s l) ≡ p s && all p l
  unfolding insert_span
  all-insert_span s [] = refl
  all-insert_span s (t ∷ l) = ground (arith, all-insert_span s l)

  all-sort_spans : (l : List Span) → all p (sort_spans l) ≡ all p l
  unfolding sort_spans
  all-sort_spans [] = refl
  all-sort_spans (s ∷ l) = all-insert_span s (sort_spans l) ∙ ap (λ b. p s && b) (all-sort_spans l)

-- The start of a valid span lies before `at` or in a kept span.
abbrev is_met : ℕ → ℕ → List Span → Span → Bool
is_met size at kept s = not (in_range size s) || (ltb s.start at || covers kept s.start)

-- Keeping a span meets all that starts before its end.
is_met_kept :
    (size at : ℕ) (x : Span) (kept l : List Span)
    → StartsFrom x.start l
    → all (is_met size x.stop kept) l ≡ true
    → all (is_met size at (x ∷ kept)) l ≡ true
is_met_kept size at x kept [] p h = refl
is_met_kept size at x kept (s ∷ l) p h = ground (arith, is_met_kept size at x kept l p.1)

keep_from_kept :
    (size at : ℕ) (x : Span) (l : List Span)
    → (leb at x.start && in_range size x) ≡ true
    → keep_from size at (x ∷ l) ≡ x ∷ keep_from size x.stop l
unfolding keep_from
keep_from_kept size at x l e = rw e

keep_from_skipped :
    (size at : ℕ) (x : Span) (l : List Span)
    → (leb at x.start && in_range size x) ≡ false
    → keep_from size at (x ∷ l) ≡ keep_from size at l
unfolding keep_from
keep_from_skipped size at x l e = rw e

is_met_self :
    (size at : ℕ) (x : Span) (kept : List Span)
    → (leb at x.start && in_range size x) ≡ true
    → is_met size at (x ∷ kept) x ≡ true
is_met_self size at x kept e = ground arith

is_met_skipped :
    (size at : ℕ) (x : Span) (kept : List Span)
    → (leb at x.start && in_range size x) ≡ false
    → is_met size at kept x ≡ true
is_met_skipped size at x kept e = ground arith

and_true : (a b : Bool) → a ≡ true → b ≡ true → (a && b) ≡ true
and_true a b p q = ground arith

keep_from-is_met :
    (size at : ℕ) (l : List Span) → IsSorted l → all (is_met size at (keep_from size at l)) l ≡ true
keep_from-is_met size at [] h = refl
keep_from-is_met size at (x ∷ l) h = elim (Bool-cases (leb at x.start && in_range size x)) [
  | inl e ↦
      let kept = x ∷ keep_from size x.stop l in
      subst (λ k. all (is_met size at k) (x ∷ l) ≡ true) (sym (keep_from_kept size at x l e))
        (and_true (is_met size at kept x) (all (is_met size at kept) l)
          (is_met_self size at x (keep_from size x.stop l) e)
          (is_met_kept size at x (keep_from size x.stop l) l h.0
            (keep_from-is_met size x.stop l h.1)))
  | inr e ↦
      let kept = keep_from size at l in
      subst (λ k. all (is_met size at k) (x ∷ l) ≡ true) (sym (keep_from_skipped size at x l e))
        (and_true (is_met size at kept x) (all (is_met size at kept) l)
          (is_met_skipped size at x kept e) (keep_from-is_met size at l h.1))
]

is_met_zero :
    (size : ℕ) (kept : List Span) (s : Span)
    → is_met size 0 kept s ≡ (not (in_range size s) || covers kept s.start)
is_met_zero size kept s = ground arith

-- Every span that lies within the text begins inside a kept span, so nothing that a layer asked to
-- redact is left out as a whole: at least its first character is replaced.
pub kept_spans-covers_starts :
    (text : Text) (spans : List Span)
    → all (λ s. not (in_range (length text) s) || covers (kept_spans text spans) s.start) spans
      ≡ true
unfolding kept_spans
kept_spans-covers_starts text spans =
    let size = length text in
    let kept = keep_from size 0 (sort_spans spans) in
    subst (λ (p : Span → Bool). all p spans ≡ true) (fun_ext (is_met_zero size kept))
      (sym (all-sort_spans (is_met size 0 kept) spans)
        ∙ keep_from-is_met size 0 (sort_spans spans) (sort_spans-IsSorted spans))

-- Of two spans that overlap without nesting only the one that starts first is replaced: with
-- (0, m) and (k, n), k < m < n, the text from m to n, which the second span covers, stays in the
-- output as it was.
pub partial_overlap_stays :
    (text : Text) (m k n : ℕ) (a b : Text)
    → 0 < k
    → k < m
    → m < n
    → n ≤ length text
    → apply_redaction_spans text
        (record { start = 0; stop = m; label = a } ∷ record { start = k; stop = n; label = b } ∷ [])
      ≡ placeholder a ++ drop m text
unfolding apply_redaction_spans key_le
partial_overlap_stays text m k n a b h1 h2 h3 h4 = ground arith
