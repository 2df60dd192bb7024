-- ===== src/Engine/Redaction.antt =====
-- packages/znyx-core/src/znyx_core/engine/escalation.py, `apply_redaction_spans`. Offsets are
-- naturals: a span with a negative offset fails the test `start >= last_end` or `start < end` and is
-- dropped like any other that is out of range.
use znyx_runtime.Prelude.{
  ℕ, zero, suc, ◌+◌, ◌-◌, Text, upper, take, drop, length, Bool, true, false, ◌&&◌, ◌||◌, List, [],
  ◌∷◌, ◌++◌, ltb, leb, ◌==◌, if◌then◌else◌,
}
use znyx_runtime.Core.Models.{Span}
pub mod Render
pub mod Coverage

-- The order of `key=lambda s: (s[0], -(s[1] - s[0]))`.
unfoldable pub key_le : Span → Span → Bool
key_le a b =
    ltb a.start b.start || ((a.start == b.start) && leb (b.stop + a.start) (a.stop + b.start))

unfoldable pub insert_span : Span → List Span → List Span
insert_span a [] = a ∷ []
insert_span a (b ∷ l) = if key_le a b then a ∷ b ∷ l else b ∷ insert_span a l

-- `sorted`, which keeps the order of spans with equal keys.
unfoldable pub sort_spans : List Span → List Span
unfolding insert_span
sort_spans [] = []
sort_spans (a ∷ l) = insert_span a (sort_spans l)

-- `0 <= start < end <= len(text)`
abbrev pub in_range : ℕ → Span → Bool
in_range size s = ltb s.start s.stop && leb s.stop size

-- The loop that drops what begins before the last kept end.
unfoldable pub keep_from : ℕ → ℕ → List Span → List Span
keep_from size last_end [] = []
keep_from size last_end (s ∷ l) =
    let kept = s ∷ keep_from size s.stop l in
    let skipped = keep_from size last_end l in
    if leb last_end s.start && in_range size s then kept else skipped

unfoldable pub kept_spans : Text → List Span → List Span
unfolding sort_spans keep_from
kept_spans text spans = keep_from (length text) 0 (sort_spans spans)

-- `f"[{str(label).upper()}]"`
unfoldable pub placeholder : Text → Text
placeholder label = 91 ∷ upper label ++ 93 ∷ []

abbrev pub splice : Span → Text → Text
splice s out = take s.start out ++ (placeholder s.label ++ drop s.stop out)

-- `for … in reversed(kept)`: the last span is replaced first.
unfoldable pub replace_reversed : List Span → Text → Text
replace_reversed [] out = out
replace_reversed (s ∷ l) out = splice s (replace_reversed l out)

unfoldable pub apply_redaction_spans : Text → List Span → Text
unfolding kept_spans replace_reversed
apply_redaction_spans text [] = text
apply_redaction_spans text (s ∷ l) = replace_reversed (kept_spans text (s ∷ l)) text
