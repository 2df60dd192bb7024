-- ===== src/Engine/Redaction/Render.antt =====
-- `apply_redaction_spans` of engine/escalation.py against a rendering from left to right.
use mathlib.Core.List.{append_assoc}
use mathlib.Core.Path.{ap₂}
use znyx_runtime.Prelude.{
  ℕ, zero, suc, ◌-◌, ◌≤◌, ◌<◌, Text, take, drop, length, length-take, List, [], ◌∷◌, ◌++◌, ◌≡◌,
  refl, sym, ap, take-append-drop, ◌∙◌, arith,
}
use znyx_runtime.Core.Models.{Span}
use znyx_runtime.Engine.Redaction.{
  keep_from, kept_spans, placeholder, splice, replace_reversed, apply_redaction_spans, sort_spans,
}

-- The text from `at` on, with each span of the list replaced, read from left to right.
unfoldable pub render : ℕ → List Span → Text → Text
render at [] rest = rest
render at (s ∷ l) rest =
    take (s.start - at) rest ++ (placeholder s.label ++ render s.stop l (drop (s.stop - at) rest))

-- The spans follow one another from `at` on and end within `size`.
abbrev pub IsDisjoint : ℕ → ℕ → List Span → Type 0
IsDisjoint size at [] = at ≤ size
IsDisjoint size at (s ∷ l) = (at ≤ s.start) × (s.start < s.stop) × IsDisjoint size s.stop l

IsDisjoint-le : (size at : ℕ) (l : List Span) → IsDisjoint size at l → at ≤ size
IsDisjoint-le size at [] h = h
IsDisjoint-le size at (s ∷ l) h = omega (arith, IsDisjoint-le size s.stop l h.2)

pub keep_from-IsDisjoint :
    (size at : ℕ) (l : List Span) → at ≤ size → IsDisjoint size at (keep_from size at l)
unfolding keep_from
keep_from-IsDisjoint size at [] h = h
keep_from-IsDisjoint size at (s ∷ l) h =
    ground (arith, keep_from-IsDisjoint size s.stop l, keep_from-IsDisjoint size at l h)

sub_suc : (p q : ℕ) → suc q - suc p ≡ q - p
sub_suc p q = omega arith

module _ {ℓ} {A : Type ℓ} where
  take-append_le : (n : ℕ) (xs ys : List A) → n ≤ length xs → take n (xs ++ ys) ≡ take n xs
  take-append_le zero xs ys h = refl
  take-append_le (suc n) [] ys h = absurd (omega arith)
  take-append_le (suc n) (x ∷ xs) ys h = ap (λ t. x ∷ t) (take-append_le n xs ys (omega arith))

  take-take : (n m : ℕ) (xs : List A) → n ≤ m → take n (take m xs) ≡ take n xs
  take-take zero m xs h = refl
  take-take (suc n) zero xs h = absurd (omega arith)
  take-take (suc n) (suc m) [] h = refl
  take-take (suc n) (suc m) (x ∷ xs) h = ap (λ t. x ∷ t) (take-take n m xs (omega arith))

  drop-append_take : (n : ℕ) (xs ys : List A) → n ≤ length xs → drop n (take n xs ++ ys) ≡ ys
  drop-append_take zero xs ys h = refl
  drop-append_take (suc n) [] ys h = absurd (omega arith)
  drop-append_take (suc n) (x ∷ xs) ys h = drop-append_take n xs ys (omega arith)

  take_nil : (n : ℕ) → take {A = A} n [] ≡ []
  take_nil zero = refl
  take_nil (suc n) = refl

  drop_nil : (n : ℕ) → drop {A = A} n [] ≡ []
  drop_nil zero = refl
  drop_nil (suc n) = refl

  take-append-take-drop :
      (p q : ℕ) (xs : List A) → p ≤ q → take p xs ++ take (q - p) (drop p xs) ≡ take q xs
  take-append-take-drop zero q xs h = ap (λ k. take k xs) (omega arith)
  take-append-take-drop (suc p) zero xs h = absurd (omega arith)
  take-append-take-drop (suc p) (suc q) [] h = take_nil (suc q - suc p)
  take-append-take-drop (suc p) (suc q) (x ∷ xs) h =
      rw sub_suc (ap (λ t. x ∷ t) (take-append-take-drop p q xs (omega arith)))

  drop-drop : (p q : ℕ) (xs : List A) → p ≤ q → drop (q - p) (drop p xs) ≡ drop q xs
  drop-drop zero q xs h = ap (λ k. drop k xs) (omega arith)
  drop-drop (suc p) zero xs h = absurd (omega arith)
  drop-drop (suc p) (suc q) [] h = drop_nil (suc q - suc p)
  drop-drop (suc p) (suc q) (x ∷ xs) h = rw sub_suc (drop-drop p q xs (omega arith))

-- One step from the back: the part before `at` stays, the span and all behind it is rendered.
splice-render :
    (s : Span) (l : List Span) (at : ℕ) (text rest : Text)
    → at ≤ s.start
    → s.start < s.stop
    → s.stop ≤ length text
    → splice s (take s.stop text ++ rest)
      ≡ take at text ++ (take (s.start - at) (drop at text) ++ (placeholder s.label ++ rest))
splice-render s l at text rest h k fits =
    let size : length (take s.stop text) ≡ s.stop = omega (arith, length-take s.stop text) in
    ap₂ (λ a b. a ++ (placeholder s.label ++ b))
      (take-append_le s.start (take s.stop text) rest (omega arith)
        ∙ take-take s.start s.stop text (omega arith)
        ∙ sym (take-append-take-drop at s.start text h))
      (drop-append_take s.stop text rest fits)
    ∙ append_assoc (take at text) (take (s.start - at) (drop at text)) (placeholder s.label ++ rest)

replace_reversed-render :
    (at : ℕ) (l : List Span) (text : Text)
    → IsDisjoint (length text) at l
    → replace_reversed l text ≡ take at text ++ render at l (drop at text)
unfolding replace_reversed render
replace_reversed-render at [] text h = sym (take-append-drop at text)
replace_reversed-render at (s ∷ l) text h =
    ap (splice s) (replace_reversed-render s.stop l text h.2)
    ∙ splice-render s l at text (render s.stop l (drop s.stop text)) h.0 h.1
        (IsDisjoint-le (length text) s.stop l h.2)
    ∙ ap
        (λ r.
          take at text
          ++ (take (s.start - at) (drop at text) ++ (placeholder s.label ++ render s.stop l r)))
        (sym (drop-drop at s.stop text (omega arith)))

-- The spans that are kept follow one another inside the text.
pub kept_spans-IsDisjoint :
    (text : Text) (spans : List Span) → IsDisjoint (length text) 0 (kept_spans text spans)
unfolding kept_spans
kept_spans-IsDisjoint text spans =
    keep_from-IsDisjoint (length text) 0 (sort_spans spans) (omega arith)

-- The replacement from the end, over offsets of the original text, is the left-to-right rendering of
-- the kept spans: each is replaced by its label, and every character between them stays.
pub apply_redaction_spans-render :
    (text : Text) (spans : List Span)
    → apply_redaction_spans text spans ≡ render 0 (kept_spans text spans) text
unfolding apply_redaction_spans
apply_redaction_spans-render text [] = unfold render in refl
apply_redaction_spans-render text (s ∷ l) =
    replace_reversed-render 0 (kept_spans text (s ∷ l)) text (kept_spans-IsDisjoint text (s ∷ l))
