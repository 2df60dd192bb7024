-- ===== src/Engine/Streaming/Release.antt =====
-- The windows and the releases of engine/streaming.py, and the text that a stream holds.
use znyx_runtime.Prelude.{
  ℕ, zero, suc, ◌≤◌, ℤ, pos, negsuc, Text, false, List, [], ◌∷◌, ◌++◌, length, take, drop, ◌≡◌,
  refl, sym, ap, ◌∙◌, subst, arith, Bool-cases, inl, inr, take-append-drop, append_assoc,
  append_nil,
}
use znyx_runtime.Core.Models.{DetectorResult}
use znyx_runtime.Engine.Streaming.{
  configure, advance, Event, guardrail, chunk, blocked_window, already_blocked, done, Stream,
  release, is_block, verdict, evaluate_window, release_front,
}

-- The text that the `chunk` events carry.
unfoldable pub chunk_texts : List Event → Text
chunk_texts [] = []
chunk_texts (chunk text n ∷ events) = text ++ chunk_texts events
chunk_texts (guardrail d t ∷ events) = chunk_texts events
chunk_texts (blocked_window d ∷ events) = chunk_texts events
chunk_texts (already_blocked ∷ events) = chunk_texts events
chunk_texts (done d ∷ events) = chunk_texts events

pub chunk_texts-append :
    (es fs : List Event) → chunk_texts (es ++ fs) ≡ chunk_texts es ++ chunk_texts fs
unfolding chunk_texts
chunk_texts-append [] fs = refl
chunk_texts-append (chunk t n ∷ es) fs =
    rw (chunk_texts-append es fs) (sym (append_assoc t (chunk_texts es) (chunk_texts fs)))
chunk_texts-append (guardrail d t ∷ es) fs = chunk_texts-append es fs
chunk_texts-append (blocked_window d ∷ es) fs = chunk_texts-append es fs
chunk_texts-append (already_blocked ∷ es) fs = chunk_texts-append es fs
chunk_texts-append (done d ∷ es) fs = chunk_texts-append es fs

front_text : (adv : ℕ) (s : Stream) → chunk_texts ((release_front adv s).0 ∷ []) ≡ take adv s.buffer
unfolding release_front release chunk_texts
front_text adv s = append_nil (take adv s.buffer)

pub release_front_text :
    (e : Event) (adv : ℕ) (s : Stream)
    → chunk_texts (e ∷ []) ≡ []
    → chunk_texts (e ∷ (release_front adv s).0 ∷ []) ≡ take adv s.buffer
release_front_text e adv s h =
    chunk_texts-append (e ∷ []) ((release_front adv s).0 ∷ []) ∙ rw h (front_text adv s)

release_only : (text : Text) (s : Stream) → chunk_texts ((release text s).0 ∷ []) ≡ text
unfolding release chunk_texts
release_only text s = append_nil text

pub release_text :
    (e : Event) (text : Text) (s : Stream)
    → chunk_texts (e ∷ []) ≡ []
    → chunk_texts (e ∷ (release text s).0 ∷ []) ≡ text
release_text e text s h =
    chunk_texts-append (e ∷ []) ((release text s).0 ∷ []) ∙ rw h (release_only text s)

pub released-release_front :
    (adv : ℕ) (s : Stream) → (release_front adv s).1.released ≡ s.released ++ take adv s.buffer
unfolding release_front release
released-release_front adv s = refl

-- A window of at least 50 characters, of which a round is solely responsible for at least 25.
pub advance_bounds : (w o : ℤ) → let c = configure w o in (50 ≤ c.window_size) × (25 ≤ advance c)
unfolding configure advance
advance_bounds (pos w) (pos o) = (omega arith, omega arith)
advance_bounds (pos w) (negsuc o) = (omega arith, omega arith)
advance_bounds (negsuc w) (pos o) = (omega arith, omega arith)
advance_bounds (negsuc w) (negsuc o) = (omega arith, omega arith)

pub advance_le_window : (w : ℤ) (o : ℕ) → let c = configure w (pos o) in advance c ≤ c.window_size
unfolding configure advance
advance_le_window (pos w) o = omega arith
advance_le_window (negsuc w) o = omega arith

take-take : (m n : ℕ) (xs : Text) → m ≤ n → take m (take n xs) ≡ take m xs
take-take zero n xs h = refl
take-take (suc m) zero xs h = absurd (omega arith)
take-take (suc m) (suc n) [] h = refl
take-take (suc m) (suc n) (x ∷ xs) h = rw (take-take m n xs (omega arith)) refl

pub take_all : (xs : Text) → take (length xs) xs ≡ xs
take_all [] = refl
take_all (x ∷ xs) = rw (take_all xs) refl

module _ (detect : Text → List DetectorResult) (elapsed : ℕ → ℕ) where
  -- A text put together from beginnings of windows that were evaluated and not blocked.
  pub data Cleared : Text → Type 0 where
    nothing : Cleared []
    more :
        (t window : Text) (n : ℕ)
        → Cleared t
        → is_block (verdict detect elapsed window) ≡ false
        → Cleared (t ++ take n window)

  -- A window leaves the text alone; it blocks the stream exactly when its verdict is to block.
  pub evaluate_window_keeps :
      (t : Text) (s : Stream)
      → let (e, s') = evaluate_window detect elapsed t s in
        (s'.buffer ≡ s.buffer)
        × (s'.full_text ≡ s.full_text)
        × (s'.released ≡ s.released)
        × (chunk_texts (e ∷ []) ≡ [])
  unfolding evaluate_window chunk_texts
  evaluate_window_keeps t s = elim (Bool-cases (is_block (verdict detect elapsed t))) [
    | inl b ↦ rw b (refl, refl, refl, refl)
    | inr b ↦ rw b (refl, refl, refl, refl)
  ]

  pub blocked-evaluate_window :
      (t : Text) (s : Stream)
      → s.blocked ≡ false
      → (evaluate_window detect elapsed t s).1.blocked ≡ is_block (verdict detect elapsed t)
  unfolding evaluate_window
  blocked-evaluate_window t s n = elim (Bool-cases (is_block (verdict detect elapsed t))) [
    | inl b ↦ rw b refl
    | inr b ↦ rw b n
  ]

  -- All the text is released or buffered, and what is released was cleared.
  pub record IsSound (s : Stream) : Type 0 where
    pub accounted : s.full_text ≡ s.released ++ s.buffer
    pub cleared : Cleared s.released

  pub evaluate_window-IsSound :
      (t : Text) (s : Stream) → IsSound s → IsSound (evaluate_window detect elapsed t s).1
  evaluate_window-IsSound t s h =
      let (b, f, r, x) = evaluate_window_keeps t s in
      record {
        accounted = f ∙ (h.accounted ∙ rw (b, r) refl);
        cleared = subst Cleared (sym r) h.cleared;
      }

  pub release_front-IsSound :
      (adv n : ℕ) (s : Stream)
      → adv ≤ n
      → is_block (verdict detect elapsed (take n s.buffer)) ≡ false
      → IsSound s
      → IsSound (release_front adv s).1
  unfolding release_front release
  release_front-IsSound adv n s le ok h = record {
    accounted =
        h.accounted
        ∙ (ap (λ b. s.released ++ b) (sym (take-append-drop adv s.buffer))
            ∙ sym (append_assoc s.released (take adv s.buffer) (drop adv s.buffer)));
    cleared =
        subst (λ t. Cleared (s.released ++ t)) (take-take adv n s.buffer le)
          (more s.released (take n s.buffer) adv h.cleared ok);
  }
