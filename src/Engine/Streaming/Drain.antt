-- ===== src/Engine/Streaming/Drain.antt =====
-- The loop of `push` in engine/streaming.py.
use znyx_runtime.Prelude.{
  ℕ, zero, suc, ◌≤◌, ◌<◌, Text, Bool, true, false, not, ◌&&◌, List, [], ◌∷◌, ◌++◌, leb, length,
  take, ◌≡◌, refl, sym, ap, ◌∙◌, ◌⊎◌, arith, Bool-cases, append_assoc, append_nil, inl, inr,
  length-drop,
}
use znyx_runtime.Core.Models.{DetectorResult}
use znyx_runtime.Engine.Streaming.{
  Config, advance, Event, Stream, is_block, verdict, evaluate_window, release_front, release, drain,
}
use znyx_runtime.Engine.Streaming.Release.{
  chunk_texts, release_front_text, released-release_front, chunk_texts-append,
  evaluate_window_keeps, blocked-evaluate_window, IsSound, evaluate_window-IsSound,
  release_front-IsSound,
}

module _ (detect : Text → List DetectorResult) (elapsed : ℕ → ℕ) (c : Config) where
  -- The stream after a window, and after the release that follows.
  abbrev after_window : Stream → Stream
  after_window s = (evaluate_window detect elapsed (take c.window_size s.buffer) s).1

  abbrev after_round : Stream → Stream
  after_round s = (release_front (advance c) (after_window s)).1

  abbrev is_due : Stream → Bool
  is_due s = leb c.window_size (length s.buffer) && not s.blocked

  -- How a call of the loop goes: it stops, it blocks, or it goes on after a round.
  pub data Round (fuel : ℕ) (s : Stream) : Type 0 where
    idle : is_due s ≡ false → drain detect elapsed c (suc fuel) s ≡ ([], s) → Round fuel s
    blocks :
        (e : Event)
        → (after_window s).blocked ≡ true
        → chunk_texts (e ∷ []) ≡ []
        → drain detect elapsed c (suc fuel) s ≡ (e ∷ [], after_window s)
        → Round fuel s
    goes_on :
        (e r : Event)
        → is_due s ≡ true
        → (after_window s).blocked ≡ false
        → chunk_texts (e ∷ r ∷ []) ≡ take (advance c) (after_window s).buffer
        → (let d = drain detect elapsed c fuel (after_round s) in
            drain detect elapsed c (suc fuel) s ≡ (e ∷ r ∷ d.0, d.1))
        → Round fuel s

  round : (fuel : ℕ) (s : Stream) → Round fuel s
  unfolding drain
  round fuel s = elim (Bool-cases (is_due s)) [
    | inr n ↦ idle n (rw n refl)
    | inl y ↦ elim (Bool-cases (after_window s).blocked) [
      | inl b ↦
          blocks (evaluate_window detect elapsed (take c.window_size s.buffer) s).0 b
            (evaluate_window_keeps detect elapsed (take c.window_size s.buffer) s).3
            (rw (y, b) refl)
      | inr b ↦
          goes_on (evaluate_window detect elapsed (take c.window_size s.buffer) s).0
            (release_front (advance c) (after_window s)).0 y b
            (release_front_text _ (advance c) (after_window s)
              (evaluate_window_keeps detect elapsed (take c.window_size s.buffer) s).3)
            (rw (y, b) refl)
    ]
  ]

  abbrev Emits : Stream → List Event × Stream → Type 0
  Emits s d = d.1.released ≡ s.released ++ chunk_texts d.0

  Emits-Round :
      (fuel : ℕ) (s : Stream)
      → Emits (after_round s) (drain detect elapsed c fuel (after_round s))
      → Round fuel s
      → Emits s (drain detect elapsed c (suc fuel) s)
  unfolding chunk_texts
  Emits-Round fuel s ih (idle n e) = rw e (sym (append_nil s.released))
  Emits-Round fuel s ih (blocks v b t e) =
      rw (e, t)
        ((evaluate_window_keeps detect elapsed (take c.window_size s.buffer) s).2
          ∙ sym (append_nil s.released))
  Emits-Round fuel s ih (goes_on v r y b t e) =
      let rest = (drain detect elapsed c fuel (after_round s)).0 in
      rw e (
        ih
        ∙ (ap (λ x. x ++ chunk_texts rest)
              (released-release_front (advance c) (after_window s)
                ∙ rw (evaluate_window_keeps detect elapsed (take c.window_size s.buffer) s).2 refl)
            ∙ (append_assoc s.released (take (advance c) (after_window s).buffer) (chunk_texts rest)
                ∙ ap (λ x. s.released ++ x)
                    (ap (λ x. x ++ chunk_texts rest) (sym t)
                      ∙ sym (chunk_texts-append (v ∷ r ∷ []) rest)))))

  -- What is added to the released text is what the events carry.
  pub released-drain :
      (fuel : ℕ) (s : Stream)
      → let d = drain detect elapsed c fuel s in d.1.released ≡ s.released ++ chunk_texts d.0
  unfolding drain chunk_texts
  released-drain zero s = sym (append_nil s.released)
  released-drain (suc fuel) s =
      Emits-Round fuel s (released-drain fuel (after_round s)) (round fuel s)

  due-open :
      (s : Stream) → is_due s ≡ true → (c.window_size ≤ length s.buffer) × (s.blocked ≡ false)
  due-open s h = ground arith

  Round-IsSound :
      (fuel : ℕ) (s : Stream)
      → advance c ≤ c.window_size
      → IsSound detect elapsed s
      → (IsSound detect elapsed (after_round s)
          → IsSound detect elapsed (drain detect elapsed c fuel (after_round s)).1)
      → Round fuel s
      → IsSound detect elapsed (drain detect elapsed c (suc fuel) s).1
  Round-IsSound fuel s le h ih (idle n e) = rw e h
  Round-IsSound fuel s le h ih (blocks v b t e) =
      rw e (evaluate_window-IsSound detect elapsed (take c.window_size s.buffer) s h)
  Round-IsSound fuel s le h ih (goes_on v r y b t e) =
      let same = (evaluate_window_keeps detect elapsed (take c.window_size s.buffer) s).0 in
      let ok =
        sym
          (blocked-evaluate_window detect elapsed (take c.window_size s.buffer) s (due-open s y).1)
        ∙ b in
      rw e (
        ih (
          release_front-IsSound detect elapsed (advance c) c.window_size (after_window s) le
            (ap (λ x. is_block (verdict detect elapsed (take c.window_size x))) same ∙ ok)
            (evaluate_window-IsSound detect elapsed (take c.window_size s.buffer) s h)))

  pub drain-IsSound :
      (fuel : ℕ) (s : Stream)
      → advance c ≤ c.window_size
      → IsSound detect elapsed s
      → IsSound detect elapsed (drain detect elapsed c fuel s).1
  unfolding drain
  drain-IsSound zero s le h = h
  drain-IsSound (suc fuel) s le h =
      Round-IsSound fuel s le h (drain-IsSound fuel (after_round s) le) (round fuel s)

  -- Where the loop may stop: the stream is blocked, or what is left does not fill a window.
  abbrev pub IsDrained : Stream → Type 0
  IsDrained s = (s.blocked ≡ true) ⊎ (length s.buffer < c.window_size)

  idle-IsDrained : (s : Stream) → is_due s ≡ false → IsDrained s
  idle-IsDrained s h = elim (Bool-cases s.blocked) [ inl b ↦ inl b | inr b ↦ inr (ground arith) ]

  Round-IsDrained :
      (fuel : ℕ) (s : Stream)
      → 1 ≤ advance c
      → 1 ≤ c.window_size
      → length s.buffer ≤ suc fuel
      → (length (after_round s).buffer ≤ fuel
          → IsDrained (drain detect elapsed c fuel (after_round s)).1)
      → Round fuel s
      → IsDrained (drain detect elapsed c (suc fuel) s).1
  unfolding release_front release
  Round-IsDrained fuel s a w l ih (idle n e) = rw e (idle-IsDrained s n)
  Round-IsDrained fuel s a w l ih (blocks v b t e) = rw e (inl b)
  Round-IsDrained fuel s a w l ih (goes_on v r y b t e) =
      let same = (evaluate_window_keeps detect elapsed (take c.window_size s.buffer) s).0 in
      let shorter = length-drop (advance c) (after_window s).buffer in
      let before = ap (λ (x : Text). length x) same in
      rw e (ih (omega (arith, shorter, before, (due-open s y).0)))

  -- As many rounds as the buffer has characters are enough.
  pub drain-IsDrained :
      (fuel : ℕ) (s : Stream)
      → 1 ≤ advance c
      → 1 ≤ c.window_size
      → length s.buffer ≤ fuel
      → IsDrained (drain detect elapsed c fuel s).1
  unfolding drain
  drain-IsDrained zero s a w l = inr (omega arith)
  drain-IsDrained (suc fuel) s a w l =
      Round-IsDrained fuel s a w l (drain-IsDrained fuel (after_round s) a w) (round fuel s)

  full_text-Round :
      (fuel : ℕ) (s : Stream)
      → (drain detect elapsed c fuel (after_round s)).1.full_text ≡ (after_round s).full_text
      → Round fuel s
      → (drain detect elapsed c (suc fuel) s).1.full_text ≡ s.full_text
  unfolding release_front release
  full_text-Round fuel s ih (idle n e) = rw e refl
  full_text-Round fuel s ih (blocks v b t e) =
      rw e (evaluate_window_keeps detect elapsed (take c.window_size s.buffer) s).1
  full_text-Round fuel s ih (goes_on v r y b t e) =
      rw e (ih ∙ (evaluate_window_keeps detect elapsed (take c.window_size s.buffer) s).1)

  pub full_text-drain :
      (fuel : ℕ) (s : Stream) → (drain detect elapsed c fuel s).1.full_text ≡ s.full_text
  unfolding drain
  full_text-drain zero s = refl
  full_text-drain (suc fuel) s =
      full_text-Round fuel s (full_text-drain fuel (after_round s)) (round fuel s)
