-- ===== src/Engine/Streaming/Delivery.antt =====
-- A whole stream of engine/streaming.py, as its consumer sees it.
use znyx_runtime.Prelude.{
  ℕ, suc, ◌≤◌, ℤ, pos, Text, true, false, false≢true, not, ◌&&◌, List, [], ◌∷◌, ◌++◌, leb, length,
  if◌then◌else◌, ◌≡◌, refl, sym, ap, ◌∙◌, ◌⊎◌, Bool, subst, arith, Bool-cases, append_assoc,
  append_nil, List-cases, inl, inr, le→leb,
}
use znyx_runtime.Core.Models.{DetectorResult}
use znyx_runtime.Engine.Streaming.{
  Config, configure, advance, Event, done, Stream, fresh, is_block, verdict, evaluate_window,
  release, push, push_all, flush_tail, flush, event_generator, drain, summary,
}
use znyx_runtime.Engine.Streaming.Release.{
  chunk_texts, release_text, chunk_texts-append, evaluate_window_keeps, blocked-evaluate_window,
  IsSound, Cleared, nothing, more, advance_le_window, advance_bounds, take_all,
}
use znyx_runtime.Engine.Streaming.Drain.{
  drain-IsSound, released-drain, full_text-drain, IsDrained, drain-IsDrained,
}

abbrev pub concat : List Text → Text
concat [] = []
concat (t ∷ ts) = t ++ concat ts

whole_or_blocked : {A : Type 0} (b : Bool) → (b ≡ false → A) → (b ≡ true) ⊎ A
whole_or_blocked true f = inl refl
whole_or_blocked false f = inr (f refl)

module _ (detect : Text → List DetectorResult) (elapsed : ℕ → ℕ) where
  abbrev received : Text → Stream → Stream
  received text s = record s {
    buffer = s.buffer ++ text;
    full_text = s.full_text ++ text;
    chunk_count = suc s.chunk_count;
  }

  push-open :
      (c : Config) (text : Text) (s : Stream)
      → s.blocked ≡ false
      → push detect elapsed c text s
        ≡ drain detect elapsed c (length (s.buffer ++ text)) (received text s)
  unfolding push
  push-open c text s e = rw e refl

  blocked-push :
      (c : Config) (text : Text) (s : Stream)
      → s.blocked ≡ true
      → (push detect elapsed c text s).1.blocked ≡ true
  unfolding push
  blocked-push c text s e = rw e refl

  -- After a push, a stream is blocked or has less than a window in its buffer.
  pub push-IsDrained :
      (w o : ℤ) (text : Text) (s : Stream)
      → IsDrained detect elapsed (configure w o) (push detect elapsed (configure w o) text s).1
  push-IsDrained w o text s =
      let (a, b) = advance_bounds w o in
      elim (Bool-cases s.blocked) [
        | inl e ↦ inl (blocked-push (configure w o) text s e)
        | inr e ↦ rw (push-open (configure w o) text s e) (
            drain-IsDrained detect elapsed (configure w o) (length (s.buffer ++ text))
              (received text s) (omega (arith, b)) (omega (arith, a)) (omega arith))
      ]

  -- What a part of the run does to the stream that it starts from, `more_text` being pushed.
  record Delivers (s : Stream) (more_text : Text) (d : List Event × Stream) : Type 0 where
    pub sound : IsSound detect elapsed d.1
    pub emitted : d.1.released ≡ s.released ++ chunk_texts d.0
    pub rest : Text
    pub within : d.1.full_text ++ rest ≡ s.full_text ++ more_text
    pub whole : d.1.blocked ≡ false → d.1.full_text ≡ s.full_text ++ more_text

  push-Delivers :
      (c : Config) (text : Text) (s : Stream)
      → advance c ≤ c.window_size
      → s.blocked ≡ false
      → IsSound detect elapsed s
      → Delivers s text (push detect elapsed c text s)
  push-Delivers c text s le open' h =
      let s' = received text s in
      let h' : IsSound detect elapsed s' = record {
        accounted = ap (λ x. x ++ text) h.accounted ∙ append_assoc s.released s.buffer text;
        cleared = h.cleared;
      } in
      let f = full_text-drain detect elapsed c (length s'.buffer) s' in
      rw (push-open c text s open') (record {
        sound = drain-IsSound detect elapsed c (length s'.buffer) s' le h';
        emitted = released-drain detect elapsed c (length s'.buffer) s';
        rest = [];
        within = append_nil _ ∙ f;
        whole = λ x. f;
      })

  push_all-Delivers :
      (c : Config) (chunks : List Text) (s : Stream)
      → advance c ≤ c.window_size
      → s.blocked ≡ false
      → IsSound detect elapsed s
      → Delivers s (concat chunks) (push_all detect elapsed c chunks s)
  unfolding push_all chunk_texts
  push_all-Delivers c [] s le o h = record {
    sound = h;
    emitted = sym (append_nil s.released);
    rest = [];
    within = append_nil s.full_text ∙ sym (append_nil s.full_text);
    whole = λ x. sym (append_nil s.full_text);
  }
  push_all-Delivers c (text ∷ chunks) s le o h =
      let d = push detect elapsed c text s in
      let p = push-Delivers c text s le o h in
      elim (Bool-cases d.1.blocked) [
        | inl b ↦ rw b (record {
          sound = p.sound;
          emitted = p.emitted;
          rest = p.rest ++ concat chunks;
          within =
              sym (append_assoc d.1.full_text p.rest (concat chunks))
              ∙ (ap (λ x. x ++ concat chunks) p.within
                  ∙ append_assoc s.full_text text (concat chunks));
          whole = λ x. absurd (false≢true (sym x ∙ b));
        })
        | inr b ↦
            let q = push_all-Delivers c chunks d.1 le b p.sound in
            let joined =
              ap (λ x. x ++ concat chunks) (p.whole b)
              ∙ append_assoc s.full_text text (concat chunks) in
            rw b (record {
              sound = q.sound;
              emitted =
                  q.emitted
                  ∙ (ap (λ x. x ++ chunk_texts (push_all detect elapsed c chunks d.1).0) p.emitted
                      ∙ (append_assoc s.released (chunk_texts d.0)
                            (chunk_texts (push_all detect elapsed c chunks d.1).0)
                          ∙ ap (λ x. s.released ++ x)
                              (sym (
                                chunk_texts-append d.0 (push_all detect elapsed c chunks d.1).0))));
              rest = q.rest;
              within = q.within ∙ joined;
              whole = λ x. q.whole x ∙ joined;
            })
      ]

  -- What `flush` does to a sound stream.
  record Finishes (s : Stream) (d : List Event × Stream) : Type 0 where
    pub emitted : d.1.released ≡ s.released ++ chunk_texts d.0
    pub cleared : Cleared detect elapsed d.1.released
    pub rest : Text
    pub within : d.1.released ++ rest ≡ s.full_text
    pub whole : d.1.blocked ≡ false → d.1.released ≡ s.full_text
    pub opened : d.1.blocked ≡ false → s.blocked ≡ false

  nothing_left :
      (s : Stream)
      → (leb 1 (length s.buffer) && not s.blocked) ≡ false
      → s.blocked ≡ false
      → s.buffer ≡ []
  nothing_left s h b = elim (List-cases s.buffer) [
    | inl e ↦ e
    | inr (x, xs, e) ↦
        absurd (false≢true (sym h ∙ rw (e, b) (rw (le→leb 1 (suc (length xs)) (omega arith)) refl)))
  ]

  still_open : (s : Stream) → (leb 1 (length s.buffer) && not s.blocked) ≡ true → s.blocked ≡ false
  still_open s h = ground arith

  flush_tail-Finishes :
      (s : Stream) → IsSound detect elapsed s → Finishes s (flush_tail detect elapsed s)
  unfolding flush_tail chunk_texts release
  flush_tail-Finishes s h =
      let verdict_event = (evaluate_window detect elapsed s.buffer (record s { buffer = [] })).0 in
      let evaluated = (evaluate_window detect elapsed s.buffer (record s { buffer = [] })).1 in
      let k = evaluate_window_keeps detect elapsed s.buffer (record s { buffer = [] }) in
      elim (Bool-cases (leb 1 (length s.buffer) && not s.blocked)) [
        | inr n ↦ rw n (record {
          emitted = sym (append_nil s.released);
          cleared = h.cleared;
          rest = s.buffer;
          within = sym h.accounted;
          whole = λ b.
              sym (append_nil s.released)
              ∙ (ap (λ x. s.released ++ x) (sym (nothing_left s n b)) ∙ sym h.accounted);
          opened = λ b. b;
        })
        | inl y ↦ elim (Bool-cases evaluated.blocked) [
          | inl b ↦
              rw (y, b)
                (record {
                  emitted =
                      k.2 ∙ (sym (append_nil s.released) ∙ ap (λ x. s.released ++ x) (sym k.3));
                  cleared = subst (Cleared detect elapsed) (sym k.2) h.cleared;
                  rest = s.buffer;
                  within = ap (λ x. x ++ s.buffer) k.2 ∙ sym h.accounted;
                  whole = λ x. absurd (false≢true (sym x ∙ b));
                  opened = λ x. still_open s y;
                })
          | inr b ↦
              rw (y, b)
                (record {
                  emitted =
                      ap (λ x. x ++ s.buffer) k.2
                      ∙ ap (λ x. s.released ++ x)
                          (sym (release_text verdict_event s.buffer evaluated k.3));
                  cleared =
                      subst (Cleared detect elapsed)
                        (ap (λ x. s.released ++ x) (take_all s.buffer)
                          ∙ ap (λ x. x ++ s.buffer) (sym k.2))
                        (more s.released s.buffer (length s.buffer) h.cleared (
                          sym (
                            blocked-evaluate_window detect elapsed s.buffer
                              (record s { buffer = [] }) (still_open s y))
                          ∙ b));
                  rest = [];
                  within = append_nil _ ∙ (ap (λ x. x ++ s.buffer) k.2 ∙ sym h.accounted);
                  whole = λ x. ap (λ x. x ++ s.buffer) k.2 ∙ sym h.accounted;
                  opened = λ x. still_open s y;
                })
        ]
      ]

  fresh-IsSound : IsSound detect elapsed fresh
  unfolding fresh
  fresh-IsSound = record { accounted = refl; cleared = nothing }

  -- What a run of the whole stream shows of its chunks.
  pub record IsFaithful (chunks : List Text) (d : List Event × Stream) : Type 0 where
    pub cleared : Cleared detect elapsed (chunk_texts d.0)
    pub withheld : Text
    pub within : chunk_texts d.0 ++ withheld ≡ concat chunks
    pub whole : (d.1.blocked ≡ true) ⊎ (chunk_texts d.0 ≡ concat chunks)

  generated : List Event × Stream → List Event × Stream → List Event × Stream
  generated p f = (p.0 ++ (f.0 ++ done (summary detect elapsed f.1) ∷ []), f.1)

  generated-IsFaithful :
      (chunks : List Text) (p f : List Event × Stream)
      → Delivers fresh (concat chunks) p
      → Finishes p.1 f
      → IsFaithful chunks (generated p f)
  unfolding fresh chunk_texts generated
  generated-IsFaithful chunks p f dp ff =
      let end = done (summary detect elapsed f.1) ∷ [] in
      let shown : chunk_texts (p.0 ++ (f.0 ++ end)) ≡ f.1.released =
        chunk_texts-append p.0 (f.0 ++ end)
        ∙ (rw (chunk_texts-append f.0 end)
              (ap (λ x. chunk_texts p.0 ++ x) (append_nil (chunk_texts f.0)))
            ∙ (ap (λ x. x ++ chunk_texts f.0) (sym dp.emitted) ∙ sym ff.emitted)) in
      record {
        cleared = subst (Cleared detect elapsed) (sym shown) ff.cleared;
        withheld = ff.rest ++ dp.rest;
        within =
            ap (λ x. x ++ (ff.rest ++ dp.rest)) shown
            ∙ (sym (append_assoc f.1.released ff.rest dp.rest)
                ∙ (ap (λ x. x ++ dp.rest) ff.within ∙ dp.within));
        whole = whole_or_blocked f.1.blocked (λ b. shown ∙ (ff.whole b ∙ dp.whole (ff.opened b)));
      }

  -- With an overlap that is not negative, the text of the `chunk` events of a whole stream is put
  -- together from beginnings of windows that were evaluated and not blocked; it is a beginning of
  -- the text that was pushed; and it is all of it unless the stream ends blocked.
  pub event_generator-IsFaithful :
      (w : ℤ) (o : ℕ) (chunks : List Text)
      → IsFaithful chunks (event_generator detect elapsed (configure w (pos o)) chunks)
  unfolding event_generator flush generated fresh
  event_generator-IsFaithful w o chunks =
      let c = configure w (pos o) in
      let p = push_all-Delivers c chunks fresh (advance_le_window w o) refl fresh-IsSound in
      generated-IsFaithful chunks (push_all detect elapsed c chunks fresh)
        (flush_tail detect elapsed (push_all detect elapsed c chunks fresh).1) p
        (flush_tail-Finishes (push_all detect elapsed c chunks fresh).1 p.sound)

  -- The `chunk` events of the last window of a stream that is not blocked carry its text as it is
  -- unless the verdict is to block: a verdict to redact or to warn releases the text unchanged.
  pub chunk_texts-flush_tail :
      (s : Stream)
      → s.blocked ≡ false
      → chunk_texts (flush_tail detect elapsed s).0
        ≡ (if is_block (verdict detect elapsed s.buffer) then [] else s.buffer)
  unfolding flush_tail chunk_texts
  chunk_texts-flush_tail s open' =
      let v = blocked-evaluate_window detect elapsed s.buffer (record s { buffer = [] }) open' in
      elim (Bool-cases (leb 1 (length s.buffer) && not s.blocked)) [
        | inr n ↦ elim (Bool-cases (is_block (verdict detect elapsed s.buffer))) [
          | inl b ↦ rw (n, b) refl
          | inr b ↦ rw (n, b) (sym (nothing_left s n open'))
        ]
        | inl y ↦ elim (Bool-cases (is_block (verdict detect elapsed s.buffer))) [
          | inl b ↦ rw (y, v ∙ b, b) refl
          | inr b ↦ rw (y, v ∙ b, b) (append_nil s.buffer)
        ]
      ]
