-- ===== src/Inference/Batching/Tickets.antt =====
-- The waiters of the batch processor of batching.py, and the items that belong to them.
use znyx_runtime.Prelude.{
  ℕ, zero, suc, Text, Option, none, some, List, [], ◌∷◌, ◌++◌, length, ◌≡◌, refl, ap, ◌∙◌,
  Bool-cases, inl, inr,
}
use znyx_runtime.Inference.Batching.{Future, Waiter, Item, settle, settle_at, waiter_at, is_done}

module _ {Out : Type 0} where
  -- The item belongs to the waiter at its ticket: that one has the same text.
  abbrev pub IsOwn : List (Waiter Out) → Item → Type 0
  IsOwn ws item = (w : Waiter Out) × (waiter_at item.ticket ws ≡ some w) × (w.text ≡ item.text)

  abbrev pub AllOwn : List (Waiter Out) → List Item → Type 0
  AllOwn ws [] = Unit
  AllOwn ws (item ∷ items) = IsOwn ws item × AllOwn ws items

  settle_text : (x : Future Out) (w : Waiter Out) → (settle x w).text ≡ w.text
  settle_text x w = elim (Bool-cases (is_done w.future)) [ inl e ↦ rw e refl | inr e ↦ rw e refl ]

  abbrev pub text_or : Waiter Out → Option (Waiter Out) → Text
  text_or w none = w.text
  text_or w (some u) = u.text

  pub waiter_at-settle_at :
      (i j : ℕ) (x : Future Out) (ws : List (Waiter Out)) (w : Waiter Out)
      → waiter_at j ws ≡ some w
      → (v : Waiter Out) × (waiter_at j (settle_at i x ws) ≡ some v) × (v.text ≡ w.text)
  unfolding waiter_at settle_at
  waiter_at-settle_at i j x [] w e = (w, e, refl)
  waiter_at-settle_at zero zero x (u ∷ ws) w e =
      (settle x u, refl, settle_text x u ∙ ap (text_or w) e)
  waiter_at-settle_at zero (suc j) x (u ∷ ws) w e = (w, e, refl)
  waiter_at-settle_at (suc i) zero x (u ∷ ws) w e = (w, e, refl)
  waiter_at-settle_at (suc i) (suc j) x (u ∷ ws) w e = waiter_at-settle_at i j x ws w e

  pub settle_at-AllOwn :
      (i : ℕ) (x : Future Out) (ws : List (Waiter Out)) (items : List Item)
      → AllOwn ws items
      → AllOwn (settle_at i x ws) items
  settle_at-AllOwn i x ws [] h = tt
  settle_at-AllOwn i x ws (item ∷ items) ((w, e, t), h) =
      let (v, e', t') = waiter_at-settle_at i item.ticket x ws w e in
      ((v, e', t' ∙ t), settle_at-AllOwn i x ws items h)

  pub waiter_at-append :
      (j : ℕ) (ws : List (Waiter Out)) (w u : Waiter Out)
      → waiter_at j ws ≡ some w
      → waiter_at j (ws ++ u ∷ []) ≡ some w
  unfolding waiter_at
  waiter_at-append j [] w u e = cc
  waiter_at-append zero (v ∷ ws) w u e = e
  waiter_at-append (suc j) (v ∷ ws) w u e = waiter_at-append j ws w u e

  pub waiter_at_last :
      (ws : List (Waiter Out)) (u : Waiter Out) → waiter_at (length ws) (ws ++ u ∷ []) ≡ some u
  unfolding waiter_at
  waiter_at_last [] u = refl
  waiter_at_last (w ∷ ws) u = waiter_at_last ws u

  pub append-AllOwn :
      (ws : List (Waiter Out)) (u : Waiter Out) (items : List Item)
      → AllOwn ws items
      → AllOwn (ws ++ u ∷ []) items
  append-AllOwn ws u [] h = tt
  append-AllOwn ws u (item ∷ items) ((w, e, t), h) =
      ((w, waiter_at-append item.ticket ws w u e, t), append-AllOwn ws u items h)

  pub snoc-AllOwn :
      (ws : List (Waiter Out)) (items : List Item) (item : Item)
      → AllOwn ws items
      → IsOwn ws item
      → AllOwn ws (items ++ item ∷ [])
  snoc-AllOwn ws [] item h o = (o, tt)
  snoc-AllOwn ws (i ∷ items) item h o = (h.0, snoc-AllOwn ws items item h.1 o)
