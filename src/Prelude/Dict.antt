-- ===== src/Prelude/Dict.antt =====
-- A Python dict keyed by texts, in insertion order.
use mathlib.Core.Path.{◌≡◌, refl}
use mathlib.Core.Bool.{false}
use mathlib.Core.Option.{Option, none, some}
use mathlib.Core.List.{List, [], ◌∷◌}
use native.Mathlib.Omega.{arith}
use mathlib.Core.Path.{sym, ◌∙◌}
use mathlib.Core.Logic.{inl, inr}
use znyx_runtime.Prelude.Tests.{if◌then◌else◌, Bool-cases}
use znyx_runtime.Prelude.Texts.{Text, eq_text, eq_text_refl, eq_text→eq}

abbrev pub Dict {ℓ} : Type ℓ → Type ℓ
Dict V = List (Text × V)

module _ {ℓ} {V : Type ℓ} where
  -- `d.get(k)`
  unfoldable pub lookup : Text → Dict V → Option V
  lookup k [] = none
  lookup k ((j, v) ∷ d) = if eq_text j k then some v else lookup k d

  -- `d[k] = v`
  unfoldable pub insert : Text → V → Dict V → Dict V
  insert k v [] = (k, v) ∷ []
  insert k v ((j, w) ∷ d) = if eq_text j k then (j, v) ∷ d else (j, w) ∷ insert k v d

  -- `del d[k]`
  unfoldable pub erase : Text → Dict V → Dict V
  erase k [] = []
  erase k ((j, w) ∷ d) = if eq_text j k then d else (j, w) ∷ erase k d

  pub lookup-insert :
      (k j : Text) (v : V) (d : Dict V)
      → lookup j (insert k v d) ≡ (if eq_text k j then some v else lookup j d)
  unfolding lookup insert
  lookup-insert k j v [] = refl
  lookup-insert k j v ((i, w) ∷ d) = ground (
    arith,
    eq_text→eq k j,
    eq_text→eq i k,
    eq_text→eq i j,
    eq_text_refl k,
    eq_text_refl i,
    eq_text_refl j,
    lookup-insert k j v d,
  )

module _ {V : Type 0} where
  -- No key stands twice.
  unfoldable pub IsDict : Dict V → Type 0
  IsDict [] = Unit
  IsDict ((k, v) ∷ d) = (lookup k d ≡ none) × IsDict d

  pub insert-IsDict : (k : Text) (v : V) (d : Dict V) → IsDict d → IsDict (insert k v d)
  unfolding IsDict insert lookup
  insert-IsDict k v [] h = (refl, tt)
  insert-IsDict k v ((j, w) ∷ d) h = elim (Bool-cases (eq_text j k)) [
    | inl e ↦ rw e h
    | inr e ↦ rw e (
      lookup-insert k j v d ∙ ground (arith, e, eq_text→eq k j, eq_text_refl j, h.0),
      insert-IsDict k v d h.1,
    )
  ]

  pub lookup-erase_same : (k : Text) (d : Dict V) → IsDict d → lookup k (erase k d) ≡ none
  unfolding IsDict lookup erase
  lookup-erase_same k [] h = refl
  lookup-erase_same k ((j, w) ∷ d) h = elim (Bool-cases (eq_text j k)) [
    | inl e ↦ rw (e, sym (eq_text→eq j k e)) h.0
    | inr e ↦ rw e (rw e (lookup-erase_same k d h.1))
  ]

  pub lookup-erase_other :
      (k j : Text) (d : Dict V) → eq_text k j ≡ false → lookup j (erase k d) ≡ lookup j d
  unfolding lookup erase
  lookup-erase_other k j [] n = refl
  lookup-erase_other k j ((i, w) ∷ d) n =
      ground (arith, n, eq_text→eq i k, eq_text→eq i j, eq_text_refl j, lookup-erase_other k j d n)

  pub erase-IsDict : (k : Text) (d : Dict V) → IsDict d → IsDict (erase k d)
  unfolding IsDict erase
  erase-IsDict k [] h = tt
  erase-IsDict k ((j, w) ∷ d) h = elim (Bool-cases (eq_text j k)) [
    | inl e ↦ rw e h.1
    | inr e ↦ rw e (
      lookup-erase_other k j d (ground (arith, e, eq_text→eq k j, eq_text_refl j)) ∙ h.0,
      erase-IsDict k d h.1,
    )
  ]
