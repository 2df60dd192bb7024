-- ===== src/Runtime/BundleManager/Trusted.antt =====
-- The bundle manager of bundle_manager.py as a state machine: its steps after the start, and what holds
-- in every state that they reach.
use znyx_runtime.Prelude.{
  Text, Bool, true, false, Option, none, some, List, [], ◌∷◌, has_text, ◌≡◌, ◌⊎◌, refl, sym, ap,
  ◌∙◌, arith, Bool-cases, inl, inr,
}
use znyx_runtime.Policy.Value.{Object}
use znyx_runtime.Policy.Bundle.{Bundle}
use znyx_runtime.Runtime.BundleManager.{
  Manager, Config, Response, unreachable, not_modified, served, Attempt, save_bundle_to_file,
  accepts,
}
use znyx_runtime.Runtime.BundleManager.Serve.{spawn_cycle, end_cycle}
use znyx_runtime.Runtime.BundleManager.Load.{
  take_bundle, read_body, if_none_match, receive, fetch_bundle, poll,
}

-- What happens after the start: a round of the poll loop, whatever the control plane answers, and the
-- end of a run of the listeners.
pub data Event : Type 0 where
  polled : Attempt → Event
  ended : Event

abbrev some_or : Option Bundle → Bundle → Bundle
some_or none c = c
some_or (some b) c = b

some_same : (a b : Bundle) → some a ≡ some b → a ≡ b
some_same a b e = ap (λ o. some_or o a) e

module _ (dumps to_text : Object → Text) (of_text : Text → Option Object) (sha256 : Text → Text)
    (verify : (pem signature payload : Text) → Bool) (config : Config) where
  unfoldable pub step : Event → Manager → Manager
  unfolding poll end_cycle
  step (polled a) m = poll dumps to_text of_text sha256 verify config a m
  step ended m = end_cycle m

  unfoldable pub run : List Event → Manager → Manager
  unfolding step
  run [] m = m
  run (e ∷ es) m = run es (step e m)

  -- A bundle that validation accepts.
  abbrev pub IsAccepted : Bundle → Type 0
  IsAccepted b = accepts dumps to_text of_text sha256 verify config b ≡ true

  -- No bundle, or an accepted one.
  abbrev pub IsTrusted : Option Bundle → Type 0
  IsTrusted none = Unit
  IsTrusted (some b) = IsAccepted b

  -- The bundle of a state after a fetch: the one it was, or one that the control plane served and
  -- validation accepted.
  abbrev pub IsFetched : Response → (old new : Option Bundle) → Type 0
  IsFetched r old new =
      (new ≡ old)
      ⊎ ((b : Bundle) × (body : Option Object) × (tag : Option Text) × (r ≡ served body tag)
          × (read_body body ≡ some b)
          × (new ≡ some b)
          × IsAccepted b)

  pub fetched-bundle :
      (a : Attempt) (b : Bundle) (tag : Option Text) (m : Manager)
      → accepts dumps to_text of_text sha256 verify config b ≡ true
      → (take_bundle dumps to_text of_text sha256 verify config a (some b) tag m).1.bundle ≡ some b
  unfolding take_bundle save_bundle_to_file
  fetched-bundle a b tag m e = rw (take_bundle, e) (ground arith)

  taken :
      (a : Attempt) (o : Option Bundle) (tag : Option Text) (m : Manager)
      → let after = (take_bundle dumps to_text of_text sha256 verify config a o tag m).1 in
        (after.bundle ≡ m.bundle)
        ⊎ ((b : Bundle) × (o ≡ some b) × (after.bundle ≡ some b) × IsAccepted b)
  unfolding take_bundle
  taken a none tag m = inl refl
  taken a (some b) tag m =
      elim (Bool-cases (accepts dumps to_text of_text sha256 verify config b)) [
        | inl e ↦ inr (b, refl, fetched-bundle a b tag m e, e)
        | inr e ↦ inl (rw (take_bundle, e) refl)
      ]

  pub receive-bundle :
      (a : Attempt) (r : Response) (m : Manager)
      → IsFetched r m.bundle (receive dumps to_text of_text sha256 verify config a r m).1.bundle
  unfolding receive
  receive-bundle a unreachable m = inl refl
  receive-bundle a not_modified m = inl refl
  receive-bundle a (served body tag) m = elim (taken a (read_body body) tag m) [
    | inl same ↦ inl same
    | inr (b, read, new, ok) ↦ inr (b, body, tag, refl, read, new, ok)
  ]

  abbrev pub HasBundle : Option Bundle → Type 0
  HasBundle o = (b : Bundle) × (o ≡ some b)

  -- The bundle is trusted, and there is one wherever there is an ETag to send.
  abbrev pub IsSound : Manager → Type 0
  IsSound m = IsTrusted m.bundle × ((has_text m.etag ≡ false) ⊎ HasBundle m.bundle)

  carried : (o p : Option Bundle) → o ≡ p → IsTrusted p → IsTrusted o
  carried o p e h = rw e h

  take_bundle-IsSound :
      (a : Attempt) (o : Option Bundle) (tag : Option Text) (m : Manager)
      → IsSound m
      → IsSound (take_bundle dumps to_text of_text sha256 verify config a o tag m).1
  unfolding take_bundle
  take_bundle-IsSound a none tag m h = h
  take_bundle-IsSound a (some b) tag m h =
      elim (Bool-cases (accepts dumps to_text of_text sha256 verify config b)) [
        | inl e ↦ let found = fetched-bundle a b tag m e in (carried _ _ found e, inr (b, found))
        | inr e ↦ rw (take_bundle, e) h
      ]

  pub receive-IsSound :
      (a : Attempt) (r : Response) (m : Manager)
      → IsSound m
      → IsSound (receive dumps to_text of_text sha256 verify config a r m).1
  unfolding receive
  receive-IsSound a unreachable m h = h
  receive-IsSound a not_modified m h = h
  receive-IsSound a (served body tag) m h = take_bundle-IsSound a (read_body body) tag m h

  pub fetch_bundle-IsSound :
      (a : Attempt) (m : Manager)
      → IsSound m
      → IsSound (fetch_bundle dumps to_text of_text sha256 verify config a m).1
  unfolding fetch_bundle
  fetch_bundle-IsSound a m h = receive-IsSound a (a.answer (if_none_match m.etag)) m h

  receive-keeps :
      (a : Attempt) (r : Response) (m : Manager)
      → HasBundle m.bundle
      → HasBundle (receive dumps to_text of_text sha256 verify config a r m).1.bundle
  receive-keeps a r m (b, e) = elim (receive-bundle a r m) [
    | inl same ↦ (b, same ∙ e)
    | inr (c, body, tag, answer, read, new, ok) ↦ (c, new)
  ]

  step-IsSound : (e : Event) (m : Manager) → IsSound m → IsSound (step e m)
  unfolding step poll spawn_cycle end_cycle
  step-IsSound (polled a) m h = fetch_bundle-IsSound a m h
  step-IsSound ended m h = h

  step-keeps : (e : Event) (m : Manager) → HasBundle m.bundle → HasBundle (step e m).bundle
  unfolding step poll spawn_cycle end_cycle fetch_bundle
  step-keeps (polled a) m h = receive-keeps a (a.answer (if_none_match m.etag)) m h
  step-keeps ended m h = h

  pub run-IsSound : (es : List Event) (m : Manager) → IsSound m → IsSound (run es m)
  unfolding run
  run-IsSound [] m h = h
  run-IsSound (e ∷ es) m h = run-IsSound es (step e m) (step-IsSound e m h)

  pub run-keeps : (es : List Event) (m : Manager) → HasBundle m.bundle → HasBundle (run es m).bundle
  unfolding run
  run-keeps [] m h = h
  run-keeps (e ∷ es) m h = run-keeps es (step e m) (step-keeps e m h)

  pub validated_there : (o : Option Bundle) (b : Bundle) → o ≡ some b → IsTrusted o → IsAccepted b
  validated_there none b e h = cc
  validated_there (some c) b e h = rw (sym (some_same c b e)) h

  -- A policy is replaced only by an accepted bundle that from_dict reads from the body that the control
  -- plane has just served; on every error, refusal or unchanged answer the round of the poll loop leaves
  -- the bundle as it was.
  pub poll-bundle :
      (a : Attempt) (m : Manager)
      → IsFetched
          (a.answer (if_none_match m.etag))
          m.bundle
          (poll dumps to_text of_text sha256 verify config a m).bundle
  unfolding poll spawn_cycle fetch_bundle
  poll-bundle a m = receive-bundle a (a.answer (if_none_match m.etag)) m
