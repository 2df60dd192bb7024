-- ===== src/RateLimit/Window.antt =====
-- `SlidingWindowCounter` of middleware/rate_limit.py, seen from one key.
use znyx_runtime.Prelude.{
  ℕ, ◌-◌, ◌≤◌, Text, eq_text, eq_text_refl, Bool, true, false, ◌&&◌, List, [], ◌∷◌, ◌++◌, ltb, leb,
  length, if◌then◌else◌, ◌≡◌, refl, sym, ap, ◌∙◌, arith, Bool-cases, inl, inr, length-append,
  append_nil, append_assoc, ltb→lt, eq_text→eq,
}
use znyx_runtime.Prelude.Dict
use znyx_runtime.RateLimit.{
  Limits, limit_of, Requests, is_live, live, or_empty, timestamps, is_allowed,
}

timestamps-insert :
    (key : Text) (ts : List ℕ) (s : Requests) → timestamps key (Dict.insert key ts s) ≡ ts
unfolding timestamps
timestamps-insert key ts s =
    ap or_empty (Dict.lookup-insert key key ts s) ∙ rw (eq_text_refl key) refl

timestamps-insert_other :
    (key other : Text) (ts : List ℕ) (s : Requests)
    → eq_text key other ≡ false
    → timestamps other (Dict.insert key ts s) ≡ timestamps other s
unfolding timestamps
timestamps-insert_other key other ts s n =
    ap or_empty (Dict.lookup-insert key other ts s) ∙ rw n refl

live-append : (now : ℕ) (ts us : List ℕ) → live now (ts ++ us) ≡ live now ts ++ live now us
unfolding live
live-append now [] us = refl
live-append now (t ∷ ts) us = elim (Bool-cases (is_live now t)) [
  | inl e ↦ rw (e, live-append now ts us) refl
  | inr e ↦ rw (e, live-append now ts us) refl
]

-- What is live later was live before.
live-live :
    (earlier now : ℕ) (ts : List ℕ) → earlier ≤ now → live now (live earlier ts) ≡ live now ts
unfolding live
live-live earlier now [] h = refl
live-live earlier now (t ∷ ts) h = elim (Bool-cases (is_live earlier t)) [
  | inl e ↦ rw (e, live-live earlier now ts h) refl
  | inr e ↦
      let gone : is_live now t ≡ false = ground (arith, h) in
      rw (e, gone, live-live earlier now ts h) refl
]

module _ (limits : Limits) where
  -- What the limiter holds for the key after a call.
  abbrev held : Text → ℕ → Requests → List ℕ
  held key now s = timestamps key (is_allowed limits key now s).1

  -- A request is allowed exactly when the key has fewer live requests than the limit; the answer
  -- reports the room that is left; and a refused request is not counted.
  pub is_allowed_lem :
      (key : Text) (now : ℕ) (s : Requests)
      → let (a, s') = is_allowed limits key now s in
        let ts = live now (timestamps key s) in
        (a.allowed ≡ ltb (length ts) (limit_of limits))
        × (timestamps key s' ≡ (if a.allowed then ts ++ now ∷ [] else ts))
        × (a.remaining ≡ limit_of limits - length (timestamps key s'))
  unfolding is_allowed
  is_allowed_lem key now s =
      let ts = live now (timestamps key s) in
      elim (Bool-cases (leb (limit_of limits) (length ts))) [
        | inl e ↦ rw (e, timestamps-insert key ts s) (ground arith)
        | inr e ↦ rw (e, timestamps-insert key (ts ++ now ∷ []) s) (ground arith)
      ]

  held_allowed :
      (key : Text) (now : ℕ) (s : Requests)
      → (is_allowed limits key now s).0.allowed ≡ true
      → timestamps key (is_allowed limits key now s).1 ≡ live now (timestamps key s) ++ now ∷ []
  held_allowed key now s a = (is_allowed_lem key now s).1 ∙ rw a refl

  held_refused :
      (key : Text) (now : ℕ) (s : Requests)
      → (is_allowed limits key now s).0.allowed ≡ false
      → timestamps key (is_allowed limits key now s).1 ≡ live now (timestamps key s)
  held_refused key now s a = (is_allowed_lem key now s).1 ∙ rw a refl

  -- A call for one key does not touch another.
  pub is_allowed-other :
      (key other : Text) (now : ℕ) (s : Requests)
      → eq_text key other ≡ false
      → timestamps other (is_allowed limits key now s).1 ≡ timestamps other s
  unfolding is_allowed
  is_allowed-other key other now s n =
      let ts = live now (timestamps key s) in
      elim (Bool-cases (leb (limit_of limits) (length ts))) [
        | inl e ↦ rw e (timestamps-insert_other key other ts s n)
        | inr e ↦ rw e (timestamps-insert_other key other (ts ++ now ∷ []) s n)
      ]

  -- The times at which a sequence of calls, for any keys, was allowed for `key`; and what is left.
  unfoldable pub serve_all : Text → List (Text × ℕ) → Requests → List ℕ × Requests
  serve_all key [] s = ([], s)
  serve_all key ((k, now) ∷ calls) s =
      let (a, s') = is_allowed limits k now s in
      let (granted, last) = serve_all key calls s' in
      (if eq_text k key && a.allowed then now ∷ granted else granted, last)

-- The clock does not run backwards, from a first moment to a last one.
unfoldable pub IsOrdered : ℕ → List (Text × ℕ) → ℕ → Type 0
IsOrdered first [] last = first ≤ last
IsOrdered first ((k, now) ∷ calls) last = (first ≤ now) × IsOrdered now calls last

before_end : (first last : ℕ) (calls : List (Text × ℕ)) → IsOrdered first calls last → first ≤ last
unfolding IsOrdered
before_end first last [] h = h
before_end first last ((k, now) ∷ calls) h = omega (arith, h.0, before_end now last calls h.1)

length-live : (now : ℕ) (ts : List ℕ) → length (live now ts) ≤ length ts
unfolding live
length-live now [] = omega arith
length-live now (t ∷ ts) = elim (Bool-cases (is_live now t)) [
  | inl e ↦ rw e (omega (arith, length-live now ts))
  | inr e ↦ rw e (omega (arith, length-live now ts))
]

together :
    (last now : ℕ) (t : Bool) (granted : List ℕ)
    → live last (if t then now ∷ [] else []) ++ live last granted
      ≡ live last (if t then now ∷ granted else granted)
unfolding live
together last now false granted = refl
together last now true granted = elim (Bool-cases (is_live last now)) [
  | inl e ↦ rw e refl
  | inr e ↦ rw e refl
]

module _ (limits : Limits) (key : Text) where
  -- A call adds its time to what is live for the key, if it is for the key and allowed.
  live-is_allowed :
      (k : Text) (now later : ℕ) (s : Requests)
      → now ≤ later
      → let (a, s') = is_allowed limits k now s in
        live later (timestamps key s')
        ≡ live later (timestamps key s)
          ++ live later (if eq_text k key && a.allowed then now ∷ [] else [])
  unfolding live
  live-is_allowed k now later s h = elim (Bool-cases (eq_text k key)) [
    | inr n ↦
        rw (n, is_allowed-other limits k key now s n)
          (sym (append_nil (live later (timestamps key s))))
    | inl y ↦
        let ts = timestamps key s in
        rw (y, eq_text→eq k key y)
          (elim (Bool-cases (is_allowed limits key now s).0.allowed) [
            | inl a ↦
                ap (live later) (held_allowed limits key now s a)
                ∙ (live-append later (live now ts) (now ∷ [])
                    ∙ rw (a, live-live now later ts h) refl)
            | inr a ↦
                ap (live later) (held_refused limits key now s a)
                ∙ rw (a, live-live now later ts h) (sym (append_nil (live later ts)))
          ])
  ]

  bounded-is_allowed :
      (k : Text) (now : ℕ) (s : Requests)
      → length (timestamps key s) ≤ limit_of limits
      → length (timestamps key (is_allowed limits k now s).1) ≤ limit_of limits
  bounded-is_allowed k now s h = elim (Bool-cases (eq_text k key)) [
    | inr n ↦ rw (is_allowed-other limits k key now s n) h
    | inl y ↦
        let lem = is_allowed_lem limits key now s in
        let shorter = length-live now (timestamps key s) in
        let longer = length-append (live now (timestamps key s)) (now ∷ []) in
        rw (eq_text→eq k key y) (elim (Bool-cases (is_allowed limits key now s).0.allowed) [
          | inl a ↦
              let room =
                ltb→lt (length (live now (timestamps key s))) (limit_of limits) (sym lem.0 ∙ a) in
              rw (held_allowed limits key now s a) (omega (arith, longer, room))
          | inr a ↦ rw (held_refused limits key now s a) (omega (arith, shorter, h))
        ])
  ]

  -- What is live at the end: what was live for the key, and the calls that were allowed since.
  live-serve_all :
      (calls : List (Text × ℕ)) (s : Requests) (first last : ℕ)
      → IsOrdered first calls last
      → let (granted, end) = serve_all limits key calls s in
        (live last (timestamps key end) ≡ live last (timestamps key s) ++ live last granted)
        × (length (timestamps key s) ≤ limit_of limits
            → length (timestamps key end) ≤ limit_of limits)
  unfolding serve_all live IsOrdered
  live-serve_all [] s first last h = (sym (append_nil (live last (timestamps key s))), λ b. b)
  live-serve_all ((k, now) ∷ calls) s first last h =
      let (a, s') = is_allowed limits k now s in
      let one = live-is_allowed k now last s (before_end now last calls h.1) in
      let (all, bound) = live-serve_all calls s' now last h.1 in
      let granted = (serve_all limits key calls s').0 in
      (
        all
            ∙ (ap (λ x. x ++ live last granted) one
                ∙ (append_assoc (live last (timestamps key s))
                      (live last (if eq_text k key && a.allowed then now ∷ [] else []))
                      (live last granted)
                    ∙ ap (λ x. live last (timestamps key s) ++ x)
                        (together last now (eq_text k key && a.allowed) granted))),
        λ b. bound (bounded-is_allowed k now s b),
      )

  -- From an empty limiter, and however calls for this and for other keys are interleaved, if the
  -- clock does not run backwards then at any moment from the last call on at most
  -- `requests_per_minute + burst` of the requests allowed for the key lie within the last minute.
  pub granted-serve_all :
      (calls : List (Text × ℕ)) (last : ℕ)
      → IsOrdered 0 calls last
      → length (live last (serve_all limits key calls []).0) ≤ limit_of limits
  unfolding timestamps live serve_all Dict.lookup
  granted-serve_all calls last h =
      let (all, bound) = live-serve_all calls [] 0 last h in
      let end = timestamps key (serve_all limits key calls []).1 in
      let same : length (live last (serve_all limits key calls []).0) ≡ length (live last end) =
        ap (λ (x : List ℕ). length x) (sym all) in
      omega (arith, same, length-live last end, bound (omega arith))
