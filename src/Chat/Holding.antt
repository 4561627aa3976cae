-- ===== src/Chat/Holding.antt =====
-- The key that a list of events holds, for executeOpenAINonStream of pkg/gateway/proxy.go.
use nvidia_api_gateway.Prelude.{
  ℕ, suc, ◌+◌, ◌≤◌, Option, none, some, List, [], ◌∷◌, ◌++◌, if◌then◌else◌, ◌≡◌, arith,
  Option-cases, inl, inr,
}
use nvidia_api_gateway.Prelude.Text.{Text, text_eq}
use nvidia_api_gateway.Chat.{
  Event, acquired, refreshed, called, released, gave_up, charged, cached, finalized, Step, finish,
  continue,
}

-- The key held after an event, if the event is allowed: a key is taken only while none is held, and
-- only the key held is used and given back.
abbrev pub hold : Event → Option Text → Option (Option Text)
hold (acquired key) none = some (some key)
hold (acquired key) (some h) = none
hold (released key) none = none
hold (released key) (some h) = if text_eq h key then some none else none
hold (called key actions) none = none
hold (called key actions) (some h) = if text_eq h key then some (some h) else none
hold (refreshed key force) h = some h
hold (gave_up key) h = some h
hold (charged tokens) h = some h
hold (cached text) h = some h
hold (finalized status) h = some h

abbrev pub held : Option Text → List Event → Option (Option Text)
held h [] = some h
held h (e ∷ rest) = elim (hold e h) [ none ↦ none | some h' ↦ held h' rest ]

-- How many keys were taken.
abbrev pub taken : List Event → ℕ
taken [] = 0
taken (acquired key ∷ rest) = suc (taken rest)
taken (e ∷ rest) = taken rest

pub held-append :
    (h : Option Text) (xs ys : List Event)
    → held h xs ≡ some none
    → held none ys ≡ some none
    → held h (xs ++ ys) ≡ some none
held-append h [] ys e f = ground arith
held-append h (x ∷ xs) ys e f = elim (Option-cases (hold x h)) [
  | inl n ↦ absurd (ground arith)
  | inr (h', s) ↦ rw (s, held) (held-append h' xs ys (ground arith) f)
]

pub taken-append : (xs ys : List Event) → taken (xs ++ ys) ≡ taken xs + taken ys
taken-append [] ys = omega arith
taken-append (x ∷ xs) ys = ground (arith, taken-append xs ys)

-- The events of a step.
abbrev pub events_of : Step → List Event
events_of (finish status body events) = events
events_of (continue message events) = events

-- Every key that is taken is given back, and at most n are taken.
abbrev pub Balanced : ℕ → List Event → Type 0
Balanced n xs = (held none xs ≡ some none) × (taken xs ≤ n)

pub Balanced-append :
    (m n : ℕ) (xs ys : List Event) → Balanced m xs → Balanced n ys → Balanced (m + n) (xs ++ ys)
Balanced-append m n xs ys b c =
    (held-append none xs ys b.0 c.0, omega (arith, taken-append xs ys, b.1, c.1))
