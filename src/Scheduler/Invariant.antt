-- ===== src/Scheduler/Invariant.antt =====
-- The shape of a scheduler's state between two calls: no key is registered twice, and each map has
-- one entry for a key.
use nvidia_api_gateway.Prelude.{
  ℕ, zero, suc, ◌-◌, ◌≡◌, refl, inl, inr, Bool, false, Option, none, some, List, [], ◌∷◌, ◌++◌, map,
  arith, Bool-cases, Option-cases, ◌||◌,
}
use nvidia_api_gateway.Prelude.Int.{ℤ}
use nvidia_api_gateway.Prelude.Text.{Text, text_eq, text_eq_sym, trim_space}
use nvidia_api_gateway.Prelude.Maps.{
  Distinct, insert, insert-Distinct, delete-Distinct, retain-Distinct,
}
use nvidia_api_gateway.Scheduler.{
  LocalKey, Scheduler, new_scheduler, reweigh, add_key, cleanup_expired, charge, has_key,
  try_acquire_specific_key, release_key, mark_cooling, reset_weight, mark_dead, reset,
  concurrency_of,
}
use nvidia_api_gateway.Scheduler.Selection.{boosted}

abbrev pub DistinctKeys : List LocalKey → Type 0
DistinctKeys [] = Unit
DistinctKeys (item ∷ items) = (has_key item.key items ≡ false) × DistinctKeys items

pub record IsValid (s : Scheduler) : Type 0 where
  pub active : DistinctKeys s.active
  pub cooling : Distinct s.cooling
  pub dead : Distinct s.dead
  pub concurrency : Distinct s.concurrency

-- Two lists of items with the same keys in the same order.
abbrev pub SameKeys : List LocalKey → List LocalKey → Type 0
SameKeys [] [] = Unit
SameKeys (a ∷ xs) (b ∷ ys) = (a.key ≡ b.key) × SameKeys xs ys
SameKeys _ _ = ⊥

has_key_same : (k : Text) (xs ys : List LocalKey) → SameKeys xs ys → has_key k ys ≡ has_key k xs
unfolding has_key
has_key_same k [] [] h = refl
has_key_same k (a ∷ xs) (b ∷ ys) h = ground (arith, has_key_same k xs ys)
has_key_same k [] (b ∷ ys) h = elim h [ ]
has_key_same k (a ∷ xs) [] h = elim h [ ]

pub DistinctKeys-same : (xs ys : List LocalKey) → SameKeys xs ys → DistinctKeys xs → DistinctKeys ys
DistinctKeys-same [] [] h d = tt
DistinctKeys-same (a ∷ xs) (b ∷ ys) h d =
    (ground (arith, has_key_same b.key xs ys h.1), DistinctKeys-same xs ys h.1 d.1)
DistinctKeys-same [] (b ∷ ys) h d = elim h [ ]
DistinctKeys-same (a ∷ xs) [] h d = elim h [ ]

SameKeys-refl : (xs : List LocalKey) → SameKeys xs xs
SameKeys-refl [] = tt
SameKeys-refl (x ∷ xs) = (refl, SameKeys-refl xs)

SameKeys-boosted : (avail : Text → Bool) (xs : List LocalKey) → SameKeys xs (map (boosted avail) xs)
SameKeys-boosted avail [] = tt
SameKeys-boosted avail (x ∷ xs) = (ground arith, SameKeys-boosted avail xs)

SameKeys-charge :
    (i : ℕ) (total : ℤ) (xs ys : List LocalKey) → SameKeys xs ys → SameKeys xs (charge i total ys)
unfolding charge
SameKeys-charge i total [] [] h = tt
SameKeys-charge zero total (x ∷ xs) (y ∷ ys) h = h
SameKeys-charge (suc i) total (x ∷ xs) (y ∷ ys) h = (h.0, SameKeys-charge i total xs ys h.1)
SameKeys-charge i total [] (y ∷ ys) h = elim h [ ]
SameKeys-charge i total (x ∷ xs) [] h = elim h [ ]

SameKeys-reset_weight : (k : Text) (xs : List LocalKey) → SameKeys xs (reset_weight k xs)
unfolding reset_weight
SameKeys-reset_weight k [] = tt
SameKeys-reset_weight k (x ∷ xs) = ground (arith, SameKeys-reset_weight k xs, SameKeys-refl xs)

-- An update that is made keeps the keys.
abbrev pub KeepsKeys : List LocalKey → Option (List LocalKey) → Type 0
KeepsKeys xs none = Unit
KeepsKeys xs (some ys) = SameKeys xs ys

KeepsKeys-reweigh : (k : Text) (w : ℤ) (xs : List LocalKey) → KeepsKeys xs (reweigh k w xs)
unfolding reweigh
KeepsKeys-reweigh k w [] = tt
KeepsKeys-reweigh k w (x ∷ xs) = elim (Bool-cases (text_eq x.key k)) [
  | inl hit ↦ rw hit (refl, SameKeys-refl xs)
  | inr miss ↦ elim (Option-cases (reweigh k w xs)) [
    | inl missing ↦ rw (miss, missing) tt
    | inr (ys, found) ↦ rw (miss, found) (refl, rw found at (KeepsKeys-reweigh k w xs))
  ]
]

pub reweigh-none :
    (k : Text) (w : ℤ) (xs : List LocalKey) → reweigh k w xs ≡ none → has_key k xs ≡ false
unfolding reweigh has_key
reweigh-none k w [] e = refl
reweigh-none k w (x ∷ xs) e = ground (arith, reweigh-none k w xs)

has_key-concat :
    (k : Text) (xs : List LocalKey) (x : LocalKey)
    → has_key k (xs ++ x ∷ []) ≡ has_key k xs || text_eq x.key k
unfolding has_key
has_key-concat k [] x = ground arith
has_key-concat k (y ∷ ys) x = ground (arith, has_key-concat k ys x)

DistinctKeys-concat :
    (xs : List LocalKey) (x : LocalKey)
    → DistinctKeys xs
    → has_key x.key xs ≡ false
    → DistinctKeys (xs ++ x ∷ [])
unfolding has_key
DistinctKeys-concat [] x d h = (refl, tt)
DistinctKeys-concat (y ∷ ys) x d h = (
  ground (arith, has_key-concat y.key ys x, text_eq_sym x.key y.key),
  DistinctKeys-concat ys x d.1 (ground arith),
)

pub new_scheduler-IsValid : IsValid new_scheduler
unfolding new_scheduler
new_scheduler-IsValid = record { active = tt; cooling = tt; dead = tt; concurrency = tt }

pub add_key-IsValid : (s : Scheduler) (k : Text) (w : ℤ) → IsValid s → IsValid (add_key s k w)
unfolding add_key
add_key-IsValid s k w v = elim (Option-cases (reweigh k w s.active)) [
  | inl missing ↦
      rw (missing, add_key)
        (record {
          active = DistinctKeys-concat s.active _ v.active (reweigh-none k w s.active missing);
          cooling = v.cooling;
          dead = v.dead;
          concurrency = v.concurrency;
        })
  | inr (ys, found) ↦
      rw (found, add_key)
        (record {
          active =
              DistinctKeys-same s.active ys (rw found at (KeepsKeys-reweigh k w s.active)) v.active;
          cooling = v.cooling;
          dead = v.dead;
          concurrency = v.concurrency;
        })
]

pub cleanup_expired-IsValid :
    (s : Scheduler) (now : ℤ) → IsValid s → IsValid (cleanup_expired s now)
unfolding cleanup_expired
cleanup_expired-IsValid s now v = record {
  active = v.active;
  cooling = retain-Distinct _ s.cooling v.cooling;
  dead = v.dead;
  concurrency = v.concurrency;
}

pub counted-IsValid :
    (s : Scheduler) (k : Text) (n : ℕ)
    → IsValid s
    → IsValid (record s { concurrency = insert k n s.concurrency })
counted-IsValid s k n v = record {
  active = v.active;
  cooling = v.cooling;
  dead = v.dead;
  concurrency = insert-Distinct k n s.concurrency v.concurrency;
}

pub try_acquire_specific_key-IsValid :
    (s : Scheduler) (now : ℤ) (k : Text) (m : ℤ)
    → IsValid s
    → IsValid (try_acquire_specific_key s now k m).0
unfolding try_acquire_specific_key
try_acquire_specific_key-IsValid s now k m v = ground (
  arith,
  v,
  cleanup_expired-IsValid s now v,
  counted-IsValid (cleanup_expired s now) (trim_space k) (suc (concurrency_of s (trim_space k)))
      (cleanup_expired-IsValid s now v),
)

pub release_key-IsValid : (s : Scheduler) (k : Text) → IsValid s → IsValid (release_key s k)
unfolding release_key
release_key-IsValid s k v = ground (arith, v, counted-IsValid s k (concurrency_of s k - 1) v)

pub mark_cooling-IsValid :
    (s : Scheduler) (now : ℤ) (k : Text) (d : ℤ) → IsValid s → IsValid (mark_cooling s now k d)
unfolding mark_cooling
mark_cooling-IsValid s now k d v = record {
  active = v.active;
  cooling = insert-Distinct k _ s.cooling v.cooling;
  dead = v.dead;
  concurrency = v.concurrency;
}

pub mark_dead-IsValid : (s : Scheduler) (k : Text) → IsValid s → IsValid (mark_dead s k)
unfolding mark_dead
mark_dead-IsValid s k v = record {
  active = DistinctKeys-same s.active _ (SameKeys-reset_weight k s.active) v.active;
  cooling = v.cooling;
  dead = insert-Distinct k tt s.dead v.dead;
  concurrency = delete-Distinct k s.concurrency v.concurrency;
}

pub reset-IsValid : (s : Scheduler) → IsValid (reset s)
unfolding reset
reset-IsValid s = record { active = tt; cooling = tt; dead = tt; concurrency = tt }
