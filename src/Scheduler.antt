-- ===== src/Scheduler.antt =====
-- The key scheduler without a Redis client (pkg/scheduler/redis.go, the branches under
-- `s.client == nil`). Every method takes the mutex for its whole body, so a method is one step from
-- a state to a state. An instant is a signed number of nanoseconds since the epoch. A weight is a
-- whole number of some unit: the program's float64 sums of such numbers are exact. A map without a
-- key reads as 0 where the source reads it so. The methods' errors are always nil on these branches.
pub mod Selection
pub mod Invariant
pub mod Acquire
mod Trace
pub mod Limits
pub mod Lifecycle
mod Weights
mod Fairness
mod Rounds
mod Shares
mod Tests
use nvidia_api_gateway.Prelude.{
  ℕ, zero, suc, ◌+◌, ◌-◌, ◌/◌, Bool, true, false, not, ◌&&◌, ◌||◌, Option, none, some, List, [],
  ◌∷◌, ◌++◌, ltb, leb, if◌then◌else◌, length, get_elem?,
}
use nvidia_api_gateway.Prelude.Int.{ℤ, pos, negsuc, ◌+ℤ◌, ◌-ℤ◌, ltb_ℤ, leb_ℤ}
use nvidia_api_gateway.Prelude.Text.{Text, text_eq, trim_space}
use nvidia_api_gateway.Prelude.Maps.{lookup, insert, delete, retain}

pub record LocalKey : Type 0 where
  pub key : Text
  pub weight : ℤ
  pub current_weight : ℤ

pub record Scheduler : Type 0 where
  pub active : List LocalKey
  pub cooling : List (Text × ℤ)
  pub dead : List (Text × Unit {0})
  pub concurrency : List (Text × ℕ)

pub record Stats : Type 0 where
  pub active : ℕ
  pub cooling : ℕ
  pub dead : ℕ

-- Time.Unix: whole seconds, rounded down.
unfoldable pub unix : ℤ → ℤ
unix (pos n) = pos (n / 1_000_000_000)
unix (negsuc n) = negsuc (n / 1_000_000_000)

unfoldable pub new_scheduler : Scheduler
new_scheduler = record { active = []; cooling = []; dead = []; concurrency = [] }

-- The loop of AddKey: the weight of the first entry with the key, or none if there is no such entry.
unfoldable pub reweigh : Text → ℤ → List LocalKey → Option (List LocalKey)
reweigh key weight [] = none
reweigh key weight (item ∷ items) =
    let rest = reweigh key weight items in
    if text_eq item.key key
    then some (record item { weight = weight } ∷ items)
    else elim rest [ none ↦ none | some items' ↦ some (item ∷ items') ]

unfoldable pub add_key : Scheduler → Text → ℤ → Scheduler
unfolding reweigh
add_key s key weight = elim (reweigh key weight s.active) [
  | some items ↦ record s { active = items }
  | none ↦ record s {
    active = s.active ++ record { key = key; weight = weight; current_weight = pos 0 } ∷ [];
  }
]

-- `until >= now` keeps an entry, `until < now` deletes it.
unfoldable pub cleanup_expired : Scheduler → ℤ → Scheduler
cleanup_expired s now = record s { cooling = retain (λ until. leb_ℤ (unix now) until) s.cooling }

abbrev pub or_zero : Option ℕ → ℕ
or_zero none = 0
or_zero (some n) = n

abbrev pub is_some {ℓ} : {A : Type ℓ} → Option A → Bool
is_some none = false
is_some (some _) = true

abbrev pub concurrency_of : Scheduler → Text → ℕ
concurrency_of s key = or_zero (lookup key s.concurrency)

abbrev pub is_dead : Scheduler → Text → Bool
is_dead s key = is_some (lookup key s.dead)

abbrev pub cools : ℤ → Option ℤ → Bool
cools now none = false
cools now (some until) = leb_ℤ now until

-- The three `continue` tests of the loop, at `now` in seconds.
unfoldable pub available : Scheduler → ℤ → ℤ → Text → Bool
available s now max_concurrency key =
    if is_dead s key
    then false
    else if cools now (lookup key s.cooling)
    then false
    else ltb_ℤ (pos (concurrency_of s key)) max_concurrency

-- The variables of the loop of AcquireKey; `selected` is none for the index -1.
pub record Scan : Type 0 where
  pub selected : Option ℕ
  pub selected_weight : ℤ
  pub total_weight : ℤ

abbrev pub boost : LocalKey → LocalKey
boost item = record item { current_weight = item.current_weight +ℤ item.weight }

abbrev pub takes_over : Scan → ℤ → Bool
takes_over acc weight = elim acc.selected [
  | none ↦ true
  | some _ ↦ ltb_ℤ acc.selected_weight weight
]

-- One round that is not skipped, after the item has gained its weight.
unfoldable pub note : ℕ → LocalKey → Scan → Scan
note i item acc =
    let total = acc.total_weight +ℤ item.weight in
    if takes_over acc item.current_weight
    then record { selected = some i; selected_weight = item.current_weight; total_weight = total }
    else record acc { total_weight = total }

unfoldable pub scan : (Text → Bool) → ℕ → List LocalKey → Scan → List LocalKey × Scan
unfolding note
scan avail i [] acc = ([], acc)
scan avail i (item ∷ items) acc =
    let usable = avail item.key in
    let item' = if usable then boost item else item in
    let rest = scan avail (suc i) items (if usable then note i item' acc else acc) in
    (item' ∷ rest.0, rest.1)

-- s.active[i].currentWeight -= total
unfoldable pub charge : ℕ → ℤ → List LocalKey → List LocalKey
charge i total [] = []
charge zero total (item ∷ items) =
    record item { current_weight = item.current_weight -ℤ total } ∷ items
charge (suc i) total (item ∷ items) = item ∷ charge i total items

abbrev pub no_selection : Scan
no_selection = record { selected = none; selected_weight = pos 0; total_weight = pos 0 }

-- The lines after the loop. An index out of range, a panic in the source, is `none`.
unfoldable pub settle : Scheduler → List LocalKey → Scan → Option (Scheduler × Text)
unfolding charge
settle s items acc = elim acc.selected [
  | none ↦ some (record s { active = items }, [])
  | some i ↦ elim (get_elem? items i) [
    | none ↦ none
    | some item ↦ some (
      record s {
        active = charge i acc.total_weight items;
        concurrency = insert item.key (suc (concurrency_of s item.key)) s.concurrency;
      },
      item.key,
    )
  ]
]

-- The empty text is the answer that no key can be had.
unfoldable pub acquire_key : Scheduler → ℤ → ℤ → Option (Scheduler × Text)
unfolding available scan settle cleanup_expired
acquire_key s now max_concurrency =
    let cleaned = cleanup_expired s now in
    let (items, fin) =
      scan (available cleaned (unix now) max_concurrency) 0 cleaned.active no_selection in
    settle cleaned items fin

unfoldable pub has_key : Text → List LocalKey → Bool
has_key key [] = false
has_key key (item ∷ items) = text_eq item.key key || has_key key items

unfoldable pub try_acquire_specific_key : Scheduler → ℤ → Text → ℤ → Scheduler × Bool
unfolding available has_key cleanup_expired
try_acquire_specific_key s now raw_key max_concurrency =
    let key = trim_space raw_key in
    let limit = if leb_ℤ max_concurrency (pos 0) then pos 1 else max_concurrency in
    let cleaned = cleanup_expired s now in
    if text_eq key []
    then (s, false)
    else if not (has_key key cleaned.active)
    then (cleaned, false)
    else if available cleaned (unix now) limit key
    then (
      record cleaned { concurrency = insert key (suc (concurrency_of s key)) s.concurrency },
      true,
    )
    else (cleaned, false)

unfoldable pub release_key : Scheduler → Text → Scheduler
release_key s key =
    if text_eq key []
    then s
    else if ltb 0 (concurrency_of s key)
    then record s { concurrency = insert key (concurrency_of s key - 1) s.concurrency }
    else s

unfoldable pub mark_cooling : Scheduler → ℤ → Text → ℤ → Scheduler
mark_cooling s now key duration = record s {
  cooling = insert key (unix (now +ℤ duration)) s.cooling;
}

-- The loop of MarkDead, with its break.
unfoldable pub reset_weight : Text → List LocalKey → List LocalKey
reset_weight key [] = []
reset_weight key (item ∷ items) =
    let rest = reset_weight key items in
    if text_eq item.key key then record item { current_weight = pos 0 } ∷ items else item ∷ rest

unfoldable pub mark_dead : Scheduler → Text → Scheduler
unfolding reset_weight
mark_dead s key = record s {
  dead = insert key tt s.dead;
  active = reset_weight key s.active;
  concurrency = delete key s.concurrency;
}

unfoldable pub reset : Scheduler → Scheduler
reset s = record { active = []; cooling = []; dead = []; concurrency = [] }

unfoldable pub count_cooling : ℤ → List (Text × ℤ) → ℕ
count_cooling now [] = 0
count_cooling now ((key, until) ∷ m) =
    let rest = count_cooling now m in if leb_ℤ now until then suc rest else rest

unfoldable pub stats : Scheduler → ℤ → Stats
unfolding count_cooling
stats s now = record {
  active = length s.active;
  cooling = count_cooling (unix now) s.cooling;
  dead = length s.dead;
}
