-- ===== src/Scheduler/Rounds.antt =====
-- A client that asks for a key and gives it back before it asks again, over and over: how often each
-- key is answered.
use mathlib.Core.Path.{subst}
use nvidia_api_gateway.Prelude.{
  ℕ, suc, ◌<◌, ◌≡◌, ◌≢◌, refl, sym, ap, ◌∙◌, Bool, true, false, Option, none, some, List, [], ◌∷◌,
  map, arith, if◌then◌else◌, get_elem?,
}
use nvidia_api_gateway.Prelude.Int.{ℤ, pos, ◌+ℤ◌, ◌≤ℤ◌, pos_part}
use nvidia_api_gateway.Prelude.Text.{Text, text_eq}
use nvidia_api_gateway.Prelude.Maps.{lookup, retain}
use nvidia_api_gateway.Scheduler.{
  LocalKey, Scheduler, unix, has_key, acquire_key, release_key, available, cleanup_expired,
  concurrency_of,
}
use nvidia_api_gateway.Scheduler.Selection.{total_of, AllAtMost, AllSkipped}
use nvidia_api_gateway.Scheduler.Invariant.{DistinctKeys, IsValid, release_key-IsValid}
use nvidia_api_gateway.Scheduler.Acquire.{
  turned, get_elem?-has_key, after_selection, idle, chose, acquire_key-Acquired,
}
use nvidia_api_gateway.Scheduler.Trace as Trace
use nvidia_api_gateway.Scheduler.Trace.{Step-IsValid}
use nvidia_api_gateway.Scheduler.Lifecycle.{release_key-acquire_key}
use nvidia_api_gateway.Scheduler.Weights.{sum_current, acquire_key-sum}
use nvidia_api_gateway.Scheduler.Fairness.{
  sum_shares, AllUsable, AllWhole, Accounts, tally, turned-Accounts, above_zero, selected_positive,
  total_of_shares,
}

-- The answers to calls at the given instants, each key released before the next call.
unfoldable pub serve : Scheduler → ℤ → List ℤ → Option (Scheduler × List Text)
serve s max [] = some (s, [])
serve s max (now ∷ nows) = elim (acquire_key s now max) [
  | none ↦ none
  | some (t, key) ↦ elim (serve (release_key t key) max nows) [
    | none ↦ none
    | some (u, keys) ↦ some (u, key ∷ keys)
  ]
]

unfoldable pub count : Text → List Text → ℕ
count key [] = 0
count key (k ∷ keys) = let rest = count key keys in if text_eq k key then suc rest else rest

-- Nothing keeps a key from being answered: none is dead, cooling or in use.
pub record Free (s : Scheduler) : Type 0 where
  pub dead : s.dead ≡ []
  pub cooling : s.cooling ≡ []
  pub unused : (key : Text) → concurrency_of s key ≡ 0

-- The accounts of the items after `t` calls.
pub record Balanced (w t : ℕ) (n : Text → ℕ) (items : List LocalKey) : Type 0 where
  pub distinct : DistinctKeys items
  pub named : has_key [] items ≡ false
  pub whole : AllWhole items
  pub shares : sum_shares items ≡ w
  pub accounts : Accounts w t n items
  pub zero_sum : sum_current items ≡ pos 0

Free-available :
    (s : Scheduler) (now max : ℤ) (key : Text)
    → Free s
    → pos 1 ≤ℤ max
    → available s now max key ≡ true
unfolding available lookup
Free-available s now max key f one = rw (f.dead, f.cooling) (ground (arith, f.unused key))

all_usable :
    (avail : Text → Bool) (xs : List LocalKey)
    → ((key : Text) → avail key ≡ true)
    → AllUsable avail xs
all_usable avail [] h = tt
all_usable avail (x ∷ xs) h = (h x.key, all_usable avail xs h)

module _ (avail : Text → Bool) (total : ℤ) (k : Text) where
  turned-whole : (xs : List LocalKey) → AllWhole xs → AllWhole (map (turned avail total k) xs)
  turned-whole [] h = tt
  turned-whole (x ∷ xs) h = (ground arith, turned-whole xs h.1)

  turned-shares : (xs : List LocalKey) → sum_shares (map (turned avail total k) xs) ≡ sum_shares xs
  unfolding sum_shares
  turned-shares [] = refl
  turned-shares (x ∷ xs) = ground (arith, turned-shares xs)

  turned-has_key :
      (key : Text) (xs : List LocalKey)
      → has_key key (map (turned avail total k) xs) ≡ has_key key xs
  unfolding has_key
  turned-has_key key [] = refl
  turned-has_key key (x ∷ xs) = ground (arith, turned-has_key key xs)

  turned-distinct :
      (xs : List LocalKey) → DistinctKeys xs → DistinctKeys (map (turned avail total k) xs)
  turned-distinct [] d = tt
  turned-distinct (x ∷ xs) d = (ground (arith, turned-has_key x.key xs), turned-distinct xs d.1)

-- Some item is there to select.
not-AllSkipped :
    (avail : Text → Bool) (xs : List LocalKey)
    → ((key : Text) → avail key ≡ true)
    → 0 < sum_shares xs
    → ¬ AllSkipped avail xs
unfolding sum_shares
not-AllSkipped avail [] u h k = omega arith
not-AllSkipped avail (x ∷ xs) u h k = cc (u x.key, k.0)

-- The items with their accumulated weights at 0.
abbrev pub blank : List LocalKey → List LocalKey
blank [] = []
blank (item ∷ items) = record item { current_weight = pos 0 } ∷ blank items

turned-blank :
    (avail : Text → Bool) (total : ℤ) (k : Text) (xs : List LocalKey)
    → blank (map (turned avail total k) xs) ≡ blank xs
turned-blank avail total k [] = refl
turned-blank avail total k (x ∷ xs) = ground (arith, turned-blank avail total k xs)

-- One call on a free scheduler, and the release.
pub record Round (w t : ℕ) (n : Text → ℕ) (s : Scheduler) (now max : ℤ) : Type 0 where
  pub after : Scheduler
  pub key : Text
  pub answered : acquire_key s now max ≡ some (after, key)
  pub free : Free (release_key after key)
  pub valid : IsValid (release_key after key)
  pub balanced : Balanced w (suc t) (tally n key) (release_key after key).active
  pub same : blank (release_key after key).active ≡ blank s.active

release_key-active : (s : Scheduler) (key : Text) → (release_key s key).active ≡ s.active
unfolding release_key
release_key-active s key = ground arith

release_key-dead : (s : Scheduler) (key : Text) → (release_key s key).dead ≡ s.dead
unfolding release_key
release_key-dead s key = ground arith

release_key-cooling : (s : Scheduler) (key : Text) → (release_key s key).cooling ≡ s.cooling
unfolding release_key
release_key-cooling s key = ground arith

module _ (w : ℕ) (max : ℤ) (pos_w : 0 < w) (one : pos 1 ≤ℤ max) where
  selected_Balanced :
      (t : ℕ) (n : Text → ℕ) (avail : Text → Bool) (xs : List LocalKey) (j : ℕ) (item : LocalKey)
      → ((key : Text) → avail key ≡ true)
      → Balanced w t n xs
      → get_elem? xs j ≡ some item
      → AllAtMost avail (item.current_weight +ℤ item.weight) xs
      → sum_current (map (turned avail (total_of avail xs) item.key) xs) ≡ pos 0
      → Balanced w (suc t) (tally n item.key) (map (turned avail (total_of avail xs) item.key) xs)
  selected_Balanced t n avail xs j item open_all b at top zeroed =
      let usable = all_usable avail xs open_all in
      let up =
        selected_positive avail (item.current_weight +ℤ item.weight) w xs usable b.whole top
          b.zero_sum b.shares pos_w in
      let total : total_of avail xs ≡ pos w =
        total_of_shares avail xs usable b.whole ∙ ap pos b.shares in
      record {
        distinct = turned-distinct avail (total_of avail xs) item.key xs b.distinct;
        named = turned-has_key avail (total_of avail xs) item.key [] xs ∙ b.named;
        whole = turned-whole avail (total_of avail xs) item.key xs b.whole;
        shares = turned-shares avail (total_of avail xs) item.key xs ∙ b.shares;
        accounts =
            subst (λ v. Accounts w (suc t) (tally n item.key) (map (turned avail v item.key) xs))
              (sym total)
              (turned-Accounts avail w t n item.key xs pos_w usable b.whole b.accounts
                (above_zero j xs item at b.distinct up));
        zero_sum = zeroed;
      }

  released-Free :
      (s t : Scheduler) (now : ℤ) (key : Text)
      → IsValid s
      → Free s
      → t.dead ≡ s.dead
      → t.cooling ≡ (cleanup_expired s now).cooling
      → acquire_key s now max ≡ some (t, key)
      → key ≢ []
      → Free (release_key t key)
  unfolding cleanup_expired retain
  released-Free s t now key v f d c e named = record {
    dead = release_key-dead t key ∙ (d ∙ f.dead);
    cooling = release_key-cooling t key ∙ (c ∙ ap (retain _) f.cooling);
    unused = λ k. release_key-acquire_key s t now max key v e named k ∙ f.unused k;
  }

  pub one_Round :
      (t : ℕ) (n : Text → ℕ) (s : Scheduler) (now : ℤ)
      → IsValid s
      → Free s
      → Balanced w t n s.active
      → Round w t n s now max
  unfolding cleanup_expired
  one_Round t n s now v f b =
      let open_all = λ (key : Text). Free-available s (unix now) max key f one in
      elim (acquire_key-Acquired s now max v) [
        | idle skipped _ ↦ absurd (
            not-AllSkipped (available s (unix now) max) s.active open_all (omega (arith, b.shares))
              skipped)
        | chose j item at on top _ r ↦
            let avail = available s (unix now) max in
            let after = after_selection avail (cleanup_expired s now) item.key in
            let named : item.key ≢ [] =
              λ e. absurd (ground (arith, get_elem?-has_key s.active j item at, b.named)) in
            record {
              after = after;
              key = item.key;
              answered = r;
              free = released-Free s after now item.key v f refl refl r named;
              valid = release_key-IsValid after item.key (
                  Step-IsValid {limit = pos_part max}
                    (Trace.acquires s after now max item.key (omega arith) r) v);
              balanced =
                  subst (Balanced w (suc t) (tally n item.key))
                    (sym (release_key-active after item.key))
                    (selected_Balanced t n avail s.active j item open_all b at top
                      (acquire_key-sum s after now max item.key v r ∙ b.zero_sum));
              same =
                  ap blank (release_key-active after item.key)
                  ∙ turned-blank avail (total_of avail s.active) item.key s.active;
            }
      ]
