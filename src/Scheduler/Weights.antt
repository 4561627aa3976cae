-- ===== src/Scheduler/Weights.antt =====
-- The accumulated weights over the calls of AcquireKey: their sum, and one round of the smooth
-- weighted round robin in which no key is skipped.
use nvidia_api_gateway.Prelude.{
  ◌≡◌, refl, ap, ◌∙◌, inl, inr, Bool, true, false, some, List, [], ◌∷◌, map, arith, Bool-cases,
}
use nvidia_api_gateway.Prelude.Int.{ℤ, pos, ◌+ℤ◌, ◌-ℤ◌, int_laws}
use nvidia_api_gateway.Prelude.Text.{Text, text_eq, text_eq_iff}
use nvidia_api_gateway.Scheduler.{
  LocalKey, Scheduler, unix, has_key, available, acquire_key, cleanup_expired,
}
use nvidia_api_gateway.Scheduler.Selection.{boosted, total_of}
use nvidia_api_gateway.Scheduler.Invariant.{DistinctKeys, IsValid}
use nvidia_api_gateway.Scheduler.Acquire.{
  turned, idle, chose, acquire_key-Acquired, get_elem?-has_key,
}

-- The sum of the accumulated weights.
unfoldable pub sum_current : List LocalKey → ℤ
sum_current [] = pos 0
sum_current (item ∷ items) = item.current_weight +ℤ sum_current items

shift_gain : (c w s t : ℤ) → c +ℤ w +ℤ (s +ℤ t) ≡ c +ℤ s +ℤ (w +ℤ t)
shift_gain c w s t = omega int_laws

shift_keep : (c s t : ℤ) → c +ℤ (s +ℤ t) ≡ c +ℤ s +ℤ t
shift_keep c s t = omega int_laws

shift_less : (a s t : ℤ) → a +ℤ (s -ℤ t) ≡ a +ℤ s -ℤ t
shift_less a s t = omega int_laws

less_shift : (a s t : ℤ) → a -ℤ t +ℤ s ≡ a +ℤ s -ℤ t
less_shift a s t = omega int_laws

module _ (avail : Text → Bool) where
  sum-boosted :
      (xs : List LocalKey)
      → sum_current (map (boosted avail) xs) ≡ sum_current xs +ℤ total_of avail xs
  unfolding sum_current total_of
  sum-boosted [] = omega int_laws
  sum-boosted (x ∷ xs) = elim (Bool-cases (avail x.key)) [
    | inl on ↦
        rw (on, sum-boosted xs)
          (shift_gain x.current_weight x.weight (sum_current xs) (total_of avail xs))
    | inr off ↦
        rw (off, sum-boosted xs) (shift_keep x.current_weight (sum_current xs) (total_of avail xs))
  ]

  module _ (total : ℤ) (k : Text) where
    turned_absent :
        (xs : List LocalKey)
        → has_key k xs ≡ false
        → sum_current (map (turned avail total k) xs) ≡ sum_current (map (boosted avail) xs)
    unfolding sum_current has_key
    turned_absent [] h = refl
    turned_absent (x ∷ xs) h = ground (arith, turned_absent xs)

    turned_present :
        (xs : List LocalKey)
        → DistinctKeys xs
        → has_key k xs ≡ true
        → sum_current (map (turned avail total k) xs)
          ≡ sum_current (map (boosted avail) xs) -ℤ total
    unfolding sum_current has_key
    turned_present [] d h = cc
    turned_present (x ∷ xs) d h = elim (Bool-cases (text_eq x.key k)) [
      | inl hit ↦
          rw (hit, turned_absent xs (ground (arith, text_eq_iff x.key k)))
            (less_shift (boosted avail x).current_weight (sum_current (map (boosted avail) xs))
              total)
      | inr miss ↦
          rw (miss, turned_present xs d.1 (ground arith))
            (shift_less (boosted avail x).current_weight (sum_current (map (boosted avail) xs))
              total)
    ]

cancel : (a t : ℤ) → a +ℤ t -ℤ t ≡ a
cancel a t = omega int_laws

-- A call of AcquireKey, whatever it answers, leaves the sum of the accumulated weights as it was.
pub acquire_key-sum :
    (s t : Scheduler) (now max : ℤ) (key : Text)
    → IsValid s
    → acquire_key s now max ≡ some (t, key)
    → sum_current t.active ≡ sum_current s.active
unfolding cleanup_expired
acquire_key-sum s t now max key v e = elim (acquire_key-Acquired s now max v) [
  | idle _ r ↦ ground arith
  | chose j item at on _ _ r ↦
      let avail = available s (unix now) max in
      let total = total_of avail s.active in
      let same : t.active ≡ map (turned avail total item.key) s.active = ground arith in
      rw same (
        turned_present avail total item.key s.active v.active (get_elem?-has_key s.active j item at)
        ∙ (ap (λ x. x -ℤ total) (sum-boosted avail s.active) ∙ cancel (sum_current s.active) total))
]
