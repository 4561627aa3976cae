-- ===== src/Scheduler/Fairness.antt =====
-- The smooth weighted round robin: while no key is skipped, the accumulated weight of a key records
-- exactly how far its share is behind.
use native.Mathlib.Decide.{dec_le, dec_lt}
use nvidia_api_gateway.Prelude.{
  ℕ, zero, suc, ◌+◌, ◌*◌, ◌≤◌, ◌<◌, ◌≡◌, refl, inl, inr, Bool, true, false, some, List, [], ◌∷◌,
  map, arith, if◌then◌else◌, All, Bool-cases, get_elem?,
}
use nvidia_api_gateway.Prelude.Int.{
  ℤ, pos, negsuc, ◌+ℤ◌, ◌-ℤ◌, ◌≤ℤ◌, ◌<ℤ◌, int_laws, pos_part, neg_part,
}
use nvidia_api_gateway.Prelude.Text.{Text, text_eq, text_eq_iff, text_eq_sym}
use nvidia_api_gateway.Scheduler.{LocalKey, has_key}
use nvidia_api_gateway.Scheduler.Selection.{total_of, AllAtMost}
use nvidia_api_gateway.Scheduler.Invariant.{DistinctKeys}
use nvidia_api_gateway.Scheduler.Acquire.{turned, get_elem?-has_key}
use nvidia_api_gateway.Scheduler.Weights.{sum_current}

-- The weight of an item as a natural number.
abbrev pub share : LocalKey → ℕ
share item = pos_part item.weight

unfoldable pub sum_shares : List LocalKey → ℕ
sum_shares [] = 0
sum_shares (item ∷ items) = share item + sum_shares items

abbrev pub AllUsable : (Text → Bool) → List LocalKey → Type 0
AllUsable avail = All (λ item. avail item.key ≡ true)

abbrev pub AllWhole : List LocalKey → Type 0
AllWhole = All (λ item. item.weight ≡ pos (share item))

-- After `t` rounds in which `n k` calls answered with `k`, of keys whose shares sum to `w`.
pub record Account (w t : ℕ) (n : Text → ℕ) (item : LocalKey) : Type 0 where
  pub exact :
      pos_part item.current_weight + n item.key * w ≡ neg_part item.current_weight + t * share item
  pub ahead : neg_part item.current_weight < w

abbrev pub Accounts : ℕ → ℕ → (Text → ℕ) → List LocalKey → Type 0
Accounts w t n = All (Account w t n)

-- One more answer with `key`.
abbrev pub tally : (Text → ℕ) → Text → Text → ℕ
tally n key k = if text_eq key k then suc (n k) else n k

-- An item that gains its weight, and one that then gives up the sum of all.
gain_exact :
    (c : ℤ) (k w t n : ℕ)
    → pos_part c + n * w ≡ neg_part c + t * k
    → pos_part (c +ℤ pos k) + n * w ≡ neg_part (c +ℤ pos k) + suc t * k
gain_exact c k w t n h = omega int_laws

gain_ahead : (c : ℤ) (k w : ℕ) → neg_part c < w → neg_part (c +ℤ pos k) < w
unfolding ◌+ℤ◌
gain_ahead c k w h = ground arith

spend_exact :
    (c : ℤ) (k w t n : ℕ)
    → pos_part c + n * w ≡ neg_part c + t * k
    → pos_part (c -ℤ pos w) + suc n * w ≡ neg_part (c -ℤ pos w) + t * k
spend_exact c k w t n h = omega int_laws

spend_ahead : (c : ℤ) (w : ℕ) → 0 < w → pos 0 <ℤ c → neg_part (c -ℤ pos w) < w
unfolding ◌-ℤ◌
spend_ahead c w q h = ground arith

module _ (avail : Text → Bool) where
  pub total_of_shares :
      (xs : List LocalKey)
      → AllUsable avail xs
      → AllWhole xs
      → total_of avail xs ≡ pos (sum_shares xs)
  unfolding total_of sum_shares ◌+ℤ◌
  total_of_shares [] u h = refl
  total_of_shares (x ∷ xs) u h = rw (u.0, total_of_shares xs u.1 h.1, h.0) (ground arith)

  -- If no boosted weight is above 0, nor is their sum.
  sum_at_most :
      (m : ℤ) (xs : List LocalKey)
      → m ≤ℤ pos 0
      → AllUsable avail xs
      → AllAtMost avail m xs
      → sum_current xs +ℤ total_of avail xs ≤ℤ pos 0
  unfolding sum_current total_of
  sum_at_most m [] h u top = omega int_laws
  sum_at_most m (x ∷ xs) h u top =
      rw u.0 (omega (int_laws, sum_at_most m xs h u.1 top.1, top.0 u.0))

  -- The selected weight is positive.
  pub selected_positive :
      (m : ℤ) (w : ℕ) (xs : List LocalKey)
      → AllUsable avail xs
      → AllWhole xs
      → AllAtMost avail m xs
      → sum_current xs ≡ pos 0
      → sum_shares xs ≡ w
      → 0 < w
      → pos 0 <ℤ m
  selected_positive m w xs u h top zeroed shares pos_w =
      let refuted : ¬ (m ≤ℤ pos 0) = λ low.
        let bound : pos 0 +ℤ pos w ≤ℤ pos 0 =
          rw (← zeroed, ← shares, ← total_of_shares xs u h) (sum_at_most m xs low u top) in
        omega int_laws in
      omega (arith, refuted)

  turned-Account :
      (w t : ℕ) (n : Text → ℕ) (key : Text) (x : LocalKey)
      → 0 < w
      → avail x.key ≡ true
      → x.weight ≡ pos (share x)
      → Account w t n x
      → (text_eq x.key key ≡ true → pos 0 <ℤ x.current_weight +ℤ x.weight)
      → Account w (suc t) (tally n key) (turned avail (pos w) key x)
  turned-Account w t n key x pos_w on whole a up = elim (Bool-cases (text_eq x.key key)) [
    | inl hit ↦
        let counted : tally n key x.key ≡ suc (n x.key) = ground (arith, text_eq_sym x.key key) in
        rw (on, hit, whole)
          (record {
            exact = rw counted (
                spend_exact (x.current_weight +ℤ pos (share x)) (share x) w (suc t) (n x.key)
                  (gain_exact x.current_weight (share x) w t (n x.key) a.exact));
            ahead = spend_ahead (x.current_weight +ℤ pos (share x)) w pos_w (rw (← whole) (up hit));
          })
    | inr miss ↦
        let kept : tally n key x.key ≡ n x.key = ground (arith, text_eq_sym x.key key) in
        rw (on, miss, whole)
          (record {
            exact = rw kept (gain_exact x.current_weight (share x) w t (n x.key) a.exact);
            ahead = gain_ahead x.current_weight (share x) w a.ahead;
          })
  ]

  -- One round keeps the accounts, if the item that it selects ends its gain above 0.
  pub turned-Accounts :
      (w t : ℕ) (n : Text → ℕ) (key : Text) (xs : List LocalKey)
      → 0 < w
      → AllUsable avail xs
      → AllWhole xs
      → Accounts w t n xs
      → All (λ x. text_eq x.key key ≡ true → pos 0 <ℤ x.current_weight +ℤ x.weight) xs
      → Accounts w (suc t) (tally n key) (map (turned avail (pos w) key) xs)
  turned-Accounts w t n key [] q u h a up = tt
  turned-Accounts w t n key (x ∷ xs) q u h a up = (
    turned-Account w t n key x q u.0 h.0 a.0 up.0,
    turned-Accounts w t n key xs q u.1 h.1 a.1 up.1,
  )

vacuous {ℓ} :
    (P : LocalKey → Type ℓ) (k : Text) (xs : List LocalKey)
    → has_key k xs ≡ false
    → All (λ y. text_eq y.key k ≡ true → P y) xs
unfolding has_key
vacuous P k [] h = tt
vacuous P k (x ∷ xs) h = (λ e. absurd (ground arith), vacuous P k xs (ground arith))

-- The one item with the key of the selected one is the selected one.
pub above_zero :
    (j : ℕ) (xs : List LocalKey) (x : LocalKey)
    → get_elem? xs j ≡ some x
    → DistinctKeys xs
    → pos 0 <ℤ x.current_weight +ℤ x.weight
    → All (λ y. text_eq y.key x.key ≡ true → pos 0 <ℤ y.current_weight +ℤ y.weight) xs
above_zero j [] x e d h = tt
above_zero zero (y ∷ ys) x e d h =
    let same : x ≡ y = cc in
    (
      λ _. rw (← same) h,
      vacuous (λ y. pos 0 <ℤ y.current_weight +ℤ y.weight) x.key ys (ground arith),
    )
above_zero (suc j) (y ∷ ys) x e d h = (
  λ same. absurd (ground (arith, get_elem?-has_key ys j x e, text_eq_iff y.key x.key)),
  above_zero j ys x e d.1 h,
)

remainder_zero : (m n k w : ℕ) → n * w ≡ m + w * k → m < w → m ≡ 0
remainder_zero m n k w e h = elim (dec_le n k) [
  | yes le ↦ grind arith
  | no gt ↦ let more : suc k * w ≤ n * w = grind arith in omega (arith, more)
]

settled_nonneg :
    (w : ℕ) (n : Text → ℕ) (x : LocalKey) → Account w w n x → neg_part x.current_weight ≡ 0
settled_nonneg w n x a = sign x.current_weight a.exact a.ahead
  where
    sign :
        (c : ℤ)
        → pos_part c + n x.key * w ≡ neg_part c + w * share x
        → neg_part c < w
        → neg_part c ≡ 0
    sign (pos c) e h = refl
    sign (negsuc c) e h = remainder_zero (suc c) (n x.key) (share x) w (omega arith) h

sum_nonneg :
    (xs : List LocalKey)
    → All (λ x. neg_part x.current_weight ≡ 0) xs
    → neg_part (sum_current xs) ≡ 0
unfolding sum_current ◌+ℤ◌
sum_nonneg [] h = refl
sum_nonneg (x ∷ xs) h = ground (arith, sum_nonneg xs h.1)

All-zero :
    (xs : List LocalKey)
    → All (λ x. neg_part x.current_weight ≡ 0) xs
    → sum_current xs ≡ pos 0
    → All (λ x. x.current_weight ≡ pos 0) xs
unfolding sum_current ◌+ℤ◌
All-zero [] h z = tt
All-zero (x ∷ xs) h z =
    (ground (arith, sum_nonneg xs h.1), All-zero xs h.1 (ground (arith, sum_nonneg xs h.1)))

settled_Accounts :
    (w : ℕ) (n : Text → ℕ) (xs : List LocalKey)
    → Accounts w w n xs
    → All (λ x. neg_part x.current_weight ≡ 0) xs
settled_Accounts w n [] a = tt
settled_Accounts w n (x ∷ xs) a = (settled_nonneg w n x a.0, settled_Accounts w n xs a.1)

cancel_right : (a b w : ℕ) → 0 < w → a * w ≡ w * b → a ≡ b
cancel_right a b w q e = elim (dec_lt a b) [
  | yes lt ↦ let more : suc a * w ≤ b * w = grind arith in absurd (omega (arith, more))
  | no ge ↦ elim (dec_lt b a) [
    | yes lt ↦ let more : suc b * w ≤ a * w = grind arith in absurd (omega (arith, more))
    | no le ↦ omega arith
  ]
]

settled_counts :
    (w : ℕ) (n : Text → ℕ) (xs : List LocalKey)
    → 0 < w
    → Accounts w w n xs
    → All (λ x. x.current_weight ≡ pos 0) xs
    → All (λ x. (x.current_weight ≡ pos 0) × (n x.key ≡ share x)) xs
settled_counts w n [] q a z = tt
settled_counts w n (x ∷ xs) q a z =
    let exact = a.0.exact in
    ((z.0, cancel_right (n x.key) (share x) w q (ground arith)), settled_counts w n xs q a.1 z.1)

-- When every account is settled after as many rounds as the shares sum to, each accumulated weight
-- is back at 0 and each key was answered as often as its share says.
pub settled :
    (w : ℕ) (n : Text → ℕ) (xs : List LocalKey)
    → 0 < w
    → Accounts w w n xs
    → sum_current xs ≡ pos 0
    → All (λ x. (x.current_weight ≡ pos 0) × (n x.key ≡ share x)) xs
settled w n xs q a z = settled_counts w n xs q a (All-zero xs (settled_Accounts w n xs a) z)
