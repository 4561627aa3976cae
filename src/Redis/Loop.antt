-- ===== src/Redis/Loop.antt =====
-- The loop of LuaAcquireKey against the loop of AcquireKey without a client: what it writes to the
-- weights, and which key it selects.
use mathlib.Core.Path.{subst}
use nvidia_api_gateway.Prelude.{
  ℕ, zero, suc, ◌+◌, ◌≡◌, refl, sym, ap, ◌∙◌, inl, inr, Bool, false, Option, none, some, List, [],
  ◌∷◌, map, arith, if◌then◌else◌, Bool-cases,
}
use nvidia_api_gateway.Prelude.Int.{ℤ, ◌+ℤ◌, ltb_ℤ}
use nvidia_api_gateway.Prelude.Text.{Text, text_eq_iff, text_eq_refl}
use nvidia_api_gateway.Prelude.Maps.{Fresh, Distinct}
use nvidia_api_gateway.Scheduler.{LocalKey, Scan, boost, note, scan, has_key}
use nvidia_api_gateway.Scheduler.Selection.{boosted}
use nvidia_api_gateway.Scheduler.Invariant.{DistinctKeys}
use nvidia_api_gateway.Redis.{View, Redis, update, or_zero_ℤ, usable, Locals, pick, lua_loop}

abbrev pub item_of : (Text → Option ℤ) → Text × ℤ → LocalKey
item_of f (k, w) = record { key = k; weight = w; current_weight = or_zero_ℤ (f k) }

-- The list of keys that a scheduler without a client has in the place of the sorted set and of the
-- weights.
abbrev pub items_of : (Text → Option ℤ) → List (Text × ℤ) → List LocalKey
items_of f [] = []
items_of f (x ∷ xs) = item_of f x ∷ items_of f xs

-- What one round leaves in the weights.
abbrev pub gain : (Text → Bool) → Text → ℤ → (Text → Option ℤ) → Text → Option ℤ
gain u k w f = if u k then update f k (some (or_zero_ℤ (f k) +ℤ w)) else f

-- What the loop leaves in the weights.
abbrev pub gained : (Text → Bool) → List (Text × ℤ) → (Text → Option ℤ) → Text → Option ℤ
gained u [] f = f
gained u ((k, w) ∷ xs) f = gained u xs (gain u k w f)

items_of-update :
    (f : Text → Option ℤ) (k : Text) (v : Option ℤ) (xs : List (Text × ℤ))
    → Fresh k xs
    → items_of (update f k v) xs ≡ items_of f xs
items_of-update f k v [] d = refl
items_of-update f k v ((j, w) ∷ xs) d =
    ground (arith, items_of-update f k v xs, text_eq_iff k j, text_eq_iff j k)

items_of-gain :
    (u : Text → Bool) (k : Text) (w : ℤ) (xs : List (Text × ℤ)) (f : Text → Option ℤ)
    → Fresh k xs
    → items_of (gain u k w f) xs ≡ items_of f xs
items_of-gain u k w xs f d = elim (Bool-cases (u k)) [
  | inl on ↦ rw on (items_of-update f k _ xs d)
  | inr off ↦ rw off
]

gained-Fresh :
    (u : Text → Bool) (k : Text) (xs : List (Text × ℤ)) (f : Text → Option ℤ)
    → Fresh k xs
    → gained u xs f k ≡ f k
gained-Fresh u k [] f d = refl
gained-Fresh u k ((j, w) ∷ xs) f d = elim (Bool-cases (u j)) [
  | inl on ↦ rw on (gained-Fresh u k xs _ d.1 ∙ ground arith)
  | inr off ↦ rw off (gained-Fresh u k xs f d.1)
]

boosted_item :
    (u : Text → Bool) (k : Text) (w : ℤ) (f : Text → Option ℤ)
    → item_of (gain u k w f) (k, w) ≡ boosted u (item_of f (k, w))
boosted_item u k w f = ground (arith, text_eq_refl k)

-- The weights after the loop are those of the loop over the list.
pub items_of-gained :
    (u : Text → Bool) (xs : List (Text × ℤ)) (f : Text → Option ℤ)
    → Distinct xs
    → items_of (gained u xs f) xs ≡ map (boosted u) (items_of f xs)
items_of-gained u [] f d = refl
items_of-gained u ((k, w) ∷ xs) f d =
    let head : item_of (gained u xs (gain u k w f)) (k, w) ≡ boosted u (item_of f (k, w)) =
      ap (λ v. record { key = k; weight = w; current_weight = or_zero_ℤ v })
        (gained-Fresh u k xs (gain u k w f) d.0)
      ∙ boosted_item u k w f in
    ap (λ x. x ∷ items_of (gained u xs (gain u k w f)) xs) head
    ∙ ap (◌∷◌ (boosted u (item_of f (k, w)))) (
        items_of-gained u xs (gain u k w f) d.1
        ∙ ap (map (boosted u)) (items_of-gain u k w xs f d.0))

pub has_key-items_of :
    (k : Text) (f : Text → Option ℤ) (xs : List (Text × ℤ))
    → Fresh k xs
    → has_key k (items_of f xs) ≡ false
unfolding has_key
has_key-items_of k f [] d = refl
has_key-items_of k f ((j, w) ∷ xs) d = ground (arith, has_key-items_of k f xs)

pub DistinctKeys-items_of :
    (f : Text → Option ℤ) (xs : List (Text × ℤ)) → Distinct xs → DistinctKeys (items_of f xs)
DistinctKeys-items_of f [] d = tt
DistinctKeys-items_of f ((k, w) ∷ xs) d =
    (has_key-items_of k f xs d.0, DistinctKeys-items_of f xs d.1)

-- The two loops have selected the same key, the one by its text and the other by its index.
pub data SameChoice (nth : ℕ → Option Text) (l : Locals) (acc : Scan) : Type 0 where
  neither :
      l.total_weight ≡ acc.total_weight
      → acc.selected ≡ none
      → l.selected_weight ≡ none
      → l.selected_key ≡ []
      → SameChoice nth l acc
  both :
      (i : ℕ)
      → l.total_weight ≡ acc.total_weight
      → acc.selected ≡ some i
      → l.selected_weight ≡ some acc.selected_weight
      → nth i ≡ some l.selected_key
      → SameChoice nth l acc

pick-SameChoice :
    (nth : ℕ → Option Text) (i : ℕ) (item : LocalKey) (l : Locals) (acc : Scan)
    → nth i ≡ some item.key
    → SameChoice nth l acc
    → SameChoice nth (pick item.key item.weight item.current_weight l) (note i item acc)
unfolding pick note
pick-SameChoice nth i item l acc at (neither t s w k) =
    both i (ground arith) (ground arith) (ground arith) (ground arith)
pick-SameChoice nth i item l acc at (both j t s w k) =
    elim (Bool-cases (ltb_ℤ acc.selected_weight item.current_weight)) [
      | inl over ↦ both i (ground arith) (ground arith) (ground arith) (ground arith)
      | inr under ↦ both j (ground arith) (ground arith) (ground arith) (ground arith)
    ]

-- The member at an index of what ZRANGE answered.
abbrev pub member_at : List (Text × ℤ) → ℕ → Option Text
member_at [] i = none
member_at ((k, w) ∷ xs) zero = some k
member_at ((k, w) ∷ xs) (suc i) = member_at xs i

usable-weights :
    (v : View) (f : Text → Option ℤ) (now max : ℤ) (k : Text)
    → usable (record v { weights = f }) now max k ≡ usable v now max k
unfolding usable
usable-weights v f now max k = refl

module _ (server : Redis) (now max : ℤ) where
  open server use {State, view, hset_weight, hset_weight_lem}

  -- What LuaAcquireKey does to the server in one round.
  abbrev round : Text → ℤ → State → State
  round k w r =
      if usable (view r) now max k then hset_weight r k (or_zero_ℤ ((view r).weights k) +ℤ w) else r

  view-round :
      (u : Text → Bool) (k : Text) (w : ℤ) (r : State)
      → usable (view r) now max k ≡ u k
      → view (round k w r) ≡ record (view r) { weights = gain u k w (view r).weights }
  view-round u k w r e = elim (Bool-cases (usable (view r) now max k)) [
    | inl on ↦ rw (on, sym e ∙ on) (hset_weight_lem r k _)
    | inr off ↦ rw (off, sym e ∙ off)
  ]

  usable-round :
      (u : Text → Bool) (k : Text) (w : ℤ) (r : State)
      → ((j : Text) → usable (view r) now max j ≡ u j)
      → (j : Text) → usable (view (round k w r)) now max j ≡ u j
  usable-round u k w r h j =
      ap (λ v. usable v now max j) (view-round u k w r (h k))
      ∙ (usable-weights (view r) (gain u k w (view r).weights) now max j ∙ h j)

  -- The loop writes nothing but the weights, and no test of it depends on what it writes.
  pub view-lua_loop :
      (u : Text → Bool) (xs : List (Text × ℤ)) (r : State) (l : Locals)
      → ((k : Text) → usable (view r) now max k ≡ u k)
      → view (lua_loop server now max xs r l).0
        ≡ record (view r) { weights = gained u xs (view r).weights }
  unfolding lua_loop
  view-lua_loop u [] r l h = refl
  view-lua_loop u ((k, w) ∷ xs) r l h =
      view-lua_loop u xs (round k w r) _ (usable-round u k w r h)
      ∙ ap (λ (v : View). record v { weights = gained u xs v.weights }) (view-round u k w r (h k))

  -- Both loops select the same key, by the same total.
  pub lua_loop-SameChoice :
      (u : Text → Bool) (nth : ℕ → Option Text) (i : ℕ) (xs : List (Text × ℤ)) (r : State)
      (l : Locals) (acc : Scan)
      → ((k : Text) → usable (view r) now max k ≡ u k)
      → Distinct xs
      → ((j : ℕ) → member_at xs j ≡ nth (i + j))
      → SameChoice nth l acc
      → SameChoice nth
          (lua_loop server now max xs r l).1
          (scan u i (items_of (view r).weights xs) acc).1
  unfolding lua_loop scan
  lua_loop-SameChoice u nth i [] r l acc h d at c = c
  lua_loop-SameChoice u nth i ((k, w) ∷ xs) r l acc h d at c =
      let item = item_of (view r).weights (k, w) in
      let l' : Locals =
        if usable (view r) now max k then pick k w (boost item).current_weight l else l in
      let acc' : Scan = if u k then note i (boosted u item) acc else acc in
      let here : nth i ≡ some k =
        let start : i ≡ i + 0 = omega arith in ap nth start ∙ sym (at 0) in
      let c' : SameChoice nth l' acc' = elim (Bool-cases (u k)) [
        | inl on ↦ rw (on, h k ∙ on) (pick-SameChoice nth i (boost item) l acc here c)
        | inr off ↦ rw (off, h k ∙ off) c
      ] in
      let rest =
        lua_loop-SameChoice u nth (suc i) xs (round k w r) l' acc' (usable-round u k w r h) d.1
          (λ j. let shift : i + suc j ≡ suc i + j = omega arith in at (suc j) ∙ ap nth shift) c' in
      let same : items_of (view (round k w r)).weights xs ≡ items_of (view r).weights xs =
        ap (λ (v : View). items_of v.weights xs) (view-round u k w r (h k))
        ∙ items_of-gain u k w xs (view r).weights d.0 in
      subst
        (λ ys.
          SameChoice nth (lua_loop server now max xs (round k w r) l').1 (scan u (suc i) ys acc').1)
        same rest
