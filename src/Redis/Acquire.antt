-- ===== src/Redis/Acquire.antt =====
-- AcquireKey over a server against AcquireKey without a client.
use nvidia_api_gateway.Prelude.{
  ℕ, zero, suc, ◌≡◌, refl, sym, ap, ◌∙◌, Bool, false, Option, some, List, [], ◌∷◌, map, arith,
  if◌then◌else◌, get_elem?,
}
use nvidia_api_gateway.Prelude.Int.{ℤ, pos, ◌+ℤ◌, ◌-ℤ◌, int_laws}
use nvidia_api_gateway.Prelude.Text.{Text, text_eq, text_eq_iff, text_eq_refl}
use nvidia_api_gateway.Prelude.Maps.{Fresh, Distinct, insert}
use nvidia_api_gateway.Scheduler.{
  LocalKey, Scheduler, Scan, scan, settle, charge, unix, cleanup_expired, acquire_key, available,
  no_selection, concurrency_of,
}
use nvidia_api_gateway.Scheduler.Selection.{boosted, scan-items}
use nvidia_api_gateway.Scheduler.Acquire.{turned, charge-turned, get_elem?-boosted}
use nvidia_api_gateway.Redis.{
  View, Redis, update, or_zero_ℤ, Locals, nothing_yet, lua_settle, redis_acquire_key,
}
use nvidia_api_gateway.Redis.Loop.{
  items_of, item_of, gained, items_of-gained, DistinctKeys-items_of, member_at, SameChoice, neither,
  both, view-lua_loop, lua_loop-SameChoice,
}
use nvidia_api_gateway.Redis.Agreement.{
  Agrees, usable-available, cleanup_expired-Agrees, counted-Agrees,
}

member_at-Fresh :
    (k j : Text) (i : ℕ) (xs : List (Text × ℤ))
    → member_at xs i ≡ some k
    → Fresh j xs
    → text_eq k j ≡ false
member_at-Fresh k j i [] e d = cc
member_at-Fresh k j zero ((l, w) ∷ xs) e d = ground (arith, d.0)
member_at-Fresh k j (suc i) ((l, w) ∷ xs) e d = member_at-Fresh k j i xs e d.1

member_at-get_elem? :
    (f : Text → Option ℤ) (k : Text) (i : ℕ) (xs : List (Text × ℤ))
    → member_at xs i ≡ some k
    → (x : LocalKey) × (get_elem? (items_of f xs) i ≡ some x) × (x.key ≡ k)
member_at-get_elem? f k i [] e = cc
member_at-get_elem? f k zero ((l, w) ∷ xs) e = (item_of f (l, w), refl, ground arith)
member_at-get_elem? f k (suc i) ((l, w) ∷ xs) e = member_at-get_elem? f k i xs e

-- What the charge does to an item.
abbrev charged : ℤ → Text → LocalKey → LocalKey
charged total key item =
    if text_eq item.key key
    then record item { current_weight = item.current_weight -ℤ total }
    else item

minus_total : (a b : ℤ) → a +ℤ (pos 0 -ℤ b) ≡ a -ℤ b
minus_total a b = omega int_laws

items_of-charged :
    (g : Text → Option ℤ) (key : Text) (total : ℤ) (xs : List (Text × ℤ))
    → items_of (update g key (some (or_zero_ℤ (g key) +ℤ (pos 0 -ℤ total)))) xs
      ≡ map (charged total key) (items_of g xs)
items_of-charged g key total [] = refl
items_of-charged g key total ((k, w) ∷ xs) = ground (
  arith,
  items_of-charged g key total xs,
  text_eq_iff k key,
  text_eq_iff key k,
  text_eq_refl k,
  minus_total (or_zero_ℤ (g key)) total,
)

map-charged :
    (u : Text → Bool) (total : ℤ) (key : Text) (xs : List LocalKey)
    → map (charged total key) (map (boosted u) xs) ≡ map (turned u total key) xs
map-charged u total key [] = refl
map-charged u total key (x ∷ xs) = ground (arith, map-charged u total key xs)

-- The lines after the loop of AcquireKey, when an item is selected.
settle_chosen :
    (s : Scheduler) (items rest : List LocalKey) (acc : Scan) (i : ℕ) (item : LocalKey) (key : Text)
    → acc.selected ≡ some i
    → get_elem? items i ≡ some item
    → item.key ≡ key
    → charge i acc.total_weight items ≡ rest
    → settle s items acc
      ≡ some (
        record s {
          active = rest;
          concurrency = insert key (suc (concurrency_of s key)) s.concurrency;
        },
        key,
      )
unfolding settle
settle_chosen s items rest acc i item key chosen at named c =
    rw (chosen, settle) (rw at (ground arith))

-- What AcquireKey leaves of the items, in terms of what LuaAcquireKey leaves of the weights.
charge-items_of :
    (u : Text → Bool) (f : Text → Option ℤ) (xs : List (Text × ℤ)) (i : ℕ) (key : Text) (total : ℤ)
    (item : LocalKey)
    → Distinct xs
    → get_elem? (items_of f xs) i ≡ some item
    → item.key ≡ key
    → let g = gained u xs f in
      charge i total (map (boosted u) (items_of f xs))
      ≡ items_of (update g key (some (or_zero_ℤ (g key) +ℤ (pos 0 -ℤ total)))) xs
charge-items_of u f xs i key total item d at named =
    charge-turned u total i (items_of f xs) item at (DistinctKeys-items_of f xs d)
    ∙ (ap (λ k. map (turned u total k) (items_of f xs)) named
        ∙ (sym (map-charged u total key (items_of f xs))
            ∙ (ap (map (charged total key)) (sym (items_of-gained u xs f d))
                ∙ sym (items_of-charged (gained u xs f) key total xs))))

acquire_key-settle :
    (s : Scheduler) (now max : ℤ) (items : List LocalKey)
    → s.active ≡ items
    → let u = available (cleanup_expired s now) (unix now) max in
      acquire_key s now max
      ≡ settle (cleanup_expired s now) (map (boosted u) items) (scan u 0 items no_selection).1
unfolding acquire_key cleanup_expired
acquire_key-settle s now max items e =
    let u = available (cleanup_expired s now) (unix now) max in
    ap (λ xs. settle (cleanup_expired s now) xs (scan u 0 s.active no_selection).1)
      (scan-items u 0 s.active no_selection)
    ∙ ap (λ xs. settle (cleanup_expired s now) (map (boosted u) xs) (scan u 0 xs no_selection).1) e

module _ (server : Redis) where
  open server use {State, view, hincrbyfloat, hincrbyfloat_lem, incr, expire, members_distinct}

  module _ (now max : ℤ) (r : State) (s : Scheduler) (a : Agrees (unix now) (view r) s) where
    lets : Text → Bool
    lets = available (cleanup_expired s now) (unix now) max

    -- The weights after the loop, and after the charge.
    looped-Agrees :
        (r' : State) (g : Text → Option ℤ)
        → view r' ≡ record (view r) { weights = g }
        → Agrees
            (unix now)
            (view r')
            (record (cleanup_expired s now) { active = items_of g (view r).active })
    looped-Agrees r' g e =
        let b = cleanup_expired-Agrees now (view r) s a in
        rw e (record {
          active = refl;
          dead = b.dead;
          cooling = b.cooling;
          counts = b.counts;
          one_each = b.one_each;
          named = b.named;
        })

    after_loop-Agrees :
        (r' : State) (l : Locals) (fin : Scan)
        → view r' ≡ record (view r) { weights = gained lets (view r).active (view r).weights }
        → SameChoice (member_at (view r).active) l fin
        → (t : Scheduler) × (settle
              (cleanup_expired s now)
              (map (boosted lets) (items_of (view r).weights (view r).active))
              fin
            ≡ some (t, (lua_settle server r' l).1))
          × Agrees (unix now) (view (lua_settle server r' l).0) t
    unfolding settle lua_settle
    after_loop-Agrees r' l fin e (neither total none_here no_weight no_key) =
        let g = gained lets (view r).active (view r).weights in
        rw (none_here, settle, no_key, text_eq_refl [], lua_settle)
          (
            record (cleanup_expired s now) { active = items_of g (view r).active },
            ap {B = Option (Scheduler × Text)}
                (λ xs. some (record (cleanup_expired s now) { active = xs }, []))
                (sym (items_of-gained lets (view r).active (view r).weights (members_distinct r))),
            looped-Agrees r' g e,
          )
    after_loop-Agrees r' l fin e (both i total some_i some_w at) =
        let named : text_eq l.selected_key [] ≡ false =
          member_at-Fresh l.selected_key [] i (view r).active at a.named in
        let g = gained lets (view r).active (view r).weights in
        let taken = pos 0 -ℤ l.total_weight in
        let r2 = hincrbyfloat r' l.selected_key taken in
        let g2 : Text → Option ℤ =
          update g l.selected_key (some (or_zero_ℤ (g l.selected_key) +ℤ taken)) in
        let seen : view r2 ≡ record (view r) { weights = g2 } =
          hincrbyfloat_lem r' l.selected_key taken
          ∙ ap
              (λ (v : View). record v {
                weights =
                    update v.weights l.selected_key
                      (some (or_zero_ℤ (v.weights l.selected_key) +ℤ taken));
              })
              e in
        let (item, here, key) =
          member_at-get_elem? (view r).weights l.selected_key i (view r).active at in
        let after : Scheduler = record (cleanup_expired s now) {
          active = items_of g2 (view r).active;
        } in
        let spent : charge i fin.total_weight
              (map (boosted lets) (items_of (view r).weights (view r).active))
            ≡ items_of g2 (view r).active =
          rw (← total) (
            charge-items_of lets (view r).weights (view r).active i l.selected_key l.total_weight
              item (members_distinct r) here key) in
        rw (named, lua_settle)
          (
            record after {
              concurrency =
                  insert l.selected_key (suc (concurrency_of after l.selected_key))
                    after.concurrency;
            },
            settle_chosen (cleanup_expired s now) _ (items_of g2 (view r).active) fin i
                (boosted lets item) l.selected_key some_i
                (get_elem?-boosted lets l.total_weight i (items_of (view r).weights (view r).active)
                  item here)
                (ground arith) spent,
            counted-Agrees server (unix now) r2 after l.selected_key (looped-Agrees r2 g2 seen),
          )

    -- AcquireKey over a server that agrees with a scheduler without a client answers what that one
    -- answers, and leaves them in agreement.
    pub redis_acquire_key-Agrees :
        (t : Scheduler) × (key : Text) × (acquire_key s now max ≡ some (t, key))
        × ((redis_acquire_key server r now max).1 ≡ some key)
        × Agrees (unix now) (view (redis_acquire_key server r now max).0) t
    unfolding acquire_key redis_acquire_key lets
    redis_acquire_key-Agrees =
        let u = available (cleanup_expired s now) (unix now) max in
        let same = λ (k : Text). usable-available now max (view r) s k a in
        let (t, local, agree) =
          after_loop-Agrees _ _ _
            (view-lua_loop server (unix now) max u (view r).active r nothing_yet same)
            (lua_loop-SameChoice server (unix now) max u (member_at (view r).active) 0
              (view r).active r nothing_yet no_selection same (members_distinct r)
              (λ j. ap (member_at (view r).active) (omega arith)) (neither refl refl refl refl)) in
        (t, _, acquire_key-settle s now max _ a.active ∙ local, refl, agree)
