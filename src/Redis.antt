-- ===== src/Redis.antt =====
-- The key scheduler over a Redis server (pkg/scheduler/redis.go: the three Lua scripts, and the
-- branches with a client of AcquireKey, TryAcquireSpecificKey, ReleaseKey, MarkCooling and
-- MarkDead). The server is a parameter: its commands, with what Redis documents of them. A script
-- runs as one step, in which the server's clock stands still. Numbers that Redis keeps as text are
-- given as the numbers that `tonumber` reads. A failing connection is a reply of its own.
mod Loop
mod Agreement
mod Acquire
mod Calls
mod Runs
mod Expiry
mod Tests
use nvidia_api_gateway.Prelude.{
  ℕ, suc, ◌+◌, ◌-◌, ◌≡◌, Bool, true, false, not, Option, none, some, List, [], ◌∷◌, ltb,
  if◌then◌else◌,
}
use nvidia_api_gateway.Prelude.Int.{ℤ, pos, negsuc, ◌+ℤ◌, ◌-ℤ◌, ltb_ℤ, leb_ℤ}
use nvidia_api_gateway.Prelude.Text.{Text, codes, text_eq, trim_space}
use nvidia_api_gateway.Prelude.Maps.{lookup, Distinct}
use nvidia_api_gateway.Scheduler.{or_zero, is_some, unix}

-- What the commands that read answer: ZRANGE … WITHSCORES of nvidia:keys:active, SISMEMBER of
-- nvidia:keys:dead, HGET of key_current_weight and of key_cooling, and GET of a key's counter; with
-- the server's clock, in seconds, and the instants at which the counters expire.
pub record View : Type 0 where
  pub active : List (Text × ℤ)
  pub dead : Text → Bool
  pub weights : Text → Option ℤ
  pub cooling : Text → Option ℤ
  pub counts : Text → Option ℕ
  pub deadlines : Text → Option ℤ
  pub clock : ℤ

abbrev pub update {ℓ} : {A : Type ℓ} → (Text → A) → Text → A → Text → A
update f k a j = if text_eq k j then a else f j

abbrev pub or_zero_ℤ : Option ℤ → ℤ
or_zero_ℤ none = pos 0
or_zero_ℤ (some n) = n

-- Whether the clock has reached a deadline.
abbrev pub is_past : ℤ → Option ℤ → Bool
is_past clock none = false
is_past clock (some deadline) = leb_ℤ deadline clock

abbrev pub elapsed : View → ℕ → View
elapsed v d = record v {
  counts = λ k. if is_past (v.clock +ℤ pos d) (v.deadlines k) then none else v.counts k;
  deadlines = λ k. if is_past (v.clock +ℤ pos d) (v.deadlines k) then none else v.deadlines k;
  clock = v.clock +ℤ pos d;
}

-- A Redis server: the commands that write, and what its documentation says of them.
pub record Redis : Type 1 where
  pub State : Type 0
  pub view : State → View
  pub hset_weight : State → Text → ℤ → State
  pub hset_cooling : State → Text → ℤ → State
  pub hincrbyfloat : State → Text → ℤ → State
  pub hdel_weight : State → Text → State
  pub sadd_dead : State → Text → State
  pub incr : State → Text → State
  pub decr : State → Text → State
  pub expire : State → Text → ℕ → State
  pub elapse : State → ℕ → State
  pub members_distinct : (r : State) → Distinct (view r).active
  pub hset_weight_lem :
      (r : State) (k : Text) (w : ℤ)
      → view (hset_weight r k w) ≡ record (view r) { weights = update (view r).weights k (some w) }
  pub hset_cooling_lem :
      (r : State) (k : Text) (t : ℤ)
      → view (hset_cooling r k t) ≡ record (view r) { cooling = update (view r).cooling k (some t) }
  pub hincrbyfloat_lem :
      (r : State) (k : Text) (w : ℤ)
      → view (hincrbyfloat r k w) ≡ record (view r) {
        weights = update (view r).weights k (some (or_zero_ℤ ((view r).weights k) +ℤ w));
      }
  pub hdel_weight_lem :
      (r : State) (k : Text)
      → view (hdel_weight r k) ≡ record (view r) { weights = update (view r).weights k none }
  pub sadd_dead_lem :
      (r : State) (k : Text)
      → view (sadd_dead r k) ≡ record (view r) { dead = update (view r).dead k true }
  pub incr_lem :
      (r : State) (k : Text)
      → view (incr r k) ≡ record (view r) {
        counts = update (view r).counts k (some (suc (or_zero ((view r).counts k))));
      }
  pub decr_lem :
      (r : State) (k : Text) (n : ℕ)
      → (view r).counts k ≡ some (suc n)
      → view (decr r k) ≡ record (view r) { counts = update (view r).counts k (some n) }
  pub expire_lem :
      (r : State) (k : Text) (ttl : ℕ) (n : ℕ)
      → (view r).counts k ≡ some n
      → view (expire r k ttl) ≡ record (view r) {
        deadlines = update (view r).deadlines k (some ((view r).clock +ℤ pos ttl));
      }
  pub elapse_lem : (r : State) (d : ℕ) → view (elapse r d) ≡ elapsed (view r) d

-- What go-redis gives back for a script: an error, redis.Nil, or the value.
pub data Reply : Type 0 where
  failure : Reply
  absent : Reply
  text : Text → Reply
  int : ℤ → Reply

-- (not cool_until) or tonumber(cool_until) < now
abbrev pub is_cool : ℤ → Option ℤ → Bool
is_cool now none = true
is_cool now (some until) = ltb_ℤ until now

-- The three tests in the loop of LuaAcquireKey.
unfoldable pub usable : View → ℤ → ℤ → Text → Bool
usable v now max_concurrency key =
    if v.dead key
    then false
    else if is_cool now (v.cooling key)
    then ltb_ℤ (pos (or_zero (v.counts key))) max_concurrency
    else false

-- The local variables of LuaAcquireKey.
pub record Locals : Type 0 where
  pub selected_key : Text
  pub selected_weight : Option ℤ
  pub total_weight : ℤ

-- (not selected_weight) or new_weight > selected_weight
abbrev pub prevails : ℤ → Option ℤ → Bool
prevails w none = true
prevails w (some best) = ltb_ℤ best w

unfoldable pub pick : Text → ℤ → ℤ → Locals → Locals
pick key weight new_weight acc =
    let total = acc.total_weight +ℤ weight in
    if prevails new_weight acc.selected_weight
    then record { selected_key = key; selected_weight = some new_weight; total_weight = total }
    else record acc { total_weight = total }

abbrev pub nothing_yet : Locals
nothing_yet = record { selected_key = []; selected_weight = none; total_weight = pos 0 }

-- The life of a counter after the last request that it counted, in seconds.
abbrev pub lock_ttl : ℕ
lock_ttl = 60

-- What AcquireKey answers, by the reply; none for an error.
unfoldable pub acquire_answer : Reply → Option Text
acquire_answer failure = none
acquire_answer absent = some []
acquire_answer (text s) = some s
acquire_answer (int n) = some []

-- What TryAcquireSpecificKey answers, by the reply.
unfoldable pub try_answer : Reply → Option Bool
try_answer failure = none
try_answer absent = some false
try_answer (int n) = some (ltb_ℤ (pos 0) n)
try_answer (text s) = some (text_eq (trim_space s) (codes "1"))

module _ (server : Redis) where
  open server use {
    State, view, hset_weight, hset_cooling, hincrbyfloat, hdel_weight, sadd_dead, incr, decr,
    expire,
  }

  -- The loop of LuaAcquireKey over what ZRANGE answered. It reads and writes the weights as it goes.
  unfoldable pub lua_loop : ℤ → ℤ → List (Text × ℤ) → State → Locals → State × Locals
  unfolding usable pick
  lua_loop now max [] r acc = (r, acc)
  lua_loop now max ((key, weight) ∷ items) r acc =
      let new_weight = or_zero_ℤ ((view r).weights key) +ℤ weight in
      let on = usable (view r) now max key in
      lua_loop now max items (if on then hset_weight r key new_weight else r)
        (if on then pick key weight new_weight acc else acc)

  -- The lines of LuaAcquireKey below the loop.
  unfoldable pub lua_settle : State → Locals → State × Text
  lua_settle r acc = if text_eq acc.selected_key [] then (r, []) else (
    expire (incr (hincrbyfloat r acc.selected_key (pos 0 -ℤ acc.total_weight)) acc.selected_key)
        acc.selected_key lock_ttl,
    acc.selected_key,
  )

  unfoldable pub lua_acquire_key : State → ℤ → ℤ → State × Text
  unfolding lua_loop lua_settle
  lua_acquire_key r max now =
      let (r', acc) = lua_loop now max (view r).active r nothing_yet in lua_settle r' acc

  unfoldable pub lua_release_key : State → Text → State
  lua_release_key r key = if ltb 0 (or_zero ((view r).counts key)) then decr r key else r

  unfoldable pub lua_try_acquire_specific_key : State → Text → ℤ → ℤ → State × ℤ
  lua_try_acquire_specific_key r key max now =
      if not (is_some (lookup key (view r).active))
      then (r, pos 0)
      else if (view r).dead key
      then (r, pos 0)
      else if not (is_cool now ((view r).cooling key))
      then (r, pos 0)
      else if leb_ℤ max (pos (or_zero ((view r).counts key)))
      then (r, pos 0)
      else (expire (incr r key) key lock_ttl, pos 1)

  -- The methods of Scheduler with a client, at an instant in nanoseconds, over a server that answers.
  unfoldable pub redis_acquire_key : State → ℤ → ℤ → State × Option Text
  unfolding lua_acquire_key acquire_answer
  redis_acquire_key r now max =
      let (r', key) = lua_acquire_key r max (unix now) in (r', acquire_answer (text key))

  unfoldable pub redis_try_acquire_specific_key : State → ℤ → Text → ℤ → State × Option Bool
  unfolding lua_try_acquire_specific_key try_answer
  redis_try_acquire_specific_key r now raw_key max =
      let key = trim_space raw_key in
      let limit = if leb_ℤ max (pos 0) then pos 1 else max in
      let (r', done) = lua_try_acquire_specific_key r key limit (unix now) in
      if text_eq key [] then (r, some false) else (r', try_answer (int done))

  unfoldable pub redis_release_key : State → Text → State
  unfolding lua_release_key
  redis_release_key r key = if text_eq key [] then r else lua_release_key r key

  unfoldable pub redis_mark_cooling : State → ℤ → Text → ℤ → State
  redis_mark_cooling r now key duration = hset_cooling r key (unix (now +ℤ duration))

  unfoldable pub redis_mark_dead : State → Text → State
  redis_mark_dead r key = hdel_weight (sadd_dead r key) key
