-- ===== src/Scheduler/Shares.antt =====
-- The shares of the keys over many calls: the smooth weighted round robin is exact.
use mathlib.Core.Path.{subst}
use nvidia_api_gateway.Prelude.{
  ℕ, suc, ◌+◌, ◌*◌, ◌<◌, ◌≡◌, refl, sym, ◌∙◌, false, some, List, [], ◌∷◌, arith, All, length,
}
use nvidia_api_gateway.Prelude.Int.{ℤ, pos, ◌+ℤ◌, ◌≤ℤ◌}
use nvidia_api_gateway.Prelude.Text.{Text}
use nvidia_api_gateway.Scheduler.{LocalKey, Scheduler, has_key, release_key}
use nvidia_api_gateway.Scheduler.Invariant.{IsValid}
use nvidia_api_gateway.Scheduler.Weights.{sum_current}
use nvidia_api_gateway.Scheduler.Fairness.{share, sum_shares, AllWhole, Accounts, tally, settled}
use nvidia_api_gateway.Scheduler.Rounds.{serve, count, Free, Balanced, blank, one_Round}

abbrev pub tally_all : (Text → ℕ) → List Text → Text → ℕ
tally_all n [] = n
tally_all n (key ∷ keys) = tally_all (tally n key) keys

tally_all-count :
    (n : Text → ℕ) (keys : List Text) (k : Text) → tally_all n keys k ≡ n k + count k keys
unfolding count
tally_all-count n [] k = omega arith
tally_all-count n (key ∷ keys) k = ground (arith, tally_all-count (tally n key) keys k)

-- The state and the answers after calls at the instants `nows`.
pub record Served (w t : ℕ) (n : Text → ℕ) (s : Scheduler) (max : ℤ) (nows : List ℤ) : Type 0 where
  pub last : Scheduler
  pub keys : List Text
  pub answered : serve s max nows ≡ some (last, keys)
  pub balanced : Balanced w t (tally_all n keys) last.active
  pub same : blank last.active ≡ blank s.active

module _ (w : ℕ) (max : ℤ) (pos_w : 0 < w) (one : pos 1 ≤ℤ max) where
  pub serve-Served :
      (t u : ℕ) (n : Text → ℕ) (s : Scheduler) (nows : List ℤ)
      → u ≡ length nows + t
      → IsValid s
      → Free s
      → Balanced w t n s.active
      → Served w u n s max nows
  unfolding serve
  serve-Served t u n s [] e v f b = record {
    last = s;
    keys = [];
    answered = refl;
    balanced = subst (λ x. Balanced w x n s.active) (omega arith) b;
    same = refl;
  }
  serve-Served t u n s (now ∷ nows) e v f b =
      let r = one_Round w max pos_w one t n s now v f b in
      let rest =
        serve-Served (suc t) u (tally n r.key) (release_key r.after r.key) nows (omega arith)
          r.valid r.free r.balanced in
      record {
        last = rest.last;
        keys = r.key ∷ rest.keys;
        answered = rw (r.answered, serve) (rw (rest.answered));
        balanced = rest.balanced;
        same = rest.same ∙ r.same;
      }

-- A scheduler in which nothing is in use, dead or cooling, and no weight has been accumulated: the
-- weights are whole numbers with the sum `w`.
pub record Fresh (w : ℕ) (s : Scheduler) : Type 0 where
  pub valid : IsValid s
  pub free : Free s
  pub named : has_key [] s.active ≡ false
  pub whole : AllWhole s.active
  pub shares : sum_shares s.active ≡ w
  pub blanked : blank s.active ≡ s.active

blank_head :
    (x : LocalKey) (xs : List LocalKey)
    → blank (x ∷ xs) ≡ x ∷ xs
    → (x.current_weight ≡ pos 0) × (blank xs ≡ xs)
blank_head x xs h = ground arith

blank-sum : (xs : List LocalKey) → blank xs ≡ xs → sum_current xs ≡ pos 0
unfolding sum_current ◌+ℤ◌
blank-sum [] h = refl
blank-sum (x ∷ xs) h = ground (arith, blank_head x xs h, blank-sum xs)

blank-Accounts : (w : ℕ) (xs : List LocalKey) → 0 < w → blank xs ≡ xs → Accounts w 0 (λ _. 0) xs
blank-Accounts w [] q h = tt
blank-Accounts w (x ∷ xs) q h =
    let (z, zs) = blank_head x xs h in
    (record { exact = ground (arith, z); ahead = ground (arith, z) }, blank-Accounts w xs q zs)

Fresh-Balanced : (w : ℕ) (s : Scheduler) → 0 < w → Fresh w s → Balanced w 0 (λ _. 0) s.active
Fresh-Balanced w s q f = record {
  distinct = f.valid.active;
  named = f.named;
  whole = f.whole;
  shares = f.shares;
  accounts = blank-Accounts w s.active q f.blanked;
  zero_sum = blank-sum s.active f.blanked;
}

zero_blank : (xs : List LocalKey) → All (λ x. x.current_weight ≡ pos 0) xs → blank xs ≡ xs
zero_blank [] h = refl
zero_blank (x ∷ xs) h = ground (arith, zero_blank xs h.1)

settled_zero :
    (n : Text → ℕ) (xs : List LocalKey)
    → All (λ x. (x.current_weight ≡ pos 0) × (n x.key ≡ share x)) xs
    → All (λ x. x.current_weight ≡ pos 0) xs
settled_zero n [] h = tt
settled_zero n (x ∷ xs) h = (h.0.0, settled_zero n xs h.1)

-- Each key is counted as often as its share.
abbrev pub AllServed : List Text → List LocalKey → Type 0
AllServed keys = All (λ item. count item.key keys ≡ share item)

settled_served :
    (keys : List Text) (xs ys : List LocalKey)
    → blank xs ≡ blank ys
    → All (λ x. (x.current_weight ≡ pos 0) × (tally_all (λ _. 0) keys x.key ≡ share x)) xs
    → AllServed keys ys
settled_served keys [] [] e h = tt
settled_served keys (x ∷ xs) (y ∷ ys) e h = (
  ground (arith, tally_all-count (λ _. 0) keys x.key),
  settled_served keys xs ys (ground arith) h.1,
)
settled_served keys [] (y ∷ ys) e h = cc
settled_served keys (x ∷ xs) [] e h = cc

-- From a scheduler with distinct non-empty keys, whole weights that sum to w > 0, no accumulated
-- weight and nothing dead, cooling or in use, w calls of AcquireKey with a bound of at least 1,
-- each key released before the next call, all succeed; each key is answered exactly as often as its
-- weight says, and the active list ends as it began.
pub serve_exact :
    (s : Scheduler) (max : ℤ) (w : ℕ) (nows : List ℤ)
    → 0 < w
    → pos 1 ≤ℤ max
    → Fresh w s
    → length nows ≡ w
    → (u : Scheduler) × (keys : List Text) × (serve s max nows ≡ some (u, keys))
      × AllServed keys s.active
      × (u.active ≡ s.active)
serve_exact s max w nows q one f e =
    let r =
      serve-Served w max q one 0 w (λ _. 0) s nows (omega arith) f.valid f.free
        (Fresh-Balanced w s q f) in
    let done =
      settled w (tally_all (λ _. 0) r.keys) r.last.active q r.balanced.accounts
        r.balanced.zero_sum in
    (
      r.last,
      r.keys,
      r.answered,
      settled_served r.keys r.last.active s.active r.same done,
      sym (zero_blank r.last.active (settled_zero _ r.last.active done)) ∙ (r.same ∙ f.blanked),
    )

bounded_served :
    (w t : ℕ) (keys : List Text) (xs ys : List LocalKey)
    → blank xs ≡ blank ys
    → Accounts w t (tally_all (λ _. 0) keys) xs
    → All (λ y. count y.key keys * w < t * share y + w) ys
bounded_served w t keys [] [] e a = tt
bounded_served w t keys (x ∷ xs) (y ∷ ys) e a =
    let key : x.key ≡ y.key = ground arith in
    let weight : x.weight ≡ y.weight = ground arith in
    let exact = rw (tally_all-count (λ _. 0) keys x.key) at (a.0.exact) in
    (
      rw (← key, ← weight) (omega (arith, a.0.ahead, exact)),
      bounded_served w t keys xs ys (ground arith) a.1,
    )
bounded_served w t keys [] (y ∷ ys) e h = cc
bounded_served w t keys (x ∷ xs) [] e h = cc

-- From such a scheduler, any number of such calls all succeed, and afterwards no key has been
-- answered a whole call more often than its share of the calls: its answers times the sum of the
-- weights stay below the calls times its weight, plus that sum.
pub serve_bounded :
    (s : Scheduler) (max : ℤ) (w : ℕ) (nows : List ℤ)
    → 0 < w
    → pos 1 ≤ℤ max
    → Fresh w s
    → (u : Scheduler) × (keys : List Text) × (serve s max nows ≡ some (u, keys))
      × All (λ item. count item.key keys * w < length nows * share item + w) s.active
serve_bounded s max w nows q one f =
    let r =
      serve-Served w max q one 0 (length nows) (λ _. 0) s nows (omega arith) f.valid f.free
        (Fresh-Balanced w s q f) in
    (
      r.last,
      r.keys,
      r.answered,
      bounded_served w (length nows) r.keys r.last.active s.active r.same r.balanced.accounts,
    )
