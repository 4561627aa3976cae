-- ===== src/MasterKeys/Rotation.antt =====
-- The loop of RotateMasterKey ends.
use nvidia_api_gateway.Prelude.{
  ℕ, ◌+◌, ◌<◌, ◌≤◌, ◌≡◌, refl, ◌⊎◌, inl, inr, Bool, true, false, some, List, [], ◌∷◌, map, any,
  length, arith, if◌then◌else◌, Bool-cases, All,
}
use nvidia_api_gateway.Prelude.Text.{Text, text_eq, text_eq_iff, text_eq_refl}
use nvidia_api_gateway.Access.{MasterKey}
use nvidia_api_gateway.MasterKeys.{is_taken, rotate_loop}

-- No text stands twice in the list.
abbrev pub AllDiffer : List Text → Type 0
AllDiffer [] = Unit
AllDiffer (c ∷ cs) = All (λ d. text_eq c d ≡ false) cs × AllDiffer cs

abbrev has_text : Text → List MasterKey → Bool
has_text text keys = any (λ (e : MasterKey). text_eq e.key text) keys

-- The keys without the first that has a text.
without : Text → List MasterKey → List MasterKey
without text [] = []
without text (k ∷ ks) = let rest = without text ks in if text_eq k.key text then ks else k ∷ rest

length-without :
    (text : Text) (keys : List MasterKey)
    → has_text text keys ≡ true
    → length (without text keys) + 1 ≡ length keys
unfolding without
length-without text [] h = cc h
length-without text (k ∷ ks) h = elim (Bool-cases (text_eq k.key text)) [
  | inl here ↦ simp here (omega arith)
  | inr later ↦ simp later (omega (arith, length-without text ks (ground arith)))
]

has_text-without :
    (text other : Text) (keys : List MasterKey)
    → text_eq text other ≡ false
    → has_text other keys ≡ true
    → has_text other (without text keys) ≡ true
unfolding without
has_text-without text other [] ne h = cc h
has_text-without text other (k ∷ ks) ne h = elim (Bool-cases (text_eq k.key text)) [
  | inl here ↦
      simp here
        (ground (arith, text_eq_iff k.key text, text_eq_iff k.key other, ne, text_eq_refl other))
  | inr later ↦ simp later (ground (arith, has_text-without text other ks ne))
]

All-without :
    (text : Text) (keys : List MasterKey) (cs : List Text)
    → All (λ d. text_eq text d ≡ false) cs
    → All (λ d. has_text d keys ≡ true) cs
    → All (λ d. has_text d (without text keys) ≡ true) cs
All-without text keys [] ne h = tt
All-without text keys (d ∷ cs) ne h =
    (has_text-without text d keys ne.0 h.0, All-without text keys cs ne.1 h.1)

-- Different texts that keys have are no more than the keys.
no_more_texts :
    (cs : List Text) (keys : List MasterKey)
    → AllDiffer cs
    → All (λ d. has_text d keys ≡ true) cs
    → length cs ≤ length keys
no_more_texts [] keys d h = omega arith
no_more_texts (c ∷ cs) keys d h =
    let rest = no_more_texts cs (without c keys) d.1 (All-without c keys cs d.0 h.1) in
    omega (arith, rest, length-without c keys h.0)

is_taken-has_text :
    (id : ℕ) (text : Text) (keys : List MasterKey)
    → is_taken id text keys ≡ true
    → has_text text keys ≡ true
is_taken-has_text id text [] h = cc h
is_taken-has_text id text (k ∷ ks) h = ground (arith, is_taken-has_text id text ks)

-- The loop ends, or every candidate is taken.
rotate_loop-cases :
    (id : ℕ) (keys : List MasterKey) (cs : List Text)
    → ((text : Text) × (rotate_loop id keys (map some cs) ≡ some (inr text)))
      ⊎ All (λ d. has_text d keys ≡ true) cs
unfolding rotate_loop
rotate_loop-cases id keys [] = inr tt
rotate_loop-cases id keys (c ∷ cs) = elim (Bool-cases (is_taken id c keys)) [
  | inr free ↦ inl (c, rw free refl)
  | inl taken ↦ elim (rotate_loop-cases id keys cs) [
    | inl (text, e) ↦ inl (text, rw taken e)
    | inr all ↦ inr (is_taken-has_text id c keys taken, all)
  ]
]

-- The loop of RotateMasterKey ends with a text once generateMasterKeyValue has given more different
-- texts than there are keys.
pub rotate_loop-ends :
    (id : ℕ) (keys : List MasterKey) (candidates : List Text)
    → AllDiffer candidates
    → length keys < length candidates
    → (text : Text) × (rotate_loop id keys (map some candidates) ≡ some (inr text))
rotate_loop-ends id keys candidates d longer = elim (rotate_loop-cases id keys candidates) [
  | inl ended ↦ ended
  | inr all ↦ absurd (omega (arith, longer, no_more_texts candidates keys d all))
]
