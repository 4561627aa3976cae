-- ===== src/Prelude/Text/Trim.antt =====
-- What strings.TrimSpace and strings.ToLower leave alone.
use mathlib.Core.List.{reverse, reverse-append, reverse-reverse, reverse-cons, map-append}
use nvidia_api_gateway.Prelude.Tests.{Bool-cases}
use Prim.Native.Nat.{ℕ}
use mathlib.Core.Path.{◌≡◌, refl, sym, ap, ◌∙◌, subst}
use mathlib.Core.Logic.{inl, inr}
use mathlib.Core.Bool.{false}
use mathlib.Core.List.{[], ◌∷◌, ◌++◌, map}
use native.Mathlib.Omega.{arith}
use nvidia_api_gateway.Prelude.Text.{Text, is_space, trim_left, trim_space, to_lower_rune, to_lower}

-- No space stands in front.
abbrev pub NoLead : Text → Type 0
NoLead [] = Unit
NoLead (c ∷ s) = is_space c ≡ false

trim_left-NoLead : (s : Text) → NoLead (trim_left s)
unfolding trim_left
trim_left-NoLead [] = tt
trim_left-NoLead (c ∷ s) = elim (Bool-cases (is_space c)) [
  | inl space ↦ rw space (trim_left-NoLead s)
  | inr word ↦ rw word word
]

trim_left_fixed : (s : Text) → NoLead s → trim_left s ≡ s
unfolding trim_left
trim_left_fixed [] h = refl
trim_left_fixed (c ∷ s) h = rw h

trim_left_split : (s : Text) → (p : Text) × (s ≡ p ++ trim_left s)
unfolding trim_left
trim_left_split [] = ([], refl)
trim_left_split (c ∷ s) = elim (Bool-cases (is_space c)) [
  | inl space ↦ let (p, e) = trim_left_split s in (c ∷ p, rw space (ap (◌∷◌ c) e))
  | inr word ↦ ([], rw word)
]

NoLead-prefix : (r q : Text) → NoLead (r ++ q) → NoLead r
NoLead-prefix [] q h = tt
NoLead-prefix (c ∷ r) q h = h

-- No space stands in front or at the end.
pub record IsTrimmed (s : Text) : Type 0 where
  pub front : NoLead s
  pub back : NoLead (reverse s)

pub trim_space-IsTrimmed : (s : Text) → IsTrimmed (trim_space s)
unfolding trim_space
trim_space-IsTrimmed s =
    let t = trim_left s in
    let u = trim_left (reverse t) in
    let (p, e) = trim_left_split (reverse t) in
    let whole : t ≡ reverse u ++ reverse p =
      sym (reverse-reverse t) ∙ (ap reverse e ∙ reverse-append p u) in
    record {
      front = NoLead-prefix (reverse u) (reverse p) (subst NoLead whole (trim_left-NoLead s));
      back = rw (reverse-reverse u) (trim_left-NoLead (reverse t));
    }

pub trim_space_fixed : (s : Text) → IsTrimmed s → trim_space s ≡ s
unfolding trim_space
trim_space_fixed s h =
    rw (trim_left_fixed s h.front, trim_left_fixed (reverse s) h.back) (reverse-reverse s)

pub trim_space_idem : (s : Text) → trim_space (trim_space s) ≡ trim_space s
trim_space_idem s = trim_space_fixed (trim_space s) (trim_space-IsTrimmed s)

to_lower_rune_space : (c : ℕ) → is_space (to_lower_rune c) ≡ is_space c
unfolding is_space to_lower_rune
to_lower_rune_space c = ground arith

NoLead-to_lower : (s : Text) → NoLead s → NoLead (map to_lower_rune s)
NoLead-to_lower [] h = tt
NoLead-to_lower (c ∷ s) h = rw (to_lower_rune_space c) h

map-reverse : (f : ℕ → ℕ) (s : Text) → map f (reverse s) ≡ reverse (map f s)
map-reverse f [] = refl
map-reverse f (c ∷ s) =
    ap (map f) (reverse-cons c s)
    ∙ (map-append f (reverse s) (c ∷ [])
        ∙ (ap (λ t. t ++ f c ∷ []) (map-reverse f s) ∙ sym (reverse-cons (f c) (map f s))))

pub to_lower-IsTrimmed : (s : Text) → IsTrimmed s → IsTrimmed (to_lower s)
unfolding to_lower
to_lower-IsTrimmed s h = record {
  front = NoLead-to_lower s h.front;
  back = subst NoLead (map-reverse to_lower_rune s) (NoLead-to_lower (reverse s) h.back);
}

to_lower_rune_idem : (c : ℕ) → to_lower_rune (to_lower_rune c) ≡ to_lower_rune c
unfolding to_lower_rune
to_lower_rune_idem c = ground arith

pub to_lower_idem : (s : Text) → to_lower (to_lower s) ≡ to_lower s
unfolding to_lower
to_lower_idem [] = refl
to_lower_idem (c ∷ s) = rw (to_lower_rune_idem c, to_lower_idem s)
