-- ===== src/Models/Proxies/Sources.antt =====
-- What is in a cleaned list of sources.
use nvidia_api_gateway.Prelude.{
  Bool, true, false, not, ◌&&◌, ◌||◌, List, [], ◌∷◌, ◌++◌, any, ◌≡◌, refl, ◌∙◌, arith, Bool-cases,
  inl, inr,
}
use nvidia_api_gateway.Prelude.Text.{Text, text_eq, text_eq_iff, text_eq_sym, trim_space, is_empty}
use nvidia_api_gateway.Models.Proxies.{
  text_leb, insert_text, sort_strings, clean_loop, normalize_proxy_source_list,
}

-- The list has this text.
abbrev pub has : Text → List Text → Bool
has x items = any (text_eq x) items

-- No text stands twice in the list.
abbrev pub NoTwice : List Text → Type 0
NoTwice [] = Unit
NoTwice (x ∷ xs) = (has x xs ≡ false) × NoTwice xs

-- Each text comes before those after it.
abbrev pub IsSorted : List Text → Type 0
IsSorted [] = Unit
IsSorted (x ∷ []) = Unit
IsSorted (x ∷ y ∷ ys) = (text_leb x y ≡ true) × IsSorted (y ∷ ys)

has-append : (x : Text) (xs ys : List Text) → has x (xs ++ ys) ≡ has x xs || has x ys
has-append x [] ys = refl
has-append x (z ∷ xs) ys = ground (arith, has-append x xs ys)

has-insert_text : (x y : Text) (ys : List Text) → has x (insert_text y ys) ≡ text_eq x y || has x ys
unfolding insert_text
has-insert_text x y [] = ground arith
has-insert_text x y (z ∷ ys) = ground (arith, has-insert_text x y ys)

has-sort_strings : (x : Text) (xs : List Text) → has x (sort_strings xs) ≡ has x xs
unfolding sort_strings
has-sort_strings x [] = refl
has-sort_strings x (y ∷ ys) =
    ground (arith, has-insert_text x y (sort_strings ys), has-sort_strings x ys)

NoTwice-insert_text :
    (y : Text) (ys : List Text) → has y ys ≡ false → NoTwice ys → NoTwice (insert_text y ys)
unfolding insert_text
NoTwice-insert_text y [] h n = ground arith
NoTwice-insert_text y (z ∷ ys) h n =
    ground (arith, NoTwice-insert_text y ys, has-insert_text z y ys, text_eq_sym z y)

NoTwice-sort_strings : (xs : List Text) → NoTwice xs → NoTwice (sort_strings xs)
unfolding sort_strings
NoTwice-sort_strings [] n = tt
NoTwice-sort_strings (x ∷ xs) n =
    NoTwice-insert_text x (sort_strings xs) (has-sort_strings x xs ∙ n.0)
      (NoTwice-sort_strings xs n.1)

leb_total : (x y : Text) → text_leb x y ≡ false → text_leb y x ≡ true
unfolding text_leb
leb_total [] y h = absurd (ground arith)
leb_total (a ∷ x) [] h = refl
leb_total (a ∷ x) (b ∷ y) h = ground (arith, leb_total x y)

IsSorted-insert_text : (y : Text) (ys : List Text) → IsSorted ys → IsSorted (insert_text y ys)
unfolding insert_text
IsSorted-insert_text y [] s = tt
IsSorted-insert_text y (z ∷ []) s = ground (arith, leb_total y z)
IsSorted-insert_text y (z ∷ w ∷ ws) s =
    ground (arith, leb_total y z, IsSorted-insert_text y (w ∷ ws))

IsSorted-sort_strings : (xs : List Text) → IsSorted (sort_strings xs)
unfolding sort_strings
IsSorted-sort_strings [] = tt
IsSorted-sort_strings (x ∷ xs) = IsSorted-insert_text x (sort_strings xs) (IsSorted-sort_strings xs)

-- Some item is this text but for the spaces around it, and the text is not empty.
abbrev pub wanted : Text → List Text → Bool
wanted x items = not (is_empty x) && any (λ item. text_eq x (trim_space item)) items

NoTwice-append :
    (xs : List Text) (y : Text) → has y xs ≡ false → NoTwice xs → NoTwice (xs ++ y ∷ [])
NoTwice-append [] y h n = (refl, tt)
NoTwice-append (x ∷ xs) y h n =
    ground (arith, NoTwice-append xs y, has-append x xs (y ∷ []), text_eq_sym x y)

clean_loop-NoTwice :
    (cleaned items : List Text) → NoTwice cleaned → NoTwice (clean_loop cleaned items)
unfolding clean_loop
clean_loop-NoTwice cleaned [] n = n
clean_loop-NoTwice cleaned (item ∷ items) n =
    elim (Bool-cases (is_empty (trim_space item) || any (text_eq (trim_space item)) cleaned)) [
      | inl e ↦ rw e (clean_loop-NoTwice cleaned items n)
      | inr e ↦ rw e (
          clean_loop-NoTwice (cleaned ++ trim_space item ∷ []) items
            (NoTwice-append cleaned (trim_space item) (ground arith) n))
    ]

has_same : (x y : Text) (ys : List Text) → text_eq x y ≡ true → has x ys ≡ has y ys
has_same x y ys e = ground (arith, text_eq_iff x y)

has-clean_loop :
    (x : Text) (cleaned items : List Text)
    → has x (clean_loop cleaned items) ≡ has x cleaned || wanted x items
unfolding clean_loop
has-clean_loop x cleaned [] = ground arith
has-clean_loop x cleaned (item ∷ items) =
    elim (Bool-cases (is_empty (trim_space item) || any (text_eq (trim_space item)) cleaned)) [
      | inl e ↦ rw e (
          has-clean_loop x cleaned items
          ∙ ground (arith, has_same x (trim_space item) cleaned, text_eq_iff x (trim_space item)))
      | inr e ↦ rw e (
          has-clean_loop x (cleaned ++ trim_space item ∷ []) items
          ∙ ground
              (arith, has-append x cleaned (trim_space item ∷ []), text_eq_iff x (trim_space item)))
    ]

-- normalizeProxySourceList: the result is sorted, no text stands twice in it, and it has exactly the
-- texts that are not empty and are some item without the spaces around it.
pub normalize_proxy_source_list-IsSorted :
    (items : List Text)
    → IsSorted (normalize_proxy_source_list items)
      × NoTwice (normalize_proxy_source_list items)
      × ((x : Text) → has x (normalize_proxy_source_list items) ≡ wanted x items)
unfolding normalize_proxy_source_list
normalize_proxy_source_list-IsSorted items = (
  IsSorted-sort_strings (clean_loop [] items),
  NoTwice-sort_strings (clean_loop [] items) (clean_loop-NoTwice [] items tt),
  λ x. has-sort_strings x (clean_loop [] items) ∙ has-clean_loop x [] items,
)
