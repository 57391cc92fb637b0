-- ===== src/Base/Sort.antt =====
-- Sorting as Go's slices.Sorted and slices.SortFunc do, on an order given as a test; and membership.
use Prim.Native.String.{String, compare}
use Prim.Native.Nat.{Ordering}
use mathlib.Core.Path.{◌≡◌, refl, subst}
use mathlib.Core.Bool.{Bool, true, false}
use mathlib.Core.Logic.{◌⊎◌, inl, inr}
use mathlib.Core.List.{List, [], ◌∷◌}
use akastr_agent.Base.Lists.{All}
use akastr_agent.Base.Tests.{if◌then◌else◌}

-- Go's order of texts, by their bytes.
abbrev pub str_leb : String → String → Bool
str_leb a b = elim (compare a b) [ Ordering.gt ↦ false | _ ↦ true ]

abbrev pub Elem : {A : Type 0} → A → List A → Type 0
Elem a [] = ⊥
Elem a (x ∷ xs) = (x ≡ a) ⊎ Elem a xs

module _ {A : Type 0} (before : A → A → Bool) where
  unfoldable pub insert : A → List A → List A
  insert a [] = a ∷ []
  insert a (x ∷ xs) = let rest = insert a xs in if before a x then a ∷ x ∷ xs else x ∷ rest

  unfoldable pub sort : List A → List A
  sort [] = []
  sort (x ∷ xs) = insert x (sort xs)

  All-insert {κ} : (P : A → Type κ) (a : A) (xs : List A) → P a → All P xs → All P (insert a xs)
  unfolding insert
  All-insert P a [] p h = (p, tt)
  All-insert P a (x ∷ xs) p h =
      elim (before a x) as (λ b. All P (if b then a ∷ x ∷ xs else x ∷ insert a xs)) [
        | true ↦ (p, h)
        | false ↦ (h.0, All-insert P a xs p h.1)
      ]

  -- A sorted list has the elements of the list, no more
  pub All-sort {κ} : (P : A → Type κ) (xs : List A) → All P xs → All P (sort xs)
  unfolding sort
  All-sort P [] h = tt
  All-sort P (x ∷ xs) h = All-insert P x (sort xs) h.0 (All-sort P xs h.1)

  Elem-insert : (a b : A) (xs : List A) → (a ≡ b) ⊎ Elem b xs → Elem b (insert a xs)
  unfolding insert
  Elem-insert a b [] h = h
  Elem-insert a b (x ∷ xs) h =
      elim (before a x) as (λ t. Elem b (if t then a ∷ x ∷ xs else x ∷ insert a xs)) [
        | true ↦ h
        | false ↦ elim h [
          | inl e ↦ inr (Elem-insert a b xs (inl e))
          | inr k ↦ elim k [ inl e ↦ inl e | inr m ↦ inr (Elem-insert a b xs (inr m)) ]
        ]
      ]

  -- and no less.
  pub Elem-sort : (b : A) (xs : List A) → Elem b xs → Elem b (sort xs)
  unfolding sort
  Elem-sort b [] h = h
  Elem-sort b (x ∷ xs) h =
      Elem-insert x b (sort xs) (elim h [ inl e ↦ inl e | inr k ↦ inr (Elem-sort b xs k) ])

pub Elem-All {κ} : {A : Type 0} (P : A → Type κ) (a : A) (xs : List A) → Elem a xs → All P xs → P a
Elem-All P a [] h p = absurd h
Elem-All P a (x ∷ xs) (inl e) p = subst P e p.0
Elem-All P a (x ∷ xs) (inr h) p = Elem-All P a xs h p.1

All-Elem_tail :
    {A : Type 0} (x : A) (xs ys : List A) → All (λ a. Elem a xs) ys → All (λ a. Elem a (x ∷ xs)) ys
All-Elem_tail x xs [] h = tt
All-Elem_tail x xs (y ∷ ys) h = (inr h.0, All-Elem_tail x xs ys h.1)

-- Each element of a list is one.
pub All-Elem : {A : Type 0} (xs : List A) → All (λ a. Elem a xs) xs
All-Elem [] = tt
All-Elem (x ∷ xs) = (inl refl, All-Elem_tail x xs xs (All-Elem xs))
