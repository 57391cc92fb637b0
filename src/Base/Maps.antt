-- ===== src/Base/Maps.antt =====
-- A Go map as an association list. Go visits a map in any order, and so does the model: a loop
-- over a map runs in the order of the list, about which nothing is assumed.
use mathlib.Core.Path.{◌≡◌}
use mathlib.Core.Logic.{◌≢◌, ite, ◌⊎◌}
use mathlib.Core.List.{List, [], ◌∷◌}
use mathlib.Core.Option.{Option, none, some}
use native.Mathlib.Omega.{arith}
use akastr_agent.Base.Lists.{All}

abbrev pub Assoc {ℓ} : Type ℓ → Type ℓ → Type ℓ
Assoc K V = List (K × V)

-- A Go map holds no key twice.
abbrev pub Distinct {ℓ} : {K V : Type ℓ} → Assoc K V → Type ℓ
Distinct [] = Unit
Distinct (e ∷ m) = All (λ o. o.0 ≢ e.0) m × Distinct m

module _ {ℓ} {K V : Type ℓ} ⦃dec : Discrete K⦄ where
  -- m[k]
  unfoldable pub get : Assoc K V → K → Option V
  get [] k = none
  get ((j, v) ∷ m) k = ite (dec j k) (some v) (get m k)

  -- delete(m, k)
  unfoldable pub delete : Assoc K V → K → Assoc K V
  delete [] k = []
  delete ((j, v) ∷ m) k = let rest = delete m k in ite (dec j k) rest ((j, v) ∷ rest)

  -- m[k] = v
  unfoldable pub put : Assoc K V → K → V → Assoc K V
  put m k v = (k, v) ∷ delete m k

  pub get-delete : (m : Assoc K V) (k j : K) → get (delete m k) j ≡ ite (dec k j) none (get m j)
  unfolding get delete
  get-delete [] k j = ground arith
  get-delete ((i, v) ∷ m) k j = ground (arith, get-delete m k j)

  pub get-put :
      (m : Assoc K V) (k j : K) (v : V) → get (put m k v) j ≡ ite (dec k j) (some v) (get m j)
  unfolding get put
  get-put m k j v = ground (arith, get-delete m k j)

  -- What is there after a write was written or was there.
  pub get-put_cases :
      (m : Assoc K V) (k j : K) (v w : V)
      → get (put m k v) j ≡ some w
      → ((k ≡ j) × (v ≡ w)) ⊎ ((k ≢ j) × (get m j ≡ some w))
  get-put_cases m k j v w h = ground (arith, get-put m k j v)

  -- A predicate of all entries survives a deletion.
  pub All-delete {κ} : (P : K × V → Type κ) (m : Assoc K V) (k : K) → All P m → All P (delete m k)
  unfolding delete
  All-delete P [] k h = tt
  All-delete P ((j, v) ∷ m) k h =
      elim (dec j k) as (λ d. All P (ite d (delete m k) ((j, v) ∷ delete m k))) [
        | yes e ↦ All-delete P m k h.1
        | no n ↦ (h.0, All-delete P m k h.1)
      ]

  pub All-get {κ} :
      (P : K × V → Type κ) (m : Assoc K V) (k : K) (v : V) → All P m → get m k ≡ some v → P (k, v)
  unfolding get
  All-get P [] k v h e = ground arith
  All-get P ((j, w) ∷ m) k v h e = ground (arith, All-get P m k v h.1)

  -- The key is gone.
  pub delete_absent : (m : Assoc K V) (k : K) → All (λ o. o.0 ≢ k) (delete m k)
  unfolding delete
  delete_absent [] k = tt
  delete_absent ((j, v) ∷ m) k = ground (arith, delete_absent m k)

  pub Distinct-delete : (m : Assoc K V) (k : K) → Distinct m → Distinct (delete m k)
  unfolding delete
  Distinct-delete [] k d = tt
  Distinct-delete ((j, v) ∷ m) k d =
      ground (arith, Distinct-delete m k d.1, All-delete (λ o. o.0 ≢ j) m k d.0)

  pub Distinct-put : (m : Assoc K V) (k : K) (v : V) → Distinct m → Distinct (put m k v)
  unfolding put
  Distinct-put m k v d = (delete_absent m k, Distinct-delete m k d)

  -- Deleting a key that is not there changes nothing.
  pub delete_of_absent : (m : Assoc K V) (k : K) → get m k ≡ none → delete m k ≡ m
  unfolding get delete
  delete_of_absent [] k e = ground arith
  delete_of_absent ((j, v) ∷ m) k e = ground (arith, delete_of_absent m k)

  -- Of an entry that is deleted nothing need be known.
  pub All-delete_head {κ} :
      (P : K × V → Type κ) (m : Assoc K V) (j k : K) (v : V)
      → j ≡ k
      → All P m
      → All P (delete ((j, v) ∷ m) k)
  unfolding delete
  All-delete_head P m j k v e h =
      elim (dec j k) as (λ d. All P (ite d (delete m k) ((j, v) ∷ delete m k))) [
        | yes _ ↦ All-delete P m k h
        | no n ↦ absurd (n e)
      ]

  pub delete_of_ne : (m : Assoc K V) (k : K) → All (λ o. o.0 ≢ k) m → delete m k ≡ m
  unfolding delete
  delete_of_ne [] k h = ground arith
  delete_of_ne ((j, v) ∷ m) k h = ground (arith, delete_of_ne m k h.1)
