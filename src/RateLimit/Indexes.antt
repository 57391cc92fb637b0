-- ===== src/RateLimit/Indexes.antt =====
-- The police indexes that assign gives: in the module's range, one for each group, none of an
-- action that is being released.
use akastr_agent.Base.{
  ℕ, zero, suc, ◌+◌, ◌-◌, ◌≤◌, ◌<◌, String, Bool, true, false, ◌&&◌, none, some, List, [], ◌∷◌,
  Assoc, get, put, get-put, get-put_cases, ltb, leb, is_some, if◌then◌else◌, String-discrete,
  ℕ_discrete, sort, str_leb, ◌≡◌, ◌≢◌, refl, sym, subst, ◌∙◌, ◌⊎◌, inl, inr, arith, All, All-sort,
}
use akastr_agent.RateLimit.{Wanted, Rules, action_base, max_users}
use akastr_agent.RateLimit.Assign.{has, use_all, keep, newcomers, free_from, place, assign}

pub get-keep :
    (rates : Assoc String ℕ) (m : Assoc String ℕ) (g : String)
    → get (keep rates m) g ≡ (if is_some (get rates g) then get m g else none)
unfolding keep get
get-keep rates [] g = ground arith
get-keep rates ((h, i) ∷ m) g = ground (arith, get-put (keep rates m) h g i, get-keep rates m g)

-- The module's own indexes.
abbrev pub InRange : ℕ → Type 0
InRange i = (action_base < i) × (i ≤ action_base + max_users)

pub use_all_orphans :
    (m : Assoc String ℕ) (used : List ℕ) (i : ℕ) → has used i ≡ true → has (use_all m used) i ≡ true
unfolding use_all has
use_all_orphans [] used i h = h
use_all_orphans ((g, j) ∷ m) used i h = ground (arith, use_all_orphans m used i h)

pub has-use_all :
    (m : Assoc String ℕ) (used : List ℕ) (g : String) (i : ℕ)
    → get m g ≡ some i
    → has (use_all m used) i ≡ true
unfolding use_all has get
has-use_all [] used g i h = ground arith
has-use_all ((k, j) ∷ m) used g i h = ground (arith, has-use_all m used g i)

-- With this much fuel the loop ends at the lowest index from `next` on that is free, or past the
-- last one.
pub free_from_lowest :
    (n : ℕ) (used : List ℕ) (next : ℕ)
    → suc max_users ≤ n + next
    → let free = free_from n used next in
      (next ≤ free)
      × ((max_users < free) ⊎ (has used (action_base + free) ≡ false))
      × ((i : ℕ) → next ≤ i → i < free → has used (action_base + i) ≡ true)
unfolding free_from
free_from_lowest zero used next h =
    (omega arith, inl (omega (arith, h)), λ i a b. absurd (omega (arith, a, b)))
free_from_lowest (suc n) used next h =
    go (leb next max_users) refl (has used (action_base + next)) refl
      (free_from_lowest n used (suc next) (omega (arith, h)))
  where
    later : ℕ
    later = free_from n used (suc next)

    go :
        (b : Bool)
        → leb next max_users ≡ b
        → (c : Bool) → has used (action_base + next) ≡ c
        → (suc next ≤ later)
          × ((max_users < later) ⊎ (has used (action_base + later) ≡ false))
          × ((i : ℕ) → suc next ≤ i → i < later → has used (action_base + i) ≡ true)
        → let free = if b && c then later else next in
          (next ≤ free)
          × ((max_users < free) ⊎ (has used (action_base + free) ≡ false))
          × ((i : ℕ) → next ≤ i → i < free → has used (action_base + i) ≡ true)
    go true q true p ih = (
      omega (arith, ih.0),
      ih.1,
      λ i a b. elim (ℕ_discrete next i) [
        | yes e ↦ subst (λ x. has used (action_base + x) ≡ true) e p
        | no ne ↦ ih.2 i (omega (arith, a, ne)) b
      ],
    )
    go true q false p ih = (omega arith, inr p, λ i a b. absurd (omega (arith, a, b)))
    go false q c p ih =
        (omega arith, inl (ground (arith, q)), λ i a b. absurd (omega (arith, a, b)))

-- Of indexes: each in range and of no orphan, no two groups with the same one.
abbrev pub Sound : List ℕ → Assoc String ℕ → Type 0
Sound orphans m =
    ((g : String) (i : ℕ) → get m g ≡ some i → InRange i × (has orphans i ≡ false))
    × ((g h : String) (i : ℕ) → get m g ≡ some i → get m h ≡ some i → g ≡ h)

-- Of indexes given so far: each is in use, or below the next one to try.
abbrev Below : List ℕ → ℕ → Assoc String ℕ → Type 0
Below used next m =
    (g : String) (i : ℕ) → get m g ≡ some i → (has used i ≡ true) ⊎ (i < action_base + next)

module _ (orphans used : List ℕ) (wider : (i : ℕ) → has orphans i ≡ true → has used i ≡ true) where
  place_one :
      (m : Assoc String ℕ) (next free : ℕ) (g : String)
      → next ≤ free
      → 1 ≤ next
      → free ≤ max_users
      → has used (action_base + free) ≡ false
      → Sound orphans m
      → Below used next m
      → Sound orphans (put m g (action_base + free))
        × Below used (suc free) (put m g (action_base + free))
  place_one m next free g le one ge p (s, u) b = ((range, unique), below)
    where
      new : ℕ
      new = action_base + free

      fresh : (h : String) → get m h ≡ some new → ⊥
      fresh h q = ground (arith, b h new q, p)

      range :
          (h : String) (i : ℕ) → get (put m g new) h ≡ some i → InRange i × (has orphans i ≡ false)
      range h i q = elim (get-put_cases m g h new i q) [
        | inl e ↦
            subst (λ x. InRange x × (has orphans x ≡ false)) e.1
              ((omega (arith, one, le), omega (arith, ge)), ground (arith, wider new, p))
        | inr e ↦ s h i e.1
      ]

      unique :
          (h k : String) (i : ℕ)
          → get (put m g new) h ≡ some i
          → get (put m g new) k ≡ some i
          → h ≡ k
      unique h k i q r = elim (get-put_cases m g h new i q) [
        | inl e ↦ elim (get-put_cases m g k new i r) [
          | inl f ↦ sym e.0 ∙ f.0
          | inr f ↦ absurd (fresh k (subst (λ x. get m k ≡ some x) (sym e.1) f.1))
        ]
        | inr e ↦ elim (get-put_cases m g k new i r) [
          | inl f ↦ absurd (fresh h (subst (λ x. get m h ≡ some x) (sym f.1) e.1))
          | inr f ↦ u h k i e.1 f.1
        ]
      ]

      below : Below used (suc free) (put m g new)
      below h i q = elim (get-put_cases m g h new i q) [
        | inl e ↦ inr (omega (arith, e.1))
        | inr e ↦ elim (b h i e.1) [ inl t ↦ inl t | inr lt ↦ inr (omega (arith, lt, le)) ]
      ]

  place-Sound :
      (gs : List String) (next : ℕ) (m : Assoc String ℕ)
      → 1 ≤ next
      → Sound orphans m
      → Below used next m
      → Sound orphans (place used gs next m)
  unfolding place
  place-Sound [] next m one s b = s
  place-Sound (g ∷ gs) next m one s b =
      go (ltb max_users free) refl (free_from_lowest (suc max_users - next) used next (omega arith))
        (λ n. place-Sound gs (suc free) n (omega arith))
    where
      free : ℕ
      free = free_from (suc max_users - next) used next

      go :
          (t : Bool)
          → ltb max_users free ≡ t
          → (next ≤ free)
            × ((max_users < free) ⊎ (has used (action_base + free) ≡ false))
            × ((i : ℕ) → next ≤ i → i < free → has used (action_base + i) ≡ true)
          → ((n : Assoc String ℕ)
              → Sound orphans n
              → Below used (suc free) n
              → Sound orphans (place used gs (suc free) n))
          → Sound orphans (if t then m else place used gs (suc free) (put m g (action_base + free)))
      go true q f ih = s
      go false q f ih = ih (put m g (action_base + free)) new.0 new.1
        where
          new :
              Sound orphans (put m g (action_base + free))
              × Below used (suc free) (put m g (action_base + free))
          new = place_one m next free g f.0 one (ground (arith, q)) (ground (arith, q, f.1)) s b

keep-Sound :
    (orphans : List ℕ) (rates m : Assoc String ℕ) → Sound orphans m → Sound orphans (keep rates m)
keep-Sound orphans rates m (s, u) =
    (λ g i q. s g i (kept g i q), λ g h i q r. u g h i (kept g i q) (kept h i r))
  where
    kept : (g : String) (i : ℕ) → get (keep rates m) g ≡ some i → get m g ≡ some i
    kept g i q = ground (arith, get-keep rates m g)

-- When the indexes that are in use are sound, those that assign gives are.
pub assign-Sound :
    (r : Rules) (w : Wanted) → Sound r.orphans r.actions → Sound r.orphans (assign r w)
unfolding assign
assign-Sound r w s =
    place-Sound r.orphans (use_all r.actions r.orphans) (λ i. use_all_orphans r.actions r.orphans i)
      (sort str_leb (newcomers (keep w.rates r.actions) w.rates)) 1 (keep w.rates r.actions)
      (omega arith) (keep-Sound r.orphans w.rates r.actions s)
      (λ g i q.
        inl (has-use_all r.actions r.orphans g i (ground (arith, get-keep w.rates r.actions g))))

place_stable :
    (used : List ℕ) (g : String) (i : ℕ) (gs : List String) (next : ℕ) (m : Assoc String ℕ)
    → All (λ h. h ≢ g) gs
    → get m g ≡ some i
    → get (place used gs next m) g ≡ some i
unfolding place
place_stable used g i [] next m n q = q
place_stable used g i (h ∷ gs) next m n q = go (ltb max_users free) (
    place_stable used g i gs (suc free) (put m h (action_base + free)) n.1
      (ground (arith, get-put m h g (action_base + free), n.0)))
  where
    free : ℕ
    free = free_from (suc max_users - next) used next

    go :
        (t : Bool)
        → get (place used gs (suc free) (put m h (action_base + free))) g ≡ some i
        → get (if t then m else place used gs (suc free) (put m h (action_base + free))) g ≡ some i
    go true ih = q
    go false ih = ih

newcomers_new :
    (index : Assoc String ℕ) (g : String) (i : ℕ) (rates : Assoc String ℕ)
    → get index g ≡ some i
    → All (λ h. h ≢ g) (newcomers index rates)
unfolding newcomers
newcomers_new index g i [] q = tt
newcomers_new index g i ((h, r) ∷ rates) q =
    go (is_some (get index h)) refl (newcomers_new index g i rates q)
  where
    go :
        (b : Bool)
        → is_some (get index h) ≡ b
        → All (λ k. k ≢ g) (newcomers index rates)
        → All (λ k. k ≢ g) (if b then newcomers index rates else h ∷ newcomers index rates)
    go true t ih = ih
    go false t ih = (λ e. ground (arith, t, q, e), ih)

-- A group that has an index and is still wanted keeps it.
pub assign_stable :
    (r : Rules) (w : Wanted) (g : String) (i : ℕ)
    → get r.actions g ≡ some i
    → is_some (get w.rates g) ≡ true
    → get (assign r w) g ≡ some i
unfolding assign
assign_stable r w g i q t =
    place_stable (use_all r.actions r.orphans) g i
      (sort str_leb (newcomers (keep w.rates r.actions) w.rates)) 1 (keep w.rates r.actions)
      (All-sort str_leb (λ h. h ≢ g) (newcomers (keep w.rates r.actions) w.rates)
        (newcomers_new (keep w.rates r.actions) g i w.rates kept))
      kept
  where
    kept : get (keep w.rates r.actions) g ≡ some i
    kept = ground (arith, get-keep w.rates r.actions g, q, t)
