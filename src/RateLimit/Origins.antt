-- ===== src/RateLimit/Origins.antt =====
-- Where the police indexes that assign gives come from.
use akastr_agent.Base.{
  ℕ, suc, ◌+◌, ◌-◌, ◌≤◌, ◌<◌, String, Bool, true, false, some, List, [], ◌∷◌, Assoc, get, put,
  get-put_cases, ltb, is_some, if◌then◌else◌, String-discrete, sort, str_leb, ◌≡◌, refl, subst, ◌⊎◌,
  inl, inr, arith, All, All-sort, Elem, Elem-All,
}
use akastr_agent.RateLimit.{Wanted, Rules, action_base, max_users}
use akastr_agent.RateLimit.Assign.{has, use_all, keep, newcomers, free_from, place, assign}
use akastr_agent.RateLimit.Indexes.{free_from_lowest, get-keep}

place_origin :
    (used : List ℕ) (g : String) (i : ℕ) (gs : List String) (next : ℕ) (m : Assoc String ℕ)
    → get (place used gs next m) g ≡ some i
    → (get m g ≡ some i) ⊎ (Elem g gs × (has used i ≡ false))
unfolding place
place_origin used g i [] next m q = inl q
place_origin used g i (h ∷ gs) next m q =
    go (ltb max_users free) refl q (free_from_lowest (suc max_users - next) used next (omega arith))
      (place_origin used g i gs (suc free) (put m h (action_base + free)))
  where
    free : ℕ
    free = free_from (suc max_users - next) used next

    later : Assoc String ℕ
    later = place used gs (suc free) (put m h (action_base + free))

    go :
        (t : Bool)
        → ltb max_users free ≡ t
        → get (if t then m else later) g ≡ some i
        → (next ≤ free)
          × ((max_users < free) ⊎ (has used (action_base + free) ≡ false))
          × ((k : ℕ) → next ≤ k → k < free → has used (action_base + k) ≡ true)
        → (get later g ≡ some i
            → (get (put m h (action_base + free)) g ≡ some i) ⊎ (Elem g gs × (has used i ≡ false)))
        → (get m g ≡ some i) ⊎ (Elem g (h ∷ gs) × (has used i ≡ false))
    go true t e f ih = inl e
    go false t e f ih = elim (ih e) [
      | inr k ↦ inr (inr k.0, k.1)
      | inl k ↦ elim (get-put_cases m h g (action_base + free) i k) [
        | inl c ↦ inr (inl c.0, subst (λ j. has used j ≡ false) c.1 (ground (arith, t, f.1)))
        | inr c ↦ inl c.1
      ]
    ]

newcomers_wanted :
    (index rates ms : Assoc String ℕ)
    → ((g : String) → is_some (get ms g) ≡ true → is_some (get rates g) ≡ true)
    → All (λ g. is_some (get rates g) ≡ true) (newcomers index ms)
unfolding newcomers get
newcomers_wanted index rates [] f = tt
newcomers_wanted index rates ((h, r) ∷ ms) f =
    go (is_some (get index h)) (newcomers_wanted index rates ms (λ g q. f g (ground (arith, q))))
  where
    go :
        (b : Bool)
        → All (λ g. is_some (get rates g) ≡ true) (newcomers index ms)
        → All
            (λ g. is_some (get rates g) ≡ true)
            (if b then newcomers index ms else h ∷ newcomers index ms)
    go true ih = ih
    go false ih = (f h (ground arith), ih)

-- An index that assign gives is the one that the group had, or one that was not in use; and the
-- group is wanted.
pub assign_origin :
    (r : Rules) (w : Wanted) (g : String) (i : ℕ)
    → get (assign r w) g ≡ some i
    → ((get r.actions g ≡ some i) ⊎ (has (use_all r.actions r.orphans) i ≡ false))
      × (is_some (get w.rates g) ≡ true)
unfolding assign
assign_origin r w g i q =
    elim (place_origin (use_all r.actions r.orphans) g i (sort str_leb (newcomers index w.rates)) 1
      index q) [
        | inl k ↦ (
          inl (ground (arith, k, get-keep w.rates r.actions g)),
          ground (arith, k, get-keep w.rates r.actions g),
        )
        | inr k ↦ (
          inr k.1,
          Elem-All (λ h. is_some (get w.rates h) ≡ true) g (sort str_leb (newcomers index w.rates))
              k.0
              (All-sort str_leb (λ h. is_some (get w.rates h) ≡ true) (newcomers index w.rates)
                (newcomers_wanted index w.rates w.rates (λ h t. t))),
        )
      ]
  where
    index : Assoc String ℕ
    index = keep w.rates r.actions
