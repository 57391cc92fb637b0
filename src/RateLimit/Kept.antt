-- ===== src/RateLimit/Kept.antt =====
-- The invariant of the rules that converge keeps.
use akastr_agent.Base.{
  ℕ, suc, ◌+◌, ◌-◌, String, Bool, true, false, some, List, [], ◌∷◌, Assoc, Distinct, Distinct-put,
  get, put, ltb, ◌==◌, is_some, if◌then◌else◌, String-discrete, ℕ_discrete, sort, str_leb, ◌≡◌, ◌≢◌,
  refl, subst, ap, ◌⊎◌, inl, inr, arith, Elem, Elem-All, Bool-cases,
}
use akastr_agent.Ledger.{AddrPort}
use akastr_agent.RateLimit.{Rule, Rule-discrete, Wanted, Rules, action_base, max_users}
use akastr_agent.RateLimit.Assign.{assign, keep, newcomers, place, free_from, has, use_all}
use akastr_agent.RateLimit.Indexes.{Sound, assign-Sound, has-use_all}
use akastr_agent.RateLimit.Origins.{assign_origin}
use akastr_agent.RateLimit.Refined.{Indexed}
use akastr_agent.RateLimit.Converge.{index_of, record_batch, release_orphans}
use akastr_agent.RateLimit.Installs.{after, after-Indexed}

-- The entries of a map, one by one, are what it holds.
get_of_entry :
    (m : Assoc String ℕ) (g : String) (i : ℕ) → Distinct m → Elem (g, i) m → get m g ≡ some i
unfolding get
get_of_entry [] g i d h = absurd h
get_of_entry ((k, j) ∷ m) g i d (inl e) = ground (arith, ap (λ p. p.0) e, ap (λ p. p.1) e)
get_of_entry ((k, j) ∷ m) g i d (inr h) =
    ground (arith, get_of_entry m g i d.1 h, Elem-All (λ o. o.0 ≢ k) (g, i) m h d.0)

released_from :
    (index : Assoc String ℕ) (i : ℕ) (m : Assoc String ℕ) (orphans : List ℕ)
    → has (release_orphans index m orphans) i ≡ true
    → (has orphans i ≡ true) ⊎ ((g : String) × Elem (g, i) m × (index_of index g ≢ i))
unfolding has release_orphans
released_from index i [] orphans h = inl h
released_from index i ((g, j) ∷ m) orphans h =
    go (index_of index g == j) refl h (released_from index i m orphans)
  where
    rest : List ℕ
    rest = release_orphans index m orphans

    deeper :
        (has orphans i ≡ true) ⊎ ((k : String) × Elem (k, i) m × (index_of index k ≢ i))
        → (has orphans i ≡ true)
          ⊎ ((k : String) × Elem (k, i) ((g, j) ∷ m) × (index_of index k ≢ i))
    deeper (inl q) = inl q
    deeper (inr (k, e, n)) = inr (k, inr e, n)

    go :
        (b : Bool)
        → (index_of index g == j) ≡ b
        → has (if b then rest else j ∷ rest) i ≡ true
        → (has rest i ≡ true
            → (has orphans i ≡ true) ⊎ ((k : String) × Elem (k, i) m × (index_of index k ≢ i)))
        → (has orphans i ≡ true)
          ⊎ ((k : String) × Elem (k, i) ((g, j) ∷ m) × (index_of index k ≢ i))
    go true q t ih = deeper (ih t)
    go false q t ih = elim (ℕ_discrete j i) [
      | yes e ↦ inr (g, inl (ap (λ v. (g, v)) e), λ f. ground (arith, q, e, f))
      | no ne ↦ deeper (ih (ground (arith, t, ne)))
    ]

-- What converge keeps true of the rules: the indexes are sound, and each filter has one.
pub record RulesInv (r : Rules) : Type 0 where
  pub distinct : Distinct r.actions
  pub sound : Sound r.orphans r.actions
  pub indexed : Indexed r.filters

Distinct-keep : (rates m : Assoc String ℕ) → Distinct (keep rates m)
unfolding keep
Distinct-keep rates [] = tt
Distinct-keep rates ((g, i) ∷ m) =
    elim (is_some (get rates g))
      as (λ b. Distinct (if b then put (keep rates m) g i else keep rates m)) [
        | true ↦ Distinct-put (keep rates m) g i (Distinct-keep rates m)
        | false ↦ Distinct-keep rates m
      ]

Distinct-place :
    (used : List ℕ) (gs : List String) (next : ℕ) (m : Assoc String ℕ)
    → Distinct m
    → Distinct (place used gs next m)
unfolding place
Distinct-place used [] next m d = d
Distinct-place used (g ∷ gs) next m d =
    elim (ltb max_users free)
      as (λ b.
        Distinct (if b then m else place used gs (suc free) (put m g (action_base + free)))) [
          | true ↦ d
          | false ↦
              Distinct-place used gs (suc free) (put m g (action_base + free))
                (Distinct-put m g (action_base + free) d)
        ]
  where
    free : ℕ
    free = free_from (suc max_users - next) used next

Distinct-assign : (r : Rules) (w : Wanted) → Distinct (assign r w)
unfolding assign
Distinct-assign r w =
    Distinct-place (use_all r.actions r.orphans)
      (sort str_leb (newcomers (keep w.rates r.actions) w.rates)) 1 (keep w.rates r.actions)
      (Distinct-keep w.rates r.actions)

index_of-get : (m : Assoc String ℕ) (g : String) (i : ℕ) → get m g ≡ some i → index_of m g ≡ i
unfolding index_of
index_of-get m g i q = ground (arith, q)

-- No index given is one that is being released.
unreleased :
    (r : Rules) (w : Wanted)
    → RulesInv r
    → (g : String) (i : ℕ) → get (assign r w) g ≡ some i
    → has (release_orphans (assign r w) r.actions r.orphans) i ≡ false
unreleased r w v g i q =
    elim (Bool-cases (has (release_orphans (assign r w) r.actions r.orphans) i)) [
      | inr f ↦ f
      | inl t ↦ absurd (elim (released_from (assign r w) i r.actions r.orphans t) [
        | inl o ↦ ground (arith, o, (assign-Sound r w v.sound).0 g i q)
        | inr k ↦
            clash k.0 (get_of_entry r.actions k.0 i v.distinct k.1) k.2 (assign_origin r w g i q).0
      ])
    ]
  where
    clash :
        (h : String)
        → get r.actions h ≡ some i
        → index_of (assign r w) h ≢ i
        → (get r.actions g ≡ some i) ⊎ (has (use_all r.actions r.orphans) i ≡ false)
        → ⊥
    clash h e n (inl p) = n (
        index_of-get (assign r w) h i
          (subst (λ x. get (assign r w) x ≡ some i) (v.sound.1 g h i p e) q))
    clash h e n (inr p) = ground (arith, p, has-use_all r.actions r.orphans h i e)

module _ (is6 : AddrPort → Bool) (before : Rule → Rule → Bool) (r : Rules) (w : Wanted)
    (v : RulesInv r) where
  pub after-RulesInv : RulesInv (after is6 before r w)
  unfolding record_batch
  after-RulesInv = record {
    distinct = Distinct-assign r w;
    sound = (
      λ g i q. (((assign-Sound r w v.sound).0 g i q).0, unreleased r w v g i q),
      (assign-Sound r w v.sound).1,
    );
    indexed = after-Indexed is6 before r w v.indexed;
  }
