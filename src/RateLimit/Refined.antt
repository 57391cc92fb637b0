-- ===== src/RateLimit/Refined.antt =====
-- That what converge has installed when it succeeds is what was wanted.
use akastr_agent.Base.{
  ℕ, suc, ◌<◌, ◌%◌, ◌^◌, String, Bool, true, false, Option, none, some, List, [], ◌∷◌, Assoc, get,
  put, get-put, get-put_cases, delete, get-delete, ◌==◌, if◌then◌else◌, ite, String-discrete, ◌≡◌,
  ◌≢◌, refl, ◌∙◌, ap, inl, inr, arith, Elem,
}
use akastr_agent.Ledger.{AddrPort}
use akastr_agent.RateLimit.{Rule, Rule-discrete, Installed}
use akastr_agent.RateLimit.Converge.{settled, add_filters, drop_filters, put_all, rule_keys}

-- The index a filter has, 0 for a filter that is not there.
unfoldable pub index_at : Option Installed → ℕ
index_at none = 0
index_at (some h) = h.index

-- Each filter has an index.
abbrev pub Indexed : Assoc Rule Installed → Type 0
Indexed m = (x : Rule) (h : Installed) → get m x ≡ some h → 0 < h.index

module _ (goal : Rule → ℕ) where
  pub get-drop_filters :
      (x : Rule) (m : Assoc Rule Installed)
      → get (drop_filters goal m) x
        ≡ elim (get m x) [ none ↦ none | some h ↦ if goal x == h.index then some h else none ]
  unfolding drop_filters get
  get-drop_filters x [] = refl
  get-drop_filters x ((y, h) ∷ m) = go (goal y == h.index) refl (get-drop_filters x m)
    where
      go :
          (b : Bool)
          → (goal y == h.index) ≡ b
          → (get (drop_filters goal m) x ≡ elim (get m x) [
            | none ↦ none
            | some h ↦ if goal x == h.index then some h else none
          ])
          → get (if b then put (drop_filters goal m) y h else delete (drop_filters goal m) y) x
            ≡ elim (ite (Rule-discrete y x) (some h) (get m x)) [
              | none ↦ none
              | some h ↦ if goal x == h.index then some h else none
            ]
      go true q ih = ground (arith, q, ih, get-put (drop_filters goal m) y x h)
      go false q ih = ground (arith, q, ih, get-delete (drop_filters goal m) y x)

  module _ (is6 : AddrPort → Bool) (filters : Assoc Rule Installed) where
    pub add_filters_settled :
        (x : Rule) (xs : List Rule) (n : ℕ)
        → settled (goal x) (get filters x) ≡ true
        → get (add_filters is6 goal filters xs n).added x ≡ none
    unfolding add_filters get
    add_filters_settled x [] n s = refl
    add_filters_settled x (y ∷ xs) n s = ground (
      arith,
      s,
      get-put (add_filters is6 goal filters xs (suc n % 2 ^ 32)).added y x
          (record { handle = suc n % 2 ^ 32; index = goal y }),
      add_filters_settled x xs n s,
      add_filters_settled x xs (suc n % 2 ^ 32) s,
    )

    pub add_filters_index :
        (x : Rule) (h : Installed) (xs : List Rule) (n : ℕ)
        → get (add_filters is6 goal filters xs n).added x ≡ some h
        → h.index ≡ goal x
    unfolding add_filters get
    add_filters_index x h [] n q = ground arith
    add_filters_index x h (y ∷ xs) n q = ground (
      arith,
      q,
      get-put_cases (add_filters is6 goal filters xs (suc n % 2 ^ 32)).added y x
          (record { handle = suc n % 2 ^ 32; index = goal y }) h,
      add_filters_index x h xs n,
      add_filters_index x h xs (suc n % 2 ^ 32),
    )

    pub add_filters_all :
        (x : Rule) (xs : List Rule) (n : ℕ)
        → settled (goal x) (get filters x) ≡ false
        → Elem x xs
        → get (add_filters is6 goal filters xs n).added x ≢ none
    unfolding add_filters
    add_filters_all x [] n s h = absurd h
    add_filters_all x (y ∷ xs) n s h = ground (
      arith,
      s,
      h,
      get-put (add_filters is6 goal filters xs (suc n % 2 ^ 32)).added y x
          (record { handle = suc n % 2 ^ 32; index = goal y }),
      add_filters_all x xs n s,
      add_filters_all x xs (suc n % 2 ^ 32) s,
    )

pub get-put_all :
    (x : Rule) (a m : Assoc Rule Installed)
    → get (put_all a m) x ≡ elim (get a x) [ none ↦ get m x | some h ↦ some h ]
unfolding put_all get
get-put_all x [] m = refl
get-put_all x ((y, h) ∷ a) m = ground (arith, get-put (put_all a m) y x h, get-put_all x a m)

installed_value :
    (t : ℕ) (o a : Option Installed)
    → ((h : Installed) → o ≡ some h → 0 < h.index)
    → (settled t o ≡ true → a ≡ none)
    → (settled t o ≡ false → (h : Installed) × (a ≡ some h) × (h.index ≡ t))
    → index_at (elim a [
      | none ↦ elim o [ none ↦ none | some h ↦ if t == h.index then some h else none ]
      | some h ↦ some h
    ])
      ≡ t
unfolding index_at settled
installed_value t none none ok keeps adds = ground (arith, keeps, adds)
installed_value t none (some a) ok keeps adds = ground (arith, keeps, adds)
installed_value t (some h) none ok keeps adds = ground (arith, keeps, adds, ok h refl)
installed_value t (some h) (some a) ok keeps adds = ground (arith, keeps, adds, ok h refl)

pub installed_one :
    (goal : Rule → ℕ) (filters added : Assoc Rule Installed) (x : Rule)
    → Indexed filters
    → (settled (goal x) (get filters x) ≡ true → get added x ≡ none)
    → (settled (goal x) (get filters x) ≡ false
        → (h : Installed) × (get added x ≡ some h) × (h.index ≡ goal x))
    → index_at (get (put_all added (drop_filters goal filters)) x) ≡ goal x
installed_one goal filters added x ok keeps adds =
    ap index_at (
      get-put_all x added (drop_filters goal filters)
      ∙ ap (λ o. elim (get added x) as (λ _. Option Installed) [ none ↦ o | some h ↦ some h ])
          (get-drop_filters goal x filters))
    ∙ installed_value (goal x) (get filters x) (get added x) (ok x) keeps adds

pub Elem-rule_keys : (x : Rule) (m : Assoc Rule String) → get m x ≢ none → Elem x (rule_keys m)
unfolding rule_keys get
Elem-rule_keys x [] n = absurd (n refl)
Elem-rule_keys x ((y, g) ∷ m) n = elim (Rule-discrete y x) [
  | yes e ↦ inl e
  | no ne ↦ inr (Elem-rule_keys x m (λ q. n (ground (arith, q, ne))))
]
