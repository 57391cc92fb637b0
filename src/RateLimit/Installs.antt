-- ===== src/RateLimit/Installs.antt =====
-- What converge leaves installed, and that its indexes stay sound.
use akastr_agent.Base.{
  ℕ, ◌<◌, String, Bool, false, Option, none, some, List, Assoc, get, String-discrete, sort, ◌≡◌,
  ◌≢◌, refl, sym, ◌∙◌, inl, inr, arith, Elem, Elem-sort, Bool-cases, Option-cases,
}
use akastr_agent.Ledger.{AddrPort}
use akastr_agent.RateLimit.{Rule, Rule-discrete, Wanted, Rules, Installed}
use akastr_agent.RateLimit.Assign.{assign}
use akastr_agent.RateLimit.Origins.{assign_origin}
use akastr_agent.RateLimit.Refined.{
  index_at, Indexed, installed_one, Elem-rule_keys, add_filters_settled, add_filters_all,
  add_filters_index, get-drop_filters, get-put_all,
}
use akastr_agent.RateLimit.Converge.{
  index_of, group_of, target, settled, add_filters, drop_filters, rule_keys, record_batch,
}

-- The index of the group that a rule is wanted for, 0 where there is none.
unfoldable pub wanted_index : Assoc String ℕ → Assoc Rule String → Rule → ℕ
wanted_index index rules x = elim (get rules x) [ none ↦ 0 | some g ↦ index_of index g ]

target_wanted :
    (index : Assoc String ℕ) (rules : Assoc Rule String) (x : Rule)
    → get index "" ≡ none
    → target index rules x ≡ wanted_index index rules x
unfolding target wanted_index index_of group_of
target_wanted index rules x e = ground (arith, e)

assign_unnamed : (r : Rules) (w : Wanted) → get w.rates "" ≡ none → get (assign r w) "" ≡ none
assign_unnamed r w e = elim (Option-cases (get (assign r w) "")) [
  | inl q ↦ q
  | inr q ↦ ground (arith, e, assign_origin r w "" q.0 q.1)
]

unsettled : (t : ℕ) (o : Option Installed) → settled t o ≡ false → t ≢ 0
unfolding settled
unsettled t o s = λ e. ground (arith, s, e)

wanted_none :
    (index : Assoc String ℕ) (rules : Assoc Rule String) (x : Rule)
    → get rules x ≡ none
    → wanted_index index rules x ≡ 0
unfolding wanted_index
wanted_none index rules x q = ground (arith, q)

module _ (is6 : AddrPort → Bool) (before : Rule → Rule → Bool) (r : Rules) (w : Wanted) where
  -- The rules once the batch is recorded.
  abbrev pub after : Rules
  after = record_batch r w (assign r w) (
      add_filters is6 (target (assign r w) w.rules) r.filters (sort before (rule_keys w.rules))
        r.next_handle)

  pub after_installs :
      (x : Rule)
      → Indexed r.filters
      → get w.rates "" ≡ none
      → index_at (get after.filters x) ≡ wanted_index (assign r w) w.rules x
  unfolding record_batch
  after_installs x ok e =
      installed_one goal r.filters _ x ok
        (add_filters_settled goal is6 r.filters x xs r.next_handle) adds
      ∙ same
    where
      goal : Rule → ℕ
      goal = target (assign r w) w.rules

      xs : List Rule
      xs = sort before (rule_keys w.rules)

      same : goal x ≡ wanted_index (assign r w) w.rules x
      same = target_wanted (assign r w) w.rules x (assign_unnamed r w e)

      wanted : settled (goal x) (get r.filters x) ≡ false → Elem x xs
      wanted s = Elem-sort before x (rule_keys w.rules) (
          Elem-rule_keys x w.rules (λ q.
            unsettled (goal x) (get r.filters x) s (same ∙ wanted_none (assign r w) w.rules x q)))

      adds :
          settled (goal x) (get r.filters x) ≡ false
          → (h : Installed) × (get (add_filters is6 goal r.filters xs r.next_handle).added x
              ≡ some h)
            × (h.index ≡ goal x)
      adds s = elim (Option-cases (get (add_filters is6 goal r.filters xs r.next_handle).added x)) [
        | inl q ↦ absurd (add_filters_all goal is6 r.filters x xs r.next_handle s (wanted s) q)
        | inr q ↦ (q.0, q.1, add_filters_index goal is6 r.filters x q.0 xs r.next_handle q.1)
      ]

  pub after-Indexed : Indexed r.filters → Indexed after.filters
  unfolding record_batch
  after-Indexed ok x h q =
      go (get added x) refl (sym (get-put_all x added (drop_filters goal r.filters)) ∙ q)
    where
      goal : Rule → ℕ
      goal = target (assign r w) w.rules

      added : Assoc Rule Installed
      added = (add_filters is6 goal r.filters (sort before (rule_keys w.rules)) r.next_handle).added

      new : (k : Installed) → get added x ≡ some k → 0 < k.index
      new k p = elim (Bool-cases (settled (goal x) (get r.filters x))) [
        | inl t ↦ ground (
          arith,
          p,
          add_filters_settled goal is6 r.filters x (sort before (rule_keys w.rules)) r.next_handle
              t,
        )
        | inr f ↦ omega (
          arith,
          add_filters_index goal is6 r.filters x k (sort before (rule_keys w.rules)) r.next_handle
              p,
          unsettled (goal x) (get r.filters x) f,
        )
      ]

      go :
          (o : Option Installed)
          → get added x ≡ o
          → elim o as (λ _. Option Installed) [
            | none ↦ get (drop_filters goal r.filters) x
            | some k ↦ some k
          ]
            ≡ some h
          → 0 < h.index
      go (some k) p e = ground (arith, new k p, e)
      go none p e = ground (arith, get-drop_filters goal x r.filters, e, ok x h)
