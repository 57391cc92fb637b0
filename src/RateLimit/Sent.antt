-- ===== src/RateLimit/Sent.antt =====
-- What converge of internal/modules/ratelimit/rules.go sends to tc when it succeeds.
use akastr_agent.Base.{
  ℕ, suc, ◌%◌, ◌^◌, String, Bool, true, false, Option, none, some, List, [], ◌∷◌, ◌++◌, Assoc, get,
  get-put_cases, if◌then◌else◌, String-discrete, sort, ℕ_discrete, ◌≡◌, ◌≢◌, ◌⊎◌, inl, inr, refl,
  sym, ap, ◌∙◌, Elem, arith,
}
use akastr_agent.Ledger.{AddrPort}
use akastr_agent.RateLimit.{Rule, Rule-discrete, Wanted, Rules, Installed, pref_ipv4, pref_ipv6}
use akastr_agent.RateLimit.Assign.{assign}
use akastr_agent.RateLimit.Refined.{index_at, get-drop_filters, get-put_all}
use akastr_agent.RateLimit.Installs.{after, wanted_index}
use akastr_agent.RateLimit.Kept.{RulesInv}
use akastr_agent.RateLimit.Converge.{
  Edit, Adding, del_filter, add_filter, Command, target, devs, replace_actions, del_filters,
  add_filters, drop_filters, put_all, rule_keys, record_batch, drop_orphans, hooks, run_batch, edit,
  converge_rest, converge,
}
use akastr_agent.RateLimit.Converged.{started, converge_installs}

Elem-left : {A : Type 0} (a : A) (xs ys : List A) → Elem a xs → Elem a (xs ++ ys)
Elem-left a [] ys h = absurd h
Elem-left a (x ∷ xs) ys (inl e) = inl e
Elem-left a (x ∷ xs) ys (inr h) = inr (Elem-left a xs ys h)

Elem-right : {A : Type 0} (a : A) (xs ys : List A) → Elem a ys → Elem a (xs ++ ys)
Elem-right a [] ys h = h
Elem-right a (x ∷ xs) ys h = inr (Elem-right a xs ys h)

-- Whether a rule has just this filter.
has_or_not : (o : Option Installed) (h : Installed) → (o ≡ some h) ⊎ (o ≢ some h)
has_or_not none h = inr (λ e. cc)
has_or_not (some k) h = elim (ℕ_discrete k.handle h.handle) [
  | no n ↦ inr (λ e. n (ground (arith, e)))
  | yes p ↦ elim (ℕ_discrete k.index h.index) [
    | no n ↦ inr (λ e. n (ground (arith, e)))
    | yes q ↦ inl (ground (arith, p, q))
  ]
]

module _ (is6 : AddrPort → Bool) where
  -- The line that deletes the filter of a rule, and the line that adds it.
  abbrev pub deletes : Rule → Installed → Edit
  deletes x h =
      del_filter x.dev (if is6 x.remote then "ipv6" else "ip")
        (if is6 x.remote then pref_ipv6 else pref_ipv4) h.handle

  abbrev pub adds : Rule → Installed → Edit
  adds x h =
      add_filter (if is6 x.remote then "ipv6" else "ip")
        (if is6 x.remote then pref_ipv6 else pref_ipv4) h.handle x h.index

  module _ (goal : Rule → ℕ) where
    deletes-Elem :
        (x : Rule) (h : Installed) (m : Assoc Rule Installed)
        → get m x ≡ some h
        → goal x ≢ h.index
        → Elem (deletes x h) (del_filters is6 goal m)
    unfolding get del_filters
    deletes-Elem x h [] q n = ground arith
    deletes-Elem x h ((y, k) ∷ m) q n = ground (arith, q, n, deletes-Elem x h m)

    adds-Elem :
        (filters : Assoc Rule Installed) (x : Rule) (k : Installed) (xs : List Rule) (n : ℕ)
        → get (add_filters is6 goal filters xs n).added x ≡ some k
        → Elem (adds x k) (add_filters is6 goal filters xs n).edits
    unfolding get add_filters
    adds-Elem filters x k [] n q = absurd (ground (arith, q))
    adds-Elem filters x k (y ∷ xs) n q = ground (
      arith,
      q,
      get-put_cases (add_filters is6 goal filters xs (suc n % 2 ^ 32)).added y x
          (record { handle = suc n % 2 ^ 32; index = goal y }) k,
      adds-Elem filters x k xs n,
      adds-Elem filters x k xs (suc n % 2 ^ 32),
    )

  kept_or_added :
      (goal : Rule → ℕ) (filters added : Assoc Rule Installed) (x : Rule) (k : Installed)
      → get (put_all added (drop_filters goal filters)) x ≡ some k
      → (get filters x ≡ some k) ⊎ (get added x ≡ some k)
  kept_or_added goal filters added x k q =
      go (get added x) refl (sym (get-put_all x added (drop_filters goal filters)) ∙ q)
    where
      go :
          (o : Option Installed)
          → get added x ≡ o
          → elim o as (λ _. Option Installed) [
            | none ↦ get (drop_filters goal filters) x
            | some h ↦ some h
          ]
            ≡ some k
          → (get filters x ≡ some k) ⊎ (get added x ≡ some k)
      go (some h) p e = inr (p ∙ e)
      go none p e = inl (ground (arith, get-drop_filters goal x filters, e))

module _ {W : Type 0} (run : Command → W → W × Option String) (is6 : AddrPort → Bool)
    (before : Rule → Rule → Bool) (r : Rules) (w : Wanted) (world : W) where
  abbrev begun : Rules
  begun = started run is6 before r w world

  abbrev goal : Rule → ℕ
  goal = target (assign begun w) w.rules

  abbrev adding : Adding
  adding = add_filters is6 goal r.filters (sort before (rule_keys w.rules)) r.next_handle

  -- The lines of the batch, after those for the hooks
  abbrev edits_after : List Edit → List Edit
  edits_after hooked =
      hooked
      ++ replace_actions begun w (assign begun w)
      ++ del_filters is6 goal r.filters
      ++ adding.edits

  -- The last thing that a successful converge does is to run this batch, which succeeds.
  abbrev IsSent : W × (Rules × Bool) → Type 0
  IsSent c =
      (hooked : List Edit) × (v : W) × (run_batch run (edits_after hooked) v ≡ (c.0, true))
      × (c.1.0 ≡ after is6 before begun w)

  converge-IsSent :
      (converge run is6 before r w world).1.1 ≡ true → IsSent (converge run is6 before r w world)
  unfolding converge converge_rest edit
  converge-IsSent =
      go (
        hooks run begun.clsact (devs (assign begun w) w.rules) (drop_orphans run r.orphans world).0)
    where
      written :
          (hooked : List Edit) (v : W) (c : W × Bool)
          → run_batch run (edits_after hooked) v ≡ c
          → let d : W × (Rules × Bool) = (
            c.0,
            if c.1
                then (record_batch begun w (assign begun w) adding, true)
                else (record begun { next_handle = adding.next_handle }, false),
          ) in
            d.1.1 ≡ true → IsSent d
      written hooked v (u, true) q t = (hooked, v, q, refl)
      written hooked v (u, false) q t = absurd (ground (arith, t))

      go :
          (c : W × Option (List Edit))
          → let d = elim c.1 as (λ _. W × (Rules × Bool)) [
            | none ↦ (c.0, (begun, false))
            | some es ↦ edit run is6 before begun w (assign begun w) es c.0
          ] in
            d.1.1 ≡ true → IsSent d
      go (v, none) t = absurd (ground (arith, t))
      go (v, some es) t = written es v (run_batch run (edits_after es) v) refl t

  -- When converge succeeds, from rules that are sound and with no group without a name, a rule's
  -- filter has, in the record that is left, the index of the group that it is wanted for, and none if
  -- it is wanted for none. The last thing done to the host was a batch that succeeded, with a line
  -- that deletes each filter recorded before with another index than the one it is to have, and a
  -- line that adds each filter that is recorded now and was not before, with its handle and index.
  pub converge_sends :
      (x : Rule) (h k : Installed)
      → RulesInv r
      → get w.rates "" ≡ none
      → (converge run is6 before r w world).1.1 ≡ true
      → let c = converge run is6 before r w world in
        (index_at (get c.1.0.filters x) ≡ wanted_index c.1.0.actions w.rules x)
        × ((edits : List Edit) × (v : W) × (run_batch run edits v ≡ (c.0, true))
            × ((get r.filters x ≢ some h)
                ⊎ ((target c.1.0.actions w.rules x ≡ h.index) ⊎ Elem (deletes is6 x h) edits))
            × ((get c.1.0.filters x ≢ some k)
                ⊎ ((get r.filters x ≡ some k) ⊎ Elem (adds is6 x k) edits)))
  unfolding record_batch
  converge_sends x h k v e t =
      let (hooked, u, sent, same) = converge-IsSent t in
      let c = converge run is6 before r w world in
      let replaced = replace_actions begun w (assign begun w) in
      let deleted = del_filters is6 goal r.filters in
      let actions_same : assign begun w ≡ c.1.0.actions = sym (ap (λ s. s.actions) same) in
      let filters_same : get c.1.0.filters x
          ≡ get (put_all adding.added (drop_filters goal r.filters)) x =
        ap (λ s. get s.filters x) same in
      (
        converge_installs run is6 before r w world x v e t,
        (
          edits_after hooked,
          u,
          sent,
          elim (has_or_not (get r.filters x) h) [
            | inr other ↦ inl other
            | inl there ↦ inr (elim (ℕ_discrete (goal x) h.index) [
              | yes as_wanted ↦ inl (ap (λ a. target a w.rules x) (sym actions_same) ∙ as_wanted)
              | no differs ↦ inr (
                  Elem-left (deletes is6 x h) ((hooked ++ replaced) ++ deleted) adding.edits (
                    Elem-right (deletes is6 x h) (hooked ++ replaced) deleted
                      (deletes-Elem is6 goal x h r.filters there differs)))
            ])
          ],
          elim (has_or_not (get c.1.0.filters x) k) [
            | inr other ↦ inl other
            | inl there ↦
                inr
                  (elim (kept_or_added is6 goal r.filters adding.added x k
                    (sym filters_same ∙ there)) [
                      | inl old ↦ inl old
                      | inr new ↦ inr (
                          Elem-right (adds is6 x k) ((hooked ++ replaced) ++ deleted) adding.edits (
                            adds-Elem is6 goal r.filters x k (sort before (rule_keys w.rules))
                              r.next_handle new))
                    ])
          ],
        ),
      )
