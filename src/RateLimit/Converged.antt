-- ===== src/RateLimit/Converged.antt =====
-- That converge installs what is wanted, or fails without a change, and keeps the invariant.
use akastr_agent.Base.{
  ℕ, String, Bool, true, false, Option, none, some, List, [], ◌∷◌, ◌++◌, get, if◌then◌else◌,
  String-discrete, sort, ◌≡◌, arith,
}
use akastr_agent.Ledger.{AddrPort}
use akastr_agent.RateLimit.{Rule, Rule-discrete, Wanted, Rules}
use akastr_agent.RateLimit.Assign.{assign, has}
use akastr_agent.RateLimit.Refined.{index_at}
use akastr_agent.RateLimit.Converge.{
  Edit, Command, Adding, target, del_action, devs, replace_actions, del_filters, add_filters,
  rule_keys, drop_orphans, hooks, run_batch, record_batch, edit, converge_rest, converge,
}
use akastr_agent.RateLimit.Installs.{after, after_installs, wanted_index}
use akastr_agent.RateLimit.Kept.{RulesInv, after-RulesInv}

dropped-has :
    {W : Type 0} (run : Command → W → W × Option String) (i : ℕ) (js : List ℕ) (world : W)
    → has js i ≡ false
    → has (drop_orphans run js world).1 i ≡ false
unfolding has drop_orphans
dropped-has {W = W} run i [] world h = h
dropped-has {W = W} run i (j ∷ js) world h =
    go (run (del_action j) world)
      (dropped-has run i js (run (del_action j) world).0 (ground (arith, h)))
  where
    go :
        (c : W × Option String)
        → has (drop_orphans run js c.0).1 i ≡ false
        → has
            (elim c.1 as (λ _. List ℕ) [
              | none ↦ j ∷ (drop_orphans run js c.0).1
              | some _ ↦ (drop_orphans run js c.0).1
            ])
            i
          ≡ false
    go (v, none) ih = ground (arith, h, ih)
    go (v, some _) ih = ih

module _ {W : Type 0} (run : Command → W → W × Option String) (is6 : AddrPort → Bool)
    (before : Rule → Rule → Bool) (r : Rules) (w : Wanted) (world : W) where
  -- The rules once the orphans that tc could delete are gone.
  abbrev pub started : Rules
  started = record r { orphans = (drop_orphans run r.orphans world).1 }

  started-RulesInv : RulesInv r → RulesInv started
  started-RulesInv v = record {
    distinct = v.distinct;
    sound = (
      λ g i q. ((v.sound.0 g i q).0, dropped-has run i r.orphans world (v.sound.0 g i q).1),
      v.sound.1,
    );
    indexed = v.indexed;
  }

  -- What converge can come to: a failure, with no rule changed, or the batch recorded.
  converge_outcome :
      (P : Rules × Bool → Type 0)
      → ((n : ℕ) → P (record started { next_handle = n }, false))
      → P (after is6 before started w, true)
      → P (converge run is6 before r w world).1
  unfolding converge converge_rest edit
  converge_outcome P bad good = go (
      hooks run started.clsact (devs (assign started w) w.rules)
        (drop_orphans run r.orphans world).0)
    where
      goal : Rule → ℕ
      goal = target (assign started w) w.rules

      a : Adding
      a = add_filters is6 goal started.filters (sort before (rule_keys w.rules)) started.next_handle

      written :
          (c : W × Bool)
          → P (
              if c.1
              then (record_batch started w (assign started w) a, true)
              else (record started { next_handle = a.next_handle }, false))
      written (v, true) = good
      written (v, false) = bad a.next_handle

      go :
          (c : W × Option (List Edit))
          → P
              (elim c.1 as (λ _. W × (Rules × Bool)) [
                | none ↦ (c.0, (started, false))
                | some es ↦ edit run is6 before started w (assign started w) es c.0
              ]).1
      go (v, none) = bad started.next_handle
      go (v, some es) = written (
          run_batch run
            (es
              ++ replace_actions started w (assign started w)
              ++ del_filters is6 goal started.filters
              ++ a.edits)
            v)

  -- Whether it fails or not, converge keeps the invariant of the rules.
  pub converge-RulesInv : RulesInv r → RulesInv (converge run is6 before r w world).1.0
  converge-RulesInv v =
      converge_outcome (λ c. RulesInv c.0)
        (λ n. record {
          distinct = (started-RulesInv v).distinct;
          sound = (started-RulesInv v).sound;
          indexed = (started-RulesInv v).indexed;
        })
        (after-RulesInv is6 before started w (started-RulesInv v))

  -- After a success the installed filters are those wanted.
  pub converge_installs :
      (x : Rule)
      → RulesInv r
      → get w.rates "" ≡ none
      → (converge run is6 before r w world).1.1 ≡ true
      → let after = (converge run is6 before r w world).1.0 in
        index_at (get after.filters x) ≡ wanted_index after.actions w.rules x
  unfolding record_batch assign
  converge_installs x v e t =
      converge_outcome
        (λ c. c.1 ≡ true → index_at (get c.0.filters x) ≡ wanted_index c.0.actions w.rules x)
        (λ n f. ground (arith, f)) (λ _. after_installs is6 before started w x v.indexed e) t
