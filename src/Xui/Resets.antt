-- ===== src/Xui/Resets.antt =====
-- The marks of executed resets, and what a reset makes of them.
use akastr_agent.Base.{
  ℕ, ◌≤◌, ◌<◌, String, Bool, true, false, leb, Option, none, some, List, [], ◌∷◌, Assoc, get, put,
  get-put, if◌then◌else◌, String-discrete, Result, ok, err, ◌≡◌, refl, sym, subst, ap, arith, All,
}
use akastr_agent.State.{SaveStep}
use akastr_agent.Xui.{InboundId, InboundId-discrete, Client, Stat, Code, write_failed}
use akastr_agent.Xui.State.{LocalState, reset_of, save_state, flush, set_reset, set_restart_pending}
use akastr_agent.Xui.Panel.{
  World, Run, has_stat, zero_stat, with_state, record_reset, ask_reset, recorded, reset_client,
  reset,
}

pub flush_resets : (fault : Option SaveStep) (s : LocalState) → (flush fault s).0.resets ≡ s.resets
unfolding flush save_state
flush_resets fault s = ground arith

pub pending_resets :
    (fault : Option SaveStep) (b : Bool) (s : LocalState)
    → (set_restart_pending fault b s).0.resets ≡ s.resets
unfolding set_restart_pending save_state
pending_resets fault b s = ground arith

-- Newest first, each reset of a client is of a higher sequence number than those before.
abbrev pub Ascending : List (String × ℕ) → Type 0
Ascending [] = Unit
Ascending (o ∷ os) = All (λ p. (p.0 ≡ o.0) → p.1 < o.1) os × Ascending os

unfoldable pub mark : Assoc String ℕ → String → ℕ
mark m e = elim (get m e) [ none ↦ 0 | some n ↦ n ]

-- What was executed is recorded.
abbrev pub Marked : Assoc String ℕ → List (String × ℕ) → Type 0
Marked m os = All (λ o. o.1 ≤ mark m o.0) os

abbrev pub Once : Assoc String ℕ → List (String × ℕ) → Type 0
Once m os = Marked m os × Ascending os

Marked-put :
    (m : Assoc String ℕ) (e : String) (n : ℕ) (os : List (String × ℕ))
    → mark m e < n
    → Marked m os
    → Marked (put m e n) os
unfolding mark
Marked-put m e n [] lt h = tt
Marked-put m e n (o ∷ os) lt h =
    (ground (arith, lt, h.0, get-put m e o.0 n), Marked-put m e n os lt h.1)

newer :
    (m : Assoc String ℕ) (e : String) (n : ℕ) (os : List (String × ℕ))
    → mark m e < n
    → Marked m os
    → All (λ p. (p.0 ≡ e) → p.1 < n) os
newer m e n [] lt h = tt
newer m e n (o ∷ os) lt h = ((λ q. omega (arith, lt, h.0, ap (mark m) q)), newer m e n os lt h.1)

mark-put : (m : Assoc String ℕ) (e : String) (n : ℕ) → mark (put m e n) e ≡ n
unfolding mark
mark-put m e n = ground (arith, get-put m e e n)

-- Both, of a run
abbrev pub OnceRun : {W : Type 0} → Run W → Type 0
OnceRun r = Once r.state.resets r.executed

module _ {W : Type 0} (x : World W) where
  pub with_state-OnceRun :
      (f : Option SaveStep → LocalState → LocalState × Bool) (r : Run W)
      → ((fault : Option SaveStep) → (f fault r.state).0.resets ≡ r.state.resets)
      → OnceRun r
      → OnceRun (with_state x f r).0
  unfolding with_state
  with_state-OnceRun f r k h = subst (λ m. Once m r.executed) (sym (k (x.fault r.world).1)) h

  record_reset_resets :
      (c : Client) (r : Run W)
      → (record_reset x c r).0.state.resets ≡ put r.state.resets c.email c.reset_seq
  unfolding record_reset with_state set_reset
  record_reset_resets c r =
      flush_resets (x.fault r.world).1
        (record r.state { resets = put r.state.resets c.email c.reset_seq; dirty = true })

  record_reset_executed : (c : Client) (r : Run W) → (record_reset x c r).0.executed ≡ r.executed
  unfolding record_reset with_state
  record_reset_executed c r = refl

  record_reset-OnceRun :
      (c : Client) (r : Run W)
      → Once (put r.state.resets c.email c.reset_seq) r.executed
      → OnceRun (record_reset x c r).0
  record_reset-OnceRun c r h =
      subst (λ os. Once (record_reset x c r).0.state.resets os) (sym (record_reset_executed c r))
        (subst (λ m. Once m r.executed) (sym (record_reset_resets c r)) h)

  reset_client-OnceRun :
      (id : InboundId) (stats : List Stat) (c : Client) (r : Run W)
      → mark r.state.resets c.email < c.reset_seq
      → OnceRun r
      → OnceRun (reset_client x id stats c r).0
  unfolding reset_client recorded ask_reset
  reset_client-OnceRun id stats c r lt h = go (has_stat stats c.email)
    where
      m : Assoc String ℕ
      m = put r.state.resets c.email c.reset_seq

      plain : Once m r.executed
      plain = (Marked-put r.state.resets c.email c.reset_seq r.executed lt h.0, h.1)

      asked :
          (p : W × Bool)
          → OnceRun
              (if◌then◌else◌ {A = Run W × Result Code (List Stat)} p.1
                (recorded x (zero_stat stats c.email) (
                  record_reset x c (record r {
                    world = p.0;
                    executed = if p.1 then (c.email, c.reset_seq) ∷ r.executed else r.executed;
                  })))
                (
                  record r {
                    world = p.0;
                    executed = if p.1 then (c.email, c.reset_seq) ∷ r.executed else r.executed;
                  },
                  err write_failed,
                )).0
      asked (w, true) =
          record_reset-OnceRun c
            (record r { world = w; executed = (c.email, c.reset_seq) ∷ r.executed })
            (
              (omega (arith, mark-put r.state.resets c.email c.reset_seq), plain.0),
              (newer r.state.resets c.email c.reset_seq r.executed lt h.0, h.1),
            )
      asked (w, false) = h

      go :
          (b : Bool)
          → OnceRun
              (if◌then◌else◌ {A = Run W × Result Code (List Stat)} b
                (let p = ask_reset x id c r in
                  if p.1
                  then recorded x (zero_stat stats c.email) (record_reset x c p.0)
                  else (p.0, err write_failed))
                (recorded x stats (record_reset x c r))).0
      go true = asked (x.reset_traffic id c.email r.world)
      go false = record_reset-OnceRun c r plain

  due :
      (b : Bool) (s : LocalState) (c : Client)
      → leb c.reset_seq (reset_of s c.email) ≡ false
      → mark s.resets c.email < c.reset_seq
  unfolding reset_of mark
  due b s c q = ground (arith, q)

  pub reset-OnceRun :
      (id : InboundId) (cs : List Client) (stats : List Stat) (r : Run W)
      → OnceRun r
      → OnceRun (reset x id stats cs r).0
  unfolding reset
  reset-OnceRun id [] stats r h = h
  reset-OnceRun id (c ∷ cs) stats r h =
      go (leb c.reset_seq (reset_of r.state c.email)) refl
        (λ stats' r'. reset-OnceRun id cs stats' r')
    where
      after :
          (one : Run W × Result Code (List Stat))
          → OnceRun one.0
          → ((stats' : List Stat) (r' : Run W) → OnceRun r' → OnceRun (reset x id stats' cs r').0)
          → OnceRun
              (elim one.1 as (λ _. Run W × Result Code (List Stat)) [
                | err e ↦ (one.0, err e)
                | ok kept ↦ reset x id kept cs one.0
              ]).0
      after (r', ok kept) k ih = ih kept r' k
      after (r', err e) k ih = k

      go :
          (b : Bool)
          → leb c.reset_seq (reset_of r.state c.email) ≡ b
          → ((stats' : List Stat) (r' : Run W) → OnceRun r' → OnceRun (reset x id stats' cs r').0)
          → OnceRun
              (if b
                then reset x id stats cs r
                else (elim (reset_client x id stats c r).1
                    as (λ _. Run W × Result Code (List Stat)) [
                      | err e ↦ ((reset_client x id stats c r).0, err e)
                      | ok kept ↦ reset x id kept cs (reset_client x id stats c r).0
                    ])).0
      go true q ih = ih stats r h
      go false q ih =
          after (reset_client x id stats c r)
            (reset_client-OnceRun id stats c r (due false r.state c q) h) ih
