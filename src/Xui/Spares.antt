-- ===== src/Xui/Spares.antt =====
-- That each action of a plan names an identity that no foreign client has.
use akastr_agent.Base.{
  ℕ, ◌-◌, String, Bool, true, false, not, ◌||◌, ltb, Option, none, some, List, [], ◌∷◌, Assoc, get,
  put, is_some, if◌then◌else◌, String-discrete, ◌≡◌, refl, arith, All, All-append, All-get,
}
use akastr_agent.Xui.{text, flag, Fields, Client, Action, add, update, delete_client}
use akastr_agent.Xui.Targets.{is_text, has_text}
use akastr_agent.Xui.Plan.{
  text_of, identity, owned_conflict, target_has, unwanted, owned_at, is_enabled, removals,
  fields_of, put_fields, new_client, merge_fields, client_actions, all_actions,
}

-- The action does not reach the clients with these texts: an update or a removal names another one.
abbrev pub Spares : List String → Action → Type 0
Spares foreign (add c) = Unit
Spares foreign (update i c) = has_text foreign i ≡ false
Spares foreign (delete_client i) = has_text foreign i ≡ false

-- Each owned client can be addressed without reaching a foreign one.
abbrev pub Apart : String → List String → Assoc String Fields → Type 0
Apart proto foreign m = All (λ o. has_text foreign (identity proto o.1) ≡ false) m

pub Apart-owned_conflict :
    (proto : String) (foreign : List String) (m : Assoc String Fields)
    → owned_conflict proto foreign m ≡ false
    → Apart proto foreign m
unfolding owned_conflict
Apart-owned_conflict proto foreign [] e = tt
Apart-owned_conflict proto foreign ((k, c) ∷ m) e =
    (ground (arith, e), Apart-owned_conflict proto foreign m (ground (arith, e)))

pub unwanted_found :
    (cs : List Client) (m ms : Assoc String Fields)
    → ((e : String) → is_some (get ms e) ≡ true → is_some (get m e) ≡ true)
    → All (λ e. is_some (get m e) ≡ true) (unwanted cs ms)
unfolding unwanted get
unwanted_found cs m [] f = tt
unwanted_found cs m ((k, c) ∷ ms) f =
    go (target_has cs k) (unwanted_found cs m ms (λ e h. f e (ground (arith, h))))
  where
    go :
        (b : Bool)
        → All (λ e. is_some (get m e) ≡ true) (unwanted cs ms)
        → All (λ e. is_some (get m e) ≡ true) (if b then unwanted cs ms else k ∷ unwanted cs ms)
    go true ih = ih
    go false ih = (f k (ground arith), ih)

module _ (proto : String) (foreign : List String) (m : Assoc String Fields)
    (apart : Apart proto foreign m) where
  apart_at :
      (e : String)
      → is_some (get m e) ≡ true
      → has_text foreign (identity proto (owned_at m e)) ≡ false
  unfolding owned_at
  apart_at e h = go (get m e) refl h
    where
      go :
          (o : Option Fields)
          → get m e ≡ o
          → is_some o ≡ true
          → has_text foreign (identity proto (elim o as (λ _. Fields) [ none ↦ [] | some c ↦ c ]))
            ≡ false
      go none q t = ground (arith, t)
      go (some c) q t = All-get (λ o. has_text foreign (identity proto o.1) ≡ false) m e c apart q

  pub removals-Spares :
      (n : ℕ) (es : List String)
      → All (λ e. is_some (get m e) ≡ true) es
      → All (Spares foreign) (removals proto m n es)
  unfolding removals
  removals-Spares n [] h = tt
  removals-Spares n (e ∷ es) h =
      go (ltb 1 n) (is_enabled (owned_at m e)) (removals-Spares (n - 1) es h.1)
        (removals-Spares n es h.1)
    where
      go :
          (a b : Bool)
          → All (Spares foreign) (removals proto m (n - 1) es)
          → All (Spares foreign) (removals proto m n es)
          → All (Spares foreign) (
              if a
              then delete_client (identity proto (owned_at m e)) ∷ removals proto m (n - 1) es
              else if b
              then update (identity proto (owned_at m e)) (put (owned_at m e) "enable" (flag false))
                ∷ removals proto m n es
              else removals proto m n es)
      go true b x y = (apart_at e h.0, x)
      go false true x y = (apart_at e h.0, y)
      go false false x y = y

  client_actions-Spares :
      (pf : String → Option ℕ) (used : Assoc String ℕ) (t : Client)
      → All (Spares foreign) (client_actions pf proto used m t)
  unfolding client_actions
  client_actions-Spares pf used t = go (get m t.email) refl
    where
      go :
          (o : Option Fields)
          → get m t.email ≡ o
          → All (Spares foreign) (elim o as (λ _. List Action) [
            | none ↦ add (put_fields (fields_of proto used t) (new_client t)) ∷ []
            | some current ↦
                (let merged = merge_fields pf current (fields_of proto used t) current in
                  let commented = not (is_text (text_of current "comment") t.comment) in
                  let updated =
                    if commented then put merged.0 "comment" (text t.comment) else merged.0 in
                  if merged.1 || commented
                  then update (identity proto current) updated ∷ []
                  else [])
          ])
      go none q = (tt, tt)
      go (some c) q =
          written
            ((merge_fields pf c (fields_of proto used t) c).1
              || not (is_text (text_of c "comment") t.comment))
            _
        where
          written :
              (b : Bool) (u : Fields)
              → All (Spares foreign) (if b then update (identity proto c) u ∷ [] else [])
          written true u =
              (All-get (λ o. has_text foreign (identity proto o.1) ≡ false) m t.email c apart q, tt)
          written false u = tt

  pub all_actions-Spares :
      (pf : String → Option ℕ) (used : Assoc String ℕ) (ts : List Client)
      → All (Spares foreign) (all_actions pf proto used m ts)
  unfolding all_actions
  all_actions-Spares pf used [] = tt
  all_actions-Spares pf used (t ∷ ts) =
      All-append (Spares foreign) (client_actions pf proto used m t)
        (all_actions pf proto used m ts) (client_actions-Spares pf used t)
        (all_actions-Spares pf used ts)
