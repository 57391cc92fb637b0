-- ===== src/Desired/Keys.antt =====
-- What a pass applies.
use akastr_agent.Base.{
  ℕ, String, ◌≡◌, refl, Bool, true, false, ◌&&◌, ◌||◌, Option, none, some, List, [], ◌∷◌, Assoc,
  is_some, is, if◌then◌else◌, String-discrete, get, get-put, get-delete, arith, Bool-cases, ◌⊎◌,
  inl, inr,
}
use akastr_agent.Desired.{
  Target, DesiredUnit, is_key, keep_keys, set_keys, Validate, put_state, named, Pass, target_states,
  target_results, add_invalid, begin_pass,
}

-- What Apply is to be told of a key: its state, that it is named without a usable one, or nothing.
abbrev pub told : Option Target → Bool → Option (Option String)
told (some t) invalid = some (some t.state)
told none invalid = if invalid then some none else none

get-target_states :
    (m : Assoc String Target) (k : String)
    → get (target_states m) k ≡ (elim (get m k) [ none ↦ none | some t ↦ some (some t.state) ])
unfolding target_states get
get-target_states [] k = refl
get-target_states ((j, t) ∷ m) k = ground (arith, get-target_states m k)

get-add_invalid :
    (m : Assoc String ℕ) (states : Assoc String (Option String)) (k : String)
    → get (add_invalid m states) k ≡ (elim (get states k) [
      | some s ↦ some s
      | none ↦ if is_some (get m k) then some none else none
    ])
unfolding add_invalid get
get-add_invalid [] states k = ground arith
get-add_invalid ((j, v) ∷ m) states k = ground (
  arith,
  get-add_invalid m states k,
  get-add_invalid m states j,
  get-put (add_invalid m states) j k none,
)

-- Once the keys are complete a pass tells Apply of each key whether it is of a target, of one that
-- its module rejected, or of neither, so that no key that the controller still names is missing; and
-- until then there is no pass.
pub begin_pass-told :
    (u : DesiredUnit) (k : String)
    → (begin_pass u ≡ none × u.complete ≡ false)
      ⊎ ((p : Pass) × (begin_pass u ≡ some p)
          × (u.complete ≡ true)
          × (get p.states k ≡ told (get u.targets k) (is_some (get u.invalid k)))
          × (is_some (get p.states k) ≡ named k u))
unfolding begin_pass named
begin_pass-told u k = elim (Bool-cases u.complete) [
  | inr q ↦ inl (rw (q) refl, q)
  | inl q ↦ inr (
    record {
      states = add_invalid u.invalid (target_states u.targets);
      results = target_results u.targets;
      invalid = u.invalid;
    },
    rw (q) refl,
    q,
    ground (
      arith,
      get-add_invalid u.invalid (target_states u.targets) k,
      get-target_states u.targets k,
    ),
    ground (
      arith,
      get-add_invalid u.invalid (target_states u.targets) k,
      get-target_states u.targets k,
    ),
  )
]

get-keep_keys :
    {V : Type 0} (ks : List String) (m : Assoc String V) (k : String)
    → get (keep_keys ks m) k ≡ (if is_key k ks then get m k else none)
unfolding get keep_keys
get-keep_keys ks [] k = ground arith
get-keep_keys ks ((j, v) ∷ m) k = ground (arith, get-keep_keys ks m k)

-- The keys named after Keys are those named before it that it names, each with the target and the
-- rejected version that it had. The keys named after Put are those named before it and its own, which
-- alone changes what it has.
pub set_keys-named :
    (ks : List String) (validate : Validate) (key : String) (version : ℕ) (state : String)
    (u : DesiredUnit) (k : String)
    → let v = put_state validate key version state u in
      (named k (set_keys ks u) ≡ (is_key k ks && named k u))
      × (get (set_keys ks u).targets k ≡ (if is_key k ks then get u.targets k else none))
      × (get (set_keys ks u).invalid k ≡ (if is_key k ks then get u.invalid k else none))
      × (named k v ≡ (is (String-discrete key k) || named k u))
      × ((key ≡ k) ⊎ ((get v.targets k ≡ get u.targets k) × (get v.invalid k ≡ get u.invalid k)))
unfolding named set_keys put_state
set_keys-named ks validate key version state u k =
    let target : Target = record { version = version; state = state } in
    (
      ground (arith, get-keep_keys ks u.targets k, get-keep_keys ks u.invalid k),
      get-keep_keys ks u.targets k,
      get-keep_keys ks u.invalid k,
      ground (
        arith,
        get-put u.targets key k target,
        get-put u.invalid key k version,
        get-delete u.invalid key k,
      ),
      ground (
        arith,
        get-put u.targets key k target,
        get-put u.invalid key k version,
        get-delete u.invalid key k,
      ),
    )
