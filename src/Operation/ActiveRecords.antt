-- ===== src/Operation/ActiveRecords.antt =====
-- The checks of the active records of a journal.
use akastr_agent.Base.{
  String, ◌≡◌, ◌≢◌, ◌↔◌, refl, sym, false, List, [], ◌∷◌, All, All_map, All_both, Result, ok, err,
  ◌>>=◌, Assoc, String-discrete, arith,
}
use akastr_agent.Operation.Records.{Record, Error}
use akastr_agent.Operation.Validate.{seen_before, validate_record_tokens, check_active, all_active}
use akastr_agent.Operation.WellFormed.{IsNamed, IsActive, UniqueActive}

pub ok_cases :
    {A B : Type 0} (m : Result Error A) (f : A → Result Error B) {b : B}
    → (m >>= f) ≡ ok b
    → (a : A) × (m ≡ ok a) × (f a ≡ ok b)
ok_cases (ok a) f h = (a, refl, h)
ok_cases (err e) f h = cc

abbrev pub Unseen : String → List String → Type 0
Unseen id seen = All (λ s. s ≢ id) seen

pub seen_before_iff :
    (seen : List String) (id : String) → (seen_before seen id ≡ false) ↔ Unseen id seen
unfolding seen_before
seen_before_iff [] id = ground arith
seen_before_iff (s ∷ seen) id = ground (arith, seen_before_iff seen id)

pub tokens_iff : (r : Record) → (validate_record_tokens r ≡ ok tt) ↔ IsNamed r
unfolding validate_record_tokens
tokens_iff r =
    (λ h. ground arith, λ n. ground (arith, n.id_token, n.kind_token, n.group_token, n.has_start))

-- What the loop over the active records adds to the ids it has seen.
pub active_ids : Assoc String Record → List String → List String
active_ids [] seen = seen
active_ids (e ∷ m) seen = active_ids m (e.1.operation_id ∷ seen)

check_active_sound :
    (seen : List String) (group : String) (r : Record) (next : List String)
    → check_active seen group r ≡ ok next
    → IsActive (group, r) × Unseen r.operation_id seen × (next ≡ r.operation_id ∷ seen)
unfolding check_active
check_active_sound seen group r next h = (
  record {
    filed = ground arith;
    runs = ground arith;
    unfinished = ground arith;
    no_code = ground arith;
    named = (tokens_iff r).0 (ground arith);
  },
  (seen_before_iff seen r.operation_id).0 (ground arith),
  ground arith,
)

check_active_complete :
    (seen : List String) (group : String) (r : Record)
    → IsActive (group, r)
    → Unseen r.operation_id seen
    → check_active seen group r ≡ ok (r.operation_id ∷ seen)
unfolding check_active
check_active_complete seen group r a u = ground (
  arith,
  a.filed,
  a.runs,
  a.unfinished,
  a.no_code,
  (tokens_iff r).1 a.named,
  (seen_before_iff seen r.operation_id).1 u,
)

-- The ids of the map are new, and differ from one another.
abbrev pub NewIds : List String → Assoc String Record → Type 0
NewIds seen m = All (λ e. Unseen e.1.operation_id seen) m

pub all_active_sound :
    (seen : List String) (m : Assoc String Record) (out : List String)
    → all_active seen m ≡ ok out
    → All IsActive m × UniqueActive m × NewIds seen m × (out ≡ active_ids m seen)
unfolding all_active active_ids
all_active_sound seen [] out h = (tt, tt, tt, ground arith)
all_active_sound seen ((group, r) ∷ m) out h =
    let (next, e, rest) = ok_cases (check_active seen group r) (λ n. all_active n m) h in
    let (good, new, is_next) = check_active_sound seen group r next e in
    let (goods, unique, news, is_out) =
      all_active_sound (r.operation_id ∷ seen) m out (rw (← is_next) rest) in
    (
      (good, goods),
      (
        All_map (λ o. Unseen o.1.operation_id (r.operation_id ∷ seen))
            (λ o. o.1.operation_id ≢ r.operation_id) m (λ o u p. u.0 (sym p)) news,
        unique,
      ),
      (
        new,
        All_map (λ o. Unseen o.1.operation_id (r.operation_id ∷ seen))
            (λ o. Unseen o.1.operation_id seen) m (λ o u. u.1) news,
      ),
      is_out,
    )

pub all_active_complete :
    (seen : List String) (m : Assoc String Record)
    → All IsActive m
    → UniqueActive m
    → NewIds seen m
    → all_active seen m ≡ ok (active_ids m seen)
unfolding all_active active_ids
all_active_complete seen [] a u n = refl
all_active_complete seen ((group, r) ∷ m) a u n = rw (check_active_complete seen group r a.0 n.0) (
    all_active_complete (r.operation_id ∷ seen) m a.1 u.1 (
      All_both (λ o. o.1.operation_id ≢ r.operation_id) (λ o. Unseen o.1.operation_id seen)
        (λ o. Unseen o.1.operation_id (r.operation_id ∷ seen)) m (λ o p q. (λ e. p (sym e), q)) u.0
        n.1))

-- An id that the loop has not seen is neither among those seen before nor in the map.
pub Unseen-active_ids :
    (id : String) (m : Assoc String Record) (seen : List String)
    → Unseen id (active_ids m seen) ↔ (Unseen id seen × All (λ e. e.1.operation_id ≢ id) m)
unfolding active_ids
Unseen-active_ids id [] seen = (λ u. (u, tt), λ p. p.0)
Unseen-active_ids id (e ∷ m) seen =
    let (to, from) = Unseen-active_ids id m (e.1.operation_id ∷ seen) in
    (λ u. let (now, rest) = to u in (now.1, (now.0, rest)), λ p. from ((p.1.0, p.0), p.1.1))
