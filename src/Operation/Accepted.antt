-- ===== src/Operation/Accepted.antt =====
-- validateSnapshot accepts exactly the well-formed snapshots.
use akastr_agent.Base.{
  ℕ, String, ◌≡◌, ◌≢◌, ◌↔◌, refl, sym, Bool, false, some, List, [], ◌∷◌, All, All_map, All_both, ok,
  ◌>>=◌, Assoc, Distinct, String-discrete, arith,
}
use akastr_agent.Operation.Records.{Record, Snapshot, encoded}
use akastr_agent.Operation.Validate.{
  all_active, check_recent, all_recent, validate_records, validate_snapshot, bad_result,
}
use akastr_agent.Operation.WellFormed.{IsResult, IsEnded, UniqueRecent, WellFormed}
use akastr_agent.Operation.ActiveRecords.{
  ok_cases, Unseen, seen_before_iff, tokens_iff, active_ids, NewIds, all_active_sound,
  all_active_complete, Unseen-active_ids,
}

module _ (valid : List ℕ → Bool) where
  pub bad_result_iff : (b : List ℕ) → (bad_result valid b ≡ false) ↔ IsResult valid b
  bad_result_iff b = (
    λ h. record { short = ground arith; parses = λ p. ground arith; object = ground arith },
    λ h. result_ok b h,
  )
    where
      result_ok : (c : List ℕ) → IsResult valid c → bad_result valid c ≡ false
      result_ok [] h = ground arith
      result_ok (c ∷ cs) h = ground (arith, h.short, h.parses refl, h.object)

  check_recent_sound :
      (seen : List String) (r : Record) (next : List String)
      → check_recent valid seen r ≡ ok next
      → IsEnded valid r × Unseen r.operation_id seen × (next ≡ r.operation_id ∷ seen)
  unfolding check_recent
  check_recent_sound seen r next h = (
    record {
      terminal = ground arith;
      finished = ground arith;
      code_token = ground arith;
      result = (bad_result_iff r.terminal_result).0 (ground arith);
      named = (tokens_iff r).0 (ground arith);
    },
    (seen_before_iff seen r.operation_id).0 (ground arith),
    ground arith,
  )

  check_recent_complete :
      (seen : List String) (r : Record)
      → IsEnded valid r
      → Unseen r.operation_id seen
      → check_recent valid seen r ≡ ok (r.operation_id ∷ seen)
  unfolding check_recent
  check_recent_complete seen r a u = ground (
    arith,
    a.terminal,
    a.finished,
    a.code_token,
    (bad_result_iff r.terminal_result).1 a.result,
    (tokens_iff r).1 a.named,
    (seen_before_iff seen r.operation_id).1 u,
  )

  abbrev NewRecent : List String → List Record → Type 0
  NewRecent seen rs = All (λ r. Unseen r.operation_id seen) rs

  all_recent_sound :
      (seen : List String) (rs : List Record) (out : List String)
      → all_recent valid seen rs ≡ ok out
      → All (IsEnded valid) rs × UniqueRecent rs × NewRecent seen rs
  unfolding all_recent
  all_recent_sound seen [] out h = (tt, tt, tt)
  all_recent_sound seen (r ∷ rs) out h =
      let (next, e, rest) = ok_cases (check_recent valid seen r) (λ n. all_recent valid n rs) h in
      let (good, new, is_next) = check_recent_sound seen r next e in
      let (goods, unique, news) =
        all_recent_sound (r.operation_id ∷ seen) rs out (rw (← is_next) rest) in
      (
        (good, goods),
        (
          All_map (λ o. Unseen o.operation_id (r.operation_id ∷ seen))
              (λ o. o.operation_id ≢ r.operation_id) rs (λ o u p. u.0 (sym p)) news,
          unique,
        ),
        (
          new,
          All_map (λ o. Unseen o.operation_id (r.operation_id ∷ seen))
              (λ o. Unseen o.operation_id seen) rs (λ o u. u.1) news,
        ),
      )

  all_recent_complete :
      (seen : List String) (rs : List Record)
      → All (IsEnded valid) rs
      → UniqueRecent rs
      → NewRecent seen rs
      → (out : List String) × (all_recent valid seen rs ≡ ok out)
  unfolding all_recent
  all_recent_complete seen [] a u n = (seen, refl)
  all_recent_complete seen (r ∷ rs) a u n = rw (check_recent_complete seen r a.0 n.0) (
      all_recent_complete (r.operation_id ∷ seen) rs a.1 u.1 (
        All_both (λ o. o.operation_id ≢ r.operation_id) (λ o. Unseen o.operation_id seen)
          (λ o. Unseen o.operation_id (r.operation_id ∷ seen)) rs (λ o p q. (λ e. p (sym e), q)) u.0
          n.1))

  records_sound :
      (active : Assoc String Record) (recent : List Record) (s : Snapshot)
      → Distinct active
      → validate_records valid (some active) (some recent) ≡ ok s
      → WellFormed valid (record { active = active; recent = recent })
        × (s ≡ record { active = active; recent = recent })
  unfolding validate_records
  records_sound active recent s d h =
      let (seen, e, rest) =
        ok_cases (all_active [] active) (λ n. all_recent valid n recent >>= λ _. ok _) h in
      let (out, f, is_s) = ok_cases (all_recent valid seen recent) (λ _. ok _) rest in
      let (good, unique, _, is_seen) = all_active_sound [] active seen e in
      let (ended, once, news) = all_recent_sound seen recent out f in
      (
        record {
          distinct = d;
          all_active = good;
          all_ended = ended;
          unique_active = unique;
          unique_recent = once;
          apart =
              All_map (λ r. Unseen r.operation_id seen)
                (λ r. All (λ x. x.1.operation_id ≢ r.operation_id) active) recent
                (λ r u. ((Unseen-active_ids r.operation_id active []).0 (rw (← is_seen) u)).1) news;
        },
        cc,
      )

  records_complete :
      (s : Snapshot)
      → WellFormed valid s
      → validate_records valid (some s.active) (some s.recent) ≡ ok s
  unfolding validate_records
  records_complete s w =
      let (out, e) =
        all_recent_complete (active_ids s.active []) s.recent w.all_ended w.unique_recent (
          All_map (λ r. All (λ x. x.1.operation_id ≢ r.operation_id) s.active)
            (λ r. Unseen r.operation_id (active_ids s.active [])) s.recent
            (λ r p. (Unseen-active_ids r.operation_id s.active []).1 (tt, p)) w.apart) in
      rw (all_active_complete [] s.active w.all_active w.unique_active (nothing_seen s.active))
        (rw e)
    where
      nothing_seen : (m : Assoc String Record) → NewIds [] m
      nothing_seen [] = tt
      nothing_seen (_ ∷ m) = (tt, nothing_seen m)

  -- The checks of a loaded file pass exactly when its snapshot is well-formed, given that its map
  -- holds no group twice, as a Go map does: the groups match, the active records run, the recent
  -- ones ended with a code and a storable result, and no id stands anywhere twice.
  pub validate_iff :
      (s : Snapshot)
      → Distinct s.active
      → (validate_snapshot valid (encoded s) ≡ ok s) ↔ WellFormed valid s
  unfolding validate_snapshot
  validate_iff s d = (λ h. (records_sound s.active s.recent s d h).0, records_complete s)
