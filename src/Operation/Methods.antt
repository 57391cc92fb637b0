-- ===== src/Operation/Methods.antt =====
-- Begin and FinishWithResult keep the journal well-formed, in memory and on disk.
use akastr_agent.Base.{
  ℕ, ◌-◌, ◌<◌, String, ◌≡◌, ◌≢◌, ◌↔◌, inl, inr, refl, sym, Bool, false, some, List, [], ◌∷◌, ◌++◌,
  ltb, All, All_map, All-append, All-drop, All-delete, Bool-cases, ok, Assoc, Distinct-put,
  Distinct-delete, put, delete, String-discrete, length, arith,
}
use akastr_agent.Operation.Records.{
  Record, Status, Snapshot, contains_active, contains_recent, find_active,
}
use akastr_agent.Operation.WellFormed.{
  IsActive, IsEnded, UniqueRecent, Apart, WellFormed, UniqueActive-delete, UniqueRecent-concat,
  UniqueRecent-drop, find_active-All, find_active-id, delete-find_active,
}
use akastr_agent.Operation.Accepted.{bad_result_iff}
use akastr_agent.Operation.Journal.{
  begin_guard, started, with_active, remember, ended, with_ended, finish_guard,
}

contains_active_iff :
    (m : Assoc String Record) (id : String)
    → (contains_active m id ≡ false) ↔ All (λ e. e.1.operation_id ≢ id) m
unfolding contains_active
contains_active_iff [] id = ground arith
contains_active_iff (e ∷ m) id = ground (arith, contains_active_iff m id)

contains_recent_iff :
    (rs : List Record) (id : String)
    → (contains_recent rs id ≡ false) ↔ All (λ r. r.operation_id ≢ id) rs
unfolding contains_recent
contains_recent_iff [] id = ground arith
contains_recent_iff (r ∷ rs) id = ground (arith, contains_recent_iff rs id)

remember-All {κ} :
    (P : Record → Type κ) (limit : ℕ) (rs : List Record) (r : Record)
    → All P rs
    → P r
    → All P (remember limit rs r)
unfolding remember
remember-All P limit rs r h p =
    let all = All-append P rs (r ∷ []) h (p, tt) in
    elim (Bool-cases (ltb limit (length (rs ++ r ∷ [])))) [
      | inl long ↦ rw long (All-drop P (length (rs ++ r ∷ []) - limit) (rs ++ r ∷ []) all)
      | inr short ↦ rw short all
    ]

remember-UniqueRecent :
    (limit : ℕ) (rs : List Record) (r : Record)
    → UniqueRecent (rs ++ r ∷ [])
    → UniqueRecent (remember limit rs r)
unfolding remember
remember-UniqueRecent limit rs r u = elim (Bool-cases (ltb limit (length (rs ++ r ∷ [])))) [
  | inl long ↦ rw long (UniqueRecent-drop (length (rs ++ r ∷ []) - limit) (rs ++ r ∷ []) u)
  | inr short ↦ rw short u
]

module _ (valid : List ℕ → Bool) where
  pub started-WellFormed :
      (id kind group : String) (now : ℕ) (s : Snapshot)
      → begin_guard id kind group s ≡ ok tt
      → 0 < now
      → WellFormed valid s
      → WellFormed valid (with_active s (started id kind group now))
  unfolding begin_guard put
  started-WellFormed id kind group now s g later w =
      let fresh = (contains_active_iff s.active id).0 (ground arith) in
      let unused = (contains_recent_iff s.recent id).0 (ground arith) in
      record {
        distinct = Distinct-put s.active group (started id kind group now) w.distinct;
        all_active = (
          record {
            filed = refl;
            runs = refl;
            unfinished = refl;
            no_code = refl;
            named = record {
              id_token = ground arith;
              kind_token = ground arith;
              group_token = ground arith;
              has_start = later;
            };
          },
          All-delete IsActive s.active group w.all_active,
        );
        all_ended = w.all_ended;
        unique_active = (
          All-delete (λ o. o.1.operation_id ≢ id) s.active group fresh,
          UniqueActive-delete s.active group w.unique_active,
        );
        unique_recent = w.unique_recent;
        apart = apart_put s.recent unused w.apart;
      }
    where
      apart_put :
          (rs : List Record)
          → All (λ r. r.operation_id ≢ id) rs
          → Apart s.active rs
          → Apart (put s.active group (started id kind group now)) rs
      apart_put [] u a = tt
      apart_put (r ∷ rs) u a = (
        (λ e. u.0 (sym e), All-delete (λ x. x.1.operation_id ≢ r.operation_id) s.active group a.0),
        apart_put rs u.1 a.1,
      )

  pub ended-WellFormed :
      (limit now : ℕ) (id : String) (status : Status) (code : String) (result : List ℕ)
      (group : String) (r : Record) (s : Snapshot)
      → finish_guard valid status code result ≡ ok tt
      → find_active s.active id ≡ some (group, r)
      → WellFormed valid s
      → WellFormed valid (with_ended limit s group (ended r now status code result))
  unfolding finish_guard
  ended-WellFormed limit now id status code result group r s g e w =
      let was = find_active-All IsActive s.active id group r w.all_active e in
      let done = ended r now status code result in
      let gone = delete-find_active s.active id group r w.distinct w.unique_active e in
      record {
        distinct = Distinct-delete s.active group w.distinct;
        all_active = All-delete IsActive s.active group w.all_active;
        all_ended = remember-All (IsEnded valid) limit s.recent done w.all_ended (record {
          terminal = ground arith;
          finished = refl;
          code_token = ground arith;
          result = (bad_result_iff valid result).0 (ground arith);
          named = record {
            id_token = was.named.id_token;
            kind_token = was.named.kind_token;
            group_token = was.named.group_token;
            has_start = was.named.has_start;
          };
        });
        unique_active = UniqueActive-delete s.active group w.unique_active;
        unique_recent = remember-UniqueRecent limit s.recent done (
            UniqueRecent-concat s.recent done w.unique_recent (
              All_map (λ o. All (λ x. x.1.operation_id ≢ o.operation_id) s.active)
                (λ o. r.operation_id ≢ o.operation_id) s.recent
                (λ o a.
                  find_active-All (λ x. x.1.operation_id ≢ o.operation_id) s.active id group r a e)
                w.apart));
        apart =
            remember-All (λ o. All (λ x. x.1.operation_id ≢ o.operation_id) (delete s.active group))
              limit s.recent done
              (All_map (λ o. All (λ x. x.1.operation_id ≢ o.operation_id) s.active)
                (λ o. All (λ x. x.1.operation_id ≢ o.operation_id) (delete s.active group)) s.recent
                (λ o a. All-delete (λ x. x.1.operation_id ≢ o.operation_id) s.active group a)
                w.apart)
              (rw (find_active-id s.active id group r e) gone);
      }
