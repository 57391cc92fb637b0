-- ===== src/Operation/Fits.antt =====
-- When a journal that was saved opens again.
use akastr_agent.Base.{
  ℕ, ◌<◌, String, ◌≡◌, ◌≢◌, Bool, false, List, [], ◌∷◌, All, Assoc, ok, String-discrete, arith,
}
use akastr_agent.State.{File, holds, load}
use akastr_agent.Operation.Records.{
  Record, Snapshot, Decoded, encoded, relaid, relaid_record, relaid_active, relaid_recent,
  relaid_snapshot,
}
use akastr_agent.Operation.WellFormed.{
  IsNamed, IsActive, IsResult, IsEnded, UniqueActive, UniqueRecent, Apart, WellFormed,
}
use akastr_agent.Operation.Accepted.{validate_iff}
use akastr_agent.Operation.Journal.{open_journal}
use akastr_agent.Operation.Reopen.{relaid_active-Distinct}

module _ (valid : List ℕ → Bool) (layout : List ℕ → List ℕ) where
  -- The results that are remembered can be kept as the file lays them out, too.
  abbrev pub AllFit : List Record → Type 0
  AllFit rs = All (λ r. IsResult valid (relaid layout r.terminal_result)) rs

  relaid-IsNamed : (r : Record) → IsNamed r → IsNamed (relaid_record layout r)
  unfolding relaid_record
  relaid-IsNamed r n = record {
    id_token = n.id_token;
    kind_token = n.kind_token;
    group_token = n.group_token;
    has_start = n.has_start;
  }

  relaid-IsActive :
      (m : Assoc String Record) → All IsActive m → All IsActive (relaid_active layout m)
  unfolding relaid_active relaid_record
  relaid-IsActive [] a = tt
  relaid-IsActive ((g, r) ∷ m) a = (
    record {
      filed = a.0.filed;
      runs = a.0.runs;
      unfinished = a.0.unfinished;
      no_code = a.0.no_code;
      named = relaid-IsNamed r a.0.named;
    },
    relaid-IsActive m a.1,
  )

  relaid-IsEnded :
      (rs : List Record)
      → All (IsEnded valid) rs
      → AllFit rs
      → All (IsEnded valid) (relaid_recent layout rs)
  unfolding relaid_recent relaid_record
  relaid-IsEnded [] a f = tt
  relaid-IsEnded (r ∷ rs) a f = (
    record {
      terminal = a.0.terminal;
      finished = a.0.finished;
      code_token = a.0.code_token;
      result = f.0;
      named = relaid-IsNamed r a.0.named;
    },
    relaid-IsEnded rs a.1 f.1,
  )

  active_ids :
      (id : String) (m : Assoc String Record)
      → All (λ o. o.1.operation_id ≢ id) m
      → All (λ o. o.1.operation_id ≢ id) (relaid_active layout m)
  unfolding relaid_active relaid_record
  active_ids id [] a = tt
  active_ids id (o ∷ m) a = (a.0, active_ids id m a.1)

  recent_ids :
      (id : String) (rs : List Record)
      → All (λ o. o.operation_id ≢ id) rs
      → All (λ o. o.operation_id ≢ id) (relaid_recent layout rs)
  unfolding relaid_recent relaid_record
  recent_ids id [] a = tt
  recent_ids id (r ∷ rs) a = (a.0, recent_ids id rs a.1)

  relaid-UniqueActive :
      (m : Assoc String Record) → UniqueActive m → UniqueActive (relaid_active layout m)
  unfolding relaid_active relaid_record
  relaid-UniqueActive [] u = tt
  relaid-UniqueActive ((g, r) ∷ m) u = (active_ids r.operation_id m u.0, relaid-UniqueActive m u.1)

  relaid-UniqueRecent :
      (rs : List Record) → UniqueRecent rs → UniqueRecent (relaid_recent layout rs)
  unfolding relaid_recent relaid_record
  relaid-UniqueRecent [] u = tt
  relaid-UniqueRecent (r ∷ rs) u = (recent_ids r.operation_id rs u.0, relaid-UniqueRecent rs u.1)

  relaid-Apart :
      (m : Assoc String Record) (rs : List Record)
      → Apart m rs
      → Apart (relaid_active layout m) (relaid_recent layout rs)
  unfolding relaid_recent relaid_record
  relaid-Apart m [] a = tt
  relaid-Apart m (r ∷ rs) a = (active_ids r.operation_id m a.0, relaid-Apart m rs a.1)

  -- A state file that holds a well-formed journal opens, under a file name and a positive limit, to
  -- that journal with its results as the file lays them out, when each of these can still be kept:
  -- it is empty, or a JSON object of at most 8192 bytes.
  pub open_fits :
      (f : File Decoded) (name : String) (limit : ℕ) (s : Snapshot)
      → f.stored ≡ holds (encoded s)
      → WellFormed valid s
      → AllFit s.recent
      → name ≢ ""
      → 0 < limit
      → open_journal valid layout false name limit f
        ≡ ok (record { file = f; recent_limit = limit; snapshot = relaid_snapshot layout s })
  unfolding open_journal load
  open_fits f name limit s held w fit named some_room =
      let d = relaid_active-Distinct valid layout s.active w.distinct in
      ground (
        arith,
        held,
        (validate_iff valid (relaid_snapshot layout s) d).1 (record {
          distinct = d;
          all_active = relaid-IsActive s.active w.all_active;
          all_ended = relaid-IsEnded s.recent w.all_ended fit;
          unique_active = relaid-UniqueActive s.active w.unique_active;
          unique_recent = relaid-UniqueRecent s.recent w.unique_recent;
          apart = relaid-Apart s.active s.recent w.apart;
        }),
      )
