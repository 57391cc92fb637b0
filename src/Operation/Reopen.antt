-- ===== src/Operation/Reopen.antt =====
-- The journal over a history of calls, failed saves and restarts of the process.
use akastr_agent.Base.{
  ℕ, ◌<◌, String, ◌≡◌, ◌≢◌, ◌⊎◌, inl, inr, refl, sym, subst, ap, ◌∙◌, Bool, false, Option, All,
  Assoc, Distinct, none, some, List, [], ◌∷◌, Result, ok, err, Option-cases, String-discrete, arith,
}
use akastr_agent.State.{File, Stored, missing, holds, SaveStep, save, load}
use akastr_agent.State.Atomic.{save_atomic}
use akastr_agent.Operation.Records.{
  Record, Status, Snapshot, Decoded, encoded, Error, find_active, relaid_active, relaid_recent,
  relaid_snapshot,
}
use akastr_agent.Operation.Validate.{validate_snapshot, validate_records}
use akastr_agent.Operation.WellFormed.{WellFormed}
use akastr_agent.Operation.Accepted.{validate_iff}
use akastr_agent.Operation.Methods.{started-WellFormed, ended-WellFormed}
use akastr_agent.Operation.Journal.{
  Engine, commit, begin_guard, started, with_active, begin, ended, with_ended, finish_guard,
  finish_found, finish_with_result, open_journal,
}

module _ (valid : List ℕ → Bool) where
  -- What the state file holds between two calls: nothing, or a well-formed snapshot.
  abbrev pub IsJournalFile : Stored Decoded → Type 0
  IsJournalFile stored =
      (stored ≡ missing) ⊎ ((s : Snapshot) × (stored ≡ holds (encoded s)) × WellFormed valid s)

  pub record Inv (e : Engine) : Type 0 where
    pub memory : WellFormed valid e.snapshot
    pub disk : IsJournalFile e.file.stored
    pub limited : 0 < e.recent_limit

  save-IsJournalFile :
      (fault : Option SaveStep) (next : Snapshot) (f : File Decoded)
      → WellFormed valid next
      → IsJournalFile f.stored
      → IsJournalFile (save fault (encoded next) f).0.stored
  save-IsJournalFile fault next f w was = elim (save_atomic fault (encoded next) f).0 [
    | inl new ↦ inr (next, new, w)
    | inr old ↦ subst IsJournalFile (sym old) was
  ]

  commit-Inv :
      (fault : Option SaveStep) (next : Snapshot) (r : Record) (e : Engine)
      → WellFormed valid next
      → Inv e
      → Inv (commit fault next r e).0
  unfolding commit
  commit-Inv fault next r e w v =
      let disk = save-IsJournalFile fault next e.file w v.disk in
      elim (Option-cases (save fault (encoded next) e.file).1) [
        | inl q ↦ rw (q, commit) (record { memory = w; disk = disk; limited = v.limited })
        | inr (s, q) ↦
            rw (q, commit) (record { memory = v.memory; disk = disk; limited = v.limited })
      ]

  pub begin-Inv :
      (fault : Option SaveStep) (now : ℕ) (id kind group : String) (e : Engine)
      → 0 < now
      → Inv e
      → Inv (begin fault now id kind group e).0
  unfolding begin
  begin-Inv fault now id kind group e later v = go (begin_guard id kind group e.snapshot) refl
    where
      go :
          (g : Result Error (Unit {0}))
          → begin_guard id kind group e.snapshot ≡ g
          → Inv (begin fault now id kind group e).0
      go (err x) q = rw (q, begin) v
      go (ok _) q =
          rw (q, begin)
            (commit-Inv fault (with_active e.snapshot (started id kind group now))
              (started id kind group now) e
              (started-WellFormed valid id kind group now e.snapshot q later v.memory) v)

  pub finish-Inv :
      (fault : Option SaveStep) (now : ℕ) (id : String) (status : Status) (code : String)
      (result : List ℕ) (e : Engine)
      → Inv e
      → Inv (finish_with_result valid fault now id status code result e).0
  unfolding finish_with_result finish_found
  finish-Inv fault now id status code result e v =
      go (finish_guard valid status code result) refl (find_active e.snapshot.active id) refl
    where
      go :
          (g : Result Error (Unit {0}))
          → finish_guard valid status code result ≡ g
          → (o : Option (String × Record)) → find_active e.snapshot.active id ≡ o
          → Inv (finish_with_result valid fault now id status code result e).0
      go (err x) q o p = rw (q, finish_with_result) v
      go (ok _) q none p = rw (q, p, finish_with_result, finish_found) v
      go (ok _) q (some (group, r)) p =
          rw (q, p, finish_with_result, finish_found)
            (commit-Inv fault
              (with_ended e.recent_limit e.snapshot group (ended r now status code result))
              (ended r now status code result) e
              (ended-WellFormed valid e.recent_limit now id status code result group r e.snapshot q
                p v.memory)
              v)

  relaid-absent :
      (layout : List ℕ → List ℕ) (m : Assoc String Record) (k : String)
      → All (λ o. o.0 ≢ k) m
      → All (λ o. o.0 ≢ k) (relaid_active layout m)
  unfolding relaid_active
  relaid-absent layout [] k a = tt
  relaid-absent layout (o ∷ m) k a = (a.0, relaid-absent layout m k a.1)

  pub relaid_active-Distinct :
      (layout : List ℕ → List ℕ) (m : Assoc String Record)
      → Distinct m
      → Distinct (relaid_active layout m)
  unfolding relaid_active
  relaid_active-Distinct layout [] d = tt
  relaid_active-Distinct layout (o ∷ m) d =
      (relaid-absent layout m o.0 d.0, relaid_active-Distinct layout m d.1)

  validated_is :
      (d : Decoded) (m : Assoc String Record) (rs : List Record) (s : Snapshot)
      → d.active ≡ some m
      → d.recent ≡ some rs
      → validate_snapshot valid d ≡ ok s
      → s ≡ record { active = m; recent = rs }
  unfolding validate_snapshot validate_records
  validated_is d m rs s p q h = ground (arith, p, q, h)

  -- What opens from a file that the journal wrote is what was saved, with its results laid out.
  pub open_holds :
      (layout : List ℕ → List ℕ) (f : File Decoded) (name : String) (limit : ℕ) (e : Engine)
      (s : Snapshot)
      → f.stored ≡ holds (encoded s)
      → open_journal valid layout false name limit f ≡ ok e
      → (e.snapshot ≡ relaid_snapshot layout s)
        × (validate_snapshot valid (encoded (relaid_snapshot layout s))
            ≡ ok (relaid_snapshot layout s))
        × (e.file ≡ f)
        × (0 < e.recent_limit)
  unfolding open_journal load
  open_holds layout f name limit e s held h =
      go (validate_snapshot valid (encoded (relaid_snapshot layout s))) refl
    where
      go :
          (v : Result Error Snapshot)
          → validate_snapshot valid (encoded (relaid_snapshot layout s)) ≡ v
          → (e.snapshot ≡ relaid_snapshot layout s)
            × (validate_snapshot valid (encoded (relaid_snapshot layout s))
                ≡ ok (relaid_snapshot layout s))
            × (e.file ≡ f)
            × (0 < e.recent_limit)
      go (err x) q = absurd (ground (arith, held, h, q))
      go (ok s') q =
          let same =
            validated_is (encoded (relaid_snapshot layout s)) (relaid_active layout s.active)
              (relaid_recent layout s.recent) s' refl refl q in
          ground (arith, held, h, q, same)

  -- What opens from a file that the journal wrote is a well-formed journal.
  pub open-Inv :
      (layout : List ℕ → List ℕ) (f : File Decoded) (name : String) (limit : ℕ) (e : Engine)
      → IsJournalFile f.stored
      → open_journal valid layout false name limit f ≡ ok e
      → Inv e
  unfolding open_journal load
  open-Inv layout f name limit e (inl gone) h = record {
    memory = subst (WellFormed valid) same.0 (record {
      distinct = tt;
      all_active = tt;
      all_ended = tt;
      unique_active = tt;
      unique_recent = tt;
      apart = tt;
    });
    disk = inl (ground (arith, same.1));
    limited = same.2;
  }
    where
      same :
          (record { active = []; recent = [] } ≡ e.snapshot) × (e.file ≡ f) × (0 < e.recent_limit)
      same = (ground arith, ground arith, ground arith)
  open-Inv layout f name limit e (inr (s, held, w)) h =
      let (is, passes, file, room) = open_holds layout f name limit e s held h in
      record {
        memory = subst (WellFormed valid) (sym is) (
            (validate_iff valid (relaid_snapshot layout s)
                (relaid_active-Distinct layout s.active w.distinct)).0
              passes);
        disk = inr (s, ap (λ x. x.stored) file ∙ held, w);
        limited = room;
      }
