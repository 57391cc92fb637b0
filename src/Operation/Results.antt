-- ===== src/Operation/Results.antt =====
-- What a call of the journal does on every branch.
use akastr_agent.Base.{
  ℕ, ◌-◌, ◌<◌, ◌≤◌, String, ◌≡◌, ◌≢◌, ◌⊎◌, inl, inr, refl, sym, ap, subst, ◌∙◌, Bool, true, false,
  Option, none, some, List, [], ◌∷◌, ◌++◌, ltb, All, Bool-cases, Option-cases, Result, ok, err,
  length, length-append, length-drop, drop, get, delete, get-put, get-delete, Assoc, zero, suc,
  String-discrete, arith,
}
use akastr_agent.State.{SaveStep, save, holds}
use akastr_agent.State.Atomic.{save_atomic}
use akastr_agent.Operation.Token.{stable_token}
use akastr_agent.Operation.Records.{
  Record, Status, running, Snapshot, encoded, Error, save_failed, find_active, find_recent,
  contains_id,
}
use akastr_agent.Operation.WellFormed.{
  IsActive, delete-find_active, find_active-id, find_active-All,
}
use akastr_agent.Operation.Reopen.{Inv}
use akastr_agent.Operation.Journal.{
  Engine, commit, begin_guard, started, with_active, begin, remember, ended, with_ended,
  finish_guard, finish_found, finish_with_result,
}

pub commit_cases :
    (fault : Option SaveStep) (next : Snapshot) (r : Record) (e : Engine)
    → (((save fault (encoded next) e.file).1 ≡ none)
        × (commit fault next r e
            ≡ (record e { file = (save fault (encoded next) e.file).0; snapshot = next }, ok r)))
      ⊎ ((s : SaveStep) × (commit fault next r e
            ≡ (record e { file = (save fault (encoded next) e.file).0 }, err (save_failed s))))
unfolding commit
commit_cases fault next r e = elim (Option-cases (save fault (encoded next) e.file).1) [
  | inl q ↦ inl (q, rw (q, commit))
  | inr (s, q) ↦ inr (s, rw (q, commit))
]

-- Begin either returns an error and leaves the journal in memory as it was, or it returns a record of
-- the command that runs since now, without an end, a code or a result: then the tokens are stable,
-- the group was free and the id stood nowhere in the journal; the record is the one of its group, the
-- other groups and the remembered records are as they were, and the file holds this journal.
pub begin_cases :
    (fault : Option SaveStep) (now : ℕ) (id kind group : String) (e : Engine) (j : String)
    → let b = begin fault now id kind group e in
      let r : Record = record {
        operation_id = id;
        kind = kind;
        exclusive_group = group;
        status = running;
        started_at = now;
        finished_at = none;
        terminal_code = "";
        terminal_result = [];
      } in
      ((x : Error) × (b.1 ≡ err x) × (b.0.snapshot ≡ e.snapshot))
      ⊎ ((b.1 ≡ ok r)
          × (stable_token id ≡ true)
          × (stable_token kind ≡ true)
          × (stable_token group ≡ true)
          × (get e.snapshot.active group ≡ none)
          × (contains_id e.snapshot id ≡ false)
          × (get b.0.snapshot.active group ≡ some r)
          × ((j ≡ group) ⊎ (get b.0.snapshot.active j ≡ get e.snapshot.active j))
          × (b.0.snapshot.recent ≡ e.snapshot.recent)
          × (b.0.file.stored ≡ holds (encoded b.0.snapshot)))
unfolding begin begin_guard commit
begin_cases fault now id kind group e j =
    let new = started id kind group now in
    ground (
      arith,
      get-put e.snapshot.active group group new,
      get-put e.snapshot.active group j new,
      (save_atomic fault (encoded (with_active e.snapshot new)) e.file).1,
    )

find_active-none :
    (m : Assoc String Record) (id : String)
    → All (λ o. o.1.operation_id ≢ id) m
    → find_active m id ≡ none
unfolding find_active
find_active-none [] id h = refl
find_active-none ((g, r) ∷ m) id h = ground (arith, find_active-none m id h.1)

find_recent-concat :
    (rs : List Record) (r : Record) → find_recent (rs ++ r ∷ []) r.operation_id ≡ some r
unfolding find_recent
find_recent-concat [] r = ground arith
find_recent-concat (x ∷ xs) r = ground (arith, find_recent-concat xs r)

drop-concat :
    (n : ℕ) (rs : List Record) (r : Record)
    → n ≤ length rs
    → drop n (rs ++ r ∷ []) ≡ drop n rs ++ r ∷ []
drop-concat zero rs r h = refl
drop-concat (suc n) [] r h = absurd (omega arith)
drop-concat (suc n) (x ∷ xs) r h = drop-concat n xs r (omega arith)

length-remember-le :
    (limit : ℕ) (rs : List Record) (r : Record) → length (remember limit rs r) ≤ limit
unfolding remember
length-remember-le limit rs r =
    ground (arith, length-drop (length (rs ++ r ∷ []) - limit) (rs ++ r ∷ []))

find_recent-remember :
    (limit : ℕ) (rs : List Record) (r : Record)
    → 0 < limit
    → find_recent (remember limit rs r) r.operation_id ≡ some r
unfolding remember
find_recent-remember limit rs r h = elim (Bool-cases (ltb limit (length (rs ++ r ∷ [])))) [
  | inl long ↦ rw long (
      rw
        (drop-concat (length (rs ++ r ∷ []) - limit) rs r
          (omega (arith, length-append rs (r ∷ []))))
        (find_recent-concat (drop (length (rs ++ r ∷ []) - limit) rs) r))
  | inr short ↦ rw short (find_recent-concat rs r)
]

module _ (valid : List ℕ → Bool) where
  -- What holds after FinishWithResult has returned the record `r` of the command `id`.
  pub record Ended (id : String) (status : Status) (code : String) (result : List ℕ) (e e' : Engine)
      (r : Record) : Type 0 where
    pub as_told : (r.status ≡ status) × (r.terminal_code ≡ code) × (r.terminal_result ≡ result)
    pub not_active : find_active e'.snapshot.active id ≡ none
    pub remembered : find_recent e'.snapshot.recent id ≡ some r
    pub others :
        (j : String) → j ≢ r.exclusive_group → get e'.snapshot.active j ≡ get e.snapshot.active j
    pub bounded : length e'.snapshot.recent ≤ e.recent_limit
    pub saved : e'.file.stored ≡ holds (encoded e'.snapshot)

  committed-Ended :
      (id : String) (fault : Option SaveStep) (now : ℕ) (status : Status) (code : String)
      (result : List ℕ) (group : String) (r₀ : Record) (e : Engine)
      → Inv valid e
      → finish_guard valid status code result ≡ ok tt
      → find_active e.snapshot.active id ≡ some (group, r₀)
      → let done = ended r₀ now status code result in
        let next = with_ended e.recent_limit e.snapshot group done in
        let file' = (save fault (encoded next) e.file).0 in
        (save fault (encoded next) e.file).1 ≡ none
        → Ended id status code result e (record e { file = file'; snapshot = next }) done
  committed-Ended id fault now status code result group r₀ e v g p q =
      let done = ended r₀ now status code result in
      let s = e.snapshot in
      let w = v.memory in
      let is_id = find_active-id s.active id group r₀ p in
      let filed = (find_active-All IsActive s.active id group r₀ w.all_active p).filed in
      record {
        as_told = (refl, refl, refl);
        not_active =
            find_active-none (delete s.active group) id
              (delete-find_active s.active id group r₀ w.distinct w.unique_active p);
        remembered =
            subst (λ i. find_recent (remember e.recent_limit s.recent done) i ≡ some done) is_id
              (find_recent-remember e.recent_limit s.recent done v.limited);
        others = λ j ne. ground (arith, get-delete s.active group j, filed);
        bounded = length-remember-le e.recent_limit s.recent done;
        saved = (save_atomic fault (encoded (with_ended e.recent_limit s group done)) e.file).1 q;
      }

  -- Whenever FinishWithResult reports success: the command is no longer active, its record, with the
  -- status, code and result given, is the newest remembered one of its id, the other exclusive groups
  -- are as they were, no more records are remembered than the limit allows, and the state file holds
  -- this journal.
  pub finish-Ended :
      (id : String) (fault : Option SaveStep) (now : ℕ) (status : Status) (code : String)
      (result : List ℕ) (e e' : Engine) (r : Record)
      → Inv valid e
      → finish_with_result valid fault now id status code result e ≡ (e', ok r)
      → Ended id status code result e e' r
  unfolding finish_with_result finish_found
  finish-Ended id fault now status code result e e' r v h =
      go (finish_guard valid status code result) refl (find_active e.snapshot.active id) refl
    where
      go :
          (g : Result Error (Unit {0}))
          → finish_guard valid status code result ≡ g
          → (o : Option (String × Record)) → find_active e.snapshot.active id ≡ o
          → Ended id status code result e e' r
      go (err x) q o p = absurd (ground arith)
      go (ok _) q none p = absurd (ground arith)
      go (ok _) q (some (group, r₀)) p =
          let done = ended r₀ now status code result in
          elim (commit_cases fault (with_ended e.recent_limit e.snapshot group done) done e) [
            | inr (s, c) ↦ absurd (ground arith)
            | inl (saved, c) ↦
                let both : commit fault (with_ended e.recent_limit e.snapshot group done) done e
                    ≡ (e', ok r) =
                  ground arith in
                let e_eq = ap (λ (x : Engine × Result Error Record). x.0) (sym c ∙ both) in
                let r_eq : done ≡ r = cc (sym c ∙ both) in
                subst (λ x. Ended id status code result e e' x) r_eq
                  (subst (λ x. Ended id status code result e x done) e_eq
                    (committed-Ended id fault now status code result group r₀ e v q p saved))
          ]
