-- ===== src/Operation/WellFormed.antt =====
-- What holds of a journal at every moment, stated of its records and not by the program's checks.
use akastr_agent.Base.{
  ℕ, zero, suc, ◌≤◌, ◌<◌, String, ◌≡◌, ◌≢◌, Bool, true, false, none, some, List, [], ◌∷◌, is_some,
  length, All, All-append, All-delete, All-delete_head, Assoc, Distinct, delete, drop, ◌++◌, subst,
  arith, String-discrete,
}
use akastr_agent.Operation.Token.{stable_token}
use akastr_agent.Operation.Records.{Record, running, Snapshot, is_terminal, find_active}
use akastr_agent.Operation.Validate.{max_result, not_object, non_empty}

-- Its tokens are stable and it has a start time.
pub record IsNamed (r : Record) : Type 0 where
  pub id_token : stable_token r.operation_id ≡ true
  pub kind_token : stable_token r.kind ≡ true
  pub group_token : stable_token r.exclusive_group ≡ true
  pub has_start : 0 < r.started_at

-- A command under way, filed under its exclusive group.
pub record IsActive (e : String × Record) : Type 0 where
  pub filed : e.1.exclusive_group ≡ e.0
  pub runs : e.1.status ≡ running
  pub unfinished : e.1.finished_at ≡ none
  pub no_code : e.1.terminal_code ≡ ""
  pub named : IsNamed e.1

-- A result that can be kept: empty, or a JSON object of at most 8192 bytes.
pub record IsResult (valid : List ℕ → Bool) (result : List ℕ) : Type 0 where
  pub short : length result ≤ max_result
  pub parses : non_empty result ≡ true → valid result ≡ true
  pub object : not_object result ≡ false

-- A command that ended.
pub record IsEnded (valid : List ℕ → Bool) (r : Record) : Type 0 where
  pub terminal : is_terminal r.status ≡ true
  pub finished : is_some r.finished_at ≡ true
  pub code_token : stable_token r.terminal_code ≡ true
  pub result : IsResult valid r.terminal_result
  pub named : IsNamed r

-- No two active records, and no two recent ones, have one id.
abbrev pub UniqueActive : Assoc String Record → Type 0
UniqueActive [] = Unit
UniqueActive (e ∷ m) = All (λ o. o.1.operation_id ≢ e.1.operation_id) m × UniqueActive m

abbrev pub UniqueRecent : List Record → Type 0
UniqueRecent [] = Unit
UniqueRecent (r ∷ rs) = All (λ o. o.operation_id ≢ r.operation_id) rs × UniqueRecent rs

-- No active record has the id of a recent one.
abbrev pub Apart : Assoc String Record → List Record → Type 0
Apart m rs = All (λ r. All (λ e. e.1.operation_id ≢ r.operation_id) m) rs

pub record WellFormed (valid : List ℕ → Bool) (s : Snapshot) : Type 0 where
  pub distinct : Distinct s.active
  pub all_active : All IsActive s.active
  pub all_ended : All (IsEnded valid) s.recent
  pub unique_active : UniqueActive s.active
  pub unique_recent : UniqueRecent s.recent
  pub apart : Apart s.active s.recent

pub UniqueActive-delete :
    (m : Assoc String Record) (k : String) → UniqueActive m → UniqueActive (delete m k)
unfolding delete
UniqueActive-delete [] k u = tt
UniqueActive-delete ((j, r) ∷ m) k u = ground (
  arith,
  UniqueActive-delete m k u.1,
  All-delete (λ o. o.1.operation_id ≢ r.operation_id) m k u.0,
)

pub UniqueRecent-concat :
    (rs : List Record) (r : Record)
    → UniqueRecent rs
    → All (λ o. r.operation_id ≢ o.operation_id) rs
    → UniqueRecent (rs ++ r ∷ [])
UniqueRecent-concat [] r u f = (tt, tt)
UniqueRecent-concat (x ∷ xs) r u f = (
  All-append (λ o. o.operation_id ≢ x.operation_id) xs (r ∷ []) u.0 (f.0, tt),
  UniqueRecent-concat xs r u.1 f.1,
)

pub UniqueRecent-drop : (n : ℕ) (rs : List Record) → UniqueRecent rs → UniqueRecent (drop n rs)
UniqueRecent-drop zero rs u = u
UniqueRecent-drop (suc n) [] u = tt
UniqueRecent-drop (suc n) (r ∷ rs) u = UniqueRecent-drop n rs u.1

-- The group that findActive names is that of an entry, so no other entry than that one has it.
pub find_active-key :
    (m : Assoc String Record) (id k g : String) (r : Record)
    → All (λ o. o.0 ≢ k) m
    → find_active m id ≡ some (g, r)
    → g ≢ k
unfolding find_active
find_active-key [] id k g r h e = ground arith
find_active-key ((j, x) ∷ m) id k g r h e = ground (arith, find_active-key m id k g r h.1)

pub find_active-All {κ} :
    (P : String × Record → Type κ) (m : Assoc String Record) (id g : String) (r : Record)
    → All P m
    → find_active m id ≡ some (g, r)
    → P (g, r)
unfolding find_active
find_active-All P [] id g r h e = ground arith
find_active-All P ((j, x) ∷ m) id g r h e = ground (arith, find_active-All P m id g r h.1)

pub find_active-id :
    (m : Assoc String Record) (id g : String) (r : Record)
    → find_active m id ≡ some (g, r)
    → r.operation_id ≡ id
unfolding find_active
find_active-id [] id g r e = ground arith
find_active-id ((j, x) ∷ m) id g r e = ground (arith, find_active-id m id g r)

-- Once the group found for an id is deleted, no active record has the id.
pub delete-find_active :
    (m : Assoc String Record) (id g : String) (r : Record)
    → Distinct m
    → UniqueActive m
    → find_active m id ≡ some (g, r)
    → All (λ o. o.1.operation_id ≢ id) (delete m g)
unfolding find_active delete
delete-find_active [] id g r d u e = tt
delete-find_active ((j, x) ∷ m) id g r d u e = elim (String-discrete x.operation_id id) [
  | yes same ↦
      All-delete_head (λ o. o.1.operation_id ≢ id) m j g x (ground arith)
        (subst (λ i. All (λ o. o.1.operation_id ≢ i) m) same u.0)
  | no differs ↦ ground (arith, find_active-key m id j g r d.0, delete-find_active m id g r d.1 u.1)
]
