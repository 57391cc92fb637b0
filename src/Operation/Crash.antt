-- ===== src/Operation/Crash.antt =====
-- A process that stops while a command runs.
use akastr_agent.Base.{
  ℕ, ◌<◌, String, ◌≡◌, inl, inr, refl, sym, ◌∙◌, subst, ap, true, false, ◌||◌, List, [], ◌∷◌,
  Option, some, ok, get, Assoc, is, String-discrete, arith,
}
use akastr_agent.State.{SaveStep, holds}
use akastr_agent.Operation.Records.{Record, encoded, contains_active, relaid_active, relaid_record}
use akastr_agent.Operation.Journal.{Engine, begin, open_journal}
use akastr_agent.Operation.WellFormed.{WellFormed}
use akastr_agent.Operation.Reopen.{Inv, begin-Inv, open_holds, open-Inv}
use akastr_agent.Operation.Results.{begin_cases}
use akastr_agent.Operation.Executor.{Offer, Handler, World, Moment, Codec, is_live, execute}
use akastr_agent.Operation.Once.{NotRan, execute-NotRan}

get-contains :
    (m : Assoc String Record) (k id : String) (r : Record)
    → get m k ≡ some r
    → r.operation_id ≡ id
    → contains_active m id ≡ true
unfolding get contains_active
get-contains [] k id r h e = ground arith
get-contains ((j, x) ∷ m) k id r h e = ground (arith, get-contains m k id r, h, e)

relaid-contains :
    (layout : List ℕ → List ℕ) (m : Assoc String Record) (id : String)
    → contains_active (relaid_active layout m) id ≡ contains_active m id
unfolding relaid_active relaid_record contains_active
relaid-contains layout [] id = refl
relaid-contains layout ((j, x) ∷ m) id =
    ap (λ b. is (String-discrete x.operation_id id) || b) (relaid-contains layout m id)

-- What opens from the file that a successful Begin left has the command active.
begun-contains :
    (codec : Codec) (layout : List ℕ → List ℕ) (name : String) (fault : Option SaveStep) (now : ℕ)
    (id kind group : String) (e e₁ e₂ : Engine) (r : Record)
    → begin fault now id kind group e ≡ (e₁, ok r)
    → open_journal codec.valid layout false name e.recent_limit e₁.file ≡ ok e₂
    → contains_active e₂.snapshot.active id ≡ true
begun-contains codec layout name fault now id kind group e e₁ e₂ r begun opens =
    elim (begin_cases fault now id kind group e group) [
      | inl (x, refused, _) ↦ absurd (ground (arith, begun, refused))
      | inr (told, _, _, _, _, _, there, _, _, held) ↦
          let at : (begin fault now id kind group e).0 ≡ e₁ = ap (λ x. x.0) begun in
          let (is_relaid, _, _, _) =
            open_holds codec.valid layout e₁.file name e.recent_limit e₂ e₁.snapshot
              (subst (λ x. x.file.stored ≡ holds (encoded x.snapshot)) at held) opens in
          let c : contains_active e₁.snapshot.active id ≡ true =
            subst (λ x. contains_active x.snapshot.active id ≡ true) at
              (get-contains _ group id _ there refl) in
          subst (λ x. contains_active x.active id ≡ true) (sym is_relaid)
            (relaid-contains layout e₁.snapshot.active id ∙ c)
    ]

-- A command whose Begin succeeded, with a clock that does not read the zero time: if the process
-- stops after that, and a new process opens the state file, then the first time that the new process
-- executes the command it does not run it. Before that execution, and between its calls, other
-- commands may change the journal in any way that keeps it well-formed and leaves this command
-- active; any saves may fail.
pub crash-NotRan :
    (codec : Codec) (layout : List ℕ → List ℕ) (name : String) (fault : Option SaveStep) (now : ℕ)
    (kind group : String) (handler : Handler) (live : List String) (offer : Offer) (group' : String)
    (w : World) (others : Moment → Engine → Engine) (e e₁ e₂ : Engine) (r : Record)
    (start : Engine → Engine)
    → 0 < now
    → Inv codec.valid e
    → begin fault now offer.command_id kind group e ≡ (e₁, ok r)
    → open_journal codec.valid layout false name e.recent_limit e₁.file ≡ ok e₂
    → is_live live offer.command_id ≡ true
    → ((o : Engine) → WellFormed codec.valid o.snapshot → WellFormed codec.valid (start o).snapshot)
    → ((o : Engine)
        → contains_active o.snapshot.active offer.command_id ≡ true
        → contains_active (start o).snapshot.active offer.command_id ≡ true)
    → ((m : Moment) (o : Engine)
        → WellFormed codec.valid o.snapshot
        → WellFormed codec.valid (others m o).snapshot)
    → ((m : Moment) (o : Engine)
        → contains_active o.snapshot.active offer.command_id ≡ true
        → contains_active (others m o).snapshot.active offer.command_id ≡ true)
    → NotRan offer.command_id (execute codec handler live offer group' w others (start e₂)).effects
crash-NotRan codec layout name fault now kind group handler live offer group' w others e e₁ e₂ r
      start later v begun opens mine start_sound start_leaves sound leaves =
    let v₁ =
      subst (λ x. Inv codec.valid x.0) begun
        (begin-Inv codec.valid fault now offer.command_id kind group e later v) in
    let v₂ = open-Inv codec.valid layout e₁.file name e.recent_limit e₂ v₁.disk opens in
    let c =
      begun-contains codec layout name fault now offer.command_id kind group e e₁ e₂ r begun
        opens in
    let c₃ = start_leaves e₂ c in
    execute-NotRan codec handler live offer group' w others (start e₂) (start_sound e₂ v₂.memory)
      mine (ground (arith, c₃)) sound leaves
