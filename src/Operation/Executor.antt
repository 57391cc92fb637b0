-- ===== src/Operation/Executor.antt =====
-- internal/operation/executor.go. A handler, which a module supplies, is a parameter, and so are
-- json.Marshal and json.Unmarshal of a result. Of an execution the model gives the journal that it
-- leaves, the handler's calls that have effects, in order, and what it returns. Other commands may
-- change the journal between two of its calls: `others` is what they do to it at each moment. What
-- execute reads of Recent, and replay after it, it reads of one journal.
use akastr_agent.Base.{
  ℕ, String, Bool, true, false, ◌&&◌, ◌||◌, not, Option, none, some, List, [], ◌∷◌, ◌++◌,
  if◌then◌else◌, is, is_some, Result, ok, err, get, String-discrete,
}
use akastr_agent.State.{SaveStep}
use akastr_agent.Operation.Records.{Record, Status, succeeded, failed, cancelled, Error, conflict}
use akastr_agent.Operation.Validate.{non_empty}
use akastr_agent.Operation.Journal.{Engine, begin, finish_with_result, recent, active}

-- protocol.OperationOffer, with what the executor reads.
pub record Offer : Type 0 where
  pub command_id : String
  pub command_type : String
  pub payload : List ℕ

-- protocol.ExecutionResult; `result` stands for the values of the map.
pub record ExecutionResult : Type 0 where
  pub outcome : String
  pub code : String
  pub result : List ℕ

pub record Handler : Type 0 where
  pub run_offer : Offer → ExecutionResult
  pub recover : Offer → ExecutionResult
  pub failure : Offer → String → ExecutionResult

-- A call of a handler for the command of an id.
pub data Effect : Type 0 where
  ran recovered : String → Effect

pub data Fault : Type 0 where
  missing_result undecodable unencodable wrong_journal : Fault
  begin_failed finish_failed : Error → Fault

pub record Execution : Type 0 where
  pub engine : Engine
  pub effects : List Effect
  pub answer : Result Fault ExecutionResult

-- When other commands may change the journal: before which call of the engine.
pub data Moment : Type 0 where
  before_begin before_leftover before_retry before_active before_finish : Moment

-- The saves that fail and the clock, for each of the four writes that an execution may make.
pub record World : Type 0 where
  pub begin_fault : Option SaveStep
  pub leftover_fault : Option SaveStep
  pub retry_fault : Option SaveStep
  pub finish_fault : Option SaveStep
  pub begin_now : ℕ
  pub leftover_now : ℕ
  pub retry_now : ℕ
  pub finish_now : ℕ

-- e.running[id]
unfoldable pub is_live : List String → String → Bool
is_live [] id = false
is_live (x ∷ xs) id = is (String-discrete x id) || is_live xs id

abbrev pub is_conflict : Error → Bool
is_conflict conflict = true
is_conflict _ = false

abbrev pub status_of : ExecutionResult → Status
status_of r =
    if is (String-discrete r.outcome "succeeded")
    then succeeded
    else if is (String-discrete r.outcome "cancelled")
    then cancelled
    else failed

pub record Codec : Type 0 where
  pub valid : List ℕ → Bool
  pub marshal : ExecutionResult → Option (List ℕ)
  pub unmarshal : List ℕ → Option ExecutionResult

module _ (codec : Codec) where
  abbrev decoded : List ℕ → Result Fault ExecutionResult
  decoded bytes =
      if not (non_empty bytes)
      then err missing_result
      else elim (codec.unmarshal bytes) [ none ↦ err undecodable | some r ↦ ok r ]

  unfoldable pub replay : Engine → String → Result Fault ExecutionResult
  replay e id = elim (recent e id) [
    | none ↦ err missing_result
    | some r ↦ decoded r.terminal_result
  ]

  -- finish
  unfoldable pub finish :
      Option SaveStep → ℕ → String → ExecutionResult → Engine → Engine × Result Fault (Unit {0})
  finish fault now id r e = elim (codec.marshal r) [
    | none ↦ (e, err unencodable)
    | some persisted ↦
        let (e', done) =
          finish_with_result codec.valid fault now id (status_of r) r.code persisted e in
        (e', elim done [ ok _ ↦ ok tt | err x ↦ err (finish_failed x) ])
  ]

  module _ (handler : Handler) (live : List String) (offer : Offer) (group : String) where
    abbrev leftover_offer : Record → Offer
    leftover_offer left = record {
      command_id = left.operation_id;
      command_type = left.kind;
      payload = [];
    }

    -- finishLeftover, which reports whether the group is free.
    unfoldable pub finish_leftover : Option SaveStep → ℕ → Engine → Engine × List Effect × Bool
    finish_leftover fault now e = elim (get e.snapshot.active group) [
      | none ↦ (e, [], false)
      | some left ↦
          if is_live live left.operation_id
            || not (is (String-discrete left.kind offer.command_type))
          then (e, [], false)
          else (let (e', done) =
                finish fault now left.operation_id (handler.recover (leftover_offer left)) e in
              (e', recovered left.operation_id ∷ [], elim done [ ok _ ↦ true | err _ ↦ false ]))
    ]

    -- The rest of execute, once a handler is chosen.
    unfoldable pub settle :
        (Moment → Engine → Engine)
        → Option SaveStep
        → ℕ
        → List Effect
        → ExecutionResult
        → Engine
        → Execution
    settle others fault now effects r e =
        let (e', done) = finish fault now offer.command_id r (others before_finish e) in
        record {
          engine = e';
          effects = effects;
          answer = elim done [ ok _ ↦ ok r | err x ↦ err x ];
        }

    -- What follows Begin, by its result.
    unfoldable pub after_begin :
        World → (Moment → Engine → Engine) → List Effect → Engine → Result Error Record → Execution
    after_begin w others effects e (ok _) =
        settle others w.finish_fault w.finish_now (effects ++ ran offer.command_id ∷ [])
          (handler.run_offer offer) e
    after_begin w others effects e (err x) =
        elim (active (others before_active e) offer.command_id) [
          | none ↦ record {
            engine = others before_active e;
            effects = effects;
            answer =
                if is_conflict x
                then ok (handler.failure offer "operation_busy")
                else err (begin_failed x);
          }
          | some (_, r) ↦
              if is (String-discrete r.kind offer.command_type)
                && is (String-discrete r.exclusive_group group)
              then settle others w.finish_fault w.finish_now
                  (effects ++ recovered offer.command_id ∷ []) (handler.recover offer)
                  (others before_active e)
              else record {
                engine = others before_active e;
                effects = effects;
                answer = err (begin_failed x);
              }
        ]

    -- Begin, once more when the first met a conflict and the leftover was finished.
    unfoldable pub retry :
        World → (Moment → Engine → Engine) → Error → Engine × List Effect × Bool → Execution
    retry w others x (e, effects, freed) =
        if freed
        then (let (e', r) =
              begin w.retry_fault w.retry_now offer.command_id offer.command_type group
                (others before_retry e) in
            after_begin w others effects e' r)
        else after_begin w others effects e (err x)

    unfoldable pub first_begin :
        World → (Moment → Engine → Engine) → Engine × Result Error Record → Execution
    first_begin w others (e, ok r) = after_begin w others [] e (ok r)
    first_begin w others (e, err x) =
        if is_conflict x
        then retry w others x
            (finish_leftover w.leftover_fault w.leftover_now (others before_leftover e))
        else after_begin w others [] e (err x)

    -- execute
    unfoldable pub execute : World → (Moment → Engine → Engine) → Engine → Execution
    execute w others e =
        if is_some (recent e offer.command_id)
        then record { engine = e; effects = []; answer = replay e offer.command_id }
        else first_begin w others (
            begin w.begin_fault w.begin_now offer.command_id offer.command_type group
              (others before_begin e))
