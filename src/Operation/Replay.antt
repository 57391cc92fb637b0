-- ===== src/Operation/Replay.antt =====
-- An answered command is never executed again: its answer is replayed.
use akastr_agent.Base.{
  ℕ, ◌<◌, String, ◌≡◌, ◌≢◌, ◌⊎◌, inl, inr, refl, true, Option, none, some, List, [], Result, ok,
  err, is_some, is, get, not, ◌&&◌, ◌||◌, String-discrete, Bool-cases, Option-cases, arith,
}
use akastr_agent.State.{SaveStep}
use akastr_agent.Operation.Records.{Record, Error}
use akastr_agent.Operation.Validate.{non_empty}
use akastr_agent.Operation.Journal.{Engine, begin, finish_with_result, recent, active}
use akastr_agent.Operation.Reopen.{Inv, begin-Inv, finish-Inv}
use akastr_agent.Operation.Results.{finish-Ended}
use akastr_agent.Operation.Executor.{
  Offer, ExecutionResult, Handler, Effect, Fault, Execution, World, Moment, before_begin,
  before_leftover, before_retry, before_active, before_finish, Codec, status_of, replay, finish,
  finish_leftover, is_live, is_conflict, settle, after_begin, retry, first_begin, execute,
}

-- What encoding/json does with a result: its text is not empty, and decodes to the result.
pub record RoundTrips (codec : Codec) : Type 0 where
  pub decodes :
      (r : ExecutionResult) (bytes : List ℕ)
      → codec.marshal r ≡ some bytes
      → (non_empty bytes ≡ true) × (codec.unmarshal bytes ≡ some r)

module _ (codec : Codec) (law : RoundTrips codec) where
  replay_of_recent :
      (e : Engine) (id : String) (r : Record) (x : ExecutionResult)
      → recent e id ≡ some r
      → codec.marshal x ≡ some r.terminal_result
      → replay codec e id ≡ ok x
  unfolding replay
  replay_of_recent e id r x h m = ground (arith, law.decodes x r.terminal_result m)

  finish-replay :
      (fault : Option SaveStep) (now : ℕ) (id : String) (x : ExecutionResult) (e : Engine)
      → Inv codec.valid e
      → (finish codec fault now id x e).1 ≡ ok tt
      → replay codec (finish codec fault now id x e).0 id ≡ ok x
  unfolding finish
  finish-replay fault now id x e v h = go (codec.marshal x) refl
    where
      ended_ok :
          (bytes : List ℕ) (o : Engine × Result Error Record)
          → finish_with_result codec.valid fault now id (status_of x) x.code bytes e ≡ o
          → codec.marshal x ≡ some bytes
          → replay codec (finish codec fault now id x e).0 id ≡ ok x
      ended_ok bytes (e', ok r) q m =
          let k = finish-Ended codec.valid id fault now (status_of x) x.code bytes e e' r v q in
          rw (m, q, finish) (replay_of_recent e' id r x k.remembered (rw k.as_told.2 m))
      ended_ok bytes (e', err y) q m = absurd (ground (arith, m, q))

      go :
          (o : Option (List ℕ))
          → codec.marshal x ≡ o
          → replay codec (finish codec fault now id x e).0 id ≡ ok x
      go none m = absurd (ground arith)
      go (some bytes) m =
          ended_ok bytes (finish_with_result codec.valid fault now id (status_of x) x.code bytes e)
            refl m

  finish_keeps :
      (fault : Option SaveStep) (now : ℕ) (id : String) (x : ExecutionResult) (e : Engine)
      → Inv codec.valid e
      → Inv codec.valid (finish codec fault now id x e).0
  unfolding finish
  finish_keeps fault now id x e v = elim (Option-cases (codec.marshal x)) [
    | inl m ↦ rw (m, finish) v
    | inr (bytes, m) ↦
        rw (m, finish) (finish-Inv codec.valid fault now id (status_of x) x.code bytes e v)
  ]

  module _ (handler : Handler) (live : List String) (offer : Offer) (group : String) where
    -- An answer other than "operation_busy" can be replayed from the journal.
    abbrev pub IsReplayable : Execution → Type 0
    IsReplayable x =
        (r : ExecutionResult)
        → x.answer ≡ ok r
        → (r ≡ handler.failure offer "operation_busy")
          ⊎ (replay codec x.engine offer.command_id ≡ ok r)

    module _ (w : World) (others : Moment → Engine → Engine)
        (kept : (m : Moment) (e : Engine) → Inv codec.valid e → Inv codec.valid (others m e))
        (begin_later : 0 < w.begin_now) (retry_later : 0 < w.retry_now) where
      settle-IsReplayable :
          (fault : Option SaveStep) (now : ℕ) (effects : List Effect) (x : ExecutionResult)
          (e : Engine)
          → Inv codec.valid e
          → IsReplayable (settle codec handler live offer group others fault now effects x e)
      unfolding settle
      settle-IsReplayable fault now effects x e v r h =
          go (finish codec fault now offer.command_id x (others before_finish e)).1 refl
        where
          go :
              (o : Result Fault (Unit {0}))
              → (finish codec fault now offer.command_id x (others before_finish e)).1 ≡ o
              → (r ≡ handler.failure offer "operation_busy")
                ⊎ (replay codec
                      (finish codec fault now offer.command_id x (others before_finish e)).0
                      offer.command_id
                    ≡ ok r)
          go (err y) q = absurd (ground arith)
          go (ok _) q =
              let same : x ≡ r = ground arith in
              inr (
                rw (← same) (
                  finish-replay fault now offer.command_id x (others before_finish e)
                    (kept before_finish e v) q))

      after_begin-IsReplayable :
          (effects : List Effect) (e : Engine) (o : Result Error Record)
          → Inv codec.valid e
          → IsReplayable (after_begin codec handler live offer group w others effects e o)
      unfolding after_begin
      after_begin-IsReplayable effects e (ok _) v = settle-IsReplayable _ _ _ _ e v
      after_begin-IsReplayable effects e (err x) v =
          go (active (others before_active e) offer.command_id) refl
        where
          go :
              (o : Option (String × Record))
              → active (others before_active e) offer.command_id ≡ o
              → IsReplayable (after_begin codec handler live offer group w others effects e (err x))
          go none q = rw (q, after_begin) (λ r h. inl (ground arith))
          go (some (g, left)) q =
              elim (Bool-cases (
                is (String-discrete left.kind offer.command_type)
                && is (String-discrete left.exclusive_group group))) [
                  | inl own ↦
                      rw (q, after_begin)
                        (rw own (settle-IsReplayable _ _ _ _ _ (kept before_active e v)))
                  | inr other ↦ rw (q, after_begin) (rw other (λ r h. absurd (ground arith)))
                ]

      leftover-Inv :
          (fault : Option SaveStep) (now : ℕ) (e : Engine)
          → Inv codec.valid e
          → Inv codec.valid (finish_leftover codec handler live offer group fault now e).0
      unfolding finish_leftover
      leftover-Inv fault now e v = go (get e.snapshot.active group) refl
        where
          go :
              (o : Option Record)
              → get e.snapshot.active group ≡ o
              → Inv codec.valid (finish_leftover codec handler live offer group fault now e).0
          go none q = rw (q, finish_leftover) v
          go (some left) q =
              elim (Bool-cases (
                is_live live left.operation_id
                || not (is (String-discrete left.kind offer.command_type)))) [
                  | inl held ↦ rw (q, finish_leftover) (rw held v)
                  | inr free ↦
                      rw (q, finish_leftover)
                        (rw free (finish_keeps fault now left.operation_id _ e v))
                ]

      first_begin-IsReplayable :
          (o : Engine × Result Error Record)
          → Inv codec.valid o.0
          → IsReplayable (first_begin codec handler live offer group w others o)
      unfolding first_begin retry
      first_begin-IsReplayable (e, ok r) v = after_begin-IsReplayable [] e (ok r) v
      first_begin-IsReplayable (e, err x) v =
          let l =
            finish_leftover codec handler live offer group w.leftover_fault w.leftover_now
              (others before_leftover e) in
          let v' = leftover-Inv w.leftover_fault w.leftover_now _ (kept before_leftover e v) in
          let again =
            begin-Inv codec.valid w.retry_fault w.retry_now offer.command_id offer.command_type
              group (others before_retry l.0) retry_later (kept before_retry l.0 v') in
          elim (Bool-cases (is_conflict x)) [
            | inr other ↦ rw other (after_begin-IsReplayable [] e (err x) v)
            | inl busy ↦ elim (Bool-cases l.2) [
              | inl freed ↦ rw (busy, freed, retry) (after_begin-IsReplayable l.1 _ _ again)
              | inr held ↦ rw (busy, held, retry) (after_begin-IsReplayable l.1 l.0 (err x) v')
            ]
          ]

      execute-IsReplayable :
          (e : Engine)
          → Inv codec.valid e
          → IsReplayable (execute codec handler live offer group w others e)
      unfolding execute
      execute-IsReplayable e v = elim (Bool-cases (is_some (recent e offer.command_id))) [
        | inl known ↦ rw known (λ r h. inr h)
        | inr fresh ↦ rw fresh (
            first_begin-IsReplayable
              (begin w.begin_fault w.begin_now offer.command_id offer.command_type group
                (others before_begin e))
              (begin-Inv codec.valid w.begin_fault w.begin_now offer.command_id offer.command_type
                group (others before_begin e) begin_later (kept before_begin e v)))
      ]

    replay_again :
        (w : World) (others : Moment → Engine → Engine) (e : Engine) (r : ExecutionResult)
        → replay codec e offer.command_id ≡ ok r
        → execute codec handler live offer group w others e
          ≡ record { engine = e; effects = []; answer = ok r }
    unfolding execute replay
    replay_again w others e r h = ground arith

  -- Of a journal that keeps its invariant, with clocks that do not read the zero time: whatever
  -- saves fail and whatever other commands do to the journal between its calls, when an execution answers
  -- a result other than that of a busy group, executing the same offer again, with any handler,
  -- calls no handler, changes nothing and answers the same result.
  pub execute_twice :
      (handler handler' : Handler) (live live' : List String) (offer : Offer) (group : String)
      (w w' : World) (others others' : Moment → Engine → Engine) (e : Engine) (r : ExecutionResult)
      → ((m : Moment) (o : Engine) → Inv codec.valid o → Inv codec.valid (others m o))
      → 0 < w.begin_now
      → 0 < w.retry_now
      → Inv codec.valid e
      → let x = execute codec handler live offer group w others e in
        x.answer ≡ ok r
        → r ≢ handler.failure offer "operation_busy"
        → execute codec handler' live' offer group w' others' x.engine
          ≡ record { engine = x.engine; effects = []; answer = ok r }
  execute_twice handler handler' live live' offer group w w' others others' e r kept b t v h ne =
      elim (execute-IsReplayable handler live offer group w others kept b t e v r h) [
        | inl busy ↦ absurd (ne busy)
        | inr done ↦
            replay_again handler' live' offer group w' others'
              (execute codec handler live offer group w others e).engine r done
      ]
