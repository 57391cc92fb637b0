-- ===== src/Operation/Once.antt =====
-- A command that the journal knows is never run, so none is run twice.
use akastr_agent.Base.{
  ℕ, String, ◌≡◌, ◌≢◌, inl, inr, refl, Bool, true, false, ◌&&◌, ◌||◌, not, Option, none, some, List,
  [], ◌∷◌, All, All-append, Result, ok, err, is, is_some, get, delete, delete_of_ne, Assoc,
  Distinct, String-discrete, Bool-cases, Option-cases, arith,
}
use akastr_agent.State.{SaveStep}
use akastr_agent.Operation.Records.{
  Record, Error, Status, contains_active, contains_recent, contains_id, find_active, find_recent,
}
use akastr_agent.Operation.WellFormed.{WellFormed, find_active-key}
use akastr_agent.Operation.Journal.{
  Engine, begin, begin_guard, commit, finish_found, finish_with_result, recent, active,
}
use akastr_agent.Operation.Executor.{
  Offer, ExecutionResult, Handler, Effect, ran, recovered, World, Moment, before_begin,
  before_leftover, before_retry, before_active, Codec, status_of, finish, finish_leftover, is_live,
  is_conflict, settle, after_begin, retry, first_begin, execute,
}

delete-contains :
    (m : Assoc String Record) (left id g : String) (r : Record)
    → Distinct m
    → find_active m left ≡ some (g, r)
    → left ≢ id
    → contains_active m id ≡ true
    → contains_active (delete m g) id ≡ true
unfolding find_active contains_active delete
delete-contains [] left id g r d f ne c = ground arith
delete-contains ((j, x) ∷ m) left id g r d f ne c = ground (
  arith,
  delete_of_ne m j d.0,
  find_active-key m left j g r d.0,
  delete-contains m left id g r d.1,
)

-- Finishing another command leaves the active one where it is.
finish-contains :
    (valid : List ℕ → Bool) (fault : Option SaveStep) (now : ℕ) (left : String) (status : Status)
    (code : String) (result : List ℕ) (id : String) (e : Engine)
    → Distinct e.snapshot.active
    → left ≢ id
    → contains_active e.snapshot.active id ≡ true
    → contains_active
        (finish_with_result valid fault now left status code result e).0.snapshot.active
        id
      ≡ true
unfolding finish_with_result finish_found commit
finish-contains valid fault now left status code result id e d ne c =
    go (find_active e.snapshot.active left) refl
  where
    go :
        (o : Option (String × Record))
        → find_active e.snapshot.active left ≡ o
        → contains_active
            (finish_with_result valid fault now left status code result e).0.snapshot.active
            id
          ≡ true
    go none q = ground arith
    go (some (g, r)) q = ground (arith, delete-contains e.snapshot.active left id g r d q ne c)

-- Begin refuses an id that the journal knows.
begin_known :
    (fault : Option SaveStep) (now : ℕ) (id kind group : String) (e : Engine)
    → contains_id e.snapshot id ≡ true
    → (x : Error) × (begin fault now id kind group e ≡ (e, err x))
unfolding begin begin_guard
begin_known fault now id kind group e c = go (begin_guard id kind group e.snapshot) refl
  where
    go :
        (g : Result Error (Unit {0}))
        → begin_guard id kind group e.snapshot ≡ g
        → (x : Error) × (begin fault now id kind group e ≡ (e, err x))
    go (ok _) q = absurd (ground arith)
    go (err x) q = (x, ground (arith, q))

-- The record that Recent finds is one that containsOperationID finds.
contains_recent-none :
    (rs : List Record) (id : String) → find_recent rs id ≡ none → contains_recent rs id ≡ false
unfolding contains_recent find_recent
contains_recent-none [] id h = refl
contains_recent-none (r ∷ rs) id h = ground (arith, contains_recent-none rs id)

-- The handler was not asked to run the command.
abbrev pub NotRan : String → List Effect → Type 0
NotRan id effects = All (λ f. f ≢ ran id) effects

module _ (codec : Codec) (handler : Handler) (live : List String) (offer : Offer)
    (group : String) where
  finish_keeps :
      (fault : Option SaveStep) (now : ℕ) (left : String) (x : ExecutionResult) (id : String)
      (e : Engine)
      → Distinct e.snapshot.active
      → left ≢ id
      → contains_active e.snapshot.active id ≡ true
      → contains_active (finish codec fault now left x e).0.snapshot.active id ≡ true
  unfolding finish
  finish_keeps fault now left x id e d ne c = elim (Option-cases (codec.marshal x)) [
    | inl m ↦ rw (m, finish) c
    | inr (bytes, m) ↦
        rw (m, finish)
          (finish-contains codec.valid fault now left (status_of x) x.code bytes id e d ne c)
  ]

  leftover-contains :
      (fault : Option SaveStep) (now : ℕ) (e : Engine)
      → Distinct e.snapshot.active
      → is_live live offer.command_id ≡ true
      → contains_active e.snapshot.active offer.command_id ≡ true
      → let l = finish_leftover codec handler live offer group fault now e in
        (contains_active l.0.snapshot.active offer.command_id ≡ true) × NotRan offer.command_id l.1
  unfolding finish_leftover
  leftover-contains fault now e d mine c = go (get e.snapshot.active group) refl
    where
      go :
          (o : Option Record)
          → get e.snapshot.active group ≡ o
          → let l = finish_leftover codec handler live offer group fault now e in
            (contains_active l.0.snapshot.active offer.command_id ≡ true)
            × NotRan offer.command_id l.1
      go none q = rw (q, finish_leftover) (c, tt)
      go (some left) q =
          elim (Bool-cases (
            is_live live left.operation_id
            || not (is (String-discrete left.kind offer.command_type)))) [
              | inl held ↦ rw (q, finish_leftover) (rw held (c, tt))
              | inr free ↦
                  let ne : left.operation_id ≢ offer.command_id = λ same. ground (arith, same) in
                  rw (q, finish_leftover)
                    (rw free (
                      finish_keeps fault now left.operation_id _ offer.command_id e d ne c,
                      (λ f. cc, tt),
                    ))
            ]

  module _ (w : World) (others : Moment → Engine → Engine) where
    after_begin-NotRan :
        (effects : List Effect) (e : Engine) (x : Error)
        → NotRan offer.command_id effects
        → NotRan offer.command_id
            (after_begin codec handler live offer group w others effects e (err x)).effects
    unfolding after_begin settle
    after_begin-NotRan effects e x n = go (active (others before_active e) offer.command_id) refl
      where
        go :
            (o : Option (String × Record))
            → active (others before_active e) offer.command_id ≡ o
            → NotRan offer.command_id
                (after_begin codec handler live offer group w others effects e (err x)).effects
        go none q = rw (q, after_begin) n
        go (some (g, r)) q =
            elim (Bool-cases (
              is (String-discrete r.kind offer.command_type)
              && is (String-discrete r.exclusive_group group))) [
                | inl own ↦
                    rw (q, after_begin)
                      (rw own (
                        All-append (λ f. f ≢ ran offer.command_id) effects
                          (recovered offer.command_id ∷ []) n (λ f. cc, tt)))
                | inr foreign ↦ rw (q, after_begin) (rw foreign n)
              ]

    retry-NotRan :
        (x : Error) (l : Engine × List Effect × Bool)
        → contains_active (others before_retry l.0).snapshot.active offer.command_id ≡ true
        → NotRan offer.command_id l.1
        → NotRan offer.command_id (retry codec handler live offer group w others x l).effects
    unfolding retry
    retry-NotRan x (e, effects, true) c n =
        let (y, q) =
          begin_known w.retry_fault w.retry_now offer.command_id offer.command_type group
            (others before_retry e) (ground arith) in
        rw q (after_begin-NotRan effects (others before_retry e) y n)
    retry-NotRan x (e, effects, false) c n = after_begin-NotRan effects e x n

    -- A command that the executor has taken up (so that it is among the live ones) and whose id
    -- the journal holds already, as running or as ended, is not run by its handler, whatever saves
    -- fail and whatever other commands do to the journal between its calls, as long as they keep the
    -- journal well-formed and leave this command active when it is: it is replayed, recovered or
    -- refused.
    pub execute-NotRan :
        (e : Engine)
        → WellFormed codec.valid e.snapshot
        → is_live live offer.command_id ≡ true
        → contains_id e.snapshot offer.command_id ≡ true
        → ((m : Moment) (o : Engine)
            → WellFormed codec.valid o.snapshot
            → WellFormed codec.valid (others m o).snapshot)
        → ((m : Moment) (o : Engine)
            → contains_active o.snapshot.active offer.command_id ≡ true
            → contains_active (others m o).snapshot.active offer.command_id ≡ true)
        → NotRan offer.command_id (execute codec handler live offer group w others e).effects
    unfolding execute first_begin
    execute-NotRan e v mine c sound leaves =
        elim (Bool-cases (is_some (recent e offer.command_id))) [
          | inl known ↦ rw known tt
          | inr fresh ↦
              let none_recent =
                contains_recent-none e.snapshot.recent offer.command_id (ground arith) in
              let e₁ = others before_begin e in
              let e₂ = others before_leftover e₁ in
              let c₁ : contains_active e₁.snapshot.active offer.command_id ≡ true =
                leaves before_begin e (ground arith) in
              let (x, q) =
                begin_known w.begin_fault w.begin_now offer.command_id offer.command_type group e₁
                  (ground arith) in
              let v₂ = sound before_leftover e₁ (sound before_begin e v) in
              let (still, quiet) =
                leftover-contains w.leftover_fault w.leftover_now e₂ v₂.distinct mine
                  (leaves before_leftover e₁ c₁) in
              rw fresh (
                rw q (elim (Bool-cases (is_conflict x)) [
                  | inl busy ↦ rw busy (retry-NotRan x _ (leaves before_retry _ still) quiet)
                  | inr other ↦ rw other (after_begin-NotRan [] e₁ x tt)
                ]))
        ]
