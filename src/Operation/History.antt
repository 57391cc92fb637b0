-- ===== src/Operation/History.antt =====
-- Histories of the journal: calls whose saves may fail at any step, and restarts of the process. A
-- restart that Open refuses changes nothing.
use akastr_agent.Base.{
  ℕ, ◌<◌, String, ◌≡◌, inl, refl, Bool, false, Option, List, [], ◌∷◌, All, Result, ok, err,
}
use akastr_agent.State.{File, missing, SaveStep}
use akastr_agent.Operation.Records.{Status, Decoded, Error}
use akastr_agent.Operation.WellFormed.{WellFormed}
use akastr_agent.Operation.Journal.{Engine, begin, finish_with_result, open_journal}
use akastr_agent.Operation.Reopen.{Inv, IsJournalFile, begin-Inv, finish-Inv, open-Inv}

pub data Call : Type 0 where
  begins : Option SaveStep → ℕ → String → String → String → Call
  finishes : Option SaveStep → ℕ → String → Status → String → List ℕ → Call
  restarts : Call

-- The clock reads a time that is not the zero time.
abbrev pub IsTimed : Call → Type 0
IsTimed (begins fault now id kind group) = 0 < now
IsTimed _ = Unit

abbrev pub empty_file : File Decoded
empty_file = record { stored = missing }

module _ (valid : List ℕ → Bool) (layout : List ℕ → List ℕ) (name : String) (limit : ℕ) where
  abbrev pub reopen : File Decoded → Result Error Engine
  reopen f = open_journal valid layout false name limit f

  abbrev restarted : Engine → Result Error Engine → Engine
  restarted e (ok e') = e'
  restarted e (err x) = e

  unfoldable pub step : Engine → Call → Engine
  step e (begins fault now id kind group) = (begin fault now id kind group e).0
  step e (finishes fault now id status code result) =
      (finish_with_result valid fault now id status code result e).0
  step e restarts = restarted e (reopen e.file)

  unfoldable pub run : Engine → List Call → Engine
  run e [] = e
  run e (c ∷ cs) = run (step e c) cs

  step-Inv : (e : Engine) (c : Call) → IsTimed c → Inv valid e → Inv valid (step e c)
  unfolding step
  step-Inv e (begins fault now id kind group) t v = begin-Inv valid fault now id kind group e t v
  step-Inv e (finishes fault now id status code result) t v =
      finish-Inv valid fault now id status code result e v
  step-Inv e restarts t v = go (reopen e.file) refl
    where
      go : (o : Result Error Engine) → reopen e.file ≡ o → Inv valid (restarted e o)
      go (ok e') q = open-Inv valid layout e.file name limit e' v.disk q
      go (err x) q = v

  run-Inv : (e : Engine) (cs : List Call) → All IsTimed cs → Inv valid e → Inv valid (run e cs)
  unfolding run
  run-Inv e [] t v = v
  run-Inv e (c ∷ cs) t v = run-Inv (step e c) cs t.1 (step-Inv e c t.0 v)

  -- A process that starts without a state file and then makes any calls, in which any saves fail at
  -- any step and which restarts of the process interrupt anywhere, with a clock that does not read
  -- the zero time: the journal in memory is well-formed, and the state file is missing or holds a
  -- snapshot that was well-formed when it was saved.
  pub run-WellFormed :
      (e : Engine) (cs : List Call)
      → reopen empty_file ≡ ok e
      → All IsTimed cs
      → WellFormed valid (run e cs).snapshot × IsJournalFile valid (run e cs).file.stored
  run-WellFormed e cs first t =
      let v = run-Inv e cs t (open-Inv valid layout empty_file name limit e (inl refl) first) in
      (v.memory, v.disk)
