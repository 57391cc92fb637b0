-- ===== src/Operation/Tests.antt =====
-- The theorems of this part at concrete inputs.
use akastr_agent.Base.{
  ℕ, String, ◌≡◌, ◌≢◌, ◌↔◌, inl, refl, ap, Bool, true, false, ◌&&◌, not, Option, none, some, List,
  [], ◌∷◌, ◌++◌, ◌⊎◌, ok, err, if◌then◌else◌, is, String-discrete, ne_of_str_eq, get, put, delete,
  arith,
}
use akastr_agent.State.{holds, sync_directory, save, load}
use akastr_agent.Operation.Token.{stable_token}
use akastr_agent.Operation.Records.{
  Record, Error, running, succeeded, encoded, relaid, relaid_record, relaid_snapshot, relaid_active,
  relaid_recent, contains_id, contains_active, contains_recent, find_active, find_recent,
}
use akastr_agent.Operation.Validate.{
  non_empty, validate_snapshot, validate_records, validate_record_tokens, all_active, all_recent,
  check_active, seen_before,
}
use akastr_agent.Operation.WellFormed.{WellFormed}
use akastr_agent.Operation.Accepted.{validate_iff}
use akastr_agent.Operation.Journal.{
  Engine, started, begin, begin_guard, commit, finish_with_result, finish_found, finish_guard,
  remember, ended, open_journal,
}
use akastr_agent.Operation.Reopen.{Inv, IsJournalFile, begin-Inv, finish-Inv}
use akastr_agent.Operation.Fits.{AllFit, open_fits}
use akastr_agent.Operation.History.{Call, begins, restarts, empty_file, run, run-WellFormed}
use akastr_agent.Operation.Results.{begin_cases, Ended, finish-Ended}
use akastr_agent.Operation.Executor.{
  Offer, ExecutionResult, Handler, Execution, World, Moment, Codec, is_live, finish,
  finish_leftover, settle, after_begin, retry, first_begin, execute,
}
use akastr_agent.Operation.Replay.{RoundTrips, execute_twice}
use akastr_agent.Operation.Once.{NotRan, execute-NotRan}
use akastr_agent.Operation.Crash.{crash-NotRan}

abbrev changed : ExecutionResult
changed = record { outcome = "succeeded"; code = "change_triggered"; result = [] }

-- A codec that stores that one result, as {}.
abbrev codec_marshal : ExecutionResult → Option (List ℕ)
codec_marshal r =
    if is (String-discrete r.outcome "succeeded")
      && is (String-discrete r.code "change_triggered")
      && not (non_empty r.result)
    then some (b'{' ∷ b'}' ∷ [])
    else none

abbrev codec : Codec
codec = record { valid = λ b. true; marshal = codec_marshal; unmarshal = λ b. some changed }

no_bytes : (b : List ℕ) → non_empty b ≡ false → b ≡ []
no_bytes [] h = refl
no_bytes (c ∷ cs) h = cc

codec-RoundTrips : RoundTrips codec
codec-RoundTrips = record {
  decodes = λ r bytes h. (ground arith, ground (arith, no_bytes r.result));
}

abbrev handler : Handler
handler = record {
  run_offer = λ o. changed;
  recover = λ o. changed;
  failure = λ o code. record { outcome = "failed"; code = code; result = [] };
}

abbrev offer : Offer
offer = record { command_id = "c1"; command_type = "change_ip"; payload = [] }

abbrev world : World
world = record {
  begin_fault = none;
  leftover_fault = none;
  retry_fault = none;
  finish_fault = none;
  begin_now = 5;
  leftover_now = 6;
  retry_now = 7;
  finish_now = 8;
}

abbrev valid : List ℕ → Bool
valid = codec.valid

abbrev journal : Engine
journal = record {
  file = empty_file;
  recent_limit = 2;
  snapshot = record { active = []; recent = [] };
}

abbrev file_name : String
file_name = "state.json"

named : file_name ≢ ""
named = ne_of_str_eq file_name "" refl

journal-Inv : Inv valid journal
journal-Inv = record {
  memory = record {
    distinct = tt;
    all_active = tt;
    all_ended = tt;
    unique_active = tt;
    unique_recent = tt;
    apart = tt;
  };
  disk = inl refl;
  limited = omega arith;
}

-- A journal in which another process left the command running.
abbrev interrupted : Engine
interrupted = (begin none 3 "c1" "change_ip" "target-network" journal).0

interrupted-Inv : Inv valid interrupted
interrupted-Inv =
    begin-Inv valid none 3 "c1" "change_ip" "target-network" journal (omega arith) journal-Inv

abbrev same : Moment → Engine → Engine
same m e = e

-- A layout with one more byte.
abbrev layout : List ℕ → List ℕ
layout bytes = bytes ++ b' ' ∷ []

crash-NotRan_example :
    NotRan "c1"
      (execute codec handler ("c1" ∷ []) offer "target-network" world same interrupted).effects
unfolding begin begin_guard commit open_journal load save validate_snapshot validate_records
    all_active all_recent check_active validate_record_tokens seen_before contains_active
    contains_recent stable_token get put delete String-discrete is_live relaid relaid_record
    relaid_active relaid_recent
crash-NotRan_example =
    crash-NotRan codec layout file_name none 3 "change_ip" "target-network" handler ("c1" ∷ [])
      offer "target-network" world same journal interrupted interrupted (begun "c1") (λ e. e)
      (omega arith) journal-Inv refl refl refl (λ o v. v) (λ o c. c) (λ m o v. v) (λ m o c. c)
  where
    begun : String → Record
    begun id = started id "change_ip" "target-network" 3

execute-NotRan_example :
    NotRan "c1"
      (execute codec handler ("c1" ∷ []) offer "target-network" world same interrupted).effects
unfolding begin begin_guard commit save contains_active contains_recent stable_token get put delete
    String-discrete is_live
execute-NotRan_example =
    execute-NotRan codec handler ("c1" ∷ []) offer "target-network" world same interrupted
      interrupted-Inv.memory refl refl (λ m o v. v) (λ m o c. c)

interrupted_twice : Execution
interrupted_twice = execute codec handler ("c1" ∷ []) offer "target-network" world same interrupted

execute_twice_example :
    execute codec handler ("c1" ∷ []) offer "target-network" world same interrupted_twice.engine
    ≡ record { engine = interrupted_twice.engine; effects = []; answer = ok changed }
unfolding interrupted_twice execute first_begin retry finish_leftover after_begin settle finish
    finish_with_result finish_found finish_guard is_live remember begin begin_guard commit save
    contains_active contains_recent find_active find_recent stable_token get put delete
    String-discrete
execute_twice_example =
    execute_twice codec codec-RoundTrips handler handler ("c1" ∷ []) ("c1" ∷ []) offer
      "target-network" world world same same interrupted changed (λ m e v. v) (omega arith)
      (omega arith) interrupted-Inv refl
      (λ e.
        ne_of_str_eq "change_triggered" "operation_busy" refl
          (ap (λ (r : ExecutionResult). r.code) e))

abbrev rough_day : List Call
rough_day =
    begins (some sync_directory) 3 "c1" "change_ip" "g" ∷ restarts ∷ begins none 4 "c2" "k" "g" ∷ []

run-WellFormed_example :
    WellFormed valid (run valid layout file_name 2 journal rough_day).snapshot
    × IsJournalFile valid (run valid layout file_name 2 journal rough_day).file.stored
unfolding open_journal load String-discrete
run-WellFormed_example =
    run-WellFormed valid layout file_name 2 journal rough_day refl
      (omega arith, (tt, (omega arith, tt)))

abbrev finished : Record
finished = ended (started "c1" "change_ip" "target-network" 3) 9 succeeded "done" []

abbrev after_finish : Engine
after_finish = (finish_with_result valid none 9 "c1" succeeded "done" [] interrupted).0

finish-Ended_example : Ended valid "c1" succeeded "done" [] interrupted after_finish finished
unfolding finish_with_result finish_found finish_guard remember begin begin_guard commit save
    contains_active contains_recent find_active stable_token get put delete String-discrete
finish-Ended_example =
    finish-Ended valid "c1" none 9 succeeded "done" [] interrupted after_finish finished
      interrupted-Inv refl

-- A journal that remembers a result.
abbrev remembers : Engine
remembers = (finish_with_result valid none 9 "c1" succeeded "done" (b'{' ∷ b'}' ∷ []) interrupted).0

remembers-Inv : Inv valid remembers
remembers-Inv =
    finish-Inv valid none 9 "c1" succeeded "done" (b'{' ∷ b'}' ∷ []) interrupted interrupted-Inv

remembers_saved : remembers.file.stored ≡ holds (encoded remembers.snapshot)
unfolding finish_with_result finish_found finish_guard remember begin begin_guard commit save
    contains_active contains_recent find_active stable_token get put delete String-discrete
remembers_saved = refl

remembers_fit : AllFit valid layout remembers.snapshot.recent
unfolding finish_with_result finish_found finish_guard remember begin begin_guard commit save
    contains_active contains_recent find_active stable_token get put delete String-discrete relaid
remembers_fit = (record { short = omega arith; parses = λ e. refl; object = refl }, tt)

open_fits_example :
    open_journal valid layout false file_name 2 remembers.file
    ≡ ok (record {
      file = remembers.file;
      recent_limit = 2;
      snapshot = relaid_snapshot layout remembers.snapshot;
    })
open_fits_example =
    open_fits valid layout remembers.file file_name 2 remembers.snapshot remembers_saved
      remembers-Inv.memory remembers_fit named (omega arith)

begin_cases_example :
    let b = begin none 3 "c1" "change_ip" "g" journal in
    let r : Record = record {
      operation_id = "c1";
      kind = "change_ip";
      exclusive_group = "g";
      status = running;
      started_at = 3;
      finished_at = none;
      terminal_code = "";
      terminal_result = [];
    } in
    ((x : Error) × (b.1 ≡ err x) × (b.0.snapshot ≡ journal.snapshot))
    ⊎ ((b.1 ≡ ok r)
        × (stable_token "c1" ≡ true)
        × (stable_token "change_ip" ≡ true)
        × (stable_token "g" ≡ true)
        × (get journal.snapshot.active "g" ≡ none)
        × (contains_id journal.snapshot "c1" ≡ false)
        × (get b.0.snapshot.active "g" ≡ some r)
        × ((◌≡◌ {A = String} "h" "g")
            ⊎ (get b.0.snapshot.active "h" ≡ get journal.snapshot.active "h"))
        × (b.0.snapshot.recent ≡ journal.snapshot.recent)
        × (b.0.file.stored ≡ holds (encoded b.0.snapshot)))
begin_cases_example = begin_cases none 3 "c1" "change_ip" "g" journal "h"

validate_iff_example :
    (validate_snapshot valid (encoded interrupted.snapshot) ≡ ok interrupted.snapshot)
    ↔ WellFormed valid interrupted.snapshot
validate_iff_example = validate_iff valid interrupted.snapshot interrupted-Inv.memory.distinct
