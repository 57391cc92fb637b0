-- ===== src/IpWatch/Tests.antt =====
-- The theorems of the reports of addresses, applied.
use akastr_agent.Base.{
  String, ◌≡◌, refl, Bool, true, false, none, some, List, [], ◌∷◌, All, arith, ok, is,
  String-discrete,
}
use akastr_agent.State.{missing, holds, load, rename}
use akastr_agent.IpWatch.Open.{
  fresh, open_monitor, open_loaded, validate_monitor_state, check_attempt, check_outcome,
}
use akastr_agent.IpWatch.{Persisted, Monitor, Attempt, Outcome, outcome_report}
use akastr_agent.Protocol.{valid_uuid, matches_places, matches_place, uuid_places}
use akastr_agent.IpWatch.Loop.{
  Observation, Watch, Call, looks, arms, observes, notifies, cancels, acknowledges, step, run,
}
use akastr_agent.IpWatch.Observed.{Inv}
use akastr_agent.IpWatch.Reports.{IsAbout, step-IsAbout, IsKept, step-IsKept, acknowledges_report}
use akastr_agent.IpWatch.Valid.{IsValid, IsGoodCall, IsGood}
use akastr_agent.IpWatch.Reopen.{run_opens, first_watch, open_run-Inv}

abbrev old_address : String
old_address = "192.0.2.1"

abbrev report_id : String
report_id = "6f7f3c2a-1111-4aaa-8bbb-000000000001"

abbrev command_id : String
command_id = "6f7f3c2a-1111-4aaa-8bbb-000000000002"

abbrev is_node_address : String → Bool
is_node_address s = is (String-discrete s old_address)

abbrev is_noon : String → Bool
is_noon s = is (String-discrete s "noon")

abbrev once_confirmed : Attempt
once_confirmed = record {
  command_id = command_id;
  address = old_address;
  reconcile_at = 120;
  confirmations = 1;
  outcome = none;
}

abbrev unchanged_outcome : Outcome
unchanged_outcome = record {
  report_id = report_id;
  changed = false;
  address = old_address;
  observed_at = "noon";
}

abbrev watch_of_monitor : Monitor → Watch
watch_of_monitor m = record { monitor = m; observing = false; observing_ipv6 = false }

abbrev watch_of : Attempt → Bool → Watch
watch_of a observing = record {
  monitor =
      fresh (record { stored = missing }) 60 false
        (record { schema_version = 1; change_attempt = some a });
  observing = observing;
  observing_ipv6 = false;
}

abbrev seen_again : Observation
seen_again = record { address = old_address; observed_at = "noon"; report_id = report_id }

open_attempt-Inv : Inv true (watch_of once_confirmed true).monitor
open_attempt-Inv = record {
  held = λ a e. refl;
  undecided = λ _. refl;
  settled = λ a o e q. ground arith;
}

step-IsAbout_example :
    All (IsAbout once_confirmed) (step is_node_address (watch_of once_confirmed true) looks).1
    × All
        (IsAbout once_confirmed)
        (step is_node_address (watch_of once_confirmed true) (observes none 200 seen_again)).1
step-IsAbout_example =
    step-IsAbout is_node_address none 200 seen_again (watch_of once_confirmed true) once_confirmed
      open_attempt-Inv refl

abbrev decided : Attempt
decided = record once_confirmed { confirmations = 2; outcome = some unchanged_outcome }

decided-Inv : Inv false (watch_of decided false).monitor
decided-Inv = record {
  held = λ a e. refl;
  undecided = λ h. ground arith;
  settled = λ a o e q. record { changed = ground arith; unchanged = ground arith };
}

step-IsKept_example :
    ((step is_node_address (watch_of decided false) looks).1
      ≡ outcome_report decided unchanged_outcome ∷ [])
    × IsKept decided
        (step is_node_address
          (watch_of decided false)
          (cancels none command_id)).0.monitor.persisted.change_attempt
        (acknowledges_report report_id (cancels none command_id))
step-IsKept_example =
    step-IsKept is_node_address (watch_of decided false) (cancels none command_id) decided
      unchanged_outcome decided-Inv refl refl

abbrev persisted : Persisted
persisted = record { schema_version = 1; change_attempt = some decided }

abbrev opened : Monitor
opened = fresh (record { stored = holds persisted }) 60 false persisted

opens : open_monitor is_node_address is_noon false opened.file 60 false ≡ ok opened
unfolding open_monitor open_loaded load validate_monitor_state check_attempt check_outcome
    valid_uuid matches_places matches_place uuid_places String-discrete
opens = refl

open_run-Inv_example :
    Inv
      (run is_node_address
        (watch_of_monitor opened)
        (notifies ∷ looks ∷ acknowledges (some rename) report_id ∷ [])).observing
      (run is_node_address
        (watch_of_monitor opened)
        (notifies ∷ looks ∷ acknowledges (some rename) report_id ∷ [])).monitor
open_run-Inv_example =
    open_run-Inv is_node_address is_noon false opened.file 60 false opened
      (notifies ∷ looks ∷ acknowledges (some rename) report_id ∷ []) opens

abbrev one_change : List Call
one_change =
    looks
    ∷ observes none 10 seen_again
    ∷ acknowledges none report_id
    ∷ arms (some rename) command_id old_address 20
    ∷ arms none command_id old_address 20
    ∷ looks
    ∷ observes none 200 seen_again
    ∷ []

good : IsGood is_node_address is_noon seen_again
unfolding valid_uuid matches_places matches_place uuid_places String-discrete
good = record { good_address = refl; good_time = refl; good_id = refl }

all_good : All (IsGoodCall is_node_address is_noon) one_change
unfolding IsGoodCall
all_good = (tt, (good, (tt, (tt, (tt, (tt, (good, tt)))))))

run_opens_example :
    (m : Monitor) × (open_monitor is_node_address is_noon false
        (run is_node_address (first_watch 60 false) one_change).monitor.file
        60
        false
      ≡ ok m)
    × IsValid is_node_address is_noon m.persisted
run_opens_example =
    run_opens is_node_address is_noon 60 false one_change (ground arith) (ground arith) all_good
