-- ===== src/Updater/Tests.antt =====
-- The theorem of the updater, applied.
use akastr_agent.Base.{String, ◌≡◌, refl, Bool, true, false, none, some, [], ◌∷◌, String-discrete}
use akastr_agent.State.{missing, holds, save, load}
use akastr_agent.Lifecycle.{update, try_update}
use akastr_agent.Updater.{
  Attempts, Updater, Outside, held, apply, load_attempts, check_loaded, record_of, allowed,
  apply_record, after_prepare, try_start, start,
}
use akastr_agent.Updater.Starts.{IsStart, apply-IsStart}
use akastr_agent.Base.{same_codes, ok, ◌⊎◌, ◌≢◌}
use akastr_agent.Protocol.{matches_places, matches_place}
use akastr_agent.Updater.Target.{
  Target, validate, known_status, version_fault, changed, iff, is_sha256, is_binary_url,
}
use akastr_agent.Updater.Forward.{IsForward, validate-IsForward}
use akastr_agent.Updater.Versions.{
  parse_version, parse_codes, parse_major, parse_minor, parse_patch, after_dot, number_of,
  canonical, value_from, span_digits, digit, older,
}

abbrev first : Updater
first = record {
  file = record { stored = missing };
  gate = record { updating = false; operations = 0; leases = [] };
  rejected = "";
  rejected_at = 0;
}

abbrev no_code : String → Bool
no_code s = false

abbrev all_well : Outside
all_well = record {
  lock = held;
  unopened = false;
  now = 1000;
  safe_before = true;
  prepared = none;
  prepared_at = 1001;
  safe_after = true;
  started_at = 1002;
  fault = none;
  replaced = true;
}

abbrev candidate : Attempts
candidate = record {
  schema = 1;
  target = "v1.2.0-r7";
  attempts = 1;
  last_attempt_at = 1002;
  last_error = "";
}

abbrev leased : Updater
leased = record first {
  file = record { stored = holds candidate };
  gate = record {
    updating = true;
    operations = 0;
    leases = record { kind = update; released = false } ∷ [];
  };
}

starts : (apply no_code "v1.2.0-r7" all_well first).started ≡ some leased
unfolding apply load_attempts check_loaded load save apply_record allowed after_prepare try_start
    try_update start String-discrete
starts = refl

apply-IsStart_example :
    (r : Attempts) × (load_attempts no_code false first.file ≡ some r)
    × IsStart all_well (record_of "v1.2.0-r7" r) leased
apply-IsStart_example = apply-IsStart no_code "v1.2.0-r7" all_well first leased starts

abbrev next_release : Target
next_release = record {
  schema = "akastr-agent-maintenance.v2";
  status = "update_available";
  version = "v1.10.0";
  binary_url =
      "https://github.com/akastrmix/akastr-agent/releases/download/v1.10.0/akastr-agent-linux-amd64";
  binary_sha256 = "0123456789abcdef0123456789abcdef0123456789abcdef0123456789abcdef";
  revision = 5;
  has_configuration = false;
}

next_passes : validate "v1.9.3" 5 next_release ≡ ok tt
unfolding validate known_status version_fault parse_version parse_codes parse_major parse_minor
    parse_patch after_dot number_of canonical value_from span_digits digit older changed iff
    is_sha256 is_binary_url matches_places matches_place same_codes String-discrete
next_passes = refl

validate-IsForward_example :
    IsForward "v1.9.3" 5 next_release
    × ((¬ (next_release.status ≡ "current"))
        ⊎ ((next_release.version ≡ "v1.9.3") × (next_release.revision ≡ 5)))
    × ((next_release.has_configuration ≡ false)
        ⊎ ((next_release.status ≡ "update_available") × (next_release.revision ≢ 5)))
validate-IsForward_example = validate-IsForward "v1.9.3" 5 next_release tt next_passes
