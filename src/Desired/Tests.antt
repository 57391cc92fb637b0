-- ===== src/Desired/Tests.antt =====
-- The theorems of the Desired modules, applied.
use akastr_agent.Base.{
  String, ◌||◌, ◌≡◌, refl, true, false, ◌&&◌, none, some, [], ◌∷◌, min, is, String-discrete,
  if◌then◌else◌, is_some, get, ◌⊎◌, arith,
}
use akastr_agent.Desired.{
  DesiredUnit, Status, Pass, begin_pass, named, report, put_state, set_keys, is_key, next_delay,
  reportable, differs,
}
use akastr_agent.Desired.Keys.{told, begin_pass-told, set_keys-named}
use akastr_agent.Desired.Backoff.{failures, doubled, failures-next_delay}

-- Two keys, of which one has a target that its module rejected.
abbrev unit_of_two : DesiredUnit
unit_of_two = record {
  targets = ("inbound-1", record { version = 3; state = "{}" }) ∷ [];
  invalid = ("inbound-2", 1) ∷ [];
  complete = true;
  sent = [];
}

begin_pass-told_example :
    (begin_pass unit_of_two ≡ none × unit_of_two.complete ≡ false)
    ⊎ ((p : Pass) × (begin_pass unit_of_two ≡ some p)
        × (unit_of_two.complete ≡ true)
        × (get p.states "inbound-2"
            ≡ told
                (get unit_of_two.targets "inbound-2")
                (is_some (get unit_of_two.invalid "inbound-2")))
        × (is_some (get p.states "inbound-2") ≡ named "inbound-2" unit_of_two))
begin_pass-told_example = begin_pass-told unit_of_two "inbound-2"

abbrev put_one : DesiredUnit
put_one = put_state (λ k s. true) "inbound-2" 4 "{}" unit_of_two

set_keys-named_example :
    (named "inbound-2" (set_keys ("inbound-1" ∷ []) unit_of_two)
      ≡ (is_key "inbound-2" ("inbound-1" ∷ []) && named "inbound-2" unit_of_two))
    × (get (set_keys ("inbound-1" ∷ []) unit_of_two).targets "inbound-2" ≡ (
        if is_key "inbound-2" ("inbound-1" ∷ [])
        then get unit_of_two.targets "inbound-2"
        else none))
    × (get (set_keys ("inbound-1" ∷ []) unit_of_two).invalid "inbound-2" ≡ (
        if is_key "inbound-2" ("inbound-1" ∷ [])
        then get unit_of_two.invalid "inbound-2"
        else none))
    × (named "inbound-2" put_one
        ≡ (is (String-discrete "inbound-2" "inbound-2") || named "inbound-2" unit_of_two))
    × ((◌≡◌ {A = String} "inbound-2" "inbound-2")
        ⊎ ((get put_one.targets "inbound-2" ≡ get unit_of_two.targets "inbound-2")
            × (get put_one.invalid "inbound-2" ≡ get unit_of_two.invalid "inbound-2")))
set_keys-named_example =
    set_keys-named ("inbound-1" ∷ []) (λ k s. true) "inbound-2" 4 "{}" unit_of_two "inbound-2"

abbrev applied_status : Status
applied_status = record { version = 3; code = "" }

abbrev same : DesiredUnit → DesiredUnit
same u = u

abbrev told_once : DesiredUnit
told_once = (report true same "inbound-1" applied_status unit_of_two).0

sent : (report true same "inbound-1" applied_status unit_of_two).1 ≡ some applied_status
unfolding report reportable differs named get String-discrete
sent = refl

failures-next_delay_example :
    (next_delay 30 300 true (failures 30 300 4) ≡ (min (doubled 30 4) 300, min (doubled 30 4) 300))
    × (next_delay 30 300 false (failures 30 300 4) ≡ (300, 0))
failures-next_delay_example = failures-next_delay 30 300 4 (ground arith)
